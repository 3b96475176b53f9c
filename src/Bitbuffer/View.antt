-- ===== src/Bitbuffer/View.antt =====
-- The bits of a byte array as a sequence, and the number that a run of them spells.
use native.Mathlib.Nat.{pow-suc}
use smashfs.Base.{ℕ, zero, suc, ◌+◌, ◌-◌, ◌*◌, ◌/◌, ◌%◌, ◌^◌, ◌≤◌, ◌<◌, ◌≡◌, refl, ap, arith}
use smashfs.Base.{
  Bool, true, [], ◌∷◌, ltb, ◌&&◌, List, get_or, replicate, get_or-replicate, byte_bit,
}

abbrev pub byte_at : List ℕ → ℕ → ℕ
byte_at buf i = get_or buf i 0

abbrev pub IsBytes : List ℕ → Type 0
IsBytes buf = (i : ℕ) → byte_at buf i < 256

unfoldable pub bit_at : List ℕ → ℕ → ℕ
bit_at buf i = byte_bit (byte_at buf (i / 8)) (i % 8)

-- The `n` bits from bit `i` on, read as a binary number.
unfoldable pub field : List ℕ → ℕ → ℕ → ℕ
field buf i zero = 0
field buf i (suc n) = field buf i n * 2 + bit_at buf (i + n)

pub bit_at-lt : (buf : List ℕ) (i : ℕ) → bit_at buf i < 2
unfolding bit_at
bit_at-lt buf i = omega arith

pub field-lt : (buf : List ℕ) (i n : ℕ) → field buf i n < 2 ^ n
unfolding field
field-lt buf i zero = omega arith
field-lt buf i (suc n) = omega (arith, pow-suc 2 n, field-lt buf i n, bit_at-lt buf (i + n))

pub field-suc :
    (buf : List ℕ) (i n : ℕ) → field buf i (suc n) ≡ field buf i n * 2 + bit_at buf (i + n)
unfolding field
field-suc buf i n = refl

-- A field depends only on its own bits.
pub field_ext :
    (xs ys : List ℕ) (i n : ℕ)
    → ((j : ℕ) → i ≤ j → j < i + n → bit_at xs j ≡ bit_at ys j)
    → field xs i n ≡ field ys i n
unfolding field
field_ext xs ys i zero h = refl
field_ext xs ys i (suc n) h =
    let last : bit_at xs (i + n) ≡ bit_at ys (i + n) = h (i + n) (omega arith) (omega arith) in
    let rest = field_ext xs ys i n (λ j p q. h j p (omega arith)) in omega (arith, last, rest)

-- A field in two parts.
pub field-add :
    (buf : List ℕ) (i n m : ℕ) → field buf i (n + m) ≡ field buf i n * 2 ^ m + field buf (i + n) m
unfolding field
field-add buf i n zero = let e : n + 0 ≡ n = omega arith in rw e (omega arith)
field-add buf i n (suc m) =
    let e : n + suc m ≡ suc (n + m) = omega arith in
    let e' : i + (n + m) ≡ i + n + m = omega arith in
    let ih = field-add buf i n m in
    rw e (omega (arith, ih, ap (bit_at buf) e', ap (λ (t : ℕ). field buf i n * t) (pow-suc 2 m)))

pub field_one : (buf : List ℕ) (i : ℕ) → field buf i 1 ≡ bit_at buf i
unfolding field
field_one buf i = let e : i + 0 ≡ i = omega arith in rw e (omega arith)

-- The bits of one byte.
pub bit_at_aligned :
    (buf : List ℕ) (i k : ℕ)
    → i % 8 ≡ 0
    → k < 8
    → bit_at buf (i + k) ≡ byte_bit (byte_at buf (i / 8)) k
unfolding bit_at
bit_at_aligned buf i k h lt =
    let q : (i + k) / 8 ≡ i / 8 = omega arith in let r : (i + k) % 8 ≡ k = omega arith in rw (q, r)

-- A whole byte is the field of its eight bits.
pub field_byte :
    (buf : List ℕ) (i : ℕ)
    → i % 8 ≡ 0
    → byte_at buf (i / 8) < 256
    → field buf i 8 ≡ byte_at buf (i / 8)
unfolding field
field_byte buf i h lt = omega (
  arith,
  bit_at_aligned buf i 0 h (omega arith),
  bit_at_aligned buf i 1 h (omega arith),
  bit_at_aligned buf i 2 h (omega arith),
  bit_at_aligned buf i 3 h (omega arith),
  bit_at_aligned buf i 4 h (omega arith),
  bit_at_aligned buf i 5 h (omega arith),
  bit_at_aligned buf i 6 h (omega arith),
  bit_at_aligned buf i 7 h (omega arith),
)

pub bit_at-replicate : (n i : ℕ) → bit_at (replicate n 0) i ≡ 0
unfolding bit_at
bit_at-replicate n i =
    rw (get_or-replicate {A = ℕ} n (i / 8) 0) (ground (arith, zero_div (7 - i % 8)))
  where
    zero_div : (k : ℕ) → 0 / 2 ^ k ≡ 0
    zero_div k = omega arith

pub IsBytes-replicate : (n : ℕ) → IsBytes (replicate n 0)
IsBytes-replicate n i = omega (arith, get_or-replicate {A = ℕ} n i 0)

-- A check of a concrete array.
abbrev pub are_bytes : List ℕ → Bool
are_bytes [] = true
are_bytes (x ∷ xs) = ltb x 256 && are_bytes xs

pub are_bytes→IsBytes : (buf : List ℕ) → are_bytes buf ≡ true → IsBytes buf
are_bytes→IsBytes [] h i = omega arith
are_bytes→IsBytes (x ∷ xs) h zero = ground arith
are_bytes→IsBytes (x ∷ xs) h (suc i) = are_bytes→IsBytes xs (ground arith) i
