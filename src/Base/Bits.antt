-- ===== src/Base/Bits.antt =====
-- `|` of disjoint fields as a sum, at every width, and single bits of a byte.
use Prim.Native.Nat.{ℕ, zero, suc, ◌+◌, ◌-◌, ◌*◌, ◌/◌, ◌%◌, ◌^◌, ◌≤◌, ◌<◌, max, bit_or, digits}
use Prim.Native.Nat.{bit_or-bitwise}
use mathlib.Core.Path.{◌≡◌, refl, ap}
use mathlib.Core.Bool.{Bool, true, ◌&&◌}
use native.Mathlib.Nat.{pow-suc}
use native.Mathlib.Omega.{arith}
use smashfs.Base.Tests.{◌==◌, ==_iff, if◌then◌else◌}

-- The digit recursion behind `|` does not depend on its fuel.
abbrev or_digits : ℕ → ℕ → ℕ → ℕ
or_digits n a b = digits (λ y. y) max n a b

or_digits_fuel : (n m a b : ℕ) → a ≤ n → a ≤ m → or_digits n a b ≡ or_digits m a b
or_digits_fuel zero zero a b p q = refl
or_digits_fuel zero (suc m) zero b p q = refl
or_digits_fuel zero (suc m) (suc a) b p q = absurd (omega arith)
or_digits_fuel (suc n) zero zero b p q = refl
or_digits_fuel (suc n) zero (suc a) b p q = absurd (omega arith)
or_digits_fuel (suc n) (suc m) zero b p q = refl
or_digits_fuel (suc n) (suc m) (suc a) b p q =
    omega (arith, or_digits_fuel n m (suc a / 2) (b / 2) (omega arith) (omega arith))

zero-bit_or : (b : ℕ) → bit_or 0 b ≡ b
zero-bit_or b = bit_or-bitwise 0 b

-- The lowest digit of `|`.
bit_or_halves : (a b : ℕ) → bit_or a b ≡ max (a % 2) (b % 2) + 2 * bit_or (a / 2) (b / 2)
bit_or_halves zero b = omega (arith, zero-bit_or b, zero-bit_or (b / 2))
bit_or_halves (suc a) b = omega (
  arith,
  bit_or-bitwise (suc a) b,
  bit_or-bitwise (suc a / 2) (b / 2),
  or_digits_fuel a (suc a / 2) (suc a / 2) (b / 2) (omega arith) (omega arith),
)

bit_or-zero_fuel : (n a : ℕ) → a ≤ n → bit_or a 0 ≡ a
bit_or-zero_fuel n zero h = zero-bit_or 0
bit_or-zero_fuel zero (suc a) h = absurd (omega arith)
bit_or-zero_fuel (suc n) (suc a) h =
    omega (arith, bit_or_halves (suc a) 0, bit_or-zero_fuel n (suc a / 2) (omega arith))

-- `(q << k) | r` is a sum when `r` fits in `k` bits.
pub bit_or-shifted : (k q r : ℕ) → r < 2 ^ k → bit_or (q * 2 ^ k) r ≡ q * 2 ^ k + r
bit_or-shifted zero q r h = ground (arith, bit_or-zero_fuel q q)
bit_or-shifted (suc k) q r h =
    let double : q * 2 ^ suc k ≡ 2 * (q * 2 ^ k) =
      omega (arith, ap (λ (t : ℕ). q * t) (pow-suc 2 k)) in
    ground (
      arith,
      double,
      pow-suc 2 k,
      bit_or_halves (q * 2 ^ suc k) r,
      bit_or-shifted k q (r / 2) (omega (arith, pow-suc 2 k)),
    )

-- Bit `j` of a byte, the most significant first.
abbrev pub byte_bit : ℕ → ℕ → ℕ
byte_bit x j = x / 2 ^ (7 - j) % 2

-- A test that a table of all arguments below a bound passes.
unfoldable pub passes : (ℕ → Bool) → ℕ → Bool
passes test zero = true
passes test (suc bound) = passes test bound && test bound

pub passes_lem :
    (test : ℕ → Bool) (bound : ℕ) → passes test bound ≡ true → (i : ℕ) → i < bound → test i ≡ true
unfolding passes
passes_lem test (suc bound) table i below =
    let earlier : passes test bound ≡ true → i < bound → test i ≡ true =
      λ t lt. passes_lem test bound t i lt in
    ground arith
passes_lem test zero table i below = absurd (omega arith)

-- Every byte, bit position, written bit and bit read, in one number.
or_table :
    passes
      (λ c.
        let x = c / 128 in
        let k = c / 16 % 8 in
        let v = c / 8 % 2 in
        let j = c % 8 in
        byte_bit (bit_or x (v * 2 ^ (7 - k)) % 256) j
        == (if j == k then (if byte_bit x k == 0 then v else 1) else byte_bit x j))
      32768
    ≡ true
unfolding passes
or_table = refl

-- Writing bit `v` at a position of a byte sets that bit, or leaves it set, and keeps the others.
pub byte_bit-bit_or :
    (x k v j : ℕ)
    → x < 256
    → k < 8
    → v < 2
    → j < 8
    → byte_bit (bit_or x (v * 2 ^ (7 - k)) % 256) j
      ≡ (if j == k then (if byte_bit x k == 0 then v else 1) else byte_bit x j)
byte_bit-bit_or x k v j hx hk hv hj =
    let e1 : (x * 128 + k * 16 + v * 8 + j) / 128 ≡ x = omega arith in
    let e2 : (x * 128 + k * 16 + v * 8 + j) / 16 % 8 ≡ k = omega arith in
    let e3 : (x * 128 + k * 16 + v * 8 + j) / 8 % 2 ≡ v = omega arith in
    let e4 : (x * 128 + k * 16 + v * 8 + j) % 8 ≡ j = omega arith in
    let row =
      (==_iff _ _).0 (passes_lem _ 32768 or_table (x * 128 + k * 16 + v * 8 + j) (omega arith)) in
    rw (e1, e2, e3, e4) at row
