-- ===== src/Mkfs/Log/Laws.antt =====
-- What `slog` and `blog` compute.
use native.Mathlib.Nat.{pow-le-pow_right}
use native.Mathlib.Decide.{ℕ_discrete}
use smashfs.Base.{ℕ, zero, suc, ◌+◌, ◌^◌, ◌≤◌, ◌<◌, ◌≡◌, ◌≢◌, refl, ap, arith, inl, inr}
use smashfs.Base.{
  pos, negsuc, Bool-cases, ◌==◌, ltb, ltb→lt, ltb→ge, if◌then◌else◌, true, leb, le→leb,
}
use smashfs.Base.{passes, passes_lem, ==_iff, false}
use smashfs.Mkfs.Log.{slog, blog, blog_loop}

-- The loop from `i` on ends at the first exponent whose power is above the number.
blog_loop_lem :
    (left i n : ℕ)
    → i + left ≡ 64
    → n < 2 ^ 62
    → i ≤ 62
    → (n < 2 ^ blog_loop left i n)
      × (i ≤ blog_loop left i n)
      × (blog_loop left i n ≤ 62)
      × ((k : ℕ) → i ≤ k → n < 2 ^ k → blog_loop left i n ≤ k)
unfolding blog_loop
blog_loop_lem zero i n e h le = absurd (omega arith)
blog_loop_lem (suc left) i n e h le = elim (Bool-cases (ltb n (2 ^ i))) [
  | inl below ↦
      (let small : (i == 63) ≡ false = ground arith in
        rw (small, below) (ltb→lt n (2 ^ i) below, omega arith, le, λ k p q. p))
  | inr above ↦
      (let small : (i == 63) ≡ false = ground arith in
        let ge : 2 ^ i ≤ n = ltb→ge n (2 ^ i) above in
        let cap62 = λ (p : 62 ≤ i). pow-le-pow_right {n = 2} (omega arith) p in
        let more : i ≢ 62 = λ e'. let g = cap62 (omega arith) in omega arith in
        let (a, b, c, d) = blog_loop_lem left (i + 1) n (omega arith) h (omega arith) in
        rw (small, above)
          (
            a,
            omega arith,
            c,
            λ k p q. elim (ℕ_discrete k i) [
              | yes same ↦ absurd (omega (arith, ap (λ (t : ℕ). 2 ^ t) same))
              | no other ↦ d k (omega arith) q
            ],
          ))
]

-- `blog` gives every number below 2 ^ 62 a width that holds it, from 1 to 62, and the least one.
pub blog_lem :
    (n : ℕ)
    → n < 2 ^ 62
    → (n < 2 ^ blog (pos n))
      × (1 ≤ blog (pos n))
      × (blog (pos n) ≤ 62)
      × ((k : ℕ) → 1 ≤ k → n < 2 ^ k → blog (pos n) ≤ k)
unfolding blog
blog_lem n h = blog_loop_lem 63 1 n (omega arith) h (omega arith)

pub blog_negative : (n : ℕ) → blog (negsuc n) ≡ 0
unfolding blog
blog_negative n = refl

-- A 32-bit value gets a width that a 32-bit field can have.
pub blog-le_32 : (n : ℕ) → n < 2 ^ 32 → blog (pos n) ≤ 32
blog-le_32 n h = (blog_lem n (omega arith)).3 32 (omega arith) h

-- A width that holds the greatest value holds every value.
pub blog_holds : (n m : ℕ) → n ≤ m → m < 2 ^ 62 → n < 2 ^ blog (pos m)
blog_holds n m le h = let (a, b, c, d) = blog_lem m h in omega arith

slog_table : passes (λ i. if leb 12 i then slog (2 ^ i) == i else true) 21 ≡ true
unfolding slog passes
slog_table = refl

slog-pow : (i : ℕ) → 12 ≤ i → i ≤ 20 → slog (2 ^ i) ≡ i
slog-pow i lo hi =
    let row = passes_lem _ 21 slog_table i (omega arith) in
    (==_iff _ _).0 (rw (le→leb 12 i lo) at row)

pow-slog : (b : ℕ) → slog b ≢ 0 → 2 ^ slog b ≡ b
unfolding slog
pow-slog b h = ground arith

-- `slog` inverts the powers of two from 2 ^ 12 to 2 ^ 20, and a size that is no such power gives 0.
pub slog_lem :
    (b : ℕ) → ((i : ℕ) → 12 ≤ i → i ≤ 20 → slog (2 ^ i) ≡ i) × (slog b ≢ 0 → 2 ^ slog b ≡ b)
slog_lem b = (slog-pow, pow-slog b)
