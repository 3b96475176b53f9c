-- ===== src/Buffer/Grow.antt =====
-- The doubling loop of `buffer_add` ends, with room for what is needed.
use native.Mathlib.Nat.{pow-suc}
use smashfs.Base.{ℕ, zero, suc, ◌*◌, ◌^◌, ◌≤◌, ◌<◌, ◌≡◌, ap, arith, inl, inr}
use smashfs.Base.{ok, Bool-cases, leb, leb→le, leb→gt, lt→ltb, ◌==◌, le→leb, gt→leb, false}
use smashfs.Buffer.{grow}

-- The loop from a nonzero size `s`: with `f` doublings it passes `need`.
grow_pos :
    (f need s : ℕ)
    → 0 < s
    → need < s * 2 ^ f
    → need < 2 ^ 62
    → (r : ℕ) × (grow (suc f) need s ≡ ok r) × (need < r)
unfolding grow
grow_pos zero need s hs h cap = let lt : need < s = omega arith in (s, rw (gt→leb s need lt), lt)
grow_pos (suc f) need s hs h cap = elim (Bool-cases (leb s need)) [
  | inl more ↦
      (let le : s ≤ need = leb→le s need more in
        let more_room : need < s * 2 * 2 ^ f =
          omega (arith, h, ap (λ (t : ℕ). s * t) (pow-suc 2 f)) in
        let (r, run, big) = grow_pos f need (s * 2) (omega arith) more_room cap in
        let nonzero : (s == 0) ≡ false = ground arith in
        (r, rw (more, nonzero, lt→ltb (s * 2) (2 ^ 63) (omega arith)) run, big))
  | inr done ↦ (s, rw done, leb→gt s need done)
]

grow_zero :
    (f need : ℕ)
    → need < 2 ^ f
    → need < 2 ^ 62
    → (r : ℕ) × (grow (suc (suc f)) need 0 ≡ ok r) × (need < r)
unfolding grow
grow_zero f need h cap =
    let (r, run, big) = grow_pos f need 1 (omega arith) (omega arith) cap in
    (r, rw (le→leb 0 need (omega arith)) run, big)

-- 65 rounds are enough from every size.
pub grow_lem : (need s : ℕ) → need < 2 ^ 62 → (r : ℕ) × (grow 65 need s ≡ ok r) × (need < r)
grow_lem need zero h = grow_zero 63 need (omega arith) h
grow_lem need (suc s) h = grow_pos 64 need (suc s) (omega arith) (omega arith) h
