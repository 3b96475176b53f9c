-- ===== src/Mkfs/Jobs/Progress.antt =====
-- The compressing threads of src/mkfs/mkfs.c come to their end.
use smashfs.Base.{ℕ, zero, suc, ◌+◌, ◌-◌, ◌*◌, ◌<◌, ◌≤◌, ◌≡◌, refl, arith, List, length, get_elem?}
use smashfs.Base.{Option, some, update, get_elem?-lt}
use native.Mathlib.Decide.{dec_lt}
use smashfs.Mkfs.{Block}
use smashfs.Mkfs.Jobs.{Pc, looking, holding, storing, ended, System, by, Reach, here, next}
use smashfs.Mkfs.Jobs.Moves.{Move, leave, skip, claim, refuse, outgrow, keep, finish, move-Move}
use smashfs.Mkfs.Jobs.Invariant.{Reach-Inv}

-- The steps that a thread has left at most, of `n` blocks.
abbrev left : ℕ → Pc → ℕ
left n (looking b) = 3 * (n - b) + 1
left n (holding b) = 3 * (n - b)
left n (storing b) = 3 * (n - b) - 1
left n ended = 0

-- The sum over the first threads.
total : (Pc → ℕ) → ℕ → (ℕ → Pc) → ℕ
total w zero f = 0
total w (suc m) f = total w m f + w (f m)

total-update_of_le :
    (w : Pc → ℕ) (m : ℕ) (f : ℕ → Pc) (i : ℕ) (p : Pc)
    → m ≤ i
    → total w m (update f i p) ≡ total w m f
unfolding total
total-update_of_le w zero f i p h = refl
total-update_of_le w (suc m) f i p h = ground (arith, total-update_of_le w m f i p)

total-update :
    (w : Pc → ℕ) (m : ℕ) (f : ℕ → Pc) (i : ℕ) (p : Pc)
    → i < m
    → total w m (update f i p) + w (f i) ≡ total w m f + w p
unfolding total
total-update w zero f i p h = absurd (omega arith)
total-update w (suc m) f i p h = elim (dec_lt i m) [
  | yes below ↦ ground (arith, total-update w m f i p below)
  | no last ↦ ground (arith, total-update_of_le w m f i p)
]

total-const : (w : Pc → ℕ) (m c : ℕ) (f : ℕ → Pc) → ((j : ℕ) → w (f j) ≡ c) → total w m f ≡ m * c
unfolding total
total-const w zero c f h = omega arith
total-const w (suc m) c f h =
    let e : suc m * c ≡ m * c + c = omega arith in omega (arith, total-const w m c f h, h m)

module _ (compress : List ℕ → ℕ → Option (List ℕ)) where
  -- A step brings its thread nearer to its end.
  Move-left :
      {bs bs' : List Block} {p p' : Pc}
      → Move compress bs p bs' p'
      → left (length bs) p' < left (length bs) p
  Move-left {bs} (leave b e1 e2 e3 e4) = ground arith
  Move-left {bs} (skip b x e1 e2 e3 e4 e5) = ground (arith, get_elem?-lt bs b e2)
  Move-left {bs} (claim b x e1 e2 e3 e4 e5) = ground arith
  Move-left {bs} (refuse b x e1 e2 e3 e4 e5) = ground (arith, get_elem?-lt bs b e2)
  Move-left {bs} (outgrow b x out e1 e2 e3 e4 e5 e6) = ground (arith, get_elem?-lt bs b e2)
  Move-left {bs} (keep b x out e1 e2 e3 e4 e5 e6) = ground (arith, get_elem?-lt bs b e2)
  Move-left {bs} (finish b x e1 e2 e3 e4) = ground (arith, get_elem?-lt bs b e2)

  -- The steps of an interleaving.
  abbrev pub steps :
      {njobs : ℕ} {blocks : List Block} {s : System} → Reach compress njobs blocks s → ℕ
  steps here = 0
  steps (next r st) = suc (steps r)

  Reach-left :
      {njobs : ℕ} {blocks : List Block} {s : System}
      → ((k : ℕ) (x : Block) → get_elem? blocks k ≡ some x → x.status ≡ 0)
      → (r : Reach compress njobs blocks s)
      → steps r + total (left (length blocks)) njobs s.jobs ≤ njobs * (3 * length blocks + 1)
  Reach-left {njobs} {blocks} new here = omega (
    arith,
    total-const (left (length blocks)) njobs (3 * length blocks + 1) (λ j. looking 0)
        (λ j. omega arith),
  )
  Reach-left {njobs} {blocks} new (next {s} r (by j {p} lt run)) =
      let mv = move-Move compress _ _ run in
      let same = (Reach-Inv compress new r).same_length in
      let less : left (length blocks) p < left (length blocks) (s.jobs j) =
        rw same at (Move-left mv) in
      let ih = Reach-left new r in
      let moved = total-update (left (length blocks)) njobs s.jobs j p lt in
      omega (arith, less, ih, moved)

  -- Every interleaving of the threads ends: it has at most 3 steps for each block and thread, and
  -- one more for each thread.
  pub steps-le :
      (njobs : ℕ) (blocks : List Block) (s : System)
      → ((k : ℕ) (x : Block) → get_elem? blocks k ≡ some x → x.status ≡ 0)
      → (r : Reach compress njobs blocks s) → steps r ≤ njobs * (3 * length blocks + 1)
  steps-le njobs blocks s new r = omega (arith, Reach-left new r)
