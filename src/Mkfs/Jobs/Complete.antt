-- ===== src/Mkfs/Jobs/Complete.antt =====
-- The compressing threads of src/mkfs/mkfs.c are never stuck, and leave no block behind.
use smashfs.Base.{ℕ, ◌+◌, ◌<◌, ◌≡◌, ◌≢◌, refl, arith, List, length}
use smashfs.Base.{Option, some, update, get_elem?, get_elem?-lt, get_elem?-some, Option-cases}
use smashfs.Base.{Bool-cases, inl, inr, ◌==◌, set}
use smashfs.Base.{leb}
use smashfs.Mkfs.{Block}
use smashfs.Mkfs.Jobs.{
  Pc, looking, holding, storing, ended, try_compress, System, Step, by, Reach, here, next, move,
}
use smashfs.Mkfs.Jobs.Moves.{Move, leave, skip, claim, refuse, outgrow, keep, finish, move-Move}
use smashfs.Mkfs.Jobs.Invariant.{held, Reach-Inv}

module _ (compress : List ℕ → ℕ → Option (List ℕ)) where
  move-some :
      (bs : List Block) (p : Pc)
      → p ≢ ended
      → ((k : ℕ) → held p ≡ some k → k < length bs)
      → (bs' : List Block) × (p' : Pc) × (move compress bs p ≡ some (bs', p'))
  unfolding move
  move-some bs (looking b) ne inside = elim (Option-cases (get_elem? bs b)) [
    | inl n ↦ (bs, ended, rw (move, n))
    | inr (x, h) ↦ elim (Bool-cases (x.status == 0)) [
      | inl z ↦ (set bs b (record x { status = 1 }), holding b, rw (move, h, z))
      | inr z ↦ (bs, looking (b + 1), rw (move, h, z))
    ]
  ]
  move-some bs (holding b) ne inside =
      let (x, h) = get_elem?-some bs b (inside b refl) in
      elim (Option-cases (try_compress compress x)) [
        | inl n ↦ (bs, ended, rw (move, h, n))
        | inr (out, c) ↦ elim (Bool-cases (leb (length out) x.size)) [
          | inl le ↦ (
            set bs b (record x { cbuffer = out; compressed_size = length out }),
            storing b,
            rw (move, h, c, le),
          )
          | inr gt ↦ (set bs b (record x { cbuffer = out }), ended, rw (move, h, c, gt))
        ]
      ]
  move-some bs (storing b) ne inside =
      let (x, h) = get_elem?-some bs b (inside b refl) in
      (set bs b (record x { status = 2 }), looking (b + 1), rw (move, h))
  move-some bs ended ne inside = absurd (ne refl)

  Move-inside :
      (s : System) {bs : List Block} {p : Pc} (n i : ℕ)
      → length s.blocks ≡ n
      → ((j k : ℕ) → held (s.jobs j) ≡ some k → k < n)
      → Move compress s.blocks (s.jobs i) bs p
      → (j k : ℕ) → held (update s.jobs i p j) ≡ some k
      → k < n
  Move-inside s n i e before (leave b e1 e2 e3 e4) j k h = ground (arith, before j k)
  Move-inside s n i e before (skip b x e1 e2 e3 e4 e5) j k h = ground (arith, before j k)
  Move-inside s n i e before (claim b x e1 e2 e3 e4 e5) j k h =
      ground (arith, before j k, get_elem?-lt s.blocks b e2)
  Move-inside s n i e before (refuse b x e1 e2 e3 e4 e5) j k h = ground (arith, before j k)
  Move-inside s n i e before (outgrow b x out e1 e2 e3 e4 e5 e6) j k h = ground (arith, before j k)
  Move-inside s n i e before (keep b x out e1 e2 e3 e4 e5 e6) j k h =
      ground (arith, before j k, before i b)
  Move-inside s n i e before (finish b x e1 e2 e3 e4) j k h = ground (arith, before j k)

module _ (compress : List ℕ → ℕ → Option (List ℕ)) {njobs : ℕ} {blocks : List Block}
    (new : (k : ℕ) (x : Block) → get_elem? blocks k ≡ some x → x.status ≡ 0) where
  -- A thread works on a block that there is.
  Reach-inside :
      {s : System}
      → Reach compress njobs blocks s
      → (j k : ℕ) → held (s.jobs j) ≡ some k
      → k < length blocks
  Reach-inside here j k h = absurd cc
  Reach-inside (next {s} r (by i lt run)) j k h =
      Move-inside compress s (length blocks) i (Reach-Inv compress new r).same_length
        (Reach-inside r) (move-Move compress _ _ run) j k h

  -- In every reachable state each of the threads that has not ended can take a step: its next move
  -- is defined, and leads to a state in which only it has moved on.
  pub Reach-Step :
      (s : System) (j : ℕ)
      → Reach compress njobs blocks s
      → j < njobs
      → s.jobs j ≢ ended
      → (bs : List Block) × (p : Pc) × (move compress s.blocks (s.jobs j) ≡ some (bs, p))
        × Step compress njobs s (record { blocks = bs; jobs = update s.jobs j p })
  Reach-Step s j r lt ne =
      let same = (Reach-Inv compress new r).same_length in
      let (bs, p, run) =
        move-some compress s.blocks (s.jobs j) ne
          (λ k h. let q = Reach-inside r j k h in omega arith) in
      (bs, p, run, by j lt run)
