-- ===== src/Mkfs/Jobs/Result.antt =====
-- The compressing threads of src/mkfs/mkfs.c against a loop that compresses one block at a time.
use smashfs.Base.{ℕ, zero, suc, ◌≡◌, refl, arith, List, [], ◌∷◌, length, get_elem?, le→leb}
use smashfs.Base.{Option, none, some, leb, ◌==◌, ==_iff, if◌then◌else◌, Result, ok, fail, ◌>>=◌}
use smashfs.Base.{Bool-cases, inl, inr}
use smashfs.Mkfs.{Block}
use smashfs.Mkfs.Blocks.{check_status}
use smashfs.Mkfs.Jobs.{try_compress, System, Reach}
use smashfs.Mkfs.Jobs.Invariant.{held, IsDone, Reach-Inv}

module _ (compress : List ℕ → ℕ → Option (List ℕ)) where
  -- One block, where the compressor takes it and does not make it longer.
  unfoldable pub compress_block : Block → Result Block
  compress_block x = elim (try_compress compress x) [
    | none ↦ fail
    | some out ↦
        if leb (length out) x.size
        then ok (record x { cbuffer = out; compressed_size = length out; status = 2 })
        else fail
  ]

  -- All of them, in their order.
  unfoldable pub compress_blocks : List Block → Result (List Block)
  compress_blocks [] = ok []
  compress_blocks (x ∷ xs) = do y ← compress_block x; ys ← compress_blocks xs; ok (y ∷ ys)

  compress_block-IsDone : (x0 x : Block) → IsDone compress x0 x → compress_block x0 ≡ ok x
  unfolding compress_block
  compress_block-IsDone x0 x d = rw (compress_block, d.compressed, le→leb _ _ d.small, d.result)

  compress_blocks-IsDone :
      (xs ys : List Block)
      → length ys ≡ length xs
      → ((k : ℕ) (x y : Block)
          → get_elem? xs k ≡ some x
          → get_elem? ys k ≡ some y
          → IsDone compress x y)
      → compress_blocks xs ≡ ok ys
  unfolding compress_blocks
  compress_blocks-IsDone [] [] h d = refl
  compress_blocks-IsDone [] (y ∷ ys) h d = absurd (omega arith)
  compress_blocks-IsDone (x ∷ xs) [] h d = absurd (omega arith)
  compress_blocks-IsDone (x ∷ xs) (y ∷ ys) h d = rw (
    compress_block-IsDone x y (d 0 x y refl refl),
    compress_blocks-IsDone xs ys (omega arith) (λ k. d (suc k)),
  )

  check_status-eq-ok :
      (xs : List Block) (k : ℕ) (x : Block)
      → check_status xs ≡ ok tt
      → get_elem? xs k ≡ some x
      → x.status ≡ 2
  unfolding check_status
  check_status-eq-ok [] k x e h = cc
  check_status-eq-ok (y ∷ ys) zero x e h = elim (Bool-cases (y.status == 2)) [
    | inl two ↦ (let q = (==_iff y.status 2).0 two in cc)
    | inr other ↦ (let e' = rw other at e in cc)
  ]
  check_status-eq-ok (y ∷ ys) (suc k) x e h = elim (Bool-cases (y.status == 2)) [
    | inl two ↦ check_status-eq-ok ys k x (rw two at e) h
    | inr other ↦ (let e' = rw other at e in cc)
  ]

  -- No two threads ever work on the same block.
  pub Reach-exclusive :
      (njobs : ℕ) (blocks : List Block) (s : System) (i j k : ℕ)
      → ((n : ℕ) (x : Block) → get_elem? blocks n ≡ some x → x.status ≡ 0)
      → Reach compress njobs blocks s
      → held (s.jobs i) ≡ some k
      → held (s.jobs j) ≡ some k
      → i ≡ j
  Reach-exclusive njobs blocks s i j k new r hi hj = (Reach-Inv compress new r).unique i j k hi hj

  -- Whatever the number of threads and their interleaving, blocks that pass the check of their
  -- status are the blocks that a loop over them, one at a time, gives.
  pub Reach-compress_blocks :
      (njobs : ℕ) (blocks : List Block) (s : System)
      → ((n : ℕ) (x : Block) → get_elem? blocks n ≡ some x → x.status ≡ 0)
      → Reach compress njobs blocks s
      → check_status s.blocks ≡ ok tt
      → compress_blocks blocks ≡ ok s.blocks
  Reach-compress_blocks njobs blocks s new r e =
      let inv = Reach-Inv compress new r in
      compress_blocks-IsDone blocks s.blocks inv.same_length
        (λ k x y hx hy. (inv.kept k x y hx hy).finished (check_status-eq-ok s.blocks k y e hy))
