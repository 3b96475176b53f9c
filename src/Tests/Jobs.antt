-- ===== src/Tests/Jobs.antt =====
-- Two threads and two blocks, with a compressor that drops the last byte.
use smashfs.Base.{
  ℕ, zero, suc, ◌≡◌, ◌≤◌, ◌+◌, ◌*◌, refl, arith, List, ◌∷◌, [], ok, Option, none, some, get_elem?,
  update,
}
use mathlib.Core.Path.{subst}
use native.Mathlib.Decide.{ℕ_discrete}
use smashfs.Mkfs.{Block}
use smashfs.Mkfs.Blocks.{check_status}
use smashfs.Mkfs.Jobs.{
  Pc, looking, holding, storing, System, Step, by, Reach, here, next, start, move, HasEnded, ended,
}
use smashfs.Mkfs.Jobs.Complete.{Reach-Step}
use smashfs.Mkfs.Jobs.Joined.{IsCompressible, HasEnded-compress_blocks}
use smashfs.Mkfs.Jobs.Progress.{steps, steps-le}
use smashfs.Mkfs.Jobs.Result.{compress_blocks, Reach-exclusive, Reach-compress_blocks}

abbrev drop_last : List ℕ → ℕ → Option (List ℕ)
drop_last [] n = none
drop_last (x ∷ []) n = some []
drop_last (x ∷ y ∷ l) n = some (x ∷ [])

abbrev one : Block
one = record {
  offset = 0;
  size = 2;
  compressed_size = 0;
  buffer = 5 ∷ 6 ∷ 7 ∷ [];
  cbuffer = [];
  status = 0;
}

abbrev two : Block
two = record {
  offset = 0;
  size = 1;
  compressed_size = 0;
  buffer = 7 ∷ [];
  cbuffer = [];
  status = 0;
}

abbrev blocks : List Block
blocks = one ∷ two ∷ []

blocks-new : (k : ℕ) (x : Block) → get_elem? blocks k ≡ some x → x.status ≡ 0
blocks-new zero x e = cc
blocks-new (suc zero) x e = cc
blocks-new (suc (suc k)) x e = cc

blocks-IsCompressible :
    (k : ℕ) (x : Block) → get_elem? blocks k ≡ some x → IsCompressible drop_last x
blocks-IsCompressible zero x e =
    let q : one ≡ x = cc in subst (IsCompressible drop_last) q the_first
  where
    the_first : IsCompressible drop_last one
    the_first = (5 ∷ [], refl, omega arith)
blocks-IsCompressible (suc zero) x e =
    let q : two ≡ x = cc in subst (IsCompressible drop_last) q the_second
  where
    the_second : IsCompressible drop_last two
    the_second = ([], refl, omega arith)
blocks-IsCompressible (suc (suc k)) x e = cc

-- Thread 0 has the first block, and thread 1 has passed it.
abbrev early : System
early = record (start blocks) {
  blocks = record one { status = 1 } ∷ two ∷ [];
  jobs = update (update (λ j. looking 0) 0 (holding 0)) 1 (looking 1);
}

early-Reach : Reach drop_last 2 blocks early
unfolding move ℕ_discrete
early-Reach = next (next here (by 0 (omega arith) refl)) (by 1 (omega arith) refl)

-- The threads in turn, until both have returned.
abbrev late : System
late = record (start blocks) {
  blocks =
      record one { cbuffer = 5 ∷ []; compressed_size = 1; status = 2 }
      ∷ record two { cbuffer = []; compressed_size = 0; status = 2 }
      ∷ [];
  jobs =
      update
        (update
          (update
            (update
              (update
                (update (update (update early.jobs 1 (holding 1)) 0 (storing 0)) 1 (storing 1)) 0
                (looking 1))
              1 (looking 2))
            0 (looking 2))
          1 ended)
        0 ended;
}

late-Reach : Reach drop_last 2 blocks late
unfolding move ℕ_discrete
late-Reach =
    let r3 = next early-Reach (by 1 (omega arith) refl) in
    let r5 = next (next r3 (by 0 (omega arith) refl)) (by 1 (omega arith) refl) in
    let r7 = next (next r5 (by 0 (omega arith) refl)) (by 1 (omega arith) refl) in
    let r9 = next (next r7 (by 0 (omega arith) refl)) (by 1 (omega arith) refl) in
    next r9 (by 0 (omega arith) refl)

late-HasEnded : HasEnded drop_last 2 late
unfolding ℕ_discrete
late-HasEnded zero h = refl
late-HasEnded (suc zero) h = refl
late-HasEnded (suc (suc j)) h = absurd (omega arith)

Reach-exclusive_example : ◌≡◌ {A = ℕ} 0 0
unfolding ℕ_discrete
Reach-exclusive_example =
    Reach-exclusive drop_last 2 blocks early 0 0 0 blocks-new early-Reach refl refl

late-passes : check_status late.blocks ≡ ok tt
unfolding check_status
late-passes = refl

Reach-compress_blocks_example : compress_blocks drop_last blocks ≡ ok late.blocks
Reach-compress_blocks_example =
    Reach-compress_blocks drop_last 2 blocks late blocks-new late-Reach late-passes

steps-le_example : steps drop_last late-Reach ≤ 2 * (3 * 2 + 1)
steps-le_example = steps-le drop_last 2 blocks late blocks-new late-Reach

Reach-Step_example :
    (bs : List Block) × (p : Pc) × (move drop_last early.blocks (early.jobs 1) ≡ some (bs, p))
    × Step drop_last 2 early (record { blocks = bs; jobs = update early.jobs 1 p })
unfolding ℕ_discrete
Reach-Step_example = Reach-Step drop_last blocks-new early 1 early-Reach (omega arith) (λ e. cc)

HasEnded-compress_blocks_example :
    (check_status late.blocks ≡ ok tt) × (compress_blocks drop_last blocks ≡ ok late.blocks)
HasEnded-compress_blocks_example =
    HasEnded-compress_blocks drop_last 2 blocks late (omega arith) blocks-new blocks-IsCompressible
      late-Reach late-HasEnded
