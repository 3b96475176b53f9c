-- ===== src/Mkfs/Jobs.antt =====
-- src/mkfs/mkfs.c, `job`: the threads that compress the blocks, interleaved in any order.
pub mod Moves
pub mod Invariant
pub mod Result
pub mod Progress
pub mod Complete
pub mod Joined
use smashfs.Base.{ℕ, ◌+◌, ◌*◌, ◌<◌, ◌≤◌, ◌≡◌, Bool, List, length, get_elem?, set, take, update, u32}
use smashfs.Base.{Option, none, some, leb, ◌==◌, if◌then◌else◌}
use smashfs.Mkfs.{Block}

-- Where a thread stands in its loop. `looking b` is before the first lock of round `b`; the code
-- from the lock to the unlock is one step. `holding b` is before the call of the compressor,
-- `storing b` before the second lock, and `ended` is behind `bail`.
pub data Pc : Type 0 where
  looking holding storing : ℕ → Pc
  ended : Pc

-- `compressor_compress`, by the source bytes and the size of the destination: what it wrote, or
-- nothing for a negative result.
module _ (compress : List ℕ → ℕ → Option (List ℕ)) where
  abbrev pub try_compress : Block → Option (List ℕ)
  try_compress x = compress (take (u32 x.size) x.buffer) (u32 (x.size * 2))

  -- The next step of a thread at `p`: the blocks and the place after it, or nothing where it has
  -- returned.
  unfoldable pub move : List Block → Pc → Option (List Block × Pc)
  move blocks (looking b) = elim (get_elem? blocks b) [
    | none ↦ some (blocks, ended)
    | some x ↦
        if x.status == 0
        then some (set blocks b (record x { status = 1 }), holding b)
        else some (blocks, looking (b + 1))
  ]
  move blocks (holding b) = elim (get_elem? blocks b) [
    | none ↦ none
    | some x ↦ elim (try_compress x) [
      | none ↦ some (blocks, ended)
      | some out ↦
          if leb (length out) x.size
          then some
              (set blocks b (record x { cbuffer = out; compressed_size = length out }), storing b)
          else some (set blocks b (record x { cbuffer = out }), ended)
    ]
  ]
  move blocks (storing b) = elim (get_elem? blocks b) [
    | none ↦ none
    | some x ↦ some (set blocks b (record x { status = 2 }), looking (b + 1))
  ]
  move blocks ended = none

-- The blocks, which the threads share, and the threads.
pub record System : Type 0 where
  pub blocks : List Block
  pub jobs : ℕ → Pc

-- All threads start with the first block.
abbrev pub start : List Block → System
start blocks = record { blocks = blocks; jobs = λ j. looking 0 }

module _ (compress : List ℕ → ℕ → Option (List ℕ)) (njobs : ℕ) where
  -- One of the `njobs` threads takes a step.
  pub data Step (s : System) : System → Type 0 where
    by :
        (j : ℕ) {blocks : List Block} {p : Pc}
        → j < njobs
        → move compress s.blocks (s.jobs j) ≡ some (blocks, p)
        → Step s (record { blocks = blocks; jobs = update s.jobs j p })

  pub data Reach (blocks : List Block) : System → Type 0 where
    here : Reach blocks (start blocks)
    next : {s t : System} → Reach blocks s → Step s t → Reach blocks t

  -- `pthread_join` of every thread has returned.
  abbrev pub HasEnded : System → Type 0
  HasEnded s = (j : ℕ) → j < njobs → s.jobs j ≡ ended
