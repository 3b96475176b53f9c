-- ===== src/Mkfs/Split.antt =====
-- src/mkfs/mkfs.c, `output_write`: the entry buffer is cut into blocks of one size.
pub mod Whole
use smashfs.Base.{
  ℕ, zero, suc, ◌+◌, ◌-◌, ◌*◌, ◌/◌, ◌^◌, min, Bool, List, [], ◌∷◌, length, drop, leb,
}
use smashfs.Base.{Result, ok, fail, fault, u32, ◌>>=◌, ◌>>◌, require}
use smashfs.Mkfs.{Block}

-- super.blocks, for `entries` bytes; the field has 32 bits.
unfoldable pub block_count : ℕ → ℕ → ℕ → ℕ
block_count block_size log2 entries = u32 ((entries + (block_size - 1)) / 2 ^ log2)

module _ (malloc : ℕ → Bool) (block_size : ℕ) where
  -- The loop that sets up the blocks, with `n` rounds left. `at` is `bb` as an offset in the entry
  -- buffer; behind the end of the buffer the size is negative, and its malloc fails. Nothing is
  -- stored in a `cbuffer` yet.
  unfoldable pub split : ℕ → List ℕ → ℕ → Result (List Block)
  split zero bytes at = ok []
  split (suc n) bytes at = do
    require (leb at (length bytes))
    let size = min block_size (length bytes - at)
    require (malloc (size * 2))
    blocks ← split n bytes (at + block_size)
    ok (
        record {
          offset = 0;
          size = size;
          compressed_size = 0;
          buffer = drop at bytes;
          cbuffer = [];
          status = 0;
        }
        ∷ blocks)
