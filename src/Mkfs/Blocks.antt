-- ===== src/Mkfs/Blocks.antt =====
-- src/mkfs/mkfs.c, `output_write`: the compressed blocks and the block table.
pub mod Stored
use smashfs.Base.{ℕ, ◌+◌, ◌*◌, ◌/◌, ◌==◌, Bool, true, false, List, [], ◌∷◌, u32, u32_ℤ}
use smashfs.Base.{ℤ, pos, negsuc, max_ℤ, min_ℤ, ◌-ℤ◌, if◌then◌else◌}
use smashfs.Base.{Result, ok, fail, fault, ◌>>=◌, ◌>>◌, require}
use smashfs.Bitbuffer
use smashfs.Bitbuffer.{Bitbuffer, putbits}
use smashfs.Buffer
use smashfs.Buffer.{Buffer}
use smashfs.Format.{BlockBits}
use smashfs.Mkfs.{Block}
use smashfs.Mkfs.Limits.{long_long_max}
use smashfs.Mkfs.Log.{blog}

-- The loop that appends the compressed blocks; `offset` is `max_block_offset`.
unfoldable pub place_blocks : (ℕ → Bool) → List Block → ℕ → Buffer → Result (List Block × Buffer)
place_blocks malloc [] offset buf = ok ([], buf)
place_blocks malloc (b ∷ bs) offset buf = do
  (rc, buf) ← Buffer.add malloc buf b.cbuffer (u32 b.compressed_size)
  require (rc == b.compressed_size)
  (bs', buf) ← place_blocks malloc bs (offset + rc) buf
  ok (record b { offset = offset } ∷ bs', buf)

-- Every block is compressed, or `logic error`.
unfoldable pub check_status : List Block → Result (Unit {0})
check_status [] = ok tt
check_status (b ∷ bs) = do require (b.status == 2); check_status bs

-- The extreme values of the third pass.
pub record Extremes : Type 0 where
  pub max_offset : ℤ
  pub max_compressed_size : ℤ
  pub min_compressed_size : ℤ

pub scan_blocks : Extremes → List Block → Extremes
scan_blocks x [] = x
scan_blocks x (b ∷ bs) =
    scan_blocks
      (record {
        max_offset = max_ℤ x.max_offset (pos b.offset);
        max_compressed_size = max_ℤ x.max_compressed_size (pos b.compressed_size);
        min_compressed_size = min_ℤ x.min_compressed_size (pos b.compressed_size);
      })
      bs

pub extremes : List Block → Extremes
extremes bs =
    scan_blocks
      (record {
        max_offset = negsuc 0;
        max_compressed_size = negsuc 0;
        min_compressed_size = long_long_max;
      })
      bs

-- The size of `blocks[b - 1]` behind the loop: of the last block. Without one the access is out
-- of bounds.
pub last_size : List Block → Result ℕ
last_size [] = fault
last_size (b ∷ []) = ok b.size
last_size (b ∷ c ∷ bs) = last_size (c ∷ bs)

-- super.bits.block
pub block_bits : Extremes → ℕ → BlockBits
block_bits x size = record {
  offset = blog x.max_offset;
  compressed_size = blog (x.max_compressed_size -ℤ x.min_compressed_size);
  size = blog (max_ℤ (negsuc 0) (pos size));
}

pub put_blocks : BlockBits → ℤ → List Block → Bitbuffer → Result Bitbuffer
put_blocks bits least [] b = ok b
put_blocks bits least (x ∷ xs) b = do
  b ← putbits b bits.offset (u32 x.offset)
  b ← putbits b bits.compressed_size (u32_ℤ (pos x.compressed_size -ℤ least))
  put_blocks bits least xs b

-- The block table: the rows, and the last block's size. `blocks` is their number.
pub pack_blocks : (ℕ → Bool) → ℕ → List Block → Result (BlockBits × List ℕ)
pack_blocks malloc blocks bs = do
  let x = extremes bs
  last ← last_size bs
  let bits = block_bits x last
  b ← Bitbuffer.init malloc (((bits.offset + bits.compressed_size) * blocks + bits.size + 7) / 8)
  b ← put_blocks bits x.min_compressed_size bs b
  b ← putbits b bits.size (u32 last)
  ok (bits, b.buffer)
