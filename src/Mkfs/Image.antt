-- ===== src/Mkfs/Image.antt =====
-- src/mkfs/mkfs.c, the end of `output_write`: the compressed inode table, the places of the
-- sections in the super block, and the writing of the image.
pub mod Written
pub mod Sections
pub mod Returns
use smashfs.Base.{
  ℕ, ◌+◌, ◌*◌, ◌-◌, ◌%◌, Bool, List, [], ◌∷◌, ◌++◌, length, replicate, leb, ◌==◌, u32,
}
use smashfs.Base.{Option, none, some, if◌then◌else◌, Result, ok, fail, ◌>>=◌, ◌>>◌, require}
use smashfs.Buffer
use smashfs.Buffer.{contents}
use smashfs.Format.{SuperBlock, sizeof_super_block}
use smashfs.Format.Words.{words, bytes_of}

-- The inode table through the compressor, which is given the bytes and the size of the destination
-- and gives what it wrote, or nothing for a negative result.
unfoldable pub compress_table :
    (ℕ → Bool) → (List ℕ → ℕ → Option (List ℕ)) → List ℕ → Result (List ℕ)
compress_table malloc compress table = do
  require (malloc (length table * 2))
  out ← (elim (compress table (length table * 2)) [ some out ↦ ok out | none ↦ fail ])
  require (leb (length out) (length table))
  (rc, b) ← Buffer.add malloc Buffer.init out (length out)
  ok (contents b)

-- The sizes and places of the inode table, which has `inodes_size` bytes before it is compressed,
-- of the block table and of the compressed blocks.
unfoldable pub set_offsets : SuperBlock → ℕ → List ℕ → List ℕ → List ℕ → SuperBlock
set_offsets super inodes_size inodes blocks entries =
    let blocks_offset = u32 (sizeof_super_block + u32 (length inodes)) in
    record super {
      inodes_offset = sizeof_super_block;
      inodes_size = u32 inodes_size;
      inodes_csize = u32 (length inodes);
      blocks_offset = blocks_offset;
      blocks_size = u32 (length blocks);
      entries_offset = u32 (blocks_offset + u32 (length blocks));
      entries_size = u32 (length entries);
    }

-- `write` gives the number of bytes that the system takes, by the place in the file and the number
-- of bytes it is given, or nothing for an error.
module _ (write : ℕ → ℕ → Option ℕ) where
  -- One `write` with its check: the file after it.
  unfoldable pub put : List ℕ → List ℕ → Result (List ℕ)
  put file bytes = elim (write (length file) (length bytes)) [
    | none ↦ fail
    | some rc ↦ if rc == length bytes then ok (file ++ bytes) else fail
  ]

  -- The padding to a multiple of 4096; `& (4096 - 1)` is the remainder.
  unfoldable pub pad : Bool → List ℕ → Result (List ℕ)
  pad no_padding file =
      let index = length file % 4096 in
      let padded = put file (replicate (4096 - index) 0) in
      if no_padding then ok file else if index == 0 then ok file else padded

  -- The sections in their order, in the file that `open` gives, if it does.
  unfoldable pub write_image :
      (ℕ → Bool) → Bool → Bool → SuperBlock → List ℕ → List ℕ → List ℕ → Result (List ℕ)
  write_image malloc opened no_padding super inodes blocks entries = do
    (rc, super_buffer) ← Buffer.add malloc Buffer.init (bytes_of (words super)) sizeof_super_block
    require opened
    file ← put [] (contents super_buffer)
    file ← put file inodes
    file ← put file blocks
    file ← put file entries
    pad no_padding file

  -- From the compressing of the inode table on: the super block and the image.
  unfoldable pub finish :
      (ℕ → Bool)
      → Bool
      → (List ℕ → ℕ → Option (List ℕ))
      → Bool
      → SuperBlock
      → List ℕ
      → List ℕ
      → List ℕ
      → Result (SuperBlock × List ℕ)
  finish malloc opened compress no_padding super table blocks entries = do
    inodes ← compress_table malloc compress table
    let super' = set_offsets super (length table) inodes blocks entries
    file ← write_image malloc opened no_padding super' inodes blocks entries
    ok (super', file)
