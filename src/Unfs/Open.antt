-- ===== src/Unfs/Open.antt =====
-- src/mkfs/unfs.c, `main`: the super block and the tables from the image.
pub mod Opened
use smashfs.Base.{
  ℕ, zero, suc, ◌+◌, ◌-◌, min, Bool, List, length, take, drop, ltb, ◌==◌, if◌then◌else◌,
}
use smashfs.Base.{Option, none, some, Result, ok, fail, fault, ◌>>=◌, ◌>>◌, require, load}
use smashfs.Buffer
use smashfs.Buffer.{Buffer, contents}
use smashfs.Format
use smashfs.Format.{SuperBlock, sizeof_super_block}
use smashfs.Format.Words.{words_of, super_of}
use smashfs.Unfs.{State}

-- `read` gives the number of bytes that the system hands over, by the place in the image and the
-- number of bytes that are asked for, or nothing for an error. `lseek` to a place that is not
-- negative succeeds.
module _ (malloc : ℕ → Bool) (read : ℕ → ℕ → Option ℕ) (image : List ℕ) where
  -- One round of the loop over a section of `size` bytes at `offset`, of which `r` have been read:
  -- the number of bytes that it reads, 1024 at most, and the buffer.
  unfoldable pub read_round : ℕ → ℕ → ℕ → Buffer → Result (ℕ × Buffer)
  read_round offset size r b = do
    rc ← (elim (read (offset + r) (min 1024 (size - r))) [ some rc ↦ ok rc | none ↦ fail ])
    require (ltb 0 rc)
    (rb, b') ← Buffer.add malloc b (take rc (drop (offset + r) image)) rc
    require (rb == rc)
    ok (rc, b')

  unfoldable pub read_loop : ℕ → ℕ → ℕ → ℕ → Buffer → Result Buffer
  read_loop zero offset size r b = fault
  read_loop (suc fuel) offset size r b =
      let rest = (do
        (rc, b') ← read_round offset size r b
        read_loop fuel offset size (r + rc) b') in
      if ltb r size then rest else ok b

  -- A round reads one byte or more.
  unfoldable pub read_section : ℕ → ℕ → Buffer → Result Buffer
  read_section offset size b = read_loop (size + 1) offset size 0 b

  unfoldable pub read_super : Result SuperBlock
  read_super = do
    rc ← (elim (read 0 sizeof_super_block) [ some rc ↦ ok rc | none ↦ fail ])
    require (rc == sizeof_super_block)
    super ← load (super_of (words_of (take sizeof_super_block image)))
    require (super.magic == Format.magic)
    ok super

  -- The inode table, through the decompressor that the type in the super block names.
  unfoldable pub read_inodes : (List ℕ → ℕ → Option (List ℕ)) → SuperBlock → Result Buffer
  read_inodes uncompress super = do
    b ← read_section super.inodes_offset super.inodes_csize Buffer.init
    require (malloc super.inodes_size)
    table ← (elim (uncompress (contents b) super.inodes_size) [
      | some table ↦ ok table
      | none ↦ fail
    ])
    require (length table == super.inodes_size)
    (rc, b) ← Buffer.add malloc (Buffer.reset b) table super.inodes_size
    require (rc == super.inodes_size)
    ok b

  -- `create` is `compressor_create_type`.
  unfoldable pub open_image : (ℕ → Option (List ℕ → ℕ → Option (List ℕ))) → Result State
  open_image create = do
    super ← read_super
    uncompress ← (elim (create super.compression_type) [
      | some uncompress ↦ ok uncompress
      | none ↦ fail
    ])
    require (malloc 1024)
    inodes ← read_inodes uncompress super
    blocks ← read_section super.blocks_offset super.blocks_size Buffer.init
    entries ← read_section super.entries_offset super.entries_size Buffer.init
    ok (record {
      super = super;
      inode_buffer = inodes;
      block_buffer = blocks;
      entry_buffer = entries;
    })
