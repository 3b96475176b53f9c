-- ===== src/Directory.antt =====
-- The packed directory as its readers take it apart: `traverse` of src/mkfs/unfs.c, and
-- `smashfs_readdir` and `smashfs_lookup` of src/linux/super.c.
pub mod RoundTrip
use smashfs.Base.{ℕ, ◌+◌, ◌/◌, List, Result, ok, ◌>>=◌}
use smashfs.Bitbuffer
use smashfs.Bitbuffer.{getbits, skipbits}
use smashfs.Format.{DirectoryBits, EntryBits}

-- The bytes of the packed numbers before the entries.
unfoldable pub head_size : DirectoryBits → ℕ
head_size bits = (bits.parent + bits.nentries + 7) / 8

-- The bytes of the packed numbers before a name.
unfoldable pub entry_size : EntryBits → ℕ
entry_size bits = (bits.number + bits.length + bits.type + 7) / 8

-- The parent and the number of entries. `size` is the node's size.
unfoldable pub read_head : DirectoryBits → List ℕ → ℕ → Result (ℕ × ℕ)
read_head bits buffer size = do
  b ← Bitbuffer.init_from_buffer buffer size
  (parent, b) ← getbits b bits.parent
  (nentries, b) ← getbits b bits.nentries
  b ← Bitbuffer.uninit b
  ok (parent, nentries)

-- An entry's number and length; the type is skipped.
unfoldable pub read_entry : EntryBits → List ℕ → Result (ℕ × ℕ)
read_entry bits buffer = do
  b ← Bitbuffer.init_from_buffer buffer (entry_size bits)
  (number, b) ← getbits b bits.number
  (length, b) ← getbits b bits.length
  b ← skipbits b bits.type
  b ← Bitbuffer.uninit b
  ok (number, length)

-- An entry's number, length and type.
pub read_entry_type : EntryBits → List ℕ → Result (ℕ × ℕ × ℕ)
read_entry_type bits buffer = do
  b ← Bitbuffer.init_from_buffer buffer (entry_size bits)
  (number, b) ← getbits b bits.number
  (length, b) ← getbits b bits.length
  (type, b) ← getbits b bits.type
  b ← Bitbuffer.uninit b
  ok (number, length, type)
