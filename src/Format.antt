-- ===== src/Format.antt =====
-- src/include/smashfs.h: the file system's constants and its super block.
pub mod CompressionType
pub mod InodeType
pub mod InodeMode
pub mod Words
use smashfs.Base.{ℕ, ◌+◌, ◌*◌, ◌^◌}

-- SMASHFS_MKTAG: four characters, the first in the top byte.
unfoldable pub mktag : ℕ → ℕ → ℕ → ℕ → ℕ
mktag a b c d = a * 2 ^ 0x18 + b * 2 ^ 0x10 + c * 2 ^ 0x08 + d * 2 ^ 0x00

abbrev pub magic : ℕ
magic = 0x534d5348

abbrev pub version_0 : ℕ
version_0 = 0x56303030

abbrev pub start : ℕ
start = 0

abbrev pub name_len : ℕ
name_len = 256

-- bits.inode.directory.entries
pub record EntryBits : Type 0 where
  pub number : ℕ
  pub length : ℕ
  pub type : ℕ

-- bits.inode.directory
pub record DirectoryBits : Type 0 where
  pub parent : ℕ
  pub nentries : ℕ
  pub entries : EntryBits

-- bits.inode; `regular_file` and `symbolic_link` there hold nothing.
pub record InodeBits : Type 0 where
  pub type : ℕ
  pub owner_mode : ℕ
  pub group_mode : ℕ
  pub other_mode : ℕ
  pub uid : ℕ
  pub gid : ℕ
  pub ctime : ℕ
  pub mtime : ℕ
  pub size : ℕ
  pub block : ℕ
  pub index : ℕ
  pub directory : DirectoryBits

-- bits.block
pub record BlockBits : Type 0 where
  pub offset : ℕ
  pub compressed_size : ℕ
  pub size : ℕ

pub record Bits : Type 0 where
  pub inode : InodeBits
  pub block : BlockBits

pub record InodeMin : Type 0 where
  pub ctime : ℕ
  pub mtime : ℕ

pub record BlockMin : Type 0 where
  pub compressed_size : ℕ

pub record Min : Type 0 where
  pub inode : InodeMin
  pub block : BlockMin

-- `struct smashfs_super_block`; each number is a `uint32_t`.
pub record SuperBlock : Type 0 where
  pub magic : ℕ
  pub version : ℕ
  pub ctime : ℕ
  pub inodes : ℕ
  pub blocks : ℕ
  pub block_size : ℕ
  pub block_log2 : ℕ
  pub root : ℕ
  pub inodes_offset : ℕ
  pub inodes_size : ℕ
  pub inodes_csize : ℕ
  pub blocks_offset : ℕ
  pub blocks_size : ℕ
  pub entries_offset : ℕ
  pub entries_size : ℕ
  pub compression_type : ℕ
  pub bits : Bits
  pub min : Min

-- The packed structure has 38 words: 16, then 11 + 5 + 3 of `bits`, then 2 + 1 of `min`.
abbrev pub sizeof_super_block : ℕ
sizeof_super_block = 38 * 4
