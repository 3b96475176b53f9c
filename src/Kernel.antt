-- ===== src/Kernel.antt =====
-- src/linux/super.c: the kernel's reader. Here the state of a mount and the inodes.
pub mod Device
pub mod Read
pub mod Readdir
pub mod Lookup
pub mod Fill
pub mod Whole
pub mod Mount
pub mod Compressor
use Prim.Native.Nat.{bit_and}
use smashfs.Base.{ℕ, ◌+◌, ◌-◌, ◌*◌, ◌/◌, ◌^◌, Bool, List, Option, none, some, ◌==◌, bit_or}
use smashfs.Base.{if◌then◌else◌, Result, ok, fail, ◌>>=◌, u32}
use smashfs.Bitbuffer
use smashfs.Format.{SuperBlock}
use smashfs.Format.InodeType
use smashfs.Mode
use smashfs.Table.{Node, Block, read_node, read_block, max_inode_size, max_block_size}

-- `struct smashfs_super_info`. A compressor's `uncompress` takes the source and the size of the
-- destination, and returns what it wrote, or nothing where it reports an error.
pub record SuperInfo : Type 0 where
  pub devblksize : ℕ
  pub devblksize_log2 : ℕ
  pub super : SuperBlock
  pub inodes_table : List ℕ
  pub blocks_table : List ℕ
  pub uncompress : List ℕ → ℕ → Option (List ℕ)

unfoldable pub block_fill : SuperInfo → ℕ → Result Block
block_fill sbi number = do
  bb ← Bitbuffer.init_from_buffer sbi.blocks_table sbi.super.blocks_size
  (block, bb) ←
      read_block sbi.super number
        (Bitbuffer.setpos bb (u32 (number * max_block_size sbi.super.bits.block)))
  bb ← Bitbuffer.uninit bb
  ok block

-- What a field of no bits stands for, and the times from their minima on.
unfoldable pub fill_defaults : SuperBlock → Node → Node
fill_defaults super node =
    let bits = super.bits.inode in
    let ctime = if bits.ctime == 0 then super.ctime else node.ctime in
    record node {
      group_mode = if bits.group_mode == 0 then node.owner_mode else node.group_mode;
      other_mode = if bits.other_mode == 0 then node.owner_mode else node.other_mode;
      uid = if bits.uid == 0 then 0 else node.uid;
      gid = if bits.gid == 0 then 0 else node.gid;
      ctime = ctime + super.min.inode.ctime;
      mtime = (if bits.mtime == 0 then ctime else node.mtime) + super.min.inode.mtime;
    }

unfoldable pub node_fill : SuperInfo → ℕ → Result Node
node_fill sbi number = do
  bb ← Bitbuffer.init_from_buffer sbi.inodes_table sbi.super.inodes_size
  (node, bb) ←
      read_node sbi.super.bits.inode number
        (Bitbuffer.setpos bb (u32 (number * max_inode_size sbi.super.bits.inode)))
  bb ← Bitbuffer.uninit bb
  ok (fill_defaults sbi.super node)

-- The operations that an inode gets with its type.
pub data Operations : Type 0 where
  dir_operations file_operations link_operations : Operations

-- What `smashfs_read_inode` sets of `struct inode` and its `struct node_info`.
pub record Inode : Type 0 where
  pub operations : Operations
  pub i_mode : ℕ
  pub i_uid : ℕ
  pub i_gid : ℕ
  pub i_size : ℕ
  pub i_blocks : ℕ
  pub i_ctime : ℕ
  pub i_mtime : ℕ
  pub i_atime : ℕ
  pub node : Node

abbrev pub s_ifdir : ℕ
s_ifdir = 0o040000

abbrev pub s_ifreg : ℕ
s_ifreg = 0o100000

abbrev pub s_iflnk : ℕ
s_iflnk = 0o120000

unfoldable set_inode : SuperInfo → Node → Operations → ℕ → Inode
set_inode sbi node operations mode = record {
  operations = operations;
  i_mode = Mode.join node.owner_mode node.group_mode node.other_mode mode;
  i_uid = node.uid;
  i_gid = node.gid;
  i_size = node.size;
  i_blocks = (node.size + sbi.devblksize - 1) / 2 ^ sbi.devblksize_log2 + 1;
  i_ctime = node.ctime;
  i_mtime = node.mtime;
  i_atime = node.mtime;
  node = node;
}

-- `fail` is -EINVAL.
unfoldable pub read_inode : SuperInfo → ℕ → Result Inode
unfolding set_inode
read_inode sbi number = do
  node ← node_fill sbi number
  if node.type == InodeType.directory
      then ok (set_inode sbi node dir_operations s_ifdir)
      else if node.type == InodeType.regular_file
      then ok (set_inode sbi node file_operations s_ifreg)
      else if node.type == InodeType.symbolic_link
      then ok (set_inode sbi node link_operations s_iflnk)
      else fail

-- What `iget_locked` gives: NULL, an inode of the kernel's cache, or a new one to fill.
pub data Iget : Type 0 where
  no_memory new : Iget
  cached : Inode → Iget

-- `fail` is -ENOMEM or -EINVAL; `iget` says what `iget_locked` gives for a number.
pub get_inode : SuperInfo → (ℕ → Iget) → ℕ → Result Inode
get_inode sbi iget number = elim (iget number) [
  | no_memory ↦ fail
  | new ↦ read_inode sbi number
  | cached inode ↦ ok inode
]
