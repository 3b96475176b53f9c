-- ===== src/Unfs.antt =====
-- src/mkfs/unfs.c: extracting a file system.
pub mod Fill
pub mod Whole
pub mod Open
pub mod Extract
use smashfs.Base.{ℕ, ◌+◌, ◌*◌, Bool, List, ◌==◌, if◌then◌else◌, Result, ok, ◌>>=◌, u32}
use smashfs.Bitbuffer
use smashfs.Bitbuffer.{Bitbuffer}
use smashfs.Buffer
use smashfs.Buffer.{Buffer}
use smashfs.Format.{SuperBlock}
use smashfs.Table.{Node, Block, read_node, read_block, max_inode_size, max_block_size}

-- The globals of the program once the tables are read.
pub record State : Type 0 where
  pub super : SuperBlock
  pub inode_buffer : Buffer
  pub block_buffer : Buffer
  pub entry_buffer : Buffer

-- What a field of no bits stands for.
unfoldable pub fill_defaults : SuperBlock → Node → Node
fill_defaults super node =
    let bits = super.bits.inode in
    let ctime = if bits.ctime == 0 then super.ctime else node.ctime in
    record node {
      group_mode = if bits.group_mode == 0 then node.owner_mode else node.group_mode;
      other_mode = if bits.other_mode == 0 then node.owner_mode else node.other_mode;
      uid = if bits.uid == 0 then 0 else node.uid;
      gid = if bits.gid == 0 then 0 else node.gid;
      ctime = ctime;
      mtime = if bits.mtime == 0 then ctime else node.mtime;
    }

unfoldable pub node_fill : State → ℕ → Result Node
node_fill s number = do
  b ← Bitbuffer.init_from_buffer (Buffer.contents s.inode_buffer) s.inode_buffer.length
  (node, b) ←
      read_node s.super.bits.inode number
        (Bitbuffer.setpos b (u32 (number * max_inode_size s.super.bits.inode)))
  b ← Bitbuffer.uninit b
  ok (fill_defaults s.super node)

unfoldable pub block_fill : State → ℕ → Result Block
block_fill s number = do
  b ← Bitbuffer.init_from_buffer (Buffer.contents s.block_buffer) s.block_buffer.length
  (block, b) ←
      read_block s.super number
        (Bitbuffer.setpos b (u32 (number * max_block_size s.super.bits.block)))
  b ← Bitbuffer.uninit b
  ok block
