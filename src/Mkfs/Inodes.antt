-- ===== src/Mkfs/Inodes.antt =====
-- src/mkfs/mkfs.c, `output_write`: the inode table, one row of bit fields for each node.
pub mod Laws
pub mod Rows
pub mod Whole
use smashfs.Base.{ℕ, ◌+◌, ◌*◌, ◌/◌, Bool, List, [], ◌∷◌, ℤ, pos, ◌-ℤ◌, u32_ℤ, u32}
use smashfs.Base.{Result, ok, ◌>>=◌}
use smashfs.Bitbuffer
use smashfs.Bitbuffer.{Bitbuffer, putbits}
use smashfs.Format.{InodeBits, InodeMin}
use smashfs.Mkfs.{Node}
use smashfs.Table.{max_inode_size}

-- The eleven calls for one node.
pub put_node : InodeBits → InodeMin → Node → Bitbuffer → Result Bitbuffer
put_node bits min node b = do
  b ← putbits b bits.type (u32 node.type)
  b ← putbits b bits.owner_mode (u32 node.owner_mode)
  b ← putbits b bits.group_mode (u32 node.group_mode)
  b ← putbits b bits.other_mode (u32 node.other_mode)
  b ← putbits b bits.uid (u32 node.uid)
  b ← putbits b bits.gid (u32 node.gid)
  b ← putbits b bits.ctime (u32_ℤ (node.ctime -ℤ pos min.ctime))
  b ← putbits b bits.mtime (u32_ℤ (node.mtime -ℤ pos min.mtime))
  b ← putbits b bits.size (u32 node.size)
  b ← putbits b bits.block (u32 node.block)
  b ← putbits b bits.index (u32 node.index)
  ok b

pub put_nodes : InodeBits → InodeMin → List Node → Bitbuffer → Result Bitbuffer
put_nodes bits min [] b = ok b
put_nodes bits min (node ∷ nodes) b = do b ← put_node bits min node b; put_nodes bits min nodes b

-- The bytes of the table for `inodes` rows.
unfoldable pub table_size : InodeBits → ℕ → ℕ
table_size bits inodes = (inodes * max_inode_size bits + 7) / 8

-- The packed table of the nodes, which stand in the order of their numbers.
pub pack : (ℕ → Bool) → InodeBits → InodeMin → ℕ → List Node → Result (List ℕ)
pack malloc bits min inodes nodes = do
  b ← Bitbuffer.init malloc (table_size bits inodes)
  b ← put_nodes bits min nodes b
  ok b.buffer
