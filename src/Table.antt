-- ===== src/Table.antt =====
-- The inode table and the block table as both readers decode them: `node_fill` and `block_fill`
-- of src/mkfs/unfs.c, and of src/linux/super.c, read the same fields in the same order.
pub mod Read
pub mod Restored
use smashfs.Base.{ℕ, ◌+◌, Result, ok, ◌>>=◌, ltb, u32, if◌then◌else◌}
use smashfs.Bitbuffer.{Bitbuffer, getbits}
use smashfs.Format.{InodeBits, BlockBits, SuperBlock}

-- `struct node` of the readers.
pub record Node : Type 0 where
  pub number : ℕ
  pub type : ℕ
  pub owner_mode : ℕ
  pub group_mode : ℕ
  pub other_mode : ℕ
  pub uid : ℕ
  pub gid : ℕ
  pub ctime : ℕ
  pub mtime : ℕ
  pub size : ℕ
  pub block : ℕ
  pub index : ℕ

-- `struct block` of the readers.
pub record Block : Type 0 where
  pub offset : ℕ
  pub size : ℕ
  pub compressed_size : ℕ

-- `max_inode_size` of mkfs and of both readers: the bits of one inode.
unfoldable pub max_inode_size : InodeBits → ℕ
max_inode_size bits =
    bits.type + bits.owner_mode + bits.group_mode + bits.other_mode + bits.uid + bits.gid
    + bits.ctime + bits.mtime + bits.size + bits.block + bits.index

-- `max_block_size`: the bits of one row of the block table.
unfoldable pub max_block_size : BlockBits → ℕ
max_block_size bits = bits.offset + bits.compressed_size

-- The reads of `node_fill`, from the cursor on.
unfoldable pub read_node : InodeBits → ℕ → Bitbuffer → Result (Node × Bitbuffer)
read_node bits number b = do
  (type, b) ← getbits b bits.type
  (owner_mode, b) ← getbits b bits.owner_mode
  (group_mode, b) ← getbits b bits.group_mode
  (other_mode, b) ← getbits b bits.other_mode
  (uid, b) ← getbits b bits.uid
  (gid, b) ← getbits b bits.gid
  (ctime, b) ← getbits b bits.ctime
  (mtime, b) ← getbits b bits.mtime
  (size, b) ← getbits b bits.size
  (block, b) ← getbits b bits.block
  (index, b) ← getbits b bits.index
  ok (
    record {
      number = number;
      type = type;
      owner_mode = owner_mode;
      group_mode = group_mode;
      other_mode = other_mode;
      uid = uid;
      gid = gid;
      ctime = ctime;
      mtime = mtime;
      size = size;
      block = block;
      index = index;
    },
    b,
  )

-- The reads of `block_fill`. Only the last block's size is in the table, behind all the rows.
unfoldable pub read_block : SuperBlock → ℕ → Bitbuffer → Result (Block × Bitbuffer)
read_block super number b =
    let last = (do
      (offset, b1) ← getbits b super.bits.block.offset
      (csize, b2) ← getbits b1 super.bits.block.compressed_size
      (size, b3) ← getbits b2 super.bits.block.size
      ok (
        record {
          offset = offset;
          size = size;
          compressed_size = u32 (csize + super.min.block.compressed_size);
        },
        b3,
      )) in
    let inner = (do
      (offset, b1) ← getbits b super.bits.block.offset
      (csize, b2) ← getbits b1 super.bits.block.compressed_size
      ok (
        record {
          offset = offset;
          size = super.block_size;
          compressed_size = u32 (csize + super.min.block.compressed_size);
        },
        b2,
      )) in
    if ltb (number + 1) super.blocks then inner else last
