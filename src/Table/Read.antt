-- ===== src/Table/Read.antt =====
-- What the readers decode from a table whose rows are stored.
use smashfs.Base.{ℕ, ◌+◌, ◌%◌, ◌^◌, ◌≤◌, ◌<◌, ◌≡◌, arith, List, [], ◌∷◌}
use smashfs.Base.{ok, lt→ltb, ge→ltb, u32}
use smashfs.Bitbuffer.{Bitbuffer}
use smashfs.Bitbuffer.Fields.{Field, width}
use smashfs.Bitbuffer.Cursor.{IsBefore, IsBefore-next, getbits-IsBefore, past}
use smashfs.Format.{InodeBits, BlockBits, SuperBlock}
use smashfs.Table.{Node, read_node, read_block, max_inode_size}

-- The fields of one inode, in the order of the table.
abbrev pub node_fields : InodeBits → Node → List Field
node_fields bits n =
    (bits.type, n.type)
    ∷ (bits.owner_mode, n.owner_mode)
    ∷ (bits.group_mode, n.group_mode)
    ∷ (bits.other_mode, n.other_mode)
    ∷ (bits.uid, n.uid)
    ∷ (bits.gid, n.gid)
    ∷ (bits.ctime, n.ctime)
    ∷ (bits.mtime, n.mtime)
    ∷ (bits.size, n.size)
    ∷ (bits.block, n.block)
    ∷ (bits.index, n.index)
    ∷ []

-- An inode with each value cut to its field.
abbrev pub cut_node : InodeBits → ℕ → Node → Node
cut_node bits number n = record {
  number = number;
  type = n.type % 2 ^ bits.type;
  owner_mode = n.owner_mode % 2 ^ bits.owner_mode;
  group_mode = n.group_mode % 2 ^ bits.group_mode;
  other_mode = n.other_mode % 2 ^ bits.other_mode;
  uid = n.uid % 2 ^ bits.uid;
  gid = n.gid % 2 ^ bits.gid;
  ctime = n.ctime % 2 ^ bits.ctime;
  mtime = n.mtime % 2 ^ bits.mtime;
  size = n.size % 2 ^ bits.size;
  block = n.block % 2 ^ bits.block;
  index = n.index % 2 ^ bits.index;
}

pub width-node_fields :
    (bits : InodeBits) (n : Node) → width (node_fields bits n) ≡ max_inode_size bits
unfolding max_inode_size
width-node_fields bits n = omega arith

abbrev past_node : InodeBits → Bitbuffer → Bitbuffer
past_node bits b =
    past
      (past
        (past
          (past
            (past
              (past
                (past
                  (past (past (past (past b bits.type) bits.owner_mode) bits.group_mode)
                    bits.other_mode)
                  bits.uid)
                bits.gid)
              bits.ctime)
            bits.mtime)
          bits.size)
        bits.block)
      bits.index

pub read_node_lem :
    (bits : InodeBits) (number : ℕ) (b : Bitbuffer) (n : Node)
    → IsBefore b (node_fields bits n)
    → (b' : Bitbuffer) × (read_node bits number b ≡ ok (cut_node bits number n, b'))
unfolding read_node
read_node_lem bits number b n s0 =
    let s1 = IsBefore-next s0 in
    let s2 = IsBefore-next s1 in
    let s3 = IsBefore-next s2 in
    let s4 = IsBefore-next s3 in
    let s5 = IsBefore-next s4 in
    let s6 = IsBefore-next s5 in
    let s7 = IsBefore-next s6 in
    let s8 = IsBefore-next s7 in
    let s9 = IsBefore-next s8 in
    let s10 = IsBefore-next s9 in
    (
      past_node bits b,
      rw (
        getbits-IsBefore s0,
        getbits-IsBefore s1,
        getbits-IsBefore s2,
        getbits-IsBefore s3,
        getbits-IsBefore s4,
        getbits-IsBefore s5,
        getbits-IsBefore s6,
        getbits-IsBefore s7,
        getbits-IsBefore s8,
        getbits-IsBefore s9,
        getbits-IsBefore s10,
      ),
    )

-- The fields of one row of the block table, and the last block's size behind the rows.
abbrev pub block_fields : BlockBits → ℕ → ℕ → List Field
block_fields bits offset csize = (bits.offset, offset) ∷ (bits.compressed_size, csize) ∷ []

abbrev pub size_field : BlockBits → ℕ → List Field
size_field bits size = (bits.size, size) ∷ []

-- A row before the last gives the block size of the super block.
pub read_block_inner :
    (super : SuperBlock) (number : ℕ) (b : Bitbuffer) (offset csize : ℕ)
    → number + 1 < super.blocks
    → IsBefore b (block_fields super.bits.block offset csize)
    → read_block super number b
      ≡ ok (
        record {
          offset = offset % 2 ^ super.bits.block.offset;
          size = super.block_size;
          compressed_size =
              u32 (csize % 2 ^ super.bits.block.compressed_size + super.min.block.compressed_size);
        },
        past (past b super.bits.block.offset) super.bits.block.compressed_size,
      )
unfolding read_block
read_block_inner super number b offset csize lt s0 =
    let s1 = IsBefore-next s0 in
    rw (lt→ltb (number + 1) super.blocks lt, getbits-IsBefore s0, getbits-IsBefore s1)

-- The last row gives the size that is stored behind it.
pub read_block_last :
    (super : SuperBlock) (number : ℕ) (b : Bitbuffer) (offset csize size : ℕ)
    → super.blocks ≤ number + 1
    → IsBefore b (
        (super.bits.block.offset, offset)
        ∷ (super.bits.block.compressed_size, csize)
        ∷ (super.bits.block.size, size)
        ∷ [])
    → read_block super number b
      ≡ ok (
        record {
          offset = offset % 2 ^ super.bits.block.offset;
          size = size % 2 ^ super.bits.block.size;
          compressed_size =
              u32 (csize % 2 ^ super.bits.block.compressed_size + super.min.block.compressed_size);
        },
        past
            (past (past b super.bits.block.offset) super.bits.block.compressed_size)
            super.bits.block.size,
      )
unfolding read_block
read_block_last super number b offset csize size ge s0 =
    let s1 = IsBefore-next s0 in
    let s2 = IsBefore-next s1 in
    rw (
      ge→ltb (number + 1) super.blocks ge,
      getbits-IsBefore s0,
      getbits-IsBefore s1,
      getbits-IsBefore s2,
    )
