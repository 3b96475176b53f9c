-- ===== src/Mkfs/Inodes/Whole.antt =====
-- Inodes of src/mkfs/mkfs.c whose fields fit the widths of the super block, and what the readers
-- make of them.
use native.Mathlib.Nat.{mod-eq_of_lt, pow-le-pow_right}
use smashfs.Base.{ℕ, ◌%◌, ◌^◌, ◌≡◌, ◌≤◌, ◌==◌, false, refl, arith, u32}
use smashfs.Format.{InodeBits, InodeMin}
use smashfs.Mkfs.{Node}
use smashfs.Mkfs.Inodes.Laws.{stored}
use smashfs.Mkfs.Limits.Enough.{Fits}
use smashfs.Table
use smashfs.Table.Read.{cut_node}

-- Every field but the times fits its width.
pub record IsWhole (bits : InodeBits) (node : Node) : Type 0 where
  pub type : Fits node.type bits.type
  pub owner_mode : Fits node.owner_mode bits.owner_mode
  pub group_mode : Fits node.group_mode bits.group_mode
  pub other_mode : Fits node.other_mode bits.other_mode
  pub uid : Fits node.uid bits.uid
  pub gid : Fits node.gid bits.gid
  pub size : Fits node.size bits.size
  pub block : Fits node.block bits.block
  pub index : Fits node.index bits.index

-- A reader's node with the fields of mkfs's node, less the times.
pub record SameNode (node : Node) (k : ℕ) (out : Table.Node) : Type 0 where
  pub number : out.number ≡ k
  pub type : out.type ≡ node.type
  pub owner_mode : out.owner_mode ≡ node.owner_mode
  pub group_mode : out.group_mode ≡ node.group_mode
  pub other_mode : out.other_mode ≡ node.other_mode
  pub uid : out.uid ≡ node.uid
  pub gid : out.gid ≡ node.gid
  pub size : out.size ≡ node.size
  pub block : out.block ≡ node.block
  pub index : out.index ≡ node.index

-- A field that a value fits has a bit.
pub has_bits : (w : ℕ) → 1 ≤ w → (w == 0) ≡ false
has_bits w h = ground arith

-- A value that fits its field comes back whole.
pub kept : (value w : ℕ) → Fits value w → u32 value % 2 ^ w ≡ value
kept value w (lt, some_bits, few) =
    let le = pow-le-pow_right {n = 2} (omega arith) few in
    let whole : u32 value ≡ value = mod-eq_of_lt (omega arith) in rw whole (mod-eq_of_lt lt)

-- The cut of a node that fits has the node's own fields.
pub cut_node-SameNode :
    (bits : InodeBits) (min : InodeMin) (number : ℕ) (node : Node)
    → IsWhole bits node
    → SameNode node number (cut_node bits number (stored min node))
cut_node-SameNode bits min number node h = record {
  number = refl;
  type = kept node.type bits.type h.type;
  owner_mode = kept node.owner_mode bits.owner_mode h.owner_mode;
  group_mode = kept node.group_mode bits.group_mode h.group_mode;
  other_mode = kept node.other_mode bits.other_mode h.other_mode;
  uid = kept node.uid bits.uid h.uid;
  gid = kept node.gid bits.gid h.gid;
  size = kept node.size bits.size h.size;
  block = kept node.block bits.block h.block;
  index = kept node.index bits.index h.index;
}
