-- ===== src/Unfs/Whole.antt =====
-- `node_fill` of src/mkfs/unfs.c gives back the inodes of mkfs that fit their widths.
use smashfs.Base.{ℕ, ◌≡◌, List, get_elem?, some, ok}
use smashfs.Format.{InodeMin}
use smashfs.Mkfs
use smashfs.Mkfs.Inodes.Laws.{stored}
use smashfs.Mkfs.Inodes.Whole.{IsWhole, SameNode, cut_node-SameNode, has_bits}
use smashfs.Table
use smashfs.Table.Read.{cut_node}
use smashfs.Unfs.{State, node_fill, fill_defaults}
use smashfs.Unfs.Fill.{HasInodes, node_fill-HasInodes}

-- For every node that mkfs packed and whose fields, less the times, fit widths of 1 to 32 bits,
-- `node_fill` of its number returns a node with those very fields.
pub node_fill-SameNode :
    (s : State) (min : InodeMin) (nodes : List Mkfs.Node) (buf : List ℕ) (k : ℕ) {node : Mkfs.Node}
    → HasInodes s min nodes buf
    → get_elem? nodes k ≡ some node
    → IsWhole s.super.bits.inode node
    → (out : Table.Node) × (node_fill s k ≡ ok out) × SameNode node k out
unfolding fill_defaults
node_fill-SameNode s min nodes buf k {node} h e whole =
    let bits = s.super.bits.inode in
    let cut = cut_node bits k (stored min node) in
    let same = cut_node-SameNode bits min k node whole in
    (
      fill_defaults s.super cut,
      node_fill-HasInodes s min nodes buf k h e,
      record {
        number = same.number;
        type = same.type;
        owner_mode = same.owner_mode;
        group_mode = rw (has_bits bits.group_mode whole.group_mode.1) same.group_mode;
        other_mode = rw (has_bits bits.other_mode whole.other_mode.1) same.other_mode;
        uid = rw (has_bits bits.uid whole.uid.1) same.uid;
        gid = rw (has_bits bits.gid whole.gid.1) same.gid;
        size = same.size;
        block = same.block;
        index = same.index;
      },
    )
