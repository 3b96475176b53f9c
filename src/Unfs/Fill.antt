-- ===== src/Unfs/Fill.antt =====
-- `node_fill` of src/mkfs/unfs.c reads back the inodes that mkfs packed.
use smashfs.Base.{
  refl, ◌%◌, ◌==◌, if◌then◌else◌, ℕ, ◌*◌, ◌^◌, ◌<◌, ◌≡◌, arith, List, length, get_elem?, some, ok,
}
use smashfs.Bitbuffer.Fresh.{IsPacked, init_from_buffer_lem, setpos-opened, uninit_lem}
use smashfs.Bitbuffer.Fields.{table}
use smashfs.Buffer
use smashfs.Format.{InodeMin}
use smashfs.Mkfs
use smashfs.Mkfs.Inodes.{table_size}
use smashfs.Mkfs.Inodes.Laws.{row, stored, IsNarrowInode}
use smashfs.Mkfs.Inodes.Rows.{row-IsBefore}
use smashfs.Table.{Node, max_inode_size}
use smashfs.Table.Restored.{IsField, IsRestored, field_lem}
use smashfs.Table.Read.{cut_node, read_node_lem}
use smashfs.Unfs.{State, node_fill, fill_defaults}
use native.Mathlib.Nat.{mod-eq_of_lt}

-- unfs over the packed inode table of `nodes`.
pub record HasInodes (s : State) (min : InodeMin) (nodes : List Mkfs.Node) (buf : List ℕ)
    : Type 0 where
  pub packed :
      IsPacked
        (table_size s.super.bits.inode (length nodes))
        (table (row s.super.bits.inode min) nodes)
        buf
  pub narrow : IsNarrowInode s.super.bits.inode
  pub bytes : Buffer.contents s.inode_buffer ≡ buf
  pub count : s.inode_buffer.length ≡ length buf

-- For every node that mkfs packed, `node_fill` of its number returns the stored values, each cut
-- to its field, with the defaults for the fields of no bits. It reads nothing out of bounds.
pub node_fill-HasInodes :
    (s : State) (min : InodeMin) (nodes : List Mkfs.Node) (buf : List ℕ) (k : ℕ) {node : Mkfs.Node}
    → HasInodes s min nodes buf
    → get_elem? nodes k ≡ some node
    → node_fill s k ≡ ok (fill_defaults s.super (cut_node s.super.bits.inode k (stored min node)))
unfolding node_fill
node_fill-HasInodes s min nodes buf k {node} h e =
    let bits = s.super.bits.inode in
    let (near, before) = row-IsBefore bits min nodes buf h.packed h.narrow k e in
    let (b', run) = read_node_lem bits k _ (stored min node) before in
    let small = h.packed.readable.small in
    let wide : k * max_inode_size bits < 2 ^ 32 = omega arith in
    rw (
      h.bytes,
      h.count,
      init_from_buffer_lem buf (length buf) (omega arith),
      mod-eq_of_lt wide,
      setpos-opened buf (length buf) (k * max_inode_size bits) wide,
      run,
      uninit_lem b',
    )

-- For every node that mkfs packed in fields of at most 32 bits, `node_fill` of its number returns
-- a node with the stored values, each cut to its field. Where a field has no bits, the modes of
-- the group and of the others are the owner's, the user and the group are 0, the change time is
-- that of the super block, and the modification time is the change time.
pub node_fill-IsRestored :
    (s : State) (min : InodeMin) (nodes : List Mkfs.Node) (buf : List ℕ) (k : ℕ) {node : Mkfs.Node}
    → HasInodes s min nodes buf
    → get_elem? nodes k ≡ some node
    → (out : Node) × (node_fill s k ≡ ok out)
      × IsRestored s.super.bits.inode k (stored min node) out
      × IsField s.super.bits.inode.ctime (stored min node).ctime s.super.ctime out.ctime
      × IsField s.super.bits.inode.mtime (stored min node).mtime out.ctime out.mtime
unfolding fill_defaults
node_fill-IsRestored s min nodes buf k {node} h e =
    let bits = s.super.bits.inode in
    let x = stored min node in
    let owner = x.owner_mode % 2 ^ bits.owner_mode in
    let ctime = if bits.ctime == 0 then s.super.ctime else x.ctime % 2 ^ bits.ctime in
    (
      fill_defaults s.super (cut_node bits k x),
      node_fill-HasInodes s min nodes buf k h e,
      record {
        number_is = refl;
        type = refl;
        owner_mode = refl;
        group_mode = field_lem bits.group_mode x.group_mode owner;
        other_mode = field_lem bits.other_mode x.other_mode owner;
        uid = field_lem bits.uid x.uid 0;
        gid = field_lem bits.gid x.gid 0;
        size = refl;
        block = refl;
        index = refl;
      },
      field_lem bits.ctime x.ctime s.super.ctime,
      field_lem bits.mtime x.mtime ctime,
    )
