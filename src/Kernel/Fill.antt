-- ===== src/Kernel/Fill.antt =====
-- `node_fill` of src/linux/super.c reads back the inodes that mkfs packed.
use smashfs.Base.{
  refl, ◌+◌, ◌%◌, ◌==◌, if◌then◌else◌, ℕ, ◌*◌, ◌^◌, ◌<◌, ◌≡◌, ◌∙◌, arith, List, length, get_elem?,
  some, ok, pos, ◌≢◌, ap, sym, ◌≤◌,
}
use smashfs.Bitbuffer.Fresh.{IsPacked, init_from_buffer_lem, setpos-opened, uninit_lem}
use smashfs.Bitbuffer.Fields.{table}
use smashfs.Format.{InodeMin}
use smashfs.Mkfs
use smashfs.Mkfs.Inodes.{table_size}
use smashfs.Mkfs.Inodes.Laws.{row, stored, IsNarrowInode}
use smashfs.Mkfs.Inodes.Rows.{row-IsBefore}
use smashfs.Table.{Node, max_inode_size}
use smashfs.Table.Read.{cut_node, read_node_lem}
use smashfs.Table.Restored.{IsField, IsRestored, field_lem}
use smashfs.Kernel.{SuperInfo, node_fill, fill_defaults}
use native.Mathlib.Nat.{mod-eq_of_lt}

-- A mount over the packed inode table of `nodes`.
pub record IsMounted (sbi : SuperInfo) (min : InodeMin) (nodes : List Mkfs.Node) : Type 0 where
  pub packed :
      IsPacked
        (table_size sbi.super.bits.inode (length nodes))
        (table (row sbi.super.bits.inode min) nodes)
        sbi.inodes_table
  pub narrow : IsNarrowInode sbi.super.bits.inode
  pub size : sbi.super.inodes_size ≡ length sbi.inodes_table

-- For every node that mkfs packed, the kernel's `node_fill` of its number returns the stored
-- values, each cut to its field, with the defaults for the fields of no bits and the times counted
-- from their minima. It reads nothing out of bounds.
pub node_fill-IsMounted :
    (sbi : SuperInfo) (min : InodeMin) (nodes : List Mkfs.Node) (k : ℕ) {node : Mkfs.Node}
    → IsMounted sbi min nodes
    → get_elem? nodes k ≡ some node
    → node_fill sbi k
      ≡ ok (fill_defaults sbi.super (cut_node sbi.super.bits.inode k (stored min node)))
unfolding node_fill
node_fill-IsMounted sbi min nodes k {node} h e =
    let bits = sbi.super.bits.inode in
    let buf = sbi.inodes_table in
    let (near, before) = row-IsBefore bits min nodes buf h.packed h.narrow k e in
    let (b', run) = read_node_lem bits k _ (stored min node) before in
    let small = h.packed.readable.small in
    let wide : k * max_inode_size bits < 2 ^ 32 = omega arith in
    rw (
      h.size,
      init_from_buffer_lem buf (length buf) (omega arith),
      mod-eq_of_lt wide,
      setpos-opened buf (length buf) (k * max_inode_size bits) wide,
      run,
      uninit_lem b',
    )

-- For every node that mkfs packed in fields of at most 32 bits, the kernel's `node_fill` of its
-- number returns a node with the stored values, each cut to its field. Where a field has no bits,
-- the modes of the group and of the others are the owner's, and the user and the group are 0. The
-- change time is the minimum of the super block plus the stored distance, or plus the time of the
-- super block where that has no bits; the modification time is its minimum plus the stored
-- distance, or plus the distance of the change time.
pub node_fill_counted-IsRestored :
    (sbi : SuperInfo) (min : InodeMin) (nodes : List Mkfs.Node) (k : ℕ) {node : Mkfs.Node}
    → IsMounted sbi min nodes
    → get_elem? nodes k ≡ some node
    → (out : Node) × (c : ℕ) × (m : ℕ) × (node_fill sbi k ≡ ok out)
      × IsRestored sbi.super.bits.inode k (stored min node) out
      × IsField sbi.super.bits.inode.ctime (stored min node).ctime sbi.super.ctime c
      × IsField sbi.super.bits.inode.mtime (stored min node).mtime c m
      × (out.ctime ≡ c + sbi.super.min.inode.ctime)
      × (out.mtime ≡ m + sbi.super.min.inode.mtime)
unfolding fill_defaults
node_fill_counted-IsRestored sbi min nodes k {node} h e =
    let bits = sbi.super.bits.inode in
    let x = stored min node in
    let owner = x.owner_mode % 2 ^ bits.owner_mode in
    let c = if bits.ctime == 0 then sbi.super.ctime else x.ctime % 2 ^ bits.ctime in
    (
      fill_defaults sbi.super (cut_node bits k x),
      c,
      (if bits.mtime == 0 then c else x.mtime % 2 ^ bits.mtime),
      node_fill-IsMounted sbi min nodes k h e,
      record {
        number_is = refl;
        type = refl;
        owner_mode = refl;
        group_mode = field_lem bits.group_mode x.group_mode owner;
        other_mode = field_lem bits.other_mode x.other_mode owner;
        uid = field_lem bits.uid x.uid 0;
        gid = field_lem bits.gid x.gid 0;
        size = refl;
        block = refl;
        index = refl;
      },
      field_lem bits.ctime x.ctime sbi.super.ctime,
      field_lem bits.mtime x.mtime c,
      refl,
      refl,
    )

-- A node that changed before the stored least time comes back with a later time than it had.
pub node_fill_late :
    (sbi : SuperInfo) (min : InodeMin) (nodes : List Mkfs.Node) (k t : ℕ) {node : Mkfs.Node}
    {n : Node}
    → IsMounted sbi min nodes
    → get_elem? nodes k ≡ some node
    → node.ctime ≡ pos t
    → t < sbi.super.min.inode.ctime
    → node_fill sbi k ≡ ok n
    → node.ctime ≢ pos n.ctime
unfolding fill_defaults
node_fill_late sbi min nodes k t {node} {n} h e et late run =
    let same = node_fill-IsMounted sbi min nodes k h e in
    let filled : n ≡ fill_defaults sbi.super (cut_node sbi.super.bits.inode k (stored min node)) =
      cc in
    let after : sbi.super.min.inode.ctime ≤ n.ctime =
      omega (arith, ap (λ (x : Node). x.ctime) filled) in
    λ same_time. let eq : t ≡ n.ctime = pos-injective (sym et ∙ same_time) in omega arith
  where
    pos-injective : {a b : ℕ} → pos a ≡ pos b → a ≡ b
    pos-injective q = cc
