-- ===== src/Kernel/Whole.antt =====
-- `node_fill` and `smashfs_read_inode` of src/linux/super.c give back the inodes of mkfs that fit
-- their widths, with their times.
use smashfs.Base.{ℕ, ◌+◌, ◌-◌, ◌%◌, ◌^◌, ◌≡◌, ◌≤◌, List, get_elem?, some, ok}
use smashfs.Base.{arith, ℤ, pos, ◌-ℤ◌, u32_ℤ, le→leb}
use smashfs.Kernel.{SuperInfo, node_fill, fill_defaults}
use smashfs.Kernel.Fill.{IsMounted, node_fill-IsMounted}
use smashfs.Mkfs
use smashfs.Mkfs.Inodes.Laws.{stored}
use smashfs.Mkfs.Inodes.Whole.{IsWhole, SameNode, cut_node-SameNode, has_bits, kept}
use smashfs.Mkfs.Limits.Enough.{Fits}
use smashfs.Table
use smashfs.Table.Read.{cut_node}

-- A time that is not before its minimum, and whose distance from it fits the field.
pub record IsTimely (time : ℤ) (t least w : ℕ) : Type 0 where
  pub seconds : time ≡ pos t
  pub late : least ≤ t
  pub fits : Fits (t - least) w

-- The stored distance, cut to its field and counted from the minimum, is the time.
counted :
    (time : ℤ) (t least w : ℕ)
    → IsTimely time t least w
    → u32_ℤ (time -ℤ pos least) % 2 ^ w + least ≡ t
counted time t least w h =
    rw (h.seconds, le→leb least t h.late, kept (t - least) w h.fits) (let l = h.late in omega arith)

-- For every node that mkfs packed, whose fields fit widths of 1 to 32 bits and whose times are not
-- before the minima of the super block, the kernel's `node_fill` of its number returns a node with
-- those very fields and times.
pub node_fill-SameTimes :
    (sbi : SuperInfo) (nodes : List Mkfs.Node) (k c m : ℕ) {node : Mkfs.Node}
    → IsMounted sbi sbi.super.min.inode nodes
    → get_elem? nodes k ≡ some node
    → IsWhole sbi.super.bits.inode node
    → IsTimely node.ctime c sbi.super.min.inode.ctime sbi.super.bits.inode.ctime
    → IsTimely node.mtime m sbi.super.min.inode.mtime sbi.super.bits.inode.mtime
    → (out : Table.Node) × (node_fill sbi k ≡ ok out)
      × SameNode node k out
      × (out.ctime ≡ c)
      × (out.mtime ≡ m)
unfolding fill_defaults
node_fill-SameTimes sbi nodes k c m {node} h e whole ct mt =
    let bits = sbi.super.bits.inode in
    let min = sbi.super.min.inode in
    let cut = cut_node bits k (stored min node) in
    let same = cut_node-SameNode bits min k node whole in
    (
      fill_defaults sbi.super cut,
      node_fill-IsMounted sbi min nodes k h e,
      record {
        number = same.number;
        type = same.type;
        owner_mode = same.owner_mode;
        group_mode = rw (has_bits bits.group_mode whole.group_mode.1) same.group_mode;
        other_mode = rw (has_bits bits.other_mode whole.other_mode.1) same.other_mode;
        uid = rw (has_bits bits.uid whole.uid.1) same.uid;
        gid = rw (has_bits bits.gid whole.gid.1) same.gid;
        size = same.size;
        block = same.block;
        index = same.index;
      },
      rw (has_bits bits.ctime ct.fits.1) (counted node.ctime c min.ctime bits.ctime ct),
      rw (has_bits bits.mtime mt.fits.1) (counted node.mtime m min.mtime bits.mtime mt),
    )
