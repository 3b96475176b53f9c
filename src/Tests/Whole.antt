-- ===== src/Tests/Whole.antt =====
-- The round trips of inodes that fit their widths, on two nodes.
use smashfs.Base.{ℕ, zero, suc, ◌≡◌, refl, arith, List, ◌∷◌, [], get_elem?, some, ok, ◌^◌, pos}
use smashfs.Base.{true, false, ◌≤◌, ◌+◌, ◌*◌, ◌++◌, length}
use smashfs.Bitbuffer.View.{are_bytes→IsBytes}
use smashfs.Directory.{entry_size, read_entry_type}
use smashfs.Directory.RoundTrip.{read-pack_entry, IsWholeEntry, entry_size_lem}
use smashfs.Kernel
use smashfs.Kernel.Whole.{node_fill-SameTimes}
use smashfs.Mkfs
use smashfs.Mkfs.Entries.{pack_entry}
use smashfs.Mkfs.Inodes.Whole.{IsWhole, SameNode}
use smashfs.Mkfs.Limits.{inode_bits, drop_fields}
use smashfs.Mkfs.Limits.Enough.{Fits, Is32, scan-widths}
use smashfs.Table
use smashfs.Tests.Tables.{
  bits, least, root, file, nodes, buf, state, state-HasInodes, mount, mount-IsMounted, limits,
  root_dir, scan_run,
}
use smashfs.Unfs
use smashfs.Unfs.Whole.{node_fill-SameNode}

root-IsWhole : IsWhole bits root
root-IsWhole = omega arith

node_fill-SameNode_example :
    (out : Table.Node) × (Unfs.node_fill state 0 ≡ ok out) × SameNode root 0 out
node_fill-SameNode_example =
    node_fill-SameNode state least nodes buf 0 state-HasInodes refl root-IsWhole

node_fill-SameTimes_example :
    (out : Table.Node) × (Kernel.node_fill mount 0 ≡ ok out)
    × SameNode root 0 out
    × (out.ctime ≡ 100)
    × (out.mtime ≡ 90)
node_fill-SameTimes_example =
    node_fill-SameTimes mount nodes 0 100 90 mount-IsMounted refl root-IsWhole
      (record { seconds = refl; late = omega arith; fits = omega arith })
      (record { seconds = refl; late = omega arith; fits = omega arith })

both-Is32 : (i : ℕ) (n : Mkfs.Node) → get_elem? (root_dir ∷ file ∷ []) i ≡ some n → Is32 n
both-Is32 zero n e = let e' : root_dir ≡ n = cc in let h : Is32 root_dir = omega arith in rw e' at h
both-Is32 (suc zero) n e = let e' : file ≡ n = cc in let h : Is32 file = omega arith in rw e' at h
both-Is32 (suc (suc i)) n e = cc

-- The users are dropped.
abbrev no_owners : Mkfs.Options
no_owners = record {
  block_size = 4096;
  njobs = 1;
  no_group_mode = false;
  no_other_mode = false;
  no_uid = true;
  no_gid = false;
  no_ctime = false;
  no_mtime = false;
  no_padding = false;
  no_duplicates = false;
}

scan-widths_example :
    Fits file.type (inode_bits (drop_fields no_owners limits) (pos 5) (pos 0) (pos 5)).type
    × Fits file.owner_mode
        (inode_bits (drop_fields no_owners limits) (pos 5) (pos 0) (pos 5)).owner_mode
    × Fits file.group_mode
        (inode_bits (drop_fields no_owners limits) (pos 5) (pos 0) (pos 5)).group_mode
    × Fits file.other_mode
        (inode_bits (drop_fields no_owners limits) (pos 5) (pos 0) (pos 5)).other_mode
    × ((inode_bits (drop_fields no_owners limits) (pos 5) (pos 0) (pos 5)).uid ≡ 0)
    × Fits file.gid (inode_bits (drop_fields no_owners limits) (pos 5) (pos 0) (pos 5)).gid
scan-widths_example =
    scan-widths no_owners (root_dir ∷ file ∷ []) (pos 5) (pos 0) (pos 5) 1 both-Is32 scan_run refl

abbrev pub entry : Mkfs.DirectoryEntry
entry = record { number = 1; length = 4; type = 1; name = 102 ∷ 105 ∷ 108 ∷ 101 ∷ [] }

pub entry-IsWholeEntry : IsWholeEntry bits.directory.entries entry
entry-IsWholeEntry = omega arith

-- The name follows.
read-pack_entry_example :
    (out : List ℕ) × (pack_entry (λ n. true) bits.directory entry
      ≡ ok (entry_size bits.directory.entries, out))
    × (length out ≡ entry_size bits.directory.entries)
    × (read_entry_type bits.directory.entries (out ++ entry.name) ≡ ok (1, 4, 1))
read-pack_entry_example =
    read-pack_entry (λ n. true) bits.directory entry (λ n. refl) entry-IsWholeEntry entry.name
      (are_bytes→IsBytes entry.name refl) small
  where
    small : (entry_size bits.directory.entries + 4) * 8 + 8 ≤ 2 ^ 31
    small = rw (entry_size_lem bits.directory.entries) (omega arith)
