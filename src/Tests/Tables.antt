-- ===== src/Tests/Tables.antt =====
-- The inode table of a directory and a file.
use smashfs.Base.{◌+◌, ℕ, ◌≡◌, ◌≢◌, refl, arith, List, [], ◌∷◌, pos, some}
use smashfs.Base.{true, Result, ok}
use smashfs.Bitbuffer.View.{field, bit_at, are_bytes→IsBytes}
use smashfs.Bitbuffer.Fresh.{IsPacked}
use smashfs.Bitbuffer.Fields.{table}
use smashfs.Buffer
use smashfs.Table.{max_inode_size}
use smashfs.Format
use smashfs.Format.{SuperBlock, InodeBits, InodeMin}
use smashfs.Kernel
use smashfs.Kernel.Fill.{
  IsMounted, node_fill-IsMounted, node_fill_counted-IsRestored, node_fill_late,
}
use smashfs.Mkfs
use smashfs.Mkfs.Inodes.{pack, table_size}
use smashfs.Mkfs.Inodes.Laws.{row, stored, IsNarrowInode, pack-IsPacked}
use smashfs.Mkfs.Limits.{Limits, init, scan}
use smashfs.Mkfs.Limits.Times.{scan-first_ctime}
use smashfs.Table
use smashfs.Table.Restored.{IsField, IsRestored}
use smashfs.Table.Read.{cut_node}
use smashfs.Unfs
use smashfs.Unfs.Fill.{HasInodes, node_fill-IsRestored}

abbrev pub bits : InodeBits
bits = record {
  type = 2;
  owner_mode = 3;
  group_mode = 3;
  other_mode = 3;
  uid = 1;
  gid = 1;
  ctime = 4;
  mtime = 4;
  size = 8;
  block = 1;
  index = 8;
  directory = record {
    parent = 1;
    nentries = 1;
    entries = record { number = 1; length = 3; type = 2 };
  };
}

abbrev pub least : InodeMin
least = record { ctime = 100; mtime = 90 }

abbrev pub root : Mkfs.Node
root = record {
  number = 0;
  type = 2;
  owner_mode = 7;
  group_mode = 5;
  other_mode = 5;
  uid = 0;
  gid = 1;
  ctime = pos 100;
  mtime = pos 90;
  size = 9;
  block = 0;
  index = 5;
  pointer = Mkfs.null;
  ntype = 3;
  path = [];
}

-- The file changed before the directory.
abbrev pub file : Mkfs.Node
file = record {
  number = 1;
  type = 1;
  owner_mode = 6;
  group_mode = 4;
  other_mode = 4;
  uid = 1;
  gid = 0;
  ctime = pos 99;
  mtime = pos 92;
  size = 5;
  block = 0;
  index = 0;
  pointer = Mkfs.null;
  ntype = 2;
  path = [];
}

abbrev pub nodes : List Mkfs.Node
nodes = root ∷ file ∷ []

packed_bytes : Result (List ℕ)
packed_bytes = pack (λ n. true) bits least 2 nodes

abbrev pub buf : List ℕ
buf = 189 ∷ 168 ∷ 0 ∷ 72 ∷ 21 ∷ 210 ∷ 94 ∷ 64 ∷ 160 ∷ 0 ∷ []

bits-IsNarrowInode : IsNarrowInode bits
bits-IsNarrowInode = omega arith

buf-IsPacked : IsPacked 10 (table (row bits least) nodes) buf
unfolding field bit_at
buf-IsPacked = record {
  readable = record { bytes = are_bytes→IsBytes buf refl; small = omega arith };
  same_length = refl;
  held = search (refl, tt) depth 60;
}

abbrev super : SuperBlock
super = record {
  magic = Format.magic;
  version = Format.version_0;
  ctime = 0;
  inodes = 2;
  blocks = 1;
  block_size = 4096;
  block_log2 = 12;
  root = 0;
  inodes_offset = 152;
  inodes_size = 10;
  inodes_csize = 10;
  blocks_offset = 162;
  blocks_size = 3;
  entries_offset = 165;
  entries_size = 14;
  compression_type = 0;
  bits = record { inode = bits; block = record { offset = 1; compressed_size = 1; size = 4 } };
  min = record { inode = least; block = record { compressed_size = 14 } };
}

abbrev pub state : Unfs.State
state = record {
  super = super;
  inode_buffer = record { buffer = buf; size = 16; length = 10 };
  block_buffer = record { buffer = []; size = 0; length = 0 };
  entry_buffer = record { buffer = []; size = 0; length = 0 };
}

abbrev pub mount : Kernel.SuperInfo
mount = record {
  devblksize = 1024;
  devblksize_log2 = 10;
  super = super;
  inodes_table = buf;
  blocks_table = [];
  uncompress = λ src dsize. some src;
}

size-table : table_size bits 2 ≡ 10
unfolding table_size max_inode_size
size-table = refl

pub state-HasInodes : HasInodes state least nodes buf
unfolding Buffer.contents
state-HasInodes = record {
  packed = rw size-table buf-IsPacked;
  narrow = bits-IsNarrowInode;
  bytes = refl;
  count = refl;
}

pub mount-IsMounted : IsMounted mount least nodes
mount-IsMounted = record {
  packed = rw size-table buf-IsPacked;
  narrow = bits-IsNarrowInode;
  size = refl;
}

pack-IsPacked_example :
    (out : List ℕ) × (pack (λ n. true) bits least 2 nodes ≡ ok out)
    × IsPacked (table_size bits 2) (table (row bits least) nodes) out
pack-IsPacked_example =
    pack-IsPacked bits least (λ n. true) nodes (λ n. refl) bits-IsNarrowInode
      (rw size-table (omega arith))

node_fill-IsRestored_example :
    (out : Table.Node) × (Unfs.node_fill state 0 ≡ ok out)
    × IsRestored bits 0 (stored least root) out
    × IsField bits.ctime (stored least root).ctime super.ctime out.ctime
    × IsField bits.mtime (stored least root).mtime out.ctime out.mtime
node_fill-IsRestored_example = node_fill-IsRestored state least nodes buf 0 state-HasInodes refl

node_fill_counted-IsRestored_example :
    (out : Table.Node) × (c : ℕ) × (m : ℕ) × (Kernel.node_fill mount 1 ≡ ok out)
    × IsRestored bits 1 (stored least file) out
    × IsField bits.ctime (stored least file).ctime super.ctime c
    × IsField bits.mtime (stored least file).mtime c m
    × (out.ctime ≡ c + super.min.inode.ctime)
    × (out.mtime ≡ m + super.min.inode.mtime)
node_fill_counted-IsRestored_example =
    node_fill_counted-IsRestored mount least nodes 1 mount-IsMounted refl

node_fill_late_example :
    file.ctime ≢ pos (Kernel.fill_defaults super (cut_node bits 1 (stored least file))).ctime
node_fill_late_example =
    node_fill_late mount least nodes 1 99 mount-IsMounted refl refl (omega arith)
      (node_fill-IsMounted mount least nodes 1 mount-IsMounted refl)

-- What the first pass makes of the two nodes.
abbrev pub limits : Limits
limits = record {
  min_ctime = pos 100;
  min_mtime = pos 90;
  max_number = pos 1;
  max_type = pos 2;
  max_owner_mode = pos 7;
  max_group_mode = pos 5;
  max_other_mode = pos 5;
  max_uid = pos 1;
  max_gid = pos 1;
  max_ctime = pos 100;
  max_mtime = pos 92;
  max_parent = pos 0;
  max_nentries = pos 1;
  max_entries_number = pos 1;
  max_entries_length = pos 4;
  max_entries_type = pos 1;
}

abbrev pub root_dir : Mkfs.Node
root_dir = record root {
  pointer = Mkfs.directory (record {
    parent = 0;
    nentries = 1;
    entries = record { number = 1; length = 4; type = 1; name = 102 ∷ 105 ∷ 108 ∷ 101 ∷ [] } ∷ [];
  });
}

pub scan_run : scan init (root_dir ∷ file ∷ []) ≡ ok limits
unfolding scan Mkfs.Limits.scan_node
scan_run = refl

scan-first_ctime_example : limits.min_ctime ≡ pos 100
scan-first_ctime_example = scan-first_ctime root_dir (file ∷ []) 100 refl (omega arith) scan_run
