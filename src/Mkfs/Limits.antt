-- ===== src/Mkfs/Limits.antt =====
-- src/mkfs/mkfs.c, `output_write`: the greatest values of the inodes and the widths they need.
pub mod Times
pub mod Enough
use smashfs.Base.{ℕ, zero, suc, ◌^◌, ◌-◌, Bool, true, false, List, [], ◌∷◌, ◌==◌, if◌then◌else◌}
use smashfs.Base.{ℤ, pos, negsuc, max_ℤ, min_ℤ, ◌-ℤ◌, Result, ok, fault, ◌>>=◌}
use smashfs.Format.InodeType
use smashfs.Format.{EntryBits, DirectoryBits, InodeBits}
use smashfs.Mkfs.{Node, Directory, DirectoryEntry, Pointer, directory, Options}
use smashfs.Mkfs.Log.{blog}

-- The locals `min_inode_*` and `max_inode_*` of the first pass.
pub record Limits : Type 0 where
  pub min_ctime : ℤ
  pub min_mtime : ℤ
  pub max_number : ℤ
  pub max_type : ℤ
  pub max_owner_mode : ℤ
  pub max_group_mode : ℤ
  pub max_other_mode : ℤ
  pub max_uid : ℤ
  pub max_gid : ℤ
  pub max_ctime : ℤ
  pub max_mtime : ℤ
  pub max_parent : ℤ
  pub max_nentries : ℤ
  pub max_entries_number : ℤ
  pub max_entries_length : ℤ
  pub max_entries_type : ℤ

abbrev pub long_long_max : ℤ
long_long_max = pos (2 ^ 63 - 1)

abbrev minus_one : ℤ
minus_one = negsuc 0

abbrev pub init : Limits
init = record {
  min_ctime = long_long_max;
  min_mtime = long_long_max;
  max_number = minus_one;
  max_type = minus_one;
  max_owner_mode = minus_one;
  max_group_mode = minus_one;
  max_other_mode = minus_one;
  max_uid = minus_one;
  max_gid = minus_one;
  max_ctime = minus_one;
  max_mtime = minus_one;
  max_parent = minus_one;
  max_nentries = minus_one;
  max_entries_number = minus_one;
  max_entries_length = minus_one;
  max_entries_type = minus_one;
}

-- The loop over a directory's entries; `nentries` rounds, a missing entry being out of bounds.
unfoldable pub scan_entries : ℕ → List DirectoryEntry → Limits → Result Limits
scan_entries zero es l = ok l
scan_entries (suc n) [] l = fault
scan_entries (suc n) (e ∷ es) l = scan_entries n es (record l {
  max_entries_number = max_ℤ l.max_entries_number (pos e.number);
  max_entries_length = max_ℤ l.max_entries_length (pos e.length);
  max_entries_type = max_ℤ l.max_entries_type (pos e.type);
})

unfoldable pub scan_directory : Pointer → Limits → Result Limits
scan_directory (directory d) l = scan_entries d.nentries d.entries (record l {
  max_parent = max_ℤ l.max_parent (pos d.parent);
  max_nentries = max_ℤ l.max_nentries (pos d.nentries);
})
scan_directory _ l = fault

-- The minima are taken of the running maxima `max_inode_ctime` and `max_inode_mtime`.
unfoldable pub scan_node : Limits → Node → Result Limits
unfolding scan_entries scan_directory
scan_node l node =
    let max_ctime = max_ℤ l.max_ctime node.ctime in
    let max_mtime = max_ℤ l.max_mtime node.mtime in
    let l' : Limits = record l {
      max_number = max_ℤ l.max_number (pos node.number);
      max_type = max_ℤ l.max_type (pos node.type);
      max_owner_mode = max_ℤ l.max_owner_mode (pos node.owner_mode);
      max_group_mode = max_ℤ l.max_group_mode (pos node.group_mode);
      max_other_mode = max_ℤ l.max_other_mode (pos node.other_mode);
      max_uid = max_ℤ l.max_uid (pos node.uid);
      max_gid = max_ℤ l.max_gid (pos node.gid);
      max_ctime = max_ctime;
      max_mtime = max_mtime;
      min_ctime = min_ℤ max_ctime l.min_ctime;
      min_mtime = min_ℤ max_mtime l.min_mtime;
    } in
    if node.type == InodeType.directory then scan_directory node.pointer l' else ok l'

unfoldable pub scan : Limits → List Node → Result Limits
scan l [] = ok l
scan l (node ∷ nodes) = do l' ← scan_node l node; scan l' nodes

-- The settings that drop a field.
pub drop_fields : Options → Limits → Limits
drop_fields o l = record l {
  max_group_mode = if o.no_group_mode then minus_one else l.max_group_mode;
  max_other_mode = if o.no_other_mode then minus_one else l.max_other_mode;
  max_uid = if o.no_uid then minus_one else l.max_uid;
  max_gid = if o.no_gid then minus_one else l.max_gid;
  max_ctime = if o.no_ctime then minus_one else l.max_ctime;
  max_mtime = if o.no_mtime then minus_one else l.max_mtime;
}

-- super.bits.inode.directory
pub directory_bits : Limits → DirectoryBits
directory_bits l = record {
  parent = blog l.max_parent;
  nentries = blog l.max_nentries;
  entries = record {
    number = blog l.max_entries_number;
    length = blog l.max_entries_length;
    type = blog l.max_entries_type;
  };
}

-- super.bits.inode; the last three widths are set once the data blocks are filled.
pub inode_bits : Limits → ℤ → ℤ → ℤ → InodeBits
inode_bits l max_size max_block max_index = record {
  type = blog l.max_type;
  owner_mode = blog l.max_owner_mode;
  group_mode = blog l.max_group_mode;
  other_mode = blog l.max_other_mode;
  uid = blog l.max_uid;
  gid = blog l.max_gid;
  ctime = blog (l.max_ctime -ℤ l.min_ctime);
  mtime = blog (l.max_mtime -ℤ l.min_mtime);
  size = blog max_size;
  block = blog max_block;
  index = blog max_index;
  directory = directory_bits l;
}
