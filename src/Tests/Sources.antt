-- ===== src/Tests/Sources.antt =====
-- A directory with two files of the same content.
use native.Mathlib.Decide.{ℕ_discrete}
use smashfs.Base.{◌≡◌, refl, List, ◌∷◌, [], ok, Result, none, some, true, false, pos, same_bytes}
use smashfs.Mkfs.Limits.{Limits, init, scan}
use smashfs.Mkfs.Sources.{
  Entry, Sources, empty, other, dp, sources_scan, node_new, node_fill, node_init, node_type,
  new_directory, new_regular_file, link_node, attach, add_child, grow_pointer, grow_directory,
  add_node, add_duplicate, count_type, directory_entry, keep_pointer, find_duplicate, is_visited,
  is_elf, same_file, parent_number, entries_bytes,
}
use smashfs.Mkfs.Sources.Invariant.{IsScanned}
use smashfs.Mkfs.Sources.Distinct.{AreDistinct, contents}
use smashfs.Mkfs.Sources.Distinct.Kept.{sources_scan-AreDistinct}
use smashfs.Mkfs.Sources.Walk.{plenty}
use smashfs.Mkfs.Sources.Walk.Returns.{sources_scan-IsWalk}
use smashfs.Mkfs.Sources.Scan.{sources_scan-IsScanned, empty-IsScanned, scan-IsScanned}

abbrev root : Entry
root = record {
  id = 1;
  parent = none;
  info = other;
  name = b'd' ∷ [];
  accpath = b'd' ∷ [];
  st_mode = 0o040755;
  st_uid = 0;
  st_gid = 0;
  st_ctime = pos 7;
  st_mtime = pos 7;
  st_size = 4096;
  content = none;
  target = none;
}

abbrev first : Entry
first = record {
  id = 2;
  parent = some 1;
  info = other;
  name = b'a' ∷ [];
  accpath = b'd' ∷ b'/' ∷ b'a' ∷ [];
  st_mode = 0o100644;
  st_uid = 3;
  st_gid = 4;
  st_ctime = pos 8;
  st_mtime = pos 9;
  st_size = 2;
  content = some (1 ∷ 2 ∷ []);
  target = none;
}

abbrev second : Entry
second = record first { id = 3; name = b'b' ∷ []; st_mode = 0o100600 }

abbrev entries : List Entry
entries = root ∷ first ∷ second ∷ record root { info = dp } ∷ []

abbrev state_of : Result Sources → Sources
state_of (ok s) = s
state_of _ = empty

abbrev scanned : Sources
scanned = state_of (sources_scan (λ n. true) false 8 empty entries)

entries_run : sources_scan (λ n. true) false 8 empty entries ≡ ok scanned
unfolding sources_scan node_new node_fill node_init node_type new_directory new_regular_file
    link_node attach add_child grow_pointer grow_directory add_node add_duplicate count_type
    directory_entry keep_pointer find_duplicate is_visited is_elf same_file parent_number
    entries_bytes same_bytes ℕ_discrete
entries_run = refl

-- Two nodes, and one duplicate.
scanned_counts : (scanned.nodes_id ≡ 2) × (scanned.nduplicates ≡ 1)
unfolding sources_scan node_new node_fill node_init node_type new_directory new_regular_file
    link_node attach add_child grow_pointer grow_directory add_node add_duplicate count_type
    directory_entry keep_pointer find_duplicate is_visited is_elf same_file parent_number
    entries_bytes same_bytes ℕ_discrete
scanned_counts = (refl, refl)

sources_scan-IsScanned_example : IsScanned scanned
sources_scan-IsScanned_example =
    sources_scan-IsScanned (λ n. true) false 8 entries empty empty-IsScanned entries_run

scanned-IsScanned : IsScanned scanned
scanned-IsScanned =
    sources_scan-IsScanned (λ n. true) false 8 entries empty empty-IsScanned entries_run

scan-IsScanned_example : (l : Limits) × (scan init scanned.nodes_table ≡ ok l)
scan-IsScanned_example = scan-IsScanned scanned init scanned-IsScanned

none_twice : AreDistinct (contents empty.nodes_table)
none_twice i j c ei ej = cc

sources_scan-AreDistinct_example : AreDistinct (contents scanned.nodes_table)
sources_scan-AreDistinct_example =
    sources_scan-AreDistinct (λ n. true) 8 entries empty empty-IsScanned none_twice entries_run

sources_scan-IsWalk_example :
    (s' : Sources) × (sources_scan plenty false 8 empty entries ≡ ok s') × IsScanned s'
unfolding is_visited ℕ_discrete
sources_scan-IsWalk_example =
    sources_scan-IsWalk false 8 entries (refl, tt, (refl, refl, (refl, refl, tt)))
