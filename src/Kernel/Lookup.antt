-- ===== src/Kernel/Lookup.antt =====
-- src/linux/super.c, `smashfs_lookup`: the inode number of a name in a directory.
pub mod Found
use smashfs.Base.{ℕ, zero, suc, Bool, List, Option, none, some, length, take, drop}
use smashfs.Base.{get_or, get_elem?, ltb, ◌==◌, ◌&&◌, if◌then◌else◌}
use smashfs.Base.{same_bytes, Result, ok, ◌>>=◌, ◌>>◌, require, load}
use smashfs.Directory.{head_size, entry_size, read_head, read_entry}
use smashfs.Format.{DirectoryBits}
use smashfs.Kernel.{SuperInfo, Inode, Iget, get_inode}
use smashfs.Kernel.Device.{Device}
use smashfs.Kernel.Read.{node_read, append}
use smashfs.Table.{Node}

-- `name[0] < buffer[0]`: the first is an `unsigned char`, the second a `char`, which is signed, so
-- a byte of 128 or more is negative. The kernel ends a name by a NUL.
abbrev pub is_before : List ℕ → ℕ → Bool
is_before name x = (ltb x 128) && ltb (get_or name 0 0) x

module _ (bits : DirectoryBits) (name : List ℕ) where
  -- The loop over the entries; `buffer` is what lies at the pointer.
  pub find : ℕ → List ℕ → Result (Option ℕ)
  find zero buffer = ok none
  find (suc n) buffer = do
    (number, len) ← read_entry bits.entries buffer
    let path = drop (entry_size bits.entries) buffer
    first ← load (get_elem? path 0)
    let rest = find n (drop len path)
    if is_before name first
        then ok none
        else if (len == length name) && same_bytes (take len path) name
        then ok (some number)
        else rest

-- The number that the directory gives the name, or nothing for -ENOENT.
pub lookup_number : (ℕ → Bool) → (ℕ → Bool) → Device → SuperInfo → Node → List ℕ → Result (Option ℕ)
lookup_number malloc objects dev sbi node name = do
  require (malloc node.size)
  nbuffer ← node_read malloc objects dev sbi (append node.size) node 0 node.size
  let bits = sbi.super.bits.inode.directory
  (parent, nentries) ← read_head bits nbuffer node.size
  find bits name nentries (drop (head_size bits) nbuffer)

-- With the inode of that number.
pub lookup :
    (ℕ → Bool)
    → (ℕ → Bool)
    → Device
    → SuperInfo
    → (ℕ → Iget)
    → Node
    → List ℕ
    → Result (Option Inode)
lookup malloc objects dev sbi cache node name = do
  found ← lookup_number malloc objects dev sbi node name
  (elim found [
    | none ↦ ok none
    | some number ↦ (get_inode sbi cache number >>= λ inode. ok (some inode))
  ])
