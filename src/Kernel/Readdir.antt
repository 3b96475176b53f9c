-- ===== src/Kernel/Readdir.antt =====
-- src/linux/super.c, `smashfs_readdir` from Linux 3.10 on: the entries of a directory from a
-- position on, for as long as the caller takes them.
pub mod Listing
use smashfs.Base.{ℕ, zero, suc, ◌+◌, Bool, List, [], ◌∷◌, Option, none, some, take}
use smashfs.Base.{drop, leb, ltb, ◌==◌, if◌then◌else◌, Result, ok, ◌>>=◌, ◌>>◌, require}
use smashfs.Directory.{head_size, entry_size, read_head, read_entry_type}
use smashfs.Format.{DirectoryBits}
use smashfs.Format.InodeType
use smashfs.Kernel.{SuperInfo}
use smashfs.Kernel.Device.{Device}
use smashfs.Kernel.Read.{node_read, append}
use smashfs.Table.{Node}

-- The DT_ constants of the kernel.
pub data DirentType : Type 0 where
  dt_reg dt_dir dt_lnk dt_chr dt_blk dt_fifo dt_sock dt_unknown : DirentType

pub record Dirent : Type 0 where
  pub name : List ℕ
  pub ino : ℕ
  pub type : DirentType

pub dirent_type : ℕ → DirentType
dirent_type type =
    if type == InodeType.regular_file
    then dt_reg
    else if type == InodeType.directory
    then dt_dir
    else if type == InodeType.symbolic_link
    then dt_lnk
    else if type == InodeType.character_device
    then dt_chr
    else if type == InodeType.block_device
    then dt_blk
    else if type == InodeType.fifo
    then dt_fifo
    else if type == InodeType.socket
    then dt_sock
    else dt_unknown

-- The caller's state, and `dir_emit`, which takes an entry or refuses it.
module _ {E : Type 0} (emit : E → Dirent → Option E) where
  -- The position and the caller's state; `stopped` after a refused entry.
  pub data Progress : Type 0 where
    going stopped : ℕ → E → Progress

  -- `while (dirent->pos < 3)`; every round moves on, so three are enough.
  pub dots_loop : ℕ → ℕ → ℕ → ℕ → E → Progress
  dots_loop zero i_ino parent pos e = going pos e
  dots_loop (suc fuel) i_ino parent pos e =
      let s = if pos == 0 then 1 else 2 in
      let dirent : Dirent = record {
        name = if pos == 0 then b'.' ∷ [] else b'.' ∷ b'.' ∷ [];
        ino = if pos == 0 then i_ino else parent + 1;
        type = dt_dir;
      } in
      let next : Progress = elim (emit e dirent) [
        | some e' ↦ dots_loop fuel i_ino parent (pos + s) e'
        | none ↦ stopped pos e
      ] in
      if ltb pos 3 then next else going pos e

  -- The loop over the entries: `at` is `buffer - nbuffer`.
  unfoldable pub entries_loop : DirectoryBits → List ℕ → ℕ → ℕ → ℕ → E → Result (ℕ × E)
  entries_loop bits nbuffer zero at pos e = ok (pos, e)
  entries_loop bits nbuffer (suc n) at pos e = do
    let s = entry_size bits.entries
    (number, len, type) ← read_entry_type bits.entries (drop at nbuffer)
    let dirent : Dirent = record {
      name = take len (drop (at + s) nbuffer);
      ino = number + 1;
      type = dirent_type type;
    }
    let emitted : Result (ℕ × E) = (elim (emit e dirent) [
      | some e' ↦ entries_loop bits nbuffer n (at + s + len) (pos + s + len) e'
      | none ↦ ok (pos, e)
    ])
    let passed = entries_loop bits nbuffer n (at + s + len) pos e
    if pos == at + 3 then emitted else passed

  -- The position behind the packed head, where it was not passed before.
  abbrev pub after_head : ℕ → ℕ → ℕ
  after_head s pos = if ltb pos (3 + s) then pos + s else pos

  list_from : DirectoryBits → List ℕ → ℕ → Progress → Result (ℕ × E)
  list_from bits nbuffer nentries (stopped pos e) = ok (pos, e)
  list_from bits nbuffer nentries (going pos e) =
      let s = head_size bits in entries_loop bits nbuffer nentries s (after_head s pos) e

  pub readdir : (ℕ → Bool) → (ℕ → Bool) → Device → SuperInfo → Node → ℕ → ℕ → E → Result (ℕ × E)
  unfolding list_from
  readdir malloc cache dev sbi node i_ino pos e =
      let listing = (do
        require (malloc node.size)
        nbuffer ← node_read malloc cache dev sbi (append node.size) node 0 node.size
        let bits = sbi.super.bits.inode.directory
        (parent, nentries) ← read_head bits nbuffer node.size
        list_from bits nbuffer nentries (dots_loop 3 i_ino parent pos e)) in
      if leb (3 + node.size) pos then ok (pos, e) else listing
