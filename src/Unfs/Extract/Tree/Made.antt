-- ===== src/Unfs/Extract/Tree/Made.antt =====
-- `traverse` of src/mkfs/unfs.c makes the calls for the tree that the image holds.
use mathlib.Core.Path.{subst}
use smashfs.Base.{
  ℕ, suc, ◌+◌, ◌-◌, ◌<◌, ◌≡◌, refl, arith, Bool, true, false, List, [], ◌∷◌, ◌++◌, length, take,
  drop, ◌==◌, ==_iff,
}
use smashfs.Base.{Option, Result, ok}
use smashfs.Directory.{head_size, entry_size, read_head}
use smashfs.Format.InodeType
use smashfs.Mode.Permissions.{join-permissions}
use smashfs.Table.{Node}
use smashfs.Unfs.{State}
use smashfs.Unfs.Extract.{
  System, dot_dot, set_owner, c_string, strndup, is_written, block_data, node_read_regular_file,
  entries_loop, extract_entries, extract_directory, extract_regular_file, extract_symbolic_link,
  extract_node, traverse,
}
use smashfs.Unfs.Extract.Data.{
  AreBlocks, HasContent, IsAppending, node_read_lem, node_read-HasContent,
}
use smashfs.Unfs.Extract.Tree.{
  Tree, Trees, file, link, directory, nil, entry, depth, depth_all, count, mode_of, HasNoZero,
  IsWilling, make, make_all, make_file, IsStored, AreStored,
}

c_string_lem : (xs : List ℕ) → HasNoZero xs → c_string (xs ++ (0 ∷ [])) ≡ ok xs
unfolding c_string
c_string_lem [] h = refl
c_string_lem (x ∷ xs) h = rw (h.0, c_string_lem xs h.1) refl

strndup_lem :
    (xs name : List ℕ)
    → take (length name) xs ≡ name
    → HasNoZero name
    → strndup xs (length name) ≡ ok name
unfolding strndup
strndup_lem xs [] e h = refl
strndup_lem [] (n ∷ name) e h = cc
strndup_lem (x ∷ xs) (n ∷ name) e h =
    let same : x ≡ n = cc in
    let rest : take (length name) xs ≡ name = cc in
    rw (same, h.0, strndup_lem xs name rest h.1) refl

module _ {World : Type 0} (sys : System World) (willing : IsWilling sys) (malloc : ℕ → Bool)
    (memory : (n : ℕ) → malloc n ≡ true) (uncompress : List ℕ → ℕ → Option (List ℕ)) (s : State)
    (size : ℕ) (bytes : List ℕ)
    (blocks : AreBlocks (block_data malloc uncompress s) size bytes) where
  writing :
      (fd : ℕ)
      → IsAppending (node_read_regular_file sys fd) (λ w xs. (sys.write w fd xs).0) (λ w n. Unit)
  unfolding node_read_regular_file is_written
  writing fd = record {
    takes = λ w xs h.
        (let all = (==_iff (length xs) (length xs)).1 refl in
          rw (willing.write_written w fd xs, all) refl);
    smaller = λ w n m h k. tt;
    after = λ w xs n h. tt;
    act-act = λ w xs ys. willing.write-write w fd xs ys;
    act-nil = λ w. willing.write-nil w fd;
  }

  file_lem :
      (w : World) (name content : List ℕ) (node : Node)
      → HasContent size bytes node content
      → extract_regular_file sys malloc uncompress s node name (mode_of node) w
        ≡ ok (make_file sys node name content w)
  unfolding extract_regular_file make_file set_owner
  file_lem w name content node has =
      let (fd, opened) = willing.open_file_opened (sys.unlink w name) name (mode_of node) in
      let w1 = (sys.open_file (sys.unlink w name) name (mode_of node)).0 in
      let run =
        node_read_lem malloc uncompress s size bytes blocks (node_read_regular_file sys fd)
          (λ w xs. (sys.write w fd xs).0) (λ w n. Unit) (writing fd) node content w1 has tt in
      rw (extract_regular_file, make_file, opened, run) refl

  link_lem :
      (w : World) (mode : ℕ) (name target : List ℕ) (node : Node)
      → HasContent size bytes node (target ++ (0 ∷ []))
      → HasNoZero target
      → extract_symbolic_link sys malloc uncompress s node name mode w
        ≡ ok (set_owner sys node name mode (sys.symlink (sys.unlink w name) target name).0)
  unfolding extract_symbolic_link
  link_lem w mode name target node has clean =
      rw
        (
          memory node.size,
          node_read-HasContent malloc uncompress s size bytes node (target ++ (0 ∷ [])) blocks has,
          c_string_lem target clean,
          willing.symlink_made (sys.unlink w name) target name,
        )
        refl

  directory_lem :
      (visit : World → ℕ → List ℕ → Result World) (w : World) (mode parent n : ℕ)
      (name content : List ℕ) (node : Node) (w' : World)
      → HasContent size bytes node content
      → read_head s.super.bits.inode.directory content node.size ≡ ok (parent, n)
      → entries_loop sys malloc uncompress s visit content n
          (head_size s.super.bits.inode.directory)
          (sys.chdir (sys.mkdir w name mode).0 name).0
        ≡ ok w'
      → extract_directory sys malloc uncompress s visit node name mode w
        ≡ ok (set_owner sys node name mode (sys.chdir w' dot_dot).0)
  unfolding extract_directory extract_entries
  directory_lem visit w mode parent n name content node w' has head run =
      rw
        (
          willing.mkdir_made w name mode,
          willing.chdir_entered (sys.mkdir w name mode).0 name,
          memory node.size,
          node_read-HasContent malloc uncompress s size bytes node content blocks has,
          head,
          run,
          willing.chdir_entered w' dot_dot,
        )
        refl

  mutual
    unfolding set_owner depth count make IsStored entries_loop extract_node traverse

    traverse_lem :
        (fuel : ℕ) (w : World) (number : ℕ) (name : List ℕ) (t : Tree)
        → depth t < suc fuel
        → IsStored s size bytes number t
        → traverse sys malloc uncompress s (suc fuel) w number name ≡ ok (make sys w name t)
    traverse_lem fuel w number name (file node content) deep stored =
        let mode = join-permissions node.owner_mode node.group_mode node.other_mode in
        let type = stored.type_is in
        let not_directory : (node.type == InodeType.directory) ≡ false = ground (arith, type) in
        let is_file : (node.type == InodeType.regular_file) ≡ true = ground (arith, type) in
        rw (stored.filled, stored.row_filled, not_directory, is_file, mode)
          (file_lem w name content node stored.has)
    traverse_lem fuel w number name (link node target) deep stored =
        let mode = join-permissions node.owner_mode node.group_mode node.other_mode in
        let type = stored.0.type_is in
        let not_directory : (node.type == InodeType.directory) ≡ false = ground (arith, type) in
        let not_file : (node.type == InodeType.regular_file) ≡ false = ground (arith, type) in
        let is_link : (node.type == InodeType.symbolic_link) ≡ true = ground (arith, type) in
        rw (stored.0.filled, stored.0.row_filled, not_directory, not_file, is_link, mode)
          (link_lem w (mode_of node) name target node stored.0.has stored.1)
    traverse_lem fuel w number name (directory node content ts) deep stored =
        let (is_node, (parent, head), are) = stored in
        let mode = join-permissions node.owner_mode node.group_mode node.other_mode in
        let type = is_node.type_is in
        let is_directory : (node.type == InodeType.directory) ≡ true = ground (arith, type) in
        let inside = (sys.chdir (sys.mkdir w name (mode_of node)).0 name).0 in
        let run =
          entries_lem fuel inside content (head_size s.super.bits.inode.directory) ts
            (omega (arith, deep)) are in
        rw (is_node.filled, is_node.row_filled, is_directory, mode)
          (directory_lem (traverse sys malloc uncompress s fuel) w (mode_of node) parent (count ts)
            name content node (make_all sys inside ts) is_node.has head run)

    entries_lem :
        (fuel : ℕ) (w : World) (content : List ℕ) (at : ℕ) (ts : Trees)
        → depth_all ts < fuel
        → AreStored s size bytes content at ts
        → entries_loop sys malloc uncompress s
            (traverse sys malloc uncompress s fuel)
            content
            (count ts)
            at
            w
          ≡ ok (make_all sys w ts)
    entries_lem fuel w content at nil deep stored = refl
    entries_lem fuel w content at (entry number name t ts) deep stored =
        let (numbers, named, clean, is, are) = stored in
        let bits = s.super.bits.inode.directory.entries in
        let before : suc (fuel - 1) ≡ fuel = omega (arith, deep) in
        let first : traverse sys malloc uncompress s fuel w number name ≡ ok (make sys w name t) =
          subst (λ k. traverse sys malloc uncompress s k w number name ≡ ok (make sys w name t))
            before (traverse_lem (fuel - 1) w number name t (omega (arith, deep)) is) in
        let rest =
          entries_lem fuel (make sys w name t) content (at + entry_size bits + length name) ts
            (omega (arith, deep)) are in
        rw
          (
            numbers,
            strndup_lem (drop (at + entry_size bits) content) name named clean,
            memory (length name + 1),
            first,
          )
          rest

  -- On a system where every call succeeds, and with memory to be had, `traverse` makes for an
  -- inode of an image that holds a tree exactly the calls for that tree, in their order: every
  -- file is written with its bytes, every link made with its target, every directory filled in the
  -- order of its entries and left for "..", and each of them is followed by chmod of its name with
  -- its nine permission bits and lchown of its name with its user and group; what a chmod of a
  -- link or of "./" changes is left to the system. It returns for fuel above the depth of the
  -- tree.
  pub traverse-IsStored :
      (fuel : ℕ) (w : World) (number : ℕ) (name : List ℕ) (t : Tree)
      → depth t < suc fuel
      → IsStored s size bytes number t
      → traverse sys malloc uncompress s (suc fuel) w number name ≡ ok (make sys w name t)
  traverse-IsStored = traverse_lem
