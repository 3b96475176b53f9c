-- ===== src/Unfs/Extract/Tree.antt =====
-- The tree of files that an image of src/mkfs/unfs.c holds, and the calls that are to be made for
-- one.
pub mod Made
use smashfs.Base.{
  ℕ, zero, suc, ◌+◌, ◌<◌, ◌≡◌, max, Bool, true, false, List, [], ◌∷◌, ◌++◌, length, take, drop,
  ◌==◌,
}
use smashfs.Base.{Option, none, some, Result, ok}
use smashfs.Directory.{head_size, entry_size, read_head, read_entry}
use smashfs.Format.InodeType
use smashfs.Mode.Permissions.{permissions}
use smashfs.Table.{Node, Block}
use smashfs.Unfs.{State, node_fill, block_fill}
use smashfs.Unfs.Extract.{System}
use smashfs.Unfs.Extract.Data.{HasContent}

-- A file with its bytes, a link with its target, a directory with the bytes that pack its entries;
-- an entry has a number and a name.
mutual
  pub data Tree : Type 0 where
    file : Node → List ℕ → Tree
    link : Node → List ℕ → Tree
    directory : Node → List ℕ → Trees → Tree

  pub data Trees : Type 0 where
    nil : Trees
    entry : ℕ → List ℕ → Tree → Trees → Trees

-- How deep the directories are.
unfoldable mutual
  pub depth : Tree → ℕ
  depth (file node content) = 0
  depth (link node target) = 0
  depth (directory node content ts) = suc (depth_all ts)

  pub depth_all : Trees → ℕ
  depth_all nil = 0
  depth_all (entry number name t ts) = max (depth t) (depth_all ts)

unfoldable pub count : Trees → ℕ
count nil = 0
count (entry number name t ts) = suc (count ts)

abbrev pub mode_of : Node → ℕ
mode_of node = permissions node.owner_mode node.group_mode node.other_mode

-- A name has no 0 in it.
abbrev pub HasNoZero : List ℕ → Type 0
HasNoZero [] = Unit
HasNoZero (x ∷ xs) = ((x == 0) ≡ false) × HasNoZero xs

-- A system on which every call succeeds, and where a write behind another writes the bytes of both.
pub record IsWilling {World : Type 0} (sys : System World) : Type 0 where
  pub mkdir_made : (w : World) (name : List ℕ) (mode : ℕ) → (sys.mkdir w name mode).1 ≡ true
  pub chdir_entered : (w : World) (name : List ℕ) → (sys.chdir w name).1 ≡ true
  pub open_file_opened :
      (w : World) (name : List ℕ) (mode : ℕ) → (fd : ℕ) × ((sys.open_file w name mode).1 ≡ some fd)
  pub write_written : (w : World) (fd : ℕ) (xs : List ℕ) → (sys.write w fd xs).1 ≡ some (length xs)
  pub write-write :
      (w : World) (fd : ℕ) (xs ys : List ℕ)
      → (sys.write (sys.write w fd xs).0 fd ys).0 ≡ (sys.write w fd (xs ++ ys)).0
  pub write-nil : (w : World) (fd : ℕ) → (sys.write w fd []).0 ≡ w
  pub symlink_made : (w : World) (target name : List ℕ) → (sys.symlink w target name).1 ≡ true

-- The calls for a tree under a name, where none of them fails. A file is made anew with its mode,
-- written whole and closed; a link is made anew; a directory is made and entered, filled in the
-- order of its entries, and left for "..". Last come `chmod` of the name, with the mode, and
-- `lchown` of the name, with the user and the group.
module _ {World : Type 0} (sys : System World) where
  abbrev finished : Node → List ℕ → World → World
  finished node name w = (sys.lchown (sys.chmod w name (mode_of node)) name node.uid node.gid).0

  unfoldable pub make_file : Node → List ℕ → List ℕ → World → World
  make_file node name content w =
      let (w1, opened) = sys.open_file (sys.unlink w name) name (mode_of node) in
      elim opened [
        | none ↦ w1
        | some fd ↦ finished node name (sys.close (sys.write w1 fd content).0 fd)
      ]

  unfoldable mutual
    pub make : World → List ℕ → Tree → World
    make w name (file node content) = make_file node name content w
    make w name (link node target) =
        finished node name (sys.symlink (sys.unlink w name) target name).0
    make w name (directory node content ts) =
        let inside = (sys.chdir (sys.mkdir w name (mode_of node)).0 name).0 in
        finished node name (sys.chdir (make_all inside ts) (b'.' ∷ b'.' ∷ [])).0

    pub make_all : World → Trees → World
    make_all w nil = w
    make_all w (entry number name t ts) = make_all (make w name t) ts

-- The image holds the tree under a number: the inode table and the block table have the rows, and
-- the data of the nodes is the content of the files, the target with its 0, and the packed entries.
module _ (s : State) (size : ℕ) (bytes : List ℕ) where
  pub record IsNode (number : ℕ) (node : Node) (type : ℕ) (content : List ℕ) : Type 0 where
    pub filled : node_fill s number ≡ ok node
    pub row : Block
    pub row_filled : block_fill s node.block ≡ ok row
    pub type_is : node.type ≡ type
    pub has : HasContent size bytes node content

  unfoldable mutual
    pub IsStored : ℕ → Tree → Type 0
    IsStored number (file node content) = IsNode number node InodeType.regular_file content
    IsStored number (link node target) =
        IsNode number node InodeType.symbolic_link (target ++ (0 ∷ [])) × HasNoZero target
    IsStored number (directory node content ts) =
        let bits = s.super.bits.inode.directory in
        IsNode number node InodeType.directory content
        × ((parent : ℕ) × (read_head bits content node.size ≡ ok (parent, count ts)))
        × AreStored content (head_size bits) ts

    pub AreStored : List ℕ → ℕ → Trees → Type 0
    AreStored content at nil = Unit
    AreStored content at (entry number name t ts) =
        let bits = s.super.bits.inode.directory.entries in
        (read_entry bits (drop at content) ≡ ok (number, length name))
        × (take (length name) (drop (at + entry_size bits) content) ≡ name)
        × HasNoZero name
        × IsStored number t
        × AreStored content (at + entry_size bits + length name) ts
