-- ===== src/Mkfs/Sources/Invariant.antt =====
-- What `node_new` and `sources_scan` of src/mkfs/mkfs.c keep of the node table.
use smashfs.Base.{ℕ, ◌+◌, ◌≡◌, ◌∙◌, refl, sym, ap, arith, Bool, true, false}
use smashfs.Base.{
  List, [], ◌∷◌, ◌++◌, length, length-append, get_elem?, Option, none, some, Option-cases,
}
use smashfs.Base.{Bool-cases, inl, inr, ok, fail, >>=_returns, require_passes}
use smashfs.Base.{◌==◌, ==_iff, if◌then◌else◌, leb}
use mathlib.Core.Path.{subst}
use smashfs.Format.InodeType
use smashfs.Mkfs.{Node, Pointer, RegularFile, DirectoryEntry}
use smashfs.Mkfs.Sources.{
  Entry, Handle, nothing, freed, live, Sources, parent_of, directory_entry, attach, add_node,
  add_duplicate, count_type, link_node, find_duplicate, new_regular_file, new_directory,
  new_symbolic_link, node_fill, node_init, node_type, same_file, same_link, parent_number,
}
use smashfs.Mkfs.Sources.Tables.{
  types, AreNamed, HasPointer, AreNodes, AreNodes-append, AreNodes-snoc, types-append, length-types,
  AreNodes-get, find_duplicate-get, add_child-AreNodes, get_elem?-last,
}

-- The nodes are numbered in the order of the table, hold what their types say, and the entries of
-- the directories are named and typed as the nodes that they stand for.
pub record IsScanned (s : Sources) : Type 0 where
  pub nodes : AreNodes (types s.nodes_table) 0 s.nodes_table
  pub count : s.nodes_id ≡ length s.nodes_table

-- A node that the table may get: new, or one that it has.
abbrev IsFound : List Node → Option Node → Type 0
IsFound table none = Unit
IsFound table (some d) = (i : ℕ) × (get_elem? table i ≡ some d)

same_length : (xs ys : List Node) → types xs ≡ types ys → length xs ≡ length ys
same_length xs ys e =
    omega (arith, length-types xs, length-types ys, ap (λ (l : List ℕ). length l) e)

module _ (malloc : ℕ → Bool) where
  attach-AreNodes :
      (ts : List ℕ) (table : List Node) (h : Handle) (x : DirectoryEntry) {table' : List Node}
      → attach malloc table h x ≡ ok table'
      → AreNodes ts 0 table
      → AreNamed ts (x ∷ [])
      → AreNodes ts 0 table' × (types table' ≡ types table)
  unfolding attach
  attach-AreNodes ts table nothing x {table'} e h hx = let q : table' ≡ table = cc in rw q (h, refl)
  attach-AreNodes ts table freed x e h hx = cc
  attach-AreNodes ts table (live number) x e h hx =
      add_child-AreNodes malloc ts 0 table number x e h hx

  link_node-IsScanned :
      (s : Sources) (e : Entry) (duplicate : Option Node) (new : Node) {s' : Sources}
      → link_node malloc s e duplicate new ≡ ok s'
      → IsScanned s
      → IsFound s.nodes_table duplicate
      → new.number ≡ s.nodes_id
      → HasPointer (types s.nodes_table ++ (new.type ∷ [])) new.type new.pointer
      → IsScanned s'
  unfolding link_node add_node add_duplicate count_type directory_entry
  link_node-IsScanned s e (some old) new {s'} run inv found number pointer =
      let ts = types s.nodes_table in
      let (i, at_i) = found in
      let (n1, n2, n3) = AreNodes-get ts 0 i s.nodes_table inv.nodes at_i in
      let x = directory_entry e old in
      let (table, attached, q) =
        >>=_returns (λ table. ok (add_duplicate s e old table))
          (attach malloc s.nodes_table (parent_of s e) x) (sym run) in
      let here : old.number ≡ i = omega (arith, n1) in
      let named : get_elem? ts old.number ≡ some old.type = rw here n3 in
      let (nodes, same) =
        attach-AreNodes ts s.nodes_table (parent_of s e) x (sym attached) inv.nodes
          (refl, named, tt) in
      let shape : s' ≡ add_duplicate s e old table = cc in
      rw shape (record {
        nodes = subst (λ (us : List ℕ). AreNodes us 0 table) (sym same) nodes;
        count = inv.count ∙ sym (same_length table s.nodes_table same);
      })
  link_node-IsScanned s e none new {s'} run inv found number pointer =
      let ts = types s.nodes_table in
      let us = ts ++ (new.type ∷ []) in
      let x = directory_entry e new in
      let (table, attached, q) =
        >>=_returns (λ table. ok (add_node s e new table))
          (attach malloc s.nodes_table (parent_of s e) x) (sym run) in
      let here : new.number ≡ length ts = number ∙ inv.count ∙ sym (length-types s.nodes_table) in
      let named : get_elem? us new.number ≡ some new.type = rw here (get_elem?-last ts new.type) in
      let (nodes, same) =
        attach-AreNodes us s.nodes_table (parent_of s e) x (sym attached)
          (AreNodes-append ts (new.type ∷ []) 0 s.nodes_table inv.nodes) (refl, named, tt) in
      let shape : s' ≡ add_node s e new table = cc in
      let size = same_length table s.nodes_table same in
      let all : types (table ++ (new ∷ [])) ≡ us =
        types-append table (new ∷ []) ∙ ap (λ (l : List ℕ). l ++ (new.type ∷ [])) same in
      let snoc =
        AreNodes-snoc us 0 table new nodes (omega (arith, number, inv.count, size)) pointer in
      rw shape (record {
        nodes = subst (λ (l : List ℕ). AreNodes l 0 (table ++ (new ∷ []))) (sym all) snoc;
        count = omega (arith, inv.count, size, length-append table (new ∷ []));
      })

  new_directory-IsScanned :
      (s : Sources) (e : Entry) {s' : Sources}
      → new_directory malloc s e (node_init s.nodes_id e InodeType.directory) ≡ ok s'
      → IsScanned s
      → IsScanned s'
  unfolding new_directory node_init
  new_directory-IsScanned s e run inv =
      let (room, r1) = require_passes (malloc 16) _ (sym run) in
      let (number, r2, r3) = >>=_returns _ (parent_number (parent_of s e)) r1 in
      link_node-IsScanned s e none _ (sym r3) inv tt refl (refl, refl, tt)

-- The search gives a node of the table, or nothing.
found :
    (no_duplicates : Bool) (type : ℕ) (same : Pointer → Bool) (table : List Node)
    → IsFound table (if no_duplicates then none else find_duplicate type same table)
found true type same table = tt
found false type same table = elim (Option-cases (find_duplicate type same table)) [
  | inl n ↦ rw n tt
  | inr (d, e) ↦ (let (i, at_i, t, y) = find_duplicate-get type same table e in rw e (i, at_i))
]

module _ (malloc : ℕ → Bool) (no_duplicates : Bool) where
  new_regular_file-IsScanned :
      (s : Sources) (e : Entry) {s' : Sources}
      → new_regular_file malloc no_duplicates s e (node_init s.nodes_id e InodeType.regular_file)
        ≡ ok s'
      → IsScanned s
      → IsScanned s'
  unfolding new_regular_file node_init
  new_regular_file-IsScanned s e run inv =
      let (content, r0, r1) =
        >>=_returns _ (elim e.content [ some content ↦ ok content | none ↦ fail ]) (sym run) in
      let (room, r2) = require_passes (malloc (8 + e.st_size)) _ r1 in
      let (whole, r3) = require_passes (length content == e.st_size) _ r2 in
      let f : RegularFile = record { size = e.st_size; content = content } in
      let dup = found no_duplicates InodeType.regular_file (λ p. same_file p f) s.nodes_table in
      let size : e.st_size ≡ length content = sym ((==_iff _ _).0 whole) in
      link_node-IsScanned malloc s e _ _ (sym r3) inv dup refl (refl, size)

  new_symbolic_link-IsScanned :
      (s : Sources) (e : Entry) {s' : Sources}
      → new_symbolic_link malloc no_duplicates s e (node_init s.nodes_id e InodeType.symbolic_link)
        ≡ ok s'
      → IsScanned s
      → IsScanned s'
  unfolding new_symbolic_link node_init
  new_symbolic_link-IsScanned s e run inv =
      let (room, r1) = require_passes (malloc (e.st_size + 1)) _ (sym run) in
      let (path, r2, r3) = >>=_returns _ (elim e.target [ some path ↦ ok path | none ↦ fail ]) r1 in
      let (small, r4) = require_passes (leb (length path) e.st_size) _ r3 in
      let dup = found no_duplicates InodeType.symbolic_link (λ p. same_link p path) s.nodes_table in
      link_node-IsScanned malloc s e _ _ (sym r4) inv dup refl refl

  pub node_fill-IsScanned :
      (s : Sources) (e : Entry) {s' : Sources}
      → node_fill malloc no_duplicates s e ≡ ok s'
      → IsScanned s
      → IsScanned s'
  unfolding node_fill
  node_fill-IsScanned s e run inv =
      let (type, r0, r1) = >>=_returns _ (node_type e.st_mode) (sym run) in
      elim (Bool-cases (type == InodeType.regular_file)) [
        | inl reg ↦
            (let r2 = rw reg at r1 in
              let q = (==_iff type InodeType.regular_file).0 reg in
              new_regular_file-IsScanned s e (rw q at (sym r2)) inv)
        | inr nreg ↦
            (let r2 = rw nreg at r1 in
              elim (Bool-cases (type == InodeType.directory)) [
                | inl dir ↦
                    (let r3 = rw dir at r2 in
                      let q = (==_iff type InodeType.directory).0 dir in
                      new_directory-IsScanned malloc s e (rw q at (sym r3)) inv)
                | inr ndir ↦
                    (let r3 = rw ndir at r2 in
                      elim (Bool-cases (type == InodeType.symbolic_link)) [
                        | inl link ↦
                            (let r4 = rw link at r3 in
                              let q = (==_iff type InodeType.symbolic_link).0 link in
                              new_symbolic_link-IsScanned s e (rw q at (sym r4)) inv)
                        | inr nlink ↦ (let r4 = rw nlink at r3 in cc)
                      ])
              ])
      ]
