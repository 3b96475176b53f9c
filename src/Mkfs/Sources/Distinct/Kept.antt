-- ===== src/Mkfs/Sources/Distinct/Kept.antt =====
-- Every node that `node_new` of src/mkfs/mkfs.c makes keeps the contents of the files distinct.
use smashfs.Base.{ℕ, ◌+◌, ◌≡◌, ◌≢◌, ◌∙◌, refl, sym, ap, Bool, false}
use smashfs.Base.{List, [], ◌∷◌, ◌++◌, length, get_elem?, Option, none, some}
use smashfs.Base.{Bool-cases, inl, inr, Result, ok, fail, fault, >>=_returns, require_passes}
use smashfs.Base.{◌==◌, ==_iff, leb, update}
use smashfs.Format.InodeType
use smashfs.Mkfs.{Node, RegularFile}
use smashfs.Mkfs.Sources.{
  Entry, freed, Sources, parent_of, directory_entry, attach, add_node, add_duplicate, count_type,
  link_node, new_regular_file, new_directory, new_symbolic_link, node_fill, node_new, sources_scan,
  node_init, node_type, parent_number, keep_pointer, is_visited,
}
use smashfs.Mkfs.Sources.Invariant.{IsScanned}
use smashfs.Mkfs.Sources.Scan.{node_new-IsScanned}
use smashfs.Mkfs.Sources.Distinct.{
  contents, content_of, AreDistinct, AreDistinct-snoc, contents-append, attach-contents,
  find_duplicate-none,
}

module _ (malloc : ℕ → Bool) where
  -- A node that is linked keeps the contents distinct, if it is a duplicate or its content is new.
  link_node-AreDistinct :
      (s : Sources) (e : Entry) (duplicate : Option Node) (new : Node) {s' : Sources}
      → link_node malloc s e duplicate new ≡ ok s'
      → AreDistinct (contents s.nodes_table)
      → (duplicate ≡ none
          → (i : ℕ) (c : List ℕ) → content_of new.pointer ≡ some c
          → get_elem? (contents s.nodes_table) i ≢ some (some c))
      → AreDistinct (contents s'.nodes_table)
  unfolding link_node add_node add_duplicate count_type
  link_node-AreDistinct s e (some old) new {s'} run h fresh =
      let (table, attached, q) =
        >>=_returns (λ table. ok (add_duplicate s e old table))
          (attach malloc s.nodes_table (parent_of s e) (directory_entry e old)) (sym run) in
      let shape : s' ≡ add_duplicate s e old table = cc in
      let same = attach-contents malloc s.nodes_table (parent_of s e) _ (sym attached) in
      let moved : contents s'.nodes_table ≡ contents s.nodes_table =
        ap (λ (t : Sources). contents t.nodes_table) shape ∙ same in
      rw moved h
  link_node-AreDistinct s e none new {s'} run h fresh =
      let (table, attached, q) =
        >>=_returns (λ table. ok (add_node s e new table))
          (attach malloc s.nodes_table (parent_of s e) (directory_entry e new)) (sym run) in
      let shape : s' ≡ add_node s e new table = cc in
      let same = attach-contents malloc s.nodes_table (parent_of s e) _ (sym attached) in
      let moved : contents s'.nodes_table
          ≡ contents s.nodes_table ++ (content_of new.pointer ∷ []) =
        ap (λ (t : Sources). contents t.nodes_table) shape
        ∙ contents-append table (new ∷ [])
        ∙ ap (λ l. l ++ (content_of new.pointer ∷ [])) same in
      rw moved (AreDistinct-snoc (contents s.nodes_table) (content_of new.pointer) h (fresh refl))

  new_directory-AreDistinct :
      (s : Sources) (e : Entry) (node : Node) {s' : Sources}
      → new_directory malloc s e node ≡ ok s'
      → AreDistinct (contents s.nodes_table)
      → AreDistinct (contents s'.nodes_table)
  unfolding new_directory
  new_directory-AreDistinct s e node run h =
      let (room, r1) = require_passes (malloc 16) _ (sym run) in
      let (number, r2, r3) = >>=_returns _ (parent_number (parent_of s e)) r1 in
      link_node-AreDistinct s e none _ (sym r3) h (λ q i c n. cc)

  new_symbolic_link-AreDistinct :
      (s : Sources) (e : Entry) (node : Node) {s' : Sources}
      → new_symbolic_link malloc false s e node ≡ ok s'
      → AreDistinct (contents s.nodes_table)
      → AreDistinct (contents s'.nodes_table)
  unfolding new_symbolic_link
  new_symbolic_link-AreDistinct s e node run h =
      let (room, r1) = require_passes (malloc (e.st_size + 1)) _ (sym run) in
      let (path, r2, r3) = >>=_returns _ (elim e.target [ some path ↦ ok path | none ↦ fail ]) r1 in
      let (small, r4) = require_passes (leb (length path) e.st_size) _ r3 in
      link_node-AreDistinct s e _ _ (sym r4) h (λ q i c n. cc)

  new_regular_file-AreDistinct :
      (s : Sources) (e : Entry) (node : Node) {s' : Sources}
      → new_regular_file malloc false s e node ≡ ok s'
      → IsScanned s
      → AreDistinct (contents s.nodes_table)
      → AreDistinct (contents s'.nodes_table)
  unfolding new_regular_file
  new_regular_file-AreDistinct s e node run inv h =
      let (content, r0, r1) =
        >>=_returns _ (elim e.content [ some content ↦ ok content | none ↦ fail ]) (sym run) in
      let (room, r2) = require_passes (malloc (8 + e.st_size)) _ r1 in
      let (whole, r3) = require_passes (length content == e.st_size) _ r2 in
      let f : RegularFile = record { size = e.st_size; content = content } in
      let size : e.st_size ≡ length content = sym ((==_iff _ _).0 whole) in
      link_node-AreDistinct s e _ _ (sym r3) h (λ q i c n.
        let same : content ≡ c = cc in
        rw same at (find_duplicate-none _ 0 s.nodes_table f inv.nodes size q i))

  node_fill-AreDistinct :
      (s : Sources) (e : Entry) {s' : Sources}
      → node_fill malloc false s e ≡ ok s'
      → IsScanned s
      → AreDistinct (contents s.nodes_table)
      → AreDistinct (contents s'.nodes_table)
  unfolding node_fill
  node_fill-AreDistinct s e run inv h =
      let (type, r0, r1) = >>=_returns _ (node_type e.st_mode) (sym run) in
      elim (Bool-cases (type == InodeType.regular_file)) [
        | inl reg ↦
            (let r2 = rw reg at r1 in
              new_regular_file-AreDistinct s e (node_init s.nodes_id e type) (sym r2) inv h)
        | inr nreg ↦
            (let r2 = rw nreg at r1 in
              elim (Bool-cases (type == InodeType.directory)) [
                | inl dir ↦
                    (let r3 = rw dir at r2 in
                      new_directory-AreDistinct s e (node_init s.nodes_id e type) (sym r3) h)
                | inr ndir ↦
                    (let r3 = rw ndir at r2 in
                      elim (Bool-cases (type == InodeType.symbolic_link)) [
                        | inl link ↦
                            (let r4 = rw link at r3 in
                              new_symbolic_link-AreDistinct s e (node_init s.nodes_id e type)
                                (sym r4) h)
                        | inr nlink ↦ (let r4 = rw nlink at r3 in cc)
                      ])
              ])
      ]

  keep_pointer-AreDistinct :
      (s : Sources) (e : Entry) (filled : Result Sources) {s' : Sources}
      → ((t : Sources) → filled ≡ ok t → AreDistinct (contents t.nodes_table))
      → keep_pointer malloc false s e filled ≡ ok s'
      → AreDistinct (contents s.nodes_table)
      → AreDistinct (contents s'.nodes_table)
  unfolding keep_pointer
  keep_pointer-AreDistinct s e (ok t) {s'} keeps run h = keeps s' run
  keep_pointer-AreDistinct s e fail {s'} keeps run h =
      let q : s' ≡ record s { pointers = update s.pointers e.id freed } = cc in
      let same : contents s'.nodes_table ≡ contents s.nodes_table =
        ap (λ (t : Sources). contents t.nodes_table) q in
      rw same h
  keep_pointer-AreDistinct s e fault keeps run h = cc

  node_new-AreDistinct :
      (size : ℕ) (s : Sources) (e : Entry) {s' : Sources}
      → node_new malloc false size s e ≡ ok s'
      → IsScanned s
      → AreDistinct (contents s.nodes_table)
      → AreDistinct (contents s'.nodes_table)
  unfolding node_new
  node_new-AreDistinct size s e {s'} run inv h = elim (Bool-cases (malloc size)) [
    | inl room ↦
        keep_pointer-AreDistinct s e (node_fill malloc false s e)
          (λ t filled. node_fill-AreDistinct s e filled inv h) (rw room at run) h
    | inr full ↦ (let run' = rw full at run in let q : s ≡ s' = cc in rw q at h)
  ]

  -- With the duplicate check on, no two regular files of the table that the scan leaves hold the
  -- same bytes.
  pub sources_scan-AreDistinct :
      (size : ℕ) (es : List Entry) (s : Sources) {s' : Sources}
      → IsScanned s
      → AreDistinct (contents s.nodes_table)
      → sources_scan malloc false size s es ≡ ok s'
      → AreDistinct (contents s'.nodes_table)
  unfolding sources_scan
  sources_scan-AreDistinct size [] s {s'} inv h run = let q : s ≡ s' = cc in rw q at h
  sources_scan-AreDistinct size (e ∷ es) s {s'} inv h run = elim (Bool-cases (is_visited e.info)) [
    | inl visited ↦
        (let run' = rw (sources_scan, visited) at run in
          let (t, made, rest) =
            >>=_returns (λ t. sources_scan malloc false size t es) (node_new malloc false size s e)
              (sym run') in
          sources_scan-AreDistinct size es t
            (node_new-IsScanned malloc false size s e (sym made) inv)
            (node_new-AreDistinct size s e (sym made) inv h) (sym rest))
    | inr passed ↦ sources_scan-AreDistinct size es s inv h (rw (sources_scan, passed) at run)
  ]
