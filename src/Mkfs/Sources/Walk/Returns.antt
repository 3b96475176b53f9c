-- ===== src/Mkfs/Sources/Walk/Returns.antt =====
-- The scan of src/mkfs/mkfs.c returns on every walk that gives directories before their entries.
use Prim.Native.Nat.{bit_and}
use native.Mathlib.Decide.{ℕ_discrete}
use smashfs.Base.{ℕ, ◌≡◌, ◌∙◌, refl, sym, arith, Bool, true, false, List, [], ◌∷◌, update}
use smashfs.Base.{Bool-cases, inl, inr, Result, ok, fail, fault}
use smashfs.Base.{◌==◌, ==_iff}
use smashfs.Format.InodeType
use smashfs.Mkfs.Sources.{
  Entry, freed, Sources, empty, new_regular_file, new_symbolic_link, node_fill, node_new,
  sources_scan, node_type, is_visited, keep_pointer,
}
use smashfs.Mkfs.Sources.Invariant.{IsScanned}
use smashfs.Mkfs.Sources.Scan.{node_new-IsScanned, empty-IsScanned}
use smashfs.Mkfs.Sources.Walk.{
  plenty, is_directory, HasParent, IsWalk, HasNode, AreLive, IsKept, option-IsKept, require-IsKept,
  bind-IsKept, node_type_lem, update_ne, update_eq, link_node_lem, new_directory_lem,
}

after :
    (known : ℕ → Bool) (s : Sources) (e : Entry) (s' : Sources)
    → AreLive known s
    → IsKept s e.id (ok s')
    → (is_directory e ≡ true → HasNode s' e.id)
    → AreLive (update known e.id (is_directory e)) s'
after known s e s' alive kept node id seen = elim (ℕ_discrete id e.id) [
  | yes same ↦
      (let dir : is_directory e ≡ true =
          sym (update_eq known e.id (is_directory e)) ∙ (rw same at seen) in
        rw same (node dir))
  | no other ↦
      (let seen' : known id ≡ true = sym (update_ne known e.id (is_directory e) id other) ∙ seen in
        let (n, at_n, dir) = alive id seen' in
        (n, kept.0 id other ∙ at_n, kept.1 n InodeType.directory dir))
]

module _ (no_duplicates : Bool) where
  node_fill_lem :
      (known : ℕ → Bool) (s : Sources) (e : Entry)
      → IsScanned s
      → AreLive known s
      → HasParent known e.parent
      → IsKept s e.id (node_fill plenty no_duplicates s e)
  unfolding node_fill new_regular_file new_symbolic_link
  node_fill_lem known s e inv alive parent =
      bind-IsKept s e.id (node_type e.st_mode) _ (node_type_lem e.st_mode) (λ type.
        elim (Bool-cases (type == InodeType.regular_file)) [
          | inl reg ↦ rw reg (
              option-IsKept s e.id e.content _ (λ content.
                require-IsKept s e.id _ _ (link_node_lem known s e _ _ inv.nodes alive parent)))
          | inr nreg ↦ elim (Bool-cases (type == InodeType.directory)) [
            | inl dir ↦
                (let q : type ≡ InodeType.directory = (==_iff type InodeType.directory).0 dir in
                  let (s', run, kept, node) = new_directory_lem known s e inv alive parent in
                  rw (q, run) kept)
            | inr ndir ↦ elim (Bool-cases (type == InodeType.symbolic_link)) [
              | inl link ↦
                  rw (nreg, ndir, link)
                    (option-IsKept s e.id e.target _ (λ path.
                      require-IsKept s e.id _ _
                        (link_node_lem known s e _ _ inv.nodes alive parent)))
              | inr nlink ↦ rw (nreg, ndir, nlink) tt
            ]
          ]
        ])

  node_fill_dir :
      (known : ℕ → Bool) (s : Sources) (e : Entry)
      → IsScanned s
      → AreLive known s
      → HasParent known e.parent
      → is_directory e ≡ true
      → (s' : Sources) × (node_fill plenty no_duplicates s e ≡ ok s') × HasNode s' e.id
  unfolding node_fill node_type
  node_fill_dir known s e inv alive parent dir =
      let (s', run, kept, node) = new_directory_lem known s e inv alive parent in
      let other : (bit_and e.st_mode 0o170000 == 0o100000) ≡ false = ground arith in
      (s', rw (other, dir) run, node)

  keep_pointer_lem :
      (known : ℕ → Bool) (s : Sources) (e : Entry) (r : Result Sources)
      → AreLive known s
      → known e.id ≡ false
      → IsKept s e.id r
      → (is_directory e ≡ true → (s' : Sources) × (r ≡ ok s') × HasNode s' e.id)
      → (s' : Sources) × (keep_pointer plenty no_duplicates s e r ≡ ok s')
        × AreLive (update known e.id (is_directory e)) s'
  unfolding keep_pointer
  keep_pointer_lem known s e (ok s') alive new kept node = (
    s',
    refl,
    after known s e s' alive kept
        (λ dir. let (t, q, has) = node dir in let same : s' ≡ t = cc in rw same has),
  )
  keep_pointer_lem known s e fail alive new kept node =
      let s' = record s { pointers = update s.pointers e.id freed } in
      (
        s',
        refl,
        after known s e s' alive (update_ne s.pointers e.id freed, λ n t at_n. at_n)
            (λ dir. let (t, q, has) = node dir in cc),
      )
  keep_pointer_lem known s e fault alive new kept node = absurd kept

  node_new_lem :
      (known : ℕ → Bool) (size : ℕ) (s : Sources) (e : Entry)
      → IsScanned s
      → AreLive known s
      → known e.id ≡ false
      → HasParent known e.parent
      → (s' : Sources) × (node_new plenty no_duplicates size s e ≡ ok s')
        × AreLive (update known e.id (is_directory e)) s'
  unfolding node_new
  node_new_lem known size s e inv alive new parent =
      keep_pointer_lem known s e (node_fill plenty no_duplicates s e) alive new
        (node_fill_lem known s e inv alive parent) (node_fill_dir known s e inv alive parent)

  scan_lem :
      (known : ℕ → Bool) (size : ℕ) (es : List Entry) (s : Sources)
      → IsScanned s
      → AreLive known s
      → IsWalk known es
      → (s' : Sources) × (sources_scan plenty no_duplicates size s es ≡ ok s') × IsScanned s'
  unfolding sources_scan
  scan_lem known size [] s inv alive walk = (s, refl, inv)
  scan_lem known size (e ∷ es) s inv alive walk = elim (Bool-cases (is_visited e.info)) [
    | inl visited ↦
        (let (new, parent, walk') = rw (IsWalk, visited) at walk in
          let (t, made, alive') = node_new_lem known size s e inv alive new parent in
          let inv' = node_new-IsScanned plenty no_duplicates size s e made inv in
          let (s', run, end) =
            scan_lem (update known e.id (is_directory e)) size es t inv' alive' walk' in
          (s', rw (sources_scan, visited, made) run, end))
    | inr passed ↦
        (let (s', run, end) = scan_lem known size es s inv alive (rw (IsWalk, passed) at walk) in
          (s', rw (sources_scan, passed) run, end))
  ]

  -- With memory to be had, a scan of a walk that gives every directory before what it holds reads
  -- no freed node and returns; files that cannot be read change nothing of that. The table that it
  -- leaves is well-formed.
  pub sources_scan-IsWalk :
      (size : ℕ) (es : List Entry)
      → IsWalk (λ id. false) es
      → (s' : Sources) × (sources_scan plenty no_duplicates size empty es ≡ ok s') × IsScanned s'
  sources_scan-IsWalk size es walk =
      scan_lem (λ id. false) size es empty empty-IsScanned (λ id known. cc) walk
