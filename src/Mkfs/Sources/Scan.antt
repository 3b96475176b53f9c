-- ===== src/Mkfs/Sources/Scan.antt =====
-- The whole scan of src/mkfs/mkfs.c, and the first pass of `output_write` over its table.
use smashfs.Base.{ℕ, ◌+◌, ◌≡◌, refl, sym, arith, Bool, List, [], ◌∷◌, length}
use smashfs.Base.{Bool-cases, inl, inr, Result, ok, fail, fault, >>=_returns, ◌==◌, ==_iff, update}
use smashfs.Format.InodeType
use smashfs.Mkfs.{Node, Pointer, DirectoryEntry, null, regular_file, directory, symbolic_link}
use smashfs.Mkfs.Limits.{Limits, scan, scan_node, scan_directory, scan_entries}
use smashfs.Mkfs.Sources.{
  Entry, freed, Sources, empty, node_fill, node_new, sources_scan, keep_pointer, is_visited,
}
use smashfs.Mkfs.Sources.Invariant.{IsScanned, node_fill-IsScanned}
use smashfs.Mkfs.Sources.Tables.{types, HasPointer, AreNodes}

module _ (malloc : ℕ → Bool) (no_duplicates : Bool) where
  keep_pointer-IsScanned :
      (s : Sources) (e : Entry) (filled : Result Sources) {s' : Sources}
      → ((t : Sources) → filled ≡ ok t → IsScanned t)
      → keep_pointer malloc no_duplicates s e filled ≡ ok s'
      → IsScanned s
      → IsScanned s'
  unfolding keep_pointer
  keep_pointer-IsScanned s e (ok t) {s'} keeps run inv = keeps s' run
  keep_pointer-IsScanned s e fail {s'} keeps run inv =
      let q : s' ≡ record s { pointers = update s.pointers e.id freed } = cc in
      rw q (record { nodes = inv.nodes; count = inv.count })
  keep_pointer-IsScanned s e fault keeps run inv = cc

  pub node_new-IsScanned :
      (size : ℕ) (s : Sources) (e : Entry) {s' : Sources}
      → node_new malloc no_duplicates size s e ≡ ok s'
      → IsScanned s
      → IsScanned s'
  unfolding node_new
  node_new-IsScanned size s e {s'} run inv = elim (Bool-cases (malloc size)) [
    | inl room ↦
        keep_pointer-IsScanned s e (node_fill malloc no_duplicates s e)
          (λ t filled. node_fill-IsScanned malloc no_duplicates s e filled inv) (rw room at run) inv
    | inr full ↦ (let run' = rw full at run in let q : s' ≡ s = cc in rw q inv)
  ]

  -- Whatever the walk over the sources gives, the scan keeps a table whose nodes are numbered in
  -- its order, hold what their types say, and whose directories name and type their entries as
  -- the nodes that they stand for.
  pub sources_scan-IsScanned :
      (size : ℕ) (es : List Entry) (s : Sources) {s' : Sources}
      → IsScanned s
      → sources_scan malloc no_duplicates size s es ≡ ok s'
      → IsScanned s'
  unfolding sources_scan
  sources_scan-IsScanned size [] s {s'} inv run = let q : s ≡ s' = cc in rw q at inv
  sources_scan-IsScanned size (e ∷ es) s {s'} inv run = elim (Bool-cases (is_visited e.info)) [
    | inl visited ↦
        (let run' = rw (sources_scan, visited) at run in
          let (t, made, rest) =
            >>=_returns (λ t. sources_scan malloc no_duplicates size t es)
              (node_new malloc no_duplicates size s e) (sym run') in
          sources_scan-IsScanned size es t (node_new-IsScanned size s e (sym made) inv) (sym rest))
    | inr passed ↦ sources_scan-IsScanned size es s inv (rw (sources_scan, passed) at run)
  ]

pub empty-IsScanned : IsScanned empty
empty-IsScanned = record { nodes = tt; count = refl }

scan_entries_lem :
    (es : List DirectoryEntry) (l : Limits)
    → (l' : Limits) × (scan_entries (length es) es l ≡ ok l')
unfolding scan_entries
scan_entries_lem [] l = (l, refl)
scan_entries_lem (e ∷ es) l = scan_entries_lem es _

scan_directory_lem :
    (ts : List ℕ) (type : ℕ) (p : Pointer) (l : Limits)
    → HasPointer ts type p
    → type ≡ InodeType.directory
    → (l' : Limits) × (scan_directory p l ≡ ok l')
unfolding scan_directory
scan_directory_lem ts type null l h e = absurd h
scan_directory_lem ts type (regular_file f) l h e = absurd (omega (arith, h.0, e))
scan_directory_lem ts type (symbolic_link p) l h e = absurd (omega (arith, h, e))
scan_directory_lem ts type (directory d) l h e = rw h.1 (scan_entries_lem d.entries _)

scan_node_lem :
    (ts : List ℕ) (n : Node) (l : Limits)
    → HasPointer ts n.type n.pointer
    → (l' : Limits) × (scan_node l n ≡ ok l')
unfolding scan_node
scan_node_lem ts n l h = elim (Bool-cases (n.type == InodeType.directory)) [
  | inl dir ↦ rw (scan_node, dir) (scan_directory_lem ts n.type n.pointer _ h ((==_iff _ _).0 dir))
  | inr other_type ↦ rw (scan_node, other_type) (_, refl)
]

scan_lem :
    (ts : List ℕ) (k : ℕ) (ns : List Node) (l : Limits)
    → AreNodes ts k ns
    → (l' : Limits) × (scan l ns ≡ ok l')
unfolding scan
scan_lem ts k [] l h = (l, refl)
scan_lem ts k (n ∷ ns) l h =
    let (l1, first) = scan_node_lem ts n l h.1 in
    let (l2, rest) = scan_lem ts (k + 1) ns l1 h.2 in (l2, rw (first, rest))

-- The first pass of `output_write` finds its way through every table that a scan leaves.
pub scan-IsScanned :
    (s : Sources) (l : Limits) → IsScanned s → (l' : Limits) × (scan l s.nodes_table ≡ ok l')
scan-IsScanned s l inv = scan_lem (types s.nodes_table) 0 s.nodes_table l inv.nodes
