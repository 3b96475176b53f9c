-- ===== src/Mkfs/Limits/Times.antt =====
-- The least times that the first pass of `output_write` finds.
use smashfs.Base.{ℕ, zero, suc, ◌^◌, ◌<◌, ◌≤◌, ◌≡◌, refl, ◌∙◌, arith, List, [], ◌∷◌, ℤ, pos, negsuc}
use smashfs.Base.{ok, >>=_returns, sym, max_ℤ, min_ℤ, Bool-cases, inl, inr}
use smashfs.Base.{◌==◌, ltb, ltb→ge, ge→ltb}
use smashfs.Format.InodeType
use smashfs.Mkfs.{Node, DirectoryEntry, Pointer, directory, null, regular_file, symbolic_link}
use smashfs.Mkfs.Limits.{Limits, init, scan, scan_node, scan_directory, scan_entries}

-- `b` keeps the extreme times of `a`.
abbrev SameTimes : Limits → Limits → Type 0
SameTimes a b = (b.min_ctime ≡ a.min_ctime) × (b.max_ctime ≡ a.max_ctime)

scan_entries-SameTimes :
    (n : ℕ) (es : List DirectoryEntry) (l : Limits) {l' : Limits}
    → scan_entries n es l ≡ ok l'
    → SameTimes l l'
unfolding scan_entries
scan_entries-SameTimes zero es l e = ground arith
scan_entries-SameTimes (suc n) [] l e = cc
scan_entries-SameTimes (suc n) (x ∷ es) l e = scan_entries-SameTimes n es _ e

scan_directory-SameTimes :
    (p : Pointer) (l : Limits) {l' : Limits} → scan_directory p l ≡ ok l' → SameTimes l l'
unfolding scan_directory
scan_directory-SameTimes (directory d) l e = scan_entries-SameTimes d.nentries d.entries _ e
scan_directory-SameTimes null l e = cc
scan_directory-SameTimes (regular_file f) l e = cc
scan_directory-SameTimes (symbolic_link p) l e = cc

scan_node-times :
    (l : Limits) (node : Node) {l' : Limits}
    → scan_node l node ≡ ok l'
    → (l'.min_ctime ≡ min_ℤ (max_ℤ l.max_ctime node.ctime) l.min_ctime)
      × (l'.max_ctime ≡ max_ℤ l.max_ctime node.ctime)
unfolding scan_node
scan_node-times l node e = elim (Bool-cases (node.type == InodeType.directory)) [
  | inl dir ↦ scan_directory-SameTimes node.pointer _ (rw dir at e)
  | inr other ↦ (let e' = rw other at e in ground arith)
]

-- Once the minimum is at most the running maximum, it does not move.
scan_keeps :
    (nodes : List Node) (l : Limits) (c m : ℕ) {l' : Limits}
    → l.min_ctime ≡ pos c
    → l.max_ctime ≡ pos m
    → c ≤ m
    → scan l nodes ≡ ok l'
    → l'.min_ctime ≡ pos c
unfolding scan
scan_keeps [] l c m emin emax le e = cc
scan_keeps (node ∷ nodes) l c m emin emax le e =
    let (l1, step, rest) = >>=_returns (λ l1. scan l1 nodes) (scan_node l node) (sym e) in
    let (tmin, tmax) = scan_node-times l node (sym step) in
    let (m1, more, e1) = max_pos m node.ctime in
    let emax1 : l1.max_ctime ≡ pos m1 = cc in
    let emin1 : l1.min_ctime ≡ pos c =
      tmin ∙ rw (emax, emin, e1) (rw (ge→ltb m1 c (omega arith))) in
    scan_keeps nodes l1 c m1 emin1 emax1 (omega arith) (sym rest)
  where
    max_pos : (m : ℕ) (t : ℤ) → (m1 : ℕ) × (m ≤ m1) × (max_ℤ (pos m) t ≡ pos m1)
    max_pos m (negsuc n) = (m, omega arith, refl)
    max_pos m (pos n) = elim (Bool-cases (ltb n m)) [
      | inl lt ↦ (m, omega arith, rw lt)
      | inr ge ↦ (n, ltb→ge n m ge, rw ge)
    ]

-- The least change time that the pass finds is that of the first node in the table, also where a
-- later node has an earlier one.
pub scan-first_ctime :
    (node : Node) (nodes : List Node) (c : ℕ) {l : Limits}
    → node.ctime ≡ pos c
    → c < 2 ^ 63
    → scan init (node ∷ nodes) ≡ ok l
    → l.min_ctime ≡ pos c
unfolding scan
scan-first_ctime node nodes c ec h e =
    let (l1, step, rest) = >>=_returns (λ l1. scan l1 nodes) (scan_node init node) (sym e) in
    let (tmin, tmax) = scan_node-times init node (sym step) in
    let emax : l1.max_ctime ≡ pos c = tmax ∙ rw ec in
    let emin : l1.min_ctime ≡ pos c = tmin ∙ rw ec (ground arith) in
    scan_keeps nodes l1 c c emin emax (omega arith) (sym rest)
