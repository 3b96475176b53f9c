-- ===== src/Mkfs/Limits/Enough.antt =====
-- The widths of the super block that `output_write` of src/mkfs/mkfs.c takes from its first pass.
use smashfs.Base.{ℕ, zero, suc, ◌^◌, ◌<◌, ◌≤◌, ◌≡◌, refl, sym, arith, List, [], ◌∷◌, ℤ, pos, negsuc}
use smashfs.Base.{ok, >>=_returns, some, get_elem?, max_ℤ, Bool-cases, inl, inr}
use smashfs.Base.{Bool, true, false, if◌then◌else◌, ◌==◌, ltb, ltb→lt, ltb→ge}
use smashfs.Format.InodeType
use smashfs.Mkfs.{
  Options, Node, DirectoryEntry, Pointer, directory, null, regular_file, symbolic_link,
}
use smashfs.Mkfs.Limits.{
  Limits, init, scan, scan_node, scan_directory, scan_entries, drop_fields, minus_one, inode_bits,
}
use smashfs.Mkfs.Log.{blog}
use smashfs.Mkfs.Log.Laws.{blog_lem, blog_negative, blog-le_32, blog_holds}

-- `b` keeps the greatest values of `a` that a directory's entries do not touch.
abbrev SameMaxima : Limits → Limits → Type 0
SameMaxima a b =
    (b.max_type ≡ a.max_type)
    × (b.max_owner_mode ≡ a.max_owner_mode)
    × (b.max_group_mode ≡ a.max_group_mode)
    × (b.max_other_mode ≡ a.max_other_mode)
    × (b.max_uid ≡ a.max_uid)
    × (b.max_gid ≡ a.max_gid)

scan_entries-SameMaxima :
    (n : ℕ) (es : List DirectoryEntry) (l : Limits) {l' : Limits}
    → scan_entries n es l ≡ ok l'
    → SameMaxima l l'
unfolding scan_entries
scan_entries-SameMaxima zero es l e = ground arith
scan_entries-SameMaxima (suc n) [] l e = cc
scan_entries-SameMaxima (suc n) (x ∷ es) l e = scan_entries-SameMaxima n es _ e

scan_directory-SameMaxima :
    (p : Pointer) (l : Limits) {l' : Limits} → scan_directory p l ≡ ok l' → SameMaxima l l'
unfolding scan_directory
scan_directory-SameMaxima (directory d) l e = scan_entries-SameMaxima d.nentries d.entries _ e
scan_directory-SameMaxima null l e = cc
scan_directory-SameMaxima (regular_file f) l e = cc
scan_directory-SameMaxima (symbolic_link p) l e = cc

-- What one round makes of the six greatest values.
scan_node-maxima :
    (l : Limits) (node : Node) {l' : Limits}
    → scan_node l node ≡ ok l'
    → (l'.max_type ≡ max_ℤ l.max_type (pos node.type))
      × (l'.max_owner_mode ≡ max_ℤ l.max_owner_mode (pos node.owner_mode))
      × (l'.max_group_mode ≡ max_ℤ l.max_group_mode (pos node.group_mode))
      × (l'.max_other_mode ≡ max_ℤ l.max_other_mode (pos node.other_mode))
      × (l'.max_uid ≡ max_ℤ l.max_uid (pos node.uid))
      × (l'.max_gid ≡ max_ℤ l.max_gid (pos node.gid))
unfolding scan_node
scan_node-maxima l node e = elim (Bool-cases (node.type == InodeType.directory)) [
  | inl dir ↦ scan_directory-SameMaxima node.pointer _ (rw dir at e)
  | inr other ↦ (let e' = rw other at e in ground arith)
]

max_pos :
    (a b bound : ℕ)
    → a < bound
    → b < bound
    → (m : ℕ) × (a ≤ m) × (b ≤ m) × (m < bound) × (max_ℤ (pos a) (pos b) ≡ pos m)
max_pos a b bound ha hb = elim (Bool-cases (ltb b a)) [
  | inl lt ↦ (a, omega arith, (let p = ltb→lt b a lt in omega arith), ha, rw lt)
  | inr ge ↦ (b, ltb→ge b a ge, omega arith, hb, rw ge)
]

-- A value fits a field, and the field is one that the cursor can write.
abbrev pub Fits : ℕ → ℕ → Type 0
Fits value w = (value < 2 ^ w) × (1 ≤ w) × (w ≤ 32)

-- One field of the nodes, and its greatest value.
module _ (f : Node → ℕ) (m : Limits → ℤ)
    (step : (l : Limits) (node : Node) (l' : Limits)
      → scan_node l node ≡ ok l'
      → m l' ≡ max_ℤ (m l) (pos (f node))) where
  abbrev AreBelow : ℕ → List Node → Type 0
  AreBelow bound nodes = (k : ℕ) (node : Node) → get_elem? nodes k ≡ some node → f node < bound

  AreBelow-cons :
      (bound : ℕ) (node : Node) (nodes : List Node)
      → f node < bound
      → AreBelow bound nodes
      → AreBelow bound (node ∷ nodes)
  AreBelow-cons bound node nodes lt all zero node' e = let e' : node ≡ node' = cc in rw e' at lt
  AreBelow-cons bound node nodes lt all (suc k) node' e = all k node' e

  scan-max :
      (nodes : List Node) (l : Limits) (top bound : ℕ) {l' : Limits}
      → m l ≡ pos top
      → top < bound
      → AreBelow bound nodes
      → scan l nodes ≡ ok l'
      → (greatest : ℕ) × (m l' ≡ pos greatest)
        × (top ≤ greatest)
        × (greatest < bound)
        × AreBelow (suc greatest) nodes
  unfolding scan
  scan-max [] l top bound emax lt below e = (top, cc, omega arith, lt, λ k n e'. cc)
  scan-max (node ∷ nodes) l top bound emax lt below e =
      let (l1, run, rest) = >>=_returns (λ l1. scan l1 nodes) (scan_node l node) (sym e) in
      let (top1, le, ge, lt1, e1) = max_pos top (f node) bound lt (below 0 _ refl) in
      let emax1 : m l1 ≡ pos top1 = let s = step l node l1 (sym run) in cc in
      let (greatest, eg, leg, ltg, all) =
        scan-max nodes l1 top1 bound emax1 lt1 (λ k n e'. below (suc k) n e') (sym rest) in
      (greatest, eg, omega arith, ltg, AreBelow-cons (suc greatest) node nodes (omega arith) all)

  -- The width of the field holds it in every node.
  scan-Fits :
      (nodes : List Node) (k : ℕ) {l : Limits} {node : Node}
      → m init ≡ negsuc 0
      → AreBelow (2 ^ 32) nodes
      → scan init nodes ≡ ok l
      → get_elem? nodes k ≡ some node
      → Fits (f node) (blog (m l))
  unfolding scan
  scan-Fits [] k e0 below e ek = cc
  scan-Fits (first ∷ nodes) k {l} {node} e0 below e ek =
      let (l1, run, rest) = >>=_returns (λ l1. scan l1 nodes) (scan_node init first) (sym e) in
      let emax1 : m l1 ≡ pos (f first) = let s = step init first l1 (sym run) in rw e0 at s in
      let (greatest, eg, leg, ltg, all) =
        scan-max nodes l1 (f first) (2 ^ 32) emax1 (below 0 _ refl) (λ k n e'. below (suc k) n e')
          (sym rest) in
      let le = AreBelow-cons (suc greatest) first nodes (omega arith) all k node ek in
      let (held, some_bits, few, least) = blog_lem greatest (omega arith) in
      rw eg (
        blog_holds (f node) greatest (omega arith) (omega arith),
        some_bits,
        blog-le_32 greatest ltg,
      )

-- The first pass reads fields of `long long`; here they are values of 32 bits.
pub record Is32 (node : Node) : Type 0 where
  pub type : node.type < 2 ^ 32
  pub owner_mode : node.owner_mode < 2 ^ 32
  pub group_mode : node.group_mode < 2 ^ 32
  pub other_mode : node.other_mode < 2 ^ 32
  pub uid : node.uid < 2 ^ 32
  pub gid : node.gid < 2 ^ 32

-- A field that an option drops has no bits, and any other holds the value.
abbrev pub FitsUnless : Bool → ℕ → ℕ → Type 0
FitsUnless true v w = w ≡ 0
FitsUnless false v w = Fits v w

blog-FitsUnless :
    (option : Bool) (v : ℕ) (greatest : ℤ)
    → Fits v (blog greatest)
    → FitsUnless option v (blog (if option then minus_one else greatest))
blog-FitsUnless true v greatest fits = blog_negative 0
blog-FitsUnless false v greatest fits = fits

-- The widths of the super block hold the type and the mode of the owner of every node, and the
-- mode of the group, the mode of the others, the user and the group wherever no option drops them,
-- all of which have 32 bits; such a width is from 1 to 32, and a field that an option drops has no
-- bits.
pub scan-widths :
    (o : Options) (nodes : List Node) (size block index : ℤ) (k : ℕ) {l : Limits} {node : Node}
    → ((i : ℕ) (n : Node) → get_elem? nodes i ≡ some n → Is32 n)
    → scan init nodes ≡ ok l
    → get_elem? nodes k ≡ some node
    → Fits node.type (inode_bits (drop_fields o l) size block index).type
      × Fits node.owner_mode (inode_bits (drop_fields o l) size block index).owner_mode
      × FitsUnless o.no_group_mode node.group_mode
          (inode_bits (drop_fields o l) size block index).group_mode
      × FitsUnless o.no_other_mode node.other_mode
          (inode_bits (drop_fields o l) size block index).other_mode
      × FitsUnless o.no_uid node.uid (inode_bits (drop_fields o l) size block index).uid
      × FitsUnless o.no_gid node.gid (inode_bits (drop_fields o l) size block index).gid
unfolding inode_bits drop_fields
scan-widths o nodes size block index k is32 e ek = (
  scan-Fits (λ n. n.type) (λ l. l.max_type) (λ l n l' r. (scan_node-maxima l n r).0) nodes k refl
      (λ i n ei. (is32 i n ei).type) e ek,
  scan-Fits (λ n. n.owner_mode) (λ l. l.max_owner_mode) (λ l n l' r. (scan_node-maxima l n r).1)
      nodes k refl (λ i n ei. (is32 i n ei).owner_mode) e ek,
  blog-FitsUnless o.no_group_mode _ _ (
      scan-Fits (λ n. n.group_mode) (λ l. l.max_group_mode) (λ l n l' r. (scan_node-maxima l n r).2)
        nodes k refl (λ i n ei. (is32 i n ei).group_mode) e ek),
  blog-FitsUnless o.no_other_mode _ _ (
      scan-Fits (λ n. n.other_mode) (λ l. l.max_other_mode) (λ l n l' r. (scan_node-maxima l n r).3)
        nodes k refl (λ i n ei. (is32 i n ei).other_mode) e ek),
  blog-FitsUnless o.no_uid _ _ (
      scan-Fits (λ n. n.uid) (λ l. l.max_uid) (λ l n l' r. (scan_node-maxima l n r).4) nodes k refl
        (λ i n ei. (is32 i n ei).uid) e ek),
  blog-FitsUnless o.no_gid _ _ (
      scan-Fits (λ n. n.gid) (λ l. l.max_gid) (λ l n l' r. (scan_node-maxima l n r).5) nodes k refl
        (λ i n ei. (is32 i n ei).gid) e ek),
)
