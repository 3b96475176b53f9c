-- ===== src/Mkfs/Sources/Distinct.antt =====
-- The duplicate check of `node_new` of src/mkfs/mkfs.c: no two regular files of the table hold the
-- same bytes.
pub mod Kept
use mathlib.Core.Path.{subst}
use smashfs.Base.{
  ℕ, zero, suc, ◌+◌, ◌<◌, ◌≤◌, ◌≡◌, ◌≢◌, ◌∙◌, refl, sym, ap, arith, Bool, true, false,
}
use smashfs.Base.{List, [], ◌∷◌, ◌++◌, length, get_elem?, Option, none, some, Option-cases}
use smashfs.Base.{
  Bool-cases, inl, inr, ◌⊎◌, Result, ok, fail, fault, ◌>>=◌, >>=_returns, require_passes,
}
use smashfs.Base.{
  ◌==◌, ==_iff, ◌&&◌, require, leb, same_bytes, same_bytes_refl, get_elem?-lt, update,
}
use smashfs.Format.InodeType
use smashfs.Mkfs.{
  Node, Pointer, RegularFile, Directory, DirectoryEntry, null, regular_file, directory,
  symbolic_link,
}
use smashfs.Mkfs.Sources.{
  Entry, Handle, nothing, freed, live, Sources, parent_of, directory_entry, attach, add_child,
  grow_pointer, grow_directory, add_node, add_duplicate, count_type, link_node, find_duplicate,
  same_file, new_regular_file, new_directory, new_symbolic_link, node_fill, node_new, sources_scan,
  node_init, node_type, parent_number, keep_pointer, is_visited,
}
use smashfs.Mkfs.Sources.Invariant.{IsScanned}
use smashfs.Mkfs.Sources.Scan.{node_new-IsScanned}
use smashfs.Mkfs.Sources.Tables.{HasPointer, AreNodes}

-- What a node holds, of a regular file.
abbrev pub content_of : Pointer → Option (List ℕ)
content_of (regular_file f) = some f.content
content_of _ = none

abbrev pub contents : List Node → List (Option (List ℕ))
contents [] = []
contents (n ∷ ns) = content_of n.pointer ∷ contents ns

-- A content stands once at most.
abbrev pub AreDistinct : List (Option (List ℕ)) → Type 0
AreDistinct cs =
    (i j : ℕ) (c : List ℕ) → get_elem? cs i ≡ some (some c) → get_elem? cs j ≡ some (some c) → i ≡ j

pub contents-append : (xs ys : List Node) → contents (xs ++ ys) ≡ contents xs ++ contents ys
contents-append [] ys = refl
contents-append (x ∷ xs) ys = ap (λ l. content_of x.pointer ∷ l) (contents-append xs ys)

-- The last place, or one before it.
get_elem?-snoc :
    {A : Type 0} (xs : List A) (a : A) (k : ℕ) {x : A}
    → get_elem? (xs ++ (a ∷ [])) k ≡ some x
    → ((k ≡ length xs) × (x ≡ a)) ⊎ (get_elem? xs k ≡ some x)
get_elem?-snoc [] a zero e = inl (refl, cc)
get_elem?-snoc [] a (suc k) e = cc
get_elem?-snoc (y ∷ ys) a zero e = inr e
get_elem?-snoc (y ∷ ys) a (suc k) e = elim (get_elem?-snoc ys a k e) [
  | inl last ↦ inl (ap suc last.0, last.1)
  | inr early ↦ inr early
]

-- A content that is not there yet, or none, can go to the end.
pub AreDistinct-snoc :
    (cs : List (Option (List ℕ))) (new : Option (List ℕ))
    → AreDistinct cs
    → ((i : ℕ) (c : List ℕ) → new ≡ some c → get_elem? cs i ≢ some (some c))
    → AreDistinct (cs ++ (new ∷ []))
AreDistinct-snoc cs new h fresh i j c ei ej = elim (get_elem?-snoc cs new i ei) [
  | inl li ↦ elim (get_elem?-snoc cs new j ej) [
    | inl lj ↦ li.0 ∙ sym lj.0
    | inr bj ↦ absurd (fresh j c (sym li.1) bj)
  ]
  | inr bi ↦ elim (get_elem?-snoc cs new j ej) [
    | inl lj ↦ absurd (fresh i c (sym lj.1) bi)
    | inr bj ↦ h i j c bi bj
  ]
]

-- A file with the same bytes is found.
same_content :
    (ts : List ℕ) (type : ℕ) (p : Pointer) (f : RegularFile)
    → HasPointer ts type p
    → f.size ≡ length f.content
    → content_of p ≡ some f.content
    → ((type == InodeType.regular_file) && same_file p f) ≡ true
unfolding same_file
same_content ts type null f h size e = absurd h
same_content ts type (directory d) f h size e = cc
same_content ts type (symbolic_link l) f h size e = cc
same_content ts type (regular_file g) f h size e =
    let same : g.content ≡ f.content = cc in
    let sizes : g.size ≡ f.size = h.1 ∙ ap (λ (l : List ℕ). length l) same ∙ sym size in
    let t1 : (type == InodeType.regular_file) ≡ true = (==_iff _ _).1 h.0 in
    let t2 : (g.size == f.size) ≡ true = (==_iff _ _).1 sizes in
    let t3 : same_bytes g.content f.content ≡ true = rw same (same_bytes_refl f.content) in
    rw (t1, t2, t3)

-- Where the search finds nothing, no file of the table has the content.
pub find_duplicate-none :
    (ts : List ℕ) (k : ℕ) (ns : List Node) (f : RegularFile)
    → AreNodes ts k ns
    → f.size ≡ length f.content
    → find_duplicate InodeType.regular_file (λ p. same_file p f) ns ≡ none
    → (i : ℕ) → get_elem? (contents ns) i ≢ some (some f.content)
unfolding find_duplicate
find_duplicate-none ts k [] f h size e i q = cc
find_duplicate-none ts k (n ∷ ns) f h size e zero q =
    let hit = same_content ts n.type n.pointer f h.1 size cc in
    let e' = rw (find_duplicate, hit) at e in cc
find_duplicate-none ts k (n ∷ ns) f h size e (suc i) q =
    elim (Bool-cases ((n.type == InodeType.regular_file) && same_file n.pointer f)) [
      | inl hit ↦ (let e' = rw (find_duplicate, hit) at e in cc)
      | inr miss ↦ find_duplicate-none ts (k + 1) ns f h.2 size (rw (find_duplicate, miss) at e) i q
    ]

module _ (malloc : ℕ → Bool) where
  grow_pointer-content :
      (p : Pointer) (x : DirectoryEntry) {p' : Pointer}
      → grow_pointer malloc p x ≡ ok p'
      → (content_of p' ≡ none) × (content_of p ≡ none)
  unfolding grow_pointer
  grow_pointer-content null x e = cc
  grow_pointer-content (regular_file f) x e = cc
  grow_pointer-content (symbolic_link l) x e = cc
  grow_pointer-content (directory d) x {p'} e =
      let (d', grown, q) =
        >>=_returns (λ d'. ok (directory d')) (grow_directory malloc d x) (sym e) in
      let same : p' ≡ directory d' = cc in (ap content_of same, refl)

  -- A new entry in a directory changes no file.
  add_child-contents :
      (ns : List Node) (number : ℕ) (x : DirectoryEntry) {ns' : List Node}
      → add_child malloc ns number x ≡ ok ns'
      → contents ns' ≡ contents ns
  unfolding add_child
  add_child-contents [] number x e = cc
  add_child-contents (n ∷ ns) number x {ns'} e = elim (Bool-cases (n.number == number)) [
    | inl at_parent ↦ elim (Bool-cases (n.type == InodeType.directory)) [
      | inl dir ↦
          (let e1 = rw (add_child, at_parent, dir) at e in
            let (p, grown, q) =
              >>=_returns (λ p. ok (record n { pointer = p } ∷ ns))
                (grow_pointer malloc n.pointer x) (sym e1) in
            let (after, before) = grow_pointer-content n.pointer x (sym grown) in
            let same : ns' ≡ record n { pointer = p } ∷ ns = cc in
            ap contents same ∙ ap (λ o. o ∷ contents ns) (after ∙ sym before))
      | inr other_type ↦ (let e1 = rw (add_child, at_parent, other_type) at e in cc)
    ]
    | inr away ↦
        (let e1 = rw (add_child, away) at e in
          let (ds', run, q) =
            >>=_returns (λ ds'. ok (n ∷ ds')) (add_child malloc ns number x) (sym e1) in
          let same : ns' ≡ n ∷ ds' = cc in
          ap contents same
          ∙ ap (λ l. content_of n.pointer ∷ l) (add_child-contents ns number x (sym run)))
  ]

  pub attach-contents :
      (table : List Node) (h : Handle) (x : DirectoryEntry) {table' : List Node}
      → attach malloc table h x ≡ ok table'
      → contents table' ≡ contents table
  unfolding attach
  attach-contents table nothing x e = ap contents (let q : _ ≡ table = cc in q)
  attach-contents table freed x e = cc
  attach-contents table (live number) x e = add_child-contents table number x e
