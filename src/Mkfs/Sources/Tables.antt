-- ===== src/Mkfs/Sources/Tables.antt =====
-- The node table of src/mkfs/mkfs.c: its numbers, its types, and what its nodes hold.
use smashfs.Base.{ℕ, zero, suc, ◌+◌, ◌≡◌, ◌∙◌, refl, sym, ap, arith, Bool, true}
use smashfs.Base.{List, [], ◌∷◌, ◌++◌, length, length-append, take, get_elem?, some}
use smashfs.Base.{take-length_all, Bool-cases, inl, inr, ok, >>=_returns, ◌==◌, ◌&&◌}
use smashfs.Format.InodeType
use smashfs.Mkfs.{
  Node, Pointer, Directory, DirectoryEntry, null, regular_file, directory, symbolic_link,
}
use smashfs.Mkfs.Sources.{add_child, grow_pointer, grow_directory, find_duplicate, entries_bytes}

abbrev pub types : List Node → List ℕ
types [] = []
types (n ∷ ns) = n.type ∷ types ns

-- Every entry has its own name, and the type of the node that it names.
abbrev pub AreNamed : List ℕ → List DirectoryEntry → Type 0
AreNamed ts [] = Unit
AreNamed ts (x ∷ xs) =
    (x.length ≡ length x.name) × (get_elem? ts x.number ≡ some x.type) × AreNamed ts xs

-- A node's pointer goes with its type.
abbrev pub HasPointer : List ℕ → ℕ → Pointer → Type 0
HasPointer ts type null = ⊥
HasPointer ts type (regular_file f) = (type ≡ InodeType.regular_file) × (f.size ≡ length f.content)
HasPointer ts type (directory d) =
    (type ≡ InodeType.directory) × (d.nentries ≡ length d.entries) × AreNamed ts d.entries
HasPointer ts type (symbolic_link p) = type ≡ InodeType.symbolic_link

-- The numbers count from `k` on, and every node holds what its type says.
abbrev pub AreNodes : List ℕ → ℕ → List Node → Type 0
AreNodes ts k [] = Unit
AreNodes ts k (n ∷ ns) = (n.number ≡ k) × HasPointer ts n.type n.pointer × AreNodes ts (k + 1) ns

pub get_elem?-append :
    (xs ys : List ℕ) (k : ℕ) {x : ℕ} → get_elem? xs k ≡ some x → get_elem? (xs ++ ys) k ≡ some x
get_elem?-append [] ys k e = cc
get_elem?-append (x ∷ xs) ys zero e = e
get_elem?-append (x ∷ xs) ys (suc k) e = get_elem?-append xs ys k e

pub get_elem?-last : (xs : List ℕ) (y : ℕ) → get_elem? (xs ++ (y ∷ [])) (length xs) ≡ some y
get_elem?-last [] y = refl
get_elem?-last (x ∷ xs) y = get_elem?-last xs y

AreNamed-append :
    (ts us : List ℕ) (xs : List DirectoryEntry) → AreNamed ts xs → AreNamed (ts ++ us) xs
AreNamed-append ts us [] h = tt
AreNamed-append ts us (x ∷ xs) h =
    (h.0, get_elem?-append ts us x.number h.1, AreNamed-append ts us xs h.2)

HasPointer-append :
    (ts us : List ℕ) (type : ℕ) (p : Pointer) → HasPointer ts type p → HasPointer (ts ++ us) type p
HasPointer-append ts us type null h = h
HasPointer-append ts us type (regular_file f) h = h
HasPointer-append ts us type (directory d) h = (h.0, h.1, AreNamed-append ts us d.entries h.2)
HasPointer-append ts us type (symbolic_link p) h = h

-- More types change nothing for the nodes there are.
pub AreNodes-append :
    (ts us : List ℕ) (k : ℕ) (ns : List Node) → AreNodes ts k ns → AreNodes (ts ++ us) k ns
AreNodes-append ts us k [] h = tt
AreNodes-append ts us k (n ∷ ns) h =
    (h.0, HasPointer-append ts us n.type n.pointer h.1, AreNodes-append ts us (k + 1) ns h.2)

-- A new node at the end takes the next number.
pub AreNodes-snoc :
    (ts : List ℕ) (k : ℕ) (ns : List Node) (new : Node)
    → AreNodes ts k ns
    → new.number ≡ k + length ns
    → HasPointer ts new.type new.pointer
    → AreNodes ts k (ns ++ (new ∷ []))
AreNodes-snoc ts k [] new h e p = (omega (arith, e), p, tt)
AreNodes-snoc ts k (n ∷ ns) new h e p =
    (h.0, h.1, AreNodes-snoc ts (k + 1) ns new h.2 (omega (arith, e)) p)

pub types-append : (xs ys : List Node) → types (xs ++ ys) ≡ types xs ++ types ys
types-append [] ys = refl
types-append (x ∷ xs) ys = ap (λ l. x.type ∷ l) (types-append xs ys)

pub length-types : (ns : List Node) → length (types ns) ≡ length ns
length-types [] = refl
length-types (n ∷ ns) = ap suc (length-types ns)

-- The node at a place of the table.
pub AreNodes-get :
    (ts : List ℕ) (k i : ℕ) (ns : List Node) {n : Node}
    → AreNodes ts k ns
    → get_elem? ns i ≡ some n
    → (n.number ≡ k + i) × HasPointer ts n.type n.pointer × (get_elem? (types ns) i ≡ some n.type)
AreNodes-get ts k i [] h e = cc
AreNodes-get ts k zero (m ∷ ns) {n} h e =
    let q : m ≡ n = cc in rw (← q) (omega (arith, h.0), h.1, refl)
AreNodes-get ts k (suc i) (m ∷ ns) h e =
    let (a, b, c) = AreNodes-get ts (k + 1) i ns h.2 e in (omega (arith, a), b, c)

-- A duplicate is a node of the table.
pub find_duplicate-get :
    (type : ℕ) (same : Pointer → Bool) (ns : List Node) {d : Node}
    → find_duplicate type same ns ≡ some d
    → (i : ℕ) × (get_elem? ns i ≡ some d) × (d.type ≡ type) × (same d.pointer ≡ true)
unfolding find_duplicate
find_duplicate-get type same [] e = cc
find_duplicate-get type same (n ∷ ns) {d} e =
    elim (Bool-cases ((n.type == type) && same n.pointer)) [
      | inl yes_it ↦
          (let e' = rw yes_it at e in
            let q : n ≡ d = cc in rw (← q) (zero, refl, ground arith, ground arith))
      | inr no_it ↦
          (let (i, a, b, c) = find_duplicate-get type same ns (rw no_it at e) in (suc i, a, b, c))
    ]

AreNamed-snoc :
    (ts : List ℕ) (xs : List DirectoryEntry) (x : DirectoryEntry)
    → AreNamed ts xs
    → AreNamed ts (x ∷ [])
    → AreNamed ts (xs ++ (x ∷ []))
AreNamed-snoc ts [] x h hx = hx
AreNamed-snoc ts (y ∷ ys) x h hx = (h.0, h.1, AreNamed-snoc ts ys x h.2 hx)

module _ (malloc : ℕ → Bool) where
  grow_directory_lem :
      (d : Directory) (x : DirectoryEntry) {d' : Directory}
      → grow_directory malloc d x ≡ ok d'
      → d' ≡ record d { nentries = d.nentries + 1; entries = take d.nentries d.entries ++ (x ∷ []) }
  unfolding grow_directory
  grow_directory_lem d x {d'} e = elim (Bool-cases (malloc bytes)) [
    | inl room ↦ (let e' = rw (grow_directory, room) at e in cc)
    | inr full ↦ (let e' = rw (grow_directory, full) at e in cc)
  ]
    where
      bytes : ℕ
      bytes = 16 + entries_bytes (take d.nentries d.entries) + 24 + length x.name

  grow_pointer-HasPointer :
      (ts : List ℕ) (type : ℕ) (p : Pointer) (x : DirectoryEntry) {p' : Pointer}
      → grow_pointer malloc p x ≡ ok p'
      → HasPointer ts type p
      → AreNamed ts (x ∷ [])
      → HasPointer ts type p'
  unfolding grow_pointer grow_directory
  grow_pointer-HasPointer ts type null x e h hx = absurd h
  grow_pointer-HasPointer ts type (regular_file f) x e h hx = cc
  grow_pointer-HasPointer ts type (symbolic_link l) x e h hx = cc
  grow_pointer-HasPointer ts type (directory d) x {p'} e h hx =
      let (d', grown, q) =
        >>=_returns (λ d'. ok (directory d')) (grow_directory malloc d x) (sym e) in
      let shape = grow_directory_lem d x (sym grown) in
      let whole : take d.nentries d.entries ≡ d.entries =
        ap (λ (n : ℕ). take n d.entries) h.1 ∙ take-length_all d.entries in
      let named : AreNamed ts (d.entries ++ (x ∷ [])) = AreNamed-snoc ts d.entries x h.2 hx in
      let p_is : p'
          ≡ directory (record d { nentries = d.nentries + 1; entries = d.entries ++ (x ∷ []) }) =
        let w = rw whole at shape in cc in
      rw p_is (h.0, omega (arith, h.1, length-append d.entries (x ∷ [])), named)

  -- A new entry keeps the table, its numbers and its types.
  pub add_child-AreNodes :
      (ts : List ℕ) (k : ℕ) (ns : List Node) (number : ℕ) (x : DirectoryEntry) {ns' : List Node}
      → add_child malloc ns number x ≡ ok ns'
      → AreNodes ts k ns
      → AreNamed ts (x ∷ [])
      → AreNodes ts k ns' × (types ns' ≡ types ns)
  unfolding add_child
  add_child-AreNodes ts k [] number x e h hx = cc
  add_child-AreNodes ts k (n ∷ ns) number x {ns'} e h hx = elim (Bool-cases (n.number == number)) [
    | inl at_parent ↦ elim (Bool-cases (n.type == InodeType.directory)) [
      | inl dir ↦
          (let e1 = rw (add_child, at_parent, dir) at e in
            let (p, grown, q) =
              >>=_returns (λ p. ok (record n { pointer = p } ∷ ns))
                (grow_pointer malloc n.pointer x) (sym e1) in
            let pointer = grow_pointer-HasPointer ts n.type n.pointer x (sym grown) h.1 hx in
            let same : ns' ≡ record n { pointer = p } ∷ ns = cc in
            rw same ((h.0, pointer, h.2), refl))
      | inr other ↦ (let e1 = rw (add_child, at_parent, other) at e in cc)
    ]
    | inr away ↦
        (let e1 = rw (add_child, away) at e in
          let (ds', run, q) =
            >>=_returns (λ ds'. ok (n ∷ ds')) (add_child malloc ns number x) (sym e1) in
          let (rest, same_types) = add_child-AreNodes ts (k + 1) ns number x (sym run) h.2 hx in
          let same : ns' ≡ n ∷ ds' = cc in
          rw same ((h.0, h.1, rest), ap (λ (l : List ℕ). n.type ∷ l) same_types))
  ]
