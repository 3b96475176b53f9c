-- ===== src/Mkfs/Sources/Walk.antt =====
-- `sources_scan` of src/mkfs/mkfs.c over a walk that gives every directory before what it holds.
pub mod Returns
use Prim.Native.Nat.{bit_and}
use native.Mathlib.Decide.{ℕ_discrete}
use mathlib.Core.Logic.{if_pos, if_neg}
use native.Mathlib.Nat.{zero-add}
use smashfs.Base.{
  ℕ, zero, suc, ◌+◌, ◌≡◌, ◌≢◌, ◌∙◌, refl, sym, ap, arith, Bool, true, false, List, [], ◌∷◌, ◌++◌,
  length, update, length-append,
}
use smashfs.Base.{
  get_elem?, Option, none, some, Option-cases, Bool-cases, inl, inr, Result, ok, fail, fault, ◌>>=◌,
  ◌>>◌, require,
}
use smashfs.Base.{◌==◌, ==_iff, if◌then◌else◌, leb}
use smashfs.Format.InodeType
use smashfs.Mkfs.{
  Node, Pointer, RegularFile, Directory, DirectoryEntry, null, regular_file, directory,
  symbolic_link,
}
use smashfs.Mkfs.NodeType
use smashfs.Mkfs.Sources.{
  Entry, Handle, nothing, freed, live, Sources, empty, parent_of, directory_entry, attach,
  add_child, grow_pointer, grow_directory, add_node, add_duplicate, count_type, link_node,
  find_duplicate, new_regular_file, new_directory, new_symbolic_link, node_fill, node_new,
  sources_scan, node_init, node_type, same_file, same_link, is_elf, parent_number, is_visited,
  keep_pointer,
}
use smashfs.Mkfs.Sources.Tables.{
  types, HasPointer, AreNodes, add_child-AreNodes, types-append, length-types, get_elem?-last,
  get_elem?-append,
}
use smashfs.Mkfs.Sources.Invariant.{IsScanned}
use smashfs.Mkfs.Sources.Scan.{node_new-IsScanned, empty-IsScanned}

-- Every allocation succeeds.
abbrev pub plenty : ℕ → Bool
plenty n = true

-- S_ISDIR.
abbrev pub is_directory : Entry → Bool
is_directory e = bit_and e.st_mode 0o170000 == 0o040000

abbrev pub HasParent : (ℕ → Bool) → Option ℕ → Type 0
HasParent known none = Unit
HasParent known (some id) = known id ≡ true

-- A walk gives an entry once before its children, and an entry that has a parent after the
-- directory that is its parent. `known` are the directories that it gave before.
abbrev pub IsWalk : (ℕ → Bool) → List Entry → Type 0
IsWalk known [] = Unit
IsWalk known (e ∷ es) = elim (is_visited e.info) [
  | true ↦
      (known e.id ≡ false)
      × HasParent known e.parent
      × IsWalk (update known e.id (is_directory e)) es
  | false ↦ IsWalk known es
]

-- The entry has a node of the table, which is a directory.
abbrev pub HasNode : Sources → ℕ → Type 0
HasNode s id =
    (n : ℕ) × (s.pointers id ≡ live n)
    × (get_elem? (types s.nodes_table) n ≡ some InodeType.directory)

abbrev pub AreLive : (ℕ → Bool) → Sources → Type 0
AreLive known s = (id : ℕ) → known id ≡ true → HasNode s id

grow_pointer_lem :
    (ts : List ℕ) (p : Pointer) (x : DirectoryEntry)
    → HasPointer ts InodeType.directory p
    → (p' : Pointer) × (grow_pointer plenty p x ≡ ok p')
unfolding grow_pointer grow_directory
grow_pointer_lem ts null x h = absurd h
grow_pointer_lem ts (regular_file f) x h = cc
grow_pointer_lem ts (symbolic_link l) x h = cc
grow_pointer_lem ts (directory d) x h = (_, refl)

add_child_lem :
    (ts : List ℕ) (k i : ℕ) (ns : List Node) (x : DirectoryEntry)
    → AreNodes ts k ns
    → get_elem? (types ns) i ≡ some InodeType.directory
    → (ns' : List Node) × (add_child plenty ns (k + i) x ≡ ok ns') × (types ns' ≡ types ns)
unfolding add_child grow_pointer grow_directory
add_child_lem ts k i [] x h e = cc
add_child_lem ts k zero (n ∷ ns) x h e =
    let here : n.number ≡ k + 0 = omega (arith, h.0) in
    let at_parent = (==_iff n.number (k + 0)).1 here in
    let dir : n.type ≡ InodeType.directory = cc in
    let (p, grown) = grow_pointer_lem ts n.pointer x (rw dir at h.1) in
    let dir' = (==_iff n.type InodeType.directory).1 dir in
    (record n { pointer = p } ∷ ns, rw (add_child, at_parent, dir', grown) refl, refl)
add_child_lem ts k (suc i) (n ∷ ns) x h e =
    let away : (n.number == (k + suc i)) ≡ false = ground (arith, h.0) in
    let (ns', run, same) = add_child_lem ts (k + 1) i ns x h.2 e in
    let place : k + suc i ≡ (k + 1) + i = omega arith in
    let run' : add_child plenty ns (k + suc i) x ≡ ok ns' = rw place run in
    (n ∷ ns', rw (add_child, away, run') refl, ap (λ (l : List ℕ). n.type ∷ l) same)

-- A run from `s` reads nothing that was freed, changes the pointer of one entry only, and keeps the
-- types of the nodes there are.
abbrev pub IsKept : Sources → ℕ → Result Sources → Type 0
IsKept s id (ok s') =
    ((j : ℕ) → j ≢ id → s'.pointers j ≡ s.pointers j)
    × ((n t : ℕ)
        → get_elem? (types s.nodes_table) n ≡ some t
        → get_elem? (types s'.nodes_table) n ≡ some t)
IsKept s id fail = Unit
IsKept s id fault = ⊥

pub require-IsKept :
    (s : Sources) (id : ℕ) (test : Bool) (k : Result Sources)
    → IsKept s id k
    → IsKept s id (require test >> k)
require-IsKept s id true k h = h
require-IsKept s id false k h = tt

pub bind-IsKept :
    (s : Sources) (id : ℕ) (r : Result ℕ) (k : ℕ → Result Sources)
    → r ≢ fault
    → ((n : ℕ) → IsKept s id (k n))
    → IsKept s id (r >>= k)
bind-IsKept s id (ok n) k h kept = kept n
bind-IsKept s id fail k h kept = tt
bind-IsKept s id fault k h kept = absurd (h refl)

pub node_type_lem : (st_mode : ℕ) → node_type st_mode ≢ fault
unfolding node_type
node_type_lem st_mode e = ground arith

pub option-IsKept :
    (s : Sources) (id : ℕ) (o : Option (List ℕ)) (k : List ℕ → Result Sources)
    → ((xs : List ℕ) → IsKept s id (k xs))
    → IsKept s id ((elim o [ some xs ↦ ok xs | none ↦ fail ]) >>= k)
option-IsKept s id none k h = tt
option-IsKept s id (some xs) k h = h xs

attach_lem :
    (known : ℕ → Bool) (s : Sources) (e : Entry) (x : DirectoryEntry)
    → AreNodes (types s.nodes_table) 0 s.nodes_table
    → AreLive known s
    → HasParent known e.parent
    → (table : List Node) × (attach plenty s.nodes_table (parent_of s e) x ≡ ok table)
      × (types table ≡ types s.nodes_table)
unfolding attach
attach_lem known s e x h alive parent = elim (Option-cases e.parent) [
  | inl root ↦ (s.nodes_table, rw root refl, refl)
  | inr (id, q) ↦
      (let seen : known id ≡ true = rw q at parent in
        let (n, at_n, dir) = alive id seen in
        let (table, run, same) = add_child_lem (types s.nodes_table) 0 n s.nodes_table x h dir in
        let run' : add_child plenty s.nodes_table n x ≡ ok table = rw zero-add at run in
        (table, rw (q, at_n) run', same))
]

pub update_ne : {A : Type 0} (f : ℕ → A) (i : ℕ) (a : A) (j : ℕ) → j ≢ i → update f i a j ≡ f j
update_ne f i a j h = if_neg (ℕ_discrete i j) (λ e. h (sym e)) a (f j)

pub update_eq : {A : Type 0} (f : ℕ → A) (i : ℕ) (a : A) → update f i a i ≡ a
update_eq f i a = if_pos (ℕ_discrete i i) refl a (f i)

kept_type :
    (ns ms : List Node) (new : Node)
    → types ms ≡ types ns
    → (n t : ℕ) → get_elem? (types ns) n ≡ some t
    → get_elem? (types (ms ++ (new ∷ []))) n ≡ some t
kept_type ns ms new same n t at_n =
    let all : types (ms ++ (new ∷ [])) ≡ types ns ++ (new.type ∷ []) =
      types-append ms (new ∷ []) ∙ ap (λ (l : List ℕ). l ++ (new.type ∷ [])) same in
    rw all (get_elem?-append (types ns) (new.type ∷ []) n at_n)

-- Where the entry's directory has its node, the new node or the duplicate gets its place.
pub link_node_lem :
    (known : ℕ → Bool) (s : Sources) (e : Entry) (duplicate : Option Node) (new : Node)
    → AreNodes (types s.nodes_table) 0 s.nodes_table
    → AreLive known s
    → HasParent known e.parent
    → IsKept s e.id (link_node plenty s e duplicate new)
unfolding link_node add_node add_duplicate count_type
link_node_lem known s e (some old) new h alive parent =
    let (table, run, same) = attach_lem known s e (directory_entry e old) h alive parent in
    rw run (update_ne s.pointers e.id freed, λ n t at_n. rw same at_n)
link_node_lem known s e none new h alive parent =
    let (table, run, same) = attach_lem known s e (directory_entry e new) h alive parent in
    rw run (update_ne s.pointers e.id (live new.number), kept_type s.nodes_table table new same)

parent_number_lem :
    (known : ℕ → Bool) (s : Sources) (e : Entry)
    → AreLive known s
    → HasParent known e.parent
    → (n : ℕ) × (parent_number (parent_of s e) ≡ ok n)
unfolding parent_number
parent_number_lem known s e alive parent = elim (Option-cases e.parent) [
  | inl root ↦ (0, rw root refl)
  | inr (id, q) ↦
      (let seen : known id ≡ true = rw q at parent in
        let (n, at_n, dir) = alive id seen in (n, rw (q, at_n) refl))
]

pub new_directory_lem :
    (known : ℕ → Bool) (s : Sources) (e : Entry)
    → IsScanned s
    → AreLive known s
    → HasParent known e.parent
    → (s' : Sources) × (new_directory plenty s e (node_init s.nodes_id e InodeType.directory)
        ≡ ok s')
      × IsKept s e.id (ok s')
      × HasNode s' e.id
unfolding new_directory link_node add_node count_type node_init
new_directory_lem known s e inv alive parent =
    let (above, at_above) = parent_number_lem known s e alive parent in
    let new : Node = record (node_init s.nodes_id e InodeType.directory) {
      pointer = directory (record { parent = above; nentries = 0; entries = [] });
      ntype = NodeType.directory;
    } in
    let (table, run, same) = attach_lem known s e (directory_entry e new) inv.nodes alive parent in
    let all : types (table ++ (new ∷ [])) ≡ types s.nodes_table ++ (InodeType.directory ∷ []) =
      types-append table (new ∷ []) ∙ ap (λ (l : List ℕ). l ++ (InodeType.directory ∷ [])) same in
    let place : s.nodes_id ≡ length (types s.nodes_table) =
      inv.count ∙ sym (length-types s.nodes_table) in
    let at_new : get_elem? (types (table ++ (new ∷ []))) s.nodes_id ≡ some InodeType.directory =
      rw (all, place) (get_elem?-last (types s.nodes_table) InodeType.directory) in
    (
      add_node s e new table,
      rw (at_above, run) refl,
      (update_ne s.pointers e.id (live s.nodes_id), kept_type s.nodes_table table new same),
      (s.nodes_id, update_eq s.pointers e.id (live s.nodes_id), at_new),
    )
