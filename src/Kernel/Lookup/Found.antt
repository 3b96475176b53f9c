-- ===== src/Kernel/Lookup/Found.antt =====
-- `smashfs_lookup` of src/linux/super.c finds the names of a directory that mkfs packed.
use smashfs.Base.{
  ℕ, suc, ◌+◌, ◌*◌, ◌^◌, ◌<◌, ◌≤◌, ◌≡◌, ◌∙◌, refl, sym, ap, arith, Bool, true, false, List, [], ◌∷◌,
  ◌++◌, length, length-append, take, drop, take-length_all, get_or, get_elem?, ltb, ltb→lt, ◌==◌,
  ==_iff, ◌&&◌, same_bytes, same_bytes→eq, if◌then◌else◌, Option, none, some, ok, Bool-cases, inl,
  inr,
}
use smashfs.Bitbuffer.View.{IsBytes}
use smashfs.Directory.{entry_size, head_size, read_head, read_entry}
use smashfs.Directory.RoundTrip.{IsBytes-right, read_entry-pack_entry}
use smashfs.Format.{DirectoryBits}
use smashfs.Kernel.{SuperInfo}
use smashfs.Kernel.Device.{Device}
use smashfs.Kernel.Device.Reads.{HoldsDisk}
use smashfs.Kernel.Lookup.{is_before, find, lookup_number}
use smashfs.Kernel.Read.Data.{HoldsBlocks, read_data-AreBlocks, node_read_lem}
use smashfs.Kernel.Readdir.Listing.{drop-append, take-append}
use smashfs.Mkfs.{DirectoryEntry}
use smashfs.Mkfs.Entries.Laid.{AreEntries, AreLaid}
use smashfs.Table.{Node}
use smashfs.Unfs.Extract.Data.{HasContent}

-- The number of the first entry with the name.
unfoldable pub sought : List ℕ → List DirectoryEntry → Option ℕ
sought name [] = none
sought name (e ∷ es) =
    let rest = sought name es in if same_bytes e.name name then some e.number else rest

-- A name's first byte.
abbrev pub first : DirectoryEntry → ℕ
first e = get_or e.name 0 0

-- No name is empty, and the first bytes never fall, from `k` on.
abbrev pub AreSorted : ℕ → List DirectoryEntry → Type 0
AreSorted k [] = Unit
AreSorted k (e ∷ es) = (k ≤ first e) × (0 < length e.name) × AreSorted (first e) es

-- A name that starts before all others is not there.
sought_before :
    (name : List ℕ) (k : ℕ) (es : List DirectoryEntry)
    → AreSorted k es
    → get_or name 0 0 < k
    → sought name es ≡ none
unfolding sought
sought_before name k [] sorted below = refl
sought_before name k (e ∷ es) sorted below =
    let rest = sought_before name (first e) es sorted.2 (omega (arith, sorted.0, below)) in
    elim (Bool-cases (same_bytes e.name name)) [
      | inl same ↦
          (let eq : first e ≡ get_or name 0 0 =
              ap (λ (l : List ℕ). get_or l 0 0) (same_bytes→eq e.name name same) in
            absurd (omega (arith, eq, sorted.0, below)))
      | inr other ↦ rw (other, rest) refl
    ]

first_byte : (xs ys : List ℕ) → 0 < length xs → get_elem? (xs ++ ys) 0 ≡ some (get_or xs 0 0)
first_byte [] ys h = absurd (omega (arith, h))
first_byte (x ∷ xs) ys h = refl

&&_right : (a b : Bool) → (a && b) ≡ true → b ≡ true
&&_right true b h = h
&&_right false b h = cc

&&_false : (a b : Bool) → b ≡ false → (a && b) ≡ false
&&_false true b h = h
&&_false false b h = refl

-- The test for a name of the entry's bytes.
same_name :
    (name : List ℕ) (e : DirectoryEntry)
    → length e.name ≡ e.length
    → ((e.length == length name) && same_bytes e.name name) ≡ same_bytes e.name name
same_name name e named = elim (Bool-cases (same_bytes e.name name)) [
  | inl same ↦
      (let eq = same_bytes→eq e.name name same in
        let long : e.length ≡ length name = sym named ∙ ap (λ (l : List ℕ). length l) eq in
        let test : (e.length == length name) ≡ true = (==_iff e.length (length name)).1 long in
        rw (test, same) refl)
  | inr other ↦ (rw other (&&_false (e.length == length name) false refl))
]

-- One entry: the loop ends, finds the name, or goes on.
module _ (bits : DirectoryBits) (name : List ℕ) where
  find-step :
      (n : ℕ) (e : DirectoryEntry) (es : List DirectoryEntry) (buffer rest : List ℕ)
      → read_entry bits.entries buffer ≡ ok (e.number, e.length)
      → drop (entry_size bits.entries) buffer ≡ e.name ++ rest
      → length e.name ≡ e.length
      → AreSorted (first e) es
      → 0 < length e.name
      → find bits name n rest ≡ ok (sought name es)
      → find bits name (suc n) buffer ≡ ok (sought name (e ∷ es))
  unfolding find sought
  find-step n e es buffer rest read_it behind named sorted some_name next =
      let byte = first_byte e.name rest some_name in
      let its_name = take-append e.length e.name rest named in
      let its_rest = drop-append e.length e.name rest named in
      let test = same_name name e named in
      elim (Bool-cases (is_before name (first e))) [
        | inl before ↦
            (let below : get_or name 0 0 < first e =
                ltb→lt (get_or name 0 0) (first e)
                  (&&_right (ltb (first e) 128) (ltb (get_or name 0 0) (first e)) before) in
              let nowhere =
                sought_before name (first e) (e ∷ es) (omega arith, some_name, sorted) below in
              rw (read_it, behind, byte, before) (ap (λ o. ok o) (sym nowhere)))
        | inr later ↦ elim (Bool-cases (same_bytes e.name name)) [
          | inl same ↦ rw (read_it, behind, byte, later, its_name, test, same) refl
          | inr other ↦ rw (read_it, behind, byte, later, its_name, test, other, its_rest) next
        ]
      ]

  -- Over packed entries whose first bytes never fall, the loop gives the number of the first entry
  -- with the name, and nothing where there is none.
  find-AreLaid :
      (malloc : ℕ → Bool) (m : (n : ℕ) → malloc n ≡ true) (k : ℕ) (es : List DirectoryEntry)
      (bytes : List ℕ)
      → AreEntries bits es
      → AreLaid malloc bits es bytes
      → AreSorted k es
      → IsBytes bytes
      → length bytes * 8 + 8 ≤ 2 ^ 31
      → find bits name (length es) bytes ≡ ok (sought name es)
  unfolding find sought
  find-AreLaid malloc m k [] bytes are laid sorted b small = refl
  find-AreLaid malloc m k (e ∷ es) bytes are laid sorted b small =
      let (out, rest, run, len, eq, laid') = laid in
      let behind = e.name ++ rest in
      let n1 = length-append out behind in
      let n2 = length-append e.name rest in
      let n3 : length bytes ≡ length (out ++ behind) = ap (λ (l : List ℕ). length l) eq in
      let b1 : IsBytes (out ++ behind) = rw eq at b in
      let b2 : IsBytes behind = IsBytes-right out behind b1 in
      let (out', run', len', read) =
        read_entry-pack_entry malloc bits e m are.0.whole behind b2 (omega (arith, len, n1, n3)) in
      let same : out ≡ out' = cc in
      let read' : read_entry bits.entries bytes ≡ ok (e.number, e.length) = rw (eq, same) read in
      let at_name : drop (entry_size bits.entries) bytes ≡ behind =
        ap (drop (entry_size bits.entries)) eq
        ∙ drop-append (entry_size bits.entries) out behind len in
      find-step (length es) e es bytes rest read' at_name are.0.named sorted.2 sorted.1 (
        find-AreLaid malloc m (first e) es rest are.1 laid' sorted.2 (IsBytes-right e.name rest b2)
          (omega (arith, n1, n2, n3)))

-- The content of a directory that mkfs packed.
pub record IsDirectory (malloc : ℕ → Bool) (bits : DirectoryBits) (es : List DirectoryEntry)
    (content : List ℕ) : Type 0 where
  pub parent : ℕ
  pub head : read_head bits content (length content) ≡ ok (parent, length es)
  pub entries : AreEntries bits es
  pub laid : AreLaid malloc bits es (drop (head_size bits) content)
  pub sorted : AreSorted 0 es
  pub bytes : IsBytes (drop (head_size bits) content)
  pub small : length (drop (head_size bits) content) * 8 + 8 ≤ 2 ^ 31

-- On a device whose blocks are no larger than a page, and that holds the blocks of the image
-- within 31 bits, with memory and objects of the block cache to be had, `smashfs_lookup` reads a
-- directory that mkfs packed, whose entries have names that are not empty and stand in the order
-- of their first bytes, and finds the number of the first entry with the name that it is asked
-- for, or none where there is no such entry: leaving the loop at the first greater byte misses
-- nothing, and nothing is read out of bounds.
pub lookup_number-IsDirectory :
    (malloc cache : ℕ → Bool) (dev : Device) (sbi : SuperInfo) (disk bytes content name : List ℕ)
    (node : Node) (es : List DirectoryEntry)
    → ((n : ℕ) → malloc n ≡ true)
    → ((k : ℕ) → cache k ≡ true)
    → HoldsDisk dev disk
    → HoldsBlocks sbi disk bytes
    → HasContent sbi.super.block_size bytes node content
    → IsDirectory malloc sbi.super.bits.inode.directory es content
    → lookup_number malloc cache dev sbi node name ≡ ok (sought name es)
unfolding lookup_number
lookup_number-IsDirectory malloc cache dev sbi disk bytes content name node es memory objects holds
      blocks has is =
    let bits = sbi.super.bits.inode.directory in
    let run =
      node_read_lem malloc cache dev sbi bytes node.size
        (read_data-AreBlocks malloc cache dev sbi disk bytes node.size memory holds blocks) node
        content 0 node.size objects blocks.power has (omega (arith, has.size_is)) (omega arith) in
    let all : take node.size content ≡ content =
      ap (λ n. take n content) has.size_is ∙ take-length_all content in
    let head : read_head bits content node.size ≡ ok (is.parent, length es) =
      rw has.size_is is.head in
    rw (memory node.size, run, all, head)
      (find-AreLaid bits name malloc memory 0 es (drop (head_size bits) content) is.entries is.laid
        is.sorted is.bytes is.small)
