-- ===== src/Mkfs/Entries/Laid.antt =====
-- What `output_write` of src/mkfs/mkfs.c appends to the entry buffer for a directory's entries.
use smashfs.Base.{ℕ, suc, ◌+◌, ◌^◌, ◌<◌, ◌≡◌, ◌∙◌, sym, refl, ap, arith, Bool, true}
use smashfs.Base.{List, [], ◌∷◌, ◌++◌, length, length-append, take, ok, u32}
use smashfs.Base.{take-length_all, append_assoc, append-nil}
use smashfs.Bitbuffer.View.{IsBytes}
use smashfs.Buffer
use smashfs.Buffer.{Buffer}
use smashfs.Buffer.Add.{IsValid, add_lem}
use smashfs.Directory.{entry_size}
use smashfs.Directory.RoundTrip.{IsWholeEntry, pack_entry-IsPacked}
use smashfs.Format.{DirectoryBits}
use smashfs.Mkfs.{DirectoryEntry}
use smashfs.Mkfs.Entries.{pack_entry, add_entries}
use native.Mathlib.Nat.{mod-eq_of_lt}

-- An entry with its own name, whose numbers fit their widths.
pub record IsEntry (bits : DirectoryBits) (e : DirectoryEntry) : Type 0 where
  pub whole : IsWholeEntry bits.entries e
  pub named : length e.name ≡ e.length
  pub short : e.length < 2 ^ 31
  pub bytes : IsBytes e.name

abbrev pub AreEntries : DirectoryBits → List DirectoryEntry → Type 0
AreEntries bits [] = Unit
AreEntries bits (e ∷ es) = IsEntry bits e × AreEntries bits es

-- The bytes that the entries take.
abbrev pub entries_size : DirectoryBits → List DirectoryEntry → ℕ
entries_size bits [] = 0
entries_size bits (e ∷ es) = entry_size bits.entries + e.length + entries_size bits es

module _ (malloc : ℕ → Bool) (bits : DirectoryBits) where
  -- The bytes are the packed numbers and the name of every entry, one after the other.
  abbrev pub AreLaid : List DirectoryEntry → List ℕ → Type 0
  AreLaid [] bytes = bytes ≡ []
  AreLaid (e ∷ es) bytes =
      (out : List ℕ) × (rest : List ℕ) × (pack_entry malloc bits e
        ≡ ok (entry_size bits.entries, out))
      × (length out ≡ entry_size bits.entries)
      × (bytes ≡ out ++ (e.name ++ rest))
      × AreLaid es rest

  -- What `add_entries` leaves.
  pub record AreAdded (es : List DirectoryEntry) (size : ℕ) (buf : Buffer) (bytes : List ℕ)
      (buf' : Buffer) : Type 0 where
    pub returns :
        add_entries malloc bits (length es) es size buf ≡ ok (size + entries_size bits es, buf')
    pub appended : Buffer.contents buf' ≡ Buffer.contents buf ++ bytes
    pub laid : AreLaid es bytes
    pub longer : length bytes ≡ entries_size bits es
    pub valid : IsValid buf'

  add_entries-step :
      (buf b1 b2 : Buffer) {out : List ℕ} {s : ℕ} (n size : ℕ) (e : DirectoryEntry)
      (es : List DirectoryEntry)
      → pack_entry malloc bits e ≡ ok (s, out)
      → Buffer.add malloc buf out s ≡ ok (s, b1)
      → Buffer.add malloc b1 e.name (u32 e.length) ≡ ok (e.length, b2)
      → add_entries malloc bits (suc n) (e ∷ es) size buf
        ≡ add_entries malloc bits n es (size + s + e.length) b2
  unfolding add_entries
  add_entries-step buf b1 b2 n size e es packed first second = rw (packed, first, second)

  -- With memory to be had, the loop over the entries of a directory appends the packed numbers and
  -- the name of every entry to the buffer, and nothing else, and counts their bytes.
  pub add_entries-AreAdded :
      (es : List DirectoryEntry) (size : ℕ) (buf : Buffer)
      → ((n : ℕ) → malloc n ≡ true)
      → IsValid buf
      → AreEntries bits es
      → buf.length + entries_size bits es < 2 ^ 62
      → (bytes : List ℕ) × (buf' : Buffer) × AreAdded es size buf bytes buf'
  unfolding add_entries
  add_entries-AreAdded [] size buf m valid are room = (
    [],
    buf,
    record {
      returns = (let e : size + 0 ≡ size = omega arith in rw e);
      appended = sym (append-nil (Buffer.contents buf));
      laid = refl;
      longer = refl;
      valid = valid;
    },
  )
  add_entries-AreAdded (e ∷ es) size buf m valid are room =
      let ie = are.0 in
      let s = entry_size bits.entries in
      let (out, run, packed) = pack_entry-IsPacked malloc bits e m ie.whole in
      let len = packed.same_length in
      let few : s < 2 ^ 31 = omega (arith, packed.readable.small, len) in
      let (b1, a1) = add_lem malloc buf out s valid m (omega (arith, len)) few (omega arith) in
      let whole : u32 e.length ≡ e.length = mod-eq_of_lt (let p = ie.short in omega arith) in
      let (b2, a2) =
        add_lem malloc b1 e.name e.length a1.valid m (omega (arith, ie.named)) ie.short
          (omega (arith, a1.longer)) in
      let (bytes, b3, a3) =
        add_entries-AreAdded es (size + s + e.length) b2 m a2.valid are.1
          (omega (arith, a1.longer, a2.longer)) in
      let all_out : take s out ≡ out = ap (λ (n : ℕ). take n out) (sym len) ∙ take-length_all out in
      let all_name : take e.length e.name ≡ e.name =
        ap (λ (n : ℕ). take n e.name) (sym ie.named) ∙ take-length_all e.name in
      let second : Buffer.add malloc b1 e.name (u32 e.length) ≡ ok (e.length, b2) =
        ap (λ (n : ℕ). Buffer.add malloc b1 e.name n) whole ∙ a2.returns in
      let rest_size = entries_size bits es in
      let sum : size + (s + e.length + rest_size) ≡ size + s + e.length + rest_size = omega arith in
      (
        out ++ (e.name ++ bytes),
        b3,
        record {
          returns =
              add_entries-step buf b1 b2 (length es) size e es run a1.returns second
              ∙ a3.returns
              ∙ ap (λ (n : ℕ). ok (n, b3)) (sym sum);
          appended =
              a3.appended
              ∙ ap (λ l. l ++ bytes) (a2.appended ∙ ap (λ l. l ++ take e.length e.name) a1.appended)
              ∙ rw (all_out, all_name)
                  (append_assoc (Buffer.contents buf ++ out) e.name bytes
                    ∙ append_assoc (Buffer.contents buf) out (e.name ++ bytes));
          laid = (out, bytes, run, len, refl, a3.laid);
          longer = omega (
            arith,
            length-append out (e.name ++ bytes),
            length-append e.name bytes,
            a3.longer,
            len,
            ie.named,
          );
          valid = a3.valid;
        },
      )
