-- ===== src/Directory/RoundTrip.antt =====
-- The readers take the numbers of a directory's entry from the bytes that `output_write` of
-- src/mkfs/mkfs.c packs them in, with the name and the other entries behind them.
use smashfs.Base.{ℕ, zero, suc, ◌+◌, ◌*◌, ◌/◌, ◌^◌, ◌≤◌, ◌<◌, ◌≡◌, ◌∙◌, sym, refl, arith}
use smashfs.Base.{
  Bool, true, List, [], ◌∷◌, ◌++◌, length, length-append, ok, >>=_returns, u32, ltb, lt→ltb,
}
use smashfs.Bitbuffer
use smashfs.Bitbuffer.{putbits, getbits, skipbits}
use smashfs.Bitbuffer.Cursor.{IsBefore, IsBefore-next, getbits-IsBefore, past}
use smashfs.Bitbuffer.Fields.{Field, width, Holds, put_fields}
use smashfs.Bitbuffer.Fresh.{IsPacked, pack_lem, opened, init_from_buffer_lem, uninit_lem}
use smashfs.Bitbuffer.View.{byte_at, IsBytes, bit_at, field_ext}
use smashfs.Directory.{entry_size, read_entry, read_entry_type}
use smashfs.Format.{DirectoryBits, EntryBits}
use smashfs.Mkfs.{DirectoryEntry}
use smashfs.Mkfs.Entries.{pack_entry}
use smashfs.Mkfs.Inodes.Whole.{kept}
use smashfs.Mkfs.Limits.Enough.{Fits}

byte_at-append : (xs ys : List ℕ) (i : ℕ) → i < length xs → byte_at (xs ++ ys) i ≡ byte_at xs i
byte_at-append [] ys i h = absurd (omega arith)
byte_at-append (x ∷ xs) ys zero h = refl
byte_at-append (x ∷ xs) ys (suc i) h = byte_at-append xs ys i (omega arith)

bit_at-append : (xs ys : List ℕ) (i : ℕ) → i < length xs * 8 → bit_at (xs ++ ys) i ≡ bit_at xs i
unfolding bit_at
bit_at-append xs ys i h = rw (byte_at-append xs ys (i / 8) (omega arith))

-- Fields inside an array stand in every array that starts with it.
pub Holds-append :
    (xs ys : List ℕ) (i : ℕ) (fs : List Field)
    → i + width fs ≤ length xs * 8
    → Holds xs i fs
    → Holds (xs ++ ys) i fs
Holds-append xs ys i [] fit h = tt
Holds-append xs ys i ((n, v) ∷ fs) fit h = (
  field_ext (xs ++ ys) xs i n (λ j p q. bit_at-append xs ys j (omega arith)) ∙ h.0,
  Holds-append xs ys (i + n) fs (omega arith) h.1,
)

pub IsBytes-append : (xs ys : List ℕ) → IsBytes xs → IsBytes ys → IsBytes (xs ++ ys)
IsBytes-append [] ys p q i = q i
IsBytes-append (x ∷ xs) ys p q zero = p 0
IsBytes-append (x ∷ xs) ys p q (suc i) = IsBytes-append xs ys (λ k. p (suc k)) q i

pub IsBytes-right : (xs ys : List ℕ) → IsBytes (xs ++ ys) → IsBytes ys
IsBytes-right [] ys h = h
IsBytes-right (x ∷ xs) ys h = IsBytes-right xs ys (λ k. h (suc k))

-- The fields of an entry.
abbrev pub entry_fields : EntryBits → DirectoryEntry → List Field
entry_fields bits e =
    (bits.number, u32 e.number) ∷ (bits.length, u32 e.length) ∷ (bits.type, u32 e.type) ∷ []

-- The numbers of the entry fit their widths.
pub record IsWholeEntry (bits : EntryBits) (e : DirectoryEntry) : Type 0 where
  pub number : Fits e.number bits.number
  pub length : Fits e.length bits.length
  pub type : Fits e.type bits.type

pub entry_size_lem :
    (bits : EntryBits) → entry_size bits ≡ (bits.number + bits.length + bits.type + 7) / 8
unfolding entry_size
entry_size_lem bits = refl

module _ (malloc : ℕ → Bool) (bits : DirectoryBits) (e : DirectoryEntry)
    (m : (n : ℕ) → malloc n ≡ true) (whole : IsWholeEntry bits.entries e) where
  pub pack_entry-IsPacked :
      (out : List ℕ) × (pack_entry malloc bits e ≡ ok (entry_size bits.entries, out))
      × IsPacked (entry_size bits.entries) (entry_fields bits.entries e) out
  unfolding pack_entry entry_size
  pack_entry-IsPacked =
      let size = (bits.entries.number + bits.entries.length + bits.entries.type + 7) / 8 in
      let fs = entry_fields bits.entries e in
      let (b, run, packed) =
        pack_lem malloc size fs (m size)
          (omega (arith, whole.number.2, whole.length.2, whole.type.2))
          (whole.number.2, (whole.length.2, (whole.type.2, tt))) (omega arith) in
      let (b0, r0, p0) = >>=_returns (put_fields fs) (Bitbuffer.init malloc size) (sym run) in
      let w = bits.entries in
      let fs1 : List Field = (w.length, u32 e.length) ∷ (w.type, u32 e.type) ∷ [] in
      let fs2 : List Field = (w.type, u32 e.type) ∷ [] in
      let (b1, r1, p1) = >>=_returns (put_fields fs1) (putbits b0 w.number (u32 e.number)) p0 in
      let (b2, r2, p2) = >>=_returns (put_fields fs2) (putbits b1 w.length (u32 e.length)) p1 in
      let (b3, r3, p3) = >>=_returns (put_fields []) (putbits b2 w.type (u32 e.type)) p2 in
      let same : b3 ≡ b = cc in (b.buffer, rw (sym r0, sym r1, sym r2, sym r3, same), packed)

  -- The cursor at the start of an entry's bytes.
  entry-IsBefore :
      (rest : List ℕ)
      → IsBytes rest
      → (entry_size bits.entries + length rest) * 8 + 8 ≤ 2 ^ 31
      → (out : List ℕ) × (pack_entry malloc bits e ≡ ok (entry_size bits.entries, out))
        × (length out ≡ entry_size bits.entries)
        × IsBefore (opened (out ++ rest) (entry_size bits.entries) 0) (entry_fields bits.entries e)
  entry-IsBefore rest bytes small =
      let w = bits.entries in
      let (out, run, packed) = pack_entry-IsPacked in
      let len = length-append out rest in
      let fits : 0 + width (entry_fields w e) ≤ length out * 8 =
        omega (arith, packed.same_length, entry_size_lem w) in
      (
        out,
        run,
        packed.same_length,
        record {
          readable = record {
            bytes = IsBytes-append out rest packed.readable.bytes bytes;
            small = omega (arith, len, packed.same_length);
          };
          narrow = (whole.number.2, (whole.length.2, (whole.type.2, tt)));
          fit = omega (arith, len);
          holds = Holds-append out rest 0 (entry_fields w e) fits packed.held;
        },
      )

  -- The bytes that `output_write` packs the numbers of an entry in, with other bytes behind them,
  -- give the readers the entry's number, length and type, where these fit their widths.
  pub read-pack_entry :
      (rest : List ℕ)
      → IsBytes rest
      → (entry_size bits.entries + length rest) * 8 + 8 ≤ 2 ^ 31
      → (out : List ℕ) × (pack_entry malloc bits e ≡ ok (entry_size bits.entries, out))
        × (length out ≡ entry_size bits.entries)
        × (read_entry_type bits.entries (out ++ rest) ≡ ok (e.number, e.length, e.type))
  unfolding read_entry_type
  read-pack_entry rest bytes small =
      let w = bits.entries in
      let (out, run, same_length, s0) = entry-IsBefore rest bytes small in
      let s1 = IsBefore-next s0 in
      let s2 = IsBefore-next s1 in
      (
        out,
        run,
        same_length,
        rw (
          init_from_buffer_lem (out ++ rest) (entry_size w) (omega arith),
          getbits-IsBefore s0,
          getbits-IsBefore s1,
          getbits-IsBefore s2,
          kept e.number w.number whole.number,
          kept e.length w.length whole.length,
          kept e.type w.type whole.type,
          uninit_lem
              (past (past (past (opened (out ++ rest) (entry_size w) 0) w.number) w.length) w.type),
        ),
      )

  -- The readers that skip the type get the number and the length.
  pub read_entry-pack_entry :
      (rest : List ℕ)
      → IsBytes rest
      → (entry_size bits.entries + length rest) * 8 + 8 ≤ 2 ^ 31
      → (out : List ℕ) × (pack_entry malloc bits e ≡ ok (entry_size bits.entries, out))
        × (length out ≡ entry_size bits.entries)
        × (read_entry bits.entries (out ++ rest) ≡ ok (e.number, e.length))
  unfolding read_entry skipbits
  read_entry-pack_entry rest bytes small =
      let w = bits.entries in
      let (out, run, same_length, s0) = entry-IsBefore rest bytes small in
      let s1 = IsBefore-next s0 in
      let there : ltb (0 + w.number + w.length + w.type) (2 ^ 31) ≡ true =
        lt→ltb _ _ (omega (arith, whole.number.2, whole.length.2, whole.type.2)) in
      (
        out,
        run,
        same_length,
        rw (
          init_from_buffer_lem (out ++ rest) (entry_size w) (omega arith),
          getbits-IsBefore s0,
          getbits-IsBefore s1,
          kept e.number w.number whole.number,
          kept e.length w.length whole.length,
          there,
          uninit_lem
              (past (past (past (opened (out ++ rest) (entry_size w) 0) w.number) w.length) w.type),
        ),
      )
