-- ===== src/Tests/Listing.antt =====
-- The packing and the listing of a directory with one entry.
use smashfs.Base.{
  ℕ, ◌≡◌, refl, arith, List, ◌∷◌, [], ok, true, ◌≤◌, ◌<◌, ◌+◌, ◌*◌, ◌^◌, ◌++◌, length, map,
}
use smashfs.Base.{length-append}
use smashfs.Bitbuffer.View.{are_bytes→IsBytes, IsBytes}
use smashfs.Buffer
use smashfs.Buffer.{Buffer}
use smashfs.Buffer.Add.{init-IsValid}
use smashfs.Directory.RoundTrip.{pack_entry-IsPacked, IsBytes-append, entry_size_lem}
use smashfs.Kernel.Readdir.{entries_loop}
use smashfs.Kernel.Readdir.Listing.{collect, dirent, entries_loop-AreLaid}
use smashfs.Mkfs.Entries.Laid.{IsEntry, AreAdded, AreLaid, entries_size, add_entries-AreAdded}
use smashfs.Tests.Tables.{bits}
use smashfs.Tests.Whole.{entry, entry-IsWholeEntry}

entry-IsEntry : IsEntry bits.directory entry
entry-IsEntry = record {
  whole = entry-IsWholeEntry;
  named = refl;
  short = omega arith;
  bytes = are_bytes→IsBytes entry.name refl;
}

add_entries-AreAdded_example :
    (bytes : List ℕ) × (buf : Buffer) × AreAdded
      (λ n. true)
      bits.directory
      (entry ∷ [])
      7
      Buffer.init
      bytes
      buf
add_entries-AreAdded_example =
    add_entries-AreAdded (λ n. true) bits.directory (entry ∷ []) 7 Buffer.init (λ n. refl)
      init-IsValid (entry-IsEntry, tt) small
  where
    small : Buffer.init.length + entries_size bits.directory (entry ∷ []) < 2 ^ 62
    small = omega (arith, entry_size_lem bits.directory.entries)

packed_entry : List ℕ
packed_entry =
    (pack_entry-IsPacked (λ n. true) bits.directory entry (λ n. refl) entry-IsWholeEntry).0

abbrev listed : List ℕ
listed = packed_entry ++ (entry.name ++ [])

listed-AreLaid :
    AreLaid (λ n. true) bits.directory (entry ∷ []) listed
    × IsBytes listed
    × (length listed * 8 + 8 ≤ 2 ^ 31)
unfolding packed_entry
listed-AreLaid =
    let (out, run, packed) =
      pack_entry-IsPacked (λ n. true) bits.directory entry (λ n. refl) entry-IsWholeEntry in
    let name_bytes : IsBytes (entry.name ++ []) = are_bytes→IsBytes (entry.name ++ []) refl in
    (
      (out, [], run, packed.same_length, refl, refl),
      IsBytes-append out (entry.name ++ []) packed.readable.bytes name_bytes,
      omega (
        arith,
        length-append out (entry.name ++ []),
        packed.same_length,
        entry_size_lem bits.directory.entries,
      ),
    )

-- One byte of a packed head comes first.
entries_loop-AreLaid_example :
    entries_loop collect bits.directory (0 ∷ listed) 1 1 4 []
    ≡ ok (1 + length listed + 3, [] ++ map dirent (entry ∷ []))
entries_loop-AreLaid_example =
    entries_loop-AreLaid (λ n. true) bits.directory (λ n. refl) (entry ∷ []) (0 ∷ listed) listed 1
      [] (entry-IsEntry, tt) listed-AreLaid.0 refl listed-AreLaid.1 listed-AreLaid.2
