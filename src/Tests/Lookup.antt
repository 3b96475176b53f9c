-- ===== src/Tests/Lookup.antt =====
-- Names that `smashfs_lookup` finds in the directory of Tests/Extract.antt.
use native.Mathlib.Decide.{ℕ_discrete}
use smashfs.Base.{ℕ, ◌≡◌, refl, arith, List, [], ◌∷◌, some, none, ok, same_bytes}
use smashfs.Bitbuffer
use smashfs.Bitbuffer.View.{are_bytes→IsBytes}
use smashfs.Directory
use smashfs.Kernel.Lookup.{lookup_number}
use smashfs.Kernel.Lookup.Found.{sought, IsDirectory, lookup_number-IsDirectory}
use smashfs.Mkfs.{DirectoryEntry}
use smashfs.Mkfs.Entries.{pack_entry}
use smashfs.Tests.Extract.{super, plenty, root_node}
use smashfs.Tests.Mount.{
  entries, packed, packed_length, device, device-HoldsDisk, sbi, packed-HoldsBlocks,
}

abbrev file : DirectoryEntry
file = record { number = 1; length = 1; type = 1; name = 97 ∷ [] }

abbrev content : List ℕ
content = 64 ∷ 224 ∷ 97 ∷ []

file_packed : pack_entry plenty super.bits.inode.directory file ≡ ok (1, 224 ∷ [])
unfolding pack_entry Bitbuffer.init Bitbuffer.putbits Bitbuffer.putbit ℕ_discrete
file_packed = refl

content-IsDirectory : IsDirectory plenty super.bits.inode.directory (file ∷ []) content
unfolding Directory.head_size Directory.entry_size Directory.read_head Bitbuffer.getbits
    Bitbuffer.getbits_loop Bitbuffer.getbytes_loop Bitbuffer.getbit Bitbuffer.init_from_buffer
    Bitbuffer.uninit ℕ_discrete
content-IsDirectory = record {
  parent = 0;
  head = refl;
  entries = (
    record {
      whole = omega arith;
      named = refl;
      short = omega arith;
      bytes = are_bytes→IsBytes (97 ∷ []) refl;
    },
    tt,
  );
  laid = (224 ∷ [], [], file_packed, refl, refl, refl);
  sorted = (omega arith, omega arith, tt);
  bytes = are_bytes→IsBytes (224 ∷ 97 ∷ []) refl;
  small = omega arith;
}

lookup_number-IsDirectory_example :
    lookup_number plenty plenty (device packed.1) sbi root_node (97 ∷ [])
    ≡ ok (sought (97 ∷ []) (file ∷ []))
lookup_number-IsDirectory_example =
    lookup_number-IsDirectory plenty plenty (device packed.1) sbi packed.1 entries content (97 ∷ [])
      root_node (file ∷ []) (λ n. refl) (λ k. refl) (device-HoldsDisk packed.1 81 packed_length)
      packed-HoldsBlocks
      (record {
        inside_block = omega arith;
        size_is = refl;
        inside = omega arith;
        content_is = refl;
      })
      content-IsDirectory

-- The name is there, and another is not.
found : sought (97 ∷ []) (file ∷ []) ≡ some 1
unfolding sought same_bytes
found = refl

missed : sought (98 ∷ []) (file ∷ []) ≡ none
unfolding sought same_bytes
missed = refl
