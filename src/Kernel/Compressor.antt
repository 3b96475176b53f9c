-- ===== src/Kernel/Compressor.antt =====
-- src/linux/compressor.c and src/linux/compressor-none.c: the compressors of the kernel. The array
-- is static: every mount writes the contexts of the same entries.
pub mod Agreement
use smashfs.Base.{
  ℕ, Bool, true, false, List, [], ◌∷◌, length, ltb, ◌==◌, same_bytes, if◌then◌else◌, Option, none,
  some,
}
use smashfs.Compressor.{Options}
use smashfs.Format.CompressionType

-- `C` are the contexts. `create` is nothing where it is NULL, and else what a call of it gives;
-- `uncompress` gets the context, the source and the size of the destination, and gives what it
-- writes, or nothing for a negative result.
pub record Compressor (C : Type 0) : Type 0 where
  pub name : List ℕ
  pub type : ℕ
  pub create : Option (Option C)
  pub destroy : Option (C → C)
  pub uncompress : Option C → List ℕ → ℕ → Option (List ℕ)
  pub context : Option C

-- The coders that call the libraries, with what `gzip_create` gives.
pub record Coders (C : Type 0) : Type 0 where
  pub gzip_create : Option C
  pub gzip_destroy : C → C
  pub gzip_uncompress : Option C → List ℕ → ℕ → Option (List ℕ)
  pub lzma_uncompress : Option C → List ℕ → ℕ → Option (List ℕ)
  pub lzo_uncompress : Option C → List ℕ → ℕ → Option (List ℕ)
  pub xz_uncompress : Option C → List ℕ → ℕ → Option (List ℕ)

module _ {C : Type 0} where
  unfoldable pub none_uncompress : Option C → List ℕ → ℕ → Option (List ℕ)
  none_uncompress context src dsize = if ltb dsize (length src) then none else some src

  -- An entry with neither `create` nor `destroy`.
  abbrev pub plain : List ℕ → ℕ → (Option C → List ℕ → ℕ → Option (List ℕ)) → Compressor C
  plain name type uncompress = record {
    name = name;
    type = type;
    create = none;
    destroy = none;
    uncompress = uncompress;
    context = none;
  }

  -- The array `compressors` before any call, less the NULL at its end.
  unfoldable pub compressors : Options → Coders C → List (Compressor C)
  compressors options c =
      let xz_entry = plain (b'x' ∷ b'z' ∷ []) CompressionType.xz c.xz_uncompress in
      let xz : List (Compressor C) = if options.xz then xz_entry ∷ [] else [] in
      let lzo_entry = plain (b'l' ∷ b'z' ∷ b'o' ∷ []) CompressionType.lzo c.lzo_uncompress in
      let lzo : List (Compressor C) = if options.lzo then lzo_entry ∷ xz else xz in
      let lzma_entry =
        plain (b'l' ∷ b'z' ∷ b'm' ∷ b'a' ∷ []) CompressionType.lzma c.lzma_uncompress in
      let lzma : List (Compressor C) = if options.lzma then lzma_entry ∷ lzo else lzo in
      let gzip_entry : Compressor C = record {
        name = b'g' ∷ b'z' ∷ b'i' ∷ b'p' ∷ [];
        type = CompressionType.gzip;
        create = some c.gzip_create;
        destroy = some c.gzip_destroy;
        uncompress = c.gzip_uncompress;
        context = none;
      } in
      let gzip : List (Compressor C) = if options.gzip then gzip_entry ∷ lzma else lzma in
      plain (b'n' ∷ b'o' ∷ b'n' ∷ b'e' ∷ []) CompressionType.none none_uncompress ∷ gzip

  -- An entry of the type with what its `create` gives. Where that fails the search goes on: `rest`
  -- is the end of the array after it, with what it finds.
  unfoldable pub create_context :
      Compressor C
      → List (Compressor C)
      → List (Compressor C) × Option (Compressor C)
      → Option (Option C)
      → List (Compressor C) × Option (Compressor C)
  create_context c cs rest none = (c ∷ cs, some c)
  create_context c cs rest (some (some x)) =
      (record c { context = some x } ∷ cs, some (record c { context = some x }))
  create_context c cs rest (some none) = (record c { context = none } ∷ rest.0, rest.1)

  -- The array after the call, and the entry.
  unfoldable pub compressor_create_type :
      ℕ → List (Compressor C) → List (Compressor C) × Option (Compressor C)
  compressor_create_type type [] = ([], none)
  compressor_create_type type (c ∷ cs) =
      let rest = compressor_create_type type cs in
      if c.type == type then create_context c cs rest c.create else (c ∷ rest.0, rest.1)

  -- The type of the first entry with the name.
  unfoldable pub find_name : List ℕ → List (Compressor C) → Option ℕ
  find_name name [] = none
  find_name name (c ∷ cs) =
      let rest = find_name name cs in if same_bytes c.name name then some c.type else rest

  unfoldable pub compressor_create_name :
      List ℕ → List (Compressor C) → List (Compressor C) × Option (Compressor C)
  compressor_create_name name cs = elim (find_name name cs) [
    | some type ↦ compressor_create_type type cs
    | none ↦ (cs, none)
  ]

  unfoldable pub compressor_uncompress : Compressor C → List ℕ → ℕ → Option (List ℕ)
  compressor_uncompress c src dsize = c.uncompress c.context src dsize
