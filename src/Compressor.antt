-- ===== src/Compressor.antt =====
-- src/mkfs/compressor.c and src/mkfs/compressor-none.c: the compressors by their names and types.
pub mod Registry
use smashfs.Base.{
  ℕ, Bool, List, [], ◌∷◌, ◌++◌, length, ltb, ◌==◌, same_bytes, if◌then◌else◌, Option, none, some,
}
use smashfs.Format.CompressionType

-- A coder gets the bytes of the source and the size of the destination, and gives what it writes,
-- or nothing for a negative result.
pub record Compressor : Type 0 where
  pub name : List ℕ
  pub type : ℕ
  pub compress : List ℕ → ℕ → Option (List ℕ)
  pub uncompress : List ℕ → ℕ → Option (List ℕ)

unfoldable pub none_compress : List ℕ → ℕ → Option (List ℕ)
none_compress src dsize = if ltb dsize (length src) then none else some src

unfoldable pub none_uncompress : List ℕ → ℕ → Option (List ℕ)
none_uncompress src dsize = if ltb dsize (length src) then none else some src

-- The SMASHFS_ENABLE options of the build.
pub record Options : Type 0 where
  pub gzip : Bool
  pub lzma : Bool
  pub lzo : Bool
  pub xz : Bool

-- The coders that call the libraries.
pub record Coders : Type 0 where
  pub gzip_compress : List ℕ → ℕ → Option (List ℕ)
  pub gzip_uncompress : List ℕ → ℕ → Option (List ℕ)
  pub lzma_compress : List ℕ → ℕ → Option (List ℕ)
  pub lzma_uncompress : List ℕ → ℕ → Option (List ℕ)
  pub lzo_compress : List ℕ → ℕ → Option (List ℕ)
  pub lzo_uncompress : List ℕ → ℕ → Option (List ℕ)
  pub xz_compress : List ℕ → ℕ → Option (List ℕ)
  pub xz_uncompress : List ℕ → ℕ → Option (List ℕ)

-- The array `compressors`, less the NULL at its end.
unfoldable pub compressors : Options → Coders → List Compressor
compressors options c =
    let xz : List Compressor =
      if options.xz
      then record {
        name = b'x' ∷ b'z' ∷ [];
        type = CompressionType.xz;
        compress = c.xz_compress;
        uncompress = c.xz_uncompress;
      }
        ∷ []
      else [] in
    let lzo : List Compressor =
      if options.lzo
      then record {
        name = b'l' ∷ b'z' ∷ b'o' ∷ [];
        type = CompressionType.lzo;
        compress = c.lzo_compress;
        uncompress = c.lzo_uncompress;
      }
        ∷ xz
      else xz in
    let lzma : List Compressor =
      if options.lzma
      then record {
        name = b'l' ∷ b'z' ∷ b'm' ∷ b'a' ∷ [];
        type = CompressionType.lzma;
        compress = c.lzma_compress;
        uncompress = c.lzma_uncompress;
      }
        ∷ lzo
      else lzo in
    let gzip : List Compressor =
      if options.gzip
      then record {
        name = b'g' ∷ b'z' ∷ b'i' ∷ b'p' ∷ [];
        type = CompressionType.gzip;
        compress = c.gzip_compress;
        uncompress = c.gzip_uncompress;
      }
        ∷ lzma
      else lzma in
    record {
      name = b'n' ∷ b'o' ∷ b'n' ∷ b'e' ∷ [];
      type = CompressionType.none;
      compress = none_compress;
      uncompress = none_uncompress;
    }
    ∷ gzip

unfoldable pub compressor_create_name : List ℕ → List Compressor → Option Compressor
compressor_create_name name [] = none
compressor_create_name name (c ∷ cs) =
    let rest = compressor_create_name name cs in if same_bytes c.name name then some c else rest

unfoldable pub compressor_create_type : ℕ → List Compressor → Option Compressor
compressor_create_type type [] = none
compressor_create_type type (c ∷ cs) =
    let rest = compressor_create_type type cs in if c.type == type then some c else rest
