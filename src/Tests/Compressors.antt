-- ===== src/Tests/Compressors.antt =====
-- The compressor of a build that has all.
use smashfs.Base.{ℕ, ◌≡◌, refl, List, ◌∷◌, [], Option, none, some, true}
use native.Mathlib.Decide.{ℕ_discrete}
use smashfs.Base.{same_bytes}
use smashfs.Compressor.{
  Compressor, Options, Coders, compressors, compressor_create_name, compressor_create_type,
}
use smashfs.Compressor.Registry.{compressor_create_type-name}

abbrev pub all : Options
all = record { gzip = true; lzma = true; lzo = true; xz = true }

abbrev pub nothing : List ℕ → ℕ → Option (List ℕ)
nothing src dsize = none

abbrev pub coders : Coders
coders = record {
  gzip_compress = nothing;
  gzip_uncompress = nothing;
  lzma_compress = nothing;
  lzma_uncompress = nothing;
  lzo_compress = nothing;
  lzo_uncompress = nothing;
  xz_compress = nothing;
  xz_uncompress = nothing;
}

abbrev pub lzo : Compressor
lzo = record { name = b'l' ∷ b'z' ∷ b'o' ∷ []; type = 3; compress = nothing; uncompress = nothing }

lzo_found : compressor_create_name (b'l' ∷ b'z' ∷ b'o' ∷ []) (compressors all coders) ≡ some lzo
unfolding compressor_create_name compressors same_bytes ℕ_discrete
lzo_found = refl

compressor_create_type-name_example : compressor_create_type 3 (compressors all coders) ≡ some lzo
compressor_create_type-name_example =
    compressor_create_type-name all coders (b'l' ∷ b'z' ∷ b'o' ∷ []) lzo_found
