-- ===== src/Tests/Contexts.antt =====
-- The kernel's compressor for an image that mkfs compresses with gzip.
use native.Mathlib.Decide.{ℕ_discrete}
use smashfs.Base.{ℕ, ◌≡◌, refl, List, ◌∷◌, [], some, none, same_bytes}
use smashfs.Compressor
use smashfs.Kernel.Compressor.{Compressor, Coders, compressors, compressor_create_type}
use smashfs.Kernel.Compressor.Agreement.{IsFor, compressor_create_type-kernel}
use smashfs.Tests.Compressors.{all, coders, nothing}

abbrev name : List ℕ
name = b'g' ∷ b'z' ∷ b'i' ∷ b'p' ∷ []

abbrev gzip : Compressor.Compressor
gzip = record { name = name; type = 1; compress = nothing; uncompress = nothing }

-- The contexts are numbers.
abbrev kernel : Coders ℕ
kernel = record {
  gzip_create = some 7;
  gzip_destroy = λ x. x;
  gzip_uncompress = λ context src dsize. none;
  lzma_uncompress = λ context src dsize. none;
  lzo_uncompress = λ context src dsize. none;
  xz_uncompress = λ context src dsize. none;
}

gzip_found : Compressor.compressor_create_name name (Compressor.compressors all coders) ≡ some gzip
unfolding Compressor.compressor_create_name Compressor.compressors same_bytes ℕ_discrete
gzip_found = refl

compressor_create_type-kernel_example :
    (k : Compressor ℕ) × ((compressor_create_type 1 (compressors all kernel)).1 ≡ some k)
    × IsFor gzip k
compressor_create_type-kernel_example =
    compressor_create_type-kernel all coders kernel 7 name refl gzip_found
