-- ===== src/Tests/CommandLine.antt =====
-- A command line of mkfs: a source, an output, a block size and the compressor lzo.
use native.Mathlib.Decide.{ℕ_discrete}
use smashfs.Base.{ℕ, ◌≡◌, refl, ℤ, pos, Bool, true, false, List, [], ◌∷◌, some, ok, same_bytes}
use smashfs.Compressor.{compressors, compressor_create_name}
use smashfs.Mkfs.CommandLine.{
  source, output, block_size, compressor, Argument, Settings, initial, strdup, add_source,
  parse_option, is_help, parse_options, check_settings, has_source, is_given, read_settings,
}
use smashfs.Mkfs.CommandLine.Accepted.{IsAccepted, read_settings-IsAccepted}
use smashfs.Tests.Compressors.{all, coders, lzo}

abbrev memory : ℕ → Bool
memory n = true

-- The only number on the command line.
abbrev atoi : List ℕ → ℤ
atoi text = pos 4096

abbrev arguments : List Argument
arguments =
    (source, some (b'a' ∷ []))
    ∷ (output, some (b'b' ∷ []))
    ∷ (block_size, some (b'4' ∷ []))
    ∷ (compressor, some (b'l' ∷ b'z' ∷ b'o' ∷ []))
    ∷ []

abbrev settings : Settings
settings = record {
  sources = (b'a' ∷ []) ∷ [];
  output = some (b'b' ∷ []);
  compressor = some lzo;
  debug = 0;
  options = record {
    block_size = 4096;
    njobs = 8;
    no_group_mode = false;
    no_other_mode = false;
    no_uid = false;
    no_gid = false;
    no_ctime = false;
    no_mtime = false;
    no_padding = false;
    no_duplicates = false;
  };
}

settings_run : read_settings memory atoi (compressors all coders) arguments ≡ ok (some settings)
unfolding read_settings parse_options parse_option is_help check_settings has_source is_given
    initial strdup add_source compressors compressor_create_name same_bytes ℕ_discrete
settings_run = refl

read_settings-IsAccepted_example : IsAccepted (compressors all coders) settings
read_settings-IsAccepted_example =
    read_settings-IsAccepted memory atoi (compressors all coders) arguments settings settings_run
