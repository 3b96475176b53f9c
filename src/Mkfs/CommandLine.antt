-- ===== src/Mkfs/CommandLine.antt =====
-- The command line of src/mkfs/mkfs.c: the loop over the options in `main`, and what it asks of
-- them.
pub mod Accepted
use smashfs.Base.{
  ℕ, ◌+◌, ◌*◌, ◌^◌, ℤ, pos, u32_ℤ, min_ℤ, min, max, Bool, true, false, List, [], ◌∷◌, length,
  if◌then◌else◌, Option, none, some, Result, ok, fail, fault, ◌>>=◌, ◌>>◌, require, load,
}
use smashfs.Mkfs.{Options}
use smashfs.Compressor.{Compressor, compressor_create_name}

-- What `getopt_long` returns, by `long_options`.
pub data Code : Type 0 where
  source output block_size compressor debug jobs help : Code
  no_group_mode no_other_mode no_uid no_gid no_ctime no_mtime no_padding no_duplicates : Code
  unknown : Code

-- The variables that the options set.
pub record Settings : Type 0 where
  pub sources : List (List ℕ)
  pub output : Option (List ℕ)
  pub compressor : Option Compressor
  pub debug : ℕ
  pub options : Options

abbrev pub max_jobs : ℕ
max_jobs = 16

unfoldable pub has_source : List (List ℕ) → Bool
has_source [] = false
has_source (path ∷ paths) = true

-- Whether a pointer is not NULL.
unfoldable pub is_given : {A : Type 0} → Option A → Bool
is_given none = false
is_given (some a) = true

-- A code with `optarg`, which is NULL where the option has no argument.
abbrev pub Argument : Type 0
Argument = Code × Option (List ℕ)

abbrev pub set : Options → Settings → Settings
set options s = record s { options = options }

-- `atoi` is the library's; `cs` is the array of compressors.
module _ (malloc : ℕ → Bool) (atoi : List ℕ → ℤ) (cs : List Compressor) where
  unfoldable pub initial : Settings
  initial = record {
    sources = [];
    output = none;
    compressor = compressor_create_name (b'n' ∷ b'o' ∷ b'n' ∷ b'e' ∷ []) cs;
    debug = 0;
    options = record {
      block_size = 1024 * 1024;
      njobs = 8;
      no_group_mode = false;
      no_other_mode = false;
      no_uid = false;
      no_gid = false;
      no_ctime = false;
      no_mtime = false;
      no_padding = false;
      no_duplicates = false;
    };
  }

  -- `strdup`, with the memory that it takes.
  unfoldable pub strdup : List ℕ → Option (List ℕ)
  strdup path = if malloc (length path + 1) then some path else none

  -- `sizeof(struct source)` is 24. A source that cannot be kept is skipped.
  unfoldable pub add_source : List ℕ → Settings → Settings
  add_source path s =
      let kept = record s { sources = path ∷ s.sources } in
      if malloc 24 then (if malloc (length path + 1) then kept else s) else s

  -- One round of the loop, less `help`. `none` for `optarg` is a NULL that is read.
  unfoldable pub parse_option : Code → Option (List ℕ) → Settings → Result Settings
  parse_option source arg s = do path ← load arg; ok (add_source path s)
  parse_option output arg s = do path ← load arg; ok (record s { output = strdup path })
  parse_option block_size arg s = do
    text ← load arg
    let size = min (u32_ℤ (atoi text)) (2 ^ 20)
    ok (set (record s.options { block_size = max size (2 ^ 12) }) s)
  parse_option compressor arg s = do
    name ← load arg
    ok (record s { compressor = compressor_create_name name cs })
  parse_option debug arg s = ok (record s { debug = s.debug + 1 })
  parse_option jobs arg s = do
    text ← load arg
    ok (set (record s.options { njobs = u32_ℤ (min_ℤ (pos max_jobs) (atoi text)) }) s)
  parse_option no_group_mode arg s = ok (set (record s.options { no_group_mode = true }) s)
  parse_option no_other_mode arg s = ok (set (record s.options { no_other_mode = true }) s)
  parse_option no_uid arg s = ok (set (record s.options { no_uid = true }) s)
  parse_option no_gid arg s = ok (set (record s.options { no_gid = true }) s)
  parse_option no_ctime arg s = ok (set (record s.options { no_ctime = true }) s)
  parse_option no_mtime arg s = ok (set (record s.options { no_mtime = true }) s)
  parse_option no_padding arg s = ok (set (record s.options { no_padding = true }) s)
  parse_option no_duplicates arg s = ok (set (record s.options { no_duplicates = true }) s)
  parse_option help arg s = ok s
  parse_option unknown arg s = ok s

  -- Whether the option is `help`, which prints and exits.
  unfoldable pub is_help : Code → Bool
  is_help help = true
  is_help _ = false

  -- The loop: the settings behind it, or nothing where the program exits.
  unfoldable pub parse_options : List Argument → Settings → Result (Option Settings)
  parse_options [] s = ok (some s)
  parse_options ((code, arg) ∷ rest) s =
      let next = (do s' ← parse_option code arg s; parse_options rest s') in
      if is_help code then ok none else next

  -- The checks behind the loop.
  unfoldable pub check_settings : Settings → Result Settings
  check_settings s = do
    require (has_source s.sources)
    require (is_given s.output)
    require (is_given s.compressor)
    ok s

  unfoldable pub read_settings : List Argument → Result (Option Settings)
  read_settings arguments = do
    parsed ← parse_options arguments initial
    (elim parsed [ none ↦ ok none | some s ↦ (check_settings s >>= λ s'. ok (some s')) ])
