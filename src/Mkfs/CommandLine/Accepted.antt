-- ===== src/Mkfs/CommandLine/Accepted.antt =====
-- What holds of the settings that src/mkfs/mkfs.c goes on with.
use smashfs.Base.{
  ℕ, ap, ◌+◌, ◌^◌, ◌≤◌, ◌<◌, ◌≡◌, ◌≢◌, refl, sym, arith, ltb, ltb→lt, ltb→ge, min, max, ℤ, pos,
  u32_ℤ, min_ℤ, Bool, true, List, [], ◌∷◌, length, Option, none, some, ok, ◌∙◌, >>=_returns,
  require_passes, Bool-cases, Option-cases, inl, inr, ◌⊎◌, ◌==◌, ==_iff,
}
use native.Mathlib.Nat.{pow-le-pow_right}
use smashfs.Compressor.{Compressor, compressor_create_name}
use smashfs.Mkfs.{Options}
use smashfs.Mkfs.Log.{slog}
use smashfs.Mkfs.Log.Laws.{slog_lem}
use smashfs.Mkfs.CommandLine.{
  Code, source, output, block_size, compressor, debug, jobs, help, no_group_mode, no_other_mode,
  no_uid, no_gid, no_ctime, no_mtime, no_padding, no_duplicates, unknown, Settings, max_jobs,
  has_source, is_given, Argument, set, initial, strdup, add_source, parse_option, is_help,
  parse_options, check_settings, read_settings,
}

-- The block size is in its bounds, and a compressor comes from the array.
pub record InBounds (cs : List Compressor) (s : Settings) : Type 0 where
  pub least : 2 ^ 12 ≤ s.options.block_size
  pub greatest : s.options.block_size ≤ 2 ^ 20
  pub registered :
      (c : Compressor)
      → s.compressor ≡ some c
      → (name : List ℕ) × (compressor_create_name name cs ≡ some c)

-- There is a source, an output and a compressor of the array; the block size is in its bounds, and
-- its logarithm is right where the size is a power of two, and else 0.
pub record IsAccepted (cs : List Compressor) (s : Settings) : Type 0 where
  pub least : 2 ^ 12 ≤ s.options.block_size
  pub greatest : s.options.block_size ≤ 2 ^ 20
  pub logarithm :
      (2 ^ slog s.options.block_size ≡ s.options.block_size)
      ⊎ ((slog s.options.block_size ≡ 0) × ((i : ℕ) → s.options.block_size ≢ 2 ^ i))
  pub some_source : 0 < length s.sources
  pub some_output : (path : List ℕ) × (s.output ≡ some path)
  pub some_compressor :
      (c : Compressor) × (name : List ℕ) × (s.compressor ≡ some c)
      × (compressor_create_name name cs ≡ some c)

exponent_bounds : (i : ℕ) → 2 ^ 12 ≤ 2 ^ i → 2 ^ i ≤ 2 ^ 20 → (12 ≤ i) × (i ≤ 20)
exponent_bounds i low high = (
  elim (Bool-cases (ltb i 12)) [
    | inr above ↦ ltb→ge i 12 above
    | inl below ↦
        (let lt = ltb→lt i 12 below in
          let less : 2 ^ i ≤ 2 ^ 11 =
            pow-le-pow_right {n = 2} (omega arith) {i = i} {j = 11} (omega (arith, lt)) in
          absurd (omega (arith, less, low)))
  ],
  elim (Bool-cases (ltb i 21)) [
    | inl below ↦ (let lt = ltb→lt i 21 below in omega (arith, lt))
    | inr above ↦
        (let ge = ltb→ge i 21 above in
          let more : 2 ^ 21 ≤ 2 ^ i = pow-le-pow_right {n = 2} (omega arith) {i = 21} {j = i} ge in
          absurd (omega (arith, more, high)))
  ],
)

slog_or_zero :
    (b : ℕ) → 2 ^ 12 ≤ b → b ≤ 2 ^ 20 → (2 ^ slog b ≡ b) ⊎ ((slog b ≡ 0) × ((i : ℕ) → b ≢ 2 ^ i))
slog_or_zero b low high = elim (Bool-cases (slog b == 0)) [
  | inl nothing ↦
      (let zero_log = (==_iff (slog b) 0).0 nothing in
        inr (
          zero_log,
          λ i power.
              (let (lo, hi) = exponent_bounds i (rw power at low) (rw power at high) in
                let log : slog b ≡ i = ap slog power ∙ (slog_lem b).0 i lo hi in
                omega (arith, log, zero_log, lo)),
        ))
  | inr other ↦
      inl ((slog_lem b).1 (λ e. (let same : (slog b == 0) ≡ true = (==_iff (slog b) 0).1 e in cc)))
]

given_lem : {A : Type 0} (o : Option A) → is_given o ≡ true → (a : A) × (o ≡ some a)
unfolding is_given
given_lem none h = cc
given_lem (some a) h = (a, refl)

source_lem : (paths : List (List ℕ)) → has_source paths ≡ true → 0 < length paths
unfolding has_source
source_lem [] h = cc
source_lem (path ∷ paths) h = omega arith

module _ (malloc : ℕ → Bool) (atoi : List ℕ → ℤ) (cs : List Compressor) where
  initial-InBounds : InBounds cs (initial malloc atoi cs)
  unfolding initial
  initial-InBounds = record {
    least = omega arith;
    greatest = omega arith;
    registered = λ c e. (b'n' ∷ b'o' ∷ b'n' ∷ b'e' ∷ [], e);
  }

  add_source-InBounds :
      (path : List ℕ) (s : Settings)
      → InBounds cs s
      → InBounds cs (add_source malloc atoi cs path s)
  unfolding add_source
  add_source-InBounds path s h = elim (Bool-cases (malloc 24)) [
    | inr lost ↦ rw lost h
    | inl kept ↦ elim (Bool-cases (malloc (length path + 1))) [
      | inr lost ↦ rw (kept, lost) h
      | inl copied ↦
          rw (kept, copied)
            (record { least = h.least; greatest = h.greatest; registered = h.registered })
    ]
  ]

  -- An option that sets neither the block size nor the compressor.
  set-InBounds :
      (o : Options) (s : Settings)
      → InBounds cs s
      → o.block_size ≡ s.options.block_size
      → InBounds cs (set o s)
  set-InBounds o s h same = record {
    least = omega (arith, h.least, same);
    greatest = omega (arith, h.greatest, same);
    registered = h.registered;
  }

  parse_option-InBounds :
      (code : Code) (arg : Option (List ℕ)) (s s' : Settings)
      → InBounds cs s
      → parse_option malloc atoi cs code arg s ≡ ok s'
      → InBounds cs s'
  unfolding parse_option
  parse_option-InBounds source none s s' h run = cc
  parse_option-InBounds source (some path) s s' h run =
      let same : add_source malloc atoi cs path s ≡ s' = cc in
      rw (← same) (add_source-InBounds path s h)
  parse_option-InBounds output none s s' h run = cc
  parse_option-InBounds output (some path) s s' h run =
      let same : record s { output = strdup malloc atoi cs path } ≡ s' = cc in
      rw (← same) (record { least = h.least; greatest = h.greatest; registered = h.registered })
  parse_option-InBounds block_size none s s' h run = cc
  parse_option-InBounds block_size (some text) s s' h run =
      let size = max (min (u32_ℤ (atoi text)) (2 ^ 20)) (2 ^ 12) in
      let same : set (record s.options { block_size = size }) s ≡ s' = cc in
      rw (← same)
        (record { least = omega arith; greatest = omega arith; registered = h.registered })
  parse_option-InBounds compressor none s s' h run = cc
  parse_option-InBounds compressor (some name) s s' h run =
      let same : record s { compressor = compressor_create_name name cs } ≡ s' = cc in
      rw (← same) (record { least = h.least; greatest = h.greatest; registered = λ c e. (name, e) })
  parse_option-InBounds debug arg s s' h run =
      let same : record s { debug = s.debug + 1 } ≡ s' = cc in
      rw (← same) (record { least = h.least; greatest = h.greatest; registered = h.registered })
  parse_option-InBounds jobs none s s' h run = cc
  parse_option-InBounds jobs (some text) s s' h run =
      let o = record s.options { njobs = u32_ℤ (min_ℤ (pos max_jobs) (atoi text)) } in
      let same : set o s ≡ s' = cc in rw (← same) (set-InBounds o s h refl)
  parse_option-InBounds no_group_mode arg s s' h run =
      let o = record s.options { no_group_mode = true } in
      let same : set o s ≡ s' = cc in rw (← same) (set-InBounds o s h refl)
  parse_option-InBounds no_other_mode arg s s' h run =
      let o = record s.options { no_other_mode = true } in
      let same : set o s ≡ s' = cc in rw (← same) (set-InBounds o s h refl)
  parse_option-InBounds no_uid arg s s' h run =
      let o = record s.options { no_uid = true } in
      let same : set o s ≡ s' = cc in rw (← same) (set-InBounds o s h refl)
  parse_option-InBounds no_gid arg s s' h run =
      let o = record s.options { no_gid = true } in
      let same : set o s ≡ s' = cc in rw (← same) (set-InBounds o s h refl)
  parse_option-InBounds no_ctime arg s s' h run =
      let o = record s.options { no_ctime = true } in
      let same : set o s ≡ s' = cc in rw (← same) (set-InBounds o s h refl)
  parse_option-InBounds no_mtime arg s s' h run =
      let o = record s.options { no_mtime = true } in
      let same : set o s ≡ s' = cc in rw (← same) (set-InBounds o s h refl)
  parse_option-InBounds no_padding arg s s' h run =
      let o = record s.options { no_padding = true } in
      let same : set o s ≡ s' = cc in rw (← same) (set-InBounds o s h refl)
  parse_option-InBounds no_duplicates arg s s' h run =
      let o = record s.options { no_duplicates = true } in
      let same : set o s ≡ s' = cc in rw (← same) (set-InBounds o s h refl)
  parse_option-InBounds help arg s s' h run = let same : s ≡ s' = cc in rw (← same) h
  parse_option-InBounds unknown arg s s' h run = let same : s ≡ s' = cc in rw (← same) h

  parse_options-InBounds :
      (arguments : List Argument) (s s' : Settings)
      → InBounds cs s
      → parse_options malloc atoi cs arguments s ≡ ok (some s')
      → InBounds cs s'
  unfolding parse_options
  parse_options-InBounds [] s s' h run = let same : s ≡ s' = cc in rw (← same) h
  parse_options-InBounds ((code, arg) ∷ rest) s s' h run =
      elim (Bool-cases (is_help malloc atoi cs code)) [
        | inl exits ↦ (let run' = rw exits at run in cc)
        | inr goes_on ↦
            (let run' = rw goes_on at run in
              let (s1, one, others) =
                >>=_returns (parse_options malloc atoi cs rest)
                  (parse_option malloc atoi cs code arg s) (sym run') in
              parse_options-InBounds rest s1 s' (parse_option-InBounds code arg s s1 h (sym one))
                (sym others))
      ]

  check_settings-IsAccepted :
      (s s' : Settings) → InBounds cs s → check_settings malloc atoi cs s ≡ ok s' → IsAccepted cs s'
  unfolding check_settings
  check_settings-IsAccepted s s' h run =
      let (t1, run1) = require_passes (has_source s.sources) _ (sym run) in
      let (t2, run2) = require_passes (is_given s.output) _ run1 in
      let (t3, run3) = require_passes (is_given s.compressor) _ run2 in
      let (c, is) = given_lem s.compressor t3 in
      let (name, by_name) = h.registered c is in
      let same : s ≡ s' = cc in
      rw (← same) (record {
        least = h.least;
        greatest = h.greatest;
        logarithm = slog_or_zero s.options.block_size h.least h.greatest;
        some_source = source_lem s.sources t1;
        some_output = given_lem s.output t2;
        some_compressor = (c, name, is, by_name);
      })

  -- Whatever the command line, where mkfs goes on to scan it has a source, an output and a
  -- compressor of its array, the block size is from 2 ^ 12 to 2 ^ 20, and its logarithm is right
  -- where it is a power of two, and 0 where it is none.
  pub read_settings-IsAccepted :
      (arguments : List Argument) (s : Settings)
      → read_settings malloc atoi cs arguments ≡ ok (some s)
      → IsAccepted cs s
  unfolding read_settings
  read_settings-IsAccepted arguments s run =
      let (parsed, r0, r1) =
        >>=_returns _ (parse_options malloc atoi cs arguments (initial malloc atoi cs)) (sym run) in
      elim (Option-cases parsed) [
        | inl nothing ↦ (let r1' = rw nothing at r1 in cc)
        | inr (s1, is) ↦
            (let r1' = rw is at r1 in
              let (s2, c0, c1) = >>=_returns _ (check_settings malloc atoi cs s1) r1' in
              let same : s2 ≡ s = cc in
              let bounds =
                parse_options-InBounds arguments (initial malloc atoi cs) s1 initial-InBounds
                  (sym r0 ∙ ap (λ o. ok o) is) in
              check_settings-IsAccepted s1 s bounds (sym c0 ∙ ap (λ x. ok x) same))
      ]
