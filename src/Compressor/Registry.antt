-- ===== src/Compressor/Registry.antt =====
-- The registry of src/mkfs/compressor.c: mkfs finds a compressor by its name, unfs by its type.
use smashfs.Base.{
  ℕ, ◌+◌, ◌≤◌, ◌≡◌, refl, arith, Bool, true, false, List, [], ◌∷◌, ◌==◌, ==_iff, same_bytes,
  if◌then◌else◌,
}
use smashfs.Base.{some, Bool-cases, inl, inr}
use smashfs.Compressor.{
  Compressor, Options, Coders, compressors, compressor_create_name, compressor_create_type,
}

-- The types grow along the list, from `k` on.
abbrev AreRising : ℕ → List Compressor → Type 0
AreRising k [] = Unit
AreRising k (c ∷ cs) = (k ≤ c.type) × AreRising (c.type + 1) cs

lower : (j k : ℕ) (cs : List Compressor) → j ≤ k → AreRising k cs → AreRising j cs
lower j k [] h rising = tt
lower j k (c ∷ cs) h rising = (omega (arith, h, rising.0), rising.1)

-- A compressor that an option leaves in or out.
option-AreRising :
    (k : ℕ) (option : Bool) (c : Compressor) (cs : List Compressor)
    → k ≤ c.type
    → AreRising (c.type + 1) cs
    → AreRising k (if option then c ∷ cs else cs)
option-AreRising k true c cs h rising = (h, rising)
option-AreRising k false c cs h rising = lower k (c.type + 1) cs (omega (arith, h)) rising

compressors-AreRising :
    (options : Options) (coders : Coders) → AreRising 0 (compressors options coders)
unfolding compressors
compressors-AreRising options coders = (
  omega arith,
  option-AreRising 1 options.gzip _ _ (omega arith) (
      option-AreRising 2 options.lzma _ _ (omega arith) (
        option-AreRising 3 options.lzo _ _ (omega arith)
          (option-AreRising 4 options.xz _ [] (omega arith) tt))),
)

agree :
    (name : List ℕ) (k : ℕ) (cs : List Compressor) {c : Compressor}
    → AreRising k cs
    → compressor_create_name name cs ≡ some c
    → (compressor_create_type c.type cs ≡ some c) × (k ≤ c.type)
unfolding compressor_create_name compressor_create_type
agree name k [] rising found = cc
agree name k (d ∷ ds) {c} rising found = elim (Bool-cases (same_bytes d.name name)) [
  | inl hit ↦
      (let found' = rw hit at found in
        let same : d ≡ c = cc in
        let own : (d.type == d.type) ≡ true = (==_iff d.type d.type).1 refl in
        rw (← same) (rw own refl, rising.0))
  | inr miss ↦
      (let found' = rw miss at found in
        let (rest, above) = agree name (d.type + 1) ds rising.1 found' in
        let other : (d.type == c.type) ≡ false = ground (arith, above) in
        (rw other rest, omega (arith, above, rising.0)))
]

-- Whatever the build enables, the compressor that mkfs takes by a name is the one that unfs takes
-- by the type that mkfs stores for it.
pub compressor_create_type-name :
    (options : Options) (coders : Coders) (name : List ℕ) {c : Compressor}
    → compressor_create_name name (compressors options coders) ≡ some c
    → compressor_create_type c.type (compressors options coders) ≡ some c
compressor_create_type-name options coders name found =
    (agree name 0 (compressors options coders) (compressors-AreRising options coders) found).0
