-- ===== src/Kernel/Compressor/Agreement.antt =====
-- The compressors of src/linux/compressor.c and those of src/mkfs/compressor.c.
use smashfs.Base.{
  ℕ, ◌≡◌, ◌∙◌, refl, ap, Bool, true, false, List, [], ◌∷◌, ◌==◌, if◌then◌else◌, none, some,
  Bool-cases, inl, inr, ◌⊎◌,
}
use smashfs.Compressor
use smashfs.Compressor.{Options}
use smashfs.Compressor.Registry.{compressor_create_type-name}
use smashfs.Kernel.Compressor.{
  Compressor, Coders, compressors, create_context, compressor_create_type,
}

module _ {C : Type 0} where
  -- An entry that needs no context, or gets one, and answers to the name and the type.
  pub record IsReady (c : Compressor.Compressor) (k : Compressor C) : Type 0 where
    pub name_is : k.name ≡ c.name
    pub type_is : k.type ≡ c.type
    pub made : (k.create ≡ none) ⊎ ((x : C) × (k.create ≡ some (some x)))

  abbrev AreReady : List Compressor.Compressor → List (Compressor C) → Type 0
  AreReady [] [] = Unit
  AreReady (c ∷ cs) (k ∷ ks) = IsReady c k × AreReady cs ks
  AreReady _ _ = ⊥

  -- An entry for that compressor, with the context that its `create` gave.
  pub record IsFor (c : Compressor.Compressor) (k : Compressor C) : Type 0 where
    pub name_is : k.name ≡ c.name
    pub type_is : k.type ≡ c.type
    pub ready : (k.create ≡ none) ⊎ ((x : C) × (k.create ≡ some (some x)) × (k.context ≡ some x))

  hit-IsFor :
      (type : ℕ) (c : Compressor.Compressor) (k : Compressor C) (ks : List (Compressor C))
      → IsReady c k
      → (k.type == type) ≡ true
      → (k' : Compressor C) × ((compressor_create_type type (k ∷ ks)).1 ≡ some k') × IsFor c k'
  unfolding compressor_create_type create_context
  hit-IsFor type c k ks is hit = elim is.made [
    | inl plain ↦ (
      k,
      rw hit (ap (λ o. (create_context k ks (compressor_create_type type ks) o).1) plain),
      record { name_is = is.name_is; type_is = is.type_is; ready = inl plain },
    )
    | inr (x, creates) ↦ (
      record k { context = some x },
      rw hit (ap (λ o. (create_context k ks (compressor_create_type type ks) o).1) creates),
      record { name_is = is.name_is; type_is = is.type_is; ready = inr (x, creates, refl) },
    )
  ]

  miss :
      (type : ℕ) (k : Compressor C) (ks : List (Compressor C))
      → (k.type == type) ≡ false
      → (compressor_create_type type (k ∷ ks)).1 ≡ (compressor_create_type type ks).1
  unfolding compressor_create_type
  miss type k ks other = rw other refl

  agree :
      (type : ℕ) (cs : List Compressor.Compressor) (ks : List (Compressor C))
      {c : Compressor.Compressor}
      → AreReady cs ks
      → Compressor.compressor_create_type type cs ≡ some c
      → (k : Compressor C) × ((compressor_create_type type ks).1 ≡ some k) × IsFor c k
  unfolding Compressor.compressor_create_type
  agree type [] [] ready found = cc
  agree type [] (k ∷ ks) ready found = absurd ready
  agree type (d ∷ ds) [] ready found = absurd ready
  agree type (d ∷ ds) (k ∷ ks) {c} ready found = elim (Bool-cases (d.type == type)) [
    | inl hit ↦
        (let found' = rw hit at found in
          let same : d ≡ c = cc in
          let hit' : (k.type == type) ≡ true = rw ready.0.type_is hit in
          rw (← same) (hit-IsFor type d k ks ready.0 hit'))
    | inr other ↦
        (let found' = rw other at found in
          let other' : (k.type == type) ≡ false = rw ready.0.type_is other in
          let (k', rest, is) = agree type ds ks ready.1 found' in
          (k', miss type k ks other' ∙ rest, is))
  ]

  option-AreReady :
      (option : Bool) (c : Compressor.Compressor) (k : Compressor C)
      (cs : List Compressor.Compressor) (ks : List (Compressor C))
      → IsReady c k
      → AreReady cs ks
      → AreReady (if option then c ∷ cs else cs) (if option then k ∷ ks else ks)
  option-AreReady true c k cs ks is ready = (is, ready)
  option-AreReady false c k cs ks is ready = ready

  compressors-AreReady :
      (options : Options) (coders : Compressor.Coders) (kernel : Coders C) (x : C)
      → kernel.gzip_create ≡ some x
      → AreReady (Compressor.compressors options coders) (compressors options kernel)
  unfolding Compressor.compressors compressors
  compressors-AreReady options coders kernel x created = (
    record { name_is = refl; type_is = refl; made = inl refl },
    option-AreReady options.gzip _ _ _ _
        (record { name_is = refl; type_is = refl; made = inr (x, rw created refl) })
        (option-AreReady options.lzma _ _ _ _
          (record { name_is = refl; type_is = refl; made = inl refl })
          (option-AreReady options.lzo _ _ _ _
            (record { name_is = refl; type_is = refl; made = inl refl })
            (option-AreReady options.xz _ _ [] []
              (record { name_is = refl; type_is = refl; made = inl refl }) tt))),
  )

  -- Whatever compressors are enabled, where mkfs and the kernel are built with the same ones, for
  -- the one that mkfs takes by a name the kernel finds by the stored type the entry of that name
  -- and type, with a context where it needs one, if zlib's can be had.
  pub compressor_create_type-kernel :
      (options : Options) (coders : Compressor.Coders) (kernel : Coders C) (x : C) (name : List ℕ)
      {c : Compressor.Compressor}
      → kernel.gzip_create ≡ some x
      → Compressor.compressor_create_name name (Compressor.compressors options coders) ≡ some c
      → (k : Compressor C) × ((compressor_create_type c.type (compressors options kernel)).1
          ≡ some k)
        × IsFor c k
  compressor_create_type-kernel options coders kernel x name {c} created found =
      agree c.type (Compressor.compressors options coders) (compressors options kernel)
        (compressors-AreReady options coders kernel x created)
        (compressor_create_type-name options coders name found)
