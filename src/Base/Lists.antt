-- ===== src/Base/Lists.antt =====
-- C arrays as lists, measured and indexed by native numbers.
use Prim.Native.Nat.{ℕ, zero, suc, ◌+◌, ◌-◌, ◌≤◌, ◌<◌, min}
use mathlib.Core.Path.{◌≡◌, refl, sym, ap, ap₂, ◌∙◌}
use mathlib.Core.Logic.{◌≢◌, ◌⊎◌, inl, inr, ite}
use native.Mathlib.Decide.{ℕ_discrete}
use mathlib.Core.List.{List, [], ◌∷◌, ◌++◌}
use mathlib.Core.Option.{Option, none, some}
use native.Mathlib.Omega.{arith}

module _ {ℓ} {A : Type ℓ} where
  abbrev pub length : List A → ℕ
  length [] = 0
  length (x ∷ xs) = suc (length xs)

  abbrev pub get_elem? : List A → ℕ → Option A
  get_elem? [] i = none
  get_elem? (x ∷ xs) zero = some x
  get_elem? (x ∷ xs) (suc i) = get_elem? xs i

  abbrev pub get_or : List A → ℕ → A → A
  get_or [] i d = d
  get_or (x ∷ xs) zero d = x
  get_or (x ∷ xs) (suc i) d = get_or xs i d

  -- A write out of bounds changes nothing.
  abbrev pub set : List A → ℕ → A → List A
  set [] i v = []
  set (x ∷ xs) zero v = v ∷ xs
  set (x ∷ xs) (suc i) v = x ∷ set xs i v

  abbrev pub take : ℕ → List A → List A
  take zero xs = []
  take (suc n) [] = []
  take (suc n) (x ∷ xs) = x ∷ take n xs

  abbrev pub drop : ℕ → List A → List A
  drop zero xs = xs
  drop (suc n) [] = []
  drop (suc n) (x ∷ xs) = drop n xs

  abbrev pub replicate : ℕ → A → List A
  replicate zero a = []
  replicate (suc n) a = a ∷ replicate n a

module _ {ℓ} {A : Type ℓ} where
  pub length-append : (xs ys : List A) → length (xs ++ ys) ≡ length xs + length ys
  length-append [] ys = omega arith
  length-append (x ∷ xs) ys = omega (arith, length-append xs ys)

  pub length-set : (xs : List A) (i : ℕ) (v : A) → length (set xs i v) ≡ length xs
  length-set [] i v = refl
  length-set (x ∷ xs) zero v = refl
  length-set (x ∷ xs) (suc i) v = ap suc (length-set xs i v)

  pub length-replicate : (n : ℕ) (a : A) → length (replicate n a) ≡ n
  length-replicate zero a = refl
  length-replicate (suc n) a = ap suc (length-replicate n a)

  pub length-take : (n : ℕ) (xs : List A) → length (take n xs) ≡ min n (length xs)
  length-take zero xs = omega arith
  length-take (suc n) [] = omega arith
  length-take (suc n) (x ∷ xs) = omega (arith, length-take n xs)

  pub length-drop : (n : ℕ) (xs : List A) → length (drop n xs) ≡ length xs - n
  length-drop zero xs = omega arith
  length-drop (suc n) [] = omega arith
  length-drop (suc n) (x ∷ xs) = omega (arith, length-drop n xs)

  pub get_elem?-eq-get_or :
      (xs : List A) (i : ℕ) (d : A) → i < length xs → get_elem? xs i ≡ some (get_or xs i d)
  get_elem?-eq-get_or [] i d h = absurd (omega arith)
  get_elem?-eq-get_or (x ∷ xs) zero d h = refl
  get_elem?-eq-get_or (x ∷ xs) (suc i) d h = get_elem?-eq-get_or xs i d (omega arith)

  pub get_or_outside : (xs : List A) (i : ℕ) (d : A) → length xs ≤ i → get_or xs i d ≡ d
  get_or_outside [] i d h = refl
  get_or_outside (x ∷ xs) zero d h = absurd (omega arith)
  get_or_outside (x ∷ xs) (suc i) d h = get_or_outside xs i d (omega arith)

  pub get_or-set_self :
      (xs : List A) (i : ℕ) (v d : A) → i < length xs → get_or (set xs i v) i d ≡ v
  get_or-set_self [] i v d h = absurd (omega arith)
  get_or-set_self (x ∷ xs) zero v d h = refl
  get_or-set_self (x ∷ xs) (suc i) v d h = get_or-set_self xs i v d (omega arith)

  pub get_or-set_ne :
      (xs : List A) (i j : ℕ) (v d : A) → i ≢ j → get_or (set xs i v) j d ≡ get_or xs j d
  get_or-set_ne [] i j v d h = refl
  get_or-set_ne (x ∷ xs) zero zero v d h = absurd (h refl)
  get_or-set_ne (x ∷ xs) zero (suc j) v d h = refl
  get_or-set_ne (x ∷ xs) (suc i) zero v d h = refl
  get_or-set_ne (x ∷ xs) (suc i) (suc j) v d h = get_or-set_ne xs i j v d (λ e. h (ap suc e))

  pub get_or-replicate : (n i : ℕ) (a : A) → get_or (replicate n a) i a ≡ a
  get_or-replicate zero i a = refl
  get_or-replicate (suc n) zero a = refl
  get_or-replicate (suc n) (suc i) a = get_or-replicate n i a

  pub take-append_length : (xs ys : List A) → take (length xs) (xs ++ ys) ≡ xs
  take-append_length [] ys = refl
  take-append_length (x ∷ xs) ys = ap (λ l. x ∷ l) (take-append_length xs ys)

  pub drop-append_length : (xs ys : List A) → drop (length xs) (xs ++ ys) ≡ ys
  drop-append_length [] ys = refl
  drop-append_length (x ∷ xs) ys = drop-append_length xs ys

  pub take-append-drop : (n : ℕ) (xs : List A) → take n xs ++ drop n xs ≡ xs
  take-append-drop zero xs = refl
  take-append-drop (suc n) [] = refl
  take-append-drop (suc n) (x ∷ xs) = ap (λ l. x ∷ l) (take-append-drop n xs)

  pub take-nil : (n : ℕ) → take {A = A} n [] ≡ []
  take-nil zero = refl
  take-nil (suc n) = refl

  pub drop-nil : (n : ℕ) → drop {A = A} n [] ≡ []
  drop-nil zero = refl
  drop-nil (suc n) = refl

  pub drop-add : (n m : ℕ) (xs : List A) → drop (n + m) xs ≡ drop m (drop n xs)
  drop-add zero m xs = let e : 0 + m ≡ m = omega arith in rw e
  drop-add (suc n) m [] = drop-nil (suc n + m) ∙ sym (drop-nil m)
  drop-add (suc n) m (x ∷ xs) =
      let e : suc n + m ≡ suc (n + m) = omega arith in rw e (drop-add n m xs)

  pub take-add : (n m : ℕ) (xs : List A) → take (n + m) xs ≡ take n xs ++ take m (drop n xs)
  take-add zero m xs = let e : 0 + m ≡ m = omega arith in rw e
  take-add (suc n) m [] = let e : suc n + m ≡ suc (n + m) = omega arith in rw (e, take-nil m)
  take-add (suc n) m (x ∷ xs) =
      let e : suc n + m ≡ suc (n + m) = omega arith in rw e (ap (λ l. x ∷ l) (take-add n m xs))

  -- Two parts, one behind the other.
  pub take-drop_joined :
      (xs : List A) (p q k m n : ℕ)
      → q ≡ p + k
      → n ≡ k + m
      → take k (drop p xs) ++ take m (drop q xs) ≡ take n (drop p xs)
  take-drop_joined xs p q k m n hq hn =
      rw (hq, hn, drop-add p k xs) (sym (take-add k m (drop p xs)))

  take_of_take : (l n : ℕ) (xs : List A) → l ≤ n → take l (take n xs) ≡ take l xs
  take_of_take zero n xs h = refl
  take_of_take (suc l) zero xs h = absurd (omega (arith, h))
  take_of_take (suc l) (suc n) [] h = refl
  take_of_take (suc l) (suc n) (x ∷ xs) h = ap (λ t. x ∷ t) (take_of_take l n xs (omega (arith, h)))

  drop_of_take :
      (l i n : ℕ) (xs : List A) → i + l ≤ n → take l (drop i (take n xs)) ≡ take l (drop i xs)
  drop_of_take l zero n xs h = take_of_take l n xs (omega (arith, h))
  drop_of_take l (suc i) zero xs h = absurd (omega (arith, h))
  drop_of_take l (suc i) (suc n) [] h = refl
  drop_of_take l (suc i) (suc n) (x ∷ xs) h = drop_of_take l i n xs (omega (arith, h))

  -- A part of a part.
  pub take-drop-take :
      (xs : List A) (start size i l : ℕ)
      → i + l ≤ size
      → take l (drop i (take size (drop start xs))) ≡ take l (drop (start + i) xs)
  take-drop-take xs start size i l h =
      drop_of_take l i size (drop start xs) h ∙ ap (take l) (sym (drop-add start i xs))

  -- A part of no bytes may start anywhere.
  pub take_moved :
      (xs : List A) (p q m : ℕ) → (m ≡ 0) ⊎ (q ≡ p) → take m (drop q xs) ≡ take m (drop p xs)
  take_moved xs p q m (inl e) = rw e refl
  take_moved xs p q m (inr e) = rw e refl

  pub take-length_all : (xs : List A) → take (length xs) xs ≡ xs
  take-length_all [] = refl
  take-length_all (x ∷ xs) = ap (λ l. x ∷ l) (take-length_all xs)

  pub take_all : (n : ℕ) (xs : List A) → length xs ≤ n → take n xs ≡ xs
  take_all n [] h = take-nil n
  take_all zero (x ∷ xs) h = absurd (omega (arith, h))
  take_all (suc n) (x ∷ xs) h = ap (λ l. x ∷ l) (take_all n xs (omega (arith, h)))

  pub append_assoc : (xs ys zs : List A) → (xs ++ ys) ++ zs ≡ xs ++ (ys ++ zs)
  append_assoc [] ys zs = refl
  append_assoc (x ∷ xs) ys zs = ap (λ l. x ∷ l) (append_assoc xs ys zs)

  pub append-nil : (xs : List A) → xs ++ [] ≡ xs
  append-nil [] = refl
  append-nil (x ∷ xs) = ap (λ l. x ∷ l) (append-nil xs)

  -- What a read after a write gives.
  pub get_elem?-set :
      (xs : List A) (i k : ℕ) (v : A) {y : A}
      → get_elem? (set xs i v) k ≡ some y
      → ((k ≡ i) × (y ≡ v)) ⊎ ((k ≢ i) × (get_elem? xs k ≡ some y))
  get_elem?-set [] i k v e = cc
  get_elem?-set (x ∷ xs) zero zero v e = inl (refl, cc)
  get_elem?-set (x ∷ xs) zero (suc k) v e = inr (λ q. omega arith, e)
  get_elem?-set (x ∷ xs) (suc i) zero v e = inr (λ q. omega arith, e)
  get_elem?-set (x ∷ xs) (suc i) (suc k) v e = elim (get_elem?-set xs i k v e) [
    | inl same ↦ inl (ap suc same.0, same.1)
    | inr other ↦ inr (λ q. other.0 (omega arith), other.1)
  ]

  pub get_elem?-set_self :
      (xs : List A) (i : ℕ) (v : A) {x : A}
      → get_elem? xs i ≡ some x
      → get_elem? (set xs i v) i ≡ some v
  get_elem?-set_self [] i v e = cc
  get_elem?-set_self (x ∷ xs) zero v e = refl
  get_elem?-set_self (x ∷ xs) (suc i) v e = get_elem?-set_self xs i v e

  pub get_elem?-set_ne :
      (xs : List A) (i k : ℕ) (v : A) → i ≢ k → get_elem? (set xs i v) k ≡ get_elem? xs k
  get_elem?-set_ne [] i k v h = refl
  get_elem?-set_ne (x ∷ xs) zero zero v h = absurd (h refl)
  get_elem?-set_ne (x ∷ xs) zero (suc k) v h = refl
  get_elem?-set_ne (x ∷ xs) (suc i) zero v h = refl
  get_elem?-set_ne (x ∷ xs) (suc i) (suc k) v h = get_elem?-set_ne xs i k v (λ e. h (ap suc e))

  -- An index names an element just where it is in bounds.
  pub get_elem?-lt : (xs : List A) (k : ℕ) {x : A} → get_elem? xs k ≡ some x → k < length xs
  get_elem?-lt [] k e = cc
  get_elem?-lt (x ∷ xs) zero e = omega arith
  get_elem?-lt (x ∷ xs) (suc k) e = omega (arith, get_elem?-lt xs k e)

  pub get_elem?-some : (xs : List A) (k : ℕ) → k < length xs → (x : A) × (get_elem? xs k ≡ some x)
  get_elem?-some [] k h = absurd (omega arith)
  get_elem?-some (x ∷ xs) zero h = (x, refl)
  get_elem?-some (x ∷ xs) (suc k) h = get_elem?-some xs k (omega arith)

  -- Lists with the same elements at the same places are one list.
  pub list-ext :
      (xs ys : List A)
      → length xs ≡ length ys
      → ((k : ℕ) (x y : A) → get_elem? xs k ≡ some x → get_elem? ys k ≡ some y → x ≡ y)
      → xs ≡ ys
  list-ext [] [] h e = refl
  list-ext [] (y ∷ ys) h e = absurd (omega arith)
  list-ext (x ∷ xs) [] h e = absurd (omega arith)
  list-ext (x ∷ xs) (y ∷ ys) h e =
      ap₂ (λ a l. a ∷ l) (e 0 x y refl refl) (list-ext xs ys (omega arith) (λ k. e (suc k)))

module _ {ℓ} {A : Type ℓ} where
  -- A family with one value changed.
  abbrev pub update : (ℕ → A) → ℕ → A → ℕ → A
  update f i a j = ite (ℕ_discrete i j) a (f j)
