-- ===== src/Base/Fallible.antt =====
-- What a C function comes back with: a value, a reported error, or undefined behaviour.
use mathlib.Core.Path.{◌≡◌, refl}
use mathlib.Core.Bool.{Bool, true, false}
use mathlib.Core.Option.{Option, none, some}

-- `fail` is the code's own error return; `fault` stands for what C leaves undefined, such as an
-- access out of bounds, an oversized shift or a signed overflow.
pub data Result {ℓ} (A : Type ℓ) : Type ℓ where
  ok : A → Result A
  fail fault : Result A

infixl 5 ◌>>=◌ ◌>>◌
abbrev pub ◌>>=◌ {ℓ κ} : {A : Type ℓ} {B : Type κ} → Result A → (A → Result B) → Result B
ok a >>= f = f a
fail >>= f = fail
fault >>= f = fault

abbrev pub ◌>>◌ {ℓ} : {B : Type ℓ} → Result (Unit {0}) → Result B → Result B
m >> k = m >>= λ _. k

-- `require` reports an error when its test fails, `defined` leaves the defined behaviours.
abbrev pub require : Bool → Result (Unit {0})
require true = ok tt
require false = fail

abbrev pub defined : Bool → Result (Unit {0})
defined true = ok tt
defined false = fault

-- A read that must be in bounds.
abbrev pub load {ℓ} : {A : Type ℓ} → Option A → Result A
load (some a) = ok a
load none = fault

-- A call whose error the caller handles: an error is a value, undefined behaviour is not.
abbrev pub attempt {ℓ} : {A : Type ℓ} → Result A → Result (Option A)
attempt (ok a) = ok (some a)
attempt fail = ok none
attempt fault = fault

-- A chain that returns has a first step that returns.
pub >>=_returns {ℓ κ} :
    {A : Type ℓ} {B : Type κ} {b : B} (k : A → Result B) (step : Result A)
    → ok b ≡ (step >>= k)
    → (a : A) × (ok a ≡ step) × (ok b ≡ k a)
>>=_returns k fault e = cc
>>=_returns k fail e = cc
>>=_returns k (ok a) e = (a, refl, e)

pub >>=_assoc {ℓ κ μ} :
    {A : Type ℓ} {B : Type κ} {C : Type μ} (m : Result A) (f : A → Result B) (g : B → Result C)
    → ((m >>= f) >>= g) ≡ (m >>= λ a. f a >>= g)
>>=_assoc (ok a) f g = refl
>>=_assoc fail f g = refl
>>=_assoc fault f g = refl

-- A test that a chain has passed.
pub require_passes {ℓ} :
    {B : Type ℓ} {r : B} (test : Bool) (k : Result B)
    → ok r ≡ (require test >> k)
    → (test ≡ true) × (ok r ≡ k)
require_passes true k e = (refl, e)
require_passes false k e = cc

pub defined_passes {ℓ} :
    {B : Type ℓ} {r : B} (test : Bool) (k : Result B)
    → ok r ≡ (defined test >> k)
    → (test ≡ true) × (ok r ≡ k)
defined_passes true k e = (refl, e)
defined_passes false k e = cc
