-- ===== src/Kernel/Mount/Gives.antt =====
-- The steps of the mounting in src/linux/super.c, and the objects that a mount holds after them.
use smashfs.Base.{
  ℕ, ◌+◌, ◌≡◌, ◌⊎◌, inl, inr, refl, arith, Bool, true, false, Bool-cases, if◌then◌else◌, Option,
  none, some, Result, ok, fail, fault, update, ap, ◌∙◌,
}
use smashfs.Kernel.Mount.{
  Pointers, Slot, the_info, the_super, the_inodes, the_blocks, the_buffer, has, set_pointer,
  Machine, M, ◌>>=◌, pure, bail, undefined, need, call, given, trusted, allocate, free, release,
  init_blockcache,
}

abbrev one : Bool → ℕ
one true = 1
one false = 0

-- How many objects the pointers hold.
abbrev pub count : Pointers → ℕ
count p = one p.info + one p.super + one p.inodes + one p.blocks + one p.buffer

-- The tables hang on `sbi`.
abbrev pub IsOrdered : Pointers → Type 0
IsOrdered p =
    (if p.info then true else if p.inodes then false else if p.blocks then false else true) ≡ true

-- The memory is that of others and what the mount holds.
abbrev pub IsCounted : ℕ → Machine → Type 0
IsCounted base m = (m.memory ≡ base + count m.held) × IsOrdered m.held

-- What the mount holds after a part, where it gives a value.
abbrev pub HasHeld : {A : Type 0} → Option A → Pointers → Machine → Type 0
HasHeld none b m = Unit
HasHeld (some a) b m = m.held ≡ b

-- A part takes a mount from holding `a` to holding `b`, and counts it in the memory.
abbrev pub Gives : ℕ → Pointers → Pointers → {A : Type 0} → M A → Type 0
Gives base a b p =
    (m m' : Machine) (o : _)
    → IsCounted base m
    → m.held ≡ a
    → p m ≡ ok (m', o)
    → IsCounted base m' × HasHeld o b m'

-- A chain that ends has ended in its first step, or in the rest.
>>=_ends :
    {A B : Type 0} (r : Result (Machine × Option A)) (f : A → M B) (m : Machine) {m' : Machine}
    {o : Option B}
    → ((λ m0. r) >>= f) m ≡ ok (m', o)
    → ((r ≡ ok (m', none)) × (o ≡ none))
      ⊎ ((m1 : Machine) × (a : A) × (r ≡ ok (m1, some a)) × (f a m1 ≡ ok (m', o)))
unfolding ◌>>=◌
>>=_ends fail f m e = cc
>>=_ends fault f m e = cc
>>=_ends (ok (m1, none)) f m e = inl (cc, cc)
>>=_ends (ok (m1, some a)) f m e = inr (m1, a, refl, e)

pub bind-Gives :
    {A B : Type 0} (base : ℕ) (a b c : Pointers) (p : M A) (f : A → M B)
    → Gives base a b p
    → ((x : A) → Gives base b c (f x))
    → Gives base a c (p >>= f)
unfolding ◌>>=◌
bind-Gives base a b c p f hp hf m m' o counted here run = elim (>>=_ends (p m) f m run) [
  | inl (left, nothing) ↦ (let (k, h) = hp m m' none counted here left in rw nothing (k, tt))
  | inr (m1, x, step, rest) ↦
      (let (k, h) = hp m m1 (some x) counted here step in hf x m1 m' o k h rest)
]

pub pure-Gives : {A : Type 0} (base : ℕ) (a : Pointers) (x : A) → Gives base a a (pure x)
unfolding pure
pure-Gives base a x m m' o counted here run =
    let q : m ≡ m' = cc in let e : o ≡ some x = cc in rw (e, ← q) (counted, here)

pub bail-Gives : {A : Type 0} (base : ℕ) (a b : Pointers) → Gives base a b (bail {A = A})
unfolding bail
bail-Gives base a b m m' o counted here run =
    let q : m ≡ m' = cc in let e : o ≡ none = cc in rw (e, ← q) (counted, tt)

pub undefined-Gives : {A : Type 0} (base : ℕ) (a b : Pointers) → Gives base a b (undefined {A = A})
unfolding undefined
undefined-Gives base a b m m' o counted here run = cc

pub need-Gives : (base : ℕ) (a : Pointers) (test : Bool) → Gives base a a (need test)
unfolding need
need-Gives base a true = pure-Gives base a tt
need-Gives base a false = bail-Gives base a a

pub call-Gives : {A : Type 0} (base : ℕ) (a : Pointers) (r : Result A) → Gives base a a (call r)
unfolding call
call-Gives base a (ok x) = pure-Gives base a x
call-Gives base a fail = bail-Gives base a a
call-Gives base a fault = undefined-Gives base a a

pub given-Gives : {A : Type 0} (base : ℕ) (a : Pointers) (x : Option A) → Gives base a a (given x)
unfolding given
given-Gives base a (some x) = pure-Gives base a x
given-Gives base a none = bail-Gives base a a

pub trusted-Gives :
    {A : Type 0} (base : ℕ) (a : Pointers) (x : Option A) → Gives base a a (trusted x)
unfolding trusted
trusted-Gives base a (some x) = pure-Gives base a x
trusted-Gives base a none = undefined-Gives base a a

count-set_pointer :
    (slot : Slot) (p : Pointers)
    → ((has slot p ≡ false) → count (set_pointer slot true p) ≡ count p + 1)
      × ((has slot p ≡ true) → count p ≡ count (set_pointer slot false p) + 1)
unfolding has set_pointer
count-set_pointer the_info p = (λ e. rw e (omega arith), λ e. rw e (omega arith))
count-set_pointer the_super p = (λ e. rw e (omega arith), λ e. rw e (omega arith))
count-set_pointer the_inodes p = (λ e. rw e (omega arith), λ e. rw e (omega arith))
count-set_pointer the_blocks p = (λ e. rw e (omega arith), λ e. rw e (omega arith))
count-set_pointer the_buffer p = (λ e. rw e (omega arith), λ e. rw e (omega arith))

set_pointer_same :
    (slot : Slot) (p : Pointers) (b : Bool) → has slot p ≡ b → p ≡ set_pointer slot b p
unfolding has set_pointer
set_pointer_same the_info p b e = rw (← e) refl
set_pointer_same the_super p b e = rw (← e) refl
set_pointer_same the_inodes p b e = rw (← e) refl
set_pointer_same the_blocks p b e = rw (← e) refl
set_pointer_same the_buffer p b e = rw (← e) refl

-- What is behind a pointer is given back, and no more.
pub free_lem :
    (base : ℕ) (slot : Slot) (m : Machine)
    → m.memory ≡ base + count m.held
    → ((free slot m).memory ≡ base + count (free slot m).held)
      × ((free slot m).held ≡ set_pointer slot false m.held)
unfolding free
free_lem base slot m counted = elim (Bool-cases (has slot m.held)) [
  | inl there ↦
      (let less = (count-set_pointer slot m.held).1 there in
        rw there (omega (arith, counted, less), refl))
  | inr null ↦ (rw null (counted, set_pointer_same slot m.held false null))
]

pub allocate-Gives :
    (base : ℕ) (a : Pointers) (slot : Slot) (test : Bool)
    → has slot a ≡ false
    → IsOrdered (set_pointer slot true a)
    → Gives base a (set_pointer slot true a) (allocate slot test)
unfolding allocate bail
allocate-Gives base a slot true null ordered m m' o counted here run =
    let q : record m { memory = m.memory + 1; held = set_pointer slot true m.held } ≡ m' = cc in
    let e : o ≡ some tt = cc in
    let more = (count-set_pointer slot m.held).0 (rw here null) in
    rw (e, ← q) ((omega (arith, counted.0, more), rw here ordered), ap (set_pointer slot true) here)
allocate-Gives base a slot false null ordered m m' o counted here run =
    bail-Gives base a (set_pointer slot true a) m m' o counted here run

pub release-Gives :
    (base : ℕ) (a : Pointers) → Gives base a (set_pointer the_buffer false a) release
unfolding release set_pointer
release-Gives base a m m' o counted here run =
    let (k, h) = free_lem base the_buffer m counted.0 in
    let q : free the_buffer m ≡ m' = cc in
    let e : o ≡ some tt = cc in
    let now : m'.held ≡ set_pointer the_buffer false a =
      rw (← q) (h ∙ ap (set_pointer the_buffer false) here) in
    rw e ((rw q at k, rw (← q, h) counted.1), now)

pub init_blockcache-Gives :
    (base : ℕ) (a : Pointers) (created : Bool) → Gives base a a (init_blockcache created)
unfolding init_blockcache
init_blockcache-Gives base a true m m' o counted here run =
    let q : record m {
      cachep = some m.fresh;
      caches = update m.caches m.fresh true;
      fresh = m.fresh + 1;
    }
        ≡ m' =
      cc in
    let e : o ≡ some tt = cc in rw (e, ← q) (counted, here)
init_blockcache-Gives base a false m m' o counted here run =
    let q : record m { cachep = none } ≡ m' = cc in
    let e : o ≡ none = cc in rw (e, ← q) (counted, tt)
