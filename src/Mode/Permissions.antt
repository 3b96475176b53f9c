-- ===== src/Mode/Permissions.antt =====
-- The permission bits that the three modes of a node stand for.
use Prim.Native.Nat.{bit_and}
use smashfs.Base.{
  ℕ, ◌+◌, ◌*◌, ◌≡◌, refl, Bool, true, false, ◌==◌, ==_iff, ◌&&◌, bit_or, if◌then◌else◌,
}
use smashfs.Mode.{join}

-- An octal digit of three permissions, each given by whether it is missing.
abbrev digit : Bool → Bool → Bool → ℕ
digit r w x = (if r then 0 else 4) + (if w then 0 else 2) + (if x then 0 else 1)

-- The octal digit of a mode: reading is its bit 1, writing its bit 2 and executing its bit 4.
abbrev pub rwx : ℕ → ℕ
rwx mode = digit (bit_and mode 1 == 0) (bit_and mode 2 == 0) (bit_and mode 4 == 0)

-- The three digits.
abbrev pub permissions : ℕ → ℕ → ℕ → ℕ
permissions owner group other = rwx owner * 64 + rwx group * 8 + rwx other

abbrev set_unless : Bool → ℕ → ℕ → ℕ
set_unless missing flag mode = if missing then mode else bit_or mode flag

abbrev joined : Bool → Bool → Bool → Bool → Bool → Bool → Bool → Bool → Bool → ℕ
joined a b c d e f g h i = set_unless i 1 (
    set_unless h 2 (
      set_unless g 4 (
        set_unless f 8 (
          set_unless e 16
            (set_unless d 32 (set_unless c 64 (set_unless b 128 (set_unless a 256 0))))))))

abbrev every : (Bool → Bool) → Bool
every f = f true && f false

every_lem : (f : Bool → Bool) → every f ≡ true → (b : Bool) → f b ≡ true
every_lem f all true = &&_left (f true) (f false) all
  where
    &&_left : (a b : Bool) → (a && b) ≡ true → a ≡ true
    &&_left true b h = refl
    &&_left false b h = h
every_lem f all false = &&_right (f true) (f false) all
  where
    &&_right : (a b : Bool) → (a && b) ≡ true → b ≡ true
    &&_right true b h = h
    &&_right false b h = cc

abbrev agrees : Bool → Bool → Bool → Bool → Bool → Bool → Bool → Bool → Bool → Bool
agrees a b c d e f g h i =
    joined a b c d e f g h i == digit a b c * 64 + digit d e f * 8 + digit g h i

agrees_table :
    every (λ a. every (λ b. every (λ c. every (λ d.
      every (λ e. every (λ f. every (λ g. every (λ h. every (λ i. agrees a b c d e f g h i)))))))))
    ≡ true
agrees_table = refl

agrees_lem : (a b c d e f g h i : Bool) → agrees a b c d e f g h i ≡ true
agrees_lem a b c d e f g h i =
    let t1 =
      every_lem
        (λ a. every (λ b. every (λ c. every (λ d.
          every
            (λ e. every (λ f. every (λ g. every (λ h. every (λ i. agrees a b c d e f g h i)))))))))
        agrees_table a in
    let t2 =
      every_lem
        (λ b. every (λ c. every (λ d.
          every
            (λ e. every (λ f. every (λ g. every (λ h. every (λ i. agrees a b c d e f g h i))))))))
        t1 b in
    let t3 =
      every_lem
        (λ c. every (λ d.
          every
            (λ e. every (λ f. every (λ g. every (λ h. every (λ i. agrees a b c d e f g h i)))))))
        t2 c in
    let t4 =
      every_lem
        (λ d.
          every (λ e. every (λ f. every (λ g. every (λ h. every (λ i. agrees a b c d e f g h i))))))
        t3 d in
    let t5 =
      every_lem (λ e. every (λ f. every (λ g. every (λ h. every (λ i. agrees a b c d e f g h i)))))
        t4 e in
    let t6 =
      every_lem (λ f. every (λ g. every (λ h. every (λ i. agrees a b c d e f g h i)))) t5 f in
    let t7 = every_lem (λ g. every (λ h. every (λ i. agrees a b c d e f g h i))) t6 g in
    let t8 = every_lem (λ h. every (λ i. agrees a b c d e f g h i)) t7 h in
    every_lem (λ i. agrees a b c d e f g h i) t8 i

-- The nine tests of the readers add up to the three digits.
pub join-permissions :
    (owner group other : ℕ) → join owner group other 0 ≡ permissions owner group other
unfolding join
join-permissions owner group other =
    (==_iff (join owner group other 0) (permissions owner group other)).0 (
      agrees_lem (bit_and owner 1 == 0) (bit_and owner 2 == 0) (bit_and owner 4 == 0)
        (bit_and group 1 == 0) (bit_and group 2 == 0) (bit_and group 4 == 0) (bit_and other 1 == 0)
        (bit_and other 2 == 0) (bit_and other 4 == 0))
