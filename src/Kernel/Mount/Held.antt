-- ===== src/Kernel/Mount/Held.antt =====
-- What mounting in src/linux/super.c holds, and what it gives back.
use smashfs.Base.{
  ℕ, ◌+◌, ◌≡◌, ◌∙◌, inl, inr, refl, arith, Bool, true, false, List, Option, none, some,
  Option-cases, Result, ok, fail, fault, Bool-cases, update, if◌then◌else◌,
}
use smashfs.Format.{SuperBlock}
use smashfs.Kernel.{SuperInfo}
use smashfs.Kernel.Device.{Device}
use smashfs.Kernel.Mount.{
  Pointers, the_info, the_super, the_inodes, the_blocks, the_buffer, has, set_pointer, all_null,
  Machine, System, free, free_info, free_all, destroy_blockcache, read_super, read_inodes,
  read_blocks, read_root, fill_info, not_mounted, settle, fill_super, put_super,
}
use smashfs.Kernel.Mount.Gives.{
  count, IsCounted, HasHeld, Gives, bind-Gives, pure-Gives, need-Gives, call-Gives, given-Gives,
  trusted-Gives, allocate-Gives, release-Gives, init_blockcache-Gives, free_lem,
}

-- A mount with `sbi`, with the super block, with the tables and with the buffer as well.
abbrev p1 : Pointers
p1 = record { info = true; super = false; inodes = false; blocks = false; buffer = false }

abbrev p2 : Pointers
p2 = record { info = true; super = true; inodes = false; blocks = false; buffer = false }

abbrev p3 : Pointers
p3 = record { info = true; super = true; inodes = true; blocks = false; buffer = false }

abbrev p4 : Pointers
p4 = record { info = true; super = true; inodes = true; blocks = true; buffer = false }

abbrev p5 : Pointers
p5 = record { info = true; super = true; inodes = true; blocks = true; buffer = true }

module _ (sys : System) (dev : Device) where
  read_super-Gives : (base : ℕ) (a : Pointers) → Gives base a a (read_super sys dev)
  unfolding read_super
  read_super-Gives base a = bind-Gives base a a a _ _ (call-Gives base a _) (λ read_it.
      bind-Gives base a a a _ _ (need-Gives base a _) (λ whole.
        bind-Gives base a a a _ _ (trusted-Gives base a _) (λ super.
          bind-Gives base a a a _ _ (need-Gives base a _) (λ ours. pure-Gives base a super))))

  read_inodes-Gives :
      (base : ℕ) (uncompress : List ℕ → ℕ → Option (List ℕ)) (super : SuperBlock)
      → Gives base p4 p4 (read_inodes sys dev uncompress super)
  unfolding read_inodes set_pointer has
  read_inodes-Gives base uncompress super =
      bind-Gives base p4 p5 p4 _ _ (allocate-Gives base p4 the_buffer _ refl refl) (λ room.
        bind-Gives base p5 p5 p4 _ _ (call-Gives base p5 _) (λ offset.
          bind-Gives base p5 p5 p4 _ _ (call-Gives base p5 _) (λ size.
            bind-Gives base p5 p5 p4 _ _ (call-Gives base p5 _) (λ read_it.
              bind-Gives base p5 p5 p4 _ _ (need-Gives base p5 _) (λ whole.
                bind-Gives base p5 p5 p4 _ _ (given-Gives base p5 _) (λ table.
                  bind-Gives base p5 p5 p4 _ _ (need-Gives base p5 _) (λ long.
                    bind-Gives base p5 p4 p4 _ _ (release-Gives base p5)
                      (λ done. pure-Gives base p4 table))))))))

  read_blocks-Gives :
      (base : ℕ) (a : Pointers) (super : SuperBlock) → Gives base a a (read_blocks sys dev super)
  unfolding read_blocks
  read_blocks-Gives base a super = bind-Gives base a a a _ _ (call-Gives base a _) (λ offset.
      bind-Gives base a a a _ _ (call-Gives base a _) (λ size.
        bind-Gives base a a a _ _ (call-Gives base a _) (λ read_it.
          bind-Gives base a a a _ _ (need-Gives base a _) (λ whole. pure-Gives base a _))))

  read_root-Gives :
      (base : ℕ) (a : Pointers) (sbi : SuperInfo) → Gives base a a (read_root sys dev sbi)
  unfolding read_root
  read_root-Gives base a sbi =
      bind-Gives base a a a _ _ (trusted-Gives base a _)
        (λ made. bind-Gives base a a a _ _ (call-Gives base a _) (λ root. trusted-Gives base a _))

  fill_info-Gives : (base : ℕ) → Gives base all_null p4 (fill_info sys dev)
  unfolding fill_info set_pointer has
  fill_info-Gives base =
      bind-Gives base all_null p1 p4 _ _ (allocate-Gives base all_null the_info _ refl refl)
        (λ info.
          bind-Gives base p1 p2 p4 _ _ (allocate-Gives base p1 the_super _ refl refl) (λ block.
            bind-Gives base p2 p2 p4 _ _ (read_super-Gives base p2) (λ super.
              bind-Gives base p2 p2 p4 _ _ (init_blockcache-Gives base p2 _) (λ cache.
                bind-Gives base p2 p2 p4 _ _ (given-Gives base p2 _) (λ uncompress.
                  bind-Gives base p2 p3 p4 _ _ (allocate-Gives base p2 the_inodes _ refl refl)
                    (λ room1.
                      bind-Gives base p3 p4 p4 _ _ (allocate-Gives base p3 the_blocks _ refl refl)
                        (λ room2.
                          bind-Gives base p4 p4 p4 _ _ (read_inodes-Gives base uncompress super)
                            (λ inodes.
                              bind-Gives base p4 p4 p4 _ _ (read_blocks-Gives base p4 super)
                                (λ blocks.
                                  bind-Gives base p4 p4 p4 _ _ (read_root-Gives base p4 _)
                                    (λ root. pure-Gives base p4 _))))))))))

destroy_blockcache-memory :
    (m : Machine) {m' : Machine} → destroy_blockcache m ≡ ok m' → m'.memory ≡ m.memory
unfolding destroy_blockcache
destroy_blockcache-memory m {m'} run = elim (Option-cases m.cachep) [
  | inl nothing ↦
      (let run' = rw (destroy_blockcache, nothing) at run in let q : m ≡ m' = cc in rw (← q) refl)
  | inr (c, named) ↦ elim (Bool-cases (m.caches c)) [
    | inl there ↦
        (let run' = rw (destroy_blockcache, named, there) at run in
          let q : record m { caches = update m.caches c false } ≡ m' = cc in rw (← q) refl)
    | inr gone ↦ (let run' = rw (destroy_blockcache, named, gone) at run in cc)
  ]
]

-- The end of a mount that fails.
given_back :
    (r : Result Machine) {m' : Machine} {o : Option SuperInfo}
    → not_mounted r ≡ ok (m', o)
    → (r ≡ ok m') × (o ≡ none)
unfolding not_mounted
given_back (ok m1) e = (cc, cc)
given_back fail e = cc
given_back fault e = cc

free_info_there :
    (m : Machine)
    → has the_info m.held ≡ true
    → free_info m ≡ free the_info (free the_inodes (free the_blocks m))
unfolding free_info
free_info_there m e = rw e refl

free_info_gone : (m : Machine) → has the_info m.held ≡ false → free_info m ≡ m
unfolding free_info
free_info_gone m e = rw e refl

-- Behind `bail`, nothing is left behind the pointers but what hangs on no `sbi`.
free_info_lem :
    (base : ℕ) (m : Machine)
    → IsCounted base m
    → ((free_info m).memory ≡ base + count (free_info m).held)
      × ((free_info m).held.info ≡ false)
      × ((free_info m).held.inodes ≡ false)
      × ((free_info m).held.blocks ≡ false)
unfolding has set_pointer
free_info_lem base m counted = elim (Bool-cases m.held.info) [
  | inl there ↦
      (let (k1, h1) = free_lem base the_blocks m counted.0 in
        let (k2, h2) = free_lem base the_inodes (free the_blocks m) k1 in
        let (k3, h3) = free_lem base the_info (free the_inodes (free the_blocks m)) k2 in
        rw (free_info_there m there) (k3, rw h3 refl, rw (h3, h2) refl, rw (h3, h2, h1) refl))
  | inr null ↦
      (let ordered = rw null at counted.1 in
        rw (free_info_gone m null) (
          counted.0,
          null,
          untied m.held.inodes m.held.blocks ordered,
          untied_too m.held.inodes m.held.blocks ordered,
        ))
]
  where
    untied : (i b : Bool) → (if i then false else if b then false else true) ≡ true → i ≡ false
    untied false b e = refl
    untied true b e = cc

    untied_too : (i b : Bool) → (if i then false else if b then false else true) ≡ true → b ≡ false
    untied_too false false e = refl
    untied_too false true e = cc
    untied_too true b e = cc

free_all_lem : (base : ℕ) (m : Machine) → IsCounted base m → (free_all m).memory ≡ base
unfolding free_all set_pointer
free_all_lem base m counted =
    let (k, i, t, b) = free_info_lem base m counted in
    let (k1, h1) = free_lem base the_buffer (free_info m) k in
    let (k2, h2) = free_lem base the_super (free the_buffer (free_info m)) k1 in
    k2 ∙ (rw (h2, h1, i, t, b) (omega arith))

-- What is given back behind `bail`, and what a mount that succeeds holds.
settle_lem :
    (base : ℕ) (r : Result (Machine × Option SuperInfo)) (m' : Machine) (o : Option SuperInfo)
    → ((m1 : Machine) (o1 : Option SuperInfo)
        → r ≡ ok (m1, o1)
        → IsCounted base m1 × HasHeld o1 p4 m1)
    → settle r ≡ ok (m', o)
    → (o ≡ none → m'.memory ≡ base)
      × ((sbi : SuperInfo) → o ≡ some sbi → (m'.memory ≡ base + count m'.held) × (m'.held ≡ p4))
unfolding settle set_pointer
settle_lem base fail m' o held run = cc
settle_lem base fault m' o held run = cc
settle_lem base (ok (m1, some sbi1)) m' o held run =
    let (counted, four) = held m1 (some sbi1) refl in
    let same : free the_buffer m1 ≡ m' = cc in
    let (k, h) = free_lem base the_buffer m1 counted.0 in
    let now : (free the_buffer m1).held ≡ p4 = rw (h, four) refl in
    (λ nothing. cc, λ sbi e. rw (← same) (k, now))
settle_lem base (ok (m1, none)) m' o held run =
    let (counted, nothing) = held m1 none refl in
    let (back, empty) = given_back (destroy_blockcache (free_all m1)) run in
    (λ e. destroy_blockcache-memory (free_all m1) back ∙ free_all_lem base m1 counted, λ sbi e. cc)

-- What a mount keeps: `sbi`, the super block and the two tables.
pub kept : Option SuperInfo → ℕ
kept none = 0
kept (some sbi) = 4

put_super_lem :
    (base : ℕ) (sbi : SuperInfo) (m m' : Machine)
    → m.memory ≡ base + count m.held
    → m.held ≡ p4
    → put_super m (some sbi) ≡ ok m'
    → m'.memory ≡ base
unfolding put_super set_pointer
put_super_lem base sbi m m' counted here left =
    let (k1, h1) = free_lem base the_inodes m counted in
    let (k2, h2) = free_lem base the_blocks (free the_inodes m) k1 in
    let (k3, h3) = free_lem base the_super (free the_blocks (free the_inodes m)) k2 in
    let (k4, h4) =
      free_lem base the_info (free the_super (free the_blocks (free the_inodes m))) k3 in
    destroy_blockcache-memory (free the_info (free the_super (free the_blocks (free the_inodes m))))
      left
    ∙ k4
    ∙ (rw (h4, h3, h2, h1, here) (omega arith))

module _ (sys : System) (dev : Device) where
  outcome :
      (m m' : Machine) (o : Option SuperInfo)
      → fill_super sys dev m ≡ ok (m', o)
      → (o ≡ none → m'.memory ≡ m.memory)
        × ((sbi : SuperInfo)
            → o ≡ some sbi
            → (m'.memory ≡ m.memory + count m'.held) × (m'.held ≡ p4))
  unfolding fill_super
  outcome m m' o run =
      let m0 : Machine = record m { held = all_null } in
      settle_lem m.memory (fill_info sys dev m0) m' o
        (λ m1 o1 e. fill_info-Gives sys dev m.memory m0 m1 o1 (omega arith, refl) refl e) run

  -- Of `sbi`, the super block, the two tables and the buffer of the block cache, a mount that
  -- returns an error has given back all that it took, wherever it failed; one that succeeds keeps
  -- all but the buffer, and `smashfs_put_super` behind it leaves as many allocated as there were
  -- before.
  pub fill_super-held :
      (m m' m'' : Machine) (o : Option SuperInfo)
      → fill_super sys dev m ≡ ok (m', o)
      → put_super m' o ≡ ok m''
      → (m'.memory ≡ m.memory + kept o) × (m''.memory ≡ m.memory)
  unfolding fill_super kept put_super
  fill_super-held m m' m'' none run left =
      let (failed, mounted) = outcome m m' none run in
      let same : m' ≡ m'' = cc in (omega (arith, failed refl), rw (← same) (failed refl))
  fill_super-held m m' m'' (some sbi) run left =
      let (failed, mounted) = outcome m m' (some sbi) run in
      let (counted, here) = mounted sbi refl in
      let four : m'.memory ≡ m.memory + 4 = counted ∙ (rw here (omega arith)) in
      (four, put_super_lem m.memory sbi m' m'' counted here left)
