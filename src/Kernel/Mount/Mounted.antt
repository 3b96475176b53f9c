-- ===== src/Kernel/Mount/Mounted.antt =====
-- Mounting, in src/linux/super.c, an image that src/mkfs/mkfs.c wrote.
use smashfs.Base.{
  ℕ, ◌+◌, ◌*◌, ◌^◌, ◌<◌, ◌≤◌, ◌≡◌, ◌∙◌, refl, sym, ap, arith, Bool, true, List, length, take, drop,
  take-length_all, ◌==◌, ==_iff, update, int, ltb, lt→ltb, Result,
}
use smashfs.Base.{Option, some, ok}
use smashfs.Format
use smashfs.Format.{SuperBlock, sizeof_super_block}
use smashfs.Kernel.{SuperInfo, Inode, read_inode}
use smashfs.Kernel.Device.{Device, page_cache_size}
use smashfs.Kernel.Device.Reads.{HoldsDisk}
use smashfs.Kernel.Device.Fresh.{read_fresh}
use smashfs.Kernel.Mount.{
  Machine, Slot, the_info, the_super, the_inodes, the_blocks, the_buffer, set_pointer, all_null, M,
  System, ◌>>=◌, pure, need, call, given, trusted, allocate, free, release, init_blockcache,
  read_super, read_inodes, read_blocks, read_root, fill_info, settle, fill_super,
}
use smashfs.Mkfs.Image.Sections.{IsImage}

same : (n : ℕ) → (n == n) ≡ true
same n = (==_iff n n).1 refl

fits_int : (n : ℕ) → n < 2 ^ 31 → int n ≡ ok n
fits_int n small = let e : ltb n (2 ^ 31) ≡ true = lt→ltb n (2 ^ 31) small in rw e refl

-- One step of a chain that goes on.
bind_goes :
    {A B : Type 0} (p : M A) (f : A → M B) (m m1 : Machine) (a : A)
    (r : Result (Machine × Option B))
    → p m ≡ ok (m1, some a)
    → f a m1 ≡ r
    → (p >>= f) m ≡ r
unfolding ◌>>=◌
bind_goes p f m m1 a r e rest = rw (◌>>=◌, e) rest

abbrev more : Slot → Machine → Machine
more slot m = record m { memory = m.memory + 1; held = set_pointer slot true m.held }

allocate_goes :
    (slot : Slot) (test : Bool) (m : Machine)
    → test ≡ true
    → allocate slot test m ≡ ok (more slot m, some tt)
unfolding allocate
allocate_goes slot test m e = rw e refl

given_goes :
    {A : Type 0} (o : Option A) (a : A) (m : Machine) → o ≡ some a → given o m ≡ ok (m, some a)
unfolding given pure
given_goes o a m e = rw e refl

abbrev cached : Machine → Machine
cached m = record m {
  cachep = some m.fresh;
  caches = update m.caches m.fresh true;
  fresh = m.fresh + 1;
}

created_goes :
    (created : Bool) (m : Machine)
    → created ≡ true
    → init_blockcache created m ≡ ok (cached m, some tt)
unfolding init_blockcache
created_goes created m e = rw e refl

module _ (sys : System) (dev : Device) (image : List ℕ) (memory : (n : ℕ) → sys.malloc n ≡ true)
    (holds : HoldsDisk dev image) (compress : List ℕ → ℕ → Option (List ℕ)) (no_padding : Bool)
    (table blocks entries : List ℕ) (written super : SuperBlock)
    (laid : IsImage compress no_padding table blocks entries written super image)
    (short : length image + page_cache_size ≤ 2 ^ 31) where
  read_super_lem :
      (m : Machine)
      → written.magic ≡ Format.magic
      → sizeof_super_block ≤ length image
      → read_super sys dev m ≡ ok (m, some super)
  unfolding read_super ◌>>=◌ call pure need trusted
  read_super_lem m magic long =
      let (bytes, run, part, size) =
        read_fresh sys.malloc dev image sizeof_super_block 0 sizeof_super_block memory holds
          (omega arith) (omega (arith, short, long)) long (omega arith) in
      let ours : (super.magic == Format.magic) ≡ true =
        (==_iff super.magic Format.magic).1 (laid.magic_kept ∙ magic) in
      rw (run, part, laid.super_at, ours) refl

  read_inodes_lem :
      (m : Machine) (uncompress : List ℕ → ℕ → Option (List ℕ))
      → super.inodes_csize ≤ super.block_size
      → ((out : List ℕ)
          → compress table (length table * 2) ≡ some out
          → uncompress out (length table) ≡ some table)
      → (m' : Machine) × (read_inodes sys dev uncompress super m ≡ ok (m', some table))
  unfolding read_inodes ◌>>=◌ call pure need given allocate release
  read_inodes_lem m uncompress fits inverse =
      let (bytes, run, part, size) =
        read_fresh sys.malloc dev image super.block_size super.inodes_offset super.inodes_csize
          memory holds (omega (arith, short, laid.inodes_inside))
          (omega (arith, short, laid.inodes_inside)) laid.inodes_inside fits in
      let at = fits_int super.inodes_offset (omega (arith, short, laid.inodes_inside)) in
      let so = fits_int super.inodes_csize (omega (arith, short, laid.inodes_inside)) in
      let out : uncompress (take super.inodes_csize bytes) super.inodes_size ≡ some table =
        rw (part, laid.inodes_size)
          (inverse (take super.inodes_csize (drop super.inodes_offset image)) laid.inodes_at) in
      let long : (length table == super.inodes_size) ≡ true =
        (==_iff (length table) super.inodes_size).1 (sym laid.inodes_size) in
      (
        free the_buffer (more the_buffer m),
        rw (memory super.block_size, at, so, run, same super.inodes_csize, out, long, ◌>>=◌) refl,
      )

  read_blocks_lem : (m : Machine) → read_blocks sys dev super m ≡ ok (m, some blocks)
  unfolding read_blocks ◌>>=◌ call pure need
  read_blocks_lem m =
      let (bytes, run, part, size) =
        read_fresh sys.malloc dev image super.blocks_size super.blocks_offset super.blocks_size
          memory holds (omega (arith, short, laid.blocks_inside))
          (omega (arith, short, laid.blocks_inside)) laid.blocks_inside (omega arith) in
      let at = fits_int super.blocks_offset (omega (arith, short, laid.blocks_inside)) in
      let so = fits_int super.blocks_size (omega (arith, short, laid.blocks_inside)) in
      let all : bytes ≡ blocks =
        sym (take-length_all bytes) ∙ ap (λ n. take n bytes) size ∙ part ∙ laid.blocks_at in
      rw (at, so, run, same super.blocks_size, all) refl

-- What the mount keeps of the image.
abbrev pub mounted :
    Device → SuperBlock → List ℕ → List ℕ → (List ℕ → ℕ → Option (List ℕ)) → SuperInfo
mounted dev super table blocks uncompress = record {
  devblksize = dev.devblksize;
  devblksize_log2 = dev.devblksize_log2;
  super = super;
  inodes_table = table;
  blocks_table = blocks;
  uncompress = uncompress;
}

read_root_lem :
    (sys : System) (dev : Device) (sbi : SuperInfo) (root : Inode) (m : Machine)
    → sys.new_inode ≡ true
    → read_inode sbi sbi.super.root ≡ ok root
    → sys.d_make_root ≡ true
    → read_root sys dev sbi m ≡ ok (m, some tt)
unfolding read_root trusted call pure ◌>>=◌
read_root_lem sys dev sbi root m made rooted linked = rw (made, rooted, linked) refl

-- The kernel mounts a device that holds an image which mkfs laid out, with the super block, the
-- inode table and the block table that mkfs put there, where memory is to be had, the block cache,
-- the root's inode and its dentry can be made, the blocks of the device are no larger than a page,
-- the image and a page more have no more than 2 ^ 31 bytes, the compressed inode table fits in a
-- block, the compressor of that type undoes what mkfs's did to the inode table, and the mounted
-- root can be read.
pub fill_super-IsImage :
    (sys : System) (dev : Device) (image : List ℕ)
    (compress uncompress : List ℕ → ℕ → Option (List ℕ)) (no_padding : Bool)
    (table blocks entries : List ℕ) (written super : SuperBlock) (root : Inode) (m : Machine)
    → ((n : ℕ) → sys.malloc n ≡ true)
    → HoldsDisk dev image
    → IsImage compress no_padding table blocks entries written super image
    → length image + page_cache_size ≤ 2 ^ 31
    → written.magic ≡ Format.magic
    → sizeof_super_block ≤ length image
    → super.inodes_csize ≤ super.block_size
    → sys.create written.compression_type ≡ some uncompress
    → ((out : List ℕ)
        → compress table (length table * 2) ≡ some out
        → uncompress out (length table) ≡ some table)
    → (sys.created ≡ true) × (sys.new_inode ≡ true) × (sys.d_make_root ≡ true)
    → read_inode (mounted dev super table blocks uncompress) super.root ≡ ok root
    → (m' : Machine) × (fill_super sys dev m
        ≡ ok (m', some (mounted dev super table blocks uncompress)))
unfolding fill_super settle fill_info pure
fill_super-IsImage sys dev image compress uncompress no_padding table blocks entries written super
      root m memory holds laid short magic long fits created inverse willing rooted =
    let sbi = mounted dev super table blocks uncompress in
    let m0 : Machine = record m { held = all_null } in
    let m1 = more the_info m0 in
    let m2 = more the_super m1 in
    let m3 = more the_inodes (cached m2) in
    let m4 = more the_blocks m3 in
    let found =
      read_super_lem sys dev image memory holds compress no_padding table blocks entries written
        super laid short m2 magic long in
    let (m5, inodes) =
      read_inodes_lem sys dev image memory holds compress no_padding table blocks entries written
        super laid short m4 uncompress fits inverse in
    let rows =
      read_blocks_lem sys dev image memory holds compress no_padding table blocks entries written
        super laid short m5 in
    let kind : sys.create super.compression_type ≡ some uncompress = rw laid.type_kept created in
    let mounted_root : read_root sys dev sbi m5 ≡ ok (m5, some tt) =
      read_root_lem sys dev sbi root m5 willing.1 rooted willing.2 in
    let filled : fill_info sys dev m0 ≡ ok (m5, some sbi) =
      bind_goes _ _ _ m1 tt _ (allocate_goes the_info _ m0 (memory sys.sizeof_super_info)) (
        bind_goes _ _ _ m2 tt _ (allocate_goes the_super _ m1 (memory sizeof_super_block)) (
          bind_goes _ _ _ m2 super _ found (
            bind_goes _ _ _ (cached m2) tt _ (created_goes sys.created m2 willing.0) (
              bind_goes _ _ _ (cached m2) uncompress _ (given_goes _ uncompress (cached m2) kind) (
                bind_goes _ _ _ m3 tt _
                  (allocate_goes the_inodes _ (cached m2) (memory super.inodes_size))
                  (bind_goes _ _ _ m4 tt _
                    (allocate_goes the_blocks _ m3 (memory super.blocks_size))
                    (bind_goes _ _ _ m5 table _ inodes (
                      bind_goes _ _ _ m5 blocks _ rows
                        (bind_goes _ _ _ m5 tt _ mounted_root refl))))))))) in
    (free the_buffer m5, rw filled refl)
