-- ===== src/Kernel/Mount.antt =====
-- src/linux/super.c: mounting (`smashfs_fill_super`), `smashfs_put_super` and `smashfs_statfs`,
-- with what they allocate and give back.
pub mod Gives
pub mod Held
pub mod Mounted
use smashfs.Base.{
  ℕ, ◌+◌, ◌-◌, Bool, true, false, List, length, take, replicate, ltb, ◌==◌, if◌then◌else◌, update,
}
use smashfs.Base.{Option, none, some, Result, ok, fail, fault, int}
use smashfs.Format
use smashfs.Format.{SuperBlock, sizeof_super_block}
use smashfs.Format.Words.{words_of, super_of}
use smashfs.Kernel.{SuperInfo, read_inode}
use smashfs.Kernel.Device
use smashfs.Kernel.Device.{Device}

-- The pointers of `smashfs_fill_super`: whether `sbi`, `sbl`, `sbi->inodes_table`,
-- `sbi->blocks_table` and `cbuffer` are to memory that is not freed.
pub record Pointers : Type 0 where
  pub info : Bool
  pub super : Bool
  pub inodes : Bool
  pub blocks : Bool
  pub buffer : Bool

pub data Slot : Type 0 where
  the_info the_super the_inodes the_blocks the_buffer : Slot

-- One of the pointers, and its setting.
unfoldable pub has : Slot → Pointers → Bool
has the_info p = p.info
has the_super p = p.super
has the_inodes p = p.inodes
has the_blocks p = p.blocks
has the_buffer p = p.buffer

unfoldable pub set_pointer : Slot → Bool → Pointers → Pointers
set_pointer the_info b p = record p { info = b }
set_pointer the_super b p = record p { super = b }
set_pointer the_inodes b p = record p { inodes = b }
set_pointer the_blocks b p = record p { blocks = b }
set_pointer the_buffer b p = record p { buffer = b }

abbrev pub all_null : Pointers
all_null = record { info = false; super = false; inodes = false; blocks = false; buffer = false }

-- The module's `smashfs_block_cachep`, the caches that have not been destroyed, the handle that the
-- next one gets, the number of objects of `kmalloc` and of the block cache that are allocated, less
-- those that a call like `smashfs_read` frees before it returns, and the pointers of this mount.
pub record Machine : Type 0 where
  pub cachep : Option ℕ
  pub caches : ℕ → Bool
  pub fresh : ℕ
  pub memory : ℕ
  pub held : Pointers

-- A part of `smashfs_fill_super`: the machine after it, with a value or on the way to `bail`.
abbrev pub M : Type 0 → Type 0
M A = Machine → Result (Machine × Option A)

unfoldable pub pure : {A : Type 0} → A → M A
pure a m = ok (m, some a)

unfoldable pub bail : {A : Type 0} → M A
bail m = ok (m, none)

unfoldable pub undefined : {A : Type 0} → M A
undefined m = fault

infixl 5 ◌>>=◌ ◌>>◌
unfoldable pub ◌>>=◌ : {A B : Type 0} → M A → (A → M B) → M B
◌>>=◌ p f m = elim (p m) [
  | ok (m', o) ↦ elim o [ some a ↦ f a m' | none ↦ ok (m', none) ]
  | fail ↦ fail
  | fault ↦ fault
]

abbrev pub ◌>>◌ : {B : Type 0} → M (Unit {0}) → M B → M B
p >> q = p >>= λ _. q

-- `if (...) goto bail`
unfoldable pub need : Bool → M (Unit {0})
need true = pure tt
need false = bail

-- A call that reports its errors.
unfoldable pub call : {A : Type 0} → Result A → M A
call (ok a) = pure a
call fail = bail
call fault = undefined

unfoldable pub given : {A : Type 0} → Option A → M A
given (some a) = pure a
given none = bail

-- What is only right where the value is there.
unfoldable pub trusted : {A : Type 0} → Option A → M A
trusted (some a) = pure a
trusted none = undefined

-- A pointer is set to memory, if that is to be had.
unfoldable pub allocate : Slot → Bool → M (Unit {0})
allocate slot true m =
    ok (record m { memory = m.memory + 1; held = set_pointer slot true m.held }, some tt)
allocate slot false m = ok (m, none)

-- `if (pointer != NULL) kfree(pointer)`, or `kmem_cache_free`.
unfoldable pub free : Slot → Machine → Machine
free slot m =
    if has slot m.held
    then record m { memory = m.memory - 1; held = set_pointer slot false m.held }
    else m

unfoldable pub release : M (Unit {0})
release m = ok (free the_buffer m, some tt)

-- `init_blockcache`; `created` says whether `kmem_cache_create` succeeds.
unfoldable pub init_blockcache : Bool → M (Unit {0})
init_blockcache true m = ok (
  record m { cachep = some m.fresh; caches = update m.caches m.fresh true; fresh = m.fresh + 1 },
  some tt,
)
init_blockcache false m = ok (record m { cachep = none }, none)

-- `destroy_blockcache`, which keeps the pointer. A cache is destroyed once.
unfoldable pub destroy_blockcache : Machine → Result Machine
destroy_blockcache m = elim m.cachep [
  | none ↦ ok m
  | some c ↦ if m.caches c then ok (record m { caches = update m.caches c false }) else fault
]

-- The parts of the kernel that a mount asks: memory by its size, the size of
-- `struct smashfs_super_info`, the cache, `compressor_create_type`,
-- `new_inode` and `d_make_root`. What a compressor allocates is not counted.
pub record System : Type 0 where
  pub malloc : ℕ → Bool
  pub sizeof_super_info : ℕ
  pub created : Bool
  pub create : ℕ → Option (List ℕ → ℕ → Option (List ℕ))
  pub new_inode : Bool
  pub d_make_root : Bool

-- `if (sbi != NULL)` behind `bail`. The compressor is not counted.
unfoldable pub free_info : Machine → Machine
free_info m = if has the_info m.held then free the_info (free the_inodes (free the_blocks m)) else m

-- What is freed behind `bail`.
unfoldable pub free_all : Machine → Machine
free_all m = free the_super (free the_buffer (free_info m))

unfoldable pub not_mounted : Result Machine → Result (Machine × Option SuperInfo)
not_mounted (ok m) = ok (m, none)
not_mounted fail = fail
not_mounted fault = fault

unfoldable pub settle : Result (Machine × Option SuperInfo) → Result (Machine × Option SuperInfo)
settle (ok (m, some sbi)) = ok (free the_buffer m, some sbi)
settle (ok (m, none)) = not_mounted (destroy_blockcache (free_all m))
settle fail = fail
settle fault = fault

module _ (sys : System) (dev : Device) where
  unfoldable pub read_super : M SuperBlock
  read_super = do
    (rc, sbl) ← call (
        Device.read sys.malloc dev (replicate sizeof_super_block 0) Format.start sizeof_super_block)
    need (rc == sizeof_super_block)
    super ← trusted (super_of (words_of (take sizeof_super_block sbl)))
    need (super.magic == Format.magic)
    pure super

  -- The inode table, through a buffer of the block cache. Offsets and sizes become `int`; where one
  -- does not fit, what the kernel reads is not defined by the language.
  unfoldable pub read_inodes : (List ℕ → ℕ → Option (List ℕ)) → SuperBlock → M (List ℕ)
  read_inodes uncompress super = do
    allocate the_buffer (sys.malloc super.block_size)
    offset ← call (int super.inodes_offset)
    size ← call (int super.inodes_csize)
    (rc, cbuffer) ← call (Device.read sys.malloc dev (replicate super.block_size 0) offset size)
    need (rc == super.inodes_csize)
    table ← given (uncompress (take super.inodes_csize cbuffer) super.inodes_size)
    need (length table == super.inodes_size)
    release
    pure table

  unfoldable pub read_blocks : SuperBlock → M (List ℕ)
  read_blocks super = do
    offset ← call (int super.blocks_offset)
    size ← call (int super.blocks_size)
    (rc, table) ← call (Device.read sys.malloc dev (replicate super.blocks_size 0) offset size)
    need (rc == super.blocks_size)
    pure table

  -- The root inode. `new_inode` gives no error pointer but NULL, which is used all the same;
  -- `d_make_root` has given the inode back where it fails, and `iput` gives it back once more.
  unfoldable pub read_root : SuperInfo → M (Unit {0})
  read_root sbi = do
    trusted (if sys.new_inode then some tt else none)
    root ← call (read_inode sbi sbi.super.root)
    trusted (if sys.d_make_root then some tt else none)

  unfoldable pub fill_info : M SuperInfo
  fill_info = do
    allocate the_info (sys.malloc sys.sizeof_super_info)
    allocate the_super (sys.malloc sizeof_super_block)
    super ← read_super
    init_blockcache sys.created
    uncompress ← given (sys.create super.compression_type)
    allocate the_inodes (sys.malloc super.inodes_size)
    allocate the_blocks (sys.malloc super.blocks_size)
    inodes ← read_inodes uncompress super
    blocks ← read_blocks super
    let sbi : SuperInfo = record {
      devblksize = dev.devblksize;
      devblksize_log2 = dev.devblksize_log2;
      super = super;
      inodes_table = inodes;
      blocks_table = blocks;
      uncompress = uncompress;
    }
    read_root sbi
    pure sbi

  unfoldable pub fill_super : M SuperInfo
  fill_super m = settle (fill_info (record m { held = all_null }))

-- `inodes_table`, `blocks_table`, `super` and `sbi` itself.
unfoldable pub put_super : Machine → Option SuperInfo → Result Machine
put_super m none = ok m
put_super m (some sbi) =
    destroy_blockcache (free the_info (free the_super (free the_blocks (free the_inodes m))))

-- `struct kstatfs`, as far as it is set; `id` is the number of the device.
pub record Statfs : Type 0 where
  pub f_type : ℕ
  pub f_bsize : ℕ
  pub f_blocks : ℕ
  pub f_bfree : ℕ
  pub f_bavail : ℕ
  pub f_files : ℕ
  pub f_ffree : ℕ
  pub f_namelen : ℕ

pub statfs : SuperInfo → Statfs
statfs sbi = record {
  f_type = Format.magic;
  f_bsize = sbi.super.block_size;
  f_blocks = sbi.super.blocks;
  f_bfree = 0;
  f_bavail = 0;
  f_files = sbi.super.inodes;
  f_ffree = 0;
  f_namelen = Format.name_len;
}
