-- ===== src/Tests/Mount.antt =====
-- The image of Tests/Extract.antt, as mkfs lays it out, on a device of blocks of two bytes: read,
-- mounted and unmounted.
use native.Mathlib.Decide.{ℕ_discrete}
use smashfs.Base.{
  ℕ, ◌+◌, ◌*◌, ◌≡◌, refl, sym, arith, true, false, List, [], ◌∷◌, length, take, drop, ltb, some,
  none, Result, ok, inr,
}
use smashfs.Bitbuffer
use smashfs.Buffer
use smashfs.Format.{SuperBlock}
use smashfs.Kernel
use smashfs.Kernel.{SuperInfo, Inode, read_inode, dir_operations, file_operations, s_ifdir}
use smashfs.Kernel.Device
use smashfs.Kernel.Device.{Device}
use smashfs.Kernel.Device.Reads.{HoldsDisk, read-HoldsDisk}
use smashfs.Kernel.Mount.{
  Machine, all_null, has, set_pointer, System, ◌>>=◌, allocate, free, free_info, free_all,
  fill_info, not_mounted, settle, fill_super, put_super, destroy_blockcache,
}
use smashfs.Kernel.Mount.Held.{kept, fill_super-held}
use smashfs.Kernel.Mount.Mounted.{mounted, fill_super-IsImage}
use smashfs.Mkfs.Image.{finish, compress_table, set_offsets, put, pad, write_image}
use smashfs.Kernel.Read.{readpage, uptodate}
use smashfs.Kernel.Read.Data.{HoldsBlocks}
use smashfs.Kernel.Read.Pages.{page_bytes, IsFile, readpage-IsFile}
use smashfs.Mkfs.Image.Returns.{takes_all}
use smashfs.Mkfs.Image.Sections.{IsImage, finish-IsImage}
use smashfs.Mode
use smashfs.Table
use smashfs.Tests.Extract.{super, copy, plenty, root_node, file_node, row}

abbrev table : List ℕ
table = 185 ∷ 131 ∷ 136 ∷ 192 ∷ []

abbrev pub entries : List ℕ
entries = 64 ∷ 224 ∷ 97 ∷ 5 ∷ 6 ∷ []

abbrev image_of : Result (SuperBlock × List ℕ) → SuperBlock × List ℕ
image_of (ok x) = x
image_of _ = (super, [])

abbrev pub packed : SuperBlock × List ℕ
packed = image_of (finish takes_all plenty true copy true super table (160 ∷ []) entries)

packed_run : finish takes_all plenty true copy true super table (160 ∷ []) entries ≡ ok packed
unfolding finish compress_table set_offsets put pad write_image Buffer.contents ℕ_discrete
    Buffer.add Buffer.enlarge Buffer.grow
packed_run = refl

pub packed_length : length packed.1 ≡ 162
unfolding finish compress_table set_offsets put pad write_image Buffer.contents ℕ_discrete
    Buffer.add Buffer.enlarge Buffer.grow
packed_length = refl

packed_super : packed.0 ≡ super
unfolding finish compress_table set_offsets put pad write_image Buffer.contents ℕ_discrete
    Buffer.add Buffer.enlarge Buffer.grow
packed_super = refl

packed-IsImage : IsImage copy true table (160 ∷ []) entries super packed.0 packed.1
packed-IsImage =
    finish-IsImage copy true plenty true takes_all super table (160 ∷ []) entries (λ n. refl)
      (ground arith) (omega arith) packed_run

-- A device with any bytes, in blocks of two.
abbrev pub device : List ℕ → Device
device disk = record {
  devblksize = 2;
  devblksize_log2 = 1;
  getblk = λ block. some (take 2 (drop (block * 2) disk));
}

pub device-HoldsDisk :
    (disk : List ℕ) (half : ℕ) → length disk ≡ half * 2 → HoldsDisk (device disk) disk
device-HoldsDisk disk half even = record {
  power = refl;
  positive = omega arith;
  small = omega arith;
  getblk_at = λ block start here inside. (omega (arith, even, here, inside), rw here refl);
}

abbrev bytes : List ℕ
bytes = 10 ∷ 11 ∷ 12 ∷ 13 ∷ 14 ∷ 15 ∷ []

-- Three bytes, from the middle of a block to the end of the next one.
read-HoldsDisk_example :
    Device.read plenty (device bytes) (0 ∷ 0 ∷ 0 ∷ 9 ∷ []) 1 3 ≡ ok (3, 11 ∷ 12 ∷ 13 ∷ 9 ∷ [])
read-HoldsDisk_example =
    read-HoldsDisk plenty (device bytes) bytes (0 ∷ 0 ∷ 0 ∷ 9 ∷ []) 1 3 (λ n. refl)
      (device-HoldsDisk bytes 3 refl) (omega arith) (omega arith) (omega arith) (omega arith)

abbrev kernel : System
kernel = record {
  malloc = plenty;
  sizeof_super_info = 64;
  created = true;
  create = λ type. some copy;
  new_inode = true;
  d_make_root = true;
}

abbrev machine : Machine
machine = record { cachep = none; caches = λ c. false; fresh = 3; memory = 5; held = all_null }

abbrev root : Inode
root = record {
  operations = dir_operations;
  i_mode = Mode.join 7 7 7 s_ifdir;
  i_uid = 0;
  i_gid = 0;
  i_size = 3;
  i_blocks = 3;
  i_ctime = 14;
  i_mtime = 14;
  i_atime = 14;
  node = record root_node { ctime = 14; mtime = 14 };
}

abbrev mount : SuperInfo
mount = mounted (device packed.1) packed.0 table (160 ∷ []) copy

root_read : read_inode (mounted (device packed.1) super table (160 ∷ []) copy) 0 ≡ ok root
unfolding read_inode Kernel.node_fill Kernel.fill_defaults Table.read_node Table.max_inode_size
    Bitbuffer.getbits Bitbuffer.getbits_loop Bitbuffer.getbytes_loop Bitbuffer.getbit
    Bitbuffer.init_from_buffer Bitbuffer.uninit Bitbuffer.setpos ℕ_discrete
root_read = refl

fill_super-IsImage_example :
    (m' : Machine) × (fill_super kernel (device packed.1) machine ≡ ok (m', some mount))
fill_super-IsImage_example =
    fill_super-IsImage kernel (device packed.1) packed.1 copy copy true table (160 ∷ []) entries
      super packed.0 root machine (λ n. refl) (device-HoldsDisk packed.1 81 packed_length)
      packed-IsImage (omega (arith, packed_length)) refl (omega (arith, packed_length))
      (rw packed_super (omega arith)) refl (λ out e. sym e) (refl, refl, refl)
      (rw packed_super root_read)

-- Memory for `sbi`, but not for the super block.
abbrev poor : System
poor = record kernel { malloc = λ n. ltb n 100 }

-- The mount fails, and the five objects of before are left.
poor_run : fill_super poor (device bytes) machine ≡ ok (machine, none)
unfolding fill_super settle fill_info ◌>>=◌ allocate free free_info free_all has set_pointer
    not_mounted destroy_blockcache
poor_run = refl

poor_left : put_super machine none ≡ ok machine
unfolding put_super
poor_left = refl

fill_super-held_example :
    (machine.memory ≡ machine.memory + kept none) × (machine.memory ≡ machine.memory)
fill_super-held_example =
    fill_super-held poor (device bytes) machine machine machine none poor_run poor_left

abbrev pub sbi : SuperInfo
sbi = mounted (device packed.1) super table (160 ∷ []) copy

row_filled : Kernel.block_fill sbi 0 ≡ ok row
unfolding Kernel.block_fill Table.read_block Table.max_block_size Bitbuffer.getbits
    Bitbuffer.getbits_loop Bitbuffer.getbytes_loop Bitbuffer.getbit Bitbuffer.init_from_buffer
    Bitbuffer.uninit Bitbuffer.setpos ℕ_discrete
row_filled = refl

entries_there : take super.entries_size (drop super.entries_offset packed.1) ≡ entries
entries_there = rw packed_super at packed-IsImage.entries_at

pub packed-HoldsBlocks : HoldsBlocks sbi packed.1 entries
packed-HoldsBlocks = record {
  power = refl;
  short = omega (arith, packed_length);
  narrow = omega arith;
  row_at = λ b start here inside.
      (let first : b ≡ 0 = omega (arith, here, inside) in
        let at_0 : start ≡ 0 = omega (arith, here, inside) in
        (
          row,
          rw (first, row_filled) refl,
          rw at_0 refl,
          omega arith,
          omega (arith, packed_length),
          rw (at_0, entries_there) refl,
        ));
}

abbrev file_inode : Inode
file_inode = record root { operations = file_operations; i_size = 2; node = file_node }

file_inode-IsFile : IsFile 16 entries file_inode (5 ∷ 6 ∷ [])
file_inode-IsFile = record {
  type_is = inr refl;
  i_size_is = refl;
  has = record {
    inside_block = omega arith;
    size_is = refl;
    inside = omega arith;
    content_is = refl;
  };
}

readpage-IsFile_example :
    readpage plenty plenty (device packed.1) sbi file_inode 0
    ≡ ok (uptodate (page_bytes (5 ∷ 6 ∷ []) 0))
readpage-IsFile_example =
    readpage-IsFile plenty plenty (device packed.1) sbi packed.1 entries file_inode (5 ∷ 6 ∷ []) 0
      (λ n. refl) (λ k. refl) (device-HoldsDisk packed.1 81 packed_length) packed-HoldsBlocks
      file_inode-IsFile
