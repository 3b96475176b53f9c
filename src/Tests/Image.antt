-- ===== src/Tests/Image.antt =====
-- A small image, with a compressor that copies.
use smashfs.Base.{
  ℕ, ◌≡◌, ◌-◌, min, refl, sym, arith, List, ◌∷◌, [], Option, some, true, false, Result, ok, length,
}
use smashfs.Format
use smashfs.Format.{SuperBlock}
use smashfs.Buffer
use smashfs.Buffer.{contents}
use native.Mathlib.Decide.{ℕ_discrete}
use smashfs.Mkfs.Image.{finish, compress_table, set_offsets, put, pad, write_image}
use smashfs.Unfs.{State}
use smashfs.Unfs.Open.{open_image}
use smashfs.Unfs.Open.Opened.{IsReading, IsOpened, open_image-IsImage}
use smashfs.Mkfs.Image.Sections.{IsImage, finish-IsImage}
use smashfs.Mkfs.Image.Returns.{takes_all, finish_returns}

abbrev copy : List ℕ → ℕ → Option (List ℕ)
copy bytes size = some bytes

abbrev small_super : SuperBlock
small_super = record {
  magic = Format.magic;
  version = Format.version_0;
  ctime = 0;
  inodes = 1;
  blocks = 1;
  block_size = 4096;
  block_log2 = 12;
  root = 0;
  inodes_offset = 0;
  inodes_size = 0;
  inodes_csize = 0;
  blocks_offset = 0;
  blocks_size = 0;
  entries_offset = 0;
  entries_size = 0;
  compression_type = 1;
  bits = record {
    inode = record {
      type = 2;
      owner_mode = 3;
      group_mode = 3;
      other_mode = 3;
      uid = 1;
      gid = 1;
      ctime = 0;
      mtime = 0;
      size = 4;
      block = 1;
      index = 1;
      directory = record {
        parent = 1;
        nentries = 1;
        entries = record { number = 1; length = 1; type = 1 };
      };
    };
    block = record { offset = 1; compressed_size = 1; size = 3 };
  };
  min = record { inode = record { ctime = 7; mtime = 7 }; block = record { compressed_size = 5 } };
}

written :
    (super' : SuperBlock) × (image : List ℕ) × (finish takes_all
        (λ n. true)
        true
        copy
        false
        small_super
        (1 ∷ 2 ∷ 3 ∷ [])
        (4 ∷ [])
        (5 ∷ 6 ∷ [])
      ≡ ok (super', image))
written =
    finish_returns (λ n. true) copy false small_super (1 ∷ 2 ∷ 3 ∷ []) (4 ∷ []) (5 ∷ 6 ∷ [])
      (1 ∷ 2 ∷ 3 ∷ []) (λ n. refl) (omega arith) refl (omega arith)

finish_returns_example :
    (super' : SuperBlock) × (image : List ℕ) × (finish takes_all
        (λ n. true)
        true
        copy
        false
        small_super
        (1 ∷ 2 ∷ 3 ∷ [])
        (4 ∷ [])
        (5 ∷ 6 ∷ [])
      ≡ ok (super', image))
finish_returns_example =
    finish_returns (λ n. true) copy false small_super (1 ∷ 2 ∷ 3 ∷ []) (4 ∷ []) (5 ∷ 6 ∷ [])
      (1 ∷ 2 ∷ 3 ∷ []) (λ n. refl) (omega arith) refl (omega arith)

finish-IsImage_example :
    IsImage copy false (1 ∷ 2 ∷ 3 ∷ []) (4 ∷ []) (5 ∷ 6 ∷ []) small_super written.0 written.1
finish-IsImage_example =
    finish-IsImage copy false (λ n. true) true takes_all small_super (1 ∷ 2 ∷ 3 ∷ []) (4 ∷ [])
      (5 ∷ 6 ∷ []) (λ n. refl) (ground arith) (omega arith) written.2

abbrev image_of : Result (SuperBlock × List ℕ) → SuperBlock × List ℕ
image_of (ok x) = x
image_of _ = (small_super, [])

-- The same image with no padding.
abbrev packed : SuperBlock × List ℕ
packed =
    image_of (
      finish takes_all (λ n. true) true copy true small_super (1 ∷ 2 ∷ 3 ∷ []) (4 ∷ [])
        (5 ∷ 6 ∷ []))

packed_run :
    finish takes_all (λ n. true) true copy true small_super (1 ∷ 2 ∷ 3 ∷ []) (4 ∷ []) (5 ∷ 6 ∷ [])
    ≡ ok packed
unfolding finish compress_table set_offsets put pad write_image contents ℕ_discrete Buffer.add
    Buffer.enlarge Buffer.grow
packed_run = refl

packed_length : length packed.1 ≡ 158
unfolding finish compress_table set_offsets put pad write_image contents ℕ_discrete Buffer.add
    Buffer.enlarge Buffer.grow
packed_length = refl

-- Reads give all that there is.
abbrev reads : ℕ → ℕ → Option ℕ
reads p n = some (min n (158 - p))

reads-IsReading : IsReading reads (length packed.1)
reads-IsReading p n some_asked before =
    let size = packed_length in
    (min n (158 - p), refl, omega (arith, size, before), omega arith, omega (arith, size, before))

open_image-IsImage_example :
    (s : State) × (open_image (λ n. true) reads packed.1 (λ type. some copy) ≡ ok s)
    × IsOpened packed.0 (1 ∷ 2 ∷ 3 ∷ []) (4 ∷ []) (5 ∷ 6 ∷ []) s
open_image-IsImage_example =
    open_image-IsImage (λ n. true) reads (λ n. refl) copy copy (1 ∷ 2 ∷ 3 ∷ []) (λ out e. sym e)
      true (4 ∷ []) (5 ∷ 6 ∷ []) small_super packed.0 packed.1 (λ type. some copy)
      (finish-IsImage copy true (λ n. true) true takes_all small_super (1 ∷ 2 ∷ 3 ∷ []) (4 ∷ [])
        (5 ∷ 6 ∷ []) (λ n. refl) (ground arith) (omega arith) packed_run)
      reads-IsReading (omega (arith, packed_length)) (omega arith) refl refl refl
