-- ===== src/Mkfs/Image/Returns.antt =====
-- The writing of the image of src/mkfs/mkfs.c, where the system does what it is asked.
use smashfs.Base.{
  ℕ, ◌*◌, ◌-◌, ◌%◌, ◌^◌, ◌<◌, ◌≤◌, ◌≡◌, refl, arith, Bool, true, false, List, [], ◌++◌, length,
}
use smashfs.Base.{replicate, leb, ◌==◌, ==_iff, Bool-cases, inl, inr}
use smashfs.Base.{Option, some, ok}
use smashfs.Format.{SuperBlock, sizeof_super_block}
use smashfs.Format.Words.{words, bytes_of}
use smashfs.Mkfs.Image.{compress_table, set_offsets, put, pad, write_image, finish}
use smashfs.Mkfs.Image.Written.{bytes_of-words, fresh_lem}

-- A system that writes all that it is given.
abbrev pub takes_all : ℕ → ℕ → Option ℕ
takes_all position n = some n

put_returns : (file bytes : List ℕ) → put takes_all file bytes ≡ ok (file ++ bytes)
unfolding put
put_returns file bytes = let same = (==_iff (length bytes) (length bytes)).1 refl in rw same refl

pad_returns :
    (no_padding : Bool) (file : List ℕ)
    → (file' : List ℕ) × (pad takes_all no_padding file ≡ ok file')
unfolding pad
pad_returns true file = (file, refl)
pad_returns false file = elim (Bool-cases (length file % 4096 == 0)) [
  | inl even ↦ (file, rw even refl)
  | inr odd ↦
      (let zeros = replicate (4096 - length file % 4096) 0 in
        (file ++ zeros, rw odd (put_returns file zeros)))
]

-- With memory to be had, an output that can be opened, a compressor that takes the inode table and
-- makes it no longer, and a system that writes all bytes, mkfs writes the image without an error.
pub finish_returns :
    (malloc : ℕ → Bool) (compress : List ℕ → ℕ → Option (List ℕ)) (no_padding : Bool)
    (super : SuperBlock) (table blocks entries out : List ℕ)
    → ((n : ℕ) → malloc n ≡ true)
    → length table < 2 ^ 31
    → compress table (length table * 2) ≡ some out
    → length out ≤ length table
    → (super' : SuperBlock) × (image : List ℕ) × (finish takes_all malloc true compress no_padding
          super table blocks entries
        ≡ ok (super', image))
unfolding finish compress_table write_image
finish_returns malloc compress no_padding super table blocks entries out memory small done fits =
    let s' = set_offsets super (length table) out blocks entries in
    let (b, added, holds) =
      fresh_lem malloc memory out (length out) refl (omega (arith, small, fits)) in
    let (c, added', holds') =
      fresh_lem malloc memory (bytes_of (words s')) sizeof_super_block (bytes_of-words s')
        (omega arith) in
    let leq : leb (length out) (length table) ≡ true = ground (arith, fits) in
    let file = bytes_of (words s') ++ out ++ blocks ++ entries in
    let (image, padded) = pad_returns no_padding file in
    let head = bytes_of (words s') in
    (
      s',
      image,
      rw
          (
            memory (length table * 2),
            done,
            leq,
            added,
            holds,
            added',
            holds',
            put_returns [] head,
            put_returns head out,
            put_returns (head ++ out) blocks,
            put_returns (head ++ out ++ blocks) entries,
            padded,
          )
          refl,
    )
