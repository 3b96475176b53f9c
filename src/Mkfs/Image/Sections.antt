-- ===== src/Mkfs/Image/Sections.antt =====
-- A reader finds the sections of the image of src/mkfs/mkfs.c by its super block.
use smashfs.Base.{
  ℕ, ◌+◌, ◌*◌, ◌%◌, ◌^◌, ◌<◌, ◌≤◌, ◌≡◌, ◌∙◌, refl, sym, ap, arith, Bool, true, false, List, ◌++◌,
  length,
}
use smashfs.Base.{length-append, append_assoc, take-append_length, take, drop, >>=_returns}
use smashfs.Base.{Option, some, ok}
use smashfs.Format.{SuperBlock, sizeof_super_block}
use smashfs.Format.Words.{
  words, bytes_of, words_of, super_of, AreWords, words_of-bytes_of, super_of-words,
}
use smashfs.Mkfs.Image.{compress_table, set_offsets, write_image, finish}
use smashfs.Mkfs.Image.Written.{slice, bytes_of-words, compress_table_lem, write_image_lem}

-- A reader that takes the super block from the first bytes and follows it finds every section: the
-- compressed inode table, the block table and the compressed blocks.
pub record IsImage (compress : List ℕ → ℕ → Option (List ℕ)) (no_padding : Bool)
    (table blocks entries : List ℕ) (given super : SuperBlock) (image : List ℕ) : Type 0 where
  pub magic_kept : super.magic ≡ given.magic
  pub type_kept : super.compression_type ≡ given.compression_type
  pub super_at : super_of (words_of (take sizeof_super_block image)) ≡ some super
  pub inodes_at :
      compress table (length table * 2)
      ≡ some (take super.inodes_csize (drop super.inodes_offset image))
  pub inodes_size : super.inodes_size ≡ length table
  pub blocks_at : take super.blocks_size (drop super.blocks_offset image) ≡ blocks
  pub entries_at : take super.entries_size (drop super.entries_offset image) ≡ entries
  pub inodes_inside : super.inodes_offset + super.inodes_csize ≤ length image
  pub blocks_inside : super.blocks_offset + super.blocks_size ≤ length image
  pub entries_inside : super.entries_offset + super.entries_size ≤ length image
  pub padded : no_padding ≡ false → length image % 4096 ≡ 0

set_offsets-AreWords :
    (super : SuperBlock) (inodes_size : ℕ) (inodes blocks entries : List ℕ)
    → AreWords (words super)
    → AreWords (words (set_offsets super inodes_size inodes blocks entries))
unfolding set_offsets
set_offsets-AreWords super inodes_size inodes blocks entries wide =
    let h15 = wide.1.1.1.1.1.1.1.1.1.1.1.1.1.1.1 in
    (
      wide.0,
      (
        wide.1.0,
        (
          wide.1.1.0,
          (
            wide.1.1.1.0,
            (
              wide.1.1.1.1.0,
              (
                wide.1.1.1.1.1.0,
                (
                  wide.1.1.1.1.1.1.0,
                  (
                    wide.1.1.1.1.1.1.1.0,
                    (
                      omega arith,
                      (
                        omega arith,
                        (
                          omega arith,
                          (omega arith, (omega arith, (omega arith, (omega arith, h15)))),
                        ),
                      ),
                    ),
                  ),
                ),
              ),
            ),
          ),
        ),
      ),
    )

-- The places and sizes, where the sections are not too long for 31 bits.
record ArePlaces (given super : SuperBlock) (inodes_size : ℕ) (inodes blocks entries : List ℕ)
    : Type 0 where
  magic_is : super.magic ≡ given.magic
  type_is : super.compression_type ≡ given.compression_type
  inodes_offset_is : super.inodes_offset ≡ sizeof_super_block
  inodes_size_is : super.inodes_size ≡ inodes_size
  inodes_csize_is : super.inodes_csize ≡ length inodes
  blocks_offset_is : super.blocks_offset ≡ sizeof_super_block + length inodes
  blocks_size_is : super.blocks_size ≡ length blocks
  entries_offset_is : super.entries_offset ≡ sizeof_super_block + length inodes + length blocks
  entries_size_is : super.entries_size ≡ length entries

set_offsets-ArePlaces :
    (super : SuperBlock) (inodes_size : ℕ) (inodes blocks entries : List ℕ)
    → sizeof_super_block + inodes_size + length blocks + length entries < 2 ^ 31
    → length inodes ≤ inodes_size
    → ArePlaces super
        (set_offsets super inodes_size inodes blocks entries)
        inodes_size
        inodes
        blocks
        entries
unfolding set_offsets
set_offsets-ArePlaces super inodes_size inodes blocks entries small fits = record {
  magic_is = refl;
  type_is = refl;
  inodes_offset_is = refl;
  inodes_size_is = omega (arith, small);
  inodes_csize_is = omega (arith, small, fits);
  blocks_offset_is = omega (arith, small, fits);
  blocks_size_is = omega (arith, small);
  entries_offset_is = omega (arith, small, fits);
  entries_size_is = omega (arith, small);
}

module _ (compress : List ℕ → ℕ → Option (List ℕ)) (no_padding : Bool) where
  sections-IsImage :
      (super : SuperBlock) (table inodes blocks entries zeros : List ℕ)
      → AreWords (words super)
      → sizeof_super_block + length table + length blocks + length entries < 2 ^ 31
      → length inodes ≤ length table
      → compress table (length table * 2) ≡ some inodes
      → (head : List ℕ)
      → head ≡ bytes_of (words (set_offsets super (length table) inodes blocks entries))
      → (no_padding ≡ false
          → (length (head ++ inodes ++ blocks ++ entries) + length zeros) % 4096 ≡ 0)
      → IsImage compress no_padding table blocks entries super
          (set_offsets super (length table) inodes blocks entries)
          (head ++ inodes ++ blocks ++ entries ++ zeros)
  sections-IsImage super table inodes blocks entries zeros wide small fits done head is_head whole =
      let s' = set_offsets super (length table) inodes blocks entries in
      let size : length head ≡ sizeof_super_block =
        ap (λ (l : List ℕ). length l) is_head ∙ bytes_of-words s' in
      let e1 = length-append head inodes in
      let e2 = length-append (head ++ inodes) blocks in
      let e3 = length-append (head ++ inodes ++ blocks) entries in
      let e4 = length-append (head ++ inodes ++ blocks ++ entries) zeros in
      let at = set_offsets-ArePlaces super (length table) inodes blocks entries small fits in
      let a1 = append_assoc (head ++ inodes ++ blocks) entries zeros in
      let a2 = append_assoc (head ++ inodes) blocks (entries ++ zeros) in
      let a3 = append_assoc head inodes (blocks ++ (entries ++ zeros)) in
      let words' : words_of head ≡ words s' =
        ap (λ (l : List ℕ). words_of l) is_head
        ∙ words_of-bytes_of (words s')
            (set_offsets-AreWords super (length table) inodes blocks entries wide) in
      let first : take sizeof_super_block (head ++ inodes ++ blocks ++ entries ++ zeros) ≡ head =
        rw (a1, a2, a3, ← size)
          (take-append_length head (inodes ++ (blocks ++ (entries ++ zeros)))) in
      let inodes_are : take s'.inodes_csize
            (drop s'.inodes_offset (head ++ inodes ++ blocks ++ entries ++ zeros))
          ≡ inodes =
        rw (a1, a2)
          (slice head inodes (blocks ++ (entries ++ zeros)) s'.inodes_offset s'.inodes_csize
            (size ∙ sym at.inodes_offset_is) (sym at.inodes_csize_is)) in
      record {
        super_at = rw (first, words') (super_of-words s');
        inodes_at = done ∙ ap (λ l. some l) (sym inodes_are);
        inodes_size = at.inodes_size_is;
        blocks_at = rw a1 (
            slice (head ++ inodes) blocks (entries ++ zeros) s'.blocks_offset s'.blocks_size
              (omega (arith, e1, size, at.blocks_offset_is)) (sym at.blocks_size_is));
        entries_at =
            slice (head ++ inodes ++ blocks) entries zeros s'.entries_offset s'.entries_size
              (omega (arith, e1, e2, size, at.entries_offset_is)) (sym at.entries_size_is);
        magic_kept = at.magic_is;
        type_kept = at.type_is;
        inodes_inside =
            omega (arith, e1, e2, e3, e4, size, at.inodes_offset_is, at.inodes_csize_is);
        blocks_inside = omega (arith, e1, e2, e3, e4, size, at.blocks_offset_is, at.blocks_size_is);
        entries_inside =
            omega (arith, e1, e2, e3, e4, size, at.entries_offset_is, at.entries_size_is);
        padded = λ asked. rw e4 (whole asked);
      }

  -- With memory to be had and sections short enough for 31 bits, an image that mkfs writes without
  -- an error holds the super block and every section where the super block says, the inode table
  -- as the compressor gave it; its length is a multiple of 4096, unless no padding is asked for.
  pub finish-IsImage :
      (malloc : ℕ → Bool) (opened : Bool) (write : ℕ → ℕ → Option ℕ) (super : SuperBlock)
      (table blocks entries : List ℕ) {super' : SuperBlock} {image : List ℕ}
      → ((n : ℕ) → malloc n ≡ true)
      → AreWords (words super)
      → sizeof_super_block + length table + length blocks + length entries < 2 ^ 31
      → finish write malloc opened compress no_padding super table blocks entries
        ≡ ok (super', image)
      → IsImage compress no_padding table blocks entries super super' image
  unfolding finish
  finish-IsImage malloc opened write super table blocks entries {super'} {image} memory wide small
        run =
      let (inodes, r0, r1) = >>=_returns _ (compress_table malloc compress table) (sym run) in
      let (done, fits) =
        compress_table_lem malloc memory compress table (omega (arith, small)) (sym r0) in
      let s' = set_offsets super (length table) inodes blocks entries in
      let (image', w, r2) =
        >>=_returns (λ file. ok (s', file))
          (write_image write malloc opened no_padding s' inodes blocks entries) r1 in
      let (head, zeros, is_head, is_image, padding) =
        write_image_lem malloc memory write opened no_padding s' inodes blocks entries (sym w) in
      let same : super' ≡ s' = cc in
      let same' : image ≡ head ++ inodes ++ blocks ++ entries ++ zeros =
        let q : image ≡ image' = cc in q ∙ is_image in
      rw (same, same')
        (sections-IsImage super table inodes blocks entries zeros wide small fits done head is_head
          padding.whole)
