-- ===== src/Unfs/Open/Opened.antt =====
-- What `main` of src/mkfs/unfs.c reads from an image.
use smashfs.Base.{
  ℕ, zero, suc, ◌+◌, ◌-◌, ◌*◌, ◌^◌, ◌<◌, ◌≤◌, ◌≡◌, ◌∙◌, refl, sym, ap, arith, min, Bool, true, List,
  ◌++◌, length, take, drop, ltb, ◌==◌, ==_iff,
}
use smashfs.Base.{
  Option, some, ok, Bool-cases, inl, inr, take-length_all, take-drop_joined, append_assoc,
  length-take, length-drop, append-nil,
}
use smashfs.Buffer
use smashfs.Buffer.{Buffer, contents}
use smashfs.Buffer.Add.{IsValid, init-IsValid, add_lem, take-length}
use smashfs.Format
use smashfs.Format.{SuperBlock, sizeof_super_block}
use smashfs.Mkfs.Image.Sections.{IsImage}
use smashfs.Unfs.{State}
use smashfs.Unfs.Open.{read_round, read_loop, read_section, read_super, read_inodes, open_image}

-- A read of a regular file gives one byte or more, where there are any, and none that it was not
-- asked for or that the file does not have.
abbrev pub IsReading : (ℕ → ℕ → Option ℕ) → ℕ → Type 0
IsReading read size =
    (p n : ℕ)
    → 0 < n
    → p < size
    → (k : ℕ) × (read p n ≡ some k) × (0 < k) × (k ≤ n) × (p + k ≤ size)

module _ (malloc : ℕ → Bool) (read : ℕ → ℕ → Option ℕ) (image : List ℕ)
    (memory : (n : ℕ) → malloc n ≡ true) (reading : IsReading read (length image)) where
  read_round_lem :
      (offset size r : ℕ) (b : Buffer)
      → IsValid b
      → r < size
      → offset + size ≤ length image
      → size < 2 ^ 31
      → b.length + (size - r) < 2 ^ 62
      → (k : ℕ) × (b' : Buffer) × (read_round malloc read image offset size r b ≡ ok (k, b'))
        × (0 < k)
        × (k ≤ size - r)
        × IsValid b'
        × (b'.length ≡ b.length + k)
        × (contents b' ≡ contents b ++ take k (drop (offset + r) image))
  unfolding read_round
  read_round_lem offset size r b valid lt inside small room =
      let (k, given, some_given, few, within) =
        reading (offset + r) (min 1024 (size - r)) (omega (arith, lt))
          (omega (arith, lt, inside)) in
      let part = take k (drop (offset + r) image) in
      let long : length part ≡ k =
        omega (
          arith,
          length-take k (drop (offset + r) image),
          length-drop (offset + r) image,
          within,
        ) in
      let (b1, added) =
        add_lem malloc b part k valid memory (omega (arith, long)) (omega (arith, few, small))
          (omega (arith, few, room)) in
      let positive : ltb 0 k ≡ true = ground arith in
      let same : (k == k) ≡ true = (==_iff k k).1 refl in
      let run : read_round malloc read image offset size r b ≡ ok (k, b1) =
        rw (given, positive, added.returns, same) refl in
      (
        k,
        b1,
        run,
        some_given,
        omega (arith, few),
        added.valid,
        added.longer,
        added.appended ∙ ap (λ l. contents b ++ l) (take-length k (drop (offset + r) image)),
      )

  read_loop_lem :
      (fuel offset size r : ℕ) (b : Buffer)
      → IsValid b
      → size - r < fuel
      → offset + size ≤ length image
      → size < 2 ^ 31
      → b.length + (size - r) < 2 ^ 62
      → (b' : Buffer) × (read_loop malloc read image fuel offset size r b ≡ ok b')
        × IsValid b'
        × (contents b' ≡ contents b ++ take (size - r) (drop (offset + r) image))
  unfolding read_loop
  read_loop_lem zero offset size r b valid enough inside small room = absurd (omega (arith, enough))
  read_loop_lem (suc fuel) offset size r b valid enough inside small room =
      elim (Bool-cases (ltb r size)) [
        | inl more ↦
            (let lt : r < size = ground arith in
              let (k, b1, round, positive, few, valid1, longer, appended) =
                read_round_lem offset size r b valid lt inside small room in
              let (b2, run, valid2, rest) =
                read_loop_lem fuel offset size (r + k) b1 valid1
                  (omega (arith, enough, positive, lt, few)) inside small
                  (omega (arith, room, few, longer)) in
              (
                b2,
                rw (more, round) run,
                valid2,
                rest
                    ∙ ap
                        (λ (l : List ℕ). l ++ take (size - (r + k)) (drop (offset + (r + k)) image))
                        appended
                    ∙ append_assoc (contents b) (take k (drop (offset + r) image))
                        (take (size - (r + k)) (drop (offset + (r + k)) image))
                    ∙ ap (λ l. contents b ++ l)
                        (take-drop_joined image (offset + r) (offset + (r + k)) k (size - (r + k))
                          (size - r) (omega arith) (omega (arith, few))),
              ))
        | inr done ↦
            (let le : size ≤ r = ground arith in
              let none_left : size - r ≡ 0 = omega (arith, le) in
              (b, rw done refl, valid, rw none_left (sym (append-nil (contents b)))))
      ]

  read_section_lem :
      (offset size : ℕ)
      → offset + size ≤ length image
      → size < 2 ^ 31
      → (b : Buffer) × (read_section malloc read image offset size Buffer.init ≡ ok b)
        × IsValid b
        × (contents b ≡ take size (drop offset image))
  unfolding read_section contents
  read_section_lem offset size inside small =
      let (b, run, valid, all) =
        read_loop_lem (size + 1) offset size 0 Buffer.init init-IsValid (omega arith) inside small
          (omega (arith, small)) in
      let start : offset + 0 ≡ offset = omega arith in
      let rest : size - 0 ≡ size = omega arith in (b, run, valid, rw (start, rest) at all)

-- What the tables of unfs hold.
pub record IsOpened (super : SuperBlock) (table blocks entries : List ℕ) (s : State) : Type 0 where
  pub super_is : s.super ≡ super
  pub inodes_are : contents s.inode_buffer ≡ table
  pub blocks_are : contents s.block_buffer ≡ blocks
  pub entries_are : contents s.entry_buffer ≡ entries

module _ (malloc : ℕ → Bool) (read : ℕ → ℕ → Option ℕ) (memory : (n : ℕ) → malloc n ≡ true)
    (compress uncompress : List ℕ → ℕ → Option (List ℕ)) (table : List ℕ)
    (inverse : (out : List ℕ)
      → compress table (length table * 2) ≡ some out
      → uncompress out (length table) ≡ some table) where
  read_inodes_lem :
      (no_padding : Bool) (blocks entries : List ℕ) (given super : SuperBlock) (image : List ℕ)
      → IsImage compress no_padding table blocks entries given super image
      → IsReading read (length image)
      → length image < 2 ^ 31
      → length table < 2 ^ 31
      → (b : Buffer) × (read_inodes malloc read image uncompress super ≡ ok b)
        × (contents b ≡ table)
  unfolding read_inodes contents Buffer.reset
  read_inodes_lem no_padding blocks entries given super image laid reading small short =
      let (b, run, valid, all) =
        read_section_lem malloc read image memory reading super.inodes_offset super.inodes_csize
          laid.inodes_inside (omega (arith, laid.inodes_inside, small)) in
      let out : uncompress (contents b) super.inodes_size ≡ some table =
        rw (all, laid.inodes_size)
          (inverse (take super.inodes_csize (drop super.inodes_offset image)) laid.inodes_at) in
      let fits : (length table == super.inodes_size) ≡ true =
        (==_iff (length table) super.inodes_size).1 (sym laid.inodes_size) in
      let same : (super.inodes_size == super.inodes_size) ≡ true =
        (==_iff super.inodes_size super.inodes_size).1 refl in
      let (b1, added) =
        add_lem malloc (Buffer.reset b) table super.inodes_size
          (record { written = omega arith; fits = omega arith }) memory
          (omega (arith, laid.inodes_size)) (omega (arith, laid.inodes_size, short))
          (omega (arith, laid.inodes_size, short)) in
      let whole : take super.inodes_size table ≡ table =
        rw laid.inodes_size (take-length_all table) in
      (
        b1,
        rw (run, memory super.inodes_size, out, fits, added.returns, same) refl,
        added.appended ∙ whole,
      )

  -- unfs reads from an image that mkfs laid out the super block and the three tables that mkfs
  -- put there, where memory is to be had, the image and the inode table are short enough for 31
  -- bits, reads of a regular file make progress and give the whole super block, and the compressor
  -- of that type undoes what mkfs's did to the inode table.
  pub open_image-IsImage :
      (no_padding : Bool) (blocks entries : List ℕ) (given super : SuperBlock) (image : List ℕ)
      (create : ℕ → Option (List ℕ → ℕ → Option (List ℕ)))
      → IsImage compress no_padding table blocks entries given super image
      → IsReading read (length image)
      → length image < 2 ^ 31
      → length table < 2 ^ 31
      → given.magic ≡ Format.magic
      → create given.compression_type ≡ some uncompress
      → read 0 sizeof_super_block ≡ some sizeof_super_block
      → (s : State) × (open_image malloc read image create ≡ ok s)
        × IsOpened super table blocks entries s
  unfolding open_image read_super
  open_image-IsImage no_padding blocks entries given super image create laid reading small short
        magic type first =
      let (b1, r1, is1) =
        read_inodes_lem no_padding blocks entries given super image laid reading small short in
      let (b2, r2, v2, is2) =
        read_section_lem malloc read image memory reading super.blocks_offset super.blocks_size
          laid.blocks_inside (omega (arith, laid.blocks_inside, small)) in
      let (b3, r3, v3, is3) =
        read_section_lem malloc read image memory reading super.entries_offset super.entries_size
          laid.entries_inside (omega (arith, laid.entries_inside, small)) in
      let known : (super.magic == Format.magic) ≡ true =
        (==_iff super.magic Format.magic).1 (laid.magic_kept ∙ magic) in
      let created : create super.compression_type ≡ some uncompress = rw laid.type_kept type in
      (
        record { super = super; inode_buffer = b1; block_buffer = b2; entry_buffer = b3 },
        rw (first, laid.super_at, known, created, memory 1024, r1, r2, r3) refl,
        record {
          super_is = refl;
          inodes_are = is1;
          blocks_are = is2 ∙ laid.blocks_at;
          entries_are = is3 ∙ laid.entries_at;
        },
      )
