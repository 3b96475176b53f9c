-- ===== src/Kernel/Read/Data.antt =====
-- What `node_read` of src/linux/super.c reads from a device: a range of the node's data.
use native.Mathlib.Nat.{div-add-mod', mod-lt}
use smashfs.Base.{
  ℕ, zero, suc, ◌+◌, ◌-◌, ◌*◌, ◌/◌, ◌%◌, ◌^◌, min, ◌<◌, ◌≤◌, ◌≡◌, ◌∙◌, ◌⊎◌, refl, sym, ap, ap₂,
  arith, Bool, true, List, [], ◌++◌, length, take, drop, ltb, leb, ◌==◌, ==_iff, ltb→lt, ltb→ge,
  le→leb, lt→ltb, Bool-cases, inl, inr,
}
use smashfs.Base.{
  some, ok, length-append, length-take, length-drop, take-drop_joined, take-drop-take, take_moved,
  append-nil, append_assoc,
}
use smashfs.Kernel.{SuperInfo, block_fill}
use smashfs.Kernel.Device.{Device, page_cache_size}
use smashfs.Kernel.Device.Reads.{HoldsDisk}
use smashfs.Kernel.Device.Fresh.{read_fresh}
use smashfs.Kernel.Read.{append, read_data, node_read_loop, node_read}
use smashfs.Table.{Node, Block}
use smashfs.Unfs.Extract.Data.{AreBlocks, HasContent}

-- `append` with room for the bytes.
append_lem :
    (capacity : ℕ) (out xs : List ℕ)
    → length out + length xs ≤ capacity
    → append capacity out xs ≡ ok (out ++ xs)
unfolding append
append_lem capacity out xs fits =
    let room = le→leb (length out + length xs) capacity fits in rw room refl

module _ (malloc cache : ℕ → Bool) (dev : Device) (sbi : SuperInfo) (bytes : List ℕ) (capacity : ℕ)
    (blocks : AreBlocks
      (read_data malloc cache dev sbi (append capacity))
      sbi.super.block_size
      bytes) where
  node_read_loop_lem :
      (fuel s i b n start : ℕ) (out : List ℕ)
      → start ≡ b * sbi.super.block_size
      → n - s < fuel
      → s ≤ n
      → (s < n → (i < sbi.super.block_size) × (start + i + (n - s) ≤ length bytes))
      → length out + (n - s) ≤ capacity
      → node_read_loop malloc cache dev sbi (append capacity) fuel s i b n out
        ≡ ok (out ++ take (n - s) (drop (start + i) bytes))
  unfolding node_read_loop
  node_read_loop_lem zero s i b n start out here enough le inside fits =
      absurd (omega (arith, enough))
  node_read_loop_lem (suc fuel) s i b n start out here enough le inside fits =
      elim (Bool-cases (ltb s n)) [
        | inr done ↦
            (let none_left : n - s ≡ 0 = omega (arith, ltb→ge s n done, le) in
              rw (done, none_left, append-nil out) refl)
        | inl more ↦
            (let lt : s < n = ltb→lt s n more in
              let size = sbi.super.block_size in
              let (in_block, in_bytes) = inside lt in
              let (block, found, long) =
                blocks.block_at b start here (omega (arith, in_bytes, lt)) in
              let l = min (n - s) (block.size - i) in
              let some_bytes = take size (drop start bytes) in
              let whole = length-take size (drop start bytes) in
              let behind = length-drop start bytes in
              let t1 : leb i block.size ≡ true =
                le→leb i block.size (omega (arith, long, in_block, in_bytes, lt)) in
              let part = take l (drop i some_bytes) in
              let part_is : part ≡ take l (drop (start + i) bytes) =
                take-drop-take bytes start size i l (omega (arith, long, in_block, in_bytes, lt)) in
              let len : length part ≡ l = omega (
                arith,
                length-take l (drop i some_bytes),
                length-drop i some_bytes,
                long,
                whole,
                behind,
                in_block,
                in_bytes,
                lt,
              ) in
              let taken = append_lem capacity out part (omega (arith, len, fits)) in
              let next : start + size ≡ (b + 1) * size = grind (arith, here) in
              let rest =
                node_read_loop_lem fuel (s + l) 0 (b + 1) n (start + size) (out ++ part) next
                  (omega (arith, enough, long, in_block, in_bytes, lt)) (omega arith)
                  (λ more_left.
                    (blocks.positive, omega (arith, more_left, long, in_block, in_bytes)))
                  (omega (arith, len, fits, length-append out part)) in
              let end : (n - (s + l) ≡ 0) ⊎ (start + size + 0 ≡ start + i + l) =
                elim (Bool-cases (ltb (s + l) n)) [
                  | inl further ↦
                      inr (omega (arith, ltb→lt (s + l) n further, long, in_block, in_bytes))
                  | inr ended ↦ inl (omega (arith, ltb→ge (s + l) n ended))
                ] in
              let all =
                append_assoc out part (take (n - (s + l)) (drop (start + size + 0) bytes))
                ∙ ap (λ (x : List ℕ). out ++ x)
                    (ap₂ (λ (x y : List ℕ). x ++ y) part_is
                        (take_moved bytes (start + i + l) (start + size + 0) (n - (s + l)) end)
                      ∙ take-drop_joined bytes (start + i) (start + i + l) l (n - (s + l)) (n - s)
                          refl (omega arith)) in
              rw (more, found, t1, taken) (rest ∙ ap (λ x. ok x) all))
      ]

  -- A range of the node's data, which must be on the device.
  pub node_read_lem :
      (node : Node) (content : List ℕ) (offset n : ℕ)
      → ((k : ℕ) → cache k ≡ true)
      → sbi.super.block_size ≡ 2 ^ sbi.super.block_log2
      → HasContent sbi.super.block_size bytes node content
      → offset + n ≤ length content
      → n ≤ capacity
      → node_read malloc cache dev sbi (append capacity) node offset n
        ≡ ok (take n (drop offset content))
  unfolding node_read
  node_read_lem node content offset n memory power has inside fits =
      let size = sbi.super.block_size in
      let m = 2 ^ sbi.super.block_log2 in
      let o = offset + node.index + node.block * size in
      let positive : 0 < m = omega (arith, blocks.positive, power) in
      let whole : o / m * m + o % m ≡ o = div-add-mod' o m in
      let small : o % m < m = mod-lt o positive in
      let start_is : o / m * m ≡ o / m * size = ap (λ k. o / m * k) (sym power) in
      let run =
        node_read_loop_lem (n + 1) 0 (o % m) (o / m) n (o / m * m) [] start_is (omega arith)
          (omega arith)
          (λ some_size.
            (omega (arith, small, power), omega (arith, whole, has.inside, has.size_is, inside)))
          (omega (arith, fits)) in
      let part : take n (drop offset content)
          ≡ take n (drop (node.block * size + node.index + offset) bytes) =
        ap (λ (l : List ℕ). take n (drop offset l)) (sym has.content_is)
        ∙ take-drop-take bytes (node.block * size + node.index) node.size offset n
            (omega (arith, has.size_is, inside)) in
      let at : o / m * m + o % m ≡ node.block * size + node.index + offset = omega (arith, whole) in
      let all : n - 0 ≡ n = omega arith in
      rw (memory 0, memory 1)
        (rw all at run ∙ ap (λ k. ok (take n (drop k bytes))) at ∙ ap (λ x. ok x) (sym part))

-- The rows of the block table name compressed bytes on the device that give the bytes of `bytes`,
-- in blocks of the super block's size, of which only the last may be shorter.
pub record HoldsBlocks (sbi : SuperInfo) (disk bytes : List ℕ) : Type 0 where
  pub power : sbi.super.block_size ≡ 2 ^ sbi.super.block_log2
  pub short : length disk < 2 ^ 31
  pub narrow : sbi.super.block_size + page_cache_size ≤ 2 ^ 31
  pub row_at :
      (b start : ℕ)
      → start ≡ b * sbi.super.block_size
      → start < length bytes
      → (block : Block) × (block_fill sbi b ≡ ok block)
        × (block.size ≡ min sbi.super.block_size (length bytes - start))
        × (block.compressed_size ≤ sbi.super.block_size)
        × (sbi.super.entries_offset + block.offset + block.compressed_size ≤ length disk)
        × (sbi.uncompress
              (take block.compressed_size (drop (sbi.super.entries_offset + block.offset) disk))
              block.size
            ≡ some (take sbi.super.block_size (drop start bytes)))

powers : (k : ℕ) → 0 < 2 ^ k
powers zero = omega arith
powers (suc k) = let h = powers k in omega (arith, h)

power_positive : (size k : ℕ) → size ≡ 2 ^ k → 0 < size
power_positive size k e = rw e (powers k)

-- A block is read from the device.
pub read_data-AreBlocks :
    (malloc cache : ℕ → Bool) (dev : Device) (sbi : SuperInfo) (disk bytes : List ℕ) (capacity : ℕ)
    → ((n : ℕ) → malloc n ≡ true)
    → HoldsDisk dev disk
    → HoldsBlocks sbi disk bytes
    → AreBlocks (read_data malloc cache dev sbi (append capacity)) sbi.super.block_size bytes
unfolding read_data
read_data-AreBlocks malloc cache dev sbi disk bytes capacity memory holds blocks = record {
  positive = power_positive sbi.super.block_size sbi.super.block_log2 blocks.power;
  block_at = λ b start here inside.
      (let (block, filled, long, fits, on_disk, out) = blocks.row_at b start here inside in
        let size = sbi.super.block_size in
        let (cbuffer, run, part, room) =
          read_fresh malloc dev disk size (sbi.super.entries_offset + block.offset)
            block.compressed_size memory holds (omega (arith, on_disk, blocks.short))
            (omega (arith, fits, blocks.narrow)) on_disk fits in
        let small : leb block.size size ≡ true = le→leb block.size size (omega (arith, long)) in
        let short : ltb (sbi.super.entries_offset + block.offset) (2 ^ 31) ≡ true =
          lt→ltb (sbi.super.entries_offset + block.offset) (2 ^ 31)
            (omega (arith, on_disk, blocks.short)) in
        let count : length (take size (drop start bytes)) ≡ block.size =
          omega (arith, long, length-take size (drop start bytes), length-drop start bytes) in
        let all : (length (take size (drop start bytes)) == block.size) ≡ true =
          (==_iff (length (take size (drop start bytes))) block.size).1 count in
        let read_it : (block.compressed_size == block.compressed_size) ≡ true =
          (==_iff block.compressed_size block.compressed_size).1 refl in
        (block, rw (filled, small, short, run, read_it, part, out, all) refl, long));
}
