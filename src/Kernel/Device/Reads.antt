-- ===== src/Kernel/Device/Reads.antt =====
-- `smashfs_read` of src/linux/super.c reads the bytes of the device.
use native.Mathlib.Nat.{mod-lt, div-add-mod'}
use smashfs.Base.{
  ℕ, zero, suc, ◌+◌, ◌-◌, ◌*◌, ◌/◌, ◌%◌, ◌^◌, min, ◌<◌, ◌≤◌, ◌≡◌, ◌∙◌, refl, sym, ap, arith, Bool,
  true, List, [], ◌∷◌, ◌++◌, length, take, drop, ltb, leb, ltb→lt, ltb→ge, lt→ltb, some,
}
use smashfs.Base.{
  ok, Bool-cases, inl, inr, ◌⊎◌, take-drop-take, take_moved, leb→le, leb→gt, length-take,
  length-drop, take-drop_joined,
}
use smashfs.Kernel.Device.{Device, Target, page_cache_size, getblk_loop, blocks_loop, read}
use smashfs.Kernel.Device.Splice.{splice, splice-nil, splice-splice}
use smashfs.Kernel.Device.Copy.{IsAt, copy_loop_lem}

-- The device holds the bytes of `disk` in whole blocks of a power of two.
pub record HoldsDisk (dev : Device) (disk : List ℕ) : Type 0 where
  pub power : dev.devblksize ≡ 2 ^ dev.devblksize_log2
  pub positive : 0 < dev.devblksize
  pub small : dev.devblksize ≤ page_cache_size
  pub getblk_at :
      (block start : ℕ)
      → start ≡ block * dev.devblksize
      → start < length disk
      → (start + dev.devblksize ≤ length disk)
        × (dev.getblk block ≡ some (take dev.devblksize (drop start disk)))

-- The block buffers are the blocks of the device from byte `start` on.
abbrev pub AreBuffers : Device → List ℕ → ℕ → List (List ℕ) → Type 0
AreBuffers dev disk start [] = Unit
AreBuffers dev disk start (content ∷ rest) =
    (content ≡ take dev.devblksize (drop start disk))
    × (start + dev.devblksize ≤ length disk)
    × AreBuffers dev disk (start + dev.devblksize) rest

-- A copy from one block, and the rest from the blocks behind it.
copied_all :
    (buffer disk content : List ℕ) (at start size index n rest : ℕ)
    → content ≡ take size (drop start disk)
    → index + n ≤ size
    → start + size ≤ length disk
    → (rest ≡ 0) ⊎ (start + size + 0 ≡ start + index + n)
    → at + (n + rest) ≤ length buffer
    → splice
        (splice buffer at (take n (drop index content)))
        (at + n)
        (take rest (drop (start + size + 0) disk))
      ≡ splice buffer at (take (n + rest) (drop (start + index) disk))
copied_all buffer disk content at start size index n rest content_is in_block whole end fits =
    let p = start + index in
    let first = take n (drop p disk) in
    let second = take rest (drop (p + n) disk) in
    let size1 : length first ≡ n =
      omega (arith, length-take n (drop p disk), length-drop p disk, whole, in_block) in
    let size2 = length-take rest (drop (p + n) disk) in
    let first_is : take n (drop index content) ≡ first =
      ap (λ (l : List ℕ). take n (drop index l)) content_is
      ∙ take-drop-take disk start size index n in_block in
    let second_is = take_moved disk (p + n) (start + size + 0) rest end in
    let two =
      ap (λ m. splice (splice buffer at first) (at + m) second) (sym size1)
      ∙ splice-splice buffer at first second (omega (arith, size1, size2, fits)) in
    rw (first_is, second_is)
      (two
        ∙ ap (λ xs. splice buffer at xs)
            (take-drop_joined disk p (p + n) n rest (n + rest) refl refl))

-- A block is copied to its end, or nothing is left.
end_of :
    (bytes index size start : ℕ)
    → index ≤ size
    → (bytes - min bytes (size - index) ≡ 0)
      ⊎ (start + size + 0 ≡ start + index + min bytes (size - index))
end_of bytes index size start h = elim (Bool-cases (leb bytes (size - index))) [
  | inl last ↦ inl (omega (arith, leb→le bytes (size - index) last))
  | inr more ↦ inr (omega (arith, h, leb→gt bytes (size - index) more))
]

one_less : (n b : ℕ) → 0 < n → n * b ≡ b + (n - 1) * b
one_less zero b h = absurd (omega (arith, h))
one_less (suc n) b h = let e : suc n - 1 ≡ n = omega arith in rw e (grind arith)

one_more : (n b : ℕ) → suc n * b ≡ b + n * b
one_more n b = grind arith

module _ (dev : Device) (disk : List ℕ) (holds : HoldsDisk dev disk) where
  getblk_loop_lem :
      (fuel slots block start bytes total : ℕ)
      → start ≡ block * dev.devblksize
      → slots < fuel
      → total ≤ bytes + slots * dev.devblksize
      → start + (total - bytes) ≤ length disk
      → (cs : List (List ℕ)) × (getblk_loop dev fuel slots block bytes total ≡ ok cs)
        × AreBuffers dev disk start cs
        × (total ≤ bytes + length cs * dev.devblksize)
  unfolding getblk_loop
  getblk_loop_lem zero slots block start bytes total here enough room inside =
      absurd (omega (arith, enough))
  getblk_loop_lem (suc fuel) slots block start bytes total here enough room inside =
      elim (Bool-cases (ltb bytes total)) [
        | inr done ↦ ([], rw done refl, tt, omega (arith, ltb→ge bytes total done))
        | inl more ↦
            (let lt = ltb→lt bytes total more in
              let (whole, found) = holds.getblk_at block start here (omega (arith, lt, inside)) in
              let some_slots : 0 < slots = grind (arith, lt, room) in
              let t1 = lt→ltb 0 slots some_slots in
              let next : start + dev.devblksize ≡ (block + 1) * dev.devblksize =
                grind (arith, here) in
              let room' : total ≤ bytes + dev.devblksize + (slots - 1) * dev.devblksize =
                omega (arith, room, one_less slots dev.devblksize some_slots) in
              let (cs, run, are, all) =
                getblk_loop_lem fuel (slots - 1) (block + 1) (start + dev.devblksize)
                  (bytes + dev.devblksize) total next (omega (arith, enough, some_slots)) room'
                  (omega (arith, whole, inside)) in
              (
                take dev.devblksize (drop start disk) ∷ cs,
                rw (more, t1, found, run) refl,
                (refl, whole, are),
                omega (arith, all, one_more (length cs) dev.devblksize),
              ))
      ]

  -- The blocks, one behind the other, are copied behind what is there.
  blocks_loop_lem :
      (cs : List (List ℕ)) (start index bytes : ℕ) (t : Target) (at : ℕ)
      → AreBuffers dev disk start cs
      → index ≤ dev.devblksize
      → index + bytes ≤ length cs * dev.devblksize
      → IsAt t at bytes
      → (t' : Target) × (blocks_loop dev cs index bytes t ≡ ok t')
        × (t'.buffer ≡ splice t.buffer at (take bytes (drop (start + index) disk)))
  unfolding blocks_loop
  blocks_loop_lem [] start index bytes t at are in_block all is =
      let nothing : bytes ≡ 0 = omega (arith, all) in
      (t, refl, rw nothing (sym (splice-nil t.buffer at)))
  blocks_loop_lem (content ∷ rest) start index bytes t at are in_block all is =
      let size = dev.devblksize in
      let n = min bytes (size - index) in
      let (content_is, whole, others) = are in
      let long : length content ≡ size =
        ap (λ (l : List ℕ). length l) content_is
        ∙ omega (arith, length-take size (drop start disk), length-drop start disk, whole) in
      let split : n + (bytes - n) ≡ bytes = omega arith in
      let is' : IsAt t at (n + (bytes - n)) = rw split is in
      let (t1, run1, is1, copied1) =
        copy_loop_lem (n + 1) content index n t at (bytes - n) (omega arith)
          (omega (arith, long, in_block)) is' in
      let (t2, run2, copied2) =
        blocks_loop_lem rest (start + size) 0 (bytes - n) t1 (at + n) others (omega arith)
          (omega (arith, all, one_more (length rest) size)) is1 in
      (
        t2,
        rw run1 run2,
        copied2
            ∙ ap (λ b. splice b (at + n) (take (bytes - n) (drop (start + size + 0) disk))) copied1
            ∙ copied_all t.buffer disk content at start size index n (bytes - n) content_is
                (omega (arith, in_block)) whole (end_of bytes index size start in_block)
                (omega (arith, is.in_buffer))
            ∙ ap (λ m. splice t.buffer at (take m (drop (start + index) disk))) split,
      )

-- A quotient and a remainder, by any divisor but 0.
parts : (a b : ℕ) → 0 < b → (a / b * b + a % b ≡ a) × (a % b < b)
parts a b h = (div-add-mod' a b, mod-lt a h)

-- With memory to be had, blocks no larger than a page, an offset below 2 ^ 31, and a length that
-- is below 2 ^ 31 by a page or more, `smashfs_read` of bytes that the device has returns their
-- number and puts exactly them at the start of the buffer, across block and page borders; the rest
-- of the buffer stays, no block buffer and no page is named that there is not, and its loops end.
pub read-HoldsDisk :
    (malloc : ℕ → Bool) (dev : Device) (disk buffer : List ℕ) (offset size : ℕ)
    → ((n : ℕ) → malloc n ≡ true)
    → HoldsDisk dev disk
    → offset < 2 ^ 31
    → size + page_cache_size ≤ 2 ^ 31
    → offset + size ≤ length disk
    → size ≤ length buffer
    → read malloc dev buffer offset size
      ≡ ok (size, take size (drop offset disk) ++ drop size buffer)
unfolding read
read-HoldsDisk malloc dev disk buffer offset size memory holds low paged inside fits =
    let bs = dev.devblksize in
    let m = 2 ^ dev.devblksize_log2 in
    let positive : 0 < m = omega (arith, holds.positive, holds.power) in
    let index = offset % m in
    let block = offset / m in
    let q = (size + bs - 1) / m in
    let (whole, in_block) = parts offset m positive in
    let (rounds, below) = parts (size + bs - 1) m positive in
    let start = block * m in
    let here : start ≡ block * bs = ap (λ k. block * k) (sym holds.power) in
    let enough : (q + 1) * bs ≡ q * m + m = grind (arith, holds.power) in
    let (cs, run1, are, all) =
      getblk_loop_lem dev disk holds (q + 1 + 1) (q + 1) block start 0 (size + index) here
        (omega arith) (omega (arith, enough, rounds, below, in_block, holds.positive, holds.power))
        (omega (arith, whole, inside)) in
    let t : Target = record {
      buffer = buffer;
      pages = (size + page_cache_size - 1) / page_cache_size;
      page = 0;
      pageoff = 0;
    } in
    let is : IsAt t 0 size = record {
      place = refl;
      in_page = omega arith;
      in_pages = omega arith;
      in_buffer = omega (arith, fits);
    } in
    let (t', run2, copied) =
      blocks_loop_lem dev disk holds cs start index size t 0 are
        (omega (arith, in_block, holds.power)) (omega (arith, all)) is in
    let bytes = take size (drop offset disk) in
    let long : 0 + length bytes ≡ size =
      omega (arith, length-take size (drop offset disk), length-drop offset disk, inside) in
    let copied' : t'.buffer ≡ bytes ++ drop size buffer =
      copied
      ∙ ap (λ k. splice buffer 0 (take size (drop k disk))) whole
      ∙ ap (λ k. bytes ++ drop k buffer) long in
    let i1 : ltb offset (2 ^ 31) ≡ true = lt→ltb offset (2 ^ 31) low in
    let i2 : ltb (size + page_cache_size - 1) (2 ^ 31) ≡ true =
      lt→ltb (size + page_cache_size - 1) (2 ^ 31) (omega (arith, paged)) in
    let i3 : ltb (size + bs - 1) (2 ^ 31) ≡ true =
      lt→ltb (size + bs - 1) (2 ^ 31) (omega (arith, paged, holds.small, holds.positive)) in
    rw
      (
        i1,
        i2,
        i3,
        memory ((size + page_cache_size - 1) / page_cache_size * 8),
        memory ((q + 1) * 8),
        run1,
        run2,
        copied',
      )
      refl
