-- ===== src/Kernel/Device.antt =====
-- src/linux/super.c, `smashfs_read`: bytes of the block device, through its block buffers.
pub mod Splice
pub mod Copy
pub mod Reads
pub mod Fresh
use smashfs.Base.{ℕ, zero, suc, ◌+◌, ◌-◌, ◌*◌, ◌/◌, ◌%◌, ◌^◌, min, Bool, List, [], ◌∷◌, ◌++◌}
use smashfs.Base.{Option, none, some, length, take, drop, leb, ltb, ◌==◌, if◌then◌else◌}
use smashfs.Base.{Result, ok, fail, fault, int, ◌>>=◌, ◌>>◌, require, defined}

-- The device: `getblk i` is the content of block `i` of `devblksize` bytes, or nothing where
-- `sb_getblk` or the read fails.
pub record Device : Type 0 where
  pub devblksize : ℕ
  pub devblksize_log2 : ℕ
  pub getblk : ℕ → Option (List ℕ)

abbrev pub page_cache_size : ℕ
page_cache_size = 4096

-- `memcpy` of `bytes` to offset `at` of an array, which must have the room.
pub memcpy : List ℕ → ℕ → List ℕ → Result (List ℕ)
memcpy buffer at bytes = do
  defined (leb (at + length bytes) (length buffer))
  ok (take at buffer ++ bytes ++ drop (at + length bytes) buffer)

-- `while (bytes < length)`: the block buffers. `bytes` starts at `-index`, so the loop runs on
-- `bytes + index`. `slots` entries of `bh` are left; a write past them is out of bounds.
pub getblk_loop : Device → ℕ → ℕ → ℕ → ℕ → ℕ → Result (List (List ℕ))
getblk_loop dev zero slots block bytes length = fault
getblk_loop dev (suc fuel) slots block bytes length =
    let more = (do
      defined (ltb 0 slots)
      content ← (elim (dev.getblk block) [ some content ↦ ok content | none ↦ fail ])
      rest ← getblk_loop dev fuel (slots - 1) (block + 1) (bytes + dev.devblksize) length
      ok (content ∷ rest)) in
    if ltb bytes length then more else ok []

-- The destination of the copy: `buffer` in `pages` pages, and the place in it.
pub record Target : Type 0 where
  pub buffer : List ℕ
  pub pages : ℕ
  pub page : ℕ
  pub pageoff : ℕ

-- One round of `while (in)`: as many bytes as `left` and the page have, and the target after it.
pub copy_page : List ℕ → ℕ → ℕ → Target → ℕ → ℕ → Result (ℕ × Target)
copy_page content index left t page pageoff = do
  let avail = min left (page_cache_size - pageoff)
  defined (ltb page t.pages)
  defined (leb (index + avail) (length content))
  buffer ← memcpy t.buffer (page * page_cache_size + pageoff) (take avail (drop index content))
  ok (avail, record t { buffer = buffer; page = page; pageoff = pageoff + avail })

-- `while (in)`: copies from one block, a page at a time.
pub copy_loop : ℕ → List ℕ → ℕ → ℕ → Target → Result Target
copy_loop zero content index left t = fault
copy_loop (suc fuel) content index zero t = ok t
copy_loop (suc fuel) content index (suc n) t = do
  let full = t.pageoff == page_cache_size
  let page = if full then t.page + 1 else t.page
  let pageoff = if full then 0 else t.pageoff
  (avail, t') ← copy_page content index (suc n) t page pageoff
  copy_loop fuel content (index + avail) (suc n - avail) t'

-- The loop over the block buffers; `bytes` is what is left to copy.
pub blocks_loop : Device → List (List ℕ) → ℕ → ℕ → Target → Result Target
blocks_loop dev [] index bytes t = ok t
blocks_loop dev (content ∷ rest) index bytes t = do
  let n = min bytes (dev.devblksize - index)
  t ← copy_loop (n + 1) content index n t
  blocks_loop dev rest 0 (bytes - n) t

-- The returned length, and the buffer after the call. `offset` and `length` are of type `int`: a
-- call with a value that an `int` cannot hold is a fault, as is a sum that overflows. `bytes`
-- stays below `length + devblksize`.
pub read : (ℕ → Bool) → Device → List ℕ → ℕ → ℕ → Result (ℕ × List ℕ)
read malloc dev buffer offset length = do
  offset ← int offset
  room ← int (length + page_cache_size - 1)
  sum ← int (length + dev.devblksize - 1)
  let pages = room / page_cache_size
  let index = offset % 2 ^ dev.devblksize_log2
  let block = offset / 2 ^ dev.devblksize_log2
  let blocks = sum / 2 ^ dev.devblksize_log2 + 1
  require (malloc (pages * 8))
  require (malloc (blocks * 8))
  contents ← getblk_loop dev (blocks + 1) blocks block 0 (length + index)
  t ←
      blocks_loop dev contents index length
        (record { buffer = buffer; pages = pages; page = 0; pageoff = 0 })
  ok (length, t.buffer)
