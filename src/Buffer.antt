-- ===== src/Buffer.antt =====
-- src/mkfs/buffer.c: a byte array that grows by doubling.
pub mod Grow
pub mod Add
use smashfs.Base.{ℕ, zero, suc, ◌+◌, ◌*◌, ◌^◌, Bool, true, false, List, [], ◌∷◌, ◌++◌}
use smashfs.Base.{length, take, drop, ltb, leb, ◌==◌, if◌then◌else◌}
use smashfs.Base.{Result, ok, fail, fault, ◌>>=◌, ◌>>◌, require, defined, int}

-- `struct buffer`. `buffer` holds the bytes of the array that have been written, `size` counts
-- those that are allocated, and `length` those in use.
pub record Buffer : Type 0 where
  pub buffer : List ℕ
  pub size : ℕ
  pub length : ℕ

abbrev pub init : Buffer
init = record { buffer = []; size = 0; length = 0 }

-- `buffer_reset` keeps the memory.
unfoldable pub reset : Buffer → Buffer
reset b = record b { length = 0 }

-- The bytes in use, which is what a caller reads through `buffer_buffer` and `buffer_length`.
unfoldable pub contents : Buffer → List ℕ
contents b = take b.length b.buffer

-- The loop `while (buffer->length + size >= buffer->size)`, with fuel; `need` is the sum.
unfoldable pub grow : ℕ → ℕ → ℕ → Result ℕ
grow zero need size = fault
grow (suc fuel) need size =
    let next = if size == 0 then 1 else size * 2 in
    let rest = (do defined (ltb next (2 ^ 63)); grow fuel need next) in
    if leb size need then rest else ok size

-- The array after the growth: a new one holds the bytes in use.
unfoldable pub enlarge : (ℕ → Bool) → Buffer → ℕ → Result Buffer
enlarge malloc b need =
    let grown = (do
      size ← grow 65 need b.size
      require (malloc size)
      ok (record { buffer = take b.length b.buffer; size = size; length = b.length })) in
    if leb b.size need then grown else ok b

-- The returned `size` and the new state. `bytes` is the source array, of which `size` bytes are
-- copied.
unfoldable pub add : (ℕ → Bool) → Buffer → List ℕ → ℕ → Result (ℕ × Buffer)
add malloc b bytes size = do
  b' ← enlarge malloc b (b.length + size)
  defined (leb size (length bytes))
  rc ← int size
  ok (
    rc,
    record b' {
      buffer = take b'.length b'.buffer ++ take size bytes ++ drop (b'.length + size) b'.buffer;
      length = b'.length + size;
    },
  )
