-- ===== src/Bitbuffer.antt =====
-- src/mkfs/bitbuffer.c: a cursor that writes and reads bit fields of a byte array, the most
-- significant bit first. The kernel's src/linux/bitbuffer.c is the same code less `init`.
pub mod View
pub mod Get
pub mod Put
pub mod Fields
pub mod Cursor
pub mod Fresh
use smashfs.Base.{ℕ, zero, suc, ◌+◌, ◌-◌, ◌*◌, ◌/◌, ◌%◌, ◌^◌, bit_or}
use smashfs.Base.{Bool, true, false, List, [], ◌∷◌, ◌++◌, get_elem?, set, replicate, take, drop}
use smashfs.Base.{length, ltb, leb, ◌==◌, ◌&&◌, if◌then◌else◌}
use smashfs.Base.{Result, ok, fail, fault, ◌>>=◌, ◌>>◌, require, defined, load, u8, u32, int, shl32}
use smashfs.Base.{shr32}

-- `struct bitbuffer`. `buffer` is the array that the pointer names, and `end` is the offset of
-- the end pointer in it.
pub record Bitbuffer : Type 0 where
  pub buffer : List ℕ
  pub end : ℕ
  pub size : ℕ
  pub bsize : ℕ
  pub index : ℕ
  pub external : ℕ

-- `malloc size` says whether an allocation of that size succeeds.
unfoldable pub init : (ℕ → Bool) → ℕ → Result Bitbuffer
init malloc size = do
  require (malloc size)
  bsize ← int (size * 8)
  ok (record {
    buffer = replicate size 0;
    end = size;
    size = size;
    bsize = bsize;
    index = 0;
    external = 0;
  })

unfoldable pub init_from_buffer : List ℕ → ℕ → Result Bitbuffer
init_from_buffer buffer size = do
  bsize ← int (size * 8)
  ok (record { buffer = buffer; end = size; size = size; bsize = bsize; index = 0; external = 1 })

-- What the cursor names after its memory is given back: nothing.
unfoldable pub uninit : Bitbuffer → Result Bitbuffer
uninit b = init_from_buffer [] 0

pub getbitlength : Bitbuffer → ℕ
getbitlength b = if ltb b.index b.bsize then b.bsize - b.index else 0

pub getlength : Bitbuffer → ℕ
getlength b = (getbitlength b + 7) / 8

pub getpos : Bitbuffer → ℕ
getpos b = b.index

-- The parameter is an `unsigned int`; an index of 2 ^ 31 or more faults when it is used.
unfoldable pub setpos : Bitbuffer → ℕ → Bitbuffer
setpos b pos = record b { index = u32 pos }

unfoldable pub putbit : Bitbuffer → ℕ → Result Bitbuffer
putbit b value = do
  let bit = b.index % 8
  let byte = b.index / 8
  old ← load (get_elem? b.buffer byte)
  index ← int (b.index + 1)
  ok (record b {
    buffer = set b.buffer byte (u8 (bit_or old (value % 2 * 2 ^ (7 - bit))));
    index = index;
  })

unfoldable pub putbits : Bitbuffer → ℕ → ℕ → Result Bitbuffer
putbits b zero v = ok b
putbits b (suc n) v = do shifted ← shr32 v n; b' ← putbit b (shifted % 2); putbits b' n v

unfoldable pub getbit : Bitbuffer → Result (ℕ × Bitbuffer)
getbit b = do
  let bit = b.index % 8
  let byte = b.index / 8
  index ← int (b.index + 1)
  x ← load (get_elem? b.buffer byte)
  ok (x / 2 ^ (7 - bit) % 2, record b { index = index })

-- The inner loop of `bitbuffer_getbits`, a byte at a time; the first argument is fuel.
unfoldable pub getbytes_loop : ℕ → Bitbuffer → ℕ → ℕ → Result (ℕ × ℕ × Bitbuffer)
getbytes_loop zero b n tmp = fault
getbytes_loop (suc fuel) b n tmp =
    let rest = (do
      shifted ← shl32 tmp 8
      x ← load (get_elem? b.buffer (b.index / 8))
      index ← int (b.index + 8)
      getbytes_loop fuel (record b { index = index }) (n - 8) (bit_or shifted x)) in
    if leb 8 n then rest else ok (tmp, n, b)

-- The outer loop, `while (n)`.
unfoldable pub getbits_loop : ℕ → Bitbuffer → ℕ → ℕ → Result (ℕ × Bitbuffer)
getbits_loop zero b n tmp = fault
getbits_loop (suc fuel) b zero tmp = ok (tmp, b)
getbits_loop (suc fuel) b (suc n) tmp =
    let bytes = (do
      (tmp', n', b') ← getbytes_loop (suc fuel) b (suc n) tmp
      getbits_loop fuel b' n' tmp') in
    let bit = (do
      shifted ← shl32 tmp 1
      (x, b') ← getbit b
      getbits_loop fuel b' n (bit_or shifted x)) in
    if (b.index % 8 == 0) && leb 8 (suc n) then bytes else bit

-- Each round takes at least one bit, so `n + 1` rounds are enough.
unfoldable pub getbits : Bitbuffer → ℕ → Result (ℕ × Bitbuffer)
getbits b n = getbits_loop (n + 1) b n 0

-- The branch of `bitbuffer_getbuffer` for an index inside a byte: `n` fields of 8 bits.
pub getbuffer_loop : Bitbuffer → ℕ → Result (List ℕ × Bitbuffer)
getbuffer_loop b zero = ok ([], b)
getbuffer_loop b (suc n) = do
  (x, b') ← getbits b 8
  (xs, b'') ← getbuffer_loop b' n
  ok (u8 x ∷ xs, b'')

-- The bytes that are stored through `buffer`, and the cursor after them.
pub getbuffer : Bitbuffer → ℕ → Result (List ℕ × Bitbuffer)
getbuffer b n =
    let aligned = (do
      defined (leb (b.index / 8 + n) (length b.buffer))
      index ← int (b.index + n * 8)
      ok (take n (drop (b.index / 8) b.buffer), record b { index = index })) in
    if b.index % 8 == 0 then aligned else getbuffer_loop b n

unfoldable pub skipbits : Bitbuffer → ℕ → Result Bitbuffer
skipbits b n = do index ← int (b.index + n); ok (record b { index = index })

pub showbits : Bitbuffer → ℕ → Result (ℕ × Bitbuffer)
showbits b n = do (tmp, b') ← getbits b n; ok (tmp, record b' { index = b.index })

-- The first argument is written to, the second read; they are two buffers.
pub copybits : Bitbuffer → Bitbuffer → ℕ → Result (ℕ × Bitbuffer × Bitbuffer)
copybits p g n = do (el, g') ← getbits g n; p' ← putbits p n el; ok (el, p', g')
