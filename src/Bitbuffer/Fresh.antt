-- ===== src/Bitbuffer/Fresh.antt =====
-- Packing a sequence of fields into a new buffer, and opening a packed buffer to read.
use smashfs.Base.{ℕ, ◌+◌, ◌*◌, ◌^◌, ◌≤◌, ◌<◌, ◌≡◌, ◌∙◌, arith, Bool, true, List, length}
use smashfs.Base.{length-replicate, ok, ◌>>=◌, lt→ltb, replicate, []}
use native.Mathlib.Nat.{mod-eq_of_lt}
use smashfs.Bitbuffer.{Bitbuffer, init, init_from_buffer, uninit, setpos}
use smashfs.Bitbuffer.View.{bit_at-replicate, IsBytes-replicate}
use smashfs.Bitbuffer.Get.{Readable}
use smashfs.Bitbuffer.Fields.{Field, width, IsNarrow, Holds, put_fields, put_fields_lem}

-- `buf` has `size` bytes that hold the fields from its start.
pub record IsPacked (size : ℕ) (fs : List Field) (buf : List ℕ) : Type 0 where
  pub readable : Readable buf
  pub same_length : length buf ≡ size
  pub held : Holds buf 0 fs

abbrev fresh : ℕ → Bitbuffer
fresh size = record {
  buffer = replicate size 0;
  end = size;
  size = size;
  bsize = size * 8;
  index = 0;
  external = 0;
}

init_lem :
    (malloc : ℕ → Bool) (size : ℕ)
    → malloc size ≡ true
    → size * 8 + 8 ≤ 2 ^ 31
    → init malloc size ≡ ok (fresh size)
unfolding init
init_lem malloc size m h = rw (m, lt→ltb (size * 8) (2 ^ 31) (omega arith))

pub pack_lem :
    (malloc : ℕ → Bool) (size : ℕ) (fs : List Field)
    → malloc size ≡ true
    → size * 8 + 8 ≤ 2 ^ 31
    → IsNarrow fs
    → width fs ≤ size * 8
    → (b : Bitbuffer) × ((init malloc size >>= put_fields fs) ≡ ok b) × IsPacked size fs b.buffer
pack_lem malloc size fs m h narrow fit =
    let len = length-replicate {0} {A = ℕ} size 0 in
    let readable : Readable (fresh size).buffer = record {
      bytes = IsBytes-replicate size;
      small = omega (arith, len);
    } in
    let (out, run, put) =
      put_fields_lem fs (fresh size) readable narrow (omega (arith, len))
        (λ j p q. bit_at-replicate size j) in
    (
      record (fresh size) { buffer = out; index = 0 + width fs },
      rw (init_lem malloc size m h) run,
      record { readable = put.readable; same_length = put.same_length ∙ len; held = put.held },
    )

-- A cursor set to bit `pos` of an array.
abbrev pub opened : List ℕ → ℕ → ℕ → Bitbuffer
opened buf size pos = record {
  buffer = buf;
  end = size;
  size = size;
  bsize = size * 8;
  index = pos;
  external = 1;
}

pub init_from_buffer_lem :
    (buf : List ℕ) (size : ℕ)
    → size * 8 < 2 ^ 31
    → init_from_buffer buf size ≡ ok (opened buf size 0)
unfolding init_from_buffer
init_from_buffer_lem buf size h = rw (lt→ltb (size * 8) (2 ^ 31) h)

pub setpos-opened :
    (buf : List ℕ) (size pos : ℕ)
    → pos < 2 ^ 32
    → setpos (opened buf size 0) pos ≡ opened buf size pos
unfolding setpos
setpos-opened buf size pos h = rw (mod-eq_of_lt h)

pub uninit_lem : (b : Bitbuffer) → uninit b ≡ ok (opened [] 0 0)
unfolding uninit
uninit_lem b = init_from_buffer_lem [] 0 (omega arith)
