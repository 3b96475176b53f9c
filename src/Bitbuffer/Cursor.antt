-- ===== src/Bitbuffer/Cursor.antt =====
-- A cursor that stands before a sequence of stored fields, and what reading them gives.
use smashfs.Base.{ℕ, ◌+◌, ◌*◌, ◌%◌, ◌^◌, ◌≤◌, ◌≡◌, ◌∙◌, ap, arith, List, ◌∷◌, length, ok}
use smashfs.Bitbuffer.{Bitbuffer, getbits}
use smashfs.Bitbuffer.Get.{Readable, getbits_lem}
use smashfs.Bitbuffer.Fields.{Field, width, IsNarrow, Holds}

abbrev pub past : Bitbuffer → ℕ → Bitbuffer
past b n = record b { index = b.index + n }

-- The cursor `b` stands before the fields `fs`, all inside the buffer.
pub record IsBefore (b : Bitbuffer) (fs : List Field) : Type 0 where
  pub readable : Readable b.buffer
  pub narrow : IsNarrow fs
  pub fit : b.index + width fs ≤ length b.buffer * 8
  pub holds : Holds b.buffer b.index fs

pub IsBefore-next :
    {b : Bitbuffer} {n v : ℕ} {fs : List Field} → IsBefore b ((n, v) ∷ fs) → IsBefore (past b n) fs
IsBefore-next s = record {
  readable = s.readable;
  narrow = s.narrow.1;
  fit = omega (arith, s.fit);
  holds = s.holds.1;
}

pub getbits-IsBefore :
    {b : Bitbuffer} {n v : ℕ} {fs : List Field}
    → IsBefore b ((n, v) ∷ fs)
    → getbits b n ≡ ok (v % 2 ^ n, past b n)
getbits-IsBefore {b} {n} s =
    getbits_lem b n s.readable s.narrow.0 (omega (arith, s.fit))
    ∙ ap (λ (x : ℕ). ok (x, past b n)) s.holds.0
