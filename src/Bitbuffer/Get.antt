-- ===== src/Bitbuffer/Get.antt =====
-- `bitbuffer_getbits` and what rests on it read the bits from the cursor on.
use native.Mathlib.Nat.{pow-le-pow_right, zero-add}
use smashfs.Base.{ℕ, zero, suc, ◌+◌, ◌-◌, ◌*◌, ◌/◌, ◌%◌, ◌^◌, ◌≤◌, ◌<◌, ◌≡◌, refl, ◌∙◌, arith}
use smashfs.Base.{List, length, get_elem?, get_elem?-eq-get_or, bit_or, bit_or-shifted}
use smashfs.Base.{ok, some, Bool-cases, inl, inr, leb, ◌==◌, ◌&&◌, false}
use smashfs.Base.{lt→ltb, le→leb, leb→le, leb→gt}
use smashfs.Bitbuffer.{Bitbuffer, getbit, getbytes_loop, getbits_loop, getbits}
use smashfs.Bitbuffer.View.{byte_at, IsBytes, bit_at, field, bit_at-lt, field-lt, field-add}
use smashfs.Bitbuffer.View.{field_byte, field_one}

-- A buffer of bytes whose bits an `int` can count.
pub record Readable (buf : List ℕ) : Type 0 where
  pub bytes : IsBytes buf
  pub small : length buf * 8 + 8 ≤ 2 ^ 31

abbrev at : Bitbuffer → ℕ → Bitbuffer
at b i = record b { index = i }

-- The load of the byte at the cursor.
load_byte :
    (buf : List ℕ) (i : ℕ) → i < length buf * 8 → get_elem? buf (i / 8) ≡ some (byte_at buf (i / 8))
load_byte buf i h = get_elem?-eq-get_or buf (i / 8) 0 (omega arith)

pub getbit_lem :
    (b : Bitbuffer)
    → Readable b.buffer
    → b.index < length b.buffer * 8
    → getbit b ≡ ok (bit_at b.buffer b.index, at b (b.index + 1))
unfolding getbit bit_at
getbit_lem b r h =
    rw (lt→ltb (b.index + 1) (2 ^ 31) (omega (arith, r.small)), load_byte b.buffer b.index h)

-- Widths up to 32 do not wrap.
field_fits : (buf : List ℕ) (i k : ℕ) → k ≤ 32 → field buf i k < 2 ^ 32
field_fits buf i k h = omega (arith, field-lt buf i k, pow-le-pow_right {n = 2} (omega arith) h)

module _ (buf : List ℕ) (r : Readable buf) (i : ℕ) where
  shift_byte :
      (k : ℕ)
      → k + 8 ≤ 32
      → (i + k) % 8 ≡ 0
      → bit_or (field buf i k * 2 ^ 8 % 2 ^ 32) (byte_at buf ((i + k) / 8)) ≡ field buf i (k + 8)
  shift_byte k h a =
      let whole = field_fits buf i (k + 8) h in
      let sum = field-add buf i k 8 in
      let byte = field_byte buf (i + k) a (r.bytes ((i + k) / 8)) in
      let fits : field buf i k * 2 ^ 8 % 2 ^ 32 ≡ field buf i k * 2 ^ 8 = omega arith in
      let join =
        bit_or-shifted 8 (field buf i k) (byte_at buf ((i + k) / 8)) (r.bytes ((i + k) / 8)) in
      rw fits (omega (arith, join))

  shift_bit :
      (k : ℕ)
      → k + 1 ≤ 32
      → bit_or (field buf i k * 2 ^ 1 % 2 ^ 32) (bit_at buf (i + k)) ≡ field buf i (k + 1)
  shift_bit k h =
      let whole = field_fits buf i (k + 1) h in
      let sum = field-add buf i k 1 in
      let one = field_one buf (i + k) in
      let fits : field buf i k * 2 ^ 1 % 2 ^ 32 ≡ field buf i k * 2 ^ 1 = omega arith in
      let join = bit_or-shifted 1 (field buf i k) (bit_at buf (i + k)) (bit_at-lt buf (i + k)) in
      rw fits (omega (arith, join))

  -- One round of the inner loop.
  getbytes_step :
      (fuel : ℕ) (b : Bitbuffer) (k n : ℕ)
      → b.buffer ≡ buf
      → b.index ≡ i + k
      → (i + k) % 8 ≡ 0
      → k + 8 ≤ 32
      → 8 ≤ n
      → i + k + 8 ≤ length buf * 8
      → getbytes_loop (suc fuel) b n (field buf i k)
        ≡ getbytes_loop fuel (at b (b.index + 8)) (n - 8) (field buf i (k + 8))
  unfolding getbytes_loop
  getbytes_step fuel b k n eb ei a h8 hn fit = rw (
    le→leb 8 n hn,
    eb,
    ei,
    load_byte buf (i + k) (omega arith),
    lt→ltb (i + k + 8) (2 ^ 31) (omega (arith, r.small)),
    shift_byte k h8 a,
  )

  getbytes_lem :
      (fuel : ℕ) (b : Bitbuffer) (k n : ℕ)
      → n < fuel
      → b.buffer ≡ buf
      → b.index ≡ i + k
      → (i + k) % 8 ≡ 0
      → k + n ≤ 32
      → i + k + n ≤ length buf * 8
      → getbytes_loop fuel b n (field buf i k)
        ≡ ok (field buf i (k + n / 8 * 8), n % 8, at b (b.index + n / 8 * 8))
  getbytes_lem zero b k n hf eb ei a h fit = absurd (omega arith)
  getbytes_lem (suc fuel) b k n hf eb ei a h fit = elim (Bool-cases (leb 8 n)) [
    | inl more ↦
        (let ge : 8 ≤ n = leb→le 8 n more in
          let ih =
            getbytes_lem fuel (at b (b.index + 8)) (k + 8) (n - 8) (omega arith) eb (omega arith)
              (omega arith) (omega arith) (omega arith) in
          let e1 : k + 8 + (n - 8) / 8 * 8 ≡ k + n / 8 * 8 = omega arith in
          let e2 : (n - 8) % 8 ≡ n % 8 = omega arith in
          let e3 : b.index + 8 + (n - 8) / 8 * 8 ≡ b.index + n / 8 * 8 = omega arith in
          getbytes_step fuel b k n eb ei a (omega arith) ge (omega arith) ∙ ih ∙ rw (e1, e2, e3))
    | inr done ↦
        (let lt : n < 8 = leb→gt 8 n done in
          let e1 : k + n / 8 * 8 ≡ k = omega arith in
          let e2 : n % 8 ≡ n = omega arith in
          let e3 : b.index + n / 8 * 8 ≡ b.index = omega arith in
          rw (e1, e2, e3) (unfold getbytes_loop in rw done))
  ]

  -- One bit in the outer loop.
  getbit_step :
      (fuel : ℕ) (b : Bitbuffer) (k n : ℕ)
      → b.buffer ≡ buf
      → b.index ≡ i + k
      → ((b.index % 8 == 0) && leb 8 (suc n)) ≡ false
      → k + 1 ≤ 32
      → i + k < length buf * 8
      → getbits_loop (suc fuel) b (suc n) (field buf i k)
        ≡ getbits_loop fuel (at b (b.index + 1)) n (field buf i (k + 1))
  unfolding getbits_loop
  getbit_step fuel b k n eb ei test h fit =
      let read = getbit_lem b (rw eb r) (rw (eb, ei) fit) in
      rw (test, read) (rw (eb, ei, shift_bit k h))

  getbits_loop_lem :
      (fuel : ℕ) (b : Bitbuffer) (k n : ℕ)
      → n < fuel
      → b.buffer ≡ buf
      → b.index ≡ i + k
      → k + n ≤ 32
      → i + k + n ≤ length buf * 8
      → getbits_loop fuel b n (field buf i k) ≡ ok (field buf i (k + n), at b (b.index + n))
  unfolding getbits_loop
  getbits_loop_lem zero b k n hf eb ei h fit = absurd (omega arith)
  getbits_loop_lem (suc fuel) b k zero hf eb ei h fit =
      let e1 : k + 0 ≡ k = omega arith in
      let e2 : b.index + 0 ≡ b.index = omega arith in rw (e1, e2)
  getbits_loop_lem (suc fuel) b k (suc n) hf eb ei h fit =
      elim (Bool-cases ((b.index % 8 == 0) && leb 8 (suc n))) [
        | inl fast ↦
            (let a : b.index % 8 ≡ 0 = ground arith in
              let ge : 8 ≤ suc n = ground arith in
              let run = getbytes_lem (suc fuel) b k (suc n) hf eb ei (omega arith) h fit in
              let ih =
                getbits_loop_lem fuel (at b (b.index + suc n / 8 * 8)) (k + suc n / 8 * 8)
                  (suc n % 8) (omega arith) eb (omega arith) (omega arith) (omega arith) in
              let e1 : k + suc n / 8 * 8 + suc n % 8 ≡ k + suc n = omega arith in
              let e2 : b.index + suc n / 8 * 8 + suc n % 8 ≡ b.index + suc n = omega arith in
              rw (fast, run) (ih ∙ rw (e1, e2)))
        | inr slow ↦
            (let step = getbit_step fuel b k n eb ei slow (omega arith) (omega arith) in
              let ih =
                getbits_loop_lem fuel (at b (b.index + 1)) (k + 1) n (omega arith) eb (omega arith)
                  (omega arith) (omega arith) in
              let e1 : k + 1 + n ≡ k + suc n = omega arith in
              let e2 : b.index + 1 + n ≡ b.index + suc n = omega arith in step ∙ ih ∙ rw (e1, e2))
      ]

-- Up to 32 bits that lie inside the buffer are read as the number that they spell, by whichever
-- mix of the byte loop and the bit loop the alignment of the cursor gives, and the cursor moves
-- past them. Nothing is read out of bounds, and the fuel is enough.
pub getbits_lem :
    (b : Bitbuffer) (n : ℕ)
    → Readable b.buffer
    → n ≤ 32
    → b.index + n ≤ length b.buffer * 8
    → getbits b n ≡ ok (field b.buffer b.index n, record b { index = b.index + n })
unfolding getbits field
getbits_lem b n r h fit =
    getbits_loop_lem b.buffer r b.index (n + 1) b 0 n (omega arith) refl (omega arith) (omega arith)
      (omega arith)
    ∙ rw (zero-add n)
