-- ===== src/Bitbuffer/Put.antt =====
-- `bitbuffer_putbits` writes a field over zero bits and leaves every other bit alone.
use native.Mathlib.Nat.{
  pow-suc, one-le-pow, mod-lt, mod-eq_of_lt, div-add-mod', add-mul-mod_self_right,
}
use native.Mathlib.Decide.{ℕ_discrete}
use smashfs.Base.{ℕ, zero, suc, ◌+◌, ◌-◌, ◌*◌, ◌/◌, ◌%◌, ◌^◌, ◌≤◌, ◌<◌, ◌≡◌, refl, ap, ◌∙◌, arith}
use smashfs.Base.{
  List, length, set, get_elem?-eq-get_or, bit_or, byte_bit-bit_or, sym, ◌⊎◌, inl, inr,
}
use smashfs.Base.{length-set, get_or-set_self, get_or-set_ne, ◌≢◌}
use smashfs.Base.{ok, lt→ltb, ap₂}
use smashfs.Bitbuffer.{Bitbuffer, putbit, putbits}
use smashfs.Bitbuffer.View.{byte_at, bit_at, field, field-add}
use smashfs.Bitbuffer.View.{field_one}
use smashfs.Bitbuffer.Get.{Readable}

-- `out` is `buf` with `v` written as the `n` bits from bit `i` on, and nothing else changed.
pub record IsPut (buf : List ℕ) (i n v : ℕ) (out : List ℕ) : Type 0 where
  pub readable : Readable out
  pub same_length : length out ≡ length buf
  pub kept : (j : ℕ) → (j < i) ⊎ (i + n ≤ j) → bit_at out j ≡ bit_at buf j
  pub value : field out i n ≡ v % 2 ^ n

-- The bits that a field is written over must be zero.
abbrev pub IsClear : List ℕ → ℕ → ℕ → Type 0
IsClear buf i n = (j : ℕ) → i ≤ j → j < i + n → bit_at buf j ≡ 0

-- The array after one `putbit`.
abbrev with_bit : List ℕ → ℕ → ℕ → List ℕ
with_bit buf i v = set buf (i / 8) (bit_or (byte_at buf (i / 8)) (v * 2 ^ (7 - i % 8)) % 256)

bit_at-with_bit_self :
    (buf : List ℕ) (i v : ℕ)
    → Readable buf
    → i < length buf * 8
    → v < 2
    → bit_at buf i ≡ 0
    → bit_at (with_bit buf i v) i ≡ v
unfolding bit_at
bit_at-with_bit_self buf i v r h hv clear =
    let row =
      byte_bit-bit_or (byte_at buf (i / 8)) (i % 8) v (i % 8) (r.bytes (i / 8)) (omega arith) hv
        (omega arith) in
    rw
      (get_or-set_self buf (i / 8) (bit_or (byte_at buf (i / 8)) (v * 2 ^ (7 - i % 8)) % 256) 0
        (omega arith))
      (row ∙ ground arith)

bit_at-with_bit_ne :
    (buf : List ℕ) (i v j : ℕ)
    → Readable buf
    → i < length buf * 8
    → v < 2
    → j ≢ i
    → bit_at (with_bit buf i v) j ≡ bit_at buf j
unfolding bit_at
bit_at-with_bit_ne buf i v j r h hv ne = elim (ℕ_discrete (j / 8) (i / 8)) [
  | yes e ↦
      (let row =
          byte_bit-bit_or (byte_at buf (i / 8)) (i % 8) v (j % 8) (r.bytes (i / 8)) (omega arith) hv
            (omega arith) in
        let d : j % 8 ≢ i % 8 = λ q. ne (omega arith) in
        rw
          (
            e,
            get_or-set_self buf (i / 8) (bit_or (byte_at buf (i / 8)) (v * 2 ^ (7 - i % 8)) % 256) 0
                (omega arith),
          )
          (row ∙ ground arith))
  | no d ↦ rw (
      get_or-set_ne buf (i / 8) (j / 8) (bit_or (byte_at buf (i / 8)) (v * 2 ^ (7 - i % 8)) % 256) 0
        (λ e. d (sym e)))
]

Readable-with_bit :
    (buf : List ℕ) (i v : ℕ) → Readable buf → i < length buf * 8 → Readable (with_bit buf i v)
Readable-with_bit buf i v r h = record {
  bytes = λ j. elim (ℕ_discrete (i / 8) j) [
    | yes e ↦ rw (← e) (
        omega (
          arith,
          get_or-set_self buf (i / 8) (bit_or (byte_at buf (i / 8)) (v * 2 ^ (7 - i % 8)) % 256) 0
              (omega arith),
        ))
    | no d ↦
        rw
          (get_or-set_ne buf (i / 8) j (bit_or (byte_at buf (i / 8)) (v * 2 ^ (7 - i % 8)) % 256) 0
            d)
          (r.bytes j)
  ];
  small =
      rw (length-set buf (i / 8) (bit_or (byte_at buf (i / 8)) (v * 2 ^ (7 - i % 8)) % 256))
        (r.small);
}

putbit_lem :
    (b : Bitbuffer) (v : ℕ)
    → Readable b.buffer
    → b.index < length b.buffer * 8
    → putbit b v ≡ ok (record b { buffer = with_bit b.buffer b.index (v % 2); index = b.index + 1 })
unfolding putbit
putbit_lem b v r h = rw (
  get_elem?-eq-get_or b.buffer (b.index / 8) 0 (omega arith),
  lt→ltb (b.index + 1) (2 ^ 31) (omega (arith, r.small)),
)

mod_top_bit : (v n : ℕ) → v % 2 ^ suc n ≡ v / 2 ^ n % 2 * 2 ^ n + v % 2 ^ n
mod_top_bit v n =
    let small : v / 2 ^ n % 2 * 2 ^ n + v % 2 ^ n < 2 ^ n * 2 =
      low_sum (v / 2 ^ n % 2) (v % 2 ^ n) (2 ^ n) (omega arith)
        (mod-lt v (one-le-pow n 2 (omega arith))) in
    let parts : v / 2 ^ n % 2 * 2 ^ n + v % 2 ^ n + v / 2 ^ n / 2 * (2 ^ n * 2) ≡ v =
      whole (v / 2 ^ n) (v % 2 ^ n) (2 ^ n) ∙ div-add-mod' v (2 ^ n) in
    rw (pow-suc 2 n) (
      ap (λ (t : ℕ). t % (2 ^ n * 2)) (sym parts)
      ∙ add-mul-mod_self_right (v / 2 ^ n % 2 * 2 ^ n + v % 2 ^ n) (v / 2 ^ n / 2) (2 ^ n * 2)
      ∙ mod-eq_of_lt small)
  where
    low_sum : (x r p : ℕ) → x < 2 → r < p → x * p + r < p * 2
    low_sum zero r p hx hr = omega arith
    low_sum (suc zero) r p hx hr = omega arith
    low_sum (suc (suc x)) r p hx hr = absurd (omega arith)

    whole : (q r p : ℕ) → q % 2 * p + r + q / 2 * (p * 2) ≡ q * p + r
    whole q r p =
        let e : q % 2 + q / 2 * 2 ≡ q = omega arith in omega (arith, ap (λ (t : ℕ). t * p) e)

-- One bit, then the rest of the field.
IsPut-cons :
    {buf mid out : List ℕ} {i n v : ℕ}
    → IsPut buf i 1 (v / 2 ^ n % 2) mid
    → IsPut mid (i + 1) n v out
    → IsPut buf i (suc n) v out
IsPut-cons {buf} {mid} {out} {i} {n} {v} p q = record {
  readable = q.readable;
  same_length = q.same_length ∙ p.same_length;
  kept = λ j o. elim o [
    | inl lt ↦ q.kept j (inl (omega arith)) ∙ p.kept j (inl lt)
    | inr ge ↦ q.kept j (inr (omega arith)) ∙ p.kept j (inr (omega arith))
  ];
  value =
      let split = field-add out i 1 n in
      let first = field_one out i in
      let first' = field_one mid i in
      let same = q.kept i (inl (omega arith)) in
      let e : suc n ≡ 1 + n = omega arith in
      let top : bit_at out i ≡ v / 2 ^ n % 2 = omega (arith, p.value) in
      ap (field out i) e
      ∙ split
      ∙ ap₂ (λ (s t : ℕ). s * 2 ^ n + t) (first ∙ top) q.value
      ∙ sym (mod_top_bit v n);
}

IsPut-bit :
    (buf : List ℕ) (i v : ℕ)
    → Readable buf
    → i < length buf * 8
    → IsClear buf i 1
    → IsPut buf i 1 v (with_bit buf i (v % 2))
IsPut-bit buf i v r h clear = record {
  readable = Readable-with_bit buf i (v % 2) r h;
  same_length = length-set buf (i / 8) _;
  kept = λ j o.
      bit_at-with_bit_ne buf i (v % 2) j r h (omega arith)
        (λ e. elim o [ inl lt ↦ omega arith | inr ge ↦ omega arith ]);
  value = omega (
    arith,
    field_one (with_bit buf i (v % 2)) i,
    bit_at-with_bit_self buf i (v % 2) r h (omega arith) (clear i (omega arith) (omega arith)),
  );
}

-- A field of at most 32 bits, written over zero bits inside the buffer, is stored whole: reading
-- those bits gives the value cut to the width. Every other bit and the array's length stay, the
-- cursor moves past the field, and nothing is written out of bounds.
pub putbits_lem :
    (b : Bitbuffer) (n v : ℕ)
    → Readable b.buffer
    → n ≤ 32
    → b.index + n ≤ length b.buffer * 8
    → IsClear b.buffer b.index n
    → (out : List ℕ) × (putbits b n v ≡ ok (record b { buffer = out; index = b.index + n }))
      × IsPut b.buffer b.index n v out
unfolding putbits
putbits_lem b zero v r h fit clear = (
  b.buffer,
  (let e : b.index + 0 ≡ b.index = omega arith in rw e),
  record {
    readable = r;
    same_length = refl;
    kept = λ j o. refl;
    value = unfold field in omega arith;
  },
)
putbits_lem b (suc n) v r h fit clear =
    let x = v / 2 ^ n % 2 in
    let mid = with_bit b.buffer b.index (x % 2) in
    let first = IsPut-bit b.buffer b.index x r (omega arith) (λ j p q. clear j p (omega arith)) in
    let b' : Bitbuffer = record b { buffer = mid; index = b.index + 1 } in
    let (out, run, rest) =
      putbits_lem b' n v first.readable (omega arith) (rw first.same_length (omega arith))
        (λ j p q. first.kept j (inr p) ∙ clear j (omega arith) (omega arith)) in
    (
      out,
      (let e : b.index + 1 + n ≡ b.index + suc n = omega arith in
          rw (lt→ltb n 32 (omega arith), putbit_lem b x r (omega arith)) (run ∙ rw e)),
      IsPut-cons first rest,
    )
