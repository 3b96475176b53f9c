-- ===== src/Bitbuffer/Fields.antt =====
-- A sequence of `bitbuffer_putbits` calls, as the tables of the file system are written.
use smashfs.Base.{ℕ, zero, suc, ◌+◌, ◌*◌, ◌%◌, ◌^◌, ◌≤◌, ◌<◌, ◌≡◌, refl, ap, ◌∙◌, sym, arith}
use smashfs.Base.{
  List, [], ◌∷◌, ◌++◌, length, get_elem?, some, Result, ok, ◌>>=◌, >>=_assoc, inl, inr, ◌⊎◌,
}
use mathlib.Core.Path.{fun_ext}
use smashfs.Bitbuffer.{Bitbuffer, putbits}
use smashfs.Bitbuffer.View.{bit_at, field, field_ext}
use smashfs.Bitbuffer.Get.{Readable}
use smashfs.Bitbuffer.Put.{IsPut, IsClear, putbits_lem}

-- A field's width and value.
abbrev pub Field : Type 0
Field = ℕ × ℕ

abbrev pub width : List Field → ℕ
width [] = 0
width ((n, v) ∷ fs) = n + width fs

abbrev pub IsNarrow : List Field → Type 0
IsNarrow [] = Unit
IsNarrow ((n, v) ∷ fs) = (n ≤ 32) × IsNarrow fs

-- The fields stand one after the other from bit `i` on.
abbrev pub Holds : List ℕ → ℕ → List Field → Type 0
Holds buf i [] = Unit
Holds buf i ((n, v) ∷ fs) = (field buf i n ≡ v % 2 ^ n) × Holds buf (i + n) fs

abbrev pub put_fields : List Field → Bitbuffer → Result Bitbuffer
put_fields [] b = ok b
put_fields ((n, v) ∷ fs) b = putbits b n v >>= put_fields fs

-- `out` is `buf` with the fields written from bit `i` on, and nothing else changed.
pub record ArePut (buf : List ℕ) (i : ℕ) (fs : List Field) (out : List ℕ) : Type 0 where
  pub readable : Readable out
  pub same_length : length out ≡ length buf
  pub kept : (j : ℕ) → (j < i) ⊎ (i + width fs ≤ j) → bit_at out j ≡ bit_at buf j
  pub held : Holds out i fs

ArePut-cons :
    {buf mid out : List ℕ} {i n v : ℕ} {fs : List Field}
    → IsPut buf i n v mid
    → ArePut mid (i + n) fs out
    → ArePut buf i ((n, v) ∷ fs) out
ArePut-cons {mid} {out} {i} {n} p q = record {
  readable = q.readable;
  same_length = q.same_length ∙ p.same_length;
  kept = λ j o. elim o [
    | inl lt ↦ q.kept j (inl (omega arith)) ∙ p.kept j (inl lt)
    | inr ge ↦ q.kept j (inr (omega arith)) ∙ p.kept j (inr (omega arith))
  ];
  held = (field_ext out mid i n (λ j a b. q.kept j (inl b)) ∙ p.value, q.held);
}

-- Fields that fit in zero bits of the buffer are all stored.
pub put_fields_lem :
    (fs : List Field) (b : Bitbuffer)
    → Readable b.buffer
    → IsNarrow fs
    → b.index + width fs ≤ length b.buffer * 8
    → IsClear b.buffer b.index (width fs)
    → (out : List ℕ) × (put_fields fs b
        ≡ ok (record b { buffer = out; index = b.index + width fs }))
      × ArePut b.buffer b.index fs out
put_fields_lem [] b r narrow fit clear = (
  b.buffer,
  (let e : b.index + 0 ≡ b.index = omega arith in rw e),
  record { readable = r; same_length = refl; kept = λ j o. refl; held = tt },
)
put_fields_lem ((n, v) ∷ fs) b r narrow fit clear =
    let (mid, run, first) =
      putbits_lem b n v r narrow.0 (omega arith) (λ j p q. clear j p (omega arith)) in
    let b' : Bitbuffer = record b { buffer = mid; index = b.index + n } in
    let (out, run', rest) =
      put_fields_lem fs b' first.readable narrow.1 (omega (arith, first.same_length))
        (λ j p q. first.kept j (inr p) ∙ clear j (omega arith) (omega arith)) in
    (
      out,
      (let e : b.index + n + width fs ≡ b.index + (n + width fs) = omega arith in
          rw (run, run', e)),
      ArePut-cons first rest,
    )

pub width-append : (fs gs : List Field) → width (fs ++ gs) ≡ width fs + width gs
width-append [] gs = omega arith
width-append ((n, v) ∷ fs) gs = omega (arith, width-append fs gs)

pub IsNarrow-append : (fs gs : List Field) → IsNarrow fs → IsNarrow gs → IsNarrow (fs ++ gs)
IsNarrow-append [] gs p q = q
IsNarrow-append ((n, v) ∷ fs) gs p q = (p.0, IsNarrow-append fs gs p.1 q)

pub put_fields-append :
    (fs gs : List Field) (b : Bitbuffer)
    → put_fields (fs ++ gs) b ≡ (put_fields fs b >>= put_fields gs)
put_fields-append [] gs b = refl
put_fields-append ((n, v) ∷ fs) gs b =
    ap (λ k. putbits b n v >>= k) (fun_ext (put_fields-append fs gs))
    ∙ sym (>>=_assoc (putbits b n v) (put_fields fs) (put_fields gs))

pub Holds-left :
    (buf : List ℕ) (i : ℕ) (fs gs : List Field) → Holds buf i (fs ++ gs) → Holds buf i fs
Holds-left buf i [] gs h = tt
Holds-left buf i ((n, v) ∷ fs) gs h = (h.0, Holds-left buf (i + n) fs gs h.1)

pub Holds-right :
    (buf : List ℕ) (i : ℕ) (fs gs : List Field)
    → Holds buf i (fs ++ gs)
    → Holds buf (i + width fs) gs
Holds-right buf i [] gs h = let e : i + 0 ≡ i = omega arith in rw e h
Holds-right buf i ((n, v) ∷ fs) gs h =
    let e : i + (n + width fs) ≡ i + n + width fs = omega arith in
    rw e (Holds-right buf (i + n) fs gs h.1)

-- A table: the rows' fields one row after the other.
module _ {A : Type 0} (row : A → List Field) where
  abbrev pub table : List A → List Field
  table [] = []
  table (x ∷ xs) = row x ++ table xs

  pub width-table :
      (w : ℕ) → ((x : A) → width (row x) ≡ w) → (xs : List A) → width (table xs) ≡ length xs * w
  width-table w h [] = omega arith
  width-table w h (x ∷ xs) = omega (arith, width-append (row x) (table xs), h x, width-table w h xs)

  pub IsNarrow-table : ((x : A) → IsNarrow (row x)) → (xs : List A) → IsNarrow (table xs)
  IsNarrow-table h [] = tt
  IsNarrow-table h (x ∷ xs) = IsNarrow-append (row x) (table xs) (h x) (IsNarrow-table h xs)

  -- Row `k` stands at `k` times the row's width.
  pub Holds-row :
      (w : ℕ)
      → ((x : A) → width (row x) ≡ w)
      → (buf : List ℕ) (i k : ℕ) (xs : List A) {x : A} → Holds buf i (table xs)
      → get_elem? xs k ≡ some x
      → Holds buf (i + k * w) (row x)
  Holds-row w h buf i k [] held e = cc
  Holds-row w h buf i zero (y ∷ ys) {x} held e =
      let eq : y ≡ x = cc in
      let e' : i + 0 * w ≡ i = omega arith in
      rw (e', ← eq) (Holds-left buf i (row y) (table ys) held)
  Holds-row w h buf i (suc k) (y ∷ ys) held e =
      let e' : i + suc k * w ≡ i + w + k * w = omega arith in
      let rest = Holds-right buf i (row y) (table ys) held in
      rw e' (Holds-row w h buf (i + w) k ys (rw (h y) at rest) e)
