-- ===== src/Kernel/Device/Splice.antt =====
-- Bytes that replace others in an array, as `memcpy` of src/linux/super.c does.
use smashfs.Base.{
  ℕ, ◌+◌, ◌≤◌, ◌≡◌, ◌∙◌, refl, sym, ap, ap₂, arith, List, [], ◌++◌, length, take, drop,
  length-append, length-take, length-drop, append_assoc, drop-add, drop-append_length,
  take-append_length, append-nil, take-append-drop,
}
use smashfs.Base.{ok, le→leb}
use smashfs.Kernel.Device.{memcpy}

abbrev pub splice : List ℕ → ℕ → List ℕ → List ℕ
splice buffer at xs = take at buffer ++ xs ++ drop (at + length xs) buffer

pub memcpy-splice :
    (buffer : List ℕ) (at : ℕ) (xs : List ℕ)
    → at + length xs ≤ length buffer
    → memcpy buffer at xs ≡ ok (splice buffer at xs)
unfolding memcpy
memcpy-splice buffer at xs h = let fits = le→leb (at + length xs) (length buffer) h in rw fits refl

pub length-splice :
    (buffer : List ℕ) (at : ℕ) (xs : List ℕ)
    → at + length xs ≤ length buffer
    → length (splice buffer at xs) ≡ length buffer
length-splice buffer at xs h = omega (
  arith,
  length-append (take at buffer ++ xs) (drop (at + length xs) buffer),
  length-append (take at buffer) xs,
  length-take at buffer,
  length-drop (at + length xs) buffer,
  h,
)

-- A part of two, by the length of the first.
take-append_eq : (n : ℕ) (xs ys : List ℕ) → length xs ≡ n → take n (xs ++ ys) ≡ xs
take-append_eq n xs ys e = ap (λ k. take k (xs ++ ys)) (sym e) ∙ take-append_length xs ys

drop-append_eq : (n : ℕ) (xs ys : List ℕ) → length xs ≡ n → drop n (xs ++ ys) ≡ ys
drop-append_eq n xs ys e = ap (λ k. drop k (xs ++ ys)) (sym e) ∙ drop-append_length xs ys

pub splice-nil : (buffer : List ℕ) (at : ℕ) → splice buffer at [] ≡ buffer
splice-nil buffer at =
    let at_0 : at + 0 ≡ at = omega arith in
    rw (at_0, append-nil (take at buffer)) (take-append-drop at buffer)

-- A copy behind another is one copy of both.
pub splice-splice :
    (buffer : List ℕ) (at : ℕ) (xs ys : List ℕ)
    → at + length xs + length ys ≤ length buffer
    → splice (splice buffer at xs) (at + length xs) ys ≡ splice buffer at (xs ++ ys)
splice-splice buffer at xs ys h =
    let head = take at buffer ++ xs in
    let tail = drop (at + length xs) buffer in
    let size : length head ≡ at + length xs =
      omega (arith, length-append (take at buffer) xs, length-take at buffer, h) in
    let front : take (at + length xs) (head ++ tail) ≡ head =
      take-append_eq (at + length xs) head tail size in
    let back : drop (at + length xs + length ys) (head ++ tail)
        ≡ drop (at + length (xs ++ ys)) buffer =
      drop-add (at + length xs) (length ys) (head ++ tail)
      ∙ ap (drop (length ys)) (drop-append_eq (at + length xs) head tail size)
      ∙ sym (drop-add (at + length xs) (length ys) buffer)
      ∙ ap (λ k. drop k buffer) (omega (arith, length-append xs ys)) in
    ap₂ (λ (a b : List ℕ). a ++ ys ++ b) front back
    ∙ ap (λ (a : List ℕ). a ++ drop (at + length (xs ++ ys)) buffer)
        (append_assoc (take at buffer) xs ys)
