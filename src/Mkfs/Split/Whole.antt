-- ===== src/Mkfs/Split/Whole.antt =====
-- The blocks of `output_write` are the whole entry buffer.
use smashfs.Base.{
  drop-add, ℕ, zero, suc, ◌+◌, ◌-◌, ◌*◌, ◌/◌, ◌^◌, ◌<◌, ◌≤◌, ◌≡◌, ◌∙◌, sym, refl, ap, arith, min,
  Bool, true,
}
use smashfs.Base.{List, [], ◌∷◌, ◌++◌, length, length-drop, take, drop, take-append-drop, ok}
use smashfs.Base.{leb, le→leb, leb→le, leb→gt, ltb, ltb→lt, ltb→ge, Bool-cases, inl, inr}
use smashfs.Mkfs.{Block}
use smashfs.Mkfs.Split.{split, block_count}
use native.Mathlib.Nat.{one-le-pow, mul-le-mul_right, mod-eq_of_lt, div-mul-le_self, lt-div-mul-add}
use smashfs.Base.{append-nil, take-length_all}

-- The bytes of the blocks, one after the other.
abbrev pub joined : List Block → List ℕ
joined [] = []
joined (b ∷ bs) = take b.size b.buffer ++ joined bs

drop_all : {A : Type 0} (n : ℕ) (xs : List A) → length xs ≤ n → drop n xs ≡ []
drop_all zero [] h = refl
drop_all (suc n) [] h = refl
drop_all zero (x ∷ xs) h = absurd (omega arith)
drop_all (suc n) (x ∷ xs) h = drop_all n xs (omega arith)

-- A part of at most `n` bytes, and what lies behind `n` bytes.
part : (n : ℕ) (xs : List ℕ) → take (min n (length xs)) xs ++ drop n xs ≡ xs
part n xs = elim (Bool-cases (leb n (length xs))) [
  | inl le ↦
      (let p = leb→le n (length xs) le in
        let e : min n (length xs) ≡ n = omega arith in rw e (take-append-drop n xs))
  | inr gt ↦
      (let p = leb→gt n (length xs) gt in
        let e : min n (length xs) ≡ length xs = omega arith in
        rw (e, drop_all n xs (omega arith), take-length_all xs) (append-nil xs))
]

module _ (malloc : ℕ → Bool) (block_size : ℕ) (m : (n : ℕ) → malloc n ≡ true) where
  -- With memory to be had and as many blocks as the bytes need, the loop sets up that many blocks,
  -- and their bytes, one block after the other, are the bytes of the entry buffer from `at` on.
  pub split-joined :
      (n : ℕ) (bytes : List ℕ) (at : ℕ)
      → length bytes ≤ at + n * block_size
      → at + n * block_size < length bytes + block_size
      → (blocks : List Block) × (split malloc block_size n bytes at ≡ ok blocks)
        × (length blocks ≡ n)
        × (joined blocks ≡ drop at bytes)
  unfolding split
  split-joined zero bytes at enough few = ([], refl, refl, sym (drop_all at bytes (omega arith)))
  split-joined (suc n) bytes at enough few =
      let next : suc n * block_size ≡ n * block_size + block_size = omega arith in
      let (blocks, run, count, same) =
        split-joined n bytes (at + block_size) (omega arith) (omega arith) in
      let inside : leb at (length bytes) ≡ true = le→leb at (length bytes) (omega arith) in
      let size = min block_size (length bytes - at) in
      let rest : length (drop at bytes) ≡ length bytes - at = length-drop at bytes in
      let whole : take size (drop at bytes) ++ drop block_size (drop at bytes) ≡ drop at bytes =
        ap (λ (k : ℕ). take (min block_size k) (drop at bytes) ++ drop block_size (drop at bytes))
          (sym rest)
        ∙ part block_size (drop at bytes) in
      (
        record {
          offset = 0;
          size = size;
          compressed_size = 0;
          buffer = drop at bytes;
          cbuffer = [];
          status = 0;
        }
            ∷ blocks,
        rw (inside, m (size * 2), run),
        omega (arith, count),
        (ap (λ (l : List ℕ). take size (drop at bytes) ++ l) (same ∙ drop-add at block_size bytes)
            ∙ whole),
      )

-- A count of blocks of at least one byte.
block_count-lt :
    (n len size : ℕ) → 1 ≤ size → len < 2 ^ 32 → n * size ≤ len + (size - 1) → n < 2 ^ 32
block_count-lt n len size some_bytes short fits = elim (Bool-cases (ltb n (2 ^ 32))) [
  | inl few ↦ ltb→lt n (2 ^ 32) few
  | inr many ↦
      (let ge = ltb→ge n (2 ^ 32) many in
        let scaled : (2 ^ 32) * size ≤ n * size = mul-le-mul_right size ge in
        absurd (omega (arith, scaled, fits, short, some_bytes)))
]

-- With memory to be had, a block size that is a power of two and fewer than 2 ^ 32 bytes,
-- `output_write` cuts the entry buffer into as many blocks as it counts, and their bytes, one block
-- after the other, are the bytes of the buffer.
pub split-block_count :
    (malloc : ℕ → Bool) (log2 : ℕ) (bytes : List ℕ)
    → ((n : ℕ) → malloc n ≡ true)
    → length bytes < 2 ^ 32
    → (blocks : List Block) × (split malloc
          (2 ^ log2)
          (block_count (2 ^ log2) log2 (length bytes))
          bytes
          0
        ≡ ok blocks)
      × (length blocks ≡ block_count (2 ^ log2) log2 (length bytes))
      × (joined blocks ≡ bytes)
unfolding block_count
split-block_count malloc log2 bytes m short =
    let size = 2 ^ log2 in
    let some_bytes : 1 ≤ size = one-le-pow log2 2 (omega arith) in
    let n = (length bytes + (size - 1)) / size in
    let least = div-mul-le_self (length bytes + (size - 1)) size in
    let most = lt-div-mul-add {a = length bytes + (size - 1)} {b = size} (omega arith) in
    let few : n < 2 ^ 32 = block_count-lt n (length bytes) size some_bytes short least in
    rw (mod-eq_of_lt few) (split-joined malloc size m n bytes 0 (omega arith) (omega arith))
