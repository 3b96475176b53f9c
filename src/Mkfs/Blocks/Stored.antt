-- ===== src/Mkfs/Blocks/Stored.antt =====
-- The compressed blocks of `output_write` lie where their offsets say.
use smashfs.Base.{ℕ, ◌+◌, ◌^◌, ◌<◌, ◌≤◌, ◌≡◌, ◌∙◌, sym, refl, ap, arith, Bool, true, ==_iff, ◌==◌}
use smashfs.Base.{List, [], ◌∷◌, ◌++◌, length, length-append, length-take, take, drop}
use smashfs.Base.{take-append_length, drop-append_length, ok, u32}
use native.Mathlib.Nat.{mod-eq_of_lt}
use smashfs.Buffer
use smashfs.Buffer.{Buffer}
use smashfs.Buffer.Add.{IsValid, add_lem, length-contents}
use smashfs.Mkfs.{Block}
use smashfs.Mkfs.Blocks.{place_blocks}
use smashfs.Base.{append_assoc, append-nil}

-- The bytes of every block stand at its offset.
abbrev pub AreStored : List ℕ → List Block → Type 0
AreStored bytes [] = Unit
AreStored bytes (b ∷ bs) =
    (take b.compressed_size (drop b.offset bytes) ≡ take b.compressed_size b.cbuffer)
    × AreStored bytes bs

-- What the compression of a block leaves.
abbrev pub AreCompressed : List Block → Type 0
AreCompressed [] = Unit
AreCompressed (b ∷ bs) =
    (b.compressed_size ≤ length b.cbuffer) × (b.compressed_size < 2 ^ 31) × AreCompressed bs

abbrev pub total : List Block → ℕ
total [] = 0
total (b ∷ bs) = b.compressed_size + total bs

stands :
    (before mid tail : List ℕ) (offset n : ℕ)
    → length before ≡ offset
    → length mid ≡ n
    → take n (drop offset ((before ++ mid) ++ tail)) ≡ mid
stands before mid tail offset n e1 e2 =
    ap (λ (l : List ℕ). take n (drop offset l)) (append_assoc before mid tail)
    ∙ ap (λ (k : ℕ). take n (drop k (before ++ (mid ++ tail)))) (sym e1)
    ∙ ap (take n) (drop-append_length before (mid ++ tail))
    ∙ ap (λ (k : ℕ). take k (mid ++ tail)) (sym e2)
    ∙ take-append_length mid tail

module _ (malloc : ℕ → Bool) (m : (n : ℕ) → malloc n ≡ true) where
  place_blocks-step :
      (b : Block) (bs bs' : List Block) (offset : ℕ) (buf b1 b2 : Buffer)
      → Buffer.add malloc buf b.cbuffer (u32 b.compressed_size) ≡ ok (b.compressed_size, b1)
      → place_blocks malloc bs (offset + b.compressed_size) b1 ≡ ok (bs', b2)
      → place_blocks malloc (b ∷ bs) offset buf ≡ ok (record b { offset = offset } ∷ bs', b2)
  unfolding place_blocks
  place_blocks-step b bs bs' offset buf b1 b2 first rest =
      let same : (b.compressed_size == b.compressed_size) ≡ true =
        (==_iff b.compressed_size b.compressed_size).1 refl in
      rw (first, same, rest)

  -- With memory to be had, the loop appends the compressed blocks to the buffer, and each block's
  -- offset is the place where its bytes stand in it.
  pub place_blocks-AreStored :
      (bs : List Block) (offset : ℕ) (buf : Buffer)
      → IsValid buf
      → buf.length ≡ offset
      → AreCompressed bs
      → offset + total bs < 2 ^ 62
      → (bs' : List Block) × (buf' : Buffer) × (tail : List ℕ) × (place_blocks malloc bs offset buf
          ≡ ok (bs', buf'))
        × (Buffer.contents buf' ≡ Buffer.contents buf ++ tail)
        × (length tail ≡ total bs)
        × AreStored (Buffer.contents buf') bs'
  unfolding place_blocks
  place_blocks-AreStored [] offset buf valid e are room =
      ([], buf, [], refl, sym (append-nil (Buffer.contents buf)), refl, tt)
  place_blocks-AreStored (b ∷ bs) offset buf valid e are room =
      let n = b.compressed_size in
      let mid = take n b.cbuffer in
      let (b1, a1) = add_lem malloc buf b.cbuffer n valid m are.0 are.1 (omega arith) in
      let (bs', b2, tail, run, same, len, stored) =
        place_blocks-AreStored bs (offset + n) b1 a1.valid (a1.longer ∙ omega (arith, e)) are.2
          (omega arith) in
      let whole : u32 n ≡ n = mod-eq_of_lt (let p = are.1 in omega arith) in
      let first : Buffer.add malloc buf b.cbuffer (u32 n) ≡ ok (n, b1) =
        ap (λ (k : ℕ). Buffer.add malloc buf b.cbuffer k) whole ∙ a1.returns in
      let long : length mid ≡ n = length-take n b.cbuffer ∙ omega (arith, are.0) in
      let all : Buffer.contents b2 ≡ (Buffer.contents buf ++ mid) ++ tail =
        same ∙ ap (λ (l : List ℕ). l ++ tail) a1.appended in
      (
        record b { offset = offset } ∷ bs',
        b2,
        mid ++ tail,
        place_blocks-step b bs bs' offset buf b1 b2 first run,
        all ∙ append_assoc (Buffer.contents buf) mid tail,
        omega (arith, length-append mid tail, long, len),
        (
          ap (λ (l : List ℕ). take n (drop offset l)) all
              ∙ stands (Buffer.contents buf) mid tail offset n (length-contents valid ∙ e) long,
          stored,
        ),
      )
