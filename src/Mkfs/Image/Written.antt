-- ===== src/Mkfs/Image/Written.antt =====
-- What stands in the image that src/mkfs/mkfs.c writes.
use smashfs.Base.{
  ℕ, ◌+◌, ◌*◌, ◌-◌, ◌%◌, ◌^◌, ◌<◌, ◌≤◌, ◌≡◌, ◌∙◌, refl, sym, ap, arith, Bool, true, false, List, [],
  ◌++◌, length,
}
use smashfs.Base.{
  replicate, length-replicate, append_assoc, append-nil, take-append_length, drop-append_length,
  ◌≢◌, take, take-length_all, drop, leb, ◌==◌, ==_iff, Bool-cases, Option-cases, inl, inr,
  >>=_returns, require_passes,
}
use smashfs.Base.{Option, some, ok}
use mathlib.Core.Path.{subst}
use smashfs.Buffer
use smashfs.Buffer.{contents}
use smashfs.Buffer.Add.{add_lem, init-IsValid}
use smashfs.Format.{SuperBlock, sizeof_super_block}
use smashfs.Format.Words.{words, bytes_of}
use smashfs.Mkfs.Image.{compress_table, put, pad, write_image}

pub put_lem :
    (write : ℕ → ℕ → Option ℕ) (file bytes : List ℕ) {file' : List ℕ}
    → put write file bytes ≡ ok file'
    → file' ≡ file ++ bytes
unfolding put
put_lem write file bytes {file'} run = elim (Option-cases (write (length file) (length bytes))) [
  | inl broken ↦ (let run' = rw (put, broken) at run in cc)
  | inr (rc, taken) ↦ (let run' = rw (put, taken) at run in ground arith)
]

-- What is written behind the sections: nothing, or zeros up to the next multiple of 4096.
pub record IsPadding (no_padding : Bool) (total : ℕ) (zeros : List ℕ) : Type 0 where
  pub zero_bytes : zeros ≡ replicate (length zeros) 0
  pub short : length zeros < 4096
  pub none_asked : no_padding ≡ true → zeros ≡ []
  pub whole : no_padding ≡ false → (total + length zeros) % 4096 ≡ 0

pad_lem :
    (write : ℕ → ℕ → Option ℕ) (no_padding : Bool) (file : List ℕ) {file' : List ℕ}
    → pad write no_padding file ≡ ok file'
    → (zeros : List ℕ) × (file' ≡ file ++ zeros) × IsPadding no_padding (length file) zeros
unfolding pad
pad_lem write true file {file'} run =
    let same : file' ≡ file = cc in
    (
      [],
      same ∙ sym (append-nil file),
      record {
        zero_bytes = refl;
        short = omega arith;
        none_asked = λ asked. refl;
        whole = λ e. cc;
      },
    )
pad_lem write false file {file'} run = elim (Bool-cases (length file % 4096 == 0)) [
  | inl even ↦
      (let run' = rw (pad, even) at run in
        let same : file' ≡ file = cc in
        let even' = (==_iff (length file % 4096) 0).0 even in
        (
          [],
          same ∙ sym (append-nil file),
          record {
            zero_bytes = refl;
            short = omega arith;
            none_asked = λ asked. refl;
            whole = λ e. omega (arith, even');
          },
        ))
  | inr odd ↦
      (let run' = rw (pad, odd) at run in
        let rest = 4096 - length file % 4096 in
        let zeros = replicate rest 0 in
        let size : length zeros ≡ rest = length-replicate rest 0 in
        let nonzero : length file % 4096 ≢ 0 = ground arith in
        (
          zeros,
          put_lem write file zeros run',
          record {
            zero_bytes = ap (λ n. replicate n 0) (sym size);
            short = omega (arith, size, nonzero);
            none_asked = λ asked. cc;
            whole = λ e. omega (arith, size, nonzero);
          },
        ))
]

-- A part between others.
pub slice :
    (before part rest : List ℕ) (n k : ℕ)
    → length before ≡ n
    → length part ≡ k
    → take k (drop n (before ++ part ++ rest)) ≡ part
slice before part rest n k hn hk =
    rw (← hn, ← hk, append_assoc, drop-append_length, take-append_length) refl

pub bytes_of-words : (super : SuperBlock) → length (bytes_of (words super)) ≡ sizeof_super_block
bytes_of-words super = refl

module _ (malloc : ℕ → Bool) (memory : (n : ℕ) → malloc n ≡ true) where
  -- A fresh buffer holds what is added to it.
  pub fresh_lem :
      (bytes : List ℕ) (size : ℕ)
      → length bytes ≡ size
      → size < 2 ^ 31
      → (b : Buffer.Buffer) × (Buffer.add malloc Buffer.init bytes size ≡ ok (size, b))
        × (contents b ≡ bytes)
  unfolding contents
  fresh_lem bytes size e h =
      let (b, added) =
        add_lem malloc Buffer.init bytes size init-IsValid memory (omega (arith, e)) h
          (omega (arith, h)) in
      let all : take size bytes ≡ bytes = rw (← e) (take-length_all bytes) in
      (b, added.returns, added.appended ∙ all)

  pub compress_table_lem :
      (compress : List ℕ → ℕ → Option (List ℕ)) (table : List ℕ) {out : List ℕ}
      → length table < 2 ^ 31
      → compress_table malloc compress table ≡ ok out
      → (compress table (length table * 2) ≡ some out) × (length out ≤ length table)
  unfolding compress_table
  compress_table_lem compress table {out} small run =
      elim (Option-cases (compress table (length table * 2))) [
        | inl broken ↦
            (let run' = rw (compress_table, broken, memory (length table * 2)) at run in cc)
        | inr (out', done) ↦
            (let run' = rw (compress_table, done, memory (length table * 2)) at run in
              let (fits, run2) = require_passes (leb (length out') (length table)) _ (sym run') in
              let fits' : length out' ≤ length table = ground arith in
              let (b, added, holds) =
                fresh_lem out' (length out') refl (omega (arith, fits', small)) in
              let run3 = rw added at run2 in
              let same : out ≡ out' = cc in (done ∙ ap (λ x. some x) (sym same), rw same fits'))
      ]

  -- The image is the sections, one behind the other, and the padding.
  pub write_image_lem :
      (write : ℕ → ℕ → Option ℕ) (opened no_padding : Bool) (super : SuperBlock)
      (inodes blocks entries : List ℕ) {image : List ℕ}
      → write_image write malloc opened no_padding super inodes blocks entries ≡ ok image
      → (head zeros : List ℕ) × (head ≡ bytes_of (words super))
        × (image ≡ head ++ inodes ++ blocks ++ entries ++ zeros)
        × IsPadding no_padding (length (head ++ inodes ++ blocks ++ entries)) zeros
  unfolding write_image
  write_image_lem write false no_padding super inodes blocks entries run =
      let (b, added, holds) =
        fresh_lem (bytes_of (words super)) sizeof_super_block (bytes_of-words super)
          (omega arith) in
      let run' = rw (write_image, added) at run in cc
  write_image_lem write true no_padding super inodes blocks entries {image} run =
      let (b, added, holds) =
        fresh_lem (bytes_of (words super)) sizeof_super_block (bytes_of-words super)
          (omega arith) in
      let run' = rw (write_image, added) at run in
      let (f1, w1, r1) = >>=_returns _ (put write [] (contents b)) (sym run') in
      let (f2, w2, r2) = >>=_returns _ (put write f1 inodes) r1 in
      let (f3, w3, r3) = >>=_returns _ (put write f2 blocks) r2 in
      let (f4, w4, r4) = >>=_returns _ (put write f3 entries) r3 in
      let (zeros, all, padding) = pad_lem write no_padding f4 (sym r4) in
      let s2 : f2 ≡ f1 ++ inodes = put_lem write f1 inodes (sym w2) in
      let s3 : f3 ≡ f1 ++ inodes ++ blocks =
        put_lem write f2 blocks (sym w3) ∙ ap (λ (l : List ℕ). l ++ blocks) s2 in
      let s4 : f4 ≡ f1 ++ inodes ++ blocks ++ entries =
        put_lem write f3 entries (sym w4) ∙ ap (λ (l : List ℕ). l ++ entries) s3 in
      (
        f1,
        zeros,
        put_lem write [] (contents b) (sym w1) ∙ holds,
        all ∙ ap (λ (l : List ℕ). l ++ zeros) s4,
        subst (λ (l : List ℕ). IsPadding no_padding (length l) zeros) s4 padding,
      )
