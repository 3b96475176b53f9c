-- ===== src/Buffer/Add.antt =====
-- `buffer_add` appends.
use smashfs.Base.{ℕ, zero, suc, ◌+◌, ◌^◌, ◌≤◌, ◌<◌, ◌≡◌, refl, ap, ◌∙◌, sym, arith, inl, inr}
use smashfs.Base.{Bool, true, false, List, [], ◌∷◌, ◌++◌, length, take, drop, ok, fail}
use smashfs.Base.{Bool-cases, leb, leb→gt, lt→ltb, le→leb, length-take, length-append}
use smashfs.Base.{take-append_length}
use smashfs.Buffer.{Buffer, contents, init, enlarge, add}
use smashfs.Buffer.Grow.{grow_lem}

-- The bytes in use have been written, and they fit in the allocated memory.
pub record IsValid (b : Buffer) : Type 0 where
  pub written : b.length ≤ length b.buffer
  pub fits : b.length ≤ b.size

pub length-contents : {b : Buffer} → IsValid b → length (contents b) ≡ b.length
unfolding contents
length-contents {b} v = omega (arith, length-take b.length b.buffer, v.written)

pub take-length : {A : Type 0} (n : ℕ) (xs : List A) → take n (take n xs) ≡ take n xs
take-length zero xs = refl
take-length (suc n) [] = refl
take-length (suc n) (x ∷ xs) = ap (λ l. x ∷ l) (take-length n xs)

-- What `enlarge` leaves: the same bytes in use, and room for more than `need`.
record IsLarger (b : Buffer) (need : ℕ) (b' : Buffer) : Type 0 where
  same_length : b'.length ≡ b.length
  same_bytes : contents b' ≡ contents b
  written : b'.length ≤ length b'.buffer
  room : need < b'.size

enlarge_lem :
    (malloc : ℕ → Bool) (b : Buffer) (need : ℕ)
    → IsValid b
    → ((n : ℕ) → malloc n ≡ true)
    → need < 2 ^ 62
    → (b' : Buffer) × (enlarge malloc b need ≡ ok b') × IsLarger b need b'
unfolding enlarge contents
enlarge_lem malloc b need v m h = elim (Bool-cases (leb b.size need)) [
  | inl more ↦
      (let (r, run, big) = grow_lem need b.size h in
        let taken = length-take b.length b.buffer in
        (
          record { buffer = take b.length b.buffer; size = r; length = b.length },
          rw (more, run, m r),
          record {
            same_length = refl;
            same_bytes = take-length b.length b.buffer;
            written = omega (arith, v.written);
            room = big;
          },
        ))
  | inr enough ↦ (
    b,
    rw enough,
    record {
      same_length = refl;
      same_bytes = refl;
      written = v.written;
      room = leb→gt b.size need enough;
    },
  )
]

take-append_eq : (n : ℕ) (xs ys : List ℕ) → length xs ≡ n → take n (xs ++ ys) ≡ xs
take-append_eq n xs ys e = ap (λ k. take k (xs ++ ys)) (sym e) ∙ take-append_length xs ys

-- The state that `buffer_add` leaves, and what it returns.
pub record IsAdded (malloc : ℕ → Bool) (b : Buffer) (bytes : List ℕ) (size : ℕ) (b' : Buffer)
    : Type 0 where
  pub returns : add malloc b bytes size ≡ ok (size, b')
  pub appended : contents b' ≡ contents b ++ take size bytes
  pub longer : b'.length ≡ b.length + size
  pub valid : IsValid b'

-- With memory to be had, `buffer_add` of `size` bytes returns `size`, appends exactly those bytes
-- to the bytes in use, counts them, and keeps the buffer valid. The growth loop ends.
pub add_lem :
    (malloc : ℕ → Bool) (b : Buffer) (bytes : List ℕ) (size : ℕ)
    → IsValid b
    → ((n : ℕ) → malloc n ≡ true)
    → size ≤ length bytes
    → size < 2 ^ 31
    → b.length + size < 2 ^ 62
    → (b' : Buffer) × IsAdded malloc b bytes size b'
unfolding add contents
add_lem malloc b bytes size v m le small room =
    let (b1, run, larger) = enlarge_lem malloc b (b.length + size) v m room in
    let n1 = length-take b1.length b1.buffer in
    let n2 = length-take size bytes in
    let long : length (take b1.length b1.buffer ++ take size bytes) ≡ b1.length + size =
      omega
        (arith, length-append {0} (take b1.length b1.buffer) (take size bytes), larger.written) in
    let cut =
      take-append_eq (b1.length + size) (take b1.length b1.buffer ++ take size bytes)
        (drop (b1.length + size) b1.buffer) long in
    (
      record b1 {
        buffer = take b1.length b1.buffer ++ take size bytes ++ drop (b1.length + size) b1.buffer;
        length = b1.length + size;
      },
      record {
        returns = rw (run, le→leb size (length bytes) le, lt→ltb size (2 ^ 31) small);
        appended = cut ∙ ap (λ l. l ++ take size bytes) larger.same_bytes;
        longer = omega (arith, larger.same_length);
        valid = record {
          written = omega (
            arith,
            length-append {0} (take b1.length b1.buffer ++ take size bytes)
                (drop (b1.length + size) b1.buffer),
          );
          fits = omega (arith, larger.room, larger.same_length);
        };
      },
    )

-- Where more memory is needed and cannot be had, `buffer_add` reports the error.
pub add_fails :
    (malloc : ℕ → Bool) (b : Buffer) (bytes : List ℕ) (size : ℕ)
    → ((n : ℕ) → malloc n ≡ false)
    → b.size ≤ b.length + size
    → b.length + size < 2 ^ 62
    → add malloc b bytes size ≡ fail
unfolding add enlarge
add_fails malloc b bytes size m full cap =
    let (r, run, big) = grow_lem (b.length + size) b.size cap in
    rw (le→leb b.size (b.length + size) full, run, m r)

pub init-IsValid : IsValid init
init-IsValid = record { written = omega arith; fits = omega arith }
