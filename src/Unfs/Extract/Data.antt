-- ===== src/Unfs/Extract/Data.antt =====
-- What `node_read` of src/mkfs/unfs.c hands to its callback: the data of the node.
use smashfs.Base.{
  ℕ, zero, suc, ◌+◌, ◌-◌, ◌*◌, min, ◌<◌, ◌≤◌, ◌≡◌, ◌∙◌, refl, ap, arith, Bool, true, List, [], ◌++◌,
  length, take, drop, length-append, ltb, leb, ltb→lt, ltb→ge,
}
use smashfs.Base.{
  Option, Result, ok, Bool-cases, inl, inr, ◌⊎◌, ap₂, length-take, length-drop, take-drop_joined,
  take-drop-take, take_moved, append-nil, append_assoc, le→leb,
}
use smashfs.Table.{Node, Block}
use smashfs.Unfs.{State}
use smashfs.Unfs.Extract.{block_data, node_read_loop, node_read, node_read_memory}

-- The blocks of the image, decompressed, are the bytes of `bytes` in blocks of `size` bytes, of
-- which only the last may be shorter.
pub record AreBlocks (read_block : ℕ → Result (Block × List ℕ)) (size : ℕ) (bytes : List ℕ)
    : Type 0 where
  pub positive : 0 < size
  pub block_at :
      (b start : ℕ)
      → start ≡ b * size
      → start < length bytes
      → (block : Block) × (read_block b ≡ ok (block, take size (drop start bytes)))
        × (block.size ≡ min size (length bytes - start))

-- The node's data starts in its block at its index.
pub record HasContent (size : ℕ) (bytes : List ℕ) (node : Node) (content : List ℕ) : Type 0 where
  pub inside_block : node.index < size
  pub size_is : node.size ≡ length content
  pub inside : node.block * size + node.index + node.size ≤ length bytes
  pub content_is : take node.size (drop (node.block * size + node.index) bytes) ≡ content

-- A callback that takes all bytes, and for which two calls are one with the bytes of both.
pub record IsAppending {C : Type 0} (function : C → List ℕ → Result (C × Bool))
    (act : C → List ℕ → C) (room : C → ℕ → Type 0) : Type 0 where
  pub takes : (c : C) (xs : List ℕ) → room c (length xs) → function c xs ≡ ok (act c xs, true)
  pub smaller : (c : C) (n m : ℕ) → n ≤ m → room c m → room c n
  pub after : (c : C) (xs : List ℕ) (n : ℕ) → room c (length xs + n) → room (act c xs) n
  pub act-act : (c : C) (xs ys : List ℕ) → act (act c xs) ys ≡ act c (xs ++ ys)
  pub act-nil : (c : C) → act c [] ≡ c

module _ (malloc : ℕ → Bool) (uncompress : List ℕ → ℕ → Option (List ℕ)) (s : State) (size : ℕ)
    (bytes : List ℕ) (blocks : AreBlocks (block_data malloc uncompress s) size bytes) {C : Type 0}
    (function : C → List ℕ → Result (C × Bool)) (act : C → List ℕ → C) (room : C → ℕ → Type 0)
    (appending : IsAppending function act room) where
  node_read_loop_lem :
      (fuel n : ℕ) (c : C) (at i b start : ℕ)
      → start ≡ b * size
      → n - at < fuel
      → at ≤ n
      → (at < n → (i < size) × (start + i + (n - at) ≤ length bytes))
      → room c (n - at)
      → node_read_loop malloc uncompress s function fuel n c at i b
        ≡ ok (act c (take (n - at) (drop (start + i) bytes)), true)
  unfolding node_read_loop
  node_read_loop_lem zero n c at i b start here enough le inside fits =
      absurd (omega (arith, enough))
  node_read_loop_lem (suc fuel) n c at i b start here enough le inside fits =
      elim (Bool-cases (ltb at n)) [
        | inr done ↦
            (let none_left : n - at ≡ 0 = omega (arith, ltb→ge at n done, le) in
              rw (done, none_left, appending.act-nil c) refl)
        | inl more ↦
            (let lt : at < n = ltb→lt at n more in
              let (in_block, in_bytes) = inside lt in
              let (block, found, long) =
                blocks.block_at b start here (omega (arith, in_bytes, lt)) in
              let l = min (n - at) (block.size - i) in
              let whole = length-take size (drop start bytes) in
              let behind = length-drop start bytes in
              let t1 : leb i block.size ≡ true =
                le→leb i block.size (omega (arith, long, in_block, in_bytes, lt)) in
              let t2 : leb (i + l) (length (take size (drop start bytes))) ≡ true =
                le→leb _ _ (omega (arith, long, whole, behind, in_block, in_bytes, lt)) in
              let part = take l (drop i (take size (drop start bytes))) in
              let part_is : part ≡ take l (drop (start + i) bytes) =
                take-drop-take bytes start size i l (omega (arith, long, in_block, in_bytes, lt)) in
              let len : length part ≡ l = omega (
                arith,
                length-take l (drop i (take size (drop start bytes))),
                length-drop i (take size (drop start bytes)),
                long,
                whole,
                behind,
                in_block,
                in_bytes,
                lt,
              ) in
              let some_left : length part + (n - (at + l)) ≡ n - at = omega (arith, len) in
              let fits1 : room c (length part) =
                appending.smaller c (length part) (n - at) (omega (arith, some_left)) fits in
              let taken = appending.takes c part fits1 in
              let fits2 : room (act c part) (n - (at + l)) =
                appending.after c part (n - (at + l)) (rw some_left fits) in
              let next : start + size ≡ (b + 1) * size = grind (arith, here) in
              let rest =
                node_read_loop_lem fuel n (act c part) (at + l) 0 (b + 1) (start + size) next
                  (omega (arith, enough, long, in_block, in_bytes, lt)) (omega arith)
                  (λ more_left.
                    (blocks.positive, omega (arith, more_left, long, in_block, in_bytes)))
                  fits2 in
              let end : (n - (at + l) ≡ 0) ⊎ (start + size + 0 ≡ start + i + l) =
                elim (Bool-cases (ltb (at + l) n)) [
                  | inl further ↦
                      inr (omega (arith, ltb→lt (at + l) n further, long, in_block, in_bytes))
                  | inr ended ↦ inl (omega (arith, ltb→ge (at + l) n ended))
                ] in
              let rest_is =
                take_moved bytes (start + i + l) (start + size + 0) (n - (at + l)) end in
              let all =
                ap₂ (λ (x y : List ℕ). x ++ y) part_is rest_is
                ∙ take-drop_joined bytes (start + i) (start + i + l) l (n - (at + l)) (n - at) refl
                    (omega arith) in
              let same =
                appending.act-act c part (take (n - (at + l)) (drop (start + size + 0) bytes))
                ∙ ap (λ (x : List ℕ). act c x) all in
              rw (more, found, t1, t2, taken) (rest ∙ ap (λ x. ok (x, true)) same))
      ]

  -- `node_read` hands the data of the node to the callback, and returns 0.
  pub node_read_lem :
      (node : Node) (content : List ℕ) (c : C)
      → HasContent size bytes node content
      → room c (length content)
      → node_read malloc uncompress s function node c ≡ ok (act c content, true)
  unfolding node_read
  node_read_lem node content c has fits =
      let whole : node.size - 0 ≡ node.size = omega arith in
      let run =
        node_read_loop_lem (node.size + 1) node.size c 0 node.index node.block (node.block * size)
          refl (omega arith) (omega arith)
          (λ some_size. (has.inside_block, omega (arith, has.inside)))
          (rw (whole, has.size_is) fits) in
      rw whole at run ∙ ap (λ x. ok (act c x, true)) has.content_is

-- The callback that copies to memory, with room for the rest.
pub node_read_memory-IsAppending :
    (capacity : ℕ)
    → IsAppending
        (node_read_memory capacity)
        (λ out xs. out ++ xs)
        (λ out n. length out + n ≤ capacity)
unfolding node_read_memory
node_read_memory-IsAppending capacity = record {
  takes = λ c xs h. (let fits = le→leb (length c + length xs) capacity h in rw fits refl);
  smaller = λ c n m h k. omega (arith, h, k);
  after = λ c xs n h. omega (arith, h, length-append c xs);
  act-act = λ c xs ys. append_assoc c xs ys;
  act-nil = λ c. append-nil c;
}

-- Over blocks that are the bytes of the image's data, `node_read` fills a buffer of the node's
-- size with the node's bytes and returns 0: it reads no row and no byte that is not there, copies
-- no byte twice, and its loop ends.
pub node_read-HasContent :
    (malloc : ℕ → Bool) (uncompress : List ℕ → ℕ → Option (List ℕ)) (s : State) (size : ℕ)
    (bytes : List ℕ) (node : Node) (content : List ℕ)
    → AreBlocks (block_data malloc uncompress s) size bytes
    → HasContent size bytes node content
    → node_read malloc uncompress s (node_read_memory node.size) node [] ≡ ok (content, true)
node_read-HasContent malloc uncompress s size bytes node content blocks has =
    node_read_lem malloc uncompress s size bytes blocks (node_read_memory node.size)
      (λ out xs. out ++ xs) (λ out n. length out + n ≤ node.size)
      (node_read_memory-IsAppending node.size) node content [] has (omega (arith, has.size_is))
