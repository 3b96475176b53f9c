-- ===== src/Mkfs/Jobs/Joined.antt =====
-- Once all compressing threads of src/mkfs/mkfs.c have returned, every block is compressed.
use smashfs.Base.{ℕ, suc, ◌<◌, ◌≤◌, ◌≡◌, ◌≢◌, refl, ap, arith, List, [], ◌∷◌, length}
use smashfs.Base.{Option, none, some, update, get_elem?, get_elem?-lt, get_elem?-some, inl, inr, ok}
use smashfs.Base.{◌==◌, ==_iff, true}
use smashfs.Mkfs.{Block}
use smashfs.Mkfs.Blocks.{check_status}
use smashfs.Mkfs.Jobs.{
  Pc, looking, holding, storing, ended, try_compress, System, by, Reach, here, next, HasEnded,
}
use smashfs.Mkfs.Jobs.Moves.{Move, leave, skip, claim, refuse, outgrow, keep, finish, move-Move}
use smashfs.Mkfs.Jobs.Invariant.{held, written, Inv, Reach-Inv}
use smashfs.Mkfs.Jobs.Result.{compress_blocks, Reach-compress_blocks}

-- The compressor takes the block, and does not make it longer.
abbrev pub IsCompressible : (List ℕ → ℕ → Option (List ℕ)) → Block → Type 0
IsCompressible compress x =
    (out : List ℕ) × (try_compress compress x ≡ some out) × (length out ≤ x.size)

-- The blocks that a thread has left behind: those before this one, of `n`.
abbrev place : ℕ → Pc → ℕ
place n (looking b) = b
place n (holding b) = b
place n (storing b) = b
place n ended = n

not-none : (bs : List Block) (b : ℕ) → get_elem? bs b ≡ none → length bs ≤ b
not-none bs b e = omega (arith, inside)
  where
    inside : ¬ (b < length bs)
    inside lt = let (x, h) = get_elem?-some bs b lt in cc

module _ (compress : List ℕ → ℕ → Option (List ℕ)) (njobs : ℕ) (blocks : List Block) where
  -- Blocks that a thread has passed are taken, and a taken block has a thread or is done.
  record IsFull (s : System) : Type 0 where
    passed :
        (j k : ℕ) (x : Block)
        → k < place (length blocks) (s.jobs j)
        → get_elem? s.blocks k ≡ some x
        → x.status ≢ 0
    owned :
        (k : ℕ) (x : Block)
        → get_elem? s.blocks k ≡ some x
        → x.status ≡ 1
        → (j : ℕ) × (j < njobs) × (held (s.jobs j) ≡ some k)
    few : (k : ℕ) (x : Block) → get_elem? s.blocks k ≡ some x → x.status ≤ 2

  module _ {s : System} (inv : Inv compress blocks s) (full : IsFull s) (i : ℕ) (lt : i < njobs)
      (good : (k : ℕ) (x : Block) → get_elem? blocks k ≡ some x → IsCompressible compress x) where
    open inv use {same_length, kept, taken}
    open full use {passed, owned, few}

    Move-few :
        {bs : List Block} {p : Pc}
        → Move compress s.blocks (s.jobs i) bs p
        → (k : ℕ) (x : Block) → get_elem? bs k ≡ some x
        → x.status ≤ 2
    Move-few (leave b e1 e2 e3 e4) k x e = ground (arith, few k x)
    Move-few (skip b y e1 e2 e3 e4 e5) k x e = ground (arith, few k x)
    Move-few (refuse b y e1 e2 e3 e4 e5) k x e = ground (arith, few k x)
    Move-few (claim b y e1 e2 e3 e4 e5) k x e =
        let read = written s.blocks e4 e in ground (arith, few k x)
    Move-few (outgrow b y out e1 e2 e3 e4 e5 e6) k x e =
        let read = written s.blocks e5 e in ground (arith, few k x, few b y)
    Move-few (keep b y out e1 e2 e3 e4 e5 e6) k x e =
        let read = written s.blocks e5 e in ground (arith, few k x, few b y)
    Move-few (finish b y e1 e2 e3 e4) k x e =
        let read = written s.blocks e3 e in ground (arith, few k x)

    -- A block that the compressor refuses is none of these.
    accepted :
        (b : ℕ) (y : Block)
        → get_elem? s.blocks b ≡ some y
        → (out : List ℕ) × (try_compress compress y ≡ some out) × (length out ≤ y.size)
    accepted b y e =
        let inside = get_elem?-lt s.blocks b e in
        let (x0, e0) = get_elem?-some blocks b (omega arith) in
        let old = kept b x0 y e0 e in
        let (out, c, small) = good b x0 e0 in
        (out, rw (old.same_size, old.same_buffer) c, rw old.same_size small)

    Move-owned :
        {bs : List Block} {p : Pc}
        → Move compress s.blocks (s.jobs i) bs p
        → (k : ℕ) (x : Block) → get_elem? bs k ≡ some x
        → x.status ≡ 1
        → (j : ℕ) × (j < njobs) × (held (update s.jobs i p j) ≡ some k)
    Move-owned (leave b e1 e2 e3 e4) k x e one =
        let (j, jlt, h) = owned k x (rw e3 at e) one in (j, jlt, ground arith)
    Move-owned (skip b y e1 e2 e3 e4 e5) k x e one =
        let (j, jlt, h) = owned k x (rw e4 at e) one in (j, jlt, ground arith)
    Move-owned (refuse b y e1 e2 e3 e4 e5) k x e one =
        let (out, c, small) = accepted b y e2 in absurd cc
    Move-owned (outgrow b y out e1 e2 e3 e4 e5 e6) k x e one =
        let (out', c, small) = accepted b y e2 in
        let same : out ≡ out' = cc in absurd (omega (arith, ap (λ (l : List ℕ). length l) same))
    Move-owned (claim b y e1 e2 e3 e4 e5) k x e one = elim (written s.blocks e4 e) [
      | inl same ↦ (i, lt, ground arith)
      | inr away ↦ (let (j, jlt, h) = owned k x away.1 one in (j, jlt, ground arith))
    ]
    Move-owned (keep b y out e1 e2 e3 e4 e5 e6) k x e one = elim (written s.blocks e5 e) [
      | inl same ↦ (i, lt, ground arith)
      | inr away ↦ (let (j, jlt, h) = owned k x away.1 one in (j, jlt, ground arith))
    ]
    Move-owned (finish b y e1 e2 e3 e4) k x e one = elim (written s.blocks e3 e) [
      | inl same ↦ absurd (let (q, v) = same in omega (arith, one, ap (λ (z : Block). z.status) v))
      | inr away ↦ (let (j, jlt, h) = owned k x away.1 one in (j, jlt, ground arith))
    ]

    Move-passed :
        {bs : List Block} {p : Pc}
        → Move compress s.blocks (s.jobs i) bs p
        → (j k : ℕ) (x : Block) → k < place (length blocks) (update s.jobs i p j)
        → get_elem? bs k ≡ some x
        → x.status ≢ 0
    Move-passed (leave b e1 e2 e3 e4) j k x h e =
        ground (arith, passed j k x, passed i k x, not-none s.blocks b e2)
    Move-passed (skip b y e1 e2 e3 e4 e5) j k x h e = ground (arith, passed j k x, passed i k x)
    Move-passed (refuse b y e1 e2 e3 e4 e5) j k x h e =
        let (out, c, small) = accepted b y e2 in absurd cc
    Move-passed (outgrow b y out e1 e2 e3 e4 e5 e6) j k x h e =
        let (out', c, small) = accepted b y e2 in
        let same : out ≡ out' = cc in absurd (omega (arith, ap (λ (l : List ℕ). length l) same))
    Move-passed (claim b y e1 e2 e3 e4 e5) j k x h e =
        let read = written s.blocks e4 e in ground (arith, passed j k x)
    Move-passed (keep b y out e1 e2 e3 e4 e5 e6) j k x h e =
        let read = written s.blocks e5 e in ground (arith, passed j k x, taken i b y)
    Move-passed (finish b y e1 e2 e3 e4) j k x h e =
        let read = written s.blocks e3 e in ground (arith, passed j k x, passed i k x)

  Reach-IsFull :
      {s : System}
      → ((k : ℕ) (x : Block) → get_elem? blocks k ≡ some x → x.status ≡ 0)
      → ((k : ℕ) (x : Block) → get_elem? blocks k ≡ some x → IsCompressible compress x)
      → Reach compress njobs blocks s
      → IsFull s
  Reach-IsFull new good here = record {
    passed = λ j k x h e. absurd (omega arith);
    owned = λ k x e one. absurd (let z = new k x e in omega arith);
    few = λ k x e. let z = new k x e in omega arith;
  }
  Reach-IsFull new good (next r (by j lt run)) =
      let inv = Reach-Inv compress new r in
      let full = Reach-IsFull new good r in
      let mv = move-Move compress _ _ run in
      record {
        passed = Move-passed inv full j lt good mv;
        owned = Move-owned inv full j lt good mv;
        few = Move-few inv full j lt good mv;
      }

  check_status_lem :
      (bs : List Block)
      → ((k : ℕ) (x : Block) → get_elem? bs k ≡ some x → x.status ≡ 2)
      → check_status bs ≡ ok tt
  unfolding check_status
  check_status_lem [] two = refl
  check_status_lem (x ∷ xs) two =
      let here_two : (x.status == 2) ≡ true = (==_iff x.status 2).1 (two 0 x refl) in
      rw here_two (check_status_lem xs (λ k. two (suc k)))

  -- Where the compressor takes every block and makes none longer, and all threads, one or more,
  -- have returned, the blocks pass the check of their status, and they are those that a loop over
  -- them, one at a time, gives.
  pub HasEnded-compress_blocks :
      (s : System)
      → 0 < njobs
      → ((k : ℕ) (x : Block) → get_elem? blocks k ≡ some x → x.status ≡ 0)
      → ((k : ℕ) (x : Block) → get_elem? blocks k ≡ some x → IsCompressible compress x)
      → Reach compress njobs blocks s
      → HasEnded compress njobs s
      → (check_status s.blocks ≡ ok tt) × (compress_blocks compress blocks ≡ ok s.blocks)
  HasEnded-compress_blocks s some_job new good r over =
      let full = Reach-IsFull new good r in
      let same = (Reach-Inv compress new r).same_length in
      let status = check_status_lem s.blocks (λ k x e.
        let few = full.few k x e in
        let inside = get_elem?-lt s.blocks k e in
        let q0 = over 0 some_job in
        let left_behind : k < place (length blocks) (s.jobs 0) = rw q0 (omega arith) in
        let not_new = full.passed 0 k x left_behind e in
        let not_taken : x.status ≢ 1 =
          λ one. let (j, jlt, h) = full.owned k x e one in let q = over j jlt in cc in
        omega arith) in
      (status, Reach-compress_blocks compress njobs blocks s new r status)
