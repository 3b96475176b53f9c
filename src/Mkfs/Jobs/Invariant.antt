-- ===== src/Mkfs/Jobs/Invariant.antt =====
-- What every interleaving of the compressing threads keeps.
use smashfs.Base.{ℕ, ◌≤◌, ◌≡◌, ◌≢◌, ◌∙◌, arith, refl, List, length, length-set}
use smashfs.Base.{get_elem?, get_elem?-set, set, update, Option, none, some, inl, inr, ◌⊎◌}
use smashfs.Mkfs.{Block}
use smashfs.Mkfs.Jobs.{Pc, holding, storing, try_compress, System, by, Reach, here, next}
use smashfs.Mkfs.Jobs.Moves.{Move, leave, skip, claim, refuse, outgrow, keep, finish, move-Move}

-- The block that a thread works on.
abbrev pub held : Pc → Option ℕ
held (holding b) = some b
held (storing b) = some b
held _ = none

-- The block that a read after one write gives.
pub written :
    (xs : List Block) {bs : List Block} {b k : ℕ} {v x : Block}
    → bs ≡ set xs b v
    → get_elem? bs k ≡ some x
    → ((k ≡ b) × (x ≡ v)) ⊎ ((k ≢ b) × (get_elem? xs k ≡ some x))
written xs {b} {k} {v} e h = get_elem?-set xs b k v (rw e at h)

module _ (compress : List ℕ → ℕ → Option (List ℕ)) where
  -- `x` is the block `x0` with its own compressed bytes.
  pub record IsDone (x0 x : Block) : Type 0 where
    pub out : List ℕ
    pub compressed : try_compress compress x0 ≡ some out
    pub small : length out ≤ x0.size
    pub result : x ≡ record x0 { cbuffer = out; compressed_size = length out; status = 2 }

  -- What the threads leave of a block: its data, and its compressed bytes once it has status 2.
  pub record IsKept (x0 x : Block) : Type 0 where
    pub same_size : x.size ≡ x0.size
    pub same_buffer : x.buffer ≡ x0.buffer
    pub same_offset : x.offset ≡ x0.offset
    pub finished : x.status ≡ 2 → IsDone x0 x

  -- A block of status 1 with the data of one that is kept.
  IsKept-held :
      {x0 y x : Block}
      → IsKept x0 y
      → (x.size ≡ y.size) × (x.buffer ≡ y.buffer) × (x.offset ≡ y.offset) × (x.status ≡ 1)
      → IsKept x0 x
  IsKept-held h (es, eb, eo, one) = record {
    same_size = es ∙ h.same_size;
    same_buffer = eb ∙ h.same_buffer;
    same_offset = eo ∙ h.same_offset;
    finished = λ two. absurd (omega arith);
  }

  pub record Inv (blocks : List Block) (s : System) : Type 0 where
    pub same_length : length s.blocks ≡ length blocks
    pub kept :
        (k : ℕ) (x0 x : Block)
        → get_elem? blocks k ≡ some x0
        → get_elem? s.blocks k ≡ some x
        → IsKept x0 x
    pub taken :
        (j k : ℕ) (x : Block)
        → held (s.jobs j) ≡ some k
        → get_elem? s.blocks k ≡ some x
        → x.status ≡ 1
    pub unique : (i j k : ℕ) → held (s.jobs i) ≡ some k → held (s.jobs j) ≡ some k → i ≡ j
    pub stored :
        (j k : ℕ) (x0 x : Block)
        → s.jobs j ≡ storing k
        → get_elem? blocks k ≡ some x0
        → get_elem? s.blocks k ≡ some x
        → IsDone x0 (record x { status = 2 })

  module _ {blocks : List Block} {s : System} (inv : Inv blocks s) (i : ℕ) where
    open inv use {same_length, kept, taken, unique, stored}

    Move-length :
        {bs : List Block} {p : Pc}
        → Move compress s.blocks (s.jobs i) bs p
        → length bs ≡ length blocks
    Move-length (leave b e1 e2 e3 e4) = rw e3 same_length
    Move-length (skip b y e1 e2 e3 e4 e5) = rw e4 same_length
    Move-length (refuse b y e1 e2 e3 e4 e5) = rw e4 same_length
    Move-length (claim b y e1 e2 e3 e4 e5) = rw e4 (length-set s.blocks b _ ∙ same_length)
    Move-length (outgrow b y out e1 e2 e3 e4 e5 e6) = rw e5 (length-set s.blocks b _ ∙ same_length)
    Move-length (keep b y out e1 e2 e3 e4 e5 e6) = rw e5 (length-set s.blocks b _ ∙ same_length)
    Move-length (finish b y e1 e2 e3 e4) = rw e3 (length-set s.blocks b _ ∙ same_length)

    carried :
        {bs : List Block} {p : Pc}
        → Move compress s.blocks (s.jobs i) bs p
        → (k : ℕ) (x0 x : Block) → get_elem? blocks k ≡ some x0
        → get_elem? bs k ≡ some x
        → IsKept x0 x
    carried (leave b e1 e2 e3 e4) k x0 x e0 e = kept k x0 x e0 (rw e3 at e)
    carried (skip b y e1 e2 e3 e4 e5) k x0 x e0 e = kept k x0 x e0 (rw e4 at e)
    carried (refuse b y e1 e2 e3 e4 e5) k x0 x e0 e = kept k x0 x e0 (rw e4 at e)
    carried (claim b y e1 e2 e3 e4 e5) k x0 x e0 e = elim (written s.blocks e4 e) [
      | inl same ↦
          (let (q, v) = same in
            let at_k : get_elem? s.blocks k ≡ some y = cc in
            IsKept-held (kept k x0 y e0 at_k) (ground arith))
      | inr away ↦ kept k x0 x e0 away.1
    ]
    carried (outgrow b y out e1 e2 e3 e4 e5 e6) k x0 x e0 e = elim (written s.blocks e5 e) [
      | inl same ↦
          (let (q, v) = same in
            let at_k : get_elem? s.blocks k ≡ some y = cc in
            let own : held (s.jobs i) ≡ some b = ground arith in
            let one = taken i b y own e2 in IsKept-held (kept k x0 y e0 at_k) (ground arith))
      | inr away ↦ kept k x0 x e0 away.1
    ]
    carried (keep b y out e1 e2 e3 e4 e5 e6) k x0 x e0 e = elim (written s.blocks e5 e) [
      | inl same ↦
          (let (q, v) = same in
            let at_k : get_elem? s.blocks k ≡ some y = cc in
            let own : held (s.jobs i) ≡ some b = ground arith in
            let one = taken i b y own e2 in IsKept-held (kept k x0 y e0 at_k) (ground arith))
      | inr away ↦ kept k x0 x e0 away.1
    ]
    carried (finish b y e1 e2 e3 e4) k x0 x e0 e = elim (written s.blocks e3 e) [
      | inl same ↦
          (let (q, v) = same in
            let at_k : get_elem? s.blocks k ≡ some y = cc in
            let at_b : get_elem? blocks b ≡ some x0 = cc in
            let old = kept k x0 y e0 at_k in
            let fin : IsDone x0 x = rw v (stored i b x0 y e1 at_b e2) in
            record {
              same_size = rw v old.same_size;
              same_buffer = rw v old.same_buffer;
              same_offset = rw v old.same_offset;
              finished = λ two. fin;
            })
      | inr away ↦ kept k x0 x e0 away.1
    ]

    Move-taken :
        {bs : List Block} {p : Pc}
        → Move compress s.blocks (s.jobs i) bs p
        → (j k : ℕ) (x : Block) → held (update s.jobs i p j) ≡ some k
        → get_elem? bs k ≡ some x
        → x.status ≡ 1
    Move-taken (leave b e1 e2 e3 e4) j k x h e = ground (arith, taken j k x)
    Move-taken (skip b y e1 e2 e3 e4 e5) j k x h e = ground (arith, taken j k x)
    Move-taken (refuse b y e1 e2 e3 e4 e5) j k x h e = ground (arith, taken j k x)
    Move-taken (claim b y e1 e2 e3 e4 e5) j k x h e =
        let read = written s.blocks e4 e in ground (arith, taken j k x)
    Move-taken (outgrow b y out e1 e2 e3 e4 e5 e6) j k x h e =
        let read = written s.blocks e5 e in ground (arith, taken j k x, taken i b y)
    Move-taken (keep b y out e1 e2 e3 e4 e5 e6) j k x h e =
        let read = written s.blocks e5 e in ground (arith, taken j k x, taken i b y)
    Move-taken (finish b y e1 e2 e3 e4) j k x h e =
        let read = written s.blocks e3 e in ground (arith, taken j k x, unique j i k)

    Move-unique :
        {bs : List Block} {p : Pc}
        → Move compress s.blocks (s.jobs i) bs p
        → (a b k : ℕ) → held (update s.jobs i p a) ≡ some k
        → held (update s.jobs i p b) ≡ some k
        → a ≡ b
    Move-unique (claim b y e1 e2 e3 e4 e5) a c k ha hc =
        ground (arith, unique a c k, taken a k y, taken c k y)
    Move-unique (keep b y out e1 e2 e3 e4 e5 e6) a c k ha hc =
        ground (arith, unique a c k, unique i a k, unique i c k)
    Move-unique (leave b e1 e2 e3 e4) a c k ha hc = ground (arith, unique a c k)
    Move-unique (skip b y e1 e2 e3 e4 e5) a c k ha hc = ground (arith, unique a c k)
    Move-unique (refuse b y e1 e2 e3 e4 e5) a c k ha hc = ground (arith, unique a c k)
    Move-unique (outgrow b y out e1 e2 e3 e4 e5 e6) a c k ha hc = ground (arith, unique a c k)
    Move-unique (finish b y e1 e2 e3 e4) a c k ha hc = ground (arith, unique a c k)

    Move-stored :
        {bs : List Block} {p : Pc}
        → Move compress s.blocks (s.jobs i) bs p
        → (j k : ℕ) (x0 x : Block) → update s.jobs i p j ≡ storing k
        → get_elem? blocks k ≡ some x0
        → get_elem? bs k ≡ some x
        → IsDone x0 (record x { status = 2 })
    Move-stored (leave b e1 e2 e3 e4) j k x0 x h e0 e =
        stored j k x0 x (ground arith) e0 (rw e3 at e)
    Move-stored (skip b y e1 e2 e3 e4 e5) j k x0 x h e0 e =
        stored j k x0 x (ground arith) e0 (rw e4 at e)
    Move-stored (refuse b y e1 e2 e3 e4 e5) j k x0 x h e0 e =
        stored j k x0 x (ground arith) e0 (rw e4 at e)
    Move-stored (claim b y e1 e2 e3 e4 e5) j k x0 x h e0 e =
        let read = written s.blocks e4 e in
        let at_k : get_elem? s.blocks k ≡ some x = ground (arith, taken j k y) in
        stored j k x0 x (ground arith) e0 at_k
    Move-stored (outgrow b y out e1 e2 e3 e4 e5 e6) j k x0 x h e0 e =
        let read = written s.blocks e5 e in
        let at_k : get_elem? s.blocks k ≡ some x = ground (arith, unique i j k) in
        stored j k x0 x (ground arith) e0 at_k
    Move-stored (finish b y e1 e2 e3 e4) j k x0 x h e0 e =
        let read = written s.blocks e3 e in
        let at_k : get_elem? s.blocks k ≡ some x = ground (arith, unique i j k) in
        stored j k x0 x (ground arith) e0 at_k
    Move-stored (keep b y out e1 e2 e3 e4 e5 e6) j k x0 x h e0 e = elim (written s.blocks e5 e) [
      | inr away ↦ stored j k x0 x (ground arith) e0 away.1
      | inl same ↦
          (let (q, v) = same in
            let at_k : get_elem? s.blocks k ≡ some y = cc in
            let old = kept k x0 y e0 at_k in
            let eb = old.same_buffer in
            let es = old.same_size in
            let eo = old.same_offset in
            record {
              out = out;
              compressed = rw (eb, es) at e3;
              small = rw es at e4;
              result = rw (v, eo, es, eb);
            })
    ]

  pub Reach-Inv :
      {njobs : ℕ} {blocks : List Block} {s : System}
      → ((k : ℕ) (x : Block) → get_elem? blocks k ≡ some x → x.status ≡ 0)
      → Reach compress njobs blocks s
      → Inv blocks s
  Reach-Inv {blocks} new here = record {
    same_length = refl;
    kept = λ k x0 x e0 e.
        (let same : x ≡ x0 = cc in
          let zero_status = new k x e in
          record {
            same_size = rw same;
            same_buffer = rw same;
            same_offset = rw same;
            finished = λ two. absurd (omega arith);
          });
    taken = λ j k x h e. absurd cc;
    unique = λ i j k h h'. absurd cc;
    stored = λ j k x0 x h e0 e. absurd cc;
  }
  Reach-Inv new (next r (by j lt run)) =
      let inv = Reach-Inv new r in
      let mv = move-Move compress _ _ run in
      record {
        same_length = Move-length inv j mv;
        kept = carried inv j mv;
        taken = Move-taken inv j mv;
        unique = Move-unique inv j mv;
        stored = Move-stored inv j mv;
      }
