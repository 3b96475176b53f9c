-- ===== src/Mkfs/Jobs/Moves.antt =====
-- The steps of a compressing thread, one constructor for each way through `move`.
use smashfs.Base.{ℕ, ◌+◌, ◌<◌, ◌≤◌, ◌≡◌, ◌≢◌, refl, List, length, get_elem?, set, ==_iff}
use smashfs.Base.{Bool-cases, Option-cases, Option, none, some, leb, leb→le, leb→gt, ◌==◌, inl, inr}
use smashfs.Mkfs.{Block}
use smashfs.Mkfs.Jobs.{Pc, looking, holding, storing, ended, try_compress, move}

module _ (compress : List ℕ → ℕ → Option (List ℕ)) where
  pub data Move (blocks : List Block) (p : Pc) (blocks' : List Block) (p' : Pc) : Type 0 where
    leave :
        (b : ℕ)
        → p ≡ looking b
        → get_elem? blocks b ≡ none
        → blocks' ≡ blocks
        → p' ≡ ended
        → Move blocks p blocks' p'
    skip :
        (b : ℕ) (x : Block)
        → p ≡ looking b
        → get_elem? blocks b ≡ some x
        → x.status ≢ 0
        → blocks' ≡ blocks
        → p' ≡ looking (b + 1)
        → Move blocks p blocks' p'
    claim :
        (b : ℕ) (x : Block)
        → p ≡ looking b
        → get_elem? blocks b ≡ some x
        → x.status ≡ 0
        → blocks' ≡ set blocks b (record x { status = 1 })
        → p' ≡ holding b
        → Move blocks p blocks' p'
    refuse :
        (b : ℕ) (x : Block)
        → p ≡ holding b
        → get_elem? blocks b ≡ some x
        → try_compress compress x ≡ none
        → blocks' ≡ blocks
        → p' ≡ ended
        → Move blocks p blocks' p'
    outgrow :
        (b : ℕ) (x : Block) (out : List ℕ)
        → p ≡ holding b
        → get_elem? blocks b ≡ some x
        → try_compress compress x ≡ some out
        → x.size < length out
        → blocks' ≡ set blocks b (record x { cbuffer = out })
        → p' ≡ ended
        → Move blocks p blocks' p'
    keep :
        (b : ℕ) (x : Block) (out : List ℕ)
        → p ≡ holding b
        → get_elem? blocks b ≡ some x
        → try_compress compress x ≡ some out
        → length out ≤ x.size
        → blocks' ≡ set blocks b (record x { cbuffer = out; compressed_size = length out })
        → p' ≡ storing b
        → Move blocks p blocks' p'
    finish :
        (b : ℕ) (x : Block)
        → p ≡ storing b
        → get_elem? blocks b ≡ some x
        → blocks' ≡ set blocks b (record x { status = 2 })
        → p' ≡ looking (b + 1)
        → Move blocks p blocks' p'

  pub move-Move :
      (blocks : List Block) (p : Pc) {blocks' : List Block} {p' : Pc}
      → move compress blocks p ≡ some (blocks', p')
      → Move blocks p blocks' p'
  unfolding move
  move-Move blocks (looking b) {blocks'} {p'} e = elim (Option-cases (get_elem? blocks b)) [
    | inl n ↦
        (let e' = rw (move, n) at e in
          let q : blocks' ≡ blocks = cc in let r : p' ≡ ended = cc in leave b refl n q r)
    | inr (x, h) ↦ elim (Bool-cases (x.status == 0)) [
      | inl z ↦
          (let e' = rw (move, h, z) at e in
            let q : blocks' ≡ set blocks b (record x { status = 1 }) = cc in
            let r : p' ≡ holding b = cc in claim b x refl h ((==_iff _ _).0 z) q r)
      | inr z ↦
          (let e' = rw (move, h, z) at e in
            let q : blocks' ≡ blocks = cc in
            let r : p' ≡ looking (b + 1) = cc in
            skip b x refl h (λ q. let t = (==_iff x.status 0).1 q in cc) q r)
    ]
  ]
  move-Move blocks (holding b) {blocks'} {p'} e = elim (Option-cases (get_elem? blocks b)) [
    | inl n ↦ (let e' = rw (move, n) at e in cc)
    | inr (x, h) ↦ elim (Option-cases (try_compress compress x)) [
      | inl n ↦
          (let e' = rw (move, h, n) at e in
            let q : blocks' ≡ blocks = cc in let r : p' ≡ ended = cc in refuse b x refl h n q r)
      | inr (out, c) ↦ elim (Bool-cases (leb (length out) x.size)) [
        | inl le ↦
            (let e' = rw (move, h, c, le) at e in
              let q : blocks'
                  ≡ set blocks b (record x { cbuffer = out; compressed_size = length out }) =
                cc in
              let r : p' ≡ storing b = cc in keep b x out refl h c (leb→le _ _ le) q r)
        | inr gt ↦
            (let e' = rw (move, h, c, gt) at e in
              let q : blocks' ≡ set blocks b (record x { cbuffer = out }) = cc in
              let r : p' ≡ ended = cc in outgrow b x out refl h c (leb→gt _ _ gt) q r)
      ]
    ]
  ]
  move-Move blocks (storing b) {blocks'} {p'} e = elim (Option-cases (get_elem? blocks b)) [
    | inl n ↦ (let e' = rw (move, n) at e in cc)
    | inr (x, h) ↦
        (let e' = rw (move, h) at e in
          let q : blocks' ≡ set blocks b (record x { status = 2 }) = cc in
          let r : p' ≡ looking (b + 1) = cc in finish b x refl h q r)
  ]
  move-Move blocks ended e = cc
