-- ===== src/Kernel/Device/Copy.antt =====
-- The loops of `smashfs_read` in src/linux/super.c that copy from the block buffers.
use smashfs.Base.{
  ℕ, zero, suc, ◌+◌, ◌-◌, ◌*◌, min, ◌<◌, ◌≤◌, ◌≡◌, ◌∙◌, refl, sym, ap, arith, true, List, ◌++◌,
  length, take, drop, ltb, leb, ◌==◌, lt→ltb, le→leb,
}
use smashfs.Base.{ok, if◌then◌else◌, length-take, length-drop, take-drop_joined}
use smashfs.Kernel.Device.{Target, page_cache_size, copy_page, copy_loop}
use smashfs.Kernel.Device.Splice.{splice, memcpy-splice, length-splice, splice-nil, splice-splice}

-- The place of a target is byte `at` of its buffer, with room for `n` bytes.
pub record IsAt (t : Target) (at n : ℕ) : Type 0 where
  pub place : t.page * page_cache_size + t.pageoff ≡ at
  pub in_page : t.pageoff ≤ page_cache_size
  pub in_pages : at + n ≤ t.pages * page_cache_size
  pub in_buffer : at + n ≤ length t.buffer

copy_page_lem :
    (content : List ℕ) (index n : ℕ) (t : Target) (at more page pageoff : ℕ)
    → 0 < n
    → index + n ≤ length content
    → page * page_cache_size + pageoff ≡ at
    → pageoff < page_cache_size
    → at + (n + more) ≤ t.pages * page_cache_size
    → at + (n + more) ≤ length t.buffer
    → (k : ℕ) × (t' : Target) × (copy_page content index n t page pageoff ≡ ok (k, t'))
      × (0 < k)
      × (k ≤ n)
      × IsAt t' (at + k) (n - k + more)
      × (t'.buffer ≡ splice t.buffer at (take k (drop index content)))
unfolding copy_page
copy_page_lem content index n t at more page pageoff some_left inside place in_page in_pages
      in_buffer =
    let k = min n (page_cache_size - pageoff) in
    let part = take k (drop index content) in
    let size : length part ≡ k =
      omega (arith, length-take k (drop index content), length-drop index content, inside) in
    let t1 : ltb page t.pages ≡ true =
      lt→ltb page t.pages (omega (arith, place, in_pages, some_left)) in
    let t2 : leb (index + k) (length content) ≡ true =
      le→leb (index + k) (length content) (omega (arith, inside)) in
    let fits : at + length part ≤ length t.buffer = omega (arith, size, in_buffer) in
    let copied = memcpy-splice t.buffer at part fits in
    let long = length-splice t.buffer at part fits in
    (
      k,
      record t { buffer = splice t.buffer at part; page = page; pageoff = pageoff + k },
      rw (t1, t2, place, copied) refl,
      omega (arith, some_left, in_page),
      omega arith,
      record {
        place = omega (arith, place);
        in_page = omega (arith, in_page);
        in_pages = omega (arith, in_pages);
        in_buffer = omega (arith, in_buffer, long);
      },
      refl,
    )

pub copy_loop_lem :
    (fuel : ℕ) (content : List ℕ) (index n : ℕ) (t : Target) (at more : ℕ)
    → n < fuel
    → index + n ≤ length content
    → IsAt t at (n + more)
    → (t' : Target) × (copy_loop fuel content index n t ≡ ok t')
      × IsAt t' (at + n) more
      × (t'.buffer ≡ splice t.buffer at (take n (drop index content)))
unfolding copy_loop
copy_loop_lem zero content index n t at more enough inside is = absurd (omega (arith, enough))
copy_loop_lem (suc fuel) content index zero t at more enough inside is = (
  t,
  refl,
  record {
    place = omega (arith, is.place);
    in_page = is.in_page;
    in_pages = omega (arith, is.in_pages);
    in_buffer = omega (arith, is.in_buffer);
  },
  sym (splice-nil t.buffer at),
)
copy_loop_lem (suc fuel) content index (suc n) t at more enough inside is =
    let full = t.pageoff == page_cache_size in
    let page = if full then t.page + 1 else t.page in
    let pageoff = if full then 0 else t.pageoff in
    let place : page * page_cache_size + pageoff ≡ at = ground (arith, is.place) in
    let in_page : pageoff < page_cache_size = ground (arith, is.in_page) in
    let (k, t1, round, positive, few, is1, copied) =
      copy_page_lem content index (suc n) t at more page pageoff (omega arith) inside place in_page
        is.in_pages is.in_buffer in
    let (t2, run, is2, copied2) =
      copy_loop_lem fuel content (index + k) (suc n - k) t1 (at + k) more
        (omega (arith, enough, positive)) (omega (arith, inside, few)) is1 in
    let first = take k (drop index content) in
    let second = take (suc n - k) (drop (index + k) content) in
    let size : length first ≡ k =
      omega (arith, length-take k (drop index content), length-drop index content, inside, few) in
    let size2 : length second ≡ suc n - k = omega (
      arith,
      length-take (suc n - k) (drop (index + k) content),
      length-drop (index + k) content,
      inside,
      few,
    ) in
    let two : splice (splice t.buffer at first) (at + k) second
        ≡ splice t.buffer at (first ++ second) =
      ap (λ m. splice (splice t.buffer at first) (at + m) second) (sym size)
      ∙ splice-splice t.buffer at first second (omega (arith, size, size2, is.in_buffer, few)) in
    let all =
      take-drop_joined content index (index + k) k (suc n - k) (suc n) refl (omega (arith, few)) in
    (
      t2,
      rw round run,
      record {
        place = omega (arith, is2.place, few);
        in_page = is2.in_page;
        in_pages = omega (arith, is2.in_pages, few);
        in_buffer = omega (arith, is2.in_buffer, few);
      },
      copied2
          ∙ ap (λ b. splice b (at + k) second) copied
          ∙ two
          ∙ ap (λ xs. splice t.buffer at xs) all,
    )
