-- ===== src/Kernel/Readdir/Listing.antt =====
-- The listing of `smashfs_readdir` of src/linux/super.c over the entries that mkfs packs.
use smashfs.Base.{
  ℕ, zero, get_or, suc, ◌+◌, ◌*◌, ◌^◌, ◌≤◌, ◌≡◌, ◌∙◌, sym, refl, ap, ap₂, arith, Bool, true, false,
  ◌==◌, ==_iff,
}
use smashfs.Base.{List, [], ◌∷◌, ◌++◌, map, length, length-append, take, drop, take-append_length}
use smashfs.Base.{drop-append_length, drop-add, Option, some, ok}
use smashfs.Bitbuffer.View.{IsBytes}
use smashfs.Directory.{entry_size, read_entry_type}
use smashfs.Directory.RoundTrip.{IsBytes-right, read-pack_entry}
use smashfs.Format.{DirectoryBits}
use smashfs.Kernel.Readdir.{
  DirentType, dt_unknown, dt_reg, dt_dir, dt_lnk, dt_chr, dt_blk, dt_fifo, dt_sock, Dirent,
  dirent_type, entries_loop,
}
use smashfs.Mkfs.{DirectoryEntry}
use smashfs.Mkfs.Entries.Laid.{AreEntries, AreLaid}
use smashfs.Base.{append_assoc, append-nil}

-- A caller that takes every entry.
abbrev pub collect : List Dirent → Dirent → Option (List Dirent)
collect seen d = some (seen ++ (d ∷ []))

-- The DT_ constants of <linux/fs.h> by the numbers that the on-disk format gives the kinds of file.
abbrev pub kinds : List DirentType
kinds = dt_unknown ∷ dt_reg ∷ dt_dir ∷ dt_lnk ∷ dt_chr ∷ dt_blk ∷ dt_fifo ∷ dt_sock ∷ []

dirent_type_lem : (type : ℕ) → dirent_type type ≡ get_or kinds type dt_unknown
unfolding dirent_type
dirent_type_lem zero = refl
dirent_type_lem (suc zero) = refl
dirent_type_lem (suc (suc zero)) = refl
dirent_type_lem (suc (suc (suc zero))) = refl
dirent_type_lem (suc (suc (suc (suc zero)))) = refl
dirent_type_lem (suc (suc (suc (suc (suc zero))))) = refl
dirent_type_lem (suc (suc (suc (suc (suc (suc zero)))))) = refl
dirent_type_lem (suc (suc (suc (suc (suc (suc (suc zero))))))) = refl
dirent_type_lem (suc (suc (suc (suc (suc (suc (suc (suc n)))))))) =
    let m = suc (suc (suc (suc (suc (suc (suc (suc n))))))) in
    let t1 : (m == 1) ≡ false = ground arith in
    let t2 : (m == 2) ≡ false = ground arith in
    let t3 : (m == 3) ≡ false = ground arith in
    let t4 : (m == 4) ≡ false = ground arith in
    let t5 : (m == 5) ≡ false = ground arith in
    let t6 : (m == 6) ≡ false = ground arith in
    let t7 : (m == 7) ≡ false = ground arith in rw (t1, t2, t3, t4, t5, t6, t7) refl

-- What the caller is to get for an entry.
abbrev pub dirent : DirectoryEntry → Dirent
dirent e = record { name = e.name; ino = e.number + 1; type = get_or kinds e.type dt_unknown }

pub drop-append : {A : Type 0} (n : ℕ) (xs ys : List A) → length xs ≡ n → drop n (xs ++ ys) ≡ ys
drop-append n xs ys e = ap (λ (k : ℕ). drop k (xs ++ ys)) (sym e) ∙ drop-append_length xs ys

pub take-append : {A : Type 0} (n : ℕ) (xs ys : List A) → length xs ≡ n → take n (xs ++ ys) ≡ xs
take-append n xs ys e = ap (λ (k : ℕ). take k (xs ++ ys)) (sym e) ∙ take-append_length xs ys

module _ (malloc : ℕ → Bool) (bits : DirectoryBits) (m : (n : ℕ) → malloc n ≡ true) where
  -- One round at the caller's position.
  entries_loop-step :
      (nbuffer : List ℕ) (n at number len type : ℕ) (seen : List Dirent)
      → read_entry_type bits.entries (drop at nbuffer) ≡ ok (number, len, type)
      → entries_loop collect bits nbuffer (suc n) at (at + 3) seen
        ≡ entries_loop collect bits nbuffer n
            (at + entry_size bits.entries + len)
            (at + entry_size bits.entries + len + 3)
            (seen
              ++ (record {
                name = take len (drop (at + entry_size bits.entries) nbuffer);
                ino = number + 1;
                type = dirent_type type;
              }
                  ∷ []))
  unfolding entries_loop
  entries_loop-step nbuffer n at number len type seen read =
      let here : (at + 3 == at + 3) ≡ true = (==_iff (at + 3) (at + 3)).1 refl in
      let s = entry_size bits.entries in
      let e : at + 3 + s + len ≡ at + s + len + 3 = omega arith in rw (read, here, e)

  -- From the start of packed entries on, the loop gives the caller every entry with its name, its
  -- number and its type, in their order, and ends at the position behind them.
  pub entries_loop-AreLaid :
      (es : List DirectoryEntry) (nbuffer bytes : List ℕ) (at : ℕ) (seen : List Dirent)
      → AreEntries bits es
      → AreLaid malloc bits es bytes
      → drop at nbuffer ≡ bytes
      → IsBytes bytes
      → length bytes * 8 + 8 ≤ 2 ^ 31
      → entries_loop collect bits nbuffer (length es) at (at + 3) seen
        ≡ ok (at + length bytes + 3, seen ++ map dirent es)
  unfolding entries_loop
  entries_loop-AreLaid [] nbuffer bytes at seen are laid here b small =
      (let e : at + 0 + 3 ≡ at + 3 = omega arith in rw (laid, append-nil seen, e))
  entries_loop-AreLaid (e ∷ es) nbuffer bytes at seen are laid here b small =
      let (out, rest, run, len, eq, laid') = laid in
      let s = entry_size bits.entries in
      let named = are.0.named in
      let behind = e.name ++ rest in
      let n1 = length-append out behind in
      let n2 = length-append e.name rest in
      let n3 : length bytes ≡ length (out ++ behind) = ap (λ (l : List ℕ). length l) eq in
      let b1 : IsBytes (out ++ behind) = rw eq at b in
      let b2 : IsBytes behind = IsBytes-right out behind b1 in
      let (out', run', len', read) =
        read-pack_entry malloc bits e m are.0.whole behind b2 (omega (arith, len, n1, n3)) in
      let same : out ≡ out' = cc in
      let read' : read_entry_type bits.entries (drop at nbuffer) ≡ ok (e.number, e.length, e.type) =
        rw (here, eq, same) read in
      let at_name : drop (at + s) nbuffer ≡ behind =
        drop-add at s nbuffer ∙ ap (drop s) (here ∙ eq) ∙ drop-append s out behind len in
      let at_rest : drop (at + s + e.length) nbuffer ≡ rest =
        drop-add (at + s) e.length nbuffer
        ∙ ap (drop e.length) at_name
        ∙ drop-append e.length e.name rest named in
      let its_name : take e.length (drop (at + s) nbuffer) ≡ e.name =
        ap (take e.length) at_name ∙ take-append e.length e.name rest named in
      let ih =
        entries_loop-AreLaid es nbuffer rest (at + s + e.length) (seen ++ (dirent e ∷ [])) are.1
          laid' at_rest (IsBytes-right e.name rest b2) (omega (arith, n1, n2, n3)) in
      let ending : at + s + e.length + length rest + 3 ≡ at + length bytes + 3 =
        omega (arith, n1, n2, n3, len, named) in
      entries_loop-step nbuffer (length es) at e.number e.length e.type seen read'
      ∙ ap₂
          (λ (name : List ℕ) (type : DirentType).
            entries_loop collect bits nbuffer (length es) (at + s + e.length)
              (at + s + e.length + 3)
              (seen ++ (record { name = name; ino = e.number + 1; type = type } ∷ [])))
          its_name (dirent_type_lem e.type)
      ∙ ih
      ∙ rw (ending, append_assoc seen (dirent e ∷ []) (map dirent es))
