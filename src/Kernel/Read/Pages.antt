-- ===== src/Kernel/Read/Pages.antt =====
-- The pages of a file, by `smashfs_readpage` of src/linux/super.c, and its data.
use native.Mathlib.Nat.{div-add-mod', mod-lt}
use smashfs.Base.{
  ℕ, ◌+◌, ◌-◌, ◌*◌, ◌/◌, ◌%◌, min, ◌<◌, ◌≤◌, ◌≡◌, ◌∙◌, ◌⊎◌, refl, sym, ap, arith, Bool, true, List,
  ◌++◌, length, take, drop, replicate, ltb, ◌==◌, ltb→lt, ltb→ge, Bool-cases, inl, inr, ◌||◌,
}
use smashfs.Base.{ok, length-take, length-drop, take-length_all, take_all}
use smashfs.Format.InodeType
use smashfs.Kernel.{SuperInfo, Inode}
use smashfs.Kernel.Device.{Device, page_cache_size}
use smashfs.Kernel.Device.Reads.{HoldsDisk}
use smashfs.Kernel.Read.{uptodate, page_of, readpage}
use smashfs.Kernel.Read.Data.{HoldsBlocks, read_data-AreBlocks, node_read_lem}
use smashfs.Unfs.Extract.Data.{HasContent}

-- Page `index` of a file's bytes, with zeros behind the end.
pub page_bytes : List ℕ → ℕ → List ℕ
page_bytes content index =
    let part = take page_cache_size (drop (index * page_cache_size) content) in
    part ++ replicate (page_cache_size - length part) 0

-- A regular file or a symbolic link, with its bytes.
pub record IsFile (size : ℕ) (bytes : List ℕ) (inode : Inode) (content : List ℕ) : Type 0 where
  pub type_is :
      (inode.node.type ≡ InodeType.symbolic_link) ⊎ (inode.node.type ≡ InodeType.regular_file)
  pub i_size_is : inode.i_size ≡ inode.node.size
  pub has : HasContent size bytes inode.node content

-- As many bytes as there are, filled up to `c`.
filled :
    (c size : ℕ) (xs : List ℕ)
    → size ≡ min (length xs) c
    → take size xs ++ replicate (c - size) 0 ≡ take c xs ++ replicate (c - length (take c xs)) 0
filled c size xs e =
    let count : length (take c xs) ≡ size = omega (arith, e, length-take c xs) in
    let same : take size xs ≡ take c xs = elim (Bool-cases (ltb (length xs) c)) [
      | inl short ↦
          (let all : size ≡ length xs = omega (arith, e, ltb→lt (length xs) c short) in
            let within : length xs ≤ c = omega (arith, ltb→lt (length xs) c short) in
            ap (λ k. take k xs) all ∙ take-length_all xs ∙ sym (take_all c xs within))
      | inr long ↦
          (let all : size ≡ c = omega (arith, e, ltb→ge (length xs) c long) in
            ap (λ k. take k xs) all)
    ] in
    rw (count, same) refl

known_type :
    (type : ℕ)
    → (type ≡ InodeType.symbolic_link) ⊎ (type ≡ InodeType.regular_file)
    → ((type == InodeType.symbolic_link) || (type == InodeType.regular_file)) ≡ true
known_type type (inl link) = rw link refl
known_type type (inr regular) = rw regular refl

-- On a device whose blocks are no larger than a page, and that holds the blocks of the image
-- within 31 bits, with memory and objects of the block cache to be had, `smashfs_readpage` makes
-- every page of a regular file or a symbolic link up to date, with the file's bytes at the page's
-- place and zeros behind the end of the file, also for a page that lies behind it.
pub readpage-IsFile :
    (malloc cache : ℕ → Bool) (dev : Device) (sbi : SuperInfo) (disk bytes : List ℕ) (inode : Inode)
    (content : List ℕ) (index : ℕ)
    → ((n : ℕ) → malloc n ≡ true)
    → ((k : ℕ) → cache k ≡ true)
    → HoldsDisk dev disk
    → HoldsBlocks sbi disk bytes
    → IsFile sbi.super.block_size bytes inode content
    → readpage malloc cache dev sbi inode index ≡ ok (uptodate (page_bytes content index))
unfolding readpage page_of page_bytes
readpage-IsFile malloc cache dev sbi disk bytes inode content index memory objects holds blocks is =
    let n = inode.node.size in
    let from = index * page_cache_size in
    let k = (inode.i_size + page_cache_size - 1) / page_cache_size in
    let above : k * page_cache_size + (inode.i_size + page_cache_size - 1) % page_cache_size
        ≡ inode.i_size + page_cache_size - 1 =
      div-add-mod' (inode.i_size + page_cache_size - 1) page_cache_size in
    let below : (inode.i_size + page_cache_size - 1) % page_cache_size < page_cache_size =
      mod-lt (inode.i_size + page_cache_size - 1) (omega arith) in
    let behind = length-drop from content in
    elim (Bool-cases (ltb index k)) [
      | inl in_file ↦
          (let lt : index < k = ltb→lt index k in_file in
            let size = min (n - from) page_cache_size in
            let run =
              node_read_lem malloc cache dev sbi bytes page_cache_size
                (read_data-AreBlocks malloc cache dev sbi disk bytes page_cache_size memory holds
                  blocks)
                inode.node content from size objects blocks.power is.has
                (omega (arith, above, below, lt, is.has.size_is, is.i_size_is)) (omega arith) in
            let some_bytes =
              filled page_cache_size size (drop from content)
                (omega (arith, behind, is.has.size_is)) in
            rw (in_file, known_type inode.node.type is.type_is, run)
              (ap (λ l. ok (uptodate l)) some_bytes))
      | inr out ↦
          (let ge = ltb→ge index k out in
            let none_left : 0 ≡ min (length (drop from content)) page_cache_size =
              omega (arith, above, below, ge, behind, is.has.size_is, is.i_size_is) in
            let zeros = filled page_cache_size 0 (drop from content) none_left in
            rw out (ap (λ l. ok (uptodate l)) zeros))
    ]
