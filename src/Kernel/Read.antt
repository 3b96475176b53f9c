-- ===== src/Kernel/Read.antt =====
-- src/linux/super.c: reading a range of a node's data, and a page of it.
pub mod Data
pub mod Pages
use smashfs.Base.{ℕ, zero, suc, ◌+◌, ◌-◌, ◌*◌, ◌/◌, ◌%◌, ◌^◌, min, Bool, List, [], ◌++◌}
use smashfs.Base.{none, some, length, take, drop, leb, ltb, ◌==◌, if◌then◌else◌, replicate}
use smashfs.Base.{Result, ok, fail, fault, ◌>>=◌, ◌>>◌, require, defined, int, ◌||◌}
use smashfs.Format.InodeType
use smashfs.Kernel.{SuperInfo, Inode, block_fill}
use smashfs.Kernel.Device
use smashfs.Kernel.Device.{Device, memcpy, page_cache_size}
use smashfs.Table.{Node, Block}

-- `node_read_directory`, `node_read_symbolic_link` and `node_read_regular_file` are one function:
-- they append to the memory behind `*b`, here the bytes stored so far in `capacity` bytes.
pub append : ℕ → List ℕ → List ℕ → Result (List ℕ)
append capacity out bytes = do defined (leb (length out + length bytes) capacity); ok (out ++ bytes)

-- `cache k` says whether call `k` of `kmem_cache_alloc` for the block cache succeeds.
module _ (malloc cache : ℕ → Bool) (dev : Device) (sbi : SuperInfo)
    (function : List ℕ → List ℕ → Result (List ℕ)) where
  -- The source of a call of `function`: `l` bytes from byte `i` of the decompressed block on.
  abbrev chunk : List ℕ → ℕ → ℕ → List ℕ
  chunk ubuffer i l = take l (drop i ubuffer)

  -- One block: its row, its bytes from the device, and its content. `cbuffer` has `block_size`
  -- bytes, what lies there before is overwritten.
  pub read_data : ℕ → Result (Block × List ℕ)
  read_data b = do
    block ← block_fill sbi b
    require (leb block.size sbi.super.block_size)
    offset ← int (sbi.super.entries_offset + block.offset)
    (rc, cbuffer) ←
        Device.read malloc dev (replicate sbi.super.block_size 0) offset block.compressed_size
    require (rc == block.compressed_size)
    ubuffer ← (elim (sbi.uncompress (take block.compressed_size cbuffer) block.size) [
      | some out ↦ ok out
      | none ↦ fail
    ])
    require (length ubuffer == block.size)
    ok (block, ubuffer)

  -- `while (s < size)`, with fuel. A block that ends before byte `i` gives a negative length,
  -- which is undefined in the copy.
  pub node_read_loop : ℕ → ℕ → ℕ → ℕ → ℕ → List ℕ → Result (List ℕ)
  node_read_loop zero s i b size out = fault
  node_read_loop (suc fuel) s i b size out =
      let round = (do
        (block, ubuffer) ← read_data b
        defined (leb i block.size)
        let l = min (size - s) (block.size - i)
        out ← function out (chunk ubuffer i l)
        node_read_loop fuel (s + l) 0 (b + 1) size out) in
      if ltb s size then round else ok out

  -- `ubuffer` and `cbuffer`. Where the second cannot be had, the first is freed twice, here and
  -- behind `bail`. `size` rounds are enough where every block has at least one byte.
  pub node_read : Node → ℕ → ℕ → Result (List ℕ)
  node_read node offset size = do
    require (cache 0)
    defined (cache 1)
    let o = offset + node.index + node.block * sbi.super.block_size
    node_read_loop (size + 1) 0 (o % 2 ^ sbi.super.block_log2) (o / 2 ^ sbi.super.block_log2) size
        []

-- The page after `smashfs_readpage`: up to date with its bytes, or in error.
pub data Page : Type 0 where
  uptodate : List ℕ → Page
  error : Page

page_of : ℕ → Result (List ℕ) → Result Page
page_of size (ok out) = ok (uptodate (out ++ replicate (page_cache_size - size) 0))
page_of size fail = ok error
page_of size fault = fault

-- Page `index` of an inode; the rest of the page is zero.
pub readpage : (ℕ → Bool) → (ℕ → Bool) → Device → SuperInfo → Inode → ℕ → Result Page
unfolding page_of
readpage malloc cache dev sbi inode index =
    let node = inode.node in
    let max_block = (inode.i_size + page_cache_size - 1) / page_cache_size in
    let size = min (node.size - index * page_cache_size) page_cache_size in
    let data_page = page_of size (
      node_read malloc cache dev sbi (append page_cache_size) node (index * page_cache_size)
        size) in
    let known = (node.type == InodeType.symbolic_link) || (node.type == InodeType.regular_file) in
    if ltb index max_block
    then (if known then data_page else ok error)
    else ok (uptodate (replicate page_cache_size 0))
