-- ===== src/Mkfs/Entries.antt =====
-- src/mkfs/mkfs.c, `output_write`: the data of every node goes to one buffer, one after the other.
pub mod Laid
use smashfs.Base.{ℕ, zero, suc, ◌+◌, ◌/◌, ◌%◌, ◌^◌, Bool, List, [], ◌∷◌, ◌==◌}
use smashfs.Base.{ℤ, pos, negsuc, max_ℤ, Result, ok, fault, ◌>>=◌, u32, length, ◌++◌}
use smashfs.Base.{if◌then◌else◌}
use smashfs.Bitbuffer.{Bitbuffer, putbits}
use smashfs.Bitbuffer
use smashfs.Buffer.{Buffer}
use smashfs.Buffer
use smashfs.Format.{DirectoryBits}
use smashfs.Format.InodeType
use smashfs.Mkfs.{Node, Directory, DirectoryEntry, Pointer, regular_file, directory}
use smashfs.Mkfs.{symbolic_link}

module _ (malloc : ℕ → Bool) (bits : DirectoryBits) where
  -- The packed numbers before a directory's entries.
  unfoldable pub pack_head : Directory → Result (ℕ × List ℕ)
  pack_head d = do
    let size = (bits.parent + bits.nentries + 7) / 8
    b ← Bitbuffer.init malloc size
    b ← putbits b bits.parent (u32 d.parent)
    b ← putbits b bits.nentries (u32 d.nentries)
    ok (size, b.buffer)

  -- The packed numbers before an entry's name.
  unfoldable pub pack_entry : DirectoryEntry → Result (ℕ × List ℕ)
  pack_entry e = do
    let size = (bits.entries.number + bits.entries.length + bits.entries.type + 7) / 8
    b ← Bitbuffer.init malloc size
    b ← putbits b bits.entries.number (u32 e.number)
    b ← putbits b bits.entries.length (u32 e.length)
    b ← putbits b bits.entries.type (u32 e.type)
    ok (size, b.buffer)

  -- The loop over the entries: `size` is `node->size` so far.
  unfoldable pub add_entries : ℕ → List DirectoryEntry → ℕ → Buffer → Result (ℕ × Buffer)
  add_entries zero es size buf = ok (size, buf)
  add_entries (suc n) [] size buf = fault
  add_entries (suc n) (e ∷ es) size buf = do
    (packed_size, packed) ← pack_entry e
    (rc, buf) ← Buffer.add malloc buf packed packed_size
    (rc', buf) ← Buffer.add malloc buf e.name (u32 e.length)
    add_entries n es (size + rc + rc') buf

  -- The bytes of one node, and their number.
  pub add_directory : Pointer → Buffer → Result (ℕ × Buffer)
  add_directory (directory d) buf = do
    (packed_size, packed) ← pack_head d
    (rc, buf) ← Buffer.add malloc buf packed packed_size
    add_entries d.nentries d.entries rc buf
  add_directory _ buf = fault

  pub add_regular_file : Pointer → Buffer → Result (ℕ × Buffer)
  add_regular_file (regular_file f) buf = Buffer.add malloc buf f.content (u32 f.size)
  add_regular_file _ buf = fault

  -- The path goes with its NUL.
  pub add_symbolic_link : Pointer → Buffer → Result (ℕ × Buffer)
  add_symbolic_link (symbolic_link path) buf =
      Buffer.add malloc buf (path ++ (0 ∷ [])) (u32 (length path + 1))
  add_symbolic_link _ buf = fault

  -- Where a node's bytes start. `log2` is at most 20, so the mask is the remainder.
  pub place : ℕ → ℕ → ℕ → Node → Node
  place log2 offset size node = record node {
    size = size;
    block = offset / 2 ^ log2;
    index = offset % 2 ^ log2;
  }

  -- One round of the loop: the node with its place, the buffer, and the next offset. A node of
  -- another type is reported and left as it is.
  pub fill_node : ℕ → Node → Buffer → ℕ → Result (Node × Buffer × ℕ)
  fill_node log2 node buf offset =
      let finish = λ (r : ℕ × Buffer). ok (place log2 offset r.0 node, r.1, offset + r.0) in
      if node.type == InodeType.regular_file
      then (add_regular_file node.pointer buf >>= finish)
      else if node.type == InodeType.directory
      then (add_directory node.pointer buf >>= finish)
      else if node.type == InodeType.symbolic_link
      then (add_symbolic_link node.pointer buf >>= finish)
      else ok (node, buf, offset)

  pub fill : ℕ → List Node → Buffer → ℕ → Result (List Node × Buffer)
  fill log2 [] buf offset = ok ([], buf)
  fill log2 (node ∷ nodes) buf offset = do
    (node', buf, offset) ← fill_node log2 node buf offset
    (nodes', buf) ← fill log2 nodes buf offset
    ok (node' ∷ nodes', buf)

-- The second pass over the nodes: the greatest size, block and index.
pub record Places : Type 0 where
  pub max_size : ℤ
  pub max_block : ℤ
  pub max_index : ℤ

pub scan_places : Places → List Node → Places
scan_places p [] = p
scan_places p (node ∷ nodes) =
    scan_places
      (record {
        max_size = max_ℤ p.max_size (pos node.size);
        max_block = max_ℤ p.max_block (pos node.block);
        max_index = max_ℤ p.max_index (pos node.index);
      })
      nodes

pub places : List Node → Places
places nodes =
    scan_places (record { max_size = negsuc 0; max_block = negsuc 0; max_index = negsuc 0 }) nodes
