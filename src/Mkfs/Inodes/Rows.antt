-- ===== src/Mkfs/Inodes/Rows.antt =====
-- A cursor before a row of the packed inode table.
use native.Mathlib.Nat.{zero-add}
use smashfs.Base.{ℕ, ◌+◌, ◌*◌, ◌/◌, ◌^◌, ◌≤◌, ◌<◌, ◌≡◌, arith}
use smashfs.Base.{List, length, get_elem?, get_elem?-lt, some}
use smashfs.Bitbuffer.Fresh.{IsPacked, opened}
use smashfs.Bitbuffer.Cursor.{IsBefore}
use smashfs.Bitbuffer.Fields.{width, table, Holds-row}
use smashfs.Format.{InodeBits, InodeMin}
use smashfs.Mkfs.{Node}
use smashfs.Mkfs.Inodes.{table_size}
use smashfs.Mkfs.Inodes.Laws.{row, stored, IsNarrowInode, row-IsNarrow, table_size_lem}
use smashfs.Table.{max_inode_size}
use smashfs.Table.Read.{width-node_fields}

module _ (bits : InodeBits) (min : InodeMin) (nodes : List Node) (buf : List ℕ) where
  -- Row `k` lies inside the packed table, and a cursor set to its first bit stands before it.
  pub row-IsBefore :
      IsPacked (table_size bits (length nodes)) (table (row bits min) nodes) buf
      → IsNarrowInode bits
      → (k : ℕ) {node : Node} → get_elem? nodes k ≡ some node
      → (k * max_inode_size bits < 2 ^ 31)
        × IsBefore (opened buf (length buf) (k * max_inode_size bits)) (row bits min node)
  row-IsBefore p narrow k {node} e =
      let w = max_inode_size bits in
      let lt = get_elem?-lt nodes k e in
      let le : k * w + w ≤ length nodes * w = grind arith in
      let size : table_size bits (length nodes) ≡ (length nodes * w + 7) / 8 =
        table_size_lem bits (length nodes) in
      let small = p.readable.small in
      let rows : width (row bits min node) ≡ w = width-node_fields bits (stored min node) in
      (
        omega (arith, p.same_length),
        record {
          readable = p.readable;
          narrow = row-IsNarrow bits min narrow node;
          fit = omega (arith, p.same_length);
          holds = rw (zero-add (k * w)) at (
              Holds-row (row bits min) w (λ n. width-node_fields bits (stored min n)) buf 0 k nodes
                p.held e);
        },
      )
