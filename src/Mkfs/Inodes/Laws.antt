-- ===== src/Mkfs/Inodes/Laws.antt =====
-- The packed inode table holds every node's values at the place of its number.
use smashfs.Base.{ℕ, ◌+◌, ◌*◌, ◌/◌, ◌^◌, ◌≤◌, ◌≡◌, refl, ap, ◌∙◌, sym, arith}
use smashfs.Base.{Bool, true, List, [], ◌∷◌, length, ok, ◌>>=◌, >>=_assoc, pos, ◌-ℤ◌, u32, u32_ℤ}
use smashfs.Bitbuffer
use smashfs.Bitbuffer.{Bitbuffer, putbits}
use mathlib.Core.Path.{fun_ext}
use smashfs.Bitbuffer.Fresh.{IsPacked, pack_lem}
use smashfs.Bitbuffer.Fields.{
  Field, width, IsNarrow, put_fields, put_fields-append, table, width-table, IsNarrow-table,
}
use smashfs.Format.{InodeBits, InodeMin}
use smashfs.Mkfs.{Node}
use smashfs.Mkfs.Inodes.{put_node, put_nodes, table_size, pack}
use smashfs.Table
use smashfs.Table.{max_inode_size}
use smashfs.Table.Read.{node_fields, width-node_fields}

-- The values that mkfs stores for a node.
abbrev pub stored : InodeMin → Node → Table.Node
stored min node = record {
  number = node.number;
  type = u32 node.type;
  owner_mode = u32 node.owner_mode;
  group_mode = u32 node.group_mode;
  other_mode = u32 node.other_mode;
  uid = u32 node.uid;
  gid = u32 node.gid;
  ctime = u32_ℤ (node.ctime -ℤ pos min.ctime);
  mtime = u32_ℤ (node.mtime -ℤ pos min.mtime);
  size = u32 node.size;
  block = u32 node.block;
  index = u32 node.index;
}

-- Every width fits a 32-bit value.
pub record IsNarrowInode (bits : InodeBits) : Type 0 where
  pub type : bits.type ≤ 32
  pub owner_mode : bits.owner_mode ≤ 32
  pub group_mode : bits.group_mode ≤ 32
  pub other_mode : bits.other_mode ≤ 32
  pub uid : bits.uid ≤ 32
  pub gid : bits.gid ≤ 32
  pub ctime : bits.ctime ≤ 32
  pub mtime : bits.mtime ≤ 32
  pub size : bits.size ≤ 32
  pub block : bits.block ≤ 32
  pub index : bits.index ≤ 32

module _ (bits : InodeBits) (min : InodeMin) where
  abbrev pub row : Node → List Field
  row node = node_fields bits (stored min node)

  pub row-IsNarrow : IsNarrowInode bits → (node : Node) → IsNarrow (row node)
  row-IsNarrow narrow node = omega arith

  put_node-eq-put_fields :
      (node : Node) (b : Bitbuffer) → put_node bits min node b ≡ put_fields (row node) b
  unfolding put_node
  put_node-eq-put_fields node b = refl

  put_nodes-eq-put_fields :
      (nodes : List Node) (b : Bitbuffer)
      → put_nodes bits min nodes b ≡ put_fields (table row nodes) b
  unfolding put_nodes
  put_nodes-eq-put_fields [] b = refl
  put_nodes-eq-put_fields (node ∷ nodes) b =
      ap (λ m. m >>= put_nodes bits min nodes) (put_node-eq-put_fields node b)
      ∙ ap (λ k. put_fields (row node) b >>= k) (fun_ext (put_nodes-eq-put_fields nodes))
      ∙ sym (put_fields-append (row node) (table row nodes) b)

  -- The table that mkfs packs: as many bytes as the rows need, with every row in its place.
  pub pack-IsPacked :
      (malloc : ℕ → Bool) (nodes : List Node)
      → ((n : ℕ) → malloc n ≡ true)
      → IsNarrowInode bits
      → table_size bits (length nodes) * 8 + 8 ≤ 2 ^ 31
      → (buf : List ℕ) × (pack malloc bits min (length nodes) nodes ≡ ok buf)
        × IsPacked (table_size bits (length nodes)) (table row nodes) buf
  unfolding pack
  pack-IsPacked malloc nodes m narrow small =
      let size = table_size bits (length nodes) in
      let w =
        width-table row (max_inode_size bits) (λ node. width-node_fields bits (stored min node))
          nodes in
      let room : width (table row nodes) ≤ size * 8 = unfold table_size in omega (arith, w) in
      let (b, run, packed) =
        pack_lem malloc size (table row nodes) (m size) small
          (IsNarrow-table row (row-IsNarrow narrow) nodes) room in
      let same : put_nodes bits min nodes ≡ put_fields (table row nodes) =
        fun_ext (put_nodes-eq-put_fields nodes) in
      (
        b.buffer,
        (sym (
              >>=_assoc (Bitbuffer.init malloc size) (put_nodes bits min nodes)
                (λ b'. ok b'.buffer))
            ∙ ap (λ k. Bitbuffer.init malloc size >>= k >>= λ b'. ok b'.buffer) same
            ∙ ap (λ r. r >>= λ b'. ok b'.buffer) run),
        packed,
      )

pub table_size_lem :
    (bits : InodeBits) (n : ℕ) → table_size bits n ≡ (n * max_inode_size bits + 7) / 8
unfolding table_size
table_size_lem bits n = refl
