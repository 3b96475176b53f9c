-- ===== src/Format/Words.antt =====
-- src/include/smashfs.h: `struct smashfs_super_block` as the bytes that it takes in memory. The
-- structure is packed, and a word has its low byte first, as on the machines that mkfs runs on.
use smashfs.Base.{
  ℕ, ◌+◌, ◌*◌, ◌/◌, ◌%◌, ◌^◌, ◌<◌, ◌≡◌, refl, ap₂, arith, List, [], ◌∷◌, Option, none, some,
}
use smashfs.Format.{SuperBlock}

-- The members in their order.
abbrev pub words : SuperBlock → List ℕ
words s =
    s.magic ∷ s.version ∷ s.ctime ∷ s.inodes ∷ s.blocks ∷ s.block_size ∷ s.block_log2 ∷ s.root
    ∷ s.inodes_offset ∷ s.inodes_size ∷ s.inodes_csize ∷ s.blocks_offset ∷ s.blocks_size
    ∷ s.entries_offset ∷ s.entries_size ∷ s.compression_type ∷ s.bits.inode.type
    ∷ s.bits.inode.owner_mode ∷ s.bits.inode.group_mode ∷ s.bits.inode.other_mode ∷ s.bits.inode.uid
    ∷ s.bits.inode.gid ∷ s.bits.inode.ctime ∷ s.bits.inode.mtime ∷ s.bits.inode.size
    ∷ s.bits.inode.block ∷ s.bits.inode.index ∷ s.bits.inode.directory.parent
    ∷ s.bits.inode.directory.nentries ∷ s.bits.inode.directory.entries.number
    ∷ s.bits.inode.directory.entries.length ∷ s.bits.inode.directory.entries.type
    ∷ s.bits.block.offset ∷ s.bits.block.compressed_size ∷ s.bits.block.size ∷ s.min.inode.ctime
    ∷ s.min.inode.mtime ∷ s.min.block.compressed_size ∷ []

unfoldable pub super_of : List ℕ → Option SuperBlock
super_of
      (magic ∷ version ∷ ctime ∷ inodes ∷ blocks ∷ block_size ∷ block_log2 ∷ root ∷ inodes_offset
        ∷ inodes_size ∷ inodes_csize ∷ blocks_offset ∷ blocks_size ∷ entries_offset ∷ entries_size
        ∷ compression_type ∷ i_type ∷ owner_mode ∷ group_mode ∷ other_mode ∷ uid ∷ gid ∷ i_ctime
        ∷ mtime ∷ size ∷ block ∷ index ∷ parent ∷ nentries ∷ number ∷ len ∷ e_type ∷ offset
        ∷ compressed_size ∷ b_size ∷ min_ctime ∷ min_mtime ∷ min_compressed_size ∷ []) =
    some (record {
      magic = magic;
      version = version;
      ctime = ctime;
      inodes = inodes;
      blocks = blocks;
      block_size = block_size;
      block_log2 = block_log2;
      root = root;
      inodes_offset = inodes_offset;
      inodes_size = inodes_size;
      inodes_csize = inodes_csize;
      blocks_offset = blocks_offset;
      blocks_size = blocks_size;
      entries_offset = entries_offset;
      entries_size = entries_size;
      compression_type = compression_type;
      bits = record {
        inode = record {
          type = i_type;
          owner_mode = owner_mode;
          group_mode = group_mode;
          other_mode = other_mode;
          uid = uid;
          gid = gid;
          ctime = i_ctime;
          mtime = mtime;
          size = size;
          block = block;
          index = index;
          directory = record {
            parent = parent;
            nentries = nentries;
            entries = record { number = number; length = len; type = e_type };
          };
        };
        block = record { offset = offset; compressed_size = compressed_size; size = b_size };
      };
      min = record {
        inode = record { ctime = min_ctime; mtime = min_mtime };
        block = record { compressed_size = min_compressed_size };
      };
    })
super_of _ = none

abbrev pub bytes_of : List ℕ → List ℕ
bytes_of [] = []
bytes_of (w ∷ ws) =
    w % 2 ^ 8 ∷ w / 2 ^ 8 % 2 ^ 8 ∷ w / 2 ^ 16 % 2 ^ 8 ∷ w / 2 ^ 24 % 2 ^ 8 ∷ bytes_of ws

abbrev pub words_of : List ℕ → List ℕ
words_of (a ∷ b ∷ c ∷ d ∷ xs) = (a + b * 2 ^ 8 + c * 2 ^ 16 + d * 2 ^ 24) ∷ words_of xs
words_of _ = []

abbrev pub AreWords : List ℕ → Type 0
AreWords [] = Unit
AreWords (w ∷ ws) = (w < 2 ^ 32) × AreWords ws

word_lem :
    (w : ℕ)
    → w < 2 ^ 32
    → w % 2 ^ 8
        + w / 2 ^ 8 % 2 ^ 8 * 2 ^ 8
        + w / 2 ^ 16 % 2 ^ 8 * 2 ^ 16
        + w / 2 ^ 24 % 2 ^ 8 * 2 ^ 24
      ≡ w
word_lem w h = omega arith

pub words_of-bytes_of : (ws : List ℕ) → AreWords ws → words_of (bytes_of ws) ≡ ws
words_of-bytes_of [] h = refl
words_of-bytes_of (w ∷ ws) h = ap₂ (λ x l. x ∷ l) (word_lem w h.0) (words_of-bytes_of ws h.1)

pub super_of-words : (s : SuperBlock) → super_of (words s) ≡ some s
unfolding super_of
super_of-words s = refl
