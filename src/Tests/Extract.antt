-- ===== src/Tests/Extract.antt =====
-- An image with a directory that holds one file.
use native.Mathlib.Decide.{ℕ_discrete}
use smashfs.Base.{
  ℕ, ◌≡◌, refl, arith, Bool, true, List, [], ◌∷◌, ◌++◌, append_assoc, append-nil, length, Option,
  some, ok,
}
use smashfs.Bitbuffer
use smashfs.Buffer
use smashfs.Directory
use smashfs.Format
use smashfs.Format.{SuperBlock}
use smashfs.Table
use smashfs.Table.{Node, Block}
use smashfs.Unfs.{State, node_fill, block_fill, fill_defaults}
use smashfs.Unfs.Extract.{System, set_owner, block_data, node_read, node_read_memory, traverse}
use smashfs.Unfs.Extract.Data.{AreBlocks, HasContent, node_read-HasContent}
use smashfs.Unfs.Extract.Tree.{
  Tree, file, directory, nil, entry, depth, count, make, make_file, IsWilling, IsStored,
}
use smashfs.Unfs.Extract.Tree.Made.{traverse-IsStored}

abbrev pub super : SuperBlock
super = record {
  magic = Format.magic;
  version = Format.version_0;
  ctime = 7;
  inodes = 2;
  blocks = 1;
  block_size = 16;
  block_log2 = 4;
  root = 0;
  inodes_offset = 152;
  inodes_size = 4;
  inodes_csize = 4;
  blocks_offset = 156;
  blocks_size = 1;
  entries_offset = 157;
  entries_size = 5;
  compression_type = 0;
  bits = record {
    inode = record {
      type = 2;
      owner_mode = 3;
      group_mode = 0;
      other_mode = 0;
      uid = 0;
      gid = 0;
      ctime = 0;
      mtime = 0;
      size = 4;
      block = 0;
      index = 4;
      directory = record {
        parent = 1;
        nentries = 1;
        entries = record { number = 1; length = 1; type = 1 };
      };
    };
    block = record { offset = 0; compressed_size = 0; size = 3 };
  };
  min = record { inode = record { ctime = 7; mtime = 7 }; block = record { compressed_size = 5 } };
}

abbrev filled : List ℕ → Buffer.Buffer
filled bytes = record { buffer = bytes; size = length bytes; length = length bytes }

-- The entries are the head of the directory, its entry for `a`, and the two bytes of `a`.
abbrev image : State
image = record {
  super = super;
  inode_buffer = filled (185 ∷ 131 ∷ 136 ∷ 192 ∷ []);
  block_buffer = filled (160 ∷ []);
  entry_buffer = filled (64 ∷ 224 ∷ 97 ∷ 5 ∷ 6 ∷ []);
}

abbrev pub copy : List ℕ → ℕ → Option (List ℕ)
copy src dsize = some src

abbrev pub plenty : ℕ → Bool
plenty n = true

abbrev pub root_node : Node
root_node = record {
  number = 0;
  type = 2;
  owner_mode = 7;
  group_mode = 7;
  other_mode = 7;
  uid = 0;
  gid = 0;
  ctime = 7;
  mtime = 7;
  size = 3;
  block = 0;
  index = 0;
}

abbrev pub file_node : Node
file_node = record root_node {
  number = 1;
  type = 1;
  owner_mode = 6;
  group_mode = 6;
  other_mode = 6;
  size = 2;
  index = 3;
}

abbrev pub row : Block
row = record { offset = 0; size = 5; compressed_size = 5 }

root_filled : node_fill image 0 ≡ ok root_node
unfolding node_fill fill_defaults Table.read_node Table.max_inode_size Bitbuffer.getbits
    Bitbuffer.getbits_loop Bitbuffer.getbytes_loop Bitbuffer.getbit Bitbuffer.init_from_buffer
    Bitbuffer.uninit Bitbuffer.setpos Buffer.contents ℕ_discrete
root_filled = refl

file_filled : node_fill image 1 ≡ ok file_node
unfolding node_fill fill_defaults Table.read_node Table.max_inode_size Bitbuffer.getbits
    Bitbuffer.getbits_loop Bitbuffer.getbytes_loop Bitbuffer.getbit Bitbuffer.init_from_buffer
    Bitbuffer.uninit Bitbuffer.setpos Buffer.contents ℕ_discrete
file_filled = refl

row_filled : block_fill image 0 ≡ ok row
unfolding block_fill Table.read_block Table.max_block_size Bitbuffer.getbits Bitbuffer.getbits_loop
    Bitbuffer.getbytes_loop Bitbuffer.getbit Bitbuffer.init_from_buffer Bitbuffer.uninit
    Bitbuffer.setpos Buffer.contents ℕ_discrete
row_filled = refl

image-AreBlocks : AreBlocks (block_data plenty copy image) 16 (64 ∷ 224 ∷ 97 ∷ 5 ∷ 6 ∷ [])
unfolding block_data Buffer.contents
image-AreBlocks = record {
  positive = omega arith;
  block_at = λ b start here inside.
      (let first : b ≡ 0 = omega (arith, here, inside) in
        let at_0 : start ≡ 0 = omega (arith, here, inside) in
        (row, rw (first, at_0, row_filled) refl, rw at_0 refl));
}

root-HasContent : HasContent 16 (64 ∷ 224 ∷ 97 ∷ 5 ∷ 6 ∷ []) root_node (64 ∷ 224 ∷ 97 ∷ [])
root-HasContent = record {
  inside_block = omega arith;
  size_is = refl;
  inside = omega arith;
  content_is = refl;
}

node_read-HasContent_example :
    node_read plenty copy image (node_read_memory 3) root_node [] ≡ ok (64 ∷ 224 ∷ 97 ∷ [], true)
node_read-HasContent_example =
    node_read-HasContent plenty copy image 16 (64 ∷ 224 ∷ 97 ∷ 5 ∷ 6 ∷ []) root_node
      (64 ∷ 224 ∷ 97 ∷ []) image-AreBlocks root-HasContent

-- A machine that keeps what is written, in one list.
abbrev machine : System (List ℕ)
machine = record {
  mkdir = λ w name mode. (w, true);
  chdir = λ w name. (w, true);
  unlink = λ w name. w;
  open_file = λ w name mode. (w, some 3);
  write = λ w fd xs. (w ++ xs, some (length xs));
  close = λ w fd. w;
  symlink = λ w target name. (w, true);
  chmod = λ w name mode. w;
  lchown = λ w name uid gid. (w, true);
}

machine-IsWilling : IsWilling machine
machine-IsWilling = record {
  mkdir_made = λ w name mode. refl;
  chdir_entered = λ w name. refl;
  open_file_opened = λ w name mode. (3, refl);
  write_written = λ w fd xs. refl;
  write-write = λ w fd xs ys. append_assoc w xs ys;
  write-nil = λ w fd. append-nil w;
  symlink_made = λ w target name. refl;
}

abbrev tree : Tree
tree =
    directory root_node (64 ∷ 224 ∷ 97 ∷ []) (entry 1 (97 ∷ []) (file file_node (5 ∷ 6 ∷ [])) nil)

tree-IsStored : IsStored image 16 (64 ∷ 224 ∷ 97 ∷ 5 ∷ 6 ∷ []) 0 tree
unfolding IsStored count Directory.head_size Directory.entry_size Directory.read_head
    Directory.read_entry Bitbuffer.getbits Bitbuffer.getbits_loop Bitbuffer.getbytes_loop
    Bitbuffer.getbit Bitbuffer.init_from_buffer Bitbuffer.uninit Bitbuffer.skipbits ℕ_discrete
tree-IsStored = (
  record {
    filled = root_filled;
    row = row;
    row_filled = row_filled;
    type_is = refl;
    has = root-HasContent;
  },
  (0, refl),
  (
    refl,
    refl,
    (refl, tt),
    record {
      filled = file_filled;
      row = row;
      row_filled = row_filled;
      type_is = refl;
      has = record {
        inside_block = omega arith;
        size_is = refl;
        inside = omega arith;
        content_is = refl;
      };
    },
    tt,
  ),
)

traverse-IsStored_example :
    traverse machine plenty copy image 2 [] 0 (b'.' ∷ b'/' ∷ [])
    ≡ ok (make machine [] (b'.' ∷ b'/' ∷ []) tree)
unfolding depth
traverse-IsStored_example =
    traverse-IsStored machine machine-IsWilling plenty (λ n. refl) copy image 16
      (64 ∷ 224 ∷ 97 ∷ 5 ∷ 6 ∷ []) image-AreBlocks 1 [] 0 (b'.' ∷ b'/' ∷ []) tree (omega arith)
      tree-IsStored

-- What is written is the content of the file.
made : make machine [] (b'.' ∷ b'/' ∷ []) tree ≡ 5 ∷ 6 ∷ []
unfolding make make_file set_owner
made = refl
