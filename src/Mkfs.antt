-- ===== src/Mkfs.antt =====
-- The data of src/mkfs/mkfs.c. The operations are in the modules below.
pub mod NodeType
pub mod Log
pub mod Sources
pub mod Limits
pub mod Entries
pub mod Inodes
pub mod Image
pub mod Split
pub mod Jobs
pub mod Blocks
pub mod CommandLine
use smashfs.Base.{ℕ, Bool, List, Option, ℤ}

-- `struct node_regular_file`
pub record RegularFile : Type 0 where
  pub size : ℕ
  pub content : List ℕ

-- `struct node_directory_entry`
pub record DirectoryEntry : Type 0 where
  pub number : ℕ
  pub length : ℕ
  pub type : ℕ
  pub name : List ℕ

-- `struct node_directory`, its entries in the order in which they lie in memory.
pub record Directory : Type 0 where
  pub parent : ℕ
  pub nentries : ℕ
  pub entries : List DirectoryEntry

-- The union of `struct node`. A link's path is without its NUL.
pub data Pointer : Type 0 where
  null : Pointer
  regular_file : RegularFile → Pointer
  directory : Directory → Pointer
  symbolic_link : List ℕ → Pointer

-- `struct node` less its hash handle: `nodes_table` is the list of the nodes in the table's order.
pub record Node : Type 0 where
  pub number : ℕ
  pub type : ℕ
  pub owner_mode : ℕ
  pub group_mode : ℕ
  pub other_mode : ℕ
  pub uid : ℕ
  pub gid : ℕ
  pub ctime : ℤ
  pub mtime : ℤ
  pub size : ℕ
  pub block : ℕ
  pub index : ℕ
  pub pointer : Pointer
  pub ntype : ℕ
  pub path : List ℕ

-- `struct block`; `buffer` and `cbuffer` hold what their pointers name.
pub record Block : Type 0 where
  pub offset : ℕ
  pub size : ℕ
  pub compressed_size : ℕ
  pub buffer : List ℕ
  pub cbuffer : List ℕ
  pub status : ℕ

-- The command line's settings.
pub record Options : Type 0 where
  pub block_size : ℕ
  pub njobs : ℕ
  pub no_group_mode : Bool
  pub no_other_mode : Bool
  pub no_uid : Bool
  pub no_gid : Bool
  pub no_ctime : Bool
  pub no_mtime : Bool
  pub no_padding : Bool
  pub no_duplicates : Bool
