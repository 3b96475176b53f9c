-- ===== src/Mkfs/Sources.antt =====
-- src/mkfs/mkfs.c, `node_new` and `sources_scan`: the nodes of the source trees.
pub mod Tables
pub mod Invariant
pub mod Scan
pub mod Walk
pub mod Distinct
use Prim.Native.Nat.{bit_and}
use smashfs.Base.{
  ℕ, zero, suc, ◌+◌, Bool, true, false, List, [], ◌∷◌, ◌++◌, length, take, get_or, update,
}
use smashfs.Base.{Option, none, some, leb, ◌==◌, ◌&&◌, if◌then◌else◌, ℤ, same_bytes}
use smashfs.Base.{Result, ok, fail, fault, ◌>>=◌, ◌>>◌, require}
use smashfs.Format.InodeType
use smashfs.Mkfs.{
  Node, Pointer, RegularFile, Directory, DirectoryEntry, null, regular_file, directory,
  symbolic_link,
}
use smashfs.Mkfs.NodeType
use smashfs.Mode

-- `fts_info` of an entry of the tree walk: the five values that the scan tests for, or another.
pub data Info : Type 0 where
  nsok err ns dnr dp other : Info

-- The entries that the scan does not pass over.
unfoldable pub is_visited : Info → Bool
is_visited other = true
is_visited _ = false

-- An `FTSENT` that `fts_read` gives, with its `struct stat`. `parent` names the entry of its
-- directory; the parent of a source itself has no node. `content` is what the file holds, or
-- nothing where it cannot be opened; `target` is what `readlink` gives.
pub record Entry : Type 0 where
  pub id : ℕ
  pub parent : Option ℕ
  pub info : Info
  pub name : List ℕ
  pub accpath : List ℕ
  pub st_mode : ℕ
  pub st_uid : ℕ
  pub st_gid : ℕ
  pub st_ctime : ℤ
  pub st_mtime : ℤ
  pub st_size : ℕ
  pub content : Option (List ℕ)
  pub target : Option (List ℕ)

-- `fts_pointer` of an entry: NULL, a node of the table by its number, or a node that was freed.
pub data Handle : Type 0 where
  nothing freed : Handle
  live : ℕ → Handle

-- The globals of the scan. `nodes_table` is the list of its nodes in the order of `HASH_ADD`.
pub record Sources : Type 0 where
  pub nodes_table : List Node
  pub nodes_id : ℕ
  pub nduplicates : ℕ
  pub nregular_files : ℕ
  pub ndirectories : ℕ
  pub nsymbolic_links : ℕ
  pub pointers : ℕ → Handle

abbrev pub empty : Sources
empty = record {
  nodes_table = [];
  nodes_id = 0;
  nduplicates = 0;
  nregular_files = 0;
  ndirectories = 0;
  nsymbolic_links = 0;
  pointers = λ id. nothing;
}

-- S_ISREG and the other tests of <sys/stat.h>.
unfoldable pub node_type : ℕ → Result ℕ
node_type st_mode =
    let format = bit_and st_mode 0o170000 in
    if format == 0o100000
    then ok InodeType.regular_file
    else if format == 0o040000
    then ok InodeType.directory
    else if format == 0o020000
    then ok InodeType.character_device
    else if format == 0o060000
    then ok InodeType.block_device
    else if format == 0o010000
    then ok InodeType.fifo
    else if format == 0o120000
    then ok InodeType.symbolic_link
    else if format == 0o140000
    then ok InodeType.socket
    else fail

-- The node before its data is known; `size`, `block` and `index` are set by `output_write`, and
-- `path` has room for 128 * 1024 bytes.
unfoldable pub node_init : ℕ → Entry → ℕ → Node
node_init number e type = record {
  number = number;
  type = type;
  owner_mode = Mode.owner_mode e.st_mode;
  group_mode = Mode.group_mode e.st_mode;
  other_mode = Mode.other_mode e.st_mode;
  uid = e.st_uid;
  gid = e.st_gid;
  ctime = e.st_ctime;
  mtime = e.st_mtime;
  size = 0;
  block = 0;
  index = 0;
  pointer = null;
  ntype = NodeType.unknown;
  path = take 131071 e.accpath;
}

-- An ELF file begins with 0x7f and "ELF".
unfoldable pub is_elf : List ℕ → Bool
is_elf content =
    leb 4 (length content)
    && (get_or content 0 0 == 0x7f)
    && (get_or content 1 0 == 0x45)
    && (get_or content 2 0 == 0x4c)
    && (get_or content 3 0 == 0x46)

-- `memcmp` and `strcmp` of what two nodes of one type hold.
unfoldable pub same_file : Pointer → RegularFile → Bool
same_file (regular_file g) f = (g.size == f.size) && same_bytes g.content f.content
same_file _ f = false

unfoldable pub same_link : Pointer → List ℕ → Bool
same_link (symbolic_link p) path = same_bytes p path
same_link _ path = false

-- The loop that looks for a node of this type with this data: the first one.
unfoldable pub find_duplicate : ℕ → (Pointer → Bool) → List Node → Option Node
find_duplicate type same [] = none
find_duplicate type same (d ∷ ds) =
    let rest = find_duplicate type same ds in
    if (d.type == type) && same d.pointer then some d else rest

-- The bytes of the entries of a directory in memory.
unfoldable pub entries_bytes : List DirectoryEntry → ℕ
entries_bytes [] = 0
entries_bytes (x ∷ xs) = 24 + x.length + entries_bytes xs

unfoldable pub directory_entry : Entry → Node → DirectoryEntry
directory_entry e node = record {
  number = node.number;
  length = length e.name;
  type = node.type;
  name = e.name;
}

-- The node of the entry's directory.
abbrev pub parent_of : Sources → Entry → Handle
parent_of s e = elim e.parent [ some id ↦ s.pointers id | none ↦ nothing ]

-- The counters behind `out`.
unfoldable pub count_type : ℕ → Sources → Sources
count_type type s = record s {
  nregular_files =
      if type == InodeType.regular_file then s.nregular_files + 1 else s.nregular_files;
  ndirectories = if type == InodeType.directory then s.ndirectories + 1 else s.ndirectories;
  nsymbolic_links =
      if type == InodeType.symbolic_link then s.nsymbolic_links + 1 else s.nsymbolic_links;
}

-- From the label `out` on, for a new node and for a duplicate.
unfoldable pub add_node : Sources → Entry → Node → List Node → Sources
add_node s e new table = count_type new.type (record s {
  nodes_table = table ++ (new ∷ []);
  nodes_id = s.nodes_id + 1;
  pointers = update s.pointers e.id (live new.number);
})

unfoldable pub add_duplicate : Sources → Entry → Node → List Node → Sources
add_duplicate s e old table = count_type old.type (record s {
  nodes_table = table;
  nduplicates = s.nduplicates + 1;
  pointers = update s.pointers e.id freed;
})

-- The number of the directory above, or 0.
unfoldable pub parent_number : Handle → Result ℕ
parent_number nothing = ok 0
parent_number freed = fault
parent_number (live number) = ok number

module _ (malloc : ℕ → Bool) where
  -- The directory with one more entry.
  unfoldable pub grow_directory : Directory → DirectoryEntry → Result Directory
  unfolding entries_bytes
  grow_directory d x = do
    let old = take d.nentries d.entries
    require (malloc (16 + entries_bytes old + 24 + length x.name))
    ok (record d { nentries = d.nentries + 1; entries = old ++ (x ∷ []) })

  unfoldable pub grow_pointer : Pointer → DirectoryEntry → Result Pointer
  grow_pointer (directory d) x = grow_directory d x >>= λ d'. ok (directory d')
  grow_pointer _ x = fault

  -- The entry goes to the node with the parent's number, which has to be a directory.
  unfoldable pub add_child : List Node → ℕ → DirectoryEntry → Result (List Node)
  add_child [] number x = fault
  add_child (d ∷ ds) number x =
      let rest = (add_child ds number x >>= λ ds'. ok (d ∷ ds')) in
      let grown = (grow_pointer d.pointer x >>= λ p. ok (record d { pointer = p } ∷ ds)) in
      if d.number == number then (if d.type == InodeType.directory then grown else fail) else rest

  -- The table with the entry in the directory of its parent.
  unfoldable pub attach : List Node → Handle → DirectoryEntry → Result (List Node)
  attach table nothing x = ok table
  attach table freed x = fault
  attach table (live number) x = add_child table number x

  -- From the second `parent = ` on, for a new node or a duplicate of one.
  unfoldable pub link_node : Sources → Entry → Option Node → Node → Result Sources
  link_node s e (some old) new = do
    table ← attach s.nodes_table (parent_of s e) (directory_entry e old)
    ok (add_duplicate s e old table)
  link_node s e none new = do
    table ← attach s.nodes_table (parent_of s e) (directory_entry e new)
    ok (add_node s e new table)

  unfoldable pub new_directory : Sources → Entry → Node → Result Sources
  new_directory s e node = do
    require (malloc 16)
    number ← parent_number (parent_of s e)
    link_node s e none (record node {
      pointer = directory (record { parent = number; nentries = 0; entries = [] });
      ntype = NodeType.directory;
    })

module _ (malloc : ℕ → Bool) (no_duplicates : Bool) where
  unfoldable pub new_regular_file : Sources → Entry → Node → Result Sources
  new_regular_file s e node = do
    content ← (elim e.content [ some content ↦ ok content | none ↦ fail ])
    require (malloc (8 + e.st_size))
    require (length content == e.st_size)
    let f : RegularFile = record { size = e.st_size; content = content }
    let same = find_duplicate InodeType.regular_file (λ p. same_file p f) s.nodes_table
    link_node malloc s e (if no_duplicates then none else same) (record node {
      pointer = regular_file f;
      ntype = if is_elf content then NodeType.elf_file else NodeType.regular_file;
    })

  unfoldable pub new_symbolic_link : Sources → Entry → Node → Result Sources
  new_symbolic_link s e node = do
    require (malloc (e.st_size + 1))
    path ← (elim e.target [ some path ↦ ok path | none ↦ fail ])
    require (leb (length path) e.st_size)
    let same = find_duplicate InodeType.symbolic_link (λ p. same_link p path) s.nodes_table
    link_node malloc s e (if no_duplicates then none else same)
        (record node { pointer = symbolic_link path; ntype = NodeType.symbolic_link })

  -- `node_new` behind its first malloc.
  unfoldable pub node_fill : Sources → Entry → Result Sources
  node_fill s e = do
    type ← node_type e.st_mode
    let node = node_init s.nodes_id e type
    if type == InodeType.regular_file
        then new_regular_file s e node
        else if type == InodeType.directory
        then new_directory malloc s e node
        else if type == InodeType.symbolic_link
        then new_symbolic_link s e node
        else fail

  -- A node that could not be made leaves its pointer behind.
  unfoldable pub keep_pointer : Sources → Entry → Result Sources → Result Sources
  keep_pointer s e (ok s') = ok s'
  keep_pointer s e fail = ok (record s { pointers = update s.pointers e.id freed })
  keep_pointer s e fault = fault

  -- The state after `node_new`, also where it returns NULL. `size` is that of `struct node`.
  unfoldable pub node_new : ℕ → Sources → Entry → Result Sources
  unfolding keep_pointer
  node_new size s e = if malloc size then keep_pointer s e (node_fill s e) else ok s

  -- The loop over what `fts_read` gives.
  unfoldable pub sources_scan : ℕ → Sources → List Entry → Result Sources
  sources_scan size s [] = ok s
  sources_scan size s (e ∷ es) =
      let skipped = sources_scan size s es in
      let made = (node_new size s e >>= λ s'. sources_scan size s' es) in
      if is_visited e.info then made else skipped
