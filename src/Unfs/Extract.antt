-- ===== src/Unfs/Extract.antt =====
-- src/mkfs/unfs.c: `node_read`, its three callbacks, and `traverse`, which makes the files.
pub mod Data
pub mod Tree
use smashfs.Base.{
  ℕ, zero, suc, ◌+◌, ◌*◌, ◌-◌, min, Bool, true, false, List, [], ◌∷◌, ◌++◌, length, take, drop, ltb,
  leb, ◌==◌,
}
use smashfs.Base.{
  Option, none, some, if◌then◌else◌, Result, ok, fail, fault, ◌>>=◌, ◌>>◌, require, defined,
  attempt,
}
use smashfs.Buffer
use smashfs.Directory.{head_size, entry_size, read_head, read_entry}
use smashfs.Format.InodeType
use smashfs.Mode
use smashfs.Table.{Node, Block}
use smashfs.Unfs.{State, node_fill, block_fill}

-- The system calls of `traverse`, on a state of the machine. A call that fails gives `false` or
-- nothing; `mkdir` of a directory that is there does not count as failing.
pub record System (World : Type 0) : Type 0 where
  pub mkdir : World → List ℕ → ℕ → World × Bool
  pub chdir : World → List ℕ → World × Bool
  pub unlink : World → List ℕ → World
  pub open_file : World → List ℕ → ℕ → World × Option ℕ
  pub write : World → ℕ → List ℕ → World × Option ℕ
  pub close : World → ℕ → World
  pub symlink : World → List ℕ → List ℕ → World × Bool
  pub chmod : World → List ℕ → ℕ → World
  pub lchown : World → List ℕ → ℕ → ℕ → World × Bool

-- The name "..".
abbrev pub dot_dot : List ℕ
dot_dot = b'.' ∷ b'.' ∷ []

-- A string of C: the bytes before the first 0, which must be there.
unfoldable pub c_string : List ℕ → Result (List ℕ)
c_string [] = fault
c_string (x ∷ xs) = let rest = (c_string xs >>= λ cs. ok (x ∷ cs)) in if x == 0 then ok [] else rest

-- The bytes that `strndup` copies: `n` at most, up to the first 0.
unfoldable pub strndup : List ℕ → ℕ → Result (List ℕ)
strndup xs zero = ok []
strndup [] (suc n) = fault
strndup (x ∷ xs) (suc n) =
    let rest = (strndup xs n >>= λ cs. ok (x ∷ cs)) in if x == 0 then ok [] else rest

-- `node_read_directory` and `node_read_symbolic_link` are one function: they copy to the memory of
-- `capacity` bytes behind what is there.
unfoldable pub node_read_memory : ℕ → List ℕ → List ℕ → Result (List ℕ × Bool)
node_read_memory capacity out bytes = do
  defined (leb (length out + length bytes) capacity)
  ok (out ++ bytes, true)

-- Whether `write` has written all the bytes.
unfoldable pub is_written : Option ℕ → ℕ → Bool
is_written none size = false
is_written (some rc) size = rc == size

module _ {World : Type 0} (sys : System World) where
  unfoldable pub node_read_regular_file : ℕ → World → List ℕ → Result (World × Bool)
  node_read_regular_file fd w bytes =
      let (w', rc) = sys.write w fd bytes in ok (w', is_written rc (length bytes))

  -- `chdir("..")` on an error path; that it fails is only printed.
  unfoldable pub leave : World → World
  leave w = (sys.chdir w dot_dot).0

  -- The end of `traverse`.
  unfoldable pub set_owner : Node → List ℕ → ℕ → World → World
  set_owner node name mode w = (sys.lchown (sys.chmod w name mode) name node.uid node.gid).0

module _ (malloc : ℕ → Bool) (uncompress : List ℕ → ℕ → Option (List ℕ)) (s : State) where
  -- A block's row, and what the decompressor writes.
  unfoldable pub block_data : ℕ → Result (Block × List ℕ)
  block_data b = do
    block ← block_fill s b
    require (malloc block.size)
    let entries = Buffer.contents s.entry_buffer
    defined (leb (block.offset + block.compressed_size) (length entries))
    out ← (elim (uncompress (take block.compressed_size (drop block.offset entries)) block.size) [
      | some out ↦ ok out
      | none ↦ fail
    ])
    ok (block, out)

  module _ {C : Type 0} (function : C → List ℕ → Result (C × Bool)) where
    -- `while (s < node->size)`, with fuel: the context after it, and whether it returns 0. Reading
    -- behind what the decompressor wrote is undefined.
    unfoldable pub node_read_loop : ℕ → ℕ → C → ℕ → ℕ → ℕ → Result (C × Bool)
    node_read_loop zero size c at i b = fault
    node_read_loop (suc fuel) size c at i b =
        let round = (do
          found ← attempt (block_data b)
          elim found [
            | none ↦ ok (c, false)
            | some (block, out) ↦ (do
              defined (leb i block.size)
              let l = min (size - at) (block.size - i)
              defined (leb (i + l) (length out))
              (c', done) ← function c (take l (drop i out))
              let rest = node_read_loop fuel size c' (at + l) 0 (b + 1)
              if done then rest else ok (c', false))
          ]) in
        if ltb at size then round else ok (c, true)

    unfoldable pub node_read : Node → C → Result (C × Bool)
    node_read node c = node_read_loop (node.size + 1) node.size c 0 node.index node.block

module _ {World : Type 0} (sys : System World) (malloc : ℕ → Bool)
    (uncompress : List ℕ → ℕ → Option (List ℕ)) (s : State) where
  -- The loop over the entries of a directory, from byte `at` of it on. `visit` is `traverse`.
  unfoldable pub entries_loop :
      (World → ℕ → List ℕ → Result World) → List ℕ → ℕ → ℕ → World → Result World
  entries_loop visit nbuffer zero at w = ok w
  entries_loop visit nbuffer (suc n) at w = do
    let bits = s.super.bits.inode.directory.entries
    (number, len) ← read_entry bits (drop at nbuffer)
    let name_at = at + entry_size bits
    path ← strndup (drop name_at nbuffer) len
    w' ← (if malloc (length path + 1) then visit w number path else ok w)
    entries_loop visit nbuffer n (name_at + len) w'

  unfoldable pub extract_entries :
      (World → ℕ → List ℕ → Result World) → Node → List ℕ → ℕ → List ℕ → World → Result World
  extract_entries visit node name mode nbuffer w = do
    let bits = s.super.bits.inode.directory
    (parent, nentries) ← read_head bits nbuffer node.size
    w' ← entries_loop visit nbuffer nentries (head_size bits) w
    let (w'', left) = sys.chdir w' dot_dot
    ok (if left then set_owner sys node name mode w'' else w'')

  unfoldable pub extract_directory :
      (World → ℕ → List ℕ → Result World) → Node → List ℕ → ℕ → World → Result World
  extract_directory visit node name mode w =
      let (w1, made) = sys.mkdir w name mode in
      let (w2, entered) = sys.chdir w1 name in
      let read_it = (do
        (nbuffer, done) ← node_read malloc uncompress s (node_read_memory node.size) node []
        if done then extract_entries visit node name mode nbuffer w2 else ok (leave sys w2)) in
      if made
      then (if entered then (if malloc node.size then read_it else ok (leave sys w2)) else ok w2)
      else ok w1

  unfoldable pub extract_regular_file : Node → List ℕ → ℕ → World → Result World
  extract_regular_file node name mode w =
      let (w1, opened) = sys.open_file (sys.unlink w name) name mode in
      elim opened [
        | none ↦ ok w1
        | some fd ↦ (do
          (w2, done) ← node_read malloc uncompress s (node_read_regular_file sys fd) node w1
          ok (if done then set_owner sys node name mode (sys.close w2 fd) else leave sys w2))
      ]

  unfoldable pub extract_symbolic_link : Node → List ℕ → ℕ → World → Result World
  extract_symbolic_link node name mode w =
      let w1 = sys.unlink w name in
      let read_it = (do
        (nbuffer, done) ← node_read malloc uncompress s (node_read_memory node.size) node []
        let link_it = (do
          target ← c_string nbuffer
          let (w2, made) = sys.symlink w1 target name
          ok (if made then set_owner sys node name mode w2 else w2))
        if done then link_it else ok (leave sys w1)) in
      if malloc node.size then read_it else ok (leave sys w1)

  unfoldable pub extract_node :
      (World → ℕ → List ℕ → Result World) → Node → List ℕ → World → Result World
  extract_node visit node name w =
      let mode = Mode.join node.owner_mode node.group_mode node.other_mode 0 in
      if node.type == InodeType.directory
      then extract_directory visit node name mode w
      else if node.type == InodeType.regular_file
      then extract_regular_file node name mode w
      else if node.type == InodeType.symbolic_link
      then extract_symbolic_link node name mode w
      else ok w

  -- Fuel for the depth of the tree.
  unfoldable pub traverse : ℕ → World → ℕ → List ℕ → Result World
  traverse zero w inode name = fault
  traverse (suc fuel) w inode name = do
    filled ← attempt (node_fill s inode)
    elim filled [
      | none ↦ ok w
      | some node ↦ (do
        row ← attempt (block_fill s node.block)
        elim row [ none ↦ ok w | some block ↦ extract_node (traverse fuel) node name w ])
    ]

  -- The end of `main`: the machine after it, and whether it returns 0.
  unfoldable pub extract_image : ℕ → (World → List ℕ) → List ℕ → World → Result (World × Bool)
  extract_image fuel getcwd output w =
      let (w1, made) = sys.mkdir w output 0o777 in
      let (w2, entered) = sys.chdir w1 output in
      let inside = (do
        w3 ← traverse fuel w2 s.super.root (b'.' ∷ b'/' ∷ [])
        ok (sys.chdir w3 (getcwd w1))) in
      if made
      then (if malloc (1024 * 1024)
          then (if entered then inside else ok (w2, false))
          else ok (w1, false))
      else ok (w1, false)
