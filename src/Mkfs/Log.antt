-- ===== src/Mkfs/Log.antt =====
-- The logarithms and the orders of src/mkfs/mkfs.c.
pub mod Laws
use smashfs.Base.{ℕ, zero, suc, ◌+◌, ◌-◌, ◌^◌, Bool, true, false, List, [], ◌∷◌, Option, none, some}
use smashfs.Base.{ltb, leb, ◌==◌, ◌&&◌, if◌then◌else◌, ℤ, pos, negsuc, ltb_ℤ, sub_ℕ}
use smashfs.Format.InodeType
use smashfs.Mkfs.{Node}

-- The loop of `slog` from `i` on, with `left` rounds to go.
slog_loop : ℕ → ℕ → ℕ → ℕ
slog_loop zero i block = 0
slog_loop (suc left) i block =
    let rest = slog_loop left (i + 1) block in if block == 2 ^ i then i else rest

-- The exponent of a block size from 2 ^ 12 to 2 ^ 20, or 0.
pub slog : ℕ → ℕ
unfolding slog_loop
slog block = slog_loop 9 12 block

-- `(long long) 1 << i` as the compilers compute it: the top bit is the sign.
abbrev pub shl64 : ℕ → ℤ
shl64 i = if i == 63 then negsuc (2 ^ 63 - 1) else pos (2 ^ i)

-- The loop of `blog` from `i` on, with `left` rounds to go.
blog_loop : ℕ → ℕ → ℕ → ℕ
blog_loop zero i number = i
blog_loop (suc left) i number =
    let rest = blog_loop left (i + 1) number in if ltb_ℤ (pos number) (shl64 i) then i else rest

-- The bits that a number needs: none for a negative one, at least one for any other.
pub blog : ℤ → ℕ
unfolding blog_loop
blog (pos number) = blog_loop 63 1 number
blog (negsuc number) = 0

pub nodes_sort_by_number : Node → Node → ℤ
nodes_sort_by_number a b =
    if a.number == b.number then pos 0 else if ltb a.number b.number then negsuc 0 else pos 1

-- The C library's `strrchr (path, '.')`: the text from the last dot on.
strrchr_dot : List ℕ → Option (List ℕ)
strrchr_dot [] = none
strrchr_dot (c ∷ cs) = elim (strrchr_dot cs) [
  | some suffix ↦ some suffix
  | none ↦ (if c == b'.' then some (c ∷ cs) else none)
]

-- The C library's `strcmp`, by the difference of the first bytes that differ.
pub strcmp : List ℕ → List ℕ → ℤ
strcmp [] [] = pos 0
strcmp [] (y ∷ ys) = sub_ℕ 0 y
strcmp (x ∷ xs) [] = sub_ℕ x 0
strcmp (x ∷ xs) (y ∷ ys) = let rest = strcmp xs ys in if x == y then rest else sub_ℕ x y

-- Two dots compare by what follows them; without two dots the files are equal.
compare_dots : Option (List ℕ) → Option (List ℕ) → ℤ
compare_dots (some adot) (some bdot) = strcmp adot bdot
compare_dots _ _ = pos 0

pub nodes_sort_by_type : Node → Node → ℤ
unfolding strrchr_dot compare_dots strcmp
nodes_sort_by_type a b =
    let files = (a.type == InodeType.regular_file) && (b.type == InodeType.regular_file) in
    if a.ntype == b.ntype
    then (if files then compare_dots (strrchr_dot a.path) (strrchr_dot b.path) else pos 0)
    else if ltb a.ntype b.ntype
    then negsuc 0
    else pos 1
