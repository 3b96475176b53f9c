-- ===== src/Tests/Split.antt =====
-- Nine bytes in blocks of four.
use smashfs.Base.{ℕ, ◌≡◌, refl, arith, List, ◌∷◌, [], ok, true, length}
use smashfs.Mkfs.{Block}
use smashfs.Mkfs.Split.{split, block_count}
use smashfs.Mkfs.Split.Whole.{joined, split-block_count}

abbrev bytes : List ℕ
bytes = 1 ∷ 2 ∷ 3 ∷ 4 ∷ 5 ∷ 6 ∷ 7 ∷ 8 ∷ 9 ∷ []

count_of_nine : block_count 4 2 9 ≡ 3
unfolding block_count
count_of_nine = refl

split-block_count_example :
    (blocks : List Block) × (split (λ n. true) 4 (block_count 4 2 9) bytes 0 ≡ ok blocks)
    × (length blocks ≡ block_count 4 2 9)
    × (joined blocks ≡ bytes)
split-block_count_example = split-block_count (λ n. true) 2 bytes (λ n. refl) (omega arith)
