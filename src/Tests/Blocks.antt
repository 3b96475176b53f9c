-- ===== src/Tests/Blocks.antt =====
-- Two compressed blocks in a new buffer.
use smashfs.Base.{ℕ, ◌≡◌, refl, arith, List, ◌∷◌, [], ok, true, ◌++◌, length}
use smashfs.Buffer
use smashfs.Buffer.{Buffer}
use smashfs.Buffer.Add.{init-IsValid}
use smashfs.Mkfs.{Block}
use smashfs.Mkfs.Blocks.{place_blocks}
use smashfs.Mkfs.Blocks.Stored.{AreStored, AreCompressed, total, place_blocks-AreStored}

abbrev blocks : List Block
blocks =
    record {
      offset = 0;
      size = 4096;
      compressed_size = 2;
      buffer = [];
      cbuffer = 1 ∷ 2 ∷ 0 ∷ [];
      status = 2;
    }
    ∷ record {
      offset = 0;
      size = 9;
      compressed_size = 1;
      buffer = [];
      cbuffer = 3 ∷ [];
      status = 2;
    }
    ∷ []

blocks-AreCompressed : AreCompressed blocks
blocks-AreCompressed = (omega arith, omega arith, (omega arith, omega arith, tt))

place_blocks-AreStored_example :
    (bs : List Block) × (buf : Buffer) × (tail : List ℕ) × (place_blocks
        (λ n. true)
        blocks
        0
        Buffer.init
      ≡ ok (bs, buf))
    × (Buffer.contents buf ≡ Buffer.contents Buffer.init ++ tail)
    × (length tail ≡ total blocks)
    × AreStored (Buffer.contents buf) bs
place_blocks-AreStored_example =
    place_blocks-AreStored (λ n. true) (λ n. refl) blocks 0 Buffer.init init-IsValid refl
      blocks-AreCompressed (omega arith)
