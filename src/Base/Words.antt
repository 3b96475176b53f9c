-- ===== src/Base/Words.antt =====
-- Machine integers of C. An unsigned result wraps; a signed overflow is undefined.
use Prim.Native.Nat.{ℕ, ◌*◌, ◌/◌, ◌%◌, ◌^◌}
use smashfs.Base.Tests.{ltb}
use smashfs.Base.Fallible.{Result, ok, ◌>>◌, defined}

abbrev pub u8 : ℕ → ℕ
u8 x = x % 2 ^ 8

abbrev pub u32 : ℕ → ℕ
u32 x = x % 2 ^ 32

-- A non-negative value that an `int` can hold.
abbrev pub int : ℕ → Result ℕ
int x = do defined (ltb x (2 ^ 31)); ok x

-- `x << k` and `x >> k` of a 32-bit `unsigned`; a shift by 32 or more is undefined.
abbrev pub shl32 : ℕ → ℕ → Result ℕ
shl32 x k = do defined (ltb k 32); ok (u32 (x * 2 ^ k))

abbrev pub shr32 : ℕ → ℕ → Result ℕ
shr32 x k = do defined (ltb k 32); ok (x / 2 ^ k)
