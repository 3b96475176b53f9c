-- ===== src/Tests/Buffers.antt =====
-- src/mkfs/bitbuffer.c, src/mkfs/buffer.c, the logarithms and the permission bits.
use smashfs.Base.{ℕ, ◌+◌, ◌^◌, ◌≤◌, ◌<◌, ◌≡◌, refl, arith, List, [], ◌∷◌, pos}
use smashfs.Base.{true, ok, replicate}
use smashfs.Bitbuffer.{Bitbuffer, getbits, putbits}
use smashfs.Bitbuffer.Get.{Readable, getbits_lem}
use smashfs.Bitbuffer.Put.{putbits_lem, IsPut}
use smashfs.Bitbuffer.View.{field, bit_at-replicate, IsBytes-replicate}
use smashfs.Buffer
use smashfs.Buffer.{Buffer}
use smashfs.Buffer.Add.{add_lem, IsAdded, init-IsValid}
use smashfs.Mkfs.Log.{blog}
use smashfs.Mkfs.Log.Laws.{blog_lem}
use smashfs.Mode.{join, owner_mode, group_mode, other_mode}
use smashfs.Mode.RoundTrip.{join_lem}

abbrev zeros : Bitbuffer
zeros = record { buffer = replicate 4 0; end = 4; size = 4; bsize = 32; index = 3; external = 0 }

zeros-Readable : Readable zeros.buffer
zeros-Readable = record { bytes = IsBytes-replicate 4; small = omega arith }

-- Three bits into the second byte, then twelve bits of 0xabc, then read back from the start.
putbits_lem_example :
    (out : List ℕ) × (putbits zeros 12 0xabc
      ≡ ok (record zeros { buffer = out; index = zeros.index + 12 }))
    × IsPut zeros.buffer zeros.index 12 0xabc out
putbits_lem_example =
    putbits_lem zeros 12 0xabc zeros-Readable (omega arith) (omega arith)
      (λ j p q. bit_at-replicate 4 j)

getbits_lem_example :
    getbits zeros 20
    ≡ ok (field zeros.buffer zeros.index 20, record zeros { index = zeros.index + 20 })
getbits_lem_example = getbits_lem zeros 20 zeros-Readable (omega arith) (omega arith)

add_lem_example : (b' : Buffer) × IsAdded (λ n. true) Buffer.init (7 ∷ 8 ∷ 9 ∷ []) 2 b'
add_lem_example =
    add_lem (λ n. true) Buffer.init (7 ∷ 8 ∷ 9 ∷ []) 2 init-IsValid (λ n. refl) (omega arith)
      (omega arith) (omega arith)

blog_lem_example :
    (1000 < 2 ^ blog (pos 1000))
    × (1 ≤ blog (pos 1000))
    × (blog (pos 1000) ≤ 62)
    × ((k : ℕ) → 1 ≤ k → 1000 < 2 ^ k → blog (pos 1000) ≤ k)
blog_lem_example = blog_lem 1000 (omega arith)

join_lem_example : join (owner_mode 0o100755) (group_mode 0o100755) (other_mode 0o100755) 0 ≡ 0o755
join_lem_example = join_lem 0o100755 (omega arith)
