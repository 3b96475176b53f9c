-- ===== src/Kernel/Device/Fresh.antt =====
-- `smashfs_read` of src/linux/super.c to an array of its own.
use smashfs.Base.{
  ℕ, ◌+◌, ◌≤◌, ◌<◌, ◌^◌, ◌≡◌, ◌∙◌, sym, ap, arith, Bool, true, List, ◌++◌, length, take, drop,
  replicate, length-replicate, length-append, length-take, length-drop, take-append_length, ok,
}
use smashfs.Kernel.Device
use smashfs.Kernel.Device.{Device, page_cache_size}
use smashfs.Kernel.Device.Reads.{HoldsDisk, read-HoldsDisk}

-- What a read to a fresh array gives.
pub read_fresh :
    (malloc : ℕ → Bool) (dev : Device) (disk : List ℕ) (room offset size : ℕ)
    → ((n : ℕ) → malloc n ≡ true)
    → HoldsDisk dev disk
    → offset < 2 ^ 31
    → size + page_cache_size ≤ 2 ^ 31
    → offset + size ≤ length disk
    → size ≤ room
    → (bytes : List ℕ) × (Device.read malloc dev (replicate room 0) offset size ≡ ok (size, bytes))
      × (take size bytes ≡ take size (drop offset disk))
      × (length bytes ≡ room)
read_fresh malloc dev disk room offset size memory holds low paged inside fits =
    let part = take size (drop offset disk) in
    let rest : List ℕ = drop size (replicate {A = ℕ} room 0) in
    let long : length part ≡ size =
      omega (arith, length-take size (drop offset disk), length-drop offset disk, inside) in
    let zeros : length (replicate {A = ℕ} room 0) ≡ room = length-replicate {A = ℕ} room 0 in
    let run =
      read-HoldsDisk malloc dev disk (replicate room 0) offset size memory holds low paged inside
        (omega (arith, zeros, fits)) in
    (
      part ++ rest,
      run,
      ap (λ k. take k (part ++ rest)) (sym long) ∙ take-append_length part rest,
      omega (
        arith,
        length-append part rest,
        long,
        length-drop size (replicate {A = ℕ} room 0),
        zeros,
        fits,
      ),
    )
