-- ===== src/Mode/RoundTrip.antt =====
-- Splitting and joining the permission bits.
use smashfs.Base.{ℕ, ◌%◌, ◌^◌, ◌<◌, ◌≡◌, refl, true, ◌==◌, ==_iff, passes, passes_lem}
use smashfs.Mode.{owner_mode, group_mode, other_mode, join}

join_table :
    passes (λ st. join (owner_mode st) (group_mode st) (other_mode st) 0 == st % 512) 65536 ≡ true
unfolding join owner_mode group_mode other_mode passes
join_table = refl

-- The readers give a file the nine permission bits that it had, whatever else `st_mode` holds.
pub join_lem :
    (st : ℕ) → st < 2 ^ 16 → join (owner_mode st) (group_mode st) (other_mode st) 0 ≡ st % 512
join_lem st h = (==_iff _ _).0 (passes_lem _ 65536 join_table st h)
