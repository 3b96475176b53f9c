-- ===== src/Table/Restored.antt =====
-- What a node that is read back holds, by the widths of its fields: the rules of the on-disk
-- format.
use smashfs.Base.{
  ℕ, ◌%◌, ◌^◌, ◌<◌, ◌≡◌, ◌⊎◌, inl, inr, refl, arith, ◌==◌, ==_iff, if◌then◌else◌, Bool-cases,
}
use smashfs.Format.{InodeBits}
use smashfs.Table.{Node}

-- A field of `w` bits holds the stored value cut to them; a field of no bits stands for `default`.
abbrev pub IsField : ℕ → ℕ → ℕ → ℕ → Type 0
IsField w stored default value =
    ((w ≡ 0) × (value ≡ default)) ⊎ ((0 < w) × (value ≡ stored % 2 ^ w))

-- The node less its times: a missing mode is the owner's, a missing user or group is 0.
pub record IsRestored (bits : InodeBits) (number : ℕ) (stored out : Node) : Type 0 where
  pub number_is : out.number ≡ number
  pub type : out.type ≡ stored.type % 2 ^ bits.type
  pub owner_mode : out.owner_mode ≡ stored.owner_mode % 2 ^ bits.owner_mode
  pub group_mode : IsField bits.group_mode stored.group_mode out.owner_mode out.group_mode
  pub other_mode : IsField bits.other_mode stored.other_mode out.owner_mode out.other_mode
  pub uid : IsField bits.uid stored.uid 0 out.uid
  pub gid : IsField bits.gid stored.gid 0 out.gid
  pub size : out.size ≡ stored.size % 2 ^ bits.size
  pub block : out.block ≡ stored.block % 2 ^ bits.block
  pub index : out.index ≡ stored.index % 2 ^ bits.index

pub field_lem :
    (w stored default : ℕ) → IsField w stored default (if w == 0 then default else stored % 2 ^ w)
field_lem w stored default = elim (Bool-cases (w == 0)) [
  | inl nothing ↦ rw nothing (inl ((==_iff w 0).0 nothing, refl))
  | inr some_bits ↦ rw some_bits (inr (ground (arith, some_bits), refl))
]
