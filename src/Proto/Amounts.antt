-- ===== src/Proto/Amounts.antt =====
-- zigzag (ctr_marketplace.go) and how the game undoes it.
use nextendo_demonware.Common.{ℕ, ◌/◌, ◌%◌, ◌^◌, ◌<◌, ◌≡◌, ◌==◌, if◌then◌else◌, arith}
use nextendo_demonware.Common.Int.{ℤ, pos, negsuc}
use nextendo_demonware.Stats.Types.{bits_of, IsInt64}
use nextendo_demonware.Proto.Fields.{zigzag}

-- The amount that a reader of a zigzag number sees.
abbrev pub unzigzag : ℕ → ℤ
unzigzag z = if z % 2 == 0 then pos (z / 2) else negsuc (z / 2)

-- An int64 is read back from its zigzag, which fits a uint64.
pub zigzag_lem : (v : ℤ) → IsInt64 v → (unzigzag (zigzag v) ≡ v) × (zigzag v < 2 ^ 64)
unfolding zigzag bits_of
zigzag_lem (pos n) h = ground arith
zigzag_lem (negsuc n) h = ground arith
