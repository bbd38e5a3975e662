-- ===== src/Stats/Types.antt =====
-- The rows of the leaderboards (ctr_stats.go). An int64 is an integer, whose range and wrap-around
-- are written out.
use nextendo_demonware.Common.{
  ℕ, ◌-◌, ◌%◌, ◌^◌, ◌<◌, Bool, not, ◌&&◌, ◌||◌, List, ltb, leb, ◌==◌, if◌then◌else◌,
}
use nextendo_demonware.Common.Int.{ℤ, pos, negsuc}

-- ctrStat. Its rank is filled in when a board is read.
pub record Stat : Type 0 where
  pub board : ℕ
  pub pid : ℕ
  pub score : ℤ
  pub driver : ℕ
  pub name : List ℕ
  pub updated : ℕ
  pub rank : ℕ

-- ctrStatWrite.
pub record StatWrite : Type 0 where
  pub stat : Stat
  pub operation : ℕ

-- int64(v), of a uint64.
unfoldable pub int64_of : ℕ → ℤ
int64_of v = if ltb v (2 ^ 63) then pos v else negsuc (2 ^ 64 - 1 - v)

-- uint64(v), of an int64.
unfoldable pub bits_of : ℤ → ℕ
bits_of (pos n) = n
bits_of (negsuc n) = 2 ^ 64 - 1 - n

-- Two's complement.
unfoldable pub wrap_int64 : ℤ → ℤ
unfolding int64_of
wrap_int64 (pos n) = int64_of (n % 2 ^ 64)
wrap_int64 (negsuc n) = int64_of (2 ^ 64 - 1 - n % 2 ^ 64)

abbrev pub IsInt64 : ℤ → Type 0
IsInt64 (pos n) = n < 2 ^ 63
IsInt64 (negsuc n) = n < 2 ^ 63

unfoldable pub time_board : ℕ → Bool
time_board board = ltb 1000 board && ltb board 1159

unfoldable ring_board : ℕ → Bool
ring_board board = leb 89 board && leb board 133 && not (board == 100)

unfoldable pub octane_board : ℕ → Bool
unfolding time_board ring_board
octane_board board = time_board board || ring_board board
