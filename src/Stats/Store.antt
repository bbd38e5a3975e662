-- ===== src/Stats/Store.antt =====
-- ctrStatsStore (ctr_stats.go): rows by board and account. The file is the store's whole state; what
-- it holds is a list with one row for each key, and a write that fails leaves it as it was.
use nextendo_demonware.Common.{
  ℕ, suc, ◌-◌, Bool, false, not, ◌&&◌, ◌||◌, List, [], ◌∷◌, Option, none, some, ltb, ◌==◌,
  if◌then◌else◌, ◌^◌,
}
use nextendo_demonware.Common.Int.{ℤ, pos, negsuc, ◌+ℤ◌, ◌-ℤ◌, ltb_ℤ}
use nextendo_demonware.Common.Select.{keep, sort_by}
use nextendo_demonware.Stats.Types.{Stat, StatWrite, wrap_int64}

abbrev pub is_at : ℕ → ℕ → Stat → Bool
is_at board pid s = s.board == board && s.pid == pid

-- rows[board][pid].
unfoldable pub lookup : ℕ → ℕ → List Stat → Option Stat
lookup board pid [] = none
lookup board pid (s ∷ rest) = if is_at board pid s then some s else lookup board pid rest

-- rows[s.Board][s.PID] = s.
unfoldable pub put : Stat → List Stat → List Stat
put s [] = s ∷ []
put s (t ∷ rest) = if is_at s.board s.pid t then s ∷ rest else t ∷ put s rest

abbrev max_int64 : ℤ
max_int64 = pos (2 ^ 63 - 1)

abbrev min_int64 : ℤ
min_int64 = negsuc (2 ^ 63 - 1)

unfoldable pub overflows : ℤ → ℤ → Bool
overflows old w =
    ltb_ℤ (pos 0) w && ltb_ℤ (max_int64 -ℤ w) old || ltb_ℤ w (pos 0) && ltb_ℤ old (min_int64 -ℤ w)

-- The score of a row that is missing is 0.
abbrev pub old_score : Option Stat → ℤ
old_score none = pos 0
old_score (some s) = s.score

-- Operation 4 keeps the better score.
abbrev pub keeps_old : Option Stat → ℤ → Bool
keeps_old none w = false
keeps_old (some s) w = not (ltb_ℤ s.score w)

-- One round of the loop of write.
unfoldable pub write_one : StatWrite → List Stat → Option (List Stat)
unfolding lookup put overflows wrap_int64
write_one w rows =
    let old = lookup w.stat.board w.stat.pid rows in
    if w.operation == 1
    then (if overflows (old_score old) w.stat.score
        then none
        else some (put (record w.stat { score = wrap_int64 (w.stat.score +ℤ old_score old) }) rows))
    else (if w.operation == 4 && keeps_old old w.stat.score
        then some rows
        else some (put w.stat rows))

unfoldable pub write_loop : List StatWrite → List Stat → Option (List Stat)
unfolding write_one
write_loop [] rows = some rows
write_loop (w ∷ ws) rows = elim (write_one w rows) [
  | none ↦ none
  | some rows' ↦ write_loop ws rows'
]

-- Higher scores first, then smaller accounts.
unfoldable pub better : Stat → Stat → Bool
better a b =
    if not (ltb_ℤ a.score b.score) && not (ltb_ℤ b.score a.score)
    then ltb a.pid b.pid
    else ltb_ℤ b.score a.score

-- The ranks, from `n`.
unfoldable pub rank_from : ℕ → List Stat → List Stat
rank_from n [] = []
rank_from n (s ∷ rest) = record s { rank = n } ∷ rank_from (suc n) rest

-- read: the rows of a board in order, ranked from 1.
unfoldable pub read : ℕ → List Stat → List Stat
unfolding better rank_from
read board rows = rank_from 1 (sort_by better (keep (λ (s : Stat). s.board == board) rows))
