-- ===== src/Stats/Ranks.antt =====
-- The order and the ranks in which a leaderboard is read (ctr_stats.go).
use nextendo_demonware.Common.{
  ℕ, zero, suc, ◌+◌, ◌≤◌, ◌≡◌, refl, sym, List, [], ◌∷◌, ◌==◌, arith, take, drop,
}
use nextendo_demonware.Common.Select.{keep, sort_by}
use nextendo_demonware.Stats.Types.{Stat}
use nextendo_demonware.Stats.Store.{better, rank_from, read}
use nextendo_demonware.Stats.Handler.{page_loop, page, select}

page_from :
    (left n : ℕ) (rows : List Stat) (start limit sent : ℕ)
    → start ≤ n
    → sent + left ≡ limit
    → page_loop start limit sent (rank_from n rows) ≡ take left (rank_from n rows)
unfolding page_loop rank_from
page_from zero n [] start limit sent h k = refl
page_from (suc left) n [] start limit sent h k = refl
page_from zero n (s ∷ rest) start limit sent h k =
    ground (arith, page_from zero (suc n) rest start limit sent (omega arith) k)
page_from (suc left) n (s ∷ rest) start limit sent h k =
    ground (arith, page_from left (suc n) rest start limit (suc sent) (omega arith) (omega arith))

take-nil : (k : ℕ) → take {A = Stat} k [] ≡ []
take-nil zero = refl
take-nil (suc k) = refl

page_skips :
    (skip n : ℕ) (rows : List Stat) (start limit : ℕ)
    → n + skip ≡ start
    → page_loop start limit 0 (rank_from n rows) ≡ take limit (drop skip (rank_from n rows))
unfolding page_loop rank_from
page_skips zero n rows start limit h =
    page_from limit n rows start limit 0 (omega arith) (omega arith)
page_skips (suc skip) n [] start limit h = sym (take-nil limit)
page_skips (suc skip) n (s ∷ rest) start limit h =
    ground (arith, page_skips skip (suc n) rest start limit (omega arith))

-- The page that task 4 answers with, from rank skip + 1 on, is that slice of the whole board: the
-- rows behind the first `skip`, and `limit` of them at most.
pub select_page :
    (skip limit board : ℕ) (store : List Stat)
    → select (page (skip + 1) limit) (read board store) ≡ take limit (drop skip (read board store))
unfolding select read
select_page skip limit board store =
    page_skips skip 1 (sort_by better (keep (λ (s : Stat). s.board == board) store)) (skip + 1)
      limit (omega arith)
