-- ===== src/Stats/Tests.antt =====
-- The leaderboards at work on three rows.
use nextendo_demonware.Common.{ℕ, ◌+◌, ◌≤◌, ◌≡◌, refl, List, [], ◌∷◌, some, All, take, drop}
use nextendo_demonware.Common.Int.{ℤ, pos}
use nextendo_demonware.Common.Bytes.{put_le, get_le}
use nextendo_demonware.Wire.Writer
use nextendo_demonware.Wire.Reader
use nextendo_demonware.Wire.Reader.{Reader}
use nextendo_demonware.Stats.Types.{Stat, StatWrite}
use nextendo_demonware.Stats.Parse.{row, parse_stat_writes}
use nextendo_demonware.Stats.Store.{write_loop, read}
use nextendo_demonware.Stats.Handler.{page, select}
use nextendo_demonware.Stats.Best.{score_at, best, write_loop-best}
use nextendo_demonware.Stats.Ranks.{select_page}
use nextendo_demonware.Stats.Order.{Listed, read-Listed}
use nextendo_demonware.Stats.Owners.{Valid, parse_stat_writes-Valid}

abbrev write_of : ℕ → ℕ → ℕ → ℤ → StatWrite
write_of board pid op score = row pid [] 9 board op score 0

abbrev rows : List Stat
rows =
    (write_of 5 1 4 (pos 10)).stat
    ∷ (write_of 5 2 4 (pos 30)).stat
    ∷ (write_of 5 3 4 (pos 20)).stat
    ∷ []

write_loop-best_example :
    (rows' : List Stat) × (write_loop (write_of 5 1 4 (pos 7) ∷ write_of 5 1 4 (pos 15) ∷ []) rows
      ≡ some rows')
    × (score_at 5 1 rows'
        ≡ best 5 1 (score_at 5 1 rows) (write_of 5 1 4 (pos 7) ∷ write_of 5 1 4 (pos 15) ∷ []))
write_loop-best_example =
    write_loop-best 5 1 (write_of 5 1 4 (pos 7) ∷ write_of 5 1 4 (pos 15) ∷ []) rows
      (refl, (refl, tt))

select_page_example : select (page (1 + 1) 1) (read 5 rows) ≡ take 1 (drop 1 (read 5 rows))
select_page_example = select_page 1 1 5 rows

read-Listed_example : Listed 5 rows (read 5 rows)
read-Listed_example = read-Listed 5 rows

abbrev upload : Reader
upload = record { b = Writer.i64 (Writer.u8 (Writer.u64 (Writer.u32 [] 5) 1) 4) 17; off = 0 }

parse_stat_writes-Valid_example : All (Valid 1) (write_of 5 1 4 (pos 17) ∷ []) × (1 ≤ 1) × (1 ≤ 128)
unfolding parse_stat_writes Writer.i64 Writer.u8 Writer.u64 Writer.u32 put_le Reader.u32 Reader.u64
    Reader.u8 Reader.i64 get_le
parse_stat_writes-Valid_example =
    parse_stat_writes-Valid 1 [] 9 upload (record upload { off = 25 })
      (write_of 5 1 4 (pos 17) ∷ []) refl
