-- ===== src/Rewards/Tests.antt =====
-- A race that is reported twice, and a refresh that is.
use nextendo_demonware.Common.{
  [], ℕ, ◌+◌, ◌*◌, ◌^◌, ◌≡◌, refl, sym, ap, true, false, List, ◌∷◌, Option, none, some, arith,
}
use nextendo_demonware.Common.Int.{ℤ, pos, ◌+ℤ◌, ◌-ℤ◌, ◌*ℤ◌}
use nextendo_demonware.Common.Select.{bytes_eq}
use nextendo_demonware.Stats.Types.{int64_of, wrap_int64}
use nextendo_demonware.Proto.Names.{end_race, rank_key, time_key, laps_key, refresh_name, value_key}
use nextendo_demonware.Proto.Events.{Event, value_at}
use nextendo_demonware.Rewards.Races.{
  Rules, Purse, has_receipt, add_seconds, is_early, is_old, bad_numbers, eligible, place_amount,
  is_online, online_amount, is_weekend, weekend_amount, golden_amount, race_amount, seconds_today,
  credit_race, award_race, race_loop, award_races,
}
use nextendo_demonware.Rewards.Replay.{award_races-replay}
use nextendo_demonware.Rewards.Credit.{UpTo, FailedOrPaid, award_races-Paid}
use nextendo_demonware.Rewards.Refresh.{
  Refresh, update, is_refresh, in_period, day_start, of_day, count_request, refresh_loop,
  report_requests, report_pit_stop_refresh, encode, current_pit_stop_refresh,
}
use nextendo_demonware.Proto.Fields.{pb_bytes_field}
use nextendo_demonware.Rewards.Daily.{FairIfAny, report_pit_stop_refresh-Fair}
use nextendo_demonware.Proto.Names.{visit_rule}
use nextendo_demonware.Rewards.Refresh.{AchievementState}
use nextendo_demonware.Rewards.Challenges.{Period, Rule, state_in}
use nextendo_demonware.Rewards.Tallies.{Tally, tally_loop}
use nextendo_demonware.Rewards.Achieved.{Sound, tally_loop-Sound}
use nextendo_demonware.Rewards.Again.{report_pit_stop_refresh-replay}

abbrev ten_coins : Rules
ten_coins = record {
  rates = λ _. some (λ _. pos 10);
  receipt_of = λ e. e.name;
  day_of = λ _. [];
  weekday = λ _. 1;
}

abbrev race : Event
race = record {
  name = end_race;
  timestamp = 1000;
  id = 0;
  values = (rank_key, 1) ∷ (time_key, 60) ∷ (laps_key, 3) ∷ [];
}

abbrev empty_purse : Purse
empty_purse = record { coins = pos 0; receipts = []; online_seconds = [] }

abbrev full_purse : Purse
full_purse = record { coins = pos 10; receipts = end_race ∷ []; online_seconds = [] }

abbrev clock : ℕ
clock = 1000 * 10 ^ 9

race_earns : award_races ten_coins clock true (race ∷ []) empty_purse ≡ (full_purse, some (pos 10))
unfolding award_races race_loop award_race eligible bytes_eq bad_numbers value_at is_early ◌*ℤ◌
    int64_of is_old ◌-ℤ◌ has_receipt credit_race wrap_int64 ◌+ℤ◌ race_amount golden_amount
    add_seconds is_online is_weekend online_amount place_amount seconds_today weekend_amount
race_earns = refl

not_early : is_early clock race ≡ false
unfolding is_early int64_of ◌*ℤ◌
not_early = refl

-- What a table of rates pays for a place.
pay_at : Option (ℕ → ℤ) → ℕ → ℤ
pay_at none place = pos 0
pay_at (some positions) place = positions place

ten_for_all :
    (track : ℕ) (positions : ℕ → ℤ)
    → ten_coins.rates track ≡ some positions
    → (place : ℕ) → UpTo 10 (positions place)
unfolding pay_at
ten_for_all track positions e place = record {
  size = 10;
  amount = sym (ap (λ o. pay_at o place) e);
  bounded = omega arith;
}

award_races-replay_example :
    award_races ten_coins (clock + 1) true (race ∷ []) full_purse ≡ (full_purse, some (pos 0))
award_races-replay_example =
    award_races-replay ten_coins clock (clock + 1) true (race ∷ []) empty_purse full_purse (pos 10)
      (omega arith) (not_early, tt) race_earns refl

award_races-Paid_example :
    FailedOrPaid 0
      (1 * (30 * 10 + 200))
      empty_purse
      (award_races ten_coins clock true (race ∷ []) empty_purse)
award_races-Paid_example =
    award_races-Paid ten_coins clock 10 0 true (race ∷ []) empty_purse (omega arith) ten_for_all
      (omega arith) refl

abbrev day_zero : ℕ → List ℕ
day_zero _ = []

abbrev by_time : Event → List ℕ
by_time e = e.timestamp ∷ []

abbrev wish : Event
wish = record { name = refresh_name; timestamp = 60000; id = 0; values = (value_key, 1) ∷ [] }

abbrev noon : ℕ
noon = 60000 * 10 ^ 9

report_pit_stop_refresh-Fair_example :
    FairIfAny (report_pit_stop_refresh day_zero by_time noon true (wish ∷ wish ∷ []) none).0
report_pit_stop_refresh-Fair_example =
    report_pit_stop_refresh-Fair day_zero by_time noon true (wish ∷ wish ∷ []) none tt

abbrev one_refresh : Refresh
one_refresh = record { day = []; count = 1; receipts = (60000 ∷ []) ∷ [] }

abbrev refresh_message : List ℕ
refresh_message =
    pb_bytes_field [] 1 (encode (current_pit_stop_refresh day_zero (some one_refresh) noon))

one_is_counted :
    report_pit_stop_refresh day_zero by_time noon true (wish ∷ wish ∷ []) none
    ≡ (some one_refresh, update refresh_message)
unfolding report_pit_stop_refresh report_requests refresh_loop count_request of_day in_period
    day_start is_refresh bytes_eq value_at has_receipt
one_is_counted = refl

report_pit_stop_refresh-replay_example :
    (report_pit_stop_refresh day_zero by_time
      (noon + 1)
      true
      (wish ∷ wish ∷ [])
      (some one_refresh)).0
    ≡ some one_refresh
unfolding day_start
report_pit_stop_refresh-replay_example =
    report_pit_stop_refresh-replay day_zero by_time noon (noon + 1) true (wish ∷ wish ∷ []) none
      one_refresh refresh_message (omega arith) refl (omega arith) one_is_counted

abbrev visits : Rule
visits = record { name = visit_rule; id = 1; kind = 1; reward = pos 50; periods = [] }

abbrev all_day : Period
all_day = record {
  start = 0;
  stop = 86400;
  target = 1;
  under_x = none;
  under_y = none;
  filters = [];
}

abbrev visit : Event
visit = record { name = visit_rule; timestamp = 1500; id = 0; values = (value_key, 1) ∷ [] }

abbrev not_visited : Tally
not_visited = record {
  c = record { completed = 0; progress = 0; receipts = []; distinct = [] };
  occurrences = [];
  changed = false;
  credit = pos 7;
  left = false;
}

abbrev visit_state : AchievementState
visit_state =
    state_in visits all_day 1000
      (record { completed = 0; progress = 0; receipts = []; distinct = [] })

tally_loop-Sound_example :
    Sound visits visit_state.target
      (pos 7)
      (tally_loop by_time visits all_day visit_state 2000 (visit ∷ visit ∷ []) not_visited)
unfolding state_in
tally_loop-Sound_example =
    tally_loop-Sound by_time visits all_day visit_state 2000 (pos 7) (visit ∷ visit ∷ [])
      not_visited (omega arith) (omega arith)
      (record { incomplete = refl; unpaid = refl; within = omega arith; stays = refl })
