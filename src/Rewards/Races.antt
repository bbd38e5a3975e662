-- ===== src/Rewards/Races.antt =====
-- awardRaces (ctr_rewards.go). The table of rates, the receipt of an event (a hash of its JSON text) and
-- the calendar are parameters; times are in seconds, and `now` is the clock's in nanoseconds. A time
-- that Go's time.Unix would wrap is outside the window either way.
use nextendo_demonware.Common.{
  [], ℕ, ◌+◌, ◌-◌, ◌*◌, ◌/◌, ◌%◌, ◌^◌, min, Bool, false, not, ◌&&◌, ◌||◌, List, ◌∷◌, Option, none,
  some, ltb, ◌==◌, if◌then◌else◌,
}
use nextendo_demonware.Common.Int.{ℤ, pos, negsuc, ◌+ℤ◌, ◌-ℤ◌, ◌*ℤ◌, ltb_ℤ, sub_ℕ}
use nextendo_demonware.Common.Select.{any, bytes_eq}
use nextendo_demonware.Stats.Types.{int64_of, wrap_int64}
use nextendo_demonware.Proto.Names.{
  end_race, track_key, rank_key, time_key, laps_key, mode_key, online_key, golden_key,
}
use nextendo_demonware.Proto.Events.{Event, value_at}

-- What the function calls: the rates of a track by place, receipts, the day of a time as
-- `Format("2006-01-02")` writes it, and its weekday, from Sunday as 0.
pub record Rules : Type 0 where
  pub rates : ℕ → Option (ℕ → ℤ)
  pub receipt_of : Event → List ℕ
  pub day_of : ℤ → List ℕ
  pub weekday : ℤ → ℕ

-- What awardRaces reads and writes of an economyAccount.
pub record Purse : Type 0 where
  pub coins : ℤ
  pub receipts : List (List ℕ)
  pub online_seconds : List (List ℕ × ℕ)

-- `a.RaceReceipts[receipt]`.
unfoldable pub has_receipt : List ℕ → List (List ℕ) → Bool
has_receipt receipt receipts = any (λ x. bytes_eq x receipt) receipts

-- `a.OnlineSeconds[day] += seconds`.
unfoldable pub add_seconds : List ℕ → ℕ → List (List ℕ × ℕ) → List (List ℕ × ℕ)
add_seconds day seconds [] = (day, seconds) ∷ []
add_seconds day seconds ((d, s) ∷ rest) =
    let more = add_seconds day seconds rest in
    if bytes_eq d day then (d, (s + seconds) % 2 ^ 64) ∷ rest else (d, s) ∷ more

-- `int64(e.Timestamp)`, in seconds.
abbrev pub time_of : Event → ℤ
time_of e = int64_of e.timestamp

abbrev pub second : ℤ
second = pos (10 ^ 9)

-- `tm.After(now.Add(5*time.Minute))`.
unfoldable pub is_early : ℕ → Event → Bool
is_early now e = ltb_ℤ (pos (now + 300 * 10 ^ 9)) (time_of e *ℤ second)

-- `tm.Before(now.Add(-7*24*time.Hour))`.
unfoldable pub is_old : ℕ → Event → Bool
is_old now e = ltb_ℤ (time_of e *ℤ second) (pos now -ℤ pos (604800 * 10 ^ 9))

unfoldable pub bad_numbers : Event → Bool
bad_numbers e =
    let rank = value_at rank_key e.values in
    let seconds = value_at time_key e.values in
    let laps = value_at laps_key e.values in
    ltb rank 1
    || ltb 8 rank
    || seconds == 0
    || ltb 86400 seconds
    || laps == 0
    || ltb 100 laps
    || e.timestamp == 0

-- The rates that count for a race, if it counts.
unfoldable pub eligible : Rules → ℕ → Event → Option (ℕ → ℤ)
eligible rules now e =
    if not (bytes_eq e.name end_race)
    then none
    else elim (rules.rates (value_at track_key e.values)) [
      | none ↦ none
      | some positions ↦
          if bad_numbers e
          then none
          else if is_early now e || is_old now e
          then none
          else some positions
    ]

-- `x / 3` of an int64, which rounds towards 0.
abbrev pub third : ℤ → ℤ
third (pos n) = pos (n / 3)
third (negsuc n) = sub_ℕ 0 ((n + 1) / 3)

-- For the place, and in mode 15 by laps.
unfoldable pub place_amount : (ℕ → ℤ) → Event → ℤ
place_amount positions e =
    let amount = positions (min (value_at rank_key e.values - 1) 3) in
    if value_at mode_key e.values == 15
    then third (wrap_int64 (amount *ℤ pos (min (value_at laps_key e.values) 8)))
    else amount

unfoldable pub is_online : Event → Bool
is_online e = not (value_at online_key e.values == 0)

-- Five times as much for the first half hour online of a day.
unfoldable pub online_amount : ℕ → Event → ℤ → ℤ
online_amount today e amount =
    if is_online e && ltb today 1800 then wrap_int64 (amount *ℤ pos 5) else amount

-- Friday 17:00 to Monday 08:00.
unfoldable pub is_weekend : Rules → Event → Bool
is_weekend rules e =
    let start = rules.weekday (time_of e -ℤ pos 61200) in
    let stop = rules.weekday (time_of e -ℤ pos 28800) in start == 5 || start == 6 || stop == 0

unfoldable pub weekend_amount : Rules → Event → ℤ → ℤ
weekend_amount rules e amount = if is_weekend rules e then wrap_int64 (amount *ℤ pos 2) else amount

unfoldable pub golden_amount : Event → ℤ → ℤ
golden_amount e amount =
    if value_at golden_key e.values == 1 then wrap_int64 (amount +ℤ pos 200) else amount

-- What a race earns, where so many seconds were spent online on its day.
unfoldable pub race_amount : Rules → ℕ → (ℕ → ℤ) → Event → ℤ
race_amount rules today positions e =
    golden_amount e (weekend_amount rules e (online_amount today e (place_amount positions e)))

unfoldable pub seconds_today : Rules → Purse → Event → ℕ
seconds_today rules a e = value_at (rules.day_of (time_of e)) a.online_seconds

-- The account and the total with a race that counts.
unfoldable pub credit_race : Rules → (ℕ → ℤ) → Event → Purse × ℤ → Purse × ℤ
credit_race rules positions e (a, total) =
    let amount = race_amount rules (seconds_today rules a e) positions e in
    (
      record {
        coins = wrap_int64 (a.coins +ℤ amount);
        receipts = rules.receipt_of e ∷ a.receipts;
        online_seconds =
            if is_online e
            then add_seconds (rules.day_of (time_of e)) (value_at time_key e.values)
                a.online_seconds
            else a.online_seconds;
      },
      wrap_int64 (total +ℤ amount),
    )

unfoldable pub award_race : Rules → ℕ → Event → Purse × ℤ → Purse × ℤ
award_race rules now e (a, total) = elim (eligible rules now e) [
  | none ↦ (a, total)
  | some positions ↦
      if has_receipt (rules.receipt_of e) a.receipts
      then (a, total)
      else credit_race rules positions e (a, total)
]

unfoldable pub race_loop : Rules → ℕ → List Event → Purse × ℤ → Purse × ℤ
race_loop rules now [] s = s
race_loop rules now (e ∷ es) s = race_loop rules now es (award_race rules now e s)

abbrev pub is_zero : ℤ → Bool
is_zero (pos n) = n == 0
is_zero (negsuc n) = false

-- The account on disk afterwards, and the total; `saves` says whether the new file can be put in the
-- place of the old one.
abbrev pub keep_races : Bool → Purse → Purse × ℤ → Purse × Option ℤ
keep_races saves a (a', total) =
    if is_zero total then (a, some total) else if saves then (a', some total) else (a, none)

unfoldable pub award_races : Rules → ℕ → Bool → List Event → Purse → Purse × Option ℤ
award_races rules now saves events a = keep_races saves a (race_loop rules now events (a, pos 0))
