-- ===== src/Rewards/Tallies.antt =====
-- The credit of challenges, awardChallenges (ctr_challenge_rules.go). The receipt of an event, the hash
-- of its text, is a parameter. Times are in seconds.
use nextendo_demonware.Common.{
  [], ℕ, ◌+◌, ◌-◌, ◌%◌, ◌^◌, Bool, true, false, not, ◌&&◌, ◌||◌, List, ◌∷◌, Option, none, some, ltb,
  leb, ◌==◌, if◌then◌else◌,
}
use nextendo_demonware.Common.Int.{ℤ, pos, ◌+ℤ◌}
use nextendo_demonware.Common.Select.{bytes_eq, contains}
use nextendo_demonware.Stats.Types.{wrap_int64}
use nextendo_demonware.Proto.Names.{visit_rule, battles_rule, progress_key, x_key, value_key}
use nextendo_demonware.Proto.Fields.{pb_bytes_field}
use nextendo_demonware.Proto.Events.{Event, has_key, value_at}
use nextendo_demonware.Rewards.Refresh.{AchievementState, encode}
use nextendo_demonware.Rewards.Challenges.{
  Period, Rule, Schedule, Completion, Challenges, completion_of, set_completion, current, accepts,
}

-- `m[k]++` and `m[k] = v`.
unfoldable pub set_count : List ℕ → ℕ → List (List ℕ × ℕ) → List (List ℕ × ℕ)
set_count k v [] = (k, v) ∷ []
set_count k v ((j, u) ∷ rest) =
    let more = set_count k v rest in if bytes_eq j k then (j, v) ∷ rest else (j, u) ∷ more

-- The loop over the events of one rule: the record, the occurrences of each receipt so far, whether
-- the record changed, the credit, and whether the loop is left.
pub record Tally : Type 0 where
  pub c : Completion
  pub occurrences : List (List ℕ × ℕ)
  pub changed : Bool
  pub credit : ℤ
  pub left : Bool

-- What an event adds, of the rules that count.
unfoldable pub increment_of : Rule → Event → ℕ
increment_of r e =
    value_at (if bytes_eq r.name visit_rule then value_key else progress_key) e.values

-- The record with the increment; the challenge is complete where it reaches the target. The
-- difference is one of uint64s.
unfoldable pub advance : Rule → ℕ → Event → ℕ → Tally → Tally
advance r target e increment t =
    if leb ((target + 2 ^ 64 - t.c.progress) % 2 ^ 64) increment
    then record t {
      c = record {
        completed = e.timestamp;
        progress = target;
        receipts = [];
        distinct = t.c.distinct;
      };
      credit = wrap_int64 (t.credit +ℤ r.reward);
      left = true;
    }
    else record t { c = record (t.c) { progress = (t.c.progress + increment) % 2 ^ 64 } }

-- A battle counts once for each of the modes 9 to 13.
unfoldable pub count_battle : Rule → ℕ → Event → Tally → Tally
count_battle r target e t =
    let mode = value_at x_key e.values in
    if not (has_key x_key e.values) || ltb mode 9 || ltb 13 mode || contains mode t.c.distinct
    then t
    else advance r target e 1 (record t { c = record (t.c) { distinct = mode ∷ t.c.distinct } })

-- An event with an increment and a receipt.
unfoldable pub count_event : Rule → ℕ → Event → ℕ → List ℕ → Tally → Tally
count_event r target e increment receipt t =
    let n = (value_at receipt t.occurrences + 1) % 2 ^ 64 in
    let seen : Tally = record t { occurrences = set_count receipt n t.occurrences } in
    let noted : Tally = record seen {
      c = record (t.c) { receipts = set_count receipt n t.c.receipts };
      changed = true;
    } in
    if leb n (value_at receipt t.c.receipts)
    then seen
    else if bytes_eq r.name battles_rule
    then count_battle r target e noted
    else advance r target e increment noted

unfoldable pub counts_for : Rule → Period → AchievementState → ℕ → Event → Bool
counts_for r p state now e =
    not (ltb e.timestamp state.start || leb state.stop e.timestamp || ltb (now + 300) e.timestamp)
    && accepts r p e
    && not (increment_of r e == 0)

unfoldable pub next_tally :
    (Event → List ℕ) → Rule → Period → AchievementState → ℕ → Event → Tally → Tally
next_tally receipt_of r p state now e t =
    if counts_for r p state now e
    then count_event r state.target e (increment_of r e) (receipt_of e) t
    else t

unfoldable pub tally_loop :
    (Event → List ℕ) → Rule → Period → AchievementState → ℕ → List Event → Tally → Tally
tally_loop receipt_of r p state now [] t = t
tally_loop receipt_of r p state now (e ∷ es) t =
    let t' = next_tally receipt_of r p state now e t in
    elim t'.left [ true ↦ t' | false ↦ tally_loop receipt_of r p state now es t' ]

-- What awardChallenges works on: the table, the credit, what is sent, and whether anything changed.
pub record Award : Type 0 where
  pub table : Challenges
  pub credit : ℤ
  pub updates : List ℕ
  pub changed : Bool

abbrev no_state : AchievementState
no_state = record {
  id = 0;
  completed = 0;
  name = [];
  kind = 0;
  progress = 0;
  target = 0;
  status = 0;
  start = 0;
  stop = 0;
}

abbrev state_or_none : Option (AchievementState × Period) → AchievementState
state_or_none none = no_state
state_or_none (some (s, _)) = s

-- The record is written back where it changed, and the game is told where the progress did.
unfoldable write_back : Schedule → ℕ → Rule → List ℕ × ℕ → Completion → Tally → Award → Award
write_back s now r key before t a =
    let table = set_completion key t.c a.table in
    let told : Award = record {
      table = table;
      credit = t.credit;
      updates = pb_bytes_field a.updates 1 (encode (state_or_none (current s r table now)));
      changed = a.changed || t.changed;
    } in
    let untold : Award = record {
      table = if t.changed then table else a.table;
      credit = t.credit;
      updates = a.updates;
      changed = a.changed || t.changed;
    } in
    if t.c.progress == before.progress then untold else told

abbrev rule_in :
    Schedule
    → (Event → List ℕ)
    → ℕ
    → List Event
    → Rule
    → Award
    → Option (AchievementState × Period)
    → Award
rule_in s receipt_of now events r a none = a
rule_in s receipt_of now events r a (some (state, p)) =
    let key : List ℕ × ℕ = (state.name, state.start) in
    let c = completion_of key a.table in
    let t =
      tally_loop receipt_of r p state now events
        (record { c = c; occurrences = []; changed = false; credit = a.credit; left = false }) in
    if state.completed == 0 then write_back s now r key c t a else a

unfoldable rules_loop : Schedule → (Event → List ℕ) → ℕ → List Event → List Rule → Award → Award
rules_loop s receipt_of now events [] a = a
rules_loop s receipt_of now events (r ∷ rs) a =
    rules_loop s receipt_of now events rs
      (rule_in s receipt_of now events r a (current s r a.table now))

-- The coins and the table on disk afterwards, and what is credited and sent, if the file was written.
abbrev keep_award : Bool → ℤ → Challenges → Award → ℤ × Challenges × Option (ℤ × List ℕ)
keep_award saves coins table a =
    if not a.changed
    then (coins, table, some (pos 0, []))
    else if saves
    then (wrap_int64 (coins +ℤ a.credit), a.table, some (a.credit, a.updates))
    else (coins, table, none)

unfoldable award_challenges :
    Schedule
    → (Event → List ℕ)
    → ℕ
    → Bool
    → List Event
    → ℤ
    → Challenges
    → ℤ × Challenges × Option (ℤ × List ℕ)
award_challenges s receipt_of now saves events coins table = keep_award saves coins table (
    rules_loop s receipt_of now events s.rules
      (record { table = table; credit = pos 0; updates = []; changed = false }))
