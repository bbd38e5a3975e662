-- ===== src/Rewards/Challenges.antt =====
-- The challenges (ctr_challenge_rules.go). The rules are data of the build; a requirement X or Y, a
-- float64, is there as the comparison `float64(v) < p.X`, or not at all where it is 0. The key of a
-- challenge, a text of its name and start, is the pair. Times are in seconds.
use nextendo_demonware.Common.{
  [], ℕ, ◌+◌, ◌-◌, ◌*◌, ◌/◌, ◌%◌, ◌^◌, bit_xor, Bool, true, not, ◌&&◌, ◌||◌, List, ◌∷◌, Option,
  none, some, ltb, leb, ◌==◌, if◌then◌else◌,
}
use nextendo_demonware.Common.Int.{ℤ}
use nextendo_demonware.Common.Select.{any, bytes_eq}
use nextendo_demonware.Proto.Names.{minutes_rule, lap_rule, x_key, y_key}
use nextendo_demonware.Proto.Events.{Event, has_key, value_at}
use nextendo_demonware.Rewards.Refresh.{AchievementState}

-- challengePeriod, challengeRule and challengeSchedule.
pub record Period : Type 0 where
  pub start : ℕ
  pub stop : ℕ
  pub target : ℕ
  pub under_x : Option (ℕ → Bool)
  pub under_y : Option (ℕ → Bool)
  pub filters : List (List ℕ × List (List ℕ))

pub record Rule : Type 0 where
  pub name : List ℕ
  pub id : ℕ
  pub kind : ℕ
  pub reward : ℤ
  pub periods : List Period

pub record Schedule : Type 0 where
  pub cycle_start : ℕ
  pub cycle_seconds : ℕ
  pub rules : List Rule

-- challengeCompletion.
pub record Completion : Type 0 where
  pub completed : ℕ
  pub progress : ℕ
  pub receipts : List (List ℕ × ℕ)
  pub distinct : List ℕ

abbrev pub Challenges : Type 0
Challenges = List ((List ℕ × ℕ) × Completion)

unfoldable pub hash_loop : ℕ → List ℕ → ℕ
hash_loop v [] = v
hash_loop v (b ∷ bs) = hash_loop (bit_xor v b * 16777619 % 2 ^ 32) bs

unfoldable pub challenge_name_hash : List ℕ → ℕ
challenge_name_hash s = hash_loop 4 s

abbrev same_key : List ℕ × ℕ → List ℕ × ℕ → Bool
same_key (n, s) (m, t) = bytes_eq n m && s == t

-- `a.Challenges[key]`: an empty one where there is none.
unfoldable pub completion_of : List ℕ × ℕ → Challenges → Completion
completion_of key [] = record { completed = 0; progress = 0; receipts = []; distinct = [] }
completion_of key ((k, c) ∷ rest) = if same_key k key then c else completion_of key rest

unfoldable pub set_completion : List ℕ × ℕ → Completion → Challenges → Challenges
set_completion key c [] = (key, c) ∷ []
set_completion key c ((k, d) ∷ rest) =
    let more = set_completion key c rest in if same_key k key then (k, c) ∷ rest else (k, d) ∷ more

-- The state of a rule in the period from `cycle` on.
unfoldable pub state_in : Rule → Period → ℕ → Completion → AchievementState
state_in r p cycle c = record {
  id = r.id;
  completed = c.completed;
  name = r.name;
  kind = r.kind;
  progress = if c.completed == 0 then c.progress else p.target;
  target = p.target;
  status = if c.completed == 0 then 2 else 3;
  start = cycle + p.start;
  stop = cycle + p.stop;
}

unfoldable pub period_loop :
    Rule → ℕ → ℕ → Challenges → List Period → Option (AchievementState × Period)
period_loop r now cycle table [] = none
period_loop r now cycle table (p ∷ ps) =
    let more = period_loop r now cycle table ps in
    if ltb now (cycle + p.start) || leb (cycle + p.stop) now
    then more
    else some (state_in r p cycle (completion_of (r.name, cycle + p.start) table), p)

-- `r.current(a, now)`.
unfoldable pub current : Schedule → Rule → Challenges → ℕ → Option (AchievementState × Period)
current s r table now =
    let cycle = s.cycle_start + (now - s.cycle_start) / s.cycle_seconds * s.cycle_seconds in
    if ltb now s.cycle_start then none else period_loop r now cycle table r.periods

-- Each field has one of the values that are allowed for it.
unfoldable pub passes_filters : List (List ℕ × List (List ℕ)) → Event → Bool
passes_filters [] e = true
passes_filters ((field, allowed) ∷ rest) e =
    has_key field e.values
    && any (λ text. value_at field e.values == challenge_name_hash text) allowed
    && passes_filters rest e

abbrev is_timed : Rule → Bool
is_timed r = bytes_eq r.name minutes_rule || bytes_eq r.name lap_rule

abbrev meets_x : Rule → Option (ℕ → Bool) → Event → Bool
meets_x r none e = true
meets_x r (some under) e =
    let x = value_at x_key e.values in
    has_key x_key e.values && (if is_timed r then not (x == 0) && under x else not (under x))

abbrev meets_y : Option (ℕ → Bool) → Event → Bool
meets_y none e = true
meets_y (some under) e = has_key y_key e.values && not (under (value_at y_key e.values))

unfoldable pub accepts : Rule → Period → Event → Bool
accepts r p e =
    bytes_eq r.name e.name
    && passes_filters p.filters e
    && meets_x r p.under_x e
    && meets_y p.under_y e
