-- ===== src/Rewards/Refresh.antt =====
-- The shop's daily refresh (ctr_refresh.go), counted for a day that begins at 15:00 UTC. The text of a
-- day and the key of an event (its JSON text) are parameters. `now` is the clock's time in nanoseconds,
-- after the first day of 1970.
use nextendo_demonware.Common.{
  [], ℕ, ◌+◌, ◌-◌, ◌*◌, ◌/◌, ◌^◌, Bool, true, false, not, ◌&&◌, ◌||◌, List, ◌∷◌, Option, none, some,
  ltb, leb, ◌==◌, if◌then◌else◌, length,
}
use nextendo_demonware.Common.Select.{keep, bytes_eq}
use nextendo_demonware.Proto.Outcome.{done, failed, unfinished}
use nextendo_demonware.Proto.Names.{refresh_name, value_key}
use nextendo_demonware.Proto.Fields.{pb_varint_field, pb_bytes_field}
use nextendo_demonware.Proto.Read.{Field, economy_proto, struct_payload}
use nextendo_demonware.Proto.Events.{Event, value_at}
use nextendo_demonware.Rewards.Races.{has_receipt}

-- ctrAchievementState.
pub record AchievementState : Type 0 where
  pub id : ℕ
  pub completed : ℕ
  pub name : List ℕ
  pub kind : ℕ
  pub progress : ℕ
  pub target : ℕ
  pub status : ℕ
  pub start : ℕ
  pub stop : ℕ

-- pitStopRefreshRecord.
pub record Refresh : Type 0 where
  pub day : List ℕ
  pub count : ℕ
  pub receipts : List (List ℕ)

unfoldable pub bool_to_completion : ℕ → ℕ
bool_to_completion timestamp = if timestamp == 0 then 0 else 1

unfoldable pub number_fields : List ℕ → List (ℕ × ℕ) → List ℕ
number_fields e [] = e
number_fields e ((tag, value) ∷ rest) = number_fields (pb_varint_field e tag value) rest

abbrev numbers_of : AchievementState → List (ℕ × ℕ)
numbers_of a =
    (2, a.kind)
    ∷ (3, a.progress)
    ∷ (4, a.target)
    ∷ (5, a.status)
    ∷ (6, a.completed)
    ∷ (7, a.start)
    ∷ (8, a.stop)
    ∷ (9, bool_to_completion a.completed)
    ∷ (11, a.id)
    ∷ []

unfoldable pub encode : AchievementState → List ℕ
encode a = number_fields (pb_bytes_field [] 1 a.name) (numbers_of a)

-- `now.Unix()`.
abbrev pub seconds_of : ℕ → ℕ
seconds_of now = now / 10 ^ 9

-- The last 15:00 UTC before the time, in seconds, and the next.
unfoldable pub day_start : ℕ → ℕ
day_start now = (seconds_of now - 54000) / 86400 * 86400 + 54000

abbrev day_end : ℕ → ℕ
day_end now = day_start now + 86400

-- The state with its progress cut off at the target.
unfoldable pub at_target : AchievementState → AchievementState
at_target s = if leb s.target s.progress then record s { progress = s.target; status = 3 } else s

abbrev count_of : List ℕ → Option Refresh → ℕ
count_of day none = 0
count_of day (some r) = if bytes_eq r.day day then r.count else 0

unfoldable pub current_pit_stop_refresh : (ℕ → List ℕ) → Option Refresh → ℕ → AchievementState
current_pit_stop_refresh day_of refresh now = at_target (record {
  id = 255;
  completed = 0;
  name = refresh_name;
  kind = 1;
  progress = count_of (day_of (day_start now)) refresh;
  target = 2;
  status = 2;
  start = day_start now;
  stop = day_end now;
})

unfoldable pub is_refresh : Event → Bool
is_refresh e = bytes_eq e.name refresh_name && value_at value_key e.values == 1

-- The record of the day.
unfoldable pub of_day : List ℕ → Option Refresh → Refresh
of_day day none = record { day = day; count = 0; receipts = [] }
of_day day (some r) =
    if bytes_eq r.day day then r else record { day = day; count = 0; receipts = [] }

-- An event of this day that is not dated ahead of the clock.
unfoldable pub in_period : ℕ → Event → Bool
in_period now e = not (
    ltb e.timestamp (day_start now)
    || leb (day_end now) e.timestamp
    || ltb (seconds_of now + 300) e.timestamp)

unfoldable pub count_request : (Event → List ℕ) → Event → Refresh → Refresh
count_request key_of e r =
    if not (has_receipt (key_of e) r.receipts) && ltb r.count 2
    then record r { count = r.count + 1; receipts = key_of e ∷ r.receipts }
    else r

-- The record, and whether there was an event of the period.
unfoldable pub refresh_loop : (Event → List ℕ) → ℕ → List Event → Refresh × Bool → Refresh × Bool
refresh_loop key_of now [] s = s
refresh_loop key_of now (e ∷ es) (r, valid) =
    refresh_loop key_of now es
      (if in_period now e then (count_request key_of e r, true) else (r, valid))

-- What is sent to the game, if anything, or an error.
pub data Reported : Type 0 where
  nothing : Reported
  update : List ℕ → Reported
  error : Reported

abbrev pub keep_refresh :
    (ℕ → List ℕ) → ℕ → Bool → Option Refresh → Refresh × Bool → Option Refresh × Reported
keep_refresh day_of now saves before (r, false) = (before, nothing)
keep_refresh day_of now false before (r, true) = (before, error)
keep_refresh day_of now true before (r, true) =
    (some r, update (pb_bytes_field [] 1 (encode (current_pit_stop_refresh day_of (some r) now))))

-- The requests for a refresh, if there are any.
unfoldable pub report_requests :
    (ℕ → List ℕ)
    → (Event → List ℕ)
    → ℕ
    → Bool
    → Option Refresh
    → List Event
    → Option Refresh × Reported
report_requests day_of key_of now saves before [] = (before, nothing)
report_requests day_of key_of now saves before (e ∷ es) =
    keep_refresh day_of now saves before
      (refresh_loop key_of now (e ∷ es) (of_day (day_of (day_start now)) before, false))

-- The record on disk afterwards, where the account could be loaded.
unfoldable pub report_pit_stop_refresh :
    (ℕ → List ℕ)
    → (Event → List ℕ)
    → ℕ
    → Bool
    → List Event
    → Option Refresh
    → Option Refresh × Reported
report_pit_stop_refresh day_of key_of now saves events before =
    report_requests day_of key_of now saves before (keep is_refresh events)

-- What a request for states has said so far of kinds, statuses and names: whether it names some, and
-- whether the state's is among them.
pub record Wanted : Type 0 where
  pub has_kind : Bool
  pub kind : Bool
  pub has_status : Bool
  pub status : Bool
  pub has_name : Bool
  pub name : Bool

abbrev no_wish : Wanted
no_wish = record {
  has_kind = false;
  kind = false;
  has_status = false;
  status = false;
  has_name = false;
  name = false;
}

abbrev satisfied : Wanted → Bool
satisfied w =
    (not w.has_kind || w.kind) && (not w.has_status || w.status) && (not w.has_name || w.name)

unfoldable wanted_loop : AchievementState → Wanted → List Field → Bool
wanted_loop s w [] = satisfied w
wanted_loop s w (f ∷ fs) =
    let same = wanted_loop s w fs in
    let of_kind =
      wanted_loop s (record w { has_kind = true; kind = w.kind || f.value == s.kind }) fs in
    let of_status =
      wanted_loop s (record w { has_status = true; status = w.status || f.value == s.status }) fs in
    let of_name =
      wanted_loop s (record w { has_name = true; name = w.name || bytes_eq f.content s.name }) fs in
    if f.number == 2
    then of_kind
    else if f.number == 3
    then (if f.value == 0 then false else same)
    else if f.number == 4
    then (if length f.content == 0 then same else false)
    else if f.number == 5
    then of_status
    else if f.number == 6
    then of_name
    else if f.number == 7
    then false
    else same

abbrev nil_struct : Option (List ℕ) → List ℕ
nil_struct none = []
nil_struct (some sb) = sb

unfoldable achievement_requested : List ℕ → AchievementState → Bool
achievement_requested payload s = elim (economy_proto (nil_struct (struct_payload payload))) [
  | done fields ↦ wanted_loop s no_wish fields
  | failed ↦ false
  | unfinished ↦ false
]
