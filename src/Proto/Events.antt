-- ===== src/Proto/Events.antt =====
-- parseRewardEvents (ctr_rewards.go): the events of a report. A map of values is an association list,
-- to which a key is added once at most.
use nextendo_demonware.Common.{
  [], ℕ, Bool, not, ◌||◌, List, ◌∷◌, ◌++◌, none, some, length, ltb, ◌==◌, if◌then◌else◌,
}
use nextendo_demonware.Common.Select.{any, bytes_eq}
use nextendo_demonware.Proto.Outcome.{Outcome, done, failed, ◌>>=◌}
use nextendo_demonware.Proto.Read.{Field, economy_proto, struct_payload}

-- achievementEvent.
pub record Event : Type 0 where
  pub name : List ℕ
  pub timestamp : ℕ
  pub id : ℕ
  pub values : List (List ℕ × ℕ)

-- Whether the map has the key.
unfoldable pub has_key : List ℕ → List (List ℕ × ℕ) → Bool
has_key key values = any (λ (kv : List ℕ × ℕ). bytes_eq kv.0 key) values

-- `e.Values[key]`: 0 for a key that is not there.
unfoldable pub value_at : List ℕ → List (List ℕ × ℕ) → ℕ
value_at key [] = 0
value_at key ((k, v) ∷ rest) = if bytes_eq k key then v else value_at key rest

-- The key and the value of one entry; the last field of a number counts.
unfoldable pub entry_of : List ℕ → ℕ → List Field → List ℕ × ℕ
entry_of key value [] = (key, value)
entry_of key value (k ∷ ks) =
    entry_of (if k.number == 1 then k.content else key) (if k.number == 2 then k.value else value)
      ks

-- The event with the entry added, if the key is acceptable and new.
unfoldable pub add_entry : Event → List ℕ × ℕ → Outcome Event
add_entry e (key, value) =
    if length key == 0 || ltb 100 (length key)
    then failed
    else if has_key key e.values
    then failed
    else done (record e { values = e.values ++ (key, value) ∷ [] })

unfoldable pub event_part : Event → Field → Outcome Event
event_part e p =
    if p.number == 1
    then done (record e { name = p.content })
    else if p.number == 2
    then done (record e { timestamp = p.value })
    else if p.number == 4
    then done (record e { id = p.value })
    else if p.number == 3
    then economy_proto p.content >>= (λ kv. add_entry e (entry_of [] 0 kv))
    else done e

unfoldable pub event_parts : Event → List Field → Outcome Event
event_parts e [] = done e
event_parts e (p ∷ ps) = event_part e p >>= λ e'. event_parts e' ps

abbrev pub no_event : Event
no_event = record { name = []; timestamp = 0; id = 0; values = [] }

unfoldable pub events_loop : List Event → List Field → Outcome (List Event)
events_loop out [] = done out
events_loop out (f ∷ fs) =
    if not (f.number == 2) || not (f.wire == 2) then events_loop out fs else do
      parts ← economy_proto f.content
      e ← event_parts no_event parts
      events_loop (out ++ e ∷ []) fs

unfoldable pub parse_reward_events : List ℕ → Outcome (List Event)
parse_reward_events payload = elim (struct_payload payload) [
  | none ↦ failed
  | some sb ↦ economy_proto sb >>= events_loop []
]
