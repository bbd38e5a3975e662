-- ===== src/Proto/Reports.antt =====
-- What parseRewardEvents accepts, and that it ends.
use nextendo_demonware.Common.{
  [], ℕ, Bool, true, false, not, ◌||◌, List, ◌∷◌, ◌++◌, length, ltb, ◌==◌, if◌then◌else◌,
  Bool-cases, Option-cases, inl, inr,
}
use nextendo_demonware.Proto.Outcome.{Outcome, ◌>>=◌, Ends, >>=-Ends}
use nextendo_demonware.Proto.Read.{Field, economy_proto, struct_payload}
use nextendo_demonware.Proto.Ends.{economy_proto-Ends}
use nextendo_demonware.Proto.Events.{
  Event, has_key, entry_of, add_entry, event_part, event_parts, no_event, events_loop,
  parse_reward_events,
}

add_entry-Ends : (e : Event) (kv : List ℕ × ℕ) → Ends (add_entry e kv)
unfolding add_entry
add_entry-Ends e (key, value) = elim (Bool-cases (length key == 0 || ltb 100 (length key))) [
  | inl f ↦ rw (f, add_entry) Ends.by_error
  | inr f ↦ elim (Bool-cases (has_key key e.values)) [
    | inl g ↦ rw (f, add_entry, g) Ends.by_error
    | inr g ↦ rw (f, add_entry, g) (Ends.by_value _)
  ]
]

if-Ends : (b : Bool) {x y : Outcome Event} → Ends x → Ends y → Ends (if b then x else y)
if-Ends true h k = h
if-Ends false h k = k

event_part-Ends : (e : Event) (p : Field) → Ends (event_part e p)
unfolding event_part
event_part-Ends e p = if-Ends (p.number == 1) (Ends.by_value _) (
    if-Ends (p.number == 2) (Ends.by_value _) (
      if-Ends (p.number == 4) (Ends.by_value _) (
        if-Ends (p.number == 3)
          (>>=-Ends (economy_proto p.content) (λ kv. add_entry e (entry_of [] 0 kv))
            (economy_proto-Ends p.content) (λ kv. add_entry-Ends e (entry_of [] 0 kv)))
          (Ends.by_value e))))

event_parts-Ends : (e : Event) (ps : List Field) → Ends (event_parts e ps)
unfolding event_parts
event_parts-Ends e [] = Ends.by_value e
event_parts-Ends e (p ∷ ps) =
    >>=-Ends (event_part e p) (λ e'. event_parts e' ps) (event_part-Ends e p)
      (λ e'. event_parts-Ends e' ps)

events_loop-Ends : (out : List Event) (fs : List Field) → Ends (events_loop out fs)
unfolding events_loop
events_loop-Ends out [] = Ends.by_value out
events_loop-Ends out (f ∷ fs) = elim (Bool-cases (not (f.number == 2) || not (f.wire == 2))) [
  | inl g ↦ rw (g, events_loop) (events_loop-Ends out fs)
  | inr g ↦
      rw (g, events_loop)
        (>>=-Ends (economy_proto f.content)
          (λ parts. event_parts no_event parts >>= λ e. events_loop (out ++ e ∷ []) fs)
          (economy_proto-Ends f.content)
          (λ parts.
            >>=-Ends (event_parts no_event parts) (λ e. events_loop (out ++ e ∷ []) fs)
              (event_parts-Ends no_event parts) (λ e. events_loop-Ends (out ++ e ∷ []) fs)))
]

-- Whatever a client reports, the parse of its events ends: in events, or in an error.
pub parse_reward_events-Ends : (payload : List ℕ) → Ends (parse_reward_events payload)
unfolding parse_reward_events
parse_reward_events-Ends payload = elim (Option-cases (struct_payload payload)) [
  | inl e ↦ rw (e, parse_reward_events) Ends.by_error
  | inr (sb, e) ↦
      rw (e, parse_reward_events)
        (>>=-Ends (economy_proto sb) (events_loop []) (economy_proto-Ends sb)
          (λ fs. events_loop-Ends [] fs))
]
