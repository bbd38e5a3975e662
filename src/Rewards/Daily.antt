-- ===== src/Rewards/Daily.antt =====
-- The daily refresh is counted twice at most, and once for each event (ctr_refresh.go).
use nextendo_demonware.Common.{
  [], ℕ, ◌≤◌, ◌≡◌, inl, inr, Bool, true, false, not, ◌&&◌, List, ◌∷◌, Option, none, some, ltb,
  length, arith, Bool-cases,
}
use nextendo_demonware.Common.Select.{keep, bytes_eq}
use nextendo_demonware.Proto.Events.{Event}
use nextendo_demonware.Rewards.Races.{has_receipt}
use nextendo_demonware.Rewards.Refresh.{
  Refresh, is_refresh, of_day, in_period, day_start, count_request, refresh_loop, keep_refresh,
  report_requests, report_pit_stop_refresh,
}

-- No receipt stands twice in the list.
abbrev pub Distinct : List (List ℕ) → Type 0
Distinct [] = Unit {0}
Distinct (x ∷ xs) = (has_receipt x xs ≡ false) × Distinct xs

-- Two refreshes a day at most, each with a receipt of its own.
pub record Fair (r : Refresh) : Type 0 where
  pub few : r.count ≤ 2
  pub counted : r.count ≡ length r.receipts
  pub distinct : Distinct r.receipts

abbrev pub FairIfAny : Option Refresh → Type 0
FairIfAny none = Unit {0}
FairIfAny (some r) = Fair r

count_request-Fair :
    (key_of : Event → List ℕ) (e : Event) (r : Refresh) → Fair r → Fair (count_request key_of e r)
unfolding count_request
count_request-Fair key_of e r h =
    elim (Bool-cases (not (has_receipt (key_of e) r.receipts) && ltb r.count 2)) [
      | inl f ↦
          rw (f, count_request)
            (record {
              few = ground arith;
              counted = omega (arith, h.counted);
              distinct = (ground arith, h.distinct);
            })
      | inr f ↦ rw (f, count_request) h
    ]

refresh_loop-Fair :
    (key_of : Event → List ℕ) (now : ℕ) (es : List Event) (r : Refresh) (valid : Bool)
    → Fair r
    → Fair (refresh_loop key_of now es (r, valid)).0
unfolding refresh_loop
refresh_loop-Fair key_of now [] r valid h = h
refresh_loop-Fair key_of now (e ∷ es) r valid h = elim (Bool-cases (in_period now e)) [
  | inl f ↦
      rw (f, refresh_loop)
        (refresh_loop-Fair key_of now es (count_request key_of e r) true
          (count_request-Fair key_of e r h))
  | inr f ↦ rw (f, refresh_loop) (refresh_loop-Fair key_of now es r valid h)
]

of_day-Fair : (day : List ℕ) (before : Option Refresh) → FairIfAny before → Fair (of_day day before)
unfolding of_day
of_day-Fair day none h = record { few = omega arith; counted = omega arith; distinct = tt }
of_day-Fair day (some r) h = elim (Bool-cases (bytes_eq r.day day)) [
  | inl f ↦ rw (f, of_day) h
  | inr f ↦ rw (f, of_day) (record { few = omega arith; counted = omega arith; distinct = tt })
]

keep_refresh-Fair :
    (day_of : ℕ → List ℕ) (now : ℕ) (saves : Bool) (before : Option Refresh) (s : Refresh × Bool)
    → FairIfAny before
    → Fair s.0
    → FairIfAny (keep_refresh day_of now saves before s).0
keep_refresh-Fair day_of now saves before (r, false) h k = h
keep_refresh-Fair day_of now false before (r, true) h k = h
keep_refresh-Fair day_of now true before (r, true) h k = k

report_requests-Fair :
    (day_of : ℕ → List ℕ) (key_of : Event → List ℕ) (now : ℕ) (saves : Bool)
    (before : Option Refresh) (es : List Event)
    → FairIfAny before
    → FairIfAny (report_requests day_of key_of now saves before es).0
unfolding report_requests
report_requests-Fair day_of key_of now saves before [] h = h
report_requests-Fair day_of key_of now saves before (e ∷ es) h =
    let today : Refresh = of_day (day_of (day_start now)) before in
    keep_refresh-Fair day_of now saves before (refresh_loop key_of now (e ∷ es) (today, false)) h (
      refresh_loop-Fair key_of now (e ∷ es) today false
        (of_day-Fair (day_of (day_start now)) before h))

-- Whatever is reported, and whenever: of a day two refreshes at most are counted, each with a receipt
-- of its own, if it was so before.
pub report_pit_stop_refresh-Fair :
    (day_of : ℕ → List ℕ) (key_of : Event → List ℕ) (now : ℕ) (saves : Bool) (events : List Event)
    (before : Option Refresh)
    → FairIfAny before
    → FairIfAny (report_pit_stop_refresh day_of key_of now saves events before).0
unfolding report_pit_stop_refresh
report_pit_stop_refresh-Fair day_of key_of now saves events before h =
    report_requests-Fair day_of key_of now saves before (keep is_refresh events) h
