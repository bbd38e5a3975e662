-- ===== src/Rewards/Again.antt =====
-- A report of refreshes that is sent again changes nothing (ctr_refresh.go).
use nextendo_demonware.Common.{
  [], ℕ, ◌+◌, ◌≤◌, ◌≡◌, refl, sym, ap, subst, ◌∙◌, ◌⊎◌, inl, inr, Bool, true, false, not, ◌&&◌,
  List, ◌∷◌, Option, none, some, ltb, if◌then◌else◌, arith, All, Bool-cases,
}
use nextendo_demonware.Common.Select.{keep, bytes_eq, bytes_eq_self, bytes_eq→eq, All-keep}
use nextendo_demonware.Proto.Events.{Event}
use nextendo_demonware.Rewards.Races.{has_receipt}
use nextendo_demonware.Rewards.Replay.{has_receipt-more, has_receipt-first}
use nextendo_demonware.Rewards.Refresh.{
  Refresh, update, is_refresh, of_day, in_period, day_start, seconds_of, count_request,
  refresh_loop, keep_refresh, report_requests, report_pit_stop_refresh,
}

-- The event changes nothing any more: it is not of the period, or it was counted, or the day's two
-- refreshes are spent.
abbrev Spent : (Event → List ℕ) → ℕ → Refresh → Event → Type 0
Spent key_of now r e =
    (in_period now e ≡ false) ⊎ (has_receipt (key_of e) r.receipts ≡ true) ⊎ (2 ≤ r.count)

-- Receipts and the count only grow.
record Grows (r r' : Refresh) : Type 0 where
  more : r.count ≤ r'.count
  same_day : r'.day ≡ r.day
  kept : (x : List ℕ) → has_receipt x r.receipts ≡ true → has_receipt x r'.receipts ≡ true

Grows-refl : (r : Refresh) → Grows r r
Grows-refl r = record { more = omega arith; same_day = refl; kept = λ x h. h }

Grows-trans : (a b c : Refresh) → Grows a b → Grows b c → Grows a c
Grows-trans a b c h k = record {
  more = omega (arith, h.more, k.more);
  same_day = k.same_day ∙ h.same_day;
  kept = λ x e. k.kept x (h.kept x e);
}

count_request-Grows :
    (key_of : Event → List ℕ) (e : Event) (r : Refresh) → Grows r (count_request key_of e r)
unfolding count_request
count_request-Grows key_of e r =
    elim (Bool-cases (not (has_receipt (key_of e) r.receipts) && ltb r.count 2)) [
      | inl f ↦
          rw (f, count_request)
            (record {
              more = omega arith;
              same_day = refl;
              kept = λ x h. has_receipt-more x (key_of e) r.receipts h;
            })
      | inr f ↦ rw (f, count_request) (Grows-refl r)
    ]

refresh_loop-Grows :
    (key_of : Event → List ℕ) (now : ℕ) (es : List Event) (r : Refresh) (valid : Bool)
    → Grows r (refresh_loop key_of now es (r, valid)).0
unfolding refresh_loop
refresh_loop-Grows key_of now [] r valid = Grows-refl r
refresh_loop-Grows key_of now (e ∷ es) r valid = elim (Bool-cases (in_period now e)) [
  | inl f ↦
      let r' : Refresh = count_request key_of e r in
      rw (f, refresh_loop)
        (Grows-trans r r' (refresh_loop key_of now es (r', true)).0 (count_request-Grows key_of e r)
          (refresh_loop-Grows key_of now es r' true))
  | inr f ↦ rw (f, refresh_loop) (refresh_loop-Grows key_of now es r valid)
]

count_request-Spent :
    (key_of : Event → List ℕ) (now : ℕ) (e : Event) (r : Refresh)
    → Spent key_of now (count_request key_of e r) e
unfolding count_request
count_request-Spent key_of now e r =
    elim (Bool-cases (not (has_receipt (key_of e) r.receipts) && ltb r.count 2)) [
      | inl f ↦
          rw (f, count_request)
            (inr (inl (ground (arith, has_receipt-first (key_of e) r.receipts))))
      | inr f ↦ rw (f, count_request) (ground arith)
    ]

Spent-Grows :
    (key_of : Event → List ℕ) (now : ℕ) (e : Event) (r r' : Refresh)
    → Grows r r'
    → Spent key_of now r e
    → Spent key_of now r' e
Spent-Grows key_of now e r r' g (inl h) = inl h
Spent-Grows key_of now e r r' g (inr (inl h)) =
    inr (inl (ground (arith, g.kept (key_of e) (ground arith))))
Spent-Grows key_of now e r r' g (inr (inr h)) = inr (inr (omega (arith, g.more)))

refresh_loop-Spent :
    (key_of : Event → List ℕ) (now : ℕ) (es : List Event) (r : Refresh) (valid : Bool)
    → All (Spent key_of now (refresh_loop key_of now es (r, valid)).0) es
unfolding refresh_loop
refresh_loop-Spent key_of now [] r valid = tt
refresh_loop-Spent key_of now (e ∷ es) r valid =
    go (in_period now e) refl (λ r' v. refresh_loop-Spent key_of now es r' v)
  where
    r1 : Refresh
    r1 = count_request key_of e r

    go :
        (c : Bool)
        → in_period now e ≡ c
        → ((r' : Refresh) (v : Bool)
            → All (Spent key_of now (refresh_loop key_of now es (r', v)).0) es)
        → All
            (Spent key_of now (refresh_loop key_of now es (if c then (r1, true) else (r, valid))).0)
            (e ∷ es)
    go true f ih = (
      Spent-Grows key_of now e r1 (refresh_loop key_of now es (r1, true)).0
          (refresh_loop-Grows key_of now es r1 true) (count_request-Spent key_of now e r),
      ih r1 true,
    )
    go false f ih = (inl f, ih r valid)

count_request-nothing :
    (key_of : Event → List ℕ) (now : ℕ) (e : Event) (r : Refresh)
    → in_period now e ≡ true
    → Spent key_of now r e
    → count_request key_of e r ≡ r
unfolding count_request
count_request-nothing key_of now e r f (inl h) = absurd (cc)
count_request-nothing key_of now e r f (inr (inl h)) =
    let g : (not (has_receipt (key_of e) r.receipts) && ltb r.count 2) ≡ false = ground arith in
    rw (g, count_request) refl
count_request-nothing key_of now e r f (inr (inr h)) =
    let g : (not (has_receipt (key_of e) r.receipts) && ltb r.count 2) ≡ false = ground arith in
    rw (g, count_request) refl

refresh_loop-nothing :
    (key_of : Event → List ℕ) (now : ℕ) (es : List Event) (r : Refresh) (valid : Bool)
    → All (Spent key_of now r) es
    → (refresh_loop key_of now es (r, valid)).0 ≡ r
unfolding refresh_loop
refresh_loop-nothing key_of now [] r valid h = refl
refresh_loop-nothing key_of now (e ∷ es) r valid (h, hs) = elim (Bool-cases (in_period now e)) [
  | inl f ↦
      rw (f, refresh_loop, count_request-nothing key_of now e r f h)
        (refresh_loop-nothing key_of now es r true hs)
  | inr f ↦ rw (f, refresh_loop) (refresh_loop-nothing key_of now es r valid hs)
]

-- An event of the period counts as one of it at a later time too.
in_period-later :
    (now now' : ℕ) (e : Event)
    → now ≤ now'
    → day_start now' ≡ day_start now
    → e.timestamp ≤ seconds_of now + 300
    → in_period now e ≡ false
    → in_period now' e ≡ false
unfolding in_period
in_period-later now now' e h same early f = ground arith

Spent-later :
    (key_of : Event → List ℕ) (now now' : ℕ) (r : Refresh) (es : List Event)
    → now ≤ now'
    → day_start now' ≡ day_start now
    → All (λ e. e.timestamp ≤ seconds_of now + 300) es
    → All (Spent key_of now r) es
    → All (Spent key_of now' r) es
Spent-later key_of now now' r [] h same early k = tt
Spent-later key_of now now' r (e ∷ es) h same (early, earlies) (k, ks) = (
  elim k [ inl f ↦ inl (in_period-later now now' e h same early f) | inr f ↦ inr f ],
  Spent-later key_of now now' r es h same earlies ks,
)

keep_refresh-saved :
    (day_of : ℕ → List ℕ) (now : ℕ) (before : Option Refresh) (s : Refresh × Bool) (r : Refresh)
    (message : List ℕ)
    → keep_refresh day_of now true before s ≡ (some r, update message)
    → s.0 ≡ r
keep_refresh-saved day_of now before (b, false) r message e = absurd (cc)
keep_refresh-saved day_of now before (b, true) r message e = cc

keep_refresh-same :
    (day_of : ℕ → List ℕ) (now : ℕ) (saves : Bool) (r : Refresh) (s : Refresh × Bool)
    → s.0 ≡ r
    → (keep_refresh day_of now saves (some r) s).0 ≡ some r
keep_refresh-same day_of now saves r (b, false) e = refl
keep_refresh-same day_of now false r (b, true) e = refl
keep_refresh-same day_of now true r (b, true) e = ap some e

of_day-day : (day : List ℕ) (before : Option Refresh) → (of_day day before).day ≡ day
unfolding of_day
of_day-day day none = refl
of_day-day day (some r) = elim (Bool-cases (bytes_eq r.day day)) [
  | inl f ↦ rw (f, of_day) (bytes_eq→eq r.day day f)
  | inr f ↦ rw (f, of_day) refl
]

of_day-same : (day : List ℕ) (r : Refresh) → r.day ≡ day → of_day day (some r) ≡ r
unfolding of_day
of_day-same day r e =
    let f : bytes_eq r.day day ≡ true =
      subst (λ d. bytes_eq r.day d ≡ true) e (bytes_eq_self r.day) in
    rw (f, of_day) refl

report_requests-replay :
    (day_of : ℕ → List ℕ) (key_of : Event → List ℕ) (now now' : ℕ) (saves : Bool)
    (before : Option Refresh) (es : List Event) (r : Refresh) (message : List ℕ)
    → now ≤ now'
    → day_start now' ≡ day_start now
    → All (λ e. e.timestamp ≤ seconds_of now + 300) es
    → report_requests day_of key_of now true before es ≡ (some r, update message)
    → (report_requests day_of key_of now' saves (some r) es).0 ≡ some r
unfolding report_requests
report_requests-replay day_of key_of now now' saves before [] r message h same early e = refl
report_requests-replay day_of key_of now now' saves before (e ∷ es) r message h same early eq =
    let today : Refresh = of_day (day_of (day_start now)) before in
    let last : Refresh × Bool = refresh_loop key_of now (e ∷ es) (today, false) in
    let saved : last.0 ≡ r = keep_refresh-saved day_of now before last r message eq in
    let grows : Grows today last.0 = refresh_loop-Grows key_of now (e ∷ es) today false in
    let day : r.day ≡ day_of (day_start now') =
      ap (λ (x : Refresh). x.day) (sym saved)
      ∙ grows.same_day
      ∙ of_day-day (day_of (day_start now)) before
      ∙ ap day_of (sym same) in
    let spent : All (Spent key_of now r) (e ∷ es) =
      subst (λ (x : Refresh). All (Spent key_of now x) (e ∷ es)) saved
        (refresh_loop-Spent key_of now (e ∷ es) today false) in
    let again : Refresh = of_day (day_of (day_start now')) (some r) in
    let same_record : again ≡ r = of_day-same (day_of (day_start now')) r day in
    keep_refresh-same day_of now' saves r (refresh_loop key_of now' (e ∷ es) (again, false)) (
      ap (λ (x : Refresh). (refresh_loop key_of now' (e ∷ es) (x, false)).0) same_record
      ∙ refresh_loop-nothing key_of now' (e ∷ es) r false
          (Spent-later key_of now now' r (e ∷ es) h same early spent))

-- A report of events that are not dated ahead of the clock, which was counted and saved, changes
-- nothing when it is sent again at a later time of the same day.
pub report_pit_stop_refresh-replay :
    (day_of : ℕ → List ℕ) (key_of : Event → List ℕ) (now now' : ℕ) (saves : Bool)
    (events : List Event) (before : Option Refresh) (r : Refresh) (message : List ℕ)
    → now ≤ now'
    → day_start now' ≡ day_start now
    → All (λ e. e.timestamp ≤ seconds_of now + 300) events
    → report_pit_stop_refresh day_of key_of now true events before ≡ (some r, update message)
    → (report_pit_stop_refresh day_of key_of now' saves events (some r)).0 ≡ some r
unfolding report_pit_stop_refresh
report_pit_stop_refresh-replay day_of key_of now now' saves events before r message h same early e =
    report_requests-replay day_of key_of now now' saves before (keep is_refresh events) r message h
      same (All-keep (λ e. e.timestamp ≤ seconds_of now + 300) is_refresh events early) e
