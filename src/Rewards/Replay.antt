-- ===== src/Rewards/Replay.antt =====
-- A report that is sent again earns nothing (ctr_rewards.go).
use nextendo_demonware.Common.{
  [], ℕ, ◌*◌, ◌^◌, ◌≤◌, ◌≡◌, refl, ap, ◌∙◌, ◌⊎◌, inl, inr, Bool, true, false, List, ◌∷◌, Option,
  none, some, if◌then◌else◌, arith, All, Bool-cases, Option-cases, subst,
}
use nextendo_demonware.Common.Int.{ℤ, pos, negsuc, ◌*ℤ◌, ◌-ℤ◌, ltb_ℤ}
use nextendo_demonware.Common.Select.{bytes_eq_self}
use nextendo_demonware.Proto.Events.{Event}
use nextendo_demonware.Rewards.Races.{
  Rules, Purse, has_receipt, is_early, is_old, eligible, credit_race, award_race, race_loop,
  is_zero, keep_races, award_races, time_of, second,
}

-- The event earns nothing any more: it does not count at `now`, or its receipt is there.
abbrev Spent : Rules → ℕ → List (List ℕ) → Event → Type 0
Spent rules now receipts e =
    (eligible rules now e ≡ none) ⊎ (has_receipt (rules.receipt_of e) receipts ≡ true)

pub has_receipt-more :
    (x y : List ℕ) (xs : List (List ℕ)) → has_receipt x xs ≡ true → has_receipt x (y ∷ xs) ≡ true
unfolding has_receipt
has_receipt-more x y xs h = ground arith

pub has_receipt-first : (x : List ℕ) (xs : List (List ℕ)) → has_receipt x (x ∷ xs) ≡ true
unfolding has_receipt
has_receipt-first x xs = ground (arith, bytes_eq_self x)

award_race-Spent :
    (rules : Rules) (now : ℕ) (e : Event) (a : Purse) (total : ℤ)
    → Spent rules now a.receipts e
    → award_race rules now e (a, total) ≡ (a, total)
unfolding award_race
award_race-Spent rules now e a total (inl h) = rw (h, award_race) refl
award_race-Spent rules now e a total (inr h) = elim (Option-cases (eligible rules now e)) [
  | inl g ↦ rw (g, award_race) refl
  | inr (positions, g) ↦ rw (g, award_race, h) refl
]

-- A race leaves the receipts of others, and its own if it counts.
award_race-more :
    (rules : Rules) (now : ℕ) (e : Event) (s : Purse × ℤ) (x : List ℕ)
    → has_receipt x s.0.receipts ≡ true
    → has_receipt x (award_race rules now e s).0.receipts ≡ true
unfolding award_race credit_race
award_race-more rules now e (a, total) x h = elim (Option-cases (eligible rules now e)) [
  | inl g ↦ rw (g, award_race) h
  | inr (positions, g) ↦ elim (Bool-cases (has_receipt (rules.receipt_of e) a.receipts)) [
    | inl f ↦ rw (g, award_race, f) h
    | inr f ↦ rw (g, award_race, f) (has_receipt-more x (rules.receipt_of e) a.receipts h)
  ]
]

award_race-own :
    (rules : Rules) (now : ℕ) (e : Event) (s : Purse × ℤ)
    → Spent rules now (award_race rules now e s).0.receipts e
unfolding award_race credit_race
award_race-own rules now e (a, total) = elim (Option-cases (eligible rules now e)) [
  | inl g ↦ inl g
  | inr (positions, g) ↦ elim (Bool-cases (has_receipt (rules.receipt_of e) a.receipts)) [
    | inl f ↦ inr (rw (g, award_race, f) f)
    | inr f ↦ inr (rw (g, award_race, f) (has_receipt-first (rules.receipt_of e) a.receipts))
  ]
]

race_loop-more :
    (rules : Rules) (now : ℕ) (es : List Event) (s : Purse × ℤ) (x : List ℕ)
    → has_receipt x s.0.receipts ≡ true
    → has_receipt x (race_loop rules now es s).0.receipts ≡ true
unfolding race_loop
race_loop-more rules now [] s x h = h
race_loop-more rules now (e ∷ es) s x h =
    race_loop-more rules now es (award_race rules now e s) x (award_race-more rules now e s x h)

race_loop-Spent :
    (rules : Rules) (now : ℕ) (es : List Event) (s : Purse × ℤ)
    → All (Spent rules now (race_loop rules now es s).0.receipts) es
unfolding race_loop
race_loop-Spent rules now [] s = tt
race_loop-Spent rules now (e ∷ es) s =
    let s' : Purse × ℤ = award_race rules now e s in
    let here : Spent rules now (race_loop rules now es s').0.receipts e =
      elim (award_race-own rules now e s) [
        | inl h ↦ inl h
        | inr h ↦ inr (race_loop-more rules now es s' (rules.receipt_of e) h)
      ] in
    (here, race_loop-Spent rules now es s')

race_loop-nothing :
    (rules : Rules) (now : ℕ) (es : List Event) (a : Purse) (total : ℤ)
    → All (Spent rules now a.receipts) es
    → race_loop rules now es (a, total) ≡ (a, total)
unfolding race_loop
race_loop-nothing rules now [] a total h = refl
race_loop-nothing rules now (e ∷ es) a total (h, hs) =
    ap (race_loop rules now es) (award_race-Spent rules now e a total h)
    ∙ race_loop-nothing rules now es a total hs

older :
    (z : ℤ) (now now' c : ℕ)
    → now ≤ now'
    → ltb_ℤ z (pos now -ℤ pos c) ≡ true
    → ltb_ℤ z (pos now' -ℤ pos c) ≡ true
unfolding ◌-ℤ◌
older (pos n) now now' c h e = ground arith
older (negsuc n) now now' c h e = ground arith

-- What does not count, although it is not dated ahead of the clock, does not count later.
eligible-later :
    (rules : Rules) (now now' : ℕ) (e : Event)
    → now ≤ now'
    → is_early now e ≡ false
    → eligible rules now e ≡ none
    → eligible rules now' e ≡ none
unfolding eligible is_old
eligible-later rules now now' e h early none_now =
    ground (arith, older (time_of e *ℤ second) now now' (604800 * 10 ^ 9) h)

Spent-later :
    (rules : Rules) (now now' : ℕ) (receipts : List (List ℕ)) (es : List Event)
    → now ≤ now'
    → All (λ e. is_early now e ≡ false) es
    → All (Spent rules now receipts) es
    → All (Spent rules now' receipts) es
Spent-later rules now now' receipts [] h early k = tt
Spent-later rules now now' receipts (e ∷ es) h (early, earlies) (k, ks) = (
  elim k [ inl g ↦ inl (eligible-later rules now now' e h early g) | inr g ↦ inr g ],
  Spent-later rules now now' receipts es h earlies ks,
)

keep_races-some :
    (a a' : Purse) (total : ℤ) (s : Purse × ℤ)
    → is_zero total ≡ false
    → keep_races true a s ≡ (a', some total)
    → s.0 ≡ a'
keep_races-some a a' total (b, t) h e = go (is_zero t) refl e
  where
    go :
        (c : Bool)
        → is_zero t ≡ c
        → ◌≡◌ {A = Purse × Option ℤ} (if c then (a, some t) else (b, some t)) (a', some total)
        → b ≡ a'
    go true f g = absurd (cc)
    go false f g = cc

-- A report of events that are not dated ahead of the clock, for which an account was credited, changes
-- nothing when it is sent again at any later time: it is credited 0, and the account stays as it is.
pub award_races-replay :
    (rules : Rules) (now now' : ℕ) (saves : Bool) (es : List Event) (a a' : Purse) (total : ℤ)
    → now ≤ now'
    → All (λ e. is_early now e ≡ false) es
    → award_races rules now true es a ≡ (a', some total)
    → is_zero total ≡ false
    → award_races rules now' saves es a' ≡ (a', some (pos 0))
unfolding award_races
award_races-replay rules now now' saves es a a' total h early e k =
    let s : Purse × ℤ = race_loop rules now es (a, pos 0) in
    let same : s.0 ≡ a' = keep_races-some a a' total s k e in
    let spent : All (Spent rules now a'.receipts) es =
      subst (λ (p : Purse). All (Spent rules now p.receipts) es) same
        (race_loop-Spent rules now es (a, pos 0)) in
    ap (keep_races saves a') (
      race_loop-nothing rules now' es a' (pos 0)
        (Spent-later rules now now' a'.receipts es h early spent))
