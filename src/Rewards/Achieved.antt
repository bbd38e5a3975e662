-- ===== src/Rewards/Achieved.antt =====
-- When a challenge is complete, and what it earns then (ctr_challenge_rules.go).
use nextendo_demonware.Common.{
  [], ℕ, ◌+◌, ◌-◌, ◌%◌, ◌^◌, ◌≤◌, ◌<◌, ◌≡◌, ◌≢◌, ◌⊎◌, inl, inr, refl, ap, true, false, not, ◌||◌,
  List, ◌∷◌, ltb, leb, arith, Bool-cases,
}
use nextendo_demonware.Common.Int.{ℤ, ◌+ℤ◌}
use nextendo_demonware.Common.Select.{bytes_eq, contains}
use nextendo_demonware.Stats.Types.{wrap_int64}
use nextendo_demonware.Proto.Names.{battles_rule, x_key}
use nextendo_demonware.Proto.Events.{Event, has_key, value_at}
use nextendo_demonware.Rewards.Refresh.{AchievementState}
use nextendo_demonware.Rewards.Challenges.{Period, Rule}
use nextendo_demonware.Rewards.Tallies.{
  Tally, advance, count_battle, count_event, counts_for, increment_of, tally_loop, next_tally,
  set_count,
}

-- The challenge goes on: it has earned nothing and its progress is within the target.
pub record GoesOn (target : ℕ) (before : ℤ) (t : Tally) : Type 0 where
  pub incomplete : t.c.completed ≡ 0
  pub unpaid : t.credit ≡ before
  pub within : t.c.progress ≤ target
  pub stays : t.left ≡ false

-- The challenge is complete: its progress is the target, and the reward was credited once.
pub record Achieved (r : Rule) (target : ℕ) (before : ℤ) (t : Tally) : Type 0 where
  pub complete : t.c.completed ≢ 0
  pub paid : t.credit ≡ wrap_int64 (before +ℤ r.reward)
  pub reached : t.c.progress ≡ target
  pub leaves : t.left ≡ true

abbrev pub Sound : Rule → ℕ → ℤ → Tally → Type 0
Sound r target before t = GoesOn target before t ⊎ Achieved r target before t

advance-Sound :
    (r : Rule) (target : ℕ) (e : Event) (increment : ℕ) (before : ℤ) (t : Tally)
    → target < 2 ^ 64
    → e.timestamp ≢ 0
    → GoesOn target before t
    → Sound r target before (advance r target e increment t)
unfolding advance
advance-Sound r target e increment before t small dated h =
    elim (Bool-cases (leb ((target + 2 ^ 64 - t.c.progress) % 2 ^ 64) increment)) [
      | inl f ↦
          rw (f, advance)
            (inr (record {
              complete = dated;
              paid = ap (λ x. wrap_int64 (x +ℤ r.reward)) h.unpaid;
              reached = refl;
              leaves = refl;
            }))
      | inr f ↦
          let below : (t.c.progress + increment) % 2 ^ 64 ≤ target = ground (arith, h.within) in
          rw (f, advance)
            (inl (record {
              incomplete = h.incomplete;
              unpaid = h.unpaid;
              within = below;
              stays = h.stays;
            }))
    ]

count_battle-Sound :
    (r : Rule) (target : ℕ) (e : Event) (before : ℤ) (t : Tally)
    → target < 2 ^ 64
    → e.timestamp ≢ 0
    → GoesOn target before t
    → Sound r target before (count_battle r target e t)
unfolding count_battle
count_battle-Sound r target e before t small dated h =
    let mode : ℕ = value_at x_key e.values in
    elim (Bool-cases
      (not (has_key x_key e.values) || ltb mode 9 || ltb 13 mode || contains mode t.c.distinct)) [
        | inl f ↦ rw (f, count_battle) (inl h)
        | inr f ↦
            rw (f, count_battle)
              (advance-Sound r target e 1 before
                (record t { c = record (t.c) { distinct = mode ∷ t.c.distinct } }) small dated
                (record {
                  incomplete = h.incomplete;
                  unpaid = h.unpaid;
                  within = h.within;
                  stays = h.stays;
                }))
      ]

count_event-Sound :
    (r : Rule) (target : ℕ) (e : Event) (increment : ℕ) (receipt : List ℕ) (before : ℤ) (t : Tally)
    → target < 2 ^ 64
    → e.timestamp ≢ 0
    → GoesOn target before t
    → Sound r target before (count_event r target e increment receipt t)
unfolding count_event
count_event-Sound r target e increment receipt before t small dated h =
    let n : ℕ = (value_at receipt t.occurrences + 1) % 2 ^ 64 in
    let seen : Tally = record t { occurrences = set_count receipt n t.occurrences } in
    let noted : Tally = record seen {
      c = record (t.c) { receipts = set_count receipt n t.c.receipts };
      changed = true;
    } in
    let fine : GoesOn target before noted = record {
      incomplete = h.incomplete;
      unpaid = h.unpaid;
      within = h.within;
      stays = h.stays;
    } in
    elim (Bool-cases (leb n (value_at receipt t.c.receipts))) [
      | inl f ↦
          rw (f, count_event)
            (inl (record {
              incomplete = h.incomplete;
              unpaid = h.unpaid;
              within = h.within;
              stays = h.stays;
            }))
      | inr f ↦ elim (Bool-cases (bytes_eq r.name battles_rule)) [
        | inl g ↦
            rw (f, count_event, g) (count_battle-Sound r target e before noted small dated fine)
        | inr g ↦
            rw (f, count_event, g)
              (advance-Sound r target e increment before noted small dated fine)
      ]
    ]

counted_is_dated :
    (r : Rule) (p : Period) (state : AchievementState) (now : ℕ) (e : Event)
    → 0 < state.start
    → counts_for r p state now e ≡ true
    → e.timestamp ≢ 0
unfolding counts_for
counted_is_dated r p state now e h f = ground arith

next_tally-Sound :
    (receipt_of : Event → List ℕ) (r : Rule) (p : Period) (state : AchievementState) (now : ℕ)
    (before : ℤ) (e : Event) (t : Tally)
    → state.target < 2 ^ 64
    → 0 < state.start
    → GoesOn state.target before t
    → Sound r state.target before (next_tally receipt_of r p state now e t)
unfolding next_tally
next_tally-Sound receipt_of r p state now before e t small dated h =
    elim (Bool-cases (counts_for r p state now e)) [
      | inr f ↦ rw (f) (inl h)
      | inl f ↦ rw (f) (
          count_event-Sound r state.target e (increment_of r e) (receipt_of e) before t small
            (counted_is_dated r p state now e dated f) h)
    ]

-- From a challenge that is not complete, whose progress is within its target below 2^64, and whose
-- period starts after the time 0: the loop over the events of a report either leaves it so, and
-- credits nothing, or completes it: its progress is then the target, and the reward has been credited
-- exactly once.
pub tally_loop-Sound :
    (receipt_of : Event → List ℕ) (r : Rule) (p : Period) (state : AchievementState) (now : ℕ)
    (before : ℤ) (es : List Event) (t : Tally)
    → state.target < 2 ^ 64
    → 0 < state.start
    → GoesOn state.target before t
    → Sound r state.target before (tally_loop receipt_of r p state now es t)
unfolding tally_loop
tally_loop-Sound receipt_of r p state now before [] t small dated h = inl h
tally_loop-Sound receipt_of r p state now before (e ∷ es) t small dated h =
    let t' = next_tally receipt_of r p state now e t in
    elim (next_tally-Sound receipt_of r p state now before e t small dated h) [
      | inl g ↦
          rw (tally_loop, g.stays)
            (tally_loop-Sound receipt_of r p state now before es t' small dated g)
      | inr g ↦ rw (tally_loop, g.leaves) (inr g)
    ]
