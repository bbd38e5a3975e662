-- ===== src/Rewards/Credit.antt =====
-- How much a report of races is credited (ctr_rewards.go).
use native.Mathlib.Nat.{mul-le-mul_left, mul-le-mul_right}
use nextendo_demonware.Common.{
  [], ℕ, suc, ◌+◌, ◌-◌, ◌*◌, ◌/◌, ◌^◌, min, ◌≤◌, ◌<◌, ◌≡◌, refl, ap, ◌∙◌, ◌⊎◌, inl, inr, Bool, true,
  false, ◌&&◌, List, ◌∷◌, Option, none, some, ltb, ◌==◌, if◌then◌else◌, arith, length, Bool-cases,
  Option-cases, subst,
}
use nextendo_demonware.Common.Int.{ℤ, pos, negsuc, ◌+ℤ◌, ◌*ℤ◌, pos_part}
use nextendo_demonware.Stats.Types.{int64_of, wrap_int64}
use nextendo_demonware.Proto.Names.{track_key, mode_key, laps_key, rank_key, golden_key}
use nextendo_demonware.Proto.Events.{Event, value_at}
use nextendo_demonware.Rewards.Races.{
  Rules, Purse, has_receipt, eligible, third, place_amount, is_online, online_amount, is_weekend,
  weekend_amount, golden_amount, race_amount, seconds_today, credit_race, award_race, race_loop,
  keep_races, award_races,
}

-- An amount of coins, not negative and at most `most`.
pub record UpTo (most : ℕ) (v : ℤ) : Type 0 where
  pub size : ℕ
  pub amount : v ≡ pos size
  pub bounded : size ≤ most

-- Every place on every track earns at most so much.
abbrev RatesUpTo : ℕ → Rules → Type 0
RatesUpTo most rules =
    (track : ℕ) (positions : ℕ → ℤ)
    → rules.rates track ≡ some positions
    → (place : ℕ) → UpTo most (positions place)

times_small : (n k : ℕ) → n * k < 2 ^ 63 → wrap_int64 (pos n *ℤ pos k) ≡ pos (n * k)
unfolding wrap_int64 int64_of ◌*ℤ◌
times_small n k h = ground arith

plus_small : (n k : ℕ) → n + k < 2 ^ 63 → wrap_int64 (pos n +ℤ pos k) ≡ pos (n + k)
unfolding wrap_int64 int64_of ◌+ℤ◌
plus_small n k h = ground arith

times-UpTo :
    (k most : ℕ) (v : ℤ)
    → most * k < 2 ^ 63
    → UpTo most v
    → UpTo (most * k) (wrap_int64 (v *ℤ pos k))
times-UpTo k most v small h =
    let less : h.size * k ≤ most * k = mul-le-mul_right k h.bounded in
    record {
      size = h.size * k;
      amount = ap (λ x. wrap_int64 (x *ℤ pos k)) h.amount ∙ times_small h.size k (omega arith);
      bounded = less;
    }

if-UpTo :
    (c : Bool) (most : ℕ) (x y : ℤ) → UpTo most x → UpTo most y → UpTo most (if c then x else y)
if-UpTo true most x y h k = h
if-UpTo false most x y h k = k

weaker : (most more : ℕ) (v : ℤ) → most ≤ more → UpTo most v → UpTo more v
weaker most more v e h = record {
  size = h.size;
  amount = h.amount;
  bounded = omega (arith, h.bounded);
}

third-UpTo : (most : ℕ) (v : ℤ) → UpTo most v → UpTo (most / 3) (third v)
third-UpTo most v h = record {
  size = h.size / 3;
  amount = ap third h.amount;
  bounded = omega (arith, h.bounded);
}

place_amount-UpTo :
    (most : ℕ) (positions : ℕ → ℤ) (e : Event)
    → most ≤ 2 ^ 40
    → ((place : ℕ) → UpTo most (positions place))
    → UpTo (3 * most) (place_amount positions e)
unfolding place_amount
place_amount-UpTo most positions e small h =
    let place : ℕ = min (value_at rank_key e.values - 1) 3 in
    let laps : ℕ = min (value_at laps_key e.values) 8 in
    let few : most * laps ≤ most * 8 = mul-le-mul_left most (omega arith) in
    if-UpTo (value_at mode_key e.values == 15) (3 * most)
      (third (wrap_int64 (positions place *ℤ pos laps))) (positions place)
      (weaker (most * laps / 3) (3 * most) (third (wrap_int64 (positions place *ℤ pos laps)))
        (omega arith)
        (third-UpTo (most * laps) (wrap_int64 (positions place *ℤ pos laps))
          (times-UpTo laps most (positions place) (omega arith) (h place))))
      (weaker most (3 * most) (positions place) (omega arith) (h place))

race_amount-UpTo :
    (rules : Rules) (today most : ℕ) (positions : ℕ → ℤ) (e : Event)
    → most ≤ 2 ^ 40
    → ((place : ℕ) → UpTo most (positions place))
    → UpTo (30 * most + 200) (race_amount rules today positions e)
unfolding race_amount online_amount weekend_amount golden_amount
race_amount-UpTo rules today most positions e small h =
    let v0 : ℤ = place_amount positions e in
    let h0 : UpTo (3 * most) v0 = place_amount-UpTo most positions e small h in
    let v1 : ℤ = online_amount today e v0 in
    let h1 : UpTo (3 * most * 5) v1 =
      if-UpTo (is_online e && ltb today 1800) (3 * most * 5) (wrap_int64 (v0 *ℤ pos 5)) v0
        (times-UpTo 5 (3 * most) v0 (omega arith) h0)
        (weaker (3 * most) (3 * most * 5) v0 (omega arith) h0) in
    let v2 : ℤ = weekend_amount rules e v1 in
    let h2 : UpTo (3 * most * 5 * 2) v2 =
      if-UpTo (is_weekend rules e) (3 * most * 5 * 2) (wrap_int64 (v1 *ℤ pos 2)) v1
        (times-UpTo 2 (3 * most * 5) v1 (omega arith) h1)
        (weaker (3 * most * 5) (3 * most * 5 * 2) v1 (omega arith) h1) in
    if-UpTo (value_at golden_key e.values == 1) (30 * most + 200) (wrap_int64 (v2 +ℤ pos 200)) v2
      (record {
        size = h2.size + 200;
        amount =
            ap (λ x. wrap_int64 (x +ℤ pos 200)) h2.amount
            ∙ plus_small h2.size 200 (omega (arith, h2.bounded));
        bounded = omega (arith, h2.bounded);
      })
      (weaker (3 * most * 5 * 2) (30 * most + 200) v2 (omega arith) h2)

-- The account held so many coins, and has what was credited on top of that, which is at most `limit`.
pub record Credited (held limit : ℕ) (s : Purse × ℤ) : Type 0 where
  pub earned : ℕ
  pub total : s.1 ≡ pos earned
  pub coins : s.0.coins ≡ pos (held + earned)
  pub bounded : earned ≤ limit

credit_race-Credited :
    (rules : Rules) (positions : ℕ → ℤ) (e : Event) (a : Purse) (t : ℤ) (held limit per : ℕ)
    → held + limit + per < 2 ^ 63
    → UpTo per (race_amount rules (seconds_today rules a e) positions e)
    → Credited held limit (a, t)
    → Credited held (limit + per) (credit_race rules positions e (a, t))
unfolding credit_race
credit_race-Credited rules positions e a t held limit per small u h =
    let amount : ℤ = race_amount rules (seconds_today rules a e) positions e in
    record {
      earned = h.earned + u.size;
      total =
          ap (λ x. wrap_int64 (x +ℤ amount)) h.total
          ∙ ap (λ x. wrap_int64 (pos h.earned +ℤ x)) u.amount
          ∙ plus_small h.earned u.size (omega (arith, h.bounded, u.bounded));
      coins =
          ap (λ x. wrap_int64 (x +ℤ amount)) h.coins
          ∙ ap (λ x. wrap_int64 (pos (held + h.earned) +ℤ x)) u.amount
          ∙ plus_small (held + h.earned) u.size (omega (arith, h.bounded, u.bounded))
          ∙ ap pos (omega arith);
      bounded = omega (arith, h.bounded, u.bounded);
    }

relaxed :
    (held limit more : ℕ) (s : Purse × ℤ)
    → limit ≤ more
    → Credited held limit s
    → Credited held more s
relaxed held limit more s e h = record {
  earned = h.earned;
  total = h.total;
  coins = h.coins;
  bounded = omega (arith, h.bounded);
}

eligible-rates :
    (rules : Rules) (now : ℕ) (e : Event) (positions : ℕ → ℤ)
    → eligible rules now e ≡ some positions
    → rules.rates (value_at track_key e.values) ≡ some positions
unfolding eligible
eligible-rates rules now e positions h =
    elim (Option-cases (rules.rates (value_at track_key e.values))) [
      | inl g ↦ ground (arith, g)
      | inr (p, g) ↦ ground (arith, g)
    ]

award_race-Credited :
    (rules : Rules) (now most : ℕ) (e : Event) (s : Purse × ℤ) (held limit : ℕ)
    → most ≤ 2 ^ 40
    → RatesUpTo most rules
    → held + limit + (30 * most + 200) < 2 ^ 63
    → Credited held limit s
    → Credited held (limit + (30 * most + 200)) (award_race rules now e s)
unfolding award_race
award_race-Credited rules now most e (a, t) held limit few rates small h =
    let same = relaxed held limit (limit + (30 * most + 200)) (a, t) (omega arith) h in
    elim (Option-cases (eligible rules now e)) [
      | inl g ↦ rw (g, award_race) same
      | inr (positions, g) ↦ elim (Bool-cases (has_receipt (rules.receipt_of e) a.receipts)) [
        | inl f ↦ rw (g, award_race, f) same
        | inr f ↦
            rw (g, award_race, f)
              (credit_race-Credited rules positions e a t held limit (30 * most + 200) small
                (race_amount-UpTo rules (seconds_today rules a e) most positions e few (
                  rates (value_at track_key e.values) positions
                    (eligible-rates rules now e positions g)))
                h)
      ]
    ]

race_loop-Credited :
    (rules : Rules) (now most : ℕ) (es : List Event) (s : Purse × ℤ) (held limit : ℕ)
    → most ≤ 2 ^ 40
    → RatesUpTo most rules
    → held + limit + length es * (30 * most + 200) < 2 ^ 63
    → Credited held limit s
    → Credited held (limit + length es * (30 * most + 200)) (race_loop rules now es s)
unfolding race_loop
race_loop-Credited rules now most [] s held limit few rates small h =
    relaxed held limit (limit + 0 * (30 * most + 200)) s (omega arith) h
race_loop-Credited rules now most (e ∷ es) s held limit few rates small h =
    let per : ℕ = 30 * most + 200 in
    let split : limit + per + length es * per ≡ limit + suc (length es) * per = omega arith in
    let s' : Purse × ℤ = award_race rules now e s in
    subst (λ l. Credited held l (race_loop rules now es s')) split
      (race_loop-Credited rules now most es s' held (limit + per) few rates (omega arith)
        (award_race-Credited rules now most e s held limit few rates (omega arith) h))

-- What an account that held so many coins has after a report of so many events.
pub record Paid (held limit : ℕ) (a' : Purse) (result : Option ℤ) : Type 0 where
  pub earned : ℕ
  pub total : result ≡ some (pos earned)
  pub coins : a'.coins ≡ pos (held + earned)
  pub bounded : earned ≤ limit

-- It failed and left the account as it was, or it paid.
abbrev pub FailedOrPaid : ℕ → ℕ → Purse → Purse × Option ℤ → Type 0
FailedOrPaid held limit a (a', result) = (result ≡ none) × (a' ≡ a) ⊎ Paid held limit a' result

keep_races-Paid :
    (saves : Bool) (a : Purse) (s : Purse × ℤ) (held limit : ℕ)
    → a.coins ≡ pos held
    → Credited held limit s
    → FailedOrPaid held limit a (keep_races saves a s)
keep_races-Paid saves a (b, negsuc n) held limit e h = absurd (cc)
keep_races-Paid saves a (b, pos n) held limit e h = elim (Bool-cases (n == 0)) [
  | inl f ↦
      let nothing : held ≡ held + h.earned = ground (arith, f, ap pos_part h.total) in
      rw f (
        inr (record {
          earned = h.earned;
          total = ap some h.total;
          coins = e ∙ ap pos nothing;
          bounded = h.bounded;
        }))
  | inr f ↦ rw f (go saves)
]
  where
    go :
        (saves' : Bool)
        → FailedOrPaid held limit a (if saves' then (b, some (pos n)) else (a, none))
    go true = inr (record {
      earned = h.earned;
      total = ap some h.total;
      coins = h.coins;
      bounded = h.bounded;
    })
    go false = inl (refl, refl)

-- Where no place on a track earns more than `most`, and the wallet cannot overflow: a report either
-- fails and leaves the account as it was, or the coins that it says were credited are those that the
-- account has more, 30 times `most` and 200 for each event at most.
pub award_races-Paid :
    (rules : Rules) (now most held : ℕ) (saves : Bool) (es : List Event) (a : Purse)
    → most ≤ 2 ^ 40
    → RatesUpTo most rules
    → held + length es * (30 * most + 200) < 2 ^ 63
    → a.coins ≡ pos held
    → FailedOrPaid held (length es * (30 * most + 200)) a (award_races rules now saves es a)
unfolding award_races
award_races-Paid rules now most held saves es a few rates small e =
    keep_races-Paid saves a (race_loop rules now es (a, pos 0)) held (length es * (30 * most + 200))
      e
      (subst (λ l. Credited held l (race_loop rules now es (a, pos 0))) (omega arith)
        (race_loop-Credited rules now most es (a, pos 0) held 0 few rates (omega arith)
          (record {
            earned = 0;
            total = refl;
            coins = e ∙ ap pos (omega arith);
            bounded = omega arith;
          })))
