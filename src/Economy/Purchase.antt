-- ===== src/Economy/Purchase.antt =====
-- What a purchase costs and grants (ctr_economy.go).
use nextendo_demonware.Common.{
  ℕ, ◌+◌, ◌-◌, ◌≤◌, ◌<◌, ◌≡◌, refl, ap, subst, ◌∙◌, ◌^◌, ◌⊎◌, inl, inr, Bool, true, false, ◌||◌,
  List, [], ◌∷◌, Option, none, some, if◌then◌else◌, arith, Option-cases,
}
use nextendo_demonware.Common.Int.{ℤ, pos, negsuc, ◌+ℤ◌, ◌-ℤ◌, ltb_ℤ}
use nextendo_demonware.Stats.Types.{wrap_int64, int64_of}
use nextendo_demonware.Economy.Account.{
  Sku, Account, sku_price, debit, pay, buy_one, buy_all, saved, purchase,
}

-- A wallet of `coins` and a total of `spent` so far, out of what the wallet held at first.
pub record Balanced (held : ℕ) (coins spent : ℤ) : Type 0 where
  pub left : ℕ
  pub paid : ℕ
  pub coins_left : coins ≡ pos left
  pub spent_paid : spent ≡ pos paid
  pub adds_up : left + paid ≡ held

if-some :
    (c : Bool) (x y : Account × ℤ) → (if c then none else some x) ≡ some y → (c ≡ false) × (x ≡ y)
if-some true x y e = cc
if-some false x y e = (refl, cc)

no_negative : (c : ℤ) (n : ℕ) → (ltb_ℤ (negsuc n) (pos 0) || ltb_ℤ c (negsuc n)) ≡ true
no_negative c n = ground arith

pay-some :
    (a : Account) (spent : ℤ) (sku : Sku) (p : Option ℤ) (x : Account × ℤ)
    → pay a spent sku p ≡ some x
    → (n : ℕ) × (ltb_ℤ a.coins (pos n) ≡ false) × (debit a spent (pos n) sku ≡ x)
unfolding pay
pay-some a spent sku none x e = ground arith
pay-some a spent sku (some (negsuc n)) x e =
    let (c, _) =
      if-some (ltb_ℤ (negsuc n) (pos 0) || ltb_ℤ a.coins (negsuc n)) (debit a spent (negsuc n) sku)
        x e in
    absurd (ground (arith, c, no_negative a.coins n))
pay-some a spent sku (some (pos n)) x e =
    let (c, same) =
      if-some (ltb_ℤ (pos n) (pos 0) || ltb_ℤ a.coins (pos n)) (debit a spent (pos n) sku) x e in
    (n, ground (arith, c), same)

wrap-pos : (n : ℕ) → n < 2 ^ 63 → wrap_int64 (pos n) ≡ pos n
unfolding wrap_int64 int64_of
wrap-pos n h = ground arith

less :
    (c : ℤ) (l n : ℕ) → c ≡ pos l → ltb_ℤ c (pos n) ≡ false → (n ≤ l) × (c -ℤ pos n ≡ pos (l - n))
unfolding ◌-ℤ◌
less (pos l') l n e h = ground arith
less (negsuc l') l n e h = cc

more : (c : ℤ) (p n : ℕ) → c ≡ pos p → c +ℤ pos n ≡ pos (p + n)
unfolding ◌+ℤ◌
more (pos p') p n e = ground arith
more (negsuc p') p n e = cc

pay-Balanced :
    (held : ℕ) (a a' : Account) (spent total : ℤ) (sku : Sku) (p : Option ℤ)
    → held < 2 ^ 63
    → Balanced held a.coins spent
    → pay a spent sku p ≡ some (a', total)
    → Balanced held a'.coins total
pay-Balanced held a a' spent total sku p h b e =
    let (n, enough, same) = pay-some a spent sku p (a', total) e in
    let (fits, left) = less a.coins b.left n b.coins_left enough in
    subst (λ (x : Account × ℤ). Balanced held x.0.coins x.1) same
      (record {
        left = b.left - n;
        paid = b.paid + n;
        coins_left = ap wrap_int64 left ∙ wrap-pos (b.left - n) (omega (arith, b.adds_up));
        spent_paid =
            ap wrap_int64 (more spent b.paid n b.spent_paid)
            ∙ wrap-pos (b.paid + n) (omega (arith, b.adds_up));
        adds_up = omega (arith, b.adds_up);
      })

buy_one-Balanced :
    (catalog : ℕ → Option Sku) (held : ℕ) (a a' : Account) (spent total : ℤ) (id : ℕ)
    → held < 2 ^ 63
    → Balanced held a.coins spent
    → buy_one catalog a spent id ≡ some (a', total)
    → Balanced held a'.coins total
unfolding buy_one
buy_one-Balanced catalog held a a' spent total id h b e = elim (Option-cases (catalog id)) [
  | inl n ↦ ground arith
  | inr (sku, y) ↦
      pay-Balanced held a a' spent total sku (sku_price catalog a.items sku) h b
        (ground (arith, e, y))
]

buy_all-Balanced :
    (catalog : ℕ → Option Sku) (held : ℕ) (a a' : Account) (spent total : ℤ) (ids : List ℕ)
    → held < 2 ^ 63
    → Balanced held a.coins spent
    → buy_all catalog a spent ids ≡ some (a', total)
    → Balanced held a'.coins total
unfolding buy_all
buy_all-Balanced catalog held a a' spent total [] h b e =
    let same : (a, spent) ≡ (a', total) = cc in
    subst (λ (x : Account × ℤ). Balanced held x.0.coins x.1) same b
buy_all-Balanced catalog held a a' spent total (id ∷ ids) h b e =
    elim (Option-cases (buy_one catalog a spent id)) [
      | inl n ↦ ground arith
      | inr ((a1, spent1), y) ↦
          buy_all-Balanced catalog held a1 a' spent1 total ids h
            (buy_one-Balanced catalog held a a1 spent spent1 id h b y) (ground (arith, e, y))
    ]

saved_lem :
    (saves : Bool) (a : Account) (r : Option (Account × ℤ))
    → ((saved saves a r).1 ≡ none) × ((saved saves a r).0 ≡ a)
      ⊎ ((total : ℤ) × ((saved saves a r).1 ≡ some total) × (r ≡ some ((saved saves a r).0, total)))
saved_lem saves a none = inl (refl, refl)
saved_lem true a (some (a', total)) = inr (total, refl, refl)
saved_lem false a (some (a', total)) = inl (refl, refl)

-- A purchase either fails and changes nothing, or takes from the wallet exactly the total that it
-- reports: what is left and what was paid, neither of them negative, are what the wallet held.
pub purchase-Balanced :
    (catalog : ℕ → Option Sku) (saves : Bool) (skus : List ℕ) (a : Account) (held : ℕ)
    → held < 2 ^ 63
    → a.coins ≡ pos held
    → let (a', paid) = purchase catalog saves skus a in
      ((paid ≡ none) × (a' ≡ a))
      ⊎ ((total : ℤ) × (paid ≡ some total) × Balanced held a'.coins total)
unfolding purchase
purchase-Balanced catalog saves skus a held h e =
    elim (saved_lem saves a (buy_all catalog a (pos 0) skus)) [
      | inl x ↦ inl x
      | inr (total, y, z) ↦ inr (
        total,
        y,
        buy_all-Balanced catalog held a _ (pos 0) total skus h
            (record {
              left = held;
              paid = 0;
              coins_left = e;
              spent_paid = refl;
              adds_up = omega arith;
            })
            z,
      )
    ]
