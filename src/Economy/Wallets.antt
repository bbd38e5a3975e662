-- ===== src/Economy/Wallets.antt =====
-- What the shop's tasks leave of an account (ctr_marketplace.go).
use nextendo_demonware.Common.{
  [], ℕ, ◌<◌, ◌^◌, ◌≡◌, ◌⊎◌, refl, inl, inr, Bool, true, false, List, Option, none, some, ◌==◌,
  if◌then◌else◌, Bool-cases,
}
use nextendo_demonware.Common.Int.{ℤ, pos}
use nextendo_demonware.Wire.Reader.{ok, err}
use nextendo_demonware.Wire.Reply.{task_reply}
use nextendo_demonware.Economy.Account.{Account, Sku, purchase}
use nextendo_demonware.Economy.Purchase.{Balanced, purchase-Balanced}
use nextendo_demonware.Economy.Requests.{parse_purchase_skus}
use nextendo_demonware.Economy.Market.{
  Answer, replies, refusal, Loaded, Bought, task_purchase, task_balances, task_reconciliation,
  task_inventory, paid, on_purchase, on_marketplace,
}

-- Nothing was bought: the account is as it was, and no balance is pushed.
abbrev pub Kept : Loaded → Bought → Type 0
Kept loaded (answer, after, push) = (after ≡ loaded) × (push ≡ false)

-- Something was bought by an account that held so many coins: the reply says that it worked, the balance is pushed, and what was paid and what is left is
-- what the wallet held.
pub record Sold (transaction held : ℕ) (others : ℕ → ℤ) (bought : Bought) : Type 0 where
  pub account : Account
  pub total : ℤ
  pub accepted : bought.0 ≡ replies (task_reply transaction task_purchase 0 (0, []))
  pub saved : bought.1 ≡ some (account, others)
  pub pushed : bought.2 ≡ true
  pub balanced : Balanced held account.coins total

paid-Sold :
    (transaction held : ℕ) (others : ℕ → ℤ) (a : Account) (result : Account × Option ℤ)
    → ((result.1 ≡ none) × (result.0 ≡ a))
      ⊎ ((total : ℤ) × (result.1 ≡ some total) × Balanced held result.0.coins total)
    → Kept (some (a, others)) (paid transaction others result)
      ⊎ Sold transaction held others (paid transaction others result)
paid-Sold transaction held others a (a', none) (inl (_, same)) = inl (cc, refl)
paid-Sold transaction held others a (a', none) (inr (total, e, _)) = absurd (cc)
paid-Sold transaction held others a (a', some t) (inl (e, _)) = absurd (cc)
paid-Sold transaction held others a (a', some t) (inr (total, e, b)) = inr (record {
  account = a';
  total = total;
  accepted = refl;
  saved = refl;
  pushed = refl;
  balanced = b;
})

on_purchase-Sold :
    (catalog : ℕ → Option Sku) (saves : Bool) (transaction held : ℕ) (payload : List ℕ)
    (a : Account) (others : ℕ → ℤ)
    → held < 2 ^ 63
    → a.coins ≡ pos held
    → let bought = on_purchase catalog saves transaction payload (some (a, others)) in
      Kept (some (a, others)) bought ⊎ Sold transaction held others bought
unfolding on_purchase
on_purchase-Sold catalog saves transaction held payload a others h e =
    elim ((parse_purchase_skus (record { b = payload; off = 3 })).0)
      as (λ x.
        let bought : Bought = elim x [
          | err _ ↦ (refusal transaction task_purchase, some (a, others), false)
          | ok skus ↦ paid transaction others (purchase catalog saves skus a)
        ] in
        Kept (some (a, others)) bought ⊎ Sold transaction held others bought) [
          | err _ ↦ inl (refl, refl)
          | ok skus ↦
              paid-Sold transaction held others a (purchase catalog saves skus a)
                (purchase-Balanced catalog saves skus a held h e)
        ]

if-Sold :
    (transaction held : ℕ) (a : Account) (others : ℕ → ℤ) (c : Bool) (answer : Answer) (y : Bought)
    → Kept (some (a, others)) y ⊎ Sold transaction held others y
    → let bought = if c then (answer, some (a, others), false) else y in
      Kept (some (a, others)) bought ⊎ Sold transaction held others bought
if-Sold transaction held a others true answer y h = inl (refl, refl)
if-Sold transaction held a others false answer y h = h

-- Whatever task of the shop an account with so many coins sends, and whatever its payload: either the
-- account stays as it was and no balance is pushed, or the reply says that a purchase worked, what was
-- paid and what is left, neither of them negative, are the coins that were there, the balances in the
-- other currencies are untouched, and the new balance is pushed.
pub on_marketplace-Sold :
    (catalog : ℕ → Option Sku) (saves : Bool) (fuel transaction pid task held : ℕ)
    (payload : List ℕ) (a : Account) (others : ℕ → ℤ)
    → held < 2 ^ 63
    → a.coins ≡ pos held
    → let bought =
        on_marketplace catalog saves fuel transaction pid task payload (some (a, others)) in
      Kept (some (a, others)) bought ⊎ Sold transaction held others bought
unfolding on_marketplace
on_marketplace-Sold catalog saves fuel transaction pid task held payload a others h e =
    if-Sold transaction held a others (task == task_balances) _ _ (
      if-Sold transaction held a others (task == task_reconciliation) _ _ (
        if-Sold transaction held a others (task == task_inventory) _ _
          (elim (Bool-cases (task == task_purchase)) [
            | inl f ↦ rw f (on_purchase-Sold catalog saves transaction held payload a others h e)
            | inr f ↦ rw f (inl (refl, refl))
          ])))
