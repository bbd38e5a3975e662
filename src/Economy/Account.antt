-- ===== src/Economy/Account.antt =====
-- An account's wallet and what is bought with it (ctr_economy.go). The catalog is data of the build:
-- `catalog` looks a SKU up in it. Prices and balances are int64s.
use nextendo_demonware.Common.{
  ℕ, Bool, false, ◌||◌, List, [], ◌∷◌, ◌++◌, Option, none, some, if◌then◌else◌,
}
use nextendo_demonware.Common.Int.{ℤ, pos, ◌+ℤ◌, ◌-ℤ◌, ltb_ℤ}
use nextendo_demonware.Common.Select.{all, contains}
use nextendo_demonware.Stats.Types.{wrap_int64}

-- economySKU.
pub record Sku : Type 0 where
  pub items : List ℕ
  pub parts : List ℕ
  pub price : ℤ

-- economyAccount, by what purchases read: the balance of Wumpa Coins, and the items that the map
-- `Items` holds `true` for.
pub record Account : Type 0 where
  pub coins : ℤ
  pub items : List ℕ

unfoldable owns_sku : List ℕ → Sku → Bool
owns_sku owned sku = elim sku.items [ [] ↦ false | _ ∷ _ ↦ all (λ id. contains id owned) sku.items ]

-- The loop over the components: those that are not owned are paid for.
unfoldable parts_price : (ℕ → Option Sku) → List ℕ → ℤ → List ℕ → Option ℤ
unfolding owns_sku wrap_int64
parts_price catalog owned price [] = some price
parts_price catalog owned price (id ∷ ids) = elim (catalog id) [
  | none ↦ none
  | some part ↦
      parts_price catalog owned
        (if owns_sku owned part then price else wrap_int64 (price +ℤ part.price)) ids
]

unfoldable pub sku_price : (ℕ → Option Sku) → List ℕ → Sku → Option ℤ
unfolding owns_sku parts_price
sku_price catalog owned sku = if owns_sku owned sku then some (pos 0) else (elim sku.parts [
  | [] ↦ some sku.price
  | _ ∷ _ ↦ parts_price catalog owned (pos 0) sku.parts
])

-- The account after the debit and the grant, and the total.
abbrev pub debit : Account → ℤ → ℤ → Sku → Account × ℤ
debit a total price sku = (
  record { coins = wrap_int64 (a.coins -ℤ price); items = a.items ++ sku.items },
  wrap_int64 (total +ℤ price),
)

-- A SKU that can be paid for, at a price that is not negative.
unfoldable pub pay : Account → ℤ → Sku → Option ℤ → Option (Account × ℤ)
unfolding wrap_int64
pay a total sku none = none
pay a total sku (some price) =
    if ltb_ℤ price (pos 0) || ltb_ℤ a.coins price then none else some (debit a total price sku)

unfoldable pub buy_one : (ℕ → Option Sku) → Account → ℤ → ℕ → Option (Account × ℤ)
unfolding pay sku_price
buy_one catalog a total id = elim (catalog id) [
  | none ↦ none
  | some sku ↦ pay a total sku (sku_price catalog a.items sku)
]

unfoldable pub buy_all : (ℕ → Option Sku) → Account → ℤ → List ℕ → Option (Account × ℤ)
unfolding buy_one
buy_all catalog a total [] = some (a, total)
buy_all catalog a total (id ∷ ids) = elim (buy_one catalog a total id) [
  | none ↦ none
  | some (a', total') ↦ buy_all catalog a' total' ids
]

abbrev pub saved : Bool → Account → Option (Account × ℤ) → Account × Option ℤ
saved saves a none = (a, none)
saved saves a (some (a', total)) = if saves then (a', some total) else (a, none)

-- purchase: the account on disk afterwards, and the total that was paid. `saves` says whether the new
-- file can be put in the place of the old one.
unfoldable pub purchase : (ℕ → Option Sku) → Bool → List ℕ → Account → Account × Option ℤ
unfolding buy_all
purchase catalog saves skus a = saved saves a (buy_all catalog a (pos 0) skus)
