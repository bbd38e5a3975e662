-- ===== src/Economy/Tests.antt =====
-- A purchase of two items out of a wallet of 100 coins.
use nextendo_demonware.Common.{
  ℕ, ◌==◌, ◌*◌, ◌≡◌, refl, ◌⊎◌, true, [], ◌∷◌, Option, none, some, if◌then◌else◌, arith, ltb, take,
}
use nextendo_demonware.Common.Int.{ℤ, pos}
use nextendo_demonware.Common.Select.{sort_by}
use nextendo_demonware.Economy.Account.{Sku, Account, purchase}
use nextendo_demonware.Economy.Purchase.{Balanced, purchase-Balanced}
use nextendo_demonware.Economy.Inventory.{pages, pages-take}
use nextendo_demonware.Common.{◌<◌, ◌≤◌, List, length, sym, append-nil}
use nextendo_demonware.Wire.Reader.{Reader}
use nextendo_demonware.Wire.RoundTrip.{Took}
use nextendo_demonware.Economy.Requests.{parse_purchase_skus}
use nextendo_demonware.Economy.Orders.{
  purchase_request, parse_purchase_skus-purchase_request, length-parse_purchase_skus,
}
use nextendo_demonware.Economy.Market.{on_marketplace}
use nextendo_demonware.Economy.Wallets.{Kept, Sold, on_marketplace-Sold}

abbrev shop : ℕ → Option Sku
shop id = if id == 7 then some (record { items = 70 ∷ []; parts = []; price = pos 30 }) else none

abbrev wallet : Account
wallet = record { coins = pos 100; items = [] }

purchase-Balanced_example :
    let (a', paid) = purchase shop true (7 ∷ []) wallet in
    ((paid ≡ none) × (a' ≡ wallet))
    ⊎ ((total : ℤ) × (paid ≡ some total) × Balanced 100 a'.coins total)
purchase-Balanced_example = purchase-Balanced shop true (7 ∷ []) wallet 100 (omega arith) refl

pages-take_example : pages (5 ∷ 3 ∷ 4 ∷ []) 2 2 ≡ take (2 * 2) (sort_by ltb (5 ∷ 3 ∷ 4 ∷ []))
pages-take_example = pages-take (5 ∷ 3 ∷ 4 ∷ []) 2 2

abbrev two_skus : List ℕ
two_skus = 7 ∷ 9 ∷ []

abbrev request_reader : Reader
request_reader = record { b = purchase_request (7 ∷ 9 ∷ []); off = 0 }

parse_purchase_skus-purchase_request_example :
    Took parse_purchase_skus (7 ∷ 9 ∷ []) (purchase_request (7 ∷ 9 ∷ [])) [] request_reader
parse_purchase_skus-purchase_request_example =
    parse_purchase_skus-purchase_request (7 ∷ 9 ∷ []) [] request_reader (omega arith) (omega arith)
      (omega arith) (sym (append-nil (purchase_request (7 ∷ 9 ∷ []))))

length-parse_purchase_skus_example : (0 < length two_skus) × (length two_skus ≤ 255)
length-parse_purchase_skus_example =
    length-parse_purchase_skus (7 ∷ 9 ∷ []) request_reader
      parse_purchase_skus-purchase_request_example.after
      parse_purchase_skus-purchase_request_example.result

on_marketplace-Sold_example :
    let bought =
      on_marketplace shop true 9 1 500 154
        (80 ∷ 3 ∷ 154 ∷ purchase_request (7 ∷ []))
        (some (wallet, λ _. pos 0)) in
    Kept (some (wallet, λ _. pos 0)) bought ⊎ Sold 1 100 (λ _. pos 0) bought
on_marketplace-Sold_example =
    on_marketplace-Sold shop true 9 1 500 154 100 (80 ∷ 3 ∷ 154 ∷ purchase_request (7 ∷ [])) wallet
      (λ _. pos 0) (omega arith) refl
