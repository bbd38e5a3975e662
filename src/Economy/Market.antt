-- ===== src/Economy/Market.antt =====
-- onMarketplace (ctr_marketplace.go), the shop's tasks. `loaded` is what `economy.load` returns: an
-- account, and its balances in the currencies other than Wumpa Coins. `fuel` bounds the scan of a
-- balances request, `transaction` is the reply's number.
use nextendo_demonware.Common.{
  [], ℕ, ◌%◌, ◌^◌, Bool, true, false, List, ◌∷◌, Option, none, some, ◌==◌, if◌then◌else◌, length,
}
use nextendo_demonware.Common.Int.{ℤ}
use nextendo_demonware.Common.Select.{contains}
use nextendo_demonware.Wire.Reader.{ok, err}
use nextendo_demonware.Wire.Reply.{task_reply, struct_task_reply}
use nextendo_demonware.Proto.Balances.{
  returned, panicked, unfinished, parse_balances_request, get_player_balances_response,
}
use nextendo_demonware.Economy.Account.{Account, Sku, purchase}
use nextendo_demonware.Economy.Inventory.{inventory_page}
use nextendo_demonware.Economy.Requests.{
  parse_purchase_skus, parse_inventory_request, write_inventory_item,
}

-- What comes of a task: a reply, nil, a panic, or no end within the fuel.
pub data Answer : Type 0 where
  replies : List ℕ → Answer
  unsupported panics hangs : Answer

abbrev pub Loaded : Type 0
Loaded = Option (Account × (ℕ → ℤ))

abbrev err_unhandled : ℕ
err_unhandled = 1

abbrev pub refusal : ℕ → ℕ → Answer
refusal transaction task = replies (task_reply transaction task err_unhandled (0, []))

abbrev pub task_balances : ℕ
task_balances = 245

abbrev pub task_reconciliation : ℕ
task_reconciliation = 246

abbrev pub task_inventory : ℕ
task_inventory = 165

abbrev pub task_purchase : ℕ
task_purchase = 154

-- `a.Balances`.
unfoldable pub balance_of : Account → (ℕ → ℤ) → ℕ → ℤ
balance_of a others id = if id == 10 then a.coins else others id

-- The keys of the map of items, each once.
unfoldable pub distinct_items : List ℕ → List ℕ
distinct_items [] = []
distinct_items (x ∷ xs) = let rest = distinct_items xs in if contains x xs then rest else x ∷ rest

unfoldable pub on_balances : ℕ → ℕ → List ℕ → Loaded → Answer
on_balances fuel transaction payload loaded = elim (parse_balances_request fuel payload) [
  | unfinished ↦ hangs
  | panicked ↦ panics
  | returned ctx max ↦ (elim loaded [
    | none ↦ refusal transaction task_balances
    | some (a, others) ↦ replies (
        struct_task_reply transaction task_balances
          (get_player_balances_response (balance_of a others) max))
  ])
]

unfoldable pub write_items : List ℕ → ℕ → List ℕ → List ℕ
write_items w pid [] = w
write_items w pid (item ∷ items) = write_items (write_inventory_item w pid item) pid items

unfoldable pub on_inventory : ℕ → ℕ → List ℕ → Loaded → Answer
on_inventory transaction pid payload loaded =
    elim ((parse_inventory_request (record { b = payload; off = 3 })).0) [
      | err _ ↦ refusal transaction task_inventory
      | ok (page, size) ↦ (elim loaded [
        | none ↦ refusal transaction task_inventory
        | some (a, _) ↦
            let items = inventory_page (distinct_items a.items) page size in
            replies (
              task_reply transaction task_inventory 0
                (length items % 2 ^ 32, write_items [] pid items))
      ])
    ]

-- The reply to a purchase, the account afterwards, and whether the balance is pushed after the reply.
abbrev pub Bought : Type 0
Bought = Answer × Loaded × Bool

abbrev pub paid : ℕ → (ℕ → ℤ) → Account × Option ℤ → Bought
paid transaction others (a', none) = (refusal transaction task_purchase, some (a', others), false)
paid transaction others (a', some total) =
    (replies (task_reply transaction task_purchase 0 (0, [])), some (a', others), true)

unfoldable pub on_purchase : (ℕ → Option Sku) → Bool → ℕ → List ℕ → Loaded → Bought
on_purchase catalog saves transaction payload loaded =
    elim ((parse_purchase_skus (record { b = payload; off = 3 })).0) [
      | err _ ↦ (refusal transaction task_purchase, loaded, false)
      | ok skus ↦ (elim loaded [
        | none ↦ (refusal transaction task_purchase, none, false)
        | some (a, others) ↦ paid transaction others (purchase catalog saves skus a)
      ])
    ]

unfoldable pub on_marketplace : (ℕ → Option Sku) → Bool → ℕ → ℕ → ℕ → ℕ → List ℕ → Loaded → Bought
on_marketplace catalog saves fuel transaction pid task payload loaded =
    if task == task_balances
    then (on_balances fuel transaction payload loaded, loaded, false)
    else if task == task_reconciliation
    then (replies (struct_task_reply transaction task []), loaded, false)
    else if task == task_inventory
    then (on_inventory transaction pid payload loaded, loaded, false)
    else if task == task_purchase
    then on_purchase catalog saves transaction payload loaded
    else (unsupported, loaded, false)
