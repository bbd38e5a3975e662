-- ===== src/Proto/Balances.antt =====
-- parseBalancesRequest and getPlayerBalancesResponse (ctr_marketplace.go). Offsets are ints: a sum of
-- ints wraps, and an index or a slice that is out of range panics. `fuel` bounds the rounds of the loop.
use nextendo_demonware.Common.{
  [], ℕ, zero, suc, ◌+◌, ◌-◌, ◌/◌, ◌%◌, true, false, List, Option, none, some, length, take, drop,
  get_or, ltb, ◌==◌, if◌then◌else◌, ◌||◌,
}
use nextendo_demonware.Common.Int.{ℤ, pos, negsuc, ltb_ℤ, ◌+ℤ◌, pos_part}
use nextendo_demonware.Stats.Types.{int64_of, wrap_int64}
use nextendo_demonware.Wire.Varint.{read_varint}
use nextendo_demonware.Proto.Fields.{balance_entries, currency_ids}
use nextendo_demonware.Proto.Read.{struct_payload}

-- How the scan of a request ends: with the context and the number asked for, in a panic, or not within
-- the fuel.
pub data Scan : Type 0 where
  returned : List ℕ → ℤ → Scan
  panicked : Scan
  unfinished : Scan

-- `next+int(ln)`.
unfoldable pub end_of : ℕ → ℕ → ℤ
end_of next ln = wrap_int64 (pos next +ℤ int64_of ln)

-- The slice from `next` to `stop`, which is not behind the end of the bytes.
unfoldable pub slice : List ℕ → ℕ → ℤ → Option (List ℕ)
slice sb next stop =
    if ltb_ℤ stop (pos next) then none else some (take (pos_part stop - next) (drop next sb))

unfoldable pub balances_loop : ℕ → List ℕ → ℤ → List ℕ → ℤ → Scan
balances_loop zero sb i ctx max = unfinished
balances_loop (suc fuel) sb (negsuc i) ctx max = panicked
balances_loop (suc fuel) sb (pos i) ctx max =
    let field = get_or sb i 0 / 8 in
    let wire = get_or sb i 0 % 8 in
    elim (ltb i (length sb)) [
      | false ↦ returned ctx max
      | true ↦ (elim (wire == 0 || wire == 2) [
        | false ↦ returned ctx max
        | true ↦ (elim (read_varint sb (i + 1)) [
          | none ↦ returned ctx max
          | some (v, next) ↦ (elim (wire == 0) [
            | true ↦ balances_loop fuel sb (pos next) ctx (if field == 2 then int64_of v else max)
            | false ↦ (elim (ltb_ℤ (pos (length sb)) (end_of next v)) [
              | true ↦ returned ctx max
              | false ↦ (elim (field == 1) [
                | false ↦ balances_loop fuel sb (end_of next v) ctx max
                | true ↦ (elim (slice sb next (end_of next v)) [
                  | none ↦ panicked
                  | some s ↦ balances_loop fuel sb (end_of next v) s max
                ])
              ])
            ])
          ])
        ])
      ])
    ]

unfoldable pub parse_balances_request : ℕ → List ℕ → Scan
parse_balances_request fuel payload = elim (struct_payload payload) [
  | none ↦ balances_loop fuel [] (pos 0) [] (pos 0)
  | some sb ↦ balances_loop fuel sb (pos 0) [] (pos 0)
]

-- The first `max` currencies, or all where `max` is not one of 1, …, their number.
unfoldable pub get_player_balances_response : (ℕ → ℤ) → ℤ → List ℕ
get_player_balances_response w max =
    let all = length currency_ids in
    let most =
      if ltb_ℤ (pos 0) max then (if ltb_ℤ (pos all) max then all else pos_part max) else all in
    balance_entries w [] (take most currency_ids)
