-- ===== src/Proto/Tests.antt =====
-- Messages of two fields.
use nextendo_demonware.Common.{[], ℕ, ◌-◌, ◌^◌, ◌<◌, ◌≡◌, List, ◌∷◌, map, arith, length}
use nextendo_demonware.Common.Int.{ℤ, pos, negsuc}
use nextendo_demonware.Proto.Outcome.{done, Ends}
use nextendo_demonware.Proto.Fields.{zigzag, pb_bytes_field}
use nextendo_demonware.Proto.Read.{economy_proto}
use nextendo_demonware.Proto.Written.{
  Part, number_part, bytes_part, field_of, write_parts, economy_proto-write_parts,
  length-pb_varint_field, length-pb_bytes_field,
}
use nextendo_demonware.Proto.Ends.{economy_proto-Ends}
use nextendo_demonware.Proto.Events.{parse_reward_events}
use nextendo_demonware.Proto.Reports.{parse_reward_events-Ends}
use nextendo_demonware.Proto.Balances.{returned, panicked, unfinished, parse_balances_request}
use nextendo_demonware.Proto.Requests.{field_of_length}
use nextendo_demonware.Proto.Asked.{
  task_payload, balances_request, parse_balances_request-balances_request,
  parse_balances_request-long,
}
use nextendo_demonware.Proto.Amounts.{unzigzag, zigzag_lem}
use nextendo_demonware.Common.{take, All}
use nextendo_demonware.Proto.Fields.{balance_entry, currency_ids}
use nextendo_demonware.Proto.Balances.{get_player_balances_response}
use nextendo_demonware.Proto.Replied.{
  currency_parts, reply_parts, asked, get_player_balances_response_lem,
}
use nextendo_demonware.Proto.Names.{context_name}

abbrev two_parts : List Part
two_parts = bytes_part 1 (7 ∷ 8 ∷ []) ∷ number_part 2 300 ∷ []

economy_proto-write_parts_example :
    economy_proto (write_parts [] two_parts) ≡ done (map field_of two_parts)
economy_proto-write_parts_example =
    economy_proto-write_parts two_parts (omega arith) (omega arith) (
      omega (
        arith,
        length-pb_bytes_field [] 1 (7 ∷ 8 ∷ []) (omega arith),
        length-pb_varint_field (pb_bytes_field [] 1 (7 ∷ 8 ∷ [])) 2 300 (omega arith),
      ))

economy_proto-Ends_example : Ends (economy_proto (26 ∷ 255 ∷ []))
economy_proto-Ends_example = economy_proto-Ends (26 ∷ 255 ∷ [])

parse_reward_events-Ends_example : Ends (parse_reward_events (125 ∷ 3 ∷ 1 ∷ []))
parse_reward_events-Ends_example = parse_reward_events-Ends (125 ∷ 3 ∷ 1 ∷ [])

zigzag_lem_example : (unzigzag (zigzag (negsuc 4)) ≡ negsuc 4) × (zigzag (negsuc 4) < 2 ^ 64)
zigzag_lem_example = zigzag_lem (negsuc 4) (omega arith)

request_fits : length (balances_request context_name 3) < 2 ^ 31
request_fits = omega (
  arith,
  length-pb_bytes_field [] 1 context_name (omega arith),
  length-pb_varint_field (pb_bytes_field [] 1 context_name) 2 3 (omega arith),
)

parse_balances_request-balances_request_example :
    parse_balances_request 3 (task_payload 80 245 (balances_request context_name 3))
    ≡ returned context_name (pos 3)
parse_balances_request-balances_request_example =
    parse_balances_request-balances_request 3 80 245 context_name 3 (omega arith) (omega arith)
      request_fits

parse_balances_request-long_example :
    (parse_balances_request 1000 (task_payload 80 245 (field_of_length 3 (2 ^ 64 - 11) []))
      ≡ unfinished)
    × (parse_balances_request 1001 (task_payload 80 245 (field_of_length 1 (2 ^ 63) [])) ≡ panicked)
parse_balances_request-long_example =
    parse_balances_request-long 1000 80 245 3 (2 ^ 63) [] (omega arith) (omega arith) (omega arith)
      (omega arith) (omega arith)

get_player_balances_response_lem_example :
    let w : ℕ → ℤ = λ _. pos 10000 in
    let ids = take (asked (pos 2)) currency_ids in
    (economy_proto (get_player_balances_response w (pos 2))
      ≡ done (map field_of (reply_parts w ids)))
    × All
        (λ id. economy_proto (balance_entry id (w id)) ≡ done (map field_of (currency_parts w id)))
        ids
get_player_balances_response_lem_example =
    get_player_balances_response_lem (λ _. pos 10000) (pos 2) (λ id. omega arith)
