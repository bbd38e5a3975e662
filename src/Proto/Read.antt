-- ===== src/Proto/Read.antt =====
-- economyProto (ctr_rewards.go): the fields of a message, read one after the other. `fuel` bounds the
-- rounds of the loop.
use nextendo_demonware.Common.{
  [], ℕ, zero, suc, ◌+◌, ◌-◌, ◌/◌, ◌%◌, ◌^◌, true, false, List, ◌∷◌, ◌++◌, Option, none, some,
  length, take, drop, ltb, ◌==◌, if◌then◌else◌,
}
use nextendo_demonware.Common.{not, ◌||◌, get_or}
use nextendo_demonware.Common.Bytes.{get_le}
use nextendo_demonware.Wire.Tags.{tag_struct, tag_u32}
use nextendo_demonware.Proto.Outcome.{Outcome, done, failed, unfinished}
use nextendo_demonware.Wire.Varint.{read_varint}

-- economyProtoField; `content` is its `data`.
pub record Field : Type 0 where
  pub number : ℕ
  pub wire : ℕ
  pub value : ℕ
  pub content : List ℕ

-- The two kinds of payload behind a tag that ends at i, with the offset behind each.
unfoldable pub varint_payload : List ℕ → ℕ → ℕ → Option (Field × ℕ)
varint_payload b i number = elim (read_varint b i) [
  | none ↦ none
  | some (v, next) ↦ some (record { number = number; wire = 0; value = v; content = [] }, next)
]

unfoldable pub bytes_payload : List ℕ → ℕ → ℕ → Option (Field × ℕ)
bytes_payload b i number = elim (read_varint b i) [
  | none ↦ none
  | some (n, next) ↦
      if ltb (length b - next) n
      then none
      else some (
        record { number = number; wire = 2; value = 0; content = take n (drop next b) },
        next + n,
      )
]

-- One round: the field at offset i, and the offset behind it.
unfoldable pub proto_field : List ℕ → ℕ → Option (Field × ℕ)
proto_field b i = elim (read_varint b i) [
  | none ↦ none
  | some (tag, next) ↦
      if tag / 8 == 0
      then none
      else if tag % 8 == 0
      then varint_payload b next (tag / 8)
      else if tag % 8 == 2
      then bytes_payload b next (tag / 8)
      else none
]

unfoldable pub proto_loop : ℕ → List ℕ → ℕ → List Field → Outcome (List Field)
proto_loop zero b i out = unfinished
proto_loop (suc fuel) b i out = elim (ltb i (length b)) [
  | false ↦ done out
  | true ↦ (elim (proto_field b i) [
    | none ↦ failed
    | some (f, next) ↦ (elim (ltb 4096 (length (out ++ f ∷ []))) [
      | true ↦ failed
      | false ↦ proto_loop fuel b next (out ++ f ∷ [])
    ])
  ])
]

unfoldable pub economy_proto : List ℕ → Outcome (List Field)
economy_proto b = if ltb (2 ^ 20) (length b) then failed else proto_loop (suc (length b)) b 0 []

-- structPayload (ctr_marketplace.go): the struct behind the service, the task's tag and the task.
unfoldable pub struct_payload : List ℕ → Option (List ℕ)
struct_payload payload =
    let n = get_le (take 4 (drop 5 payload)) in
    if ltb (length payload) 9
      || not (get_or payload 3 0 == tag_struct)
      || not (get_or payload 4 0 == tag_u32)
    then none
    else if ltb (length payload) (9 + n)
    then none
    else some (take n (drop 9 payload))
