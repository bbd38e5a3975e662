-- ===== src/Proto/Replied.antt =====
-- What a reader of the balances reply sees (ctr_marketplace.go).
use nextendo_demonware.Common.{
  [], ℕ, zero, suc, ◌+◌, ◌*◌, ◌^◌, ◌≤◌, ◌<◌, ◌≡◌, refl, ap, ◌∙◌, List, ◌∷◌, map, length, take,
  arith, All, length-take, if◌then◌else◌,
}
use nextendo_demonware.Common.Int.{ℤ, pos, ltb_ℤ, pos_part}
use nextendo_demonware.Stats.Types.{IsInt64}
use nextendo_demonware.Proto.Outcome.{done}
use nextendo_demonware.Proto.Fields.{
  zigzag, balance_entry, balance_entries, currency_ids, pb_varint_field, pb_bytes_field,
}
use nextendo_demonware.Proto.Read.{economy_proto}
use nextendo_demonware.Proto.Written.{
  Part, number_part, bytes_part, field_of, write_parts, IsWritable, economy_proto-write_parts,
  length-pb_varint_field, length-pb_bytes_field,
}
use nextendo_demonware.Proto.Balances.{get_player_balances_response}
use nextendo_demonware.Proto.Amounts.{zigzag_lem}

-- The fields of one currency.
abbrev pub currency_parts : (ℕ → ℤ) → ℕ → List Part
currency_parts w id = number_part 1 id ∷ number_part 2 (zigzag (w id)) ∷ number_part 3 0 ∷ []

abbrev pub reply_parts : (ℕ → ℤ) → List ℕ → List Part
reply_parts w [] = []
reply_parts w (id ∷ ids) = bytes_part 1 (balance_entry id (w id)) ∷ reply_parts w ids

length-balance_entry : (id : ℕ) (v : ℤ) → id < 2 ^ 64 → IsInt64 v → length (balance_entry id v) ≤ 33
unfolding balance_entry
length-balance_entry id v h k =
    let b1 : List ℕ = pb_varint_field [] 1 id in
    let b2 : List ℕ = pb_varint_field b1 2 (zigzag v) in
    let (_, small) = zigzag_lem v k in
    omega (
      arith,
      length-pb_varint_field [] 1 id h,
      length-pb_varint_field b1 2 (zigzag v) small,
      length-pb_varint_field b2 3 0 (omega arith),
    )

-- The fields of a currency of the reply are its id, the zigzag of its balance, and 0.
balance_entry_lem :
    (w : ℕ → ℤ) (id : ℕ)
    → id < 2 ^ 64
    → IsInt64 (w id)
    → economy_proto (balance_entry id (w id)) ≡ done (map field_of (currency_parts w id))
unfolding balance_entry
balance_entry_lem w id h k =
    let (_, small) = zigzag_lem (w id) k in
    let n = length-balance_entry id (w id) h k in
    economy_proto-write_parts (currency_parts w id)
      ((omega arith, omega arith, h), ((omega arith, omega arith, small), omega arith))
      (omega arith) (unfold balance_entry in omega (arith, n))

balance_entries-reply_parts :
    (w : ℕ → ℤ) (out ids : List ℕ) → balance_entries w out ids ≡ write_parts out (reply_parts w ids)
unfolding balance_entries
balance_entries-reply_parts w out [] = refl
balance_entries-reply_parts w out (id ∷ ids) =
    balance_entries-reply_parts w (pb_bytes_field out 1 (balance_entry id (w id))) ids

abbrev IsFine : (ℕ → ℤ) → ℕ → Type 0
IsFine w id = (id < 2 ^ 64) × IsInt64 (w id)

reply_parts-IsWritable :
    (w : ℕ → ℤ) (ids : List ℕ) → All (IsFine w) ids → All IsWritable (reply_parts w ids)
reply_parts-IsWritable w [] h = tt
reply_parts-IsWritable w (id ∷ ids) ((h, k), hs) = (
  (omega arith, omega arith, omega (arith, length-balance_entry id (w id) h k)),
  reply_parts-IsWritable w ids hs,
)

length-write_parts_le :
    (w : ℕ → ℤ) (out ids : List ℕ)
    → All (IsFine w) ids
    → length (write_parts out (reply_parts w ids)) ≤ length out + 44 * length ids
length-write_parts_le w out [] h = omega arith
length-write_parts_le w out (id ∷ ids) ((h, k), hs) =
    let e : List ℕ = balance_entry id (w id) in
    let n = length-balance_entry id (w id) h k in
    omega (
      arith,
      n,
      length-pb_bytes_field out 1 e (omega (arith, n)),
      length-write_parts_le w (pb_bytes_field out 1 e) ids hs,
    )

length-reply_parts : (w : ℕ → ℤ) (ids : List ℕ) → length (reply_parts w ids) ≡ length ids
length-reply_parts w [] = refl
length-reply_parts w (id ∷ ids) = ap suc (length-reply_parts w ids)

-- What `max` asks for.
abbrev pub asked : ℤ → ℕ
asked max = if ltb_ℤ (pos 0) max then (if ltb_ℤ (pos 3) max then 3 else pos_part max) else 3

take-IsFine : (w : ℕ → ℤ) (n : ℕ) (ids : List ℕ) → All (IsFine w) ids → All (IsFine w) (take n ids)
take-IsFine w zero ids h = tt
take-IsFine w (suc n) [] h = tt
take-IsFine w (suc n) (id ∷ ids) (h, hs) = (h, take-IsFine w n ids hs)

-- Of the balances reply, economyProto reads one field for each of the first currencies, as many as are
-- asked for, or all three where that number is not 1, 2 or 3; of each field, that currency's id and the
-- zigzag of its balance.
pub get_player_balances_response_lem :
    (w : ℕ → ℤ) (max : ℤ)
    → ((id : ℕ) → IsInt64 (w id))
    → let ids = take (asked max) currency_ids in
      (economy_proto (get_player_balances_response w max) ≡ done (map field_of (reply_parts w ids)))
      × All
          (λ id.
            economy_proto (balance_entry id (w id)) ≡ done (map field_of (currency_parts w id)))
          ids
unfolding get_player_balances_response
get_player_balances_response_lem w max h =
    let ids : List ℕ = take (asked max) currency_ids in
    let fine : All (IsFine w) ids =
      take-IsFine w (asked max) currency_ids
        ((omega arith, h 10), ((omega arith, h 11), ((omega arith, h 12), tt))) in
    let few : length ids ≤ 3 = omega (arith, length-take (asked max) currency_ids) in
    (
      ap economy_proto (balance_entries-reply_parts w [] ids)
          ∙ economy_proto-write_parts (reply_parts w ids) (reply_parts-IsWritable w ids fine)
              (omega (arith, length-reply_parts w ids))
              (omega (arith, length-write_parts_le w [] ids fine)),
      each ids fine,
    )
  where
    each :
        (ids : List ℕ)
        → All (IsFine w) ids
        → All
            (λ id.
              economy_proto (balance_entry id (w id)) ≡ done (map field_of (currency_parts w id)))
            ids
    each [] k = tt
    each (id ∷ ids) ((k, m), ks) = (balance_entry_lem w id k m, each ids ks)
