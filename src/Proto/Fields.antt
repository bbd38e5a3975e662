-- ===== src/Proto/Fields.antt =====
-- The fields of a message as they are written (ctr_marketplace.go). Field numbers are bytes.
use nextendo_demonware.Common.{
  [], ℕ, ◌+◌, ◌-◌, ◌*◌, ◌%◌, ◌^◌, List, ◌∷◌, ◌++◌, length, if◌then◌else◌,
}
use nextendo_demonware.Common.Int.{ℤ, pos, ltb_ℤ}
use nextendo_demonware.Stats.Types.{bits_of}
use nextendo_demonware.Wire.Varint.{append_varint}

unfoldable pub pb_varint_field : List ℕ → ℕ → ℕ → List ℕ
pb_varint_field b field v = append_varint (b ++ (field * 8 % 256) ∷ []) v

-- `field<<3|2`: the low three bits of the first are clear, so that the bits are added.
unfoldable pub pb_bytes_field : List ℕ → ℕ → List ℕ → List ℕ
pb_bytes_field b field p = append_varint (b ++ (field * 8 % 256 + 2) ∷ []) (length p) ++ p

-- `v<<1 ^ v>>63`, of an int64: `v>>63` is 0 or has every bit, and `^` with the latter complements.
unfoldable pub zigzag : ℤ → ℕ
zigzag v =
    let doubled = 2 * bits_of v % 2 ^ 64 in
    if ltb_ℤ v (pos 0) then 2 ^ 64 - 1 - doubled else doubled

-- One currency of the balances, and those of a list of currencies, in order.
unfoldable pub balance_entry : ℕ → ℤ → List ℕ
balance_entry id amount =
    pb_varint_field (pb_varint_field (pb_varint_field [] 1 id) 2 (zigzag amount)) 3 0

unfoldable pub balance_entries : (ℕ → ℤ) → List ℕ → List ℕ → List ℕ
balance_entries w out [] = out
balance_entries w out (id ∷ ids) =
    balance_entries w (pb_bytes_field out 1 (balance_entry id (w id))) ids

abbrev pub currency_ids : List ℕ
currency_ids = 10 ∷ 11 ∷ 12 ∷ []
