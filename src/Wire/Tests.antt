-- ===== src/Wire/Tests.antt =====
-- The wire format on concrete bytes.
use nextendo_demonware.Common.{ℕ, ◌≡◌, List, [], ◌∷◌, ◌++◌, some, arith, length}
use nextendo_demonware.Wire.Varint.{append_varint, read_varint, read_varint-append_varint}

abbrev hi : List ℕ
hi = 104 ∷ 105 ∷ []

read_varint-append_varint_example :
    read_varint (append_varint hi 300 ++ 7 ∷ []) 2 ≡ some (300, length (append_varint hi 300))
read_varint-append_varint_example = read_varint-append_varint hi (7 ∷ []) 300 (omega arith)
