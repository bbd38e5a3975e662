-- ===== src/Nat/Reply.antt =====
-- One packet of serveNAT (nat.go): what is sent, and where to. `server` is the announced address.
use nextendo_demonware.Common.{
  ℕ, ◌&&◌, ◌||◌, List, [], ◌∷◌, ◌++◌, Option, none, some, ltb, ◌==◌, if◌then◌else◌, length, take,
  drop,
}
use nextendo_demonware.Common.Bytes.{put_le}
use nextendo_demonware.Relay.Address.{Endpoint, parse_slot}

-- The request goes on to the address that it names, with another type and nothing else changed. An
-- address is refused for the reasons for which a slot of a bdCommonAddr is free.
unfoldable pub introduce : List ℕ → Option (Endpoint × List ℕ)
unfolding parse_slot
introduce buf = elim (parse_slot (take 6 (drop 23 buf))) [
  | none ↦ none
  | some to ↦ some (to, 0x0B ∷ drop 1 buf)
]

abbrev as_bytes : Endpoint → List ℕ
as_bytes e = e.ip ++ put_le 2 e.port

unfoldable pub discover : Endpoint → Endpoint → ℕ → Option (Endpoint × List ℕ)
unfolding put_le
discover server from kind =
    if kind == 30
    then some (from, 31 ∷ 2 ∷ 0 ∷ as_bytes from)
    else if kind == 20
    then some (from, 21 ∷ 2 ∷ 0 ∷ as_bytes from ++ as_bytes server)
    else none

unfoldable pub answer : Endpoint → Endpoint → List ℕ → Option (Endpoint × List ℕ)
unfolding introduce discover
answer server from [] = none
answer server from (kind ∷ rest) =
    if ltb (length (kind ∷ rest)) 3
    then none
    else if length (kind ∷ rest) == 29 && (kind == 0x0A || kind == 0x0E)
    then (if kind == 0x0E then none else introduce (kind ∷ rest))
    else discover server from kind
