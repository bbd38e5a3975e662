-- ===== src/Nat/Discovery.antt =====
-- What the answers to NAT packets say (nat.go).
use nextendo_demonware.Common.{
  ℕ, ◌≤◌, ◌<◌, ◌≡◌, ◌^◌, ◌≢◌, List, [], ◌∷◌, some, length, take, drop, arith, Option-cases, inl,
  inr,
}
use nextendo_demonware.Common.Bytes.{put_le, get_le, get_le-put_le}
use nextendo_demonware.Relay.Address.{Endpoint, parse_slot}
use nextendo_demonware.Nat.Reply.{introduce, discover, answer}

introduce-some :
    (rest out : List ℕ) (to : Endpoint)
    → introduce (0x0A ∷ rest) ≡ some (to, out)
    → (out ≡ 0x0B ∷ rest) × (parse_slot (take 6 (drop 22 rest)) ≡ some to)
unfolding introduce
introduce-some rest out to e = elim (Option-cases (parse_slot (take 6 (drop 22 rest)))) [
  | inl n ↦ absurd (ground (arith, e, n))
  | inr (x, y) ↦ (ground (arith, e, y), ground (arith, e, y))
]

-- A request to be introduced is passed on byte for byte but for its type, and to the destination
-- that it names.
answer-introduces :
    (server from to : Endpoint) (rest out : List ℕ)
    → length rest ≡ 28
    → answer server from (0x0A ∷ rest) ≡ some (to, out)
    → (out ≡ 0x0B ∷ rest) × (parse_slot (take 6 (drop 22 rest)) ≡ some to)
unfolding answer
answer-introduces server from to rest out n e = introduce-some rest out to (ground (arith, n, e))

-- A sender who asks for the own address is told it: the answer goes to the sender, and behind its
-- three bytes of header that address is read back, if it does not begin with 0 and has a port.
pub answer-discovers :
    (server : Endpoint) (a b c d port : ℕ) (rest : List ℕ)
    → 2 ≤ length rest
    → a ≢ 0
    → 0 < port
    → port < 2 ^ 16
    → let from : Endpoint = record { ip = a ∷ b ∷ c ∷ d ∷ []; port = port } in
      (out : List ℕ) × (answer server from (30 ∷ rest) ≡ some (from, out))
      × (parse_slot (drop 3 out) ≡ some from)
unfolding answer discover
answer-discovers server a b c d port rest n first some_port small =
    (31 ∷ 2 ∷ 0 ∷ a ∷ b ∷ c ∷ d ∷ put_le 2 port, ground (arith, n), read_back)
  where
    word : get_le (put_le 2 port) ≡ port
    word = get_le-put_le 2 port small

    read_back :
        parse_slot (a ∷ b ∷ c ∷ d ∷ put_le 2 port)
        ≡ some (record { ip = a ∷ b ∷ c ∷ d ∷ []; port = port })
    read_back = unfold put_le in unfold parse_slot in ground (arith, word)
