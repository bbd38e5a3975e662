-- ===== src/Nat/Tests.antt =====
-- A probe and an introduction.
use nextendo_demonware.Common.{ℕ, ◌≡◌, List, [], ◌∷◌, ◌++◌, some, arith, drop, replicate}
use nextendo_demonware.Relay.Address.{Endpoint, parse_slot}
use nextendo_demonware.Nat.Reply.{answer}
use nextendo_demonware.Nat.Discovery.{answer-discovers}

abbrev here : Endpoint
here = record { ip = 10 ∷ 0 ∷ 0 ∷ 9 ∷ []; port = 3074 }

abbrev host : Endpoint
host = record { ip = 10 ∷ 0 ∷ 0 ∷ 1 ∷ []; port = 258 }

abbrev introduction : List ℕ
introduction = replicate 22 7 ++ 10 ∷ 0 ∷ 0 ∷ 1 ∷ 2 ∷ 1 ∷ []

answer-discovers_example :
    (out : List ℕ) × (answer here host (30 ∷ 3 ∷ 0 ∷ []) ≡ some (host, out))
    × (parse_slot (drop 3 out) ≡ some host)
answer-discovers_example =
    answer-discovers here 10 0 0 1 258 (3 ∷ 0 ∷ []) (omega arith) (ground arith) (omega arith)
      (omega arith)
