-- ===== src/Sessions/Tests.antt =====
-- Two hosts and a guest.
use nextendo_demonware.Common.{ℕ, ◌≤◌, ◌≡◌, refl, List, [], ◌∷◌, All, length}
use nextendo_demonware.Common.Select.{bytes_eq}
use nextendo_demonware.Wire.Reader.{Reader}
use nextendo_demonware.Sessions.Types.{Session, Info}
use nextendo_demonware.Sessions.Store.{new_session, find_sessions}
use nextendo_demonware.Sessions.Handler.{on_match_making, delete_session}
use nextendo_demonware.Sessions.Isolation.{foreign, on_match_making-foreign}
use nextendo_demonware.Sessions.Listing.{Offered, find_sessions-Offered}

abbrev d3 : List ℕ
d3 = 100 ∷ 51 ∷ []

abbrev info : Info
info = record { host = 1 ∷ []; game_type = 2; max_players = 4; attrs = [] }

abbrev id_of : ℕ → List ℕ
id_of n = n ∷ 0 ∷ 0 ∷ 0 ∷ 0 ∷ 0 ∷ 0 ∷ 0 ∷ []

abbrev games : List Session
games = new_session 1 101 d3 (id_of 1) 5 info ∷ new_session 2 102 d3 (id_of 2) 6 info ∷ []

-- A request to delete the game of the other host.
abbrev request : Reader
request = record { b = 0x13 ∷ 0x08 ∷ 8 ∷ 0 ∷ 0 ∷ 0 ∷ id_of 2; off = 0 }

on_match_making-foreign_example :
    foreign 1 101 (on_match_making 1 101 d3 (id_of 3) 7 request games delete_session).0
    ≡ foreign 1 101 games
unfolding bytes_eq
on_match_making-foreign_example =
    on_match_making-foreign 1 101 d3 (id_of 3) 7 request games refl delete_session

find_sessions-Offered_example :
    All (Offered 1 101 d3) (find_sessions 1 101 d3 0 10 games)
    × (length (find_sessions 1 101 d3 0 10 games) ≤ 50)
find_sessions-Offered_example = find_sessions-Offered 1 101 0 10 d3 games
