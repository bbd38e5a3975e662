-- ===== src/Sessions/Store.antt =====
-- The table of games (matchmaking.go): a list, in any order, with one game for each id.
use nextendo_demonware.Common.{
  ℕ, ◌+◌, Bool, true, false, not, ◌&&◌, ◌||◌, List, [], ◌∷◌, ◌++◌, ltb, ◌==◌, if◌then◌else◌, Option,
  none, some, map, take, drop,
}
use nextendo_demonware.Common.Select.{keep, bytes_eq}
use nextendo_demonware.Sessions.Types.{Session, Info, owns}

-- sessions[s.id] = s.
unfoldable pub put : Session → List Session → List Session
unfolding bytes_eq
put s ss = keep (λ (t : Session). not (bytes_eq t.id s.id)) ss ++ s ∷ []

-- sessions[id] is there, in the context, and the caller's.
unfoldable pub is_mine : ℕ → ℕ → List ℕ → List ℕ → Session → Bool
unfolding bytes_eq owns
is_mine conn pid context id s = bytes_eq s.id id && bytes_eq s.context context && owns conn pid s

abbrev pub reserved_session : ℕ → ℕ → List ℕ → List ℕ → ℕ → Session
reserved_session conn pid context id now = record {
  context = context;
  id = id;
  owner = conn;
  owner_pid = pid;
  orphaned = 0;
  host_addr = [];
  game_type = 0;
  max_players = 0;
  num_players = 0;
  attrs = [];
  updated = now;
  reserved = true;
}

-- An earlier reservation of the caller in the context goes.
unfoldable pub reserve : ℕ → ℕ → List ℕ → List ℕ → ℕ → List Session → List Session
unfolding put bytes_eq owns
reserve conn pid context id now ss = put (reserved_session conn pid context id now) (
    keep
      (λ (old : Session). not (old.reserved && bytes_eq old.context context && owns conn pid old))
      ss)

abbrev pub new_session : ℕ → ℕ → List ℕ → List ℕ → ℕ → Info → Session
new_session conn pid context id now i = record {
  context = context;
  id = id;
  owner = conn;
  owner_pid = pid;
  orphaned = 0;
  host_addr = i.host;
  game_type = i.game_type;
  max_players = i.max_players;
  num_players = 1;
  attrs = i.attrs;
  updated = now;
  reserved = false;
}

-- An account has one game in a context: creating it anew replaces the old one.
unfoldable pub create : ℕ → ℕ → List ℕ → List ℕ → ℕ → Info → List Session → List Session
unfolding put bytes_eq
create conn pid context id now i ss = put (new_session conn pid context id now i) (
    if pid == 0
    then ss
    else keep (λ (old : Session). not (old.owner_pid == pid && bytes_eq old.context context)) ss)

abbrev pub change : (Session → Bool) → (Session → Session) → List Session → List Session
change p f = map (λ s. if p s then f s else s)

-- Where `initial` holds the reservation becomes a game.
unfoldable pub updated_session : ℕ → ℕ → ℕ → Bool → Info → Session → Session
updated_session conn pid now initial i s = record s {
  owner = conn;
  owner_pid = pid;
  host_addr = i.host;
  game_type = i.game_type;
  max_players = i.max_players;
  attrs = i.attrs;
  updated = now;
  reserved = if initial then false else s.reserved;
  num_players = if initial then 1 else s.num_players;
}

-- The players are counted whether or not the rest of the request can be read.
unfoldable pub counted_session : ℕ → ℕ → ℕ → ℕ → Option Info → Session → Session
counted_session conn pid now players none s = record s {
  owner = conn;
  owner_pid = pid;
  num_players = players;
  updated = now;
}
counted_session conn pid now players (some i) s = record s {
  owner = conn;
  owner_pid = pid;
  num_players = players;
  host_addr = i.host;
  game_type = i.game_type;
  max_players = i.max_players;
  attrs = i.attrs;
  updated = now;
}

unfoldable pub delete : ℕ → ℕ → List ℕ → List ℕ → List Session → List Session
unfolding is_mine
delete conn pid context id ss = keep (λ s. not (is_mine conn pid context id s)) ss

-- Games of others, in the context, that are open.
unfoldable pub is_joinable : ℕ → ℕ → List ℕ → Session → Bool
unfolding owns bytes_eq
is_joinable conn pid context s =
    not (owns conn pid s) && bytes_eq s.context context && not s.reserved

abbrev pub page_size : ℕ → ℕ
page_size most = if most == 0 || ltb 50 most then 50 else most

unfoldable pub find_sessions : ℕ → ℕ → List ℕ → ℕ → ℕ → List Session → List Session
unfolding is_joinable
find_sessions conn pid context start most ss =
    take (page_size most) (drop start (keep (is_joinable conn pid context) ss))

-- dropSessionsOf: a closed connection's games wait for their account; those without one go.
abbrev orphan : ℕ → ℕ → Session → Session
orphan conn now s = if s.owner == conn then record s { owner = 0; orphaned = now } else s

unfoldable pub drop_sessions_of : ℕ → ℕ → List Session → List Session
drop_sessions_of conn now ss =
    map (orphan conn now) (keep (λ (s : Session). not (s.owner == conn && s.owner_pid == 0)) ss)

abbrev orphan_grace : ℕ
orphan_grace = 120

-- reapSessionsOnce.
unfoldable reap_sessions : ℕ → List Session → List Session
reap_sessions now ss =
    keep (λ (s : Session). not (s.owner == 0 && ltb (s.orphaned + orphan_grace) now)) ss
