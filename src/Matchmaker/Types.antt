-- ===== src/Matchmaker/Types.antt =====
-- The matchmaker's data: ctr_async.go. A pointer to a room is the room's id, under which the store
-- keeps it, and a pointer to a search is the search's id, which the shared counter makes unique; a
-- connection is its number.
use nextendo_demonware.Common.{ℕ, Bool, List, Option}

-- Listen of ctrPlayerInfo: base64 texts, as bytes.
pub record Listen : Type 0 where
  pub address : List ℕ
  pub security_id : List ℕ
  pub security_key : List ℕ

-- ctrSearch, with the fields of its document that are read after parseCTRSearch.
pub record Search : Type 0 where
  pub conn : ℕ
  pub id : ℕ
  pub pid : ℕ
  pub members : List ℕ
  pub slots_min : ℕ
  pub slots_max : ℕ
  pub listen : Listen
  pub filter : List ℕ
  pub seats : ℕ

pub data Key : Type 0 where
  lobby_open lobby_open_for_pres_join player_state listen_server team_balance : Key
  ruleset_payload attachment : Key

-- The host document, a map[string]any, by what is read of it: the keys that it has, the Boolean
-- under "lobby_open" (false where that is no Boolean), and the object under "player_state" (absent
-- where that is no map[string]any). A state is the int64 of its json.Number; its key, the decimal
-- form of a pid, is that pid.
pub record HostDoc : Type 0 where
  pub has : Key → Bool
  pub is_open : Bool
  pub states : Option (List (ℕ × ℕ))
  pub update_id : ℕ
  pub update_time : ℕ

-- ctrRoom. `listed` is `m.rooms[r.id] == r`; `source` is mergeSource, and `target` is mergeTarget.
pub record Room : Type 0 where
  pub id : ℕ
  pub version : ℕ
  pub created : ℕ
  pub host : Search
  pub players : List Search
  pub doc : HostDoc
  pub capacity : ℕ
  pub notified : List ℕ
  pub source : Option ℕ
  pub target : ℕ
  pub listed : Bool

-- ctrMatchmaker, over a store of all the rooms that were ever made: a room that is deleted from
-- m.rooms stays reachable through the pointers to it. `ids` names the rooms, oldest first.
pub record Matchmaker : Type 0 where
  pub waiting : List Search
  pub cell : ℕ → Option Room
  pub ids : List ℕ

-- The backend document that documents() composes; the host's DTLS data and rules come from its search.
pub record BackendDoc : Type 0 where
  pub update_id : ℕ
  pub lobby_id : ℕ
  pub create_time : ℕ
  pub expected : List ℕ
  pub host : Search

pub data Event : Type 0 where
  join_lobby create_lobby update_lobby merge_lobby : Event

-- ctrNotice: the host document and the backend document travel together.
pub record Notice : Type 0 where
  pub conn : ℕ
  pub event : Event
  pub ids : List ℕ
  pub docs : HostDoc × BackendDoc
