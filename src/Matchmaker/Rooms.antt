-- ===== src/Matchmaker/Rooms.antt =====
-- The store of rooms, and the methods of ctrRoom (ctr_async.go).
use nextendo_demonware.Common.{
  [], ℕ, zero, suc, ◌+◌, ◌%◌, ◌^◌, Bool, true, false, not, ◌&&◌, List, ◌∷◌, ◌++◌, Option, none,
  some, ◌==◌, min, if◌then◌else◌, length,
}
use nextendo_demonware.Common.Select.{keep, sum_by}
use nextendo_demonware.Matchmaker.Types.{
  Search, HostDoc, Room, Matchmaker, BackendDoc, Event, join_lobby, create_lobby, update_lobby,
  merge_lobby, Notice,
}

-- m.rooms[id], if it is there.
unfoldable pub room_at : Matchmaker → ℕ → Option Room
room_at m id = elim (m.cell id) [ none ↦ none | some r ↦ if r.listed then some r else none ]

unfoldable pub is_listed : Matchmaker → ℕ → Bool
unfolding room_at
is_listed m id = elim (room_at m id) [ none ↦ false | some r ↦ true ]

-- The room with that id changes in place.
unfoldable pub put_room : Matchmaker → Room → Matchmaker
put_room m r = record m { cell = λ i. if i == r.id then some r else m.cell i }

unfoldable pub visit : (Room → Room) → Option Room → Option Room
visit f none = none
visit f (some r) = some (if r.listed then f r else r)

-- `for _, r := range m.rooms`, where each round changes its own room at most.
unfoldable pub map_rooms : (Room → Room) → Matchmaker → Matchmaker
unfolding visit
map_rooms f m = record m { cell = λ i. visit f (m.cell i) }

-- states[pid], 0 where it is missing.
unfoldable pub state_of : ℕ → List (ℕ × ℕ) → ℕ
state_of pid [] = 0
state_of pid ((p, v) ∷ rest) = if p == pid then v else state_of pid rest

unfoldable pub delete_state : ℕ → List (ℕ × ℕ) → List (ℕ × ℕ)
delete_state pid [] = []
delete_state pid ((p, v) ∷ rest) =
    let others = delete_state pid rest in if p == pid then others else (p, v) ∷ others

unfoldable pub delete_states : List ℕ → List (ℕ × ℕ) → List (ℕ × ℕ)
unfolding delete_state
delete_states [] states = states
delete_states (pid ∷ pids) states = delete_states pids (delete_state pid states)

-- ctrRoom.state.
unfoldable pub doc_state : HostDoc → ℕ → ℕ
unfolding state_of
doc_state d pid = elim d.states [ none ↦ 0 | some states ↦ state_of pid states ]

-- The states of those players are forgotten, if the document has any.
unfoldable pub forget : List ℕ → HostDoc → HostDoc
unfolding delete_states
forget pids d = record d {
  states = elim d.states [ none ↦ none | some s ↦ some (delete_states pids s) ];
}

-- ctrRoom.failed: state 3, but never the host.
unfoldable pub failed : Room → ℕ → Bool
unfolding doc_state
failed r pid = not (pid == r.host.pid) && doc_state r.doc pid == 3

unfoldable pub count : (ℕ → Bool) → List Search → ℕ
count p ss = sum_by (λ s. length (keep p s.members)) ss

-- ctrRoom.occupancy. The rounds bound the chain of merge sources; one more than there are rooms is
-- given, and no room that is listed has a chain of more than one.
unfoldable pub occupancy_loop : ℕ → Matchmaker → Room → ℕ
unfolding failed count
occupancy_loop zero m r = 0
occupancy_loop (suc rounds) m r =
    let own = count (λ pid. not (failed r pid)) r.players in
    elim r.source [
      | none ↦ own
      | some s ↦ (elim (m.cell s) [ none ↦ own | some src ↦ own + occupancy_loop rounds m src ])
    ]

unfoldable pub occupancy : Matchmaker → Room → ℕ
unfolding occupancy_loop
occupancy m r = occupancy_loop (suc (suc (length m.ids))) m r

-- ctrRoom.connected.
unfoldable pub connected : Room → ℕ
unfolding doc_state count
connected r = count (λ pid. doc_state r.doc pid == 2) r.players

-- Who is expected: the members that have not failed in the room, of the merge source's players too.
-- The source lists each pid once, as a key of a map.
unfoldable pub expected : Room → List Search → List ℕ
unfolding failed
expected r [] = []
expected r (p ∷ ps) = keep (λ pid. not (failed r pid)) p.members ++ expected r ps

-- ctrRoom.documents.
unfoldable pub documents : Matchmaker → Room → HostDoc × BackendDoc
unfolding expected
documents m r =
    let guests : List Search = elim r.source [
      | none ↦ []
      | some s ↦ (elim (m.cell s) [ none ↦ [] | some src ↦ src.players ])
    ] in
    (
      r.doc,
      record {
        update_id = r.version;
        lobby_id = r.id;
        create_time = r.created;
        expected = expected r (r.players ++ guests);
        host = r.host;
      },
    )

unfoldable notice_ids : Room → Search → Event → List ℕ
notice_ids r p create_lobby = p.id ∷ r.id ∷ r.version ∷ []
notice_ids r p update_lobby = r.id ∷ r.version ∷ []
notice_ids r p join_lobby = p.id ∷ r.id ∷ []
notice_ids r p merge_lobby = p.id ∷ r.id ∷ []

-- ctrRoom.notice.
unfoldable pub notice : Matchmaker → Room → Search → Event → Notice
unfolding notice_ids documents
notice m r p event = record {
  conn = p.conn;
  event = event;
  ids = notice_ids r p event;
  docs = documents m r;
}

-- `r.version++`, of a uint64, and `r.hostDoc["update_id"] = r.version`.
unfoldable pub bump : Room → Room
bump r =
    let v = (r.version + 1) % 2 ^ 64 in
    record r { version = v; doc = record r.doc { update_id = v } }

-- A search gets its seats. A retry must not inherit a failed state.
unfoldable pub seat : Search → Room → Room
unfolding forget
seat p r = record r {
  doc = forget p.members r.doc;
  players = r.players ++ p ∷ [];
  capacity = min r.capacity p.slots_max;
}
