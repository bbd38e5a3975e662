-- ===== src/Matchmaker/Leave.antt =====
-- cancel, leave and documents of ctr_async.go.
use nextendo_demonware.Common.{
  ℕ, Bool, true, false, not, ◌&&◌, Option, none, some, ◌==◌, if◌then◌else◌,
}
use nextendo_demonware.Common.Select.{keep, remove_first, any}
use nextendo_demonware.Matchmaker.Types.{Search, HostDoc, Room, Matchmaker, BackendDoc}
use nextendo_demonware.Matchmaker.Rooms.{room_at, map_rooms, documents}

unfoldable pub cancel : ℕ → ℕ → Matchmaker → Matchmaker × Bool
cancel conn id m =
    let mine = λ (p : Search). p.conn == conn && p.id == id in
    if any mine m.waiting
    then (record m { waiting = remove_first mine m.waiting }, true)
    else (m, false)

-- A room is gone when its host leaves, and otherwise loses the first player of the connection. An
-- id that is not 0 restricts this to one room.
unfoldable pub leave_room : ℕ → ℕ → Room → Room
leave_room conn id r =
    if not (id == 0) && not (r.id == id)
    then r
    else (if r.host.conn == conn
        then record r { listed = false }
        else record r { players = remove_first (λ p. p.conn == conn) r.players })

unfoldable pub leave : ℕ → ℕ → Matchmaker → Matchmaker
unfolding map_rooms leave_room
leave conn id m =
    map_rooms (leave_room conn id)
      (record m { waiting = keep (λ p. not (p.conn == conn)) m.waiting })

-- The documents of a room go to its players only.
unfoldable pub documents_for : ℕ → ℕ → Matchmaker → Option (HostDoc × BackendDoc)
unfolding room_at documents
documents_for conn id m = elim (room_at m id) [
  | none ↦ none
  | some r ↦ if any (λ p. p.conn == conn) r.players then some (documents m r) else none
]
