-- ===== src/Matchmaker/Enqueue.antt =====
-- enqueue of ctr_async.go: a search joins an open room, or waits until a group can make one.
use nextendo_demonware.Common.{
  [], ℕ, ◌+◌, min, max, Bool, true, false, not, ◌&&◌, ◌||◌, List, ◌∷◌, ◌++◌, Option, none, some,
  ltb, ◌==◌, if◌then◌else◌,
}
use nextendo_demonware.Common.Select.{keep, remove_first, sort_by, bytes_eq, find, any}
use nextendo_demonware.Matchmaker.Types.{
  Search, HostDoc, Room, Matchmaker, Notice, create_lobby, update_lobby,
}
use nextendo_demonware.Matchmaker.Rooms.{
  room_at, is_listed, put_room, map_rooms, seat, occupancy, notice, bump,
}

-- The first loop: earlier searches of the account leave the queue.
unfoldable pub drop_waiting : ℕ → List Search → List Search
drop_waiting pid = keep (λ p. not (p.pid == pid))

-- The connection of the first player with that pid is no longer notified.
unfoldable notified_without : ℕ → Room → List ℕ
notified_without pid r = elim (find (λ p. p.pid == pid) r.players) [
  | none ↦ r.notified
  | some p ↦ keep (λ c. not (c == p.conn)) r.notified
]

-- The second loop: a room of the account goes, and the account leaves the others.
unfoldable pub evict_room : ℕ → Room → Room
unfolding notified_without
evict_room pid r = if r.host.pid == pid then record r { listed = false } else (record r {
  players = remove_first (λ p. p.pid == pid) r.players;
  notified = notified_without pid r;
})

unfoldable pub evict : ℕ → Matchmaker → Matchmaker
unfolding drop_waiting map_rooms evict_room
evict pid m = map_rooms (evict_room pid) (record m { waiting = drop_waiting pid m.waiting })

unfoldable occupancy_at : Matchmaker → ℕ → ℕ
unfolding room_at occupancy
occupancy_at m i = elim (room_at m i) [ none ↦ 0 | some r ↦ occupancy m r ]

-- Fuller rooms first, then the older ones.
unfoldable pub fuller : Matchmaker → ℕ → ℕ → Bool
unfolding occupancy_at
fuller m i j =
    let a = occupancy_at m i in let b = occupancy_at m j in if a == b then ltb i j else ltb b a

unfoldable pub candidates : Matchmaker → List ℕ
unfolding fuller is_listed
candidates m = sort_by (fuller m) (keep (is_listed m) m.ids)

-- A merge into a room that is gone is off.
unfoldable pub clear_target : Matchmaker → Room → Room
unfolding is_listed
clear_target m r =
    if not (r.target == 0) && not (is_listed m r.target) then record r { target = 0 } else r

unfoldable pub is_merging : Room → Bool
is_merging r = not (r.target == 0) || (elim r.source [ none ↦ false | some s ↦ true ])

-- No case of the switch applies: the reason stays "selected".
unfoldable pub accepts : Matchmaker → Room → Search → Bool
unfolding is_merging occupancy bytes_eq
accepts m r s =
    not (is_merging r)
    && r.doc.is_open
    && bytes_eq r.host.filter s.filter
    && not (ltb r.capacity (occupancy m r + s.seats))
    && not (ltb s.slots_max (occupancy m r + s.seats))

-- What a room that is selected becomes.
unfoldable pub join_room : ℕ → Search → Room → Room
unfolding seat bump
join_room now s r =
    let r' = bump (seat s r) in record r' { doc = record r'.doc { update_time = now } }

-- The loop over the rooms, in order: those that are looked at have their target cleared.
unfoldable pub try_rooms : Matchmaker → Search → List ℕ → Matchmaker × Option Room
unfolding room_at put_room clear_target accepts
try_rooms m s [] = (m, none)
try_rooms m s (i ∷ is) = elim (room_at m i) [
  | none ↦ try_rooms m s is
  | some r ↦
      let r' = clear_target m r in
      let m' = put_room m r' in
      let others = try_rooms m' s is in if accepts m' r' s then (m', some r') else others
]

pub record Group : Type 0 where
  pub picked : List Search
  pub seats : ℕ
  pub minimum : ℕ
  pub maximum : ℕ

-- One round of the loop over the queue: a search with the same filter is picked if the limits agree.
unfoldable pub pick : List ℕ → Group → Search → Group
unfolding bytes_eq
pick filter g p =
    let next_min = max g.minimum p.slots_min in
    let next_max = min g.maximum p.slots_max in
    if not (bytes_eq p.filter filter) || (ltb next_max next_min || ltb next_max (g.seats + p.seats))
    then g
    else (record {
      picked = g.picked ++ p ∷ [];
      seats = g.seats + p.seats;
      minimum = next_min;
      maximum = next_max;
    })

unfoldable pub gather : List ℕ → Group → List Search → Group
unfolding pick
gather filter g [] = g
gather filter g (p ∷ ps) = gather filter (pick filter g p) ps

abbrev pub empty_group : Group
empty_group = record { picked = []; seats = 0; minimum = 2; maximum = 8 }

-- The document of a new room. Its player_state is a map[string]uint32, which the code that reads it
-- as a map[string]any does not see.
unfoldable new_doc : ℕ → HostDoc
new_doc now = record {
  has = λ k. true;
  is_open = true;
  states = none;
  update_id = 1;
  update_time = now;
}

unfoldable pub new_room : ℕ → ℕ → Search → Group → Room
unfolding new_doc
new_room room_id now h g = record {
  id = room_id;
  version = 1;
  created = now;
  host = h;
  players = g.picked;
  doc = new_doc now;
  capacity = g.maximum;
  notified = h.conn ∷ [];
  source = none;
  target = 0;
  listed = true;
}

unfoldable is_picked : Group → Search → Bool
is_picked g p = any (λ q. q.id == p.id) g.picked

-- A group that is large enough gets a room, whose host is its first search.
unfoldable pub form_with : ℕ → ℕ → Group → Matchmaker → List Search → Matchmaker × List Notice
unfolding put_room new_room is_picked notice
form_with room_id now g m [] = (m, [])
form_with room_id now g m (h ∷ _) =
    if ltb g.seats g.minimum
    then (m, [])
    else (let r = new_room room_id now h g in
        let m' = record (put_room m r) {
          waiting = keep (λ p. not (is_picked g p)) m.waiting;
          ids = m.ids ++ room_id ∷ [];
        } in
        (m', notice m' r h create_lobby ∷ []))

unfoldable pub form_room : ℕ → ℕ → Group → Matchmaker → Matchmaker × List Notice
unfolding form_with
form_room room_id now g m = form_with room_id now g m g.picked

unfoldable pub wait : ℕ → ℕ → Search → Matchmaker → Matchmaker × List Notice
unfolding gather form_room
wait room_id now s m =
    let m' = record m { waiting = m.waiting ++ s ∷ [] } in
    form_room room_id now (gather s.filter empty_group m'.waiting) m'

unfoldable pub join : ℕ → Search → Matchmaker → Room → Matchmaker × List Notice
unfolding join_room put_room notice
join now s m r =
    let r' = join_room now s r in
    let m' = put_room m r' in (m', notice m' r' r'.host update_lobby ∷ [])

unfoldable pub finish : ℕ → ℕ → Search → Matchmaker × Option Room → Matchmaker × List Notice
unfolding wait join
finish room_id now s (m, none) = wait room_id now s m
finish room_id now s (m, some r) = join now s m r

-- `room_id` is what ctrIDs.Add(1) returns, should a room be made.
unfoldable pub enqueue : ℕ → ℕ → Search → Matchmaker → Matchmaker × List Notice
unfolding evict candidates try_rooms finish
enqueue room_id now s m =
    let m1 = evict s.pid m in finish room_id now s (try_rooms m1 s (candidates m1))
