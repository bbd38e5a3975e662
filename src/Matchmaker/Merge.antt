-- ===== src/Matchmaker/Merge.antt =====
-- ctr_merge.go: two open rooms become one. The seats are reserved first, and the merge is carried
-- out when the destination's host has sent its next document.
use nextendo_demonware.Common.{
  [], ℕ, ◌+◌, min, Bool, false, not, ◌&&◌, ◌||◌, List, ◌∷◌, ◌++◌, none, some, ltb, ◌==◌,
  if◌then◌else◌, map,
}
use nextendo_demonware.Common.Select.{keep, any, contains, sort_by, bytes_eq}
use nextendo_demonware.Matchmaker.Types.{
  Search, HostDoc, Room, Matchmaker, Notice, update_lobby, merge_lobby, BackendDoc,
}
use nextendo_demonware.Matchmaker.Rooms.{
  room_at, put_room, doc_state, forget, occupancy, connected, documents, notice, bump,
}
use nextendo_demonware.Matchmaker.Enqueue.{is_merging, clear_target, fuller}

unfoldable merge_open : Matchmaker → Room → Bool
unfolding connected occupancy
merge_open m r = r.doc.is_open && (connected r == occupancy m r) && ltb 0 (occupancy m r)

unfoldable pub all_members : List Search → List ℕ
all_members [] = []
all_members (p ∷ ps) = p.members ++ all_members ps

unfoldable disjoint_rooms : Room → Room → Bool
unfolding all_members
disjoint_rooms a b = not (any (λ pid. contains pid (all_members a.players)) (all_members b.players))

-- The tests of the loop over the possible sources, negated.
unfoldable pub can_merge : Matchmaker → Room → Room → Bool
unfolding is_merging merge_open bytes_eq occupancy disjoint_rooms
can_merge m dst src =
    not (src.id == dst.id)
    && not (is_merging src)
    && merge_open m src
    && bytes_eq src.host.filter dst.host.filter
    && not (ltb (occupancy m dst) (occupancy m src))
    && not ((occupancy m src == occupancy m dst) && ltb src.id dst.id)
    && not (ltb (min src.capacity dst.capacity) (occupancy m src + occupancy m dst))
    && disjoint_rooms src dst

unfoldable pub can_merge_at : Matchmaker → Room → ℕ → Bool
unfolding room_at can_merge
can_merge_at m dst i = elim (room_at m i) [ none ↦ false | some src ↦ can_merge m dst src ]

unfoldable pub merge_candidates : Matchmaker → Room → List ℕ
unfolding can_merge_at fuller
merge_candidates m dst = sort_by (fuller m) (keep (can_merge_at m dst) m.ids)

-- Seats are reserved: the destination's host is asked to make a document without the states of the
-- players that are to come.
unfoldable pub reserved : Room → Room → Room
unfolding forget all_members bump
reserved dst src =
    bump (record dst { source = some src.id; doc = forget (all_members src.players) dst.doc })

unfoldable pub reserve : Matchmaker → Room → Room → Matchmaker × List Notice
unfolding reserved put_room notice
reserve m dst src =
    let dst' = reserved dst src in
    let m' = put_room (put_room m (record src { target = dst.id })) dst' in
    (m', notice m' dst' dst'.host update_lobby ∷ [])

-- The first candidate becomes the source.
unfoldable pub merge_first : Matchmaker → Room → List ℕ → Matchmaker × List Notice
unfolding room_at reserve
merge_first m dst [] = (m, [])
merge_first m dst (i ∷ _) = elim (room_at m i) [ none ↦ (m, []) | some src ↦ reserve m dst src ]

unfoldable pub start_merge : Matchmaker → Room → Matchmaker × List Notice
unfolding clear_target is_merging merge_open merge_candidates merge_first put_room
start_merge m dst =
    let dst' = clear_target m dst in
    let m' = put_room m dst' in
    if is_merging dst' || not (merge_open m' dst')
    then (m', [])
    else merge_first m' dst' (merge_candidates m' dst')

-- The reservation still holds.
unfoldable pub is_valid_merge : Matchmaker → Room → Room → Bool
unfolding merge_open disjoint_rooms doc_state all_members
is_valid_merge m dst src =
    src.listed
    && src.target == dst.id
    && dst.doc.is_open
    && merge_open m src
    && disjoint_rooms dst src
    && not (any (λ pid. doc_state dst.doc pid == 3) (all_members src.players))

unfoldable pub called_off : Room → Room
unfolding bump
called_off dst = bump (record dst { source = none })

unfoldable pub call_off : Matchmaker → Room → Room → Matchmaker × List Notice
unfolding called_off put_room notice
call_off m dst src =
    let dst' = called_off dst in
    let m' = put_room (put_room m dst') (record src { target = 0 }) in
    (m', notice m' dst' dst'.host update_lobby ∷ [])

unfoldable merge_notices : ℕ → ℕ → HostDoc × BackendDoc → List Search → List Notice
merge_notices src_id dst_id docs = map (λ p. record {
  conn = p.conn;
  event = merge_lobby;
  ids = p.id ∷ src_id ∷ dst_id ∷ [];
  docs = docs;
})

unfoldable pub conns : List Search → List ℕ
conns = map (λ p. p.conn)

unfoldable pub combined : Room → Room → Room
unfolding conns
combined dst src = record dst {
  source = none;
  capacity = min dst.capacity src.capacity;
  players = dst.players ++ src.players;
  notified = dst.notified ++ conns src.players;
}

unfoldable pub combine : Matchmaker → Room → Room → Matchmaker × List Notice
unfolding combined put_room documents merge_notices
combine m dst src =
    let dst' = combined dst src in
    let m' = put_room (put_room m dst') (record src { listed = false }) in
    (m', merge_notices src.id dst.id (documents m' dst') src.players)

unfoldable pub finish_merge : Matchmaker → Room → Matchmaker × List Notice
unfolding is_valid_merge call_off combine
finish_merge m dst = elim dst.source [
  | none ↦ (m, [])
  | some s ↦ (elim (m.cell s) [
    | none ↦ (m, [])
    | some src ↦ if is_valid_merge m dst src then combine m dst src else call_off m dst src
  ])
]
