-- ===== src/Matchmaker/Sync.antt =====
-- syncDoc of ctr_async.go: the host's document replaces the room's.
use nextendo_demonware.Common.{
  [], ℕ, ◌+◌, min, Bool, true, false, not, ◌&&◌, List, ◌∷◌, ◌++◌, Option, none, some, ltb, ◌==◌,
  if◌then◌else◌, length,
}
use nextendo_demonware.Common.Select.{keep, all, contains, bytes_eq}
use nextendo_demonware.Matchmaker.Types.{
  Search, HostDoc, Room, Matchmaker, Notice, join_lobby, update_lobby, Key, lobby_open,
  lobby_open_for_pres_join, player_state, listen_server, team_balance, ruleset_payload, attachment,
}
use nextendo_demonware.Matchmaker.Rooms.{room_at, put_room, failed, seat, occupancy, notice, bump}
use nextendo_demonware.Matchmaker.Enqueue.{is_merging}
use nextendo_demonware.Matchmaker.Merge.{finish_merge, start_merge, conns}

abbrev pub required_keys : List Key
required_keys =
    lobby_open ∷ lobby_open_for_pres_join ∷ player_state ∷ listen_server ∷ team_balance
    ∷ ruleset_payload ∷ attachment ∷ []

unfoldable pub release_search : Room → Search → Search
unfolding failed
release_search r p =
    let members = keep (λ pid. not (failed r pid)) p.members in
    record p { members = members; seats = length members }

-- The loop that removes the members which the host has rejected.
unfoldable pub release_players : Room → List Search → List Search
unfolding release_search
release_players r [] = []
release_players r (p ∷ ps) =
    let p' = release_search r p in
    let others = release_players r ps in elim p'.members [ [] ↦ others | _ ∷ _ ↦ p' ∷ others ]

-- A search with no member left is no longer notified.
unfoldable released_notified : Room → List Search → List ℕ → List ℕ
unfolding release_search
released_notified r [] cs = cs
released_notified r (p ∷ ps) cs =
    released_notified r ps
      (elim (release_search r p).members [ [] ↦ keep (λ c. not (c == p.conn)) cs | _ ∷ _ ↦ cs ])

-- `if p == r.host { r.host = &copy }`, the copy being made where a member is left. The host is the
-- player with its id, and so with its pid.
unfoldable pub host_after : Room → Search → Search → Search
unfolding release_search
host_after r p h = elim (release_search r p).members [
  | [] ↦ h
  | _ ∷ _ ↦ if p.id == h.id && p.pid == h.pid then release_search r p else h
]

unfoldable pub released_host : Room → List Search → Search → Search
unfolding host_after
released_host r [] h = h
released_host r (p ∷ ps) h = released_host r ps (host_after r p h)

unfoldable pub release : Room → Room
unfolding release_players released_notified released_host
release r = record r {
  players = release_players r r.players;
  notified = released_notified r r.players r.notified;
  host = released_host r r.players r.host;
}

-- The guests that have not been told yet, in order; of two searches of one connection the first.
unfoldable pub unnotified : List ℕ → List Search → List Search
unnotified told [] = []
unnotified told (p ∷ ps) =
    if contains p.conn told then unnotified told ps else p ∷ unnotified (p.conn ∷ told) ps

unfoldable join_notices : Matchmaker → Room → List Search → List Notice
unfolding notice
join_notices m r [] = []
join_notices m r (p ∷ ps) = notice m r p join_lobby ∷ join_notices m r ps

unfoldable pub fits : Matchmaker → Room → Search → Bool
unfolding bytes_eq occupancy
fits m r p =
    bytes_eq p.filter r.host.filter
    && not (ltb (min r.capacity p.slots_max) (occupancy m r + p.seats))

-- The loop over the queue: each search that fits the room as it is by then gets its seats. The
-- searches that stay are returned, and whether one was added.
unfoldable pub backfill : Matchmaker → Room → List Search → Room × List Search × Bool
unfolding fits seat
backfill m r [] = (r, [], false)
backfill m r (p ∷ ps) = elim (fits m r p) [
  | true ↦ (let (r', left, _) = backfill m (seat p r) ps in (r', left, true))
  | false ↦ (let (r', left, added) = backfill m r ps in (r', p ∷ left, added))
]

unfoldable pub fill : Matchmaker → Room → Matchmaker × List Notice
unfolding backfill put_room bump notice
fill m r =
    let (r', left, added) = backfill m r m.waiting in
    let r'' = if added then bump r' else r' in
    let m' = record (put_room m r'') { waiting = left } in
    (m', if added then notice m' r'' r''.host update_lobby ∷ [] else [])

-- A search that waits is looked at again if the room is open and no merge is under way.
unfoldable pub refill : Matchmaker → Room → Matchmaker × List Notice
unfolding is_merging fill
refill m r = if r.doc.is_open && not (is_merging r) then fill m r else (m, [])

-- If there is nothing else to send, a merge may begin.
unfoldable pub end_sync : ℕ → List Notice → Matchmaker → Matchmaker × List Notice
unfolding start_merge room_at
end_sync id [] m = elim (room_at m id) [ none ↦ (m, []) | some r ↦ start_merge m r ]
end_sync id (n ∷ ns) m = (m, n ∷ ns)

-- The guests are told, and marked as told.
unfoldable pub tell : Matchmaker → Room → Matchmaker × List Notice
unfolding put_room unnotified join_notices conns
tell m r =
    let guests = unnotified r.notified r.players in
    let r' = record r { notified = r.notified ++ conns guests } in
    let m' = put_room m r' in (m', join_notices m' r' guests)

unfoldable pub after_tell : ℕ → List Notice → Matchmaker → Matchmaker × List Notice
unfolding refill end_sync room_at
after_tell id notices m = elim (room_at m id) [
  | none ↦ (m, notices)
  | some r ↦ (let (m', asked) = refill m r in end_sync id (notices ++ asked) m')
]

unfoldable pub after_merge : ℕ → List Notice → Matchmaker → Matchmaker × List Notice
unfolding release tell after_tell room_at put_room
after_merge id notices m = elim (room_at m id) [
  | none ↦ (m, notices)
  | some r ↦
      (let r' = release r in
        let (m', told) = tell (put_room m r') r' in after_tell id (notices ++ told) m')
]

-- The room takes the document, whose update_id is the version and whose time is now.
unfoldable pub take_doc : ℕ → HostDoc → Room → Room
take_doc now d r = record r { doc = record d { update_id = r.version; update_time = now } }

unfoldable pub may_sync : ℕ → ℕ → HostDoc → Room → Bool
may_sync conn version d r = r.host.conn == conn && r.version == version && all d.has required_keys

unfoldable pub accept_doc : ℕ → HostDoc → Room → Matchmaker → Matchmaker × List Notice
unfolding take_doc finish_merge after_merge put_room
accept_doc now d r m =
    let r' = take_doc now d r in
    let (m', notices) = finish_merge (put_room m r') r' in after_merge r.id notices m'

-- `doc` is the text decoded, `none` where that fails or is null.
unfoldable pub sync_doc :
    ℕ → ℕ → ℕ → ℕ → Option HostDoc → Matchmaker → Matchmaker × Bool × List Notice
unfolding room_at may_sync accept_doc
sync_doc now conn id version none m = (m, false, [])
sync_doc now conn id version (some d) m = elim (room_at m id) [
  | none ↦ (m, false, [])
  | some r ↦
      if may_sync conn version d r
      then (let (m', notices) = accept_doc now d r m in (m', true, notices))
      else (m, false, [])
]
