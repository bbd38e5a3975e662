-- ===== src/Matchmaker/Reach.antt =====
-- The matchmaker (ctr_async.go, ctr_merge.go) as a transition system: a step is one call of a
-- handler, which holds the lock throughout.
use nextendo_demonware.Common.{subst, min, ◌+◌, [], ℕ, ◌≤◌, ◌<◌, ◌≡◌, List, Option, none, some, All}
use nextendo_demonware.Matchmaker.Types.{Listen, Search, HostDoc, Room, Matchmaker}
use nextendo_demonware.Matchmaker.Rooms.{room_at, occupancy}
use nextendo_demonware.Matchmaker.Parse.{SearchDoc, accepted, parse_ctr_search}
use nextendo_demonware.Matchmaker.Enqueue.{enqueue}
use nextendo_demonware.Matchmaker.Leave.{cancel, leave}
use nextendo_demonware.Matchmaker.Sync.{sync_doc}
use nextendo_demonware.Matchmaker.Occupancy.{occupancy-le-capacity, room_at-some, Clear-at}
use nextendo_demonware.Matchmaker.Acceptance.{parse_ctr_search-SeatsCount}
use nextendo_demonware.Matchmaker.Invariant.{weight, Inv, Sits, Clear, Linked}
use nextendo_demonware.Matchmaker.Invariant.Leaving.{cancel-InvBut, leave-InvBut}
use nextendo_demonware.Matchmaker.Invariant.Queue.{enqueue-Inv}
use nextendo_demonware.Matchmaker.Invariant.Syncing.{sync_doc-Inv}

-- ctrMatchmaker as the server starts it.
abbrev pub no_rooms : Matchmaker
no_rooms = record { waiting = []; cell = λ i. none; ids = [] }

-- A search is one that was parsed, and a room's id, drawn from ctrIDs, is new.
pub data Step (decode : List ℕ → Option (List ℕ)) : Matchmaker → Matchmaker → Type 0 where
  enqueues :
      (m : Matchmaker) (conn pid id room_id now : ℕ) (raw : Option SearchDoc) (info : Option Listen)
      (s : Search)
      → parse_ctr_search decode conn pid id raw info ≡ accepted s
      → 0 < room_id
      → m.cell room_id ≡ none
      → Step decode m (enqueue room_id now s m).0
  cancels : (m : Matchmaker) (conn id : ℕ) → Step decode m (cancel conn id m).0
  leaves : (m : Matchmaker) (conn id : ℕ) → Step decode m (leave conn id m)
  syncs :
      (m : Matchmaker) (now conn id version : ℕ) (d : Option HostDoc)
      → Step decode m (sync_doc now conn id version d m).0

pub data Reachable (decode : List ℕ → Option (List ℕ)) : Matchmaker → Type 0 where
  start : Reachable decode no_rooms
  next : (m n : Matchmaker) → Reachable decode m → Step decode m n → Reachable decode n

module _ (decode : List ℕ → Option (List ℕ)) where
  Step-Inv : (m n : Matchmaker) → Step decode m n → Inv m → Inv n
  Step-Inv m n (enqueues _ conn pid id room_id now raw info s e pos new) v =
      enqueue-Inv room_id now s m pos new
        (parse_ctr_search-SeatsCount decode conn pid id raw info s e) v
  Step-Inv m n (cancels _ conn id) v = cancel-InvBut 0 conn id m v
  Step-Inv m n (leaves _ conn id) v = leave-InvBut 0 conn id m v
  Step-Inv m n (syncs _ now conn id version d) v = sync_doc-Inv now conn id version d m v

  Reachable-Inv : (m : Matchmaker) → Reachable decode m → Inv m
  Reachable-Inv m start = record {
    rooms = λ i r e. cc;
    clear = λ i r e. cc;
    links = λ i r e. cc;
    queued = tt;
  }
  Reachable-Inv n (next m _ before step) = Step-Inv m n step (Reachable-Inv m before)

  -- In a state that the handlers reach, a room of the table m.rooms occupies no more seats than its
  -- capacity, those that a prepared merge reserves included, and its capacity is 8 at most.
  pub Reachable-occupancy :
      (m : Matchmaker) (i : ℕ) (r : Room)
      → Reachable decode m
      → room_at m i ≡ some r
      → (occupancy m r ≤ r.capacity) × (r.capacity ≤ 8)
  Reachable-occupancy m i r reach e = occupancy-le-capacity m i r (Reachable-Inv m reach) e

  -- In a state that the handlers reach, a room of the table m.rooms stands under its own id, which
  -- is not 0; each of its players has the host's filter and as many seats as members; and its host's
  -- document rejects none of them.
  pub Reachable-seated :
      (m : Matchmaker) (i : ℕ) (r : Room)
      → Reachable decode m
      → room_at m i ≡ some r
      → (r.id ≡ i) × (0 < i) × All (Sits r) r.players × Clear r
  Reachable-seated m i r reach e =
      let v = Reachable-Inv m reach in
      let (here, listed) = room_at-some m i r e in
      let ok = v.rooms i r here in (ok.same_id, ok.positive, ok.seated, Clear-at v i r here)

  -- In a state that the handlers reach, where a room of the table m.rooms has a merge source that is
  -- in the table too, the source has no source of its own and has that room as its target; both have
  -- one filter; and the people of both fit the smaller capacity.
  pub Reachable-merge :
      (m : Matchmaker) (i j : ℕ) (r s : Room)
      → Reachable decode m
      → room_at m i ≡ some r
      → r.source ≡ some j
      → room_at m j ≡ some s
      → (s.source ≡ none)
        × (s.target ≡ i)
        × (s.host.filter ≡ r.host.filter)
        × (weight r + weight s ≤ min r.capacity s.capacity)
  Reachable-merge m i j r s reach e has e' =
      let (here, listed) = room_at-some m i r e in
      let (there, listed') = room_at-some m j s e' in
      let (s', at, l) = (Reachable-Inv m reach).links i r here listed j has in
      let same : s' ≡ s = cc (at, there) in
      let l' : Linked i r s = subst (Linked i r) same l in
      (l'.leaf, l'.back listed', l'.same_filter, l'.within_both)
