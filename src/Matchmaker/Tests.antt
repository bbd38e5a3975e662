-- ===== src/Matchmaker/Tests.antt =====
-- The matchmaker at work on two accounts.
use mathlib.Core.List.{Mem}
use nextendo_demonware.Common.{
  ℕ, ◌+◌, ◌≤◌, ◌<◌, ◌≡◌, refl, ◌≢◌, min, ◌⊎◌, inl, inr, Option-cases, Bool, true, false, List, [],
  ◌∷◌, Option, none, some, arith, All, replicate,
}
use nextendo_demonware.Common.Int.{pos}
use nextendo_demonware.Matchmaker.Types.{Listen, Search, HostDoc, Room, Matchmaker}
use nextendo_demonware.Matchmaker.Rooms.{room_at, is_listed, occupancy}
use nextendo_demonware.Matchmaker.Parse.{SearchDoc, accepted, parse_ctr_search}
use nextendo_demonware.Matchmaker.Acceptance.{Acceptable, parse_ctr_search-Acceptable}
use nextendo_demonware.Matchmaker.Enqueue.{gather, empty_group, enqueue}
use nextendo_demonware.Matchmaker.Leave.{leave}
use nextendo_demonware.Matchmaker.Sync.{sync_doc}
use nextendo_demonware.Matchmaker.Departure.{Left, leave_lem}
use nextendo_demonware.Common.Select.{contains}
use nextendo_demonware.Matchmaker.Merge.{conns}
use nextendo_demonware.Matchmaker.Sync.{unnotified}
use nextendo_demonware.Matchmaker.Acceptance.{Distinct}
use nextendo_demonware.Matchmaker.Notices.{unnotified_lem}
use nextendo_demonware.Matchmaker.Access.{Entitled, sync_doc_lem}
use nextendo_demonware.Matchmaker.Invariant.{Sits, Clear, weight}
use nextendo_demonware.Matchmaker.Invariant.Grouping.{GroupOk, group_lem}
use nextendo_demonware.Matchmaker.Reach.{
  no_rooms, enqueues, syncs, Reachable, start, next, Reachable-occupancy, Reachable-seated,
  Reachable-merge,
}

-- A text decodes to as many zeros as its only byte says.
abbrev zeros : List ℕ → Option (List ℕ)
zeros [] = none
zeros (n ∷ _) = some (replicate n 0)

abbrev info : Listen
info = record { address = 67 ∷ []; security_id = 8 ∷ []; security_key = 16 ∷ [] }

abbrev doc : ℕ → SearchDoc
doc pid = record {
  members = pid ∷ [];
  slots_min = pos 2;
  slots_max = pos 8;
  filter_size = 1;
  filter = 7 ∷ [];
}

abbrev search : ℕ → Search
search pid = record {
  conn = pid;
  id = pid;
  pid = pid;
  members = pid ∷ [];
  slots_min = 2;
  slots_max = 8;
  listen = info;
  filter = 7 ∷ [];
  seats = 1;
}

search_1 : parse_ctr_search zeros 1 1 1 (some (doc 1)) (some info) ≡ accepted (search 1)
unfolding parse_ctr_search
search_1 = refl

search_2 : parse_ctr_search zeros 2 2 2 (some (doc 2)) (some info) ≡ accepted (search 2)
unfolding parse_ctr_search
search_2 = refl

abbrev one_waits : Matchmaker
one_waits = (enqueue 10 100 (search 1) no_rooms).0

abbrev two_play : Matchmaker
two_play = (enqueue 11 101 (search 2) one_waits).0

abbrev nobody : Room
nobody = record {
  id = 0;
  version = 0;
  created = 0;
  host = search 0;
  players = [];
  doc = record { has = λ k. false; is_open = false; states = none; update_id = 0; update_time = 0 };
  capacity = 0;
  notified = [];
  source = none;
  target = 0;
  listed = false;
}

abbrev room_or_nobody : Option Room → Room
room_or_nobody none = nobody
room_or_nobody (some r) = r

abbrev room_11 : Room
room_11 = room_or_nobody (two_play.cell 11)

room_11-here : room_at two_play 11 ≡ some room_11
unfolding enqueue room_at
room_11-here = refl

one_waits-Reachable : Reachable zeros one_waits
one_waits-Reachable = next no_rooms one_waits start (
    enqueues no_rooms 1 1 1 10 100 (some (doc 1)) (some info) (search 1) search_1 (omega arith)
      refl)

two_play-Reachable : Reachable zeros two_play
unfolding enqueue
two_play-Reachable = next one_waits two_play one_waits-Reachable (
    enqueues one_waits 2 2 2 11 101 (some (doc 2)) (some info) (search 2) search_2 (omega arith)
      refl)

Reachable-occupancy_example :
    (occupancy two_play room_11 ≤ room_11.capacity) × (room_11.capacity ≤ 8)
Reachable-occupancy_example =
    Reachable-occupancy zeros two_play 11 room_11 two_play-Reachable room_11-here

Reachable-seated_example :
    (room_11.id ≡ 11) × (0 < 11) × All (Sits room_11) room_11.players × Clear room_11
Reachable-seated_example =
    Reachable-seated zeros two_play 11 room_11 two_play-Reachable room_11-here

-- Two parties of two, each of which has a room of its own.
abbrev party_doc : ℕ → SearchDoc
party_doc pid = record (doc pid) { members = pid ∷ (pid + 1) ∷ [] }

abbrev party : ℕ → Search
party pid = record (search pid) { members = pid ∷ (pid + 1) ∷ []; seats = 2 }

party_1 : parse_ctr_search zeros 1 1 1 (some (party_doc 1)) (some info) ≡ accepted (party 1)
unfolding parse_ctr_search
party_1 = refl

party_3 : parse_ctr_search zeros 3 3 3 (some (party_doc 3)) (some info) ≡ accepted (party 3)
unfolding parse_ctr_search
party_3 = refl

abbrev host_doc : Bool → List (ℕ × ℕ) → HostDoc
host_doc is_open states = record {
  has = λ k. true;
  is_open = is_open;
  states = some states;
  update_id = 0;
  update_time = 0;
}

abbrev party_1_plays : Matchmaker
party_1_plays = (enqueue 10 100 (party 1) no_rooms).0

abbrev party_1_closed : Matchmaker
party_1_closed = (sync_doc 101 1 10 1 (some (host_doc false [])) party_1_plays).0

abbrev party_3_plays : Matchmaker
party_3_plays = (enqueue 20 102 (party 3) party_1_closed).0

abbrev party_3_open : Matchmaker
party_3_open = (sync_doc 103 3 20 1 (some (host_doc true ((3, 2) ∷ (4, 2) ∷ []))) party_3_plays).0

abbrev merging : Matchmaker
merging = (sync_doc 104 1 10 1 (some (host_doc true ((1, 2) ∷ (2, 2) ∷ []))) party_3_open).0

abbrev room_10 : Room
room_10 = room_or_nobody (room_at merging 10)

merging-Reachable : Reachable zeros merging
unfolding enqueue sync_doc
merging-Reachable =
    next party_3_open merging
      (next party_3_plays party_3_open
        (next party_1_closed party_3_plays
          (next party_1_plays party_1_closed
            (next no_rooms party_1_plays start (
              enqueues no_rooms 1 1 1 10 100 (some (party_doc 1)) (some info) (party 1) party_1
                (omega arith) refl))
            (syncs party_1_plays 101 1 10 1 (some (host_doc false []))))
          (enqueues party_1_closed 3 3 3 20 102 (some (party_doc 3)) (some info) (party 3) party_3
            (omega arith) refl))
        (syncs party_3_plays 103 3 20 1 (some (host_doc true ((3, 2) ∷ (4, 2) ∷ [])))))
      (syncs party_3_open 104 1 10 1 (some (host_doc true ((1, 2) ∷ (2, 2) ∷ []))))

-- Only the Boolean is computed.
listed_room :
    (m : Matchmaker) (i : ℕ)
    → is_listed m i ≡ true
    → room_at m i ≡ some (room_or_nobody (room_at m i))
unfolding is_listed
listed_room m i e = elim (Option-cases (room_at m i)) [ inl n ↦ ground arith | inr (r, y) ↦ rw y ]

room_10-is_listed : is_listed merging 10 ≡ true
unfolding is_listed sync_doc enqueue
room_10-is_listed = refl

room_10-source : room_10.source ≡ some 20
unfolding room_at sync_doc enqueue
room_10-source = refl

abbrev room_20 : Room
room_20 = room_or_nobody (room_at merging 20)

room_20-is_listed : is_listed merging 20 ≡ true
unfolding is_listed sync_doc enqueue
room_20-is_listed = refl

Reachable-merge_example :
    (room_20.source ≡ none)
    × (room_20.target ≡ 10)
    × (room_20.host.filter ≡ room_10.host.filter)
    × (weight room_10 + weight room_20 ≤ min room_10.capacity room_20.capacity)
Reachable-merge_example =
    Reachable-merge zeros merging 10 20 room_10 room_20 merging-Reachable
      (listed_room merging 10 room_10-is_listed) room_10-source
      (listed_room merging 20 room_20-is_listed)

parse_ctr_search-Acceptable_example : Acceptable 1 (party 1)
parse_ctr_search-Acceptable_example =
    parse_ctr_search-Acceptable zeros 1 1 1 (some (party_doc 1)) (some info) (party 1) party_1

group_lem_example : GroupOk (7 ∷ []) (gather (7 ∷ []) empty_group (party 1 ∷ search 3 ∷ []))
group_lem_example = group_lem (7 ∷ []) (party 1 ∷ search 3 ∷ []) (refl, (refl, tt))

leave_lem_example :
    All (λ (p : Search). p.conn ≢ 2) (leave 2 0 two_play).waiting
    × All (λ p. (p.conn ≡ 2) ⊎ Mem p (leave 2 0 two_play).waiting) two_play.waiting
    × Left 2 0 (room_at two_play 11) (room_at (leave 2 0 two_play) 11)
leave_lem_example = leave_lem 2 0 11 two_play

sync_doc_lem_example :
    let (n, taken, notices) = sync_doc 101 1 10 1 (some (host_doc false [])) party_1_plays in
    ((taken ≡ true) × ((r : Room) × Entitled 1 10 1 (host_doc false []) party_1_plays r))
    ⊎ ((taken ≡ false) × (n ≡ party_1_plays) × (notices ≡ []))
sync_doc_lem_example = sync_doc_lem 101 1 10 1 (host_doc false []) party_1_plays

unnotified_lem_example :
    let ps = search 1 ∷ search 2 ∷ search 1 ∷ [] in
    All (λ (p : Search). contains p.conn (2 ∷ []) ≡ false) (unnotified (2 ∷ []) ps)
    × Distinct (conns (unnotified (2 ∷ []) ps))
    × All (λ (p : Search). contains p.conn (2 ∷ conns (unnotified (2 ∷ []) ps)) ≡ true) ps
unnotified_lem_example = unnotified_lem (2 ∷ []) (search 1 ∷ search 2 ∷ search 1 ∷ [])
