-- ===== src/Matchmaker/Invariant/Queue.antt =====
-- enqueue of ctr_async.go keeps the invariant.
use nextendo_demonware.Common.{
  [], ℕ, ◌<◌, ◌≡◌, refl, sym, ap, subst, ◌∙◌, Bool, true, false, List, ◌∷◌, ◌++◌, Option, none,
  some, Option-cases, inl, inr, if◌then◌else◌, arith, All, All-append, ltb,
}
use nextendo_demonware.Common.Select.{All-keep, All-of, All-both, All-map}
use nextendo_demonware.Matchmaker.Types.{Search, Room, Matchmaker}
use nextendo_demonware.Matchmaker.Rooms.{
  put_room, map_rooms, room_at, seat, bump, failed, doc_state,
}
use nextendo_demonware.Matchmaker.Enqueue.{
  evict, candidates, clear_target, accepts, join_room, try_rooms, Group, gather, empty_group,
  new_room, form_with, form_room, wait, join, finish, enqueue,
}
use nextendo_demonware.Matchmaker.Occupancy.{occupancy-alone, Clear-at, room_at-some}
use nextendo_demonware.Matchmaker.Invariant.{
  SeatsCount, Clear, NoneFailed, InvBut, Inv, RoomOk, put_room-other,
}
use nextendo_demonware.Matchmaker.Invariant.Change.{
  put_room-free, put_room-fresh, clear_target-InvBut, seat-Clear, seat-RoomOk, bump-RoomOk,
  bump-Clear,
}
use nextendo_demonware.Matchmaker.Invariant.Leaving.{evict-InvBut, queue-InvBut}
use nextendo_demonware.Matchmaker.Invariant.Selecting.{
  Suits, Chosen, clear_target-id, cell-id, try_rooms-Chosen,
}
use nextendo_demonware.Matchmaker.Invariant.Grouping.{GroupOk, group_lem}

-- What a group becomes.
new_room-RoomOk :
    (room_id now : ℕ) (h : Search) (rest : List Search) (filter : List ℕ) (g : Group)
    → 0 < room_id
    → g.picked ≡ h ∷ rest
    → GroupOk filter g
    → RoomOk room_id (new_room room_id now h g)
unfolding new_room
new_room-RoomOk room_id now h rest filter g positive e ok = record {
  same_id = refl;
  positive = positive;
  at_most_eight = ok.at_most_eight;
  within = omega (arith, ok.total, ok.within);
  seated =
      All-both SeatsCount (λ p. p.filter ≡ h.filter) g.picked ok.counted
        (All-map (λ p. p.filter ≡ filter) (λ p. p.filter ≡ h.filter) g.picked
          (λ p same. same ∙ sym (subst (All (λ p. p.filter ≡ filter)) e ok.filtered).0)
          ok.filtered);
}

NoneFailed-new : (r : Room) (ps : List Search) → r.doc.states ≡ none → NoneFailed r ps
unfolding failed doc_state
NoneFailed-new r ps e = All-of _ ps (λ p. All-of _ p.members (λ pid. ground arith))

more_rooms-InvBut :
    (k : ℕ) (m : Matchmaker) (ids : List ℕ) → InvBut k m → InvBut k (record m { ids = ids })
more_rooms-InvBut k m ids v = record {
  rooms = v.rooms;
  clear = v.clear;
  links = v.links;
  queued = v.queued;
}

if-Inv :
    {A : Type 0} (b : Bool) (x y : Matchmaker × A)
    → Inv x.0
    → Inv y.0
    → Inv (if◌then◌else◌ {A = Matchmaker × A} b x y).0
if-Inv true x y v w = v
if-Inv false x y v w = w

form_with-Inv :
    (room_id now : ℕ) (filter : List ℕ) (g : Group) (m : Matchmaker) (ps : List Search)
    → g.picked ≡ ps
    → 0 < room_id
    → m.cell room_id ≡ none
    → GroupOk filter g
    → Inv m
    → Inv (form_with room_id now g m ps).0
unfolding form_with
form_with-Inv room_id now filter g m [] e positive fresh ok v = v
form_with-Inv room_id now filter g m (h ∷ ps) e positive fresh ok v =
    let r = new_room room_id now h g in
    if-Inv (ltb g.seats g.minimum) _ _ v (
      more_rooms-InvBut 0 _ (m.ids ++ room_id ∷ []) (
        queue-InvBut 0 _ _
          (put_room-fresh 0 m r v fresh refl
            (new_room-RoomOk room_id now h ps filter g positive e ok)
            (λ _. NoneFailed-new r r.players refl))
          (All-keep SeatsCount _ m.waiting v.queued)))

wait-Inv :
    (room_id now : ℕ) (s : Search) (m : Matchmaker)
    → 0 < room_id
    → m.cell room_id ≡ none
    → SeatsCount s
    → Inv m
    → Inv (wait room_id now s m).0
unfolding wait form_room
wait-Inv room_id now s m positive fresh count v =
    let ws = m.waiting ++ s ∷ [] in
    let counted = All-append SeatsCount m.waiting (s ∷ []) v.queued (count, tt) in
    let g = gather s.filter empty_group ws in
    form_with-Inv room_id now s.filter g (record m { waiting = ws }) g.picked refl positive fresh
      (group_lem s.filter ws counted) (queue-InvBut 0 m ws v counted)

-- The time of the document changes nothing that the invariant speaks of.
timed-RoomOk :
    (i now : ℕ) (r : Room)
    → RoomOk i r
    → RoomOk i (record r { doc = record r.doc { update_time = now } })
timed-RoomOk i now r ok = record {
  same_id = ok.same_id;
  positive = ok.positive;
  at_most_eight = ok.at_most_eight;
  within = ok.within;
  seated = ok.seated;
}

timed-Clear :
    (now : ℕ) (r : Room) → Clear r → Clear (record r { doc = record r.doc { update_time = now } })
unfolding failed doc_state
timed-Clear now r c = c

join-Inv :
    (now : ℕ) (s : Search) (m : Matchmaker) (r : Room)
    → SeatsCount s
    → Suits m s r
    → Inv m
    → Inv (join now s m r).0
unfolding join join_room seat bump
join-Inv now s m r count fit v =
    let c = Clear-at v r.id r fit.here in
    let ok =
      seat-RoomOk r.id s r (v.rooms r.id r fit.here) count fit.same_filter
        (omega (arith, occupancy-alone m r c fit.alone, fit.room_left)) in
    put_room-free 0 m r (join_room now s r) v fit.here fit.listed fit.free fit.alone
      (timed-RoomOk r.id now (bump (seat s r)) (bump-RoomOk r.id (seat s r) ok))
      (λ _. timed-Clear now (bump (seat s r)) (bump-Clear (seat s r) (seat-Clear s r c)))

-- The id of a room that is not there yet is not there after the evictions and the search for a room.
evict-none : (pid i : ℕ) (m : Matchmaker) → m.cell i ≡ none → (evict pid m).cell i ≡ none
unfolding evict map_rooms
evict-none pid i m e = rw e

put_room-none :
    (m : Matchmaker) (r q : Room) (i : ℕ)
    → m.cell r.id ≡ some q
    → m.cell i ≡ none
    → (put_room m r).cell i ≡ none
put_room-none m r q i at e = put_room-other m r i (λ h. cc (ap m.cell h)) ∙ e

if-none :
    (b : Bool) (i : ℕ) (x y : Matchmaker × Option Room)
    → x.0.cell i ≡ none
    → y.0.cell i ≡ none
    → (if◌then◌else◌ {A = Matchmaker × Option Room} b x y).0.cell i ≡ none
if-none true i x y h k = h
if-none false i x y h k = k

try_rooms-none :
    (m : Matchmaker) (s : Search) (is : List ℕ) (i : ℕ)
    → Inv m
    → m.cell i ≡ none
    → (try_rooms m s is).0.cell i ≡ none
unfolding try_rooms
try_rooms-none m s [] i v e = e
try_rooms-none m s (j ∷ is) i v e = elim (Option-cases (room_at m j)) [
  | inl h ↦ rw (h, try_rooms) (try_rooms-none m s is i v e)
  | inr (r, h) ↦
      let at = cell-id v (room_at-some m j r h).0 in
      let r' = clear_target m r in
      let m' = put_room m r' in
      let none' =
        put_room-none m r' r i (subst (λ x. m.cell x ≡ some r) (sym (clear_target-id m r)) at) e in
      rw (h, try_rooms)
        (if-none (accepts m' r' s) i (m', some r') (try_rooms m' s is) none'
          (try_rooms-none m' s is i (clear_target-InvBut 0 m r v at) none'))
]

finish-Inv :
    (room_id now : ℕ) (s : Search) (x : Matchmaker × Option Room)
    → 0 < room_id
    → x.0.cell room_id ≡ none
    → SeatsCount s
    → Chosen s x
    → Inv (finish room_id now s x).0
unfolding finish
finish-Inv room_id now s (m, none) positive fresh count c =
    wait-Inv room_id now s m positive fresh count c
finish-Inv room_id now s (m, some r) positive fresh count (v, fit) = join-Inv now s m r count fit v

-- A search whose seats are counted joins a room or waits, and the invariant stays.
pub enqueue-Inv :
    (room_id now : ℕ) (s : Search) (m : Matchmaker)
    → 0 < room_id
    → m.cell room_id ≡ none
    → SeatsCount s
    → Inv m
    → Inv (enqueue room_id now s m).0
unfolding enqueue
enqueue-Inv room_id now s m positive fresh count v =
    let m1 = evict s.pid m in
    let v1 : Inv m1 = evict-InvBut 0 s.pid m v in
    finish-Inv room_id now s (try_rooms m1 s (candidates m1)) positive
      (try_rooms-none m1 s (candidates m1) room_id v1 (evict-none s.pid room_id m fresh)) count
      (try_rooms-Chosen m1 s (candidates m1) v1)
