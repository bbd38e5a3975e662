-- ===== src/Matchmaker/Invariant/Syncing.antt =====
-- syncDoc of ctr_async.go keeps the invariant.
use nextendo_demonware.Common.{
  [], ℕ, ◌+◌, ◌≤◌, min, ◌≡◌, refl, sym, subst, Bool, true, false, List, ◌∷◌, Option, none, some,
  Bool-cases, Option-cases, inl, inr, if◌then◌else◌, arith, All,
}
use nextendo_demonware.Common.Select.{bytes_eq→eq}
use nextendo_demonware.Matchmaker.Types.{Search, HostDoc, Room, Matchmaker, Notice}
use nextendo_demonware.Matchmaker.Rooms.{
  put_room, room_at, is_listed, occupancy, failed, bump, seat,
}
use nextendo_demonware.Matchmaker.Enqueue.{is_merging}
use nextendo_demonware.Matchmaker.Merge.{finish_merge}
use nextendo_demonware.Matchmaker.Sync.{
  release, fits, backfill, fill, refill, end_sync, tell, after_tell, after_merge, take_doc,
  may_sync, accept_doc, sync_doc,
}
use nextendo_demonware.Matchmaker.Occupancy.{occupancy-alone, Clear-at, room_at-some}
use nextendo_demonware.Matchmaker.Invariant.{SeatsCount, Clear, InvBut, Inv, RoomOk, put_room_self}
use nextendo_demonware.Matchmaker.Invariant.Shrink.{put_room-shrink, Shrinks}
use nextendo_demonware.Matchmaker.Invariant.Change.{
  put_room-free, seat-Clear, seat-RoomOk, bump-RoomOk, bump-Clear,
}
use nextendo_demonware.Matchmaker.Invariant.Leaving.{queue-InvBut}
use nextendo_demonware.Matchmaker.Invariant.Selecting.{cell-id}
use nextendo_demonware.Matchmaker.Invariant.Releasing.{take_doc-InvBut, release-Inv}
use nextendo_demonware.Matchmaker.Invariant.Merging.{finish_merge-Stays, Stays}
use nextendo_demonware.Matchmaker.Invariant.Reserving.{start_merge-Inv}

if-then-Inv :
    {A : Type 0} (b : Bool) (x y : Matchmaker × A)
    → (b ≡ true → Inv x.0)
    → Inv y.0
    → Inv (if◌then◌else◌ {A = Matchmaker × A} b x y).0
if-then-Inv true x y v w = v refl
if-then-Inv false x y v w = w

-- The room as the loop over the queue fills it.
record Grown (r r' : Room) : Type 0 where
  same_id : r'.id ≡ r.id
  alone : r'.source ≡ none
  ok : RoomOk r.id r'
  clear : Clear r'

fits-room :
    (m : Matchmaker) (r : Room) (p : Search)
    → fits m r p ≡ true
    → (p.filter ≡ r.host.filter) × (occupancy m r + p.seats ≤ min r.capacity p.slots_max)
unfolding fits
fits-room m r p e = (bytes_eq→eq p.filter r.host.filter (ground arith), ground arith)

seat-Grown :
    (m : Matchmaker) (r r' : Room) (p : Search)
    → Grown r r'
    → SeatsCount p
    → fits m r' p ≡ true
    → Grown r (seat p r')
seat-Grown m r r' p g count e =
    let (filter, left) = fits-room m r' p e in
    record {
      same_id = unfold seat in g.same_id;
      alone = unfold seat in g.alone;
      ok =
          seat-RoomOk r.id p r' g.ok count filter
            (omega (arith, occupancy-alone m r' g.clear g.alone, left));
      clear = seat-Clear p r' g.clear;
    }

backfill-Grown :
    (m : Matchmaker) (r r' : Room) (ps : List Search)
    → Grown r r'
    → All SeatsCount ps
    → Grown r (backfill m r' ps).0 × All SeatsCount (backfill m r' ps).1
unfolding backfill
backfill-Grown m r r' [] g h = (g, tt)
backfill-Grown m r r' (p ∷ ps) g h = elim (Bool-cases (fits m r' p)) [
  | inl e ↦ rw (e, backfill) (backfill-Grown m r (seat p r') ps (seat-Grown m r r' p g h.0 e) h.1)
  | inr e ↦ let (g', h') = backfill-Grown m r r' ps g h.1 in rw (e, backfill) (g', (h.0, h'))
]

bump-Grown : (r r' : Room) → Grown r r' → Grown r (bump r')
bump-Grown r r' g = record {
  same_id = unfold bump in g.same_id;
  alone = unfold bump in g.alone;
  ok = bump-RoomOk r.id r' g.ok;
  clear = bump-Clear r' g.clear;
}

if-Grown : (r : Room) (b : Bool) (x y : Room) → Grown r x → Grown r y → Grown r (if b then x else y)
if-Grown r true x y g h = g
if-Grown r false x y g h = h

Grown-Inv :
    (m : Matchmaker) (r r' : Room)
    → Inv m
    → m.cell r.id ≡ some r
    → r.listed ≡ true
    → r.target ≡ 0
    → Grown r r'
    → Inv (put_room m r')
Grown-Inv m r r' v here listed free g =
    put_room-free 0 m r r' v (subst (λ x. m.cell x ≡ some r) (sym g.same_id) here) listed free
      g.alone (subst (λ x. RoomOk x r') (sym g.same_id) g.ok) (λ ne. g.clear)

fill-Inv :
    (m : Matchmaker) (r : Room)
    → Inv m
    → m.cell r.id ≡ some r
    → r.listed ≡ true
    → r.source ≡ none
    → r.target ≡ 0
    → Inv (fill m r).0
unfolding fill
fill-Inv m r v here listed alone free =
    let start : Grown r r = record {
      same_id = refl;
      alone = alone;
      ok = v.rooms r.id r here;
      clear = Clear-at v r.id r here;
    } in
    let (g, h) = backfill-Grown m r r m.waiting start v.queued in
    let g' = if-Grown r (backfill m r m.waiting).2 _ _ (bump-Grown r _ g) g in
    queue-InvBut 0 _ (backfill m r m.waiting).1 (Grown-Inv m r _ v here listed free g') h

refill-Inv :
    (m : Matchmaker) (r : Room)
    → Inv m
    → m.cell r.id ≡ some r
    → r.listed ≡ true
    → Inv (refill m r).0
unfolding refill is_merging
refill-Inv m r v here listed =
    if-then-Inv _ (fill m r) (m, []) (λ e. fill-Inv m r v here listed (ground arith) (ground arith))
      v

tell-Shrinks : (r : Room) (told : List ℕ) → Shrinks r (record r { notified = told })
unfolding failed
tell-Shrinks r told = record {
  loses = record {
    same_id = refl;
    still_listed = λ l. l;
    same_source = refl;
    lighter = omega arith;
    same_capacity = refl;
    same_filter = refl;
    seated = λ h. h;
  };
  same_target = refl;
  clear = λ h. h;
}

tell-Inv : (m : Matchmaker) (r : Room) → Inv m → m.cell r.id ≡ some r → Inv (tell m r).0
unfolding tell
tell-Inv m r v here = put_room-shrink 0 m r (record r { notified = _ }) v here (tell-Shrinks r _)

end_sync-Inv : (id : ℕ) (ns : List Notice) (m : Matchmaker) → Inv m → Inv (end_sync id ns m).0
unfolding end_sync
end_sync-Inv id [] m v = elim (Option-cases (room_at m id)) [
  | inl e ↦ rw (e, end_sync) v
  | inr (r, e) ↦
      let (at, listed) = room_at-some m id r e in
      rw (e, end_sync) (start_merge-Inv m r v (cell-id v at) listed)
]
end_sync-Inv id (n ∷ ns) m v = v

after_tell-Inv : (id : ℕ) (ns : List Notice) (m : Matchmaker) → Inv m → Inv (after_tell id ns m).0
unfolding after_tell
after_tell-Inv id ns m v = elim (Option-cases (room_at m id)) [
  | inl e ↦ rw (e, after_tell) v
  | inr (r, e) ↦
      let (at, listed) = room_at-some m id r e in
      rw (e, after_tell) (end_sync-Inv id _ _ (refill-Inv m r v (cell-id v at) listed))
]

at_listed :
    (m : Matchmaker) (id : ℕ) (r : Room)
    → m.cell id ≡ some r
    → r.listed ≡ true
    → room_at m id ≡ some r
unfolding room_at is_listed
at_listed m id r at listed = ground arith

after_merge-Inv :
    (id : ℕ) (ns : List Notice) (m : Matchmaker) → Stays id m → Inv (after_merge id ns m).0
unfolding after_merge
after_merge-Inv id ns m (v, (r, at, listed)) =
    let here = cell-id v at in
    let same : r.id ≡ id = (v.rooms id r at).same_id in
    let m1 = put_room m (release r) in
    let v1 : Inv m1 = release-Inv m r (subst (λ x. InvBut x m) (sym same) v) here in
    let is : room_at m id ≡ some r = at_listed m id r at listed in
    rw (is, after_merge)
      (after_tell-Inv id _ _ (tell-Inv m1 (release r) v1 (put_room_self m (release r))))

accept_doc-Inv :
    (now : ℕ) (d : HostDoc) (r : Room) (m : Matchmaker)
    → Inv m
    → m.cell r.id ≡ some r
    → r.listed ≡ true
    → Inv (accept_doc now d r m).0
unfolding accept_doc take_doc
accept_doc-Inv now d r m v here listed =
    let r' = take_doc now d r in
    let m1 = put_room m r' in
    after_merge-Inv r.id (finish_merge m1 r').1 (finish_merge m1 r').0
      (finish_merge-Stays m1 r' (take_doc-InvBut now d r m v here) (put_room_self m r') listed)

if-sync-Inv :
    (b : Bool) (x : Matchmaker × List Notice) (m : Matchmaker)
    → Inv x.0
    → Inv m
    → Inv (if◌then◌else◌ {A = Matchmaker × Bool × List Notice} b (x.0, true, x.1) (m, false, [])).0
if-sync-Inv true x m h g = h
if-sync-Inv false x m h g = g

pub sync_doc-Inv :
    (now conn id version : ℕ) (d : Option HostDoc) (m : Matchmaker)
    → Inv m
    → Inv (sync_doc now conn id version d m).0
unfolding sync_doc
sync_doc-Inv now conn id version none m v = v
sync_doc-Inv now conn id version (some d) m v = elim (Option-cases (room_at m id)) [
  | inl e ↦ rw (e, sync_doc) v
  | inr (r, e) ↦
      let (at, listed) = room_at-some m id r e in
      rw (e, sync_doc)
        (if-sync-Inv (may_sync conn version d r) (accept_doc now d r m) m
          (accept_doc-Inv now d r m v (cell-id v at) listed) v)
]
