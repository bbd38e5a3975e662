-- ===== src/Matchmaker/Invariant/Reserving.antt =====
-- startMerge of ctr_merge.go keeps the invariant.
use nextendo_demonware.Common.{
  [], ℕ, ◌+◌, ◌≤◌, min, ◌≡◌, refl, sym, ap, subst, ◌∙◌, ◌≢◌, Bool, true, false, List, ◌∷◌, Option,
  none, some, Option-cases, inl, inr, if◌then◌else◌, arith, All,
}
use nextendo_demonware.Common.Select.{All-map, All-sort_by, keep-passes, bytes_eq→eq}
use nextendo_demonware.Matchmaker.Types.{Room, Matchmaker}
use nextendo_demonware.Matchmaker.Rooms.{put_room, room_at, occupancy, failed, bump, forget}
use nextendo_demonware.Matchmaker.Enqueue.{is_merging, clear_target, fuller}
use nextendo_demonware.Matchmaker.Merge.{
  all_members, can_merge, can_merge_at, merge_candidates, reserved, reserve, merge_first,
  start_merge,
}
use nextendo_demonware.Matchmaker.Occupancy.{occupancy-alone, Clear-at, room_at-some}
use nextendo_demonware.Matchmaker.Invariant.{
  Clear, Inv, Linked, RoomOk, put_room-InvBut, put_room_self, put_room-other,
}
use nextendo_demonware.Matchmaker.Invariant.Change.{
  put_room-free, clear_target-InvBut, bump-Clear, doc_state-forget,
}
use nextendo_demonware.Matchmaker.Invariant.Selecting.{cell-id, clear_target-listed}

-- What the tests of the loop over the sources give.
record Fits (m : Matchmaker) (dst src : Room) : Type 0 where
  other : src.id ≢ dst.id
  alone : src.source ≡ none
  free : src.target ≡ 0
  same_filter : src.host.filter ≡ dst.host.filter
  within_both : occupancy m src + occupancy m dst ≤ min src.capacity dst.capacity

can_merge-Fits : (m : Matchmaker) (dst src : Room) → can_merge m dst src ≡ true → Fits m dst src
unfolding can_merge is_merging
can_merge-Fits m dst src e = record {
  other = λ h. ground arith;
  alone = ground arith;
  free = ground arith;
  same_filter = bytes_eq→eq src.host.filter dst.host.filter (ground arith);
  within_both = ground arith;
}

forget-failed :
    (r : Room) (pids : List ℕ) (source : Option ℕ) (pid : ℕ)
    → failed r pid ≡ false
    → failed (record r { source = source; doc = forget pids r.doc }) pid ≡ false
unfolding failed
forget-failed r pids source pid h = ground (arith, doc_state-forget pids r.doc pid)

reserved-Clear : (dst src : Room) → Clear dst → Clear (reserved dst src)
unfolding reserved
reserved-Clear dst src c = bump-Clear _ (
    All-map _ _ dst.players
      (λ p h.
        All-map _ _ p.members
          (λ pid e. forget-failed dst (all_members src.players) (some src.id) pid e) h)
      c)

reserved-RoomOk : (i : ℕ) (dst src : Room) → RoomOk i dst → RoomOk i (reserved dst src)
unfolding reserved bump
reserved-RoomOk i dst src ok = record {
  same_id = ok.same_id;
  positive = ok.positive;
  at_most_eight = ok.at_most_eight;
  within = ok.within;
  seated = ok.seated;
}

module _ (m : Matchmaker) (v : Inv m) (dst src : Room) (here : m.cell dst.id ≡ some dst)
    (dst_alone : dst.source ≡ none) (dst_free : dst.target ≡ 0) (dst_listed : dst.listed ≡ true)
    (there : m.cell src.id ≡ some src) (src_listed : src.listed ≡ true)
    (fits : Fits m dst src) where
  abbrev src' : Room
  src' = record src { target = dst.id }

  abbrev m1 : Matchmaker
  m1 = put_room m src'

  src'-RoomOk : RoomOk src.id src'
  src'-RoomOk =
      let ok = v.rooms src.id src there in
      record {
        same_id = refl;
        positive = ok.positive;
        at_most_eight = ok.at_most_eight;
        within = ok.within;
        seated = ok.seated;
      }

  first : Inv m1
  unfolding failed
  first =
      put_room-free 0 m src src' v there src_listed fits.free fits.alone src'-RoomOk
        (λ ne. Clear-at v src.id src there)

  dst_there : m1.cell dst.id ≡ some dst
  dst_there = put_room-other m src' dst.id (λ h. fits.other (sym h)) ∙ here

  new_link : Linked dst.id (reserved dst src) src'
  unfolding reserved bump
  new_link = record {
    leaf = fits.alone;
    back = λ h. refl;
    within_both = omega (
      arith,
      fits.within_both,
      occupancy-alone m src (Clear-at v src.id src there) fits.alone,
      occupancy-alone m dst (Clear-at v dst.id dst here) dst_alone,
    );
    same_filter = fits.same_filter;
  }

  reserve-Inv : Inv (reserve m dst src).0
  unfolding reserve reserved bump
  reserve-Inv =
      put_room-InvBut 0 m1 (reserved dst src) first
        (reserved-RoomOk dst.id dst src (first.rooms dst.id dst dst_there))
        (λ ne. reserved-Clear dst src (Clear-at v dst.id dst here))
        (λ l j e.
          let j-src : src.id ≡ j = cc in
          (
            src',
            ap (put_room m1 (reserved dst src)).cell (sym j-src)
                ∙ put_room-other m1 (reserved dst src) src.id fits.other
                ∙ put_room_self m src',
            new_link,
          ))
        λ i q s at l e ne at' lk.
          let same : dst ≡ s = cc (dst_there, at') in
          let back : s.target ≡ i = lk.back (subst (λ x. x.listed ≡ true) same dst_listed) in
          let unbound : s.target ≡ 0 = subst (λ x. x.target ≡ 0) same dst_free in
          absurd (omega (arith, (first.rooms i q at).positive, back, unbound))

-- What the caller knows of a room that may take a source.
record IsFree (m : Matchmaker) (r : Room) : Type 0 where
  here : m.cell r.id ≡ some r
  listed : r.listed ≡ true
  alone : r.source ≡ none
  free : r.target ≡ 0

candidates-can_merge :
    (m : Matchmaker) (dst : Room) → All (λ i. can_merge_at m dst i ≡ true) (merge_candidates m dst)
unfolding merge_candidates
candidates-can_merge m dst = All-sort_by _ (fuller m) _ (keep-passes (can_merge_at m dst) m.ids)

merge_first-Inv :
    (m : Matchmaker) (dst : Room) (is : List ℕ)
    → Inv m
    → IsFree m dst
    → All (λ i. can_merge_at m dst i ≡ true) is
    → Inv (merge_first m dst is).0
unfolding merge_first can_merge_at
merge_first-Inv m dst [] v f h = v
merge_first-Inv m dst (i ∷ is) v f h = elim (Option-cases (room_at m i)) [
  | inl e ↦ rw (e, merge_first) v
  | inr (src, e) ↦
      let (at, listed) = room_at-some m i src e in
      rw (e, merge_first)
        (reserve-Inv m v dst src f.here f.alone f.free f.listed (cell-id v at) listed
          (can_merge-Fits m dst src (rw (e, can_merge_at) at h.0)))
]

if-later-Inv :
    {A : Type 0} (b : Bool) (x y : Matchmaker × A)
    → Inv x.0
    → (b ≡ false → Inv y.0)
    → Inv (if◌then◌else◌ {A = Matchmaker × A} b x y).0
if-later-Inv true x y v w = v
if-later-Inv false x y v w = w refl

pub start_merge-Inv :
    (m : Matchmaker) (r : Room)
    → Inv m
    → m.cell r.id ≡ some r
    → r.listed ≡ true
    → Inv (start_merge m r).0
unfolding start_merge is_merging
start_merge-Inv m r v here listed =
    let r' = clear_target m r in
    let m' = put_room m r' in
    let v' : Inv m' = clear_target-InvBut 0 m r v here in
    if-later-Inv _ (m', []) (merge_first m' r' (merge_candidates m' r')) v'
      λ e.
        merge_first-Inv m' r' (merge_candidates m' r') v'
          (record {
            here = put_room_self m r';
            listed = clear_target-listed m r ∙ listed;
            alone = ground arith;
            free = ground arith;
          })
          (candidates-can_merge m' r')
