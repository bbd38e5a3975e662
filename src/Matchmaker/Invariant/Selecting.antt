-- ===== src/Matchmaker/Invariant/Selecting.antt =====
-- The loop of enqueue over the rooms (ctr_async.go): which room it chooses.
use nextendo_demonware.Common.{
  [], ℕ, ◌+◌, ◌≤◌, min, ◌≡◌, refl, sym, subst, ◌∙◌, Bool, true, false, List, ◌∷◌, Option, none,
  some, Option-cases, inl, inr, if◌then◌else◌, arith,
}
use nextendo_demonware.Common.Select.{bytes_eq→eq}
use nextendo_demonware.Matchmaker.Types.{Search, Room, Matchmaker}
use nextendo_demonware.Matchmaker.Rooms.{put_room, room_at, occupancy}
use nextendo_demonware.Matchmaker.Enqueue.{clear_target, accepts, is_merging, try_rooms}
use nextendo_demonware.Matchmaker.Occupancy.{room_at-some}
use nextendo_demonware.Matchmaker.Invariant.{InvBut, Inv, put_room_self}
use nextendo_demonware.Matchmaker.Invariant.Change.{clear_target-InvBut}

-- A room that is not merging, and whose filter and free seats suit the search.
pub record Suits (m : Matchmaker) (s : Search) (r : Room) : Type 0 where
  pub here : m.cell r.id ≡ some r
  pub listed : r.listed ≡ true
  pub alone : r.source ≡ none
  pub free : r.target ≡ 0
  pub same_filter : s.filter ≡ r.host.filter
  pub room_left : occupancy m r + s.seats ≤ min r.capacity s.slots_max

accepts-Suits :
    (m : Matchmaker) (r : Room) (s : Search)
    → m.cell r.id ≡ some r
    → r.listed ≡ true
    → accepts m r s ≡ true
    → Suits m s r
unfolding accepts is_merging
accepts-Suits m r s here listed e = record {
  here = here;
  listed = listed;
  alone = ground arith;
  free = ground arith;
  same_filter = sym (bytes_eq→eq r.host.filter s.filter (ground arith));
  room_left = ground arith;
}

abbrev pub Chosen : Search → Matchmaker × Option Room → Type 0
Chosen s (m, none) = Inv m
Chosen s (m, some r) = Inv m × Suits m s r

pub clear_target-id : (m : Matchmaker) (r : Room) → (clear_target m r).id ≡ r.id
unfolding clear_target
clear_target-id m r = ground arith

pub clear_target-listed : (m : Matchmaker) (r : Room) → (clear_target m r).listed ≡ r.listed
unfolding clear_target
clear_target-listed m r = ground arith

if-Chosen :
    (s : Search) (b : Bool) (m : Matchmaker) (r : Room) (x : Matchmaker × Option Room)
    → Inv m
    → (b ≡ true → Suits m s r)
    → Chosen s x
    → Chosen s (if b then (m, some r) else x)
if-Chosen s true m r x v h c = (v, h refl)
if-Chosen s false m r x v h c = c

pub cell-id :
    {k : ℕ} {m : Matchmaker} {i : ℕ} {r : Room}
    → InvBut k m
    → m.cell i ≡ some r
    → m.cell r.id ≡ some r
cell-id {m} {i} {r} v at = subst (λ x. m.cell x ≡ some r) (sym (v.rooms i r at).same_id) at

pub try_rooms-Chosen :
    (m : Matchmaker) (s : Search) (is : List ℕ) → Inv m → Chosen s (try_rooms m s is)
unfolding try_rooms
try_rooms-Chosen m s [] v = v
try_rooms-Chosen m s (i ∷ is) v = elim (Option-cases (room_at m i)) [
  | inl e ↦ rw (e, try_rooms) (try_rooms-Chosen m s is v)
  | inr (r, e) ↦
      let (at, listed) = room_at-some m i r e in
      let at' : m.cell r.id ≡ some r = cell-id v at in
      let r' = clear_target m r in
      let m' = put_room m r' in
      let v' : Inv m' = clear_target-InvBut 0 m r v at' in
      rw (e, try_rooms)
        (if-Chosen s (accepts m' r' s) m' r' (try_rooms m' s is) v'
          (accepts-Suits m' r' s (put_room_self m r') (clear_target-listed m r ∙ listed))
          (try_rooms-Chosen m' s is v'))
]
