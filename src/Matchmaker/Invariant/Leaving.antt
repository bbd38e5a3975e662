-- ===== src/Matchmaker/Invariant/Leaving.antt =====
-- Evictions (enqueue), cancel and leave of ctr_async.go keep the invariant.
use nextendo_demonware.Common.{
  ℕ, ◌≡◌, refl, Bool, true, false, not, ◌&&◌, List, ◌==◌, if◌then◌else◌, arith, All,
}
use nextendo_demonware.Common.Select.{
  remove_first, All-keep, All-remove_first, sum_by-remove_first-le,
}
use nextendo_demonware.Matchmaker.Types.{Search, Room, Matchmaker}
use nextendo_demonware.Matchmaker.Rooms.{failed}
use nextendo_demonware.Matchmaker.Enqueue.{evict, evict_room, drop_waiting}
use nextendo_demonware.Matchmaker.Leave.{cancel, leave, leave_room}
use nextendo_demonware.Matchmaker.Invariant.{size, SeatsCount, InvBut, Sits}
use nextendo_demonware.Matchmaker.Invariant.Shrink.{Shrinks, Shrinks-refl, map_rooms-InvBut}

pub unlist-Shrinks : (r : Room) → Shrinks r (record r { listed = false })
unfolding failed
unlist-Shrinks r = record {
  loses = record {
    same_id = refl;
    still_listed = λ h. cc;
    same_source = refl;
    lighter = omega arith;
    same_capacity = refl;
    same_filter = refl;
    seated = λ h. h;
  };
  same_target = refl;
  clear = λ h. h;
}

remove-Shrinks :
    (p : Search → Bool) (told : List ℕ) (r : Room)
    → Shrinks r (record r { players = remove_first p r.players; notified = told })
unfolding failed
remove-Shrinks p told r = record {
  loses = record {
    same_id = refl;
    still_listed = λ h. h;
    same_source = refl;
    lighter = sum_by-remove_first-le size p r.players;
    same_capacity = refl;
    same_filter = refl;
    seated = All-remove_first (Sits r) p r.players;
  };
  same_target = refl;
  clear = All-remove_first (λ q. All (λ pid. failed r pid ≡ false) q.members) p r.players;
}

if-Shrinks : {r a b : Room} (c : Bool) → Shrinks r a → Shrinks r b → Shrinks r (if c then a else b)
if-Shrinks true x y = x
if-Shrinks false x y = y

evict_room-Shrinks : (pid : ℕ) (r : Room) → Shrinks r (evict_room pid r)
unfolding evict_room
evict_room-Shrinks pid r = if-Shrinks (r.host.pid == pid) (unlist-Shrinks r) (remove-Shrinks _ _ r)

leave_room-Shrinks : (conn id : ℕ) (r : Room) → Shrinks r (leave_room conn id r)
unfolding leave_room
leave_room-Shrinks conn id r =
    if-Shrinks (not (id == 0) && not (r.id == id)) (Shrinks-refl r)
      (if-Shrinks (r.host.conn == conn) (unlist-Shrinks r) (remove-Shrinks _ _ r))

-- The queue may be anything that counts its seats.
pub queue-InvBut :
    (k : ℕ) (m : Matchmaker) (ws : List Search)
    → InvBut k m
    → All SeatsCount ws
    → InvBut k (record m { waiting = ws })
queue-InvBut k m ws v h = record { rooms = v.rooms; clear = v.clear; links = v.links; queued = h }

pub evict-InvBut : (k pid : ℕ) (m : Matchmaker) → InvBut k m → InvBut k (evict pid m)
unfolding evict drop_waiting
evict-InvBut k pid m v =
    map_rooms-InvBut (evict_room pid) (evict_room-Shrinks pid) k _
      (queue-InvBut k m _ v (All-keep SeatsCount _ m.waiting v.queued))

pub leave-InvBut : (k conn id : ℕ) (m : Matchmaker) → InvBut k m → InvBut k (leave conn id m)
unfolding leave
leave-InvBut k conn id m v =
    map_rooms-InvBut (leave_room conn id) (leave_room-Shrinks conn id) k _
      (queue-InvBut k m _ v (All-keep SeatsCount _ m.waiting v.queued))

if-InvBut :
    (k : ℕ) (x y : Matchmaker × Bool) (c : Bool)
    → InvBut k x.0
    → InvBut k y.0
    → InvBut k (if◌then◌else◌ {A = Matchmaker × Bool} c x y).0
if-InvBut k x y true v w = v
if-InvBut k x y false v w = w

pub cancel-InvBut : (k conn id : ℕ) (m : Matchmaker) → InvBut k m → InvBut k (cancel conn id m).0
unfolding cancel
cancel-InvBut k conn id m v =
    if-InvBut k _ _ _ (queue-InvBut k m _ v (All-remove_first SeatsCount _ m.waiting v.queued)) v
