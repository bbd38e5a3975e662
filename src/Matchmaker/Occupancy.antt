-- ===== src/Matchmaker/Occupancy.antt =====
-- ctrRoom.occupancy of ctr_async.go, where the invariant holds.
use nextendo_demonware.Common.{
  [], ℕ, ◌+◌, ◌≤◌, ◌≡◌, refl, ap, true, false, not, List, ◌∷◌, none, some, Option-cases, inl, inr,
  length, arith, All,
}
use nextendo_demonware.Common.Select.{sum_by, keep}
use nextendo_demonware.Matchmaker.Types.{Search, Room, Matchmaker}
use nextendo_demonware.Matchmaker.Rooms.{failed, count, occupancy_loop, occupancy, room_at}
use nextendo_demonware.Matchmaker.Invariant.{weight, Clear, NoneFailed, Inv}

keep-none_failed :
    (r : Room) (pids : List ℕ)
    → All (λ pid. failed r pid ≡ false) pids
    → keep (λ pid. not (failed r pid)) pids ≡ pids
keep-none_failed r [] h = refl
keep-none_failed r (pid ∷ pids) (h, hs) = rw h (ap (◌∷◌ pid) (keep-none_failed r pids hs))

count-NoneFailed :
    (r : Room) (ps : List Search)
    → NoneFailed r ps
    → count (λ pid. not (failed r pid)) ps ≡ sum_by (λ s. length s.members) ps
unfolding count
count-NoneFailed r [] h = refl
count-NoneFailed r (p ∷ ps) (h, hs) =
    omega (arith, count-NoneFailed r ps hs, ap length (keep-none_failed r p.members h))

-- Where no merge is prepared the room counts everybody in it.
pub occupancy-alone :
    (m : Matchmaker) (r : Room) → Clear r → r.source ≡ none → occupancy m r ≡ weight r
unfolding occupancy occupancy_loop
occupancy-alone m r c e = rw e (count-NoneFailed r r.players c)

-- With a merge prepared it counts the guests to come too.
occupancy-linked :
    (m : Matchmaker) (r s : Room) (j : ℕ)
    → Clear r
    → Clear s
    → r.source ≡ some j
    → m.cell j ≡ some s
    → s.source ≡ none
    → occupancy m r ≡ weight r + weight s
unfolding occupancy occupancy_loop
occupancy-linked m r s j c d e f g =
    ground (arith, count-NoneFailed r r.players c, count-NoneFailed s s.players d)

pub room_at-some :
    (m : Matchmaker) (i : ℕ) (r : Room)
    → room_at m i ≡ some r
    → (m.cell i ≡ some r) × (r.listed ≡ true)
unfolding room_at
room_at-some m i r e = ground arith

pub Clear-at : {m : Matchmaker} (v : Inv m) (i : ℕ) (r : Room) → m.cell i ≡ some r → Clear r
Clear-at v i r e = v.clear i r e (omega (arith, (v.rooms i r e).positive))

-- No room that is listed holds or has reserved more seats than its capacity, and that is 8 at most.
pub occupancy-le-capacity :
    (m : Matchmaker) (i : ℕ) (r : Room)
    → Inv m
    → room_at m i ≡ some r
    → (occupancy m r ≤ r.capacity) × (r.capacity ≤ 8)
occupancy-le-capacity m i r v e =
    let (here, listed) = room_at-some m i r e in
    let ok = v.rooms i r here in
    let c = Clear-at v i r here in
    elim (Option-cases r.source) [
      | inl x ↦ (omega (arith, occupancy-alone m r c x, ok.within), ok.at_most_eight)
      | inr (j, x) ↦
          let (s, there, l) = v.links i r here listed j x in
          (
            omega (
              arith,
              occupancy-linked m r s j c (Clear-at v j s there) x there l.leaf,
              l.within_both,
            ),
            ok.at_most_eight,
          )
    ]
