-- ===== src/Matchmaker/Invariant/Change.antt =====
-- Changes to one room that is not merging, and the clearing of a stale merge target.
use nextendo_demonware.Common.{
  [], ℕ, ◌+◌, ◌≤◌, min, ◌≡◌, refl, ap, subst, ◌≢◌, Bool, true, false, List, ◌∷◌, none, some,
  Option-cases, inl, inr, if◌then◌else◌, length, arith, All, All-append, ◌⊎◌, ◌==◌,
}
use nextendo_demonware.Common.Select.{sum_by-append, All-map, contains}
use nextendo_demonware.Matchmaker.Types.{Search, HostDoc, Room, Matchmaker}
use nextendo_demonware.Matchmaker.Rooms.{
  put_room, failed, doc_state, state_of, delete_state, delete_states, forget, is_listed, room_at,
  seat, bump,
}
use nextendo_demonware.Matchmaker.Enqueue.{clear_target}
use nextendo_demonware.Matchmaker.Invariant.{
  weight, SeatsCount, Sits, Clear, InvBut, RoomOk, put_room-InvBut,
}
use nextendo_demonware.Matchmaker.Invariant.Shrink.{
  Loses, put_room-shrink, put_room-Loses, Shrinks-refl,
}

-- Nothing points at a room that is not merging, so that it may change as it likes.
pub put_room-free :
    (k : ℕ) (m : Matchmaker) (r r' : Room)
    → InvBut k m
    → m.cell r'.id ≡ some r
    → r.listed ≡ true
    → r.target ≡ 0
    → r'.source ≡ none
    → RoomOk r'.id r'
    → (r'.id ≢ k → Clear r')
    → InvBut k (put_room m r')
put_room-free k m r r' v e listed free source ok clear =
    put_room-InvBut k m r' v ok clear (λ _ j src. cc)
      λ i q s at listed' src ne at' l.
        let same : r ≡ s = cc (e, at') in
        let back : s.target ≡ i = l.back (subst (λ (x : Room). x.listed ≡ true) same listed) in
        let unbound : s.target ≡ 0 = subst (λ (x : Room). x.target ≡ 0) same free in
        absurd (omega (arith, (v.rooms i q at).positive, back, unbound))

-- A room that is added under an id of its own.
pub put_room-fresh :
    (k : ℕ) (m : Matchmaker) (r' : Room)
    → InvBut k m
    → m.cell r'.id ≡ none
    → r'.source ≡ none
    → RoomOk r'.id r'
    → (r'.id ≢ k → Clear r')
    → InvBut k (put_room m r')
put_room-fresh k m r' v e source ok clear =
    put_room-InvBut k m r' v ok clear (λ _ j src. cc) (λ i q s at listed src ne at' l. cc)

is_listed-at :
    (m : Matchmaker) (i : ℕ) (q : Room) → m.cell i ≡ some q → q.listed ≡ true → is_listed m i ≡ true
unfolding is_listed room_at
is_listed-at m i q e h = ground arith

-- Where the target is gone, no room that is listed waits for this one.
untarget-Loses : (r : Room) → Loses r (record r { target = 0 })
untarget-Loses r = record {
  same_id = refl;
  still_listed = λ h. h;
  same_source = refl;
  lighter = omega arith;
  same_capacity = refl;
  same_filter = refl;
  seated = λ h. h;
}

-- The target goes where no room that is listed has this one as its source and is its target.
pub untarget-InvBut :
    (k : ℕ) (m : Matchmaker) (r : Room)
    → InvBut k m
    → m.cell r.id ≡ some r
    → ((i : ℕ) (q : Room)
        → m.cell i ≡ some q
        → q.listed ≡ true
        → q.source ≡ some r.id
        → r.listed ≡ true
        → r.target ≡ i
        → ⊥)
    → InvBut k (put_room m (record r { target = 0 }))
unfolding failed
untarget-InvBut k m r v e nobody =
    put_room-Loses k m r (record r { target = 0 }) v e (untarget-Loses r)
      (λ ne. v.clear r.id r e ne) (λ i q at listed src h t. absurd (nobody i q at listed src h t))

same-InvBut :
    (k : ℕ) (m : Matchmaker) (r : Room)
    → InvBut k m
    → m.cell r.id ≡ some r
    → InvBut k (put_room m r)
same-InvBut k m r v e = put_room-shrink k m r r v e (Shrinks-refl r)

if-untarget-InvBut :
    (k : ℕ) (m : Matchmaker) (r : Room) (b : Bool)
    → InvBut k m
    → m.cell r.id ≡ some r
    → (b ≡ true → is_listed m r.target ≡ false)
    → InvBut k (put_room m (if b then record r { target = 0 } else r))
if-untarget-InvBut k m r true v e gone =
    untarget-InvBut k m r v e
      (λ i q at listed src h t. cc (ap (is_listed m) t, gone refl, is_listed-at m i q at listed))
if-untarget-InvBut k m r false v e gone = same-InvBut k m r v e

pub clear_target-InvBut :
    (k : ℕ) (m : Matchmaker) (r : Room)
    → InvBut k m
    → m.cell r.id ≡ some r
    → InvBut k (put_room m (clear_target m r))
unfolding clear_target
clear_target-InvBut k m r v e = if-untarget-InvBut k m r _ v e (λ h. ground arith)

-- A state that is forgotten is 0.
state_of-delete :
    (pid q : ℕ) (s : List (ℕ × ℕ))
    → state_of pid (delete_state q s) ≡ (if q == pid then 0 else state_of pid s)
unfolding state_of delete_state
state_of-delete pid q [] = ground arith
state_of-delete pid q ((p, v) ∷ s) = ground (arith, state_of-delete pid q s)

state_of-delete_states :
    (pid : ℕ) (qs : List ℕ) (s : List (ℕ × ℕ))
    → state_of pid (delete_states qs s) ≡ (if contains pid qs then 0 else state_of pid s)
unfolding delete_states
state_of-delete_states pid [] s = refl
state_of-delete_states pid (q ∷ qs) s =
    ground (arith, state_of-delete_states pid qs (delete_state q s), state_of-delete pid q s)

pub doc_state-forget :
    (pids : List ℕ) (d : HostDoc) (pid : ℕ)
    → doc_state (forget pids d) pid ≡ (if contains pid pids then 0 else doc_state d pid)
unfolding doc_state forget
doc_state-forget pids d pid = elim (Option-cases d.states) [
  | inl e ↦ ground arith
  | inr (s, e) ↦ ground (arith, state_of-delete_states pid pids s)
]

contains-cons : (x a : ℕ) (xs : List ℕ) → contains a xs ≡ true → contains a (x ∷ xs) ≡ true
contains-cons x a xs h = ground arith

contains-All : (xs : List ℕ) → All (λ a. contains a xs ≡ true) xs
contains-All [] = tt
contains-All (x ∷ xs) =
    (ground arith, All-map _ _ xs (λ a h. contains-cons x a xs h) (contains-All xs))

-- With a seat taken nobody fails who did not before, and no new player does.
seat-failed :
    (s : Search) (r : Room) (pid : ℕ)
    → (failed r pid ≡ false) ⊎ (contains pid s.members ≡ true)
    → failed (seat s r) pid ≡ false
unfolding failed seat
seat-failed s r pid h = ground (arith, doc_state-forget s.members r.doc pid)

pub seat-Clear : (s : Search) (r : Room) → Clear r → Clear (seat s r)
unfolding seat
seat-Clear s r c =
    All-append _ r.players (s ∷ [])
      (All-map _ _ r.players (λ p h. All-map _ _ p.members (λ pid e. seat-failed s r pid (inl e)) h)
        c)
      (All-map _ _ s.members (λ pid e. seat-failed s r pid (inr e)) (contains-All s.members), tt)

pub seat-RoomOk :
    (i : ℕ) (s : Search) (r : Room)
    → RoomOk i r
    → SeatsCount s
    → s.filter ≡ r.host.filter
    → weight r + s.seats ≤ min r.capacity s.slots_max
    → RoomOk i (seat s r)
unfolding seat
seat-RoomOk i s r ok count filter fits = record {
  same_id = ok.same_id;
  positive = ok.positive;
  at_most_eight = omega (arith, ok.at_most_eight);
  within =
      omega
        (arith, sum_by-append (λ (p : Search). length p.members) r.players (s ∷ []), fits, count);
  seated = All-append (Sits r) r.players (s ∷ []) ok.seated ((count, filter), tt);
}

pub bump-RoomOk : (i : ℕ) (r : Room) → RoomOk i r → RoomOk i (bump r)
unfolding bump
bump-RoomOk i r ok = record {
  same_id = ok.same_id;
  positive = ok.positive;
  at_most_eight = ok.at_most_eight;
  within = ok.within;
  seated = ok.seated;
}

pub bump-Clear : (r : Room) → Clear r → Clear (bump r)
unfolding bump failed doc_state
bump-Clear r c = c
