-- ===== src/Matchmaker/Invariant.antt =====
-- What every state of the matchmaker (ctr_async.go) satisfies between two calls.
pub mod Shrink
pub mod Change
pub mod Leaving
pub mod Selecting
pub mod Grouping
pub mod Queue
pub mod Merging
pub mod Reserving
pub mod Releasing
pub mod Syncing
use nextendo_demonware.Common.{
  ℕ, ◌+◌, ◌≤◌, ◌<◌, min, ◌≡◌, ap, ◌≢◌, true, false, List, none, some, length, arith, All, ◌⊎◌, inl,
  inr, ℕ_discrete, ◌∙◌,
}
use nextendo_demonware.Common.Select.{sum_by}
use nextendo_demonware.Matchmaker.Types.{Search, Room, Matchmaker}
use nextendo_demonware.Matchmaker.Rooms.{put_room, failed}

abbrev pub size : Search → ℕ
size s = length s.members

-- People in the room, the merge source left aside.
abbrev pub weight : Room → ℕ
weight r = sum_by size r.players

abbrev pub SeatsCount : Search → Type 0
SeatsCount s = s.seats ≡ length s.members

abbrev pub Sits : Room → Search → Type 0
Sits r s = SeatsCount s × (s.filter ≡ r.host.filter)

-- The host has rejected nobody who is in the room.
abbrev pub NoneFailed : Room → List Search → Type 0
NoneFailed r ps = All (λ p. All (λ pid. failed r pid ≡ false) p.members) ps

abbrev pub Clear : Room → Type 0
Clear r = NoneFailed r r.players

pub record RoomOk (i : ℕ) (r : Room) : Type 0 where
  pub same_id : r.id ≡ i
  pub positive : 0 < i
  pub at_most_eight : r.capacity ≤ 8
  pub within : weight r ≤ r.capacity
  pub seated : All (Sits r) r.players

-- `s` is the merge source of the room `r`, whose id is `i`.
pub record Linked (i : ℕ) (r s : Room) : Type 0 where
  pub leaf : s.source ≡ none
  pub back : s.listed ≡ true → s.target ≡ i
  pub within_both : weight r + weight s ≤ min r.capacity s.capacity
  pub same_filter : s.host.filter ≡ r.host.filter

abbrev HasLink : Matchmaker → ℕ → Room → Type 0
HasLink m i r =
    r.listed ≡ true → (j : ℕ) → r.source ≡ some j → (s : Room) × (m.cell j ≡ some s) × Linked i r s

-- The invariant, where the room `k` may have players whom its host has rejected.
pub record InvBut (k : ℕ) (m : Matchmaker) : Type 0 where
  pub rooms : (i : ℕ) (r : Room) → m.cell i ≡ some r → RoomOk i r
  pub clear : (i : ℕ) (r : Room) → m.cell i ≡ some r → i ≢ k → Clear r
  pub links : (i : ℕ) (r : Room) → m.cell i ≡ some r → HasLink m i r
  pub queued : All SeatsCount m.waiting

-- No room has the id 0.
abbrev pub Inv : Matchmaker → Type 0
Inv = InvBut 0

pub put_room_self : (m : Matchmaker) (r : Room) → (put_room m r).cell r.id ≡ some r
unfolding put_room
put_room_self m r = ground arith

pub put_room-other :
    (m : Matchmaker) (r : Room) (j : ℕ) → j ≢ r.id → (put_room m r).cell j ≡ m.cell j
unfolding put_room
put_room-other m r j h = ground arith

-- What is in a cell after a write is the room written, or was there before.
pub put_room_cases :
    (m : Matchmaker) (r q : Room) (i : ℕ)
    → (put_room m r).cell i ≡ some q
    → ((i ≡ r.id) × (q ≡ r)) ⊎ ((i ≢ r.id) × (m.cell i ≡ some q))
unfolding put_room
put_room_cases m r q i e = elim (ℕ_discrete i r.id) [
  | yes h ↦ inl (h, ground arith)
  | no h ↦ inr (h, ground arith)
]

-- A room changes to `r`, or is added: its own link and the links to it must hold again.
module _ (k : ℕ) (m : Matchmaker) (r : Room) (v : InvBut k m) where
  pub put_room-InvBut :
      RoomOk r.id r
      → (r.id ≢ k → Clear r)
      → HasLink (put_room m r) r.id r
      → ((i : ℕ) (q s : Room)
          → m.cell i ≡ some q
          → q.listed ≡ true
          → q.source ≡ some r.id
          → i ≢ r.id
          → m.cell r.id ≡ some s
          → Linked i q s
          → Linked i q r)
      → InvBut k (put_room m r)
  put_room-InvBut ok clear own others = record {
    rooms = λ i q e. elim (put_room_cases m r q i e) [
      | inl (h, g) ↦ rw (h, g) ok
      | inr (h, g) ↦ v.rooms i q g
    ];
    clear = λ i q e ne. elim (put_room_cases m r q i e) [
      | inl (h, g) ↦ rw g (clear (λ x. ne (h ∙ x)))
      | inr (h, g) ↦ v.clear i q g ne
    ];
    links = λ i q e. elim (put_room_cases m r q i e) [
      | inl (h, g) ↦ rw (h, g) own
      | inr (h, g) ↦ λ listed j src. link i q h listed j src (v.links i q g listed j src) g
    ];
    queued = unfold put_room in v.queued;
  }
    where
      link :
          (i : ℕ) (q : Room)
          → i ≢ r.id
          → q.listed ≡ true
          → (j : ℕ) → q.source ≡ some j
          → (s : Room) × (m.cell j ≡ some s) × Linked i q s
          → m.cell i ≡ some q
          → (s : Room) × ((put_room m r).cell j ≡ some s) × Linked i q s
      link i q h listed j src (s, e, l) g = elim (ℕ_discrete j r.id) [
        | yes x ↦
            (r, (rw x (put_room_self m r)), others i q s g listed (src ∙ ap some x) h (rw x at e) l)
        | no x ↦ (s, put_room-other m r j x ∙ e, l)
      ]
