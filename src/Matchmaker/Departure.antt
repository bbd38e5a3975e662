-- ===== src/Matchmaker/Departure.antt =====
-- Whom leave, cancel and the loops of enqueue remove (ctr_async.go).
use mathlib.Core.List.{Mem, mem-cons_self, mem-cons_of_mem}
use nextendo_demonware.Common.{
  [], ℕ, suc, ◌≡◌, refl, sym, ap, ◌∙◌, ◌≢◌, ◌⊎◌, Bool, true, false, not, ◌&&◌, List, ◌∷◌, Option,
  none, some, ◌==◌, if◌then◌else◌, subst, length, arith, All, Option-cases, inl, inr, Bool-cases,
}
use nextendo_demonware.Common.Select.{keep, remove_first, any, All-map, keep-passes}
use nextendo_demonware.Matchmaker.Types.{Search, Room, Matchmaker}
use nextendo_demonware.Matchmaker.Rooms.{room_at, visit, map_rooms}
use nextendo_demonware.Matchmaker.Enqueue.{drop_waiting, evict_room, evict}
use nextendo_demonware.Matchmaker.Leave.{cancel, leave_room, leave}

visit-some :
    (f : Room → Room) (o : Option Room) (r : Room)
    → visit f o ≡ some r
    → r.listed ≡ true
    → ((q : Room) → (f q).listed ≡ true → q.listed ≡ true)
    → (q : Room) × (o ≡ some q) × (q.listed ≡ true) × (r ≡ f q)
unfolding visit
visit-some f none r e l h = cc
visit-some f (some q) r e l h = elim (Bool-cases q.listed) [
  | inl y ↦ (q, refl, y, ground arith)
  | inr n ↦ absurd (ground arith)
]

-- A room that is in the table after the loop is what the loop made of one that was.
map_rooms-room_at :
    (f : Room → Room) (m : Matchmaker) (i : ℕ) (r : Room)
    → ((q : Room) → (f q).listed ≡ true → q.listed ≡ true)
    → room_at (map_rooms f m) i ≡ some r
    → (q : Room) × (room_at m i ≡ some q) × (r ≡ f q) × (r.listed ≡ true)
unfolding room_at map_rooms
map_rooms-room_at f m i r h e = elim (Option-cases (visit f (m.cell i))) [
  | inl n ↦ ground arith
  | inr (r', y) ↦
      let (q, at, l, same) = visit-some f (m.cell i) r' y (ground arith) h in
      (q, ground arith, ground arith, ground arith)
]

evict_room-listed : (pid : ℕ) (q : Room) → (evict_room pid q).listed ≡ true → q.listed ≡ true
unfolding evict_room
evict_room-listed pid q h = ground arith

evict_room-host : (pid : ℕ) (q : Room) → (evict_room pid q).listed ≡ true → q.host.pid ≢ pid
unfolding evict_room
evict_room-host pid q h = ground arith

-- A call names all rooms, by the id 0, or one.
abbrev Named : ℕ → Room → Type 0
Named id q = (id ≡ 0) ⊎ (q.id ≡ id)

-- What becomes of an entry of the table: nothing was there; or a room that the call names and whose
-- host leaves is gone; or the room stays, without the connection where the call names it.
pub data Left (conn id : ℕ) (before after : Option Room) : Type 0 where
  no_room : before ≡ none → after ≡ none → Left conn id before after
  gone :
      (q : Room)
      → before ≡ some q
      → q.host.conn ≡ conn
      → Named id q
      → after ≡ none
      → Left conn id before after
  without :
      (q : Room)
      → before ≡ some q
      → q.host.conn ≢ conn
      → Named id q
      → after ≡ some (record q { players = remove_first (λ p. p.conn == conn) q.players })
      → Left conn id before after
  not_named :
      (q : Room) → before ≡ some q → id ≢ 0 → q.id ≢ id → after ≡ before → Left conn id before after

leave-waiting :
    (conn : ℕ) (ps : List Search)
    → All (λ p. (p.conn ≡ conn) ⊎ Mem p (keep (λ (p : Search). not (p.conn == conn)) ps)) ps
leave-waiting conn [] = tt
leave-waiting conn (p ∷ ps) =
    let rest : List Search = keep (λ (p : Search). not (p.conn == conn)) ps in
    let split : List Search → Type 0 = λ l. All (λ q. (q.conn ≡ conn) ⊎ Mem q l) (p ∷ ps) in
    elim (Bool-cases (p.conn == conn)) [
      | inl e ↦
          subst split (ap (λ b. if not b then p ∷ rest else rest) (sym e))
            (inl (ground arith), leave-waiting conn ps)
      | inr e ↦ subst split (ap (λ b. if not b then p ∷ rest else rest) (sym e)) (
        inr mem-cons_self,
        All-map _ _ ps
            (λ q (h : (q.conn ≡ conn) ⊎ Mem q rest). elim h [
              | inl k ↦ inl k
              | inr k ↦ inr (mem-cons_of_mem p k)
            ])
            (leave-waiting conn ps),
      )
    ]

abbrev entry : Option Room → Option Room
entry none = none
entry (some r) = if r.listed then some r else none

entry-listed : (r : Room) → r.listed ≡ true → entry (some r) ≡ some r
entry-listed r l = ap (λ b. if b then some r else none) l

entry-unlisted : (r : Room) → r.listed ≡ false → entry (some r) ≡ none
entry-unlisted r l = ap (λ b. if b then some r else none) l

visit-listed : (f : Room → Room) (r : Room) → r.listed ≡ true → visit f (some r) ≡ some (f r)
unfolding visit
visit-listed f r l = ap (λ b. some (if b then f r else r)) l

leave_room-Left :
    (conn id : ℕ) (q : Room)
    → q.listed ≡ true
    → Left conn id (some q) (entry (some (leave_room conn id q)))
unfolding leave_room
leave_room-Left conn id q l =
    let without_it : Room = record q { players = remove_first (λ p. p.conn == conn) q.players } in
    let closed : Room = record q { listed = false } in
    let mine : Room = if q.host.conn == conn then closed else without_it in
    elim (Bool-cases (not (id == 0) && not (q.id == id))) [
      | inl e ↦
          not_named q refl (ground arith) (ground arith)
            (ap (λ b. entry (some (if b then q else mine))) e ∙ entry-listed q l)
      | inr e ↦
          let named : Named id q = ground arith in
          let same : entry (some (leave_room conn id q)) ≡ entry (some mine) =
            ap (λ b. entry (some (if b then q else mine))) e in
          elim (Bool-cases (q.host.conn == conn)) [
            | inl f ↦
                gone q refl (ground arith) named
                  (same ∙ ap (λ b. entry (some (if b then closed else without_it))) f)
            | inr f ↦ without q refl (ground arith) named (
                same
                ∙ ap (λ b. entry (some (if b then closed else without_it))) f
                ∙ entry-listed without_it l)
          ]
    ]

visit-Left :
    (conn id : ℕ) (o : Option Room) → Left conn id (entry o) (entry (visit (leave_room conn id) o))
unfolding visit
visit-Left conn id none = no_room refl refl
visit-Left conn id (some q) = elim (Bool-cases q.listed) [
  | inl l ↦
      subst (λ (b : Option Room). Left conn id b (entry (visit (leave_room conn id) (some q))))
        (sym (entry-listed q l))
        (subst (λ (b : Option Room). Left conn id (some q) (entry b))
          (sym (visit-listed (leave_room conn id) q l)) (leave_room-Left conn id q l))
  | inr l ↦
      no_room (entry-unlisted q l)
        (ap (λ b. entry (some (if b then leave_room conn id q else q))) l ∙ entry-unlisted q l)
]

-- After a connection has left, no search of it waits, and every other search does that waited before;
-- of the rooms that the call names, all by the id 0 or one, those are gone whose host it is, and the
-- others lose its first player; every other room stays as it is.
pub leave_lem :
    (conn id i : ℕ) (m : Matchmaker)
    → All (λ (p : Search). p.conn ≢ conn) (leave conn id m).waiting
      × All (λ p. (p.conn ≡ conn) ⊎ Mem p (leave conn id m).waiting) m.waiting
      × Left conn id (room_at m i) (room_at (leave conn id m) i)
unfolding leave room_at map_rooms
leave_lem conn id i m = (
  All-map _ _ _ (λ p h. ground arith) (keep-passes _ m.waiting),
  leave-waiting conn m.waiting,
  visit-Left conn id (m.cell i),
)

-- Before an account's search is queued, no earlier search of it waits; and a room that is still in
-- the table was there before, with another account as its host.
evict_lem :
    (pid i : ℕ) (m : Matchmaker) (r : Room)
    → room_at (evict pid m) i ≡ some r
    → All (λ (p : Search). p.pid ≢ pid) (evict pid m).waiting
      × ((q : Room) × (room_at m i ≡ some q) × (r ≡ evict_room pid q) × (q.host.pid ≢ pid))
unfolding evict drop_waiting room_at map_rooms
evict_lem pid i m r e =
    let (q, at, same, l) =
      map_rooms-room_at (evict_room pid) (record m { waiting = drop_waiting pid m.waiting }) i r
        (evict_room-listed pid) e in
    (
      All-map _ _ _ (λ p h. ground arith) (keep-passes _ m.waiting),
      (q, at, same, evict_room-host pid q (ap (λ x. x.listed) (sym same) ∙ l)),
    )

length-remove_first :
    {A : Type 0} (p : A → Bool) (xs : List A)
    → any p xs ≡ true
    → suc (length (remove_first p xs)) ≡ length xs
length-remove_first p [] h = cc
length-remove_first p (x ∷ xs) h = ground (arith, length-remove_first p xs)

remove_first-length :
    {A : Type 0} (p : A → Bool) (xs : List A) → any p xs ≡ false → remove_first p xs ≡ xs
remove_first-length p [] h = refl
remove_first-length p (x ∷ xs) h = ground (arith, remove_first-length p xs)

-- A cancel takes one search out of the queue and reports success, where one with the connection and
-- the id of the call waits; else it reports failure, and nothing changes.
cancel_lem :
    (conn id : ℕ) (m : Matchmaker)
    → let (n, done) = cancel conn id m in
      let waits = any (λ (p : Search). p.conn == conn && p.id == id) m.waiting in
      ((waits ≡ true)
        × (done ≡ true)
        × (suc (length n.waiting) ≡ length m.waiting)
        × (n.cell ≡ m.cell))
      ⊎ ((waits ≡ false) × (done ≡ false) × (n ≡ m))
unfolding cancel
cancel_lem conn id m =
    elim (Bool-cases (any (λ (p : Search). p.conn == conn && p.id == id) m.waiting)) [
      | inl e ↦ rw e (inl (refl, refl, length-remove_first _ m.waiting e, refl))
      | inr e ↦ rw e (inr (refl, refl, refl))
    ]
