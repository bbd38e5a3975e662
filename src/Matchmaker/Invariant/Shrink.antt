-- ===== src/Matchmaker/Invariant/Shrink.antt =====
-- Changes to rooms that only take players out (ctr_async.go): evictions, leaving, releasing.
use nextendo_demonware.Common.{
  ℕ, ◌≤◌, ◌≡◌, refl, sym, ap, subst, ◌∙◌, ◌≢◌, Bool, true, false, Option, none, some, if◌then◌else◌,
  arith, All, ℕ_discrete, ℕ_discrete,
}
use nextendo_demonware.Matchmaker.Types.{Room, Matchmaker}
use nextendo_demonware.Matchmaker.Rooms.{put_room, map_rooms, visit}
use nextendo_demonware.Matchmaker.Invariant.{
  weight, Sits, Clear, InvBut, Linked, RoomOk, put_room-InvBut, put_room-other,
}

-- `r'` is `r` with players taken out.
pub record Loses (r r' : Room) : Type 0 where
  pub same_id : r'.id ≡ r.id
  pub still_listed : r'.listed ≡ true → r.listed ≡ true
  pub same_source : r'.source ≡ r.source
  pub lighter : weight r' ≤ weight r
  pub same_capacity : r'.capacity ≡ r.capacity
  pub same_filter : r'.host.filter ≡ r.host.filter
  pub seated : All (Sits r) r.players → All (Sits r') r'.players

pub record Shrinks (r r' : Room) : Type 0 where
  pub loses : Loses r r'
  pub same_target : r'.target ≡ r.target
  pub clear : Clear r → Clear r'

Loses-refl : (r : Room) → Loses r r
Loses-refl r = record {
  same_id = refl;
  still_listed = λ h. h;
  same_source = refl;
  lighter = omega arith;
  same_capacity = refl;
  same_filter = refl;
  seated = λ h. h;
}

pub Shrinks-refl : (r : Room) → Shrinks r r
Shrinks-refl r = record { loses = Loses-refl r; same_target = refl; clear = λ h. h }

Linked-Loses :
    {i : ℕ} {q q' s s' : Room}
    → Linked i q s
    → Loses q q'
    → Loses s s'
    → (s'.listed ≡ true → s.target ≡ i → s'.target ≡ i)
    → Linked i q' s'
Linked-Loses l a b target = record {
  leaf = b.same_source ∙ l.leaf;
  back = λ x. target x (l.back (b.still_listed x));
  within_both =
      omega (arith, l.within_both, a.lighter, b.lighter, a.same_capacity, b.same_capacity);
  same_filter = b.same_filter ∙ l.same_filter ∙ sym a.same_filter;
}

RoomOk-Loses : {i : ℕ} {r r' : Room} → RoomOk i r → Loses r r' → RoomOk i r'
RoomOk-Loses ok a = record {
  same_id = a.same_id ∙ ok.same_id;
  positive = ok.positive;
  at_most_eight = omega (arith, ok.at_most_eight, a.same_capacity);
  within = omega (arith, ok.within, a.lighter, a.same_capacity);
  seated = a.seated ok.seated;
}

module _ (f : Room → Room) (shrinks : (r : Room) → Shrinks r (f r)) where
  Visited : Room → Option Room → Type 0
  Visited q o = (r : Room) × (o ≡ some r) × Shrinks r q

  if-Shrinks : (b : Bool) (r : Room) → Shrinks r (if b then f r else r)
  if-Shrinks true r = shrinks r
  if-Shrinks false r = Shrinks-refl r

  visit_cases : (o : Option Room) (q : Room) → visit f o ≡ some q → Visited q o
  unfolding visit Visited
  visit_cases none q e = cc
  visit_cases (some r) q e = (r, refl, subst (Shrinks r) (cc) (if-Shrinks r.listed r))

  visit-some :
      (o : Option Room) (r : Room) → o ≡ some r → (q : Room) × (visit f o ≡ some q) × Shrinks r q
  unfolding visit
  visit-some o r e = (if r.listed then f r else r, ap (visit f) e, if-Shrinks r.listed r)

  -- The invariant survives what shrinks each room by itself.
  pub map_rooms-InvBut : (k : ℕ) (m : Matchmaker) → InvBut k m → InvBut k (map_rooms f m)
  unfolding map_rooms Visited
  map_rooms-InvBut k m v = record {
    rooms =
        λ i q e. let (r, g, a) = visit_cases (m.cell i) q e in RoomOk-Loses (v.rooms i r g) a.loses;
    clear = λ i q e ne. let (r, g, a) = visit_cases (m.cell i) q e in a.clear (v.clear i r g ne);
    links = λ i q e listed j src.
        let (r, g, a) = visit_cases (m.cell i) q e in
        let (s, there, l) =
          v.links i r g (a.loses.still_listed listed) j (sym a.loses.same_source ∙ src) in
        let (s', there', b) = visit-some (m.cell j) s there in
        (s', there', Linked-Loses l a.loses b.loses (λ h t. b.same_target ∙ t));
    queued = v.queued;
  }

not_own_source : (r s : Room) {j : ℕ} → s.source ≡ none → some r ≡ some s → r.source ≡ some j → ⊥
not_own_source r s leaf same e = cc

-- A room changes that players may have left, and whose target is kept for those that wait for it.
pub put_room-Loses :
    (k : ℕ) (m : Matchmaker) (r r' : Room)
    → InvBut k m
    → m.cell r'.id ≡ some r
    → Loses r r'
    → (r'.id ≢ k → Clear r')
    → ((i : ℕ) (q : Room)
        → m.cell i ≡ some q
        → q.listed ≡ true
        → q.source ≡ some r'.id
        → r'.listed ≡ true
        → r.target ≡ i
        → r'.target ≡ i)
    → InvBut k (put_room m r')
put_room-Loses k m r r' v e a clear target =
    put_room-InvBut k m r' v (RoomOk-Loses (v.rooms r'.id r e) a) clear
      (λ listed j src.
        let was = a.still_listed listed in
        let src' = sym a.same_source ∙ src in
        let (s, there, l) = v.links r'.id r e was j src' in
        elim (ℕ_discrete j r'.id) [
          | yes x ↦ absurd (not_own_source r s l.leaf (cc (e, there, x)) src')
          | no x ↦ (s, put_room-other m r' j x ∙ there, Linked-Loses l a (Loses-refl s) (λ h t. t))
        ])
      (λ i q s at listed src ne at' l.
        let same : r ≡ s = cc (e, at') in
        Linked-Loses l (Loses-refl q) (subst (λ x. Loses x r') same a)
          (λ h t. target i q at listed src h (subst (λ x. x.target ≡ i) (sym same) t)))

pub put_room-shrink :
    (k : ℕ) (m : Matchmaker) (r r' : Room)
    → InvBut k m
    → m.cell r'.id ≡ some r
    → Shrinks r r'
    → InvBut k (put_room m r')
put_room-shrink k m r r' v e a =
    put_room-Loses k m r r' v e a.loses (λ ne. a.clear (v.clear r'.id r e ne))
      (λ i q at listed src h t. a.same_target ∙ t)
