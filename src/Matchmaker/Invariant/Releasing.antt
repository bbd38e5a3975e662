-- ===== src/Matchmaker/Invariant/Releasing.antt =====
-- syncDoc of ctr_async.go: the host's document is taken, and the players whom it rejects are
-- released.
use nextendo_demonware.Common.{
  [], ℕ, ◌≤◌, ◌≡◌, refl, sym, subst, ◌∙◌, Bool, false, not, List, ◌∷◌, some, inl, inr, length,
  arith, All,
}
use nextendo_demonware.Common.Select.{sum_by, All-map, keep}
use nextendo_demonware.Matchmaker.Types.{Search, HostDoc, Room, Matchmaker}
use nextendo_demonware.Matchmaker.Rooms.{put_room, failed}
use nextendo_demonware.Matchmaker.Sync.{
  release_search, release_players, host_after, released_host, release, take_doc,
}
use nextendo_demonware.Matchmaker.Occupancy.{Clear-at}
use nextendo_demonware.Matchmaker.Invariant.{
  size, SeatsCount, Sits, Clear, InvBut, Inv, put_room_cases,
}
use nextendo_demonware.Matchmaker.Invariant.Shrink.{Loses, put_room-Loses}

weaken : (k : ℕ) (m : Matchmaker) → Inv m → InvBut k m
weaken k m v = record {
  rooms = v.rooms;
  clear = λ i r e ne. Clear-at v i r e;
  links = v.links;
  queued = v.queued;
}

take_doc-Loses : (now : ℕ) (d : HostDoc) (r : Room) → Loses r (take_doc now d r)
unfolding take_doc
take_doc-Loses now d r = record {
  same_id = refl;
  still_listed = λ h. h;
  same_source = refl;
  lighter = omega arith;
  same_capacity = refl;
  same_filter = refl;
  seated = λ h. h;
}

-- With the new document the room may have players whom its host rejects.
pub take_doc-InvBut :
    (now : ℕ) (d : HostDoc) (r : Room) (m : Matchmaker)
    → Inv m
    → m.cell r.id ≡ some r
    → InvBut r.id (put_room m (take_doc now d r))
unfolding take_doc
take_doc-InvBut now d r m v here =
    put_room-Loses r.id m r (take_doc now d r) (weaken r.id m v) here (take_doc-Loses now d r)
      (λ ne. absurd (ne refl)) (λ i q at l src h t. t)

length-keep-le : (p : ℕ → Bool) (xs : List ℕ) → length (keep p xs) ≤ length xs
length-keep-le p [] = omega arith
length-keep-le p (x ∷ xs) = ground (arith, length-keep-le p xs)

kept-passes :
    (r : Room) (xs : List ℕ)
    → All (λ pid. failed r pid ≡ false) (keep (λ pid. not (failed r pid)) xs)
kept-passes r [] = tt
kept-passes r (x ∷ xs) = ground (arith, kept-passes r xs)

release_players-lighter :
    (r : Room) (ps : List Search) → sum_by size (release_players r ps) ≤ sum_by size ps
unfolding release_players release_search
release_players-lighter r [] = omega arith
release_players-lighter r (p ∷ ps) =
    ground
      (arith, release_players-lighter r ps, length-keep-le (λ pid. not (failed r pid)) p.members)

-- Who is left was not rejected, and each search counts the members that it has left.
Left : Room → List ℕ → Search → Type 0
Left r filter p = (SeatsCount p × (p.filter ≡ filter)) × All (λ pid. failed r pid ≡ false) p.members

release_players-Left :
    (r : Room) (filter : List ℕ) (ps : List Search)
    → All (λ p. p.filter ≡ filter) ps
    → All (Left r filter) (release_players r ps)
unfolding release_players release_search Left
release_players-Left r filter [] h = tt
release_players-Left r filter (p ∷ ps) h =
    ground (arith, release_players-Left r filter ps h.1, kept-passes r p.members)

host_after-same :
    (r : Room) (p h : Search)
    → p.filter ≡ h.filter
    → ((host_after r p h).pid ≡ h.pid) × ((host_after r p h).filter ≡ h.filter)
unfolding host_after release_search
host_after-same r p h e = ground arith

-- The host of the room after the release: its pid and filter are the same.
released_host-same :
    (r : Room) (ps : List Search) (h : Search)
    → All (λ p. p.filter ≡ h.filter) ps
    → ((released_host r ps h).pid ≡ h.pid) × ((released_host r ps h).filter ≡ h.filter)
unfolding released_host
released_host-same r [] h a = (refl, refl)
released_host-same r (p ∷ ps) h a =
    let (pid, filter) = host_after-same r p h a.0 in
    let (pid', filter') =
      released_host-same r ps (host_after r p h) (All-map _ _ ps (λ q e. e ∙ sym filter) a.1) in
    (pid' ∙ pid, filter' ∙ filter)

seated-filters : (r : Room) → All (Sits r) r.players → All (λ p. p.filter ≡ r.host.filter) r.players
seated-filters r h = All-map (Sits r) _ r.players (λ p s. s.1) h

release-Loses : (r : Room) → All (Sits r) r.players → Loses r (release r)
unfolding release
release-Loses r h =
    let fs = seated-filters r h in
    let (pid, filter) = released_host-same r r.players r.host fs in
    record {
      same_id = refl;
      still_listed = λ l. l;
      same_source = refl;
      lighter = release_players-lighter r r.players;
      same_capacity = refl;
      same_filter = filter;
      seated = λ _.
          All-map (Left r r.host.filter) _ (release_players r r.players)
            (λ p l. unfold Left in (l.0.0, l.0.1 ∙ sym filter))
            (release_players-Left r r.host.filter r.players fs);
    }

-- After the release nobody in the room is one whom the host has rejected.
failed-of_host :
    (r r' : Room) (pid : ℕ)
    → r'.host.pid ≡ r.host.pid
    → r'.doc ≡ r.doc
    → failed r pid ≡ false
    → failed r' pid ≡ false
unfolding failed
failed-of_host r r' pid h d e = rw (h, d) e

release-Clear : (r : Room) → All (Sits r) r.players → Clear (release r)
unfolding release
release-Clear r h =
    let fs = seated-filters r h in
    let (pid, filter) = released_host-same r r.players r.host fs in
    All-map (Left r r.host.filter) _ (release_players r r.players)
      (λ p l.
        All-map _ _ p.members (λ x e. failed-of_host r (release r) x pid refl e)
          (unfold Left in l.1))
      (release_players-Left r r.host.filter r.players fs)

pub release-Inv :
    (m : Matchmaker) (r : Room)
    → InvBut r.id m
    → m.cell r.id ≡ some r
    → Inv (put_room m (release r))
unfolding release
release-Inv m r v here =
    let seated = (v.rooms r.id r here).seated in
    let w =
      put_room-Loses r.id m r (release r) v here (release-Loses r seated) (λ ne. absurd (ne refl))
        (λ i q at l src h t. t) in
    record {
      rooms = w.rooms;
      clear = λ i q e ne. elim (put_room_cases m (release r) q i e) [
        | inl (h, g) ↦ subst Clear (sym g) (release-Clear r seated)
        | inr (h, g) ↦ v.clear i q g h
      ];
      links = w.links;
      queued = w.queued;
    }
