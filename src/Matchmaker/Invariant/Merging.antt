-- ===== src/Matchmaker/Invariant/Merging.antt =====
-- startMerge and finishMerge of ctr_merge.go keep the invariant.
use nextendo_demonware.Common.{
  ℕ, ◌≡◌, refl, sym, ap, subst, ◌∙◌, ◌≢◌, Bool, true, false, List, none, some, Option-cases, inl,
  inr, if◌then◌else◌, arith, All-append,
}
use nextendo_demonware.Common.Select.{sum_by-append, All-map}
use nextendo_demonware.Matchmaker.Types.{Room, Matchmaker, Notice}
use nextendo_demonware.Matchmaker.Rooms.{put_room, bump}
use nextendo_demonware.Matchmaker.Merge.{
  is_valid_merge, call_off, called_off, combine, combined, finish_merge,
}
use nextendo_demonware.Matchmaker.Invariant.{
  size, Sits, Clear, InvBut, Linked, RoomOk, put_room-InvBut, put_room_self, put_room-other,
  put_room_cases,
}
use nextendo_demonware.Matchmaker.Invariant.Shrink.{put_room-shrink}
use nextendo_demonware.Matchmaker.Invariant.Change.{untarget-InvBut}
use nextendo_demonware.Matchmaker.Invariant.Leaving.{unlist-Shrinks}

-- A room with a source is itself nobody's source.
module _ {k : ℕ} {m : Matchmaker} (v : InvBut k m) (dst src : Room) {j : ℕ}
    (here : m.cell dst.id ≡ some dst) (listed : dst.listed ≡ true) (has : dst.source ≡ some j)
    (there : m.cell j ≡ some src) where
  link : Linked dst.id dst src
  link =
      let (s, at, l) = v.links dst.id dst here listed j has in
      subst (Linked dst.id dst) (cc (at, there)) l

  src-id : src.id ≡ j
  src-id = (v.rooms j src there).same_id

  ids_differ : src.id ≢ dst.id
  ids_differ h =
      let same : src ≡ dst = cc (there, here, src-id, h) in
      let leaf : dst.source ≡ none = subst (λ x. x.source ≡ none) same link.leaf in cc

  nobodys :
      (dst' : Room) (i : ℕ) (q s : Room) → m.cell dst.id ≡ some s → Linked i q s → Linked i q dst'
  nobodys dst' i q s at l =
      let same : s ≡ dst = cc in
      let leaf : dst.source ≡ none = subst (λ x. x.source ≡ none) same l.leaf in cc

  -- The destination gives up its source and becomes `dst'`.
  detach :
      (dst' : Room)
      → dst'.id ≡ dst.id
      → dst'.source ≡ none
      → RoomOk dst.id dst'
      → (dst.id ≢ k → Clear dst')
      → InvBut k (put_room m dst')
  detach dst' id source ok clear =
      put_room-InvBut k m dst' v (subst (λ x. RoomOk x dst') (sym id) ok)
        (λ ne. clear (subst (λ x. x ≢ k) id ne)) (λ l j src. cc)
        λ i q s at l src ne at' lk. nobodys dst' i q s (subst (λ x. m.cell x ≡ some s) id at') lk

  called_off-RoomOk : RoomOk dst.id (called_off dst)
  unfolding called_off bump
  called_off-RoomOk =
      let ok = v.rooms dst.id dst here in
      record {
        same_id = refl;
        positive = ok.positive;
        at_most_eight = ok.at_most_eight;
        within = ok.within;
        seated = ok.seated;
      }

  kept_src : (dst' : Room) → dst'.id ≡ dst.id → (put_room m dst').cell src.id ≡ some src
  kept_src dst' id =
      put_room-other m dst' src.id (λ h. ids_differ (h ∙ id)) ∙ ap m.cell src-id ∙ there

  call_off-InvBut : dst.id ≡ k → InvBut k (call_off m dst src).0
  unfolding call_off called_off bump
  call_off-InvBut mine =
      untarget-InvBut k (put_room m (called_off dst)) src
        (detach (called_off dst) refl refl called_off-RoomOk (λ ne. absurd (ne mine)))
        (kept_src (called_off dst) refl)
        λ i q at l src' h t.
          let i-dst : i ≡ dst.id = sym t ∙ link.back h in
          elim (put_room_cases m (called_off dst) q i at) [
            | inl (e, g) ↦ cc
            | inr (ne, g) ↦ absurd (ne i-dst)
          ]

  combined-RoomOk : RoomOk dst.id (combined dst src)
  unfolding combined
  combined-RoomOk =
      let ok = v.rooms dst.id dst here in
      record {
        same_id = refl;
        positive = ok.positive;
        at_most_eight = omega (arith, ok.at_most_eight);
        within = omega (arith, sum_by-append size dst.players src.players, link.within_both);
        seated = All-append (Sits dst) dst.players src.players ok.seated (
            All-map (Sits src) (Sits dst) src.players (λ p h. (h.0, h.1 ∙ link.same_filter))
              (v.rooms j src there).seated);
      }

  combine-InvBut : dst.id ≡ k → InvBut k (combine m dst src).0
  unfolding combine combined
  combine-InvBut mine =
      put_room-shrink k _ src (record src { listed = false })
        (detach (combined dst src) refl refl combined-RoomOk (λ ne. absurd (ne mine)))
        (kept_src (combined dst src) refl) (unlist-Shrinks src)

  -- A room with the destination's id stays under it when the source is written too.
  still_here :
      (dst' src' : Room)
      → dst'.id ≡ dst.id
      → src'.id ≡ src.id
      → (put_room (put_room m dst') src').cell dst.id ≡ some dst'
  still_here dst' src' d s =
      put_room-other (put_room m dst') src' dst.id (λ h. ids_differ (sym (h ∙ s)))
      ∙ ap (put_room m dst').cell (sym d)
      ∙ put_room_self m dst'

  -- Either way the destination is still there.
  call_off-here : (r : Room) × ((call_off m dst src).0.cell dst.id ≡ some r) × (r.listed ≡ true)
  unfolding call_off called_off bump
  call_off-here = (called_off dst, still_here _ (record src { target = 0 }) refl refl, listed)

  combine-here : (r : Room) × ((combine m dst src).0.cell dst.id ≡ some r) × (r.listed ≡ true)
  unfolding combine combined
  combine-here = (combined dst src, still_here _ (record src { listed = false }) refl refl, listed)

abbrev pub Stays : ℕ → Matchmaker → Type 0
Stays k m = InvBut k m × ((r : Room) × (m.cell k ≡ some r) × (r.listed ≡ true))

if-Stays :
    (k : ℕ) (b : Bool) (x y : Matchmaker × List Notice)
    → Stays k x.0
    → Stays k y.0
    → Stays k (if◌then◌else◌ {A = Matchmaker × List Notice} b x y).0
if-Stays k true x y h g = h
if-Stays k false x y h g = g

-- With the destination's new document in place the merge is carried out or called off.
pub finish_merge-Stays :
    (m : Matchmaker) (dst : Room)
    → InvBut dst.id m
    → m.cell dst.id ≡ some dst
    → dst.listed ≡ true
    → Stays dst.id (finish_merge m dst).0
unfolding finish_merge
finish_merge-Stays m dst v here listed = elim (Option-cases dst.source) [
  | inl e ↦ rw (e, finish_merge) (v, (dst, here, listed))
  | inr (j, e) ↦
      let (src, there, l) = v.links dst.id dst here listed j e in
      rw (e, finish_merge)
        (rw there (
          if-Stays dst.id (is_valid_merge m dst src) (combine m dst src) (call_off m dst src)
            (
              combine-InvBut v dst src here listed e there refl,
              combine-here v dst src here listed e there,
            )
            (
              call_off-InvBut v dst src here listed e there refl,
              call_off-here v dst src here listed e there,
            )))
]
