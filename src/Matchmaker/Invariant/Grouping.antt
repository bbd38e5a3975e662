-- ===== src/Matchmaker/Invariant/Grouping.antt =====
-- The loop of enqueue over the queue (ctr_async.go): what a group satisfies.
use nextendo_demonware.Common.{
  [], ℕ, ◌+◌, ◌≤◌, min, max, ◌≡◌, refl, Bool, true, false, List, ◌∷◌, ◌++◌, if◌then◌else◌, arith,
  All, All-append,
}
use nextendo_demonware.Common.Select.{sum_by, sum_by-append, bytes_eq→eq}
use nextendo_demonware.Matchmaker.Types.{Search}
use nextendo_demonware.Matchmaker.Enqueue.{Group, gather, pick, empty_group}
use nextendo_demonware.Matchmaker.Invariant.{size, SeatsCount}

-- A group, as the loop over the queue builds it.
pub record GroupOk (filter : List ℕ) (g : Group) : Type 0 where
  pub total : sum_by size g.picked ≡ g.seats
  pub counted : All SeatsCount g.picked
  pub filtered : All (λ p. p.filter ≡ filter) g.picked
  pub limits : All (λ p. (p.slots_min ≤ g.minimum) × (g.maximum ≤ p.slots_max)) g.picked
  pub within : g.seats ≤ g.maximum
  pub at_least_two : 2 ≤ g.minimum
  pub at_most_eight : g.maximum ≤ 8

abbrev enlarged : Group → Search → Group
enlarged g p = record {
  picked = g.picked ++ p ∷ [];
  seats = g.seats + p.seats;
  minimum = max g.minimum p.slots_min;
  maximum = min g.maximum p.slots_max;
}

limits-enlarged :
    (g : Group) (p : Search) (qs : List Search)
    → All (λ q. (q.slots_min ≤ g.minimum) × (g.maximum ≤ q.slots_max)) qs
    → All
        (λ q. (q.slots_min ≤ max g.minimum p.slots_min) × (min g.maximum p.slots_max ≤ q.slots_max))
        qs
limits-enlarged g p [] h = tt
limits-enlarged g p (q ∷ qs) ((a, b), h) = ((omega arith, omega arith), limits-enlarged g p qs h)

enlarged-GroupOk :
    (filter : List ℕ) (g : Group) (p : Search)
    → GroupOk filter g
    → SeatsCount p
    → p.filter ≡ filter
    → g.seats + p.seats ≤ min g.maximum p.slots_max
    → GroupOk filter (enlarged g p)
enlarged-GroupOk filter g p ok count same fits = record {
  total = omega (arith, sum_by-append size g.picked (p ∷ []), ok.total, count);
  counted = All-append SeatsCount g.picked (p ∷ []) ok.counted (count, tt);
  filtered = All-append (λ q. q.filter ≡ filter) g.picked (p ∷ []) ok.filtered (same, tt);
  limits =
      All-append _ g.picked (p ∷ []) (limits-enlarged g p g.picked ok.limits)
        ((omega arith, omega arith), tt);
  within = fits;
  at_least_two = omega (arith, ok.at_least_two);
  at_most_eight = omega (arith, ok.at_most_eight);
}

if-GroupOk :
    (filter : List ℕ) (b : Bool) (g g' : Group)
    → GroupOk filter g
    → (b ≡ false → GroupOk filter g')
    → GroupOk filter (if b then g else g')
if-GroupOk filter true g g' ok h = ok
if-GroupOk filter false g g' ok h = h refl

pick-GroupOk :
    (filter : List ℕ) (g : Group) (p : Search)
    → GroupOk filter g
    → SeatsCount p
    → GroupOk filter (pick filter g p)
unfolding pick
pick-GroupOk filter g p ok count = if-GroupOk filter _ g (enlarged g p) ok (λ e.
    enlarged-GroupOk filter g p ok count (bytes_eq→eq p.filter filter (ground arith))
      (ground arith))

gather-GroupOk :
    (filter : List ℕ) (g : Group) (ps : List Search)
    → GroupOk filter g
    → All SeatsCount ps
    → GroupOk filter (gather filter g ps)
unfolding gather
gather-GroupOk filter g [] ok h = ok
gather-GroupOk filter g (p ∷ ps) ok (count, h) =
    gather-GroupOk filter (pick filter g p) ps (pick-GroupOk filter g p ok count) h

empty-GroupOk : (filter : List ℕ) → GroupOk filter empty_group
empty-GroupOk filter = omega arith

-- However long the queue is, the searches that are gathered for a room have its filter; their
-- members fill the counted seats, which are no more than each of them allows and than 8; and the
-- number that is needed to start is at least 2 and at least what each of them asks for.
pub group_lem :
    (filter : List ℕ) (ps : List Search)
    → All SeatsCount ps
    → GroupOk filter (gather filter empty_group ps)
group_lem filter ps h = gather-GroupOk filter empty_group ps (empty-GroupOk filter) h
