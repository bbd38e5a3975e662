-- ===== src/Matchmaker/Notices.antt =====
-- Which guests syncDoc (ctr_async.go) tells that they may join.
use nextendo_demonware.Common.{
  ℕ, ◌≡◌, subst, ◌≢◌, true, false, List, [], ◌∷◌, ◌++◌, arith, All, Bool-cases, inl, inr,
}
use nextendo_demonware.Common.Select.{contains, All-map}
use nextendo_demonware.Matchmaker.Types.{Search}
use nextendo_demonware.Matchmaker.Merge.{conns}
use nextendo_demonware.Matchmaker.Sync.{unnotified}
use nextendo_demonware.Matchmaker.Acceptance.{Distinct}

less_told :
    (c : ℕ) (told : List ℕ) (ps : List Search)
    → All (λ (p : Search). contains p.conn (c ∷ told) ≡ false) ps
    → All (λ (p : Search). contains p.conn told ≡ false) ps
less_told c told [] h = tt
less_told c told (p ∷ ps) (h, hs) = (ground arith, less_told c told ps hs)

others_told :
    (c : ℕ) (told : List ℕ) (ps : List Search)
    → All (λ (p : Search). contains p.conn (c ∷ told) ≡ false) ps
    → All (λ d. d ≢ c) (conns ps)
unfolding conns
others_told c told [] h = tt
others_told c told (p ∷ ps) (h, hs) = (ground arith, others_told c told ps hs)

-- A connection is told to join only if it has not been told before, and not twice at once.
unnotified-Distinct :
    (told : List ℕ) (ps : List Search)
    → All (λ (p : Search). contains p.conn told ≡ false) (unnotified told ps)
      × Distinct (conns (unnotified told ps))
unfolding unnotified conns
unnotified-Distinct told [] = (tt, tt)
unnotified-Distinct told (p ∷ ps) = elim (Bool-cases (contains p.conn told)) [
  | inl e ↦ rw e (unnotified-Distinct told ps)
  | inr e ↦
      let (new, different) = unnotified-Distinct (p.conn ∷ told) ps in
      let rest = unnotified (p.conn ∷ told) ps in
      rw e ((e, less_told p.conn told rest new), (others_told p.conn told rest new, different))
]

contains-append_left :
    (c : ℕ) (xs ys : List ℕ) → contains c xs ≡ true → contains c (xs ++ ys) ≡ true
contains-append_left c [] ys h = cc
contains-append_left c (x ∷ xs) ys h = ground (arith, contains-append_left c xs ys)

contains-append_right :
    (c : ℕ) (xs ys : List ℕ) → contains c ys ≡ true → contains c (xs ++ ys) ≡ true
contains-append_right c [] ys h = h
contains-append_right c (x ∷ xs) ys h = ground (arith, contains-append_right c xs ys h)

contains-move :
    (d c : ℕ) (xs ys : List ℕ) → contains d (c ∷ xs ++ ys) ≡ true → contains d (xs ++ c ∷ ys) ≡ true
contains-move d c [] ys h = h
contains-move d c (x ∷ xs) ys h = ground (arith, contains-move d c xs ys)

head_told : (c : ℕ) (told cs : List ℕ) → contains c (told ++ c ∷ cs) ≡ true
head_told c told cs = contains-append_right c told (c ∷ cs) (ground arith)

-- Every guest's connection is among those told afterwards, those told before included.
unnotified-told :
    (told : List ℕ) (ps : List Search)
    → All (λ (p : Search). contains p.conn (told ++ conns (unnotified told ps)) ≡ true) ps
unfolding unnotified conns
unnotified-told told [] = tt
unnotified-told told (p ∷ ps) =
    let Told = λ (us : List Search).
      All (λ (q : Search). contains q.conn (told ++ conns us) ≡ true) (p ∷ ps) in
    elim (Bool-cases (contains p.conn told)) [
      | inl e ↦
          let same : unnotified told ps ≡ unnotified told (p ∷ ps) = ground (arith, e) in
          subst Told same (contains-append_left p.conn told _ e, unnotified-told told ps)
      | inr e ↦
          let rest = unnotified (p.conn ∷ told) ps in
          let same : p ∷ rest ≡ unnotified told (p ∷ ps) = ground (arith, e) in
          subst Told same (
            head_told p.conn told (conns rest),
            All-map _ _ ps (λ (q : Search) h. contains-move q.conn p.conn told (conns rest) h)
                (unnotified-told (p.conn ∷ told) ps),
          )
    ]

-- A connection is told to join only if it has not been told before, and not twice at once; every
-- guest's connection is among those told afterwards, those told before included.
pub unnotified_lem :
    (told : List ℕ) (ps : List Search)
    → All (λ (p : Search). contains p.conn told ≡ false) (unnotified told ps)
      × Distinct (conns (unnotified told ps))
      × All (λ (p : Search). contains p.conn (told ++ conns (unnotified told ps)) ≡ true) ps
unnotified_lem told ps =
    let (new, different) = unnotified-Distinct told ps in (new, different, unnotified-told told ps)
