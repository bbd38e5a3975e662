-- ===== src/Stats/Order.antt =====
-- Which rows of a board are read, in which order and with which ranks (ctr_stats.go).
use mathlib.Core.List.{Perm, perm_middle, map-append}
use mathlib.Core.List.Perm
use nextendo_demonware.Common.{
  ℕ, suc, ◌<◌, ◌≤◌, ◌≡◌, ◌⊎◌, refl, true, false, List, [], ◌∷◌, ◌++◌, map, ◌==◌, ◌≢◌, if◌then◌else◌,
  arith, All, sym, ap, subst, ◌∙◌, Bool-cases, inl, inr,
}
use nextendo_demonware.Common.Int.{ℤ, pos, negsuc, ltb_ℤ}
use nextendo_demonware.Common.Select.{
  keep, keep-passes, sort_by, insert_by, All-insert_by, All-sort_by, All-map,
}
use nextendo_demonware.Stats.Types.{Stat}
use nextendo_demonware.Stats.Store.{better, rank_from, read}

-- a is less than b.
abbrev IsLess : ℤ → ℤ → Type 0
IsLess (pos m) (pos n) = m < n
IsLess (pos m) (negsuc n) = ⊥
IsLess (negsuc m) (pos n) = Unit
IsLess (negsuc m) (negsuc n) = n < m

-- A row may stand before another that has a lower score, or the same one and no smaller account.
abbrev MayPrecede : Stat → Stat → Type 0
MayPrecede a b = IsLess b.score a.score ⊎ (a.score ≡ b.score) × (a.pid ≤ b.pid)

-- Each row may stand before all that follow.
abbrev Ordered : List Stat → Type 0
Ordered [] = Unit
Ordered (s ∷ rest) = All (MayPrecede s) rest × Ordered rest

-- The ranks count up from n.
abbrev Ranked : ℕ → List Stat → Type 0
Ranked n [] = Unit
Ranked n (s ∷ rest) = (s.rank ≡ n) × Ranked (suc n) rest

-- How scores and accounts are compared, without the rows.
IsLess-ltb : (x y : ℤ) → ltb_ℤ x y ≡ true → IsLess x y
IsLess-ltb (pos m) (pos n) h = ground arith
IsLess-ltb (pos m) (negsuc n) h = ground arith
IsLess-ltb (negsuc m) (pos n) h = tt
IsLess-ltb (negsuc m) (negsuc n) h = ground arith

same_score : (x y : ℤ) → ltb_ℤ x y ≡ false → ltb_ℤ y x ≡ false → x ≡ y
same_score (pos m) (pos n) h k = ap pos (ground arith)
same_score (pos m) (negsuc n) h k = absurd (ground arith)
same_score (negsuc m) (pos n) h k = absurd (ground arith)
same_score (negsuc m) (negsuc n) h k = ap negsuc (ground arith)

IsLess-trans : (x y z : ℤ) → IsLess x y → IsLess y z → IsLess x z
IsLess-trans (pos m) (pos n) (pos l) h k = omega arith
IsLess-trans (negsuc m) (pos n) (pos l) h k = tt
IsLess-trans (negsuc m) (negsuc n) (pos l) h k = tt
IsLess-trans (negsuc m) (negsuc n) (negsuc l) h k = omega arith
IsLess-trans (pos m) (negsuc n) z h k = absurd h
IsLess-trans (negsuc m) (pos n) (negsuc l) h k = absurd k
IsLess-trans (pos m) (pos n) (negsuc l) h k = absurd k

MayPrecede-trans : (a b c : Stat) → MayPrecede a b → MayPrecede b c → MayPrecede a c
MayPrecede-trans a b c (inl h) (inl k) = inl (IsLess-trans c.score b.score a.score k h)
MayPrecede-trans a b c (inl h) (inr (e, k)) = inl (subst (λ x. IsLess x a.score) e h)
MayPrecede-trans a b c (inr (e, h)) (inl k) = inl (subst (IsLess c.score) (sym e) k)
MayPrecede-trans a b c (inr (e, h)) (inr (f, k)) = inr (e ∙ f, omega arith)

better-MayPrecede : (a b : Stat) → better a b ≡ true → MayPrecede a b
unfolding better
better-MayPrecede a b h = elim (Bool-cases (ltb_ℤ b.score a.score)) [
  | inl e ↦ inl (IsLess-ltb b.score a.score e)
  | inr e ↦ elim (Bool-cases (ltb_ℤ a.score b.score)) [
    | inl f ↦ absurd (ground arith)
    | inr f ↦ inr (same_score a.score b.score f e, ground arith)
  ]
]

not_better-MayPrecede : (a b : Stat) → better b a ≡ false → MayPrecede a b
unfolding better
not_better-MayPrecede a b h = elim (Bool-cases (ltb_ℤ b.score a.score)) [
  | inl e ↦ inl (IsLess-ltb b.score a.score e)
  | inr e ↦ elim (Bool-cases (ltb_ℤ a.score b.score)) [
    | inl f ↦ absurd (ground arith)
    | inr f ↦ inr (same_score a.score b.score f e, ground arith)
  ]
]

insert_by-Ordered : (x : Stat) (ys : List Stat) → Ordered ys → Ordered (insert_by better x ys)
insert_by-Ordered x [] h = (tt, tt)
insert_by-Ordered x (y ∷ ys) (h, o) = elim (Bool-cases (better y x)) [
  | inl e ↦ rw e (
    All-insert_by (MayPrecede y) better x ys (better-MayPrecede y x e) h,
    insert_by-Ordered x ys o,
  )
  | inr e ↦
      let first = not_better-MayPrecede x y e in
      rw e ((first, All-map _ _ ys (λ t. MayPrecede-trans x y t first) h), (h, o))
]

sort_by-Ordered : (xs : List Stat) → Ordered (sort_by better xs)
sort_by-Ordered [] = tt
sort_by-Ordered (x ∷ xs) = insert_by-Ordered x (sort_by better xs) (sort_by-Ordered xs)

rank_from-All :
    (n m : ℕ) (s : Stat) (rest : List Stat)
    → All (MayPrecede s) rest
    → All (MayPrecede (record s { rank = m })) (rank_from n rest)
unfolding rank_from
rank_from-All n m s [] h = tt
rank_from-All n m s (t ∷ rest) (h, hs) = (h, rank_from-All (suc n) m s rest hs)

rank_from-Ordered : (n : ℕ) (rows : List Stat) → Ordered rows → Ordered (rank_from n rows)
unfolding rank_from
rank_from-Ordered n [] h = tt
rank_from-Ordered n (s ∷ rest) (h, o) =
    (rank_from-All (suc n) n s rest h, rank_from-Ordered (suc n) rest o)

rank_from-Ranked : (n : ℕ) (rows : List Stat) → Ranked n (rank_from n rows)
unfolding rank_from
rank_from-Ranked n [] = tt
rank_from-Ranked n (s ∷ rest) = (refl, rank_from-Ranked (suc n) rest)

-- A row as it is stored, with no rank yet.
abbrev unranked : Stat → Stat
unranked s = record s { rank = 0 }

unranked-rank_from :
    (n : ℕ) (rows : List Stat) → map unranked (rank_from n rows) ≡ map unranked rows
unfolding rank_from
unranked-rank_from n [] = refl
unranked-rank_from n (s ∷ rest) = ap (◌∷◌ (unranked s)) (unranked-rank_from (suc n) rest)

rank_from-board :
    (board n : ℕ) (rows : List Stat)
    → All (λ s. s.board ≡ board) rows
    → All (λ s. s.board ≡ board) (rank_from n rows)
unfolding rank_from
rank_from-board board n [] h = tt
rank_from-board board n (s ∷ rest) (h, hs) = (h, rank_from-board board (suc n) rest hs)

insert_by-perm : (x : Stat) (ys : List Stat) → Perm (insert_by better x ys) (x ∷ ys)
insert_by-perm x [] = Perm.refl _
insert_by-perm x (y ∷ ys) = elim (Bool-cases (better y x)) [
  | inl e ↦ rw e (Perm.trans (Perm.cons y (insert_by-perm x ys)) (Perm.swap x y ys))
  | inr e ↦ rw e (Perm.refl _)
]

sort_by-perm : (xs : List Stat) → Perm (sort_by better xs) xs
sort_by-perm [] = Perm.refl _
sort_by-perm (x ∷ xs) =
    Perm.trans (insert_by-perm x (sort_by better xs)) (Perm.cons x (sort_by-perm xs))

-- The rows of the other boards.
abbrev others : ℕ → List Stat → List Stat
others board [] = []
others board (s ∷ rest) = if s.board == board then others board rest else s ∷ others board rest

others-board : (board : ℕ) (rows : List Stat) → All (λ s. s.board ≢ board) (others board rows)
others-board board [] = tt
others-board board (s ∷ rest) = ground (arith, others-board board rest)

keep-others-perm :
    (board : ℕ) (rows : List Stat)
    → Perm (keep (λ (s : Stat). s.board == board) rows ++ others board rows) rows
keep-others-perm board [] = Perm.refl _
keep-others-perm board (s ∷ rest) = elim (Bool-cases (s.board == board)) [
  | inl e ↦ rw e (Perm.cons s (keep-others-perm board rest))
  | inr e ↦ rw e (
      Perm.trans (perm_middle (keep (λ (s : Stat). s.board == board) rest) (others board rest))
        (Perm.cons s (keep-others-perm board rest)))
]

-- What is read of a board.
pub record Listed (board : ℕ) (store rows : List Stat) : Type 0 where
  pub ordered : Ordered rows
  pub ranked : Ranked 1 rows
  pub of_board : All (λ s. s.board ≡ board) rows
  pub elsewhere : List Stat
  pub not_of_board : All (λ s. s.board ≢ board) elsewhere
  pub complete : Perm (map unranked rows ++ map unranked elsewhere) (map unranked store)

-- A board is read with each of its rows once, none of another board's, and ranks 1, 2, 3 and so on:
-- a row stands before another only if its score is higher, or the same and its account not larger.
pub read-Listed : (board : ℕ) (store : List Stat) → Listed board store (read board store)
unfolding read
read-Listed board store =
    let mine : List Stat = keep (λ (s : Stat). s.board == board) store in
    let sorted : List Stat = sort_by better mine in
    let rest : List Stat = others board store in
    let is_mine : All (λ s. s.board ≡ board) mine =
      All-map _ _ mine (λ s h. ground arith) (keep-passes (λ (s : Stat). s.board == board) store) in
    record {
      ordered = rank_from-Ordered 1 sorted (sort_by-Ordered mine);
      ranked = rank_from-Ranked 1 sorted;
      of_board = rank_from-board board 1 sorted (All-sort_by _ better mine is_mine);
      elsewhere = rest;
      not_of_board = others-board board store;
      complete = rw (unranked-rank_from 1 sorted) (
          rw (← map-append unranked sorted rest) (
            Perm.map unranked (
              Perm.trans (Perm.append_right rest (sort_by-perm mine))
                (keep-others-perm board store))));
    }
