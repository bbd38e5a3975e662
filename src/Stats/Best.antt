-- ===== src/Stats/Best.antt =====
-- What a write to the leaderboards leaves in them (ctr_stats.go).
use nextendo_demonware.Common.{
  ℕ, ◌≡◌, refl, sym, ap, ◌∙◌, inl, inr, Bool, true, false, List, [], ◌∷◌, Option, none, some,
  if◌then◌else◌, arith, All, Bool-cases,
}
use nextendo_demonware.Common.Int.{ℤ, pos, negsuc, ◌+ℤ◌, ◌-ℤ◌, ltb_ℤ}
use nextendo_demonware.Stats.Types.{Stat, StatWrite, wrap_int64, int64_of, IsInt64}
use nextendo_demonware.Stats.Store.{
  is_at, lookup, put, overflows, old_score, keeps_old, write_one, write_loop,
}

lookup-put_self : (s : Stat) (rows : List Stat) → lookup s.board s.pid (put s rows) ≡ some s
unfolding lookup put
lookup-put_self s [] = ground arith
lookup-put_self s (t ∷ rest) = elim (Bool-cases (is_at s.board s.pid t)) [
  | inl e ↦ ground (arith, e)
  | inr e ↦ ground (arith, e, lookup-put_self s rest)
]

lookup-put_ne :
    (b p : ℕ) (s : Stat) (rows : List Stat)
    → is_at b p s ≡ false
    → lookup b p (put s rows) ≡ lookup b p rows
unfolding lookup put
lookup-put_ne b p s [] h = ground (arith, h)
lookup-put_ne b p s (t ∷ rest) h = elim (Bool-cases (is_at s.board s.pid t)) [
  | inl e ↦ ground (arith, e, h)
  | inr e ↦ ground (arith, e, lookup-put_ne b p s rest h)
]

-- Where the guard lets a sum through, it does not wrap.
exact_sum :
    (old w : ℤ)
    → IsInt64 old
    → IsInt64 w
    → overflows old w ≡ false
    → wrap_int64 (w +ℤ old) ≡ w +ℤ old
unfolding overflows wrap_int64 int64_of ◌+ℤ◌ ◌-ℤ◌
exact_sum (pos a) (pos b) h k e = ground arith
exact_sum (pos a) (negsuc b) h k e = ground arith
exact_sum (negsuc a) (pos b) h k e = ground arith
exact_sum (negsuc a) (negsuc b) h k e = ground arith

-- The score in a row, if the row is there.
abbrev score_of : Option Stat → Option ℤ
score_of none = none
score_of (some s) = some s.score

abbrev pub score_at : ℕ → ℕ → List Stat → Option ℤ
score_at b p rows = score_of (lookup b p rows)

if-some :
    (c : Bool) (x y : List Stat) → (if c then none else some x) ≡ some y → (c ≡ false) × (x ≡ y)
if-some true x y e = cc
if-some false x y e = (refl, cc)

-- An upload that adds, and that succeeds, leaves in its row exactly the sum of the old score, 0 where
-- there was none, and the new one: no sum of int64 scores wraps.
write_one_adds :
    (w : StatWrite) (rows rows' : List Stat)
    → w.operation ≡ 1
    → IsInt64 w.stat.score
    → IsInt64 (old_score (lookup w.stat.board w.stat.pid rows))
    → write_one w rows ≡ some rows'
    → score_at w.stat.board w.stat.pid rows'
      ≡ some (w.stat.score +ℤ old_score (lookup w.stat.board w.stat.pid rows))
unfolding write_one
write_one_adds w rows rows' op small old e =
    let o = old_score (lookup w.stat.board w.stat.pid rows) in
    let sum = wrap_int64 (w.stat.score +ℤ o) in
    let new = record w.stat { score = sum } in
    let (fits, same) =
      if-some (overflows o w.stat.score) (put new rows) rows' (ground (arith, e)) in
    ap (score_at w.stat.board w.stat.pid) (sym same)
    ∙ ap score_of (lookup-put_self new rows)
    ∙ ap some (exact_sum o w.stat.score old small fits)

-- The better of a score that may be there and a new one.
abbrev best_of : Option ℤ → ℤ → ℤ
best_of none w = w
best_of (some old) w = if ltb_ℤ old w then w else old

-- The best score for a key among what was there and what is written.
abbrev pub best : ℕ → ℕ → Option ℤ → List StatWrite → Option ℤ
best b p old [] = old
best b p old (w ∷ ws) =
    best b p (if is_at b p w.stat then some (best_of old w.stat.score) else old) ws

is_at-eq : (b p : ℕ) (s : Stat) → is_at b p s ≡ true → (s.board ≡ b) × (s.pid ≡ p)
is_at-eq b p s h = ground arith

kept : (o : Option Stat) (v : ℤ) → keeps_old o v ≡ true → score_of o ≡ some (best_of (score_of o) v)
kept none v e = cc
kept (some s) v e = ground arith

replaced :
    (o : Option Stat) (v : ℤ) → keeps_old o v ≡ false → some v ≡ some (best_of (score_of o) v)
replaced none v e = refl
replaced (some s) v e = ground arith

write_one-best :
    (b p : ℕ) (w : StatWrite) (rows : List Stat)
    → w.operation ≡ 4
    → (rows' : List Stat) × (write_one w rows ≡ some rows')
      × (score_at b p rows' ≡ (
          if is_at b p w.stat
          then some (best_of (score_at b p rows) w.stat.score)
          else score_at b p rows))
unfolding write_one
write_one-best b p w rows op =
    elim (Bool-cases (keeps_old (lookup w.stat.board w.stat.pid rows) w.stat.score)) [
      | inl e ↦ (
        rows,
        ground (arith, e),
        elim (Bool-cases (is_at b p w.stat)) [
          | inl h ↦
              let (eb, ep) = is_at-eq b p w.stat h in
              rw h (rw (sym eb, sym ep) (kept (lookup w.stat.board w.stat.pid rows) w.stat.score e))
          | inr h ↦ ground (arith, h)
        ],
      )
      | inr e ↦ (
        put w.stat rows,
        ground (arith, e),
        elim (Bool-cases (is_at b p w.stat)) [
          | inl h ↦
              let (eb, ep) = is_at-eq b p w.stat h in
              rw h (
                rw (sym eb, sym ep)
                  (ap score_of (lookup-put_self w.stat rows)
                    ∙ replaced (lookup w.stat.board w.stat.pid rows) w.stat.score e))
          | inr h ↦ rw h (ap score_of (lookup-put_ne b p w.stat rows h))
        ],
      )
    ]

-- Where every upload is of the kind that keeps the best, the write succeeds, and the score for each
-- board and account is then the best of the one before and of those uploaded for it.
pub write_loop-best :
    (b p : ℕ) (ws : List StatWrite) (rows : List Stat)
    → All (λ w. w.operation ≡ 4) ws
    → (rows' : List Stat) × (write_loop ws rows ≡ some rows')
      × (score_at b p rows' ≡ best b p (score_at b p rows) ws)
unfolding write_loop
write_loop-best b p [] rows h = (rows, refl, refl)
write_loop-best b p (w ∷ ws) rows (op, ops) =
    let (mid, one, at) = write_one-best b p w rows op in
    let (last, rest, all) = write_loop-best b p ws mid ops in
    (last, rw (one, write_loop) rest, all ∙ ap (λ o. best b p o ws) at)
