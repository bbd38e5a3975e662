-- ===== src/Sessions/Listing.antt =====
-- What a search for games returns, and what a new game replaces (matchmaking.go).
use nextendo_demonware.Common.{
  ℕ, zero, suc, ◌≤◌, ◌≡◌, refl, ap, ◌∙◌, ◌≢◌, Bool, true, false, not, ◌&&◌, List, [], ◌∷◌, ◌++◌,
  ◌==◌, if◌then◌else◌, length, take, drop, arith, All, length-take,
}
use nextendo_demonware.Common.Select.{keep, bytes_eq, bytes_eq_self, keep-passes, All-map}
use nextendo_demonware.Sessions.Types.{Session, Info, owns}
use nextendo_demonware.Sessions.Store.{
  put, create, new_session, is_joinable, page_size, find_sessions, drop_sessions_of,
}

All-take : (P : Session → Type 0) (n : ℕ) (xs : List Session) → All P xs → All P (take n xs)
All-take P zero xs h = tt
All-take P (suc n) [] h = tt
All-take P (suc n) (x ∷ xs) (h, hs) = (h, All-take P n xs hs)

All-drop : (P : Session → Type 0) (n : ℕ) (xs : List Session) → All P xs → All P (drop n xs)
All-drop P zero xs h = h
All-drop P (suc n) [] h = tt
All-drop P (suc n) (x ∷ xs) (h, hs) = All-drop P n xs hs

-- A game that may be offered to a caller.
pub record Offered (conn pid : ℕ) (context : List ℕ) (s : Session) : Type 0 where
  pub not_own : owns conn pid s ≡ false
  pub same_context : bytes_eq s.context context ≡ true
  pub published : s.reserved ≡ false

is_joinable-Offered :
    (conn pid : ℕ) (context : List ℕ) (s : Session)
    → is_joinable conn pid context s ≡ true
    → Offered conn pid context s
unfolding is_joinable
is_joinable-Offered conn pid context s h = record {
  not_own = ground arith;
  same_context = ground arith;
  published = ground arith;
}

-- A search returns 50 games at most, each of another owner, in the caller's context, and none that
-- is only a reservation.
pub find_sessions-Offered :
    (conn pid start most : ℕ) (context : List ℕ) (ss : List Session)
    → All (Offered conn pid context) (find_sessions conn pid context start most ss)
      × (length (find_sessions conn pid context start most ss) ≤ 50)
unfolding find_sessions
find_sessions-Offered conn pid start most context ss =
    let all = keep (is_joinable conn pid context) ss in
    let from = drop start all in
    (
      All-take _ (page_size most) from (
          All-drop _ start all (
            All-map _ _ all (λ s. is_joinable-Offered conn pid context s)
              (keep-passes (is_joinable conn pid context) ss))),
      ground (arith, length-take (page_size most) from),
    )

-- Games of the account in the context.
abbrev is_of : ℕ → List ℕ → Session → Bool
is_of pid context s = s.owner_pid == pid && bytes_eq s.context context

keep-append :
    (p : Session → Bool) (xs ys : List Session) → keep p (xs ++ ys) ≡ keep p xs ++ keep p ys
keep-append p [] ys = refl
keep-append p (x ∷ xs) ys = ground (arith, keep-append p xs ys)

keep-none :
    (p q : Session → Bool) (xs : List Session) → keep p (keep q (keep (λ x. not (p x)) xs)) ≡ []
keep-none p q [] = refl
keep-none p q (x ∷ xs) = ground (arith, keep-none p q xs)

-- After an account has created a game, that game is the only one of the account in its context.
create-only :
    (conn pid now : ℕ) (context id : List ℕ) (i : Info) (ss : List Session)
    → pid ≢ 0
    → keep (is_of pid context) (create conn pid context id now i ss)
      ≡ new_session conn pid context id now i ∷ []
unfolding create put
create-only conn pid now context id i ss known =
    let p = is_of pid context in
    let q = λ (t : Session). not (bytes_eq t.id id) in
    let s = new_session conn pid context id now i in
    let older = keep q (if pid == 0 then ss else keep (λ x. not (p x)) ss) in
    let none_left : keep p older ≡ [] = ground (arith, keep-none p q ss) in
    keep-append p older (s ∷ [])
    ∙ ap (λ xs. xs ++ keep p (s ∷ [])) none_left
    ∙ ground (arith, bytes_eq_self context)

-- When a connection has closed, no game belongs to it any more.
drop_sessions_of-owner :
    (conn now : ℕ) (ss : List Session)
    → conn ≢ 0
    → All (λ (s : Session). s.owner ≢ conn) (drop_sessions_of conn now ss)
unfolding drop_sessions_of
drop_sessions_of-owner conn now [] h = tt
drop_sessions_of-owner conn now (s ∷ ss) h = ground (arith, drop_sessions_of-owner conn now ss h)
