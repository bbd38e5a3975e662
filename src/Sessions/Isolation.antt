-- ===== src/Sessions/Isolation.antt =====
-- A caller's tasks leave other owners' games alone (matchmaking.go).
use nextendo_demonware.Common.{
  ℕ, ◌≡◌, refl, ap, ◌∙◌, ◌≢◌, Bool, true, false, not, ◌&&◌, List, [], ◌∷◌, ◌++◌, ◌==◌,
  if◌then◌else◌, arith, append-nil, Bool-cases, inl, inr, Option, none, some,
}
use nextendo_demonware.Common.Select.{keep, any, bytes_eq}
use nextendo_demonware.Wire.Reader.{Reader, Result}
use nextendo_demonware.Wire.Reader
use nextendo_demonware.Sessions.Types.{Session, Info, owns, read_context_info}
use nextendo_demonware.Sessions.Store.{
  put, is_mine, reserve, reserved_session, create, new_session, change, updated_session,
  counted_session, delete,
}
use nextendo_demonware.Sessions.Handler.{
  Task, on_match_making, on_create, on_info, on_update, on_players, on_delete, request_session_id,
  create_session, update_session, initialize_session, update_players, delete_session, find,
  to_option, an_id, or_zero,
}

module _ (conn pid : ℕ) where
  -- Games that the caller does not own.
  abbrev pub foreign : List Session → List Session
  foreign ss = keep (λ s. not (owns conn pid s)) ss

  foreign-append : (xs ys : List Session) → foreign (xs ++ ys) ≡ foreign xs ++ foreign ys
  foreign-append [] ys = refl
  foreign-append (x ∷ xs) ys = ground (arith, foreign-append xs ys)

  -- A loop that removes only the caller's own games.
  foreign-keep :
      (p : Session → Bool) (ss : List Session)
      → ((s : Session) → owns conn pid s ≡ false → p s ≡ true)
      → foreign (keep p ss) ≡ foreign ss
  foreign-keep p [] h = refl
  foreign-keep p (s ∷ ss) h = ground (arith, foreign-keep p ss h, h s)

  foreign-change :
      (p : Session → Bool) (f : Session → Session) (ss : List Session)
      → ((s : Session) → p s ≡ true → (owns conn pid s ≡ true) × (owns conn pid (f s) ≡ true))
      → foreign (change p f ss) ≡ foreign ss
  foreign-change p f [] h = refl
  foreign-change p f (s ∷ ss) h = elim (Bool-cases (p s)) [
    | inl e ↦ rw (e, (h s e).0, (h s e).1) (foreign-change p f ss h)
    | inr e ↦ rw e (ground (arith, foreign-change p f ss h))
  ]

  keep-fresh :
      (id : List ℕ) (ss : List Session)
      → any (λ (t : Session). bytes_eq t.id id) ss ≡ false
      → keep (λ (t : Session). not (bytes_eq t.id id)) ss ≡ ss
  keep-fresh id [] h = refl
  keep-fresh id (s ∷ ss) h = ground (arith, keep-fresh id ss)

  any-keep :
      (p q : Session → Bool) (ss : List Session) → any q ss ≡ false → any q (keep p ss) ≡ false
  any-keep p q [] h = refl
  any-keep p q (s ∷ ss) h = ground (arith, any-keep p q ss)

  foreign-put :
      (s : Session) (ss : List Session)
      → owns conn pid s ≡ true
      → any (λ (t : Session). bytes_eq t.id s.id) ss ≡ false
      → foreign (put s ss) ≡ foreign ss
  unfolding put
  foreign-put s ss own fresh =
      ap (λ xs. foreign (xs ++ s ∷ [])) (keep-fresh s.id ss fresh)
      ∙ foreign-append ss (s ∷ [])
      ∙ ground (arith, own, append-nil (foreign ss))

  owns_self : (s : Session) → s.owner ≡ conn → owns conn pid s ≡ true
  unfolding owns
  owns_self s e = ground arith

  module _ (context id : List ℕ) (now : ℕ) (r : Reader) (ss : List Session)
      (fresh : any (λ (t : Session). bytes_eq t.id id) ss ≡ false) where
    foreign-reserve : foreign (reserve conn pid context id now ss) ≡ foreign ss
    unfolding reserve
    foreign-reserve =
        let p = λ (old : Session).
          not (old.reserved && bytes_eq old.context context && owns conn pid old) in
        foreign-put (reserved_session conn pid context id now) (keep p ss)
          (owns_self (reserved_session conn pid context id now) refl) (any-keep p _ ss fresh)
        ∙ foreign-keep p ss (λ s e. ground (arith, e))

    older_kept : (s : Session) → owns conn pid s ≡ false → pid ≢ 0 → s.owner_pid ≢ pid
    unfolding owns
    older_kept s e known = ground arith

    foreign-create_if :
        (s : Session) (b : Bool)
        → s.owner ≡ conn
        → s.id ≡ id
        → b ≡ (pid == 0)
        → foreign (
            put s (
              if b
              then ss
              else keep
                  (λ (old : Session). not (old.owner_pid == pid && bytes_eq old.context context))
                  ss))
          ≡ foreign ss
    foreign-create_if s true own same e = foreign-put s ss (owns_self s own) (rw same fresh)
    foreign-create_if s false own same e =
        let p = λ (old : Session). not (old.owner_pid == pid && bytes_eq old.context context) in
        foreign-put s (keep p ss) (owns_self s own)
          (any-keep p (λ (t : Session). bytes_eq t.id s.id) ss (rw same fresh))
        ∙ foreign-keep p ss (λ t not_own. ground (arith, older_kept t not_own (ground arith)))

    foreign-create : (i : Info) → foreign (create conn pid context id now i ss) ≡ foreign ss
    unfolding create
    foreign-create i =
        foreign-create_if (new_session conn pid context id now i) (pid == 0) refl refl refl

    mine-owned :
        (key : List ℕ) (s : Session)
        → is_mine conn pid context key s ≡ true
        → owns conn pid s ≡ true
    unfolding is_mine
    mine-owned key s e = ground arith

    foreign-updated :
        (key : List ℕ) (initial : Bool) (i : Info)
        → foreign
            (change (is_mine conn pid context key) (updated_session conn pid now initial i) ss)
          ≡ foreign ss
    foreign-updated key initial i =
        foreign-change (is_mine conn pid context key) (updated_session conn pid now initial i) ss
          (λ s e. (
            mine-owned key s e,
            owns_self (updated_session conn pid now initial i s) (unfold updated_session in refl),
          ))

    counted-owner :
        (players : ℕ) (i : Option Info) (s : Session)
        → (counted_session conn pid now players i s).owner ≡ conn
    unfolding counted_session
    counted-owner players none s = refl
    counted-owner players (some i) s = refl

    foreign-counted :
        (key : List ℕ) (players : ℕ) (i : Option Info)
        → foreign
            (change (is_mine conn pid context key) (counted_session conn pid now players i) ss)
          ≡ foreign ss
    foreign-counted key players i =
        foreign-change (is_mine conn pid context key) (counted_session conn pid now players i) ss
          (λ s e. (
            mine-owned key s e,
            owns_self (counted_session conn pid now players i s) (counted-owner players i s),
          ))

    foreign-delete : (key : List ℕ) → foreign (delete conn pid context key ss) ≡ foreign ss
    unfolding delete is_mine
    foreign-delete key =
        foreign-keep (λ s. not (is_mine conn pid context key s)) ss (λ s e. ground (arith, e))

    foreign-on_info :
        (initial : Bool) (key : List ℕ) (i : Option Info)
        → foreign (on_info conn pid context id now r ss initial key i).0 ≡ foreign ss
    foreign-on_info initial key none = refl
    foreign-on_info initial key (some i) =
        elim (Bool-cases (any (is_mine conn pid context key) ss)) [
          | inl e ↦ rw e (foreign-updated key initial i)
          | inr e ↦ rw e
        ]

    foreign-on_update :
        (initial : Bool) (key : Option (List ℕ)) (r' : Reader)
        → foreign (on_update conn pid context id now r ss initial key r').0 ≡ foreign ss
    foreign-on_update initial none r' = refl
    foreign-on_update initial (some key) r' = foreign-on_info initial key _

    foreign-on_players :
        (key : Option (List ℕ)) (players : Result ℕ × Reader)
        → foreign (on_players conn pid context id now r ss key players).0 ≡ foreign ss
    foreign-on_players none players = refl
    foreign-on_players (some key) (players, r') = foreign-counted key (or_zero players) _

    foreign-on_create :
        (i : Option Info) → foreign (on_create conn pid context id now r ss i).0 ≡ foreign ss
    foreign-on_create none = refl
    foreign-on_create (some i) = foreign-create i

    foreign-on_delete :
        (key : Option (List ℕ))
        → foreign (on_delete conn pid context id now r ss key).0 ≡ foreign ss
    foreign-on_delete none = refl
    foreign-on_delete (some key) = foreign-delete key

    -- Whatever the task and its arguments are, the games that the caller does not own stay as they
    -- were, if the random id is no game's yet.
    pub on_match_making-foreign :
        (t : Task) → foreign (on_match_making conn pid context id now r ss t).0 ≡ foreign ss
    unfolding on_match_making
    on_match_making-foreign request_session_id = foreign-reserve
    on_match_making-foreign create_session =
        foreign-on_create (to_option (read_context_info context r).0)
    on_match_making-foreign update_session =
        foreign-on_update false (an_id (Reader.blob r).0) (Reader.blob r).1
    on_match_making-foreign initialize_session =
        foreign-on_update true (an_id (Reader.blob r).0) (Reader.blob r).1
    on_match_making-foreign update_players =
        foreign-on_players (an_id (Reader.blob r).0) (Reader.u32 (Reader.blob r).1)
    on_match_making-foreign delete_session = foreign-on_delete (an_id (Reader.blob r).0)
    on_match_making-foreign find = refl
