-- ===== src/Handshake/Trust.antt =====
-- What is done for a connection before it is let in (handshake.go).
use nextendo_demonware.Common.{
  [], ℕ, ◌-◌, ◌≡◌, inl, inr, refl, ap, ◌∙◌, Bool, true, false, List, ◌∷◌, Option, none, some,
  length, drop, ltb, ◌==◌, All, Bool-cases, Option-cases,
}
use nextendo_demonware.Handshake.Crypto.{Primitives, SessionKeys}
use nextendo_demonware.Handshake.Frames.{frame, Incoming, raw, keepalive, rejected, ended}
use nextendo_demonware.Handshake.Messages.{Request, ignored}
use nextendo_demonware.Handshake.Ticket.{find_ticket}
use nextendo_demonware.Handshake.Identity.{World, Conn}
use nextendo_demonware.Handshake.Auth.{
  Effect, msg_client_auth, msg_server_ok, transcript, candidates, match_key, with_identity,
  migrate_init, migrated, checked, let_in, authenticated, on_client_auth, on_body, on_frame, go_on,
  run,
}

-- Without keys a frame is not taken for a request.
migrated-ignored :
    (w : World) (c : Conn) (ok : List ℕ) (o : Option (List ℕ))
    → (migrated w c ok o).request ≡ ignored
migrated-ignored w c ok none = refl
migrated-ignored w c ok (some m) = refl

checked-ignored :
    (p : Primitives) (w : World) (c : Conn) (k : SessionKeys) (ok : List ℕ) (takes migrate : Bool)
    → (checked p w c k ok takes migrate).request ≡ ignored
checked-ignored p w c k ok false migrate = refl
checked-ignored p w c k ok true false = refl
checked-ignored p w c k ok true true = migrated-ignored w c ok (migrate_init p w k)

let_in-ignored :
    (p : Primitives) (w : World) (c : Conn) (message : List ℕ) (k : SessionKeys)
    → (let_in p w c message k).request ≡ ignored
unfolding let_in
let_in-ignored p w c message k =
    let ok = frame (msg_server_ok ∷ k.server_chk) in
    checked-ignored p w (with_identity w (record c { keys = some k }) (find_ticket message)) k ok
      (w.takes ok) w.migrate

authenticated-ignored :
    (p : Primitives) (w : World) (c : Conn) (message : List ℕ) (o : Option SessionKeys)
    → (authenticated p w c message o).request ≡ ignored
authenticated-ignored p w c message none = refl
authenticated-ignored p w c message (some k) = let_in-ignored p w c message k

on_client_auth-ignored :
    (p : Primitives) (w : World) (c : Conn) (message : List ℕ)
    → (on_client_auth p w c message).request ≡ ignored
unfolding on_client_auth
on_client_auth-ignored p w c message = elim (Bool-cases (ltb (length message) 14)) [
  | inl f ↦ rw (f, on_client_auth) refl
  | inr f ↦
      rw (f, on_client_auth)
        (authenticated-ignored p w c message (
          match_key p (transcript c message) (drop (length message - 8) message)
            (candidates w.stored message)))
]

on_body-ignored :
    (p : Primitives) (w : World) (c : Conn) (message body : List ℕ)
    → (on_body p w c message body none).request ≡ ignored
on_body-ignored p w c message [] = refl
on_body-ignored p w c message (kind ∷ _) = elim (Bool-cases (kind == msg_client_auth)) [
  | inl f ↦ rw f (on_client_auth-ignored p w c message)
  | inr f ↦ rw f refl
]

on_frame-ignored :
    (p : Primitives) (w : World) (c : Conn) (i : Incoming)
    → c.keys ≡ none
    → (on_frame p w c i).request ≡ ignored
unfolding on_frame
on_frame-ignored p w c (raw message) h =
    ap (λ k. (on_body p w c message (drop 5 message) k).request) h
    ∙ on_body-ignored p w c message (drop 5 message)
on_frame-ignored p w c keepalive h = refl
on_frame-ignored p w c rejected h = refl
on_frame-ignored p w c ended h = refl

-- Keys stay.
on_body-keeps :
    (p : Primitives) (w : World) (c : Conn) (message body : List ℕ) (k : SessionKeys)
    → (on_body p w c message body (some k)).conn ≡ c
on_body-keeps p w c message [] k = refl
on_body-keeps p w c message (_ ∷ _) k = refl

on_frame-keeps :
    (p : Primitives) (w : World) (c : Conn) (i : Incoming) (k : SessionKeys)
    → c.keys ≡ some k
    → (on_frame p w c i).conn ≡ c
unfolding on_frame
on_frame-keeps p w c (raw message) k h =
    ap (λ k. (on_body p w c message (drop 5 message) k).conn) h
    ∙ on_body-keeps p w c message (drop 5 message) k
on_frame-keeps p w c keepalive k h = refl
on_frame-keeps p w c rejected k h = refl
on_frame-keeps p w c ended k h = refl

none-some : (o : Option SessionKeys) (k : SessionKeys) → o ≡ none → o ≡ some k → ⊥
none-some none k e f = cc
none-some (some _) k e f = cc

run-keeps :
    (p : Primitives) (c : Conn) (is : List (World × Incoming)) (k : SessionKeys)
    → c.keys ≡ some k
    → (run p c is).0.keys ≡ some k
unfolding run
run-keeps p c [] k h = h
run-keeps p c ((w, i) ∷ is) k h =
    let e : Effect = on_frame p w c i in
    let same : e.conn ≡ c = on_frame-keeps p w c i k h in
    let kept : e.conn.keys ≡ some k = ap (λ (c : Conn). c.keys) same ∙ h in
    elim (Bool-cases e.goes_on) [
      | inl f ↦ rw (f, run) (run-keeps p e.conn is k kept)
      | inr f ↦ rw (f, run) kept
    ]

-- A connection that has no keys when its loop has taken so many frames has had no request handled:
-- none of its frames was taken for a task.
pub run-ignored :
    (p : Primitives) (c : Conn) (is : List (World × Incoming))
    → c.keys ≡ none
    → (run p c is).0.keys ≡ none
    → All (λ q. q ≡ ignored) (run p c is).1
unfolding run
run-ignored p c [] h end = tt
run-ignored p c ((w, i) ∷ is) h end =
    go (on_frame p w c i).goes_on (run-ignored p (on_frame p w c i).conn is) end
  where
    e : Effect
    e = on_frame p w c i

    later : Conn × List Request
    later = run p e.conn is

    first : e.request ≡ ignored
    first = on_frame-ignored p w c i h

    go :
        (b : Bool)
        → (e.conn.keys ≡ none → later.0.keys ≡ none → All (λ q. q ≡ ignored) later.1)
        → (go_on b e later).0.keys ≡ none
        → All (λ q. q ≡ ignored) (go_on b e later).1
    go true ih f = elim (Option-cases e.conn.keys) [
      | inl n ↦ (first, ih n f)
      | inr (k, s) ↦ absurd (none-some later.0.keys k f (run-keeps p e.conn is k s))
    ]
    go false ih f = (first, tt)
