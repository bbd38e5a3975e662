-- ===== src/Handshake/Entry.antt =====
-- Who is let in, and how that is answered (handshake.go, friends.go).
use nextendo_demonware.Common.{
  [], ℕ, ◌-◌, ◌<◌, ◌≡◌, ◌⊎◌, true, false, List, ◌∷◌, none, some, length, drop,
}
use nextendo_demonware.Handshake.Crypto.{Primitives, SessionKeys}
use nextendo_demonware.Handshake.Frames.{frame}
use nextendo_demonware.Handshake.Identity.{World, Conn}
use nextendo_demonware.Handshake.Auth.{Effect, msg_server_ok, transcript, candidates, migrate_init}
use nextendo_demonware.Handshake.Matching.{DerivedFrom, NoneGives}
use nextendo_demonware.Handshake.Known.{Identified}

-- What is written, and whether the connection goes on.
pub data Answered (p : Primitives) (w : World) (k : SessionKeys) (e : Effect) : Type 0 where
  refused :
      (ok : List ℕ)
      → ok ≡ frame (msg_server_ok ∷ k.server_chk)
      → w.takes ok ≡ false
      → e.sent ≡ ok ∷ []
      → e.goes_on ≡ false
      → Answered p w k e
  taken :
      (ok : List ℕ)
      → ok ≡ frame (msg_server_ok ∷ k.server_chk)
      → w.takes ok ≡ true
      → w.migrate ≡ false
      → e.sent ≡ ok ∷ []
      → e.goes_on ≡ true
      → Answered p w k e
  begins :
      (ok init : List ℕ)
      → ok ≡ frame (msg_server_ok ∷ k.server_chk)
      → w.takes ok ≡ true
      → w.migrate ≡ true
      → migrate_init p w k ≡ some init
      → e.sent ≡ ok ∷ init ∷ []
      → e.goes_on ≡ w.takes init
      → Answered p w k e
  fails :
      (ok : List ℕ)
      → ok ≡ frame (msg_server_ok ∷ k.server_chk)
      → w.takes ok ≡ true
      → w.migrate ≡ true
      → migrate_init p w k ≡ none
      → e.sent ≡ ok ∷ []
      → e.goes_on ≡ false
      → Answered p w k e

-- The connection gets keys that are derived from a candidate and give the tag at the message's end.
pub record LetIn (p : Primitives) (w : World) (c : Conn) (message : List ℕ) (e : Effect)
    : Type 0 where
  pub keys : SessionKeys
  pub has_keys : e.conn.keys ≡ some keys
  pub proof : keys.client_tag ≡ drop (length message - 8) message
  pub derived : DerivedFrom p (transcript c message) (candidates w.stored message) keys
  pub identified : Identified w message c e.conn
  pub answered : Answered p w keys e

-- The connection is as it was and writes nothing; it is closed where the message is too short, and
-- otherwise no candidate gives the tag.
pub record NotLetIn (p : Primitives) (w : World) (c : Conn) (message : List ℕ) (e : Effect)
    : Type 0 where
  pub same : e.conn ≡ c
  pub silent : e.sent ≡ []
  pub cause :
      (length message < 14) × (e.goes_on ≡ false)
      ⊎ NoneGives p
          (transcript c message)
          (drop (length message - 8) message)
          (candidates w.stored message)
        × (e.goes_on ≡ true)
