-- ===== src/Handshake/Identity.antt =====
-- loadIdentity and tryIdentity (friends.go), and what surrounds a connection while a frame is handled.
use nextendo_demonware.Common.{
  [], ℕ, Bool, List, ◌∷◌, Option, none, some, length, ltb, leb, if◌then◌else◌,
}
use nextendo_demonware.Common.Bytes.{get_le}
use nextendo_demonware.Presence.Table.{Player}
use nextendo_demonware.Handshake.Crypto.{SessionKeys, part}

-- The tickets of the last 72 hours that the sign-on stored; the user name and the account in the file
-- of an identity, if it is there and is read; whether the client takes what is written to it;
-- CTR_MIGRATE; the number of messages sent before, and the random vector of the next.
pub record World : Type 0 where
  pub stored : List (List ℕ)
  pub identity : List ℕ → Option (List ℕ × ℕ)
  pub takes : List ℕ → Bool
  pub migrate : Bool
  pub sent_before : ℕ
  pub iv : List ℕ

-- What lobbyConn keeps of the handshake. The player is also the connection's entry in `online`, and
-- the ticket is its entry in `pending`; that such a ticket is tried again later, by a lookup of
-- friends, is not part of the connection's loop.
pub record Conn : Type 0 where
  pub max_len : ℕ
  pub nonce : List ℕ
  pub payload1 : List ℕ
  pub keys : Option SessionKeys
  pub player : Option Player
  pub pending : Option (List ℕ)

abbrev title_of : List ℕ → ℕ
title_of ticket = if leb 9 (length ticket) then get_le (part 5 4 ticket) else 0

abbrev pub signed_on : List ℕ → Conn → Option (List ℕ × ℕ) → Option Conn
signed_on ticket c none = none
signed_on ticket c (some ([], pid)) = none
signed_on ticket c (some (b ∷ name, pid)) = some (record c {
  player = some (record { username = b ∷ name; pid = pid; title = title_of ticket });
  pending = none;
})

-- The connection with its player, if the identity is known.
unfoldable pub try_identity : World → List ℕ → Conn → Option Conn
try_identity w ticket c = signed_on ticket c (w.identity (part 33 8 ticket))

abbrev pub or_pending : List ℕ → Conn → Option Conn → Conn
or_pending ticket c none = record c { pending = some ticket }
or_pending ticket c (some c') = c'

unfoldable pub load_identity : World → List ℕ → Conn → Conn
load_identity w ticket c =
    if ltb (length ticket) 41 then c else or_pending ticket c (try_identity w ticket c)
