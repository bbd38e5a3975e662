-- ===== src/Handshake/Known.antt =====
-- Whose connection it is once its ticket is looked up (handshake.go, friends.go).
use nextendo_demonware.Common.{
  [], ℕ, ◌≡◌, ◌≢◌, ◌⊎◌, inl, inr, refl, ap, ◌∙◌, Bool, true, false, List, ◌∷◌, Option, none, some,
  length, ltb, leb, if◌then◌else◌, arith,
}
use nextendo_demonware.Common.Bytes.{get_le}
use nextendo_demonware.Handshake.Crypto.{part}
use nextendo_demonware.Handshake.Ticket.{find_ticket}
use nextendo_demonware.Handshake.Found.{find_ticket-magic}
use nextendo_demonware.Handshake.Identity.{
  World, Conn, load_identity, try_identity, signed_on, or_pending,
}
use nextendo_demonware.Handshake.Auth.{with_identity}

-- Who the connection is afterwards: as before where no ticket is found; the account of the identity
-- that was stored for the ticket, with the title that the ticket announces; or as before, waiting
-- for the ticket's identity.
pub data Identified (w : World) (message : List ℕ) (c c' : Conn) : Type 0 where
  no_ticket :
      find_ticket message ≡ none
      → c'.player ≡ c.player
      → c'.pending ≡ c.pending
      → Identified w message c c'
  by_ticket :
      (ticket name : List ℕ) (pid : ℕ)
      → find_ticket message ≡ some ticket
      → w.identity (part 33 8 ticket) ≡ some (name, pid)
      → name ≢ []
      → c'.player ≡ some (record { username = name; pid = pid; title = get_le (part 5 4 ticket) })
      → c'.pending ≡ none
      → Identified w message c c'
  waits :
      (ticket : List ℕ)
      → find_ticket message ≡ some ticket
      → (w.identity (part 33 8 ticket) ≡ none)
        ⊎ ((pid : ℕ) × (w.identity (part 33 8 ticket) ≡ some ([], pid)))
      → c'.player ≡ c.player
      → c'.pending ≡ some ticket
      → Identified w message c c'

signed_on-Identified :
    (w : World) (message ticket : List ℕ) (c : Conn) (o : Option (List ℕ × ℕ))
    → find_ticket message ≡ some ticket
    → leb 9 (length ticket) ≡ true
    → w.identity (part 33 8 ticket) ≡ o
    → Identified w message c (or_pending ticket c (signed_on ticket c o))
signed_on-Identified w message ticket c none f l e = waits ticket f (inl e) refl refl
signed_on-Identified w message ticket c (some ([], pid)) f l e =
    waits ticket f (inr (pid, e)) refl refl
signed_on-Identified w message ticket c (some (b ∷ name, pid)) f l e =
    by_ticket ticket (b ∷ name) pid f e (λ h. cc)
      (ap
        (λ t. some (record {
          username = b ∷ name;
          pid = pid;
          title = if t then get_le (part 5 4 ticket) else 0;
        }))
        l)
      refl

pub with_identity-Identified :
    (w : World) (message : List ℕ) (c : Conn) (o : Option (List ℕ))
    → find_ticket message ≡ o
    → Identified w message c (with_identity w c o)
unfolding load_identity try_identity
with_identity-Identified w message c none f = no_ticket f refl refl
with_identity-Identified w message c (some ticket) f =
    let long = (find_ticket-magic message ticket f).0 in
    let not_short : ltb (length ticket) 41 ≡ false = ground (arith, long) in
    let titled : leb 9 (length ticket) ≡ true = ground (arith, long) in
    rw not_short
      (signed_on-Identified w message ticket c (w.identity (part 33 8 ticket)) f titled refl)

pub Identified-from :
    (w : World) (message : List ℕ) (b c c' : Conn)
    → b.player ≡ c.player
    → b.pending ≡ c.pending
    → Identified w message b c'
    → Identified w message c c'
Identified-from w message b c c' e f (no_ticket h k l) = no_ticket h (k ∙ e) (l ∙ f)
Identified-from w message b c c' e f (by_ticket ticket name pid h i n k l) =
    by_ticket ticket name pid h i n k l
Identified-from w message b c c' e f (waits ticket h i k l) = waits ticket h i (k ∙ e) l

pub with_identity-keys :
    (w : World) (c : Conn) (o : Option (List ℕ)) → (with_identity w c o).keys ≡ c.keys
unfolding load_identity try_identity
with_identity-keys w c none = refl
with_identity-keys w c (some ticket) = go (ltb (length ticket) 41) (w.identity (part 33 8 ticket))
  where
    go :
        (b : Bool) (o : Option (List ℕ × ℕ))
        → (if b then c else or_pending ticket c (signed_on ticket c o)).keys ≡ c.keys
    go true o = refl
    go false none = refl
    go false (some ([], pid)) = refl
    go false (some (_ ∷ name, pid)) = refl
