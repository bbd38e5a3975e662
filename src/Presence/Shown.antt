-- ===== src/Presence/Shown.antt =====
-- What is shown of an account that is offline (ctr_presence.go).
use nextendo_demonware.Common.{
  [], ℕ, ◌≡◌, ◌≢◌, ◌⊎◌, inl, inr, refl, Bool, true, false, not, ◌&&◌, ◌||◌, List, ◌∷◌, ◌==◌, arith,
  Bool-cases,
}
use nextendo_demonware.Common.Select.{contains, any}
use nextendo_demonware.Presence.Table.{Player, Rich, Tables, pids_loop, online_pids, lookup}
use nextendo_demonware.Presence.Service.{
  AccountId, or_me, empty_presence, or_empty, shown, rich_hits,
}

-- Whether the account has a connection.
abbrev pub connected : ℕ → List (ℕ × Player) → Bool
connected pid online = any (λ (e : ℕ × Player). e.1.pid == pid) online

-- Of the accounts that are seen and those of the table, every one but 0 is listed, and no other.
pids_loop-connected :
    (pid : ℕ) (seen : List ℕ) (online : List (ℕ × Player))
    → pid ≢ 0
    → (contains pid seen || contains pid (pids_loop seen online))
      ≡ (contains pid seen || connected pid online)
unfolding pids_loop
pids_loop-connected pid seen [] h = refl
pids_loop-connected pid seen ((c, p) ∷ rest) h =
    ground
      (arith, pids_loop-connected pid seen rest h, pids_loop-connected pid (p.pid ∷ seen) rest h)

-- An account other than 0 is among those that are reported online just if a connection has it.
online_pids-connected :
    (pid : ℕ) (online : List (ℕ × Player))
    → pid ≢ 0
    → contains pid (online_pids online) ≡ connected pid online
unfolding online_pids
online_pids-connected pid online h = pids_loop-connected pid [] online h

-- Each account is reported once, and 0 is not.
abbrev Once : List ℕ → List ℕ → Type 0
Once seen [] = Unit {0}
Once seen (x ∷ xs) = (x ≢ 0) × (contains x seen ≡ false) × Once (x ∷ seen) xs

pids_loop-Once : (seen : List ℕ) (online : List (ℕ × Player)) → Once seen (pids_loop seen online)
unfolding pids_loop
pids_loop-Once seen [] = tt
pids_loop-Once seen ((c, p) ∷ rest) =
    elim (Bool-cases (not (p.pid == 0) && not (contains p.pid seen))) [
      | inl f ↦ rw f (ground arith, ground arith, pids_loop-Once (p.pid ∷ seen) rest)
      | inr f ↦ rw f (pids_loop-Once seen rest)
    ]

-- The hit for one account that was asked for.
pub record Answers (me : ℕ) (t : Tables) (a : AccountId) (hit : ℕ × Rich) : Type 0 where
  pub same_account : hit.0 ≡ or_me me a.id
  pub shown_or_empty :
      (hit.1 ≡ or_empty a.platform (lookup (or_me me a.id) t.rich))
        × ((or_me me a.id ≡ me) ⊎ (connected (or_me me a.id) t.online ≡ true))
      ⊎ (hit.1 ≡ empty_presence a.platform) × (connected (or_me me a.id) t.online ≡ false)

shown-Answers : (me : ℕ) (t : Tables) (a : AccountId) → Answers me t a (shown me t a)
unfolding shown
shown-Answers me t a =
    let id : ℕ = or_me me a.id in
    elim (Bool-cases (id == me)) [
      | inl f ↦ record {
        same_account = refl;
        shown_or_empty = rw f (inl (refl, inl (ground arith)));
      }
      | inr f ↦
          let known : id ≢ 0 = ground arith in
          let e : contains id (online_pids t.online) ≡ connected id t.online =
            online_pids-connected id t.online known in
          elim (Bool-cases (connected id t.online)) [
            | inl g ↦ record {
              same_account = refl;
              shown_or_empty = rw (f, e, g) (inl (refl, inr refl));
            }
            | inr g ↦ record {
              same_account = refl;
              shown_or_empty = rw (f, e, g) (inr (refl, refl));
            }
          ]
    ]

-- One hit for each account, in order.
abbrev pub AllAnswer : ℕ → Tables → List AccountId → List (ℕ × Rich) → Type 0
AllAnswer me t [] [] = Unit {0}
AllAnswer me t (a ∷ as') (hit ∷ hits) = Answers me t a hit × AllAnswer me t as' hits
AllAnswer me t _ _ = ⊥

-- Each account that is asked for has one hit, in the order of the request, and 0 stands for the caller.
-- Stored presence is shown only of the caller and of accounts that have a connection; of all others an empty
-- one is sent.
pub rich_hits-AllAnswer :
    (me : ℕ) (t : Tables) (as' : List AccountId) → AllAnswer me t as' (rich_hits me t as')
unfolding rich_hits
rich_hits-AllAnswer me t [] = tt
rich_hits-AllAnswer me t (a ∷ as') = (shown-Answers me t a, rich_hits-AllAnswer me t as')
