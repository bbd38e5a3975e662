-- ===== src/Gates/Proven.antt =====
-- What an admission says of the player (gates.go).
use nextendo_demonware.Common.{
  [], ℕ, ◌≡◌, ◌≢◌, ◌⊎◌, inl, inr, refl, sym, ap, ◌∙◌, Bool, true, false, List, ◌∷◌, ◌++◌, Option,
  none, some, length, ◌==◌, if◌then◌else◌, arith, Bool-cases,
}
use nextendo_demonware.Common.Select.{any, bytes_eq, bytes_eq→eq}
use nextendo_demonware.Gates.Admission.{
  Gate, split_dots, after_prefix, nex_prefix, numbers, pid_and_expiry, pid_of_payload, of_parts,
  nextendo_pid_from_token, is_pid, proven, admit_player,
}

-- A token that names the account: its payload, not revoked, is signed with the secret.
pub record Signed (g : Gate) (now pid : ℕ) (token : List ℕ) : Type 0 where
  pub part : List ℕ
  pub payload : List ℕ
  pub rest : List ℕ
  pub marked : after_prefix token ≡ some rest
  pub two_parts : split_dots rest ≡ part ∷ g.sign (nex_prefix ++ payload) ∷ []
  pub decoded : g.decode part ≡ some payload
  pub not_revoked : any (λ r. bytes_eq r payload) g.revoked ≡ false
  pub named : numbers g now (pid_and_expiry payload) ≡ some pid
  pub has_secret : length g.secret ≢ 0

if-none :
    (c : Bool) (o : Option ℕ) (pid : ℕ)
    → (if c then none else o) ≡ some pid
    → (c ≡ false) × (o ≡ some pid)
if-none true o pid e = absurd (cc)
if-none false o pid e = (refl, e)

if-some :
    (c : Bool) (o : Option ℕ) (pid : ℕ)
    → (if c then o else none) ≡ some pid
    → (c ≡ true) × (o ≡ some pid)
if-some true o pid e = (refl, e)
if-some false o pid e = absurd (cc)

of_parts-Signed :
    (g : Gate) (now pid : ℕ) (token rest : List ℕ) (parts : List (List ℕ))
    → after_prefix token ≡ some rest
    → length g.secret ≢ 0
    → split_dots rest ≡ parts
    → of_parts g now parts ≡ some pid
    → Signed g now pid token
unfolding pid_of_payload
of_parts-Signed g now pid token rest [] m s d e = absurd (cc)
of_parts-Signed g now pid token rest (_ ∷ []) m s d e = absurd (cc)
of_parts-Signed g now pid token rest (_ ∷ _ ∷ _ ∷ _) m s d e = absurd (cc)
of_parts-Signed g now pid token rest (part ∷ signature ∷ []) m s d e = go (g.decode part) refl e
  where
    go :
        (o : Option (List ℕ))
        → g.decode part ≡ o
        → ◌≡◌ {A = Option ℕ}
            (elim o [
              | none ↦ none
              | some payload ↦
                  if bytes_eq (g.sign (nex_prefix ++ payload)) signature
                  then pid_of_payload g now payload
                  else none
            ])
            (some pid)
        → Signed g now pid token
    go none f h = absurd (cc)
    go (some payload) f h =
        let (right, h2) =
          if-some (bytes_eq (g.sign (nex_prefix ++ payload)) signature)
            (pid_of_payload g now payload) pid h in
        let (fresh, h3) =
          if-none (any (λ r. bytes_eq r payload) g.revoked) (numbers g now (pid_and_expiry payload))
            pid h2 in
        let same : signature ≡ g.sign (nex_prefix ++ payload) =
          sym (bytes_eq→eq (g.sign (nex_prefix ++ payload)) signature right) in
        record {
          part = part;
          payload = payload;
          rest = rest;
          marked = m;
          two_parts = d ∙ ap (λ x. part ∷ x ∷ []) same;
          decoded = f;
          not_revoked = fresh;
          named = h3;
          has_secret = s;
        }

token-Signed :
    (g : Gate) (now pid : ℕ) (token : List ℕ)
    → nextendo_pid_from_token g now token ≡ some pid
    → Signed g now pid token
unfolding nextendo_pid_from_token
token-Signed g now pid token e = go (after_prefix token) refl e
  where
    go :
        (o : Option (List ℕ))
        → after_prefix token ≡ o
        → ◌≡◌ {A = Option ℕ}
            (elim o [
              | none ↦ none
              | some rest ↦ if length g.secret == 0 then none else of_parts g now (split_dots rest)
            ])
            (some pid)
        → Signed g now pid token
    go none f h = absurd (cc)
    go (some rest) f h =
        let (s, h2) = if-none (length g.secret == 0) (of_parts g now (split_dots rest)) pid h in
        of_parts-Signed g now pid token rest (split_dots rest) f (ground arith) refl h2

proven-Signed :
    (g : Gate) (now pid : ℕ) (token : List ℕ)
    → proven g now pid token ≡ true
    → Signed g now pid token
unfolding proven
proven-Signed g now pid token e = go (nextendo_pid_from_token g now token) refl (ground arith)
  where
    go :
        (o : Option ℕ)
        → nextendo_pid_from_token g now token ≡ o
        → is_pid pid o ≡ true
        → Signed g now pid token
    go none f h = absurd (cc)
    go (some p) f h = token-Signed g now pid token (f ∙ ap some (ground arith))

-- A player who is admitted where signed tokens are required has sent one that is signed with the
-- secret, is not revoked and names the player's account; and one who is admitted where accounts are
-- required has an account id that is not 0, and the answer of nextendoOnlineCheck about it was to
-- allow it (which it also is when the account server cannot be reached).
pub admit_player-Signed :
    (g : Gate) (allowed : Bool) (now pid : ℕ) (token : List ℕ)
    → admit_player g allowed now pid token ≡ true
    → ((g.require_signed_token ≡ false) ⊎ Signed g now pid token)
      × ((g.require_account ≡ false) ⊎ (pid ≢ 0) × (allowed ≡ true))
unfolding admit_player
admit_player-Signed g allowed now pid token e = (
  elim (Bool-cases g.require_signed_token) [
    | inl f ↦ inr (proven-Signed g now pid token (ground arith))
    | inr f ↦ inl f
  ],
  ground arith,
)
