-- ===== src/Gates/Admission.antt =====
-- admitPlayer and nextendoPIDFromToken (gates.go). Base64, HMAC-SHA256 over the secret, and the parsers
-- of numbers are parameters.
use nextendo_demonware.Common.{
  [], ℕ, Bool, true, false, not, ◌&&◌, List, ◌∷◌, ◌++◌, Option, none, some, length, ◌==◌,
  if◌then◌else◌,
}
use nextendo_demonware.Common.Int.{ℤ, pos, ltb_ℤ}
use nextendo_demonware.Common.Select.{any, bytes_eq}

-- What the function calls, and what it is configured with. `sign` is the HMAC of a text under the
-- secret, in base64.
pub record Gate : Type 0 where
  pub secret : List ℕ
  pub require_account : Bool
  pub require_signed_token : Bool
  pub decode : List ℕ → Option (List ℕ)
  pub sign : List ℕ → List ℕ
  pub parse_uint : List ℕ → Option ℕ
  pub parse_int : List ℕ → Option ℤ
  pub revoked : List (List ℕ)

abbrev dot : ℕ
dot = 46

-- `strings.Split(s, ".")`.
unfoldable pub split_dots : List ℕ → List (List ℕ)
split_dots [] = [] ∷ []
split_dots (c ∷ cs) = elim (split_dots cs) [
  | [] ↦ (c ∷ []) ∷ []
  | part ∷ parts ↦ if c == dot then [] ∷ part ∷ parts else (c ∷ part) ∷ parts
]

-- What stands in front of the first dot and behind it, if there is one.
unfoldable pub cut_dot : List ℕ → Option (List ℕ × List ℕ)
cut_dot [] = none
cut_dot (c ∷ cs) =
    if c == dot
    then some ([], cs)
    else (elim (cut_dot cs) [ none ↦ none | some (front, back) ↦ some (c ∷ front, back) ])

-- `strings.SplitN(s, ".", 3)`, where it has three parts: the first and the third.
unfoldable pub pid_and_expiry : List ℕ → Option (List ℕ × List ℕ)
pid_and_expiry payload = elim (cut_dot payload) [
  | none ↦ none
  | some (first, rest) ↦ (elim (cut_dot rest) [
    | none ↦ none
    | some (_, third) ↦ some (first, third)
  ])
]

-- "nx2." and what follows it, and "nex:".
unfoldable pub after_prefix : List ℕ → Option (List ℕ)
after_prefix (a ∷ b ∷ c ∷ d ∷ rest) =
    if a == b'n' && b == b'x' && c == b'2' && d == dot then some rest else none
after_prefix _ = none

abbrev pub nex_prefix : List ℕ
nex_prefix = b'n' ∷ b'e' ∷ b'x' ∷ b':' ∷ []

-- The expiry, if it has not passed.
abbrev not_expired : ℕ → ℕ → Option ℤ → Option ℕ
not_expired now pid none = none
not_expired now pid (some exp) = if ltb_ℤ exp (pos now) then none else some pid

abbrev pub numbers : Gate → ℕ → Option (List ℕ × List ℕ) → Option ℕ
numbers g now none = none
numbers g now (some (p, e)) = elim (g.parse_uint p) [
  | none ↦ none
  | some pid ↦ not_expired now pid (g.parse_int e)
]

-- The account of a payload whose signature is right.
unfoldable pub pid_of_payload : Gate → ℕ → List ℕ → Option ℕ
pid_of_payload g now payload =
    if any (λ r. bytes_eq r payload) g.revoked then none else numbers g now (pid_and_expiry payload)

abbrev pub of_parts : Gate → ℕ → List (List ℕ) → Option ℕ
of_parts g now (part ∷ signature ∷ []) = elim (g.decode part) [
  | none ↦ none
  | some payload ↦
      if bytes_eq (g.sign (nex_prefix ++ payload)) signature
      then pid_of_payload g now payload
      else none
]
of_parts g now _ = none

unfoldable pub nextendo_pid_from_token : Gate → ℕ → List ℕ → Option ℕ
nextendo_pid_from_token g now s = elim (after_prefix s) [
  | none ↦ none
  | some rest ↦ if length g.secret == 0 then none else of_parts g now (split_dots rest)
]

abbrev pub is_pid : ℕ → Option ℕ → Bool
is_pid pid none = false
is_pid pid (some p) = p == pid

-- Whether the token proves the account.
unfoldable pub proven : Gate → ℕ → ℕ → List ℕ → Bool
proven g now pid nnex =
    not (length nnex == 0)
    && not (length g.secret == 0)
    && is_pid pid (nextendo_pid_from_token g now nnex)

-- `allowed` is the account server's answer, or `true` where there is none.
unfoldable pub admit_player : Gate → Bool → ℕ → ℕ → List ℕ → Bool
admit_player g allowed now pid nnex =
    if g.require_signed_token && not (proven g now pid nnex)
    then false
    else if pid == 0
    then not g.require_account
    else if not allowed
    then not g.require_account
    else true
