-- ===== src/Handshake/Matching.antt =====
-- Which candidate gives a client's tag (handshake.go).
use nextendo_demonware.Common.{
  [], ℕ, ◌≡◌, ◌≢◌, ◌⊎◌, inl, inr, refl, sym, ap, ◌∙◌, Bool, true, false, List, ◌∷◌, Option, none,
  some, if◌then◌else◌, All,
}
use nextendo_demonware.Common.Select.{bytes_eq, bytes_eq→eq, bytes_eq_self}
use nextendo_demonware.Handshake.Crypto.{Primitives, SessionKeys, derive_keys, wrap_key24}
use nextendo_demonware.Handshake.Auth.{try_key, or_else, match_key}

-- The keys are derived from one of the candidates, as it is or wrapped.
abbrev pub DerivedFrom : Primitives → List ℕ → List (List ℕ) → SessionKeys → Type 0
DerivedFrom p text [] k = ⊥
DerivedFrom p text (key24 ∷ more) k =
    (k ≡ derive_keys p text key24)
    ⊎ (k ≡ derive_keys p text (wrap_key24 p key24))
    ⊎ DerivedFrom p text more k

if-some :
    (c : Bool) (a b : SessionKeys) → (if c then some a else none) ≡ some b → (c ≡ true) × (a ≡ b)
if-some true a b e = (refl, cc)
if-some false a b e = absurd (cc)

try_key-some :
    (p : Primitives) (text tag key24 : List ℕ) (k : SessionKeys)
    → try_key p text tag key24 ≡ some k
    → (k.client_tag ≡ tag) × (k ≡ derive_keys p text key24)
unfolding try_key
try_key-some p text tag key24 k e =
    let d : SessionKeys = derive_keys p text key24 in
    let (f, same) = if-some (bytes_eq d.client_tag tag) d k e in
    (ap (λ (k : SessionKeys). k.client_tag) (sym same) ∙ bytes_eq→eq d.client_tag tag f, sym same)

or_else-some :
    (a b : Option SessionKeys) (k : SessionKeys)
    → or_else a b ≡ some k
    → (a ≡ some k) ⊎ (b ≡ some k)
or_else-some none b k e = inr e
or_else-some (some a) b k e = inl e

pub match_key-some :
    (p : Primitives) (text tag : List ℕ) (cands : List (List ℕ)) (k : SessionKeys)
    → match_key p text tag cands ≡ some k
    → (k.client_tag ≡ tag) × DerivedFrom p text cands k
unfolding match_key
match_key-some p text tag [] k e = absurd (cc)
match_key-some p text tag (key24 ∷ more) k e =
    let wrapped : List ℕ = wrap_key24 p key24 in
    elim (or_else-some (try_key p text tag key24)
      (or_else (try_key p text tag wrapped) (match_key p text tag more)) k e) [
        | inl f ↦ let (t, d) = try_key-some p text tag key24 k f in (t, inl d)
        | inr f ↦ elim (or_else-some (try_key p text tag wrapped) (match_key p text tag more) k f) [
          | inl g ↦ let (t, d) = try_key-some p text tag wrapped k g in (t, inr (inl d))
          | inr g ↦ let (t, d) = match_key-some p text tag more k g in (t, inr (inr d))
        ]
      ]

-- No candidate gives the tag, neither as it is nor wrapped.
abbrev pub NoneGives : Primitives → List ℕ → List ℕ → List (List ℕ) → Type 0
NoneGives p text tag = All (λ key24.
    let plain = derive_keys p text key24 in
    let wrapped = derive_keys p text (wrap_key24 p key24) in
    (plain.client_tag ≢ tag) × (wrapped.client_tag ≢ tag))

try_key-none :
    (p : Primitives) (text tag key24 : List ℕ)
    → try_key p text tag key24 ≡ none
    → let k = derive_keys p text key24 in k.client_tag ≢ tag
unfolding try_key
try_key-none p text tag key24 e same =
    let k : SessionKeys = derive_keys p text key24 in
    let equal : bytes_eq k.client_tag tag ≡ true =
      ap (bytes_eq k.client_tag) (sym same) ∙ bytes_eq_self k.client_tag in
    some-none k (sym (ap (λ b. if b then some k else none) equal) ∙ e)
  where
    some-none : (k : SessionKeys) → some k ≡ none → ⊥
    some-none k f = cc

or_else-none : (a b : Option SessionKeys) → or_else a b ≡ none → (a ≡ none) × (b ≡ none)
or_else-none none b e = (refl, e)
or_else-none (some a) b e = absurd (cc)

pub match_key-none :
    (p : Primitives) (text tag : List ℕ) (cands : List (List ℕ))
    → match_key p text tag cands ≡ none
    → NoneGives p text tag cands
unfolding match_key
match_key-none p text tag [] e = tt
match_key-none p text tag (key24 ∷ more) e =
    let wrapped : List ℕ = wrap_key24 p key24 in
    let (f, e') =
      or_else-none (try_key p text tag key24)
        (or_else (try_key p text tag wrapped) (match_key p text tag more)) e in
    let (g, h) = or_else-none (try_key p text tag wrapped) (match_key p text tag more) e' in
    (
      (try_key-none p text tag key24 f, try_key-none p text tag wrapped g),
      match_key-none p text tag more h,
    )
