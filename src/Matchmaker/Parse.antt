-- ===== src/Matchmaker/Parse.antt =====
-- parseCTRSearch of ctr_async.go: which searches are accepted. The JSON texts come decoded, `none`
-- where json.Unmarshal fails; `decode` is base64.StdEncoding.DecodeString of Go's library, `none`
-- on an error.
use nextendo_demonware.Common.{
  [], ℕ, Bool, true, false, not, ◌&&◌, ◌||◌, List, ◌∷◌, Option, none, some, ltb, ◌==◌, length,
}
use nextendo_demonware.Common.Int.{ℤ, pos, ltb_ℤ, pos_part}
use nextendo_demonware.Common.Select.{contains, bytes_eq}
use nextendo_demonware.Matchmaker.Types.{Listen, Search}

-- ctrSearchDoc. The slots are Go ints; `filter_size` is the number of keys of the filter, and
-- `filter` is json.Marshal of it.
pub record SearchDoc : Type 0 where
  pub members : List ℕ
  pub slots_min : ℤ
  pub slots_max : ℤ
  pub filter_size : ℕ
  pub filter : List ℕ

pub data Refusal : Type 0 where
  invalid_search bad_member no_leader missing_info invalid_address : Refusal

pub data Parsed {ℓ} (A : Type ℓ) : Type ℓ where
  accepted : A → Parsed A
  refused : Refusal → Parsed A

infixl 5 ◌>>=◌ ◌>>◌
abbrev pub ◌>>=◌ {ℓ κ} : {A : Type ℓ} {B : Type κ} → Parsed A → (A → Parsed B) → Parsed B
accepted a >>= f = f a
refused e >>= f = refused e

abbrev pub ◌>>◌ {ℓ} : {B : Type ℓ} → Parsed (Unit {0}) → Parsed B → Parsed B
m >> k = m >>= λ _. k

abbrev pub check : Bool → Refusal → Parsed (Unit {0})
check true e = accepted tt
check false e = refused e

abbrev or_refuse {ℓ} : {A : Type ℓ} → Option A → Refusal → Parsed A
or_refuse none e = refused e
or_refuse (some a) e = accepted a

-- The first test, negated.
unfoldable pub is_plausible : ℕ → SearchDoc → Bool
is_plausible pid d =
    not (pid == 0)
    && not (ltb (length d.members) 1)
    && not (ltb 8 (length d.members))
    && not (ltb_ℤ d.slots_min (pos 1))
    && not (ltb_ℤ d.slots_max d.slots_min)
    && not (ltb_ℤ (pos 8) d.slots_max)
    && not (d.filter_size == 0)

-- The loop over the members: none is 0, and none was seen before.
unfoldable pub distinct_members : List ℕ → List ℕ → Bool
distinct_members seen [] = true
distinct_members seen (pid ∷ pids) =
    not (pid == 0 || contains pid seen) && distinct_members (pid ∷ seen) pids

unfoldable decodes_to : (List ℕ → Option (List ℕ)) → List ℕ → ℕ → Bool
decodes_to decode text n = elim (decode text) [ none ↦ false | some b ↦ length b == n ]

-- The loop over the map literal from text to length. A text that stands there twice has the later
-- length only.
unfoldable pub lengths_fit : (List ℕ → Option (List ℕ)) → Listen → Bool
unfolding decodes_to bytes_eq
lengths_fit decode l =
    (bytes_eq l.address l.security_id
      || bytes_eq l.address l.security_key
      || decodes_to decode l.address 67)
    && (bytes_eq l.security_id l.security_key || decodes_to decode l.security_id 8)
    && decodes_to decode l.security_key 16

-- `new_id` is what ctrIDs.Add(1) returns.
unfoldable pub parse_ctr_search :
    (List ℕ → Option (List ℕ)) → ℕ → ℕ → ℕ → Option SearchDoc → Option Listen → Parsed Search
unfolding is_plausible distinct_members lengths_fit
parse_ctr_search decode conn pid new_id raw info = do
  d ← or_refuse raw invalid_search
  check (is_plausible pid d) invalid_search
  check (distinct_members [] d.members) bad_member
  check (contains pid d.members && not (ltb (pos_part d.slots_max) (length d.members))) no_leader
  l ← or_refuse info missing_info
  check (lengths_fit decode l) invalid_address
  accepted (record {
    conn = conn;
    id = new_id;
    pid = pid;
    members = d.members;
    slots_min = pos_part d.slots_min;
    slots_max = pos_part d.slots_max;
    listen = l;
    filter = d.filter;
    seats = length d.members;
  })
