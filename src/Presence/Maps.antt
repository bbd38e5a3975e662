-- ===== src/Presence/Maps.antt =====
-- Lookups in a map, and counts in a list (friends.go).
use nextendo_demonware.Common.{
  [], ℕ, ◌+◌, ◌-◌, ◌≡◌, refl, ap, true, not, List, ◌∷◌, none, some, ◌==◌, if◌then◌else◌, arith,
}
use nextendo_demonware.Common.Select.{contains, remove_first}
use nextendo_demonware.Presence.Table.{lookup, erase, insert}

module _ {ℓ} {V : Type ℓ} where
  pub lookup-erase :
      (j k : ℕ) (m : List (ℕ × V)) → lookup j (erase k m) ≡ (if k == j then none else lookup j m)
  unfolding lookup erase
  lookup-erase j k [] = ground arith
  lookup-erase j k ((i, v) ∷ m) = ground (arith, lookup-erase j k m)

  pub lookup-insert :
      (j k : ℕ) (v : V) (m : List (ℕ × V))
      → lookup j (insert k v m) ≡ (if k == j then some v else lookup j m)
  unfolding lookup insert
  lookup-insert j k v m = ground (arith, lookup-erase j k m)

abbrev pub count : ℕ → List ℕ → ℕ
count id [] = 0
count id (i ∷ is) = if i == id then count id is + 1 else count id is

pub count-same : (pid id : ℕ) (is : List ℕ) → (pid == id) ≡ true → count pid is ≡ count id is
count-same pid id is h = ap (λ i. count i is) (ground arith)

pub contains-count : (pid : ℕ) (is : List ℕ) → contains pid is ≡ not (count pid is == 0)
contains-count pid [] = refl
contains-count pid (i ∷ is) = ground (arith, contains-count pid is)

pub count-remove_first :
    (pid id : ℕ) (is : List ℕ)
    → contains pid is ≡ true
    → count id (remove_first (λ i. i == pid) is)
      ≡ (if pid == id then count id is - 1 else count id is)
count-remove_first pid id [] h = cc
count-remove_first pid id (i ∷ is) h =
    ground (arith, count-remove_first pid id is, contains-count pid is)
