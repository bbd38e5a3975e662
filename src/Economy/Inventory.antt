-- ===== src/Economy/Inventory.antt =====
-- inventoryPage (ctr_economy.go): the items of an account, in pages.
use nextendo_demonware.Common.{
  ℕ, zero, suc, ◌+◌, ◌-◌, ◌*◌, ◌≤◌, ◌≡◌, refl, sym, ap, ◌∙◌, List, [], ◌∷◌, ◌++◌, ltb, leb,
  if◌then◌else◌, length, take, drop, arith, Bool-cases, inl, inr, length-drop,
}
use native.Mathlib.Nat.{zero-add, suc-add}
use nextendo_demonware.Common.Select.{sort_by}

-- `items` are the keys of the map, each once; page and size are uint32s, whose product fits a uint64.
unfoldable pub inventory_page : List ℕ → ℕ → ℕ → List ℕ
inventory_page items zero size = []
inventory_page items (suc page) size =
    let sorted = sort_by ltb items in
    let start = page * size in
    let stop = if ltb (length sorted) (start + size) then length sorted else start + size in
    if leb (length sorted) start then [] else take (stop - start) (drop start sorted)

-- The pages 1, …, n one behind the other.
abbrev pub pages : List ℕ → ℕ → ℕ → List ℕ
pages items size zero = []
pages items size (suc n) = pages items size n ++ inventory_page items (suc n) size

drop-all : {A : Type 0} (n : ℕ) (xs : List A) → length xs ≤ n → drop n xs ≡ []
drop-all zero [] h = refl
drop-all zero (x ∷ xs) h = absurd (omega arith)
drop-all (suc n) [] h = refl
drop-all (suc n) (x ∷ xs) h = drop-all n xs (omega arith)

take-all : {A : Type 0} (n : ℕ) (xs : List A) → length xs ≤ n → take n xs ≡ xs
take-all zero [] h = refl
take-all zero (x ∷ xs) h = absurd (omega arith)
take-all (suc n) [] h = refl
take-all (suc n) (x ∷ xs) h = ap (◌∷◌ x) (take-all n xs (omega arith))

take-nil : {A : Type 0} (n : ℕ) → take {A = A} n [] ≡ []
take-nil zero = refl
take-nil (suc n) = refl

page-slice :
    (items : List ℕ) (page size : ℕ)
    → inventory_page items (suc page) size ≡ take size (drop (page * size) (sort_by ltb items))
unfolding inventory_page
page-slice items page size =
    let sorted = sort_by ltb items in
    let start = page * size in
    let n = length-drop start sorted in
    elim (Bool-cases (leb (length sorted) start)) [
      | inl e ↦ rw (e, drop-all start sorted (ground arith)) (sym (take-nil size))
      | inr e ↦ elim (Bool-cases (ltb (length sorted) (start + size))) [
        | inl f ↦
            rw (e, f)
              (take-all (length sorted - start) (drop start sorted) (omega (arith, n))
                ∙ sym (take-all size (drop start sorted) (ground (arith, n))))
        | inr f ↦ rw (e, f) (ap (λ k. take k (drop start sorted)) (omega arith))
      ]
    ]

take-add : {A : Type 0} (m n : ℕ) (xs : List A) → take (m + n) xs ≡ take m xs ++ take n (drop m xs)
take-add zero n xs = rw zero-add
take-add (suc m) n [] = rw suc-add (sym (take-nil n))
take-add (suc m) n (x ∷ xs) = rw suc-add (ap (◌∷◌ x) (take-add m n xs))

-- The first n pages, whatever their size, are the first n * size items in order: the pages neither
-- overlap nor leave out an item.
pub pages-take :
    (items : List ℕ) (size n : ℕ) → pages items size n ≡ take (n * size) (sort_by ltb items)
pages-take items size zero =
    let none_yet : 0 ≡ 0 * size = omega arith in ap (λ k. take k (sort_by ltb items)) none_yet
pages-take items size (suc n) =
    let one_more : n * size + size ≡ suc n * size = omega arith in
    ap (λ xs. xs ++ inventory_page items (suc n) size) (pages-take items size n)
    ∙ ap (λ ys. take (n * size) (sort_by ltb items) ++ ys) (page-slice items n size)
    ∙ sym (take-add (n * size) size (sort_by ltb items))
    ∙ ap (λ k. take k (sort_by ltb items)) one_more
