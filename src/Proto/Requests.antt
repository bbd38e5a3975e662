-- ===== src/Proto/Requests.antt =====
-- How the scan of a balances request ends: on the requests that a client writes, and on lengths that
-- do not fit an int.
use nextendo_demonware.Common.{
  [], ℕ, zero, suc, ◌+◌, ◌-◌, ◌*◌, ◌/◌, ◌%◌, ◌^◌, ◌≤◌, ◌<◌, ◌≡◌, refl, ap, ◌∙◌, true, false, List,
  ◌∷◌, ◌++◌, some, length, get_or, ltb, ◌==◌, arith, length-append, lt→ltb,
}
use nextendo_demonware.Common.Int.{ℤ, pos, ltb_ℤ, ◌+ℤ◌}
use nextendo_demonware.Stats.Types.{int64_of, wrap_int64}
use nextendo_demonware.Wire.Varint.{
  append_varint, read_varint, groups, append_varint-groups, length-append_varint,
  read_varint-append_varint,
}
use nextendo_demonware.Proto.Balances.{panicked, unfinished, end_of, slice, balances_loop}

-- A field of bytes whose length is v, in front of `rest`.
abbrev pub field_of_length : ℕ → ℕ → List ℕ → List ℕ
field_of_length field v rest = append_varint ((field * 8 + 2) ∷ []) v ++ rest

-- What it costs to read the length of 2 ^ 64 - 11.
back_to_start :
    (field : ℕ) (rest : List ℕ)
    → read_varint (field_of_length field (2 ^ 64 - 11) rest) 1 ≡ some (2 ^ 64 - 11, 11)
unfolding groups
back_to_start field rest =
    let v : ℕ = 2 ^ 64 - 11 in
    let b : List ℕ = (field * 8 + 2) ∷ [] in
    let n : length (append_varint b v) ≡ 11 =
      ap length (append_varint-groups b v (omega arith)) ∙ refl in
    read_varint-append_varint b rest v (omega arith) ∙ ap (λ k. some (v, k)) n

goes_back : end_of 11 (2 ^ 64 - 11) ≡ pos 0
unfolding end_of wrap_int64 int64_of ◌+ℤ◌
goes_back = refl

pub balances_loop-forever :
    (fuel field : ℕ) (rest ctx : List ℕ) (max : ℤ)
    → 1 < field
    → field < 32
    → balances_loop fuel (field_of_length field (2 ^ 64 - 11) rest) (pos 0) ctx max ≡ unfinished
unfolding balances_loop
balances_loop-forever zero field rest ctx max h k = refl
balances_loop-forever (suc fuel) field rest ctx max h k =
    let v : ℕ = 2 ^ 64 - 11 in
    let sb : List ℕ = field_of_length field v rest in
    let e : sb ≡ (field * 8 + 2) ∷ groups 9 v ++ rest =
      ap (λ w. w ++ rest) (append_varint-groups ((field * 8 + 2) ∷ []) v (omega arith)) in
    let first : get_or sb 0 0 ≡ field * 8 + 2 = ap (λ w. get_or w 0 0) e in
    let some_bytes : ltb 0 (length sb) ≡ true = lt→ltb 0 (length sb) (omega (arith, ap length e)) in
    let wire : get_or sb 0 0 % 8 ≡ 2 = omega (arith, first) in
    let number : get_or sb 0 0 / 8 ≡ field = omega (arith, first) in
    let other : (field == 1) ≡ false = ground arith in
    let inside : ltb_ℤ (pos (length sb)) (pos 0) ≡ false = ground arith in
    rw
      (
        some_bytes,
        balances_loop,
        wire,
        back_to_start field rest,
        wire,
        goes_back,
        inside,
        number,
        other,
      )
      (ap (λ i. balances_loop fuel sb i ctx max) goes_back
        ∙ balances_loop-forever fuel field rest ctx max h k)

length-groups : (v : ℕ) → 2 ^ 63 ≤ v → length (groups 9 v) ≡ 10
unfolding groups
length-groups v h = ground arith

pub length-field_of_length :
    (field v : ℕ) (rest : List ℕ)
    → v < 2 ^ 64
    → length (field_of_length field v rest) ≤ 11 + length rest
length-field_of_length field v rest h =
    let b : List ℕ = (field * 8 + 2) ∷ [] in
    omega (arith, length-append (append_varint b v) rest, length-append_varint b v h)

ends_before : (ln : ℕ) → 2 ^ 63 ≤ ln → ln < 2 ^ 64 → ltb_ℤ (end_of 11 ln) (pos 11) ≡ true
unfolding end_of wrap_int64 int64_of ◌+ℤ◌
ends_before ln h k = ground arith

ends_inside : (ln n : ℕ) → 2 ^ 63 ≤ ln → ln < 2 ^ 64 → 11 ≤ n → ltb_ℤ (pos n) (end_of 11 ln) ≡ false
unfolding end_of wrap_int64 int64_of ◌+ℤ◌
ends_inside ln n h k m = ground arith

pub balances_loop-panics :
    (fuel ln : ℕ) (rest ctx : List ℕ) (max : ℤ)
    → 2 ^ 63 ≤ ln
    → ln < 2 ^ 64
    → balances_loop (suc fuel) (field_of_length 1 ln rest) (pos 0) ctx max ≡ panicked
unfolding balances_loop slice
balances_loop-panics fuel ln rest ctx max h k =
    let sb : List ℕ = field_of_length 1 ln rest in
    let w : append_varint (10 ∷ []) ln ≡ 10 ∷ groups 9 ln = append_varint-groups (10 ∷ []) ln k in
    let e : sb ≡ 10 ∷ groups 9 ln ++ rest = ap (λ w. w ++ rest) w in
    let ten : length (groups 9 ln) ≡ 10 = length-groups ln h in
    let n : length (append_varint (10 ∷ []) ln) ≡ 11 = omega (arith, ap length w, ten) in
    let long : 11 ≤ length sb = omega (arith, ap length e, length-append (groups 9 ln) rest, ten) in
    let first : get_or sb 0 0 ≡ 10 = ap (λ w. get_or w 0 0) e in
    let some_bytes : ltb 0 (length sb) ≡ true = lt→ltb 0 (length sb) (omega arith) in
    let read : read_varint sb 1 ≡ some (ln, 11) =
      read_varint-append_varint (10 ∷ []) rest ln k ∙ ap (λ k. some (ln, k)) n in
    rw
      (
        some_bytes,
        balances_loop,
        first,
        read,
        first,
        ends_inside ln (length sb) h k long,
        first,
        ends_before ln h k,
      )
      refl
