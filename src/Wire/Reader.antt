-- ===== src/Wire/Reader.antt =====
-- bdReader: a buffer and an offset. A method returns its value or an error, and the reader as it
-- leaves it, on an error too. `refused` stands for the errors that a handler makes itself.
use nextendo_demonware.Common.{
  [], ℕ, ◌+◌, Bool, true, false, List, ◌∷◌, Option, none, some, ltb, ◌==◌, if◌then◌else◌, length,
  take, drop,
}
use nextendo_demonware.Common.Bytes.{get_le}
use nextendo_demonware.Wire.Tags.{tag_u8, tag_u32, tag_i64, tag_u64, tag_string, tag_blob}

pub record Reader : Type 0 where
  pub b : List ℕ
  pub off : ℕ

pub data Error : Type 0 where
  short unexpected_tag refused : Error

pub data Result {ℓ} (A : Type ℓ) : Type ℓ where
  ok : A → Result A
  err : Error → Result A

abbrev pub Read {ℓ} : Type ℓ → Type ℓ
Read A = Reader → Result A × Reader

abbrev pub and_then {ℓ κ} :
    {A : Type ℓ} {B : Type κ} → Result A × Reader → (A → Read B) → Result B × Reader
and_then (ok a, r) f = f a r
and_then (err e, r) f = (err e, r)

infixl 5 ◌>>=◌ ◌>>◌
abbrev pub ◌>>=◌ {ℓ κ} : {A : Type ℓ} {B : Type κ} → Read A → (A → Read B) → Read B
◌>>=◌ m f r = and_then (m r) f

abbrev pub ◌>>◌ {ℓ} : {B : Type ℓ} → Read (Unit {0}) → Read B → Read B
m >> k = m >>= λ _. k

-- `r.b[r.off:]`.
abbrev pub remaining : Reader → List ℕ
remaining r = drop r.off r.b

abbrev pub advance : ℕ → Reader → Reader
advance n r = record r { off = r.off + n }

unfoldable pub tag : ℕ → Read (Unit {0})
tag want r = elim (remaining r) [
  | [] ↦ (err short, r)
  | c ∷ _ ↦ if c == want then (ok tt, advance 1 r) else (err unexpected_tag, r)
]

-- The next n bytes, if there are so many.
unfoldable pub bytes : ℕ → Read (List ℕ)
bytes n r =
    if ltb (length (remaining r)) n
    then (err short, r)
    else (ok (take n (remaining r)), advance n r)

abbrev pub decode : List ℕ → Read ℕ
decode p r = (ok (get_le p), r)

abbrev pub word : ℕ → ℕ → Read ℕ
word want n = do tag want; v ← bytes n; decode v

unfoldable pub u8 : Read ℕ
unfolding tag bytes
u8 = word tag_u8 1

unfoldable pub u32 : Read ℕ
unfolding tag bytes
u32 = word tag_u32 4

unfoldable pub u64 : Read ℕ
unfolding tag bytes
u64 = word tag_u64 8

-- statsInt64 of ctr_stats.go, as the bit pattern of the int64.
unfoldable pub i64 : Read ℕ
unfolding tag bytes
i64 = word tag_i64 8

-- The bytes in front of the first NUL, if there is one.
unfoldable pub scan_nul : List ℕ → Option (List ℕ)
scan_nul [] = none
scan_nul (c ∷ cs) =
    if c == 0 then some [] else (elim (scan_nul cs) [ none ↦ none | some s ↦ some (c ∷ s) ])

unfoldable pub until_nul : Read (List ℕ)
unfolding scan_nul
until_nul r = elim (scan_nul (remaining r)) [
  | none ↦ (err short, r)
  | some s ↦ (ok s, advance (length s + 1) r)
]

unfoldable pub str : Read (List ℕ)
unfolding tag until_nul
str = do tag tag_string; until_nul

unfoldable pub blob : Read (List ℕ)
unfolding tag bytes u32
blob = do tag tag_blob; n ← u32; bytes n

-- The bytes without the final NUL, if the last byte is one.
unfoldable drop_final_nul : List ℕ → List ℕ
drop_final_nul [] = []
drop_final_nul (c ∷ []) = if c == 0 then [] else c ∷ []
drop_final_nul (c ∷ d ∷ cs) = c ∷ drop_final_nul (d ∷ cs)

-- `rest` does not move the offset.
unfoldable pub rest : Reader → List ℕ
unfolding drop_final_nul
rest r = drop_final_nul (remaining r)

-- statsEnd of ctr_stats.go: the end of the buffer, or a final NUL.
unfoldable pub is_end : Reader → Bool
is_end r = elim (remaining r) [ [] ↦ true | c ∷ cs ↦ (elim cs [ [] ↦ c == 0 | _ ∷ _ ↦ false ]) ]
