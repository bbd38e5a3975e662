-- ===== src/Stats/Owners.antt =====
-- Whose rows an upload has (ctr_stats.go).
use nextendo_demonware.Common.{
  ℕ, zero, suc, ◌≤◌, ◌≡◌, refl, subst, ◌≢◌, ◌⊎◌, inl, inr, Bool, true, false, not, ◌&&◌, ◌||◌, List,
  [], ◌∷◌, ◌==◌, if◌then◌else◌, arith, All, length,
}
use nextendo_demonware.Wire.Reader.{Reader, Read, Result, ok, err, refused, ◌>>=◌, and_then, is_end}
use nextendo_demonware.Wire.Reader
use nextendo_demonware.Stats.Types.{StatWrite, int64_of, octane_board}
use nextendo_demonware.Stats.Parse.{
  give, refuse_if, driver_of, is_bad_octane, row, parse_row, parse_rows, is_empty,
  parse_stat_writes,
}

-- A parse that succeeds went through both of its parts.
pub >>=-ok {ℓ κ} :
    {A : Type ℓ} {B : Type κ} (m : Read A) (f : A → Read B) (r r'' : Reader) (b : B)
    → (m >>= f) r ≡ (ok b, r'')
    → (a : A) × (r' : Reader) × (m r ≡ (ok a, r')) × (f a r' ≡ (ok b, r''))
>>=-ok {A = A} {B = B} m f r r'' b e = go (m r) refl e
  where
    go :
        (x : Result A × Reader)
        → m r ≡ x
        → and_then x f ≡ (ok b, r'')
        → (a : A) × (r' : Reader) × (m r ≡ (ok a, r')) × (f a r' ≡ (ok b, r''))
    go (ok a, r') h g = (a, r', h, g)
    go (err x, r') h g = cc

pub refuse_if-ok :
    (c : Bool) (r r' : Reader) (t : Unit {0}) → refuse_if c r ≡ (ok t, r') → c ≡ false
refuse_if-ok true r r' t e = cc
refuse_if-ok false r r' t e = refl

-- What an upload of the account `pid` may have in it.
pub record Valid (pid : ℕ) (w : StatWrite) : Type 0 where
  pub own : w.stat.pid ≡ pid
  pub known : pid ≢ 0
  pub supported : (w.operation ≡ 0) ⊎ (w.operation ≡ 1) ⊎ (w.operation ≡ 4)
  pub plausible : is_bad_octane w.stat.board w.operation w.stat.score ≡ false

pub give-ok {ℓ} : {A : Type ℓ} (a b : A) (r r' : Reader) → give a r ≡ (ok b, r') → a ≡ b
give-ok a b r r' e = cc

known_account : (entity pid : ℕ) → (not (entity == pid) || pid == 0) ≡ false → pid ≢ 0
known_account entity pid e = ground arith

supported_operation :
    (op : ℕ)
    → (not (op == 0) && not (op == 1) && not (op == 4)) ≡ false
    → (op ≡ 0) ⊎ (op ≡ 1) ⊎ (op ≡ 4)
supported_operation op e = ground arith

if-end :
    (c : Bool) (r r' : Reader) (y : Result (List StatWrite) × Reader) (ws : List StatWrite)
    → (if c then (ok [], r) else y) ≡ (ok ws, r')
    → ([] ≡ ws) ⊎ (y ≡ (ok ws, r'))
if-end true r r' y ws e = inl cc
if-end false r r' y ws e = inr e

parse_row-Valid :
    (pid : ℕ) (name : List ℕ) (now : ℕ) (r r' : Reader) (w : StatWrite)
    → parse_row pid name now r ≡ (ok w, r')
    → Valid pid w
unfolding parse_row
parse_row-Valid pid name now r r' w e =
    let (board, r1, _, e1) = >>=-ok Reader.u32 _ r r' w e in
    let (entity, r2, _, e2) = >>=-ok Reader.u64 _ r1 r' w e1 in
    let (op, r3, _, e3) = >>=-ok Reader.u8 _ r2 r' w e2 in
    let (v, r4, _, e4) = >>=-ok Reader.i64 _ r3 r' w e3 in
    let (t, r5, own, e5) = >>=-ok (refuse_if (not (entity == pid) || pid == 0)) _ r4 r' w e4 in
    let (t', r6, known, e6) =
      >>=-ok (refuse_if (not (op == 0) && not (op == 1) && not (op == 4))) _ r5 r' w e5 in
    let (driver, r7, _, e7) = >>=-ok (driver_of (octane_board board)) _ r6 r' w e6 in
    let (t'', r8, good, e8) =
      >>=-ok (refuse_if (is_bad_octane board op (int64_of v))) _ r7 r' w e7 in
    let same : row pid name now board op (int64_of v) driver ≡ w = give-ok _ w r8 r' e8 in
    subst (Valid pid) same (record {
      own = refl;
      known = known_account entity pid (refuse_if-ok _ r4 r5 t own);
      supported = supported_operation op (refuse_if-ok _ r5 r6 t' known);
      plausible = refuse_if-ok _ r7 r8 t'' good;
    })

parse_rows-Valid :
    (n pid : ℕ) (name : List ℕ) (now : ℕ) (r r' : Reader) (ws : List StatWrite)
    → parse_rows n pid name now r ≡ (ok ws, r')
    → All (Valid pid) ws × (length ws ≤ n)
unfolding parse_rows
parse_rows-Valid zero pid name now r r' ws e = elim (if-end (is_end r) r r' (err refused, r) ws e) [
  | inl same ↦ subst (λ x. All (Valid pid) x × (length x ≤ 0)) same (tt, omega arith)
  | inr y ↦ absurd (ground arith)
]
parse_rows-Valid (suc n) pid name now r r' ws e = elim (if-end (is_end r) r r' _ ws e) [
  | inl same ↦ subst (λ x. All (Valid pid) x × (length x ≤ suc n)) same (tt, omega arith)
  | inr y ↦
      let (w, r1, first, e1) = >>=-ok (parse_row pid name now) _ r r' ws y in
      let (others, r2, more, e2) = >>=-ok (parse_rows n pid name now) _ r1 r' ws e1 in
      let (valid, few) = parse_rows-Valid n pid name now r1 r2 others more in
      subst (λ x. All (Valid pid) x × (length x ≤ suc n)) (give-ok (w ∷ others) ws r2 r' e2)
        ((parse_row-Valid pid name now r r1 w first, valid), omega (arith, few))
]

not_empty : (rows : List StatWrite) → is_empty rows ≡ false → 1 ≤ length rows
not_empty [] e = cc
not_empty (w ∷ ws) e = omega arith

-- An upload that is read has from 1 to 128 rows, each for the account that sent it, which is known;
-- with an operation that is supported; and, on an Octane board, with a score that is plausible.
pub parse_stat_writes-Valid :
    (pid : ℕ) (name : List ℕ) (now : ℕ) (r r' : Reader) (ws : List StatWrite)
    → parse_stat_writes pid name now r ≡ (ok ws, r')
    → All (Valid pid) ws × (1 ≤ length ws) × (length ws ≤ 128)
unfolding parse_stat_writes
parse_stat_writes-Valid pid name now r r' ws e =
    let (rows, r1, read, e1) = >>=-ok (parse_rows 128 pid name now) _ r r' ws e in
    let (t, r2, some_row, e2) = >>=-ok (refuse_if (is_empty rows)) _ r1 r' ws e1 in
    let (valid, few) = parse_rows-Valid 128 pid name now r r1 rows read in
    subst (λ x. All (Valid pid) x × (1 ≤ length x) × (length x ≤ 128)) (give-ok rows ws r2 r' e2)
      (valid, not_empty rows (refuse_if-ok _ r1 r2 t some_row), few)
