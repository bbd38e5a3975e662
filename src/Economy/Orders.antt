-- ===== src/Economy/Orders.antt =====
-- What the shop's tasks accept, and what they leave of an account (ctr_marketplace.go).
use nextendo_demonware.Common.{
  [], ℕ, zero, suc, ◌≤◌, ◌<◌, ◌^◌, ◌≡◌, refl, sym, ap, subst, ◌∙◌, Bool, true, false, not, ◌||◌,
  List, ◌∷◌, ◌++◌, ltb, ◌==◌, length, arith, All, append-nil,
}
use nextendo_demonware.Common.Select.{bytes_eq, bytes_eq_self}
use nextendo_demonware.Wire.Writer
use nextendo_demonware.Wire.Reader.{◌>>=◌, ◌>>◌, Reader, Read, ok, remaining}
use nextendo_demonware.Wire.Reader
use nextendo_demonware.Wire.RoundTrip.{Took, Consumes, >>=-Consumes, str-Consumes, u32-Consumes}
use nextendo_demonware.Stats.Parse.{give, refuse_if}
use nextendo_demonware.Stats.Owners.{>>=-ok, refuse_if-ok, give-ok}
use nextendo_demonware.Proto.Names.{context_name}
use nextendo_demonware.Economy.Requests.{read_u32s, read_ones, same_context, parse_purchase_skus}

give-Consumes {ℓ} : {A : Type ℓ} (a : A) → Consumes (give a) a []
give-Consumes a r rest e = record {
  after = r;
  result = refl;
  same_buffer = refl;
  offset = omega arith;
  left = e;
}

-- A test that is not met takes nothing.
passes {ℓ} :
    {B : Type ℓ} (c : Bool) (m : Read B) (b : B) (xs : List ℕ)
    → c ≡ false
    → Consumes m b xs
    → Consumes (refuse_if c >> m) b xs
passes true m b xs e h = absurd (cc)
passes false m b xs e h = h

-- The encoding of uint32s, one behind the other.
abbrev words : List ℕ → List ℕ
words [] = []
words (v ∷ vs) = Writer.u32 [] v ++ words vs

abbrev ones : ℕ → List ℕ
ones zero = []
ones (suc n) = Writer.u32 [] 1 ++ ones n

read_u32s-Consumes :
    (vs : List ℕ) → All (λ v. v < 2 ^ 32) vs → Consumes (read_u32s (length vs)) vs (words vs)
unfolding read_u32s
read_u32s-Consumes [] h = give-Consumes []
read_u32s-Consumes (v ∷ vs) (hv, h) =
    >>=-Consumes Reader.u32 (λ x. read_u32s (length vs) >>= λ xs. give (x ∷ xs)) v (v ∷ vs)
      (Writer.u32 [] v) (words vs) (u32-Consumes v hv)
      (subst (Consumes (read_u32s (length vs) >>= λ xs. give (v ∷ xs)) (v ∷ vs))
        (append-nil (words vs))
        (>>=-Consumes (read_u32s (length vs)) (λ xs. give (v ∷ xs)) vs (v ∷ vs) (words vs) []
          (read_u32s-Consumes vs h) (give-Consumes (v ∷ vs))))

read_ones-Consumes : (n : ℕ) → Consumes (read_ones n) tt (ones n)
unfolding read_ones
read_ones-Consumes zero = give-Consumes tt
read_ones-Consumes (suc n) =
    >>=-Consumes Reader.u32 (λ q. refuse_if (not (q == 1)) >> read_ones n) 1 tt (Writer.u32 [] 1)
      (ones n) (u32-Consumes 1 (omega arith))
      (passes (not (1 == 1)) (read_ones n) tt (ones n) refl (read_ones-Consumes n))

-- A request to buy the SKUs, one of each.
abbrev pub purchase_request : List ℕ → List ℕ
purchase_request skus =
    Writer.strv [] context_name
    ++ (Writer.u32 [] (length skus)
        ++ (words skus ++ (Writer.u32 [] (length skus) ++ ones (length skus))))

-- What parsePurchaseSkus does once the SKUs, their number and the context are read.
abbrev after_skus : ℕ → List ℕ → Read (List ℕ)
after_skus n skus = Reader.u32 >>= λ qn. refuse_if (not (qn == n)) >> (read_ones n >> give skus)

abbrev after_count : ℕ → Read (List ℕ)
after_count n = refuse_if (n == 0 || ltb 255 n) >> (read_u32s n >>= after_skus n)

abbrev after_context : List ℕ → Read (List ℕ)
after_context ctx = same_context ctx >> (Reader.u32 >>= after_count)

after_skus-Consumes :
    (skus : List ℕ)
    → length skus < 2 ^ 32
    → Consumes
        (after_skus (length skus) skus)
        skus
        (Writer.u32 [] (length skus) ++ ones (length skus))
after_skus-Consumes skus h =
    let n : ℕ = length skus in
    let same : not (n == n) ≡ false = ground arith in
    >>=-Consumes Reader.u32 (λ qn. refuse_if (not (qn == n)) >> (read_ones n >> give skus)) n skus
      (Writer.u32 [] n) (ones n) (u32-Consumes n h)
      (passes (not (n == n)) (read_ones n >> give skus) skus (ones n) same (
        subst (Consumes (read_ones n >> give skus) skus) (append-nil (ones n)) (
          >>=-Consumes (read_ones n) (λ _. give skus) tt skus (ones n) [] (read_ones-Consumes n)
            (give-Consumes skus))))

after_count-Consumes :
    (skus : List ℕ)
    → All (λ v. v < 2 ^ 32) skus
    → 0 < length skus
    → length skus ≤ 255
    → Consumes
        (after_count (length skus))
        skus
        (words skus ++ (Writer.u32 [] (length skus) ++ ones (length skus)))
after_count-Consumes skus h positive few =
    let n : ℕ = length skus in
    let fits : (n == 0 || ltb 255 n) ≡ false = ground arith in
    let rest : List ℕ = Writer.u32 [] n ++ ones n in
    passes (n == 0 || ltb 255 n) (read_u32s n >>= after_skus n) skus (words skus ++ rest) fits (
      >>=-Consumes (read_u32s n) (after_skus n) skus skus (words skus) rest
        (read_u32s-Consumes skus h) (after_skus-Consumes skus (omega arith)))

-- Where a request to buy 1 to 255 SKUs, one of each, was written, whatever follows it, exactly these
-- SKUs are read.
pub parse_purchase_skus-purchase_request :
    (skus rest : List ℕ) (r : Reader)
    → All (λ v. v < 2 ^ 32) skus
    → 0 < length skus
    → length skus ≤ 255
    → remaining r ≡ purchase_request skus ++ rest
    → Took parse_purchase_skus skus (purchase_request skus) rest r
unfolding parse_purchase_skus
parse_purchase_skus-purchase_request skus rest r h positive few e =
    let n : ℕ = length skus in
    let tail : List ℕ = words skus ++ (Writer.u32 [] n ++ ones n) in
    let known : not (bytes_eq context_name context_name) ≡ false =
      ap not (bytes_eq_self context_name) in
    >>=-Consumes Reader.str after_context context_name skus (Writer.strv [] context_name)
      (Writer.u32 [] n ++ tail) (str-Consumes context_name (omega arith))
      (passes (not (bytes_eq context_name context_name)) (Reader.u32 >>= after_count) skus
        (Writer.u32 [] n ++ tail) known
        (>>=-Consumes Reader.u32 after_count n skus (Writer.u32 [] n) tail
          (u32-Consumes n (omega arith)) (after_count-Consumes skus h positive few)))
      r rest e

length-read_u32s :
    (n : ℕ) (vs : List ℕ) (r r' : Reader) → read_u32s n r ≡ (ok vs, r') → length vs ≡ n
unfolding read_u32s
length-read_u32s zero vs r r' e = ap length (sym (give-ok [] vs r r' e))
length-read_u32s (suc n) vs r r' e =
    let (v, r1, _, e1) = >>=-ok Reader.u32 (λ x. read_u32s n >>= λ xs. give (x ∷ xs)) r r' vs e in
    let (ws, r2, e2, e3) = >>=-ok (read_u32s n) (λ xs. give (v ∷ xs)) r1 r' vs e1 in
    ap length (sym (give-ok (v ∷ ws) vs r2 r' e3)) ∙ ap suc (length-read_u32s n ws r1 r2 e2)

-- A purchase request that is accepted names 1 to 255 SKUs.
pub length-parse_purchase_skus :
    (skus : List ℕ) (r r' : Reader)
    → parse_purchase_skus r ≡ (ok skus, r')
    → (0 < length skus) × (length skus ≤ 255)
unfolding parse_purchase_skus
length-parse_purchase_skus skus r r' e =
    let (ctx, r1, _, e1) = >>=-ok Reader.str after_context r r' skus e in
    let (t, r2, _, e2) =
      >>=-ok (same_context ctx) (λ _. Reader.u32 >>= after_count) r1 r' skus e1 in
    let (n, r3, _, e3) = >>=-ok Reader.u32 after_count r2 r' skus e2 in
    let (u, r4, f, e4) =
      >>=-ok (refuse_if (n == 0 || ltb 255 n)) (λ _. read_u32s n >>= after_skus n) r3 r' skus e3 in
    let (vs, r5, g, e5) = >>=-ok (read_u32s n) (after_skus n) r4 r' skus e4 in
    let (qn, r6, _, e6) =
      >>=-ok Reader.u32 (λ qn. refuse_if (not (qn == n)) >> (read_ones n >> give vs)) r5 r' skus
        e5 in
    let (w, r7, _, e7) =
      >>=-ok (refuse_if (not (qn == n))) (λ _. read_ones n >> give vs) r6 r' skus e6 in
    let (x, r8, _, e8) = >>=-ok (read_ones n) (λ _. give vs) r7 r' skus e7 in
    let same : vs ≡ skus = give-ok vs skus r8 r' e8 in
    let size : length skus ≡ n = ap length (sym same) ∙ length-read_u32s n vs r4 r5 g in
    let few : (n == 0 || ltb 255 n) ≡ false = refuse_if-ok (n == 0 || ltb 255 n) r3 r4 u f in
    ground arith
