-- ===== src/Wire/RoundTrip.antt =====
-- What a bdReader reads back from a bdWriter (services.go, matchmaking.go).
use nextendo_demonware.Common.{
  [], ℕ, ◌+◌, ◌%◌, ◌^◌, ◌<◌, ◌≢◌, ◌≡◌, refl, sym, ap, subst, ◌∙◌, List, ◌∷◌, ◌++◌, some, length,
  drop, arith, append-nil, append_assoc, drop-append_length, take-append_length, length-append,
  drop-drop, All,
}
use nextendo_demonware.Common.Bytes.{put_le, length-put_le, get_le-put_le}
use native.Mathlib.Nat.{mod-eq_of_lt}
use nextendo_demonware.Wire.Tags.{tag_u8, tag_u32, tag_i64, tag_u64, tag_string, tag_blob}
use nextendo_demonware.Wire.Writer
use nextendo_demonware.Wire.Reader.{Reader, Read, ok, ◌>>=◌, remaining, advance}
use nextendo_demonware.Wire.Reader

-- `m` takes the bytes `enc` off the front of what is left, and returns `a`.
pub record Took {ℓ} {A : Type ℓ} (m : Read A) (a : A) (enc rest : List ℕ) (r : Reader)
    : Type ℓ where
  pub after : Reader
  pub result : m r ≡ (ok a, after)
  pub same_buffer : after.b ≡ r.b
  pub offset : after.off ≡ r.off + length enc
  pub left : remaining after ≡ rest

abbrev pub Consumes {ℓ} : {A : Type ℓ} → Read A → A → List ℕ → Type ℓ
Consumes m a enc = (r : Reader) (rest : List ℕ) → remaining r ≡ enc ++ rest → Took m a enc rest r

pub >>=-Consumes {ℓ κ} :
    {A : Type ℓ} {B : Type κ} (m : Read A) (f : A → Read B) (a : A) (c : B) (xs ys : List ℕ)
    → Consumes m a xs
    → Consumes (f a) c ys
    → Consumes (m >>= f) c (xs ++ ys)
>>=-Consumes m f a c xs ys hm hf r rest e =
    let s = hm r (ys ++ rest) (e ∙ append_assoc xs ys rest) in
    let t = hf s.after rest s.left in
    record {
      after = t.after;
      result = rw s.result t.result;
      same_buffer = t.same_buffer ∙ s.same_buffer;
      offset = omega (arith, t.offset, s.offset, length-append xs ys);
      left = t.left;
    }

tag-Consumes : (t : ℕ) → Consumes (Reader.tag t) tt (t ∷ [])
unfolding Reader.tag
tag-Consumes t r rest e = record {
  after = advance 1 r;
  result = rw (e, Reader.tag) (ground arith);
  same_buffer = refl;
  offset = refl;
  left = sym (drop-drop 1 r.off r.b) ∙ ap (drop 1) e;
}

bytes-Consumes : (p : List ℕ) → Consumes (Reader.bytes (length p)) p p
unfolding Reader.bytes
bytes-Consumes p r rest e = record {
  after = advance (length p) r;
  result = rw (e, Reader.bytes, take-append_length p rest) (ground (arith, length-append p rest));
  same_buffer = refl;
  offset = refl;
  left = sym (drop-drop (length p) r.off r.b) ∙ ap (drop (length p)) e ∙ drop-append_length p rest;
}

decode-Consumes : (k v : ℕ) → v < 256 ^ k → Consumes (Reader.decode (put_le k v)) v []
decode-Consumes k v h r rest e = record {
  after = r;
  result = rw (get_le-put_le k v h);
  same_buffer = refl;
  offset = omega arith;
  left = e;
}

-- A word behind its tag.
word-Consumes : (t k v : ℕ) → v < 256 ^ k → Consumes (Reader.word t k) v (t ∷ put_le k v)
word-Consumes t k v h =
    subst (Consumes (Reader.word t k) v) (ap (◌∷◌ t) (append-nil (put_le k v))) (
      >>=-Consumes (Reader.tag t) (λ _. Reader.bytes k >>= Reader.decode) tt v (t ∷ [])
        (put_le k v ++ []) (tag-Consumes t)
        (>>=-Consumes (Reader.bytes k) Reader.decode (put_le k v) v (put_le k v) []
          (subst (λ n. Consumes (Reader.bytes n) (put_le k v) (put_le k v)) (length-put_le k v)
            (bytes-Consumes (put_le k v)))
          (decode-Consumes k v h)))

u8-Consumes : (v : ℕ) → v < 256 → Consumes Reader.u8 v (Writer.u8 [] v)
unfolding Reader.u8 Writer.u8
u8-Consumes v h =
    subst (λ b. Consumes Reader.u8 v (tag_u8 ∷ b ∷ [])) (mod-eq_of_lt h)
      (unfold put_le in word-Consumes tag_u8 1 v h)

pub u32-Consumes : (v : ℕ) → v < 2 ^ 32 → Consumes Reader.u32 v (Writer.u32 [] v)
unfolding Reader.u32 Writer.u32
u32-Consumes v h = word-Consumes tag_u32 4 v h

u64-Consumes : (v : ℕ) → v < 2 ^ 64 → Consumes Reader.u64 v (Writer.u64 [] v)
unfolding Reader.u64 Writer.u64
u64-Consumes v h = word-Consumes tag_u64 8 v h

i64-Consumes : (v : ℕ) → v < 2 ^ 64 → Consumes Reader.i64 v (Writer.i64 [] v)
unfolding Reader.i64 Writer.i64
i64-Consumes v h = word-Consumes tag_i64 8 v h

abbrev NoNul : List ℕ → Type 0
NoNul s = All (λ c. c ≢ 0) s

scan_nul-append : (s rest : List ℕ) → NoNul s → Reader.scan_nul (s ++ 0 ∷ rest) ≡ some s
unfolding Reader.scan_nul
scan_nul-append [] rest h = refl
scan_nul-append (c ∷ s) rest (hc, hs) = rw (scan_nul-append s rest hs) (ground arith)

until_nul-Consumes : (s : List ℕ) → NoNul s → Consumes Reader.until_nul s (s ++ 0 ∷ [])
unfolding Reader.until_nul
until_nul-Consumes s h r rest e =
    let e' : remaining r ≡ s ++ 0 ∷ rest = e ∙ append_assoc s (0 ∷ []) rest in
    let n : length (s ++ 0 ∷ []) ≡ length s + 1 = length-append s (0 ∷ []) in
    record {
      after = advance (length s + 1) r;
      result = rw (e', Reader.until_nul, scan_nul-append s rest h);
      same_buffer = refl;
      offset = omega (arith, n);
      left =
          sym (drop-drop (length s + 1) r.off r.b)
          ∙ ap (drop (length s + 1)) e
          ∙ ap (λ k. drop k ((s ++ 0 ∷ []) ++ rest)) (sym n)
          ∙ drop-append_length (s ++ 0 ∷ []) rest;
    }

-- A string is read back by `str`, which takes its tag and its NUL too.
pub str-Consumes : (s : List ℕ) → NoNul s → Consumes Reader.str s (Writer.strv [] s)
unfolding Reader.str Writer.strv
str-Consumes s h =
    >>=-Consumes (Reader.tag tag_string) (λ _. Reader.until_nul) tt s (tag_string ∷ [])
      (s ++ 0 ∷ []) (tag-Consumes tag_string) (until_nul-Consumes s h)

-- A blob is read back by `blob`.
blob-Consumes : (p : List ℕ) → length p < 2 ^ 32 → Consumes Reader.blob p (Writer.blobv [] p)
unfolding Reader.blob Writer.blobv
blob-Consumes p h =
    let n : ℕ = length p % 2 ^ 32 in
    >>=-Consumes (Reader.tag tag_blob) (λ _. Reader.u32 >>= Reader.bytes) tt p (tag_blob ∷ [])
      (Writer.u32 [] n ++ p) (tag-Consumes tag_blob)
      (>>=-Consumes Reader.u32 Reader.bytes n p (Writer.u32 [] n) p (u32-Consumes n (omega arith))
        (subst (λ k. Consumes (Reader.bytes k) p p) (sym (mod-eq_of_lt h)) (bytes-Consumes p)))

-- Wherever a string without NUL was written, whatever follows it, `str` returns it and stops behind it.
str-strv :
    (s rest : List ℕ) (r : Reader)
    → NoNul s
    → remaining r ≡ Writer.strv [] s ++ rest
    → Took Reader.str s (Writer.strv [] s) rest r
str-strv s rest r h e = str-Consumes s h r rest e

-- Wherever a blob of less than 2 ^ 32 bytes was written, whatever follows it, `blob` returns it and
-- stops behind it.
blob-blobv :
    (p rest : List ℕ) (r : Reader)
    → length p < 2 ^ 32
    → remaining r ≡ Writer.blobv [] p ++ rest
    → Took Reader.blob p (Writer.blobv [] p) rest r
blob-blobv p rest r h e = blob-Consumes p h r rest e

-- Wherever a uint64 was written, whatever follows it, `u64` returns it and stops behind it.
u64-u64 :
    (v : ℕ) (rest : List ℕ) (r : Reader)
    → v < 2 ^ 64
    → remaining r ≡ Writer.u64 [] v ++ rest
    → Took Reader.u64 v (Writer.u64 [] v) rest r
u64-u64 v rest r h e = u64-Consumes v h r rest e
