-- ===== src/Handshake/Delivery.antt =====
-- An encrypted message is understood by the side that has its keys (handshake.go).
use nextendo_demonware.Common.{
  [], ℕ, zero, suc, ◌+◌, ◌-◌, ◌%◌, ◌^◌, ◌≤◌, ◌<◌, ◌≡◌, refl, sym, ap, ◌∙◌, ◌⊎◌, inl, inr, true,
  false, not, ◌||◌, List, ◌∷◌, ◌++◌, some, length, take, drop, ltb, ◌==◌, arith, Bool-cases,
  append-nil, append_assoc, length-append, length-take, take-append_length, drop-append_length,
}
use nextendo_demonware.Common.Bytes.{put_le, get_le, get_le-put_le}
use nextendo_demonware.Common.Select.{bytes_eq, bytes_eq_self}
use nextendo_demonware.Handshake.Crypto.{Primitives, aes_cbc_encrypt, aes_cbc_decrypt, part}
use nextendo_demonware.Handshake.Keys.{Hash20}
use nextendo_demonware.Handshake.Frames.{u32le}
use nextendo_demonware.Handshake.Messages.{
  msg_encrypted, msg_task, pad_loop, plaintext, envelope, send_encrypted, task, open_plaintext,
  opened, unsigned, signature, on_encrypted,
}

-- What is appended, and that it was enough.
record Padded (pt padded : List ℕ) : Type 0 where
  zeros : List ℕ
  appended : padded ≡ pt ++ zeros
  aligned : length padded % 16 ≡ 0

pad_loop-Padded :
    (fuel : ℕ) (pt : List ℕ)
    → (length pt % 16 ≡ 0) ⊎ (16 ≤ fuel + length pt % 16)
    → Padded pt (pad_loop fuel pt)
unfolding pad_loop
pad_loop-Padded zero pt h = record {
  zeros = [];
  appended = sym (append-nil pt);
  aligned = ground arith;
}
pad_loop-Padded (suc fuel) pt h = elim (Bool-cases (length pt % 16 == 0)) [
  | inl e ↦
      rw (e, pad_loop)
        (record { zeros = []; appended = sym (append-nil pt); aligned = ground arith })
  | inr e ↦
      let longer : length (pt ++ 0 ∷ []) ≡ length pt + 1 = length-append pt (0 ∷ []) in
      let more : (length (pt ++ 0 ∷ []) % 16 ≡ 0) ⊎ (16 ≤ fuel + length (pt ++ 0 ∷ []) % 16) =
        ground arith in
      let rest = pad_loop-Padded fuel (pt ++ 0 ∷ []) more in
      rw (e, pad_loop)
        (record {
          zeros = 0 ∷ rest.zeros;
          appended = rest.appended ∙ append_assoc pt (0 ∷ []) rest.zeros;
          aligned = rest.aligned;
        })
]

plaintext-Padded :
    (inner : ℕ) (payload : List ℕ)
    → Padded (u32le (length payload % 2 ^ 32) ++ (inner ∷ payload)) (plaintext inner payload)
unfolding plaintext
plaintext-Padded inner payload =
    pad_loop-Padded 16 (u32le (length payload % 2 ^ 32) ++ (inner ∷ payload)) (inr (omega arith))

-- The task of a plaintext, padded or not.
open_plaintext-task :
    (payload zeros : List ℕ)
    → length payload < 2 ^ 32
    → open_plaintext true ((u32le (length payload % 2 ^ 32) ++ (msg_task ∷ payload)) ++ zeros)
      ≡ task payload
unfolding open_plaintext u32le put_le
open_plaintext-task payload zeros h =
    let small : length payload % 2 ^ 32 ≡ length payload = omega arith in
    let size : get_le (put_le 4 (length payload % 2 ^ 32)) ≡ length payload =
      ap (λ n. get_le (put_le 4 n)) small ∙ get_le-put_le 4 (length payload) h in
    rw size (ground (arith, length-append payload zeros, take-append_length payload zeros))

-- A decryption that undoes the encryption with the same key and vector, block by block.
pub record Undoes (p : Primitives) : Type 0 where
  pub undone : (key iv pt : List ℕ) → p.decrypt key iv (p.encrypt key iv pt) ≡ pt
  pub same_length : (key iv pt : List ℕ) → length (p.encrypt key iv pt) ≡ length pt
  pub hash : Hash20 p

-- A message from its type on.
abbrev body_of : ℕ → List ℕ → List ℕ → List ℕ → List ℕ
body_of seq iv ct tag = msg_encrypted ∷ (u32le seq ++ (iv ++ (ct ++ tag)))

drop-envelope :
    (seq : ℕ) (iv ct tag : List ℕ) → drop 5 (envelope seq iv ct ++ tag) ≡ body_of seq iv ct tag
unfolding envelope u32le put_le
drop-envelope seq iv ct tag = ap (λ xs. msg_encrypted ∷ (u32le seq ++ xs)) (append_assoc iv ct tag)

length-body_of :
    (seq : ℕ) (iv ct tag : List ℕ)
    → length (body_of seq iv ct tag) ≡ 5 + (length iv + (length ct + length tag))
unfolding u32le put_le
length-body_of seq iv ct tag = omega (arith, length-append iv (ct ++ tag), length-append ct tag)

part-vector :
    (seq : ℕ) (iv ct tag : List ℕ) → length iv ≡ 16 → part 5 16 (body_of seq iv ct tag) ≡ iv
unfolding u32le put_le
part-vector seq iv ct tag h =
    ap (λ n. take n (iv ++ (ct ++ tag))) (sym h) ∙ take-append_length iv (ct ++ tag)

part-bytes :
    (seq : ℕ) (iv ct tag : List ℕ)
    → length iv ≡ 16
    → part 21 (length ct) (body_of seq iv ct tag) ≡ ct
unfolding u32le put_le
part-bytes seq iv ct tag h =
    ap (take (length ct))
      (ap (λ n. drop n (iv ++ (ct ++ tag))) (sym h) ∙ drop-append_length iv (ct ++ tag))
    ∙ take-append_length ct tag

-- What is left of a message behind its first 26 bytes is read back from their place.
open_envelope :
    (p : Primitives) (mac aes ct iv tag : List ℕ) (seq : ℕ)
    → length iv ≡ 16
    → length tag ≡ 8
    → 16 ≤ length ct
    → take 8 (p.hmac mac (envelope seq iv ct)) ≡ tag
    → on_encrypted p mac aes (envelope seq iv ct ++ tag) ≡ opened true (aes_cbc_decrypt p aes iv ct)
unfolding on_encrypted
open_envelope p mac aes ct iv tag seq h16 h8 long signed =
    let out : List ℕ = envelope seq iv ct in
    let total : length (out ++ tag) - 8 ≡ length out = omega (arith, length-append out tag) in
    let front : unsigned (out ++ tag) ≡ out =
      ap (λ n. take n (out ++ tag)) total ∙ take-append_length out tag in
    let back : signature (out ++ tag) ≡ tag =
      ap (λ n. drop n (out ++ tag)) total ∙ drop-append_length out tag in
    let same : bytes_eq (take 8 (p.hmac mac (unsigned (out ++ tag)))) (signature (out ++ tag))
        ≡ true =
      ap (λ o. bytes_eq (take 8 (p.hmac mac o)) (signature (out ++ tag))) front
      ∙ ap (λ o. bytes_eq (take 8 (p.hmac mac out)) o) back
      ∙ ap (λ o. bytes_eq o tag) signed
      ∙ bytes_eq_self tag in
    let body : List ℕ = body_of seq iv ct tag in
    let size : length body ≡ 5 + (length iv + (length ct + length tag)) =
      length-body_of seq iv ct tag in
    let enough : ltb (length body) 45 ≡ false = ground arith in
    let ct_size : length body - 8 - 21 ≡ length ct = omega arith in
    rw
      (
        drop-envelope seq iv ct tag,
        same,
        enough,
        ct_size,
        part-vector seq iv ct tag h16,
        part-bytes seq iv ct tag h16,
      )
      refl

encrypts :
    (p : Primitives) (aes iv pt : List ℕ)
    → p.is_key aes ≡ true
    → length pt % 16 ≡ 0
    → aes_cbc_encrypt p aes iv pt ≡ some (p.encrypt aes iv pt)
unfolding aes_cbc_encrypt
encrypts p aes iv pt k h =
    let aligned : not (length pt % 16 == 0) ≡ false = ground arith in rw (aligned, k) refl

decrypts :
    (p : Primitives) (aes iv pt : List ℕ)
    → Undoes p
    → p.is_key aes ≡ true
    → length pt % 16 ≡ 0
    → 0 < length pt
    → aes_cbc_decrypt p aes iv (p.encrypt aes iv pt) ≡ some pt
unfolding aes_cbc_decrypt
decrypts p aes iv pt u k h positive =
    let n = u.same_length aes iv pt in
    let ct : List ℕ = p.encrypt aes iv pt in
    let aligned : (length ct == 0 || not (length ct % 16 == 0)) ≡ false = ground arith in
    rw (aligned, k, u.undone aes iv pt) refl

length-plaintext : (inner : ℕ) (payload : List ℕ) → 16 ≤ length (plaintext inner payload)
unfolding u32le put_le
length-plaintext inner payload =
    let padded = plaintext-Padded inner payload in
    let head : List ℕ = u32le (length payload % 2 ^ 32) ++ (inner ∷ payload) in
    omega (arith, padded.aligned, ap length padded.appended, length-append head padded.zeros)

-- Where decryption undoes encryption: whatever task a side sends, with any vector of 16 bytes, is
-- sent, and the side that has the same keys gets exactly that task out of the message.
pub on_encrypted-send_encrypted :
    (p : Primitives) (mac aes iv payload : List ℕ) (seq : ℕ)
    → Undoes p
    → p.is_key aes ≡ true
    → length iv ≡ 16
    → length payload < 2 ^ 32
    → (message : List ℕ) × (send_encrypted p mac aes seq iv msg_task payload
        ≡ (some message, (seq + 1) % 2 ^ 32))
      × (on_encrypted p mac aes message ≡ task payload)
unfolding send_encrypted
on_encrypted-send_encrypted p mac aes iv payload seq u k h16 small =
    let pt : List ℕ = plaintext msg_task payload in
    let padded = plaintext-Padded msg_task payload in
    let long = length-plaintext msg_task payload in
    let ct : List ℕ = p.encrypt aes iv pt in
    let next : ℕ = (seq + 1) % 2 ^ 32 in
    let out : List ℕ = envelope next iv ct in
    let tag : List ℕ = take 8 (p.hmac mac out) in
    let tag_size : length tag ≡ 8 = omega (arith, length-take 8 (p.hmac mac out), u.hash mac out) in
    (
      out ++ tag,
      rw (encrypts p aes iv pt k padded.aligned, send_encrypted) refl,
      open_envelope p mac aes ct iv tag next h16 tag_size (omega (arith, u.same_length aes iv pt))
            refl
          ∙ ap (opened true) (decrypts p aes iv pt u k padded.aligned (omega arith))
          ∙ ap (open_plaintext true) padded.appended
          ∙ open_plaintext-task payload padded.zeros small,
    )
