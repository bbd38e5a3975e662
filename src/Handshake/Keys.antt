-- ===== src/Handshake/Keys.antt =====
-- How long the derived keys are (bdcrypto.go).
use nextendo_demonware.Common.{
  [], ℕ, zero, suc, ◌+◌, ◌*◌, ◌%◌, ◌≤◌, ◌≡◌, List, ◌∷◌, ◌++◌, length, drop, leb, arith, Bool-cases,
  inl, inr, length-append, length-take, length-drop,
}
use nextendo_demonware.Handshake.Crypto.{
  Primitives, SessionKeys, hkdf_loop, hkdf_expand_sha1, client_chal, bd_data, part, derive_keys,
}

-- Every HMAC-SHA1 has 20 bytes.
abbrev pub Hash20 : Primitives → Type 0
Hash20 p = (key message : List ℕ) → length (p.hmac key message) ≡ 20

length-hkdf_loop :
    (p : Primitives) (key label : List ℕ) (n fuel i : ℕ) (prev out : List ℕ)
    → Hash20 p
    → n ≤ length out + 20 * fuel
    → n ≤ length (hkdf_loop p key label n fuel i prev out)
unfolding hkdf_loop
length-hkdf_loop p key label n zero i prev out h enough = omega arith
length-hkdf_loop p key label n (suc fuel) i prev out h enough =
    elim (Bool-cases (leb n (length out))) [
      | inl e ↦ rw (e, hkdf_loop) (ground arith)
      | inr e ↦
          let block : List ℕ = p.hmac key (prev ++ (label ++ i ∷ [])) in
          rw (e, hkdf_loop)
            (length-hkdf_loop p key label n fuel ((i + 1) % 256) block (out ++ block) h
              (omega (arith, length-append out block, h key (prev ++ (label ++ i ∷ [])))))
    ]

-- With hashes of 20 bytes, the expansion ends with the number of bytes that is asked for.
length-hkdf_expand_sha1 :
    (p : Primitives) (key label : List ℕ) (n : ℕ)
    → Hash20 p
    → length (hkdf_expand_sha1 p key label n) ≡ n
unfolding hkdf_expand_sha1
length-hkdf_expand_sha1 p key label n h =
    let out : List ℕ = hkdf_loop p key label n n 1 [] [] in
    omega (arith, length-take n out, length-hkdf_loop p key label n n 1 [] [] h (omega arith))

length-part :
    (from size : ℕ) (b : List ℕ) → from + size ≤ length b → length (part from size b) ≡ size
length-part from size b h = omega (arith, length-take size (drop from b), length-drop from b)

-- The sizes that the client's and the server's halves of a session have.
pub record Sized (k : SessionKeys) : Type 0 where
  pub tag : length k.client_tag ≡ 8
  pub chk : length k.server_chk ≡ 8
  pub c2s_mac : length k.c2s_mac ≡ 20
  pub s2c_mac : length k.s2c_mac ≡ 20
  pub c2s_aes : length k.c2s_aes ≡ 16
  pub s2c_aes : length k.s2c_aes ≡ 16

-- With hashes of 20 bytes, the tag and the check that are derived have 8 bytes, the keys of the MACs
-- 20, and those of AES 16.
derive_keys-Sized :
    (p : Primitives) (transcript key24 : List ℕ) → Hash20 p → Sized (derive_keys p transcript key24)
unfolding derive_keys
derive_keys-Sized p transcript key24 h =
    let secret : List ℕ = p.hmac (p.sha1 transcript) key24 in
    let chal : List ℕ = hkdf_expand_sha1 p secret client_chal 16 in
    let bytes : List ℕ = hkdf_expand_sha1 p secret bd_data 72 in
    let c : length chal ≡ 16 = length-hkdf_expand_sha1 p secret client_chal 16 h in
    let d : length bytes ≡ 72 = length-hkdf_expand_sha1 p secret bd_data 72 h in
    record {
      tag = length-part 0 8 chal (omega arith);
      chk = length-part 8 8 chal (omega arith);
      c2s_mac = length-part 0 20 bytes (omega arith);
      s2c_mac = length-part 20 20 bytes (omega arith);
      c2s_aes = length-part 40 16 bytes (omega arith);
      s2c_aes = length-part 56 16 bytes (omega arith);
    }
