-- ===== src/Handshake/Crypto.antt =====
-- bdcrypto.go over the primitives of Go's crypto packages, which are parameters. In the loop of
-- hkdfExpandSHA1, `fuel` bounds the rounds: each adds a hash of 20 bytes, so that n are enough.
use nextendo_demonware.Common.{
  [], ℕ, zero, suc, ◌+◌, ◌%◌, Bool, true, false, not, ◌||◌, List, ◌∷◌, ◌++◌, Option, none, some,
  length, take, drop, leb, ◌==◌, if◌then◌else◌,
}

-- SHA-1, HMAC-SHA1 by key and message, and AES in CBC mode by key, initialisation vector and blocks;
-- `is_key` says which keys `aes.NewCipher` takes. `public_key` is the DER text of the server's key.
pub record Primitives : Type 0 where
  pub sha1 : List ℕ → List ℕ
  pub hmac : List ℕ → List ℕ → List ℕ
  pub is_key : List ℕ → Bool
  pub encrypt : List ℕ → List ℕ → List ℕ → List ℕ
  pub decrypt : List ℕ → List ℕ → List ℕ → List ℕ
  pub public_key : List ℕ

unfoldable pub hkdf_loop : Primitives → List ℕ → List ℕ → ℕ → ℕ → ℕ → List ℕ → List ℕ → List ℕ
hkdf_loop p key label n zero i prev out = out
hkdf_loop p key label n (suc fuel) i prev out = elim (leb n (length out)) [
  | true ↦ out
  | false ↦
      let block = p.hmac key (prev ++ (label ++ i ∷ [])) in
      hkdf_loop p key label n fuel ((i + 1) % 256) block (out ++ block)
]

unfoldable pub hkdf_expand_sha1 : Primitives → List ℕ → List ℕ → ℕ → List ℕ
hkdf_expand_sha1 p key label n = take n (hkdf_loop p key label n n 1 [] [])

pub record SessionKeys : Type 0 where
  pub client_tag : List ℕ
  pub server_chk : List ℕ
  pub c2s_mac : List ℕ
  pub s2c_mac : List ℕ
  pub c2s_aes : List ℕ
  pub s2c_aes : List ℕ

-- "CLIENTCHAL" and "BDDATA".
abbrev pub client_chal : List ℕ
client_chal = b'C' ∷ b'L' ∷ b'I' ∷ b'E' ∷ b'N' ∷ b'T' ∷ b'C' ∷ b'H' ∷ b'A' ∷ b'L' ∷ []

abbrev pub bd_data : List ℕ
bd_data = b'B' ∷ b'D' ∷ b'D' ∷ b'A' ∷ b'T' ∷ b'A' ∷ []

-- `b[from:to]`, with the number of bytes.
abbrev pub part : ℕ → ℕ → List ℕ → List ℕ
part from size b = take size (drop from b)

abbrev keys_of : List ℕ → List ℕ → SessionKeys
keys_of chal bytes = record {
  client_tag = part 0 8 chal;
  server_chk = part 8 8 chal;
  c2s_mac = part 0 20 bytes;
  s2c_mac = part 20 20 bytes;
  c2s_aes = part 40 16 bytes;
  s2c_aes = part 56 16 bytes;
}

unfoldable pub derive_keys : Primitives → List ℕ → List ℕ → SessionKeys
derive_keys p transcript key24 =
    let secret = p.hmac (p.sha1 transcript) key24 in
    keys_of (hkdf_expand_sha1 p secret client_chal 16) (hkdf_expand_sha1 p secret bd_data 72)

unfoldable pub wrap_key24 : Primitives → List ℕ → List ℕ
wrap_key24 p key24 = hkdf_expand_sha1 p key24 p.public_key 24

unfoldable pub aes_cbc_decrypt : Primitives → List ℕ → List ℕ → List ℕ → Option (List ℕ)
aes_cbc_decrypt p key iv ct =
    if length ct == 0 || not (length ct % 16 == 0)
    then none
    else if p.is_key key
    then some (p.decrypt key iv ct)
    else none

unfoldable pub aes_cbc_encrypt : Primitives → List ℕ → List ℕ → List ℕ → Option (List ℕ)
aes_cbc_encrypt p key iv pt =
    if not (length pt % 16 == 0)
    then none
    else if p.is_key key
    then some (p.encrypt key iv pt)
    else none
