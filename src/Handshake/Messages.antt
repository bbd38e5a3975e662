-- ===== src/Handshake/Messages.antt =====
-- sendEncrypted, onEncrypted and migrateGoPayload (handshake.go). The random initialisation vector is
-- an argument.
use nextendo_demonware.Common.{
  [], ℕ, zero, suc, ◌+◌, ◌-◌, ◌/◌, ◌%◌, ◌^◌, Bool, true, false, not, ◌||◌, List, ◌∷◌, ◌++◌, Option,
  none, some, length, take, drop, get_or, ltb, ◌==◌, if◌then◌else◌,
}
use nextendo_demonware.Common.Bytes.{get_le}
use nextendo_demonware.Common.Select.{bytes_eq}
use nextendo_demonware.Handshake.Crypto.{Primitives, aes_cbc_encrypt, aes_cbc_decrypt, part}
use nextendo_demonware.Handshake.Frames.{u32le, frame_flag}

abbrev pub msg_encrypted : ℕ
msg_encrypted = 0x85

abbrev pub msg_task : ℕ
msg_task = 0x86

abbrev msg_migrate_ack : ℕ
msg_migrate_ack = 0x88

abbrev msg_migrate_go : ℕ
msg_migrate_go = 0x89

-- Zeros up to a multiple of 16, in 15 rounds at most.
unfoldable pub pad_loop : ℕ → List ℕ → List ℕ
pad_loop zero pt = pt
pad_loop (suc fuel) pt = elim (length pt % 16 == 0) [
  | true ↦ pt
  | false ↦ pad_loop fuel (pt ++ 0 ∷ [])
]

unfoldable pub plaintext : ℕ → List ℕ → List ℕ
plaintext inner payload = pad_loop 16 (u32le (length payload % 2 ^ 32) ++ (inner ∷ payload))

-- The message without its tag: its length, the flag, the type, the number, the vector and the bytes.
unfoldable pub envelope : ℕ → List ℕ → List ℕ → List ℕ
envelope seq iv ct =
    let body = msg_encrypted ∷ (u32le seq ++ (iv ++ ct)) in
    u32le ((1 + length body + 8) % 2 ^ 32) ++ (frame_flag ∷ body)

-- The message, and the number of messages sent by then.
unfoldable pub send_encrypted :
    Primitives → List ℕ → List ℕ → ℕ → List ℕ → ℕ → List ℕ → Option (List ℕ) × ℕ
send_encrypted p mac aes seq iv inner payload =
    elim (aes_cbc_encrypt p aes iv (plaintext inner payload)) [
      | none ↦ (none, seq)
      | some ct ↦
          let next = (seq + 1) % 2 ^ 32 in
          let out = envelope next iv ct in (some (out ++ take 8 (p.hmac mac out)), next)
    ]

-- What a message asks for: nothing, a task, the next step of a migration, or something unknown.
pub data Request : Type 0 where
  ignored : Request
  task : List ℕ → Request
  migrate_ack : Request
  unknown : ℕ → Request

abbrev request_of : ℕ → List ℕ → Request
request_of inner payload =
    if inner == msg_task
    then task payload
    else if inner == msg_migrate_ack
    then migrate_ack
    else unknown inner

-- Of a message that is decrypted, the part that its length says.
unfoldable pub open_plaintext : Bool → List ℕ → Request
open_plaintext mac_ok pt =
    let n = get_le (take 4 pt) in
    if ltb (length pt) 5
    then ignored
    else if not mac_ok || ltb (length pt - 5) n
    then ignored
    else request_of (get_or pt 4 0) (part 5 n pt)

abbrev pub opened : Bool → Option (List ℕ) → Request
opened mac_ok none = ignored
opened mac_ok (some pt) = open_plaintext mac_ok pt

-- The bytes without the last eight.
abbrev pub unsigned : List ℕ → List ℕ
unsigned raw = take (length raw - 8) raw

abbrev pub signature : List ℕ → List ℕ
signature raw = drop (length raw - 8) raw

unfoldable pub on_encrypted : Primitives → List ℕ → List ℕ → List ℕ → Request
on_encrypted p mac aes raw =
    let body = drop 5 raw in
    let mac_ok = bytes_eq (take 8 (p.hmac mac (unsigned raw))) (signature raw) in
    if ltb (length body) 45
    then ignored
    else opened mac_ok
        (aes_cbc_decrypt p aes (part 5 16 body) (part 21 (length body - 8 - 21) body))

-- `ip` is migrateIP's, of four bytes.
unfoldable migrate_go_payload : List ℕ → ℕ → List ℕ
migrate_go_payload ip port = 1 ∷ 2 ∷ 6 ∷ (ip ++ (port % 256 ∷ (port / 256) ∷ 0 ∷ 0 ∷ u32le 1000))
