-- ===== src/Handshake/Auth.antt =====
-- run, onClientAuth and candidates (handshake.go): a connection as a machine that takes one incoming
-- frame at a time. The server's id and the random bytes of its first message are arguments.
use nextendo_demonware.Common.{
  [], ℕ, ◌+◌, ◌-◌, ◌%◌, ◌^◌, Bool, true, false, not, ◌||◌, List, ◌∷◌, ◌++◌, Option, none, some,
  length, take, drop, replicate, ltb, ◌==◌, if◌then◌else◌,
}
use nextendo_demonware.Common.Bytes.{put_le, get_le}
use nextendo_demonware.Common.Select.{bytes_eq}
use nextendo_demonware.Handshake.Crypto.{Primitives, SessionKeys, derive_keys, wrap_key24, part}
use nextendo_demonware.Handshake.Frames.{
  u32le, frame, frame_flag, Incoming, raw, keepalive, rejected, ended,
}
use nextendo_demonware.Handshake.Messages.{Request, ignored, on_encrypted, send_encrypted}
use nextendo_demonware.Handshake.Identity.{World, Conn, load_identity}
use nextendo_demonware.Handshake.Ticket.{find_ticket}

abbrev msg_server_hi : ℕ
msg_server_hi = 0x81

abbrev pub msg_client_auth : ℕ
msg_client_auth = 0x82

abbrev pub msg_server_ok : ℕ
msg_server_ok = 0x83

abbrev msg_migrate_init : ℕ
msg_migrate_init = 0x87

abbrev field32 : ℕ → List ℕ → ℕ
field32 at hello = get_le (part at 4 hello)

-- The 28 bytes of the hello: the connection, if the versions are the known ones.
unfoldable on_hello : ℕ → List ℕ → List ℕ → Option Conn
on_hello id pad hello =
    if not (field32 0 hello == 200)
      || not (field32 4 hello == 200)
      || not (field32 8 hello == 210)
      || not (field32 12 hello == 220)
    then none
    else some (record {
      max_len = field32 16 hello;
      nonce = part 20 8 hello;
      payload1 = u32le 220 ++ (put_le 8 id ++ pad);
      keys = none;
      player = none;
      pending = none;
    })

-- The server's first message.
unfoldable server_hi : Conn → List ℕ
server_hi c = frame (msg_server_hi ∷ c.payload1)

unfoldable pub transcript : Conn → List ℕ → List ℕ
transcript c message =
    u32le 210
    ++ (u32le 220
        ++ (u32le c.max_len
            ++ (c.nonce
                ++ (u32le ((length c.payload1 + 2) % 2 ^ 32)
                    ++ (frame_flag
                        ∷ msg_server_hi
                        ∷ (c.payload1 ++ take (length message - 8) message))))))

abbrev keys_in : List ℕ → List (List ℕ)
keys_in ticket = part 97 24 ticket ∷ part 33 24 ticket ∷ []

unfoldable pub stored_keys : List (List ℕ) → List (List ℕ)
stored_keys [] = replicate 24 0 ∷ []
stored_keys (t ∷ ts) = keys_in t ++ stored_keys ts

unfoldable pub candidates : List (List ℕ) → List ℕ → List (List ℕ)
candidates stored message = elim (find_ticket message) [
  | none ↦ stored_keys stored
  | some t ↦ keys_in t ++ stored_keys stored
]

-- The keys that a candidate gives, if they reproduce the client's tag: as it is, or wrapped.
unfoldable pub try_key : Primitives → List ℕ → List ℕ → List ℕ → Option SessionKeys
try_key p text tag key24 =
    let k = derive_keys p text key24 in if bytes_eq k.client_tag tag then some k else none

abbrev pub or_else : Option SessionKeys → Option SessionKeys → Option SessionKeys
or_else (some k) other = some k
or_else none other = other

unfoldable pub match_key : Primitives → List ℕ → List ℕ → List (List ℕ) → Option SessionKeys
match_key p text tag [] = none
match_key p text tag (key24 ∷ more) =
    or_else (try_key p text tag key24)
      (or_else (try_key p text tag (wrap_key24 p key24)) (match_key p text tag more))

-- What a frame brings about: the connection afterwards, whether it goes on, what is written to the
-- client, whether it takes it or not, and the task that is handled, whose reply its service writes.
pub record Effect : Type 0 where
  pub conn : Conn
  pub goes_on : Bool
  pub sent : List (List ℕ)
  pub request : Request

abbrev pub quiet : Conn → Bool → List (List ℕ) → Effect
quiet c goes_on sent = record { conn = c; goes_on = goes_on; sent = sent; request = ignored }

abbrev pub with_identity : World → Conn → Option (List ℕ) → Conn
with_identity w c none = c
with_identity w c (some ticket) = load_identity w ticket c

-- The 0x87 that follows under CTR_MIGRATE, if it can be encrypted.
unfoldable pub migrate_init : Primitives → World → SessionKeys → Option (List ℕ)
migrate_init p w k =
    (send_encrypted p k.s2c_mac k.s2c_aes w.sent_before w.iv msg_migrate_init (1 ∷ [])).0

abbrev pub migrated : World → Conn → List ℕ → Option (List ℕ) → Effect
migrated w c ok none = quiet c false (ok ∷ [])
migrated w c ok (some init) = quiet c (w.takes init) (ok ∷ init ∷ [])

-- Whether the client takes the check, and CTR_MIGRATE.
abbrev pub checked : Primitives → World → Conn → SessionKeys → List ℕ → Bool → Bool → Effect
checked p w c k ok false migrate = quiet c false (ok ∷ [])
checked p w c k ok true false = quiet c true (ok ∷ [])
checked p w c k ok true true = migrated w c ok (migrate_init p w k)

-- The check is sent; then the migration is begun, where that is asked for.
unfoldable pub let_in : Primitives → World → Conn → List ℕ → SessionKeys → Effect
let_in p w c message k =
    let c' = with_identity w (record c { keys = some k }) (find_ticket message) in
    let ok = frame (msg_server_ok ∷ k.server_chk) in checked p w c' k ok (w.takes ok) w.migrate

abbrev pub authenticated : Primitives → World → Conn → List ℕ → Option SessionKeys → Effect
authenticated p w c message none = quiet c true []
authenticated p w c message (some k) = let_in p w c message k

unfoldable pub on_client_auth : Primitives → World → Conn → List ℕ → Effect
on_client_auth p w c message =
    if ltb (length message) 14
    then quiet c false []
    else authenticated p w c message (
        match_key p (transcript c message) (drop (length message - 8) message)
          (candidates w.stored message))

-- A frame that is not a keepalive, by its body; without keys only a client's proof is looked at.
abbrev pub on_body : Primitives → World → Conn → List ℕ → List ℕ → Option SessionKeys → Effect
on_body p w c message [] k = quiet c true []
on_body p w c message (kind ∷ _) none =
    if kind == msg_client_auth then on_client_auth p w c message else quiet c true []
on_body p w c message (_ ∷ _) (some k) = record {
  conn = c;
  goes_on = true;
  sent = [];
  request = on_encrypted p k.c2s_mac k.c2s_aes message;
}

-- One round of run's loop.
unfoldable pub on_frame : Primitives → World → Conn → Incoming → Effect
on_frame p w c (raw message) = on_body p w c message (drop 5 message) c.keys
on_frame p w c keepalive = quiet c true (replicate 4 0 ∷ [])
on_frame p w c rejected = quiet c false []
on_frame p w c ended = quiet c false []

-- The loop goes on or returns.
abbrev pub go_on : Bool → Effect → Conn × List Request → Conn × List Request
go_on true e (c, requests) = (c, e.request ∷ requests)
go_on false e _ = (e.conn, e.request ∷ [])

-- The rounds of the loop on the frames that come in, each with what surrounds it, and the requests that
-- they bring, in order.
unfoldable pub run : Primitives → Conn → List (World × Incoming) → Conn × List Request
run p c [] = (c, [])
run p c ((w, i) ∷ is) = let e = on_frame p w c i in go_on e.goes_on e (run p e.conn is)
