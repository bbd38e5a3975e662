-- ===== src/Handshake/Tests.antt =====
-- A session with stand-ins for the hash and the cipher.
use nextendo_demonware.Common.{
  [], ℕ, ◌+◌, ◌%◌, ◌^◌, ◌≡◌, refl, true, List, ◌∷◌, ◌++◌, none, some, arith, length, replicate, All,
  take,
}
use nextendo_demonware.Common.Select.{bytes_eq}
use nextendo_demonware.Common.Bytes.{put_le}
use nextendo_demonware.Handshake.Crypto.{Primitives}
use nextendo_demonware.Handshake.Keys.{Hash20}
use nextendo_demonware.Handshake.Frames.{u32le, frame, Incoming, raw, keepalive, read_frame}
use nextendo_demonware.Handshake.Framing.{read_frame-frame}
use nextendo_demonware.Handshake.Ticket.{
  find_ticket, magic, bit, byte_loop, byte_at, bytes_from, scan_offsets,
}
use nextendo_demonware.Handshake.Found.{find_ticket-magic}
use nextendo_demonware.Handshake.Messages.{ignored, msg_task, send_encrypted, on_encrypted, task}
use nextendo_demonware.Handshake.Delivery.{Undoes, on_encrypted-send_encrypted}
use nextendo_demonware.Handshake.Identity.{World, Conn}
use nextendo_demonware.Handshake.Auth.{on_frame, run}
use nextendo_demonware.Handshake.Trust.{run-ignored}

abbrev stand_ins : Primitives
stand_ins = record {
  sha1 = λ _. replicate 20 1;
  hmac = λ _ _. replicate 20 7;
  is_key = λ _. true;
  encrypt = λ _ _ pt. pt;
  decrypt = λ _ _ ct. ct;
  public_key = 3 ∷ [];
}

stand_ins-Hash20 : Hash20 stand_ins
stand_ins-Hash20 key message = refl

stand_ins-Undoes : Undoes stand_ins
stand_ins-Undoes = record {
  undone = λ key iv pt. refl;
  same_length = λ key iv pt. refl;
  hash = stand_ins-Hash20;
}

read_frame-frame_example :
    read_frame 64 (frame (130 ∷ 5 ∷ []) ++ (9 ∷ [])) ≡ (raw (frame (130 ∷ 5 ∷ [])), 9 ∷ [])
read_frame-frame_example = read_frame-frame 64 (130 ∷ 5 ∷ []) (9 ∷ []) (omega arith) (omega arith)

on_encrypted-send_encrypted_example :
    (message : List ℕ) × (send_encrypted stand_ins [] [] 4 (replicate 16 0) msg_task (80 ∷ 3 ∷ [])
      ≡ (some message, (4 + 1) % 2 ^ 32))
    × (on_encrypted stand_ins [] [] message ≡ task (80 ∷ 3 ∷ []))
on_encrypted-send_encrypted_example =
    on_encrypted-send_encrypted stand_ins [] [] (replicate 16 0) (80 ∷ 3 ∷ []) 4 stand_ins-Undoes
      refl refl (omega arith)

abbrev fresh : Conn
fresh = record {
  max_len = 4096;
  nonce = replicate 8 1;
  payload1 = replicate 20 2;
  keys = none;
  player = none;
  pending = none;
}

-- A client that takes everything, with the migration switched on.
abbrev world : World
world = record {
  stored = [];
  identity = λ _. some (65 ∷ [], 70);
  takes = λ _. true;
  migrate = true;
  sent_before = 0;
  iv = replicate 16 0;
}

-- A proof that ends with the tag of the stand-ins' keys.
abbrev proof : List ℕ
proof = frame (130 ∷ replicate 8 7)

abbrev early : List (World × Incoming)
early = (world, keepalive) ∷ (world, raw (frame (133 ∷ []))) ∷ []

still_without : (run stand_ins fresh early).0.keys ≡ none
unfolding run on_frame frame u32le put_le
still_without = refl

run-ignored_example : All (λ q. q ≡ ignored) (run stand_ins fresh early).1
run-ignored_example = run-ignored stand_ins fresh early refl still_without

abbrev a_ticket : List ℕ
a_ticket = magic ++ replicate 124 0

a_ticket_found : find_ticket (0 ∷ a_ticket) ≡ some a_ticket
unfolding find_ticket scan_offsets bytes_from byte_at byte_loop bit bytes_eq
a_ticket_found = refl

find_ticket-magic_example : (length a_ticket ≡ 128) × (take 4 a_ticket ≡ magic)
find_ticket-magic_example = find_ticket-magic (0 ∷ a_ticket) a_ticket a_ticket_found
