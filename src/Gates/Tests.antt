-- ===== src/Gates/Tests.antt =====
-- A gate that asks for signed tokens, and a lookup that was just made.
use nextendo_demonware.Common.{[], ℕ, ◌≡◌, ◌≢◌, ◌⊎◌, refl, true, false, List, ◌∷◌, some, arith}
use nextendo_demonware.Common.Int.{pos}
use nextendo_demonware.Common.Select.{bytes_eq}
use nextendo_demonware.Presence.Table.{lookup, insert, erase}
use nextendo_demonware.Gates.Admission.{
  Gate, split_dots, cut_dot, pid_and_expiry, after_prefix, pid_of_payload, nextendo_pid_from_token,
  proven, admit_player,
}
use nextendo_demonware.Gates.Proven.{Signed, admit_player-Signed}
use nextendo_demonware.Gates.Lookup.{
  Cache, answered, must_ask, ask_cache, unreachable, missing, found, remember,
}
use nextendo_demonware.Gates.Remembered.{Call, calls, ask_cache-calls}

-- Base64 and numbers are stood in for: every signature is `s`, and every payload is `7.n.9`.
abbrev gate : Gate
gate = record {
  secret = 1 ∷ [];
  require_account = true;
  require_signed_token = true;
  decode = λ _. some (b'7' ∷ b'.' ∷ b'n' ∷ b'.' ∷ b'9' ∷ []);
  sign = λ _. b's' ∷ [];
  parse_uint = λ _. some 7;
  parse_int = λ _. some (pos 9);
  revoked = [];
}

abbrev token : List ℕ
token = b'n' ∷ b'x' ∷ b'2' ∷ b'.' ∷ b'p' ∷ b'.' ∷ b's' ∷ []

is_admitted : admit_player gate true 5 7 token ≡ true
unfolding admit_player proven nextendo_pid_from_token after_prefix split_dots pid_of_payload
    pid_and_expiry cut_dot bytes_eq
is_admitted = refl

admit_player-Signed_example :
    ((gate.require_signed_token ≡ false) ⊎ Signed gate 5 7 token)
    × ((gate.require_account ≡ false) ⊎ (◌≢◌ {A = ℕ} 7 0) × (true ≡ true))
admit_player-Signed_example = admit_player-Signed gate true 5 7 token is_admitted

abbrev empty_cache : Cache
empty_cache = record { entries = []; down_until = 0 }

asks : ask_cache 100 5 empty_cache ≡ must_ask
unfolding ask_cache lookup
asks = refl

-- Two lookups in between, of which the first finds the server down.
abbrev others : List Call
others = (150, 6, unreachable) ∷ (160, 7, missing) ∷ []

ask_cache-calls_example :
    ask_cache 200 5 (calls others (remember 100 5 (found 70) empty_cache).0)
    ≡ answered (remember 100 5 (found 70) empty_cache).1
unfolding remember insert erase
ask_cache-calls_example =
    ask_cache-calls 100 200 5 (found 70) empty_cache others asks (omega arith) (omega arith)
      ((omega arith, omega arith), ((omega arith, omega arith), tt)) (omega arith)
