-- ===== src/Handshake/Frames.antt =====
-- frame and readFrame (handshake.go). The stream holds the bytes that are still to come; a read of more
-- than there are is an error.
use nextendo_demonware.Common.{
  [], ℕ, ◌+◌, ◌%◌, ◌^◌, ◌||◌, List, ◌∷◌, ◌++◌, length, take, drop, ltb, ◌==◌, if◌then◌else◌,
}
use nextendo_demonware.Common.Bytes.{put_le, get_le}

abbrev pub frame_flag : ℕ
frame_flag = 0xAB

unfoldable pub u32le : ℕ → List ℕ
u32le v = put_le 4 v

unfoldable pub frame : List ℕ → List ℕ
frame body = u32le ((1 + length body) % 2 ^ 32) ++ (frame_flag ∷ body)

-- What a read finds: a frame with its length, a keepalive, a length that is not accepted, or the end.
pub data Incoming : Type 0 where
  raw : List ℕ → Incoming
  keepalive : Incoming
  rejected : Incoming
  ended : Incoming

abbrev read_body : List ℕ → ℕ → List ℕ → Incoming × List ℕ
read_body hdr n stream =
    if ltb (length stream) n then (ended, []) else (raw (hdr ++ take n stream), drop n stream)

unfoldable pub read_frame : ℕ → List ℕ → Incoming × List ℕ
read_frame max_len stream =
    let hdr = take 4 stream in
    let n = get_le hdr in
    if ltb (length stream) 4
    then (ended, [])
    else if n == 0
    then (keepalive, drop 4 stream)
    else if ltb max_len n || ltb (2 ^ 21) n
    then (rejected, drop 4 stream)
    else read_body hdr n (drop 4 stream)
