-- ===== src/Handshake/Framing.antt =====
-- Frames are read back from a stream (handshake.go).
use nextendo_demonware.Common.{
  ℕ, suc, ◌+◌, ◌%◌, ◌^◌, ◌≤◌, ◌≡◌, ◌∙◌, ◌||◌, false, List, ◌++◌, length, ltb, ◌==◌, arith,
  length-append, take-append_length, drop-append_length,
}
use nextendo_demonware.Common.Bytes.{put_le, get_le, get_le-put_le}
use nextendo_demonware.Handshake.Frames.{u32le, frame, raw, read_frame}

-- A frame of a body whose length is accepted is read back whole from the front of a stream, and the
-- rest of the stream is left.
pub read_frame-frame :
    (max_len : ℕ) (body rest : List ℕ)
    → 1 + length body ≤ max_len
    → 1 + length body ≤ 2 ^ 21
    → read_frame max_len (frame body ++ rest) ≡ (raw (frame body), rest)
unfolding read_frame frame u32le put_le
read_frame-frame max_len body rest h k =
    let n : ℕ = (1 + length body) % 2 ^ 32 in
    let small : n ≡ 1 + length body = omega arith in
    let size : get_le (put_le 4 n) ≡ suc (length body) =
      get_le-put_le 4 n (omega arith) ∙ small ∙ omega arith in
    let positive : (suc (length body) == 0) ≡ false = ground arith in
    let fits : (ltb max_len (suc (length body)) || ltb (2 ^ 21) (suc (length body))) ≡ false =
      ground arith in
    rw (size, positive, fits)
      (ground (
        arith,
        length-append body rest,
        take-append_length body rest,
        drop-append_length body rest,
      ))
