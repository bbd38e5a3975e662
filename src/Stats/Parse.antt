-- ===== src/Stats/Parse.antt =====
-- parseStatWrites (ctr_stats.go). The four fields of a row are read in one go there, and the errors
-- looked at afterwards; either way the first error ends the parse.
use nextendo_demonware.Common.{
  ℕ, zero, suc, ◌-◌, ◌^◌, Bool, true, false, not, ◌&&◌, ◌||◌, List, [], ◌∷◌, ◌==◌, if◌then◌else◌,
}
use nextendo_demonware.Common.Int.{ℤ, pos, ltb_ℤ}
use nextendo_demonware.Wire.Reader.{◌>>=◌, ◌>>◌, Reader, Read, ok, err, refused, is_end}
use nextendo_demonware.Wire.Reader
use nextendo_demonware.Stats.Types.{StatWrite, int64_of, octane_board, time_board}

abbrev pub give {ℓ} : {A : Type ℓ} → A → Read A
give a r = (ok a, r)

abbrev pub refuse_if : Bool → Read (Unit {0})
refuse_if true r = (err refused, r)
refuse_if false r = (ok tt, r)

-- The driver follows on some boards only.
abbrev pub driver_of : Bool → Read ℕ
driver_of true = Reader.u32
driver_of false = give 0

-- A record of an Octane board that is not accepted.
unfoldable pub is_bad_octane : ℕ → ℕ → ℤ → Bool
unfolding time_board octane_board
is_bad_octane board op score =
    octane_board board
    && (not (op == 4)
        || ltb_ℤ score (pos 0)
        || time_board board && (not (ltb_ℤ (pos 0) score) || ltb_ℤ (pos (2 ^ 32 - 1)) score))

abbrev pub row : ℕ → List ℕ → ℕ → ℕ → ℕ → ℤ → ℕ → StatWrite
row pid name now board op score driver = record {
  stat = record {
    board = board;
    pid = pid;
    score = score;
    driver = driver;
    name = name;
    updated = now;
    rank = 0;
  };
  operation = op;
}

unfoldable pub parse_row : ℕ → List ℕ → ℕ → Read StatWrite
unfolding int64_of octane_board is_bad_octane
parse_row pid name now = do
  board ← Reader.u32
  entity ← Reader.u64
  op ← Reader.u8
  v ← Reader.i64
  refuse_if (not (entity == pid) || pid == 0)
  refuse_if (not (op == 0) && not (op == 1) && not (op == 4))
  driver ← driver_of (octane_board board)
  refuse_if (is_bad_octane board op (int64_of v))
  give (row pid name now board op (int64_of v) driver)

-- So many rows may still come.
unfoldable pub parse_rows : ℕ → ℕ → List ℕ → ℕ → Read (List StatWrite)
unfolding parse_row is_end
parse_rows zero pid name now r = if is_end r then (ok [], r) else (err refused, r)
parse_rows (suc n) pid name now r =
    let more = (do w ← parse_row pid name now; ws ← parse_rows n pid name now; give (w ∷ ws)) r in
    if is_end r then (ok [], r) else more

abbrev pub is_empty {ℓ} : {A : Type ℓ} → List A → Bool
is_empty [] = true
is_empty (_ ∷ _) = false

unfoldable pub parse_stat_writes : ℕ → List ℕ → ℕ → Read (List StatWrite)
unfolding parse_rows
parse_stat_writes pid name now = do
  ws ← parse_rows 128 pid name now
  refuse_if (is_empty ws)
  give ws
