-- ===== src/Proto/Names.antt =====
-- The strings of the game that the economy compares with, as bytes.
use nextendo_demonware.Common.{ℕ, List, [], ◌∷◌}

-- "octane_switch".
abbrev pub context_name : List ℕ
context_name =
    b'o' ∷ b'c' ∷ b't' ∷ b'a' ∷ b'n' ∷ b'e' ∷ b'_' ∷ b's' ∷ b'w' ∷ b'i' ∷ b't' ∷ b'c' ∷ b'h' ∷ []

-- "nintendo".
abbrev pub account_kind : List ℕ
account_kind = b'n' ∷ b'i' ∷ b'n' ∷ b't' ∷ b'e' ∷ b'n' ∷ b'd' ∷ b'o' ∷ []

-- "end_race".
abbrev pub end_race : List ℕ
end_race = b'e' ∷ b'n' ∷ b'd' ∷ b'_' ∷ b'r' ∷ b'a' ∷ b'c' ∷ b'e' ∷ []

-- "pitstop_daily_refresh".
abbrev pub refresh_name : List ℕ
refresh_name =
    b'p' ∷ b'i' ∷ b't' ∷ b's' ∷ b't' ∷ b'o' ∷ b'p' ∷ b'_' ∷ b'd' ∷ b'a' ∷ b'i' ∷ b'l' ∷ b'y' ∷ b'_'
    ∷ b'r' ∷ b'e' ∷ b'f' ∷ b'r' ∷ b'e' ∷ b's' ∷ b'h' ∷ []

-- "value".
abbrev pub value_key : List ℕ
value_key = b'v' ∷ b'a' ∷ b'l' ∷ b'u' ∷ b'e' ∷ []

-- "Track".
abbrev pub track_key : List ℕ
track_key = b'T' ∷ b'r' ∷ b'a' ∷ b'c' ∷ b'k' ∷ []

-- "Rank".
abbrev pub rank_key : List ℕ
rank_key = b'R' ∷ b'a' ∷ b'n' ∷ b'k' ∷ []

-- "Time".
abbrev pub time_key : List ℕ
time_key = b'T' ∷ b'i' ∷ b'm' ∷ b'e' ∷ []

-- "CompletedLap".
abbrev pub laps_key : List ℕ
laps_key = b'C' ∷ b'o' ∷ b'm' ∷ b'p' ∷ b'l' ∷ b'e' ∷ b't' ∷ b'e' ∷ b'd' ∷ b'L' ∷ b'a' ∷ b'p' ∷ []

-- "RaceMode".
abbrev pub mode_key : List ℕ
mode_key = b'R' ∷ b'a' ∷ b'c' ∷ b'e' ∷ b'M' ∷ b'o' ∷ b'd' ∷ b'e' ∷ []

-- "Online".
abbrev pub online_key : List ℕ
online_key = b'O' ∷ b'n' ∷ b'l' ∷ b'i' ∷ b'n' ∷ b'e' ∷ []

-- "RewardGoldenWumpa".
abbrev pub golden_key : List ℕ
golden_key =
    b'R' ∷ b'e' ∷ b'w' ∷ b'a' ∷ b'r' ∷ b'd' ∷ b'G' ∷ b'o' ∷ b'l' ∷ b'd' ∷ b'e' ∷ b'n' ∷ b'W' ∷ b'u'
    ∷ b'm' ∷ b'p' ∷ b'a' ∷ []

-- "finish_TRACKNAME_in_less_than_X_min".
abbrev pub minutes_rule : List ℕ
minutes_rule =
    b'f' ∷ b'i' ∷ b'n' ∷ b'i' ∷ b's' ∷ b'h' ∷ b'_' ∷ b'T' ∷ b'R' ∷ b'A' ∷ b'C' ∷ b'K' ∷ b'N' ∷ b'A'
    ∷ b'M' ∷ b'E' ∷ b'_' ∷ b'i' ∷ b'n' ∷ b'_' ∷ b'l' ∷ b'e' ∷ b's' ∷ b's' ∷ b'_' ∷ b't' ∷ b'h'
    ∷ b'a' ∷ b'n' ∷ b'_' ∷ b'X' ∷ b'_' ∷ b'm' ∷ b'i' ∷ b'n' ∷ []

-- "do_a_lap_under_X_in_TRACKNAME".
abbrev pub lap_rule : List ℕ
lap_rule =
    b'd' ∷ b'o' ∷ b'_' ∷ b'a' ∷ b'_' ∷ b'l' ∷ b'a' ∷ b'p' ∷ b'_' ∷ b'u' ∷ b'n' ∷ b'd' ∷ b'e' ∷ b'r'
    ∷ b'_' ∷ b'X' ∷ b'_' ∷ b'i' ∷ b'n' ∷ b'_' ∷ b'T' ∷ b'R' ∷ b'A' ∷ b'C' ∷ b'K' ∷ b'N' ∷ b'A'
    ∷ b'M' ∷ b'E' ∷ []

-- "visit_pit_stop".
abbrev pub visit_rule : List ℕ
visit_rule =
    b'v' ∷ b'i' ∷ b's' ∷ b'i' ∷ b't' ∷ b'_' ∷ b'p' ∷ b'i' ∷ b't' ∷ b'_' ∷ b's' ∷ b't' ∷ b'o' ∷ b'p'
    ∷ []

-- "win_game_in_T_different_battles_TRACKNAME".
abbrev pub battles_rule : List ℕ
battles_rule =
    b'w' ∷ b'i' ∷ b'n' ∷ b'_' ∷ b'g' ∷ b'a' ∷ b'm' ∷ b'e' ∷ b'_' ∷ b'i' ∷ b'n' ∷ b'_' ∷ b'T' ∷ b'_'
    ∷ b'd' ∷ b'i' ∷ b'f' ∷ b'f' ∷ b'e' ∷ b'r' ∷ b'e' ∷ b'n' ∷ b't' ∷ b'_' ∷ b'b' ∷ b'a' ∷ b't'
    ∷ b't' ∷ b'l' ∷ b'e' ∷ b's' ∷ b'_' ∷ b'T' ∷ b'R' ∷ b'A' ∷ b'C' ∷ b'K' ∷ b'N' ∷ b'A' ∷ b'M'
    ∷ b'E' ∷ []

-- "Progress".
abbrev pub progress_key : List ℕ
progress_key = b'P' ∷ b'r' ∷ b'o' ∷ b'g' ∷ b'r' ∷ b'e' ∷ b's' ∷ b's' ∷ []

-- "X".
abbrev pub x_key : List ℕ
x_key = b'X' ∷ []

-- "Y".
abbrev pub y_key : List ℕ
y_key = b'Y' ∷ []
