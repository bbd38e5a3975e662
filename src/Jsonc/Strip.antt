-- ===== src/Jsonc/Strip.antt =====
-- stripJSONComments (jsonc.go): where the loop stands, and what it appends from there on.
use nextendo_demonware.Common.{[], ℕ, ◌&&◌, List, ◌∷◌, ◌==◌, if◌then◌else◌}

abbrev pub newline : ℕ
newline = 10

abbrev pub quote : ℕ
quote = 34

abbrev pub slash : ℕ
slash = 47

abbrev pub star : ℕ
star = 42

abbrev pub backslash : ℕ
backslash = 92

-- Outside of strings and comments, inside a string, in a comment up to the line's end, and in a
-- block.
pub data Mode : Type 0 where
  code text line block : Mode

unfoldable pub strip : Mode → List ℕ → List ℕ
strip code [] = []
strip code (c ∷ []) = c ∷ []
strip code (c ∷ d ∷ rest) =
    let as_text = c ∷ strip text (d ∷ rest) in
    let as_line = strip line rest in
    let as_block = strip block rest in
    let as_code = c ∷ strip code (d ∷ rest) in
    if c == quote
    then as_text
    else if c == slash && d == slash
    then as_line
    else if c == slash && d == star
    then as_block
    else as_code
strip text [] = []
strip text (c ∷ []) = c ∷ []
strip text (c ∷ d ∷ rest) =
    let escaped = c ∷ d ∷ strip text rest in
    let closed = c ∷ strip code (d ∷ rest) in
    let goes_on = c ∷ strip text (d ∷ rest) in
    if c == backslash then escaped else if c == quote then closed else goes_on
strip line [] = []
strip line (c ∷ rest) =
    let next = newline ∷ strip code rest in
    let skip = strip line rest in if c == newline then next else skip
strip block [] = []
strip block (c ∷ []) = []
strip block (c ∷ d ∷ rest) =
    let closed = strip code rest in
    let kept = newline ∷ strip block (d ∷ rest) in
    let skip = strip block (d ∷ rest) in
    if c == star && d == slash then closed else if c == newline then kept else skip

unfoldable pub strip_json_comments : List ℕ → List ℕ
strip_json_comments b = strip code b
