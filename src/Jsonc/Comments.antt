-- ===== src/Jsonc/Comments.antt =====
-- JSON with comments as a sequence of its parts, and what is left of it (jsonc.go).
use nextendo_demonware.Common.{
  [], ℕ, ◌+◌, ◌≡◌, ◌≢◌, ◌⊎◌, refl, sym, ap, ◌∙◌, List, ◌∷◌, ◌++◌, ◌==◌, if◌then◌else◌, arith, All,
}
use nextendo_demonware.Jsonc.Strip.{
  newline, quote, slash, star, backslash, code, text, line, block, strip, strip_json_comments,
}

-- A comment that the text ends in, without a line break, or none.
pub data Ending : Type 0 where
  done : Ending
  open_comment : List ℕ → Ending

-- Inside of a string: a character, or one behind a backslash.
pub data Letter : Type 0 where
  plain : ℕ → Letter
  escaped : ℕ → Letter

-- A character outside of strings, a string, a comment up to the end of its line, and a block.
pub data Part : Type 0 where
  other : ℕ → Part
  string : List Letter → Part
  line_comment : List ℕ → Part
  block_comment : List ℕ → Part

abbrev letters : List Letter → List ℕ
letters [] = []
letters (plain c ∷ ls) = c ∷ letters ls
letters (escaped c ∷ ls) = backslash ∷ c ∷ letters ls

abbrev ending : Ending → List ℕ
ending done = []
ending (open_comment body) = slash ∷ slash ∷ body

-- The text with its comments.
abbrev pub written : List Part → Ending → List ℕ
written [] e = ending e
written (other c ∷ ps) e = c ∷ written ps e
written (string ls ∷ ps) e = quote ∷ (letters ls ++ quote ∷ written ps e)
written (line_comment body ∷ ps) e = slash ∷ slash ∷ (body ++ newline ∷ written ps e)
written (block_comment body ∷ ps) e = slash ∷ star ∷ (body ++ star ∷ slash ∷ written ps e)

abbrev breaks : List ℕ → List ℕ
breaks [] = []
breaks (c ∷ cs) = if c == newline then newline ∷ breaks cs else breaks cs

-- The text without them, with their line breaks.
abbrev pub without_comments : List Part → List ℕ
without_comments [] = []
without_comments (other c ∷ ps) = c ∷ without_comments ps
without_comments (string ls ∷ ps) = quote ∷ (letters ls ++ quote ∷ without_comments ps)
without_comments (line_comment body ∷ ps) = newline ∷ without_comments ps
without_comments (block_comment body ∷ ps) = breaks body ++ without_comments ps

abbrev IsEnding : Ending → Type 0
IsEnding done = Unit
IsEnding (open_comment body) = All (λ c. c ≢ newline) body

abbrev IsLetter : Letter → Type 0
IsLetter (plain c) = (c ≢ quote) × (c ≢ backslash)
IsLetter (escaped c) = Unit

-- A block does not end early.
abbrev IsBlock : List ℕ → Type 0
IsBlock [] = Unit
IsBlock (c ∷ []) = Unit
IsBlock (c ∷ d ∷ rest) = ((c ≢ star) ⊎ (d ≢ slash)) × IsBlock (d ∷ rest)

abbrev IsPart : Part → Type 0
IsPart (other c) = (c ≢ quote) × (c ≢ slash)
IsPart (string ls) = All IsLetter ls
IsPart (line_comment body) = All (λ c. c ≢ newline) body
IsPart (block_comment body) = IsBlock body

strip-other :
    (c : ℕ) (rest : List ℕ) → c ≢ quote → c ≢ slash → strip code (c ∷ rest) ≡ c ∷ strip code rest
unfolding strip
strip-other c [] h k = refl
strip-other c (d ∷ rest) h k = ground arith

strip-closed : (rest : List ℕ) → strip text (quote ∷ rest) ≡ quote ∷ strip code rest
unfolding strip
strip-closed [] = refl
strip-closed (d ∷ rest) = refl

strip-plain :
    (c : ℕ) (rest : List ℕ)
    → c ≢ quote
    → c ≢ backslash
    → strip text (c ∷ rest) ≡ c ∷ strip text rest
unfolding strip
strip-plain c [] h k = refl
strip-plain c (d ∷ rest) h k = ground arith

strip-letters :
    (ls : List Letter) (rest : List ℕ)
    → All IsLetter ls
    → strip text (letters ls ++ quote ∷ rest) ≡ letters ls ++ quote ∷ strip code rest
unfolding strip
strip-letters [] rest h = strip-closed rest
strip-letters (plain c ∷ ls) rest ((h, k), hs) =
    strip-plain c (letters ls ++ quote ∷ rest) h k ∙ ap (◌∷◌ c) (strip-letters ls rest hs)
strip-letters (escaped c ∷ ls) rest (_, hs) =
    ap (λ (t : List ℕ). backslash ∷ c ∷ t) (strip-letters ls rest hs)

strip-string : (rest : List ℕ) → rest ≢ [] → strip code (quote ∷ rest) ≡ quote ∷ strip text rest
unfolding strip
strip-string [] h = absurd (h refl)
strip-string (d ∷ rest) h = refl

letters-nonempty : (ls : List Letter) (rest : List ℕ) → letters ls ++ quote ∷ rest ≢ []
letters-nonempty [] rest e = cc
letters-nonempty (plain c ∷ ls) rest e = cc
letters-nonempty (escaped c ∷ ls) rest e = cc

strip-line :
    (body rest : List ℕ)
    → All (λ c. c ≢ newline) body
    → strip line (body ++ newline ∷ rest) ≡ newline ∷ strip code rest
unfolding strip
strip-line [] rest h = refl
strip-line (c ∷ body) rest (h, hs) = ground (arith, strip-line body rest hs)

strip-block :
    (body rest : List ℕ)
    → IsBlock body
    → strip block (body ++ star ∷ slash ∷ rest) ≡ breaks body ++ strip code rest
unfolding strip
strip-block [] rest h = refl
strip-block (c ∷ []) rest h = ground arith
strip-block (c ∷ d ∷ body) rest (h, hs) = ground (arith, strip-block (d ∷ body) rest hs)

strip-open : (body : List ℕ) → All (λ c. c ≢ newline) body → strip line body ≡ []
unfolding strip
strip-open [] h = refl
strip-open (c ∷ body) (h, hs) = ground (arith, strip-open body hs)

strip-ending : (e : Ending) → IsEnding e → strip code (ending e) ≡ []
unfolding strip
strip-ending done h = refl
strip-ending (open_comment body) h = strip-open body h

strip-parts :
    (ps : List Part) (e : Ending)
    → All IsPart ps
    → IsEnding e
    → strip code (written ps e) ≡ without_comments ps
unfolding strip
strip-parts [] e h end = strip-ending e end
strip-parts (other c ∷ ps) e ((h, k), hs) end =
    strip-other c (written ps e) h k ∙ ap (◌∷◌ c) (strip-parts ps e hs end)
strip-parts (string ls ∷ ps) e (h, hs) end =
    strip-string (letters ls ++ quote ∷ written ps e) (letters-nonempty ls (written ps e))
    ∙ ap (◌∷◌ quote) (
        strip-letters ls (written ps e) h
        ∙ ap (λ (t : List ℕ). letters ls ++ quote ∷ t) (strip-parts ps e hs end))
strip-parts (line_comment body ∷ ps) e (h, hs) end =
    strip-line body (written ps e) h ∙ ap (◌∷◌ newline) (strip-parts ps e hs end)
strip-parts (block_comment body ∷ ps) e (h, hs) end =
    strip-block body (written ps e) h ∙ ap (breaks body ++◌) (strip-parts ps e hs end)

-- The number of line breaks.
abbrev pub newlines : List ℕ → ℕ
newlines [] = 0
newlines (c ∷ cs) = (if c == newline then 1 else 0) + newlines cs

newlines-append : (xs ys : List ℕ) → newlines (xs ++ ys) ≡ newlines xs + newlines ys
newlines-append [] ys = omega arith
newlines-append (x ∷ xs) ys = ground (arith, newlines-append xs ys)

newlines-breaks : (xs : List ℕ) → newlines (breaks xs) ≡ newlines xs
newlines-breaks [] = refl
newlines-breaks (x ∷ xs) = ground (arith, newlines-breaks xs)

newlines-none : (xs : List ℕ) → All (λ c. c ≢ newline) xs → newlines xs ≡ 0
newlines-none [] h = refl
newlines-none (x ∷ xs) (h, hs) = ground (arith, newlines-none xs hs)

newlines-ending : (e : Ending) → IsEnding e → newlines (ending e) ≡ 0
newlines-ending done h = refl
newlines-ending (open_comment body) h = omega (arith, newlines-none body h)

newlines-parts :
    (ps : List Part) (e : Ending)
    → All IsPart ps
    → IsEnding e
    → newlines (without_comments ps) ≡ newlines (written ps e)
newlines-parts [] e h end = sym (newlines-ending e end)
newlines-parts (other c ∷ ps) e (_, hs) end = ground (arith, newlines-parts ps e hs end)
newlines-parts (string ls ∷ ps) e (_, hs) end = omega (
  arith,
  newlines-append (letters ls) (quote ∷ without_comments ps),
  newlines-append (letters ls) (quote ∷ written ps e),
  newlines-parts ps e hs end,
)
newlines-parts (line_comment body ∷ ps) e (h, hs) end = omega (
  arith,
  newlines-append body (newline ∷ written ps e),
  newlines-none body h,
  newlines-parts ps e hs end,
)
newlines-parts (block_comment body ∷ ps) e (_, hs) end = omega (
  arith,
  newlines-append body (star ∷ slash ∷ written ps e),
  newlines-append (breaks body) (without_comments ps),
  newlines-breaks body,
  newlines-parts ps e hs end,
)

-- Of a text that is made of strings, of comments that are closed, at most the last one by the text's
-- end, and of characters outside of them that are neither quotes nor slashes: what is left are the
-- strings and the characters, as they were, and one line break for each of the text.
pub strip_json_comments-written :
    (ps : List Part) (e : Ending)
    → All IsPart ps
    → IsEnding e
    → (strip_json_comments (written ps e) ≡ without_comments ps)
      × (newlines (strip_json_comments (written ps e)) ≡ newlines (written ps e))
unfolding strip_json_comments
strip_json_comments-written ps e h end =
    let stripped = strip-parts ps e h end in
    (stripped, ap newlines stripped ∙ newlines-parts ps e h end)
