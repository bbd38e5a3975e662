-- ===== src/Jsonc/Tests.antt =====
-- A line with a comment, and a block that the text ends in.
use nextendo_demonware.Common.{[], ℕ, ◌≡◌, refl, List, ◌∷◌, arith, inl, inr}
use nextendo_demonware.Jsonc.Strip.{strip, strip_json_comments}
use nextendo_demonware.Jsonc.Comments.{
  Part, other, string, line_comment, block_comment, plain, escaped, open_comment, written,
  without_comments, newlines, strip_json_comments-written,
}

-- `1//x`, a line break, and `2/*`.
abbrev two_lines : List ℕ
two_lines = b'1' ∷ b'/' ∷ b'/' ∷ b'x' ∷ 10 ∷ b'2' ∷ b'/' ∷ b'*' ∷ []

two_lines_stripped : strip_json_comments two_lines ≡ b'1' ∷ 10 ∷ b'2' ∷ []
unfolding strip_json_comments strip
two_lines_stripped = refl

-- The line break that ends a block which is not closed is dropped.
open_block_stripped : strip_json_comments (b'/' ∷ b'*' ∷ b'x' ∷ 10 ∷ []) ≡ []
unfolding strip_json_comments strip
open_block_stripped = refl

-- `{`, the string `a//"` with its quote escaped, a comment over two lines, and one to the line's end.
abbrev parts : List Part
parts =
    other b'{'
    ∷ string (plain b'a' ∷ plain b'/' ∷ plain b'/' ∷ escaped b'"' ∷ [])
    ∷ block_comment (b'*' ∷ 10 ∷ b'/' ∷ [])
    ∷ line_comment (b'"' ∷ [])
    ∷ other b'}'
    ∷ []

strip_json_comments-written_example :
    (strip_json_comments (written parts (open_comment (b'x' ∷ []))) ≡ without_comments parts)
    × (newlines (strip_json_comments (written parts (open_comment (b'x' ∷ []))))
        ≡ newlines (written parts (open_comment (b'x' ∷ []))))
strip_json_comments-written_example =
    strip_json_comments-written parts (open_comment (b'x' ∷ []))
      (
        (omega arith, omega arith),
        (
          (
            (omega arith, omega arith),
            ((omega arith, omega arith), ((omega arith, omega arith), (tt, tt))),
          ),
          (
            (inr (omega arith), (inl (omega arith), tt)),
            ((omega arith, tt), ((omega arith, omega arith), tt)),
          ),
        ),
      )
      (omega arith, tt)
