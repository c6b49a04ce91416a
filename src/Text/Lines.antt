-- ===== src/Text/Lines.antt =====
-- `str::lines`: the lines of a text, without their ends (`\n`, or `\r\n`).
use trust.Prelude.{ℕ, ◌≡◌, ap, List, [], ◌∷◌, ◌++◌, Text, ◌==◌, if◌then◌else◌}
use trust.Text.{split, Without}
use trust.Text.Split.{split-append}

abbrev pub line_feed : ℕ
line_feed = 10

abbrev pub carriage_return : ℕ
carriage_return = 13

-- A line without the `\r` at its end.
unfoldable pub strip_cr : Text → Text
strip_cr [] = []
strip_cr (c ∷ []) = if c == carriage_return then [] else c ∷ []
strip_cr (c ∷ d ∷ s) = c ∷ strip_cr (d ∷ s)

-- The parts of a text between its line feeds, where an end that is empty is no line, and one that is
-- not keeps its `\r`.
unfoldable pub lines_of : List Text → List Text
unfolding strip_cr
lines_of [] = []
lines_of ([] ∷ []) = []
lines_of ((c ∷ s) ∷ []) = (c ∷ s) ∷ []
lines_of (part ∷ next ∷ parts) = strip_cr part ∷ lines_of (next ∷ parts)

unfoldable pub lines : Text → List Text
unfolding lines_of split
lines text = lines_of (split line_feed text)

-- A text that holds no line feed and does not end in `\r`, with a line feed behind it, is one line.
pub lines-one :
    (s : Text) → Without line_feed s → strip_cr s ≡ s → lines (s ++ line_feed ∷ []) ≡ s ∷ []
unfolding lines lines_of split
lines-one s h e = rw (split-append line_feed s [] h) (ap (λ (t : Text). t ∷ []) e)
