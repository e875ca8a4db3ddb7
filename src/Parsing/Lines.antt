-- ===== src/Parsing/Lines.antt =====
-- Lines of the text, as `io.StringIO` yields them, and what the readers of lines share
-- (backend/app/parsing/readers/fortios_cli.py, indentation_cli.py).
use security_configuration_a.Base.{
  ℕ, Bool, ◌||◌, List, [], ◌∷◌, ◌==◌, if◌then◌else◌, Text, length, keep, ◌≡◌, refl, ◌++◌, ap, ◌∙◌,
  ◌*◌, Bool-cases, inl, inr,
}

-- A character in front of lines: it joins the first one.
join_line : ℕ → List Text → List Text
join_line c [] = (c ∷ []) ∷ []
join_line c (l ∷ ls) = (c ∷ l) ∷ ls

-- `list(StringIO(content))`: a line ends with its "\n".
unfoldable pub lines_of : Text → List Text
unfolding join_line
lines_of [] = []
lines_of (c ∷ s) = let rest = lines_of s in if c == 10 then (c ∷ []) ∷ rest else join_line c rest

abbrev pub is_newline : ℕ → Bool
is_newline c = c == 10 || c == 13

-- `line.rstrip("\r\n")`
keep_unless_newline : ℕ → Text → Text
keep_unless_newline c [] = if is_newline c then [] else c ∷ []
keep_unless_newline c (d ∷ s) = c ∷ d ∷ s

unfoldable pub rstrip_newline : Text → Text
unfolding keep_unless_newline
rstrip_newline [] = []
rstrip_newline (c ∷ s) = keep_unless_newline c (rstrip_newline s)

-- `content.count("\n")`
unfoldable pub count_newlines : Text → ℕ
count_newlines content = length (keep (λ c. c == 10) content)

abbrev pub max_input_characters : ℕ
max_input_characters = 2 * 1024 * 1024

abbrev pub max_source_lines : ℕ
max_source_lines = 50000

abbrev pub max_line_characters : ℕ
max_line_characters = 16 * 1024

-- `"".join(lines)`
abbrev pub join : List Text → Text
join [] = []
join (l ∷ ls) = l ++ join ls

join-join_line : (c : ℕ) (ls : List Text) → join (join_line c ls) ≡ c ∷ join ls
unfolding join_line
join-join_line c [] = refl
join-join_line c (l ∷ ls) = refl

-- The lines are the text, cut.
pub join-lines_of : (s : Text) → join (lines_of s) ≡ s
unfolding lines_of
join-lines_of [] = refl
join-lines_of (c ∷ s) = elim (Bool-cases (c == 10)) [
  | inl e ↦ rw e (ap (λ t. c ∷ t) (join-lines_of s))
  | inr e ↦ rw e (join-join_line c (lines_of s) ∙ ap (λ t. c ∷ t) (join-lines_of s))
]
