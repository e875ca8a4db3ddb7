-- ===== src/Parsing/Tokenizer.antt =====
-- Indentation and tokens of one line (backend/app/parsing/tokenizer.py).
use security_configuration_a.Base.{
  ℕ, ◌+◌, ◌-◌, ◌%◌, ◌≡◌, refl, Bool, true, false, not, ◌&&◌, Option, none, some, List, [], ◌∷◌,
  ◌==◌, if◌then◌else◌, Text, codes,
}
use security_configuration_a.Base.Str.{strip, lower, text_eq, is_space}

pub record Indentation : Type 0 where
  pub columns : ℕ
  pub mixed : Bool

-- The loop of `measure_indentation`, over `columns`, `saw_space` and `saw_tab`.
measure_from : (tab_width : ℕ) → ℕ → Bool → Bool → Text → Indentation
measure_from tab_width columns saw_space saw_tab [] = record {
  columns = columns;
  mixed = saw_space && saw_tab;
}
measure_from tab_width columns saw_space saw_tab (c ∷ line) =
    let spaced = measure_from tab_width (columns + 1) true saw_tab line in
    let tabbed =
      measure_from tab_width (columns + (tab_width - columns % tab_width)) saw_space true line in
    if c == 32
    then spaced
    else if c == 9
    then tabbed
    else record { columns = columns; mixed = saw_space && saw_tab }

unfoldable pub measure_indentation : Text → Indentation
unfolding measure_from
measure_indentation line = measure_from 8 0 false false line

-- A character read before the words of the rest: a blank ends the word in front of it.
add_char : ℕ → Bool → List Text → List Text
add_char c true [] = (c ∷ []) ∷ []
add_char c true (w ∷ ws) = (c ∷ w) ∷ ws
add_char c false ws = (c ∷ []) ∷ ws

-- Does the text begin with a character of a word?
abbrev starts_word : Text → Bool
starts_word [] = false
starts_word (c ∷ s) = not (is_space c)

-- `re.findall(r"\S+", s)`
unfoldable pub words : Text → List Text
unfolding add_char
words [] = []
words (c ∷ s) = let rest = words s in if is_space c then rest else add_char c (starts_word s) rest

pub record TokenizedStatement : Type 0 where
  pub command : Option Text
  pub arguments : List Text
  pub negated : Bool

statement_of : List Text → TokenizedStatement
statement_of [] = record { command = none; arguments = []; negated = false }
statement_of (t ∷ []) =
    if text_eq (lower t) (codes "no")
    then record { command = none; arguments = []; negated = true }
    else record { command = some (lower t); arguments = []; negated = false }
statement_of (t ∷ u ∷ rest) =
    if text_eq (lower t) (codes "no")
    then record { command = some (lower u); arguments = rest; negated = true }
    else record { command = some (lower t); arguments = u ∷ rest; negated = false }

unfoldable pub tokenize_statement : Text → TokenizedStatement
unfolding words statement_of strip lower
tokenize_statement raw_text = statement_of (words (strip raw_text))

runs : tokenize_statement (codes " No Transport  input ssh ") ≡ record {
  command = some (codes "transport");
  arguments = codes "input" ∷ codes "ssh" ∷ [];
  negated = true;
}
unfolding tokenize_statement text_eq is_space
runs = refl
