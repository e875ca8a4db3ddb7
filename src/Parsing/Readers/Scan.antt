-- ===== src/Parsing/Readers/Scan.antt =====
-- Blocks of lines that are kept as they are (backend/app/parsing/readers/indentation_cli.py). The
-- lines after the first are given as a list; places are counted from the first line.
use security_configuration_a.Base.{
  ℕ, zero, suc, ◌+◌, ◌-◌, ◌≤◌, Bool, true, false, not, ◌||◌, Option, none, some, List, [], ◌∷◌,
  ◌++◌, ltb, arith, if◌then◌else◌, Text, codes, length, take, is_empty, Bool-cases, inl, inr,
}
use security_configuration_a.Base.Str.{
  strip, lstrip, lower, starts_with, contains, text_eq, is_space,
}
use security_configuration_a.Parsing.Lines.{max_line_characters}

-- `_bounded_line`
abbrev pub bounded_line : Text → Text × Bool
bounded_line line = (take max_line_characters line, ltb max_line_characters (length line))

-- `text.split(None, 1)[1]`, or nothing
drop_word : Text → Text
drop_word [] = []
drop_word (c ∷ s) = let rest = drop_word s in if is_space c then c ∷ s else rest

unfoldable pub after_word : Text → Text
unfolding drop_word
after_word s = lstrip (drop_word s)

delimiter_of : Text → Option Text × Text
delimiter_of [] = (none, [])
delimiter_of (c ∷ []) = (some (c ∷ []), [])
delimiter_of (c ∷ d ∷ s) =
    if starts_with (c ∷ d ∷ s) (codes "^") then (some (c ∷ d ∷ []), s) else (some (c ∷ []), d ∷ s)

pub banner_delimiter : Text → Option Text × Text
unfolding delimiter_of after_word
banner_delimiter stripped = delimiter_of (after_word (after_word stripped))

pub record Scan : Type 0 where
  pub last : ℕ
  pub raw_lines : List Text
  pub complete : Bool
  pub block_truncated : Bool

-- The loop over the lines that follow, `budget` of them at most.
pub scan_lines : (Text → Bool) → (budget place : ℕ) → List Text → List Text → Bool → Scan
scan_lines stops zero place lines raw_lines block_truncated = record {
  last = place - 1;
  raw_lines = raw_lines;
  complete = false;
  block_truncated = block_truncated || not (is_empty lines);
}
scan_lines stops (suc budget) place [] raw_lines block_truncated = record {
  last = place - 1;
  raw_lines = raw_lines;
  complete = false;
  block_truncated = block_truncated;
}
scan_lines stops (suc budget) place (line ∷ lines) raw_lines block_truncated =
    let (bounded, line_truncated) = bounded_line line in
    let raw_lines = raw_lines ++ bounded ∷ [] in
    let block_truncated = block_truncated || line_truncated in
    let rest = scan_lines stops budget (place + 1) lines raw_lines block_truncated in
    if stops line
    then record {
      last = place;
      raw_lines = raw_lines;
      complete = true;
      block_truncated = block_truncated;
    }
    else rest

-- `MAX_OPAQUE_BLOCK_LINES - 1`
abbrev block_budget : ℕ
block_budget = 4095

abbrev scan_block : (Text → Bool) → Text → List Text → Scan
scan_block stops line lines =
    let (bounded, line_truncated) = bounded_line line in
    scan_lines stops block_budget 1 lines (bounded ∷ []) line_truncated

scan_banner_to : Option Text × Text → Text → List Text → Scan
unfolding scan_lines
scan_banner_to (none, opening_remainder) line lines = scan_block (λ l. false) line lines
scan_banner_to (some delimiter, opening_remainder) line lines =
    if contains opening_remainder delimiter
    then (let (bounded, line_truncated) = bounded_line line in
        record {
          last = 0;
          raw_lines = bounded ∷ [];
          complete = true;
          block_truncated = line_truncated;
        })
    else scan_block (λ l. contains l delimiter) line lines

unfoldable pub scan_banner : Text → List Text → Scan
unfolding scan_banner_to banner_delimiter
scan_banner line lines = scan_banner_to (banner_delimiter (strip line)) line lines

unfoldable pub scan_certificate_block : Text → List Text → Scan
unfolding scan_lines
scan_certificate_block line lines =
    scan_block (λ l. text_eq (lower (strip l)) (codes "quit")) line lines

-- `"\n".join(raw_lines)`
unfoldable pub join_lines : List Text → Text
join_lines [] = []
join_lines (line ∷ []) = line
join_lines (line ∷ next ∷ lines) = line ++ 10 ∷ join_lines (next ∷ lines)

-- The last line of a block is one of the lines there are.
scan_lines-last :
    (stops : Text → Bool) (budget place : ℕ) (lines raw_lines : List Text) (t : Bool)
    → 1 ≤ place
    → (scan_lines stops budget place lines raw_lines t).last + 1 ≤ place + length lines
unfolding scan_lines
scan_lines-last stops zero place lines raw_lines t h = omega arith
scan_lines-last stops (suc budget) place [] raw_lines t h = omega arith
scan_lines-last stops (suc budget) place (line ∷ lines) raw_lines t h =
    elim (Bool-cases (stops line)) [
      | inl e ↦ rw e (omega arith)
      | inr e ↦ rw e (
          omega (
            arith,
            scan_lines-last stops budget (place + 1) lines
                (raw_lines ++ take max_line_characters line ∷ [])
                (t || ltb max_line_characters (length line)) (omega arith),
          ))
    ]

scan_block-last :
    (stops : Text → Bool) (line : Text) (lines : List Text)
    → (scan_block stops line lines).last ≤ length lines
scan_block-last stops line lines = omega (
  arith,
  scan_lines-last stops block_budget 1 lines (take max_line_characters line ∷ [])
      (ltb max_line_characters (length line)) (omega arith),
)

scan_banner_to-last :
    (d : Option Text × Text) (line : Text) (lines : List Text)
    → (scan_banner_to d line lines).last ≤ length lines
unfolding scan_banner_to
scan_banner_to-last (none, r) line lines = scan_block-last (λ l. false) line lines
scan_banner_to-last (some d, r) line lines = elim (Bool-cases (contains r d)) [
  | inl e ↦ rw e (omega arith)
  | inr e ↦ rw e (scan_block-last (λ l. contains l d) line lines)
]

pub scan_banner-last :
    (line : Text) (lines : List Text) → (scan_banner line lines).last ≤ length lines
unfolding scan_banner
scan_banner-last line lines = scan_banner_to-last (banner_delimiter (strip line)) line lines

pub scan_certificate_block-last :
    (line : Text) (lines : List Text) → (scan_certificate_block line lines).last ≤ length lines
unfolding scan_certificate_block
scan_certificate_block-last line lines =
    scan_block-last (λ l. text_eq (lower (strip l)) (codes "quit")) line lines
