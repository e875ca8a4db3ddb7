-- ===== src/Parsing/Readers/Indentation.antt =====
-- The reader of indented text (backend/app/parsing/readers/indentation_cli.py). The `while` loop over
-- an index is a recursion on the lines from the index on; a block that ends `last` lines later makes
-- it skip `last` lines. Patterns that ignore case do so for ASCII.
pub mod Tree
use security_configuration_a.Base.{
  ℕ, zero, suc, ◌+◌, Bool, true, false, not, ◌&&◌, ◌||◌, Option, none, some, List, [], ◌∷◌, ◌++◌,
  ltb, leb, if◌then◌else◌, Text, codes, length, take, is_empty, any, map,
}
use security_configuration_a.Base.Str.{strip, lstrip, lower, starts_with, text_eq, mem_text}
use security_configuration_a.Parsing.Model.{
  StructuralIr, StructuralParseRequest, ConfigNodeKind, ParseStatus, parsed, unresolved, partial,
  opaque, comment, statement,
}
use security_configuration_a.Parsing.Tokenizer.{
  Indentation, TokenizedStatement, tokenize_statement, measure_indentation, words,
}
use security_configuration_a.Parsing.Builder.{
  IrBuilder, NodeIdentity, NodeArgs, new_builder, add_diagnostic, add_node, build,
  node_limit_reached, reset_context,
}
use security_configuration_a.Parsing.Lines.{
  lines_of, rstrip_newline, max_input_characters, max_source_lines,
}
use security_configuration_a.Parsing.Readers.Scan.{
  bounded_line, Scan, scan_banner, scan_certificate_block, banner_delimiter, join_lines,
}

first_words : ℕ → Text → List Text
first_words n s = take n (words (lower s))

same_words : List Text → List Text → Bool
same_words [] [] = true
same_words [] (u ∷ us) = false
same_words (t ∷ ts) [] = false
same_words (t ∷ ts) (u ∷ us) = text_eq t u && same_words ts us

unfoldable pub is_banner : Text → Bool
unfolding first_words same_words
is_banner stripped = same_words (first_words 1 stripped) (codes "banner" ∷ [])

unfoldable pub is_certificate_chain : Text → Bool
unfolding first_words same_words
is_certificate_chain stripped =
    same_words (first_words 4 stripped)
      (codes "crypto" ∷ codes "pki" ∷ codes "certificate" ∷ codes "chain" ∷ [])

-- `_bounded_lines`
bounded_lines : Text → List Text × Bool
bounded_lines content =
    let bounded_content = take max_input_characters content in
    let all_lines = lines_of bounded_content in
    let lines = map rstrip_newline (take max_source_lines all_lines) in
    (
      if not (is_empty bounded_content) && is_empty lines then bounded_content ∷ [] else lines,
      ltb (length bounded_content) (length content) || ltb max_source_lines (length all_lines),
    )

-- What a turn of the loop leaves: `last` is the distance to the last line it read.
pub record Turn : Type 0 where
  pub builder : IrBuilder
  pub truncated : Bool
  pub last : ℕ
  pub goes_on : Bool

-- A diagnostic, if the condition holds.
unfoldable pub note_if : Bool → Text → Text → Option ℕ → Option ℕ → IrBuilder → IrBuilder
note_if true code message source_start source_end b =
    add_diagnostic code message source_start source_end b
note_if false code message source_start source_end b = b

-- `_line_limit_diagnostic`, if the line was cut
abbrev pub line_limit : Bool → ℕ → IrBuilder → IrBuilder
line_limit line_truncated source_line b =
    note_if line_truncated (codes "line_limit")
      (codes "Source line exceeded the structural parsing line limit") (some source_line)
      (some source_line) b

with_delimiter : Option Text → List Text → List Text
with_delimiter none arguments = arguments
with_delimiter (some delimiter) arguments =
    if mem_text delimiter arguments then arguments else arguments ++ delimiter ∷ []

module _ (identify : NodeIdentity → Text) where
  -- A comment line.
  pub read_comment : ℕ → Text → IrBuilder → Bool → Turn
  read_comment n line b truncated =
      let (raw_text, line_truncated) = bounded_line line in
      let b =
        add_node identify
          (record {
            raw_text = raw_text;
            command = none;
            arguments = [];
            indent = 0;
            source_start = n;
            source_end = n;
            negated = false;
            kind = comment;
            parse_status = if line_truncated then partial else parsed;
            comments = lstrip (elim (strip line) [ [] ↦ [] | c ∷ s ↦ s ]) ∷ [];
            force_root = true;
            can_parent = false;
          })
          (reset_context b) in
      record {
        builder = line_limit line_truncated n b;
        truncated = truncated || line_truncated;
        last = 0;
        goes_on = true;
      }

  -- What the two kinds of blocks share; `name` is the word that the diagnostics use.
  pub read_block :
      ℕ
      → Option Text
      → List Text
      → ℕ
      → Bool
      → (unterminated unterminated_message limit_message : Text) → Scan
      → IrBuilder
      → Bool
      → Turn
  read_block n command arguments indent negated unterminated unterminated_message limit_message scan
        b truncated =
      let b =
        add_node identify
          (record {
            raw_text = join_lines scan.raw_lines;
            command = command;
            arguments = arguments;
            indent = indent;
            source_start = n;
            source_end = n + scan.last;
            negated = negated;
            kind = opaque;
            parse_status = if scan.complete && not scan.block_truncated then opaque else partial;
            comments = [];
            force_root = false;
            can_parent = false;
          })
          b in
      let b =
        note_if (not scan.complete) unterminated unterminated_message (some n)
          (some (n + scan.last)) b in
      record {
        builder =
            note_if scan.block_truncated (codes "opaque_block_limit") limit_message (some n)
              (some (n + scan.last)) b;
        truncated = truncated || scan.block_truncated;
        last = scan.last;
        goes_on = scan.complete;
      }

  pub read_statement : ℕ → Text → IrBuilder → Bool → Turn
  read_statement n line b truncated =
      let (raw_text, line_truncated) = bounded_line line in
      let indentation = measure_indentation line in
      let tokens = tokenize_statement raw_text in
      let b =
        note_if indentation.mixed (codes "mixed_indentation")
          (codes "Mixed tabs and spaces were normalized to indentation columns") (some n) (some n)
          b in
      record {
        builder =
            add_node identify
              (record {
                raw_text = raw_text;
                command = tokens.command;
                arguments = tokens.arguments;
                indent = indentation.columns;
                source_start = n;
                source_end = n;
                negated = tokens.negated;
                kind = statement;
                parse_status =
                    if indentation.mixed || line_truncated
                    then partial
                    else elim tokens.command [ none ↦ unresolved | some _ ↦ parsed ];
                comments = [];
                force_root = false;
                can_parent = true;
              })
              (line_limit line_truncated n b);
        truncated = truncated || line_truncated;
        last = 0;
        goes_on = true;
      }

  -- The body of the loop on a line, numbered from 1, and the lines after it.
  pub read_turn : ℕ → Text → List Text → IrBuilder → Bool → Turn
  unfolding read_comment read_block read_statement with_delimiter
  read_turn n line following b truncated =
      let stripped = strip line in
      if is_empty stripped
      then record { builder = b; truncated = truncated; last = 0; goes_on = true }
      else if starts_with stripped (codes "!")
      then read_comment n line b truncated
      else if is_banner stripped
      then read_block n (some (codes "banner"))
          (with_delimiter (banner_delimiter stripped).0 (tokenize_statement line).arguments)
          (measure_indentation line).columns false (codes "unterminated_banner")
          (codes "Banner delimiter was not found within bounded input")
          (codes "Opaque banner block exceeded structural parsing limits")
          (scan_banner line following) b truncated
      else if is_certificate_chain stripped
      then read_block n (tokenize_statement line).command (tokenize_statement line).arguments
          (measure_indentation line).columns (tokenize_statement line).negated
          (codes "unterminated_opaque_block")
          (codes "Opaque certificate block terminator was not found within bounded input")
          (codes "Opaque certificate block exceeded structural parsing limits")
          (scan_certificate_block line following) b truncated
      else read_statement n line b truncated

  -- The loop, with the lines from the index on, the first of them numbered `n`.
  pub read_from : (skip n : ℕ) → List Text → IrBuilder → Bool → IrBuilder × Bool
  unfolding read_turn
  read_from skip n [] b truncated = (b, truncated)
  read_from (suc skip) n (line ∷ lines) b truncated = read_from skip (n + 1) lines b truncated
  read_from zero n (line ∷ lines) b truncated =
      let turn = read_turn n line lines b truncated in
      let rest = read_from turn.last (n + 1) lines turn.builder turn.truncated in
      if node_limit_reached b
      then (
        add_diagnostic (codes "node_limit") (codes "Configuration node count was bounded") (some n)
            none b,
        true,
      )
      else if turn.goes_on
      then rest
      else (turn.builder, turn.truncated)

  unfoldable pub parse_indentation_cli : StructuralParseRequest → StructuralIr
  unfolding read_from bounded_lines
  parse_indentation_cli request =
      let (lines, content_truncated) = bounded_lines request.content in
      let b = new_builder (codes "indentation_cli.v1") request.source 64 20000 in
      let b =
        note_if request.input_truncated (codes "artifact_byte_limit")
          (codes "Artifact content was truncated at the structural parsing byte limit") none none
          b in
      let b =
        note_if content_truncated (codes "input_limit")
          (codes "Configuration input exceeded structural parsing limits") none none b in
      let (b, truncated) = read_from 0 1 lines b (request.input_truncated || content_truncated) in
      build truncated b
