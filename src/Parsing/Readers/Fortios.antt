-- ===== src/Parsing/Readers/Fortios.antt =====
-- The reader of FortiOS text (backend/app/parsing/readers/fortios_cli.py).
pub mod Tree
use security_configuration_a.Base.{
  ℕ, ◌+◌, ◌≡◌, ◌≤◌, refl, Bool, true, false, not, ◌&&◌, ◌||◌, Option, none, some, List, [], ◌∷◌,
  ltb, ◌==◌, if◌then◌else◌, Text, codes, length, take, is_empty,
}
use security_configuration_a.Base.Str.{strip, starts_with, text_eq}
use security_configuration_a.Parsing.Model.{
  StructuralIr, StructuralParseRequest, ConfigNodeKind, ParseStatus, parsed, unresolved,
  ArtifactProvenance, statement,
}
use security_configuration_a.Parsing.Tokenizer.{TokenizedStatement, tokenize_statement}
use security_configuration_a.Parsing.Builder.{
  IrBuilder, NodeIdentity, NodeArgs, new_builder, add_node, build,
}
use security_configuration_a.Parsing.Lines.{
  lines_of, rstrip_newline, count_newlines, max_input_characters, max_source_lines,
  max_line_characters,
}

pub record FortiosState : Type 0 where
  pub builder : IrBuilder
  pub config_depth : ℕ
  pub edit_depth : ℕ
  pub in_config : Bool
  pub in_edit : Bool

-- The arguments of a statement on one line, with the defaults of `add_node`.
pub line_node : Text → Option Text → List Text → ℕ → ℕ → Bool → ParseStatus → NodeArgs
line_node raw command arguments indent line_number negated parse_status = record {
  raw_text = raw;
  command = command;
  arguments = arguments;
  indent = indent;
  source_start = line_number;
  source_end = line_number;
  negated = negated;
  kind = statement;
  parse_status = parse_status;
  comments = [];
  force_root = false;
  can_parent = true;
}

abbrev pub start : Text → ArtifactProvenance → FortiosState
start reader_id source = record {
  builder = new_builder reader_id source 16 20000;
  config_depth = 0;
  edit_depth = 0;
  in_config = false;
  in_edit = false;
}

module _ (identify : NodeIdentity → Text) where
  abbrev add : NodeArgs → FortiosState → FortiosState
  add args s = record s { builder = add_node identify args s.builder }

  -- The branches on the command, in their order.
  pub run_command : ℕ → Text → TokenizedStatement → Text → FortiosState → FortiosState
  unfolding line_node
  run_command line_number raw tokens command s =
      if text_eq command (codes "config")
      then (let config_depth = if not s.in_config then 0 else 1 in
          add (line_node raw (some command) tokens.arguments config_depth line_number false parsed)
            (record s { config_depth = config_depth; in_config = true; in_edit = false }))
      else if text_eq command (codes "edit") && s.in_config
      then (let edit_depth = s.config_depth + 1 in
          add (line_node raw (some command) tokens.arguments edit_depth line_number false parsed)
            (record s { in_edit = true; edit_depth = edit_depth }))
      else if text_eq command (codes "next") && s.in_edit
      then add
          (record (line_node raw (some command) [] s.edit_depth line_number false parsed) {
            can_parent = false;
          })
          (record s { in_edit = false })
      else if text_eq command (codes "end")
      then add
          (record (line_node raw (some command) [] 0 line_number false parsed) {
            force_root = true;
            can_parent = false;
          })
          (record s { in_config = false; in_edit = false })
      else if (text_eq command (codes "set") || text_eq command (codes "unset")) && s.in_config
      then add
          (line_node raw (some command) tokens.arguments
            (if s.in_edit then s.edit_depth + 1 else s.config_depth + 1) line_number
            (text_eq command (codes "unset")) parsed)
          s
      else add
          (record (line_node raw (some command) tokens.arguments 0 line_number tokens.negated
            unresolved) { can_parent = false })
          s

  pub run_tokens : ℕ → Text → TokenizedStatement → Option Text → FortiosState → FortiosState
  unfolding run_command
  run_tokens line_number raw tokens none s =
      add (line_node raw none [] 0 line_number tokens.negated unresolved) s
  run_tokens line_number raw tokens (some command) s = run_command line_number raw tokens command s

  -- One turn of the loop.
  pub read_line : ℕ → Text → FortiosState → FortiosState
  unfolding run_tokens
  read_line line_number raw_line s =
      let raw = take max_line_characters (rstrip_newline raw_line) in
      let stripped = strip raw in
      if is_empty stripped || starts_with stripped (codes "#")
      then s
      else (let tokens = tokenize_statement stripped in
          run_tokens line_number raw tokens tokens.command s)

  pub read_lines : ℕ → List Text → FortiosState → FortiosState
  unfolding read_line
  read_lines line_number [] s = s
  read_lines line_number (raw_line ∷ lines) s =
      read_lines (line_number + 1) lines (read_line line_number raw_line s)

  unfoldable pub parse_fortios_cli : StructuralParseRequest → StructuralIr
  unfolding read_lines
  parse_fortios_cli request =
      let content = take max_input_characters request.content in
      let lines = take max_source_lines (lines_of content) in
      let truncated =
        request.input_truncated
        || ltb (length content) (length request.content)
        || ltb (length lines) (count_newlines content) in
      build truncated (read_lines 1 lines (start (codes "fortios_cli.v1") request.source)).builder
