-- ===== src/Parsing/Readers/Fortios/Tree.antt =====
-- What the reader of FortiOS text builds.
use security_configuration_a.Base.{
  ℕ, ◌+◌, ◌≡◌, refl, sym, subst, Bool, true, false, ◌&&◌, ◌||◌, Option, none, some, List, [], ◌∷◌,
  arith, length-take-le, if◌then◌else◌, Text, codes, length, take, is_empty, Bool-cases, inl, inr,
}
use security_configuration_a.Base.Str.{strip, starts_with, text_eq}
use security_configuration_a.Parsing.Model.{StructuralParseRequest}
use security_configuration_a.Parsing.Tokenizer.{TokenizedStatement, tokenize_statement}
use security_configuration_a.Parsing.Builder.{IrBuilder, NodeIdentity, NodeArgs, add_node, build}
use security_configuration_a.Parsing.Builder.Trees.{IsTree}
use security_configuration_a.Parsing.Builder.Reading.{
  IsReading, add-IsReading, IsReading-later, start-IsReading, build-reading,
}
use security_configuration_a.Parsing.Lines.{
  lines_of, rstrip_newline, max_input_characters, max_source_lines, max_line_characters,
}
use security_configuration_a.Parsing.Readers.Fortios.{
  FortiosState, line_node, run_command, run_tokens, read_line, read_lines, parse_fortios_cli,
}

module _ (identify : NodeIdentity → Text) where
  abbrev Reading : ℕ → FortiosState → Type 0
  Reading line_number s = IsReading identify 16 20000 line_number s.builder

  choose :
      (c : Bool) (n : ℕ) (s t : FortiosState)
      → Reading n s
      → Reading n t
      → Reading n (if c then s else t)
  choose true n s t h k = h
  choose false n s t h k = k

  step :
      (n : ℕ) (args : NodeArgs) (b : IrBuilder)
      → args.source_start ≡ n
      → args.source_end ≡ n
      → IsReading identify 16 20000 n b
      → IsReading identify 16 20000 (n + 1) (add_node identify args b)
  step n args b e f h =
      add-IsReading identify 16 20000 n (n + 1) args b (omega arith) (omega arith) (omega arith) h

  run_command-IsReading :
      (n : ℕ) (raw : Text) (tokens : TokenizedStatement) (command : Text) (s : FortiosState)
      → Reading n s
      → Reading (n + 1) (run_command identify n raw tokens command s)
  unfolding run_command line_node
  run_command-IsReading n raw tokens command s h =
      elim (Bool-cases (text_eq command (codes "config"))) [
        | inl c ↦ rw c (step n _ s.builder refl refl h)
        | inr c ↦ rw c (elim (Bool-cases (text_eq command (codes "edit") && s.in_config)) [
          | inl c ↦ rw c (step n _ s.builder refl refl h)
          | inr c ↦ rw c (elim (Bool-cases (text_eq command (codes "next") && s.in_edit)) [
            | inl c ↦ rw c (step n _ s.builder refl refl h)
            | inr c ↦ rw c (elim (Bool-cases (text_eq command (codes "end"))) [
              | inl c ↦ rw c (step n _ s.builder refl refl h)
              | inr c ↦
                  rw c
                    (elim (Bool-cases (
                      (text_eq command (codes "set") || text_eq command (codes "unset"))
                      && s.in_config)) [
                        | inl c ↦ rw c (step n _ s.builder refl refl h)
                        | inr c ↦ rw c (step n _ s.builder refl refl h)
                      ])
            ])
          ])
        ])
      ]

  run_tokens-IsReading :
      (n : ℕ) (raw : Text) (tokens : TokenizedStatement) (command : Option Text) (s : FortiosState)
      → Reading n s
      → Reading (n + 1) (run_tokens identify n raw tokens command s)
  unfolding run_tokens line_node
  run_tokens-IsReading n raw tokens none s h = step n _ s.builder refl refl h
  run_tokens-IsReading n raw tokens (some command) s h =
      run_command-IsReading n raw tokens command s h

  read_line-IsReading :
      (n : ℕ) (raw_line : Text) (s : FortiosState)
      → Reading n s
      → Reading (n + 1) (read_line identify n raw_line s)
  unfolding read_line
  read_line-IsReading n raw_line s h =
      let raw = take max_line_characters (rstrip_newline raw_line) in
      choose (is_empty (strip raw) || starts_with (strip raw) (codes "#")) (n + 1) s
        (run_tokens identify n raw (tokenize_statement (strip raw))
          (tokenize_statement (strip raw)).command s)
        (IsReading-later identify 16 20000 n (n + 1) s.builder (omega arith) h)
        (run_tokens-IsReading n raw (tokenize_statement (strip raw)) _ s h)

  read_lines-IsReading :
      (n : ℕ) (lines : List Text) (s : FortiosState)
      → Reading n s
      → Reading (n + length lines) (read_lines identify n lines s)
  unfolding read_lines
  read_lines-IsReading n [] s h = let e : n + 0 ≡ n = omega arith in rw e h
  read_lines-IsReading n (raw_line ∷ lines) s h =
      IsReading-later identify 16 20000 _ (n + length (raw_line ∷ lines)) _ (omega arith)
        (read_lines-IsReading (n + 1) lines _ (read_line-IsReading n raw_line s h))

  parse_fortios_cli-IsReading :
      (request : StructuralParseRequest)
      → (truncated : Bool) × (b : IrBuilder) × (parse_fortios_cli identify request
          ≡ build truncated b)
        × IsReading identify 16 20000 50001 b
  unfolding parse_fortios_cli
  parse_fortios_cli-IsReading request =
      let lines = lines_of (take max_input_characters request.content) in
      (
        _,
        _,
        refl,
        IsReading-later identify 16 20000 _ 50001 _
            (omega (arith, length-take-le max_source_lines lines))
            (read_lines-IsReading 1 (take max_source_lines lines) _
              (start-IsReading identify 16 20000 (codes "fortios_cli.v1") request.source)),
      )

  -- For every request, what the FortiOS reader returns has at most 20000 nodes, each of depth at most
  -- 16 and with as many ancestors in its path as its depth, from lines in strictly increasing order
  -- between 1 and 50000; each is a root or hangs under an earlier node, one level deeper.
  pub fortios-IsTree :
      (request : StructuralParseRequest)
      → IsTree 16 20000 50001 (parse_fortios_cli identify request)
  fortios-IsTree request =
      let (truncated, b, e, h) = parse_fortios_cli-IsReading request in
      subst (IsTree 16 20000 50001) (sym e) (build-reading identify 16 20000 truncated 50001 b h)
