-- ===== src/Parsing/Readers/Indentation/Tree.antt =====
-- What the reader of indented text builds.
use security_configuration_a.Base.{
  ℕ, zero, suc, ◌+◌, ◌≡◌, ◌≤◌, refl, ap, Bool, true, false, not, ◌&&◌, ◌||◌, Option, List, [], ◌∷◌,
  arith, length-take-le, Text, codes, length, take, is_empty, map, Bool-cases, inl, inr,
}
use security_configuration_a.Base.Str.{strip, starts_with}
use security_configuration_a.Parsing.Model.{StructuralParseRequest}
use security_configuration_a.Parsing.Builder.{
  IrBuilder, NodeIdentity, NodeArgs, add_node, reset_context, node_limit_reached,
}
use security_configuration_a.Parsing.Builder.Trees.{IsTree}
use security_configuration_a.Parsing.Builder.Reading.{
  IsReading, add-IsReading, IsReading-later, note-IsReading, reset-IsReading, start-IsReading,
  build-reading,
}
use security_configuration_a.Parsing.Lines.{
  lines_of, rstrip_newline, max_input_characters, max_source_lines,
}
use security_configuration_a.Parsing.Readers.Scan.{
  Scan, scan_banner, scan_certificate_block, scan_banner-last, scan_certificate_block-last,
}
use security_configuration_a.Parsing.Readers.Indentation.{
  Turn, note_if, is_banner, is_certificate_chain, read_comment, read_block, read_statement,
  read_turn, read_from, bounded_lines, parse_indentation_cli,
}

module _ (identify : NodeIdentity → Text) where
  abbrev Reading : ℕ → IrBuilder → Type 0
  Reading n b = IsReading identify 64 20000 n b

  -- A turn on line `n` with `k` lines after it reads up to one of them.
  abbrev Turned : (n k : ℕ) → Turn → Type 0
  Turned n k turn = Reading (n + 1 + turn.last) turn.builder × (turn.last ≤ k)

  note_if-Reading :
      (n : ℕ) (c : Bool) (code message : Text) (source_start source_end : Option ℕ) (b : IrBuilder)
      → Reading n b
      → Reading n (note_if c code message source_start source_end b)
  unfolding note_if
  note_if-Reading n true code message source_start source_end b h =
      note-IsReading identify 64 20000 n code message source_start source_end b h
  note_if-Reading n false code message source_start source_end b h = h

  add-Reading :
      (n last : ℕ) (args : NodeArgs) (b : IrBuilder)
      → args.source_start ≡ n
      → args.source_end ≡ n + last
      → Reading n b
      → Reading (n + 1 + last) (add_node identify args b)
  add-Reading n last args b e f h =
      add-IsReading identify 64 20000 n (n + 1 + last) args b (omega arith) (omega arith)
        (omega arith) h

  read_comment-Turned :
      (n k : ℕ) (line : Text) (b : IrBuilder) (t : Bool)
      → Reading n b
      → Turned n k (read_comment identify n line b t)
  unfolding read_comment
  read_comment-Turned n k line b t h = (
    note_if-Reading (n + 1 + 0) _ _ _ _ _ _ (
        add-Reading n 0 _ (reset_context b) refl (omega arith)
          (reset-IsReading identify 64 20000 n b h)),
    omega arith,
  )

  read_block-Turned :
      (n k : ℕ) (command : Option Text) (arguments : List Text) (indent : ℕ) (negated : Bool)
      (code message limit : Text) (scan : Scan) (b : IrBuilder) (t : Bool)
      → scan.last ≤ k
      → Reading n b
      → Turned n k
          (read_block identify n command arguments indent negated code message limit scan b t)
  unfolding read_block
  read_block-Turned n k command arguments indent negated code message limit scan b t l h = (
    note_if-Reading (n + 1 + scan.last) _ _ _ _ _ _
        (note_if-Reading (n + 1 + scan.last) _ _ _ _ _ _ (add-Reading n scan.last _ b refl refl h)),
    l,
  )

  read_statement-Turned :
      (n k : ℕ) (line : Text) (b : IrBuilder) (t : Bool)
      → Reading n b
      → Turned n k (read_statement identify n line b t)
  unfolding read_statement
  read_statement-Turned n k line b t h = (
    add-Reading n 0 _ _ refl (omega arith)
        (note_if-Reading n _ _ _ _ _ _ (note_if-Reading n _ _ _ _ _ b h)),
    omega arith,
  )

  read_turn-Turned :
      (n : ℕ) (line : Text) (following : List Text) (b : IrBuilder) (t : Bool)
      → Reading n b
      → Turned n (length following) (read_turn identify n line following b t)
  unfolding read_turn
  read_turn-Turned n line following b t h = elim (Bool-cases (is_empty (strip line))) [
    | inl c ↦ rw c (IsReading-later identify 64 20000 n (n + 1 + 0) b (omega arith) h, omega arith)
    | inr c ↦ rw c (elim (Bool-cases (starts_with (strip line) (codes "!"))) [
      | inl c ↦ rw c (read_comment-Turned n (length following) line b t h)
      | inr c ↦ rw c (elim (Bool-cases (is_banner (strip line))) [
        | inl c ↦ rw c (
            read_block-Turned n (length following) _ _ _ _ _ _ _ (scan_banner line following) b t
              (scan_banner-last line following) h)
        | inr c ↦ rw c (elim (Bool-cases (is_certificate_chain (strip line))) [
          | inl c ↦ rw c (
              read_block-Turned n (length following) _ _ _ _ _ _ _
                (scan_certificate_block line following) b t
                (scan_certificate_block-last line following) h)
          | inr c ↦ rw c (read_statement-Turned n (length following) line b t h)
        ])
      ])
    ])
  ]

  -- Lines that are skipped have been read.
  read_from-Reading :
      (skip n high : ℕ) (lines : List Text) (b : IrBuilder) (t : Bool)
      → skip ≤ length lines
      → n + length lines ≤ high
      → Reading (n + skip) b
      → Reading high (read_from identify skip n lines b t).0
  unfolding read_from
  read_from-Reading skip n high [] b t l m h =
      IsReading-later identify 64 20000 (n + skip) high b (omega arith) h
  read_from-Reading (suc skip) n high (line ∷ lines) b t l m h =
      read_from-Reading skip (n + 1) high lines b t (omega arith) (omega arith)
        (IsReading-later identify 64 20000 (n + suc skip) (n + 1 + skip) b (omega arith) h)
  read_from-Reading zero n high (line ∷ lines) b t l m h =
      let turn = read_turn identify n line lines b t in
      let start : Reading n b = IsReading-later identify 64 20000 (n + zero) n b (omega arith) h in
      let turned = read_turn-Turned n line lines b t start in
      let rest =
        read_from-Reading turn.last (n + 1) high lines turn.builder turn.truncated turned.1
          (omega arith) turned.0 in
      elim (Bool-cases (node_limit_reached b)) [
        | inl c ↦ rw c (
            note-IsReading identify 64 20000 high _ _ _ _ b
              (IsReading-later identify 64 20000 n high b (omega arith) start))
        | inr c ↦ rw c (elim (Bool-cases turn.goes_on) [
          | inl c ↦ rw c rest
          | inr c ↦ rw c (
              IsReading-later identify 64 20000 (n + 1 + turn.last) high turn.builder
                (omega (arith, turned.1)) turned.0)
        ])
      ]

  length-map_lines : (lines : List Text) → length (map rstrip_newline lines) ≡ length lines
  length-map_lines [] = refl
  length-map_lines (line ∷ lines) = ap suc (length-map_lines lines)

  length-bounded_lines : (content : Text) → length (bounded_lines content).0 ≤ 50000
  unfolding bounded_lines
  length-bounded_lines content =
      let all_lines = lines_of (take max_input_characters content) in
      let few : length (map rstrip_newline (take max_source_lines all_lines)) ≤ 50000 = omega (
        arith,
        length-map_lines (take max_source_lines all_lines),
        length-take-le max_source_lines all_lines,
      ) in
      elim (Bool-cases (
        not (is_empty (take max_input_characters content))
        && is_empty (map rstrip_newline (take max_source_lines all_lines)))) [
          | inl c ↦ rw c (omega arith)
          | inr c ↦ rw c few
        ]

  -- For every request, what the reader of indented text returns has at most 20000 nodes, each of
  -- depth at most 64 and with as many ancestors in its path as its depth, from ranges of lines that
  -- do not overlap, in increasing order between 1 and 50000; each node is a root or hangs under an
  -- earlier node, one level deeper.
  pub indented-IsTree :
      (request : StructuralParseRequest)
      → IsTree 64 20000 50001 (parse_indentation_cli identify request)
  unfolding parse_indentation_cli
  indented-IsTree request =
      let (lines, content_truncated) = bounded_lines request.content in
      build-reading identify 64 20000 _ 50001 _ (
        read_from-Reading 0 1 50001 lines _ (request.input_truncated || content_truncated)
          (omega arith) (omega (arith, length-bounded_lines request.content))
          (note_if-Reading 1 _ _ _ _ _ _ (
            note_if-Reading 1 _ _ _ _ _ _
              (start-IsReading identify 64 20000 (codes "indentation_cli.v1") request.source))))
