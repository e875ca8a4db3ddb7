-- ===== src/Parsing/Examples.antt =====
-- Runs of the readers (backend/app/parsing/readers) on small texts.
use security_configuration_a.Base.{
  ℕ, ◌≡◌, refl, false, none, some, List, [], ◌∷◌, Option, Text, codes, map,
}
use security_configuration_a.Parsing.Model.{
  StructuralIr, StructuralParseRequest, ArtifactProvenance, ConfigNode,
}
use security_configuration_a.Base.Str.{
  strip, is_space, starts_with, text_eq, lower, lower_code, lstrip, rstrip, contains, mem_text,
}
use security_configuration_a.Parsing.Tokenizer.{words, tokenize_statement, measure_indentation}
use security_configuration_a.Parsing.Builder.{
  NodeIdentity, new_builder, add_node, build, node_limit_reached, reset_context, add_diagnostic,
}
use security_configuration_a.Parsing.Lines.{lines_of, rstrip_newline}
use security_configuration_a.Parsing.Readers.Scan
use security_configuration_a.Parsing.Builder.Trees.{IsTree}
use security_configuration_a.Parsing.Readers.Fortios.{parse_fortios_cli}
use security_configuration_a.Parsing.Readers.Fortios.Tree.{fortios-IsTree}
use security_configuration_a.Parsing.Readers.Indentation
use security_configuration_a.Parsing.Readers.Indentation.{parse_indentation_cli}
use security_configuration_a.Parsing.Readers.Indentation.Tree.{indented-IsTree}

abbrev source : ArtifactProvenance
source = record {
  artifact_id = 7;
  organization_id = 1;
  snapshot_id = some 3;
  source_label = codes "running-config";
  sha256 = codes "00";
  source_metadata = [];
}

-- Identifiers by order, in place of hashes.
abbrev identify : NodeIdentity → Text
identify i = i.order ∷ []

abbrev request_of : Text → StructuralParseRequest
request_of content = record { content = content; source = source; input_truncated = false }

abbrev fortios_text : Text
fortios_text =
    codes "config system interface\n edit port1\n  set allowaccess ssh\n  unset alias\n next\nend\n"

abbrev ios_text : Text
ios_text =
    codes
      "!\nline vty 0 4\n transport input ssh\n exec-timeout 5 0\nbanner motd ^C\nhello\n^C\nend\n"

abbrev places : StructuralIr → List (Option Text × ℕ × ℕ)
places ir = map (λ (n : ConfigNode). (n.parent_id, n.source_start, n.source_end)) ir.nodes

fortios_runs :
    places (parse_fortios_cli identify (request_of fortios_text))
    ≡ (none, 1, 1)
      ∷ (some (1 ∷ []), 2, 2)
      ∷ (some (2 ∷ []), 3, 3)
      ∷ (some (2 ∷ []), 4, 4)
      ∷ (some (1 ∷ []), 5, 5)
      ∷ (none, 6, 6)
      ∷ []
unfolding parse_fortios_cli build lines_of strip rstrip_newline is_space starts_with
    tokenize_statement text_eq add_node new_builder
fortios_runs = refl

ios_runs :
    places (parse_indentation_cli identify (request_of ios_text))
    ≡ (none, 1, 1)
      ∷ (none, 2, 2)
      ∷ (some (2 ∷ []), 3, 3)
      ∷ (some (2 ∷ []), 4, 4)
      ∷ (none, 5, 7)
      ∷ (none, 8, 8)
      ∷ []
unfolding parse_indentation_cli build lines_of node_limit_reached Indentation.note_if new_builder
    strip rstrip_newline is_space starts_with add_node reset_context Indentation.is_banner words
    lower text_eq Indentation.is_certificate_chain measure_indentation lower_code lstrip rstrip
    add_diagnostic tokenize_statement contains Scan.after_word Scan.join_lines Scan.scan_banner
    mem_text
ios_runs = refl

fortios-IsTree_example :
    IsTree 16 20000 50001 (parse_fortios_cli identify (request_of fortios_text))
fortios-IsTree_example = fortios-IsTree identify (request_of fortios_text)

indented-IsTree_example :
    IsTree 64 20000 50001 (parse_indentation_cli identify (request_of ios_text))
indented-IsTree_example = indented-IsTree identify (request_of ios_text)
