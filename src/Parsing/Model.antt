-- ===== src/Parsing/Model.antt =====
-- The structural representation (backend/app/parsing/models.py).
use security_configuration_a.Base.{ℕ, Bool, Option, none, some, List, [], ◌∷◌, Text, if◌then◌else◌}
use security_configuration_a.Base.Str.{text_eq}

pub data ConfigNodeKind : Type 0 where
  statement comment opaque : ConfigNodeKind

pub data ParseStatus : Type 0 where
  parsed opaque partial unresolved : ParseStatus

pub data DiagnosticSeverity : Type 0 where
  warning error : DiagnosticSeverity

pub record ArtifactProvenance : Type 0 where
  pub artifact_id : ℕ
  pub organization_id : ℕ
  pub snapshot_id : Option ℕ
  pub source_label : Text
  pub sha256 : Text
  pub source_metadata : List (Text × Text)

pub record ParseDiagnostic : Type 0 where
  pub code : Text
  pub message : Text
  pub severity : DiagnosticSeverity
  pub source_start : Option ℕ
  pub source_end : Option ℕ

pub record ConfigNode : Type 0 where
  pub node_id : Text
  pub artifact_id : ℕ
  pub source_label : Text
  pub raw_text : Text
  pub command : Option Text
  pub arguments : List Text
  pub parent_id : Option Text
  pub children : List Text
  pub depth : ℕ
  pub order : ℕ
  pub context_path : List Text
  pub source_start : ℕ
  pub source_end : ℕ
  pub negated : Bool
  pub inactive : Bool
  pub comments : List Text
  pub kind : ConfigNodeKind
  pub parse_status : ParseStatus

pub record StructuralIr : Type 0 where
  pub reader_id : Text
  pub source : ArtifactProvenance
  pub nodes : List ConfigNode
  pub root_node_ids : List Text
  pub diagnostics : List ParseDiagnostic
  pub truncated : Bool

-- `none` stands for `KeyError`.
unfoldable pub node_of : Text → List ConfigNode → Option ConfigNode
node_of node_id [] = none
node_of node_id (item ∷ items) =
    if text_eq item.node_id node_id then some item else node_of node_id items

pub record StructuralParseRequest : Type 0 where
  pub content : Text
  pub source : ArtifactProvenance
  pub input_truncated : Bool
