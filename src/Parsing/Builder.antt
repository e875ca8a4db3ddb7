-- ===== src/Parsing/Builder.antt =====
-- The builder of the structural tree (backend/app/parsing/ir_builder.py). Drafts are shared between
-- the list of nodes and the stack; of a draft on the stack only fields that never change are read, so
-- the stack holds copies, and a child is added to the draft in the list. `_nodes_by_id` is written
-- and never read, and is left out. The hash of a node's identity is a parameter, `identify`.
pub mod Placing
pub mod Bounds
pub mod Links
pub mod Forest
pub mod Spans
pub mod Trees
pub mod Reading
use security_configuration_a.Base.{
  ℕ, ◌+◌, ◌≡◌, ◌≢◌, ◌≤◌, ◌<◌, refl, ap, ◌∙◌, Bool, true, false, not, ◌&&◌, ◌||◌, Option, none, some,
  List, [], ◌∷◌, ◌++◌, arith, ◌==◌, if◌then◌else◌, Text, codes, All, any, all, keep, Bool-cases,
  inl, inr, leb, ltb, length, map, is_empty,
}
use security_configuration_a.Parsing.Model.{
  ConfigNode, ConfigNodeKind, ParseStatus, DiagnosticSeverity, ArtifactProvenance, ParseDiagnostic,
  StructuralIr, partial, warning,
}

pub record NodeDraft : Type 0 where
  pub node_id : Text
  pub raw_text : Text
  pub command : Option Text
  pub arguments : List Text
  pub parent_id : Option Text
  pub children : List Text
  pub depth : ℕ
  pub order : ℕ
  pub context_path : List Text
  pub source_start : ℕ
  pub source_end : ℕ
  pub negated : Bool
  pub inactive : Bool
  pub comments : List Text
  pub kind : ConfigNodeKind
  pub parse_status : ParseStatus
  pub indent : ℕ

pub record IrBuilder : Type 0 where
  pub reader_id : Text
  pub source : ArtifactProvenance
  pub max_depth : ℕ
  pub max_nodes : ℕ
  pub diagnostics : List ParseDiagnostic
  pub nodes : List NodeDraft
  pub roots : List Text
  pub stack : List NodeDraft  -- its top comes first

-- What `_node_id` hashes.
pub record NodeIdentity : Type 0 where
  pub artifact_id : ℕ
  pub reader_id : Text
  pub source_start : ℕ
  pub source_end : ℕ
  pub order : ℕ
  pub parent_id : Option Text
  pub raw_text : Text

-- The arguments of `add_node`.
pub record NodeArgs : Type 0 where
  pub raw_text : Text
  pub command : Option Text
  pub arguments : List Text
  pub indent : ℕ
  pub source_start : ℕ
  pub source_end : ℕ
  pub negated : Bool
  pub kind : ConfigNodeKind
  pub parse_status : ParseStatus
  pub comments : List Text
  pub force_root : Bool
  pub can_parent : Bool

unfoldable pub new_builder : Text → ArtifactProvenance → (max_depth max_nodes : ℕ) → IrBuilder
new_builder reader_id source max_depth max_nodes = record {
  reader_id = reader_id;
  source = source;
  max_depth = max_depth;
  max_nodes = max_nodes;
  diagnostics = [];
  nodes = [];
  roots = [];
  stack = [];
}

unfoldable pub node_limit_reached : IrBuilder → Bool
node_limit_reached b = leb b.max_nodes (length b.nodes)

unfoldable pub add_diagnostic : Text → Text → Option ℕ → Option ℕ → IrBuilder → IrBuilder
add_diagnostic code message source_start source_end b = record b {
  diagnostics =
      b.diagnostics
      ++ record {
        code = code;
        message = message;
        severity = warning;
        source_start = source_start;
        source_end = source_end;
      }
        ∷ [];
}

unfoldable pub reset_context : IrBuilder → IrBuilder
reset_context b = record b { stack = [] }

abbrev pub head : List NodeDraft → Option NodeDraft
head [] = none
head (d ∷ ds) = some d

-- `while stack and test(stack[-1]): stack.pop()`
unfoldable pub pop_while : (NodeDraft → Bool) → List NodeDraft → List NodeDraft
pop_while test [] = []
pop_while test (d ∷ ds) = let rest = pop_while test ds in if test d then rest else d ∷ ds

-- Where a node goes: the stack that is left, whose top is the parent, the status, the diagnostics.
pub record Placement : Type 0 where
  pub stack : List NodeDraft
  pub status : ParseStatus
  pub diagnostics : List ParseDiagnostic

note : Text → Text → NodeArgs → List ParseDiagnostic → List ParseDiagnostic
note code message args ds =
    ds
    ++ record {
      code = code;
      message = message;
      severity = warning;
      source_start = some args.source_start;
      source_end = some args.source_end;
    }
      ∷ []

abbrev unmatched_dedent : ℕ → List NodeDraft → Bool
unmatched_dedent indent [] = false
unmatched_dedent indent (d ∷ ds) =
    ltb indent d.indent && all (λ item. not (item.indent == indent)) (d ∷ ds)

noted : Bool → Text → Text → NodeArgs → Placement → Placement
unfolding note
noted true code message args p = record p {
  status = partial;
  diagnostics = note code message args p.diagnostics;
}
noted false code message args p = p

pub place_context : NodeArgs → List NodeDraft → List ParseDiagnostic → Placement
unfolding noted pop_while
place_context args stack diagnostics =
    if args.force_root || args.indent == 0
    then record { stack = []; status = args.parse_status; diagnostics = diagnostics }
    else (let left = pop_while (λ d. leb args.indent d.indent) stack in
        noted (is_empty left) (codes "orphan_indentation")
          (codes "Indented statement has no observable parent context") args
          (noted (unmatched_dedent args.indent stack) (codes "inconsistent_dedent")
            (codes "Dedent did not match an observed structural indentation level") args
            (record { stack = left; status = args.parse_status; diagnostics = diagnostics })))

abbrev too_deep : ℕ → Option NodeDraft → Bool
too_deep max_depth none = false
too_deep max_depth (some parent) = leb max_depth parent.depth

pub place_depth : ℕ → NodeArgs → Placement → Placement
unfolding noted pop_while
place_depth max_depth args p =
    if too_deep max_depth (head p.stack)
    then noted true (codes "maximum_depth_reached") (codes "Structural depth was bounded") args
        (record p { stack = pop_while (λ d. leb max_depth d.depth) p.stack })
    else p

abbrev parent_id_of : Option NodeDraft → Option Text
parent_id_of none = none
parent_id_of (some parent) = some parent.node_id

abbrev depth_under : Option NodeDraft → ℕ
depth_under none = 0
depth_under (some parent) = parent.depth + 1

abbrev path_under : Option NodeDraft → List Text
path_under none = []
path_under (some parent) = parent.context_path ++ parent.node_id ∷ []

-- `parent.children.append(node_id)`: the draft is found by its place in the list.
unfoldable pub append_child : ℕ → Text → List NodeDraft → List NodeDraft
append_child order node_id [] = []
append_child order node_id (d ∷ ds) =
    (if d.order == order then record d { children = d.children ++ node_id ∷ [] } else d)
    ∷ append_child order node_id ds

-- The node joins its parent, or the roots.
pub link : Option NodeDraft → NodeDraft → IrBuilder → IrBuilder
unfolding append_child
link none d b = record b { nodes = b.nodes ++ d ∷ []; roots = b.roots ++ d.node_id ∷ [] }
link (some parent) d b = record b {
  nodes = append_child parent.order d.node_id (b.nodes ++ d ∷ []);
}

module _ (identify : NodeIdentity → Text) where
  pub make_draft : NodeArgs → Placement → IrBuilder → NodeDraft
  make_draft args p b =
      let parent = head p.stack in
      let order = length b.nodes + 1 in
      record {
        node_id = identify (record {
          artifact_id = b.source.artifact_id;
          reader_id = b.reader_id;
          source_start = args.source_start;
          source_end = args.source_end;
          order = order;
          parent_id = parent_id_of parent;
          raw_text = args.raw_text;
        });
        raw_text = args.raw_text;
        command = args.command;
        arguments = args.arguments;
        parent_id = parent_id_of parent;
        children = [];
        depth = depth_under parent;
        order = order;
        context_path = path_under parent;
        source_start = args.source_start;
        source_end = args.source_end;
        negated = args.negated;
        inactive = false;
        comments = args.comments;
        kind = args.kind;
        parse_status = p.status;
        indent = args.indent;
      }

  pub attach : NodeArgs → Placement → IrBuilder → IrBuilder
  unfolding make_draft link
  attach args p b =
      let d = make_draft args p b in
      let linked = link (head p.stack) d (record b { diagnostics = p.diagnostics }) in
      record linked { stack = if args.can_parent then d ∷ p.stack else p.stack }

  -- The identifier that `add_node` returns is used by no reader.
  unfoldable pub add_node : NodeArgs → IrBuilder → IrBuilder
  unfolding attach place_depth place_context node_limit_reached
  add_node args b =
      if node_limit_reached b
      then b
      else attach args (place_depth b.max_depth args (place_context args b.stack b.diagnostics)) b

node_of_draft : ArtifactProvenance → NodeDraft → ConfigNode
node_of_draft source item = record {
  node_id = item.node_id;
  artifact_id = source.artifact_id;
  source_label = source.source_label;
  raw_text = item.raw_text;
  command = item.command;
  arguments = item.arguments;
  parent_id = item.parent_id;
  children = item.children;
  depth = item.depth;
  order = item.order;
  context_path = item.context_path;
  source_start = item.source_start;
  source_end = item.source_end;
  negated = item.negated;
  inactive = item.inactive;
  comments = item.comments;
  kind = item.kind;
  parse_status = item.parse_status;
}

unfoldable pub build : Bool → IrBuilder → StructuralIr
unfolding node_of_draft
build truncated b = record {
  reader_id = b.reader_id;
  source = b.source;
  nodes = map (node_of_draft b.source) b.nodes;
  root_node_ids = b.roots;
  diagnostics = b.diagnostics;
  truncated = truncated;
}
