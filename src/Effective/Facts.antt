-- ===== src/Effective/Facts.antt =====
-- Facts and their classification (backend/app/effective_state/resolver.py, `_classify`). An
-- identifier of an artifact is a text. Of the columns of a fact, those that the resolver reads.
use security_configuration_a.Base.{
  ℕ, suc, true, not, ◌&&◌, Option, none, some, List, [], ◌∷◌, Text, codes, if◌then◌else◌, leb,
}
use security_configuration_a.Base.Str.{text_eq}
use security_configuration_a.Base.Json.{
  Json, json_list, json_dict, json_str, json_int, json_bool, pos, Fields, item, get, items,
}
use security_configuration_a.Base.Result.{Result, ok, raised, ◌>>=◌, ◌>>◌, refuse_if, or_refuse}
use security_configuration_a.Effective.Values.{TypedValue, typed_value_from_dict, type_eq, null}
use security_configuration_a.Effective.Scopes.{ScopeRef, scope_from_dict}
use security_configuration_a.Effective.Policy.{
  FactOperation, reset, remove, MappingOperationPolicy, get_mapping_operation_policy, operation_eq,
}

pub record SecurityFact : Type 0 where
  pub fact_id : ℕ
  pub field_id : Text
  pub value : Json
  pub scope : Json
  pub evidence_refs : Json
  pub mapping_version_id : Option ℕ
  pub knowledge_pack_version_id : ℕ
  pub dependencies : List (Option ℕ)  -- `none` is a text that is no UUID

pub record ClassifiedFact : Type 0 where
  pub fact : SecurityFact
  pub scope : ScopeRef
  pub value : TypedValue
  pub operation : FactOperation
  pub artifact_id : Text
  pub source_line : ℕ

-- `isinstance(value, int) and value >= 1`, where `True` is 1
abbrev position : Option Json → Option ℕ
position (some (json_int (pos (suc n)))) = some (suc n)
position (some (json_bool true)) = some 1
position _ = none

first_position : Option ℕ → Option ℕ → Result ℕ
first_position (some n) other = ok n
first_position none (some n) = ok n
first_position none none = raised (codes "SecurityFact ordering provenance is malformed")

-- `positions`, over the references that are objects
positions : List Json → Result (List ℕ)
unfolding first_position
positions [] = ok []
positions (json_dict d ∷ refs) = do
  n ←
      first_position (position (get (codes "start_line") d))
        (position (get (codes "structured_order") d))
  ns ← positions refs
  ok (n ∷ ns)
positions (_ ∷ refs) = positions refs

artifact_of : Fields → Option Text
artifact_of d = elim (get (codes "artifact_id") d) [
  | none ↦ none
  | some j ↦ elim j [ json_str s ↦ some s | _ ↦ none ]
]

artifact_ids : List Json → List (Option Text)
unfolding artifact_of
artifact_ids [] = []
artifact_ids (json_dict d ∷ refs) = artifact_of d ∷ artifact_ids refs
artifact_ids (_ ∷ refs) = artifact_ids refs

-- The one identifier that all references give.
common : Text → List (Option Text) → Option Text
common s [] = some s
common s (none ∷ rest) = none
common s (some t ∷ rest) = if text_eq s t then common s rest else none

single_artifact : List (Option Text) → Option Text
unfolding common
single_artifact [] = none
single_artifact (none ∷ rest) = none
single_artifact (some s ∷ rest) = common s rest

abbrev smaller : ℕ → ℕ → ℕ
smaller a b = if leb a b then a else b

-- `min(positions)`
least : List ℕ → Option ℕ
least [] = none
least (n ∷ ns) = elim (least ns) [ none ↦ some n | some m ↦ some (smaller n m) ]

references : Json → Result (List Json)
references (json_list (item j js)) = ok (j ∷ items js)
references _ = raised (codes "SecurityFact ordering provenance is missing")

operation_of :
    List MappingOperationPolicy → SecurityFact → Option FactOperation → Result FactOperation
operation_of policies fact (some operation) = ok operation
operation_of policies fact none = do
  policy ←
      get_mapping_operation_policy policies fact.knowledge_pack_version_id fact.mapping_version_id
        fact.field_id
  ok policy.operation

unfoldable pub classify :
    List MappingOperationPolicy → SecurityFact → Option FactOperation → Result ClassifiedFact
unfolding positions artifact_ids single_artifact least references operation_of
classify policies fact persisted_operation = do
  scope ← scope_from_dict fact.scope
  value ← typed_value_from_dict fact.value
  operation ← operation_of policies fact persisted_operation
  refs ← references fact.evidence_refs
  lines ← positions refs
  artifact_id ←
      or_refuse (single_artifact (artifact_ids refs))
        "SecurityFact ordering provenance is malformed"
  source_line ← or_refuse (least lines) "SecurityFact ordering provenance is malformed"
  refuse_if (operation_eq operation reset && not (type_eq value.type null))
      "SecurityFact reset value is malformed"
  refuse_if (operation_eq operation remove && type_eq value.type null)
      "SecurityFact removal value is malformed"
  ok (record {
    fact = fact;
    scope = scope;
    value = value;
    operation = operation;
    artifact_id = artifact_id;
    source_line = source_line;
  })
