-- ===== src/Effective/Policy.antt =====
-- Policies of fields and of mappings (backend/app/effective_state/policy.py). The registry of mapping
-- policies, which the knowledge packs fill, is an argument.
use security_configuration_a.Base.{
  ℕ, Bool, true, false, not, ◌&&◌, Option, none, some, List, [], ◌∷◌, Text, codes, if◌then◌else◌,
  ◌==◌,
}
use security_configuration_a.Base.Str.{text_eq}
use security_configuration_a.Base.Result.{Result, ok, raised, ◌>>=◌, ◌>>◌, refuse_if, or_refuse}
use security_configuration_a.Effective.Fields.{CanonicalField, field_named, fields}

pub data FieldCardinality : Type 0 where
  scalar repeatable : FieldCardinality

pub data FactOperation : Type 0 where
  assign reset remove : FactOperation

pub record FieldResolutionPolicy : Type 0 where
  pub field_id : Text
  pub cardinality : FieldCardinality
  pub legal_scope_types : List Text
  pub precedence_categories : List Text
  pub inheritance_scope_types : List Text

pub record MappingOperationPolicy : Type 0 where
  pub knowledge_pack_version_id : ℕ
  pub mapping_version_id : ℕ
  pub field_id : Text
  pub operation : FactOperation

-- An entry of `FIELD_POLICIES`.
policy_of : CanonicalField → FieldResolutionPolicy
policy_of field = record {
  field_id = field.field_id;
  cardinality = if field.repeatable then repeatable else scalar;
  legal_scope_types = field.allowed_scope_types;
  precedence_categories = codes "same_artifact_source_order" ∷ [];
  inheritance_scope_types = [];
}

unfoldable pub get_field_policy : Text → Result FieldResolutionPolicy
unfolding policy_of
get_field_policy field_id = elim (field_named field_id fields) [
  | none ↦ raised (codes "EffectiveState field policy is unavailable")
  | some field ↦ ok (policy_of field)
]

mapping_policy_at : ℕ → ℕ → List MappingOperationPolicy → Option MappingOperationPolicy
mapping_policy_at pack mapping [] = none
mapping_policy_at pack mapping (policy ∷ policies) =
    if policy.knowledge_pack_version_id == pack && policy.mapping_version_id == mapping
    then some policy
    else mapping_policy_at pack mapping policies

unfoldable pub get_mapping_operation_policy :
    List MappingOperationPolicy → ℕ → Option ℕ → Text → Result MappingOperationPolicy
unfolding mapping_policy_at
get_mapping_operation_policy policies pack none field_id =
    raised (codes "SecurityFact mapping provenance is missing")
get_mapping_operation_policy policies pack (some mapping) field_id = do
  policy ←
      or_refuse (mapping_policy_at pack mapping policies)
        "SecurityFact mapping provenance is incompatible"
  refuse_if (not (text_eq policy.field_id field_id))
      "SecurityFact mapping provenance is incompatible"
  ok policy

unfoldable pub operation_eq : FactOperation → FactOperation → Bool
operation_eq assign assign = true
operation_eq reset reset = true
operation_eq remove remove = true
operation_eq _ _ = false
