-- ===== src/Effective/Drafts.antt =====
-- Drafts of effective states (backend/app/effective_state/models.py, contracts.py). The time of
-- creation is left out. The hash that makes an identifier (`uuid5`) is a parameter, `state_id`, of the
-- audit, the field and the key of the scope. A metadata entry is a constructor with its values, and
-- so always what `_validate_json_collection` accepts.
pub mod Settled
use security_configuration_a.Base.{
  ℕ, ◌≡◌, ◌≢◌, refl, Bool, true, false, not, ◌&&◌, ◌||◌, Option, none, some, List, [], ◌∷◌, Text,
  codes, if◌then◌else◌, ◌==◌, is_empty, any, is_some,
}
use security_configuration_a.Base.Str.{strip}
use security_configuration_a.Base.Json.{Json, json_list, json_str, json_dict, end, items}
use security_configuration_a.Base.Result.{Result, ok, raised, ◌>>=◌, ◌>>◌, refuse_if, map_result}
use security_configuration_a.Effective.Values.{
  TypedValue, TypedValueType, typed_value_from_dict, type_eq, list,
}
use security_configuration_a.Effective.Scopes.{ScopeRef, canonical_scope_key, validate_scope}
use security_configuration_a.Effective.Fields.{validate_field_value_scope}

pub data ResolutionStatus : Type 0 where
  resolved unknown conflicting : ResolutionStatus

pub data UnresolvedReason : Type 0 where
  unknown_syntax unknown_semantics missing_evidence unsupported_feature : UnresolvedReason
  ambiguous_scope unresolved_default conflicting_evidence : UnresolvedReason
  unsupported_version unsupported_profile : UnresolvedReason

pub data TraceEntry : Type 0 where
  input_fact : ℕ → Text → TraceEntry
  dependency_missing default_missing explicit_selected : ℕ → TraceEntry
  collection_member_added collection_member_removed : ℕ → TraceEntry
  duplicate_collapsed : List ℕ → TraceEntry
  conflict_detected unresolved : TraceEntry

pub data Precedence : Type 0 where
  same_artifact_source_order : (winner_fact_id : ℕ) → Precedence

pub record EffectiveStateDraft : Type 0 where
  pub effective_state_id : ℕ
  pub audit_id : ℕ
  pub device_id : ℕ
  pub field_id : Text
  pub scope : ScopeRef
  pub effective_value : Option TypedValue
  pub resolution_status : ResolutionStatus
  pub source_fact_ids : List ℕ
  pub resolution_trace : List TraceEntry
  pub inherited_from : Option ScopeRef
  pub default_reference : Option Text
  pub referenced_objects : List TraceEntry
  pub precedence_applied : List Precedence
  pub unresolved_reason : Option UnresolvedReason
  pub schema_version : Text

abbrev is_conflict : Option UnresolvedReason → Bool
is_conflict (some conflicting_evidence) = true
is_conflict _ = false

abbrev has_duplicate : List ℕ → Bool
has_duplicate [] = false
has_duplicate (x ∷ xs) = any (λ y. x == y) xs || has_duplicate xs

-- The chain on the status.
validate_status : ResolutionStatus → Option TypedValue → Option UnresolvedReason → Result (Unit {0})
validate_status resolved value reason =
    refuse_if (not (is_some value) || is_some reason) "Resolved EffectiveState requires a value"
validate_status unknown value reason =
    refuse_if (is_some value || not (is_some reason) || is_conflict reason)
      "Unknown EffectiveState requires an unknown reason"
validate_status conflicting value reason =
    refuse_if (is_some value || not (is_conflict reason))
      "Conflicting EffectiveState requires conflict reason"

-- `except ValueError`, which an `EffectiveStateValidationError` is not
malformed_value : {A : Type 0} → Result A → Result (Unit {0})
malformed_value (ok a) = ok tt
malformed_value (raised e) = raised (codes "EffectiveState value is malformed")

member_fits : Text → ScopeRef → Json → Result (Unit {0})
unfolding malformed_value
member_fits field_id scope member = do
  v ← typed_value_from_dict member
  malformed_value (validate_field_value_scope field_id v scope)

-- The members of a collection are validated one by one.
validate_members : Text → ScopeRef → Json → Result (Unit {0})
unfolding member_fits
validate_members field_id scope (json_list js) =
    map_result (member_fits field_id scope) (items js) >>= λ _. ok tt
validate_members field_id scope (json_str []) = ok tt
validate_members field_id scope (json_dict end) = ok tt
validate_members field_id scope _ = raised (codes "EffectiveState value is malformed")

validate_value : Text → ScopeRef → Option TypedValue → Result (Unit {0})
unfolding validate_members malformed_value
validate_value field_id scope none = ok tt
validate_value field_id scope (some value) =
    if type_eq value.type list
    then validate_members field_id scope value.value
    else malformed_value (validate_field_value_scope field_id value scope)

validate_inherited : Option ScopeRef → Result (Unit {0})
validate_inherited none = ok tt
validate_inherited (some scope) = validate_scope scope

abbrev draft_of :
    (audit_id device_id : ℕ)
    → Text
    → ScopeRef
    → Option TypedValue
    → ResolutionStatus
    → List ℕ
    → List TraceEntry
    → List Precedence
    → Option UnresolvedReason
    → ℕ
    → EffectiveStateDraft
draft_of audit_id device_id field_id scope value status source_fact_ids trace precedence reason id =
    record {
      effective_state_id = id;
      audit_id = audit_id;
      device_id = device_id;
      field_id = field_id;
      scope = scope;
      effective_value = value;
      resolution_status = status;
      source_fact_ids = source_fact_ids;
      resolution_trace = trace;
      inherited_from = none;
      default_reference = none;
      referenced_objects = [];
      precedence_applied = precedence;
      unresolved_reason = reason;
      schema_version = codes "1.0.0";
    }

module _ (state_id : ℕ → Text → Text → ℕ) where
  unfoldable pub deterministic_effective_state_id : ℕ → Text → ScopeRef → Result ℕ
  deterministic_effective_state_id audit_id field_id scope = do
    refuse_if (audit_id == 0 || is_empty (strip field_id)) "EffectiveState identity is malformed"
    key ← canonical_scope_key scope
    ok (state_id audit_id field_id key)

  -- The checks before the one on the status.
  validate_parts : EffectiveStateDraft → Result (Unit {0})
  unfolding deterministic_effective_state_id validate_value validate_inherited
  validate_parts draft = do
    refuse_if (draft.audit_id == 0 || draft.device_id == 0 || is_empty (strip draft.field_id))
        "EffectiveState identity is malformed"
    expected_id ← deterministic_effective_state_id draft.audit_id draft.field_id draft.scope
    refuse_if (not (draft.effective_state_id == expected_id))
        "EffectiveState ID is not deterministic"
    validate_scope draft.scope
    validate_inherited draft.inherited_from
    validate_value draft.field_id draft.scope draft.effective_value
    refuse_if (has_duplicate draft.source_fact_ids || any (λ i. i == 0) draft.source_fact_ids)
        "EffectiveState source facts are malformed"

  unfoldable pub validate_effective_state_draft : EffectiveStateDraft → Result (Unit {0})
  unfolding validate_parts validate_status
  validate_effective_state_draft draft = do
    validate_parts draft
    validate_status draft.resolution_status draft.effective_value draft.unresolved_reason
    refuse_if (is_empty (strip draft.schema_version)) "EffectiveState schema version is malformed"

  unfoldable pub make_effective_state_draft :
      (audit_id device_id : ℕ)
      → Text
      → ScopeRef
      → Option TypedValue
      → ResolutionStatus
      → List ℕ
      → List TraceEntry
      → List Precedence
      → Option UnresolvedReason
      → Result EffectiveStateDraft
  unfolding validate_effective_state_draft
  make_effective_state_draft audit_id device_id field_id scope value status source_fact_ids trace
        precedence reason =
      do
        id ← deterministic_effective_state_id audit_id field_id scope
        let draft : EffectiveStateDraft =
            draft_of audit_id device_id field_id scope value status source_fact_ids trace precedence
              reason id
        validate_effective_state_draft draft
        ok draft
