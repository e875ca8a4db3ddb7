-- ===== src/Compliance/Findings.antt =====
-- Drafts of findings and the rows that they are made from (backend/app/compliance/models.py,
-- service.py, backend/app/db/models). The columns that nothing here reads are left out; the scope of a
-- state is its three entries. An explanation is a constructor with the values that its text shows.
-- The hash that makes an identifier (`uuid5`) is a parameter, `finding_id`, of the audit, the rule and
-- the key of the scope.
use security_configuration_a.Base.{
  ℕ, Bool, true, false, Option, none, some, List, ◌++◌, Text, codes, ◌==◌, ◌||◌,
}
use security_configuration_a.Base.Json.{Json, json_null, Fields, end, field, get}
use security_configuration_a.Base.Result.{Result, ok, raised, ◌>>=◌, ◌>>◌, refuse_if, or_refuse}
use security_configuration_a.Effective.Drafts.{UnresolvedReason, ResolutionStatus}
use security_configuration_a.Effective.Scopes.{ScopeRef}
use security_configuration_a.Compliance.Evaluator.{
  FindingVerdict, pass, fail, unknown, manual_review, not_applicable, process_error, value_or_null,
}
use security_configuration_a.Compliance.Rules.{RuleDefinition, RulePack, FindingSeverity, is_blank}

pub data AuditStatus : Type 0 where
  draft queued processing completed completed_with_unknowns completed_with_errors failed :
      AuditStatus

pub record Audit : Type 0 where
  pub audit_id : ℕ
  pub organization_id : ℕ
  pub device_id : ℕ
  pub status : AuditStatus
  pub profile_resolution : Fields

pub record EffectiveState : Type 0 where
  pub effective_state_id : ℕ
  pub audit_id : ℕ
  pub device_id : ℕ
  pub field_id : Text
  pub scope : ScopeRef
  pub scope_key : Text
  pub effective_value : Option Fields
  pub resolution_status : ResolutionStatus
  pub unresolved_reason : Option UnresolvedReason
  pub source_fact_ids : List ℕ

pub record SecurityFactRow : Type 0 where
  pub fact_id : ℕ
  pub audit_id : ℕ
  pub evidence_refs : List Json

pub record UnresolvedBlock : Type 0 where
  pub unresolved_block_id : ℕ
  pub audit_id : ℕ
  pub affected_rule_ids : List Text
  pub candidate_field_ids : List Text
  pub profile_version_id : Option Text
  pub source_ir_node_ids : List Text
  pub evidence_refs : List Json

pub data Explanation : Type 0 where
  state_unresolved_because : UnresolvedReason → Explanation
  policy_parameter_unavailable baseline_does_not_apply state_not_validated : Explanation
  observed_value : Json → (operator : Json) → (satisfied : Bool) → Explanation

pub record FindingDraft : Type 0 where
  pub finding_id : ℕ
  pub audit_id : ℕ
  pub device_id : ℕ
  pub comparison_key : Text
  pub rule_id : Text
  pub rule_pack_version_id : ℕ
  pub title : Text
  pub security_domain : Text
  pub verdict : FindingVerdict
  pub severity : FindingSeverity
  pub expected_state : Option Fields
  pub observed_state : Option Fields
  pub explanation : Explanation
  pub affected_scope : Option ScopeRef
  pub effective_state_refs : List ℕ
  pub evidence_refs : List Fields
  pub unknown_reason : Option UnresolvedReason
  pub framework_references : List Json

-- `canonical_scope_key` of compliance/models.py
unfoldable pub finding_scope_key : Option ScopeRef → Text
finding_scope_key none = codes "unscoped::rule"
finding_scope_key (some scope) = scope.type ++ codes "::" ++ scope.key

unfoldable pub finding_comparison_key : Text → Option ScopeRef → Result Text
unfolding finding_scope_key
finding_comparison_key rule_id scope = do
  refuse_if (is_blank rule_id) "Finding comparison key is malformed"
  ok (rule_id ++ codes "::" ++ finding_scope_key scope)

-- `observed.get("value")`
observed_json : Option Fields → Json
observed_json none = json_null
observed_json (some observed) = value_or_null (get (codes "value") observed)

-- `reason.value` has no value to read without a reason.
reason_given : Option UnresolvedReason → Result Explanation
reason_given none = raised (codes "AttributeError: 'NoneType' object has no attribute 'value'")
reason_given (some reason) = ok (state_unresolved_because reason)

-- `_explanation`
unfoldable pub explain :
    FindingVerdict → RuleDefinition → Option Fields → Option UnresolvedReason → Result Explanation
unfolding reason_given observed_json
explain unknown rule observed reason = reason_given reason
explain manual_review rule observed reason = ok policy_parameter_unavailable
explain not_applicable rule observed reason = ok baseline_does_not_apply
explain process_error rule observed reason = ok state_not_validated
explain pass rule observed reason = do
  operator ← or_refuse (get (codes "operator") rule.condition) "KeyError: 'operator'"
  ok (observed_value (observed_json observed) operator true)
explain fail rule observed reason = do
  operator ← or_refuse (get (codes "operator") rule.condition) "KeyError: 'operator'"
  ok (observed_value (observed_json observed) operator false)

lower_bound : Option Json → Fields
lower_bound none = end
lower_bound (some minimum) = field (codes "minimum_exclusive") minimum end

-- `_expected`, after the operator was read; `none` is a condition without "expected".
expected_entries : Json → Option Json → Json → Json → Fields → Fields
expected_entries operator (some expected) named parameter bound =
    field (codes "operator") operator (field (codes "value") expected bound)
expected_entries operator none named json_null bound = field (codes "operator") operator bound
expected_entries operator none named parameter bound =
    field (codes "operator") operator
      (field (codes "parameter") named (field (codes "value") parameter bound))

-- `_expected`, where the parameter `None` is null
unfoldable pub expected_of : RuleDefinition → Json → Result Fields
unfolding expected_entries lower_bound
expected_of rule parameter = do
  operator ← or_refuse (get (codes "operator") rule.condition) "KeyError: 'operator'"
  ok (
      expected_entries operator (get (codes "expected") rule.condition)
        (value_or_null (get (codes "parameter") rule.condition)) parameter
        (lower_bound (get (codes "minimum_exclusive") rule.condition)))

-- What the calls of `_draft` give by keyword.
pub record Outcome : Type 0 where
  pub verdict : FindingVerdict
  pub scope : Option ScopeRef
  pub states : List ℕ
  pub observed : Option Fields
  pub expected : Option Fields
  pub reason : Option UnresolvedReason
  pub evidence_refs : List Fields

abbrev pub finding_of :
    RuleDefinition → RulePack → Audit → Outcome → ℕ → Text → Explanation → FindingDraft
finding_of rule pack audit o id key explanation = record {
  finding_id = id;
  audit_id = audit.audit_id;
  device_id = audit.device_id;
  comparison_key = key;
  rule_id = rule.rule_id;
  rule_pack_version_id = pack.rule_pack_version_id;
  title = rule.title;
  security_domain = rule.security_domain;
  verdict = o.verdict;
  severity = rule.severity;
  expected_state = o.expected;
  observed_state = o.observed;
  explanation = explanation;
  affected_scope = o.scope;
  effective_state_refs = o.states;
  evidence_refs = o.evidence_refs;
  unknown_reason = o.reason;
  framework_references = rule.framework_references;
}

module _ (finding_id : ℕ → Text → Text → ℕ) where
  unfoldable pub deterministic_finding_id : ℕ → Text → Option ScopeRef → Result ℕ
  unfolding finding_scope_key
  deterministic_finding_id audit_id rule_id scope = do
    refuse_if (audit_id == 0 || is_blank rule_id) "Finding identity is malformed"
    ok (finding_id audit_id rule_id (finding_scope_key scope))

  -- `_draft`
  unfoldable pub draft_finding : RuleDefinition → RulePack → Audit → Outcome → Result FindingDraft
  unfolding deterministic_finding_id
  draft_finding rule pack audit o = do
    id ← deterministic_finding_id audit.audit_id rule.rule_id o.scope
    key ← finding_comparison_key rule.rule_id o.scope
    explanation ← explain o.verdict rule o.observed o.reason
    ok (finding_of rule pack audit o id key explanation)
