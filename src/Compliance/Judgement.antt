-- ===== src/Compliance/Judgement.antt =====
-- What an audit is judged by, and the judgement of one rule (backend/app/compliance/service.py,
-- applicability.py). An `EvaluationError` is an exception that `evaluate_condition` raises itself,
-- and not the `KeyError` of a condition without a key, or the `TypeError` of a list in a set.
use security_configuration_a.Base.{
  ℕ, Bool, true, false, not, ◌&&◌, Option, none, some, List, [], ◌∷◌, ◌++◌, Text, codes,
  if◌then◌else◌, keep, is_empty, map,
}
use security_configuration_a.Base.Str.{text_eq, mem_text}
use security_configuration_a.Base.Json.{Json, json_null, json_str, Fields, get}
use security_configuration_a.Base.Result.{Result, ok, raised, ◌>>=◌, ◌>>◌, refuse_if, map_result}
use security_configuration_a.Effective.Drafts.{
  UnresolvedReason, missing_evidence, unsupported_feature, conflicting_evidence,
  unsupported_profile, resolved, conflicting,
}
use security_configuration_a.Compliance.Evaluator.{is_evaluation_error}
use security_configuration_a.Compliance.Evaluator.{
  FindingVerdict, pass, unknown, manual_review, not_applicable, process_error, value_or_null,
  evaluate_condition, is_unhashable,
}
use security_configuration_a.Compliance.Rules.{RuleDefinition, RulePack}
use security_configuration_a.Compliance.Policy.{OrganizationPolicyVersion, resolve_parameter}
use security_configuration_a.Compliance.Findings.{
  Audit, EffectiveState, SecurityFactRow, UnresolvedBlock, FindingDraft, Outcome, expected_of,
  draft_finding,
}
use security_configuration_a.Compliance.Evidence.{state_evidence, dictionaries}

pub data Applicability : Type 0 where
  applicable profile_not_applicable : Applicability
  applicability_unresolved : UnresolvedReason → Applicability

abbrev is_json_text : Text → Option Json → Bool
is_json_text s (some (json_str t)) = text_eq t s
is_json_text s _ = false

unfoldable pub determine_applicability : Audit → RulePack → Applicability
determine_applicability audit rule_pack =
    if not
      (is_json_text (codes "resolved") (get (codes "resolution_status") audit.profile_resolution))
    then applicability_unresolved unsupported_profile
    else if not (
        is_json_text rule_pack.profile_version_id
          (get (codes "profile_version_id") audit.profile_resolution))
    then profile_not_applicable
    else applicable

-- A historical block, which names no rule and no field, may be about any rule of its profile.
abbrev is_historical : RulePack → UnresolvedBlock → Bool
is_historical rule_pack block =
    is_empty block.affected_rule_ids
    && is_empty block.candidate_field_ids
    && elim block.profile_version_id [
      | none ↦ false
      | some profile ↦ text_eq profile rule_pack.profile_version_id
    ]
    && not (is_empty block.source_ir_node_ids)

abbrev pub rule_ids_of : RulePack → List Text
rule_ids_of rule_pack = map (λ rule. rule.rule_id) rule_pack.rules

-- `rule_id in affected_rule_ids`
unfoldable pub affects : RulePack → Text → UnresolvedBlock → Bool
affects rule_pack rule_id block =
    if is_historical rule_pack block
    then mem_text rule_id (rule_ids_of rule_pack)
    else mem_text rule_id block.affected_rule_ids

-- `unresolved_by_rule.get(rule_id, ())`
unfoldable pub blockers : RulePack → List UnresolvedBlock → Text → List UnresolvedBlock
unfolding affects
blockers rule_pack blocks rule_id = keep (affects rule_pack rule_id) blocks

unfoldable pub block_evidence : List UnresolvedBlock → List Fields
block_evidence [] = []
block_evidence (b ∷ bs) = dictionaries b.evidence_refs ++ block_evidence bs

-- What one audit is judged by.
pub record Judgement : Type 0 where
  pub audit : Audit
  pub rule_pack : RulePack
  pub policy : Option OrganizationPolicyVersion
  pub facts : List SecurityFactRow
  pub blocks : List UnresolvedBlock

abbrev pub unscoped : FindingVerdict → Option UnresolvedReason → Outcome
unscoped verdict reason = record {
  verdict = verdict;
  scope = none;
  states = [];
  observed = none;
  expected = none;
  reason = reason;
  evidence_refs = [];
}

-- An outcome about one state.
abbrev pub about :
    EffectiveState
    → FindingVerdict
    → (observed expected : Option Fields) → Option UnresolvedReason
    → List Fields
    → Outcome
about state verdict observed expected reason evidence_refs = record {
  verdict = verdict;
  scope = some state.scope;
  states = state.effective_state_id ∷ [];
  observed = observed;
  expected = expected;
  reason = reason;
  evidence_refs = evidence_refs;
}

-- The reason of a state that is not resolved.
abbrev pub unresolved_reason_of : EffectiveState → Option UnresolvedReason
unresolved_reason_of state = elim state.resolution_status [
  | conflicting ↦ some conflicting_evidence
  | _ ↦ state.unresolved_reason
]

-- `resolve_parameter` of the name that the condition gives; a policy has texts as names.
unfoldable pub named_parameter : Option OrganizationPolicyVersion → Option Json → Json
named_parameter policy none = resolve_parameter policy []
named_parameter policy (some (json_str name)) = resolve_parameter policy name
named_parameter policy (some _) = json_null

-- A policy cannot be asked for a list or a dictionary.
abbrev pub asks_unhashable : Option OrganizationPolicyVersion → Option Json → Bool
asks_unhashable none name = false
asks_unhashable (some policy) none = false
asks_unhashable (some policy) (some name) = is_unhashable name

-- The value of the parameter that the rule asks for, where `none` is a rule that asks for none.
unfoldable pub parameter_value : Option OrganizationPolicyVersion → RuleDefinition → Option Json
unfolding named_parameter
parameter_value policy rule =
    if is_empty rule.required_policy_parameters
    then none
    else some (named_parameter policy (get (codes "parameter") rule.condition))

-- The expression that reads the policy parameter.
unfoldable pub required_parameter :
    Option OrganizationPolicyVersion → RuleDefinition → Result (Option Json)
unfolding parameter_value
required_parameter policy rule = do
  refuse_if
      (not (is_empty rule.required_policy_parameters)
        && asks_unhashable policy (get (codes "parameter") rule.condition))
      "TypeError: unhashable type"
  ok (parameter_value policy rule)

-- A value that passes does not, if there is evidence that was not understood.
unfoldable pub pass_outcome : Judgement → EffectiveState → Fields → List UnresolvedBlock → Outcome
unfolding block_evidence
pass_outcome j state expected [] =
    about state pass state.effective_value (some expected) none (state_evidence j.facts state)
pass_outcome j state expected (b ∷ bs) =
    about state unknown state.effective_value (some expected) (some unsupported_feature)
      (block_evidence (b ∷ bs))

unfoldable pub verdict_outcome :
    Judgement → RuleDefinition → EffectiveState → FindingVerdict → Fields → Outcome
unfolding blockers pass_outcome
verdict_outcome j rule state pass expected =
    pass_outcome j state expected (blockers j.rule_pack j.blocks rule.rule_id)
verdict_outcome j rule state verdict expected =
    about state verdict state.effective_value (some expected) none (state_evidence j.facts state)

-- `except EvaluationError`
unfoldable pub caught :
    Judgement → RuleDefinition → EffectiveState → Json → Result FindingVerdict → Result Outcome
unfolding verdict_outcome is_evaluation_error
caught j rule state parameter (ok verdict) =
    expected_of rule parameter >>= λ expected. ok (verdict_outcome j rule state verdict expected)
caught j rule state parameter (raised message) =
    if is_evaluation_error message
    then ok
        (about state process_error state.effective_value none none (state_evidence j.facts state))
    else raised message

-- `evaluate_condition` reads the entries of the value.
unfoldable pub evaluated : RuleDefinition → Option Fields → Json → Result FindingVerdict
evaluated rule none parameter =
    raised (codes "AttributeError: 'NoneType' object has no attribute 'get'")
evaluated rule (some value) parameter = evaluate_condition rule.condition value parameter

abbrev pub is_unavailable : Option Json → Bool
is_unavailable (some json_null) = true
is_unavailable _ = false

-- The parameter that the condition is evaluated with.
abbrev pub parameter_of : Judgement → RuleDefinition → Json
parameter_of j rule = value_or_null (parameter_value j.policy rule)

-- The rule on a state that is resolved, with the parameter.
unfoldable pub judge_with :
    Judgement → RuleDefinition → EffectiveState → Option Json → Result Outcome
unfolding caught evaluated
judge_with j rule state parameter =
    if is_unavailable parameter
    then (expected_of rule json_null >>= λ expected. ok (
        about state manual_review state.effective_value (some expected) none
          (state_evidence j.facts state)))
    else caught j rule state (value_or_null parameter)
        (evaluated rule state.effective_value (value_or_null parameter))

-- The rule on a state that is resolved.
unfoldable pub judge_resolved : Judgement → RuleDefinition → EffectiveState → Result Outcome
unfolding required_parameter judge_with
judge_resolved j rule state =
    required_parameter j.policy rule >>= λ parameter. judge_with j rule state parameter

abbrev pub is_resolved : EffectiveState → Bool
is_resolved state = elim state.resolution_status [ resolved ↦ true | _ ↦ false ]

unfoldable pub judge_state : Judgement → RuleDefinition → EffectiveState → Result Outcome
unfolding judge_resolved
judge_state j rule state =
    if is_resolved state
    then judge_resolved j rule state
    else ok
        (about state unknown none none (unresolved_reason_of state) (state_evidence j.facts state))

module _ (finding_id : ℕ → Text → Text → ℕ) where
  unfoldable pub draft_outcome : Judgement → RuleDefinition → Result Outcome → Result FindingDraft
  draft_outcome j rule outcome =
      outcome >>= λ o. draft_finding finding_id rule j.rule_pack j.audit o

  -- One turn of the loop over the rules, with the states of the field that the rule reads.
  unfoldable pub judge_rule :
      Judgement → Applicability → RuleDefinition → List EffectiveState → Result (List FindingDraft)
  unfolding judge_state draft_outcome
  judge_rule j profile_not_applicable rule states =
      map_result (draft_outcome j rule) (ok (unscoped not_applicable none) ∷ [])
  judge_rule j (applicability_unresolved reason) rule states =
      map_result (draft_outcome j rule) (ok (unscoped unknown (some reason)) ∷ [])
  judge_rule j applicable rule [] =
      map_result (draft_outcome j rule) (ok (unscoped unknown (some missing_evidence)) ∷ [])
  judge_rule j applicable rule (s ∷ ss) =
      map_result (λ state. draft_outcome j rule (judge_state j rule state)) (s ∷ ss)
