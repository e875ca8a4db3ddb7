-- ===== src/Compliance/Examples/Audits.antt =====
-- Runs of the evaluation of an audit (backend/app/compliance/service.py).
use security_configuration_a.Base.{
  ℕ, ◌≡◌, refl, true, false, none, some, List, [], ◌∷◌, Text, codes, map, ◌+◌, ◌*◌, length, ◌%◌,
  ◌&&◌, Bool, All, In,
}
use security_configuration_a.Base.Str.{
  text_eq, text_le, mem_text, strip, is_space, lstrip, rstrip, starts_with,
}
use security_configuration_a.Base.Sort.{sorted, insert}
use security_configuration_a.Base.Json.{
  get, json_eq, json_bool, json_int, json_str, json_dict, pos, Fields, end, field,
}
use security_configuration_a.Base.Result.{Result, ok, raised}
use security_configuration_a.Effective.Drafts.{resolved}
use security_configuration_a.Effective.Scopes.{ScopeRef}
use security_configuration_a.Compliance.Evaluator.{
  FindingVerdict, pass, unknown, evaluate_condition, is_evaluation_error,
}
use security_configuration_a.Compliance.Rules.{
  RuleDefinition, RulePack, high, validate_pack, has_repeat, validate_rule, check_operator,
  check_minimum, check_enum, validate_framework_references,
}
use security_configuration_a.Compliance.Rules.Shipped.{
  make_rule, nist, condition_of, shipped_packs, rule_pack_v1, rule_pack, profile_pack, base_rules,
  shipped_rules, rules_for,
}
use security_configuration_a.Compliance.Rules.Registry.{
  RuleRegistry, new_registry, load_packs, pack_with_id, pack_named, profiles_of, bind_profiles,
  active_pack,
}
use security_configuration_a.Compliance.Rules.Registry.Bound.{IsRegistry, new_registry-IsRegistry}
use security_configuration_a.Compliance.Policy.{
  policy_version, register, get_version, version_with_id, declared_version, resolve_parameter,
}
use security_configuration_a.Compliance.Policy.History.{KeepsHistory, register-KeepsHistory}
use security_configuration_a.Compliance.Findings.{
  Audit, processing, EffectiveState, SecurityFactRow, UnresolvedBlock, FindingDraft, expected_of,
  draft_finding, finding_comparison_key, deterministic_finding_id, explain, finding_scope_key,
}
use security_configuration_a.Compliance.Judgement.{
  determine_applicability, affects, block_evidence, blockers, caught, draft_outcome, evaluated,
  judge_resolved, judge_rule, judge_state, pass_outcome, required_parameter, verdict_outcome,
}
use security_configuration_a.Compliance.Evidence.{
  dictionaries, evidence_by_fact, fact_ids, audit_facts, put_reference, put_references,
  same_reference, state_evidence,
}
use security_configuration_a.Compliance.Service.{
  Database, evaluate_audit_compliance, persist_audit_findings, states_given, audit_of,
  check_boundaries, states_of_field, states_read, judge_rules, is_processing, judgement,
  blocks_given, still_processing, other_findings, collides,
}
use security_configuration_a.Compliance.Service.Grounds.{evaluate_audit_compliance-Rests}
use security_configuration_a.Compliance.Service.Rests.{Rests}
use security_configuration_a.Compliance.Service.Coverage.{
  evaluate_audit_compliance-IsCovered, IsCovered,
}
use security_configuration_a.Compliance.Service.Persisted.{
  persist_audit_findings-IsReplaced, IsReplaced,
}

-- Identifiers from lengths, in place of hashes.
abbrev hashed : ℕ → Text → Text → ℕ
hashed audit_id rule_id key = audit_id + length rule_id * 100 + length key

abbrev telnet_rule : RuleDefinition
telnet_rule =
    make_rule (codes "telnet") (codes "Telnet disabled") (codes "management") high
      (codes "telnet.enabled") (codes "equals") (some (json_bool false)) none
      (nist (codes "AC-17") ∷ []) none []

abbrev telnet_pack : RulePack
telnet_pack = record {
  rule_pack_version_id = 5;
  name = codes "baseline";
  version = codes "1";
  profile_version_id = codes "ios";
  rules = telnet_rule ∷ [];
  schema_version = codes "1.0.0";
}

abbrev audit_1 : Audit
audit_1 = record {
  audit_id = 1;
  organization_id = 9;
  device_id = 2;
  status = processing;
  profile_resolution =
      field (codes "resolution_status") (json_str (codes "resolved"))
        (field (codes "profile_version_id") (json_str (codes "ios")) end);
}

abbrev device_scope : ScopeRef
device_scope = record { type = codes "device"; key = codes "device"; attributes = end }

abbrev telnet_state : EffectiveState
telnet_state = record {
  effective_state_id = 30;
  audit_id = 1;
  device_id = 2;
  field_id = codes "telnet.enabled";
  scope = device_scope;
  scope_key = codes "device::device";
  effective_value = some (
      field (codes "type") (json_str (codes "boolean"))
        (field (codes "value") (json_bool false) end));
  resolution_status = resolved;
  unresolved_reason = none;
  source_fact_ids = 40 ∷ [];
}

abbrev fact_40 : SecurityFactRow
fact_40 = record {
  fact_id = 40;
  audit_id = 1;
  evidence_refs = json_dict (field (codes "line") (json_int (pos 3)) end) ∷ [];
}

abbrev open_block : UnresolvedBlock
open_block = record {
  unresolved_block_id = 50;
  audit_id = 1;
  affected_rule_ids = codes "telnet" ∷ [];
  candidate_field_ids = [];
  profile_version_id = some (codes "ios");
  source_ir_node_ids = codes "n" ∷ [];
  evidence_refs = [];
}

abbrev tables : Database
tables = record {
  audits = audit_1 ∷ [];
  effective_states = telnet_state ∷ [];
  facts = fact_40 ∷ [];
  unresolved_blocks = [];
  findings = [];
}

abbrev verdicts : Result (List FindingDraft) → Result (List FindingVerdict)
verdicts (raised m) = raised m
verdicts (ok ds) = ok (map (λ d. d.verdict) ds)

abbrev judged : List UnresolvedBlock → Result (List FindingDraft)
judged blocks = evaluate_audit_compliance hashed tables 1 9 telnet_pack none none blocks

abbrev drafts_of : Result (List FindingDraft) → List FindingDraft
drafts_of (raised m) = []
drafts_of (ok ds) = ds

telnet_passes : verdicts (judged []) ≡ ok (pass ∷ [])
unfolding evaluate_audit_compliance audit_of check_boundaries states_given sorted
    determine_applicability get text_eq states_of_field make_rule evaluate_condition mem_text
    expected_of draft_finding strip is_space finding_comparison_key insert lstrip rstrip starts_with
    text_le is_evaluation_error dictionaries evidence_by_fact fact_ids audit_facts put_reference
    put_references same_reference state_evidence deterministic_finding_id explain finding_scope_key
    affects block_evidence blockers caught draft_outcome evaluated judge_resolved judge_rule
    judge_state pass_outcome required_parameter verdict_outcome resolve_parameter condition_of
    judge_rules states_read json_eq
telnet_passes = refl

telnet_blocked : verdicts (judged (open_block ∷ [])) ≡ ok (unknown ∷ [])
unfolding evaluate_audit_compliance audit_of check_boundaries states_given sorted
    determine_applicability get text_eq states_of_field make_rule evaluate_condition mem_text
    expected_of draft_finding strip is_space finding_comparison_key insert lstrip rstrip starts_with
    text_le is_evaluation_error dictionaries evidence_by_fact fact_ids audit_facts put_reference
    put_references same_reference state_evidence deterministic_finding_id explain finding_scope_key
    affects block_evidence blockers caught draft_outcome evaluated judge_resolved judge_rule
    judge_state pass_outcome required_parameter verdict_outcome resolve_parameter condition_of
    judge_rules states_read json_eq
telnet_blocked = refl

telnet_runs : judged [] ≡ ok (drafts_of (judged []))
unfolding evaluate_audit_compliance audit_of check_boundaries states_given sorted
    determine_applicability get text_eq states_of_field make_rule evaluate_condition mem_text
    expected_of draft_finding strip is_space finding_comparison_key insert lstrip rstrip starts_with
    text_le is_evaluation_error dictionaries evidence_by_fact fact_ids audit_facts put_reference
    put_references same_reference state_evidence deterministic_finding_id explain finding_scope_key
    affects block_evidence blockers caught draft_outcome evaluated judge_resolved judge_rule
    judge_state pass_outcome required_parameter verdict_outcome resolve_parameter condition_of
    judge_rules states_read json_eq
telnet_runs = refl

abbrev stored : Result (List FindingDraft × Database)
stored = persist_audit_findings hashed tables 1 9 telnet_pack none none none

abbrev stored_or : Result (List FindingDraft × Database) → List FindingDraft × Database
stored_or (raised m) = ([], tables)
stored_or (ok r) = r

stored_runs : stored ≡ ok (stored_or stored)
unfolding persist_audit_findings blocks_given still_processing other_findings collides
    evaluate_audit_compliance audit_of check_boundaries states_given sorted determine_applicability
    get text_eq states_of_field make_rule evaluate_condition mem_text expected_of draft_finding
    strip is_space finding_comparison_key insert lstrip rstrip starts_with text_le
    is_evaluation_error dictionaries evidence_by_fact fact_ids audit_facts put_reference
    put_references same_reference state_evidence deterministic_finding_id explain finding_scope_key
    affects block_evidence blockers caught draft_outcome evaluated judge_resolved judge_rule
    judge_state pass_outcome required_parameter verdict_outcome resolve_parameter condition_of
    judge_rules states_read json_eq
stored_runs = refl

evaluate_audit_compliance-Rests_example :
    (audit : Audit) × (audit_of 1 9 (audit_1 ∷ []) ≡ some audit)
    × (is_processing audit ≡ true)
    × All
        (λ d.
          (rule : RuleDefinition) × In rule (telnet_rule ∷ [])
          × Rests
              (judgement audit telnet_pack none
                (audit_facts 1 (states_given 1 tables none) (fact_40 ∷ []))
                [])
              (determine_applicability audit telnet_pack)
              (states_given 1 tables none)
              rule
              d)
        (drafts_of (judged []))
evaluate_audit_compliance-Rests_example =
    evaluate_audit_compliance-Rests hashed tables 1 9 telnet_pack none none [] telnet_runs

evaluate_audit_compliance-IsCovered_example :
    (audit : Audit) × (audit_of 1 9 (audit_1 ∷ []) ≡ some audit)
    × All
        (IsCovered
          (determine_applicability audit telnet_pack)
          (states_given 1 tables none)
          (drafts_of (judged [])))
        (telnet_rule ∷ [])
evaluate_audit_compliance-IsCovered_example =
    evaluate_audit_compliance-IsCovered hashed tables 1 9 telnet_pack none none [] telnet_runs

persist_audit_findings-IsReplaced_example :
    (evaluate_audit_compliance hashed tables 1 9 telnet_pack none none
        (blocks_given 1 tables.unresolved_blocks none)
      ≡ ok (stored_or stored).0)
    × IsReplaced 1 tables (stored_or stored).0 (stored_or stored).1
    × (persist_audit_findings hashed (stored_or stored).1 1 9 telnet_pack none none none
        ≡ ok (stored_or stored))
persist_audit_findings-IsReplaced_example =
    persist_audit_findings-IsReplaced hashed tables 1 9 telnet_pack none none none stored_runs

abbrev telnet_registry : RuleRegistry
telnet_registry = record { packs = telnet_pack ∷ []; by_profile = (codes "ios", telnet_pack) ∷ [] }

registry_runs : new_registry (telnet_pack ∷ []) none ≡ ok telnet_registry
unfolding new_registry load_packs validate_pack has_repeat mem_text validate_rule make_rule
    condition_of nist check_operator check_minimum check_enum validate_framework_references get
    text_eq strip lstrip rstrip is_space pack_with_id pack_named profiles_of bind_profiles
    active_pack
registry_runs = refl

new_registry-IsRegistry_example : IsRegistry telnet_registry
new_registry-IsRegistry_example = new_registry-IsRegistry (telnet_pack ∷ []) none registry_runs

abbrev policy_hash : ℕ → Text → Text → Text → ℕ
policy_hash organization_id name version content = organization_id + length content

abbrev limits : Fields
limits = field (codes "maximum") (json_int (pos 600)) end

register_runs :
    register policy_hash [] 9 (codes "p") (codes "1") limits
    ≡ ok (
      policy_version policy_hash 9 (codes "p") (codes "1") limits,
      policy_version policy_hash 9 (codes "p") (codes "1") limits ∷ [],
    )
unfolding register version_with_id declared_version strip lstrip rstrip is_space policy_version
register_runs = refl

register-KeepsHistory_example :
    (get_version policy_hash
        (policy_version policy_hash 9 (codes "p") (codes "1") limits ∷ [])
        (policy_version policy_hash 9 (codes "p") (codes "1") limits).organization_policy_version_id
      ≡ ok (policy_version policy_hash 9 (codes "p") (codes "1") limits))
    × KeepsHistory [] (policy_version policy_hash 9 (codes "p") (codes "1") limits ∷ [])
register-KeepsHistory_example =
    register-KeepsHistory policy_hash [] 9 (codes "p") (codes "1") limits register_runs

-- The packs that are shipped, where the identifier of a pack is the number of its name's characters
-- and the sum of its codes.
abbrev sum_codes : Text → ℕ
sum_codes [] = 0
sum_codes (c ∷ s) = sum_codes s * 3 % 1000003 + c

abbrev is_ok_unit : Result (Unit {0}) → Bool
is_ok_unit (ok u) = true
is_ok_unit (raised m) = false

abbrev all_valid : List RulePack → Bool
all_valid [] = true
all_valid (p ∷ ps) = is_ok_unit (validate_pack p) && all_valid ps

shipped_packs_valid : all_valid (shipped_packs sum_codes) ≡ true
unfolding shipped_packs rule_pack_v1 rule_pack profile_pack base_rules shipped_rules rules_for
    validate_pack has_repeat mem_text validate_rule make_rule condition_of nist check_operator
    check_minimum check_enum validate_framework_references get text_eq strip lstrip rstrip is_space
    json_eq
shipped_packs_valid = refl
