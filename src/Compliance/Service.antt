-- ===== src/Compliance/Service.antt =====
-- The compliance of an audit (backend/app/compliance/service.py). The database is its tables as
-- lists; `order_by` compares texts by code points.
pub mod Verdicts
pub mod Rests
pub mod Grounds
pub mod Coverage
pub mod Persisted
pub mod Explicable
pub mod Total
use security_configuration_a.Base.{
  ℕ, Bool, true, false, not, ◌&&◌, ◌||◌, Option, none, some, List, [], ◌∷◌, ◌++◌, Text, codes,
  if◌then◌else◌, ltb, leb, ◌==◌, any, all, keep, is_empty, map,
}
use security_configuration_a.Base.Str.{text_eq, text_le, mem_text, starts_with}
use security_configuration_a.Base.Sort.{sorted}
use security_configuration_a.Base.Json.{Json, json_null, json_str, Fields, get}
use security_configuration_a.Base.Result.{
  Result, ok, raised, ◌>>=◌, ◌>>◌, refuse_if, or_refuse, map_result,
}
use security_configuration_a.Effective.Drafts.{
  UnresolvedReason, missing_evidence, unsupported_feature, conflicting_evidence,
  unsupported_profile, ResolutionStatus, resolved, conflicting,
}
use security_configuration_a.Effective.Scopes.{ScopeRef}
use security_configuration_a.Compliance.Evaluator.{
  FindingVerdict, pass, unknown, manual_review, not_applicable, process_error, value_or_null,
  evaluate_condition,
}
use security_configuration_a.Compliance.Rules.{RuleDefinition, RulePack}
use security_configuration_a.Compliance.Policy.{OrganizationPolicyVersion, resolve_parameter}
use security_configuration_a.Compliance.Findings.{
  AuditStatus, processing, Audit, EffectiveState, SecurityFactRow, UnresolvedBlock, FindingDraft,
  Outcome, expected_of, draft_finding,
}
use security_configuration_a.Compliance.Evidence.{state_evidence, dictionaries, audit_facts}
use security_configuration_a.Compliance.Judgement.{
  Applicability, applicable, profile_not_applicable, applicability_unresolved,
  determine_applicability, Judgement, judge_rule,
}

pub record Database : Type 0 where
  pub audits : List Audit
  pub effective_states : List EffectiveState
  pub facts : List SecurityFactRow
  pub unresolved_blocks : List UnresolvedBlock
  pub findings : List FindingDraft

abbrev pub judgement :
    Audit
    → RulePack
    → Option OrganizationPolicyVersion
    → List SecurityFactRow
    → List UnresolvedBlock
    → Judgement
judgement audit rule_pack policy facts blocks = record {
  audit = audit;
  rule_pack = rule_pack;
  policy = policy;
  facts = facts;
  blocks = blocks;
}

abbrev pub in_field : Text → EffectiveState → Bool
in_field field_id state = text_eq state.field_id field_id

-- `by_field[fields[0]]`
unfoldable pub states_of_field : List EffectiveState → List Text → Result (List EffectiveState)
states_of_field states [] = raised (codes "IndexError: tuple index out of range")
states_of_field states (field_id ∷ rest) = ok (keep (in_field field_id) states)

unfoldable pub audit_of : ℕ → ℕ → List Audit → Option Audit
audit_of audit_id organization_id [] = none
audit_of audit_id organization_id (a ∷ rest) =
    if a.audit_id == audit_id && a.organization_id == organization_id
    then some a
    else audit_of audit_id organization_id rest

abbrev pub is_processing : Audit → Bool
is_processing audit = elim audit.status [ processing ↦ true | _ ↦ false ]

abbrev pub crosses : ℕ → Option OrganizationPolicyVersion → Bool
crosses organization_id none = false
crosses organization_id (some policy) = not (policy.organization_id == organization_id)

-- `order_by(field_id, scope_key)`
abbrev state_le : EffectiveState → EffectiveState → Bool
state_le s t =
    if text_eq s.field_id t.field_id
    then text_le s.scope_key t.scope_key
    else text_le s.field_id t.field_id

-- The states that are given, or else those of the audit.
unfoldable pub states_given : ℕ → Database → Option (List EffectiveState) → List EffectiveState
states_given audit_id db none =
    sorted state_le (keep (λ s. s.audit_id == audit_id) db.effective_states)
states_given audit_id db (some states) = states

-- `by_field[rule.required_effective_states[0]]` is not read where the rule does not apply.
unfoldable pub states_read :
    Applicability → List EffectiveState → RuleDefinition → Result (List EffectiveState)
states_read applicable states rule = states_of_field states rule.required_effective_states
states_read _ states rule = ok []

-- The refusals before the loop over the rules.
unfoldable pub check_boundaries :
    Audit
    → ℕ
    → Option OrganizationPolicyVersion
    → List EffectiveState
    → List UnresolvedBlock
    → Result (Unit {0})
check_boundaries audit organization_id policy states blocks = do
  refuse_if (not (is_processing audit))
      "Only still-processing Audits are eligible for compliance evaluation"
  refuse_if (crosses organization_id policy) "Organization policy crosses the Audit boundary"
  refuse_if (any (λ s. not (s.device_id == audit.device_id)) states)
      "EffectiveState crosses the Audit boundary"
  refuse_if (any (λ b. not (b.audit_id == audit.audit_id)) blocks)
      "Unresolved evidence crosses the Audit boundary"

module _ (finding_id : ℕ → Text → Text → ℕ) where
  unfoldable pub judge_rules :
      Judgement
      → Applicability
      → List EffectiveState
      → List RuleDefinition
      → Result (List FindingDraft)
  unfolding judge_rule states_read
  judge_rules j applicability states [] = ok []
  judge_rules j applicability states (rule ∷ rules) = do
    read ← states_read applicability states rule
    drafts ← judge_rule finding_id j applicability rule read
    rest ← judge_rules j applicability states rules
    ok (drafts ++ rest)

  -- `evaluate_audit_compliance`
  unfoldable pub evaluate_audit_compliance :
      Database
      → (audit_id organization_id : ℕ) → RulePack
      → Option OrganizationPolicyVersion
      → Option (List EffectiveState)
      → List UnresolvedBlock
      → Result (List FindingDraft)
  unfolding judge_rules
  evaluate_audit_compliance db audit_id organization_id rule_pack policy given blocks = do
    audit ← or_refuse (audit_of audit_id organization_id db.audits) "Audit was not found"
    let states : List EffectiveState = states_given audit_id db given
    check_boundaries audit organization_id policy states blocks
    judge_rules (judgement audit rule_pack policy (audit_facts audit_id states db.facts) blocks)
        (determine_applicability audit rule_pack) states rule_pack.rules

-- The constraints of the table: the identifier, and the audit with the comparison key, are unique.
abbrev same_finding : FindingDraft → FindingDraft → Bool
same_finding f g =
    f.finding_id == g.finding_id
    || (f.audit_id == g.audit_id && text_eq f.comparison_key g.comparison_key)

unfoldable pub collides : List FindingDraft → List FindingDraft → Bool
collides rows [] = false
collides rows (f ∷ fs) = any (same_finding f) rows || collides (f ∷ rows) fs

abbrev pub of_audit : ℕ → FindingDraft → Bool
of_audit audit_id f = f.audit_id == audit_id

abbrev block_le : UnresolvedBlock → UnresolvedBlock → Bool
block_le b c = leb b.unresolved_block_id c.unresolved_block_id

-- The blocks that are given, or else those of the audit by identifier.
unfoldable pub blocks_given :
    ℕ → List UnresolvedBlock → Option (List UnresolvedBlock) → List UnresolvedBlock
blocks_given audit_id table none = sorted block_le (keep (λ b. b.audit_id == audit_id) table)
blocks_given audit_id table (some blocks) = blocks

-- The rows of the other audits.
unfoldable pub other_findings : ℕ → List FindingDraft → List FindingDraft
other_findings audit_id = keep (λ f. not (of_audit audit_id f))

abbrev pub with_findings : Database → List FindingDraft → Database
with_findings db findings = record {
  audits = db.audits;
  effective_states = db.effective_states;
  facts = db.facts;
  unresolved_blocks = db.unresolved_blocks;
  findings = findings;
}

-- The audit may no longer be processed once its row is locked.
unfoldable pub still_processing : Option Audit → Bool
still_processing none = false
still_processing (some audit) = is_processing audit

module _ (finding_id : ℕ → Text → Text → ℕ) where
  -- `persist_audit_findings`: a row has the fields of its draft
  unfoldable pub persist_audit_findings :
      Database
      → (audit_id organization_id : ℕ) → RulePack
      → Option OrganizationPolicyVersion
      → Option (List EffectiveState)
      → Option (List UnresolvedBlock)
      → Result (List FindingDraft × Database)
  persist_audit_findings db audit_id organization_id rule_pack policy given blocks = do
    drafts ←
        evaluate_audit_compliance finding_id db audit_id organization_id rule_pack policy given
          (blocks_given audit_id db.unresolved_blocks blocks)
    refuse_if (not (still_processing (audit_of audit_id organization_id db.audits)))
        "Only still-processing Audits are eligible for Finding persistence"
    refuse_if (collides (other_findings audit_id db.findings) drafts) "IntegrityError"
    ok (drafts, with_findings db (other_findings audit_id db.findings ++ drafts))
