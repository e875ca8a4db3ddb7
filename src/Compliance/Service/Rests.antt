-- ===== src/Compliance/Service/Rests.antt =====
-- What the findings about one rule rest on (backend/app/compliance/service.py).
use security_configuration_a.Base.{
  ℕ, ◌≡◌, refl, none, some, List, [], ◌∷◌, Text, arith, All, In, In-keep, ap, inl, inr, sym, ◌∙◌,
  ◌⊎◌, subst,
}
use security_configuration_a.Base.Sort.{head}
use security_configuration_a.Base.Str.{eq_of_text_eq}
use security_configuration_a.Base.Result.{ok, ◌>>=◌, >>=-eq-ok, ok-eq, raised-ne-ok, All-map_result}
use security_configuration_a.Effective.Drafts.{missing_evidence}
use security_configuration_a.Compliance.Evaluator.{pass, fail, unknown, not_applicable}
use security_configuration_a.Compliance.Rules.{RuleDefinition, RulePack}
use security_configuration_a.Compliance.Findings.{
  Audit, EffectiveState, FindingDraft, Outcome, draft_finding, finding_of, deterministic_finding_id,
  finding_comparison_key, explain,
}
use security_configuration_a.Compliance.Judgement.{
  Applicability, Judgement, applicable, profile_not_applicable, applicability_unresolved,
  judge_state, unscoped, judge_rule, draft_outcome,
}
use security_configuration_a.Compliance.Service.Verdicts.{IsEarned, IsSound, judge_state-IsSound}
use security_configuration_a.Compliance.Service.{in_field, states_of_field, states_read}

-- The finding is about the rule and the audit and, if its verdict is a pass or a failure, about a state of the
-- rule's field that earns it.
unfoldable pub Rests :
    Judgement → Applicability → List EffectiveState → RuleDefinition → FindingDraft → Type 0
Rests j applicability states rule d =
    (d.rule_id ≡ rule.rule_id)
    × (d.audit_id ≡ j.audit.audit_id)
    × ((d.verdict ≡ pass) ⊎ (d.verdict ≡ fail)
        → (applicability ≡ applicable)
          × (state : EffectiveState) × In state states
          × (head rule.required_effective_states ≡ some state.field_id)
          × (d.affected_scope ≡ some state.scope)
          × IsEarned j rule state d.verdict)

In-one : {A : Type 0} {a b : A} → In a (b ∷ []) → a ≡ b
In-one (inl e) = e
In-one (inr i) = absurd i

states_of_field-among :
    (states : List EffectiveState) (fields : List Text) {read : List EffectiveState}
    → states_of_field states fields ≡ ok read
    → (s : EffectiveState) → In s read
    → In s states × (head fields ≡ some s.field_id)
unfolding states_of_field
states_of_field-among states [] h s i = raised-ne-ok h
states_of_field-among states (field_id ∷ rest) h s i =
    let (within, e) = In-keep (in_field field_id) s states (subst (In s) (sym (ok-eq h)) i) in
    (within, ap some (sym (eq_of_text_eq s.field_id field_id e)))

-- The states that are read for a rule are those of its field.
pub states_read-In :
    (applicability : Applicability) (states : List EffectiveState) (rule : RuleDefinition)
    {read : List EffectiveState}
    → states_read applicability states rule ≡ ok read
    → (s : EffectiveState) → In s read
    → In s states × (head rule.required_effective_states ≡ some s.field_id)
unfolding states_read
states_read-In profile_not_applicable states rule {read} h s i =
    absurd (subst (In s) (sym (ok-eq h)) i)
states_read-In (applicability_unresolved reason) states rule {read} h s i =
    absurd (subst (In s) (sym (ok-eq h)) i)
states_read-In applicable states rule {read} h s i =
    states_of_field-among states rule.required_effective_states h s i

module _ (finding_id : ℕ → Text → Text → ℕ) where
  pub draft_finding-eq :
      (rule : RuleDefinition) (pack : RulePack) (audit : Audit) (o : Outcome) {d : FindingDraft}
      → draft_finding finding_id rule pack audit o ≡ ok d
      → (d.rule_id ≡ rule.rule_id)
        × (d.audit_id ≡ audit.audit_id)
        × (d.verdict ≡ o.verdict)
        × (d.affected_scope ≡ o.scope)
  unfolding draft_finding
  draft_finding-eq rule pack audit o {d} h =
      let (id, e1, h1) =
        >>=-eq-ok (deterministic_finding_id finding_id audit.audit_id rule.rule_id o.scope)
          (λ id. finding_comparison_key rule.rule_id o.scope >>= λ key.
            explain o.verdict rule o.observed o.reason >>= λ explanation.
            ok (finding_of rule pack audit o id key explanation))
          h in
      let (key, e2, h2) =
        >>=-eq-ok (finding_comparison_key rule.rule_id o.scope)
          (λ key. explain o.verdict rule o.observed o.reason >>= λ explanation.
            ok (finding_of rule pack audit o id key explanation))
          h1 in
      let (explanation, e3, h3) =
        >>=-eq-ok (explain o.verdict rule o.observed o.reason)
          (λ explanation. ok (finding_of rule pack audit o id key explanation)) h2 in
      subst
        (λ f.
          (f.rule_id ≡ rule.rule_id)
          × (f.audit_id ≡ audit.audit_id)
          × (f.verdict ≡ o.verdict)
          × (f.affected_scope ≡ o.scope))
        (ok-eq h3) (refl, refl, refl, refl)

  -- What a draft about a state rests on.
  draft_outcome-Rests :
      (j : Judgement) (states : List EffectiveState) (rule : RuleDefinition)
      (state : EffectiveState) {d : FindingDraft}
      → In state states
      → head rule.required_effective_states ≡ some state.field_id
      → draft_outcome finding_id j rule (judge_state j rule state) ≡ ok d
      → Rests j applicable states rule d
  unfolding draft_outcome Rests IsSound
  draft_outcome-Rests j states rule state {d} i field h =
      let (o, e, h1) =
        >>=-eq-ok (judge_state j rule state)
          (λ o. draft_finding finding_id rule j.rule_pack j.audit o) h in
      let (same_rule, same_audit, same_verdict, same_scope) =
        draft_finding-eq rule j.rule_pack j.audit o h1 in
      let (scope, earned) = judge_state-IsSound j rule state e in
      (
        same_rule,
        same_audit,
        λ v. (
          refl,
          state,
          i,
          field,
          same_scope ∙ scope,
          subst (IsEarned j rule state) (sym same_verdict) earned,
        ),
      )

  -- A draft that is about no state neither passes nor fails.
  unscoped-Rests :
      (j : Judgement) (applicability : Applicability) (states : List EffectiveState)
      (rule : RuleDefinition) (o : Outcome) {d : FindingDraft}
      → ((o.verdict ≡ pass) ⊎ (o.verdict ≡ fail) → ⊥)
      → draft_outcome finding_id j rule (ok o) ≡ ok d
      → Rests j applicability states rule d
  unfolding draft_outcome Rests
  unscoped-Rests j applicability states rule o {d} neither h =
      let (same_rule, same_audit, same_verdict, same_scope) =
        draft_finding-eq rule j.rule_pack j.audit o h in
      (
        same_rule,
        same_audit,
        λ v. absurd (neither (subst (λ w. (w ≡ pass) ⊎ (w ≡ fail)) same_verdict v)),
      )

  pub judge_rule-Rests :
      (j : Judgement) (applicability : Applicability) (states read : List EffectiveState)
      (rule : RuleDefinition) {drafts : List FindingDraft}
      → ((s : EffectiveState)
          → In s read
          → In s states × (head rule.required_effective_states ≡ some s.field_id))
      → judge_rule finding_id j applicability rule read ≡ ok drafts
      → All (Rests j applicability states rule) drafts
  unfolding judge_rule
  judge_rule-Rests j profile_not_applicable states read rule {drafts} among h =
      All-map_result (draft_outcome finding_id j rule) (Rests j profile_not_applicable states rule)
        (ok (unscoped not_applicable none) ∷ [])
        (λ r i d e.
          unscoped-Rests j profile_not_applicable states rule (unscoped not_applicable none)
            (λ v. ground arith)
            (subst (λ r. draft_outcome finding_id j rule r ≡ ok d) (In-one i) e))
        h
  judge_rule-Rests j (applicability_unresolved reason) states read rule {drafts} among h =
      All-map_result (draft_outcome finding_id j rule)
        (Rests j (applicability_unresolved reason) states rule)
        (ok (unscoped unknown (some reason)) ∷ [])
        (λ r i d e.
          unscoped-Rests j (applicability_unresolved reason) states rule
            (unscoped unknown (some reason)) (λ v. ground arith)
            (subst (λ r. draft_outcome finding_id j rule r ≡ ok d) (In-one i) e))
        h
  judge_rule-Rests j applicable states [] rule {drafts} among h =
      All-map_result (draft_outcome finding_id j rule) (Rests j applicable states rule)
        (ok (unscoped unknown (some missing_evidence)) ∷ [])
        (λ r i d e.
          unscoped-Rests j applicable states rule (unscoped unknown (some missing_evidence))
            (λ v. ground arith)
            (subst (λ r. draft_outcome finding_id j rule r ≡ ok d) (In-one i) e))
        h
  judge_rule-Rests j applicable states (s ∷ ss) rule {drafts} among h =
      All-map_result (λ state. draft_outcome finding_id j rule (judge_state j rule state))
        (Rests j applicable states rule) (s ∷ ss)
        (λ state i d e.
          let (within, field) = among state i in
          draft_outcome-Rests j states rule state within field e)
        h
