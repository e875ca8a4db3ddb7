-- ===== src/Compliance/Service/Grounds.antt =====
-- What the findings of an audit rest on (backend/app/compliance/service.py).
use security_configuration_a.Base.{
  ℕ, ◌≡◌, refl, true, Option, some, List, [], ◌∷◌, ◌++◌, Text, arith, All, In, All-map, inl, inr,
  subst, Bool-cases, All-append,
}
use security_configuration_a.Base.Result.{
  Result, ok, ◌>>=◌, or_refuse, >>=-eq-ok, ok-eq, or_refuse-eq,
}
use security_configuration_a.Compliance.Rules.{RuleDefinition, RulePack}
use security_configuration_a.Compliance.Policy.{OrganizationPolicyVersion}
use security_configuration_a.Compliance.Findings.{
  Audit, EffectiveState, UnresolvedBlock, FindingDraft,
}
use security_configuration_a.Compliance.Judgement.{
  Applicability, Judgement, determine_applicability, judge_rule,
}
use security_configuration_a.Compliance.Evidence.{audit_facts}
use security_configuration_a.Compliance.Service.{
  audit_of, is_processing, check_boundaries, judgement, states_given, states_read, Database,
  judge_rules, evaluate_audit_compliance,
}
use security_configuration_a.Compliance.Service.Rests.{Rests, states_read-In, judge_rule-Rests}

check_boundaries-processing :
    (audit : Audit) (organization_id : ℕ) (policy : Option OrganizationPolicyVersion)
    (states : List EffectiveState) (blocks : List UnresolvedBlock) {u : Unit {0}}
    → check_boundaries audit organization_id policy states blocks ≡ ok u
    → is_processing audit ≡ true
unfolding check_boundaries
check_boundaries-processing audit organization_id policy states blocks h =
    elim (Bool-cases (is_processing audit)) [ inl e ↦ e | inr e ↦ ground arith ]

module _ (finding_id : ℕ → Text → Text → ℕ) where
  pub judge_rules-Rests :
      (j : Judgement) (applicability : Applicability) (states : List EffectiveState)
      (rules : List RuleDefinition) {drafts : List FindingDraft}
      → judge_rules finding_id j applicability states rules ≡ ok drafts
      → All
          (λ d. (rule : RuleDefinition) × In rule rules × Rests j applicability states rule d)
          drafts
  unfolding judge_rules
  judge_rules-Rests j applicability states [] {drafts} h = subst (All _) (ok-eq h) tt
  judge_rules-Rests j applicability states (rule ∷ rules) {drafts} h =
      let (read, e1, h1) =
        >>=-eq-ok (states_read applicability states rule)
          (λ read. judge_rule finding_id j applicability rule read >>= λ drafts.
            judge_rules finding_id j applicability states rules >>= λ rest. ok (drafts ++ rest))
          h in
      let (first, e2, h2) =
        >>=-eq-ok (judge_rule finding_id j applicability rule read)
          (λ drafts.
            judge_rules finding_id j applicability states rules >>= λ rest. ok (drafts ++ rest))
          h1 in
      let (rest, e3, h3) =
        >>=-eq-ok (judge_rules finding_id j applicability states rules) (λ rest. ok (first ++ rest))
          h2 in
      let Found : List RuleDefinition → FindingDraft → Type 0 =
        λ among d. (r : RuleDefinition) × In r among × Rests j applicability states r d in
      subst (All (Found (rule ∷ rules))) (ok-eq h3) (
        All-append (Found (rule ∷ rules)) first rest
          (All-map (Rests j applicability states rule) (Found (rule ∷ rules)) first
            (λ d g. (rule, inl refl, g))
            (judge_rule-Rests finding_id j applicability states read rule
              (states_read-In applicability states rule e1) e2))
          (All-map (Found rules) (Found (rule ∷ rules)) rest (λ d (r, i, g). (r, inr i, g))
            (judge_rules-Rests j applicability states rules e3)))

  -- A run that ends has found the audit, passed its guards and judged the rules.
  pub evaluate_audit_compliance-run :
      (db : Database) (audit_id organization_id : ℕ) (rule_pack : RulePack)
      (policy : Option OrganizationPolicyVersion) (given : Option (List EffectiveState))
      (blocks : List UnresolvedBlock) {drafts : List FindingDraft}
      → evaluate_audit_compliance finding_id db audit_id organization_id rule_pack policy given
          blocks
        ≡ ok drafts
      → (audit : Audit) × (audit_of audit_id organization_id db.audits ≡ some audit)
        × (is_processing audit ≡ true)
        × (judge_rules finding_id
              (judgement audit rule_pack policy
                (audit_facts audit_id (states_given audit_id db given) db.facts)
                blocks)
              (determine_applicability audit rule_pack)
              (states_given audit_id db given)
              rule_pack.rules
            ≡ ok drafts)
  unfolding evaluate_audit_compliance
  evaluate_audit_compliance-run db audit_id organization_id rule_pack policy given blocks h =
      let states : List EffectiveState = states_given audit_id db given in
      let judged : Audit → Result (List FindingDraft) = λ audit.
        judge_rules finding_id
          (judgement audit rule_pack policy (audit_facts audit_id states db.facts) blocks)
          (determine_applicability audit rule_pack) states rule_pack.rules in
      let (audit, e, h1) =
        >>=-eq-ok (or_refuse (audit_of audit_id organization_id db.audits) "Audit was not found")
          (λ audit.
            check_boundaries audit organization_id policy states blocks >>= λ u. judged audit)
          h in
      let (u, checked, h2) =
        >>=-eq-ok (check_boundaries audit organization_id policy states blocks) (λ u. judged audit)
          h1 in
      (
        audit,
        or_refuse-eq (audit_of audit_id organization_id db.audits) "Audit was not found" e,
        check_boundaries-processing audit organization_id policy states blocks checked,
        h2,
      )

  -- The verdicts of an audit are grounded: each finding is about a rule of the pack, and it passes or
  -- fails only if the audit is the organisation's and being processed, the pack is made for the
  -- profile that was resolved, and a state of the field that the rule requires, among those that are
  -- given or kept for the audit, is resolved and its value evaluates to this verdict under the rule's
  -- condition and the policy's parameter; and it passes only if no unresolved block is about the rule.
  pub evaluate_audit_compliance-Rests :
      (db : Database) (audit_id organization_id : ℕ) (rule_pack : RulePack)
      (policy : Option OrganizationPolicyVersion) (given : Option (List EffectiveState))
      (blocks : List UnresolvedBlock) {drafts : List FindingDraft}
      → evaluate_audit_compliance finding_id db audit_id organization_id rule_pack policy given
          blocks
        ≡ ok drafts
      → (audit : Audit) × (audit_of audit_id organization_id db.audits ≡ some audit)
        × (is_processing audit ≡ true)
        × All
            (λ d.
              (rule : RuleDefinition) × In rule rule_pack.rules
              × Rests
                  (judgement audit rule_pack policy
                    (audit_facts audit_id (states_given audit_id db given) db.facts)
                    blocks)
                  (determine_applicability audit rule_pack)
                  (states_given audit_id db given)
                  rule
                  d)
            drafts
  evaluate_audit_compliance-Rests db audit_id organization_id rule_pack policy given blocks h =
      let states : List EffectiveState = states_given audit_id db given in
      let (audit, found, active, run) =
        evaluate_audit_compliance-run db audit_id organization_id rule_pack policy given blocks h in
      (
        audit,
        found,
        active,
        judge_rules-Rests
            (judgement audit rule_pack policy (audit_facts audit_id states db.facts) blocks)
            (determine_applicability audit rule_pack) states rule_pack.rules run,
      )
