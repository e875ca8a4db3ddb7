-- ===== src/Compliance/Service/Coverage.antt =====
-- No rule and no state is left without a finding (backend/app/compliance/service.py).
use security_configuration_a.Base.{
  ℕ, ◌≡◌, refl, Option, some, none, List, [], ◌∷◌, ◌++◌, Text, In, All, All-map, inl, subst, ◌∙◌,
  In-append_left, In-append_right, In-keep_intro,
}
use security_configuration_a.Base.Sort.{head}
use security_configuration_a.Base.Str.{text_eq_iff}
use security_configuration_a.Base.Result.{
  Result, ok, raised, ◌>>=◌, >>=-eq-ok, ok-eq, raised-ne-ok, map_result, map_result-In,
}
use security_configuration_a.Effective.Drafts.{missing_evidence}
use security_configuration_a.Compliance.Evaluator.{unknown, not_applicable}
use security_configuration_a.Compliance.Rules.{RuleDefinition, RulePack}
use security_configuration_a.Compliance.Policy.{OrganizationPolicyVersion}
use security_configuration_a.Compliance.Findings.{
  Audit, EffectiveState, UnresolvedBlock, FindingDraft, Outcome, draft_finding,
}
use security_configuration_a.Compliance.Judgement.{
  Applicability, applicable, profile_not_applicable, applicability_unresolved, Judgement,
  judge_rule, judge_state, draft_outcome, unscoped, determine_applicability,
}
use security_configuration_a.Compliance.Evidence.{audit_facts}
use security_configuration_a.Compliance.Service.Verdicts.{IsSound, judge_state-IsSound}
use security_configuration_a.Compliance.Service.Grounds.{evaluate_audit_compliance-run}
use security_configuration_a.Compliance.Service.Rests.{draft_finding-eq}
use security_configuration_a.Compliance.Service.{
  Database, in_field, states_of_field, states_read, states_given, audit_of, judgement, judge_rules,
  evaluate_audit_compliance,
}

-- There is a finding about the rule, with this scope.
unfoldable pub IsReported : List FindingDraft → RuleDefinition → Type 0
IsReported drafts rule = (d : FindingDraft) × In d drafts × (d.rule_id ≡ rule.rule_id)

-- There is a finding about the rule and the state's scope.
unfoldable pub IsJudged : List FindingDraft → RuleDefinition → EffectiveState → Type 0
IsJudged drafts rule state =
    (d : FindingDraft) × In d drafts
    × (d.rule_id ≡ rule.rule_id)
    × (d.affected_scope ≡ some state.scope)

states_read-judged :
    (states : List EffectiveState) (fields : List Text) {read : List EffectiveState}
    (s : EffectiveState)
    → states_of_field states fields ≡ ok read
    → In s states
    → head fields ≡ some s.field_id
    → In s read
unfolding states_of_field
states_read-judged states [] s h i e = raised-ne-ok h
states_read-judged states (field_id ∷ rest) s h i e =
    subst (In s) (ok-eq h)
      (In-keep_intro (in_field field_id) s states i ((text_eq_iff s.field_id field_id).1 cc))

IsReported-append :
    (xs ys : List FindingDraft) (rule : RuleDefinition)
    → IsReported ys rule
    → IsReported (xs ++ ys) rule
unfolding IsReported
IsReported-append xs ys rule (d, i, e) = (d, In-append_right d xs ys i, e)

IsReported-before :
    (xs ys : List FindingDraft) (rule : RuleDefinition)
    → IsReported xs rule
    → IsReported (xs ++ ys) rule
unfolding IsReported
IsReported-before xs ys rule (d, i, e) = (d, In-append_left d xs ys i, e)

IsJudged-append :
    (xs ys : List FindingDraft) (rule : RuleDefinition) (s : EffectiveState)
    → IsJudged ys rule s
    → IsJudged (xs ++ ys) rule s
unfolding IsJudged
IsJudged-append xs ys rule s (d, i, e, scope) = (d, In-append_right d xs ys i, e, scope)

IsJudged-before :
    (xs ys : List FindingDraft) (rule : RuleDefinition) (s : EffectiveState)
    → IsJudged xs rule s
    → IsJudged (xs ++ ys) rule s
unfolding IsJudged
IsJudged-before xs ys rule s (d, i, e, scope) = (d, In-append_left d xs ys i, e, scope)

-- The rule is reported, and so is each state of its field if the rule applies.
abbrev pub IsCovered :
    Applicability → List EffectiveState → List FindingDraft → RuleDefinition → Type 0
IsCovered applicability states drafts rule =
    IsReported drafts rule
    × (applicability ≡ applicable
        → (s : EffectiveState) → In s states
        → head rule.required_effective_states ≡ some s.field_id
        → IsJudged drafts rule s)

module _ (finding_id : ℕ → Text → Text → ℕ) where
  draft_outcome-rule :
      (j : Judgement) (rule : RuleDefinition) (r : Result Outcome) {d : FindingDraft}
      → draft_outcome finding_id j rule r ≡ ok d
      → d.rule_id ≡ rule.rule_id
  unfolding draft_outcome
  draft_outcome-rule j rule (ok o) h = (draft_finding-eq finding_id rule j.rule_pack j.audit o h).0
  draft_outcome-rule j rule (raised m) h = raised-ne-ok h

  draft_outcome-scope :
      (j : Judgement) (rule : RuleDefinition) (s : EffectiveState) {d : FindingDraft}
      → draft_outcome finding_id j rule (judge_state j rule s) ≡ ok d
      → d.affected_scope ≡ some s.scope
  unfolding draft_outcome IsSound
  draft_outcome-scope j rule s h =
      let (o, e, h1) =
        >>=-eq-ok (judge_state j rule s) (λ o. draft_finding finding_id rule j.rule_pack j.audit o)
          h in
      (draft_finding-eq finding_id rule j.rule_pack j.audit o h1).3
      ∙ (judge_state-IsSound j rule s e).0

  -- A loop that has a turn reports the rule.
  map_result-IsReported :
      {A : Type 0} (j : Judgement) (rule : RuleDefinition) (f : A → Result Outcome) (a : A)
      (rest : List A) {drafts : List FindingDraft}
      → map_result (λ x. draft_outcome finding_id j rule (f x)) (a ∷ rest) ≡ ok drafts
      → IsReported drafts rule
  unfolding IsReported
  map_result-IsReported j rule f a rest h =
      let (d, i, e) =
        map_result-In (λ x. draft_outcome finding_id j rule (f x)) (a ∷ rest) a h (inl refl) in
      (d, i, draft_outcome-rule j rule (f a) e)

  judge_rule-IsReported :
      (j : Judgement) (applicability : Applicability) (rule : RuleDefinition)
      (read : List EffectiveState) {drafts : List FindingDraft}
      → judge_rule finding_id j applicability rule read ≡ ok drafts
      → IsReported drafts rule
  unfolding judge_rule
  judge_rule-IsReported j profile_not_applicable rule read h =
      map_result-IsReported j rule (λ r. r) (ok (unscoped not_applicable none)) [] h
  judge_rule-IsReported j (applicability_unresolved reason) rule read h =
      map_result-IsReported j rule (λ r. r) (ok (unscoped unknown (some reason))) [] h
  judge_rule-IsReported j applicable rule [] h =
      map_result-IsReported j rule (λ r. r) (ok (unscoped unknown (some missing_evidence))) [] h
  judge_rule-IsReported j applicable rule (s ∷ ss) h =
      map_result-IsReported j rule (judge_state j rule) s ss h

  judge_rule-IsJudged :
      (j : Judgement) (rule : RuleDefinition) (read : List EffectiveState) (s : EffectiveState)
      {drafts : List FindingDraft}
      → judge_rule finding_id j applicable rule read ≡ ok drafts
      → In s read
      → IsJudged drafts rule s
  unfolding judge_rule IsJudged
  judge_rule-IsJudged j rule [] s h i = absurd i
  judge_rule-IsJudged j rule (t ∷ ts) s h i =
      let (d, k, e) =
        map_result-In (λ x. draft_outcome finding_id j rule (judge_state j rule x)) (t ∷ ts) s h
          i in
      (d, k, draft_outcome-rule j rule (judge_state j rule s) e, draft_outcome-scope j rule s e)

  judge_rule-IsCovered :
      (j : Judgement) (applicability : Applicability) (states : List EffectiveState)
      (rule : RuleDefinition) (read : List EffectiveState) {drafts : List FindingDraft}
      → states_read applicability states rule ≡ ok read
      → judge_rule finding_id j applicability rule read ≡ ok drafts
      → IsCovered applicability states drafts rule
  unfolding states_read
  judge_rule-IsCovered j applicable states rule read e h = (
    judge_rule-IsReported j applicable rule read h,
    λ a s i field.
        judge_rule-IsJudged j rule read s h
          (states_read-judged states rule.required_effective_states s e i field),
  )
  judge_rule-IsCovered j profile_not_applicable states rule read e h =
      (judge_rule-IsReported j profile_not_applicable rule read h, λ a. absurd cc)
  judge_rule-IsCovered j (applicability_unresolved reason) states rule read e h =
      (judge_rule-IsReported j (applicability_unresolved reason) rule read h, λ a. absurd cc)

  judge_rules-IsCovered :
      (j : Judgement) (applicability : Applicability) (states : List EffectiveState)
      (rules : List RuleDefinition) {drafts : List FindingDraft}
      → judge_rules finding_id j applicability states rules ≡ ok drafts
      → All (IsCovered applicability states drafts) rules
  unfolding judge_rules
  judge_rules-IsCovered j applicability states [] h = tt
  judge_rules-IsCovered j applicability states (rule ∷ rules) h =
      let (read, e1, h1) =
        >>=-eq-ok (states_read applicability states rule)
          (λ read. judge_rule finding_id j applicability rule read >>= λ drafts.
            judge_rules finding_id j applicability states rules >>= λ rest. ok (drafts ++ rest))
          h in
      let (first, e2, h2) =
        >>=-eq-ok (judge_rule finding_id j applicability rule read)
          (λ drafts.
            judge_rules finding_id j applicability states rules >>= λ rest. ok (drafts ++ rest))
          h1 in
      let (rest, e3, h3) =
        >>=-eq-ok (judge_rules finding_id j applicability states rules) (λ rest. ok (first ++ rest))
          h2 in
      let (reported, judged) = judge_rule-IsCovered j applicability states rule read e1 e2 in
      subst (λ ds. All (IsCovered applicability states ds) (rule ∷ rules)) (ok-eq h3)
        (
          (
            IsReported-before first rest rule reported,
            λ a s i field. IsJudged-before first rest rule s (judged a s i field),
          ),
          All-map (IsCovered applicability states rest)
              (IsCovered applicability states (first ++ rest)) rules
              (λ r (known, each). (
                IsReported-append first rest r known,
                λ a s i field. IsJudged-append first rest r s (each a s i field),
              ))
              (judge_rules-IsCovered j applicability states rules e3),
        )

  -- Nothing is passed over: every rule of the pack has a finding and, if the pack is made for the
  -- profile that was resolved, every state of the field that the rule requires has a finding of its
  -- own, about the rule and the state's scope.
  pub evaluate_audit_compliance-IsCovered :
      (db : Database) (audit_id organization_id : ℕ) (rule_pack : RulePack)
      (policy : Option OrganizationPolicyVersion) (given : Option (List EffectiveState))
      (blocks : List UnresolvedBlock) {drafts : List FindingDraft}
      → evaluate_audit_compliance finding_id db audit_id organization_id rule_pack policy given
          blocks
        ≡ ok drafts
      → (audit : Audit) × (audit_of audit_id organization_id db.audits ≡ some audit)
        × All
            (IsCovered
              (determine_applicability audit rule_pack)
              (states_given audit_id db given)
              drafts)
            rule_pack.rules
  evaluate_audit_compliance-IsCovered db audit_id organization_id rule_pack policy given blocks h =
      let states : List EffectiveState = states_given audit_id db given in
      let (audit, found, active, run) =
        evaluate_audit_compliance-run finding_id db audit_id organization_id rule_pack policy given
          blocks h in
      (
        audit,
        found,
        judge_rules-IsCovered
            (judgement audit rule_pack policy (audit_facts audit_id states db.facts) blocks)
            (determine_applicability audit rule_pack) states rule_pack.rules run,
      )
