-- ===== src/Compliance/Service/Verdicts.antt =====
-- The verdicts of an audit (backend/app/compliance/service.py).
use security_configuration_a.Base.{
  ◌≡◌, refl, true, Bool, not, ◌&&◌, is_empty, sym, codes, Option, none, some, List, [], ◌∷◌, inl,
  inr, subst, Bool-cases, chosen, passed_on,
}
use security_configuration_a.Base.Json.{json_null, Fields, get}
use security_configuration_a.Base.Result.{
  Result, ok, raised, refuse_if, >>=-eq-ok, ok-eq, raised-ne-ok,
}
use security_configuration_a.Compliance.Evaluator.{is_evaluation_error}
use security_configuration_a.Compliance.Evaluator.{
  FindingVerdict, pass, fail, unknown, manual_review, not_applicable, process_error,
  evaluate_condition,
}
use security_configuration_a.Compliance.Rules.{RuleDefinition}
use security_configuration_a.Compliance.Findings.{
  EffectiveState, UnresolvedBlock, Outcome, expected_of,
}
use security_configuration_a.Compliance.Judgement.{
  Judgement, judge_state, judge_resolved, caught, evaluated, parameter_of, verdict_outcome,
  pass_outcome, is_unavailable, unresolved_reason_of, required_parameter, is_resolved, blockers,
  about, judge_with, parameter_value, asks_unhashable,
}
use security_configuration_a.Compliance.Evidence.{state_evidence}

-- The state is resolved, and its value meets or fails the condition of the rule, with the policy's
-- parameter.
unfoldable pub Decides : Judgement → RuleDefinition → FindingVerdict → EffectiveState → Type 0
Decides j rule verdict state =
    (is_resolved state ≡ true)
    × (value : Fields) × (state.effective_value ≡ some value)
    × (evaluate_condition rule.condition value (parameter_of j rule) ≡ ok verdict)

-- What a verdict on a state rests on: a failure, on the evaluation; a pass also on there being no
-- evidence about the rule that was not understood.
unfoldable pub IsEarned : Judgement → RuleDefinition → EffectiveState → FindingVerdict → Type 0
IsEarned j rule state pass =
    Decides j rule pass state × (blockers j.rule_pack j.blocks rule.rule_id ≡ [])
IsEarned j rule state fail = Decides j rule fail state
IsEarned j rule state _ = Unit {0}

-- The outcome is about the scope of the state, and its verdict is earned.
unfoldable pub IsSound : Judgement → RuleDefinition → EffectiveState → Outcome → Type 0
IsSound j rule state o = (o.scope ≡ some state.scope) × IsEarned j rule state o.verdict

verdict_outcome-IsSound :
    (j : Judgement) (rule : RuleDefinition) (state : EffectiveState) (verdict : FindingVerdict)
    (expected : Fields)
    → Decides j rule verdict state
    → IsSound j rule state (verdict_outcome j rule state verdict expected)
unfolding verdict_outcome IsSound IsEarned
verdict_outcome-IsSound j rule state pass expected d =
    pass-IsSound (blockers j.rule_pack j.blocks rule.rule_id) refl
  where
    pass-IsSound :
        (blocking : List UnresolvedBlock)
        → blockers j.rule_pack j.blocks rule.rule_id ≡ blocking
        → IsSound j rule state (pass_outcome j state expected blocking)
    pass-IsSound [] e = (refl, (d, e))
    pass-IsSound (b ∷ bs) e = (refl, tt)
verdict_outcome-IsSound j rule state fail expected d = (refl, d)
verdict_outcome-IsSound j rule state unknown expected d = (refl, tt)
verdict_outcome-IsSound j rule state manual_review expected d = (refl, tt)
verdict_outcome-IsSound j rule state not_applicable expected d = (refl, tt)
verdict_outcome-IsSound j rule state process_error expected d = (refl, tt)

caught-IsSound :
    (j : Judgement) (rule : RuleDefinition) (state : EffectiveState) (r : Result FindingVerdict)
    {o : Outcome}
    → ((verdict : FindingVerdict) → r ≡ ok verdict → Decides j rule verdict state)
    → caught j rule state (parameter_of j rule) r ≡ ok o
    → IsSound j rule state o
unfolding caught IsSound IsEarned
caught-IsSound j rule state (ok verdict) {o} d h =
    let (expected, e, h1) =
      >>=-eq-ok (expected_of rule (parameter_of j rule))
        (λ expected. ok (verdict_outcome j rule state verdict expected)) h in
    let e1 : verdict_outcome j rule state verdict expected ≡ o = cc in
    subst (IsSound j rule state) e1
      (verdict_outcome-IsSound j rule state verdict expected (d verdict refl))
caught-IsSound j rule state (raised message) {o} d h =
    elim (Bool-cases (is_evaluation_error message)) [
      | inl e ↦
          let e1 : about state process_error state.effective_value none none
                (state_evidence j.facts state)
              ≡ o =
            ok-eq (chosen (is_evaluation_error message) _ _ e h) in
          subst (IsSound j rule state) e1 (refl, tt)
      | inr e ↦ raised-ne-ok (passed_on (is_evaluation_error message) _ _ e h)
    ]

evaluated-Decides :
    (j : Judgement) (rule : RuleDefinition) (state : EffectiveState) (verdict : FindingVerdict)
    (value : Option Fields)
    → is_resolved state ≡ true
    → state.effective_value ≡ value
    → evaluated rule value (parameter_of j rule) ≡ ok verdict
    → Decides j rule verdict state
unfolding evaluated Decides
evaluated-Decides j rule state verdict none r e h = cc
evaluated-Decides j rule state verdict (some value) r e h = (r, value, e, h)

judge_with-IsSound :
    (j : Judgement) (rule : RuleDefinition) (state : EffectiveState) {o : Outcome}
    → is_resolved state ≡ true
    → judge_with j rule state (parameter_value j.policy rule) ≡ ok o
    → IsSound j rule state o
unfolding judge_with IsSound IsEarned
judge_with-IsSound j rule state {o} r h =
    elim (Bool-cases (is_unavailable (parameter_value j.policy rule))) [
      | inl u ↦
          let (expected, e, h1) =
            >>=-eq-ok (expected_of rule json_null)
              (λ expected. ok (
                about state manual_review state.effective_value (some expected) none
                  (state_evidence j.facts state)))
              (chosen (is_unavailable (parameter_value j.policy rule)) _ _ u h) in
          subst (IsSound j rule state) (ok-eq h1) (refl, tt)
      | inr u ↦
          caught-IsSound j rule state (evaluated rule state.effective_value (parameter_of j rule))
            (λ verdict e. evaluated-Decides j rule state verdict state.effective_value r refl e)
            (passed_on (is_unavailable (parameter_value j.policy rule)) _ _ u h)
    ]

judge_resolved-IsSound :
    (j : Judgement) (rule : RuleDefinition) (state : EffectiveState) {o : Outcome}
    → is_resolved state ≡ true
    → judge_resolved j rule state ≡ ok o
    → IsSound j rule state o
unfolding judge_resolved required_parameter
judge_resolved-IsSound j rule state {o} r h =
    let test : Bool =
      not (is_empty rule.required_policy_parameters)
      && asks_unhashable j.policy (get (codes "parameter") rule.condition) in
    let (read, e, h1) =
      >>=-eq-ok (required_parameter j.policy rule) (λ parameter. judge_with j rule state parameter)
        h in
    let (u, _, e1) =
      >>=-eq-ok {A = Unit {0}} (refuse_if test "TypeError: unhashable type")
        (λ u. ok (parameter_value j.policy rule)) e in
    judge_with-IsSound j rule state r
      (subst (λ p. judge_with j rule state p ≡ ok o) (sym (ok-eq e1)) h1)

pub judge_state-IsSound :
    (j : Judgement) (rule : RuleDefinition) (state : EffectiveState) {o : Outcome}
    → judge_state j rule state ≡ ok o
    → IsSound j rule state o
unfolding judge_state IsSound IsEarned
judge_state-IsSound j rule state {o} h = elim (Bool-cases (is_resolved state)) [
  | inl r ↦ judge_resolved-IsSound j rule state r (chosen (is_resolved state) _ _ r h)
  | inr r ↦
      let e1 : about state unknown none none (unresolved_reason_of state)
            (state_evidence j.facts state)
          ≡ o =
        ok-eq (passed_on (is_resolved state) _ _ r h) in
      subst (IsSound j rule state) e1 (refl, tt)
]
