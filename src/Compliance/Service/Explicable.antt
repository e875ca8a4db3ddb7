-- ===== src/Compliance/Service/Explicable.antt =====
-- The judgement of a state ends with an outcome that can be explained (backend/app/compliance/service.py).
use security_configuration_a.Base.{
  ◌≡◌, refl, Bool, true, false, Option, some, none, List, [], ◌∷◌, is_some, arith, ◌⊎◌, not, ◌&&◌,
  is_empty, codes, subst, if◌then◌else◌,
}
use security_configuration_a.Base.Json.{Json, json_null, Fields, get}
use security_configuration_a.Base.Result.{Result, ok, raised, ◌>>=◌, raised-ne-ok}
use security_configuration_a.Base.Oks.{IsOk, IsOk->>=, IsOk-ok, IsOk-or_refuse}
use security_configuration_a.Effective.Drafts.{UnresolvedReason}
use security_configuration_a.Compliance.Evaluator.{
  FindingVerdict, pass, fail, unknown, manual_review, not_applicable, process_error, is_unhashable,
  value_or_null,
}
use security_configuration_a.Compliance.Evaluator.Raising.{
  HasKeys, IsCatchable, evaluate_condition-IsCatchable,
}
use security_configuration_a.Compliance.Evaluator.Binary.{IsBinary, evaluate_condition-IsBinary}
use security_configuration_a.Compliance.Rules.{RuleDefinition}
use security_configuration_a.Compliance.Policy.{OrganizationPolicyVersion}
use security_configuration_a.Compliance.Findings.{
  EffectiveState, UnresolvedBlock, Outcome, expected_of, explain,
}
use security_configuration_a.Compliance.Evidence.{state_evidence}
use security_configuration_a.Compliance.Judgement.{
  Judgement, judge_state, judge_resolved, is_resolved, unresolved_reason_of, caught, evaluated,
  required_parameter, is_unavailable, about, pass_outcome, verdict_outcome, blockers, judge_with,
  parameter_value, asks_unhashable,
}

-- An unknown outcome has a reason.
unfoldable pub HasReason : Outcome → Type 0
HasReason o = o.verdict ≡ unknown → is_some o.reason ≡ true

expected_of-IsOk :
    (rule : RuleDefinition) (parameter : Json)
    → HasKeys rule.condition
    → IsOk (expected_of rule parameter)
unfolding expected_of HasKeys
expected_of-IsOk rule parameter (operator, e, k) = search (IsOk->>=, IsOk-or_refuse, IsOk-ok, e)

pub explain-IsOk :
    (verdict : FindingVerdict) (rule : RuleDefinition) (observed : Option Fields)
    (reason : Option UnresolvedReason)
    → HasKeys rule.condition
    → (verdict ≡ unknown → is_some reason ≡ true)
    → IsOk (explain verdict rule observed reason)
unfolding explain HasKeys
explain-IsOk pass rule observed reason (operator, e, k) h =
    search (IsOk->>=, IsOk-or_refuse, IsOk-ok, e)
explain-IsOk fail rule observed reason (operator, e, k) h =
    search (IsOk->>=, IsOk-or_refuse, IsOk-ok, e)
explain-IsOk unknown rule observed none keys h = absurd (let k = h refl in cc)
explain-IsOk unknown rule observed (some r) keys h = IsOk-ok _
explain-IsOk manual_review rule observed reason keys h = IsOk-ok _
explain-IsOk not_applicable rule observed reason keys h = IsOk-ok _
explain-IsOk process_error rule observed reason keys h = IsOk-ok _

-- The type that the value names is no list or dictionary.
unfoldable pub HasPlainType : Fields → Type 0
HasPlainType value = is_unhashable (value_or_null (get (codes "type") value)) ≡ false

-- A state has what its status asks for: a value with a plain type if it is resolved, and otherwise a
-- reason.
unfoldable pub IsReadable : EffectiveState → Type 0
IsReadable state =
    (is_resolved state ≡ true
      → (value : Fields) × (state.effective_value ≡ some value) × HasPlainType value)
    × (is_resolved state ≡ false → is_some (unresolved_reason_of state) ≡ true)

-- The outcome is there, and can be explained.
unfoldable pub IsExplicable : Result Outcome → Type 0
IsExplicable r = (o : Outcome) × (r ≡ ok o) × HasReason o

pass_outcome-HasReason :
    (j : Judgement) (state : EffectiveState) (expected : Fields) (blocking : List UnresolvedBlock)
    → HasReason (pass_outcome j state expected blocking)
unfolding pass_outcome HasReason
pass_outcome-HasReason j state expected [] h = absurd cc
pass_outcome-HasReason j state expected (b ∷ bs) h = refl

pub IsExplicable-ok : (o : Outcome) → HasReason o → IsExplicable (ok o)
unfolding IsExplicable
IsExplicable-ok o h = (o, refl, h)

if-IsExplicable :
    (t : Bool) (x y : Result Outcome)
    → (t ≡ true → IsExplicable x)
    → (t ≡ false → IsExplicable y)
    → IsExplicable (if t then x else y)
if-IsExplicable true x y hx hy = hx refl
if-IsExplicable false x y hx hy = hy refl

verdict_outcome-HasReason :
    (j : Judgement) (rule : RuleDefinition) (state : EffectiveState) (verdict : FindingVerdict)
    (expected : Fields)
    → (verdict ≡ pass) ⊎ (verdict ≡ fail)
    → HasReason (verdict_outcome j rule state verdict expected)
unfolding verdict_outcome HasReason
verdict_outcome-HasReason j rule state pass expected b =
    pass_outcome-HasReason j state expected (blockers j.rule_pack j.blocks rule.rule_id)
verdict_outcome-HasReason j rule state fail expected b = λ h. absurd cc
verdict_outcome-HasReason j rule state unknown expected b = absurd (ground arith)
verdict_outcome-HasReason j rule state manual_review expected b = λ h. absurd cc
verdict_outcome-HasReason j rule state not_applicable expected b = λ h. absurd cc
verdict_outcome-HasReason j rule state process_error expected b = λ h. absurd cc

IsExplicable->>= :
    {A : Type 0} (first : Result A) (next : A → Outcome)
    → IsOk first
    → ((a : A) → HasReason (next a))
    → IsExplicable (first >>= λ a. ok (next a))
unfolding IsOk IsExplicable
IsExplicable->>= (ok a) next h k = (next a, refl, k a)
IsExplicable->>= (raised m) next (a, e) k = raised-ne-ok e

caught-IsExplicable :
    (j : Judgement) (rule : RuleDefinition) (state : EffectiveState) (parameter : Json)
    (r : Result FindingVerdict)
    → HasKeys rule.condition
    → IsCatchable r
    → IsBinary r
    → IsExplicable (caught j rule state parameter r)
unfolding caught IsCatchable IsBinary HasReason
caught-IsExplicable j rule state parameter (ok verdict) keys c b =
    IsExplicable->>= (expected_of rule parameter) (verdict_outcome j rule state verdict)
      (expected_of-IsOk rule parameter keys)
      (λ expected. verdict_outcome-HasReason j rule state verdict expected b)
caught-IsExplicable j rule state parameter (raised message) keys c b =
    rw c (IsExplicable-ok _ (λ h. absurd cc))

evaluated-parts :
    (rule : RuleDefinition) (value : Option Fields) (parameter : Json)
    → HasKeys rule.condition
    → (given : Fields) × (value ≡ some given) × HasPlainType given
    → IsCatchable (evaluated rule value parameter) × IsBinary (evaluated rule value parameter)
unfolding evaluated HasPlainType
evaluated-parts rule none parameter keys (given, e, plain) = absurd cc
evaluated-parts rule (some value) parameter keys (given, e, plain) =
    let same : given ≡ value = cc in
    (
      evaluate_condition-IsCatchable rule.condition value parameter
          (subst
            (λ (fields : Fields). is_unhashable (value_or_null (get (codes "type") fields)) ≡ false)
            same plain)
          keys,
      evaluate_condition-IsBinary rule.condition value parameter,
    )

reviewed-HasReason :
    (state : EffectiveState) (expected : Fields) (evidence : List Fields)
    → HasReason (about state manual_review state.effective_value (some expected) none evidence)
unfolding HasReason
reviewed-HasReason state expected evidence h = absurd cc

judge_with-IsExplicable :
    (j : Judgement) (rule : RuleDefinition) (state : EffectiveState) (parameter : Option Json)
    → HasKeys rule.condition
    → (given : Fields) × (state.effective_value ≡ some given) × HasPlainType given
    → IsExplicable (judge_with j rule state parameter)
unfolding judge_with
judge_with-IsExplicable j rule state parameter keys h =
    let (c, b) = evaluated-parts rule state.effective_value (value_or_null parameter) keys h in
    if-IsExplicable (is_unavailable parameter) _ _
      (λ e.
        IsExplicable->>= (expected_of rule json_null)
          (λ expected.
            about state manual_review state.effective_value (some expected) none
              (state_evidence j.facts state))
          (expected_of-IsOk rule json_null keys)
          (λ expected. reviewed-HasReason state expected (state_evidence j.facts state)))
      (λ e.
        caught-IsExplicable j rule state (value_or_null parameter)
          (evaluated rule state.effective_value (value_or_null parameter)) keys c b)

-- The name of the parameter that a condition gives, if it gives one, is no list or dictionary.
unfoldable pub HasPlainParameter : RuleDefinition → Type 0
HasPlainParameter rule =
    is_unhashable (value_or_null (get (codes "parameter") rule.condition)) ≡ false

asks_unhashable-none :
    (policy : Option OrganizationPolicyVersion) (name : Option Json)
    → is_unhashable (value_or_null name) ≡ false
    → asks_unhashable policy name ≡ false
asks_unhashable-none none name h = refl
asks_unhashable-none (some policy) none h = refl
asks_unhashable-none (some policy) (some name) h = h

and-false : (a : Bool) {b : Bool} → b ≡ false → (a && b) ≡ false
and-false true h = h
and-false false h = refl

required_parameter-eq :
    (policy : Option OrganizationPolicyVersion) (rule : RuleDefinition)
    → HasPlainParameter rule
    → required_parameter policy rule ≡ ok (parameter_value policy rule)
unfolding required_parameter HasPlainParameter
required_parameter-eq policy rule plain =
    rw
      (and-false (not (is_empty rule.required_policy_parameters))
        (asks_unhashable-none policy (get (codes "parameter") rule.condition) plain))
      refl

judge_resolved-IsExplicable :
    (j : Judgement) (rule : RuleDefinition) (state : EffectiveState)
    → HasKeys rule.condition
    → HasPlainParameter rule
    → (given : Fields) × (state.effective_value ≡ some given) × HasPlainType given
    → IsExplicable (judge_resolved j rule state)
unfolding judge_resolved
judge_resolved-IsExplicable j rule state keys plain h =
    rw (required_parameter-eq j.policy rule plain)
      (judge_with-IsExplicable j rule state (parameter_value j.policy rule) keys h)

pub judge_state-IsExplicable :
    (j : Judgement) (rule : RuleDefinition) (state : EffectiveState)
    → HasKeys rule.condition
    → HasPlainParameter rule
    → IsReadable state
    → IsExplicable (judge_state j rule state)
unfolding judge_state IsReadable HasReason
judge_state-IsExplicable j rule state keys plain (value, reason) =
    if-IsExplicable (is_resolved state) _ _
      (λ e. judge_resolved-IsExplicable j rule state keys plain (value e))
      (λ e. IsExplicable-ok _ (λ h. reason e))
