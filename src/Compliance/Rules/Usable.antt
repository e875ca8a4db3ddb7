-- ===== src/Compliance/Rules/Usable.antt =====
-- What the validation of a pack gives its rules (backend/app/compliance/rule_registry.py).
use security_configuration_a.Base.{
  ◌≡◌, refl, Bool, true, false, not, ◌||◌, Option, some, none, List, [], ◌∷◌, Text, codes, All,
  All-In, In-All, subst, any, length, ◌==◌, is_some, arith, is_empty, In, inl, inr, sym, ℕ,
}
use security_configuration_a.Base.Json.{
  Json, json_null, json_bool, json_int, json_str, json_list, json_dict, get,
}
use security_configuration_a.Base.Str.{text_eq}
use security_configuration_a.Base.Result.{
  Result, ok, ◌>>=◌, ◌>>◌, refuse_if, map_result, >>=-eq-ok, raised-ne-ok, refuse_if-false,
  map_result-In,
}
use security_configuration_a.Compliance.Evaluator.{value_or_null}
use security_configuration_a.Compliance.Evaluator.Raising.{HasKeys}
use security_configuration_a.Compliance.Rules.{
  RuleDefinition, RulePack, is_blank, has_repeat, check_operator, check_minimum, check_enum,
  operator_in, validate_framework_references, validate_rule, validate_pack, rule_ids,
}

-- The rule has an identifier, one field, and the keys that its operator reads.
unfoldable pub IsUsable : RuleDefinition → Type 0
IsUsable rule =
    (is_blank rule.rule_id ≡ false)
    × (length rule.required_effective_states ≡ 1)
    × HasKeys rule.condition

-- A rule that asks for equality says with what.
unfoldable pub HasExpected : RuleDefinition → Type 0
HasExpected rule =
    (operator : Text)
    → get (codes "operator") rule.condition ≡ some (json_str operator)
    → text_eq operator (codes "equals") ≡ true
    → is_some (get (codes "expected") rule.condition) ≡ true

check_operator-text :
    (o : Option Json) {u : Unit {0}}
    → check_operator (value_or_null o) ≡ ok u
    → (operator : Text) × (o ≡ some (json_str operator))
unfolding check_operator
check_operator-text none h = raised-ne-ok h
check_operator-text (some json_null) h = raised-ne-ok h
check_operator-text (some (json_bool b)) h = raised-ne-ok h
check_operator-text (some (json_int n)) h = raised-ne-ok h
check_operator-text (some (json_str s)) h = (s, refl)
check_operator-text (some (json_list js)) h = raised-ne-ok h
check_operator-text (some (json_dict d)) h = raised-ne-ok h

is-one : (n : ℕ) → not (n == 1) ≡ false → n ≡ 1
is-one n h = ground arith

not-or : (t u : Bool) → (t || u) ≡ false → u ≡ false
not-or true u h = absurd cc
not-or false u h = h

blank-In :
    (rules : List RuleDefinition) (rule : RuleDefinition)
    → any is_blank (rule_ids rules) ≡ false
    → In rule rules
    → is_blank rule.rule_id ≡ false
blank-In [] rule h i = absurd i
blank-In (r ∷ rs) rule h (inl e) = subst (λ x. is_blank x.rule_id ≡ false) (sym e) (ground arith)
blank-In (r ∷ rs) rule h (inr i) =
    blank-In rs rule (not-or (is_blank r.rule_id) (any is_blank (rule_ids rs)) h) i

validate_rule-IsUsable :
    (rule : RuleDefinition) {u : Unit {0}}
    → validate_rule rule ≡ ok u
    → is_blank rule.rule_id ≡ false
    → HasExpected rule
    → IsUsable rule
unfolding validate_rule IsUsable HasKeys HasExpected
validate_rule-IsUsable rule h named expected =
    let after_operator : Result (Unit {0}) =
      check_minimum (operator_in rule.condition)
        (value_or_null (get (codes "minimum_exclusive") rule.condition))
      >> (check_enum (operator_in rule.condition) rule.condition
          >> validate_framework_references [] rule.framework_references) in
    let (v, one, h1) =
      >>=-eq-ok {A = Unit {0}}
        (refuse_if (not (length rule.required_effective_states == 1))
          "Only single-field rules are supported in Step 7.1")
        (λ v. check_operator (operator_in rule.condition) >> after_operator) h in
    let (w, checked, h2) =
      >>=-eq-ok {A = Unit {0}} (check_operator (operator_in rule.condition)) (λ w. after_operator)
        h1 in
    let (operator, e) = check_operator-text (get (codes "operator") rule.condition) checked in
    (
      named,
      is-one (length rule.required_effective_states) (
          refuse_if-false (not (length rule.required_effective_states == 1))
            "Only single-field rules are supported in Step 7.1" one),
      (operator, e, expected operator e),
    )

-- The rules of a valid pack are usable, if those that ask for equality say with what.
pub validate_pack-IsUsable :
    (pack : RulePack)
    → validate_pack pack ≡ ok tt
    → All HasExpected pack.rules
    → All IsUsable pack.rules
unfolding validate_pack
validate_pack-IsUsable pack h expected =
    let malformed : Bool = is_blank pack.name || is_blank pack.version || is_empty pack.rules in
    let repeated : Bool = has_repeat (rule_ids pack.rules) || any is_blank (rule_ids pack.rules) in
    let unversioned : Bool =
      not (text_eq pack.schema_version (codes "1.0.0")) || is_blank pack.profile_version_id in
    let each : Result (Unit {0}) = map_result validate_rule pack.rules >>= λ checked. ok tt in
    let (u, e1, h1) =
      >>=-eq-ok {A = Unit {0}} (refuse_if malformed "Rule pack is malformed")
        (λ u.
          refuse_if repeated "Rule pack has duplicate or malformed rule IDs"
          >> (refuse_if unversioned "Rule pack is malformed" >> each))
        h in
    let (v, e2, h2) =
      >>=-eq-ok {A = Unit {0}} (refuse_if repeated "Rule pack has duplicate or malformed rule IDs")
        (λ v. refuse_if unversioned "Rule pack is malformed" >> each) h1 in
    let (w, e3, h3) =
      >>=-eq-ok {A = Unit {0}} (refuse_if unversioned "Rule pack is malformed") (λ w. each) h2 in
    let (checked, e4, h4) = >>=-eq-ok (map_result validate_rule pack.rules) (λ checked. ok tt) h3 in
    let named : any is_blank (rule_ids pack.rules) ≡ false =
      not-or (has_repeat (rule_ids pack.rules)) (any is_blank (rule_ids pack.rules))
        (refuse_if-false repeated "Rule pack has duplicate or malformed rule IDs" e2) in
    In-All IsUsable pack.rules (λ rule i.
      let (z, j, e) = map_result-In validate_rule pack.rules rule e4 i in
      validate_rule-IsUsable rule e (blank-In pack.rules rule named i)
        (All-In HasExpected rule pack.rules expected i))
