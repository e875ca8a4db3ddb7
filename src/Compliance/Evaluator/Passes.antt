-- ===== src/Compliance/Evaluator/Passes.antt =====
-- What holds of a value that passes.
use security_configuration_a.Base.{
  chosen, passed_on, ◌≡◌, sym, ap, subst, inl, inr, true, Option, none, some, Text, codes,
  Bool-cases,
}
use security_configuration_a.Base.Str.{text_eq, eq_of_text_eq}
use security_configuration_a.Base.Json.{
  Json, json_str, json_list, Items, item, Fields, get, json_eq,
}
use security_configuration_a.Base.Result.{ok, >>=-eq-ok}
use security_configuration_a.Compliance.Evaluator.{
  pass, value_or_null, evaluate_operator, operator_of, evaluate_condition,
}
use security_configuration_a.Compliance.Evaluator.Ranges.{
  InRange, Ranked, less_than_or_equal-InRange, enum_at_least-Ranked, equals-eq,
}
use security_configuration_a.Compliance.Evaluator.Collections.{
  AllAllowed, all_members-AllAllowed, non_empty-item,
}

-- What each operator asks of the candidate.
pub data Meets (condition : Fields) (candidate parameter : Json) : Text → Type 0 where
  equal :
      (expected : Json)
      → get (codes "expected") condition ≡ some expected
      → json_eq candidate expected ≡ true
      → Meets condition candidate parameter (codes "equals")
  in_range :
      InRange condition candidate parameter
      → Meets condition candidate parameter (codes "less_than_or_equal")
  ranked : Ranked condition candidate → Meets condition candidate parameter (codes "enum_at_least")
  filled :
      (j : Json) (js : Items)
      → candidate ≡ json_list (item j js)
      → Meets condition candidate parameter (codes "non_empty")
  allowed :
      AllAllowed candidate parameter
      → Meets condition candidate parameter (codes "all_members_in_parameter_set")

operator-Meets :
    (operator : Text) (condition : Fields) (value_type candidate parameter : Json)
    → evaluate_operator operator condition value_type candidate parameter ≡ ok pass
    → Meets condition candidate parameter operator
unfolding evaluate_operator
operator-Meets operator condition value_type candidate parameter h =
    let M : Text → Type 0 = Meets condition candidate parameter in
    let at : (name : Text) → text_eq operator name ≡ true → M name → M operator =
      λ name e m. subst M (sym (eq_of_text_eq operator name e)) m in
    elim (Bool-cases (text_eq operator (codes "equals"))) [
      | inl e ↦
          let (x, y, z) = equals-eq condition value_type candidate (chosen _ _ _ e h) in
          at _ e (equal x y z)
      | inr e ↦
          let h = passed_on _ _ _ e h in
          elim (Bool-cases (text_eq operator (codes "less_than_or_equal"))) [
            | inl e ↦ at _ e (
                in_range (
                  less_than_or_equal-InRange condition value_type candidate parameter
                    (chosen _ _ _ e h)))
            | inr e ↦
                let h = passed_on _ _ _ e h in
                elim (Bool-cases (text_eq operator (codes "enum_at_least"))) [
                  | inl e ↦ at _ e (
                      ranked
                        (enum_at_least-Ranked condition value_type candidate (chosen _ _ _ e h)))
                  | inr e ↦
                      let h = passed_on _ _ _ e h in
                      elim (Bool-cases (text_eq operator (codes "non_empty"))) [
                        | inl e ↦
                            let (x, y, z) =
                              non_empty-item value_type candidate (chosen _ _ _ e h) in
                            at _ e (filled x y z)
                        | inr e ↦
                            let h = passed_on _ _ _ e h in
                            elim (Bool-cases
                              (text_eq operator (codes "all_members_in_parameter_set"))) [
                                | inl e ↦ at _ e (
                                    allowed (
                                      all_members-AllAllowed value_type candidate parameter
                                        (chosen _ _ _ e h)))
                                | inr e ↦ absurd (let k = passed_on _ _ _ e h in cc)
                              ]
                      ]
                ]
          ]
    ]

-- A value passes only if it meets the condition: it equals the expected value; or it is an integer above the
-- minimum, if there is one, and at most the policy's maximum; or it stands in the order at the expected
-- place or later; or it is a list that is not empty; or it is a list whose members are all texts of the
-- policy's list; whichever the operator of the condition asks for.
pub evaluate_condition-Meets :
    (condition value : Fields) (parameter : Json)
    → evaluate_condition condition value parameter ≡ ok pass
    → (operator : Text) × (get (codes "operator") condition ≡ some (json_str operator))
      × Meets condition (value_or_null (get (codes "value") value)) parameter operator
unfolding evaluate_condition
evaluate_condition-Meets condition value parameter h =
    let (operator, e, h) =
      >>=-eq-ok (operator_of (get (codes "operator") condition))
        (λ operator.
          evaluate_operator operator condition (value_or_null (get (codes "type") value))
            (value_or_null (get (codes "value") value)) parameter)
        h in
    (
      operator,
      named (get (codes "operator") condition) operator e,
      operator-Meets operator condition _ _ parameter h,
    )
  where
    named : (o : Option Json) (s : Text) → operator_of o ≡ ok s → o ≡ some (json_str s)
    named none s h = cc
    named (some (json_str t)) s h = ap (λ t. some (json_str t)) (let k : t ≡ s = cc in k)
    named (some _) s h = cc
