-- ===== src/Compliance/Examples.antt =====
-- A duration judged by a maximum (backend/app/compliance/evaluator.py).
mod Audits
use security_configuration_a.Base.{◌≡◌, refl, some, Text, codes}
use security_configuration_a.Base.Str.{text_eq, mem_text}
use security_configuration_a.Base.Json.{json_int, json_str, Fields, field, end, get, pos}
use security_configuration_a.Base.Result.{ok}
use security_configuration_a.Compliance.Evaluator.{pass, evaluate_condition, value_or_null}
use security_configuration_a.Compliance.Evaluator.Passes.{Meets, evaluate_condition-Meets}

abbrev condition : Fields
condition =
    field (codes "operator") (json_str (codes "less_than_or_equal"))
      (field (codes "minimum_exclusive") (json_int (pos 0)) end)

abbrev value : Fields
value =
    field (codes "type") (json_str (codes "duration"))
      (field (codes "value") (json_int (pos 300)) end)

passes_runs : evaluate_condition condition value (json_int (pos 600)) ≡ ok pass
unfolding evaluate_condition get text_eq mem_text
passes_runs = refl

evaluate_condition-Meets_example :
    (operator : Text) × (get (codes "operator") condition ≡ some (json_str operator))
    × Meets condition (value_or_null (get (codes "value") value)) (json_int (pos 600)) operator
evaluate_condition-Meets_example =
    evaluate_condition-Meets condition value (json_int (pos 600)) passes_runs
