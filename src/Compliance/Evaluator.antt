-- ===== src/Compliance/Evaluator.antt =====
-- The evaluation of a condition on a value (backend/app/compliance/evaluator.py, verdicts.py).
pub mod Reading
pub mod Ranges
pub mod Collections
pub mod Passes
pub mod Raising
pub mod Binary
use security_configuration_a.Base.{
  ℕ, zero, suc, ◌+◌, Bool, true, false, not, ◌&&◌, ◌||◌, Option, none, some, List, [], ◌∷◌, Text,
  codes, if◌then◌else◌, ltb, leb, all, is_empty, ◌==◌, String,
}
use security_configuration_a.Base.Str.{text_eq, mem_text, starts_with}
use security_configuration_a.Base.Json.{
  Json, json_null, json_bool, json_int, json_str, json_list, json_dict, ℤ, pos, negsuc, int_le,
  Items, Fields, get, items, json_eq,
}
use security_configuration_a.Base.Result.{
  Result, ok, raised, ◌>>=◌, ◌>>◌, refuse_if, or_refuse, map_result,
}

pub data FindingVerdict : Type 0 where
  pass fail unknown manual_review not_applicable process_error : FindingVerdict

abbrev pub verdict_if : Bool → FindingVerdict
verdict_if true = pass
verdict_if false = fail

-- An `int` that is not a `bool`.
abbrev as_integer : Json → Option ℤ
as_integer (json_int n) = some n
as_integer _ = none

abbrev pub value_or_null : Option Json → Json
value_or_null none = json_null
value_or_null (some j) = j

abbrev has_type : List Text → Json → Bool
has_type names (json_str name) = mem_text name names
has_type names _ = false

-- A list or a dictionary, which no set or key can be compared with.
abbrev pub is_unhashable : Json → Bool
is_unhashable (json_list js) = true
is_unhashable (json_dict d) = true
is_unhashable _ = false

pub equals : Fields → Json → Json → Result FindingVerdict
equals condition value_type candidate = do
  refuse_if (is_unhashable value_type) "TypeError: unhashable type"
  refuse_if (not (has_type (codes "boolean" ∷ codes "integer" ∷ []) value_type))
      "TypedValue is incompatible with equality rule"
  expected ← or_refuse (get (codes "expected") condition) "KeyError: 'expected'"
  ok (verdict_if (json_eq candidate expected))

-- `minimum is None or candidate > minimum`
abbrev pub above : Option ℤ → ℤ → Bool
above none candidate = true
above (some minimum) candidate = not (int_le candidate minimum)

minimum_of : Json → Result (Option ℤ)
minimum_of json_null = ok none
minimum_of (json_int n) = ok (some n)
minimum_of _ = raised (codes "Rule minimum is malformed")

pub less_than_or_equal : Fields → Json → Json → Json → Result FindingVerdict
unfolding minimum_of
less_than_or_equal condition value_type candidate parameter = do
  refuse_if (not (has_type (codes "duration" ∷ []) value_type))
      "TypedValue is incompatible with duration rule"
  n ← or_refuse (as_integer candidate) "TypedValue is incompatible with duration rule"
  maximum ← or_refuse (as_integer parameter) "Policy maximum is malformed"
  minimum ← minimum_of (value_or_null (get (codes "minimum_exclusive") condition))
  ok (verdict_if (above minimum n && int_le n maximum))

-- `order.index(candidate)`, if it is in the order
unfoldable pub index_of : Json → List Json → Option ℕ
index_of candidate [] = none
index_of candidate (j ∷ js) =
    if json_eq candidate j
    then some 0
    else elim (index_of candidate js) [ none ↦ none | some n ↦ some (suc n) ]

abbrev pub is_text : Json → Bool
is_text (json_str s) = true
is_text _ = false

members_of_order : Json → Result (List Json)
members_of_order (json_list js) = ok (items js)
members_of_order _ = raised (codes "TypedValue is incompatible with ordered-enum rule")

pub enum_at_least : Fields → Json → Json → Result FindingVerdict
unfolding members_of_order index_of
enum_at_least condition value_type candidate = do
  refuse_if (not (has_type (codes "enum" ∷ []) value_type) || not (is_text candidate))
      "TypedValue is incompatible with ordered-enum rule"
  order ← members_of_order (value_or_null (get (codes "order") condition))
  i ← or_refuse (index_of candidate order) "TypedValue is incompatible with ordered-enum rule"
  j ←
      or_refuse (index_of (value_or_null (get (codes "expected") condition)) order)
        "TypedValue is incompatible with ordered-enum rule"
  ok (verdict_if (leb j i))

member_text : Option Json → Result Text
member_text (some (json_str s)) = ok s
member_text _ = raised (codes "Collection member is malformed")

collection_member : Json → Result Text
unfolding member_text
collection_member (json_dict d) = member_text (get (codes "value") d)
collection_member _ = raised (codes "Collection member is malformed")

collection : Json → Json → Result (List Text)
unfolding collection_member
collection value_type (json_list js) =
    refuse_if (not (has_type (codes "list" ∷ []) value_type))
      "TypedValue is incompatible with collection rule"
    >> map_result collection_member (items js)
collection value_type _ = raised (codes "TypedValue is incompatible with collection rule")

pub non_empty : Json → Json → Result FindingVerdict
unfolding collection
non_empty value_type candidate = do
  members ← collection value_type candidate
  ok (verdict_if (not (is_empty members)))

allowed_text : Json → Result Text
allowed_text (json_str s) = ok s
allowed_text _ = raised (codes "Policy allow-list is malformed")

allow_list : Json → Result (List Text)
unfolding allowed_text
allow_list (json_list js) = map_result allowed_text (items js)
allow_list _ = raised (codes "Policy allow-list is malformed")

pub all_members_in_parameter_set : Json → Json → Json → Result FindingVerdict
unfolding collection allow_list
all_members_in_parameter_set value_type candidate parameter = do
  members ← collection value_type candidate
  allowed ← allow_list parameter
  ok (verdict_if (all (λ m. mem_text m allowed) members))

evaluate_operator : Text → Fields → Json → Json → Json → Result FindingVerdict
unfolding equals less_than_or_equal enum_at_least non_empty all_members_in_parameter_set
evaluate_operator operator condition value_type candidate parameter =
    if text_eq operator (codes "equals")
    then equals condition value_type candidate
    else if text_eq operator (codes "less_than_or_equal")
    then less_than_or_equal condition value_type candidate parameter
    else if text_eq operator (codes "enum_at_least")
    then enum_at_least condition value_type candidate
    else if text_eq operator (codes "non_empty")
    then non_empty value_type candidate
    else if text_eq operator (codes "all_members_in_parameter_set")
    then all_members_in_parameter_set value_type candidate parameter
    else raised (codes "Rule operator is unsupported")

operator_of : Option Json → Result Text
operator_of none = raised (codes "KeyError: 'operator'")
operator_of (some (json_str s)) = ok s
operator_of (some (json_list js)) = raised (codes "TypeError: unhashable type")
operator_of (some (json_dict d)) = raised (codes "TypeError: unhashable type")
operator_of (some _) = raised (codes "Rule operator is unsupported")

-- An `EvaluationError` is an exception that the evaluation raises itself, and not the `KeyError` of a
-- condition without a key, the `AttributeError` of `None`, or the `TypeError` of a list in a set.
unfoldable pub is_evaluation_error : Text → Bool
is_evaluation_error message = not (
    starts_with message (codes "KeyError")
    || starts_with message (codes "AttributeError")
    || starts_with message (codes "TypeError"))

-- `condition` is that of the rule; without a parameter, `parameter` is `None`.
unfoldable pub evaluate_condition : Fields → Fields → Json → Result FindingVerdict
unfolding operator_of evaluate_operator
evaluate_condition condition value parameter = do
  operator ← operator_of (get (codes "operator") condition)
  evaluate_operator operator condition (value_or_null (get (codes "type") value))
      (value_or_null (get (codes "value") value)) parameter
