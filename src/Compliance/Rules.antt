-- ===== src/Compliance/Rules.antt =====
-- Rules, packs of rules and their validation (backend/app/compliance/models.py, verdicts.py,
-- rule_registry.py). A UUID is its integer.
pub mod Shipped
pub mod Registry
pub mod Usable
use security_configuration_a.Base.{
  ℕ, Bool, true, false, not, ◌&&◌, ◌||◌, Option, none, some, List, [], ◌∷◌, Text, codes,
  if◌then◌else◌, any, all, is_empty, map, length, ◌==◌,
}
use security_configuration_a.Base.Str.{text_eq, mem_text, strip}
use security_configuration_a.Base.Json.{
  Json, json_null, json_bool, json_int, json_str, json_list, json_dict, Items, Fields, get, items,
  json_eq,
}
use security_configuration_a.Base.Result.{
  Result, ok, raised, ◌>>=◌, ◌>>◌, refuse_if, or_refuse, map_result,
}
use security_configuration_a.Compliance.Evaluator.{value_or_null, is_text}

pub data FindingSeverity : Type 0 where
  critical high medium low informational : FindingSeverity

pub record RuleDefinition : Type 0 where
  pub rule_id : Text
  pub title : Text
  pub description : Text
  pub security_domain : Text
  pub severity : FindingSeverity
  pub severity_reason : Text
  pub applicability : Fields
  pub required_effective_states : List Text
  pub condition : Fields
  pub required_policy_parameters : List Text
  pub framework_references : List Json

pub record RulePack : Type 0 where
  pub rule_pack_version_id : ℕ
  pub name : Text
  pub version : Text
  pub profile_version_id : Text
  pub rules : List RuleDefinition
  pub schema_version : Text

-- `not s.strip()`
abbrev pub is_blank : Text → Bool
is_blank s = is_empty (strip s)

-- `len(texts) != len(set(texts))`
unfoldable pub has_repeat : List Text → Bool
has_repeat [] = false
has_repeat (s ∷ rest) = mem_text s rest || has_repeat rest

abbrev pub supported_operators : List Text
supported_operators =
    codes "equals"
    ∷ codes "less_than_or_equal"
    ∷ codes "non_empty"
    ∷ codes "all_members_in_parameter_set"
    ∷ codes "enum_at_least"
    ∷ []

abbrev pub verified_nist_titles : Text → Option Text
verified_nist_titles control_id =
    if text_eq control_id (codes "AC-11")
    then some (codes "Device Lock")
    else if text_eq control_id (codes "AC-17")
    then some (codes "Remote Access")
    else if text_eq control_id (codes "AU-8")
    then some (codes "Time Stamps")
    else if text_eq control_id (codes "AU-12")
    then some (codes "Audit Record Generation")
    else none

-- `operator in SUPPORTED_OPERATORS`, where a list or a dictionary has no hash
unfoldable pub check_operator : Json → Result (Unit {0})
check_operator (json_str s) =
    refuse_if (not (mem_text s supported_operators)) "Rule pack uses an unsupported operator"
check_operator (json_list js) = raised (codes "TypeError: unhashable type: 'list'")
check_operator (json_dict d) = raised (codes "TypeError: unhashable type: 'dict'")
check_operator _ = raised (codes "Rule pack uses an unsupported operator")

abbrev pub is_operator : Text → Json → Bool
is_operator name (json_str s) = text_eq s name
is_operator name _ = false

unfoldable pub check_minimum : Json → Json → Result (Unit {0})
check_minimum operator json_null = ok tt
check_minimum operator (json_int n) =
    refuse_if (not (is_operator (codes "less_than_or_equal") operator))
      "Rule pack uses an invalid lower bound"
check_minimum operator _ = raised (codes "Rule pack uses an invalid lower bound")

abbrev valid_order : Json → Json → Bool
valid_order expected (json_list js) =
    is_text expected && any (json_eq expected) (items js) && all is_text (items js)
valid_order expected _ = false

unfoldable pub check_enum : Json → Fields → Result (Unit {0})
check_enum operator condition =
    refuse_if
      (is_operator (codes "enum_at_least") operator
        && not (
            valid_order (value_or_null (get (codes "expected") condition))
              (value_or_null (get (codes "order") condition))))
      "Rule pack uses an invalid ordered enum"

-- `reference.get(key)`, if it is a text that is not blank
filled : Option Json → Result Text
filled (some (json_str s)) = refuse_if (is_blank s) "Framework reference is malformed" >> ok s
filled _ = raised (codes "Framework reference is malformed")

abbrev pub Identity : Type 0
Identity = Text × Text × Text

abbrev same_identity : Identity → Identity → Bool
same_identity (a, b, c) (d, e, f) = text_eq a d && text_eq b e && text_eq c f

abbrev titled : Option Text → Text → Bool
titled none title = false
titled (some verified) title = text_eq verified title

-- One turn of the loop, which adds to `seen`.
check_reference : List Identity → Json → Result Identity
unfolding filled
check_reference seen (json_dict reference) = do
  framework ← filled (get (codes "framework") reference)
  revision ← filled (get (codes "revision") reference)
  control_id ← filled (get (codes "control_id") reference)
  control_title ← filled (get (codes "control_title") reference)
  refuse_if (any (same_identity (framework, revision, control_id)) seen)
      "Framework reference is duplicated"
  refuse_if
      (text_eq framework (codes "NIST SP 800-53")
        && text_eq revision (codes "Rev. 5")
        && not (titled (verified_nist_titles control_id) control_title))
      "NIST control title is not verified"
  ok (framework, revision, control_id)
check_reference seen _ = raised (codes "Framework reference is malformed")

unfoldable pub validate_framework_references : List Identity → List Json → Result (Unit {0})
unfolding check_reference
validate_framework_references seen [] = ok tt
validate_framework_references seen (reference ∷ references) = do
  identity ← check_reference seen reference
  validate_framework_references (identity ∷ seen) references

-- The operator of the rule's condition, where a missing key is `None`.
abbrev pub operator_in : Fields → Json
operator_in condition = value_or_null (get (codes "operator") condition)

-- One turn of the loop over the rules.
unfoldable pub validate_rule : RuleDefinition → Result (Unit {0})
unfolding check_operator check_minimum check_enum validate_framework_references
validate_rule rule = do
  refuse_if (not (length rule.required_effective_states == 1))
      "Only single-field rules are supported in Step 7.1"
  check_operator (operator_in rule.condition)
  check_minimum (operator_in rule.condition)
      (value_or_null (get (codes "minimum_exclusive") rule.condition))
  check_enum (operator_in rule.condition) rule.condition
  validate_framework_references [] rule.framework_references

abbrev pub rule_ids : List RuleDefinition → List Text
rule_ids = map (λ rule. rule.rule_id)

-- `RuleRegistry._validate`
unfoldable pub validate_pack : RulePack → Result (Unit {0})
unfolding has_repeat validate_rule
validate_pack pack = do
  refuse_if (is_blank pack.name || is_blank pack.version || is_empty pack.rules)
      "Rule pack is malformed"
  refuse_if (has_repeat (rule_ids pack.rules) || any is_blank (rule_ids pack.rules))
      "Rule pack has duplicate or malformed rule IDs"
  refuse_if (not (text_eq pack.schema_version (codes "1.0.0")) || is_blank pack.profile_version_id)
      "Rule pack is malformed"
  map_result validate_rule pack.rules >>= λ checked. ok tt
