-- ===== src/Compliance/Evaluator/Raising.antt =====
-- What the evaluation raises (backend/app/compliance/evaluator.py): for a rule with its keys, only
-- errors that the caller expects.
use security_configuration_a.Base.{
  ◌≡◌, refl, Bool, true, false, Option, none, some, List, [], ◌∷◌, Text, codes, if◌then◌else◌,
  String, is_some,
}
use security_configuration_a.Base.Str.{text_eq, starts_with}
use security_configuration_a.Base.Json.{
  Json, json_null, json_bool, json_int, json_str, json_list, json_dict, Fields, Items, get, items,
}
use security_configuration_a.Base.Result.{
  Result, ok, raised, ◌>>=◌, refuse_if, or_refuse, map_result,
}
use security_configuration_a.Compliance.Evaluator.{
  FindingVerdict, is_evaluation_error, evaluate_condition, evaluate_operator, operator_of, equals,
  less_than_or_equal, enum_at_least, non_empty, all_members_in_parameter_set, minimum_of,
  members_of_order, member_text, collection_member, collection, allowed_text, allow_list,
  value_or_null, is_unhashable,
}

-- The call gives a value or raises an `EvaluationError`.
unfoldable pub IsCatchable : {A : Type 0} → Result A → Type 0
IsCatchable (ok a) = Unit {0}
IsCatchable (raised message) = is_evaluation_error message ≡ true

-- The text of the message is that of an `EvaluationError`.
abbrev Expected : String → Type 0
Expected message = is_evaluation_error (codes message) ≡ true

IsCatchable-ok : {A : Type 0} (a : A) → IsCatchable (ok a)
unfolding IsCatchable
IsCatchable-ok a = tt

IsCatchable->>= :
    {A B : Type 0} (first : Result A) (next : A → Result B)
    → IsCatchable first
    → ((a : A) → IsCatchable (next a))
    → IsCatchable (first >>= next)
unfolding IsCatchable
IsCatchable->>= (ok a) next h k = k a
IsCatchable->>= (raised m) next h k = h

IsCatchable-refuse_if :
    (t : Bool) (message : String) → Expected message → IsCatchable (refuse_if t message)
unfolding IsCatchable
IsCatchable-refuse_if true message h = h
IsCatchable-refuse_if false message h = tt

IsCatchable-or_refuse :
    {A : Type 0} (o : Option A) (message : String)
    → Expected message
    → IsCatchable (or_refuse o message)
unfolding IsCatchable
IsCatchable-or_refuse none message h = h
IsCatchable-or_refuse (some a) message h = tt

IsCatchable-map_result :
    {A B : Type 0} (f : A → Result B) (xs : List A)
    → ((a : A) → IsCatchable (f a))
    → IsCatchable (map_result f xs)
unfolding IsCatchable
IsCatchable-map_result f [] h = tt
IsCatchable-map_result f (x ∷ xs) h =
    IsCatchable->>= (f x) _ (h x)
      (λ y. IsCatchable->>= (map_result f xs) _ (IsCatchable-map_result f xs h) (λ ys. tt))

by-test :
    {A : Type 0} (t : Bool) (x y : Result A)
    → (t ≡ true → IsCatchable x)
    → IsCatchable y
    → IsCatchable (if t then x else y)
by-test true x y hx hy = hx refl
by-test false x y hx hy = hy

unsupported-IsCatchable :
    IsCatchable {A = FindingVerdict} (raised (codes "Rule operator is unsupported"))
unfolding IsCatchable is_evaluation_error starts_with
unsupported-IsCatchable = refl

expected_key-IsCatchable :
    (o : Option Json) → is_some o ≡ true → IsCatchable (or_refuse o "KeyError: 'expected'")
unfolding IsCatchable
expected_key-IsCatchable none e = absurd cc
expected_key-IsCatchable (some j) e = tt

minimum_of-IsCatchable : (j : Json) → IsCatchable (minimum_of j)
unfolding minimum_of IsCatchable is_evaluation_error starts_with
minimum_of-IsCatchable json_null = tt
minimum_of-IsCatchable (json_int n) = tt
minimum_of-IsCatchable (json_bool b) = refl
minimum_of-IsCatchable (json_str s) = refl
minimum_of-IsCatchable (json_list js) = refl
minimum_of-IsCatchable (json_dict d) = refl

members_of_order-IsCatchable : (j : Json) → IsCatchable (members_of_order j)
unfolding members_of_order IsCatchable is_evaluation_error starts_with
members_of_order-IsCatchable json_null = refl
members_of_order-IsCatchable (json_int n) = refl
members_of_order-IsCatchable (json_bool b) = refl
members_of_order-IsCatchable (json_str s) = refl
members_of_order-IsCatchable (json_list js) = tt
members_of_order-IsCatchable (json_dict d) = refl

member_text-IsCatchable : (o : Option Json) → IsCatchable (member_text o)
unfolding member_text IsCatchable is_evaluation_error starts_with
member_text-IsCatchable none = refl
member_text-IsCatchable (some json_null) = refl
member_text-IsCatchable (some (json_int n)) = refl
member_text-IsCatchable (some (json_bool b)) = refl
member_text-IsCatchable (some (json_str s)) = tt
member_text-IsCatchable (some (json_list js)) = refl
member_text-IsCatchable (some (json_dict d)) = refl

collection_member-IsCatchable : (j : Json) → IsCatchable (collection_member j)
unfolding collection_member IsCatchable is_evaluation_error starts_with
collection_member-IsCatchable json_null = refl
collection_member-IsCatchable (json_int n) = refl
collection_member-IsCatchable (json_bool b) = refl
collection_member-IsCatchable (json_str s) = refl
collection_member-IsCatchable (json_list js) = refl
collection_member-IsCatchable (json_dict d) = member_text-IsCatchable (get (codes "value") d)

list-IsCatchable :
    (value_type : Json) (js : Items) → IsCatchable (collection value_type (json_list js))
unfolding collection is_evaluation_error starts_with
list-IsCatchable value_type js =
    search (
      IsCatchable->>=, IsCatchable-refuse_if, IsCatchable-map_result, collection_member-IsCatchable,
    )

collection-IsCatchable : (value_type j : Json) → IsCatchable (collection value_type j)
unfolding collection IsCatchable is_evaluation_error starts_with
collection-IsCatchable value_type json_null = refl
collection-IsCatchable value_type (json_int n) = refl
collection-IsCatchable value_type (json_bool b) = refl
collection-IsCatchable value_type (json_str s) = refl
collection-IsCatchable value_type (json_list js) = list-IsCatchable value_type js
collection-IsCatchable value_type (json_dict d) = refl

allowed_text-IsCatchable : (j : Json) → IsCatchable (allowed_text j)
unfolding allowed_text IsCatchable is_evaluation_error starts_with
allowed_text-IsCatchable json_null = refl
allowed_text-IsCatchable (json_int n) = refl
allowed_text-IsCatchable (json_bool b) = refl
allowed_text-IsCatchable (json_str s) = tt
allowed_text-IsCatchable (json_list js) = refl
allowed_text-IsCatchable (json_dict d) = refl

allow_list-IsCatchable : (j : Json) → IsCatchable (allow_list j)
unfolding allow_list IsCatchable is_evaluation_error starts_with
allow_list-IsCatchable json_null = refl
allow_list-IsCatchable (json_int n) = refl
allow_list-IsCatchable (json_bool b) = refl
allow_list-IsCatchable (json_str s) = refl
allow_list-IsCatchable (json_list js) =
    IsCatchable-map_result allowed_text (items js) allowed_text-IsCatchable
allow_list-IsCatchable (json_dict d) = refl

IsCatchable-hashable :
    (t : Bool) → t ≡ false → IsCatchable (refuse_if t "TypeError: unhashable type")
unfolding IsCatchable
IsCatchable-hashable true e = absurd cc
IsCatchable-hashable false e = tt

equals-IsCatchable :
    (condition : Fields) (value_type candidate : Json)
    → is_unhashable value_type ≡ false
    → is_some (get (codes "expected") condition) ≡ true
    → IsCatchable (equals condition value_type candidate)
unfolding equals is_evaluation_error starts_with
equals-IsCatchable condition value_type candidate hashable h = search (
  IsCatchable-hashable, hashable, IsCatchable->>=, IsCatchable-refuse_if, expected_key-IsCatchable,
  IsCatchable-ok, h,
)

less_than_or_equal-IsCatchable :
    (condition : Fields) (value_type candidate parameter : Json)
    → IsCatchable (less_than_or_equal condition value_type candidate parameter)
unfolding less_than_or_equal is_evaluation_error starts_with
less_than_or_equal-IsCatchable condition value_type candidate parameter = search (
  IsCatchable->>=, IsCatchable-refuse_if, IsCatchable-or_refuse, minimum_of-IsCatchable,
  IsCatchable-ok,
)

enum_at_least-IsCatchable :
    (condition : Fields) (value_type candidate : Json)
    → IsCatchable (enum_at_least condition value_type candidate)
unfolding enum_at_least is_evaluation_error starts_with
enum_at_least-IsCatchable condition value_type candidate = search (
  IsCatchable->>=, IsCatchable-refuse_if, IsCatchable-or_refuse, members_of_order-IsCatchable,
  IsCatchable-ok,
)

non_empty-IsCatchable : (value_type candidate : Json) → IsCatchable (non_empty value_type candidate)
unfolding non_empty
non_empty-IsCatchable value_type candidate =
    search (IsCatchable->>=, collection-IsCatchable, IsCatchable-ok)

all_members_in_parameter_set-IsCatchable :
    (value_type candidate parameter : Json)
    → IsCatchable (all_members_in_parameter_set value_type candidate parameter)
unfolding all_members_in_parameter_set
all_members_in_parameter_set-IsCatchable value_type candidate parameter =
    search (IsCatchable->>=, collection-IsCatchable, allow_list-IsCatchable, IsCatchable-ok)

-- The condition has the keys that its operator reads.
unfoldable pub HasKeys : Fields → Type 0
HasKeys condition =
    (operator : Text) × (get (codes "operator") condition ≡ some (json_str operator))
    × (text_eq operator (codes "equals") ≡ true → is_some (get (codes "expected") condition) ≡ true)

evaluate_operator-IsCatchable :
    (operator : Text) (condition : Fields) (value_type candidate parameter : Json)
    → is_unhashable value_type ≡ false
    → (text_eq operator (codes "equals") ≡ true → is_some (get (codes "expected") condition) ≡ true)
    → IsCatchable (evaluate_operator operator condition value_type candidate parameter)
unfolding evaluate_operator
evaluate_operator-IsCatchable operator condition value_type candidate parameter hashable h =
    by-test (text_eq operator (codes "equals")) _ _
      (λ e. equals-IsCatchable condition value_type candidate hashable (h e))
      (by-test (text_eq operator (codes "less_than_or_equal")) _ _
        (λ e. less_than_or_equal-IsCatchable condition value_type candidate parameter)
        (by-test (text_eq operator (codes "enum_at_least")) _ _
          (λ e. enum_at_least-IsCatchable condition value_type candidate)
          (by-test (text_eq operator (codes "non_empty")) _ _
            (λ e. non_empty-IsCatchable value_type candidate)
            (by-test (text_eq operator (codes "all_members_in_parameter_set")) _ _
              (λ e. all_members_in_parameter_set-IsCatchable value_type candidate parameter)
              unsupported-IsCatchable))))

-- A condition with its keys, on a value whose type can be compared, evaluates to a verdict or raises an
-- error that is caught.
pub evaluate_condition-IsCatchable :
    (condition value : Fields) (parameter : Json)
    → is_unhashable (value_or_null (get (codes "type") value)) ≡ false
    → HasKeys condition
    → IsCatchable (evaluate_condition condition value parameter)
unfolding evaluate_condition HasKeys operator_of
evaluate_condition-IsCatchable condition value parameter hashable (operator, e, h) = rw e (
    evaluate_operator-IsCatchable operator condition (value_or_null (get (codes "type") value))
      (value_or_null (get (codes "value") value)) parameter hashable h)
