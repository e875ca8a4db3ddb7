-- ===== src/Compliance/Evaluator/Binary.antt =====
-- An evaluation that ends passes or fails (backend/app/compliance/evaluator.py).
use security_configuration_a.Base.{◌≡◌, refl, Bool, true, false, Text, if◌then◌else◌, ◌⊎◌, inl, inr}
use security_configuration_a.Base.Json.{Json, Fields}
use security_configuration_a.Base.Result.{Result, ok, raised, ◌>>=◌}
use security_configuration_a.Compliance.Evaluator.{
  FindingVerdict, pass, fail, evaluate_condition, evaluate_operator, equals, less_than_or_equal,
  enum_at_least, non_empty, all_members_in_parameter_set, verdict_if,
}

-- What is returned, if anything is, is a pass or a failure.
unfoldable pub IsBinary : Result FindingVerdict → Type 0
IsBinary (ok verdict) = (verdict ≡ pass) ⊎ (verdict ≡ fail)
IsBinary (raised message) = Unit {0}

IsBinary->>= :
    {A : Type 0} (first : Result A) (next : A → Result FindingVerdict)
    → ((a : A) → IsBinary (next a))
    → IsBinary (first >>= next)
unfolding IsBinary
IsBinary->>= (ok a) next k = k a
IsBinary->>= (raised m) next k = tt

IsBinary-verdict_if : (b : Bool) → IsBinary (ok (verdict_if b))
unfolding IsBinary
IsBinary-verdict_if true = inl refl
IsBinary-verdict_if false = inr refl

IsBinary-raised : (message : Text) → IsBinary (raised message)
unfolding IsBinary
IsBinary-raised message = tt

IsBinary-if :
    (t : Bool) (x y : Result FindingVerdict)
    → IsBinary x
    → IsBinary y
    → IsBinary (if t then x else y)
IsBinary-if true x y hx hy = hx
IsBinary-if false x y hx hy = hy

equals-IsBinary :
    (condition : Fields) (value_type candidate : Json)
    → IsBinary (equals condition value_type candidate)
unfolding equals
equals-IsBinary condition value_type candidate = search (IsBinary->>=, IsBinary-verdict_if)

less_than_or_equal-IsBinary :
    (condition : Fields) (value_type candidate parameter : Json)
    → IsBinary (less_than_or_equal condition value_type candidate parameter)
unfolding less_than_or_equal
less_than_or_equal-IsBinary condition value_type candidate parameter =
    search (IsBinary->>=, IsBinary-verdict_if)

enum_at_least-IsBinary :
    (condition : Fields) (value_type candidate : Json)
    → IsBinary (enum_at_least condition value_type candidate)
unfolding enum_at_least
enum_at_least-IsBinary condition value_type candidate = search (IsBinary->>=, IsBinary-verdict_if)

non_empty-IsBinary : (value_type candidate : Json) → IsBinary (non_empty value_type candidate)
unfolding non_empty
non_empty-IsBinary value_type candidate = search (IsBinary->>=, IsBinary-verdict_if)

all_members_in_parameter_set-IsBinary :
    (value_type candidate parameter : Json)
    → IsBinary (all_members_in_parameter_set value_type candidate parameter)
unfolding all_members_in_parameter_set
all_members_in_parameter_set-IsBinary value_type candidate parameter =
    search (IsBinary->>=, IsBinary-verdict_if)

evaluate_operator-IsBinary :
    (operator : Text) (condition : Fields) (value_type candidate parameter : Json)
    → IsBinary (evaluate_operator operator condition value_type candidate parameter)
unfolding evaluate_operator
evaluate_operator-IsBinary operator condition value_type candidate parameter =
    search
      (
        IsBinary-if, equals-IsBinary, less_than_or_equal-IsBinary, enum_at_least-IsBinary,
        non_empty-IsBinary, all_members_in_parameter_set-IsBinary, IsBinary-raised,
      )
      depth 8

pub evaluate_condition-IsBinary :
    (condition value : Fields) (parameter : Json)
    → IsBinary (evaluate_condition condition value parameter)
unfolding evaluate_condition
evaluate_condition-IsBinary condition value parameter =
    search (IsBinary->>=, evaluate_operator-IsBinary)
