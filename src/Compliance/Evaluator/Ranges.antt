-- ===== src/Compliance/Evaluator/Ranges.antt =====
-- Passes of single values: equality, ranges of integers, places in an order.
use security_configuration_a.Base.{
  ℕ, ◌≡◌, ◌≤◌, refl, ap, ◌∙◌, true, not, ◌&&◌, Option, none, some, List, [], ◌∷◌, codes, leb, ◌||◌,
  arith, String,
}
use security_configuration_a.Base.Json.{
  Json, json_null, json_int, json_list, ℤ, pos, negsuc, int_le, Items, nil, item, array_of, Fields,
  get, items, json_eq,
}
use security_configuration_a.Base.Result.{Result, ok, ◌>>=◌, ◌>>◌, refuse_if, or_refuse, >>=-eq-ok}
use security_configuration_a.Compliance.Evaluator.{
  FindingVerdict, pass, verdict_if, as_integer, value_or_null, has_type, is_unhashable, equals,
  above, minimum_of, less_than_or_equal, index_of, is_text, members_of_order, enum_at_least,
}
use security_configuration_a.Compliance.Evaluator.Reading.{passed, found, and-true}

-- The order of the integers.
abbrev pub IntLe : ℤ → ℤ → Type 0
IntLe (pos m) (pos n) = m ≤ n
IntLe (pos m) (negsuc n) = ⊥
IntLe (negsuc m) (pos n) = Unit
IntLe (negsuc m) (negsuc n) = n ≤ m

IntLe-int_le : (m n : ℤ) → int_le m n ≡ true → IntLe m n
IntLe-int_le (pos m) (pos n) h = ground arith
IntLe-int_le (pos m) (negsuc n) h = cc
IntLe-int_le (negsuc m) (pos n) h = tt
IntLe-int_le (negsuc m) (negsuc n) h = ground arith

not-IntLe : (m n : ℤ) → not (int_le m n) ≡ true → ¬ (IntLe m n)
not-IntLe (pos m) (pos n) h l = ground arith
not-IntLe (pos m) (negsuc n) h l = l
not-IntLe (negsuc m) (pos n) h l = cc
not-IntLe (negsuc m) (negsuc n) h l = ground arith

abbrev pub Minimum : Option ℤ → ℤ → Type 0
Minimum none n = Unit
Minimum (some m) n = ¬ (IntLe n m)

-- How the condition says that there is a minimum.
abbrev pub IsMinimum : Option ℤ → Json → Type 0
IsMinimum none j = j ≡ json_null
IsMinimum (some m) j = j ≡ json_int m

minimum_of-IsMinimum : (j : Json) (m : Option ℤ) → minimum_of j ≡ ok m → IsMinimum m j
unfolding minimum_of
minimum_of-IsMinimum json_null none h = refl
minimum_of-IsMinimum json_null (some m) h = cc
minimum_of-IsMinimum (json_int n) none h = cc
minimum_of-IsMinimum (json_int n) (some m) h = ap json_int (let k : n ≡ m = cc in k)
minimum_of-IsMinimum _ m h = cc

-- The value is an integer within the bounds of the condition and of the policy.
pub record InRange (condition : Fields) (candidate parameter : Json) : Type 0 where
  pub value : ℤ
  pub maximum : ℤ
  pub minimum : Option ℤ
  pub is_value : candidate ≡ json_int value
  pub is_maximum : parameter ≡ json_int maximum
  pub is_minimum : IsMinimum minimum (value_or_null (get (codes "minimum_exclusive") condition))
  pub at_most : IntLe value maximum
  pub over : Minimum minimum value

integer-eq : (j : Json) (n : ℤ) → as_integer j ≡ some n → j ≡ json_int n
integer-eq (json_int m) n h = ap json_int (let k : m ≡ n = cc in k)
integer-eq json_null n h = cc
integer-eq _ n h = cc

Minimum-above : (m : Option ℤ) (n : ℤ) → above m n ≡ true → Minimum m n
Minimum-above none n h = tt
Minimum-above (some m) n h = not-IntLe n m h

pub less_than_or_equal-InRange :
    (condition : Fields) (value_type candidate parameter : Json)
    → less_than_or_equal condition value_type candidate parameter ≡ ok pass
    → InRange condition candidate parameter
unfolding less_than_or_equal
less_than_or_equal-InRange condition value_type candidate parameter h =
    let verdict : ℤ → ℤ → Option ℤ → Result FindingVerdict =
      λ n p m. ok (verdict_if (above m n && int_le n p)) in
    let minimum : Result (Option ℤ) =
      minimum_of (value_or_null (get (codes "minimum_exclusive") condition)) in
    let (u, e, h) =
      >>=-eq-ok {A = Unit {0}}
        (refuse_if (not (has_type (codes "duration" ∷ []) value_type))
          "TypedValue is incompatible with duration rule")
        (λ _.
          or_refuse (as_integer candidate) "TypedValue is incompatible with duration rule" >>= λ n.
          or_refuse (as_integer parameter) "Policy maximum is malformed" >>= λ p.
          minimum >>= verdict n p)
        h in
    let (n, is_n, h) =
      >>=-eq-ok (or_refuse (as_integer candidate) "TypedValue is incompatible with duration rule")
        (λ n. or_refuse (as_integer parameter) "Policy maximum is malformed" >>= λ p.
          minimum >>= verdict n p)
        h in
    let (p, is_p, h) =
      >>=-eq-ok (or_refuse (as_integer parameter) "Policy maximum is malformed")
        (λ p. minimum >>= verdict n p) h in
    let (m, is_m, h) = >>=-eq-ok minimum (verdict n p) h in
    let (over, most) = and-true (above m n) (int_le n p) (passed (above m n && int_le n p) h) in
    record {
      value = n;
      maximum = p;
      minimum = m;
      is_value = integer-eq candidate n (found _ _ n is_n);
      is_maximum = integer-eq parameter p (found _ _ p is_p);
      is_minimum = minimum_of-IsMinimum _ m is_m;
      at_most = IntLe-int_le n p most;
      over = Minimum-above m n over;
    }

-- The candidate stands in the order, and not before what is expected.
pub record Ranked (condition : Fields) (candidate : Json) : Type 0 where
  pub order : List Json
  pub place : ℕ
  pub expected_place : ℕ
  pub is_order : value_or_null (get (codes "order") condition) ≡ json_list (array_of order)
  pub is_place : index_of candidate order ≡ some place
  pub is_expected :
      index_of (value_or_null (get (codes "expected") condition)) order ≡ some expected_place
  pub reached : expected_place ≤ place

array_of-items : (js : Items) → js ≡ array_of (items js)
array_of-items nil = refl
array_of-items (item j js) = ap (item j) (array_of-items js)

order-list :
    (j : Json) (order : List Json) → members_of_order j ≡ ok order → j ≡ json_list (array_of order)
unfolding members_of_order
order-list (json_list js) order h =
    ap json_list (array_of-items js ∙ ap array_of (let k : items js ≡ order = cc in k))
order-list _ order h = cc

pub enum_at_least-Ranked :
    (condition : Fields) (value_type candidate : Json)
    → enum_at_least condition value_type candidate ≡ ok pass
    → Ranked condition candidate
unfolding enum_at_least
enum_at_least-Ranked condition value_type candidate h =
    let message : String = "TypedValue is incompatible with ordered-enum rule" in
    let expected : Json = value_or_null (get (codes "expected") condition) in
    let verdict : ℕ → ℕ → Result FindingVerdict = λ i j. ok (verdict_if (leb j i)) in
    let (u, e, h) =
      >>=-eq-ok {A = Unit {0}}
        (refuse_if (not (has_type (codes "enum" ∷ []) value_type) || not (is_text candidate))
          message)
        (λ _. members_of_order (value_or_null (get (codes "order") condition)) >>= λ order.
          or_refuse (index_of candidate order) message >>= λ i.
          or_refuse (index_of expected order) message >>= verdict i)
        h in
    let (order, is_order, h) =
      >>=-eq-ok (members_of_order (value_or_null (get (codes "order") condition)))
        (λ order. or_refuse (index_of candidate order) message >>= λ i.
          or_refuse (index_of expected order) message >>= verdict i)
        h in
    let (i, is_i, h) =
      >>=-eq-ok (or_refuse (index_of candidate order) message)
        (λ i. or_refuse (index_of expected order) message >>= verdict i) h in
    let (j, is_j, h) = >>=-eq-ok (or_refuse (index_of expected order) message) (verdict i) h in
    let le : leb j i ≡ true = passed (leb j i) h in
    record {
      order = order;
      place = i;
      expected_place = j;
      is_order = order-list _ order is_order;
      is_place = found _ _ i is_i;
      is_expected = found _ _ j is_j;
      reached = ground arith;
    }

pub equals-eq :
    (condition : Fields) (value_type candidate : Json)
    → equals condition value_type candidate ≡ ok pass
    → (expected : Json) × (get (codes "expected") condition ≡ some expected)
      × (json_eq candidate expected ≡ true)
unfolding equals
equals-eq condition value_type candidate h =
    let verdict : Json → Result FindingVerdict =
      λ expected. ok (verdict_if (json_eq candidate expected)) in
    let read : Result Json = or_refuse (get (codes "expected") condition) "KeyError: 'expected'" in
    let (w, d, h) =
      >>=-eq-ok {A = Unit {0}} (refuse_if (is_unhashable value_type) "TypeError: unhashable type")
        (λ _.
          refuse_if (not (has_type (codes "boolean" ∷ codes "integer" ∷ []) value_type))
            "TypedValue is incompatible with equality rule"
          >> (read >>= verdict))
        h in
    let (u, e, h) =
      >>=-eq-ok {A = Unit {0}}
        (refuse_if (not (has_type (codes "boolean" ∷ codes "integer" ∷ []) value_type))
          "TypedValue is incompatible with equality rule")
        (λ _. read >>= verdict) h in
    let (expected, e, h) = >>=-eq-ok read verdict h in
    (expected, found _ _ expected e, passed (json_eq candidate expected) h)
