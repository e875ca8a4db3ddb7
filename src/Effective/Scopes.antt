-- ===== src/Effective/Scopes.antt =====
-- Scopes (backend/app/security_model/models.py, backend/app/effective_state/models.py). `\d` and
-- `int` read ASCII digits.
use security_configuration_a.Base.{
  ℕ, ◌≡◌, ◌≤◌, refl, Bool, true, false, not, ◌&&◌, ◌||◌, Option, none, some, [], ◌∷◌, ◌++◌, Text,
  codes, if◌then◌else◌, leb, ◌==◌, is_empty, arith, All,
}
use security_configuration_a.Base.Str.{text_eq, mem_text}
use security_configuration_a.Base.Decimal.{show, read_number, read_number-show, show-IsDigits}
use security_configuration_a.Base.Json.{
  Json, json_str, json_int, json_dict, pos, Fields, end, field, get, has_keys,
}
use security_configuration_a.Base.Result.{Result, ok, raised, ◌>>=◌, ◌>>◌, refuse_if, or_refuse}

pub record ScopeRef : Type 0 where
  pub type : Text
  pub key : Text
  pub attributes : Fields

-- `s.removeprefix(prefix)`, if the prefix is there
unfoldable pub after_prefix : Text → Text → Option Text
after_prefix [] s = some s
after_prefix (d ∷ t) [] = none
after_prefix (d ∷ t) (c ∷ s) = if c == d then after_prefix t s else none

-- The text before the first "-", and the text after it.
unfoldable pub split_dash : Text → Option (Text × Text)
split_dash [] = none
split_dash (c ∷ s) =
    let rest = split_dash s in
    if c == 45 then some ([], s) else elim rest [ none ↦ none | some (a, b) ↦ some (c ∷ a, b) ]

both_numbers : Option ℕ → Option ℕ → Option (ℕ × ℕ)
both_numbers (some a) (some b) = some (a, b)
both_numbers _ _ = none

range_of : Option (Text × Text) → Option (ℕ × ℕ)
unfolding both_numbers
range_of none = none
range_of (some (a, b)) = both_numbers (read_number a) (read_number b)

suffix_range : Option Text → Option (ℕ × ℕ)
unfolding range_of split_dash
suffix_range none = none
suffix_range (some s) = range_of (split_dash s)

-- The numbers of a key that matches `vty:(\d+)-(\d+)`.
unfoldable pub key_range : Text → Option (ℕ × ℕ)
unfolding suffix_range after_prefix
key_range key = suffix_range (after_prefix (codes "vty:") key)

-- f"vty:{start}-{end}"
unfoldable pub vty_key : ℕ → ℕ → Text
vty_key start last = codes "vty:" ++ show start ++ 45 ∷ show last

-- The scope that `_vty_partitions` makes.
unfoldable pub vty_scope : ℕ → ℕ → ScopeRef
vty_scope start last = record {
  type = codes "vty_range";
  key = vty_key start last;
  attributes =
      field (codes "start") (json_int (pos start)) (field (codes "end") (json_int (pos last)) end);
}

abbrev is_integer : ℕ → Option Json → Bool
is_integer n (some (json_int (pos m))) = n == m
is_integer n _ = false

abbrev no_attributes : Fields → Bool
no_attributes end = true
no_attributes (field k v rest) = false

vty_attributes : Fields → Option (ℕ × ℕ) → Bool
vty_attributes attributes none = false
vty_attributes attributes (some (key_start, key_end)) =
    leb key_start key_end
    && leb key_end 999
    && (no_attributes attributes
        || (has_keys (codes "start" ∷ codes "end" ∷ []) attributes
            && is_integer key_start (get (codes "start") attributes)
            && is_integer key_end (get (codes "end") attributes)))

-- The only attribute is `name`, a text, and the key is the label and that text.
named_scope : Text → Text → Text → Fields → Bool → Option Json → Bool
named_scope label name key attributes allows_empty (some (json_str value)) =
    (allows_empty || not (is_empty value))
    && has_keys (name ∷ []) attributes
    && text_eq key (label ++ 58 ∷ value)
named_scope label name key attributes allows_empty _ = false

abbrev is_service : Option Json → Bool
is_service (some (json_str s)) =
    mem_text s (codes "ssh" ∷ codes "telnet" ∷ codes "http" ∷ codes "https" ∷ [])
is_service _ = false

-- The test of `_validate_scope`.
unfoldable pub is_valid_scope : ScopeRef → Bool
unfolding vty_attributes named_scope
is_valid_scope scope =
    if text_eq scope.type (codes "device")
    then text_eq scope.key (codes "device") && no_attributes scope.attributes
    else if text_eq scope.type (codes "vty_range")
    then vty_attributes scope.attributes (key_range scope.key)
    else if text_eq scope.type (codes "interface") || text_eq scope.type (codes "administrator")
    then named_scope scope.type (codes "name") scope.key scope.attributes false
        (get (codes "name") scope.attributes)
    else if text_eq scope.type (codes "management_service")
    then is_service (get (codes "service") scope.attributes)
      && named_scope (codes "management") (codes "service") scope.key scope.attributes true
          (get (codes "service") scope.attributes)
    else false

unfoldable pub validate_scope : ScopeRef → Result (Unit {0})
unfolding is_valid_scope
validate_scope scope = refuse_if (not (is_valid_scope scope)) "ScopeRef is malformed"

scope_of : Option Json → Option Json → Option Json → Result ScopeRef
scope_of (some (json_str type)) (some (json_str key)) (some (json_dict attributes)) =
    ok (record { type = type; key = key; attributes = attributes })
scope_of _ _ _ = raised (codes "ScopeRef is malformed")

unfoldable pub scope_from_dict : Json → Result ScopeRef
unfolding scope_of validate_scope
scope_from_dict (json_dict fields) = do
  refuse_if (not (has_keys (codes "type" ∷ codes "key" ∷ codes "attributes" ∷ []) fields))
      "SecurityFact ScopeRef is malformed"
  scope ←
      scope_of (get (codes "type") fields) (get (codes "key") fields)
        (get (codes "attributes") fields)
  validate_scope scope
  ok scope
scope_from_dict _ = raised (codes "SecurityFact ScopeRef is malformed")

-- `_vty_bounds`
unfoldable pub vty_bounds : ScopeRef → Result (ℕ × ℕ)
unfolding key_range
vty_bounds scope = do
  refuse_if (not (text_eq scope.type (codes "vty_range"))) "VTY scope is required"
  or_refuse (key_range scope.key) "invalid literal for int() with base 10"

unfoldable pub canonical_scope_key : ScopeRef → Result Text
unfolding validate_scope
canonical_scope_key scope = do validate_scope scope; ok (scope.type ++ codes "::" ++ scope.key)

split_dash-digits :
    (s t : Text) → All (λ c. (48 ≤ c) × (c ≤ 57)) s → split_dash (s ++ 45 ∷ t) ≡ some (s, t)
unfolding split_dash
split_dash-digits [] t h = refl
split_dash-digits (c ∷ s) t h = rw (split_dash-digits s t h.1) (ground arith)

-- The bounds of the key that is written are read back.
pub key_range-vty_key : (start last : ℕ) → key_range (vty_key start last) ≡ some (start, last)
unfolding key_range vty_key
key_range-vty_key start last =
    rw (split_dash-digits (show start) (show last) (show-IsDigits start))
      (rw (read_number-show start) (rw (read_number-show last) refl))
