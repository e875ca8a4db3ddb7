-- ===== src/Effective/Values.antt =====
-- Typed values (backend/app/security_model/models.py, backend/app/effective_state/models.py).
use security_configuration_a.Base.{
  ◌≡◌, refl, Bool, not, Option, none, some, List, [], ◌∷◌, Text, codes, if◌then◌else◌, String,
}
use security_configuration_a.Base.Str.{text_eq, mem_text}
use security_configuration_a.Base.Json.{
  Json, json_str, json_dict, Fields, end, field, get, has_keys, dumps,
}
use security_configuration_a.Base.Result.{Result, ok, raised, ◌>>=◌, ◌>>◌, refuse_if, or_refuse}

pub data TypedValueType : Type 0 where
  boolean integer number string enum ip_address ip_network duration list object null :
      TypedValueType

pub record TypedValue : Type 0 where
  pub type : TypedValueType
  pub value : Json
  pub unit : Json
  pub original_value : Json
  pub original_unit : Json

abbrev pub type_name : TypedValueType → Text
type_name boolean = codes "boolean"
type_name integer = codes "integer"
type_name number = codes "number"
type_name string = codes "string"
type_name enum = codes "enum"
type_name ip_address = codes "ip_address"
type_name ip_network = codes "ip_network"
type_name duration = codes "duration"
type_name list = codes "list"
type_name object = codes "object"
type_name null = codes "null"

type_in : List TypedValueType → Text → Option TypedValueType
type_in [] name = none
type_in (t ∷ ts) name = if text_eq (type_name t) name then some t else type_in ts name

-- `TypedValueType(name)`, where `none` is `ValueError`
unfoldable pub type_named : Text → Option TypedValueType
unfolding type_in
type_named name =
    type_in
      (boolean ∷ integer ∷ number ∷ string ∷ enum ∷ ip_address ∷ ip_network ∷ duration ∷ list
        ∷ object ∷ null ∷ [])
      name

unfoldable pub type_eq : TypedValueType → TypedValueType → Bool
type_eq t u = text_eq (type_name t) (type_name u)

unfoldable pub to_dict : TypedValue → Json
to_dict v = json_dict (
    field (codes "type") (json_str (type_name v.type)) (
      field (codes "value") v.value (
        field (codes "unit") v.unit (
          field (codes "original_value") v.original_value
            (field (codes "original_unit") v.original_unit end)))))

abbrev value_fields : List Text
value_fields =
    codes "type"
    ∷ codes "value"
    ∷ codes "unit"
    ∷ codes "original_value"
    ∷ codes "original_unit"
    ∷ []

-- `value[key]`, where the missing key is refused
abbrev required : String → Fields → Result Json
required key fields = or_refuse (get (codes key) fields) "SecurityFact TypedValue is malformed"

type_of : Json → Result TypedValueType
unfolding type_named
type_of (json_str name) = or_refuse (type_named name) "SecurityFact TypedValue is malformed"
type_of _ = raised (codes "SecurityFact TypedValue is malformed")

typed_value_of : Fields → Result TypedValue
unfolding type_of
typed_value_of fields = do
  refuse_if (not (has_keys value_fields fields)) "SecurityFact TypedValue is malformed"
  named ← required "type" fields
  type ← type_of named
  value ← required "value" fields
  unit ← required "unit" fields
  original_value ← required "original_value" fields
  original_unit ← required "original_unit" fields
  ok (record {
    type = type;
    value = value;
    unit = unit;
    original_value = original_value;
    original_unit = original_unit;
  })

unfoldable pub typed_value_from_dict : Json → Result TypedValue
unfolding typed_value_of
typed_value_from_dict (json_dict fields) = typed_value_of fields
typed_value_from_dict _ = raised (codes "SecurityFact TypedValue is malformed")

-- `_value_key`
unfoldable pub value_key : TypedValue → Text
value_key v = dumps (to_dict v)

type_named-type_name : (t : TypedValueType) → type_named (type_name t) ≡ some t
unfolding type_named text_eq
type_named-type_name boolean = refl
type_named-type_name integer = refl
type_named-type_name number = refl
type_named-type_name string = refl
type_named-type_name enum = refl
type_named-type_name ip_address = refl
type_named-type_name ip_network = refl
type_named-type_name duration = refl
type_named-type_name list = refl
type_named-type_name object = refl
type_named-type_name null = refl

-- A value that is written as a dictionary is read back as it was.
pub typed_value_from_dict-to_dict : (v : TypedValue) → typed_value_from_dict (to_dict v) ≡ ok v
unfolding typed_value_from_dict to_dict has_keys get text_eq mem_text
typed_value_from_dict-to_dict v = rw (type_named-type_name v.type) refl
