-- ===== src/Base/Json.antt =====
-- JSON values as Python holds them: `dict`, `list`, `str`, `int`, `bool` and `None`. Numbers are
-- integers: floats are left out. `json.dumps(value, sort_keys=True, separators=(",", ":"))` is `dumps`.
use Prim.Native.Nat.{ℕ, suc, ◌+◌, ◌-◌, ◌/◌, ◌%◌}
use mathlib.Core.Path.{◌≡◌, refl}
use mathlib.Core.Bool.{Bool, true, false, ◌&&◌}
use mathlib.Core.Option.{Option, none, some}
use mathlib.Core.List.{List, [], ◌∷◌, ◌++◌, map}
use security_configuration_a.Base.Tests.{ltb, leb, ◌==◌, if◌then◌else◌}
use security_configuration_a.Base.Lists.{all}
use security_configuration_a.Base.Sort.{sorted, insert}
use security_configuration_a.Base.Str.{Text, codes, text_eq, text_le, mem_text}
use security_configuration_a.Base.Decimal.{show}

pub data ℤ : Type 0 where
  pos negsuc : ℕ → ℤ

abbrev pub int_le : ℤ → ℤ → Bool
int_le (pos m) (pos n) = leb m n
int_le (pos m) (negsuc n) = false
int_le (negsuc m) (pos n) = true
int_le (negsuc m) (negsuc n) = leb n m

mutual
  pub data Json : Type 0 where
    json_null : Json
    json_bool : Bool → Json
    json_int : ℤ → Json
    json_str : Text → Json
    json_list : Items → Json
    json_dict : Fields → Json

  pub data Items : Type 0 where
    nil : Items
    item : Json → Items → Items

  pub data Fields : Type 0 where
    end : Fields
    field : Text → Json → Fields → Fields

-- `d.get(key)`, where `none` is a missing key
unfoldable pub get : Text → Fields → Option Json
get key end = none
get key (field k value rest) = if text_eq k key then some value else get key rest

abbrev pub keys : Fields → List Text
keys end = []
keys (field k value rest) = k ∷ keys rest

-- `set(d) == {…}`
unfoldable pub has_keys : List Text → Fields → Bool
has_keys names fields =
    all (λ k. mem_text k names) (keys fields) && all (λ k. mem_text k (keys fields)) names

abbrev pub items : Items → List Json
items nil = []
items (item j js) = j ∷ items js

abbrev pub array_of : List Json → Items
array_of [] = nil
array_of (j ∷ js) = item j (array_of js)

-- The integer that a value is in a comparison: `True` is 1.
abbrev pub numeric : Json → Option ℤ
numeric (json_bool b) = some (pos (if b then 1 else 0))
numeric (json_int n) = some n
numeric _ = none

abbrev int_eq : ℤ → ℤ → Bool
int_eq (pos m) (pos n) = m == n
int_eq (negsuc m) (negsuc n) = m == n
int_eq _ _ = false

abbrev count : Fields → ℕ
count end = 0
count (field k v rest) = suc (count rest)

numeric_eq : Option ℤ → Option ℤ → Bool
numeric_eq (some m) (some n) = int_eq m n
numeric_eq _ _ = false

-- `a == b`
unfoldable mutual
  unfolding numeric_eq

  pub json_eq : Json → Json → Bool
  json_eq json_null json_null = true
  json_eq (json_str s) (json_str t) = text_eq s t
  json_eq (json_list js) (json_list ks) = items_eq js ks
  json_eq (json_dict d) (json_dict e) = fields_within d e && count d == count e
  json_eq (json_bool b) k = numeric_eq (numeric (json_bool b)) (numeric k)
  json_eq (json_int n) k = numeric_eq (numeric (json_int n)) (numeric k)
  json_eq _ _ = false

  pub items_eq : Items → Items → Bool
  items_eq nil nil = true
  items_eq (item j js) (item k ks) = json_eq j k && items_eq js ks
  items_eq _ _ = false

  pub fields_within : Fields → Fields → Bool
  fields_within end e = true
  fields_within (field k v rest) e =
      elim (get k e) [ none ↦ false | some w ↦ json_eq v w ] && fields_within rest e

hex_digit : ℕ → ℕ
hex_digit n = if ltb n 10 then 48 + n else 87 + n

hex4 : ℕ → Text
unfolding hex_digit
hex4 c =
    hex_digit (c / 4096 % 16)
    ∷ hex_digit (c / 256 % 16)
    ∷ hex_digit (c / 16 % 16)
    ∷ hex_digit (c % 16)
    ∷ []

-- `ensure_ascii`: a character beyond the first plane is a pair of surrogates.
escape : ℕ → Text
unfolding hex4
escape c =
    if c == b'"'
    then codes "\\\""
    else if c == b'\\'
    then codes "\\\\"
    else if c == 10
    then codes "\\n"
    else if c == 13
    then codes "\\r"
    else if c == 9
    then codes "\\t"
    else if c == 8
    then codes "\\b"
    else if c == 12
    then codes "\\f"
    else if leb 32 c && leb c 126
    then c ∷ []
    else if ltb c 65536
    then codes "\\u" ++ hex4 c
    else codes "\\u"
      ++ hex4 (55296 + (c - 65536) / 1024)
      ++ codes "\\u"
      ++ hex4 (56320 + (c - 65536) % 1024)

escaped : Text → Text
unfolding escape
escaped [] = []
escaped (c ∷ s) = escape c ++ escaped s

quoted : Text → Text
unfolding escaped
quoted s = b'"' ∷ escaped s ++ b'"' ∷ []

show_integer : ℤ → Text
show_integer (pos n) = show n
show_integer (negsuc n) = b'-' ∷ show (suc n)

-- `",".join(parts)`
joined : List Text → Text
joined [] = []
joined (s ∷ []) = s
joined (s ∷ t ∷ parts) = s ++ b',' ∷ joined (t ∷ parts)

pair_le : Text × Text → Text × Text → Bool
pair_le (k, v) (l, w) = text_le k l

entry : Text × Text → Text
unfolding quoted
entry (k, v) = quoted k ++ b':' ∷ v

unfoldable mutual
  unfolding quoted show_integer joined pair_le entry

  pub dumps : Json → Text
  dumps json_null = codes "null"
  dumps (json_bool b) = if b then codes "true" else codes "false"
  dumps (json_int n) = show_integer n
  dumps (json_str s) = quoted s
  dumps (json_list js) = b'[' ∷ joined (dumps_items js) ++ b']' ∷ []
  dumps (json_dict fields) =
      b'{' ∷ joined (map entry (sorted pair_le (dumps_fields fields))) ++ b'}' ∷ []

  pub dumps_items : Items → List Text
  dumps_items nil = []
  dumps_items (item j js) = dumps j ∷ dumps_items js

  pub dumps_fields : Fields → List (Text × Text)
  dumps_fields end = []
  dumps_fields (field k v rest) = (k, dumps v) ∷ dumps_fields rest

dumps_runs :
    dumps (
      json_dict (
        field
          (codes "b")
          (json_list (item json_null (item (json_int (negsuc 1)) nil)))
          (field (codes "a") (json_str (codes "x\"\n")) end)))
    ≡ codes "{\"a\":\"x\\\"\\n\",\"b\":[null,-2]}"
unfolding dumps sorted insert text_le show
dumps_runs = refl
