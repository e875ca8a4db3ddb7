-- ===== src/Effective/Fields.antt =====
-- The registry of canonical fields and their values (backend/app/security_model/fields.py). A set is a
-- list.
use security_configuration_a.Base.{
  Bool, true, false, not, Option, none, some, List, [], ◌∷◌, Text, codes, if◌then◌else◌, String,
  is_empty, any,
}
use security_configuration_a.Base.Str.{text_eq, mem_text}
use security_configuration_a.Base.Json.{
  Json, json_null, json_bool, json_int, json_str, json_list, json_dict,
}
use security_configuration_a.Base.Result.{Result, ok, ◌>>=◌, ◌>>◌, refuse_if, or_refuse}
use security_configuration_a.Effective.Values.{
  TypedValue, TypedValueType, type_eq, boolean, integer, number, string, enum, ip_address,
  ip_network, duration, list, object, null,
}
use security_configuration_a.Effective.Scopes.{ScopeRef}

pub record CanonicalField : Type 0 where
  pub field_id : Text
  pub expected_types : List TypedValueType
  pub allowed_scope_types : List Text
  pub domain : Text
  pub description : Text
  pub repeatable : Bool

canonical_field : String → List TypedValueType → List Text → String → String → Bool → CanonicalField
canonical_field field_id expected_types allowed_scope_types domain description repeatable = record {
  field_id = codes field_id;
  expected_types = expected_types;
  allowed_scope_types = allowed_scope_types;
  domain = codes domain;
  description = codes description;
  repeatable = repeatable;
}

-- `_FIELDS`
unfoldable pub fields : List CanonicalField
unfolding canonical_field
fields =
    canonical_field "management.remote.telnet.enabled" (boolean ∷ [])
      (codes "vty_range" ∷ codes "interface" ∷ codes "device" ∷ []) "management"
      "Whether Telnet is explicitly allowed by a VTY transport statement." false
    ∷ canonical_field "management.remote.ssh.enabled" (boolean ∷ [])
        (codes "vty_range" ∷ codes "interface" ∷ codes "device" ∷ []) "management"
        "Whether SSH is explicitly allowed by a VTY transport statement." false
    ∷ canonical_field "management.remote.ssh.version" (integer ∷ []) (codes "device" ∷ [])
        "management" "Explicitly configured SSH protocol version." false
    ∷ canonical_field "management.remote.https.enabled" (boolean ∷ []) (codes "interface" ∷ [])
        "management" "Whether HTTPS administrative access is explicitly allowed on an interface."
        false
    ∷ canonical_field "management.remote.http.enabled" (boolean ∷ [])
        (codes "interface" ∷ codes "device" ∷ []) "management"
        "Whether clear-text HTTP administrative access is explicitly enabled." false
    ∷ canonical_field "management.remote.tls.minimum_version" (enum ∷ []) (codes "device" ∷ [])
        "management" "Explicit minimum TLS version accepted for administrative HTTPS access." false
    ∷ canonical_field "management.remote.source.restriction.configured" (boolean ∷ [])
        (codes "vty_range" ∷ codes "administrator" ∷ codes "management_service" ∷ []) "management"
        "Whether an explicit management-source restriction is configured in its native scope." false
    ∷ canonical_field "management.remote.ssh.strong_crypto.configured" (boolean ∷ [])
        (codes "device" ∷ []) "management"
        "Whether supported evidence explicitly establishes strong SSH cryptographic settings." false
    ∷ canonical_field "management.remote.source.permitted_network" (ip_network ∷ [])
        (codes "administrator" ∷ []) "management"
        "An explicitly configured administrative source network, retained in administrator scope."
        true
    ∷ canonical_field "management.session.idle_timeout" (duration ∷ [])
        (codes "vty_range" ∷ codes "device" ∷ []) "management"
        "Explicit VTY idle timeout in canonical seconds." false
    ∷ canonical_field "logging.remote.destination" (ip_address ∷ string ∷ []) (codes "device" ∷ [])
        "logging" "Explicit remote logging destination." true
    ∷ canonical_field "logging.enabled" (boolean ∷ []) (codes "device" ∷ []) "logging"
        "Whether logging is explicitly enabled by configuration evidence." false
    ∷ canonical_field "logging.administrative_access.enabled" (boolean ∷ []) (codes "device" ∷ [])
        "logging" "Whether supported evidence explicitly establishes administrative access logging."
        false
    ∷ canonical_field "time.ntp.server" (ip_address ∷ string ∷ []) (codes "device" ∷ []) "time"
        "Explicit NTP server destination." true
    ∷ canonical_field "time.ntp.configured" (boolean ∷ []) (codes "device" ∷ []) "time"
        "Whether NTP server configuration is explicitly present; absence remains unknown." false
    ∷ canonical_field "time.ntp.authentication.enabled" (boolean ∷ []) (codes "device" ∷ []) "time"
        "Whether NTP authentication is explicitly enabled." false
    ∷ canonical_field "time.ntp.authentication.key_id" (integer ∷ []) (codes "device" ∷ []) "time"
        "Explicit NTP authentication key identifier; secret material is never extracted." true
    ∷ canonical_field "time.ntp.authentication.trusted_key_id" (integer ∷ []) (codes "device" ∷ [])
        "time" "Explicit NTP trusted-key identifier." true
    ∷ []

unfoldable pub field_named : Text → List CanonicalField → Option CanonicalField
field_named field_id [] = none
field_named field_id (field ∷ rest) =
    if text_eq field.field_id field_id then some field else field_named field_id rest

unfoldable pub get_field : Text → Result CanonicalField
unfolding fields field_named
get_field field_id = or_refuse (field_named field_id fields) "Unknown canonical field"

-- `_validate_typed_value`: whether the value has its type.
unfoldable pub fits_type : TypedValueType → Json → Bool
fits_type boolean (json_bool b) = true
fits_type integer (json_int n) = true
fits_type number (json_int n) = true
fits_type string (json_str s) = true
fits_type enum (json_str s) = true
fits_type ip_address (json_str s) = true
fits_type ip_network (json_str s) = true
fits_type duration (json_int n) = true
fits_type list (json_list js) = true
fits_type object (json_dict d) = true
fits_type null json_null = true
fits_type _ _ = false

unfoldable pub validate_field_value_scope : Text → TypedValue → ScopeRef → Result CanonicalField
unfolding get_field fits_type
validate_field_value_scope field_id value scope = do
  field ← get_field field_id
  refuse_if (not (any (type_eq value.type) field.expected_types))
      "TypedValue type is incompatible with field"
  refuse_if (not (mem_text scope.type field.allowed_scope_types))
      "Scope type is incompatible with field"
  refuse_if (not (fits_type value.type value.value))
      "TypedValue value is incompatible with its type"
  refuse_if (is_empty scope.key) "ScopeRef is malformed"
  ok field
