-- ===== src/Compliance/Policy.antt =====
-- Versions of an organisation's policy (backend/app/compliance/policy.py, models.py). A UUID is its
-- integer; the hash that makes an identifier (`uuid5`) is a parameter, `policy_id`, of the
-- organisation, the name, the version and the parameters as text; reading a UUID is a parameter too.
-- The dictionaries of the registry are lists whose latest entry stands first.
pub mod History
use security_configuration_a.Base.{
  ℕ, Bool, true, false, not, ◌&&◌, ◌||◌, Option, none, some, List, [], ◌∷◌, Text, codes,
  if◌then◌else◌, ◌==◌,
}
use security_configuration_a.Base.Str.{text_eq}
use security_configuration_a.Base.Json.{
  Json, json_null, json_dict, json_int, pos, Fields, end, field, get, json_eq, dumps,
}
use security_configuration_a.Base.Result.{Result, ok, raised, ◌>>=◌, ◌>>◌, refuse_if, or_refuse}
use security_configuration_a.Compliance.Evaluator.{value_or_null}
use security_configuration_a.Compliance.Rules.{is_blank}

pub record OrganizationPolicyVersion : Type 0 where
  pub organization_id : ℕ
  pub organization_policy_version_id : ℕ
  pub name : Text
  pub version : Text
  pub parameters : Fields
  pub schema_version : Text

abbrev pub parameters_eq : Fields → Fields → Bool
parameters_eq d e = json_eq (json_dict d) (json_dict e)

-- `==` of the data class
unfoldable pub policy_eq : OrganizationPolicyVersion → OrganizationPolicyVersion → Bool
policy_eq p q =
    p.organization_id == q.organization_id
    && p.organization_policy_version_id == q.organization_policy_version_id
    && text_eq p.name q.name
    && text_eq p.version q.version
    && parameters_eq p.parameters q.parameters
    && text_eq p.schema_version q.schema_version

-- `_versions` and `_logical_versions`, which are set together
abbrev pub OrganizationPolicyRegistry : Type 0
OrganizationPolicyRegistry = List OrganizationPolicyVersion

unfoldable pub version_with_id : ℕ → OrganizationPolicyRegistry → Option OrganizationPolicyVersion
version_with_id id [] = none
version_with_id id (p ∷ ps) =
    if p.organization_policy_version_id == id then some p else version_with_id id ps

abbrev pub is_declared : ℕ → Text → Text → OrganizationPolicyVersion → Bool
is_declared organization_id name version p =
    p.organization_id == organization_id && text_eq p.name name && text_eq p.version version

unfoldable pub declared_version :
    ℕ → Text → Text → OrganizationPolicyRegistry → Option OrganizationPolicyVersion
declared_version organization_id name version [] = none
declared_version organization_id name version (p ∷ ps) =
    if is_declared organization_id name version p
    then some p
    else declared_version organization_id name version ps

abbrev pub conflicts_with : OrganizationPolicyVersion → Option OrganizationPolicyVersion → Bool
conflicts_with policy none = false
conflicts_with policy (some existing) = not (policy_eq existing policy)

abbrev pub redeclares : OrganizationPolicyVersion → Option OrganizationPolicyVersion → Bool
redeclares policy none = false
redeclares policy (some declared) = not (parameters_eq declared.parameters policy.parameters)

module _ (policy_id : ℕ → Text → Text → Text → ℕ) where
  unfoldable pub deterministic_policy_version_id : ℕ → Text → Text → Fields → ℕ
  deterministic_policy_version_id organization_id name version parameters =
      policy_id organization_id name version (dumps (json_dict parameters))

  -- The version that `register` makes.
  unfoldable pub policy_version : ℕ → Text → Text → Fields → OrganizationPolicyVersion
  unfolding deterministic_policy_version_id
  policy_version organization_id name version parameters = record {
    organization_id = organization_id;
    organization_policy_version_id =
        deterministic_policy_version_id organization_id name version parameters;
    name = name;
    version = version;
    parameters = parameters;
    schema_version = codes "1.0.0";
  }

  -- `register`: the version, and the registry after it
  unfoldable pub register :
      OrganizationPolicyRegistry
      → ℕ
      → Text
      → Text
      → Fields
      → Result (OrganizationPolicyVersion × OrganizationPolicyRegistry)
  register registry organization_id name version parameters = do
    refuse_if (is_blank name || is_blank version) "Organization policy metadata is malformed"
    let policy : OrganizationPolicyVersion = policy_version organization_id name version parameters
    refuse_if
        (conflicts_with policy (version_with_id policy.organization_policy_version_id registry))
        "Organization policy version identity conflicts"
    refuse_if (redeclares policy (declared_version organization_id name version registry))
        "Organization policy version content conflicts"
    ok (policy, policy ∷ registry)

  unfoldable pub get_version : OrganizationPolicyRegistry → ℕ → Result OrganizationPolicyVersion
  get_version registry id =
      or_refuse (version_with_id id registry) "Organization policy version is unavailable"

  abbrev pub default_parameters : Fields
  default_parameters = field (codes "maximum_admin_idle_timeout_seconds") (json_int (pos 600)) end

  -- The pin, if there is one, must be the version itself; `read_uuid` is `UUID(text)`.
  unfoldable pub check_pin :
      (Text → Option ℕ) → OrganizationPolicyVersion → Option Text → Result (Unit {0})
  check_pin read_uuid policy none = ok tt
  check_pin read_uuid policy (some text) = do
    requested ← or_refuse (read_uuid text) "Organization policy version pin is malformed"
    refuse_if (not (requested == policy.organization_policy_version_id))
        "Organization policy version is unavailable"

  unfoldable pub select_policy_version :
      (Text → Option ℕ)
      → OrganizationPolicyRegistry
      → ℕ
      → Option Text
      → Result (OrganizationPolicyVersion × OrganizationPolicyRegistry)
  unfolding register check_pin
  select_policy_version read_uuid registry organization_id pinned_version_id = do
    (policy, after) ←
        register registry organization_id (codes "internal_technical_timeout_default")
          (codes "1.0.0") default_parameters
    check_pin read_uuid policy pinned_version_id
    ok (policy, after)

-- `resolve_parameter`, where a missing parameter is `None`
unfoldable pub resolve_parameter : Option OrganizationPolicyVersion → Text → Json
resolve_parameter none name = json_null
resolve_parameter (some policy) name = value_or_null (get name policy.parameters)
