-- ===== src/Compliance/Rules/Registry.antt =====
-- The registry of rule packs (`RuleRegistry` of backend/app/compliance/rule_registry.py). Its
-- dictionaries are lists in the order of insertion, read from the front: a pack that repeats a key
-- equals the one that it replaces.
pub mod Bound
use security_configuration_a.Base.{
  ℕ, Bool, true, false, not, ◌&&◌, ◌||◌, Option, none, some, List, [], ◌∷◌, ◌++◌, Text,
  if◌then◌else◌, keep, ◌==◌,
}
use security_configuration_a.Base.Str.{text_eq, mem_text, codes}
use security_configuration_a.Base.Json.{Json, json_dict, json_list, Fields, array_of, json_eq}
use security_configuration_a.Base.Result.{Result, ok, raised, ◌>>=◌, ◌>>◌, refuse_if, or_refuse}
use security_configuration_a.Compliance.Rules.{
  FindingSeverity, critical, high, medium, low, informational, RuleDefinition, RulePack,
  validate_pack,
}

abbrev pub severity_name : FindingSeverity → ℕ
severity_name critical = 0
severity_name high = 1
severity_name medium = 2
severity_name low = 3
severity_name informational = 4

abbrev texts_eq : List Text → List Text → Bool
texts_eq [] [] = true
texts_eq (s ∷ ss) (t ∷ ts) = text_eq s t && texts_eq ss ts
texts_eq _ _ = false

abbrev fields_eq : Fields → Fields → Bool
fields_eq d e = json_eq (json_dict d) (json_dict e)

-- `==` of the data class, field by field
unfoldable pub rule_eq : RuleDefinition → RuleDefinition → Bool
rule_eq r s =
    text_eq r.rule_id s.rule_id
    && text_eq r.title s.title
    && text_eq r.description s.description
    && text_eq r.security_domain s.security_domain
    && severity_name r.severity == severity_name s.severity
    && text_eq r.severity_reason s.severity_reason
    && fields_eq r.applicability s.applicability
    && texts_eq r.required_effective_states s.required_effective_states
    && fields_eq r.condition s.condition
    && texts_eq r.required_policy_parameters s.required_policy_parameters
    && json_eq (json_list (array_of r.framework_references))
        (json_list (array_of s.framework_references))

unfoldable pub rules_eq : List RuleDefinition → List RuleDefinition → Bool
unfolding rule_eq
rules_eq [] [] = true
rules_eq (r ∷ rs) (s ∷ ss) = rule_eq r s && rules_eq rs ss
rules_eq _ _ = false

unfoldable pub pack_eq : RulePack → RulePack → Bool
unfolding rules_eq
pack_eq p q =
    p.rule_pack_version_id == q.rule_pack_version_id
    && text_eq p.name q.name
    && text_eq p.version q.version
    && text_eq p.profile_version_id q.profile_version_id
    && rules_eq p.rules q.rules
    && text_eq p.schema_version q.schema_version

-- `self._packs.get(version_id)`
unfoldable pub pack_with_id : ℕ → List RulePack → Option RulePack
pack_with_id version_id [] = none
pack_with_id version_id (p ∷ ps) =
    if p.rule_pack_version_id == version_id then some p else pack_with_id version_id ps

-- `self._logical_versions.get((name, version))`
unfoldable pub pack_named : Text → Text → List RulePack → Option RulePack
pack_named name version [] = none
pack_named name version (p ∷ ps) =
    if text_eq p.name name && text_eq p.version version then some p else pack_named name version ps

abbrev pub differs : RulePack → Option RulePack → Bool
differs pack none = false
differs pack (some existing) = not (pack_eq existing pack)

-- The first loop of `__init__`, after the packs `loaded`.
unfoldable pub load_packs : List RulePack → List RulePack → Result (List RulePack)
load_packs loaded [] = ok loaded
load_packs loaded (pack ∷ packs) = do
  validate_pack pack
  refuse_if
      (differs pack (pack_with_id pack.rule_pack_version_id loaded)
        || differs pack (pack_named pack.name pack.version loaded))
      "Rule pack version content conflicts"
  load_packs (loaded ++ pack ∷ []) packs

abbrev pub Active : Type 0
Active = Option (List (Text × ℕ))

abbrev assigned : Text → List (Text × ℕ) → Option ℕ
assigned profile [] = none
assigned profile ((name, version_id) ∷ rest) =
    if text_eq name profile then some version_id else assigned profile rest

abbrev pub configured_for : Text → Active → Option ℕ
configured_for profile none = none
configured_for profile (some active) = assigned profile active

abbrev pub of_profile : Text → RulePack → Bool
of_profile profile p = text_eq p.profile_version_id profile

-- The pack that is configured, which must be one of the profile.
unfoldable pub selected_pack : List RulePack → Text → Option RulePack → Result RulePack
selected_pack packs profile none = raised (codes "Active rule pack binding is invalid")
selected_pack packs profile (some pack) =
    refuse_if (not (of_profile profile pack)) "Active rule pack binding is invalid" >> ok pack

-- One turn of the second loop, with the packs of the profile.
unfoldable pub active_pack : List RulePack → Text → List RulePack → Option ℕ → Result RulePack
unfolding selected_pack
active_pack packs profile (p ∷ []) none = ok p
active_pack packs profile _ none = raised (codes "Active rule pack binding is invalid")
active_pack packs profile _ (some version_id) =
    selected_pack packs profile (pack_with_id version_id packs)

-- The profiles of the packs, each once.
unfoldable pub profiles_of : List RulePack → List Text
profiles_of [] = []
profiles_of (p ∷ ps) =
    let rest = profiles_of ps in
    if mem_text p.profile_version_id rest then rest else p.profile_version_id ∷ rest

unfoldable pub bind_profiles : List RulePack → Active → List Text → Result (List (Text × RulePack))
unfolding active_pack
bind_profiles packs active [] = ok []
bind_profiles packs active (profile ∷ profiles) = do
  pack ← active_pack packs profile (keep (of_profile profile) packs) (configured_for profile active)
  rest ← bind_profiles packs active profiles
  ok ((profile, pack) ∷ rest)

pub record RuleRegistry : Type 0 where
  pub packs : List RulePack
  pub by_profile : List (Text × RulePack)

-- `RuleRegistry(packs, active_by_profile=active)`
unfoldable pub new_registry : List RulePack → Active → Result RuleRegistry
unfolding profiles_of
new_registry packs active = do
  loaded ← load_packs [] packs
  by_profile ← bind_profiles loaded active (profiles_of loaded)
  ok (record { packs = loaded; by_profile = by_profile })

unfoldable pub get_pack : RuleRegistry → ℕ → Result RulePack
get_pack registry version_id =
    or_refuse (pack_with_id version_id registry.packs) "Rule pack version is unavailable"

unfoldable pub bound_to : Text → List (Text × RulePack) → Option RulePack
bound_to profile [] = none
bound_to profile ((name, pack) ∷ rest) =
    if text_eq name profile then some pack else bound_to profile rest

-- `for_profile`
unfoldable pub pack_for_profile : RuleRegistry → Text → Option RulePack
unfolding bound_to
pack_for_profile registry profile = bound_to profile registry.by_profile
