-- ===== src/Compliance/Rules/Shipped.antt =====
-- The rules and packs that the program ships (backend/app/compliance/rule_registry.py). The hash that
-- makes the identifier of a pack (`uuid5`) is a parameter, `pack_id`, of the text that it reads.
use security_configuration_a.Base.{
  ℕ, true, false, Option, none, some, List, [], ◌∷◌, ◌++◌, Text, codes, map,
}
use security_configuration_a.Base.Json.{
  Json, json_bool, json_int, json_str, json_list, json_dict, ℤ, pos, Fields, end, field, array_of,
}
use security_configuration_a.Compliance.Rules.{
  FindingSeverity, high, medium, RuleDefinition, RulePack, verified_nist_titles,
}

abbrev pub cisco_ios_xe_17 : Text
cisco_ios_xe_17 = codes "cisco.ios_xe.17@1.0.0"

titled_or_empty : Option Text → Text
titled_or_empty none = []
titled_or_empty (some title) = title

-- `_nist`, for the controls that have a title
unfoldable pub nist : Text → Json
unfolding titled_or_empty
nist control_id = json_dict (
    field (codes "framework") (json_str (codes "NIST SP 800-53")) (
      field (codes "revision") (json_str (codes "Rev. 5")) (
        field (codes "control_id") (json_str control_id) (
          field (codes "control_title")
            (json_str (titled_or_empty (verified_nist_titles control_id))) end))))

-- An entry that is set only if there is a value.
abbrev entry : Text → Option Json → Fields → Fields
entry key none rest = rest
entry key (some j) rest = field key j rest

abbrev option_json : {A : Type 0} → (A → Json) → Option A → Option Json
option_json f none = none
option_json f (some a) = some (f a)

abbrev order_json : List Text → Option Json
order_json [] = none
order_json (s ∷ rest) = some (json_list (array_of (map json_str (s ∷ rest))))

abbrev parameters_of : Option Text → List Text
parameters_of none = []
parameters_of (some []) = []
parameters_of (some parameter) = parameter ∷ []

-- The condition that `_rule` puts together.
unfoldable pub condition_of : Text → Option Json → Option Text → Option ℤ → List Text → Fields
condition_of operator expected parameter minimum_exclusive order =
    field (codes "operator") (json_str operator) (
      entry (codes "expected") expected (
        entry (codes "parameter") (option_json json_str parameter) (
          entry (codes "minimum_exclusive") (option_json json_int minimum_exclusive)
            (entry (codes "order") (order_json order) end))))

-- `_rule`
unfoldable pub make_rule :
    (rule_id title domain : Text)
    → FindingSeverity
    → (security_field operator : Text) → Option Json
    → Option Text
    → List Json
    → Option ℤ
    → List Text
    → RuleDefinition
unfolding condition_of
make_rule rule_id title domain severity security_field operator expected parameter references
      minimum_exclusive order =
    record {
      rule_id = rule_id;
      title = title;
      description = title;
      security_domain = domain;
      severity = severity;
      severity_reason = codes "Internal technical baseline severity.";
      applicability = field (codes "profile_version_id") (json_str cisco_ios_xe_17) end;
      required_effective_states = security_field ∷ [];
      condition = condition_of operator expected parameter minimum_exclusive order;
      required_policy_parameters = parameters_of parameter;
      framework_references = references;
    }

unfoldable pub base_rules : List RuleDefinition
unfolding make_rule nist
base_rules =
    make_rule (codes "management.telnet.disabled") (codes "Telnet management access disabled")
      (codes "management") high (codes "management.remote.telnet.enabled") (codes "equals")
      (some (json_bool false)) none (nist (codes "AC-17") ∷ []) none []
    ∷ make_rule (codes "management.ssh.enabled") (codes "SSH management access enabled")
        (codes "management") high (codes "management.remote.ssh.enabled") (codes "equals")
        (some (json_bool true)) none (nist (codes "AC-17") ∷ []) none []
    ∷ make_rule (codes "management.ssh.version_2") (codes "SSH protocol version 2 required")
        (codes "management") medium (codes "management.remote.ssh.version") (codes "equals")
        (some (json_int (pos 2))) none (nist (codes "AC-17") ∷ []) none []
    ∷ make_rule (codes "management.source.restriction.configured")
        (codes "Management source restriction configured") (codes "management") medium
        (codes "management.remote.source.restriction.configured") (codes "equals")
        (some (json_bool true)) none [] none []
    ∷ make_rule (codes "management.idle_timeout.maximum")
        (codes "Administrative idle timeout within organization maximum") (codes "management")
        medium (codes "management.session.idle_timeout") (codes "less_than_or_equal") none
        (some (codes "maximum_admin_idle_timeout_seconds")) (nist (codes "AC-11") ∷ [])
        (some (pos 0)) []
    ∷ make_rule (codes "logging.enabled") (codes "Configuration logging enabled") (codes "logging")
        medium (codes "logging.enabled") (codes "equals") (some (json_bool true)) none
        (nist (codes "AU-12") ∷ []) none []
    ∷ make_rule (codes "logging.remote.destination.configured")
        (codes "Remote logging destination configured") (codes "logging") medium
        (codes "logging.remote.destination") (codes "non_empty") none none
        (nist (codes "AU-12") ∷ []) none []
    ∷ make_rule (codes "logging.remote.destination.approved")
        (codes "Remote logging destinations approved by organization policy") (codes "logging")
        medium (codes "logging.remote.destination") (codes "all_members_in_parameter_set") none
        (some (codes "approved_logging_destinations")) [] none []
    ∷ make_rule (codes "time.ntp.server.configured") (codes "NTP server configured") (codes "time")
        medium (codes "time.ntp.server") (codes "non_empty") none none (nist (codes "AU-8") ∷ [])
        none []
    ∷ make_rule (codes "time.ntp.configured") (codes "NTP configuration present") (codes "time")
        medium (codes "time.ntp.configured") (codes "equals") (some (json_bool true)) none
        (nist (codes "AU-8") ∷ []) none []
    ∷ make_rule (codes "time.ntp.authentication.enabled")
        (codes "Cryptographic NTP source authentication enabled") (codes "time") medium
        (codes "time.ntp.authentication.enabled") (codes "equals") (some (json_bool true)) none []
        none []
    ∷ make_rule (codes "time.ntp.server.approved")
        (codes "NTP servers approved by organization policy") (codes "time") medium
        (codes "time.ntp.server") (codes "all_members_in_parameter_set") none
        (some (codes "approved_ntp_servers")) [] none []
    ∷ []

unfoldable pub shipped_rules : List RuleDefinition
unfolding base_rules make_rule nist
shipped_rules =
    base_rules
    ++ (make_rule (codes "management.http.disabled") (codes "HTTP management access disabled")
          (codes "management") high (codes "management.remote.http.enabled") (codes "equals")
          (some (json_bool false)) none (nist (codes "AC-17") ∷ []) none []
        ∷ make_rule (codes "management.https.enabled") (codes "HTTPS management access enabled")
            (codes "management") medium (codes "management.remote.https.enabled") (codes "equals")
            (some (json_bool true)) none (nist (codes "AC-17") ∷ []) none []
        ∷ make_rule (codes "management.tls.minimum_1_2")
            (codes "Administrative TLS minimum version is 1.2") (codes "management") high
            (codes "management.remote.tls.minimum_version") (codes "enum_at_least")
            (some (json_str (codes "tlsv1-2"))) none (nist (codes "AC-17") ∷ []) none
            ((codes "tlsv1-0") ∷ (codes "tlsv1-1") ∷ (codes "tlsv1-2") ∷ (codes "tlsv1-3") ∷ [])
        ∷ make_rule (codes "management.ssh.strong_crypto")
            (codes "Strong SSH cryptographic settings configured") (codes "management") high
            (codes "management.remote.ssh.strong_crypto.configured") (codes "equals")
            (some (json_bool true)) none (nist (codes "AC-17") ∷ []) none []
        ∷ make_rule (codes "logging.administrative_access.enabled")
            (codes "Administrative access logging enabled") (codes "logging") medium
            (codes "logging.administrative_access.enabled") (codes "equals") (some (json_bool true))
            none (nist (codes "AU-12") ∷ []) none []
        ∷ [])

abbrev for_profile : Text → RuleDefinition → RuleDefinition
for_profile profile_version_id rule = record {
  rule_id = rule.rule_id;
  title = rule.title;
  description = rule.description;
  security_domain = rule.security_domain;
  severity = rule.severity;
  severity_reason = rule.severity_reason;
  applicability = field (codes "profile_version_id") (json_str profile_version_id) end;
  required_effective_states = rule.required_effective_states;
  condition = rule.condition;
  required_policy_parameters = rule.required_policy_parameters;
  framework_references = rule.framework_references;
}

-- `_rules_for`
unfoldable pub rules_for : Text → List RuleDefinition → List RuleDefinition
rules_for profile_version_id = map (for_profile profile_version_id)

module _ (pack_id : Text → ℕ) where
  -- A pack with the identifier that its name and version give.
  abbrev pub pack : Text → Text → Text → List RuleDefinition → RulePack
  pack name version profile_version_id rules = record {
    rule_pack_version_id = pack_id (name ++ 64 ∷ version);
    name = name;
    version = version;
    profile_version_id = profile_version_id;
    rules = rules;
    schema_version = codes "1.0.0";
  }

  unfoldable pub rule_pack_v1 : RulePack
  unfolding base_rules
  rule_pack_v1 =
      pack (codes "cisco_iosxe_17_technical_baseline") (codes "1.0.0") cisco_ios_xe_17 base_rules

  unfoldable pub rule_pack : RulePack
  unfolding shipped_rules
  rule_pack =
      pack (codes "cisco_iosxe_17_technical_baseline") (codes "1.1.0") cisco_ios_xe_17 shipped_rules

  -- The packs of the other profiles: the name of the pack, its version, its profile and its rules.
  unfoldable pub profile_pack : Text → Text → Text → List RuleDefinition → RulePack
  unfolding rules_for
  profile_pack name version profile_version_id rules =
      pack name version profile_version_id (rules_for profile_version_id rules)

  unfoldable pub shipped_packs : List RulePack
  unfolding rule_pack_v1 rule_pack profile_pack base_rules shipped_rules
  shipped_packs =
      rule_pack_v1
      ∷ rule_pack
      ∷ profile_pack (codes "fortios_7_technical_baseline") (codes "1.0.0")
          (codes "fortinet.fortios.7@1.0.0") base_rules
      ∷ profile_pack (codes "fortios_7_technical_baseline") (codes "1.1.0")
          (codes "fortinet.fortios.7@1.0.0") shipped_rules
      ∷ profile_pack (codes "juniper_junos_18_technical_baseline") (codes "1.0.0")
          (codes "juniper.junos.18@1.0.0") base_rules
      ∷ profile_pack (codes "juniper_junos_18_technical_baseline") (codes "1.1.0")
          (codes "juniper.junos.18@1.0.0") shipped_rules
      ∷ profile_pack (codes "arista_eos_4_technical_baseline") (codes "1.0.0")
          (codes "arista.eos.4@1.0.0") base_rules
      ∷ profile_pack (codes "arista_eos_4_technical_baseline") (codes "1.1.0")
          (codes "arista.eos.4@1.0.0") shipped_rules
      ∷ profile_pack (codes "generic_cli_technical_baseline") (codes "1.0.0")
          (codes "generic.cli@1.0.0") base_rules
      ∷ profile_pack (codes "generic_cli_technical_baseline") (codes "1.1.0")
          (codes "generic.cli@1.0.0") shipped_rules
      ∷ profile_pack (codes "generic_xml_technical_baseline") (codes "1.0.0")
          (codes "generic.xml@1.0.0") shipped_rules
      ∷ profile_pack (codes "generic_json_technical_baseline") (codes "1.0.0")
          (codes "generic.json@1.0.0") shipped_rules
      ∷ []
