-- ===== src/Effective/Examples.antt =====
-- Small facts and what they resolve to (backend/app/effective_state).
use security_configuration_a.Effective.Fields.{
  validate_field_value_scope, field_named, fields, get_field, fits_type,
}
use security_configuration_a.Base.{
  ◌≤◌, ℕ, ◌≡◌, refl, Bool, true, false, Option, none, some, List, [], ◌∷◌, Text, codes, In, All,
  inl, inr, ◌+◌,
}
use security_configuration_a.Base.Json.{
  Json, json_null, json_bool, json_str, json_int, json_dict, json_list, pos, item, nil, field, end,
  dumps, has_keys, get,
}
use security_configuration_a.Base.Str.{text_eq, strip, is_space, mem_text, text_le}
use security_configuration_a.Base.Sort.{sorted, insert}
use security_configuration_a.Base.Sets.{member, sorted_set, distinct}
use security_configuration_a.Base.Result.{ok}
use security_configuration_a.Effective.Values.{
  TypedValue, boolean, to_dict, typed_value_from_dict, typed_value_from_dict-to_dict, type_eq,
  value_key, type_named,
}
use security_configuration_a.Effective.Scopes.{
  ScopeRef, vty_key, key_range, key_range-vty_key, canonical_scope_key, scope_from_dict,
  validate_scope, is_valid_scope,
}
use security_configuration_a.Effective.Policy.{
  FactOperation, assign, operation_eq, get_field_policy,
}
use security_configuration_a.Effective.Drafts.{
  EffectiveStateDraft, TraceEntry, input_fact, explicit_selected, dependency_missing,
  same_artifact_source_order, resolved, unknown, missing_evidence, make_effective_state_draft,
  validate_effective_state_draft,
}
use security_configuration_a.Effective.Facts.{SecurityFact, ClassifiedFact, classify}
use security_configuration_a.Effective.Winner.{ordered_winner}
use security_configuration_a.Effective.Winner.Latest.{
  IsWinner, Counts, Agree, ordered_winner-IsWinner,
}
use security_configuration_a.Effective.Partitions.{Ranged, vty_partitions}
use security_configuration_a.Effective.Partitions.Cover.{
  IsCut, Somewhere, covers, vty_partitions-IsCut,
}
use security_configuration_a.Effective.Dependencies.{
  blocked_dependency_ids, walk, graph_of, has_unreadable, readable, fact_ids, dependencies_of,
  edges, is_missing, push_dependencies,
}
use security_configuration_a.Effective.Dependencies.Cycles.{
  Reached, Loops, unblocked-clear, walk-Loops,
}
use security_configuration_a.Effective.Grouping.{source_ids, group_by}
use security_configuration_a.Effective.Resolver.{
  resolve_scalar_scope, resolve_security_facts, resolve_field, resolve_scalar_field, unknown_draft,
}
use security_configuration_a.Effective.Resolver.Outcomes.{
  Told, scalar_scope-Told, scalar_scope-grounded,
}
use security_configuration_a.Effective.Resolver.States.{IsSettled, resolve-IsSettled}
use security_configuration_a.Effective.Resolver.Blocking.{Withholds, resolve-Withholds}

abbrev state_id : ℕ → Text → Text → ℕ
state_id audit_id field_id key = audit_id + 1

abbrev flag : Bool → TypedValue
flag b = record {
  type = boolean;
  value = json_bool b;
  unit = json_null;
  original_value = json_null;
  original_unit = json_null;
}

abbrev reference : Text → ℕ → Json
reference artifact line = json_list (
    item
      (json_dict (
        field (codes "artifact_id") (json_str artifact)
          (field (codes "start_line") (json_int (pos line)) end)))
      nil)

abbrev scope_dict : ScopeRef → Json
scope_dict scope = json_dict (
    field (codes "type") (json_str scope.type) (
      field (codes "key") (json_str scope.key)
        (field (codes "attributes") (json_dict scope.attributes) end)))

abbrev device : ScopeRef
device = record { type = codes "device"; key = codes "device"; attributes = end }

abbrev telnet : Text
telnet = codes "management.remote.telnet.enabled"

abbrev fact_of : ℕ → ScopeRef → Bool → ℕ → List (Option ℕ) → SecurityFact
fact_of id scope b line dependencies = record {
  fact_id = id;
  field_id = telnet;
  value = to_dict (flag b);
  scope = scope_dict scope;
  evidence_refs = reference (codes "a") line;
  mapping_version_id = some 1;
  knowledge_pack_version_id = 1;
  dependencies = dependencies;
}

abbrev classified_of : ℕ → ScopeRef → Bool → ℕ → List (Option ℕ) → ClassifiedFact
classified_of id scope b line dependencies = record {
  fact = fact_of id scope b line dependencies;
  scope = scope;
  value = flag b;
  operation = assign;
  artifact_id = codes "a";
  source_line = line;
}

abbrev early : ClassifiedFact
early = classified_of 5 device true 3 []

abbrev late : ClassifiedFact
late = classified_of 4 device false 9 []

abbrev waiting : ClassifiedFact
waiting = classified_of 6 device true 12 (some 99 ∷ [])

abbrev assigned_to : ℕ → Option FactOperation
assigned_to id = some assign

abbrev narrow : Ranged
narrow = record { fact = early; first = 0; last = 4 }

abbrev wide : Ranged
wide = record { fact = late; first = 3; last = 15 }

abbrev lines : List Ranged
lines = narrow ∷ wide ∷ []

vty_partitions-IsCut_example :
    IsCut lines 0 (vty_partitions lines)
    × ((n : ℕ) (r : Ranged) → In r lines → covers n r ≡ true → Somewhere n (vty_partitions lines))
vty_partitions-IsCut_example = vty_partitions-IsCut lines

key_range-vty_key_example : key_range (vty_key 0 15) ≡ some (0, 15)
key_range-vty_key_example = key_range-vty_key 0 15

typed_value_from_dict-to_dict_example : typed_value_from_dict (to_dict (flag true)) ≡ ok (flag true)
typed_value_from_dict-to_dict_example = typed_value_from_dict-to_dict (flag true)

winner_runs : ordered_winner early (late ∷ []) ≡ (late, false)
unfolding ordered_winner text_eq sorted
winner_runs = refl

ordered_winner-IsWinner_example :
    IsWinner early (late ∷ []) (ordered_winner early (late ∷ [])).0
    × ((ordered_winner early (late ∷ [])).1 ≡ false
        → (g : ClassifiedFact) → Counts early (late ∷ []) (ordered_winner early (late ∷ [])).0 g
        → Agree (ordered_winner early (late ∷ [])).0 g)
    × ((ordered_winner early (late ∷ [])).1 ≡ true
        → (g : ClassifiedFact) × (h : ClassifiedFact) × Counts early
            (late ∷ [])
            (ordered_winner early (late ∷ [])).0
            g
          × Counts early (late ∷ []) (ordered_winner early (late ∷ [])).0 h
          × (¬ (Agree g h)))
ordered_winner-IsWinner_example = ordered_winner-IsWinner early (late ∷ [])

abbrev state_with : List TraceEntry → EffectiveStateDraft
state_with trace = record {
  effective_state_id = 2;
  audit_id = 1;
  device_id = 2;
  field_id = telnet;
  scope = device;
  effective_value = some (flag false);
  resolution_status = resolved;
  source_fact_ids = 4 ∷ 5 ∷ [];
  resolution_trace = trace;
  inherited_from = none;
  default_reference = none;
  referenced_objects = [];
  precedence_applied = same_artifact_source_order 4 ∷ [];
  unresolved_reason = none;
  schema_version = codes "1.0.0";
}

abbrev state : EffectiveStateDraft
state =
    state_with
      (input_fact 5 (codes "device") ∷ input_fact 4 (codes "device") ∷ explicit_selected 4 ∷ [])

scope_runs : resolve_scalar_scope state_id 1 2 telnet device early (late ∷ []) ≡ ok state
unfolding resolve_scalar_scope ordered_winner text_eq sorted make_effective_state_draft strip
    is_space canonical_scope_key type_eq validate_field_value_scope mem_text sorted_set value_key
    dumps to_dict text_le
scope_runs = refl

scalar_scope-Told_example :
    Told
      (ordered_winner early (late ∷ [])).0
      (ordered_winner early (late ∷ [])).1
      state.resolution_status
      state.effective_value
      state.unresolved_reason
    × (state.source_fact_ids ≡ source_ids (early ∷ late ∷ []))
    × (state.scope ≡ device)
scalar_scope-Told_example =
    scalar_scope-Told state_id 1 2 telnet device early (late ∷ []) state scope_runs

scalar_scope-grounded_example :
    (w : ClassifiedFact) × IsWinner early (late ∷ []) w
    × (w.operation ≡ assign)
    × (w.value ≡ flag false)
    × ((g : ClassifiedFact) → Counts early (late ∷ []) w g → Agree w g)
scalar_scope-grounded_example =
    scalar_scope-grounded state_id 1 2 telnet device early (late ∷ []) state (flag false) scope_runs
      refl

abbrev facts : List SecurityFact
facts = fact_of 5 device true 3 [] ∷ fact_of 4 device false 9 (some 5 ∷ []) ∷ []

abbrev states : List EffectiveStateDraft
states =
    state_with
      (input_fact 4 (codes "device") ∷ input_fact 5 (codes "device") ∷ explicit_selected 4 ∷ [])
    ∷ []

facts_run : resolve_security_facts state_id 1 2 [] assigned_to facts ≡ ok states
unfolding resolve_security_facts classify scope_from_dict has_keys mem_text text_eq get
    typed_value_from_dict to_dict operation_eq group_by sorted resolve_field get_field_policy
    field_named fields blocked_dependency_ids resolve_scalar_field resolve_scalar_scope
    ordered_winner make_effective_state_draft strip is_space canonical_scope_key type_eq
    validate_field_value_scope sorted_set value_key dumps text_le distinct is_missing graph_of walk
    push_dependencies edges insert validate_scope is_valid_scope key_range
    validate_effective_state_draft get_field fits_type type_named
facts_run = refl

resolve-IsSettled_example : All IsSettled states
resolve-IsSettled_example = resolve-IsSettled state_id 1 2 [] assigned_to facts states facts_run

abbrev blocked_states : List EffectiveStateDraft
blocked_states =
    record state {
      effective_value = none;
      resolution_status = unknown;
      source_fact_ids = 6 ∷ [];
      resolution_trace = dependency_missing 6 ∷ [];
      precedence_applied = [];
      unresolved_reason = some missing_evidence;
    }
    ∷ []

abbrev waiting_facts : List SecurityFact
waiting_facts = fact_of 6 device true 3 (some 7 ∷ []) ∷ []

waiting_run : resolve_security_facts state_id 1 2 [] assigned_to waiting_facts ≡ ok blocked_states
unfolding resolve_security_facts classify scope_from_dict has_keys mem_text text_eq get
    typed_value_from_dict to_dict operation_eq group_by sorted resolve_field get_field_policy
    field_named fields blocked_dependency_ids resolve_scalar_field resolve_scalar_scope
    ordered_winner make_effective_state_draft strip is_space canonical_scope_key type_eq
    validate_field_value_scope sorted_set value_key dumps text_le distinct is_missing graph_of walk
    push_dependencies edges insert validate_scope is_valid_scope key_range
    validate_effective_state_draft get_field fits_type type_named unknown_draft
waiting_run = refl

resolve-Withholds_example :
    (scope : ScopeRef) × (scope_from_dict (fact_of 6 device true 3 (some 7 ∷ [])).scope ≡ ok scope)
    × (d : EffectiveStateDraft) × In d blocked_states
    × Withholds telnet scope.key 6 d
unfolding blocked_dependency_ids is_missing
resolve-Withholds_example =
    resolve-Withholds state_id 1 2 [] assigned_to waiting_facts
      (fact_of 6 device true 3 (some 7 ∷ [])) blocked_states (inl refl) refl waiting_run

is_unblocked : member 4 (blocked_dependency_ids facts) ≡ false
unfolding blocked_dependency_ids graph_of walk push_dependencies edges distinct is_missing
is_unblocked = refl

unblocked-clear_example :
    (has_unreadable (some 5 ∷ []) ≡ false)
    × ((d : ℕ) → In d (readable (some 5 ∷ [])) → In d (fact_ids facts))
    × ((y : ℕ)
        → Reached (graph_of facts) (4 ∷ []) y
        → ¬ (In 4 (dependencies_of (edges y (graph_of facts)))))
unblocked-clear_example =
    unblocked-clear facts (fact_of 4 device false 9 (some 5 ∷ [])) (inr (inl refl)) is_unblocked

walk-Loops_example :
    ((turns : ℕ) × (turns ≤ 129)
      × Loops 4 (graph_of facts) [] (4 ∷ []) turns (walk 4 (graph_of facts) 129 [] (4 ∷ [])))
    × ((turns : ℕ) (blocked : Bool)
        → Loops 4 (graph_of facts) [] (4 ∷ []) turns blocked
        → blocked ≡ walk 4 (graph_of facts) 129 [] (4 ∷ []))
walk-Loops_example = walk-Loops 4 (graph_of facts)

-- A dependency that two others share is neither missing nor on a cycle, and yet blocks the fact.
diamond_runs :
    walk 1 ((1, 2 ∷ 3 ∷ []) ∷ (2, 4 ∷ []) ∷ (3, 4 ∷ []) ∷ (4, []) ∷ []) 129 [] (1 ∷ []) ≡ true
unfolding walk push_dependencies edges
diamond_runs = refl
