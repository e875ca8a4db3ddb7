-- ===== src/Effective/Resolver.antt =====
-- The resolution of facts into effective states (backend/app/effective_state/resolver.py). Facts are in
-- the order of their identifiers within a scope wherever the code sorts them so.
pub mod Outcomes
pub mod States
pub mod Blocking
use security_configuration_a.Base.{
  ℕ, ◌+◌, Bool, true, false, not, ◌&&◌, ◌||◌, Option, none, some, List, [], ◌∷◌, ◌++◌, Text, codes,
  if◌then◌else◌, ◌==◌, leb, ltb, map, keep, take, is_empty, length, any,
}
use security_configuration_a.Base.Str.{text_eq, text_le}
use security_configuration_a.Base.Sort.{sorted}
use security_configuration_a.Base.Sets.{member, sorted_set}
use security_configuration_a.Base.Json.{Json, json_null, json_list, array_of}
use security_configuration_a.Base.Result.{Result, ok, raised, ◌>>=◌, ◌>>◌, map_result}
use security_configuration_a.Effective.Values.{TypedValue, TypedValueType, to_dict, value_key, list}
use security_configuration_a.Effective.Scopes.{ScopeRef, vty_bounds, vty_scope}
use security_configuration_a.Effective.Policy.{
  FactOperation, assign, reset, remove, MappingOperationPolicy, FieldCardinality, scalar,
  repeatable, get_field_policy, operation_eq,
}
use security_configuration_a.Effective.Drafts.{
  ResolutionStatus, resolved, unknown, conflicting, UnresolvedReason, unknown_semantics,
  missing_evidence, unresolved_default, conflicting_evidence, TraceEntry, input_fact,
  dependency_missing, default_missing, explicit_selected, collection_member_added,
  collection_member_removed, duplicate_collapsed, conflict_detected, unresolved, Precedence,
  same_artifact_source_order, EffectiveStateDraft, make_effective_state_draft,
}
use security_configuration_a.Effective.Facts.{SecurityFact, ClassifiedFact, classify}
use security_configuration_a.Effective.Dependencies.{blocked_dependency_ids}
use security_configuration_a.Effective.Winner.{ordered_winner}
use security_configuration_a.Effective.Partitions.{Ranged, Partition, vty_partitions}
use security_configuration_a.Effective.Grouping.{
  group_by, same_scope, same_field, same_value, scope_le, field_le, value_le, draft_le, fact_id,
  source_ids, bounded, concat, Members, settle_members, scopes_of, ranged, facts_of,
}

module _ (state_id : ℕ → Text → Text → ℕ) (audit_id device_id : ℕ) where
  -- `_unknown`
  unfoldable pub unknown_draft :
      Text
      → ScopeRef
      → List ℕ
      → List TraceEntry
      → UnresolvedReason
      → (conflict : Bool) → Result EffectiveStateDraft
  unknown_draft field_id scope ids trace reason conflict =
      make_effective_state_draft state_id audit_id device_id field_id scope none
        (if conflict then conflicting else unknown) ids (bounded trace) []
        (some (if conflict then conflicting_evidence else reason))

  assigned_draft :
      Text
      → ScopeRef
      → List ClassifiedFact
      → List TraceEntry
      → ClassifiedFact
      → Result EffectiveStateDraft
  assigned_draft field_id scope facts trace winner =
      let equivalent = keep (λ f. same_value f winner) facts in
      make_effective_state_draft state_id audit_id device_id field_id scope (some winner.value)
        resolved (source_ids facts)
        (bounded (
          trace
          ++ (if ltb 1 (length equivalent)
              then duplicate_collapsed (map fact_id equivalent) ∷ []
              else [])
          ++ explicit_selected winner.fact.fact_id ∷ []))
        (if ltb 1 (length facts) then same_artifact_source_order winner.fact.fact_id ∷ [] else [])
        none

  -- The branches on the operation of the winner.
  operation_draft :
      Text
      → ScopeRef
      → List ClassifiedFact
      → List TraceEntry
      → ClassifiedFact
      → FactOperation
      → Result EffectiveStateDraft
  unfolding assigned_draft
  operation_draft field_id scope facts trace winner reset =
      unknown_draft field_id scope (source_ids facts)
        (trace ++ default_missing winner.fact.fact_id ∷ []) unresolved_default false
  operation_draft field_id scope facts trace winner remove =
      unknown_draft field_id scope (source_ids facts) (trace ++ unresolved ∷ []) unknown_semantics
        false
  operation_draft field_id scope facts trace winner assign =
      assigned_draft field_id scope facts trace winner

  settled_draft :
      Text
      → ScopeRef
      → List ClassifiedFact
      → List TraceEntry
      → ClassifiedFact × Bool
      → Result EffectiveStateDraft
  unfolding operation_draft
  settled_draft field_id scope facts trace (winner, true) =
      unknown_draft field_id scope (source_ids facts) (trace ++ conflict_detected ∷ [])
        conflicting_evidence true
  settled_draft field_id scope facts trace (winner, false) =
      operation_draft field_id scope facts trace winner winner.operation

  unfoldable pub resolve_scalar_scope :
      Text → ScopeRef → ClassifiedFact → List ClassifiedFact → Result EffectiveStateDraft
  unfolding settled_draft
  resolve_scalar_scope field_id scope f fs =
      let trace = map (λ (g : ClassifiedFact). input_fact g.fact.fact_id g.scope.key) (f ∷ fs) in
      settled_draft field_id scope (f ∷ fs) trace (ordered_winner f fs)

  -- A part always has facts.
  resolve_some : Text → ScopeRef → List ClassifiedFact → Result (List EffectiveStateDraft)
  resolve_some field_id scope [] = ok []
  resolve_some field_id scope (f ∷ fs) =
      resolve_scalar_scope field_id scope f fs >>= λ draft. ok (draft ∷ [])

  resolve_part : Text → Partition → Result (List EffectiveStateDraft)
  unfolding facts_of resolve_some
  resolve_part field_id part =
      resolve_some field_id (vty_scope part.first part.last) (facts_of part.applicable)

  resolve_vty : Text → List ClassifiedFact → Result (List EffectiveStateDraft)
  unfolding resolve_part ranged concat
  resolve_vty field_id facts = do
    items ← map_result ranged facts
    drafts ← map_result (resolve_part field_id) (vty_partitions items)
    ok (concat drafts)

  resolve_scope_group : Text → ClassifiedFact × List ClassifiedFact → Result EffectiveStateDraft
  resolve_scope_group field_id (f, fs) = resolve_scalar_scope field_id f.scope f fs

  unfoldable pub resolve_scalar_field :
      Text → List ClassifiedFact → Result (List EffectiveStateDraft)
  unfolding resolve_vty resolve_scope_group scope_le
  resolve_scalar_field field_id [] = ok []
  resolve_scalar_field field_id (f ∷ fs) =
      if text_eq f.scope.type (codes "vty_range")
      then resolve_vty field_id (f ∷ fs)
      else map_result (resolve_scope_group field_id)
          (group_by same_scope (sorted scope_le (f ∷ fs)))

  collection_draft : Text → ScopeRef → List ClassifiedFact → Members → Result EffectiveStateDraft
  collection_draft field_id scope facts m =
      if m.conflict
      then unknown_draft field_id scope (source_ids facts) (m.trace ++ conflict_detected ∷ [])
          conflicting_evidence true
      else make_effective_state_draft state_id audit_id device_id field_id scope
          (some (record {
            type = list;
            value = json_list (array_of (map to_dict m.values));
            unit = json_null;
            original_value = json_null;
            original_unit = json_null;
          }))
          resolved (source_ids facts) (bounded m.trace) [] none

  -- The items of one scope are sorted by the keys of their values, so a member is a run of them.
  unfoldable pub resolve_collection :
      Text → ClassifiedFact × List ClassifiedFact → Result EffectiveStateDraft
  unfolding collection_draft
  resolve_collection field_id (f, fs) =
      let trace = map (λ (g : ClassifiedFact). input_fact g.fact.fact_id f.scope.key) (f ∷ fs) in
      collection_draft field_id f.scope (f ∷ fs) (
        settle_members (group_by same_value (f ∷ fs))
          (record { values = []; trace = trace; conflict = false }))

  unfoldable pub resolve_repeatable_field :
      Text → List ClassifiedFact → Result (List EffectiveStateDraft)
  unfolding resolve_collection value_le
  resolve_repeatable_field field_id facts =
      map_result (resolve_collection field_id) (group_by same_scope (sorted value_le facts))

  resolve_blocked : Text → List ClassifiedFact → Result (List EffectiveStateDraft)
  unfolding scopes_of
  resolve_blocked field_id blocked =
      map_result
        (λ scope.
          unknown_draft field_id scope (source_ids blocked)
            (map (λ (g : ClassifiedFact). dependency_missing g.fact.fact_id) blocked)
            missing_evidence false)
        (scopes_of blocked)

  resolve_unless :
      List ClassifiedFact
      → Text
      → FieldCardinality
      → List ClassifiedFact
      → Result (List EffectiveStateDraft)
  unfolding resolve_blocked
  resolve_unless [] field_id scalar facts = resolve_scalar_field field_id facts
  resolve_unless [] field_id repeatable facts = resolve_repeatable_field field_id facts
  resolve_unless (f ∷ fs) field_id cardinality facts = resolve_blocked field_id (f ∷ fs)

  -- The body of the loop over the fields.
  unfoldable pub resolve_field :
      List ℕ → ClassifiedFact × List ClassifiedFact → Result (List EffectiveStateDraft)
  unfolding resolve_unless
  resolve_field blocked_ids (f, fs) = do
    policy ← get_field_policy f.fact.field_id
    let blocked = keep (λ g. member (fact_id g) blocked_ids) (f ∷ fs)
    resolve_unless blocked f.fact.field_id policy.cardinality (f ∷ fs)

  -- `operations` gives the persisted operation of a fact, if there is one.
  unfoldable pub resolve_security_facts :
      List MappingOperationPolicy
      → (ℕ → Option FactOperation)
      → List SecurityFact
      → Result (List EffectiveStateDraft)
  unfolding field_le draft_le concat
  resolve_security_facts policies operations facts = do
    classified ← map_result (λ (f : SecurityFact). classify policies f (operations f.fact_id)) facts
    drafts ←
        map_result (resolve_field (blocked_dependency_ids facts))
          (group_by same_field (sorted field_le classified))
    ok (sorted draft_le (concat drafts))
