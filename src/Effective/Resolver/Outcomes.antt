-- ===== src/Effective/Resolver/Outcomes.antt =====
-- What the states that the resolver makes say about the facts.
use security_configuration_a.Base.{
  ℕ, ◌≡◌, refl, Bool, true, false, Option, none, some, List, ◌∷◌, Text, map,
}
use security_configuration_a.Base.Result.{ok}
use security_configuration_a.Effective.Values.{TypedValue}
use security_configuration_a.Effective.Scopes.{ScopeRef}
use security_configuration_a.Effective.Policy.{FactOperation, assign, reset, remove}
use security_configuration_a.Effective.Drafts.{
  ResolutionStatus, resolved, unknown, conflicting, UnresolvedReason, unresolved_default,
  unknown_semantics, conflicting_evidence, TraceEntry, input_fact, EffectiveStateDraft,
}
use security_configuration_a.Effective.Drafts.Settled.{IsMade, make-IsMade}
use security_configuration_a.Effective.Facts.{ClassifiedFact}
use security_configuration_a.Effective.Winner.{ordered_winner}
use security_configuration_a.Effective.Winner.Latest.{
  IsWinner, Counts, Agree, ordered_winner-IsWinner,
}
use security_configuration_a.Effective.Grouping.{source_ids}
use security_configuration_a.Effective.Resolver.{
  unknown_draft, operation_draft, assigned_draft, settled_draft, resolve_scalar_scope,
}

-- The state of a scope, told by the winning fact and whether there is a conflict.
pub data Told (w : ClassifiedFact)
    : Bool → ResolutionStatus → Option TypedValue → Option UnresolvedReason → Type 0 where
  disputed : Told w true conflicting none (some conflicting_evidence)
  assigned : w.operation ≡ assign → Told w false resolved (some w.value) none
  defaulted : w.operation ≡ reset → Told w false unknown none (some unresolved_default)
  removed : w.operation ≡ remove → Told w false unknown none (some unknown_semantics)

module _ (state_id : ℕ → Text → Text → ℕ) (audit_id device_id : ℕ) where
  Told-made :
      (w : ClassifiedFact) (c : Bool) (field_id : Text) (scope : ScopeRef) (v : Option TypedValue)
      (s : ResolutionStatus) (ids : List ℕ) (r : Option UnresolvedReason) (d : EffectiveStateDraft)
      → Told w c s v r
      → IsMade field_id scope v s ids r d
      → Told w c d.resolution_status d.effective_value d.unresolved_reason
        × (d.source_fact_ids ≡ ids)
        × (d.scope ≡ scope)
  Told-made w c field_id scope v s ids r d t m =
      (rw m.same_status (rw m.same_value (rw m.same_reason t)), m.same_sources, m.same_scope)

  operation-Told :
      (field_id : Text) (scope : ScopeRef) (facts : List ClassifiedFact) (trace : List TraceEntry)
      (w : ClassifiedFact) (o : FactOperation) (d : EffectiveStateDraft)
      → w.operation ≡ o
      → operation_draft state_id audit_id device_id field_id scope facts trace w o ≡ ok d
      → Told w false d.resolution_status d.effective_value d.unresolved_reason
        × (d.source_fact_ids ≡ source_ids facts)
        × (d.scope ≡ scope)
  unfolding operation_draft unknown_draft assigned_draft
  operation-Told field_id scope facts trace w assign d e h =
      Told-made w false field_id scope _ _ _ _ d (assigned e)
        (make-IsMade state_id audit_id device_id field_id scope _ _ _ _ _ _ d h)
  operation-Told field_id scope facts trace w reset d e h =
      Told-made w false field_id scope _ _ _ _ d (defaulted e)
        (make-IsMade state_id audit_id device_id field_id scope _ _ _ _ _ _ d h)
  operation-Told field_id scope facts trace w remove d e h =
      Told-made w false field_id scope _ _ _ _ d (removed e)
        (make-IsMade state_id audit_id device_id field_id scope _ _ _ _ _ _ d h)

  settled-Told :
      (field_id : Text) (scope : ScopeRef) (facts : List ClassifiedFact) (trace : List TraceEntry)
      (w : ClassifiedFact × Bool) (d : EffectiveStateDraft)
      → settled_draft state_id audit_id device_id field_id scope facts trace w ≡ ok d
      → Told w.0 w.1 d.resolution_status d.effective_value d.unresolved_reason
        × (d.source_fact_ids ≡ source_ids facts)
        × (d.scope ≡ scope)
  unfolding settled_draft unknown_draft
  settled-Told field_id scope facts trace (w, true) d h =
      Told-made w true field_id scope _ _ _ _ d disputed
        (make-IsMade state_id audit_id device_id field_id scope _ _ _ _ _ _ d h)
  settled-Told field_id scope facts trace (w, false) d h =
      operation-Told field_id scope facts trace w w.operation d refl h

  -- A state that is made for the facts on one scope tells of the winner: conflicting, without a value,
  -- when the facts that count disagree; otherwise resolved to the winner's value when the winner
  -- assigns, and unknown, without a value, when it resets or removes. It names all the facts as its
  -- sources.
  pub scalar_scope-Told :
      (field_id : Text) (scope : ScopeRef) (f : ClassifiedFact) (fs : List ClassifiedFact)
      (d : EffectiveStateDraft)
      → resolve_scalar_scope state_id audit_id device_id field_id scope f fs ≡ ok d
      → Told
          (ordered_winner f fs).0
          (ordered_winner f fs).1
          d.resolution_status
          d.effective_value
          d.unresolved_reason
        × (d.source_fact_ids ≡ source_ids (f ∷ fs))
        × (d.scope ≡ scope)
  unfolding resolve_scalar_scope
  scalar_scope-Told field_id scope f fs d h =
      settled-Told field_id scope (f ∷ fs)
        (map (λ (g : ClassifiedFact). input_fact g.fact.fact_id g.scope.key) (f ∷ fs))
        (ordered_winner f fs) d h

  -- A state with a value rests on a fact: one of the facts assigns that value, with none on a later line
  -- if all the facts come from one artifact, and the facts that count all make its claim. Those that
  -- count are the facts on its line, or all when they come from several artifacts.
  pub scalar_scope-grounded :
      (field_id : Text) (scope : ScopeRef) (f : ClassifiedFact) (fs : List ClassifiedFact)
      (d : EffectiveStateDraft) (v : TypedValue)
      → resolve_scalar_scope state_id audit_id device_id field_id scope f fs ≡ ok d
      → d.effective_value ≡ some v
      → (w : ClassifiedFact) × IsWinner f fs w
        × (w.operation ≡ assign)
        × (w.value ≡ v)
        × ((g : ClassifiedFact) → Counts f fs w g → Agree w g)
  scalar_scope-grounded field_id scope f fs d v h e =
      let (t, s, r) = scalar_scope-Told field_id scope f fs d h in
      let (is_winner, agree, _) = ordered_winner-IsWinner f fs in
      let (o, p, c) = valued (ordered_winner f fs).0 (ordered_winner f fs).1 _ _ _ t e in
      ((ordered_winner f fs).0, is_winner, o, p, agree c)
    where
      valued :
          (w : ClassifiedFact) (c : Bool) (s : ResolutionStatus) (o : Option TypedValue)
          (r : Option UnresolvedReason)
          → Told w c s o r
          → o ≡ some v
          → (w.operation ≡ assign) × (w.value ≡ v) × (c ≡ false)
      valued w _ _ _ _ disputed e = cc
      valued w _ _ _ _ (assigned a) e = (a, cc, refl)
      valued w _ _ _ _ (defaulted a) e = cc
      valued w _ _ _ _ (removed a) e = cc
