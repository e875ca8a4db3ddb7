-- ===== src/Effective/Resolver/States.antt =====
-- All the states that a resolution makes.
use security_configuration_a.Base.{
  chosen, passed_on, ℕ, ◌≡◌, subst, Bool, false, Option, List, [], ◌∷◌, Text, map, All, All-append,
  inl, inr, Bool-cases, keep, codes,
}
use security_configuration_a.Base.Str.{text_eq}
use security_configuration_a.Base.Sort.{sorted, All-sorted}
use security_configuration_a.Base.Sets.{member}
use security_configuration_a.Base.Result.{Result, ok, ◌>>=◌, map_result, >>=-eq-ok}
use security_configuration_a.Effective.Scopes.{ScopeRef}
use security_configuration_a.Effective.Policy.{
  FactOperation, MappingOperationPolicy, FieldCardinality, scalar, repeatable, get_field_policy,
}
use security_configuration_a.Effective.Drafts.{
  UnresolvedReason, unresolved_default, unknown_semantics, missing_evidence, EffectiveStateDraft,
  dependency_missing,
}
use security_configuration_a.Effective.Drafts.Settled.{
  Fits, is_resolved, is_unknown, is_conflicting, make-IsMade,
}
use security_configuration_a.Effective.Facts.{SecurityFact, ClassifiedFact, classify}
use security_configuration_a.Effective.Dependencies.{blocked_dependency_ids}
use security_configuration_a.Effective.Partitions.{Partition, vty_partitions}
use security_configuration_a.Effective.Resolver.Outcomes.{
  Told, disputed, assigned, defaulted, removed, scalar_scope-Told,
}
use security_configuration_a.Effective.Grouping.{
  scopes_of, source_ids, fact_id, concat, ranged, group_by, same_field, field_le, draft_le, Members,
}
use security_configuration_a.Effective.Resolver.{
  resolve_some, collection_draft, unknown_draft, resolve_scalar_scope, resolve_blocked,
  resolve_unless, resolve_field, resolve_part, resolve_vty, resolve_scope_group,
  resolve_scalar_field, resolve_collection, resolve_repeatable_field, resolve_security_facts,
}

module _ {A B : Type 0} (f : A → Result B) (P : B → Type 0)
    (made : (x : A) (y : B) → f x ≡ ok y → P y) where
  pub map_result-All : (xs : List A) (ys : List B) → map_result f xs ≡ ok ys → All P ys
  map_result-All [] ys h = subst (All P) (ok-eq h) tt
    where
      ok-eq : ok [] ≡ ok ys → [] ≡ ys
      ok-eq h = cc
  map_result-All (x ∷ xs) ys h =
      let (y, e, h) = >>=-eq-ok (f x) (λ y. map_result f xs >>= λ ys. ok (y ∷ ys)) h in
      let (zs, k, h) = >>=-eq-ok (map_result f xs) (λ ys. ok (y ∷ ys)) h in
      subst (All P) (ok-eq y zs h) (made x y e, map_result-All xs zs k)
    where
      ok-eq : (y : B) (zs : List B) → ok (y ∷ zs) ≡ ok ys → y ∷ zs ≡ ys
      ok-eq y zs h = cc

All-concat :
    {A : Type 0} (P : A → Type 0) (xss : List (List A)) → All (All P) xss → All P (concat xss)
unfolding concat
All-concat P [] h = tt
All-concat P (xs ∷ xss) h = All-append P xs (concat xss) h.0 (All-concat P xss h.1)

ok-eq : {A : Type 0} {x y : A} → ok x ≡ ok y → x ≡ y
ok-eq h = cc

-- The state's value and reason fit its status.
abbrev pub IsSettled : EffectiveStateDraft → Type 0
IsSettled d = Fits d.resolution_status d.effective_value d.unresolved_reason

module _ (state_id : ℕ → Text → Text → ℕ) (audit_id device_id : ℕ) where
  unknown-IsSettled :
      (field_id : Text) (scope : ScopeRef) (ids : List ℕ) (trace : _) (reason : UnresolvedReason)
      (c : Bool) (d : EffectiveStateDraft)
      → unknown_draft state_id audit_id device_id field_id scope ids trace reason c ≡ ok d
      → IsSettled d
  unfolding unknown_draft
  unknown-IsSettled field_id scope ids trace reason c d h =
      (make-IsMade state_id audit_id device_id field_id scope _ _ _ _ _ _ d h).fits

  Told-Fits : (w : ClassifiedFact) (c : Bool) (s : _) (v : _) (r : _) → Told w c s v r → Fits s v r
  Told-Fits w _ _ _ _ disputed = is_conflicting
  Told-Fits w _ _ _ _ (assigned a) = is_resolved w.value
  Told-Fits w _ _ _ _ (defaulted a) = is_unknown unresolved_default (λ e. cc)
  Told-Fits w _ _ _ _ (removed a) = is_unknown unknown_semantics (λ e. cc)

  scope-IsSettled :
      (field_id : Text) (scope : ScopeRef) (f : ClassifiedFact) (fs : List ClassifiedFact)
      (d : EffectiveStateDraft)
      → resolve_scalar_scope state_id audit_id device_id field_id scope f fs ≡ ok d
      → IsSettled d
  scope-IsSettled field_id scope f fs d h =
      Told-Fits _ _ _ _ _ (scalar_scope-Told state_id audit_id device_id field_id scope f fs d h).0

  some-IsSettled :
      (field_id : Text) (scope : ScopeRef) (facts : List ClassifiedFact)
      (ds : List EffectiveStateDraft)
      → resolve_some state_id audit_id device_id field_id scope facts ≡ ok ds
      → All IsSettled ds
  unfolding resolve_some
  some-IsSettled field_id scope [] ds h = subst (All IsSettled) (ok-eq h) tt
  some-IsSettled field_id scope (f ∷ fs) ds h =
      let (d, e, h) =
        >>=-eq-ok (resolve_scalar_scope state_id audit_id device_id field_id scope f fs)
          (λ draft. ok (draft ∷ [])) h in
      subst (All IsSettled) (ok-eq h) (scope-IsSettled field_id scope f fs d e, tt)

  vty-IsSettled :
      (field_id : Text) (facts : List ClassifiedFact) (ds : List EffectiveStateDraft)
      → resolve_vty state_id audit_id device_id field_id facts ≡ ok ds
      → All IsSettled ds
  unfolding resolve_vty resolve_part
  vty-IsSettled field_id facts ds h =
      let part : Partition → Result (List EffectiveStateDraft) =
        resolve_part state_id audit_id device_id field_id in
      let (items, e, h) =
        >>=-eq-ok (map_result ranged facts)
          (λ items. map_result part (vty_partitions items) >>= λ drafts. ok (concat drafts)) h in
      let (drafts, e, h) =
        >>=-eq-ok (map_result part (vty_partitions items)) (λ drafts. ok (concat drafts)) h in
      subst (All IsSettled) (ok-eq h) (
        All-concat IsSettled drafts (
          map_result-All part (All IsSettled) (λ p ds k. some-IsSettled field_id _ _ ds k)
            (vty_partitions items) drafts e))

  scalar-IsSettled :
      (field_id : Text) (facts : List ClassifiedFact) (ds : List EffectiveStateDraft)
      → resolve_scalar_field state_id audit_id device_id field_id facts ≡ ok ds
      → All IsSettled ds
  unfolding resolve_scalar_field resolve_scope_group
  scalar-IsSettled field_id [] ds h = subst (All IsSettled) (ok-eq h) tt
  scalar-IsSettled field_id (f ∷ fs) ds h =
      elim (Bool-cases (text_eq f.scope.type (codes "vty_range"))) [
        | inl e ↦ vty-IsSettled field_id (f ∷ fs) ds (chosen _ _ _ e h)
        | inr e ↦
            map_result-All (resolve_scope_group state_id audit_id device_id field_id) IsSettled
              (λ g d k. scope-IsSettled field_id g.0.scope g.0 g.1 d k) _ ds (passed_on _ _ _ e h)
      ]

  members-IsSettled :
      (field_id : Text) (scope : ScopeRef) (facts : List ClassifiedFact) (m : Members)
      (d : EffectiveStateDraft)
      → collection_draft state_id audit_id device_id field_id scope facts m ≡ ok d
      → IsSettled d
  unfolding collection_draft
  members-IsSettled field_id scope facts m d h = elim (Bool-cases m.conflict) [
    | inl e ↦ unknown-IsSettled field_id scope _ _ _ _ d (chosen _ _ _ e h)
    | inr e ↦
        (make-IsMade state_id audit_id device_id field_id scope _ _ _ _ _ _ d
          (passed_on _ _ _ e h)).fits
  ]

  collection-IsSettled :
      (field_id : Text) (g : ClassifiedFact × List ClassifiedFact) (d : EffectiveStateDraft)
      → resolve_collection state_id audit_id device_id field_id g ≡ ok d
      → IsSettled d
  unfolding resolve_collection
  collection-IsSettled field_id (f, fs) d h = members-IsSettled field_id f.scope (f ∷ fs) _ d h

  resolve_blocked-IsSettled :
      (field_id : Text) (blocked : List ClassifiedFact) (ds : List EffectiveStateDraft)
      → resolve_blocked state_id audit_id device_id field_id blocked ≡ ok ds
      → All IsSettled ds
  unfolding resolve_blocked
  resolve_blocked-IsSettled field_id blocked ds h =
      map_result-All
        (λ scope.
          unknown_draft state_id audit_id device_id field_id scope (source_ids blocked)
            (map (λ (g : ClassifiedFact). dependency_missing g.fact.fact_id) blocked)
            missing_evidence false)
        IsSettled (λ scope d k. unknown-IsSettled field_id scope _ _ _ _ d k) (scopes_of blocked) ds
        h

  unless-IsSettled :
      (blocked : List ClassifiedFact) (field_id : Text) (c : FieldCardinality)
      (facts : List ClassifiedFact) (ds : List EffectiveStateDraft)
      → resolve_unless state_id audit_id device_id blocked field_id c facts ≡ ok ds
      → All IsSettled ds
  unfolding resolve_unless resolve_repeatable_field
  unless-IsSettled [] field_id scalar facts ds h = scalar-IsSettled field_id facts ds h
  unless-IsSettled [] field_id repeatable facts ds h =
      map_result-All (resolve_collection state_id audit_id device_id field_id) IsSettled
        (collection-IsSettled field_id) _ ds h
  unless-IsSettled (f ∷ fs) field_id c facts ds h = resolve_blocked-IsSettled field_id (f ∷ fs) ds h

  field-IsSettled :
      (ids : List ℕ) (g : ClassifiedFact × List ClassifiedFact) (ds : List EffectiveStateDraft)
      → resolve_field state_id audit_id device_id ids g ≡ ok ds
      → All IsSettled ds
  unfolding resolve_field
  field-IsSettled ids (f, fs) ds h =
      let blocked = keep (λ g. member (fact_id g) ids) (f ∷ fs) in
      let (policy, e, h) =
        >>=-eq-ok (get_field_policy f.fact.field_id)
          (λ policy.
            resolve_unless state_id audit_id device_id blocked f.fact.field_id policy.cardinality
              (f ∷ fs))
          h in
      unless-IsSettled blocked f.fact.field_id policy.cardinality (f ∷ fs) ds h

  -- In a resolution that succeeds, every state is settled: resolved with a value and no reason, unknown with
  -- a reason other than a conflict and no value, or conflicting with that reason and no value.
  pub resolve-IsSettled :
      (policies : List MappingOperationPolicy) (operations : ℕ → Option FactOperation)
      (facts : List SecurityFact) (ds : List EffectiveStateDraft)
      → resolve_security_facts state_id audit_id device_id policies operations facts ≡ ok ds
      → All IsSettled ds
  unfolding resolve_security_facts
  resolve-IsSettled policies operations facts ds h =
      let body = resolve_field state_id audit_id device_id (blocked_dependency_ids facts) in
      let (classified, e, h) =
        >>=-eq-ok
          (map_result (λ (f : SecurityFact). classify policies f (operations f.fact_id)) facts)
          (λ classified.
            map_result body (group_by same_field (sorted field_le classified)) >>= λ drafts.
            ok (sorted draft_le (concat drafts)))
          h in
      let (drafts, e, h) =
        >>=-eq-ok (map_result body (group_by same_field (sorted field_le classified)))
          (λ drafts. ok (sorted draft_le (concat drafts))) h in
      subst (All IsSettled) (ok-eq h) (
        All-sorted draft_le IsSettled (concat drafts) (
          All-concat IsSettled drafts (
            map_result-All body (All IsSettled) (field-IsSettled (blocked_dependency_ids facts)) _
              drafts e)))
