-- ===== src/Effective/Drafts/Settled.antt =====
-- What a draft that is made promises.
use security_configuration_a.Base.{
  ℕ, ◌≡◌, ◌≢◌, refl, subst, Bool, true, false, not, Option, none, some, List, Text, arith, is_empty,
  String,
}
use security_configuration_a.Base.Str.{strip}
use security_configuration_a.Base.Result.{Result, ok, ◌>>◌, refuse_if, >>=-eq-ok}
use security_configuration_a.Effective.Values.{TypedValue}
use security_configuration_a.Effective.Scopes.{ScopeRef}
use security_configuration_a.Effective.Drafts.{
  ResolutionStatus, resolved, unknown, conflicting, UnresolvedReason, conflicting_evidence,
  TraceEntry, Precedence, EffectiveStateDraft, is_conflict, draft_of, validate_status,
  validate_parts, validate_effective_state_draft, deterministic_effective_state_id,
  make_effective_state_draft,
}

-- The value and the reason that fit a status.
pub data Fits : ResolutionStatus → Option TypedValue → Option UnresolvedReason → Type 0 where
  is_resolved : (v : TypedValue) → Fits resolved (some v) none
  is_unknown : (r : UnresolvedReason) → r ≢ conflicting_evidence → Fits unknown none (some r)
  is_conflicting : Fits conflicting none (some conflicting_evidence)

pub refuse_if-ok : (b : Bool) (message : String) → refuse_if b message ≡ ok tt → b ≡ false
refuse_if-ok true message h = cc
refuse_if-ok false message h = refl

not-conflict : (r : UnresolvedReason) → is_conflict (some r) ≡ false → r ≢ conflicting_evidence
not-conflict r h e =
    let k : is_conflict (some conflicting_evidence) ≡ false =
      subst (λ x. is_conflict (some x) ≡ false) e h in
    cc

conflict-reason : (r : UnresolvedReason) → is_conflict (some r) ≡ true → conflicting_evidence ≡ r
conflict-reason conflicting_evidence h = refl
conflict-reason _ h = cc

Fits-status :
    (status : ResolutionStatus) (v : Option TypedValue) (r : Option UnresolvedReason)
    → validate_status status v r ≡ ok tt
    → Fits status v r
unfolding validate_status
Fits-status resolved none r h = cc
Fits-status resolved (some v) none h = is_resolved v
Fits-status resolved (some v) (some r) h = cc
Fits-status unknown (some v) r h = cc
Fits-status unknown none none h = cc
Fits-status unknown none (some r) h =
    is_unknown r (not-conflict r (refuse_if-ok (is_conflict (some r)) _ h))
Fits-status conflicting (some v) r h = cc
Fits-status conflicting none none h = cc
Fits-status conflicting none (some r) h =
    subst (λ x. Fits conflicting none (some x))
      (conflict-reason r (ground (arith, refuse_if-ok (not (is_conflict (some r))) _ h)))
      is_conflicting

validated :
    (state_id : ℕ → Text → Text → ℕ) (d : EffectiveStateDraft)
    → validate_effective_state_draft state_id d ≡ ok tt
    → Fits d.resolution_status d.effective_value d.unresolved_reason
unfolding validate_effective_state_draft
validated state_id d h =
    let later : Result (Unit {0}) =
      refuse_if (is_empty (strip d.schema_version)) "EffectiveState schema version is malformed" in
    let status : Result (Unit {0}) =
      validate_status d.resolution_status d.effective_value d.unresolved_reason in
    let (u, e, h) = >>=-eq-ok {A = Unit {0}} (validate_parts state_id d) (λ _. status >> later) h in
    let (u, e, h) = >>=-eq-ok {A = Unit {0}} status (λ _. later) h in
    Fits-status d.resolution_status d.effective_value d.unresolved_reason e

-- The draft is made of what it was given, and its value and reason fit its status.
pub record IsMade (field_id : Text) (scope : ScopeRef) (value : Option TypedValue)
    (status : ResolutionStatus) (ids : List ℕ) (reason : Option UnresolvedReason)
    (d : EffectiveStateDraft) : Type 0 where
  pub fits : Fits d.resolution_status d.effective_value d.unresolved_reason
  pub same_field : d.field_id ≡ field_id
  pub same_scope : d.scope ≡ scope
  pub same_value : d.effective_value ≡ value
  pub same_status : d.resolution_status ≡ status
  pub same_sources : d.source_fact_ids ≡ ids
  pub same_reason : d.unresolved_reason ≡ reason

pub make-IsMade :
    (state_id : ℕ → Text → Text → ℕ) (audit_id device_id : ℕ) (field_id : Text) (scope : ScopeRef)
    (value : Option TypedValue) (status : ResolutionStatus) (ids : List ℕ) (trace : List TraceEntry)
    (precedence : List Precedence) (reason : Option UnresolvedReason) (d : EffectiveStateDraft)
    → make_effective_state_draft state_id audit_id device_id field_id scope value status ids trace
        precedence reason
      ≡ ok d
    → IsMade field_id scope value status ids reason d
unfolding make_effective_state_draft
make-IsMade state_id audit_id device_id field_id scope value status ids trace precedence reason d
      h =
    let draft : ℕ → EffectiveStateDraft = λ id.
      draft_of audit_id device_id field_id scope value status ids trace precedence reason id in
    let (id, e, k) =
      >>=-eq-ok (deterministic_effective_state_id state_id audit_id field_id scope)
        (λ id. validate_effective_state_draft state_id (draft id) >> ok (draft id)) h in
    let (u, v, l) =
      >>=-eq-ok {A = Unit {0}} (validate_effective_state_draft state_id (draft id))
        (λ _. ok (draft id)) k in
    subst (IsMade field_id scope value status ids reason) (ok-eq l) (record {
      fits = validated state_id (draft id) v;
      same_field = refl;
      same_scope = refl;
      same_value = refl;
      same_status = refl;
      same_sources = refl;
      same_reason = refl;
    })
  where
    ok-eq : {x y : EffectiveStateDraft} → ok x ≡ ok y → x ≡ y
    ok-eq h = cc
