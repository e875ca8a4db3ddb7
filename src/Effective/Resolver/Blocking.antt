-- ===== src/Effective/Resolver/Blocking.antt =====
-- What becomes of the facts that are blocked, in a whole resolution
-- (backend/app/effective_state/resolver.py, `resolve_security_facts`).
use security_configuration_a.Base.{
  ℕ, ◌≡◌, refl, sym, ap, ◌∙◌, subst, true, false, Option, none, some, List, [], ◌∷◌, Text, map, any,
  In, inl, inr, ◌⊎◌, Bool-cases, keep, In-keep_intro, arith, In-append_left, In-append_right,
}
use security_configuration_a.Base.Str.{text_eq, eq_of_text_eq}
use security_configuration_a.Base.Sort.{sorted, In-sorted}
use security_configuration_a.Base.Sets.{member, In-sorted_set}
use security_configuration_a.Base.Result.{
  Result, ok, ◌>>=◌, map_result, >>=-eq-ok, ok-eq, map_result-In,
}
use security_configuration_a.Base.Yields.{Yields, Yields->>=, Yields-ok, Yields-then}
use security_configuration_a.Effective.Scopes.{ScopeRef, scope_from_dict}
use security_configuration_a.Effective.Policy.{
  FactOperation, MappingOperationPolicy, FieldCardinality, get_field_policy,
}
use security_configuration_a.Effective.Drafts.{
  unknown, missing_evidence, EffectiveStateDraft, dependency_missing,
}
use security_configuration_a.Effective.Drafts.Settled.{make-IsMade}
use security_configuration_a.Effective.Facts.{SecurityFact, ClassifiedFact, classify}
use security_configuration_a.Effective.Dependencies.{blocked_dependency_ids}
use security_configuration_a.Effective.Grouping.{
  scopes_of, source_ids, fact_id, concat, group_by, join_group, same_field, field_le, draft_le,
}
use security_configuration_a.Effective.Resolver.{
  unknown_draft, resolve_blocked, resolve_unless, resolve_field, resolve_security_facts,
}

any-key :
    (key : Text) (fs : List ClassifiedFact)
    → any (λ (s : ClassifiedFact). text_eq key s.scope.key) fs ≡ true
    → (g : ClassifiedFact) × In g fs × (key ≡ g.scope.key)
any-key key [] h = cc
any-key key (f ∷ fs) h = elim (Bool-cases (text_eq key f.scope.key)) [
  | inl e ↦ (f, inl refl, eq_of_text_eq key f.scope.key e)
  | inr e ↦ let (g, i, q) = any-key key fs (ground arith) in (g, inr i, q)
]

-- Each key of a scope has a scope.
scopes_of-In :
    (f : ClassifiedFact) (fs : List ClassifiedFact)
    → In f fs
    → (s : ScopeRef) × In s (scopes_of fs) × (s.key ≡ f.scope.key)
unfolding scopes_of
scopes_of-In f [] i = absurd i
scopes_of-In f (g ∷ gs) i =
    elim (Bool-cases (any (λ (s : ClassifiedFact). text_eq g.scope.key s.scope.key) gs)) [
      | inl e ↦ rw e (elim i [
        | inl q ↦
            let (h, j, k) = any-key g.scope.key gs e in
            let (s, l, m) = scopes_of-In h gs j in
            (s, l, m ∙ sym k ∙ ap (λ (x : ClassifiedFact). x.scope.key) (sym q))
        | inr j ↦ scopes_of-In f gs j
      ])
      | inr e ↦ rw e (elim i [
        | inl q ↦ (g.scope, inl refl, ap (λ (x : ClassifiedFact). x.scope.key) (sym q))
        | inr j ↦ let (s, l, m) = scopes_of-In f gs j in (s, inr l, m)
      ])
    ]

-- A group that has the element, in a field of its own.
abbrev Grouped : ClassifiedFact → List (ClassifiedFact × List ClassifiedFact) → Type 0
Grouped f groups =
    (g : ClassifiedFact) × (gs : List ClassifiedFact) × In (g, gs) groups
    × In f (g ∷ gs)
    × (g.fact.field_id ≡ f.fact.field_id)

abbrev field_of : ClassifiedFact → Text
field_of f = f.fact.field_id

first-Grouped :
    (f x : ClassifiedFact) (xs : List ClassifiedFact)
    (rest : List (ClassifiedFact × List ClassifiedFact))
    → f ≡ x
    → Grouped f ((x, xs) ∷ rest)
first-Grouped f x xs rest e = (x, xs, inl refl, inl e, ap field_of (sym e))

later-Grouped :
    (f : ClassifiedFact) (g : ClassifiedFact × List ClassifiedFact)
    (rest : List (ClassifiedFact × List ClassifiedFact))
    → Grouped f rest
    → Grouped f (g ∷ rest)
later-Grouped f g rest (h, hs, i, j, k) = (h, hs, inr i, j, k)

joined-Grouped :
    (f x y : ClassifiedFact) (ys : List ClassifiedFact)
    (rest : List (ClassifiedFact × List ClassifiedFact))
    → field_of x ≡ field_of y
    → Grouped f ((y, ys) ∷ rest)
    → Grouped f ((x, y ∷ ys) ∷ rest)
joined-Grouped f x y ys rest same (g, gs, inl e, j, k) = (
  x,
  y ∷ ys,
  inl refl,
  inr (subst (λ (p : ClassifiedFact × List ClassifiedFact). In f (p.0 ∷ p.1)) e j),
  same ∙ sym (ap (λ (p : ClassifiedFact × List ClassifiedFact). field_of p.0) e) ∙ k,
)
joined-Grouped f x y ys rest same (g, gs, inr i, j, k) = (g, gs, inr i, j, k)

join_group-Grouped :
    (f x : ClassifiedFact) (groups : List (ClassifiedFact × List ClassifiedFact))
    → (f ≡ x) ⊎ Grouped f groups
    → Grouped f (join_group same_field x groups)
unfolding join_group
join_group-Grouped f x [] (inl e) = first-Grouped f x [] [] e
join_group-Grouped f x [] (inr (g, gs, i, j, k)) = absurd i
join_group-Grouped f x ((y, ys) ∷ rest) h = elim (Bool-cases (same_field x y)) [
  | inl e ↦ rw e (elim h [
    | inl q ↦ first-Grouped f x (y ∷ ys) rest q
    | inr g ↦ joined-Grouped f x y ys rest (eq_of_text_eq (field_of x) (field_of y) e) g
  ])
  | inr e ↦ rw e (elim h [
    | inl q ↦ first-Grouped f x [] ((y, ys) ∷ rest) q
    | inr g ↦ later-Grouped f (x, []) ((y, ys) ∷ rest) g
  ])
]

group_by-Grouped :
    (f : ClassifiedFact) (fs : List ClassifiedFact) → In f fs → Grouped f (group_by same_field fs)
unfolding group_by
group_by-Grouped f [] i = absurd i
group_by-Grouped f (x ∷ xs) (inl e) = join_group-Grouped f x (group_by same_field xs) (inl e)
group_by-Grouped f (x ∷ xs) (inr i) =
    join_group-Grouped f x (group_by same_field xs) (inr (group_by-Grouped f xs i))

In-concat :
    {A : Type 0} (x : A) (xs : List A) (xss : List (List A))
    → In x xs
    → In xs xss
    → In x (concat xss)
unfolding concat
In-concat x xs [] i j = absurd j
In-concat x xs (ys ∷ yss) i (inl e) = In-append_left x ys (concat yss) (subst (In x) e i)
In-concat x xs (ys ∷ yss) i (inr j) = In-append_right x ys (concat yss) (In-concat x xs yss i j)

-- What a classified fact keeps.
classify-keeps :
    (policies : List MappingOperationPolicy) (fact : SecurityFact) (o : Option FactOperation)
    → Yields
        (λ c. (c.fact ≡ fact) × (scope_from_dict fact.scope ≡ ok c.scope))
        (classify policies fact o)
unfolding classify
classify-keeps policies fact o = Yields-then _ (scope_from_dict fact.scope) _ (λ scope e.
    let kept : (fact ≡ fact) × (scope_from_dict fact.scope ≡ ok scope) = (refl, e) in
    search (Yields->>=, Yields-ok, kept) depth 30)

Yields-ok-out : {A : Type 0} (P : A → Type 0) (r : Result A) {a : A} → Yields P r → r ≡ ok a → P a
unfolding Yields
Yields-ok-out P r {a} h e = subst (Yields P) e h

-- The state of a blocked fact: at its scope, unknown for missing evidence, without a value, and with
-- the fact among its sources.
abbrev pub Withholds : Text → Text → ℕ → EffectiveStateDraft → Type 0
Withholds field_id key id d =
    (d.field_id ≡ field_id)
    × (d.scope.key ≡ key)
    × (d.resolution_status ≡ unknown)
    × (d.effective_value ≡ none)
    × (d.unresolved_reason ≡ some missing_evidence)
    × In id d.source_fact_ids

In-map_id :
    (f : ClassifiedFact) (fs : List ClassifiedFact) → In f fs → In (fact_id f) (map fact_id fs)
In-map_id f [] i = absurd i
In-map_id f (g ∷ gs) (inl e) = inl (ap fact_id e)
In-map_id f (g ∷ gs) (inr i) = inr (In-map_id f gs i)

module _ (state_id : ℕ → Text → Text → ℕ) (audit_id device_id : ℕ) where
  resolve_blocked-Withholds :
      (field_id : Text) (f : ClassifiedFact) (blocked : List ClassifiedFact)
      {ds : List EffectiveStateDraft}
      → In f blocked
      → resolve_blocked state_id audit_id device_id field_id blocked ≡ ok ds
      → (d : EffectiveStateDraft) × In d ds × Withholds field_id f.scope.key (fact_id f) d
  unfolding resolve_blocked unknown_draft
  resolve_blocked-Withholds field_id f blocked i h =
      let (scope, j, same) = scopes_of-In f blocked i in
      let (d, k, made) =
        map_result-In
          (λ scope.
            unknown_draft state_id audit_id device_id field_id scope (source_ids blocked)
              (map (λ (g : ClassifiedFact). dependency_missing g.fact.fact_id) blocked)
              missing_evidence false)
          (scopes_of blocked) scope h j in
      let m = make-IsMade state_id audit_id device_id field_id scope _ _ _ _ _ _ d made in
      (
        d,
        k,
        (
          m.same_field,
          ap (λ (s : ScopeRef). s.key) m.same_scope ∙ same,
          m.same_status,
          m.same_value,
          m.same_reason,
          subst (In (fact_id f)) (sym m.same_sources)
              (In-sorted_set (fact_id f) (map fact_id blocked) (In-map_id f blocked i)),
        ),
      )

  unless-Withholds :
      (f : ClassifiedFact) (blocked : List ClassifiedFact) (field_id : Text) (c : FieldCardinality)
      (facts : List ClassifiedFact) {ds : List EffectiveStateDraft}
      → In f blocked
      → resolve_unless state_id audit_id device_id blocked field_id c facts ≡ ok ds
      → (d : EffectiveStateDraft) × In d ds × Withholds field_id f.scope.key (fact_id f) d
  unfolding resolve_unless
  unless-Withholds f [] field_id c facts i h = absurd i
  unless-Withholds f (b ∷ bs) field_id c facts i h =
      resolve_blocked-Withholds field_id f (b ∷ bs) i h

  field-Withholds :
      (ids : List ℕ) (f g : ClassifiedFact) (gs : List ClassifiedFact)
      {ds : List EffectiveStateDraft}
      → In f (g ∷ gs)
      → member (fact_id f) ids ≡ true
      → resolve_field state_id audit_id device_id ids (g, gs) ≡ ok ds
      → (d : EffectiveStateDraft) × In d ds × Withholds g.fact.field_id f.scope.key (fact_id f) d
  unfolding resolve_field
  field-Withholds ids f g gs i m h =
      let blocked = keep (λ x. member (fact_id x) ids) (g ∷ gs) in
      let (policy, e, h1) =
        >>=-eq-ok (get_field_policy g.fact.field_id)
          (λ policy.
            resolve_unless state_id audit_id device_id blocked g.fact.field_id policy.cardinality
              (g ∷ gs))
          h in
      unless-Withholds f blocked g.fact.field_id policy.cardinality (g ∷ gs)
        (In-keep_intro (λ x. member (fact_id x) ids) f (g ∷ gs) i m) h1

  -- No blocked fact is lost: in a resolution that succeeds, each fact that is blocked has a state of its
  -- field, at its scope, which is unknown for missing evidence, has no value and names the fact as a
  -- source.
  pub resolve-Withholds :
      (policies : List MappingOperationPolicy) (operations : ℕ → Option FactOperation)
      (facts : List SecurityFact) (fact : SecurityFact) (ds : List EffectiveStateDraft)
      → In fact facts
      → member fact.fact_id (blocked_dependency_ids facts) ≡ true
      → resolve_security_facts state_id audit_id device_id policies operations facts ≡ ok ds
      → (scope : ScopeRef) × (scope_from_dict fact.scope ≡ ok scope)
        × (d : EffectiveStateDraft) × In d ds
        × Withholds fact.field_id scope.key fact.fact_id d
  unfolding resolve_security_facts
  resolve-Withholds policies operations facts fact ds i m h =
      let body = resolve_field state_id audit_id device_id (blocked_dependency_ids facts) in
      let read : SecurityFact → Result ClassifiedFact =
        λ f. classify policies f (operations f.fact_id) in
      let (classified, e, h1) =
        >>=-eq-ok (map_result read facts)
          (λ classified.
            map_result body (group_by same_field (sorted field_le classified)) >>= λ drafts.
            ok (sorted draft_le (concat drafts)))
          h in
      let (drafts, e2, h2) =
        >>=-eq-ok (map_result body (group_by same_field (sorted field_le classified)))
          (λ drafts. ok (sorted draft_le (concat drafts))) h1 in
      let (c, j, made) = map_result-In read facts fact e i in
      let (same, placed) =
        Yields-ok-out _ (read fact) (classify-keeps policies fact (operations fact.fact_id)) made in
      let ordered : List ClassifiedFact = sorted field_le classified in
      let (g, gs, k, l, field) = group_by-Grouped c ordered (In-sorted field_le c classified j) in
      let (made_of, n, resolved) = map_result-In body (group_by same_field ordered) (g, gs) e2 k in
      let id : fact_id c ≡ fact.fact_id = ap (λ (f : SecurityFact). f.fact_id) same in
      let (d, o, (same_field, key, status, value, reason, source)) =
        field-Withholds (blocked_dependency_ids facts) c g gs l
          (subst (λ n. member n (blocked_dependency_ids facts) ≡ true) (sym id) m) resolved in
      (
        c.scope,
        placed,
        d,
        subst (In d) (ok-eq h2)
            (In-sorted draft_le d (concat drafts) (In-concat d made_of drafts o n)),
        (
          same_field ∙ field ∙ ap (λ (f : SecurityFact). f.field_id) same,
          key,
          status,
          value,
          reason,
          subst (λ n. In n d.source_fact_ids) id source,
        ),
      )
