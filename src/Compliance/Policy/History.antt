-- ===== src/Compliance/Policy/History.antt =====
-- What the registry of policies promises over time (backend/app/compliance/policy.py).
use security_configuration_a.Base.{
  ℕ, ◌≡◌, refl, Bool, true, false, ◌||◌, Option, none, some, ◌∷◌, Text, ◌==◌, arith, Bool-cases,
  String, inl, inr, ◌⊎◌, subst, sym, ap, ==_iff,
}
use security_configuration_a.Base.Json.{Fields}
use security_configuration_a.Base.Str.{eq_of_text_eq}
use security_configuration_a.Base.Result.{ok, ◌>>=◌, refuse_if}
use security_configuration_a.Compliance.Rules.{is_blank}
use security_configuration_a.Compliance.Policy.{
  OrganizationPolicyVersion, OrganizationPolicyRegistry, version_with_id, declared_version,
  is_declared, conflicts_with, redeclares, policy_eq, parameters_eq, policy_version, register,
  get_version,
}

-- What a key gave before, it gives still, or something of equal parameters.
unfoldable pub IsKept :
    (OrganizationPolicyVersion → OrganizationPolicyVersion → Bool)
    → Option OrganizationPolicyVersion
    → Option OrganizationPolicyVersion
    → Type 0
IsKept same before after =
    (p : OrganizationPolicyVersion)
    → before ≡ some p
    → (q : OrganizationPolicyVersion) × (after ≡ some q) × ((q ≡ p) ⊎ (same p q ≡ true))

abbrev pub same_parameters : OrganizationPolicyVersion → OrganizationPolicyVersion → Bool
same_parameters p q = parameters_eq p.parameters q.parameters

-- The registry `after` keeps what `before` declared, by name and by identifier.
unfoldable pub KeepsHistory : OrganizationPolicyRegistry → OrganizationPolicyRegistry → Type 0
KeepsHistory before after =
    ((organization_id : ℕ) (name version : Text)
      → IsKept same_parameters (declared_version organization_id name version before)
          (declared_version organization_id name version after))
    × ((id : ℕ) → IsKept policy_eq (version_with_id id before) (version_with_id id after))

not-conflicting :
    (policy p : OrganizationPolicyVersion) (o : Option OrganizationPolicyVersion)
    → o ≡ some p
    → conflicts_with policy o ≡ false
    → policy_eq p policy ≡ true
not-conflicting policy p none e h = cc
not-conflicting policy p (some q) e h = ground (arith, ap (λ r. policy_eq r policy))

not-redeclaring :
    (policy p : OrganizationPolicyVersion) (o : Option OrganizationPolicyVersion)
    → o ≡ some p
    → redeclares policy o ≡ false
    → same_parameters p policy ≡ true
not-redeclaring policy p none e h = cc
not-redeclaring policy p (some q) e h = ground (arith, ap (λ r. same_parameters r policy))

version_with_id-IsKept :
    (registry : OrganizationPolicyRegistry) (policy : OrganizationPolicyVersion) (id : ℕ)
    → conflicts_with policy (version_with_id policy.organization_policy_version_id registry) ≡ false
    → IsKept policy_eq (version_with_id id registry) (version_with_id id (policy ∷ registry))
unfolding IsKept version_with_id
version_with_id-IsKept registry policy id h p e =
    elim (Bool-cases (policy.organization_policy_version_id == id)) [
      | inl t ↦ (
        policy,
        rw t refl,
        inr (
            not-conflicting policy p
              (version_with_id policy.organization_policy_version_id registry)
              (subst (λ i. version_with_id i registry ≡ some p)
                (sym ((==_iff policy.organization_policy_version_id id).0 t)) e)
              h),
      )
      | inr t ↦ (p, rw t e, inl refl)
    ]

declared-parts :
    (organization_id : ℕ) (name version : Text) (p : OrganizationPolicyVersion)
    → is_declared organization_id name version p ≡ true
    → (p.organization_id ≡ organization_id) × (p.name ≡ name) × (p.version ≡ version)
declared-parts organization_id name version p h =
    ground (arith, eq_of_text_eq p.name name, eq_of_text_eq p.version version)

declared_version-IsKept :
    (registry : OrganizationPolicyRegistry) (policy : OrganizationPolicyVersion)
    (organization_id : ℕ) (name version : Text)
    → redeclares policy
        (declared_version policy.organization_id policy.name policy.version registry)
      ≡ false
    → IsKept same_parameters
        (declared_version organization_id name version registry)
        (declared_version organization_id name version (policy ∷ registry))
unfolding IsKept declared_version
declared_version-IsKept registry policy organization_id name version h p e =
    elim (Bool-cases (is_declared organization_id name version policy)) [
      | inl t ↦
          let (i, same_name, same_version) = declared-parts organization_id name version policy t in
          let found =
            subst (λ o. declared_version o policy.name policy.version registry ≡ some p) (sym i)
              (subst (λ n. declared_version organization_id n policy.version registry ≡ some p)
                (sym same_name)
                (subst (λ v. declared_version organization_id name v registry ≡ some p)
                  (sym same_version) e)) in
          (
            policy,
            rw t refl,
            inr (
                not-redeclaring policy p
                  (declared_version policy.organization_id policy.name policy.version registry)
                  found h),
          )
      | inr t ↦ (p, rw t e, inl refl)
    ]

guards-passed :
    {A : Type 0} (t u v : Bool) (m n o : String) (a : A) {b : A}
    → (refuse_if t m >>= λ x. refuse_if u n >>= λ y. refuse_if v o >>= λ z. ok a) ≡ ok b
    → (u ≡ false) × (v ≡ false) × (a ≡ b)
guards-passed true u v m n o a h = cc
guards-passed false true v m n o a h = cc
guards-passed false false true m n o a h = cc
guards-passed false false false m n o a h = (refl, refl, cc)

module _ (policy_id : ℕ → Text → Text → Text → ℕ) where
  -- A version that is registered is what its identifier gives from then on, and no registration
  -- changes what was declared: a name and version that had parameters still has equal parameters,
  -- and an identifier that gave a version still gives an equal one.
  pub register-KeepsHistory :
      (registry : OrganizationPolicyRegistry) (organization_id : ℕ) (name version : Text)
      (parameters : Fields) {policy : OrganizationPolicyVersion}
      {after : OrganizationPolicyRegistry}
      → register policy_id registry organization_id name version parameters ≡ ok (policy, after)
      → (get_version policy_id after policy.organization_policy_version_id ≡ ok policy)
        × KeepsHistory registry after
  unfolding register policy_version KeepsHistory get_version version_with_id
  register-KeepsHistory registry organization_id name version parameters {policy} {after} h =
      let made : OrganizationPolicyVersion =
        policy_version policy_id organization_id name version parameters in
      let (t, u, e) =
        guards-passed (is_blank name || is_blank version)
          (conflicts_with made (version_with_id made.organization_policy_version_id registry))
          (redeclares made (declared_version organization_id name version registry))
          "Organization policy metadata is malformed"
          "Organization policy version identity conflicts"
          "Organization policy version content conflicts" (made, made ∷ registry) h in
      subst
        (λ r.
          (get_version policy_id r.1 r.0.organization_policy_version_id ≡ ok r.0)
          × KeepsHistory registry r.1)
        e
        (
          rw
              ((==_iff made.organization_policy_version_id made.organization_policy_version_id).1
                refl)
              refl,
          (
            λ o n v. declared_version-IsKept registry made o n v u,
            λ id. version_with_id-IsKept registry made id t,
          ),
        )
