-- ===== src/Compliance/Service/Persisted.antt =====
-- What is kept of an audit's findings (backend/app/compliance/service.py).
use security_configuration_a.Base.{
  ℕ, ◌≡◌, refl, Bool, true, false, not, Option, some, List, [], ◌∷◌, ◌++◌, Text, All, keep-append,
  keep-all, keep-none, All-keep, subst, ◌∙◌, arith, keep, ap, ==_iff, All-map, String,
}
use security_configuration_a.Base.Result.{
  Result, ok, ◌>>=◌, refuse_if, >>=-eq-ok, ok-eq, raised-ne-ok,
}
use security_configuration_a.Compliance.Rules.{RuleDefinition, RulePack}
use security_configuration_a.Compliance.Policy.{OrganizationPolicyVersion}
use security_configuration_a.Compliance.Findings.{
  Audit, EffectiveState, UnresolvedBlock, FindingDraft,
}
use security_configuration_a.Compliance.Judgement.{Judgement, Applicability}
use security_configuration_a.Compliance.Service.Grounds.{evaluate_audit_compliance-Rests}
use security_configuration_a.Compliance.Service.Rests.{Rests}
use security_configuration_a.Compliance.Service.{
  Database, audit_of, evaluate_audit_compliance, persist_audit_findings, blocks_given, collides,
  other_findings, of_audit, with_findings, still_processing, states_given,
}

audit_of-id :
    (audit_id organization_id : ℕ) (audits : List Audit) {audit : Audit}
    → audit_of audit_id organization_id audits ≡ some audit
    → audit.audit_id ≡ audit_id
unfolding audit_of
audit_of-id audit_id organization_id [] h = cc
audit_of-id audit_id organization_id (a ∷ rest) {audit} h = ground (
  arith,
  audit_of-id audit_id organization_id rest {audit = audit},
  ap (λ (x : Audit). x.audit_id),
)

append-nil : (xs : List FindingDraft) → xs ++ [] ≡ xs
append-nil [] = refl
append-nil (x ∷ xs) = ap (λ ys. x ∷ ys) (append-nil xs)

-- The rows of the other audits and those of this one, apart.
of_audit-intro :
    (audit_id : ℕ) (d : FindingDraft) → d.audit_id ≡ audit_id → of_audit audit_id d ≡ true
of_audit-intro audit_id d e = (==_iff d.audit_id audit_id).1 e

Rests-audit :
    (j : Judgement) (applicability : Applicability) (states : List EffectiveState)
    (rule : RuleDefinition) (d : FindingDraft)
    → Rests j applicability states rule d
    → d.audit_id ≡ j.audit.audit_id
unfolding Rests
Rests-audit j applicability states rule d g = g.1

others-apart :
    (audit_id : ℕ) (rows drafts : List FindingDraft)
    → All (λ d. of_audit audit_id d ≡ true) drafts
    → (other_findings audit_id (other_findings audit_id rows ++ drafts)
        ≡ other_findings audit_id rows)
      × (keep (of_audit audit_id) (other_findings audit_id rows ++ drafts) ≡ drafts)
unfolding other_findings
others-apart audit_id rows drafts h =
    let other : FindingDraft → Bool = λ d. not (of_audit audit_id d) in
    let kept : List FindingDraft = keep other rows in
    (
      rw (keep-append other kept drafts) (
          rw (keep-all other kept (All-keep other rows)) (
            rw
              (keep-none other drafts (
                All-map (λ d. of_audit audit_id d ≡ true) (λ d. other d ≡ false) drafts
                  (λ d e. ap not e) h))
              (append-nil kept))),
      rw (keep-append (of_audit audit_id) kept drafts) (
          rw (keep-all (of_audit audit_id) drafts h) (
            rw
              (keep-none (of_audit audit_id) kept (
                All-map (λ d. other d ≡ true) (λ d. of_audit audit_id d ≡ false) kept
                  (λ d e. ground arith) (All-keep other rows)))
              refl)),
    )

two-guards :
    {A : Type 0} (t u : Bool) (m n : String) (a : A) {b : A}
    → (refuse_if t m >>= λ x. refuse_if u n >>= λ y. ok a) ≡ ok b
    → (t ≡ false) × (u ≡ false) × (a ≡ b)
two-guards true u m n a h = raised-ne-ok h
two-guards false true m n a h = raised-ne-ok h
two-guards false false m n a h = (refl, refl, ok-eq h)

-- What is left in the table when the findings of an audit were stored.
unfoldable pub IsReplaced : ℕ → Database → List FindingDraft → Database → Type 0
IsReplaced audit_id db drafts after =
    (keep (of_audit audit_id) after.findings ≡ drafts)
    × (other_findings audit_id after.findings ≡ other_findings audit_id db.findings)
    × (after ≡ with_findings db after.findings)

module _ (finding_id : ℕ → Text → Text → ℕ) where
  drafts-of_audit :
      (db : Database) (audit_id organization_id : ℕ) (rule_pack : RulePack)
      (policy : Option OrganizationPolicyVersion) (given : Option (List EffectiveState))
      (blocks : List UnresolvedBlock) {drafts : List FindingDraft}
      → evaluate_audit_compliance finding_id db audit_id organization_id rule_pack policy given
          blocks
        ≡ ok drafts
      → All (λ d. of_audit audit_id d ≡ true) drafts
  drafts-of_audit db audit_id organization_id rule_pack policy given blocks {drafts} h =
      let (audit, found, active, grounded) =
        evaluate_audit_compliance-Rests finding_id db audit_id organization_id rule_pack policy
          given blocks h in
      All-map _ (λ d. of_audit audit_id d ≡ true) drafts
        (λ d (rule, i, g).
          of_audit-intro audit_id d
            (Rests-audit _ _ _ rule d g ∙ audit_of-id audit_id organization_id db.audits found))
        grounded

  -- Storing the findings of an audit, where it succeeds, returns what the evaluation returns, with the
  -- blocks that are given or kept for the audit; it replaces the findings that the audit had by these,
  -- leaves the findings of the other audits and every other table as they were, and storing them again
  -- gives the same and changes nothing.
  pub persist_audit_findings-IsReplaced :
      (db : Database) (audit_id organization_id : ℕ) (rule_pack : RulePack)
      (policy : Option OrganizationPolicyVersion) (given : Option (List EffectiveState))
      (blocks : Option (List UnresolvedBlock)) {drafts : List FindingDraft} {after : Database}
      → persist_audit_findings finding_id db audit_id organization_id rule_pack policy given blocks
        ≡ ok (drafts, after)
      → (evaluate_audit_compliance finding_id db audit_id organization_id rule_pack policy given
            (blocks_given audit_id db.unresolved_blocks blocks)
          ≡ ok drafts)
        × IsReplaced audit_id db drafts after
        × (persist_audit_findings finding_id after audit_id organization_id rule_pack policy given
              blocks
            ≡ ok (drafts, after))
  unfolding persist_audit_findings evaluate_audit_compliance states_given IsReplaced
  persist_audit_findings-IsReplaced db audit_id organization_id rule_pack policy given blocks
        {drafts} {after} h =
      let read : List UnresolvedBlock = blocks_given audit_id db.unresolved_blocks blocks in
      let kept : List FindingDraft = other_findings audit_id db.findings in
      let stored : List FindingDraft → Result (List FindingDraft × Database) = λ ds.
        refuse_if (not (still_processing (audit_of audit_id organization_id db.audits)))
          "Only still-processing Audits are eligible for Finding persistence"
        >>= λ u. refuse_if (collides kept ds) "IntegrityError" >>= λ v.
            ok (ds, with_findings db (kept ++ ds)) in
      let (ds, e, h1) =
        >>=-eq-ok
          (evaluate_audit_compliance finding_id db audit_id organization_id rule_pack policy given
            read)
          stored h in
      let (others, same) =
        others-apart audit_id db.findings ds
          (drafts-of_audit db audit_id organization_id rule_pack policy given read e) in
      let (t, u, eq) =
        two-guards (not (still_processing (audit_of audit_id organization_id db.audits)))
          (collides kept ds) "Only still-processing Audits are eligible for Finding persistence"
          "IntegrityError" (ds, with_findings db (kept ++ ds)) h1 in
      subst
        (λ r.
          (evaluate_audit_compliance finding_id db audit_id organization_id rule_pack policy given
              read
            ≡ ok r.0)
          × IsReplaced audit_id db r.0 r.1
          × (persist_audit_findings finding_id r.1 audit_id organization_id rule_pack policy given
                blocks
              ≡ ok r))
        eq (e, (same, others, refl), rw e (rw t (rw others (rw u refl))))
