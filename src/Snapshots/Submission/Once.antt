-- ===== src/Snapshots/Submission/Once.antt =====
-- An audit is submitted once (`start_audit` of backend/app/audit/service.py).
use security_configuration_a.Base.{
  ℕ, ◌≡◌, refl, Bool, true, false, not, ◌&&◌, Option, none, some, List, [], ◌∷◌, ◌++◌, Text, codes,
  ◌==◌, In, inl, inr, subst, sym, ap, ◌∙◌, Bool-cases, ==_iff, chosen, passed_on, arith,
}
use security_configuration_a.Base.Result.{
  ok, ok-eq, raised, refuse_if, or_refuse, or_refuse-eq, refuse_if-false,
}
use security_configuration_a.Base.Yields.{Yields, Yields->>=, Yields-ok, Yields-then}
use security_configuration_a.Jobs.Model.{Job, audit, queued}
use security_configuration_a.Jobs.Store.{add}
use security_configuration_a.Jobs.Service.{enqueue_job}
use security_configuration_a.Snapshots.Rows.{
  locked, is_ready, audit_queued, Snapshot, Audit, Tables, update_snapshots, with_status,
}
use security_configuration_a.Snapshots.Service.Members.{some-eq}
use security_configuration_a.Snapshots.Service.Reassigned.{false-true}
use security_configuration_a.Snapshots.Service.Coherence.{negated, In-map, updated}
use security_configuration_a.Snapshots.Submission.{
  start_audit, submitted, snapshot_by_id, validate_snapshot_evidence, audit_row_of, is_draft_audit,
  queue_audit, queued_row, locked_tables, with_jobs,
}

-- The audit that is found again was queued.
audit_row_of-queue_audit :
    (id organization_id : ℕ) (rows : List Audit) {a : Audit}
    → audit_row_of id organization_id rows ≡ some a
    → audit_row_of id organization_id (queue_audit id rows) ≡ some (queued_row a)
unfolding audit_row_of queue_audit
audit_row_of-queue_audit id organization_id [] h = absurd cc
audit_row_of-queue_audit id organization_id (b ∷ rows) {a} h =
    let test : Bool = b.audit_id == id && b.organization_id == organization_id in
    let later : Option Audit = audit_row_of id organization_id rows in
    elim (Bool-cases (b.audit_id == id)) [
      | inl e ↦ elim (Bool-cases (b.organization_id == organization_id)) [
        | inl o ↦
            let same : b ≡ a = some-eq (chosen test (some b) later (rw e o) h) in
            rw e (rw e (rw o (ap (λ x. some (queued_row x)) same)))
        | inr o ↦
            let found : later ≡ some a = passed_on test (some b) later (rw e o) h in
            rw e (rw e (rw o (audit_row_of-queue_audit id organization_id rows found)))
      ]
      | inr e ↦
          let found : later ≡ some a = passed_on test (some b) later (rw e refl) h in
          rw e (rw e (audit_row_of-queue_audit id organization_id rows found))
    ]

audit_row_of-id :
    (id organization_id : ℕ) (rows : List Audit) {a : Audit}
    → audit_row_of id organization_id rows ≡ some a
    → a.audit_id ≡ id
unfolding audit_row_of
audit_row_of-id id organization_id [] h = absurd cc
audit_row_of-id id organization_id (b ∷ rows) {a} h =
    let test : Bool = b.audit_id == id && b.organization_id == organization_id in
    let later : Option Audit = audit_row_of id organization_id rows in
    elim (Bool-cases test) [
      | inl e ↦
          let same : b ≡ a = some-eq (chosen test (some b) later e h) in
          subst (λ (x : Audit). x.audit_id ≡ id) same (ground arith)
      | inr e ↦ audit_row_of-id id organization_id rows (passed_on test (some b) later e h)
    ]

updated-eq :
    (id : ℕ) (r : Snapshot)
    → (r.snapshot_id == id) ≡ true
    → updated id (with_status locked) r ≡ with_status locked r
unfolding updated
updated-eq id r t = rw t refl

updated-other :
    (id : ℕ) (r : Snapshot) → (r.snapshot_id == id) ≡ false → updated id (with_status locked) r ≡ r
unfolding updated
updated-other id r t = rw t refl

locked-all :
    (id : ℕ) (rows : List Snapshot) (s : Snapshot)
    → In s (update_snapshots id (with_status locked) rows)
    → s.snapshot_id ≡ id
    → s.status ≡ locked
unfolding update_snapshots updated
locked-all id rows s i e =
    let (r, j, q) = In-map (updated id (with_status locked)) rows s i in
    elim (Bool-cases (r.snapshot_id == id)) [
      | inl t ↦
          let same : s ≡ with_status locked r = q ∙ updated-eq id r t in
          ap (λ (x : Snapshot). x.status) same
      | inr t ↦
          let same : s ≡ r = q ∙ updated-other id r t in
          absurd (
            false-true
              ((==_iff r.snapshot_id id).1 (sym (ap (λ (x : Snapshot). x.snapshot_id) same) ∙ e)) t)
    ]

-- The job that is enqueued.
submitted-eq :
    (job_id now : ℕ) (a : Audit) (jobs : List Job) {job : Job} {after : List Job}
    → submitted (enqueue_job job_id now audit none (some a.audit_id) (some a.device_id) none jobs)
      ≡ ok (job, after)
    → (job.audit_id ≡ some a.audit_id)
      × (job.job_type ≡ audit)
      × (job.status ≡ queued)
      × (after ≡ jobs ++ job ∷ [])
unfolding submitted enqueue_job add
submitted-eq job_id now a jobs {job} {after} h =
    subst
      (λ r.
        (r.0.audit_id ≡ some a.audit_id)
        × (r.0.job_type ≡ audit)
        × (r.0.status ≡ queued)
        × (r.1 ≡ jobs ++ r.0 ∷ []))
      (ok-eq h) (refl, refl, refl, refl)

module _ (sha256 : Text → Text) where
  -- What a submission leaves: the audit was a draft and is queued, for the same snapshot and device; the
  -- rows of its snapshot are locked; one job was added, which is queued and for the audit; the artifacts
  -- are as they were, and another submission is refused.
  unfoldable pub IsSubmitted : (organization_id audit_id : ℕ) → Tables → Job × Tables → Type 0
  IsSubmitted organization_id audit_id t (job, after) =
      (a : Audit) × (audit_row_of audit_id organization_id t.audits ≡ some a)
      × (is_draft_audit a ≡ true)
      × (audit_row_of audit_id organization_id after.audits
          ≡ some (record a { status = audit_queued }))
      × ((s : Snapshot) → In s after.snapshots → s.snapshot_id ≡ a.snapshot_id → s.status ≡ locked)
      × (job.audit_id ≡ some audit_id)
      × (job.job_type ≡ audit)
      × (job.status ≡ queued)
      × (after.jobs ≡ t.jobs ++ job ∷ [])
      × (after.artifacts ≡ t.artifacts)
      × ((job_id now : ℕ)
          → start_audit sha256 organization_id audit_id job_id now after
            ≡ raised (codes "audit_not_draft"))

  queued-found :
      (organization_id audit_id : ℕ) (audits : List Audit) {a : Audit}
      → audit_row_of audit_id organization_id audits ≡ some a
      → audit_row_of audit_id organization_id (queue_audit a.audit_id audits) ≡ some (queued_row a)
  queued-found organization_id audit_id audits {a} found =
      subst
        (λ n. audit_row_of audit_id organization_id (queue_audit n audits) ≡ some (queued_row a))
        (sym (audit_row_of-id audit_id organization_id audits found))
        (audit_row_of-queue_audit audit_id organization_id audits found)

  started-again :
      (organization_id audit_id job_id now : ℕ) (t : Tables) (a : Audit) (jobs : List Job)
      → audit_row_of audit_id organization_id t.audits ≡ some a
      → start_audit sha256 organization_id audit_id job_id now (with_jobs (locked_tables a t) jobs)
        ≡ raised (codes "audit_not_draft")
  unfolding start_audit
  started-again organization_id audit_id job_id now t a jobs found =
      rw (queued-found organization_id audit_id t.audits found) refl

  submission-IsSubmitted :
      (organization_id audit_id job_id now : ℕ) (t : Tables) (a : Audit) (job : Job)
      (jobs : List Job)
      → audit_row_of audit_id organization_id t.audits ≡ some a
      → is_draft_audit a ≡ true
      → submitted
          (enqueue_job job_id now audit none (some a.audit_id) (some a.device_id) none t.jobs)
        ≡ ok (job, jobs)
      → IsSubmitted organization_id audit_id t (job, with_jobs (locked_tables a t) jobs)
  unfolding IsSubmitted
  submission-IsSubmitted organization_id audit_id job_id now t a job jobs found was_draft h =
      let (for_it, kind, waiting, added) = submitted-eq job_id now a t.jobs h in
      (
        a,
        found,
        was_draft,
        queued-found organization_id audit_id t.audits found,
        (λ s i e. locked-all a.snapshot_id t.snapshots s i e),
        for_it ∙ ap some (audit_row_of-id audit_id organization_id t.audits found),
        kind,
        waiting,
        added,
        refl,
        λ job_id now. started-again organization_id audit_id job_id now t a jobs found,
      )

  -- A submission that succeeds turns a draft audit into a queued one and locks its snapshot, adds one
  -- queued job of the audit and leaves the artifacts alone; after it every further submission of the
  -- audit is refused as no draft's.
  pub start_audit-IsSubmitted :
      (organization_id audit_id job_id now : ℕ) (t : Tables)
      → Yields
          (IsSubmitted organization_id audit_id t)
          (start_audit sha256 organization_id audit_id job_id now t)
  unfolding start_audit
  start_audit-IsSubmitted organization_id audit_id job_id now t =
      Yields-then _ (or_refuse (audit_row_of audit_id organization_id t.audits) "audit_not_found") _
        (λ a e1. Yields-then _ (refuse_if (not (is_draft_audit a)) "audit_not_draft") _ (λ u e2.
          Yields->>= _
            (or_refuse (snapshot_by_id a.snapshot_id t.snapshots) "audit_snapshot_invalid") _
            (λ s. Yields->>= _ (refuse_if _ "audit_snapshot_invalid") _ (λ v.
              Yields->>= _ (refuse_if (not (is_ready s)) "snapshot_not_ready") _ (λ w.
                Yields->>= _ (validate_snapshot_evidence sha256 s t.artifacts) _ (λ evidence.
                  Yields-then _
                    (submitted (
                      enqueue_job job_id now audit none (some a.audit_id) (some a.device_id) none
                        t.jobs))
                    _
                    (λ r e3. Yields-ok _ _ (
                      submission-IsSubmitted organization_id audit_id job_id now t a r.0 r.1
                        (or_refuse-eq (audit_row_of audit_id organization_id t.audits)
                          "audit_not_found" e1)
                        (negated (is_draft_audit a)
                          (refuse_if-false (not (is_draft_audit a)) "audit_not_draft" e2))
                        e3))))))))
