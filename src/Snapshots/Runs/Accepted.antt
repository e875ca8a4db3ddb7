-- ===== src/Snapshots/Runs/Accepted.antt =====
-- An audit can be created and submitted for a snapshot that is ready (`create_audit` and
-- `start_audit` of backend/app/audit/service.py).
use security_configuration_a.Base.{
  ℕ, ◌≡◌, refl, true, false, none, some, List, [], ◌∷◌, ◌++◌, Text, ◌==◌, In, inl, inr, sym, ap,
  ◌∙◌, Bool-cases, ==_iff, any, is_empty, chosen, passed_on,
}
use security_configuration_a.Base.Result.{Result, ok}
use security_configuration_a.Jobs.Model.{Job, queued, audit}
use security_configuration_a.Jobs.Store.{add}
use security_configuration_a.Jobs.Service.{enqueue_job}
use security_configuration_a.Snapshots.Rows.{
  Snapshot, Artifact, Audit, audit_draft, Tables, is_ready, is_eligible, has_device, members,
  snapshot_of,
}
use security_configuration_a.Snapshots.Service.Members.{some-eq}
use security_configuration_a.Snapshots.Service.Coherence.{IsCoherent}
use security_configuration_a.Snapshots.Submission.{
  create_audit, start_audit, validate_snapshot_evidence, audit_row_of, snapshot_by_id,
  is_initial_of, with_audits, locked_tables, with_jobs, submitted,
}
use security_configuration_a.Snapshots.Runs.Coherent.{validate_snapshot_evidence-accepts}

-- The row of the identifier is found by its organisation too.
snapshot_of-found :
    (id organization_id : ℕ) (rows : List Snapshot) {s : Snapshot}
    → snapshot_by_id id rows ≡ some s
    → s.organization_id ≡ organization_id
    → snapshot_of id organization_id rows ≡ some s
unfolding snapshot_by_id snapshot_of
snapshot_of-found id organization_id [] h own = absurd cc
snapshot_of-found id organization_id (r ∷ rows) {s} h own =
    elim (Bool-cases (r.snapshot_id == id)) [
      | inl e ↦
          let same : r ≡ s =
            some-eq (chosen (r.snapshot_id == id) (some r) (snapshot_by_id id rows) e h) in
          rw e (
            rw
              ((==_iff r.organization_id organization_id).1
                (ap (λ (x : Snapshot). x.organization_id) same ∙ own))
              (ap some same))
      | inr e ↦ rw e (
          snapshot_of-found id organization_id rows
            (passed_on (r.snapshot_id == id) (some r) (snapshot_by_id id rows) e h) own)
    ]

snapshot_by_id-In :
    (id : ℕ) (rows : List Snapshot) {s : Snapshot} → snapshot_by_id id rows ≡ some s → In s rows
unfolding snapshot_by_id
snapshot_by_id-In id [] h = absurd cc
snapshot_by_id-In id (r ∷ rows) {s} h = elim (Bool-cases (r.snapshot_id == id)) [
  | inl e ↦ inl (sym (some-eq (chosen (r.snapshot_id == id) (some r) (snapshot_by_id id rows) e h)))
  | inr e ↦ inr (
      snapshot_by_id-In id rows
        (passed_on (r.snapshot_id == id) (some r) (snapshot_by_id id rows) e h))
]

abbrev draft_row : ℕ → Snapshot → Audit
draft_row audit_id s = record {
  audit_id = audit_id;
  organization_id = s.organization_id;
  device_id = s.device_id;
  snapshot_id = s.snapshot_id;
  revision_number = 1;
  status = audit_draft;
}

abbrev drafted : ℕ → Snapshot → Tables → Tables
drafted audit_id s t = with_audits t (draft_row audit_id s ∷ t.audits)

abbrev job_for : ℕ → ℕ → ℕ → Snapshot → Job
job_for job_id now audit_id s = record {
  job_id = job_id;
  job_type = audit;
  status = queued;
  stage = none;
  progress = 0;
  audit_id = some audit_id;
  device_id = some s.device_id;
  payload = [];
  attempt_count = 0;
  error_code = none;
  error_message = none;
  created_at = now;
  started_at = none;
  completed_at = none;
  lease_owner = none;
  heartbeat_at = none;
  lease_expires_at = none;
}

abbrev started : ℕ → ℕ → ℕ → Snapshot → Tables → Tables
started job_id now audit_id s t =
    with_jobs (locked_tables (draft_row audit_id s) (drafted audit_id s t))
      (t.jobs ++ job_for job_id now audit_id s ∷ [])

module _ (sha256 : Text → Text) where
  -- An audit of the snapshot was created, and its submission gave a queued job for it.
  unfoldable pub IsAccepted : ℕ → ℕ → ℕ → Snapshot → Tables → Type 0
  IsAccepted audit_id job_id now s t =
      (created after : Tables) × (job : Job) × (create_audit sha256 none s.organization_id audit_id
          s.snapshot_id t
        ≡ ok created)
      × (start_audit sha256 s.organization_id audit_id job_id now created ≡ ok (job, after))
      × (job.audit_id ≡ some audit_id)
      × (job.status ≡ queued)
      × (after.jobs ≡ t.jobs ++ job ∷ [])

  created-ok :
      (audit_id : ℕ) (s : Snapshot) (t : Tables) {evidence : List Artifact}
      → snapshot_of s.snapshot_id s.organization_id t.snapshots ≡ some s
      → is_ready s ≡ true
      → has_device s.device_id s.organization_id t.devices ≡ true
      → validate_snapshot_evidence sha256 s t.artifacts ≡ ok evidence
      → any (is_initial_of s.snapshot_id) t.audits ≡ false
      → any (λ a. a.audit_id == audit_id) t.audits ≡ false
      → create_audit sha256 none s.organization_id audit_id s.snapshot_id t
        ≡ ok (drafted audit_id s t)
  unfolding create_audit
  created-ok audit_id s t found ready_row device evidence first fresh =
      rw found (rw ready_row (rw device (rw evidence (rw first (rw fresh refl)))))

  started-ok :
      (audit_id job_id now : ℕ) (s : Snapshot) (t : Tables) {evidence : List Artifact}
      → snapshot_by_id s.snapshot_id t.snapshots ≡ some s
      → is_ready s ≡ true
      → validate_snapshot_evidence sha256 s t.artifacts ≡ ok evidence
      → (r : Result (Job × Tables))
      → ok (job_for job_id now audit_id s, started job_id now audit_id s t) ≡ r
      → start_audit sha256 s.organization_id audit_id job_id now (drafted audit_id s t) ≡ r
  unfolding start_audit audit_row_of submitted enqueue_job add
  started-ok audit_id job_id now s t found ready_row evidence r result =
      let here = (==_iff audit_id audit_id).1 refl in
      let own = (==_iff s.organization_id s.organization_id).1 refl in
      let device = (==_iff s.device_id s.device_id).1 refl in
      rw here (rw own (rw found (rw own (rw device (rw ready_row (rw evidence result))))))

  -- On coherent tables, an audit can be created and then submitted for a snapshot that is ready and
  -- has a device, if its evidence is not empty and all eligible, it has no initial audit yet and the
  -- audit's identifier is new: both succeed, and one queued job for the audit is added.
  pub start_audit-IsAccepted :
      (audit_id job_id now : ℕ) (s : Snapshot) (t : Tables)
      → IsCoherent sha256 t
      → snapshot_by_id s.snapshot_id t.snapshots ≡ some s
      → is_ready s ≡ true
      → has_device s.device_id s.organization_id t.devices ≡ true
      → is_empty (members s.snapshot_id t.artifacts) ≡ false
      → ((a : Artifact) → In a (members s.snapshot_id t.artifacts) → is_eligible a ≡ true)
      → any (is_initial_of s.snapshot_id) t.audits ≡ false
      → any (λ a. a.audit_id == audit_id) t.audits ≡ false
      → IsAccepted audit_id job_id now s t
  unfolding IsAccepted
  start_audit-IsAccepted audit_id job_id now s t coherent found ready_row device some_evidence
        eligible first fresh =
      let evidence =
        validate_snapshot_evidence-accepts sha256 t s coherent
          (snapshot_by_id-In s.snapshot_id t.snapshots found) some_evidence eligible in
      let created =
        created-ok audit_id s t
          (snapshot_of-found s.snapshot_id s.organization_id t.snapshots found refl) ready_row
          device evidence first fresh in
      (
        drafted audit_id s t,
        started job_id now audit_id s t,
        job_for job_id now audit_id s,
        created,
        started-ok audit_id job_id now s t found ready_row evidence _ refl,
        refl,
        refl,
        refl,
      )
