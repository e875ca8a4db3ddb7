-- ===== src/Snapshots/Submission.antt =====
-- The audits that are submitted for snapshots (backend/app/audit/service.py): `create_audit`,
-- `start_audit` and `validate_snapshot_evidence`. The check of an assessment pack is a parameter,
-- `pack_error`, whose result is the code that it raises. `start_audit` calls `enqueue_job` of the job
-- service; a `JobError` becomes "audit_submission_failed".
pub mod Once
pub mod AnyOrder
use security_configuration_a.Base.{
  ℕ, Bool, true, false, not, ◌&&◌, ◌||◌, Option, none, some, List, [], ◌∷◌, Text, codes, ◌==◌, map,
  if◌then◌else◌, length, any, is_empty,
}
use security_configuration_a.Base.Str.{text_eq}
use security_configuration_a.Base.Sort.{sorted}
use security_configuration_a.Base.Result.{Result, ok, raised, ◌>>=◌, ◌>>◌, refuse_if, or_refuse}
use security_configuration_a.Jobs.Model.{Job, JobType, audit}
use security_configuration_a.Jobs.Store
use security_configuration_a.Jobs.Service.{enqueue_job}
use security_configuration_a.Snapshots.Rows.{
  SnapshotStatus, locked, Snapshot, Artifact, Audit, SubmissionStatus, audit_draft, audit_queued,
  Tables, artifact_le, is_ready, is_eligible, members, calculate_snapshot_hash, digests,
  with_status, update_snapshots, snapshot_of, has_device, with_rows,
}

-- The snapshot of this identifier, whatever its organisation.
unfoldable pub snapshot_by_id : ℕ → List Snapshot → Option Snapshot
snapshot_by_id id [] = none
snapshot_by_id id (s ∷ rest) = if s.snapshot_id == id then some s else snapshot_by_id id rest

unfoldable pub audit_row_of : ℕ → ℕ → List Audit → Option Audit
audit_row_of id organization_id [] = none
audit_row_of id organization_id (a ∷ rest) =
    if a.audit_id == id && a.organization_id == organization_id
    then some a
    else audit_row_of id organization_id rest

abbrev pub is_draft_audit : Audit → Bool
is_draft_audit a = elim a.status [ audit_draft ↦ true | _ ↦ false ]

-- An initial audit of the snapshot.
abbrev pub is_initial_of : ℕ → Audit → Bool
is_initial_of snapshot_id a = a.snapshot_id == snapshot_id && a.revision_number == 1

abbrev pub foreign_or_ineligible : Snapshot → Artifact → Bool
foreign_or_ineligible s a = not (a.organization_id == s.organization_id) || not (is_eligible a)

abbrev pub queued_row : Audit → Audit
queued_row a = record {
  audit_id = a.audit_id;
  organization_id = a.organization_id;
  device_id = a.device_id;
  snapshot_id = a.snapshot_id;
  revision_number = a.revision_number;
  status = audit_queued;
}

unfoldable pub queue_audit : ℕ → List Audit → List Audit
queue_audit id = map (λ a. if a.audit_id == id then queued_row a else a)

abbrev pub with_audits : Tables → List Audit → Tables
with_audits t audits = record {
  devices = t.devices;
  snapshots = t.snapshots;
  artifacts = t.artifacts;
  audits = audits;
  jobs = t.jobs;
}

abbrev pub with_jobs : Tables → List Job → Tables
with_jobs t jobs = record {
  devices = t.devices;
  snapshots = t.snapshots;
  artifacts = t.artifacts;
  audits = t.audits;
  jobs = jobs;
}

-- `except (JobError, SQLAlchemyError)`
unfoldable pub submitted : Store.Result (Job × List Job) → Result (Job × List Job)
submitted (Store.ok r) = ok r
submitted (Store.err e) = raised (codes "audit_submission_failed")

-- The tables after the snapshot is locked and the audit queued.
abbrev pub locked_tables : Audit → Tables → Tables
locked_tables a t =
    with_audits
      (with_rows t (update_snapshots a.snapshot_id (with_status locked) t.snapshots) t.artifacts)
      (queue_audit a.audit_id t.audits)

module _ (sha256 : Text → Text) where
  unfoldable pub validate_snapshot_evidence : Snapshot → List Artifact → Result (List Artifact)
  validate_snapshot_evidence snapshot artifacts = do
    let evidence : List Artifact = sorted artifact_le (members snapshot.snapshot_id artifacts)
    refuse_if (is_empty evidence || any (foreign_or_ineligible snapshot) evidence)
        "snapshot_evidence_invalid"
    refuse_if
        (not (snapshot.artifact_count == length evidence)
          || not
              (text_eq snapshot.snapshot_hash (calculate_snapshot_hash sha256 (digests evidence))))
        "snapshot_evidence_incoherent"
    ok evidence

  unfoldable pub create_audit :
      (pack_error : Option Text)
      → (organization_id audit_id snapshot_id : ℕ) → Tables
      → Result Tables
  unfolding validate_snapshot_evidence
  create_audit pack_error organization_id audit_id snapshot_id t = do
    snapshot ← or_refuse (snapshot_of snapshot_id organization_id t.snapshots) "snapshot_not_found"
    refuse_if (not (is_ready snapshot)) "snapshot_not_ready"
    refuse_if (not (has_device snapshot.device_id organization_id t.devices))
        "snapshot_identity_invalid"
    evidence ← validate_snapshot_evidence snapshot t.artifacts
    elim pack_error [ none ↦ ok tt | some code ↦ raised code ]
    refuse_if (any (is_initial_of snapshot_id) t.audits) "initial_audit_exists"
    refuse_if (any (λ a. a.audit_id == audit_id) t.audits) "initial_audit_exists"
    ok (
        with_audits t (
          record {
            audit_id = audit_id;
            organization_id = organization_id;
            device_id = snapshot.device_id;
            snapshot_id = snapshot_id;
            revision_number = 1;
            status = audit_draft;
          }
          ∷ t.audits))

  unfoldable pub start_audit :
      (organization_id audit_id job_id now : ℕ) → Tables → Result (Job × Tables)
  unfolding validate_snapshot_evidence queue_audit
  start_audit organization_id audit_id job_id now t = do
    a ← or_refuse (audit_row_of audit_id organization_id t.audits) "audit_not_found"
    refuse_if (not (is_draft_audit a)) "audit_not_draft"
    snapshot ← or_refuse (snapshot_by_id a.snapshot_id t.snapshots) "audit_snapshot_invalid"
    refuse_if
        (not (snapshot.organization_id == a.organization_id)
          || not (snapshot.device_id == a.device_id))
        "audit_snapshot_invalid"
    refuse_if (not (is_ready snapshot)) "snapshot_not_ready"
    evidence ← validate_snapshot_evidence snapshot t.artifacts
    (job, jobs) ←
        submitted
          (enqueue_job job_id now audit none (some a.audit_id) (some a.device_id) none t.jobs)
    ok (job, with_jobs (locked_tables a t) jobs)
