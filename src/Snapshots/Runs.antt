-- ===== src/Snapshots/Runs.antt =====
-- Sequences of the operations on snapshots and audits (backend/app/snapshots/service.py,
-- backend/app/audit/service.py, and the row that backend/app/ingestion/service.py adds): one that
-- raises leaves the tables as they were.
pub mod Coherent
pub mod Frozen
pub mod Accepted
use security_configuration_a.Base.{ℕ, Option, none, some, List, [], ◌∷◌, Text, any, ◌==◌}
use security_configuration_a.Base.Result.{Result, ok, raised, ◌>>=◌, ◌>>◌, refuse_if}
use security_configuration_a.Snapshots.Rows.{Artifact, artifact_ready, Tables, with_rows}
use security_configuration_a.Snapshots.Service.{
  create_snapshot, update_snapshot, add_artifact, remove_artifact, finalize_snapshot,
}
use security_configuration_a.Snapshots.Submission.{create_audit, start_audit}

pub data Op : Type 0 where
  ingest : (organization_id artifact_id : ℕ) → (digest : Text) → Op
  create : (organization_id now snapshot_id device_id : ℕ) → List (Text × Text) → Op
  update : (organization_id snapshot_id : ℕ) → List (Text × Text) → Op
  add_member remove_member : (organization_id snapshot_id artifact_id : ℕ) → Op
  finalize : (organization_id snapshot_id : ℕ) → Op
  audit_for : Option Text → (organization_id audit_id snapshot_id : ℕ) → Op
  start : (organization_id audit_id job_id now : ℕ) → Op

-- The row of `ingest_artifact`, whose new identifier is an argument.
unfoldable pub store_artifact : (organization_id artifact_id : ℕ) → Text → Tables → Result Tables
store_artifact organization_id artifact_id digest t = ok (
    with_rows t t.snapshots (
      record {
        artifact_id = artifact_id;
        organization_id = organization_id;
        snapshot_id = none;
        status = artifact_ready;
        sha256 = digest;
      }
      ∷ t.artifacts))

module _ (sha256 : Text → Text) where
  unfoldable pub run_op : Op → Tables → Result Tables
  run_op (ingest organization_id artifact_id digest) t =
      store_artifact organization_id artifact_id digest t
  run_op (create organization_id now snapshot_id device_id details) t =
      create_snapshot sha256 organization_id now snapshot_id device_id details t
  run_op (update organization_id snapshot_id details) t =
      update_snapshot organization_id snapshot_id details t
  run_op (add_member organization_id snapshot_id artifact_id) t =
      add_artifact sha256 organization_id snapshot_id artifact_id t
  run_op (remove_member organization_id snapshot_id artifact_id) t =
      remove_artifact sha256 organization_id snapshot_id artifact_id t
  run_op (finalize organization_id snapshot_id) t =
      finalize_snapshot sha256 organization_id snapshot_id t
  run_op (audit_for pack_error organization_id audit_id snapshot_id) t =
      create_audit sha256 pack_error organization_id audit_id snapshot_id t
  run_op (start organization_id audit_id job_id now) t =
      start_audit sha256 organization_id audit_id job_id now t >>= λ (job, after). ok after

abbrev pub committed_or : Tables → Result Tables → Tables
committed_or before (ok after) = after
committed_or before (raised e) = before

unfoldable pub run_ops : (Text → Text) → List Op → Tables → Tables
run_ops sha256 [] t = t
run_ops sha256 (op ∷ ops) t = run_ops sha256 ops (committed_or t (run_op sha256 op t))

-- The tables without snapshots and artifacts.
unfoldable pub no_snapshots : Tables → Tables
no_snapshots t = with_rows t [] []
