-- ===== src/Snapshots/Runs/Frozen.antt =====
-- A snapshot that is no draft keeps its members (backend/app/snapshots/service.py,
-- backend/app/audit/service.py).
use security_configuration_a.Base.{ℕ, refl, Option, List, [], ◌∷◌, Text, ◌∙◌}
use security_configuration_a.Base.Result.{Result, ok, raised}
use security_configuration_a.Jobs.Model.{Job}
use security_configuration_a.Snapshots.Rows.{locked, Audit, Tables, members, with_status}
use security_configuration_a.Snapshots.Submission.{
  create_audit, start_audit, locked_tables, with_jobs, with_audits,
}
use security_configuration_a.Snapshots.Runs.{
  Op, ingest, create, update, add_member, remove_member, finalize, audit_for, start, run_op,
  run_ops, store_artifact, committed_or,
}
use security_configuration_a.Base.Yields.{Yields, Yields->>=, Yields-ok, Yields-map}
use security_configuration_a.Snapshots.Service.Frozen.{
  IsFrozen, KeepsMembers, update-IsFrozen, locked-Keeps, add_artifact-KeepsMembers,
  remove_artifact-KeepsMembers, update_snapshot-KeepsMembers, finalize_snapshot-KeepsMembers,
  create_snapshot-KeepsMembers,
}

module _ (sha256 : Text → Text) where
  store_artifact-KeepsMembers :
      (i organization_id artifact_id : ℕ) (digest : Text) (t : Tables)
      → IsFrozen i t.snapshots
      → Yields (KeepsMembers i t) (store_artifact organization_id artifact_id digest t)
  unfolding store_artifact KeepsMembers members Yields
  store_artifact-KeepsMembers i organization_id artifact_id digest t frozen = (frozen, refl)

  with_audits-KeepsMembers :
      (i : ℕ) (t : Tables) (audits : List Audit)
      → IsFrozen i t.snapshots
      → KeepsMembers i t (with_audits t audits)
  unfolding KeepsMembers
  with_audits-KeepsMembers i t audits frozen = (frozen, refl)

  create_audit-KeepsMembers :
      (pack_error : Option Text) (i organization_id audit_id snapshot_id : ℕ) (t : Tables)
      → IsFrozen i t.snapshots
      → Yields
          (KeepsMembers i t)
          (create_audit sha256 pack_error organization_id audit_id snapshot_id t)
  unfolding create_audit
  create_audit-KeepsMembers pack_error i organization_id audit_id snapshot_id t frozen =
      search (Yields->>=, Yields-ok, with_audits-KeepsMembers, frozen) depth 24

  locked-KeepsMembers :
      (i : ℕ) (a : Audit) (t : Tables) (jobs : List Job)
      → IsFrozen i t.snapshots
      → KeepsMembers i t (with_jobs (locked_tables a t) jobs)
  unfolding KeepsMembers
  locked-KeepsMembers i a t jobs frozen = (
    update-IsFrozen a.snapshot_id i (with_status locked) t.snapshots locked-Keeps.0 locked-Keeps.1
        frozen,
    refl,
  )

  start_audit-KeepsMembers :
      (i organization_id audit_id job_id now : ℕ) (t : Tables)
      → IsFrozen i t.snapshots
      → Yields
          (λ r. KeepsMembers i t r.1)
          (start_audit sha256 organization_id audit_id job_id now t)
  unfolding start_audit
  start_audit-KeepsMembers i organization_id audit_id job_id now t frozen =
      search (Yields->>=, Yields-ok, locked-KeepsMembers, frozen) depth 24

  run_op-KeepsMembers :
      (op : Op) (i : ℕ) (t : Tables)
      → IsFrozen i t.snapshots
      → Yields (KeepsMembers i t) (run_op sha256 op t)
  unfolding run_op
  run_op-KeepsMembers (ingest organization_id artifact_id digest) i t frozen =
      store_artifact-KeepsMembers i organization_id artifact_id digest t frozen
  run_op-KeepsMembers (create organization_id now id device_id details) i t frozen =
      create_snapshot-KeepsMembers sha256 i organization_id now id device_id details t frozen
  run_op-KeepsMembers (update organization_id id details) i t frozen =
      update_snapshot-KeepsMembers sha256 i organization_id id details t frozen
  run_op-KeepsMembers (add_member organization_id id artifact_id) i t frozen =
      add_artifact-KeepsMembers sha256 i organization_id id artifact_id t frozen
  run_op-KeepsMembers (remove_member organization_id id artifact_id) i t frozen =
      remove_artifact-KeepsMembers sha256 i organization_id id artifact_id t frozen
  run_op-KeepsMembers (finalize organization_id id) i t frozen =
      finalize_snapshot-KeepsMembers sha256 i organization_id id t frozen
  run_op-KeepsMembers (audit_for pack_error organization_id audit_id id) i t frozen =
      create_audit-KeepsMembers pack_error i organization_id audit_id id t frozen
  run_op-KeepsMembers (start organization_id audit_id job_id now) i t frozen =
      Yields-map (λ r. KeepsMembers i t r.1) (KeepsMembers i t)
        (start_audit sha256 organization_id audit_id job_id now t) (λ r. r.1)
        (start_audit-KeepsMembers i organization_id audit_id job_id now t frozen) (λ r k. k)

  committed-KeepsMembers :
      (i : ℕ) (t : Tables) (r : Result Tables)
      → IsFrozen i t.snapshots
      → Yields (KeepsMembers i t) r
      → KeepsMembers i t (committed_or t r)
  unfolding Yields KeepsMembers
  committed-KeepsMembers i t (ok after) frozen k = k
  committed-KeepsMembers i t (raised e) frozen k = (frozen, refl)

  -- A snapshot that is no draft is frozen: whatever operations follow, those of other users and refused
  -- ones included, it never is a draft again and its members are the artifacts that it had.
  pub run_ops-KeepsMembers :
      (ops : List Op) (i : ℕ) (t : Tables)
      → IsFrozen i t.snapshots
      → KeepsMembers i t (run_ops sha256 ops t)
  unfolding run_ops KeepsMembers
  run_ops-KeepsMembers [] i t frozen = (frozen, refl)
  run_ops-KeepsMembers (op ∷ ops) i t frozen =
      let (next, same) =
        committed-KeepsMembers i t (run_op sha256 op t) frozen
          (run_op-KeepsMembers op i t frozen) in
      let (last, kept) = run_ops-KeepsMembers ops i (committed_or t (run_op sha256 op t)) next in
      (last, kept ∙ same)
