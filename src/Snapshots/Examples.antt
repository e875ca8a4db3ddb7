-- ===== src/Snapshots/Examples.antt =====
-- A snapshot from its creation to the submission of its audit (backend/app/snapshots/service.py,
-- backend/app/audit/service.py).
use mathlib.Core.List.Perm
use security_configuration_a.Base.{
  ℕ, some, ◌≡◌, refl, none, List, [], ◌∷◌, ◌++◌, Text, codes, map, inl, inr, ap,
}
use security_configuration_a.Base.Str.{text_eq}
use security_configuration_a.Base.Sort.{sorted}
use security_configuration_a.Base.Result.{ok}
use security_configuration_a.Base.Yields.{Yields}
use security_configuration_a.Jobs.Service.{enqueue_job}
use security_configuration_a.Snapshots.Rows.{
  artifact_le, SnapshotStatus, Artifact, artifact_ready, locked, ready, draft, Snapshot, Tables,
  members, update_snapshots, own_artifact, assign, snapshot_of, calculate_snapshot_hash,
  is_eligible, is_draft,
}
use security_configuration_a.Snapshots.Service.{create_snapshot, add_artifact, finalize_snapshot}
use security_configuration_a.Snapshots.Service.Coherence.{IsCoherent}
use security_configuration_a.Snapshots.Submission.{
  create_audit, start_audit, validate_snapshot_evidence, audit_row_of, snapshot_by_id, queue_audit,
  submitted,
}
use security_configuration_a.Snapshots.Submission.AnyOrder.{
  SameVerdict, validate_snapshot_evidence-SameVerdict,
}
use security_configuration_a.Snapshots.Service.{refresh_membership}
use security_configuration_a.Snapshots.Submission.Once.{IsSubmitted, start_audit-IsSubmitted}
use security_configuration_a.Snapshots.Runs.{
  Op, ingest, create, add_member, remove_member, finalize, audit_for, start, run_op, run_ops,
  store_artifact, no_snapshots,
}
use security_configuration_a.Snapshots.Runs.Coherent.{
  run_ops-IsCoherent, no_snapshots-IsCoherent, validate_snapshot_evidence-accepts,
}
use security_configuration_a.Snapshots.Runs.Accepted.{IsAccepted, start_audit-IsAccepted}
use security_configuration_a.Snapshots.Service.Frozen.{IsFrozen, KeepsMembers}
use security_configuration_a.Snapshots.Runs.Frozen.{run_ops-KeepsMembers}

-- The digest is the text itself.
abbrev plain : Text → Text
plain s = s

abbrev one_device : Tables
one_device = record {
  devices = record { device_id = 1; organization_id = 9; last_seen_at = none } ∷ [];
  snapshots = [];
  artifacts = [];
  audits = [];
  jobs = [];
}

abbrev editing : List Op
editing = ingest 9 20 (codes "aa") ∷ create 9 100 50 1 [] ∷ add_member 9 50 20 ∷ finalize 9 50 ∷ []

abbrev edited : Tables
edited = run_ops plain editing (no_snapshots one_device)

abbrev preparation : List Op
preparation = editing ++ audit_for none 9 70 50 ∷ []

abbrev prepared : Tables
prepared = run_ops plain preparation (no_snapshots one_device)

abbrev statuses : Tables → List SnapshotStatus
statuses t = map (λ s. s.status) t.snapshots

prepared_ready : statuses prepared ≡ ready ∷ []
unfolding run_ops run_op create_audit snapshot_of finalize_snapshot add_artifact create_snapshot
    store_artifact no_snapshots own_artifact update_snapshots members assign text_eq
    calculate_snapshot_hash sorted
prepared_ready = refl

started_locked : statuses (run_ops plain (start 9 70 80 5 ∷ []) prepared) ≡ locked ∷ []
unfolding run_ops run_op create_audit snapshot_of finalize_snapshot add_artifact create_snapshot
    store_artifact no_snapshots own_artifact update_snapshots members assign text_eq
    calculate_snapshot_hash sorted start_audit audit_row_of snapshot_by_id queue_audit submitted
    enqueue_job
started_locked = refl

run_ops-IsCoherent_example : IsCoherent plain prepared
run_ops-IsCoherent_example =
    run_ops-IsCoherent plain preparation (no_snapshots one_device)
      (no_snapshots-IsCoherent plain one_device)

prepared-IsFrozen : IsFrozen 50 prepared.snapshots
unfolding run_ops run_op create_audit snapshot_of finalize_snapshot add_artifact create_snapshot
    store_artifact no_snapshots own_artifact update_snapshots members assign text_eq
    calculate_snapshot_hash sorted IsFrozen
prepared-IsFrozen = (refl, λ s i e. elim i [ inl q ↦ ap is_draft q | inr j ↦ absurd j ])

abbrev intrusion : List Op
intrusion = remove_member 9 50 20 ∷ start 9 70 80 5 ∷ []

run_ops-KeepsMembers_example : KeepsMembers 50 prepared (run_ops plain intrusion prepared)
run_ops-KeepsMembers_example = run_ops-KeepsMembers plain intrusion 50 prepared prepared-IsFrozen

start_audit-IsSubmitted_example :
    Yields (IsSubmitted plain 9 70 prepared) (start_audit plain 9 70 80 5 prepared)
start_audit-IsSubmitted_example = start_audit-IsSubmitted plain 9 70 80 5 prepared

abbrev first_row : List Snapshot → Snapshot
first_row [] = record {
  snapshot_id = 0;
  device_id = 0;
  organization_id = 0;
  status = draft;
  snapshot_hash = [];
  artifact_count = 0;
  details = [];
}
first_row (s ∷ ss) = s

abbrev row_50 : Snapshot
row_50 = first_row prepared.snapshots

validate_snapshot_evidence-accepts_example :
    validate_snapshot_evidence plain row_50 prepared.artifacts
    ≡ ok (sorted artifact_le (members row_50.snapshot_id prepared.artifacts))
unfolding run_ops run_op create_audit snapshot_of finalize_snapshot add_artifact create_snapshot
    store_artifact no_snapshots own_artifact update_snapshots members assign text_eq
    calculate_snapshot_hash sorted
validate_snapshot_evidence-accepts_example =
    validate_snapshot_evidence-accepts plain prepared row_50 run_ops-IsCoherent_example (inl refl)
      refl (λ a i. elim i [ inl q ↦ ap is_eligible q | inr j ↦ absurd j ])

abbrev edited_50 : Snapshot
edited_50 = first_row edited.snapshots

start_audit-IsAccepted_example : IsAccepted plain 70 80 5 edited_50 edited
unfolding run_ops run_op snapshot_of finalize_snapshot add_artifact create_snapshot store_artifact
    no_snapshots own_artifact update_snapshots members assign calculate_snapshot_hash sorted
    snapshot_by_id
start_audit-IsAccepted_example =
    start_audit-IsAccepted plain 70 80 5 edited_50 edited
      (run_ops-IsCoherent plain editing (no_snapshots one_device)
        (no_snapshots-IsCoherent plain one_device))
      refl refl refl refl (λ a i. elim i [ inl q ↦ ap is_eligible q | inr j ↦ absurd j ]) refl refl

abbrev member : ℕ → Text → Artifact
member id digest = record {
  artifact_id = id;
  organization_id = 9;
  snapshot_id = some 50;
  status = artifact_ready;
  sha256 = digest;
}

abbrev one_order : List Artifact
one_order = member 20 (codes "bb") ∷ member 21 (codes "aa") ∷ []

abbrev other_order : List Artifact
other_order = member 21 (codes "aa") ∷ member 20 (codes "bb") ∷ []

validate_snapshot_evidence-SameVerdict_example :
    SameVerdict
      (validate_snapshot_evidence plain row_50 one_order)
      (validate_snapshot_evidence plain row_50 other_order)
    × (refresh_membership plain 50 one_order prepared.snapshots
        ≡ refresh_membership plain 50 other_order prepared.snapshots)
validate_snapshot_evidence-SameVerdict_example =
    validate_snapshot_evidence-SameVerdict plain row_50 50 prepared.snapshots one_order other_order
      (Perm.swap (member 21 (codes "aa")) (member 20 (codes "bb")) [])
