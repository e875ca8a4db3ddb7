-- ===== src/Snapshots/Service.antt =====
-- The operations on snapshots (backend/app/snapshots/service.py): each takes the organisation of the
-- user and gives the tables after the commit. An exception is its code. The fields of a request are
-- validated before; `details` are those of a snapshot's columns that they set. `sha256` is a parameter.
pub mod Members
pub mod Coherence
pub mod Reassigned
pub mod Kept
pub mod Frozen
use security_configuration_a.Base.{
  ℕ, Bool, true, false, not, ◌&&◌, ◌||◌, Option, none, some, List, [], ◌∷◌, ◌++◌, Text, codes, ◌==◌,
  keep, map, if◌then◌else◌, length, any, all, leb, is_empty,
}
use security_configuration_a.Base.Sort.{sorted}
use security_configuration_a.Base.Result.{Result, ok, raised, ◌>>=◌, ◌>>◌, refuse_if, or_refuse}
use security_configuration_a.Snapshots.Rows.{
  artifact_le, SnapshotStatus, draft, ready, Device, Snapshot, Artifact, Tables, is_draft,
  is_eligible, members, calculate_snapshot_hash, digests, with_membership, with_status,
  with_details, update_snapshots, own_artifact, assign, snapshot_of, has_device, with_rows,
}

abbrev seen_at : ℕ → ℕ → Device → Device
seen_at id now d =
    if d.device_id == id
    then record {
      device_id = d.device_id;
      organization_id = d.organization_id;
      last_seen_at = some now;
    }
    else d

abbrev with_devices : Tables → List Device → Tables
with_devices t devices = record {
  devices = devices;
  snapshots = t.snapshots;
  artifacts = t.artifacts;
  audits = t.audits;
  jobs = t.jobs;
}

-- `_lock_snapshot` and `_require_draft`
unfoldable pub lock_draft : ℕ → ℕ → Tables → Result Snapshot
lock_draft organization_id id t = do
  snapshot ← or_refuse (snapshot_of id organization_id t.snapshots) "snapshot_not_found"
  refuse_if (not (is_draft snapshot)) "snapshot_not_draft"
  ok snapshot

-- `get_snapshot`: the row and its artifacts by identifier
unfoldable pub get_snapshot : ℕ → ℕ → Tables → Result (Snapshot × List Artifact)
get_snapshot organization_id id t = do
  snapshot ← or_refuse (snapshot_of id organization_id t.snapshots) "snapshot_not_found"
  ok (snapshot, sorted artifact_le (members id t.artifacts))

unfoldable pub update_snapshot : ℕ → ℕ → List (Text × Text) → Tables → Result Tables
unfolding lock_draft
update_snapshot organization_id id details t = do
  snapshot ← lock_draft organization_id id t
  ok (
      with_rows t (update_snapshots snapshot.snapshot_id (with_details details) t.snapshots)
        t.artifacts)

-- The snapshot of the artifact, if there is one, is this one.
abbrev pub is_free_for : ℕ → Artifact → Bool
is_free_for id a = elim a.snapshot_id [ none ↦ true | some i ↦ i == id ]

abbrev pub is_in : ℕ → Option Artifact → Bool
is_in id none = false
is_in id (some a) = elim a.snapshot_id [ none ↦ false | some i ↦ i == id ]

-- The artifacts of the snapshot that are the organisation's.
abbrev pub own_members : ℕ → ℕ → List Artifact → List Artifact
own_members organization_id id artifacts =
    keep (λ a. a.organization_id == organization_id) (members id artifacts)

module _ (sha256 : Text → Text) where
  unfoldable pub create_snapshot :
      (organization_id now snapshot_id device_id : ℕ) → List (Text × Text) → Tables → Result Tables
  create_snapshot organization_id now snapshot_id device_id details t = do
    refuse_if (not (has_device device_id organization_id t.devices)) "device_not_found"
    refuse_if (any (λ s. s.snapshot_id == snapshot_id) t.snapshots) "IntegrityError"
    ok (
        with_devices
          (with_rows t
            (record {
              snapshot_id = snapshot_id;
              device_id = device_id;
              organization_id = organization_id;
              status = draft;
              snapshot_hash = sha256 [];
              artifact_count = 0;
              details = details;
            }
              ∷ t.snapshots)
            t.artifacts)
          (map (seen_at device_id now) t.devices))

  -- `_refresh_membership`
  unfoldable pub refresh_membership : ℕ → List Artifact → List Snapshot → List Snapshot
  refresh_membership id artifacts = update_snapshots id (
      with_membership (length (members id artifacts))
        (calculate_snapshot_hash sha256 (digests (members id artifacts))))

  unfoldable pub add_artifact : (organization_id id artifact_id : ℕ) → Tables → Result Tables
  unfolding lock_draft refresh_membership
  add_artifact organization_id id artifact_id t = do
    snapshot ← lock_draft organization_id id t
    artifact ← or_refuse (own_artifact artifact_id organization_id t.artifacts) "artifact_not_found"
    refuse_if (not (is_eligible artifact)) "artifact_ineligible"
    refuse_if (not (is_free_for id artifact)) "artifact_already_assigned"
    let after : List Artifact = assign artifact_id organization_id (some id) t.artifacts
    ok (with_rows t (refresh_membership id after t.snapshots) after)

  unfoldable pub remove_artifact : (organization_id id artifact_id : ℕ) → Tables → Result Tables
  unfolding lock_draft refresh_membership
  remove_artifact organization_id id artifact_id t = do
    snapshot ← lock_draft organization_id id t
    refuse_if (not (is_in id (own_artifact artifact_id organization_id t.artifacts)))
        "artifact_not_found"
    let after : List Artifact = assign artifact_id organization_id none t.artifacts
    ok (with_rows t (refresh_membership id after t.snapshots) after)

  unfoldable pub finalize_snapshot : (organization_id id : ℕ) → Tables → Result Tables
  unfolding lock_draft
  finalize_snapshot organization_id id t = do
    snapshot ← lock_draft organization_id id t
    let artifacts : List Artifact = own_members organization_id id t.artifacts
    refuse_if (is_empty artifacts) "empty_snapshot"
    refuse_if (any (λ a. not (is_eligible a)) artifacts) "artifact_ineligible"
    ok (
        with_rows t
          (update_snapshots id
            (λ s. with_status ready (
              with_membership (length artifacts)
                (calculate_snapshot_hash sha256 (digests artifacts)) s))
            t.snapshots)
          t.artifacts)
