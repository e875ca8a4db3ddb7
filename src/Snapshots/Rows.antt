-- ===== src/Snapshots/Rows.antt =====
-- The rows that the services of snapshots and audits read and write
-- (backend/app/db/models/snapshot.py, artifact.py, audit.py). The columns that nothing here reads are
-- left out: the texts and times of a snapshot are its `details`. A UUID is its integer. A statement
-- that writes a row writes every row with its key, which is one.
use security_configuration_a.Base.{
  leb, ℕ, Bool, true, false, ◌&&◌, Option, none, some, List, [], ◌∷◌, ◌++◌, Text, ◌==◌, keep, map,
  if◌then◌else◌, any,
}
use security_configuration_a.Base.Sort.{sorted}
use security_configuration_a.Base.Str.{text_le}
use security_configuration_a.Jobs.Model.{Job}

pub data SnapshotStatus : Type 0 where
  draft ready locked archived : SnapshotStatus

pub data ArtifactStatus : Type 0 where
  artifact_uploaded validating validated artifact_ready partially_supported : ArtifactStatus
  needs_review rejected : ArtifactStatus

pub record Device : Type 0 where
  pub device_id : ℕ
  pub organization_id : ℕ
  pub last_seen_at : Option ℕ

pub record Snapshot : Type 0 where
  pub snapshot_id : ℕ
  pub device_id : ℕ
  pub organization_id : ℕ
  pub status : SnapshotStatus
  pub snapshot_hash : Text
  pub artifact_count : ℕ
  pub details : List (Text × Text)

pub record Artifact : Type 0 where
  pub artifact_id : ℕ
  pub organization_id : ℕ
  pub snapshot_id : Option ℕ
  pub status : ArtifactStatus
  pub sha256 : Text

pub data SubmissionStatus : Type 0 where
  audit_draft audit_queued audit_later : SubmissionStatus

pub record Audit : Type 0 where
  pub audit_id : ℕ
  pub organization_id : ℕ
  pub device_id : ℕ
  pub snapshot_id : ℕ
  pub revision_number : ℕ
  pub status : SubmissionStatus

pub record Tables : Type 0 where
  pub devices : List Device
  pub snapshots : List Snapshot
  pub artifacts : List Artifact
  pub audits : List Audit
  pub jobs : List Job

abbrev pub is_draft : Snapshot → Bool
is_draft s = elim s.status [ draft ↦ true | _ ↦ false ]

abbrev pub is_ready : Snapshot → Bool
is_ready s = elim s.status [ ready ↦ true | _ ↦ false ]

-- `ELIGIBLE_ARTIFACT_STATUSES`
abbrev pub is_eligible : Artifact → Bool
is_eligible a = elim a.status [
  | validated ↦ true
  | artifact_ready ↦ true
  | partially_supported ↦ true
  | needs_review ↦ true
  | _ ↦ false
]

abbrev pub belongs_to : ℕ → Artifact → Bool
belongs_to id a = elim a.snapshot_id [ none ↦ false | some i ↦ i == id ]

-- The artifacts whose `snapshot_id` is the identifier.
unfoldable pub members : ℕ → List Artifact → List Artifact
members id = keep (belongs_to id)

abbrev pub joined : List Text → Text
joined [] = []
joined (s ∷ ss) = s ++ joined ss

-- `calculate_snapshot_hash`; `sha256` is the digest in hexadecimal.
unfoldable pub calculate_snapshot_hash : (Text → Text) → List Text → Text
calculate_snapshot_hash sha256 hashes = sha256 (joined (sorted text_le hashes))

-- `order_by(Artifact.artifact_id)`
abbrev pub artifact_le : Artifact → Artifact → Bool
artifact_le a b = leb a.artifact_id b.artifact_id

abbrev pub digests : List Artifact → List Text
digests = map (λ a. a.sha256)

abbrev pub with_membership : ℕ → Text → Snapshot → Snapshot
with_membership count hash s = record {
  snapshot_id = s.snapshot_id;
  device_id = s.device_id;
  organization_id = s.organization_id;
  status = s.status;
  snapshot_hash = hash;
  artifact_count = count;
  details = s.details;
}

abbrev pub with_status : SnapshotStatus → Snapshot → Snapshot
with_status status s = record {
  snapshot_id = s.snapshot_id;
  device_id = s.device_id;
  organization_id = s.organization_id;
  status = status;
  snapshot_hash = s.snapshot_hash;
  artifact_count = s.artifact_count;
  details = s.details;
}

abbrev pub with_details : List (Text × Text) → Snapshot → Snapshot
with_details details s = record {
  snapshot_id = s.snapshot_id;
  device_id = s.device_id;
  organization_id = s.organization_id;
  status = s.status;
  snapshot_hash = s.snapshot_hash;
  artifact_count = s.artifact_count;
  details = details;
}

-- A change of the rows with the identifier.
unfoldable pub update_snapshots : ℕ → (Snapshot → Snapshot) → List Snapshot → List Snapshot
update_snapshots id f = map (λ s. if s.snapshot_id == id then f s else s)

abbrev pub assigned_to : Option ℕ → Artifact → Artifact
assigned_to snapshot_id a = record {
  artifact_id = a.artifact_id;
  organization_id = a.organization_id;
  snapshot_id = snapshot_id;
  status = a.status;
  sha256 = a.sha256;
}

abbrev pub is_artifact : ℕ → ℕ → Artifact → Bool
is_artifact id organization_id a = a.artifact_id == id && a.organization_id == organization_id

-- The artifact of the organisation, and the rows with it changed.
unfoldable pub own_artifact : ℕ → ℕ → List Artifact → Option Artifact
own_artifact id organization_id [] = none
own_artifact id organization_id (a ∷ rest) =
    if is_artifact id organization_id a then some a else own_artifact id organization_id rest

unfoldable pub assign : ℕ → ℕ → Option ℕ → List Artifact → List Artifact
assign id organization_id snapshot_id [] = []
assign id organization_id snapshot_id (a ∷ rest) =
    let later = assign id organization_id snapshot_id rest in
    if is_artifact id organization_id a then assigned_to snapshot_id a ∷ rest else a ∷ later

unfoldable pub snapshot_of : ℕ → ℕ → List Snapshot → Option Snapshot
snapshot_of id organization_id [] = none
snapshot_of id organization_id (s ∷ rest) =
    if s.snapshot_id == id && s.organization_id == organization_id
    then some s
    else snapshot_of id organization_id rest

abbrev pub has_device : ℕ → ℕ → List Device → Bool
has_device id organization_id = any (λ d. d.device_id == id && d.organization_id == organization_id)

abbrev pub with_rows : Tables → List Snapshot → List Artifact → Tables
with_rows t snapshots artifacts = record {
  devices = t.devices;
  snapshots = snapshots;
  artifacts = artifacts;
  audits = t.audits;
  jobs = t.jobs;
}
