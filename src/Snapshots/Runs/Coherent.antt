-- ===== src/Snapshots/Runs/Coherent.antt =====
-- The tables stay coherent (backend/app/snapshots/service.py, backend/app/audit/service.py).
use security_configuration_a.Base.{
  ℕ, ◌≡◌, refl, Bool, true, false, not, Option, none, some, List, [], ◌∷◌, Text, any, is_empty,
  length, In, inl, inr, sym, ap, ◌∙◌, ==_iff,
}
use security_configuration_a.Base.Str.{text_eq_iff}
use security_configuration_a.Base.Result.{Result, ok, raised}
use security_configuration_a.Base.Yields.{Yields, Yields->>=, Yields-ok, Yields-map}
use security_configuration_a.Jobs.Model.{Job}
use security_configuration_a.Snapshots.Rows.{
  artifact_le, locked, Snapshot, Artifact, Audit, Tables, is_eligible, members,
  calculate_snapshot_hash, digests, with_rows, with_status, update_snapshots,
}
use security_configuration_a.Snapshots.Service.Coherence.{
  Counts, IsCoherent, KeepsKey, update-IsCoherent,
}
use security_configuration_a.Snapshots.Service.Kept.{
  create_snapshot-IsCoherent, update_snapshot-IsCoherent, add_artifact-IsCoherent,
  remove_artifact-IsCoherent, finalize_snapshot-IsCoherent,
}
use security_configuration_a.Snapshots.Submission.{
  create_audit, start_audit, validate_snapshot_evidence, locked_tables, queue_audit, with_jobs,
  with_audits, foreign_or_ineligible,
}
use security_configuration_a.Base.Sort.{sorted}
use security_configuration_a.Base.Perms.{sorted-rearranges, any-Perm, length-Perm}
use security_configuration_a.Snapshots.Submission.AnyOrder.{is_empty-Perm, digest-eq}
use security_configuration_a.Snapshots.Runs.{
  Op, ingest, create, update, add_member, remove_member, finalize, audit_for, start, run_op,
  run_ops, store_artifact, committed_or, no_snapshots,
}

lock-KeepsKey : KeepsKey (with_status locked)
unfolding KeepsKey
lock-KeepsKey s = (refl, refl)

any-none :
    (p : Artifact → Bool) (xs : List Artifact)
    → ((a : Artifact) → In a xs → p a ≡ false)
    → any p xs ≡ false
any-none p [] h = refl
any-none p (x ∷ xs) h = rw (h x (inl refl)) (any-none p xs (λ a i. h a (inr i)))

none-some : {i : ℕ} → none ≡ some i → ⊥
none-some h = cc

module _ (sha256 : Text → Text) where
  -- The tables of audits and jobs are not read.
  audits-IsCoherent :
      (t : Tables) (audits : List Audit)
      → IsCoherent sha256 t
      → IsCoherent sha256 (with_audits t audits)
  unfolding IsCoherent
  audits-IsCoherent t audits h = h

  jobs-IsCoherent :
      (t : Tables) (jobs : List Job) → IsCoherent sha256 t → IsCoherent sha256 (with_jobs t jobs)
  unfolding IsCoherent
  jobs-IsCoherent t jobs h = h

  locked_tables-IsCoherent :
      (a : Audit) (t : Tables) → IsCoherent sha256 t → IsCoherent sha256 (locked_tables a t)
  unfolding IsCoherent Counts
  locked_tables-IsCoherent a t (counts, keyed, links) =
      audits-IsCoherent
        (with_rows t (update_snapshots a.snapshot_id (with_status locked) t.snapshots) t.artifacts)
        (queue_audit a.audit_id t.audits)
        (update-IsCoherent sha256 t a.snapshot_id (with_status locked) t.artifacts lock-KeepsKey
          (counts, keyed, links) (λ s i e. counts s i) (λ s i e. counts s i) links)

  store_artifact-IsCoherent :
      (organization_id artifact_id : ℕ) (digest : Text) (t : Tables)
      → IsCoherent sha256 t
      → Yields (IsCoherent sha256) (store_artifact organization_id artifact_id digest t)
  unfolding store_artifact Yields IsCoherent Counts members
  store_artifact-IsCoherent organization_id artifact_id digest t (counts, keyed, links) = (
    counts,
    keyed,
    λ a i j e. elim j [
      | inl same ↦ absurd (none-some (sym (ap (λ (x : Artifact). x.snapshot_id) same) ∙ e))
      | inr old ↦ links a i old e
    ],
  )

  create_audit-IsCoherent :
      (pack_error : Option Text) (organization_id audit_id snapshot_id : ℕ) (t : Tables)
      → IsCoherent sha256 t
      → Yields
          (IsCoherent sha256)
          (create_audit sha256 pack_error organization_id audit_id snapshot_id t)
  unfolding create_audit
  create_audit-IsCoherent pack_error organization_id audit_id snapshot_id t h =
      search (Yields->>=, Yields-ok, audits-IsCoherent, h) depth 24

  start_audit-IsCoherent :
      (organization_id audit_id job_id now : ℕ) (t : Tables)
      → IsCoherent sha256 t
      → Yields
          (λ r. IsCoherent sha256 r.1)
          (start_audit sha256 organization_id audit_id job_id now t)
  unfolding start_audit
  start_audit-IsCoherent organization_id audit_id job_id now t h =
      search (Yields->>=, Yields-ok, jobs-IsCoherent, locked_tables-IsCoherent, h) depth 24

  run_op-IsCoherent :
      (op : Op) (t : Tables) → IsCoherent sha256 t → Yields (IsCoherent sha256) (run_op sha256 op t)
  unfolding run_op
  run_op-IsCoherent (ingest organization_id artifact_id digest) t h =
      store_artifact-IsCoherent organization_id artifact_id digest t h
  run_op-IsCoherent (create organization_id now snapshot_id device_id details) t h =
      create_snapshot-IsCoherent sha256 organization_id now snapshot_id device_id details t h
  run_op-IsCoherent (update organization_id snapshot_id details) t h =
      update_snapshot-IsCoherent sha256 organization_id snapshot_id details t h
  run_op-IsCoherent (add_member organization_id snapshot_id artifact_id) t h =
      add_artifact-IsCoherent sha256 organization_id snapshot_id artifact_id t h
  run_op-IsCoherent (remove_member organization_id snapshot_id artifact_id) t h =
      remove_artifact-IsCoherent sha256 organization_id snapshot_id artifact_id t h
  run_op-IsCoherent (finalize organization_id snapshot_id) t h =
      finalize_snapshot-IsCoherent sha256 organization_id snapshot_id t h
  run_op-IsCoherent (audit_for pack_error organization_id audit_id snapshot_id) t h =
      create_audit-IsCoherent pack_error organization_id audit_id snapshot_id t h
  run_op-IsCoherent (start organization_id audit_id job_id now) t h =
      Yields-map (λ r. IsCoherent sha256 r.1) (IsCoherent sha256)
        (start_audit sha256 organization_id audit_id job_id now t) (λ r. r.1)
        (start_audit-IsCoherent organization_id audit_id job_id now t h) (λ r k. k)

  committed-IsCoherent :
      (t : Tables) (r : Result Tables)
      → IsCoherent sha256 t
      → Yields (IsCoherent sha256) r
      → IsCoherent sha256 (committed_or t r)
  unfolding Yields
  committed-IsCoherent t (ok after) h k = k
  committed-IsCoherent t (raised e) h k = h

  -- After any operations on coherent tables, refused ones included, each snapshot still counts and
  -- hashes exactly its members, all of its organisation; snapshots of one identifier are of one
  -- organisation, and an artifact is in a snapshot that is there.
  pub run_ops-IsCoherent :
      (ops : List Op) (t : Tables) → IsCoherent sha256 t → IsCoherent sha256 (run_ops sha256 ops t)
  unfolding run_ops
  run_ops-IsCoherent [] t h = h
  run_ops-IsCoherent (op ∷ ops) t h =
      run_ops-IsCoherent ops (committed_or t (run_op sha256 op t))
        (committed-IsCoherent t (run_op sha256 op t) h (run_op-IsCoherent op t h))

  pub no_snapshots-IsCoherent : (t : Tables) → IsCoherent sha256 (no_snapshots t)
  unfolding no_snapshots IsCoherent
  no_snapshots-IsCoherent t = (λ s i. absurd i, λ r s i j e. absurd i, λ a i j e. absurd j)

  -- On coherent tables the evidence of a snapshot is accepted, if there is some and all of it is
  -- eligible, and given in the order of the identifiers: it is never refused as another organisation's,
  -- or as incoherent.
  pub validate_snapshot_evidence-accepts :
      (t : Tables) (s : Snapshot)
      → IsCoherent sha256 t
      → In s t.snapshots
      → is_empty (members s.snapshot_id t.artifacts) ≡ false
      → ((a : Artifact) → In a (members s.snapshot_id t.artifacts) → is_eligible a ≡ true)
      → validate_snapshot_evidence sha256 s t.artifacts
        ≡ ok (sorted artifact_le (members s.snapshot_id t.artifacts))
  unfolding validate_snapshot_evidence IsCoherent Counts
  validate_snapshot_evidence-accepts t s (counts, keyed, links) i some_evidence eligible =
      let evidence : List Artifact = members s.snapshot_id t.artifacts in
      let (count, hash, own) = counts s i in
      let none_foreign : any (foreign_or_ineligible s) evidence ≡ false =
        any-none (foreign_or_ineligible s) evidence (λ a j.
          rw ((==_iff a.organization_id s.organization_id).1 (own a j)) (ap not (eligible a j))) in
      let counted = (==_iff s.artifact_count (length evidence)).1 count in
      let hashed =
        (text_eq_iff s.snapshot_hash (calculate_snapshot_hash sha256 (digests evidence))).1 hash in
      let order = sorted-rearranges artifact_le evidence in
      rw (is_empty-Perm order) (
        rw some_evidence (
          rw (any-Perm (foreign_or_ineligible s) order) (
            rw none_foreign (
              rw (length-Perm order) (rw counted (rw (digest-eq sha256 order) (rw hashed refl)))))))
