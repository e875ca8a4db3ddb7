-- ===== src/Snapshots/Service/Frozen.antt =====
-- The operations on snapshots keep the members of one that is no draft
-- (backend/app/snapshots/service.py).
use security_configuration_a.Base.{
  ℕ, ◌≡◌, refl, true, false, not, Option, none, some, List, Text, ◌==◌, any, is_empty, length, In,
  inl, inr, subst, sym, ap, ◌∙◌, Bool-cases, ==_iff,
}
use security_configuration_a.Base.Result.{refuse_if, or_refuse, or_refuse-eq, refuse_if-false}
use security_configuration_a.Snapshots.Rows.{
  locked, ready, Snapshot, Artifact, Tables, is_draft, is_eligible, members, digests, with_rows,
  with_status, with_membership, with_details, update_snapshots, own_artifact,
  calculate_snapshot_hash,
}
use security_configuration_a.Snapshots.Service.{
  create_snapshot, update_snapshot, add_artifact, remove_artifact, finalize_snapshot, lock_draft,
  is_free_for, is_in, refresh_membership, own_members,
}
use security_configuration_a.Snapshots.Service.Members.{members-assign}
use security_configuration_a.Snapshots.Service.Coherence.{
  lock_draft-eq, negated, KeepsKey, In-map, any-update, updated,
}
use security_configuration_a.Base.Yields.{Yields, Yields->>=, Yields-ok, Yields-then}
use security_configuration_a.Snapshots.Service.Kept.{or-right}
use security_configuration_a.Snapshots.Service.Reassigned.{false-true, is_in-found}

-- There is a row with the identifier, and none with it is a draft.
unfoldable pub IsFrozen : ℕ → List Snapshot → Type 0
IsFrozen id rows =
    (any (λ s. s.snapshot_id == id) rows ≡ true)
    × ((s : Snapshot) → In s rows → s.snapshot_id ≡ id → is_draft s ≡ false)

-- The snapshot is frozen still, and its members are what they were.
unfoldable pub KeepsMembers : ℕ → Tables → Tables → Type 0
KeepsMembers id before after =
    IsFrozen id after.snapshots × (members id after.artifacts ≡ members id before.artifacts)

-- A change of one snapshot's rows that makes no draft of them.
unfoldable pub KeepsStatus : (Snapshot → Snapshot) → Type 0
KeepsStatus f = (s : Snapshot) → is_draft s ≡ false → is_draft (f s) ≡ false

updated-kept :
    (id : ℕ) (f : Snapshot → Snapshot) (s : Snapshot)
    → KeepsStatus f
    → KeepsKey f
    → (is_draft s ≡ false → is_draft (updated id f s) ≡ false)
      × ((updated id f s).snapshot_id ≡ s.snapshot_id)
unfolding updated KeepsStatus KeepsKey
updated-kept id f s kept key = elim (Bool-cases (s.snapshot_id == id)) [
  | inl e ↦ rw e (kept s, (key s).0)
  | inr e ↦ rw e (λ h. h, refl)
]

pub update-IsFrozen :
    (id i : ℕ) (f : Snapshot → Snapshot) (rows : List Snapshot)
    → KeepsKey f
    → KeepsStatus f
    → IsFrozen i rows
    → IsFrozen i (update_snapshots id f rows)
unfolding IsFrozen update_snapshots updated
update-IsFrozen id i f rows key kept (there, frozen) = (
  any-update id i f rows key ∙ there,
  λ s j e.
      let (r, k, q) = In-map (updated id f) rows s j in
      let (status, same) = updated-kept id f r kept key in
      ap is_draft q
      ∙ status (frozen r k (sym same ∙ sym (ap (λ (x : Snapshot). x.snapshot_id) q) ∙ e)),
)

stamp-Keeps :
    (count : ℕ) (hash : Text)
    → KeepsKey (with_membership count hash) × KeepsStatus (with_membership count hash)
unfolding KeepsKey KeepsStatus
stamp-Keeps count hash = (λ s. (refl, refl), λ s h. h)

details-Keeps :
    (details : List (Text × Text))
    → KeepsKey (with_details details) × KeepsStatus (with_details details)
unfolding KeepsKey KeepsStatus
details-Keeps details = (λ s. (refl, refl), λ s h. h)

pub locked-Keeps : KeepsKey (with_status locked) × KeepsStatus (with_status locked)
unfolding KeepsKey KeepsStatus
locked-Keeps = (λ s. (refl, refl), λ s h. refl)

ready-Keeps :
    (count : ℕ) (hash : Text)
    → KeepsKey (λ s. with_status ready (with_membership count hash s))
      × KeepsStatus (λ s. with_status ready (with_membership count hash s))
unfolding KeepsKey KeepsStatus
ready-Keeps count hash = (λ s. (refl, refl), λ s h. refl)

-- Only the rows of one snapshot were changed.
update-KeepsMembers :
    (i id : ℕ) (f : Snapshot → Snapshot) (t : Tables) (artifacts : List Artifact)
    → KeepsKey f × KeepsStatus f
    → IsFrozen i t.snapshots
    → members i artifacts ≡ members i t.artifacts
    → KeepsMembers i t (with_rows t (update_snapshots id f t.snapshots) artifacts)
unfolding KeepsMembers
update-KeepsMembers i id f t artifacts (key, kept) frozen same =
    (update-IsFrozen id i f t.snapshots key kept frozen, same)

-- A snapshot that may be edited is not the frozen one.
draft-other :
    (i id : ℕ) (rows : List Snapshot) (s : Snapshot)
    → IsFrozen i rows
    → In s rows
    → s.snapshot_id ≡ id
    → is_draft s ≡ true
    → i ≡ id
    → ⊥
unfolding IsFrozen
draft-other i id rows s (there, frozen) j e edit same = false-true edit (frozen s j (e ∙ sym same))

module _ (sha256 : Text → Text) where
  pub add_artifact-KeepsMembers :
      (i organization_id id artifact_id : ℕ) (t : Tables)
      → IsFrozen i t.snapshots
      → Yields (KeepsMembers i t) (add_artifact sha256 organization_id id artifact_id t)
  unfolding add_artifact refresh_membership
  add_artifact-KeepsMembers i organization_id id artifact_id t frozen =
      Yields-then _ (lock_draft organization_id id t) _ (λ s e1.
        Yields-then _
          (or_refuse (own_artifact artifact_id organization_id t.artifacts) "artifact_not_found") _
          (λ a e2. Yields->>= _ (refuse_if (not (is_eligible a)) "artifact_ineligible") _ (λ u.
            Yields-then _ (refuse_if (not (is_free_for id a)) "artifact_already_assigned") _
              (λ v e3.
                let (j, same, own, edit) = lock_draft-eq sha256 organization_id id t e1 in
                Yields-ok _ _ (
                  update-KeepsMembers i id _ t _ (stamp-Keeps _ _) frozen (
                    members-assign id i artifact_id organization_id (some id) t.artifacts
                      (draft-other i id t.snapshots s frozen j same edit)
                      (or_refuse-eq (own_artifact artifact_id organization_id t.artifacts)
                        "artifact_not_found" e2)
                      (negated (is_free_for id a)
                        (refuse_if-false (not (is_free_for id a)) "artifact_already_assigned" e3))
                      ((==_iff id id).1 refl)))))))

  pub remove_artifact-KeepsMembers :
      (i organization_id id artifact_id : ℕ) (t : Tables)
      → IsFrozen i t.snapshots
      → Yields (KeepsMembers i t) (remove_artifact sha256 organization_id id artifact_id t)
  unfolding remove_artifact refresh_membership
  remove_artifact-KeepsMembers i organization_id id artifact_id t frozen =
      let found : Option Artifact = own_artifact artifact_id organization_id t.artifacts in
      Yields-then _ (lock_draft organization_id id t) _ (λ s e1.
        Yields-then _ (refuse_if (not (is_in id found)) "artifact_not_found") _ (λ u e2.
          let (j, same, own, edit) = lock_draft-eq sha256 organization_id id t e1 in
          let (a, here, free) = is_in-found id found (
            negated (is_in id found)
              (refuse_if-false (not (is_in id found)) "artifact_not_found" e2)) in
          Yields-ok _ _ (
            update-KeepsMembers i id _ t _ (stamp-Keeps _ _) frozen (
              members-assign id i artifact_id organization_id none t.artifacts
                (draft-other i id t.snapshots s frozen j same edit) here free refl))))

  pub update_snapshot-KeepsMembers :
      (i organization_id id : ℕ) (details : List (Text × Text)) (t : Tables)
      → IsFrozen i t.snapshots
      → Yields (KeepsMembers i t) (update_snapshot organization_id id details t)
  unfolding update_snapshot
  update_snapshot-KeepsMembers i organization_id id details t frozen =
      Yields->>= _ (lock_draft organization_id id t) _ (λ s.
        Yields-ok _ _
          (update-KeepsMembers i s.snapshot_id _ t _ (details-Keeps details) frozen refl))

  pub finalize_snapshot-KeepsMembers :
      (i organization_id id : ℕ) (t : Tables)
      → IsFrozen i t.snapshots
      → Yields (KeepsMembers i t) (finalize_snapshot sha256 organization_id id t)
  unfolding finalize_snapshot
  finalize_snapshot-KeepsMembers i organization_id id t frozen =
      let owned : List Artifact = own_members organization_id id t.artifacts in
      let hash : Text = calculate_snapshot_hash sha256 (digests owned) in
      Yields->>= _ (lock_draft organization_id id t) _ (λ s.
        Yields->>= _ (refuse_if (is_empty owned) "empty_snapshot") _ (λ u.
          Yields->>= _ (refuse_if (any (λ a. not (is_eligible a)) owned) "artifact_ineligible") _
            (λ v. Yields-ok _ _ (
              update-KeepsMembers i id
                (λ r. with_status ready (with_membership (length owned) hash r)) t t.artifacts
                (ready-Keeps (length owned) hash) frozen refl))))

  pub create_snapshot-KeepsMembers :
      (i organization_id now id device_id : ℕ) (details : List (Text × Text)) (t : Tables)
      → IsFrozen i t.snapshots
      → Yields
          (KeepsMembers i t)
          (create_snapshot sha256 organization_id now id device_id details t)
  unfolding create_snapshot KeepsMembers IsFrozen
  create_snapshot-KeepsMembers i organization_id now id device_id details t (there, frozen) =
      Yields->>= _ (refuse_if _ "device_not_found") _ (λ u.
        Yields-then _ (refuse_if (any (λ s. s.snapshot_id == id) t.snapshots) "IntegrityError") _
          (λ v e.
            let free =
              refuse_if-false (any (λ s. s.snapshot_id == id) t.snapshots) "IntegrityError" e in
            Yields-ok _ _ (
              (
                or-right (id == i) there,
                λ s j at. elim j [
                  | inl new ↦ absurd (
                      false-true there (
                        subst (λ n. any (λ r. r.snapshot_id == n) t.snapshots ≡ false)
                          (sym (ap (λ (x : Snapshot). x.snapshot_id) new) ∙ at) free))
                  | inr old ↦ frozen s old at
                ],
              ),
              refl,
            )))
