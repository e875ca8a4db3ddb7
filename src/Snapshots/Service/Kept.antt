-- ===== src/Snapshots/Service/Kept.antt =====
-- The operations on snapshots keep the tables coherent (backend/app/snapshots/service.py).
use security_configuration_a.Base.{
  ℕ, ◌≡◌, refl, Bool, true, false, not, ◌||◌, Option, none, some, List, [], ◌∷◌, Text, ◌==◌, any,
  In, inl, inr, Bool-cases, ap, sym, subst, ==_iff, length, ◌∙◌, keep-all, keep-none, In-All,
}
use security_configuration_a.Base.Result.{refuse_if, or_refuse, or_refuse-eq, refuse_if-false}
use security_configuration_a.Base.{is_empty, ◌||◌}
use security_configuration_a.Base.Sort.{sorted}
use security_configuration_a.Snapshots.Rows.{
  ready, Snapshot, Artifact, Tables, belongs_to, members, calculate_snapshot_hash, digests,
  with_membership, with_status, with_details, own_artifact, is_eligible,
}
use security_configuration_a.Snapshots.Service.{
  lock_draft, create_snapshot, update_snapshot, add_artifact, remove_artifact, own_members,
  finalize_snapshot, is_free_for, is_in,
}
use security_configuration_a.Snapshots.Service.Coherence.{
  Counts, IsCoherent, negated, KeepsKey, update-IsCoherent, lock_draft-eq,
}
use security_configuration_a.Base.Yields.{Yields, Yields->>=, Yields-ok, Yields-then}
use security_configuration_a.Snapshots.Service.Reassigned.{
  In-any, is_in-found, false-true, reassign-IsCoherent,
}

pub or-right : (b : Bool) {c : Bool} → c ≡ true → (b || c) ≡ true
or-right true h = refl
or-right false h = h

belongs-some :
    (id : ℕ) (o : Option ℕ) → elim o [ none ↦ false | some i ↦ i == id ] ≡ true → o ≡ some id
belongs-some id none h = absurd cc
belongs-some id (some i) h = ap some ((==_iff i id).0 h)

-- A row of a new identifier shares it with no other.
key_of-cons :
    (id : ℕ) (fresh : Snapshot) (rows : List Snapshot)
    → fresh.snapshot_id ≡ id
    → any (λ s. s.snapshot_id == id) rows ≡ false
    → ((r s : Snapshot)
        → In r rows
        → In s rows
        → r.snapshot_id ≡ s.snapshot_id
        → r.organization_id ≡ s.organization_id)
    → (r s : Snapshot) → In r (fresh ∷ rows)
    → In s (fresh ∷ rows)
    → r.snapshot_id ≡ s.snapshot_id
    → r.organization_id ≡ s.organization_id
key_of-cons id fresh rows new free keyed r s (inl e) (inl q) same =
    ap (λ (x : Snapshot). x.organization_id) (e ∙ sym q)
key_of-cons id fresh rows new free keyed r s (inl e) (inr j) same =
    absurd (
      false-true (In-any id rows s j (sym same ∙ ap (λ (x : Snapshot). x.snapshot_id) e ∙ new))
        free)
key_of-cons id fresh rows new free keyed r s (inr i) (inl q) same =
    absurd
      (false-true (In-any id rows r i (same ∙ ap (λ (x : Snapshot). x.snapshot_id) q ∙ new)) free)
key_of-cons id fresh rows new free keyed r s (inr i) (inr j) same = keyed r s i j same

module _ (sha256 : Text → Text) where
  pub add_artifact-IsCoherent :
      (organization_id id artifact_id : ℕ) (t : Tables)
      → IsCoherent sha256 t
      → Yields (IsCoherent sha256) (add_artifact sha256 organization_id id artifact_id t)
  unfolding add_artifact
  add_artifact-IsCoherent organization_id id artifact_id t coherent =
      Yields-then _ (lock_draft organization_id id t) _ (λ s e1.
        Yields-then _
          (or_refuse (own_artifact artifact_id organization_id t.artifacts) "artifact_not_found") _
          (λ a e2. Yields->>= _ (refuse_if (not (is_eligible a)) "artifact_ineligible") _ (λ u.
            Yields-then _ (refuse_if (not (is_free_for id a)) "artifact_already_assigned") _
              (λ v e3.
                let (i, same, own, edit) = lock_draft-eq sha256 organization_id id t e1 in
                Yields-ok _ _ (
                  reassign-IsCoherent sha256 t organization_id id artifact_id (some id) s a coherent
                    i same own
                    (or_refuse-eq (own_artifact artifact_id organization_id t.artifacts)
                      "artifact_not_found" e2)
                    (negated (is_free_for id a)
                      (refuse_if-false (not (is_free_for id a)) "artifact_already_assigned" e3))
                    ((==_iff id id).1 refl))))))

  pub remove_artifact-IsCoherent :
      (organization_id id artifact_id : ℕ) (t : Tables)
      → IsCoherent sha256 t
      → Yields (IsCoherent sha256) (remove_artifact sha256 organization_id id artifact_id t)
  unfolding remove_artifact
  remove_artifact-IsCoherent organization_id id artifact_id t coherent =
      let found : Option Artifact = own_artifact artifact_id organization_id t.artifacts in
      Yields-then _ (lock_draft organization_id id t) _ (λ s e1.
        Yields-then _ (refuse_if (not (is_in id found)) "artifact_not_found") _ (λ u e2.
          let (i, same, own, edit) = lock_draft-eq sha256 organization_id id t e1 in
          let (a, here, free) = is_in-found id found (
            negated (is_in id found)
              (refuse_if-false (not (is_in id found)) "artifact_not_found" e2)) in
          Yields-ok _ _ (
            reassign-IsCoherent sha256 t organization_id id artifact_id none s a coherent i same own
              here free refl)))

  pub update_snapshot-IsCoherent :
      (organization_id id : ℕ) (details : List (Text × Text)) (t : Tables)
      → IsCoherent sha256 t
      → Yields (IsCoherent sha256) (update_snapshot organization_id id details t)
  unfolding update_snapshot IsCoherent KeepsKey Counts
  update_snapshot-IsCoherent organization_id id details t (counts, keyed, links) =
      Yields->>= _ (lock_draft organization_id id t) _ (λ s. Yields-ok _ _ (
        update-IsCoherent sha256 t s.snapshot_id (with_details details) t.artifacts
          (λ r. (refl, refl)) (counts, keyed, links) (λ r i e. counts r i) (λ r i e. counts r i)
          links))

  -- All the members of a snapshot are its organisation's, and so counted when it is finalized.
  own_members-all :
      (organization_id : ℕ) (t : Tables) (s : Snapshot)
      → s.organization_id ≡ organization_id
      → Counts sha256 t.artifacts s
      → own_members organization_id s.snapshot_id t.artifacts ≡ members s.snapshot_id t.artifacts
  unfolding Counts
  own_members-all organization_id t s own (count, hash, owned) =
      keep-all (λ a. a.organization_id == organization_id) (members s.snapshot_id t.artifacts)
        (In-All (λ a. (a.organization_id == organization_id) ≡ true)
          (members s.snapshot_id t.artifacts)
          (λ a i. (==_iff a.organization_id organization_id).1 (owned a i ∙ own)))

  pub finalize_snapshot-IsCoherent :
      (organization_id id : ℕ) (t : Tables)
      → IsCoherent sha256 t
      → Yields (IsCoherent sha256) (finalize_snapshot sha256 organization_id id t)
  unfolding finalize_snapshot IsCoherent KeepsKey Counts
  finalize_snapshot-IsCoherent organization_id id t (counts, keyed, links) =
      let owned : List Artifact = own_members organization_id id t.artifacts in
      let hash : Text = calculate_snapshot_hash sha256 (digests owned) in
      let stamp : Snapshot → Snapshot =
        λ s. with_status ready (with_membership (length owned) hash s) in
      Yields-then _ (lock_draft organization_id id t) _ (λ s e1.
        let (i, same, own, edit) = lock_draft-eq sha256 organization_id id t e1 in
        Yields->>= _ (refuse_if (is_empty owned) "empty_snapshot") _ (λ u.
          Yields->>= _ (refuse_if (any (λ a. not (is_eligible a)) owned) "artifact_ineligible") _
            (λ v. Yields-ok _ _ (
              update-IsCoherent sha256 t id stamp t.artifacts (λ r. (refl, refl))
                (counts, keyed, links)
                (λ r j e.
                  let at : r.snapshot_id ≡ id = (==_iff r.snapshot_id id).0 e in
                  let all_own : own_members organization_id id t.artifacts
                      ≡ members r.snapshot_id t.artifacts =
                    ap (λ n. own_members organization_id n t.artifacts) (sym at)
                    ∙ own_members-all organization_id t r (keyed r s j i (at ∙ sym same) ∙ own)
                        (counts r j) in
                  (
                    ap length all_own,
                    ap (λ ms. calculate_snapshot_hash sha256 (digests ms)) all_own,
                    (counts r j).2,
                  ))
                (λ r j e. counts r j) links))))

  no-members :
      (id : ℕ) (t : Tables)
      → any (λ s. s.snapshot_id == id) t.snapshots ≡ false
      → ((a : Artifact) (i : ℕ)
          → In a t.artifacts
          → a.snapshot_id ≡ some i
          → any (λ s. s.snapshot_id == i) t.snapshots ≡ true)
      → members id t.artifacts ≡ []
  unfolding members
  no-members id t free links = keep-none (belongs_to id) t.artifacts (
      In-All (λ a. belongs_to id a ≡ false) t.artifacts
        (λ a i. elim (Bool-cases (belongs_to id a)) [
          | inl e ↦ absurd (false-true (links a id i (belongs-some id a.snapshot_id e)) free)
          | inr e ↦ e
        ]))

  pub create_snapshot-IsCoherent :
      (organization_id now snapshot_id device_id : ℕ) (details : List (Text × Text)) (t : Tables)
      → IsCoherent sha256 t
      → Yields
          (IsCoherent sha256)
          (create_snapshot sha256 organization_id now snapshot_id device_id details t)
  unfolding create_snapshot IsCoherent Counts calculate_snapshot_hash sorted
  create_snapshot-IsCoherent organization_id now snapshot_id device_id details t
        (counts, keyed, links) =
      let taken : Bool = any (λ s. s.snapshot_id == snapshot_id) t.snapshots in
      Yields->>= _ (refuse_if _ "device_not_found") _ (λ u.
        Yields-then _ (refuse_if taken "IntegrityError") _ (λ v e.
          let free : taken ≡ false = refuse_if-false taken "IntegrityError" e in
          let none_in = no-members snapshot_id t free links in
          Yields-ok _ _ (
            (λ s i. elim i [
              | inl e ↦ subst (Counts sha256 t.artifacts) (sym e) (
                ap length (sym none_in),
                ap (λ ms. calculate_snapshot_hash sha256 (digests ms)) (sym none_in),
                λ a j. absurd (subst (In a) none_in j),
              )
              | inr j ↦ counts s j
            ]),
            (λ r s i j e. key_of-cons snapshot_id _ t.snapshots refl free keyed r s i j e),
            (λ a i j e. or-right (snapshot_id == i) (links a i j e)),
          )))
