-- ===== src/Snapshots/Submission/AnyOrder.antt =====
-- The order in which the tables give the artifacts does not matter (`_refresh_membership` of
-- backend/app/snapshots/service.py, `validate_snapshot_evidence` of backend/app/audit/service.py).
use mathlib.Core.List.{Perm}
use mathlib.Core.List.Perm
use security_configuration_a.Base.{ℕ, ◌≡◌, refl, Bool, true, false, List, Text, ap, is_empty}
use security_configuration_a.Base.Str.{text_le, text_le_total, text_le_trans, text_le_antisym}
use security_configuration_a.Base.Sort.{sorted}
use security_configuration_a.Base.Perms.{
  of-Perm, length-Perm, any-Perm, sorted-Perm, sorted-rearranges, keep-Perm,
}
use security_configuration_a.Base.Result.{Result, ok, raised, ◌>>◌, refuse_if}
use security_configuration_a.Snapshots.Rows.{
  artifact_le, Snapshot, Artifact, members, belongs_to, digests, calculate_snapshot_hash, joined,
}
use security_configuration_a.Snapshots.Service.{refresh_membership}
use security_configuration_a.Snapshots.Submission.{
  validate_snapshot_evidence, foreign_or_ineligible,
}

-- Refused with one code, or accepted with the same evidence up to its order.
unfoldable pub SameVerdict : Result (List Artifact) → Result (List Artifact) → Type 0
SameVerdict (ok xs) (ok ys) = Perm xs ys
SameVerdict (raised m) (raised n) = m ≡ n
SameVerdict (ok xs) (raised n) = ⊥
SameVerdict (raised m) (ok ys) = ⊥

pub is_empty-Perm : {A : Type 0} {xs ys : List A} → Perm xs ys → is_empty xs ≡ is_empty ys
is_empty-Perm = of-Perm is_empty (λ x xs ys e. refl) (λ x y xs. refl) (hlevel)

members-Perm : (id : ℕ) {xs ys : List Artifact} → Perm xs ys → Perm (members id xs) (members id ys)
unfolding members
members-Perm id = keep-Perm (belongs_to id)

evidence-Perm :
    (id : ℕ) {xs ys : List Artifact}
    → Perm xs ys
    → Perm (sorted artifact_le (members id xs)) (sorted artifact_le (members id ys))
evidence-Perm id {xs} {ys} h =
    Perm.trans (sorted-rearranges artifact_le (members id xs))
      (Perm.trans (members-Perm id h) (Perm.symm (sorted-rearranges artifact_le (members id ys))))

-- The two tests and the evidence.
checked-SameVerdict :
    (invalid incoherent : Bool) {xs ys : List Artifact}
    → Perm xs ys
    → SameVerdict
        (refuse_if invalid "snapshot_evidence_invalid"
          >> (refuse_if incoherent "snapshot_evidence_incoherent" >> ok xs))
        (refuse_if invalid "snapshot_evidence_invalid"
          >> (refuse_if incoherent "snapshot_evidence_incoherent" >> ok ys))
unfolding SameVerdict
checked-SameVerdict true incoherent h = refl
checked-SameVerdict false true h = refl
checked-SameVerdict false false h = h

module _ (sha256 : Text → Text) where
  calculate_snapshot_hash-Perm :
      {xs ys : List Text}
      → Perm xs ys
      → calculate_snapshot_hash sha256 xs ≡ calculate_snapshot_hash sha256 ys
  unfolding calculate_snapshot_hash
  calculate_snapshot_hash-Perm h =
      ap (λ hashes. sha256 (joined hashes))
        (sorted-Perm (hlevel) text_le text_le_total text_le_trans text_le_antisym h)

  pub digest-eq :
      {xs ys : List Artifact}
      → Perm xs ys
      → calculate_snapshot_hash sha256 (digests xs) ≡ calculate_snapshot_hash sha256 (digests ys)
  digest-eq h = calculate_snapshot_hash-Perm (Perm.map (λ (a : Artifact). a.sha256) h)

  evidence-SameVerdict :
      (s : Snapshot) {xs ys : List Artifact}
      → Perm xs ys
      → SameVerdict
          (validate_snapshot_evidence sha256 s xs)
          (validate_snapshot_evidence sha256 s ys)
  unfolding validate_snapshot_evidence
  evidence-SameVerdict s {xs} {ys} h =
      let same = evidence-Perm s.snapshot_id h in
      rw (is_empty-Perm same) (
        rw (any-Perm (foreign_or_ineligible s) same)
          (rw (length-Perm same) (rw (digest-eq same) (checked-SameVerdict _ _ same))))

  -- Whatever order the tables give the artifacts in, the evidence of a snapshot is refused with the
  -- same code or accepted with the same artifacts, and the membership is refreshed to the same rows.
  pub validate_snapshot_evidence-SameVerdict :
      (s : Snapshot) (id : ℕ) (rows : List Snapshot) (xs ys : List Artifact)
      → Perm xs ys
      → SameVerdict
          (validate_snapshot_evidence sha256 s xs)
          (validate_snapshot_evidence sha256 s ys)
        × (refresh_membership sha256 id xs rows ≡ refresh_membership sha256 id ys rows)
  unfolding refresh_membership
  validate_snapshot_evidence-SameVerdict s id rows xs ys h =
      let same = members-Perm id h in
      (evidence-SameVerdict s h, rw (length-Perm same) (rw (digest-eq same) refl))
