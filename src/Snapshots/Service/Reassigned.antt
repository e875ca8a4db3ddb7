-- ===== src/Snapshots/Service/Reassigned.antt =====
-- Coherent tables stay so when an artifact enters or leaves a snapshot (`_refresh_membership` of
-- backend/app/snapshots/service.py).
use security_configuration_a.Base.{
  ℕ, ◌≡◌, refl, Bool, true, false, Option, none, some, List, [], ◌∷◌, Text, ◌==◌, any, arith, In,
  inl, inr, ap, sym, subst, In-keep, In-keep_intro, ==_iff, length, ◌∙◌,
}
use security_configuration_a.Snapshots.Rows.{
  Snapshot, Artifact, Tables, belongs_to, members, calculate_snapshot_hash, digests,
  with_membership, own_artifact, assign, with_rows, assigned_to,
}
use security_configuration_a.Snapshots.Service.{refresh_membership, is_free_for, is_in}
use security_configuration_a.Snapshots.Service.Members.{members-assign, In-assign, some-eq}
use security_configuration_a.Snapshots.Service.Coherence.{
  Counts, IsCoherent, KeepsKey, update-IsCoherent,
}

pub In-any :
    (i : ℕ) (rows : List Snapshot) (s : Snapshot)
    → In s rows
    → s.snapshot_id ≡ i
    → any (λ r. r.snapshot_id == i) rows ≡ true
In-any i [] s j e = absurd j
In-any i (r ∷ rows) s (inl q) e =
    rw ((==_iff r.snapshot_id i).1 (ap (λ (x : Snapshot). x.snapshot_id) (sym q) ∙ e)) refl
In-any i (r ∷ rows) s (inr j) e = ground (arith, In-any i rows s j e)

in-free :
    (id : ℕ) (o : Option ℕ)
    → elim o [ none ↦ false | some i ↦ i == id ] ≡ true
    → elim o [ none ↦ true | some i ↦ i == id ] ≡ true
in-free id none h = absurd cc
in-free id (some i) h = h

free-some :
    (id i : ℕ) (o : Option ℕ)
    → elim o [ none ↦ true | some j ↦ j == id ] ≡ true
    → o ≡ some i
    → id ≡ i
free-some id i none h e = absurd cc
free-some id i (some j) h e = sym ((==_iff j id).0 h) ∙ some-eq e

pub false-true : {b : Bool} → b ≡ true → b ≡ false → ⊥
false-true h e = cc

pub is_in-found :
    (id : ℕ) (o : Option Artifact)
    → is_in id o ≡ true
    → (a : Artifact) × (o ≡ some a) × (is_free_for id a ≡ true)
is_in-found id none h = absurd cc
is_in-found id (some a) h = (a, refl, in-free id a.snapshot_id h)

module _ (sha256 : Text → Text) where
  stamp-KeepsKey : (count : ℕ) (hash : Text) → KeepsKey (with_membership count hash)
  unfolding KeepsKey
  stamp-KeepsKey count hash s = (refl, refl)

  -- A row that was counted anew counts its members.
  stamp-Counts :
      (id : ℕ) (artifacts : List Artifact) (s : Snapshot)
      → s.snapshot_id ≡ id
      → ((a : Artifact)
          → In a (members s.snapshot_id artifacts)
          → a.organization_id ≡ s.organization_id)
      → Counts sha256 artifacts (
          with_membership
            (length (members id artifacts))
            (calculate_snapshot_hash sha256 (digests (members id artifacts)))
            s)
  unfolding Counts
  stamp-Counts id artifacts s e own = (
    ap (λ n. length (members n artifacts)) (sym e),
    ap (λ n. calculate_snapshot_hash sha256 (digests (members n artifacts))) (sym e),
    own,
  )

  Counts-subst :
      (artifacts after : List Artifact) (s : Snapshot)
      → members s.snapshot_id after ≡ members s.snapshot_id artifacts
      → Counts sha256 artifacts s
      → Counts sha256 after s
  unfolding Counts
  Counts-subst artifacts after s e (count, hash, own) = (
    count ∙ ap length (sym e),
    hash ∙ ap (λ ms. calculate_snapshot_hash sha256 (digests ms)) (sym e),
    λ a i. own a (subst (In a) e i),
  )

  assigned-own :
      (artifact_id organization_id : ℕ) (v : Option ℕ) (artifacts : List Artifact) (s : Snapshot)
      → s.organization_id ≡ organization_id
      → Counts sha256 artifacts s
      → (a : Artifact)
      → In a (members s.snapshot_id (assign artifact_id organization_id v artifacts))
      → a.organization_id ≡ s.organization_id
  unfolding Counts members
  assigned-own artifact_id organization_id v artifacts s own (count, hash, owned) a i =
      let (j, b) =
        In-keep (belongs_to s.snapshot_id) a (assign artifact_id organization_id v artifacts) i in
      elim (In-assign artifact_id organization_id v artifacts a j) [
        | inl old ↦ owned a (In-keep_intro (belongs_to s.snapshot_id) a artifacts old b)
        | inr new ↦ new.0 ∙ sym own
      ]

  pub reassign-IsCoherent :
      (t : Tables) (organization_id id artifact_id : ℕ) (v : Option ℕ) (s : Snapshot) (a : Artifact)
      → IsCoherent sha256 t
      → In s t.snapshots
      → s.snapshot_id ≡ id
      → s.organization_id ≡ organization_id
      → own_artifact artifact_id organization_id t.artifacts ≡ some a
      → is_free_for id a ≡ true
      → is_free_for id (assigned_to v a) ≡ true
      → IsCoherent sha256 (
          with_rows t
            (refresh_membership sha256 id
              (assign artifact_id organization_id v t.artifacts)
              t.snapshots)
            (assign artifact_id organization_id v t.artifacts))
  unfolding IsCoherent refresh_membership
  reassign-IsCoherent t organization_id id artifact_id v s a (counts, keyed, links) i same own found
        free free2 =
      let after : List Artifact = assign artifact_id organization_id v t.artifacts in
      let count : ℕ = length (members id after) in
      let hash : Text = calculate_snapshot_hash sha256 (digests (members id after)) in
      update-IsCoherent sha256 t id (with_membership count hash) after (stamp-KeepsKey count hash)
        (counts, keyed, links)
        (λ r j e.
          let at : r.snapshot_id ≡ id = (==_iff r.snapshot_id id).0 e in
          let of_it : r.organization_id ≡ organization_id = keyed r s j i (at ∙ sym same) ∙ own in
          stamp-Counts id after r at
            (assigned-own artifact_id organization_id v t.artifacts r of_it (counts r j)))
        (λ r j e.
          Counts-subst t.artifacts after r
            (members-assign id r.snapshot_id artifact_id organization_id v t.artifacts
              (λ q. false-true ((==_iff r.snapshot_id id).1 q) e) found free free2)
            (counts r j))
        (λ b k j e. elim (In-assign artifact_id organization_id v t.artifacts b j) [
          | inl old ↦ links b k old e
          | inr new ↦ In-any k t.snapshots s i (same ∙ free-some id k v free2 (sym new.1 ∙ e))
        ])
