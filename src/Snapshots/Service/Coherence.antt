-- ===== src/Snapshots/Service/Coherence.antt =====
-- What the operations on snapshots keep (backend/app/snapshots/service.py).
use security_configuration_a.Base.{
  ℕ, ◌≡◌, refl, Bool, true, false, not, ◌&&◌, ◌||◌, some, List, [], ◌∷◌, Text, ◌==◌, map,
  if◌then◌else◌, any, arith, In, inl, inr, Bool-cases, ap, sym, subst, length, chosen, passed_on,
  ◌∙◌,
}
use security_configuration_a.Base.Result.{
  ok, ◌>>◌, refuse_if, or_refuse, >>=-eq-ok, ok-eq, or_refuse-eq, refuse_if-false,
}
use security_configuration_a.Snapshots.Rows.{
  Snapshot, Artifact, Tables, members, calculate_snapshot_hash, digests, update_snapshots,
  snapshot_of, with_rows, is_draft,
}
use security_configuration_a.Snapshots.Service.{lock_draft}
use security_configuration_a.Snapshots.Service.Members.{some-eq}

module _ (sha256 : Text → Text) where
  -- The snapshot counts and hashes the artifacts that are its members, which are its organisation's.
  unfoldable pub Counts : List Artifact → Snapshot → Type 0
  Counts artifacts s =
      (s.artifact_count ≡ length (members s.snapshot_id artifacts))
      × (s.snapshot_hash
          ≡ calculate_snapshot_hash sha256 (digests (members s.snapshot_id artifacts)))
      × ((a : Artifact)
          → In a (members s.snapshot_id artifacts)
          → a.organization_id ≡ s.organization_id)

  -- Each snapshot counts its members, snapshots of one identifier are of one organisation, and an
  -- artifact is in a snapshot that is there.
  unfoldable pub IsCoherent : Tables → Type 0
  IsCoherent t =
      ((s : Snapshot) → In s t.snapshots → Counts t.artifacts s)
      × ((r s : Snapshot)
          → In r t.snapshots
          → In s t.snapshots
          → r.snapshot_id ≡ s.snapshot_id
          → r.organization_id ≡ s.organization_id)
      × ((a : Artifact) (i : ℕ)
          → In a t.artifacts
          → a.snapshot_id ≡ some i
          → any (λ s. s.snapshot_id == i) t.snapshots ≡ true)

pub In-map :
    {A : Type 0} (f : A → A) (xs : List A) (y : A) → In y (map f xs) → (x : A) × In x xs × (y ≡ f x)
In-map f [] y i = absurd i
In-map f (x ∷ xs) y (inl e) = (x, inl refl, e)
In-map f (x ∷ xs) y (inr i) = let (z, j, e) = In-map f xs y i in (z, inr j, e)

-- A change that leaves the identifier and the organisation.
unfoldable pub KeepsKey : (Snapshot → Snapshot) → Type 0
KeepsKey f =
    (s : Snapshot)
    → ((f s).snapshot_id ≡ s.snapshot_id) × ((f s).organization_id ≡ s.organization_id)

unfoldable pub updated : ℕ → (Snapshot → Snapshot) → Snapshot → Snapshot
updated id f s = if s.snapshot_id == id then f s else s

updated-key :
    (id : ℕ) (f : Snapshot → Snapshot) (s : Snapshot)
    → KeepsKey f
    → ((updated id f s).snapshot_id ≡ s.snapshot_id)
      × ((updated id f s).organization_id ≡ s.organization_id)
unfolding KeepsKey updated
updated-key id f s k = elim (Bool-cases (s.snapshot_id == id)) [
  | inl e ↦ rw e (k s)
  | inr e ↦ rw e (refl, refl)
]

pub any-update :
    (id i : ℕ) (f : Snapshot → Snapshot) (rows : List Snapshot)
    → KeepsKey f
    → any (λ s. s.snapshot_id == i) (update_snapshots id f rows)
      ≡ any (λ s. s.snapshot_id == i) rows
unfolding KeepsKey update_snapshots updated
any-update id i f [] k = refl
any-update id i f (s ∷ rows) k =
    ap (λ n. (n == i) || any (λ r. r.snapshot_id == i) (update_snapshots id f rows))
      (updated-key id f s k).0
    ∙ ap (λ b. (s.snapshot_id == i) || b) (any-update id i f rows k)

pub negated : (b : Bool) → not b ≡ false → b ≡ true
negated true h = refl
negated false h = absurd cc

-- What a change of the rows of one identifier leaves coherent.
module _ (sha256 : Text → Text) where
  updated-Counts :
      (id : ℕ) (f : Snapshot → Snapshot) (artifacts : List Artifact) (s : Snapshot)
      → ((s.snapshot_id == id) ≡ true → Counts sha256 artifacts (f s))
      → ((s.snapshot_id == id) ≡ false → Counts sha256 artifacts s)
      → Counts sha256 artifacts (updated id f s)
  unfolding updated
  updated-Counts id f artifacts s here other = elim (Bool-cases (s.snapshot_id == id)) [
    | inl e ↦ rw e (here e)
    | inr e ↦ rw e (other e)
  ]

  pub update-IsCoherent :
      (t : Tables) (id : ℕ) (f : Snapshot → Snapshot) (artifacts : List Artifact)
      → KeepsKey f
      → IsCoherent sha256 t
      → ((s : Snapshot)
          → In s t.snapshots
          → (s.snapshot_id == id) ≡ true
          → Counts sha256 artifacts (f s))
      → ((s : Snapshot)
          → In s t.snapshots
          → (s.snapshot_id == id) ≡ false
          → Counts sha256 artifacts s)
      → ((a : Artifact) (i : ℕ)
          → In a artifacts
          → a.snapshot_id ≡ some i
          → any (λ s. s.snapshot_id == i) t.snapshots ≡ true)
      → IsCoherent sha256 (with_rows t (update_snapshots id f t.snapshots) artifacts)
  unfolding IsCoherent update_snapshots updated
  update-IsCoherent t id f artifacts k (counts, keyed, known) here others links = (
    (λ s i.
        let (r, j, e) = In-map (updated id f) t.snapshots s i in
        subst (Counts sha256 artifacts) (sym e)
          (updated-Counts id f artifacts r (here r j) (others r j))),
    (λ r s i j e.
        let (r0, i0, er) = In-map (updated id f) t.snapshots r i in
        let (s0, j0, es) = In-map (updated id f) t.snapshots s j in
        let (kr, hr) = updated-key id f r0 k in
        let (ks, hs) = updated-key id f s0 k in
        let ids : r0.snapshot_id ≡ s0.snapshot_id =
          sym kr
          ∙ sym (ap (λ (x : Snapshot). x.snapshot_id) er)
          ∙ e
          ∙ ap (λ (x : Snapshot). x.snapshot_id) es
          ∙ ks in
        ap (λ (x : Snapshot). x.organization_id) er
        ∙ hr
        ∙ keyed r0 s0 i0 j0 ids
        ∙ sym hs
        ∙ sym (ap (λ (x : Snapshot). x.organization_id) es)),
    (λ a i j e. any-update id i f t.snapshots k ∙ links a i j e),
  )

  pub snapshot_of-In :
      (id organization_id : ℕ) (rows : List Snapshot) {s : Snapshot}
      → snapshot_of id organization_id rows ≡ some s
      → In s rows × (s.snapshot_id ≡ id) × (s.organization_id ≡ organization_id)
  unfolding snapshot_of
  snapshot_of-In id organization_id [] h = absurd cc
  snapshot_of-In id organization_id (r ∷ rows) {s} h =
      elim (Bool-cases (r.snapshot_id == id && r.organization_id == organization_id)) [
        | inl e ↦
            let same : r ≡ s = some-eq (
              chosen (r.snapshot_id == id && r.organization_id == organization_id) (some r)
                (snapshot_of id organization_id rows) e h) in
            subst
              (λ x. In x (r ∷ rows) × (x.snapshot_id ≡ id) × (x.organization_id ≡ organization_id))
              same (inl refl, ground arith, ground arith)
        | inr e ↦
            let (i, a, b) = snapshot_of-In id organization_id rows (
              passed_on (r.snapshot_id == id && r.organization_id == organization_id) (some r)
                (snapshot_of id organization_id rows) e h) in
            (inr i, a, b)
      ]

  pub lock_draft-eq :
      (organization_id id : ℕ) (t : Tables) {s : Snapshot}
      → lock_draft organization_id id t ≡ ok s
      → In s t.snapshots
        × (s.snapshot_id ≡ id)
        × (s.organization_id ≡ organization_id)
        × (is_draft s ≡ true)
  unfolding lock_draft
  lock_draft-eq organization_id id t {s} h =
      let (r, e, h1) =
        >>=-eq-ok (or_refuse (snapshot_of id organization_id t.snapshots) "snapshot_not_found")
          (λ snapshot. refuse_if (not (is_draft snapshot)) "snapshot_not_draft" >> ok snapshot) h in
      let (u, g, h2) =
        >>=-eq-ok {A = Unit {0}} (refuse_if (not (is_draft r)) "snapshot_not_draft") (λ u. ok r)
          h1 in
      let (i, a, b) =
        snapshot_of-In id organization_id t.snapshots
          (or_refuse-eq (snapshot_of id organization_id t.snapshots) "snapshot_not_found" e) in
      let draft_row : is_draft r ≡ true =
        negated (is_draft r) (refuse_if-false (not (is_draft r)) "snapshot_not_draft" g) in
      subst
        (λ x.
          In x t.snapshots
          × (x.snapshot_id ≡ id)
          × (x.organization_id ≡ organization_id)
          × (is_draft x ≡ true))
        (ok-eq h2) (i, a, b, draft_row)
