-- ===== src/Snapshots/Service/Members.antt =====
-- How an assignment of an artifact changes the members of the snapshots
-- (backend/app/snapshots/service.py).
use security_configuration_a.Base.{
  ℕ, ◌≡◌, refl, Bool, true, false, Option, none, some, List, [], ◌∷◌, ◌==◌, keep, arith, In, inl,
  inr, ◌⊎◌, Bool-cases, ap, sym, subst, ◌∙◌, chosen, passed_on, ==_iff,
}
use security_configuration_a.Snapshots.Rows.{
  Artifact, belongs_to, members, assigned_to, is_artifact, own_artifact, assign,
}
use security_configuration_a.Snapshots.Service.{is_free_for}

pub some-eq : {A : Type 0} {a b : A} → some a ≡ some b → a ≡ b
some-eq {a} e = ap (λ o. elim o [ none ↦ a | some x ↦ x ]) e

keep-skip :
    (p : Artifact → Bool) (x : Artifact) (xs : List Artifact)
    → p x ≡ false
    → keep p (x ∷ xs) ≡ keep p xs
keep-skip p x xs h = rw h refl

other-option :
    (id i : ℕ) (o : Option ℕ)
    → (i ≡ id → ⊥)
    → elim o [ none ↦ true | some j ↦ j == id ] ≡ true
    → elim o [ none ↦ false | some j ↦ j == i ] ≡ false
other-option id i none ne h = refl
other-option id i (some j) ne h = elim (Bool-cases (j == i)) [
  | inl e ↦ absurd (ne (sym ((==_iff j i).0 e) ∙ (==_iff j id).0 h))
  | inr e ↦ e
]

is_artifact-organization :
    (artifact_id organization_id : ℕ) (a : Artifact)
    → is_artifact artifact_id organization_id a ≡ true
    → a.organization_id ≡ organization_id
is_artifact-organization artifact_id organization_id a h = ground arith

belongs_to-other :
    (id i : ℕ) (a : Artifact) → (i ≡ id → ⊥) → is_free_for id a ≡ true → belongs_to i a ≡ false
belongs_to-other id i a ne h = other-option id i a.snapshot_id ne h

-- The members of another snapshot stay, if the artifact is free for this one.
pub members-assign :
    (id i artifact_id organization_id : ℕ) (v : Option ℕ) (rows : List Artifact) {a : Artifact}
    → (i ≡ id → ⊥)
    → own_artifact artifact_id organization_id rows ≡ some a
    → is_free_for id a ≡ true
    → is_free_for id (assigned_to v a) ≡ true
    → members i (assign artifact_id organization_id v rows) ≡ members i rows
unfolding members assign own_artifact
members-assign id i artifact_id organization_id v [] ne found free free2 = refl
members-assign id i artifact_id organization_id v (b ∷ rows) {a} ne found free free2 =
    elim (Bool-cases (is_artifact artifact_id organization_id b)) [
      | inl e ↦
          let same : b ≡ a = some-eq (
            chosen (is_artifact artifact_id organization_id b) (some b)
              (own_artifact artifact_id organization_id rows) e found) in
          let before : belongs_to i b ≡ false = rw same (belongs_to-other id i a ne free) in
          let after : belongs_to i (assigned_to v b) ≡ false =
            belongs_to-other id i (assigned_to v a) ne free2 in
          let q : assign artifact_id organization_id v (b ∷ rows) ≡ assigned_to v b ∷ rows =
            rw e refl in
          ap (members i) q
          ∙ keep-skip (belongs_to i) (assigned_to v b) rows after
          ∙ sym (keep-skip (belongs_to i) b rows before)
      | inr e ↦
          let later =
            members-assign id i artifact_id organization_id v rows ne
              (passed_on (is_artifact artifact_id organization_id b) (some b)
                (own_artifact artifact_id organization_id rows) e found)
              free free2 in
          rw e (rw later refl)
    ]

pub In-assign :
    (artifact_id organization_id : ℕ) (v : Option ℕ) (rows : List Artifact) (a : Artifact)
    → In a (assign artifact_id organization_id v rows)
    → In a rows ⊎ ((a.organization_id ≡ organization_id) × (a.snapshot_id ≡ v))
unfolding assign
In-assign artifact_id organization_id v [] a i = absurd i
In-assign artifact_id organization_id v (b ∷ rows) a i =
    elim (Bool-cases (is_artifact artifact_id organization_id b)) [
      | inl e ↦
          let q : assign artifact_id organization_id v (b ∷ rows) ≡ assigned_to v b ∷ rows =
            rw e refl in
          elim (subst (In a) q i) [
            | inl same ↦ inr (
              ap (λ (x : Artifact). x.organization_id) same
                  ∙ is_artifact-organization artifact_id organization_id b e,
              ap (λ (x : Artifact). x.snapshot_id) same,
            )
            | inr later ↦ inl (inr later)
          ]
      | inr e ↦
          let q : assign artifact_id organization_id v (b ∷ rows)
              ≡ b ∷ assign artifact_id organization_id v rows =
            rw e refl in
          elim (subst (In a) q i) [
            | inl same ↦ inl (inl same)
            | inr later ↦ elim (In-assign artifact_id organization_id v rows a later) [
              | inl old ↦ inl (inr old)
              | inr new ↦ inr new
            ]
          ]
    ]
