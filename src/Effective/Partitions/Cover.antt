-- ===== src/Effective/Partitions/Cover.antt =====
-- Each line with a fact is in one part, with exactly the facts that cover it.
use security_configuration_a.Base.{
  ℕ, ◌+◌, ◌-◌, ◌≡◌, ◌≤◌, ◌<◌, refl, ap, ◌∙◌, ◌⊎◌, inl, inr, Bool, true, false, ◌&&◌, List, [], ◌∷◌,
  leb, keep, is_empty, In, All-In, Bool-cases, arith, In-keep_intro,
}
use security_configuration_a.Base.Sets.{
  sorted_set, Increasing, sorted_set-Increasing, In-sorted_set,
}
use security_configuration_a.Effective.Partitions.{
  Ranged, Partition, points, applies, cut, vty_partitions,
}

-- The fact's range contains the line.
abbrev pub covers : ℕ → Ranged → Bool
covers n item = leb item.first n && leb n item.last

abbrev pub IsIn : ℕ → Partition → Type 0
IsIn n p = (p.first ≤ n) × (n ≤ p.last)

-- The parts come in order, from `low` on, and each has its facts.
abbrev pub IsCut : List Ranged → ℕ → List Partition → Type 0
IsCut items low [] = Unit
IsCut items low (p ∷ ps) =
    (low ≤ p.first)
    × (p.first ≤ p.last)
    × ((n : ℕ) → IsIn n p → p.applicable ≡ keep (covers n) items)
    × IsCut items (p.last + 1) ps

abbrev pub Somewhere : ℕ → List Partition → Type 0
Somewhere n [] = ⊥
Somewhere n (p ∷ ps) = IsIn n p ⊎ Somewhere n ps

-- No bound of the facts lies strictly between.
abbrev Gap : List Ranged → ℕ → ℕ → Type 0
Gap items a b = (p : ℕ) → In p (points items) → (p ≤ a) ⊎ (b ≤ p)

same-covers :
    (a b n : ℕ) (items : List Ranged)
    → a ≤ n
    → n < b
    → Gap items a b
    → keep (applies a (b - 1)) items ≡ keep (covers n) items
same-covers a b n [] l h g = refl
same-covers a b n (item ∷ items) l h g =
    let rest = same-covers a b n items l h (λ p i. g p (inr (inr i))) in
    let lower = g item.first (inl refl) in
    let upper = g (item.last + 1) (inr (inl refl)) in
    let same : applies a (b - 1) item ≡ covers n item = ground arith in rw same (rw rest refl)

-- What is known of the bounds that are left: all the points are behind, or among them.
abbrev Left : List Ranged → ℕ → List ℕ → Type 0
Left items a rest = (p : ℕ) → In p (points items) → (p ≤ a) ⊎ In p rest

Gap-cut :
    (items : List Ranged) (a b : ℕ) (rest : List ℕ)
    → Left items a (b ∷ rest)
    → Increasing (b ∷ rest)
    → Gap items a b
Gap-cut items a b rest left h p i = elim (left p i) [
  | inl l ↦ inl l
  | inr (inl e) ↦ inr (omega arith)
  | inr (inr j) ↦ inr (let k = All-In (λ y. b < y) p rest h.0 j in omega arith)
]

Left-next :
    (items : List Ranged) (a b : ℕ) (rest : List ℕ)
    → a < b
    → Left items a (b ∷ rest)
    → Left items b rest
Left-next items a b rest l left p i = elim (left p i) [
  | inl k ↦ inl (omega arith)
  | inr (inl e) ↦ inl (omega arith)
  | inr (inr j) ↦ inr j
]

IsCut-lower :
    (items : List Ranged) (low low' : ℕ) (ps : List Partition)
    → low ≤ low'
    → IsCut items low' ps
    → IsCut items low ps
IsCut-lower items low low' [] l h = tt
IsCut-lower items low low' (p ∷ ps) l h = (omega (arith, h.0), h.1, h.2, h.3)

cut-IsCut :
    (items : List Ranged) (a : ℕ) (rest : List ℕ)
    → Increasing (a ∷ rest)
    → Left items a rest
    → IsCut items a (cut items (a ∷ rest))
unfolding cut
cut-IsCut items a [] s left = tt
cut-IsCut items a (b ∷ rest) s left =
    let l : a < b = s.0.0 in
    let later = cut-IsCut items b rest s.1 (Left-next items a b rest l left) in
    let gap = Gap-cut items a b rest left s.1 in
    elim (Bool-cases (is_empty (keep (applies a (b - 1)) items))) [
      | inl e ↦ rw e (IsCut-lower items a b (cut items (b ∷ rest)) (omega arith) later)
      | inr e ↦ rw e (
        omega arith,
        omega arith,
        (λ n i. same-covers a b n items i.0 (omega (arith, i.1)) gap),
        IsCut-lower items (b - 1 + 1) b (cut items (b ∷ rest)) (omega arith) later,
      )
    ]

empty-keep :
    (n : ℕ) (item : Ranged) (items : List Ranged)
    → In item items
    → covers n item ≡ true
    → is_empty (keep (covers n) items) ≡ false
empty-keep n item items i c = full (keep (covers n) items) (In-keep_intro (covers n) item items i c)
  where
    full : (xs : List Ranged) → In item xs → is_empty xs ≡ false
    full [] i = absurd i
    full (x ∷ xs) i = refl

cut-Somewhere :
    (items : List Ranged) (item : Ranged) (n a : ℕ) (rest : List ℕ)
    → Increasing (a ∷ rest)
    → Left items a rest
    → In item items
    → covers n item ≡ true
    → a ≤ n
    → In (item.last + 1) rest
    → Somewhere n (cut items (a ∷ rest))
unfolding cut
cut-Somewhere items item n a [] s left i c l j = absurd j
cut-Somewhere items item n a (b ∷ rest) s left i c l j = elim (Bool-cases (leb b n)) [
  | inl e ↦
      let later : Somewhere n (cut items (b ∷ rest)) =
        cut-Somewhere items item n b rest s.1 (Left-next items a b rest s.0.0 left) i c
          (ground arith) (beyond j e) in
      elim (Bool-cases (is_empty (keep (applies a (b - 1)) items))) [
        | inl z ↦ rw z later
        | inr z ↦ rw z (inr later)
      ]
  | inr e ↦
      let same = same-covers a b n items l (ground arith) (Gap-cut items a b rest left s.1) in
      let z : is_empty (keep (applies a (b - 1)) items) ≡ false =
        ap is_empty same ∙ empty-keep n item items i c in
      rw z (inl (l, ground arith))
]
  where
    beyond : In (item.last + 1) (b ∷ rest) → leb b n ≡ true → In (item.last + 1) rest
    beyond (inl r) e = absurd (ground arith)
    beyond (inr k) e = k

points-In :
    (item : Ranged) (items : List Ranged)
    → In item items
    → In item.first (points items) × In (item.last + 1) (points items)
points-In item (x ∷ xs) (inl e) =
    (inl (ap (λ (r : Ranged). r.first) e), inr (inl (ap (λ (r : Ranged). r.last + 1) e)))
points-In item (x ∷ xs) (inr i) = let k = points-In item xs i in (inr (inr k.0), inr (inr k.1))
points-In item [] i = absurd i

module _ (items : List Ranged) where
  first_le : (a p : ℕ) (rest : List ℕ) → Increasing (a ∷ rest) → In p (a ∷ rest) → a ≤ p
  first_le a p rest s (inl e) = omega arith
  first_le a p rest s (inr i) = let k = All-In (λ y. a < y) p rest s.0 i in omega arith

  from_bounds :
      (bounds : List ℕ)
      → Increasing bounds
      → ((p : ℕ) → In p (points items) → In p bounds)
      → IsCut items 0 (cut items bounds)
        × ((n : ℕ) (item : Ranged)
            → In item items
            → covers n item ≡ true
            → Somewhere n (cut items bounds))
  unfolding cut
  from_bounds [] s all_points =
      (tt, λ n item i c. absurd (all_points item.first (points-In item items i).0))
  from_bounds (a ∷ rest) s all_points =
      let left : Left items a rest =
        λ p i. elim (all_points p i) [ inl e ↦ inl (omega arith) | inr j ↦ inr j ] in
      (
        IsCut-lower items 0 a (cut items (a ∷ rest)) (omega arith) (cut-IsCut items a rest s left),
        λ n item i c.
            let (first, last) = points-In item items i in
            let l : a ≤ item.first = first_le a item.first rest s (all_points item.first first) in
            cut-Somewhere items item n a rest s left i c (ground arith)
              (elim (all_points (item.last + 1) last) [
                | inl e ↦ absurd (ground arith)
                | inr j ↦ j
              ]),
      )

  -- The parts are in increasing order and do not overlap; each holds, for any of its lines, exactly the
  -- facts whose range contains the line, in their order; and every line that some fact's range
  -- contains is in a part.
  pub vty_partitions-IsCut :
      IsCut items 0 (vty_partitions items)
      × ((n : ℕ) (item : Ranged)
          → In item items
          → covers n item ≡ true
          → Somewhere n (vty_partitions items))
  unfolding vty_partitions
  vty_partitions-IsCut =
      from_bounds (sorted_set (points items)) (sorted_set-Increasing (points items))
        (λ p i. In-sorted_set p (points items) i)
