-- ===== src/Base/Sort.antt =====
-- Python's `sorted`: a stable sort by a Boolean order on the elements, with `min` as its head.
use security_configuration_a.Base.Tests.{if◌then◌else◌, Bool-cases}
use security_configuration_a.Base.Lists.{All, In, length, All-In, In-All}
use Prim.Native.Nat.{suc}
use mathlib.Core.Path.{◌≡◌, refl, ap, ◌∙◌, subst}
use mathlib.Core.Logic.{inl, inr}
use mathlib.Core.Bool.{Bool, true, false}
use mathlib.Core.List.{List, [], ◌∷◌}
use mathlib.Core.Option.{Option, none, some}
use native.Mathlib.Omega.{arith}

module _ {A : Type 0} (le : A → A → Bool) where
  -- The element goes before the first one that it does not exceed, so equal elements keep their
  -- order.
  unfoldable pub insert : A → List A → List A
  insert x [] = x ∷ []
  insert x (y ∷ ys) = if le x y then x ∷ y ∷ ys else y ∷ insert x ys

  unfoldable pub sorted : List A → List A
  unfolding insert
  sorted [] = []
  sorted (x ∷ xs) = insert x (sorted xs)

module _ {A : Type 0} (le : A → A → Bool) where
  All-insert : (P : A → Type 0) (x : A) (xs : List A) → P x → All P xs → All P (insert le x xs)
  unfolding insert
  All-insert P x [] px h = (px, tt)
  All-insert P x (y ∷ ys) px h = elim (Bool-cases (le x y)) [
    | inl e ↦ rw e (px, h)
    | inr e ↦ rw e (h.0, All-insert P x ys px h.1)
  ]

  pub All-sorted : (P : A → Type 0) (xs : List A) → All P xs → All P (sorted le xs)
  unfolding sorted
  All-sorted P [] h = tt
  All-sorted P (x ∷ xs) h = All-insert P x (sorted le xs) h.0 (All-sorted P xs h.1)

  In-insert : (a x : A) (xs : List A) → In a (x ∷ xs) → In a (insert le x xs)
  unfolding insert
  In-insert a x [] h = h
  In-insert a x (y ∷ ys) h = ground (arith, In-insert a x ys)

  pub In-sorted : (a : A) (xs : List A) → In a xs → In a (sorted le xs)
  unfolding sorted
  In-sorted a [] h = h
  In-sorted a (x ∷ xs) (inl e) = In-insert a x (sorted le xs) (inl e)
  In-sorted a (x ∷ xs) (inr i) = In-insert a x (sorted le xs) (inr (In-sorted a xs i))

  -- Nothing is added: an element of the result was an element of the list.
  pub In-sorted_back : (a : A) (xs : List A) → In a (sorted le xs) → In a xs
  In-sorted_back a xs =
      All-In (λ b. In b xs) a (sorted le xs) (All-sorted (λ b. In b xs) xs (In-All _ xs (λ b i. i)))

  length-insert : (x : A) (xs : List A) → length (insert le x xs) ≡ suc (length xs)
  unfolding insert
  length-insert x [] = refl
  length-insert x (y ∷ ys) = ground (arith, length-insert x ys)

  pub length-sorted : (xs : List A) → length (sorted le xs) ≡ length xs
  unfolding sorted
  length-sorted [] = refl
  length-sorted (x ∷ xs) = length-insert x (sorted le xs) ∙ ap suc (length-sorted xs)

-- Each element is at most every later one.
abbrev pub IsSorted : {A : Type 0} → (A → A → Bool) → List A → Type 0
IsSorted le [] = Unit
IsSorted le (x ∷ xs) = All (λ y. le x y ≡ true) xs × IsSorted le xs

module _ {A : Type 0} (le : A → A → Bool) (total : (x y : A) → le x y ≡ false → le y x ≡ true)
    (trans : (x y z : A) → le x y ≡ true → le y z ≡ true → le x z ≡ true) where
  insert-IsSorted : (x : A) (xs : List A) → IsSorted le xs → IsSorted le (insert le x xs)
  unfolding insert
  insert-IsSorted x [] h = (tt, tt)
  insert-IsSorted x (y ∷ ys) h = elim (Bool-cases (le x y)) [
    | inl e ↦ rw e ((e, In-All _ ys (λ z i. trans x y z e (All-In _ z ys h.0 i))), h)
    | inr e ↦
        rw e (All-insert le (λ z. le y z ≡ true) x ys (total x y e) h.0, insert-IsSorted x ys h.1)
  ]

  pub sorted-IsSorted : (xs : List A) → IsSorted le (sorted le xs)
  unfolding sorted
  sorted-IsSorted [] = tt
  sorted-IsSorted (x ∷ xs) = insert-IsSorted x (sorted le xs) (sorted-IsSorted xs)

-- A symmetric relation between all the elements is kept.
module _ {A : Type 0} (le r : A → A → Bool)
    (symmetric : (x y : A) → r x y ≡ true → r y x ≡ true) where
  insert-pairwise :
      (x : A) (xs : List A)
      → All (λ y. r x y ≡ true) xs
      → IsSorted r xs
      → IsSorted r (insert le x xs)
  unfolding insert
  insert-pairwise x [] h k = (tt, tt)
  insert-pairwise x (y ∷ ys) h k = elim (Bool-cases (le x y)) [
    | inl e ↦ rw e (h, k)
    | inr e ↦ rw e (
      All-insert le (λ z. r y z ≡ true) x ys (symmetric x y h.0) k.0,
      insert-pairwise x ys h.1 k.1,
    )
  ]

  pub sorted-pairwise : (xs : List A) → IsSorted r xs → IsSorted r (sorted le xs)
  unfolding sorted
  sorted-pairwise [] h = tt
  sorted-pairwise (x ∷ xs) h =
      insert-pairwise x (sorted le xs) (All-sorted le (λ y. r x y ≡ true) xs h.0)
        (sorted-pairwise xs h.1)

abbrev pub head : {A : Type 0} → List A → Option A
head [] = none
head (x ∷ xs) = some x

pub In-head : {A : Type 0} (x : A) (xs : List A) → head xs ≡ some x → In x xs
In-head x [] e = cc
In-head x (y ∷ ys) e = inl (cc)

-- The head of a sorted list is at most each of its elements.
pub head-least :
    {A : Type 0} (le : A → A → Bool)
    → ((x : A) → le x x ≡ true)
    → (x other : A) (xs : List A) → IsSorted le xs
    → head xs ≡ some x
    → In other xs
    → le x other ≡ true
head-least le refl_le x other [] s e i = absurd i
head-least le refl_le x other (y ∷ ys) s e (inl o) =
    rw o (let h : y ≡ x = cc in rw (← h) (refl_le y))
head-least le refl_le x other (y ∷ ys) s e (inr i) =
    let h : y ≡ x = cc in
    subst (λ z. le z other ≡ true) h (All-In (λ z. le y z ≡ true) other ys s.0 i)
