-- ===== src/Base/Sets.antt =====
-- Sets of numbers as lists, and `sorted({…})`.
use Prim.Native.Nat.{ℕ, ◌<◌}
use mathlib.Core.Path.{◌≡◌}
use mathlib.Core.Logic.{inl, inr}
use mathlib.Core.Bool.{Bool, true, false, not}
use mathlib.Core.List.{List, [], ◌∷◌}
use native.Mathlib.Omega.{arith}
use security_configuration_a.Base.Tests.{◌==◌, leb, if◌then◌else◌, Bool-cases}
use security_configuration_a.Base.Lists.{any, In, All}
use security_configuration_a.Base.Sort.{
  sorted, IsSorted, sorted-IsSorted, sorted-pairwise, In-sorted, In-sorted_back,
}

-- `x in xs`
abbrev pub member : ℕ → List ℕ → Bool
member x xs = any (λ y. x == y) xs

-- The elements of a set, each once.
unfoldable pub distinct : List ℕ → List ℕ
distinct [] = []
distinct (x ∷ xs) = let rest = distinct xs in if member x rest then rest else x ∷ rest

unfoldable pub sorted_set : List ℕ → List ℕ
unfolding distinct
sorted_set xs = sorted leb (distinct xs)

pub In-member : (x : ℕ) (xs : List ℕ) → member x xs ≡ true → In x xs
In-member x [] h = cc
In-member x (y ∷ ys) h = ground (arith, In-member x ys)

pub member-In : (x : ℕ) (xs : List ℕ) → In x xs → member x xs ≡ true
member-In x [] h = absurd h
member-In x (y ∷ ys) h = ground (arith, member-In x ys)

pub In-distinct : (x : ℕ) (xs : List ℕ) → In x xs → In x (distinct xs)
unfolding distinct
In-distinct x [] i = i
In-distinct x (y ∷ ys) i = ground (arith, In-distinct x ys, In-member y (distinct ys))

pub In-distinct_back : (x : ℕ) (xs : List ℕ) → In x (distinct xs) → In x xs
unfolding distinct
In-distinct_back x [] i = i
In-distinct_back x (y ∷ ys) i = ground (arith, In-distinct_back x ys)

abbrev neq : ℕ → ℕ → Bool
neq x y = not (x == y)

All-neq : (x : ℕ) (xs : List ℕ) → member x xs ≡ false → All (λ y. neq x y ≡ true) xs
All-neq x [] h = tt
All-neq x (y ∷ ys) h = (ground arith, All-neq x ys (ground arith))

distinct-neq : (xs : List ℕ) → IsSorted neq (distinct xs)
unfolding distinct
distinct-neq [] = tt
distinct-neq (x ∷ xs) = elim (Bool-cases (member x (distinct xs))) [
  | inl e ↦ rw e (distinct-neq xs)
  | inr e ↦ rw e (All-neq x (distinct xs) e, distinct-neq xs)
]

-- Each element is less than every later one.
abbrev pub Increasing : List ℕ → Type 0
Increasing [] = Unit
Increasing (x ∷ xs) = All (λ y. x < y) xs × Increasing xs

increasing : (xs : List ℕ) → IsSorted leb xs → IsSorted neq xs → Increasing xs
increasing [] s d = tt
increasing (x ∷ xs) s d = (below xs s.0 d.0, increasing xs s.1 d.1)
  where
    below :
        (ys : List ℕ)
        → All (λ y. leb x y ≡ true) ys
        → All (λ y. neq x y ≡ true) ys
        → All (λ y. x < y) ys
    below [] s d = tt
    below (y ∷ ys) s d = (ground arith, below ys s.1 d.1)

pub sorted_set-Increasing : (xs : List ℕ) → Increasing (sorted_set xs)
unfolding sorted_set
sorted_set-Increasing xs =
    increasing (sorted leb (distinct xs))
      (sorted-IsSorted leb (λ x y h. ground arith) (λ x y z h k. ground arith) (distinct xs))
      (sorted-pairwise leb neq (λ x y h. ground arith) (distinct xs) (distinct-neq xs))

pub In-sorted_set : (x : ℕ) (xs : List ℕ) → In x xs → In x (sorted_set xs)
unfolding sorted_set
In-sorted_set x xs i = In-sorted leb x (distinct xs) (In-distinct x xs i)

pub In-sorted_set_back : (x : ℕ) (xs : List ℕ) → In x (sorted_set xs) → In x xs
unfolding sorted_set
In-sorted_set_back x xs i = In-distinct_back x xs (In-sorted_back leb x (distinct xs) i)
