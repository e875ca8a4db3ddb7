-- ===== src/Base/Perms.antt =====
-- What does not depend on the order of a list: lengths, tests of any element, sorted lists.
use Prim.Native.Nat.{suc}
use mathlib.Core.Path.{◌≡◌, refl, ap, ◌∙◌, subst}
use mathlib.Core.Logic.{inl, inr, ∥∥₁_elim, ∥∥₁_prop}
use mathlib.Core.Bool.{Bool, true, false, ◌||◌}
use mathlib.Core.List.{List, [], ◌∷◌, Perm, Permᴰ}
use mathlib.Core.List.Perm
use security_configuration_a.Base.Tests.{if◌then◌else◌, Bool-cases}
use security_configuration_a.Base.Lists.{length, keep, any}
use security_configuration_a.Base.Sort.{insert, sorted}

-- Sorting rearranges a list.
module _ {A : Type 0} (le : A → A → Bool) where
  insert-rearranges : (x : A) (xs : List A) → Perm (insert le x xs) (x ∷ xs)
  unfolding insert
  insert-rearranges x [] = Perm.rfl
  insert-rearranges x (y ∷ ys) = elim (Bool-cases (le x y)) [
    | inl e ↦ rw e Perm.rfl
    | inr e ↦ rw e (Perm.trans (Perm.cons y (insert-rearranges x ys)) (Perm.swap x y ys))
  ]

  pub sorted-rearranges : (xs : List A) → Perm (sorted le xs) xs
  unfolding sorted
  sorted-rearranges [] = Perm.rfl
  sorted-rearranges (x ∷ xs) =
      Perm.trans (insert-rearranges x (sorted le xs)) (Perm.cons x (sorted-rearranges xs))

-- A value that each element adds to, two neighbours in either order.
module _ {A B : Type 0} (f : List A → B)
    (step : (x : A) (xs ys : List A) → f xs ≡ f ys → f (x ∷ xs) ≡ f (x ∷ ys))
    (exchange : (x y : A) (xs : List A) → f (x ∷ y ∷ xs) ≡ f (y ∷ x ∷ xs)) where
  of-Permᴰ : {xs ys : List A} → Permᴰ xs ys → f xs ≡ f ys
  of-Permᴰ Permᴰ.nil = refl
  of-Permᴰ (Permᴰ.cons {a = a} {l₁ = xs} {l₂ = ys} e d) =
      step a xs ys (of-Permᴰ d) ∙ ap (λ x. f (x ∷ ys)) e
  of-Permᴰ (Permᴰ.swap {a = a} {b = b} {a' = c} {l = xs} e g) =
      exchange a b xs ∙ ap (λ x. f (x ∷ a ∷ xs)) g ∙ ap (λ x. f (c ∷ x ∷ xs)) e
  of-Permᴰ (Permᴰ.trans d e) = of-Permᴰ d ∙ of-Permᴰ e

  pub of-Perm : IsSet B → {xs ys : List A} → Perm xs ys → f xs ≡ f ys
  of-Perm B_set {xs} {ys} p = ∥∥₁_elim p (B_set (f xs) (f ys)) of-Permᴰ

pub length-Perm : {A : Type 0} {xs ys : List A} → Perm xs ys → length xs ≡ length ys
length-Perm = of-Perm length (λ x xs ys e. ap suc e) (λ x y xs. refl) (hlevel)

or_swap : (a b c : Bool) → (a || (b || c)) ≡ (b || (a || c))
or_swap true true c = refl
or_swap true false c = refl
or_swap false true c = refl
or_swap false false c = refl

pub any-Perm : {A : Type 0} (p : A → Bool) {xs ys : List A} → Perm xs ys → any p xs ≡ any p ys
any-Perm p =
    of-Perm (any p) (λ x xs ys e. ap (λ b. p x || b) e) (λ x y xs. or_swap (p x) (p y) (any p xs))
      (hlevel)

-- A sorted list does not depend on the order before.
module _ {A : Type 0} (A_set : IsSet A) (le : A → A → Bool)
    (total : (x y : A) → le x y ≡ false → le y x ≡ true)
    (trans : (x y z : A) → le x y ≡ true → le y z ≡ true → le x z ≡ true)
    (antisym : (x y : A) → le x y ≡ true → le y x ≡ true → x ≡ y) where
  neighbours :
      (x y : A) (zs : List A)
      → (if le x y then x ∷ y ∷ zs else y ∷ x ∷ zs) ≡ (if le y x then y ∷ x ∷ zs else x ∷ y ∷ zs)
  neighbours x y zs = elim (Bool-cases (le x y)) [
    | inl e ↦ elim (Bool-cases (le y x)) [
      | inl g ↦ let same = antisym x y e g in rw e (rw g (rw same refl))
      | inr g ↦ rw e (rw g refl)
    ]
    | inr e ↦ rw e (rw (total x y e) refl)
  ]

  -- What is below an element is not below a smaller one.
  not_below : (x y z : A) → le x z ≡ true → le y z ≡ false → le y x ≡ false
  not_below x y z e g = elim (Bool-cases (le y x)) [
    | inl k ↦ let m = trans y x z k e in absurd cc
    | inr k ↦ k
  ]

  insert-insert :
      (x y : A) (zs : List A) → insert le x (insert le y zs) ≡ insert le y (insert le x zs)
  unfolding insert
  insert-insert x y [] = neighbours x y []
  insert-insert x y (z ∷ zs) = elim (Bool-cases (le x z)) [
    | inl e ↦ elim (Bool-cases (le y z)) [
      | inl g ↦ rw e (rw g (rw e (neighbours x y (z ∷ zs))))
      | inr g ↦ rw e (rw g (rw e (rw (not_below x y z e g) refl)))
    ]
    | inr e ↦ elim (Bool-cases (le y z)) [
      | inl g ↦ rw e (rw g (rw (not_below y x z g e) (rw e refl)))
      | inr g ↦ rw e (rw g (rw e (ap (λ ws. z ∷ ws) (insert-insert x y zs))))
    ]
  ]

  pub sorted-Perm : {xs ys : List A} → Perm xs ys → sorted le xs ≡ sorted le ys
  unfolding sorted
  sorted-Perm =
      of-Perm (sorted le) (λ x xs ys e. ap (insert le x) e)
        (λ x y xs. insert-insert x y (sorted le xs)) (hlevel A_set)

keep-exchange :
    {A : Type 0} (p : A → Bool) (a b : A) (xs : List A)
    → Perm (keep p (a ∷ b ∷ xs)) (keep p (b ∷ a ∷ xs))
keep-exchange p a b xs = elim (Bool-cases (p a)) [
  | inl h ↦ elim (Bool-cases (p b)) [
    | inl k ↦ rw h (rw k (Perm.swap b a (keep p xs)))
    | inr k ↦ rw h (rw k Perm.rfl)
  ]
  | inr h ↦ rw h Perm.rfl
]

Permᴰ-keep :
    {A : Type 0} (p : A → Bool) {xs ys : List A} → Permᴰ xs ys → Perm (keep p xs) (keep p ys)
Permᴰ-keep p Permᴰ.nil = Perm.rfl
Permᴰ-keep p (Permᴰ.cons {a = a} {l₁ = xs} {l₂ = ys} e d) =
    let later = Permᴰ-keep p d in
    let same = subst (λ x. Perm (keep p (a ∷ xs)) (keep p (x ∷ ys))) e in
    elim (Bool-cases (p a)) [ inl h ↦ same (rw h (Perm.cons a later)) | inr h ↦ same (rw h later) ]
Permᴰ-keep p (Permᴰ.swap {a = a} {b = b} {a' = c} {l = xs} e g) =
    subst (λ x. Perm (keep p (a ∷ b ∷ xs)) (keep p (c ∷ x ∷ xs))) e
      (subst (λ x. Perm (keep p (a ∷ b ∷ xs)) (keep p (x ∷ a ∷ xs))) g (keep-exchange p a b xs))
Permᴰ-keep p (Permᴰ.trans d e) = Perm.trans (Permᴰ-keep p d) (Permᴰ-keep p e)

pub keep-Perm :
    {A : Type 0} (p : A → Bool) {xs ys : List A} → Perm xs ys → Perm (keep p xs) (keep p ys)
keep-Perm p h = ∥∥₁_elim h ∥∥₁_prop (Permᴰ-keep p)
