-- ===== src/Base/Yields.antt =====
-- What a chain of statements gives, if it gives anything.
use mathlib.Core.Path.{◌≡◌, refl}
use security_configuration_a.Base.Result.{Result, ok, raised, ◌>>=◌}

-- What is returned, if anything is, satisfies the predicate.
unfoldable pub Yields : {A : Type 0} → (A → Type 0) → Result A → Type 0
Yields P (ok a) = P a
Yields P (raised message) = Unit {0}

pub Yields->>= :
    {A B : Type 0} (P : B → Type 0) (first : Result A) (next : A → Result B)
    → ((a : A) → Yields P (next a))
    → Yields P (first >>= next)
unfolding Yields
Yields->>= P (ok a) next each = each a
Yields->>= P (raised m) next each = tt

pub Yields-ok : {A : Type 0} (P : A → Type 0) (a : A) → P a → Yields P (ok a)
unfolding Yields
Yields-ok P a h = h

pub Yields-from :
    {A : Type 0} (P : A → Type 0) (r : Result A) → ((a : A) → r ≡ ok a → P a) → Yields P r
unfolding Yields
Yields-from P (ok a) each = each a refl
Yields-from P (raised m) each = tt

pub Yields-map :
    {A B : Type 0} (P : A → Type 0) (Q : B → Type 0) (r : Result A) (f : A → B)
    → Yields P r
    → ((a : A) → P a → Q (f a))
    → Yields Q (r >>= λ a. ok (f a))
unfolding Yields
Yields-map P Q (ok a) f h each = each a h
Yields-map P Q (raised m) f h each = tt

pub Yields-then :
    {A B : Type 0} (P : B → Type 0) (first : Result A) (next : A → Result B)
    → ((a : A) → first ≡ ok a → Yields P (next a))
    → Yields P (first >>= next)
unfolding Yields
Yields-then P (ok a) next each = each a refl
Yields-then P (raised m) next each = tt
