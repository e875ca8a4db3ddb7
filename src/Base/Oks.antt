-- ===== src/Base/Oks.antt =====
-- Chains of calls that all give a value.
use mathlib.Core.Path.{◌≡◌, refl}
use mathlib.Core.Bool.{Bool, true, false}
use mathlib.Core.Option.{Option, none, some}
use mathlib.Core.List.{List, [], ◌∷◌}
use mathlib.Core.Logic.{inl, inr}
use Prim.Native.String.{String}
use security_configuration_a.Base.Lists.{In}
use security_configuration_a.Base.Result.{
  Result, ok, raised, ◌>>=◌, refuse_if, or_refuse, map_result, raised-ne-ok,
}

-- The call gives a value.
unfoldable pub IsOk : {A : Type 0} → Result A → Type 0
IsOk {A} r = (a : A) × (r ≡ ok a)

pub IsOk->>= :
    {A B : Type 0} (first : Result A) (next : A → Result B)
    → IsOk first
    → ((a : A) → IsOk (next a))
    → IsOk (first >>= next)
unfolding IsOk
IsOk->>= (ok a) next h k = k a
IsOk->>= (raised m) next (a, e) k = raised-ne-ok e

pub IsOk-ok : {A : Type 0} (a : A) → IsOk (ok a)
unfolding IsOk
IsOk-ok a = (a, refl)

pub IsOk-or_refuse :
    {A : Type 0} (o : Option A) (m : String) (a : A) → o ≡ some a → IsOk (or_refuse o m)
unfolding IsOk
IsOk-or_refuse none m a e = absurd cc
IsOk-or_refuse (some b) m a e = (b, refl)

pub IsOk-refuse_if : (t : Bool) (m : String) → t ≡ false → IsOk (refuse_if t m)
unfolding IsOk
IsOk-refuse_if true m e = absurd cc
IsOk-refuse_if false m e = (tt, refl)

pub IsOk-then :
    {A B : Type 0} (first : Result A) (next : A → Result B)
    → IsOk first
    → ((a : A) → first ≡ ok a → IsOk (next a))
    → IsOk (first >>= next)
unfolding IsOk
IsOk-then (ok a) next h k = k a refl
IsOk-then (raised m) next (a, e) k = raised-ne-ok e

pub IsOk-map_result :
    {A B : Type 0} (f : A → Result B) (xs : List A)
    → ((x : A) → In x xs → IsOk (f x))
    → IsOk (map_result f xs)
unfolding IsOk
IsOk-map_result f [] each = ([], refl)
IsOk-map_result f (x ∷ xs) each =
    let (y, e) = each x (inl refl) in
    let (ys, e2) = IsOk-map_result f xs (λ z i. each z (inr i)) in (y ∷ ys, rw e (rw e2 refl))
