-- ===== src/Base/Decimal.antt =====
-- `str` and `int` of natural numbers, in ASCII digits.
use Prim.Native.Nat.{ℕ, zero, suc, ◌+◌, ◌-◌, ◌*◌, ◌/◌, ◌%◌, ◌≤◌, ◌<◌}
use mathlib.Core.Path.{◌≡◌, ◌∙◌, ap}
use mathlib.Core.Logic.{inl, inr}
use mathlib.Core.Bool.{Bool, true, false, ◌&&◌}
use mathlib.Core.Option.{Option, none, some}
use mathlib.Core.List.{[], ◌∷◌, ◌++◌}
use native.Mathlib.Omega.{arith}
use security_configuration_a.Base.Tests.{ltb, leb, if◌then◌else◌, Bool-cases}
use security_configuration_a.Base.Lists.{All, All-append, length, length-append}
use security_configuration_a.Base.Str.{Text}

-- The fuel is never used up: it exceeds the number.
abbrev show_step : Bool → ℕ → (Unit {0} → Text) → Text
show_step true n rest = (48 + n) ∷ []
show_step false n rest = rest tt ++ (48 + n % 10) ∷ []

show_from : ℕ → ℕ → Text
show_from zero n = []
show_from (suc fuel) n = show_step (ltb n 10) n (λ _. show_from fuel (n / 10))

-- `str(n)`
unfoldable pub show : ℕ → Text
unfolding show_from
show n = show_from (suc n) n

abbrev pub is_digit : ℕ → Bool
is_digit c = leb 48 c && leb c 57

unfoldable pub read_digits : ℕ → Text → Option ℕ
read_digits acc [] = some acc
read_digits acc (c ∷ s) =
    let rest = read_digits (acc * 10 + (c - 48)) s in if is_digit c then rest else none

-- `int(s)` of a text of one digit or more
unfoldable pub read_number : Text → Option ℕ
unfolding read_digits
read_number [] = none
read_number (c ∷ s) = read_digits 0 (c ∷ s)

abbrev IsDigits : Text → Type 0
IsDigits s = All (λ c. (48 ≤ c) × (c ≤ 57)) s

show_from-IsDigits : (fuel n : ℕ) → IsDigits (show_from fuel n)
unfolding show_from
show_from-IsDigits zero n = tt
show_from-IsDigits (suc fuel) n = elim (Bool-cases (ltb n 10)) [
  | inl e ↦ rw e ((omega arith, ground arith), tt)
  | inr e ↦ rw e (
      All-append _ (show_from fuel (n / 10)) ((48 + n % 10) ∷ []) (show_from-IsDigits fuel (n / 10))
        ((omega arith, omega arith), tt))
]

pub show-IsDigits : (n : ℕ) → IsDigits (show n)
unfolding show
show-IsDigits n = show_from-IsDigits (suc n) n

read_digits-last :
    (acc m d : ℕ) (s : Text)
    → d ≤ 9
    → read_digits acc s ≡ some m
    → read_digits acc (s ++ (48 + d) ∷ []) ≡ some (m * 10 + d)
unfolding read_digits
read_digits-last acc m d [] l h = ground arith
read_digits-last acc m d (c ∷ s) l h =
    ground (arith, read_digits-last (acc * 10 + (c - 48)) m d s l)

read_digits-show_from : (fuel n : ℕ) → n < fuel → read_digits 0 (show_from fuel n) ≡ some n
unfolding read_digits show_from
read_digits-show_from zero n h = absurd (omega arith)
read_digits-show_from (suc fuel) n h = elim (Bool-cases (ltb n 10)) [
  | inl e ↦ rw e (ground arith)
  | inr e ↦ rw e (
      let k : n < 10 → ⊥ = λ l. ground arith in
      read_digits-last 0 (n / 10) (n % 10) (show_from fuel (n / 10)) (omega arith)
        (read_digits-show_from fuel (n / 10) (omega (arith, k)))
      ∙ ap some (omega arith))
]

length-show_from : (fuel n : ℕ) → 1 ≤ length (show_from (suc fuel) n)
unfolding show_from
length-show_from fuel n = elim (Bool-cases (ltb n 10)) [
  | inl e ↦ rw e (omega arith)
  | inr e ↦ rw e (omega (arith, length-append (show_from fuel (n / 10)) ((48 + n % 10) ∷ [])))
]

pub read_number-show : (n : ℕ) → read_number (show n) ≡ some n
unfolding read_number show
read_number-show n =
    whole (show n) (length-show_from n n) (read_digits-show_from (suc n) n (omega arith))
  where
    whole : (s : Text) → 1 ≤ length s → read_digits 0 s ≡ some n → read_number s ≡ some n
    whole [] l h = absurd (omega arith)
    whole (c ∷ s) l h = h
