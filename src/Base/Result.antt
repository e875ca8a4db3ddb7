-- ===== src/Base/Result.antt =====
-- Results of code that raises: an exception is its message.
use mathlib.Core.Path.{◌≡◌, refl, ap}
use mathlib.Core.Bool.{Bool, true, false}
use mathlib.Core.List.{List, [], ◌∷◌}
use mathlib.Core.Option.{Option, none, some}
use security_configuration_a.Base.Str.{Text, codes}
use Prim.Native.String.{String}
use mathlib.Core.Logic.{inl, inr}
use mathlib.Core.Path.{subst, sym}
use security_configuration_a.Base.Lists.{All, In}

-- What a call comes to: an exception with its message, or a value.
pub data Result {ℓ} (A : Type ℓ) : Type ℓ where
  raised : (message : Text) → Result A
  ok : (value : A) → Result A

-- The statements after one that raises are not run.
infixl 4 ◌>>=◌
abbrev pub ◌>>=◌ {ℓ κ} :
    {A : Type ℓ} {B : Type κ} (first : Result A) (next : A → Result B) → Result B
raised message >>= next = raised message
ok value >>= next = next value

infixl 4 ◌>>◌
abbrev pub ◌>>◌ {ℓ} : {B : Type ℓ} (first : Result (Unit {0})) (rest : Result B) → Result B
first >> rest = first >>= λ done. rest

-- `if test: raise …(message)`
abbrev pub refuse_if : Bool → String → Result (Unit {0})
refuse_if true message = raised (codes message)
refuse_if false message = ok tt

abbrev pub or_refuse {ℓ} : {A : Type ℓ} → Option A → String → Result A
or_refuse none message = raised (codes message)
or_refuse (some a) message = ok a

module _ {A B : Type 0} where
  -- The first exception stops the loop.
  abbrev pub map_result : (A → Result B) → List A → Result (List B)
  map_result f [] = ok []
  map_result f (x ∷ xs) = f x >>= λ y. map_result f xs >>= λ ys. ok (y ∷ ys)

-- A chain that gives a value has run both its parts.
pub >>=-eq-ok {ℓ κ} :
    {A : Type ℓ} {B : Type κ} (first : Result A) (next : A → Result B) {b : B}
    → (first >>= next) ≡ ok b
    → (a : A) × (first ≡ ok a) × (next a ≡ ok b)
>>=-eq-ok (raised message) next e = cc
>>=-eq-ok (ok value) next e = (value, refl, e)

pub ok-eq {ℓ} : {A : Type ℓ} {a b : A} → ok a ≡ ok b → a ≡ b
ok-eq {a} e = ap (λ r. elim r [ ok x ↦ x | raised m ↦ a ]) e

pub raised-ne-ok {ℓ κ} :
    {A : Type ℓ} {C : Type κ} {message : Text} {a : A} → raised message ≡ ok a → C
raised-ne-ok e = absurd cc

-- Every result of a loop satisfies what each turn's result does.
pub All-map_result :
    {A B : Type 0} (f : A → Result B) (P : B → Type 0) (xs : List A) {ys : List B}
    → ((x : A) → In x xs → (y : B) → f x ≡ ok y → P y)
    → map_result f xs ≡ ok ys
    → All P ys
All-map_result f P [] {ys} each h = subst (All P) (ok-eq h) tt
All-map_result f P (x ∷ xs) {ys} each h =
    let (y, e, h1) = >>=-eq-ok (f x) (λ y. map_result f xs >>= λ ys. ok (y ∷ ys)) h in
    let (rest, e2, h2) = >>=-eq-ok (map_result f xs) (λ ys. ok (y ∷ ys)) h1 in
    subst (All P) (ok-eq h2)
      (each x (inl refl) y e, All-map_result f P xs (λ z i. each z (inr i)) e2)

-- Each turn of a loop that ends leaves its result.
pub map_result-In :
    {A B : Type 0} (f : A → Result B) (xs : List A) {ys : List B} (x : A)
    → map_result f xs ≡ ok ys
    → In x xs
    → (y : B) × In y ys × (f x ≡ ok y)
map_result-In f [] x h i = absurd i
map_result-In f (z ∷ xs) x h i =
    let (y, e, h1) = >>=-eq-ok (f z) (λ y. map_result f xs >>= λ ys. ok (y ∷ ys)) h in
    let (rest, e2, h2) = >>=-eq-ok (map_result f xs) (λ ys. ok (y ∷ ys)) h1 in
    elim i [
      | inl same ↦ (y, subst (In y) (ok-eq h2) (inl refl), subst (λ z. f z ≡ ok y) (sym same) e)
      | inr later ↦
          let (w, j, e3) = map_result-In f xs x e2 later in (w, subst (In w) (ok-eq h2) (inr j), e3)
    ]

pub or_refuse-eq :
    {A : Type 0} (o : Option A) (m : String) {a : A} → or_refuse o m ≡ ok a → o ≡ some a
or_refuse-eq none m h = raised-ne-ok h
or_refuse-eq (some a) m h = ap some (ok-eq h)

pub refuse_if-false : (t : Bool) (m : String) {u : Unit {0}} → refuse_if t m ≡ ok u → t ≡ false
refuse_if-false true m h = raised-ne-ok h
refuse_if-false false m h = refl
