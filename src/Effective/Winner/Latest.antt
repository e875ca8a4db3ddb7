-- ===== src/Effective/Winner/Latest.antt =====
-- The winner is latest, and what a conflict means.
use security_configuration_a.Base.{
  ◌≡◌, ◌≤◌, refl, sym, ap, subst, Bool, true, false, List, [], ◌∷◌, ◌∙◌, ◌==◌, all, keep, arith,
  Bool-cases, inl, inr, In, In-keep_intro, In-keep,
}
use security_configuration_a.Base.Str.{text_eq, text_eq_refl, eq_of_text_eq}
use security_configuration_a.Base.Sort.{
  sorted, In-sorted, In-sorted_back, IsSorted, sorted-IsSorted,
}
use security_configuration_a.Effective.Values.{value_key}
use security_configuration_a.Effective.Policy.{FactOperation, operation_eq, assign, reset, remove}
use security_configuration_a.Effective.Winner.{
  same_claim, all_agree, same_artifact, id_le, line_le, first_of, last_of, latest, ordered_winner,
}
use security_configuration_a.Effective.Facts.{ClassifiedFact}

line_le_total : (f g : ClassifiedFact) → line_le f g ≡ false → line_le g f ≡ true
unfolding line_le
line_le_total f g h = ground arith

line_le_trans :
    (f g h : ClassifiedFact) → line_le f g ≡ true → line_le g h ≡ true → line_le f h ≡ true
unfolding line_le
line_le_trans f g h p q = ground arith

line_le_line : (f g : ClassifiedFact) → line_le f g ≡ true → f.source_line ≤ g.source_line
unfolding line_le
line_le_line f g h = ground arith

operation_eq_refl : (o : FactOperation) → operation_eq o o ≡ true
unfolding operation_eq
operation_eq_refl assign = refl
operation_eq_refl reset = refl
operation_eq_refl remove = refl

eq_of_operation_eq : (o p : FactOperation) → operation_eq o p ≡ true → o ≡ p
unfolding operation_eq
eq_of_operation_eq o p h = ground arith

-- The same operation on the same value.
abbrev pub Agree : ClassifiedFact → ClassifiedFact → Type 0
Agree f g = (f.operation ≡ g.operation) × (value_key f.value ≡ value_key g.value)

Agree-same_claim : (f g : ClassifiedFact) → same_claim f g ≡ true → Agree f g
unfolding same_claim
Agree-same_claim f g h = ground (
  arith,
  eq_of_operation_eq f.operation g.operation,
  eq_of_text_eq (value_key f.value) (value_key g.value),
)

all-In :
    (p : ClassifiedFact → Bool) (f : ClassifiedFact) (fs : List ClassifiedFact)
    → all p fs ≡ true
    → In f fs
    → p f ≡ true
all-In p f [] h i = absurd i
all-In p f (g ∷ gs) h i = ground (arith, all-In p f gs, ap p)

Agree-all :
    (f g : ClassifiedFact) (fs : List ClassifiedFact)
    → all_agree fs ≡ true
    → In f fs
    → In g fs
    → Agree f g
Agree-all f g [] h i j = absurd i
Agree-all f g (e ∷ es) h i j =
    let (o, k) = from e es h f i in let (p, l) = from e es h g j in (sym o ∙ p, sym k ∙ l)
  where
    from :
        (e : ClassifiedFact) (es : List ClassifiedFact)
        → all (same_claim e) es ≡ true
        → (f : ClassifiedFact) → In f (e ∷ es)
        → Agree e f
    from e es h f (inl r) = rw r (refl, refl)
    from e es h f (inr i) = Agree-same_claim e f (all-In (same_claim e) f es h i)

last_of-most :
    (f : ClassifiedFact) (g : ClassifiedFact) (fs : List ClassifiedFact)
    → IsSorted line_le fs
    → In g fs
    → g.source_line ≤ (last_of f fs).source_line
last_of-most f g [] s i = absurd i
last_of-most f g (e ∷ []) s (inl r) = rw r (omega arith)
last_of-most f g (e ∷ []) s (inr i) = absurd i
last_of-most f g (e ∷ d ∷ ds) s (inl r) =
    let k = line_le_line e d s.0.0 in
    rw r (omega (arith, k, last_of-most e d (d ∷ ds) s.1 (inl refl)))
last_of-most f g (e ∷ d ∷ ds) s (inr i) = last_of-most e g (d ∷ ds) s.1 i

last_of-In :
    (f : ClassifiedFact) (e : ClassifiedFact) (fs : List ClassifiedFact)
    → In (last_of f (e ∷ fs)) (e ∷ fs)
last_of-In f e [] = inl refl
last_of-In f e (d ∷ ds) = inr (last_of-In e d ds)

Agree-same_claim_back : (f g : ClassifiedFact) → same_claim f g ≡ false → ¬ (Agree f g)
unfolding same_claim
Agree-same_claim_back f g h (o, k) =
    let p : operation_eq f.operation g.operation ≡ true =
      subst (λ x. operation_eq f.operation x ≡ true) o (operation_eq_refl f.operation) in
    let q : text_eq (value_key f.value) (value_key g.value) ≡ true =
      subst (λ x. text_eq (value_key f.value) x ≡ true) k (text_eq_refl (value_key f.value)) in
    ground arith

-- Two facts of the list make different claims.
abbrev pub Disagree : List ClassifiedFact → Type 0
Disagree fs = (f : ClassifiedFact) × (g : ClassifiedFact) × In f fs × In g fs × (¬ (Agree f g))

all-false :
    (e : ClassifiedFact) (es : List ClassifiedFact)
    → all (same_claim e) es ≡ false
    → (g : ClassifiedFact) × In g es × (same_claim e g ≡ false)
all-false e [] h = cc
all-false e (d ∷ ds) h = elim (Bool-cases (same_claim e d)) [
  | inl p ↦ let (g, i, q) = all-false e ds (ground arith) in (g, inr i, q)
  | inr p ↦ (d, inl refl, p)
]

Disagree-all : (fs : List ClassifiedFact) → all_agree fs ≡ false → Disagree fs
Disagree-all [] h = cc
Disagree-all (e ∷ es) h =
    let (g, i, q) = all-false e es h in (e, g, inl refl, inr i, Agree-same_claim_back e g q)

-- What it means that a fact holds among others: it is one of them; from one artifact, no other is on
-- a later line.
pub record IsWinner (f : ClassifiedFact) (fs : List ClassifiedFact) (w : ClassifiedFact)
    : Type 0 where
  pub among : In w (f ∷ fs)
  pub last :
      same_artifact f fs ≡ true
      → (g : ClassifiedFact) → In g (f ∷ fs)
      → g.source_line ≤ w.source_line

-- The facts that must agree: from one artifact, those on the winner's line; otherwise all.
abbrev pub Counts : ClassifiedFact → List ClassifiedFact → ClassifiedFact → ClassifiedFact → Type 0
Counts f fs w g = In g (f ∷ fs) × (same_artifact f fs ≡ true → g.source_line ≡ w.source_line)

module _ (f : ClassifiedFact) (fs : List ClassifiedFact) where
  abbrev ordered : List ClassifiedFact
  ordered = sorted line_le (f ∷ fs)

  abbrev w : ClassifiedFact
  w = (latest f fs).0

  is_one : In f ordered
  is_one = In-sorted line_le f (f ∷ fs) (inl refl)

  last_of-ordered : (xs : List ClassifiedFact) → In f xs → In (last_of f xs) xs
  last_of-ordered [] i = absurd i
  last_of-ordered (e ∷ es) i = last_of-In f e es

  w-In : In w (f ∷ fs)
  unfolding latest
  w-In = In-sorted_back line_le w (f ∷ fs) (last_of-ordered ordered is_one)

  w-last : (g : ClassifiedFact) → In g (f ∷ fs) → g.source_line ≤ w.source_line
  unfolding latest
  w-last g i =
      last_of-most f g ordered (sorted-IsSorted line_le line_le_total line_le_trans (f ∷ fs))
        (In-sorted line_le g (f ∷ fs) i)

  w-settled :
      (latest f fs).1 ≡ false
      → (g h : ClassifiedFact) → In g (f ∷ fs) × (g.source_line ≡ w.source_line)
      → In h (f ∷ fs) × (h.source_line ≡ w.source_line)
      → Agree g h
  unfolding latest
  w-settled e g h (i, p) (j, q) =
      Agree-all g h (keep (λ x. x.source_line == w.source_line) ordered) (ground arith)
        (In-keep_intro _ g ordered (In-sorted line_le g (f ∷ fs) i) (ground arith))
        (In-keep_intro _ h ordered (In-sorted line_le h (f ∷ fs) j) (ground arith))

  w-disputed :
      (latest f fs).1 ≡ true
      → (g : ClassifiedFact) × (h : ClassifiedFact) × (In g (f ∷ fs)
          × (g.source_line ≡ w.source_line))
        × (In h (f ∷ fs) × (h.source_line ≡ w.source_line))
        × (¬ (Agree g h))
  unfolding latest
  w-disputed e =
      let (g, h, i, j, n) =
        Disagree-all (keep (λ x. x.source_line == w.source_line) ordered) (ground arith) in
      let (i, p) = In-keep _ g ordered i in
      let (j, q) = In-keep _ h ordered j in
      (
        g,
        h,
        (In-sorted_back line_le g (f ∷ fs) i, ground arith),
        (In-sorted_back line_le h (f ∷ fs) j, ground arith),
        n,
      )

  first_of-In : (xs : List ClassifiedFact) → In f xs → In (first_of f xs) xs
  first_of-In [] i = absurd i
  first_of-In (e ∷ es) i = inl refl

-- Of facts on one scope, the winner is one of them, and if all come from one artifact none is on a later line.
-- If no conflict is reported, the facts that count make the winner's claim, the same operation on
-- the same value; if one is reported, two facts that count make different claims. Those that count
-- are the facts on the winner's line, or all when they come from several artifacts.
pub ordered_winner-IsWinner :
    (f : ClassifiedFact) (fs : List ClassifiedFact)
    → IsWinner f fs (ordered_winner f fs).0
      × ((ordered_winner f fs).1 ≡ false
          → (g : ClassifiedFact) → Counts f fs (ordered_winner f fs).0 g
          → Agree (ordered_winner f fs).0 g)
      × ((ordered_winner f fs).1 ≡ true
          → (g : ClassifiedFact) × (h : ClassifiedFact) × Counts f fs (ordered_winner f fs).0 g
            × Counts f fs (ordered_winner f fs).0 h
            × (¬ (Agree g h)))
unfolding ordered_winner
ordered_winner-IsWinner f fs = elim (Bool-cases (same_artifact f fs)) [
  | inl e ↦ rw e (
    record { among = w-In f fs; last = λ _. w-last f fs },
    (λ c g k. w-settled f fs c (w f fs) g (w-In f fs, refl) (k.0, k.1 refl)),
    (λ c. let (g, h, i, j, n) = w-disputed f fs c in (g, h, (i.0, λ _. i.1), (j.0, λ _. j.1), n)),
  )
  | inr e ↦
      let least = sorted id_le (f ∷ fs) in
      let i =
        In-sorted_back id_le (first_of f least) (f ∷ fs)
          (first_of-In f fs least (In-sorted id_le f (f ∷ fs) (inl refl))) in
      rw e (
        record { among = i; last = λ c. cc },
        (λ c g k. Agree-all (first_of f least) g (f ∷ fs) (ground arith) i k.0),
        (λ c.
            let (g, h, i, j, n) = Disagree-all (f ∷ fs) (ground arith) in
            (g, h, (i, λ c. cc), (j, λ c. cc), n)),
      )
]
