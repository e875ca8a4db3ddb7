-- ===== src/Effective/Winner.antt =====
-- Which of several facts on one scope holds (backend/app/effective_state/resolver.py,
-- `_ordered_winner`). A UUID is its integer, whose order is that of its text.
pub mod Latest
use security_configuration_a.Base.{
  ℕ, zero, suc, ◌+◌, ◌≡◌, ◌≤◌, ◌<◌, refl, sym, ap, subst, Bool, true, false, not, ◌&&◌, ◌||◌,
  Option, none, some, List, [], ◌∷◌, Text, ◌∙◌, if◌then◌else◌, ◌==◌, leb, ltb, all, keep, arith,
  Bool-cases, inl, inr, In, All, In-All, All-In, In-keep_intro, In-keep, ◌⊎◌,
}
use security_configuration_a.Base.Str.{text_eq, text_eq_refl, eq_of_text_eq}
use security_configuration_a.Base.Sort.{
  sorted, In-sorted, In-sorted_back, IsSorted, sorted-IsSorted,
}
use security_configuration_a.Effective.Values.{value_key}
use security_configuration_a.Effective.Policy.{FactOperation, operation_eq, assign, reset, remove}
use security_configuration_a.Effective.Facts.{SecurityFact, ClassifiedFact}

-- The same pair of operation and value key.
unfoldable pub same_claim : ClassifiedFact → ClassifiedFact → Bool
same_claim f g =
    operation_eq f.operation g.operation && text_eq (value_key f.value) (value_key g.value)

-- `len({…}) <= 1`
abbrev all_agree : List ClassifiedFact → Bool
all_agree [] = true
all_agree (f ∷ fs) = all (same_claim f) fs

abbrev pub same_artifact : ClassifiedFact → List ClassifiedFact → Bool
same_artifact f fs = all (λ g. text_eq f.artifact_id g.artifact_id) fs

unfoldable pub id_le : ClassifiedFact → ClassifiedFact → Bool
id_le f g = leb f.fact.fact_id g.fact.fact_id

-- The order by line and then by identifier.
unfoldable pub line_le : ClassifiedFact → ClassifiedFact → Bool
line_le f g =
    ltb f.source_line g.source_line
    || (f.source_line == g.source_line && leb f.fact.fact_id g.fact.fact_id)

abbrev first_of : ClassifiedFact → List ClassifiedFact → ClassifiedFact
first_of f [] = f
first_of f (g ∷ gs) = g

abbrev last_of : ClassifiedFact → List ClassifiedFact → ClassifiedFact
last_of f [] = f
last_of f (g ∷ gs) = last_of g gs

-- Of facts from one artifact.
latest : ClassifiedFact → List ClassifiedFact → ClassifiedFact × Bool
unfolding same_claim line_le
latest f fs =
    let ordered = sorted line_le (f ∷ fs) in
    let winner = last_of f ordered in
    (winner, not (all_agree (keep (λ g. g.source_line == winner.source_line) ordered)))

-- The winner among `f` and the others, and whether there is a conflict.
unfoldable pub ordered_winner : ClassifiedFact → List ClassifiedFact → ClassifiedFact × Bool
unfolding latest id_le same_claim
ordered_winner f fs =
    if same_artifact f fs
    then latest f fs
    else (first_of f (sorted id_le (f ∷ fs)), not (all_agree (f ∷ fs)))
