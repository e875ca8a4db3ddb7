-- ===== src/Effective/Grouping.antt =====
-- Orders and groups of facts, and the members of a collection
-- (backend/app/effective_state/resolver.py).
use security_configuration_a.Base.{
  ℕ, Bool, true, false, ◌&&◌, List, [], ◌∷◌, ◌++◌, Text, if◌then◌else◌, leb, map, take, any,
}
use security_configuration_a.Base.Str.{text_eq, text_le}
use security_configuration_a.Base.Sets.{sorted_set}
use security_configuration_a.Base.Result.{Result, ok, ◌>>=◌}
use security_configuration_a.Effective.Values.{TypedValue, value_key}
use security_configuration_a.Effective.Scopes.{ScopeRef, vty_bounds}
use security_configuration_a.Effective.Policy.{assign, reset, remove}
use security_configuration_a.Effective.Drafts.{
  TraceEntry, collection_member_added, collection_member_removed, EffectiveStateDraft,
}
use security_configuration_a.Effective.Facts.{ClassifiedFact}
use security_configuration_a.Effective.Winner.{ordered_winner}
use security_configuration_a.Effective.Partitions.{Ranged}

-- `itertools.groupby`: runs of elements with the same key, each with its first element.
unfoldable pub join_group :
    {A : Type 0} → (A → A → Bool) → A → List (A × List A) → List (A × List A)
join_group same x [] = (x, []) ∷ []
join_group same x ((y, ys) ∷ groups) =
    if same x y then (x, y ∷ ys) ∷ groups else (x, []) ∷ (y, ys) ∷ groups

unfoldable pub group_by : {A : Type 0} → (A → A → Bool) → List A → List (A × List A)
unfolding join_group
group_by same [] = []
group_by same (x ∷ xs) = join_group same x (group_by same xs)

-- The order of pairs: by the first component, and then by the second.
abbrev pub then_by : Text → Text → Bool → Bool
then_by s t next = if text_eq s t then next else text_le s t

abbrev pub same_scope : ClassifiedFact → ClassifiedFact → Bool
same_scope f g = text_eq f.scope.type g.scope.type && text_eq f.scope.key g.scope.key

abbrev pub same_field : ClassifiedFact → ClassifiedFact → Bool
same_field f g = text_eq f.fact.field_id g.fact.field_id

abbrev pub same_value : ClassifiedFact → ClassifiedFact → Bool
same_value f g = text_eq (value_key f.value) (value_key g.value)

unfoldable pub scope_le : ClassifiedFact → ClassifiedFact → Bool
scope_le f g =
    then_by f.scope.type g.scope.type
      (then_by f.scope.key g.scope.key (leb f.fact.fact_id g.fact.fact_id))

unfoldable pub field_le : ClassifiedFact → ClassifiedFact → Bool
unfolding scope_le
field_le f g = then_by f.fact.field_id g.fact.field_id (scope_le f g)

unfoldable pub value_le : ClassifiedFact → ClassifiedFact → Bool
value_le f g =
    then_by f.scope.type g.scope.type
      (then_by f.scope.key g.scope.key (text_le (value_key f.value) (value_key g.value)))

unfoldable pub draft_le : EffectiveStateDraft → EffectiveStateDraft → Bool
draft_le a b =
    then_by a.field_id b.field_id
      (then_by a.scope.type b.scope.type (text_le a.scope.key b.scope.key))

abbrev pub fact_id : ClassifiedFact → ℕ
fact_id f = f.fact.fact_id

-- `tuple(sorted({…}, key=str))`
abbrev pub source_ids : List ClassifiedFact → List ℕ
source_ids facts = sorted_set (map fact_id facts)

-- `_bounded`
abbrev pub bounded : List TraceEntry → List TraceEntry
bounded trace = take 128 trace

unfoldable pub concat : {A : Type 0} → List (List A) → List A
concat [] = []
concat (xs ∷ xss) = xs ++ concat xss

-- What the loop over the members of a collection has gathered.
pub record Members : Type 0 where
  pub values : List TypedValue
  pub trace : List TraceEntry
  pub conflict : Bool

unfoldable pub member_settled : ClassifiedFact × Bool → Members → Members
member_settled (winner, true) m = record m { conflict = true }
member_settled (winner, false) m = elim winner.operation [
  | assign ↦ record m {
    values = m.values ++ winner.value ∷ [];
    trace = m.trace ++ collection_member_added winner.fact.fact_id ∷ [];
  }
  | remove ↦ record m { trace = m.trace ++ collection_member_removed winner.fact.fact_id ∷ [] }
  | reset ↦ record m { conflict = true }
]

unfoldable pub settle_members : List (ClassifiedFact × List ClassifiedFact) → Members → Members
unfolding member_settled
settle_members [] m = m
settle_members ((f, fs) ∷ groups) m = settle_members groups (member_settled (ordered_winner f fs) m)

-- `{item.scope.key: item.scope for item in items}`; the drafts are sorted in the end.
unfoldable pub scopes_of : List ClassifiedFact → List ScopeRef
scopes_of [] = []
scopes_of (f ∷ fs) =
    if any (λ (s : ClassifiedFact). text_eq f.scope.key s.scope.key) fs
    then scopes_of fs
    else f.scope ∷ scopes_of fs

unfoldable pub ranged : ClassifiedFact → Result Ranged
ranged f = do
  bounds ← vty_bounds f.scope
  ok (record { fact = f; first = bounds.0; last = bounds.1 })

unfoldable pub facts_of : List Ranged → List ClassifiedFact
facts_of items = map (λ (r : Ranged). r.fact) items
