-- ===== src/Effective/Partitions.antt =====
-- The ranges of VTY lines on which the same facts apply (backend/app/effective_state/resolver.py,
-- `_vty_partitions`).
pub mod Cover
use security_configuration_a.Base.{
  ℕ, ◌+◌, ◌-◌, Bool, ◌&&◌, List, [], ◌∷◌, if◌then◌else◌, leb, keep, is_empty,
}
use security_configuration_a.Base.Sets.{sorted_set}
use security_configuration_a.Effective.Facts.{ClassifiedFact}

-- A fact with the bounds of its scope.
pub record Ranged : Type 0 where
  pub fact : ClassifiedFact
  pub first : ℕ
  pub last : ℕ

pub record Partition : Type 0 where
  pub first : ℕ
  pub last : ℕ
  pub applicable : List Ranged

abbrev pub points : List Ranged → List ℕ
points [] = []
points (item ∷ items) = item.first ∷ (item.last + 1) ∷ points items

abbrev pub applies : ℕ → ℕ → Ranged → Bool
applies start last item = leb item.first start && leb last item.last

-- `zip(boundaries, boundaries[1:])`
unfoldable pub cut : List Ranged → List ℕ → List Partition
cut items [] = []
cut items (start ∷ []) = []
cut items (start ∷ after_end ∷ rest) =
    let last = after_end - 1 in
    let applicable = keep (applies start last) items in
    let others = cut items (after_end ∷ rest) in
    if is_empty applicable
    then others
    else record { first = start; last = last; applicable = applicable } ∷ others

unfoldable pub vty_partitions : List Ranged → List Partition
unfolding cut
vty_partitions items = cut items (sorted_set (points items))
