-- ===== src/Effective/Dependencies.antt =====
-- Facts whose dependencies are missing or cyclic (backend/app/effective_state/resolver.py,
-- `_blocked_dependency_ids`). A set is a list without repetitions; the order in which Python walks a set is
-- not fixed, and here is that of the list.
pub mod Cycles
use security_configuration_a.Base.{
  ℕ, zero, suc, ◌+◌, ◌*◌, ◌≡◌, ◌≤◌, ◌<◌, refl, Bool, true, false, not, ◌&&◌, ◌||◌, Option, none,
  some, List, [], ◌∷◌, ◌++◌, if◌then◌else◌, ◌==◌, leb, any, map, length,
}
use security_configuration_a.Base.Sets.{member, distinct}
use security_configuration_a.Effective.Facts.{SecurityFact}

-- The dependencies that can be read.
abbrev pub readable : List (Option ℕ) → List ℕ
readable [] = []
readable (none ∷ ds) = readable ds
readable (some d ∷ ds) = d ∷ readable ds

abbrev pub has_unreadable : List (Option ℕ) → Bool
has_unreadable [] = false
has_unreadable (none ∷ ds) = true
has_unreadable (some d ∷ ds) = has_unreadable ds

abbrev pub Graph : Type 0
Graph = List (ℕ × List ℕ)

-- `graph.get(current)`; the last fact under an identifier counts
unfoldable pub edges : ℕ → Graph → Option (List ℕ)
edges x [] = none
edges x ((y, ds) ∷ graph) = elim (edges x graph) [
  | some es ↦ some es
  | none ↦ if x == y then some ds else none
]

abbrev pub in_graph : ℕ → Graph → Bool
in_graph x [] = false
in_graph x ((y, ds) ∷ graph) = x == y || in_graph x graph

unfoldable pub graph_of : List SecurityFact → Graph
unfolding distinct
graph_of [] = []
graph_of (fact ∷ facts) = (fact.fact_id, distinct (readable fact.dependencies)) ∷ graph_of facts

-- A dependency of the fact itself that is no UUID, or no fact.
unfoldable pub is_missing : List ℕ → SecurityFact → Bool
is_missing ids fact =
    has_unreadable fact.dependencies || any (λ d. not (member d ids)) (readable fact.dependencies)

-- The loop over the dependencies of a node: whether the root is among them, and the stack.
unfoldable pub push_dependencies : ℕ → Graph → List ℕ → List ℕ → Bool × List ℕ
push_dependencies root graph [] stack = (false, stack)
push_dependencies root graph (d ∷ ds) stack =
    if d == root
    then (true, (push_dependencies root graph ds stack).1)
    else if in_graph d graph
    then push_dependencies root graph ds (d ∷ stack)
    else push_dependencies root graph ds stack

abbrev pub dependencies_of : Option (List ℕ) → List ℕ
dependencies_of none = []
dependencies_of (some ds) = ds

-- The loop on the stack of one root; a turn adds a node to `seen`, and 128 are the limit.
unfoldable pub walk : ℕ → Graph → (fuel : ℕ) → List ℕ → List ℕ → Bool
unfolding edges push_dependencies
walk root graph fuel seen [] = false
walk root graph zero seen (current ∷ stack) = true
walk root graph (suc fuel) seen (current ∷ stack) =
    let (hit, next) = push_dependencies root graph (dependencies_of (edges current graph)) stack in
    let rest = walk root graph fuel (current ∷ seen) next in
    if member current seen || leb 128 (length seen) then true else hit || rest

-- `for root in graph`
roots_walked : Graph → Graph → List ℕ
unfolding walk
roots_walked graph [] = []
roots_walked graph ((root, ds) ∷ rest) =
    if walk root graph 129 [] (root ∷ [])
    then root ∷ roots_walked graph rest
    else roots_walked graph rest

missing_ids : List ℕ → List SecurityFact → List ℕ
unfolding is_missing
missing_ids ids [] = []
missing_ids ids (fact ∷ facts) =
    if is_missing ids fact then fact.fact_id ∷ missing_ids ids facts else missing_ids ids facts

abbrev pub fact_ids : List SecurityFact → List ℕ
fact_ids facts = map (λ (f : SecurityFact). f.fact_id) facts

unfoldable pub blocked_dependency_ids : List SecurityFact → List ℕ
unfolding roots_walked missing_ids graph_of
blocked_dependency_ids facts =
    missing_ids (fact_ids facts) facts ++ roots_walked (graph_of facts) (graph_of facts)
