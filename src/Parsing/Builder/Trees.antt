-- ===== src/Parsing/Builder/Trees.antt =====
-- What the structural representation promises, and that what is built keeps it.
use security_configuration_a.Base.{
  ℕ, suc, ◌+◌, ◌≡◌, ◌≤◌, ◌<◌, refl, subst, ◌⊎◌, inl, inr, Bool, none, some, List, [], ◌∷◌, ◌++◌,
  arith, Text, All, length, map, ap,
}
use security_configuration_a.Parsing.Model.{ConfigNode, StructuralIr, ArtifactProvenance}
use security_configuration_a.Parsing.Builder.{
  NodeDraft, IrBuilder, NodeIdentity, node_of_draft, build,
}
use security_configuration_a.Parsing.Builder.Bounds.{Built, FitsDepth, Built-IsBounded}
use security_configuration_a.Parsing.Builder.Links.{Has, IsLinked}
use security_configuration_a.Parsing.Builder.Forest.{Built-IsForest}
use security_configuration_a.Parsing.Builder.Spans.{InOrder}

abbrev pub LinesInOrder : ℕ → ℕ → List ConfigNode → Type 0
LinesInOrder low high [] = low ≤ high
LinesInOrder low high (n ∷ ns) =
    (low ≤ n.source_start)
    × (n.source_start ≤ n.source_end)
    × LinesInOrder (n.source_end + 1) high ns

abbrev pub Includes : ConfigNode → List ConfigNode → Type 0
Includes p [] = ⊥
Includes p (n ∷ ns) = ((n.node_id ≡ p.node_id) × (n.order ≡ p.order)) ⊎ Includes p ns

-- A root, or a node under an earlier one of the list, which is its parent and the last step of its
-- path.
abbrev pub IsPlaced : List ConfigNode → ConfigNode → Type 0
IsPlaced nodes n =
    ((n.parent_id ≡ none) × (n.depth ≡ 0))
    ⊎ ((p : ConfigNode) × Includes p nodes
        × (p.order < n.order)
        × (n.parent_id ≡ some p.node_id)
        × (n.depth ≡ p.depth + 1)
        × (n.context_path ≡ p.context_path ++ p.node_id ∷ []))

pub record IsTree (max_depth max_nodes high : ℕ) (ir : StructuralIr) : Type 0 where
  pub capped : length ir.nodes ≤ max_nodes
  pub depths : All (λ n. (n.depth ≤ max_depth) × (length n.context_path ≡ n.depth)) ir.nodes
  pub lines : LinesInOrder 1 high ir.nodes
  pub placed : All (IsPlaced ir.nodes) ir.nodes

module _ (source : ArtifactProvenance) where
  abbrev nodes_of : List NodeDraft → List ConfigNode
  nodes_of ds = map (node_of_draft source) ds

  length-nodes_of : (ds : List NodeDraft) → length (nodes_of ds) ≡ length ds
  length-nodes_of [] = refl
  length-nodes_of (d ∷ ds) = ap suc (length-nodes_of ds)

  depths-nodes_of :
      (m : ℕ) (ds : List NodeDraft)
      → All (FitsDepth m) ds
      → All (λ n. (n.depth ≤ m) × (length n.context_path ≡ n.depth)) (nodes_of ds)
  unfolding node_of_draft
  depths-nodes_of m [] h = tt
  depths-nodes_of m (d ∷ ds) h = (h.0, depths-nodes_of m ds h.1)

  lines-nodes_of :
      (low high : ℕ) (ds : List NodeDraft)
      → InOrder low high ds
      → LinesInOrder low high (nodes_of ds)
  unfolding node_of_draft
  lines-nodes_of low high [] h = h
  lines-nodes_of low high (d ∷ ds) h = (h.0, h.1, lines-nodes_of (d.source_end + 1) high ds h.2)

  Includes-nodes_of :
      (p : NodeDraft) (ds : List NodeDraft)
      → Has p ds
      → Includes (node_of_draft source p) (nodes_of ds)
  unfolding node_of_draft
  Includes-nodes_of p [] h = absurd h
  Includes-nodes_of p (d ∷ ds) (inl s) = inl (s.1, s.0)
  Includes-nodes_of p (d ∷ ds) (inr h) = inr (Includes-nodes_of p ds h)

  IsPlaced-node_of_draft :
      (ds : List NodeDraft) (d : NodeDraft)
      → IsLinked ds d
      → IsPlaced (nodes_of ds) (node_of_draft source d)
  unfolding node_of_draft
  IsPlaced-node_of_draft ds d (inl r) = inl (r.0, r.1)
  IsPlaced-node_of_draft ds d (inr (p, i, u)) =
      inr (node_of_draft source p, Includes-nodes_of p ds i, u.0, u.1, u.2, u.3)

  placed-nodes_of :
      (es ds : List NodeDraft) → All (IsLinked es) ds → All (IsPlaced (nodes_of es)) (nodes_of ds)
  placed-nodes_of es [] h = tt
  placed-nodes_of es (d ∷ ds) h = (IsPlaced-node_of_draft es d h.0, placed-nodes_of es ds h.1)

module _ (identify : NodeIdentity → Text) where
  pub build-IsTree :
      (truncated : Bool) (b : IrBuilder)
      → Built identify b
      → (max_depth max_nodes high : ℕ) → (b.max_depth ≡ max_depth) × (b.max_nodes ≡ max_nodes)
      → InOrder 1 high b.nodes
      → IsTree max_depth max_nodes high (build truncated b)
  unfolding build
  build-IsTree truncated b built max_depth max_nodes high limits lines =
      let h = Built-IsBounded identify b built in
      let f = Built-IsForest identify b built in
      record {
        capped = omega (arith, length-nodes_of b.source b.nodes, h.capped, limits.1);
        depths =
            depths-nodes_of b.source max_depth b.nodes
              (subst (λ m. All (FitsDepth m) b.nodes) limits.0 h.fits);
        lines = lines-nodes_of b.source 1 high b.nodes lines;
        placed = placed-nodes_of b.source b.nodes b.nodes f.linked;
      }
