-- ===== src/Parsing/Builder/Forest.antt =====
-- The nodes that are built are a forest.
use security_configuration_a.Base.{
  ℕ, ◌≡◌, ◌≤◌, refl, ap, Option, none, some, [], ◌∷◌, ◌++◌, arith, Text, All, Bool-cases, inl, inr,
  length, length-append,
}
use security_configuration_a.Parsing.Builder.{
  NodeDraft, IrBuilder, NodeIdentity, NodeArgs, new_builder, node_limit_reached, add_diagnostic,
  reset_context, head, Placement, place_context, place_depth, parent_id_of, depth_under, path_under,
  make_draft, attach, add_node,
}
use security_configuration_a.Parsing.Builder.Placing.{All-place}
use security_configuration_a.Parsing.Builder.Bounds.{
  Built, made, noticed, reset, grown, IsNumbered, IsBounded, Built-IsBounded, All-head, All-push,
  IsNumbered-append,
}
use security_configuration_a.Parsing.Builder.Links.{
  Has, IsForest, FitsUnder, HasTop, Has-last, stacked_longer, link-IsLinked, link-accounted,
  link-stacked,
}

module _ (identify : NodeIdentity → Text) where
  module _ (args : NodeArgs) (b : IrBuilder) (bounded : IsBounded b) (h : IsForest b) where
    abbrev placed : Placement
    placed = place_depth b.max_depth args (place_context args b.stack b.diagnostics)

    abbrev draft : NodeDraft
    draft = make_draft identify args placed b

    kept : All (λ p. Has p b.nodes × (p.order ≤ length b.nodes)) placed.stack
    kept = All-place _ b.max_depth args b.stack b.diagnostics h.stacked

    fits_under :
        (o : Option NodeDraft) → head placed.stack ≡ o → FitsUnder o draft × HasTop o b.nodes
    unfolding make_draft
    fits_under none e = ((ap parent_id_of e, ap depth_under e, ap path_under e), tt)
    fits_under (some p) e =
        let k = All-head _ placed.stack p kept e in
        ((omega (arith, k), ap parent_id_of e, ap depth_under e, ap path_under e), k.0)

    IsNumbered-longer : IsNumbered 1 (b.nodes ++ draft ∷ [])
    unfolding make_draft
    IsNumbered-longer = IsNumbered-append 1 b.nodes draft bounded.numbered refl

    attach-IsForest : IsForest (attach identify args placed b)
    unfolding attach
    attach-IsForest =
        let c : IrBuilder = record b { diagnostics = placed.diagnostics } in
        let hc : IsForest c = record {
          linked = h.linked;
          stacked = h.stacked;
          accounted = h.accounted;
        } in
        let (fits, top) = fits_under (head placed.stack) refl in
        record {
          linked = link-IsLinked draft c IsNumbered-longer refl hc (head placed.stack) top fits;
          stacked = link-stacked draft c IsNumbered-longer refl hc (head placed.stack) _ (
              All-push _ args.can_parent draft placed.stack
                (Has-last draft b.nodes, omega (arith, length-append {0} b.nodes (draft ∷ [])))
                (stacked_longer draft c IsNumbered-longer refl hc placed.stack kept));
          accounted = link-accounted draft c IsNumbered-longer refl hc (head placed.stack) top;
        }

  add_node-IsForest :
      (args : NodeArgs) (b : IrBuilder)
      → IsBounded b
      → IsForest b
      → IsForest (add_node identify args b)
  unfolding add_node
  add_node-IsForest args b bounded h = elim (Bool-cases (node_limit_reached b)) [
    | inl e ↦ rw e h
    | inr e ↦ rw e (attach-IsForest args b bounded h)
  ]

  noticed-IsForest :
      (code message : Text) (source_start source_end : Option ℕ) (b : IrBuilder)
      → IsForest b
      → IsForest (add_diagnostic code message source_start source_end b)
  unfolding add_diagnostic
  noticed-IsForest code message source_start source_end b h = record {
    linked = h.linked;
    stacked = h.stacked;
    accounted = h.accounted;
  }

  reset-IsForest : (b : IrBuilder) → IsForest b → IsForest (reset_context b)
  unfolding reset_context
  reset-IsForest b h = record { linked = h.linked; stacked = tt; accounted = h.accounted }

  -- In every builder that a reader makes, each node is a root, or hangs under an earlier node, one
  -- level deeper and with that node's path and identifier as its path; and the roots and the lists of
  -- children together name as many nodes as there are.
  pub Built-IsForest : (b : IrBuilder) → Built identify b → IsForest b
  Built-IsForest b (made reader_id source max_depth max_nodes) =
      unfold new_builder in record { linked = tt; stacked = tt; accounted = refl }
  Built-IsForest b (noticed code message source_start source_end {b = c} m) =
      noticed-IsForest code message source_start source_end c (Built-IsForest c m)
  Built-IsForest b (reset {b = c} m) = reset-IsForest c (Built-IsForest c m)
  Built-IsForest b (grown args {b = c} m) =
      add_node-IsForest args c (Built-IsBounded identify c m) (Built-IsForest c m)
