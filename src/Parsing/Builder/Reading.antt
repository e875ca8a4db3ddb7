-- ===== src/Parsing/Builder/Reading.antt =====
-- A builder while a reader of lines fills it.
use security_configuration_a.Base.{ℕ, ◌+◌, ◌≡◌, ◌≤◌, refl, ◌∙◌, Bool, Option, arith, Text}
use security_configuration_a.Parsing.Model.{ArtifactProvenance}
use security_configuration_a.Parsing.Builder.{
  IrBuilder, NodeIdentity, NodeArgs, new_builder, add_diagnostic, reset_context, add_node, build,
}
use security_configuration_a.Parsing.Builder.Bounds.{Built, made, noticed, reset, grown}
use security_configuration_a.Parsing.Builder.Spans.{
  InOrder, add_node-InOrder, InOrder-later, add_node-limits,
}
use security_configuration_a.Parsing.Builder.Trees.{IsTree, build-IsTree}

module _ (identify : NodeIdentity → Text) (max_depth max_nodes : ℕ) where
  -- The lines before `line_number` have been read.
  pub record IsReading (line_number : ℕ) (b : IrBuilder) : Type 0 where
    pub built : Built identify b
    pub in_order : InOrder 1 line_number b.nodes
    pub limits : (b.max_depth ≡ max_depth) × (b.max_nodes ≡ max_nodes)

  pub add-IsReading :
      (n next : ℕ) (args : NodeArgs) (b : IrBuilder)
      → n ≤ args.source_start
      → args.source_start ≤ args.source_end
      → args.source_end + 1 ≤ next
      → IsReading n b
      → IsReading next (add_node identify args b)
  add-IsReading n next args b e f g h =
      let order = add_node-InOrder identify 1 n args b e f h.in_order in
      let limits = add_node-limits identify args b in
      record {
        built = grown args h.built;
        in_order = InOrder-later 1 (args.source_end + 1) next _ g order;
        limits = (limits.0 ∙ h.limits.0, limits.1 ∙ h.limits.1);
      }

  pub IsReading-later : (n next : ℕ) (b : IrBuilder) → n ≤ next → IsReading n b → IsReading next b
  IsReading-later n next b l h = record {
    built = h.built;
    in_order = InOrder-later 1 n next b.nodes l h.in_order;
    limits = h.limits;
  }

  pub note-IsReading :
      (n : ℕ) (code message : Text) (source_start source_end : Option ℕ) (b : IrBuilder)
      → IsReading n b
      → IsReading n (add_diagnostic code message source_start source_end b)
  unfolding add_diagnostic
  note-IsReading n code message source_start source_end b h = record {
    built = noticed code message source_start source_end h.built;
    in_order = h.in_order;
    limits = h.limits;
  }

  pub reset-IsReading : (n : ℕ) (b : IrBuilder) → IsReading n b → IsReading n (reset_context b)
  unfolding reset_context
  reset-IsReading n b h = record { built = reset h.built; in_order = h.in_order; limits = h.limits }

  pub start-IsReading :
      (reader_id : Text) (source : ArtifactProvenance)
      → IsReading 1 (new_builder reader_id source max_depth max_nodes)
  unfolding new_builder
  start-IsReading reader_id source = record {
    built = made reader_id source max_depth max_nodes;
    in_order = omega arith;
    limits = (refl, refl);
  }

  pub build-reading :
      (truncated : Bool) (high : ℕ) (b : IrBuilder)
      → IsReading high b
      → IsTree max_depth max_nodes high (build truncated b)
  build-reading truncated high b h =
      build-IsTree identify truncated b h.built max_depth max_nodes high h.limits h.in_order
