-- ===== src/Parsing/Builder/Spans.antt =====
-- The lines that the nodes come from.
use security_configuration_a.Base.{
  ℕ, ◌+◌, ◌≡◌, ◌≤◌, refl, Option, none, some, List, [], ◌∷◌, ◌++◌, arith, Text, Bool-cases, inl,
  inr,
}
use security_configuration_a.Parsing.Builder.{
  NodeDraft, IrBuilder, NodeIdentity, NodeArgs, node_limit_reached, head, Placement, place_context,
  place_depth, append_child, link, make_draft, attach, add_node,
}

-- The nodes come, in their order, from ranges of lines that do not overlap, from `low` on and before
-- `high`.
abbrev pub InOrder : ℕ → ℕ → List NodeDraft → Type 0
InOrder low high [] = low ≤ high
InOrder low high (d ∷ ds) =
    (low ≤ d.source_start) × (d.source_start ≤ d.source_end) × InOrder (d.source_end + 1) high ds

InOrder-append_child :
    (low high o : ℕ) (id : Text) (ds : List NodeDraft)
    → InOrder low high ds
    → InOrder low high (append_child o id ds)
unfolding append_child
InOrder-append_child low high o id [] h = h
InOrder-append_child low high o id (d ∷ ds) h =
    ground (arith, InOrder-append_child (d.source_end + 1) high o id ds)

InOrder-append :
    (low high : ℕ) (ds : List NodeDraft) (d : NodeDraft)
    → high ≤ d.source_start
    → d.source_start ≤ d.source_end
    → InOrder low high ds
    → InOrder low (d.source_end + 1) (ds ++ d ∷ [])
InOrder-append low high [] d l e h = (omega arith, e, omega arith)
InOrder-append low high (x ∷ ds) d l e h =
    (h.0, h.1, InOrder-append (x.source_end + 1) high ds d l e h.2)

pub InOrder-later :
    (low high next : ℕ) (ds : List NodeDraft)
    → high ≤ next
    → InOrder low high ds
    → InOrder low next ds
InOrder-later low high next [] l h = omega arith
InOrder-later low high next (d ∷ ds) l h =
    (h.0, h.1, InOrder-later (d.source_end + 1) high next ds l h.2)

link-InOrder :
    (low high : ℕ) (o : Option NodeDraft) (d : NodeDraft) (b : IrBuilder)
    → high ≤ d.source_start
    → d.source_start ≤ d.source_end
    → InOrder low high b.nodes
    → InOrder low (d.source_end + 1) (link o d b).nodes
unfolding link
link-InOrder low high none d b l e h = InOrder-append low high b.nodes d l e h
link-InOrder low high (some p) d b l e h =
    InOrder-append_child low (d.source_end + 1) p.order d.node_id _
      (InOrder-append low high b.nodes d l e h)

module _ (identify : NodeIdentity → Text) where
  attach-InOrder :
      (low high : ℕ) (args : NodeArgs) (p : Placement) (b : IrBuilder)
      → high ≤ args.source_start
      → args.source_start ≤ args.source_end
      → InOrder low high b.nodes
      → InOrder low (args.source_end + 1) (attach identify args p b).nodes
  unfolding attach make_draft
  attach-InOrder low high args p b l e h =
      link-InOrder low high (head p.stack) (make_draft identify args p b) _ l e h

  pub add_node-InOrder :
      (low high : ℕ) (args : NodeArgs) (b : IrBuilder)
      → high ≤ args.source_start
      → args.source_start ≤ args.source_end
      → InOrder low high b.nodes
      → InOrder low (args.source_end + 1) (add_node identify args b).nodes
  unfolding add_node
  add_node-InOrder low high args b l e h = elim (Bool-cases (node_limit_reached b)) [
    | inl c ↦ rw c (InOrder-later low high (args.source_end + 1) b.nodes (omega arith) h)
    | inr c ↦ rw c (attach-InOrder low high args _ b l e h)
  ]

link-limits :
    (o : Option NodeDraft) (d : NodeDraft) (b : IrBuilder)
    → ((link o d b).max_depth ≡ b.max_depth) × ((link o d b).max_nodes ≡ b.max_nodes)
unfolding link
link-limits none d b = (refl, refl)
link-limits (some p) d b = (refl, refl)

pub add_node-limits :
    (identify : NodeIdentity → Text) (args : NodeArgs) (b : IrBuilder)
    → ((add_node identify args b).max_depth ≡ b.max_depth)
      × ((add_node identify args b).max_nodes ≡ b.max_nodes)
unfolding add_node attach
add_node-limits identify args b = elim (Bool-cases (node_limit_reached b)) [
  | inl c ↦ rw c (refl, refl)
  | inr c ↦ rw c (
      link-limits (head p.stack) (make_draft identify args p b)
        (record b { diagnostics = p.diagnostics }))
]
  where
    p : Placement
    p = place_depth b.max_depth args (place_context args b.stack b.diagnostics)
