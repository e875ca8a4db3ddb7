-- ===== src/Parsing/Builder/Bounds.antt =====
-- Limits and numbering of the nodes that are built.
use security_configuration_a.Base.{
  ℕ, suc, ◌+◌, ◌≡◌, ◌≤◌, ◌<◌, refl, ap, sym, subst, Bool, true, false, Option, none, some, List, [],
  ◌∷◌, ◌++◌, arith, if◌then◌else◌, Text, All, Bool-cases, inl, inr, length, length-append,
  All-append,
}
use security_configuration_a.Parsing.Model.{ArtifactProvenance}
use security_configuration_a.Parsing.Builder.{
  NodeDraft, IrBuilder, NodeIdentity, NodeArgs, new_builder, node_limit_reached, add_diagnostic,
  reset_context, head, Placement, place_context, place_depth, depth_under, path_under, append_child,
  link, make_draft, attach, add_node,
}
use security_configuration_a.Parsing.Builder.Placing.{All-place, depth-place}

-- The builders that the readers make.
pub data Built (identify : NodeIdentity → Text) : IrBuilder → Type 0 where
  made :
      (reader_id : Text) (source : ArtifactProvenance) (max_depth max_nodes : ℕ)
      → Built identify (new_builder reader_id source max_depth max_nodes)
  noticed :
      (code message : Text) (source_start source_end : Option ℕ) {b : IrBuilder}
      → Built identify b
      → Built identify (add_diagnostic code message source_start source_end b)
  reset : {b : IrBuilder} → Built identify b → Built identify (reset_context b)
  grown :
      (args : NodeArgs) {b : IrBuilder}
      → Built identify b
      → Built identify (add_node identify args b)

-- The nodes are numbered from `k` on.
abbrev pub IsNumbered : ℕ → List NodeDraft → Type 0
IsNumbered k [] = Unit
IsNumbered k (d ∷ ds) = (d.order ≡ k) × IsNumbered (suc k) ds

-- The depth is the length of the path of ancestors, and within the limit.
abbrev pub FitsDepth : ℕ → NodeDraft → Type 0
FitsDepth max_depth d = (d.depth ≤ max_depth) × (length d.context_path ≡ d.depth)

pub record IsBounded (b : IrBuilder) : Type 0 where
  pub capped : length b.nodes ≤ b.max_nodes
  pub numbered : IsNumbered 1 b.nodes
  pub fits : All (FitsDepth b.max_depth) b.nodes
  pub stack_fits : All (FitsDepth b.max_depth) b.stack

pub length-append_child :
    (o : ℕ) (id : Text) (ds : List NodeDraft) → length (append_child o id ds) ≡ length ds
unfolding append_child
length-append_child o id [] = refl
length-append_child o id (d ∷ ds) = ap suc (length-append_child o id ds)

IsNumbered-append_child :
    (o k : ℕ) (id : Text) (ds : List NodeDraft)
    → IsNumbered k ds
    → IsNumbered k (append_child o id ds)
unfolding append_child
IsNumbered-append_child o k id [] h = tt
IsNumbered-append_child o k id (d ∷ ds) h =
    (ground arith, IsNumbered-append_child o (suc k) id ds h.1)

pub IsNumbered-append :
    (k : ℕ) (ds : List NodeDraft) (d : NodeDraft)
    → IsNumbered k ds
    → d.order ≡ length ds + k
    → IsNumbered k (ds ++ d ∷ [])
IsNumbered-append k [] d h e = (omega arith, tt)
IsNumbered-append k (x ∷ ds) d h e = (h.0, IsNumbered-append (suc k) ds d h.1 (omega arith))

All-append_child :
    (n o : ℕ) (id : Text) (ds : List NodeDraft)
    → All (FitsDepth n) ds
    → All (FitsDepth n) (append_child o id ds)
unfolding append_child
All-append_child n o id [] h = tt
All-append_child n o id (d ∷ ds) h = (ground arith, All-append_child n o id ds h.1)

-- The fields of the builder after a node joins its parent or the roots.
link-IsBounded :
    (o : Option NodeDraft) (d : NodeDraft) (b : IrBuilder)
    → length b.nodes < b.max_nodes
    → d.order ≡ length b.nodes + 1
    → FitsDepth b.max_depth d
    → IsBounded b
    → IsBounded (link o d b)
unfolding link
link-IsBounded none d b room e f h = record {
  capped = ground (arith, length-append b.nodes (d ∷ []));
  numbered = IsNumbered-append 1 b.nodes d h.numbered e;
  fits = All-append _ b.nodes (d ∷ []) h.fits (f, tt);
  stack_fits = h.stack_fits;
}
link-IsBounded (some p) d b room e f h = record {
  capped = omega (
    arith,
    length-append_child p.order d.node_id (b.nodes ++ d ∷ []),
    length-append {0} b.nodes (d ∷ []),
  );
  numbered =
      IsNumbered-append_child p.order 1 d.node_id (b.nodes ++ d ∷ [])
        (IsNumbered-append 1 b.nodes d h.numbered e);
  fits =
      All-append_child b.max_depth p.order d.node_id _
        (All-append _ b.nodes (d ∷ []) h.fits (f, tt));
  stack_fits = h.stack_fits;
}

path-length :
    (n : ℕ) (o : Option NodeDraft)
    → ((d : NodeDraft) → o ≡ some d → FitsDepth n d)
    → length (path_under o) ≡ depth_under o
path-length n none h = refl
path-length n (some d) h = ground (arith, h d refl, length-append d.context_path (d.node_id ∷ []))

pub All-head :
    (P : NodeDraft → Type 0) (ds : List NodeDraft) (d : NodeDraft)
    → All P ds
    → head ds ≡ some d
    → P d
All-head P [] d h e = cc
All-head P (x ∷ ds) d h e = subst P (cc) h.0

pub All-push :
    (P : NodeDraft → Type 0) (c : Bool) (d : NodeDraft) (ds : List NodeDraft)
    → P d
    → All P ds
    → All P (if c then d ∷ ds else ds)
All-push P true d ds p h = (p, h)
All-push P false d ds p h = h

link-stack :
    (o : Option NodeDraft) (d : NodeDraft) (b : IrBuilder) → (link o d b).max_depth ≡ b.max_depth
unfolding link
link-stack none d b = refl
link-stack (some p) d b = refl

noticed-IsBounded :
    (code message : Text) (source_start source_end : Option ℕ) (b : IrBuilder)
    → IsBounded b
    → IsBounded (add_diagnostic code message source_start source_end b)
unfolding add_diagnostic
noticed-IsBounded code message source_start source_end b h = record {
  capped = h.capped;
  numbered = h.numbered;
  fits = h.fits;
  stack_fits = h.stack_fits;
}

reset-IsBounded : (b : IrBuilder) → IsBounded b → IsBounded (reset_context b)
unfolding reset_context
reset-IsBounded b h = record {
  capped = h.capped;
  numbered = h.numbered;
  fits = h.fits;
  stack_fits = tt;
}

module _ (identify : NodeIdentity → Text) where
  add_node-IsBounded :
      (args : NodeArgs) (b : IrBuilder) → IsBounded b → IsBounded (add_node identify args b)
  unfolding add_node
  add_node-IsBounded args b h = elim (Bool-cases (node_limit_reached b)) [
    | inl e ↦ rw e h
    | inr e ↦ rw e (attached (unfold node_limit_reached in ground arith))
  ]
    where
      p : Placement
      p = place_depth b.max_depth args (place_context args b.stack b.diagnostics)

      d : NodeDraft
      d = make_draft identify args p b

      kept : All (FitsDepth b.max_depth) p.stack
      kept = All-place (FitsDepth b.max_depth) b.max_depth args b.stack b.diagnostics h.stack_fits

      fits_d : FitsDepth b.max_depth d
      fits_d = (
        depth-place b.max_depth args (place_context args b.stack b.diagnostics),
        path-length b.max_depth (head p.stack)
            (λ x e. All-head (FitsDepth b.max_depth) p.stack x kept e),
      )

      attached : length b.nodes < b.max_nodes → IsBounded (attach identify args p b)
      attached room =
          let l =
            link-IsBounded (head p.stack) d (record b { diagnostics = p.diagnostics }) room refl
              fits_d
              (record {
                capped = h.capped;
                numbered = h.numbered;
                fits = h.fits;
                stack_fits = h.stack_fits;
              }) in
          record {
            capped = l.capped;
            numbered = l.numbered;
            fits = l.fits;
            stack_fits =
                subst (λ n. All (FitsDepth n) (if args.can_parent then d ∷ p.stack else p.stack))
                  (sym (link-stack (head p.stack) d (record b { diagnostics = p.diagnostics })))
                  (All-push (FitsDepth b.max_depth) args.can_parent d p.stack fits_d kept);
          }

  -- Every builder that a reader makes keeps the limits on the number and the depth of nodes, numbers
  -- the nodes from 1 in the order in which they were added, and gives each node a path of as many
  -- ancestors as its depth says.
  pub Built-IsBounded : (b : IrBuilder) → Built identify b → IsBounded b
  Built-IsBounded b (made reader_id source max_depth max_nodes) =
      unfold new_builder in
      record { capped = omega arith; numbered = tt; fits = tt; stack_fits = tt }
  Built-IsBounded b (noticed code message source_start source_end {b = c} m) =
      noticed-IsBounded code message source_start source_end c (Built-IsBounded c m)
  Built-IsBounded b (reset {b = c} m) = reset-IsBounded c (Built-IsBounded c m)
  Built-IsBounded b (grown args {b = c} m) = add_node-IsBounded args c (Built-IsBounded c m)
