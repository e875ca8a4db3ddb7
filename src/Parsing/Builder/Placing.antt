-- ===== src/Parsing/Builder/Placing.antt =====
-- What placing a node leaves on the stack.
use security_configuration_a.Base.{
  ℕ, ◌≡◌, ◌≤◌, ◌<◌, refl, ap, Bool, true, false, ◌||◌, Option, none, some, List, [], ◌∷◌, arith,
  ◌==◌, Text, All, Bool-cases, inl, inr, leb,
}
use security_configuration_a.Parsing.Model.{ParseDiagnostic}
use security_configuration_a.Parsing.Builder.{
  NodeDraft, NodeArgs, head, pop_while, Placement, noted, place_context, place_depth, too_deep,
  depth_under,
}

All-pop_while :
    (P : NodeDraft → Type 0) (test : NodeDraft → Bool) (ds : List NodeDraft)
    → All P ds
    → All P (pop_while test ds)
unfolding pop_while
All-pop_while P test [] h = tt
All-pop_while P test (d ∷ ds) h = elim (Bool-cases (test d)) [
  | inl e ↦ rw e (All-pop_while P test ds h.1)
  | inr e ↦ rw e h
]

-- The top that is left fails the test.
head-pop_while :
    (test : NodeDraft → Bool) (ds : List NodeDraft) (d : NodeDraft)
    → head (pop_while test ds) ≡ some d
    → test d ≡ false
unfolding pop_while
head-pop_while test [] d h = cc
head-pop_while test (e ∷ ds) d h = ground (arith, head-pop_while test ds d, ap test)

noted-stack :
    (b : Bool) (code message : Text) (args : NodeArgs) (p : Placement)
    → (noted b code message args p).stack ≡ p.stack
unfolding noted
noted-stack true code message args p = refl
noted-stack false code message args p = refl

module _ (P : NodeDraft → Type 0) where
  All-place_context :
      (args : NodeArgs) (stack : List NodeDraft) (ds : List ParseDiagnostic)
      → All P stack
      → All P (place_context args stack ds).stack
  unfolding place_context
  All-place_context args stack ds h = elim (Bool-cases (args.force_root || args.indent == 0)) [
    | inl e ↦ rw e tt
    | inr e ↦ rw e (rw noted-stack (rw noted-stack (All-pop_while P _ stack h)))
  ]

  All-place_depth :
      (max_depth : ℕ) (args : NodeArgs) (p : Placement)
      → All P p.stack
      → All P (place_depth max_depth args p).stack
  unfolding place_depth
  All-place_depth max_depth args p h = elim (Bool-cases (too_deep max_depth (head p.stack))) [
    | inl e ↦ rw e (All-pop_while P _ p.stack h)
    | inr e ↦ rw e h
  ]

  -- The stack that is left is part of the stack that was there.
  pub All-place :
      (max_depth : ℕ) (args : NodeArgs) (stack : List NodeDraft) (ds : List ParseDiagnostic)
      → All P stack
      → All P (place_depth max_depth args (place_context args stack ds)).stack
  All-place max_depth args stack ds h =
      All-place_depth max_depth args (place_context args stack ds)
        (All-place_context args stack ds h)

depth-lt :
    (max_depth : ℕ) (o : Option NodeDraft)
    → ((d : NodeDraft) → o ≡ some d → d.depth < max_depth)
    → depth_under o ≤ max_depth
depth-lt max_depth none h = omega arith
depth-lt max_depth (some d) h = omega (arith, h d refl)

-- A node is never placed deeper than the limit.
pub depth-place :
    (max_depth : ℕ) (args : NodeArgs) (p : Placement)
    → depth_under (head (place_depth max_depth args p).stack) ≤ max_depth
unfolding place_depth
depth-place max_depth args p = elim (Bool-cases (too_deep max_depth (head p.stack))) [
  | inl e ↦ rw e (
      depth-lt max_depth _
        (λ d h. shallow d (head-pop_while (λ (x : NodeDraft). leb max_depth x.depth) p.stack d h)))
  | inr e ↦
      rw e (depth-lt max_depth (head p.stack) (λ d h. ground (arith, ap (too_deep max_depth) h)))
]
  where
    shallow : (d : NodeDraft) → leb max_depth d.depth ≡ false → d.depth < max_depth
    shallow d h = ground arith
