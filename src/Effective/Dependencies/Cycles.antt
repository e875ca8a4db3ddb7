-- ===== src/Effective/Dependencies/Cycles.antt =====
-- The walk over the dependencies ends within its bound, and what it lets through has no cycle.
use security_configuration_a.Base.{
  ℕ, zero, suc, ◌+◌, ◌≡◌, ◌≤◌, ◌<◌, leb, refl, ap, sym, subst, ◌∙◌, any, ==_iff, ◌⊎◌, Bool, true,
  false, not, ◌||◌, List, [], ◌∷◌, ◌++◌, arith, ◌==◌, length, In, inl, inr, Bool-cases,
  In-append_left, In-append_right,
}
use security_configuration_a.Base.Sets.{member, In-member, member-In}
use security_configuration_a.Effective.Facts.{SecurityFact}
use security_configuration_a.Effective.Dependencies.{
  Graph, edges, in_graph, graph_of, push_dependencies, dependencies_of, walk, roots_walked,
  missing_ids, is_missing, has_unreadable, readable, fact_ids, blocked_dependency_ids,
}

not-In : (x : ℕ) (xs : List ℕ) → member x xs ≡ false → ¬ (In x xs)
not-In x xs h i = let c : true ≡ false = sym (member-In x xs i) ∙ h in cc

-- The loop on the stack of one root: from what was seen and the stack, in some number of turns, to
-- whether the root is blocked. A turn takes a node; one that was seen, or a node after 128 others,
-- blocks the root and ends the loop.
pub data Loops (root : ℕ) (graph : Graph) : List ℕ → List ℕ → ℕ → Bool → Type 0 where
  finished : {seen : List ℕ} → Loops root graph seen [] 0 false
  broken_off :
      {seen stack : List ℕ} {current : ℕ}
      → In current seen ⊎ (128 ≤ length seen)
      → Loops root graph seen (current ∷ stack) 1 true
  turned :
      {seen stack : List ℕ} {current turns : ℕ} {blocked : Bool}
      → ¬ (In current seen)
      → length seen < 128
      → Loops root graph
          (current ∷ seen)
          (push_dependencies root graph (dependencies_of (edges current graph)) stack).1
          turns
          blocked
      → Loops root graph seen (current ∷ stack) (suc turns) (
          (push_dependencies root graph (dependencies_of (edges current graph)) stack).0 || blocked)

-- A node is added to `seen` in each turn, so 129 turns less what was seen are enough.
walk-Loops_from :
    (root : ℕ) (graph : Graph) (fuel : ℕ) (seen stack : List ℕ)
    → length seen ≤ 128
    → 129 ≤ fuel + length seen
    → (turns : ℕ) × (turns + length seen ≤ 129)
      × Loops root graph seen stack turns (walk root graph fuel seen stack)
unfolding walk
walk-Loops_from root graph fuel seen [] few h = (0, omega arith, finished)
walk-Loops_from root graph zero seen (c ∷ stack) few h = absurd (omega arith)
walk-Loops_from root graph (suc fuel) seen (c ∷ stack) few h = elim (Bool-cases (member c seen)) [
  | inl e ↦ rw e (1, omega arith, broken_off (inl (In-member c seen e)))
  | inr e ↦ elim (Bool-cases (leb 128 (length seen))) [
    | inl k ↦ rw e (rw k (1, omega arith, broken_off (inr (ground arith))))
    | inr k ↦
        let next = push_dependencies root graph (dependencies_of (edges c graph)) stack in
        let (turns, bound, loop) =
          walk-Loops_from root graph fuel (c ∷ seen) next.1 (ground arith) (omega arith) in
        rw e (rw k (suc turns, omega arith, turned (not-In c seen e) (ground arith) loop))
  ]
]

-- The loop leaves no choice.
Loops-same :
    (root : ℕ) (graph : Graph) {seen stack : List ℕ} {m n : ℕ} {b c : Bool}
    → Loops root graph seen stack m b
    → Loops root graph seen stack n c
    → b ≡ c
Loops-same root graph finished finished = refl
Loops-same root graph (broken_off h) (broken_off k) = refl
Loops-same root graph (broken_off (inl i)) (turned new few l) = absurd (new i)
Loops-same root graph (broken_off (inr i)) (turned new few l) = absurd (omega arith)
Loops-same root graph (turned new few l) (broken_off (inl i)) = absurd (new i)
Loops-same root graph (turned new few l) (broken_off (inr i)) = absurd (omega arith)
Loops-same root graph (turned {stack = stack} {current = current} new few l) (turned _ _ k) =
    ap (λ b. (push_dependencies root graph (dependencies_of (edges current graph)) stack).0 || b)
      (Loops-same root graph l k)

-- The loop over the dependencies of a root ends, whatever the graph: after at most 129 turns, of which
-- each but the last takes a node that was not taken before; and however it ends, it says of the root
-- what the walk says.
pub walk-Loops :
    (root : ℕ) (graph : Graph)
    → ((turns : ℕ) × (turns ≤ 129)
        × Loops root graph [] (root ∷ []) turns (walk root graph 129 [] (root ∷ [])))
      × ((turns : ℕ) (blocked : Bool)
          → Loops root graph [] (root ∷ []) turns blocked
          → blocked ≡ walk root graph 129 [] (root ∷ []))
walk-Loops root graph =
    let (turns, bound, loop) =
      walk-Loops_from root graph 129 [] (root ∷ []) (omega arith) (omega arith) in
    ((turns, omega arith, loop), λ others blocked l. Loops-same root graph l loop)

-- What is reached from the given facts along dependencies that are facts.
pub data Reached (graph : Graph) (start : List ℕ) : ℕ → Type 0 where
  given : {x : ℕ} → In x start → Reached graph start x
  along :
      {x : ℕ} (d : ℕ)
      → Reached graph start x
      → In d (dependencies_of (edges x graph))
      → in_graph d graph ≡ true
      → Reached graph start d

module _ (root : ℕ) (graph : Graph) where
  hit-none :
      (ds stack : List ℕ) (d : ℕ)
      → (push_dependencies root graph ds stack).0 ≡ false
      → In d ds
      → (d == root) ≡ false
  unfolding push_dependencies
  hit-none [] stack d h i = absurd i
  hit-none (e ∷ es) stack d h i = ground (arith, hit-none es stack d, hit-none es (e ∷ stack) d)

  push-keeps :
      (ds stack : List ℕ) (x : ℕ) → In x stack → In x (push_dependencies root graph ds stack).1
  unfolding push_dependencies
  push-keeps [] stack x i = i
  push-keeps (e ∷ es) stack x i = ground (arith, push-keeps es stack x, push-keeps es (e ∷ stack) x)

  push-adds :
      (ds stack : List ℕ) (d : ℕ)
      → In d ds
      → in_graph d graph ≡ true
      → (d == root) ≡ false
      → In d (push_dependencies root graph ds stack).1
  unfolding push_dependencies
  push-adds [] stack d i g n = absurd i
  push-adds (e ∷ es) stack d (inl r) g n =
      let k : In d (push_dependencies root graph es (e ∷ stack)).1 =
        push-keeps es (e ∷ stack) d (inl r) in
      let g : in_graph e graph ≡ true = subst (λ z. in_graph z graph ≡ true) r g in
      let n : (e == root) ≡ false = subst (λ z. (z == root) ≡ false) r n in rw n (rw g k)
  push-adds (e ∷ es) stack d (inr i) g n =
      ground (arith, push-adds es stack d i g n, push-adds es (e ∷ stack) d i g n)

  -- A dependency that is the root itself counts as a hit; the others go on the stack.
  turn :
      (c : ℕ) (stack : List ℕ) (y : ℕ)
      → (push_dependencies root graph (dependencies_of (edges c graph)) stack).0 ≡ false
      → Reached graph (c ∷ stack) y
      → (y ≡ c)
        ⊎ Reached graph (push_dependencies root graph (dependencies_of (edges c graph)) stack).1 y
  turn c stack y h (given (inl e)) = inl e
  turn c stack y h (given (inr i)) =
      inr (given (push-keeps (dependencies_of (edges c graph)) stack y i))
  turn c stack y h (along {x = x} d r i g) = elim (turn c stack x h r) [
    | inl e ↦
        let j : In d (dependencies_of (edges c graph)) =
          subst (λ z. In d (dependencies_of (edges z graph))) e i in
        inr (given (push-adds _ stack d j g (hit-none _ stack d h j)))
    | inr k ↦ inr (along d k i g)
  ]

  -- A walk that blocks nothing has found the root among no dependencies of what it reached.
  walk-clear :
      (fuel : ℕ) (seen stack : List ℕ) (y : ℕ)
      → walk root graph fuel seen stack ≡ false
      → Reached graph stack y
      → ¬ (In root (dependencies_of (edges y graph)))
  unfolding walk
  walk-clear fuel seen [] y h r i = nothing y r
    where
      nothing : (y : ℕ) → ¬ (Reached graph [] y)
      nothing y (given i) = i
      nothing y (along {x = x} d r j g) = nothing x r
  walk-clear zero seen (c ∷ stack) y h r i = cc
  walk-clear (suc fuel) seen (c ∷ stack) y h r i =
      let ds = dependencies_of (edges c graph) in
      let next = push_dependencies root graph ds stack in
      let clear : (next.0 ≡ false) × (walk root graph fuel (c ∷ seen) next.1 ≡ false) =
        ground arith in
      elim (turn c stack y clear.0 r) [
        | inl e ↦
            let n =
              hit-none ds stack root clear.0
                (subst (λ z. In root (dependencies_of (edges z graph))) e i) in
            ground arith
        | inr k ↦ walk-clear fuel (c ∷ seen) next.1 y clear.1 k i
      ]

other : (b c : Bool) → (b || c) ≡ true → b ≡ false → c ≡ true
other true c h e = cc
other false c h e = h

walked :
    (x : ℕ) (graph rest : Graph)
    → in_graph x rest ≡ true
    → walk x graph 129 [] (x ∷ []) ≡ true
    → In x (roots_walked graph rest)
unfolding roots_walked
walked x graph [] i w = cc
walked x graph ((y, ds) ∷ rest) i w = elim (Bool-cases (walk y graph 129 [] (y ∷ []))) [
  | inl e ↦ elim (Bool-cases (x == y)) [
    | inl p ↦ rw e (inl ((==_iff x y).0 p))
    | inr p ↦ rw e (inr (walked x graph rest (other (x == y) (in_graph x rest) i p) w))
  ]
  | inr e ↦ elim (Bool-cases (x == y)) [
    | inl p ↦
        let q : x ≡ y = (==_iff x y).0 p in
        let k : walk y graph 129 [] (y ∷ []) ≡ true =
          subst (λ z. walk z graph 129 [] (z ∷ []) ≡ true) q w in
        absurd (let c : true ≡ false = sym k ∙ e in cc)
    | inr p ↦ rw e (walked x graph rest (other (x == y) (in_graph x rest) i p) w)
  ]
]

missed :
    (ids : List ℕ) (fact : SecurityFact) (facts : List SecurityFact)
    → In fact facts
    → is_missing ids fact ≡ true
    → In fact.fact_id (missing_ids ids facts)
unfolding missing_ids
missed ids fact [] i m = absurd i
missed ids fact (g ∷ gs) (inl e) m =
    let k : is_missing ids g ≡ true = subst (λ z. is_missing ids z ≡ true) e m in
    rw k (inl (ap (λ (z : SecurityFact). z.fact_id) e))
missed ids fact (g ∷ gs) (inr i) m = ground (arith, missed ids fact gs i m)

in_graph-graph_of :
    (fact : SecurityFact) (facts : List SecurityFact)
    → In fact facts
    → in_graph fact.fact_id (graph_of facts) ≡ true
unfolding graph_of
in_graph-graph_of fact [] i = absurd i
in_graph-graph_of fact (g ∷ gs) (inl e) = rw e (ground arith)
in_graph-graph_of fact (g ∷ gs) (inr i) = ground (arith, in_graph-graph_of fact gs i)

present : (ids ds : List ℕ) (d : ℕ) → any (λ d. not (member d ids)) ds ≡ false → In d ds → In d ids
present ids [] d h i = absurd i
present ids (e ∷ es) d h (inl r) = rw r (In-member e ids (ground arith))
present ids (e ∷ es) d h (inr i) = present ids es d (ground arith) i

-- A fact that is not blocked can read all its dependencies, which are facts that there are, and lies
-- on no cycle: nothing that is reached from it along the dependencies depends on it.
pub unblocked-clear :
    (facts : List SecurityFact) (fact : SecurityFact)
    → In fact facts
    → member fact.fact_id (blocked_dependency_ids facts) ≡ false
    → (has_unreadable fact.dependencies ≡ false)
      × ((d : ℕ) → In d (readable fact.dependencies) → In d (fact_ids facts))
      × ((y : ℕ)
          → Reached (graph_of facts) (fact.fact_id ∷ []) y
          → ¬ (In fact.fact_id (dependencies_of (edges y (graph_of facts)))))
unfolding blocked_dependency_ids
unblocked-clear facts fact i h =
    let missing = missing_ids (fact_ids facts) facts in
    let roots = roots_walked (graph_of facts) (graph_of facts) in
    let out = not-In fact.fact_id (missing ++ roots) h in
    let whole : is_missing (fact_ids facts) fact ≡ false =
      elim (Bool-cases (is_missing (fact_ids facts) fact)) [
        | inl m ↦ absurd (
            out
              (In-append_left fact.fact_id missing roots (missed (fact_ids facts) fact facts i m)))
        | inr m ↦ m
      ] in
    let clear : walk fact.fact_id (graph_of facts) 129 [] (fact.fact_id ∷ []) ≡ false =
      elim (Bool-cases (walk fact.fact_id (graph_of facts) 129 [] (fact.fact_id ∷ []))) [
        | inl w ↦ absurd (
            out (
              In-append_right fact.fact_id missing roots (
                walked fact.fact_id (graph_of facts) (graph_of facts)
                  (in_graph-graph_of fact facts i) w)))
        | inr w ↦ w
      ] in
    (
      unfold is_missing in ground arith,
      (λ d j.
          present (fact_ids facts) (readable fact.dependencies) d
            (unfold is_missing in ground arith) j),
      λ y r. walk-clear fact.fact_id (graph_of facts) 129 [] (fact.fact_id ∷ []) y clear r,
    )
