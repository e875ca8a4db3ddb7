-- ===== src/Parsing/Builder/Links.antt =====
-- Parents and children of the nodes that are built.
use security_configuration_a.Base.{
  All-map, ℕ, suc, ◌+◌, ◌≡◌, ◌≤◌, ◌<◌, refl, ap, ◌⊎◌, Bool, true, false, Option, none, some, List,
  [], ◌∷◌, ◌++◌, arith, ◌==◌, if◌then◌else◌, Text, All, inl, inr, length, length-append, All-append,
}
use security_configuration_a.Parsing.Builder.{NodeDraft, IrBuilder, append_child, link}
use security_configuration_a.Parsing.Builder.Bounds.{IsNumbered, length-append_child}

-- The two drafts are one node, whose children may have grown.
abbrev pub SameNode : NodeDraft → NodeDraft → Type 0
SameNode p q =
    (q.order ≡ p.order)
    × (q.node_id ≡ p.node_id)
    × (q.depth ≡ p.depth)
    × (q.context_path ≡ p.context_path)

abbrev pub Has : NodeDraft → List NodeDraft → Type 0
Has p [] = ⊥
Has p (q ∷ qs) = SameNode p q ⊎ Has p qs

-- The node hangs under an earlier node of the list, one level deeper, with that node's path and
-- identifier as its path; or it is a root.
abbrev pub IsRoot : NodeDraft → Type 0
IsRoot d = (d.parent_id ≡ none) × (d.depth ≡ 0) × (d.context_path ≡ [])

abbrev pub HangsUnder : NodeDraft → NodeDraft → Type 0
HangsUnder p d =
    (p.order < d.order)
    × (d.parent_id ≡ some p.node_id)
    × (d.depth ≡ p.depth + 1)
    × (d.context_path ≡ p.context_path ++ p.node_id ∷ [])

abbrev pub IsLinked : List NodeDraft → NodeDraft → Type 0
IsLinked nodes d = IsRoot d ⊎ ((p : NodeDraft) × Has p nodes × HangsUnder p d)

-- How many children the nodes list.
abbrev pub children_total : List NodeDraft → ℕ
children_total [] = 0
children_total (d ∷ ds) = length d.children + children_total ds

pub record IsForest (b : IrBuilder) : Type 0 where
  pub linked : All (IsLinked b.nodes) b.nodes
  pub stacked : All (λ p. Has p b.nodes × (p.order ≤ length b.nodes)) b.stack
  pub accounted : length b.roots + children_total b.nodes ≡ length b.nodes

Has-append : (p d : NodeDraft) (ds : List NodeDraft) → Has p ds → Has p (ds ++ d ∷ [])
Has-append p d [] h = absurd h
Has-append p d (q ∷ qs) (inl e) = inl e
Has-append p d (q ∷ qs) (inr h) = inr (Has-append p d qs h)

pub Has-last : (d : NodeDraft) (ds : List NodeDraft) → Has d (ds ++ d ∷ [])
Has-last d [] = inl (refl, refl, refl, refl)
Has-last d (q ∷ qs) = inr (Has-last d qs)

Has-append_child :
    (p : NodeDraft) (o : ℕ) (id : Text) (ds : List NodeDraft)
    → Has p ds
    → Has p (append_child o id ds)
unfolding append_child
Has-append_child p o id [] h = absurd h
Has-append_child p o id (q ∷ qs) (inl e) = inl (ground arith)
Has-append_child p o id (q ∷ qs) (inr h) = inr (Has-append_child p o id qs h)

-- A node that is in the list and numbered has one more child after `append_child`; no other changes.
children-append_child_other :
    (o k : ℕ) (id : Text) (ds : List NodeDraft)
    → IsNumbered k ds
    → o < k
    → children_total (append_child o id ds) ≡ children_total ds
unfolding append_child
children-append_child_other o k id [] n l = refl
children-append_child_other o k id (d ∷ ds) n l =
    ground (arith, children-append_child_other o (suc k) id ds n.1)

Has-order : (p : NodeDraft) (k : ℕ) (ds : List NodeDraft) → IsNumbered k ds → Has p ds → k ≤ p.order
Has-order p k [] n h = absurd h
Has-order p k (d ∷ ds) n (inl e) = omega arith
Has-order p k (d ∷ ds) n (inr h) = omega (arith, Has-order p (suc k) ds n.1 h)

children-append_child :
    (p : NodeDraft) (k : ℕ) (id : Text) (ds : List NodeDraft)
    → IsNumbered k ds
    → Has p ds
    → children_total (append_child p.order id ds) ≡ children_total ds + 1
unfolding append_child
children-append_child p k id [] n h = absurd h
children-append_child p k id (d ∷ ds) n (inl e) = ground (
  arith,
  children-append_child_other p.order (suc k) id ds n.1,
  length-append d.children (id ∷ []),
)
children-append_child p k id (d ∷ ds) n (inr h) =
    ground (arith, children-append_child p (suc k) id ds n.1 h, Has-order p (suc k) ds n.1 h)

IsLinked-mono :
    (ds es : List NodeDraft) (d : NodeDraft)
    → ((p : NodeDraft) → Has p ds → Has p es)
    → IsLinked ds d
    → IsLinked es d
IsLinked-mono ds es d m (inl r) = inl r
IsLinked-mono ds es d m (inr (p, h, u)) = inr (p, m p h, u)

All-IsLinked_child :
    (es : List NodeDraft) (o : ℕ) (id : Text) (ds : List NodeDraft)
    → All (IsLinked es) ds
    → All (IsLinked es) (append_child o id ds)
unfolding append_child
All-IsLinked_child es o id [] h = tt
All-IsLinked_child es o id (d ∷ ds) h =
    (grown_child (d.order == o) h.0, All-IsLinked_child es o id ds h.1)
  where
    grown_child :
        (c : Bool)
        → IsLinked es d
        → IsLinked es (if c then record d { children = d.children ++ id ∷ [] } else d)
    grown_child true (inl r) = inl r
    grown_child true (inr (p, i, u)) = inr (p, i, u)
    grown_child false l = l

children-append :
    (ds : List NodeDraft) (d : NodeDraft)
    → children_total (ds ++ d ∷ []) ≡ children_total ds + length d.children
children-append [] d = omega arith
children-append (x ∷ ds) d = omega (arith, children-append ds d)

-- How the draft was made fits where it goes.
abbrev pub FitsUnder : Option NodeDraft → NodeDraft → Type 0
FitsUnder none d = IsRoot d
FitsUnder (some p) d = HangsUnder p d

abbrev pub HasTop : Option NodeDraft → List NodeDraft → Type 0
HasTop none ds = Unit
HasTop (some p) ds = Has p ds

module _ (d : NodeDraft) (b : IrBuilder) (numbered : IsNumbered 1 (b.nodes ++ d ∷ []))
    (bare : d.children ≡ []) (h : IsForest b) where
  abbrev pub longer : List NodeDraft
  longer = b.nodes ++ d ∷ []

  IsLinked-longer :
      (o : Option NodeDraft) → HasTop o b.nodes → FitsUnder o d → All (IsLinked longer) longer
  IsLinked-longer o top fits =
      All-append (IsLinked longer) b.nodes (d ∷ [])
        (All-map (IsLinked b.nodes) (IsLinked longer) b.nodes
          (λ x l. IsLinked-mono b.nodes longer x (λ p i. Has-append p d b.nodes i) l) h.linked)
        (last o top fits, tt)
    where
      last : (o : Option NodeDraft) → HasTop o b.nodes → FitsUnder o d → IsLinked longer d
      last none top fits = inl fits
      last (some p) top fits = inr (p, Has-append p d b.nodes top, fits)

  pub stacked_longer :
      (ds : List NodeDraft)
      → All (λ p. Has p b.nodes × (p.order ≤ length b.nodes)) ds
      → All (λ p. Has p longer × (p.order ≤ length longer)) ds
  stacked_longer ds s =
      All-map _ _ ds
        (λ p i. (Has-append p d b.nodes i.0, omega (arith, i, length-append {0} b.nodes (d ∷ []))))
        s

  pub link-IsLinked :
      (o : Option NodeDraft)
      → HasTop o b.nodes
      → FitsUnder o d
      → All (IsLinked (link o d b).nodes) (link o d b).nodes
  unfolding link
  link-IsLinked none top fits = IsLinked-longer none top fits
  link-IsLinked (some p) top fits = All-IsLinked_child _ p.order d.node_id longer (
      All-map (IsLinked longer) _ longer
        (λ x l. IsLinked-mono longer _ x (λ q i. Has-append_child q p.order d.node_id longer i) l)
        (IsLinked-longer (some p) top fits))

  pub link-accounted :
      (o : Option NodeDraft)
      → HasTop o b.nodes
      → length (link o d b).roots + children_total (link o d b).nodes ≡ length (link o d b).nodes
  unfolding link
  link-accounted none top = omega (
    arith,
    h.accounted,
    length-append {0} b.nodes (d ∷ []),
    length-append {0} b.roots (d.node_id ∷ []),
    children-append b.nodes d,
    ap (length {A = Text}) bare,
  )
  link-accounted (some p) top = omega (
    arith,
    h.accounted,
    length-append {0} b.nodes (d ∷ []),
    length-append_child p.order d.node_id longer,
    children-append_child p 1 d.node_id longer numbered (Has-append p d b.nodes top),
    children-append b.nodes d,
    ap (length {A = Text}) bare,
  )

  pub link-stacked :
      (o : Option NodeDraft) (ds : List NodeDraft)
      → All (λ p. Has p longer × (p.order ≤ length longer)) ds
      → All (λ p. Has p (link o d b).nodes × (p.order ≤ length (link o d b).nodes)) ds
  unfolding link
  link-stacked none ds s = s
  link-stacked (some q) ds s =
      All-map _ _ ds
        (λ p i. (
          Has-append_child p q.order d.node_id longer i.0,
          omega (arith, i, length-append_child q.order d.node_id longer),
        ))
        s
