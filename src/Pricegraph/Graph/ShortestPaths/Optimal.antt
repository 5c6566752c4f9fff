-- ===== src/Pricegraph/Graph/ShortestPaths/Optimal.antt =====
-- pricegraph/src/graph/shortest_paths.rs with the store of unbounded.rs: what a search ends with.
use mathlib.Core.List.{Memᴰ}
use mathlib.Core.List.Memᴰ
use dex_services.Prelude.{
  ℕ, zero, suc, ◌-◌, ◌≤◌, ◌<◌, ◌≡◌, refl, ap, true, false, Option, none, some, List, [], ◌∷◌, ◌++◌,
  length, Bool-cases, inl, inr, ◌⊎◌, ◌==◌, ==-refl, arith,
}
use dex_services.Pricegraph.Graph.{Measure, Graph, Answer, update}
use dex_services.Pricegraph.Graph.Path.Cycle.{Follow, Chain, FindsCycleOrEnd, find_cycle_lem}
use dex_services.Pricegraph.Graph.ShortestPaths.{Searched, from_cycle, from_marked, scan}
use dex_services.Pricegraph.Graph.ShortestPaths.Walks.{Le, IsOrdered, IsClosed, Le_refl, Walk}
use dex_services.Pricegraph.Graph.ShortestPaths.Unbounded.{
  Unbounded, storing, mark_from, improved_by_edge, improves, mark_edge, shortest_path,
}
use dex_services.Pricegraph.Graph.ShortestPaths.Passes.{IsBelow, scan-IsBelow, IsStable-IsBelow}
use dex_services.Pricegraph.Graph.ShortestPaths.Predecessors.{
  IsTree, IsReached, i-IsReached, started, scan-IsTree,
}

-- Each step of the list is an edge of the graph.
abbrev pub IsRoute : {W : Type 0} → Graph W → List ℕ → Type 0
IsRoute g [] = Unit
IsRoute g (a ∷ []) = Unit
IsRoute {W} g (a ∷ b ∷ r) = ((w : W) × Memᴰ (b, w) (g.edges a)) × IsRoute g (b ∷ r)

module _ {W : Type 0} {m : Measure W} (o : IsOrdered m) (g : Graph W) where
  -- The first improved edge, or that there is none.
  abbrev Improved : Unbounded W → ℕ → List (ℕ × W) → Option ℕ → Type 0
  Improved s i es none =
      (j : ℕ) (w : W) → Memᴰ (j, w) es → Le m (s.distances j) (m.add (s.distances i) w)
  Improved s i es (some j) =
      (w : W) × Memᴰ (j, w) es × (m.lt (m.add (s.distances i) w) (s.distances j) ≡ true)

  Improved-cons :
      (s : Unbounded W) (i : ℕ) (e : ℕ × W) (es : List (ℕ × W)) (found : Option ℕ)
      → improves m g s i e ≡ false
      → Improved s i es found
      → Improved s i (e ∷ es) found
  Improved-cons s i e es none n h = λ j w is. elim (Memᴰ.cases_cons is) [
    | inl same ↦ rw (ap (λ d. d.0) same, ap (λ d. d.1) same) n
    | inr later ↦ h j w later
  ]
  Improved-cons s i e es (some j) n (w, is, y) = (w, Memᴰ.tail is, y)

  improved_by_edge-Improved :
      (s : Unbounded W) (i : ℕ) (es : List (ℕ × W)) → Improved s i es (improved_by_edge m g s i es)
  improved_by_edge-Improved s i [] = λ j w is. elim is [ ]
  improved_by_edge-Improved s i (e ∷ es) = elim (Bool-cases (improves m g s i e)) [
    | inl y ↦ rw y (e.1, Memᴰ.head refl, y)
    | inr n ↦ rw n (Improved-cons s i e es _ n (improved_by_edge-Improved s i es))
  ]

  -- What `mark_cycle` does: nothing, where no edge improves a distance, or it makes the source of an
  -- improving edge the predecessor of its target.
  abbrev Marked : Unbounded W → List ℕ → Unbounded W × Option ℕ → Type 0
  Marked s is (s', none) =
      (s' ≡ s)
      × ((i j : ℕ) (w : W)
          → Memᴰ i is
          → Memᴰ (j, w) (g.edges i)
          → Le m (s.distances j) (m.add (s.distances i) w))
  Marked s is (s', some j) =
      (i : ℕ) × (w : W) × Memᴰ (j, w) (g.edges i)
      × (m.lt (m.add (s.distances i) w) (s.distances j) ≡ true)
      × (s' ≡ record s { predecessors = update s.predecessors j (some i) })

  mark_edge-Marked :
      (s : Unbounded W) (i : ℕ) (is : List ℕ) (found : Option ℕ) (rest : Unbounded W × Option ℕ)
      → Improved s i (g.edges i) found
      → Marked s is rest
      → Marked s (i ∷ is) (mark_edge m g s i found rest)
  mark_edge-Marked s i is none (s', none) h (e, rest) = (
    e,
    λ k j w is edge. elim (Memᴰ.cases_cons is) [
      | inl same ↦ rw same (h j w (rw (← same) edge))
      | inr later ↦ rest k j w later edge
    ],
  )
  mark_edge-Marked s i is none (s', some j) h rest = rest
  mark_edge-Marked s i is (some j) rest (w, edge, y) h = (i, w, edge, y, refl)

  mark_from-Marked : (s : Unbounded W) (is : List ℕ) → Marked s is (mark_from m g s is)
  unfolding mark_from
  mark_from-Marked s [] = (refl, λ i j w is edge. elim is [ ])
  mark_from-Marked s (i ∷ is) =
      mark_edge-Marked s i is _ _ (improved_by_edge-Improved s i (g.edges i))
        (mark_from-Marked s is)

module _ {W : Type 0} {m : Measure W} (o : IsOrdered m) (g : Graph W) (source : ℕ) where
  -- The distances are the weights of the lightest walks, or a cycle of edges was found.
  abbrev pub IsAnswered : Searched (Unbounded W) → Type 0
  IsAnswered (Searched.searched s) =
      ((j n : ℕ) (x : W) → Walk m g source j n x → Le m (s.distances j) x)
      × ((j : ℕ) → (s.distances j ≡ m.infinite) ⊎ ((n : ℕ) × Walk m g source j n (s.distances j)))
  IsAnswered (Searched.negative_cycle cycle) =
      (start : ℕ) × (inner : List ℕ) × (cycle ≡ start ∷ inner ++ start ∷ []) × IsRoute g cycle
  IsAnswered Searched.panicked = ⊥
  IsAnswered Searched.out_of_fuel = ⊥

-- An improving edge from `i` to `j` that is left after enough scans, made a predecessor.
module _ {W : Type 0} {m : Measure W} (o : IsOrdered m) (g : Graph W) (source : ℕ) (i j : ℕ) (w : W)
    (s : Unbounded W) (edge : Memᴰ (j, w) (g.edges i)) (t : IsTree m g source s)
    (y : m.lt (m.add (s.distances i) w) (s.distances j) ≡ true) where
  abbrev marked : ℕ → Option ℕ
  marked = update s.predecessors j (some i)

  marked-cases :
      (x y' : ℕ)
      → marked x ≡ some y'
      → ((x ≡ j) × (y' ≡ i)) ⊎ (((x == j) ≡ false) × (s.predecessors x ≡ some y'))
  marked-cases x y' h = elim (Bool-cases (x == j)) [
    | inl e ↦ let h' = rw e at h in inl (ground arith, cc)
    | inr e ↦ inr (e, rw e at h)
  ]

  marked-edge : (x y' : ℕ) → marked x ≡ some y' → (v : W) × Memᴰ (x, v) (g.edges y')
  marked-edge x y' h = elim (marked-cases x y' h) [
    | inl (e, f) ↦ (w, rw (e, f) edge)
    | inr (e, old) ↦ let (v, edge', le) = t.linked x y' old in (v, edge')
  ]

  ended-Walk :
      (x : ℕ)
      → marked x ≡ none
      → ((x == j) ≡ true) ⊎ IsReached source s x
      → (z : W) × Walk m g source x zero z × Le m z (s.distances x)
  ended-Walk x end reached = elim (Bool-cases (x == j)) [
    | inl b ↦ cc (rw b at end)
    | inr b ↦ elim reached [
      | inl b' ↦ cc
      | inr (inl same) ↦
          let e : x ≡ source = ground arith in
          let none_source : s.predecessors source ≡ none = rw (← e) (rw b at end) in
          (m.zero, Walk.here x m.zero e refl, rw (e, t.root none_source) (Le_refl o m.zero))
      | inr (inr (l, e)) ↦ cc (rw b at end)
    ]
  ]

  -- A walk that is as short as the distance says cannot have been missed.
  blocked :
      (n k : ℕ) (z : W)
      → IsBelow o g source k s
      → suc n ≤ k
      → Walk m g source i n z
      → Le m z (s.distances i)
      → ⊥
  blocked n k z below le walk small =
      let walk' : Walk m g source j (suc n) (m.add z w) = Walk.step i j n z _ w walk edge refl in
      let least : Le m (s.distances j) (m.add (s.distances i) w) =
        o.transitive _ _ _ (below j (suc n) (m.add z w) walk' le) (o.monotone _ _ w small) in
      cc

  -- The predecessors that end belong to a walk from the source.
  Follow-Walk :
      (n x c k : ℕ)
      → Follow marked n x c
      → marked c ≡ none
      → IsBelow o g source k s
      → n ≤ k
      → ((x == j) ≡ true) ⊎ IsReached source s x
      → (z : W) × Walk m g source x n z × Le m z (s.distances x)
  Follow-Walk zero x c k follow end below le reached = ended-Walk x (rw follow end) reached
  Follow-Walk (suc n) x c k (y', h, follow) end below le reached = elim (marked-cases x y' h) [
    | inl (e, f) ↦
        let (z, walk, small) =
          Follow-Walk n y' c k follow end below (omega arith)
            (inr (rw f (i-IsReached o g source i j w s edge t y))) in
        absurd (blocked n k z below le (rw (← f) walk) (rw (← f) small))
    | inr (e, old) ↦
        let (z, walk, small) =
          Follow-Walk n y' c k follow end below (omega arith) (inr (t.reached x y' old)) in
        let (v, edge', small') = t.linked x y' old in
        (
          m.add z v,
          Walk.step y' x n z _ v walk edge' refl,
          o.transitive _ _ _ (o.monotone _ _ v small) small',
        )
  ]

  marked-node : (x y' : ℕ) → IsClosed g → marked x ≡ some y' → Memᴰ y' g.node_identifiers
  marked-node x y' c h = let (v, edge') = marked-edge x y' h in c.sources y' x v edge'

  Chain-IsRoute : (cycle : List ℕ) → Chain marked cycle → IsRoute g cycle
  Chain-IsRoute [] h = tt
  Chain-IsRoute (a ∷ []) h = tt
  Chain-IsRoute (a ∷ b ∷ r) h = (marked-edge b a h.0, Chain-IsRoute (b ∷ r) h.1)

  ended :
      (n x : ℕ)
      → IsClosed g
      → IsBelow o g source (length g.node_identifiers - 1) s
      → n < length g.node_identifiers
      → Follow marked n j x
      → marked x ≡ none
      → ⊥
  ended zero x c below few follow end = cc (rw (← follow, ==-refl j) at end)
  ended (suc n) x c below few (y', h, follow) end =
      let from : y' ≡ i = cc (rw (==-refl j) at h) in
      let (z, walk, small) =
        Follow-Walk n i x (length g.node_identifiers - 1) (rw from at follow) end below
          (omega arith) (inr (i-IsReached o g source i j w s edge t y)) in
      blocked n (length g.node_identifiers - 1) z below (omega arith) walk small

  from_cycle-IsAnswered :
      (s' : Unbounded W) (a : Answer (List ℕ))
      → IsClosed g
      → IsBelow o g source (length g.node_identifiers - 1) s
      → FindsCycleOrEnd marked g.node_identifiers j a
      → IsAnswered o g source (from_cycle m g (storing m g) s' a)
  from_cycle-IsAnswered s' (Answer.found cycle) c below (start, (inner, e, chain)) =
      (start, inner, e, Chain-IsRoute cycle chain)
  from_cycle-IsAnswered s' Answer.nothing c below (n, x, few, follow, end) =
      absurd (ended n x c below few follow end)
  from_cycle-IsAnswered s' Answer.panicked c below h = elim h [ ]
  from_cycle-IsAnswered s' Answer.out_of_fuel c below h = elim h [ ]

module _ {W : Type 0} {m : Measure W} (o : IsOrdered m) (g : Graph W) (source : ℕ) where
  from_marked-IsAnswered :
      (s : Unbounded W) (r : Unbounded W × Option ℕ)
      → IsClosed g
      → length g.node_identifiers ≤ g.node_bound
      → IsTree m g source s
      → IsBelow o g source (length g.node_identifiers - 1) s
      → Marked o g s g.node_identifiers r
      → IsAnswered o g source (from_marked m g (storing m g) r)
  from_marked-IsAnswered s (s', none) c l t below (same, stable) = rw same (
    λ j n x walk.
        IsStable-IsBelow o g source s (λ i j w edge. stable i j w (c.sources i j w edge) edge)
          (below source zero m.zero (Walk.here source m.zero refl refl) (omega arith)) j n x walk,
    t.realised,
  )
  from_marked-IsAnswered s (s', some j) c l t below (i, w, edge, y, same) = rw same (
      from_cycle-IsAnswered o g source i j w s edge t y _ _ c below (
        find_cycle_lem (update s.predecessors j (some i)) g.node_identifiers g.node_bound j
          (λ x y' h. marked-node o g source i j w s edge t y x y' c h) (c.targets i j w edge) l))

  started-IsBelow : IsBelow o g source zero (started o g source)
  started-IsBelow j zero x (Walk.here _ _ e f) le = rw (e, f, ==-refl source) (Le_refl o m.zero)
  started-IsBelow j (suc n) x walk le = absurd (omega arith)

  -- A search for the shortest paths of any length ends. Either it finds the distances: none is more
  -- than the weight of a walk from the source, and each is infinite or the weight of such a walk. Or
  -- it returns a cycle of edges, from a node back to it.
  pub shortest_path-IsAnswered :
      IsClosed g
      → length g.node_identifiers ≤ g.node_bound
      → IsAnswered o g source (shortest_path m g source)
  shortest_path-IsAnswered c l =
      let n = length g.node_identifiers - 1 in
      let s = scan m g (storing m g) n (started o g source) in
      from_marked-IsAnswered s (mark_from m g s g.node_identifiers) c l (scan-IsTree o g source n)
        (λ j k x walk le.
          scan-IsBelow o g source n zero (started o g source) c started-IsBelow j k x walk
            (omega arith))
        (mark_from-Marked o g s g.node_identifiers)
