-- ===== src/Pricegraph/Graph/ShortestPaths/Hops.antt =====
-- pricegraph/src/graph/shortest_paths.rs with the store of bounded.rs: the length of what a search
-- with a bound finds.
use mathlib.Core.List.{Memᴰ}
use dex_services.Prelude.{
  ℕ, suc, ◌+◌, ◌≤◌, ◌≡◌, refl, true, Option, some, List, [], ◌∷◌, ◌++◌, length, All, Bool-cases,
  Option-cases, inl, inr, ◌==◌, arith, ap,
}
use dex_services.Pricegraph.Graph.{Graph, Answer}
use dex_services.Pricegraph.Graph.ShortestPaths.Optimal.{IsRoute}
use dex_services.Pricegraph.Graph.ShortestPaths.Bounded.{
  path_back, closes, closing_node, cycle_back,
}

module _ {W : Type 0} (g : Graph W) where
  -- The predecessors are along edges.
  abbrev pub IsLinked : (ℕ → Option ℕ) → Type 0
  IsLinked p = (j i : ℕ) → p j ≡ some i → (w : W) × Memᴰ (j, w) (g.edges i)

  -- A route from a node to another with at most so many edges, as the list of its nodes.
  pub record IsRouteWithin (source dest hops : ℕ) (path : List ℕ) : Type 0 where
    pub route : IsRoute g path
    pub starts : (rest : List ℕ) × (path ≡ source ∷ rest)
    pub ends : (rest : List ℕ) × (path ≡ rest ++ dest ∷ [])
    pub short : length path ≤ suc hops

  -- Nothing, or such a route.
  abbrev pub FindsRoute : ℕ → ℕ → ℕ → Answer (List ℕ) → Type 0
  FindsRoute source dest hops (Answer.found path) = IsRouteWithin source dest hops path
  FindsRoute source dest hops Answer.nothing = Unit
  FindsRoute source dest hops Answer.panicked = ⊥
  FindsRoute source dest hops Answer.out_of_fuel = ⊥

  -- The part of the route from the current node on.
  pub record IsEnd (dest current hops : ℕ) (path : List ℕ) : Type 0 where
    pub route : IsRoute g (current ∷ path)
    pub ends : (rest : List ℕ) × (current ∷ path ≡ rest ++ dest ∷ [])
    pub short : length path ≤ hops

  IsEnd-cons :
      (dest current next hops : ℕ) (path : List ℕ)
      → ((w : W) × Memᴰ (current, w) (g.edges next))
      → IsEnd dest current hops path
      → IsEnd dest next (suc hops) (current ∷ path)
  IsEnd-cons dest current next hops path edge h = record {
    route = (edge, h.route);
    ends = (next ∷ h.ends.0, ap (λ l. next ∷ l) h.ends.1);
    short = omega (arith, h.short);
  }

  IsEnd-IsRouteWithin :
      (source dest hops : ℕ) (path : List ℕ)
      → IsEnd dest source hops path
      → IsRouteWithin source dest hops (source ∷ path)
  IsEnd-IsRouteWithin source dest hops path h = record {
    route = h.route;
    starts = (path, refl);
    ends = h.ends;
    short = omega (arith, h.short);
  }

  IsEnd-mono :
      (dest current hops hops' : ℕ) (path : List ℕ)
      → hops ≤ hops'
      → IsEnd dest current hops path
      → IsEnd dest current hops' path
  IsEnd-mono dest current hops hops' path l h = record {
    route = h.route;
    ends = h.ends;
    short = omega (arith, h.short);
  }

  module _ (dest total : ℕ) where
    pub path_back-FindsRoute :
        (source : ℕ) (ps : List (ℕ → Option ℕ)) (current hops : ℕ) (path : List ℕ)
        → All IsLinked ps
        → IsEnd dest current hops path
        → hops + length ps ≤ total
        → FindsRoute source dest total (path_back ps source current path)
    unfolding path_back
    path_back-FindsRoute source [] current hops path l h le = tt
    path_back-FindsRoute source (p ∷ ps) current hops path l h le =
        elim (Option-cases (p current)) [
          | inl e ↦
              rw (e, path_back)
                (path_back-FindsRoute source ps current hops path l.1 h (omega arith))
          | inr (next, e) ↦
              let more = IsEnd-cons dest current next hops path (l.0 current next e) h in
              elim (Bool-cases (next == source)) [
                | inl b ↦
                    let same : next ≡ source = ground arith in
                    rw (e, b, path_back)
                      (IsEnd-IsRouteWithin source dest total (current ∷ path) (
                        IsEnd-mono dest source (suc hops) total (current ∷ path) (omega arith)
                          (rw same at more)))
                | inr b ↦
                    rw (e, b, path_back)
                      (path_back-FindsRoute source ps next (suc hops) (current ∷ path) l.1 more
                        (omega arith))
              ]
        ]

    -- A route from a node back to it.
    abbrev pub FindsCycle : Answer (List ℕ) → Type 0
    FindsCycle (Answer.found cycle) = IsRouteWithin dest dest total cycle
    FindsCycle Answer.nothing = ⊥
    FindsCycle Answer.panicked = ⊥
    FindsCycle Answer.out_of_fuel = ⊥

    -- What `mark_cycle` has found, `find_cycle` finds again.
    pub cycle_back-FindsCycle :
        (ps : List (ℕ → Option ℕ)) (current hops : ℕ) (path : List ℕ)
        → All IsLinked ps
        → IsEnd dest current hops path
        → hops + length ps ≤ total
        → closes ps dest current ≡ true
        → FindsCycle (cycle_back ps dest current path)
    unfolding cycle_back closes
    cycle_back-FindsCycle [] current hops path l h le c = cc
    cycle_back-FindsCycle (p ∷ ps) current hops path l h le c = elim (Option-cases (p current)) [
      | inl e ↦
          rw (e, cycle_back)
            (cycle_back-FindsCycle ps current hops path l.1 h (omega arith) (rw (e, closes) at c))
      | inr (next, e) ↦
          let more = IsEnd-cons dest current next hops path (l.0 current next e) h in
          elim (Bool-cases (next == dest)) [
            | inl b ↦
                let same : next ≡ dest = ground arith in
                rw (e, b, cycle_back)
                  (IsEnd-IsRouteWithin dest dest total (current ∷ path) (
                    IsEnd-mono dest dest (suc hops) total (current ∷ path) (omega arith)
                      (rw same at more)))
            | inr b ↦
                rw (e, b, cycle_back)
                  (cycle_back-FindsCycle ps next (suc hops) (current ∷ path) l.1 more (omega arith)
                    (rw (e, b, closes) at c))
          ]
    ]

pub closing_node-closes :
    (ps : List (ℕ → Option ℕ)) (nodes : List ℕ) (node : ℕ)
    → closing_node ps nodes ≡ some node
    → closes ps node node ≡ true
unfolding closing_node
closing_node-closes ps [] node h = cc
closing_node-closes ps (n ∷ ns) node h = elim (Bool-cases (closes ps n n)) [
  | inl y ↦ let same : n ≡ node = cc (rw y at h) in rw (← same) y
  | inr d ↦ closing_node-closes ps ns node (rw d at h)
]
