-- ===== src/Pricegraph/Graph/ShortestPaths/Within.antt =====
-- pricegraph/src/graph/shortest_paths.rs with the store of bounded.rs: what a search with a bound on
-- the hops ends with.
use dex_services.Prelude.{
  ℕ, zero, ◌≤◌, ◌≡◌, refl, Option, none, some, [], Bool-cases, inl, inr, ◌==◌, arith,
}
use dex_services.Pricegraph.Graph.{Measure, Graph, Answer}
use dex_services.Pricegraph.Graph.ShortestPaths.{
  Searched, scan, from_cycle, from_marked, start_distances,
}
use dex_services.Pricegraph.Graph.ShortestPaths.Walks.{IsOrdered, Walk}
use dex_services.Pricegraph.Graph.ShortestPaths.Bounded.{
  Bounded, steps, storing, path_back, closes, closing_node, cycle_back, shortest_path,
}
use dex_services.Pricegraph.Graph.ShortestPaths.Hops.{
  IsEnd, FindsRoute, FindsCycle, IsRouteWithin, path_back-FindsRoute, cycle_back-FindsCycle,
  closing_node-closes,
}
use dex_services.Pricegraph.Graph.ShortestPaths.Layers.{IsRealised, IsBetween, scan-IsBetween}

module _ {W : Type 0} {m : Measure W} (o : IsOrdered m) (g : Graph W) (source hops : ℕ) where
  -- Distances that are infinite or the weight of a walk within the bound, and routes within the
  -- bound; or a cycle within the bound.
  abbrev pub IsWithin : Searched (Bounded W) → Type 0
  IsWithin (Searched.searched s) =
      ((j : ℕ) → IsRealised o g source hops j (s.current j))
      × ((dest : ℕ) → FindsRoute g source dest hops ((storing m g).path_to s source dest))
  IsWithin (Searched.negative_cycle cycle) = (start : ℕ) × IsRouteWithin g start start hops cycle
  IsWithin Searched.panicked = ⊥
  IsWithin Searched.out_of_fuel = ⊥

  alone-IsEnd : (dest : ℕ) → IsEnd g dest dest zero []
  alone-IsEnd dest = record { route = tt; ends = ([], refl); short = omega arith }

  between-FindsRoute :
      (k : ℕ) (s : Bounded W) (dest : ℕ)
      → k ≤ hops
      → IsBetween o g source k s
      → FindsRoute g source dest hops ((storing m g).path_to s source dest)
  unfolding path_back
  between-FindsRoute k s dest le h =
      rw (h.fresh, path_back)
        (path_back-FindsRoute g dest hops source s.earlier dest zero [] h.layered.linked.1
          (alone-IsEnd dest) (omega (arith, h.layered.count)))

  between-IsRealised :
      (k : ℕ) (s : Bounded W) (j : ℕ)
      → k ≤ hops
      → IsRealised o g source k j (s.current j)
      → IsRealised o g source hops j (s.current j)
  between-IsRealised k s j le (inl far) = inl far
  between-IsRealised k s j le (inr (l, short, walk)) = inr (l, omega arith, walk)

  FindsCycle-IsWithin :
      (s : Bounded W) (node : ℕ) (a : Answer _)
      → FindsCycle g node hops a
      → IsWithin (from_cycle m g (storing m g) s a)
  FindsCycle-IsWithin s node (Answer.found cycle) h = (node, h)
  FindsCycle-IsWithin s node Answer.nothing h = elim h [ ]
  FindsCycle-IsWithin s node Answer.panicked h = elim h [ ]
  FindsCycle-IsWithin s node Answer.out_of_fuel h = elim h [ ]

  marked-IsWithin :
      (k : ℕ) (s : Bounded W) (found : Option ℕ)
      → k ≤ hops
      → IsBetween o g source k s
      → closing_node (steps s) g.node_identifiers ≡ found
      → IsWithin (from_marked m g (storing m g) (s, found))
  unfolding cycle_back closes
  marked-IsWithin k s none le h e = (
    λ j. between-IsRealised k s j le (h.layered.currents j),
    λ dest. between-FindsRoute k s dest le h,
  )
  marked-IsWithin k s (some node) le h e =
      let closed = closing_node-closes (steps s) g.node_identifiers node e in
      FindsCycle-IsWithin s node _ (
        rw (h.fresh, cycle_back)
          (cycle_back-FindsCycle g node hops s.earlier node zero [] h.layered.linked.1
            (alone-IsEnd node) (omega (arith, h.layered.count)) (rw (h.fresh, closes) at closed)))

  abbrev started : Bounded W
  started = record {
    last = λ i. none;
    earlier = [];
    current = start_distances m source;
    pending = start_distances m source;
  }

  start-IsRealised : (n j : ℕ) → IsRealised o g source n j (start_distances m source j)
  start-IsRealised n j = elim (Bool-cases (j == source)) [
    | inl b ↦ rw b (inr (zero, omega arith, Walk.here j m.zero (ground arith) refl))
    | inr b ↦ rw b (inl refl)
  ]

  started-IsBetween : IsBetween o g source zero started
  started-IsBetween = record {
    layered = record {
      currents = start-IsRealised zero;
      pendings = start-IsRealised 1;
      linked = (λ j i e. cc, tt);
      count = omega arith;
    };
    fresh = refl;
  }

  -- A search with a bound on the hops ends and does not panic. Either it finds distances that are
  -- infinite or the weight of a walk within the bound, and each path that it then gives is a route of
  -- edges from the source to the asked node within the bound; or it returns a cycle of edges within
  -- the bound, from a node back to it.
  pub shortest_path-IsWithin : IsWithin (shortest_path m g source hops)
  shortest_path-IsWithin =
      let (k, le, h) = scan-IsBetween o g source hops zero started started-IsBetween in
      marked-IsWithin k (scan m g (storing m g) hops started) _ (omega arith) h refl
