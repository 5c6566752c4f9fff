-- ===== src/Pricegraph/Graph/ShortestPaths/Unbounded.antt =====
-- pricegraph/src/graph/shortest_paths/unbounded.rs: the store for paths of any length.
use dex_services.Prelude.{
  ℕ, zero, suc, Bool, true, false, Option, none, some, List, [], ◌∷◌, ◌==◌, if◌then◌else◌,
}
use dex_services.Pricegraph.Graph.{Measure, Graph, Answer, update}
use dex_services.Pricegraph.Graph.Path
use dex_services.Pricegraph.Graph.ShortestPaths.{
  PredecessorStoring, Searched, bellman_ford, start_distances,
}

pub record Unbounded (W : Type 0) : Type 0 where
  pub predecessors : ℕ → Option ℕ
  pub distances : ℕ → W

-- The loop of `path_to`; `allowed` is how many pushes its assertion still lets through.
pub path_back : (ℕ → Option ℕ) → ℕ → ℕ → ℕ → List ℕ → Answer (List ℕ)
path_back predecessors zero source current path =
    if current == source then Answer.found (source ∷ path) else Answer.panicked
path_back predecessors (suc allowed) source current path = elim (current == source) [
  | true ↦ Answer.found (source ∷ path)
  | false ↦ elim (predecessors current) [
    | none ↦ Answer.nothing
    | some next ↦ path_back predecessors allowed source next (current ∷ path)
  ]
]

module _ {W : Type 0} (m : Measure W) (g : Graph W) where
  abbrev pub improves : Unbounded W → ℕ → ℕ × W → Bool
  improves s i (j, w) = m.lt (m.add (s.distances i) w) (s.distances j)

  -- The target of the first edge from a node that improves a distance.
  abbrev pub improved_by_edge : Unbounded W → ℕ → List (ℕ × W) → Option ℕ
  improved_by_edge s i [] = none
  improved_by_edge s i (e ∷ es) = if improves s i e then some e.0 else improved_by_edge s i es

  abbrev pub mark_edge :
      Unbounded W → ℕ → Option ℕ → Unbounded W × Option ℕ → Unbounded W × Option ℕ
  mark_edge s i none rest = rest
  mark_edge s i (some j) rest =
      (record s { predecessors = update s.predecessors j (some i) }, some j)

  -- The loops of `mark_cycle`.
  unfoldable pub mark_from : Unbounded W → List ℕ → Unbounded W × Option ℕ
  mark_from s [] = (s, none)
  mark_from s (i ∷ is) = mark_edge s i (improved_by_edge s i (g.edges i)) (mark_from s is)

  abbrev pub storing : PredecessorStoring W (Unbounded W)
  storing = record {
    distance = λ s j. s.distances j;
    update_distance = λ s j d. record s { distances = update s.distances j d };
    update_predecessor = λ s j i. record s { predecessors = update s.predecessors j i };
    path_to = λ s source dest. path_back s.predecessors (suc g.node_bound) source dest [];
    prepare_next_relaxation_step = λ s. s;
    mark_cycle = λ s. mark_from s g.node_identifiers;
    find_cycle = λ s search_start. Path.find_cycle s.predecessors g.node_bound search_start none;
  }

  -- `shortest_path` without a bound on the hops.
  abbrev pub shortest_path : ℕ → Searched (Unbounded W)
  shortest_path source =
      bellman_ford m g storing none
        (record { predecessors = λ i. none; distances = start_distances m source })
