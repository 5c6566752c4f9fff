-- ===== src/Pricegraph/Graph/ShortestPaths/Bounded.antt =====
-- pricegraph/src/graph/shortest_paths/bounded.rs: the store for paths of a bounded length.
use dex_services.Prelude.{
  ℕ, Bool, true, false, Option, none, some, List, [], ◌∷◌, ◌==◌, if◌then◌else◌,
}
use dex_services.Pricegraph.Graph.{Measure, Graph, Answer, update}
use dex_services.Pricegraph.Graph.ShortestPaths.{
  PredecessorStoring, Searched, bellman_ford, start_distances,
}

-- The vector `predecessors_at_step` is never empty: `last` is its last element, and `earlier` the
-- others, the newest first, as every loop of the code visits them.
pub record Bounded (W : Type 0) : Type 0 where
  pub last : ℕ → Option ℕ
  pub earlier : List (ℕ → Option ℕ)
  pub current : ℕ → W
  pub pending : ℕ → W

abbrev pub steps : {W : Type 0} → Bounded W → List (ℕ → Option ℕ)
steps s = s.last ∷ s.earlier

-- The loop of `path_to`, from the last step on.
unfoldable pub path_back : List (ℕ → Option ℕ) → ℕ → ℕ → List ℕ → Answer (List ℕ)
path_back [] source current path = Answer.nothing
path_back (predecessors ∷ rest) source current path = elim (predecessors current) [
  | none ↦ path_back rest source current path
  | some next ↦ elim (next == source) [
    | true ↦ Answer.found (source ∷ current ∷ path)
    | false ↦ path_back rest source next (current ∷ path)
  ]
]

-- Whether the walk back from a node meets the end node.
unfoldable pub closes : List (ℕ → Option ℕ) → ℕ → ℕ → Bool
closes [] end_node node = false
closes (predecessors ∷ rest) end_node node = elim (predecessors node) [
  | none ↦ closes rest end_node node
  | some next ↦ if next == end_node then true else closes rest end_node next
]

-- The loop of `mark_cycle` over the nodes.
unfoldable pub closing_node : List (ℕ → Option ℕ) → List ℕ → Option ℕ
closing_node steps [] = none
closing_node steps (node ∷ nodes) =
    if closes steps node node then some node else closing_node steps nodes

-- The loop of `find_cycle`, which panics where it does not meet its start.
unfoldable pub cycle_back : List (ℕ → Option ℕ) → ℕ → ℕ → List ℕ → Answer (List ℕ)
cycle_back [] search_start node cycle = Answer.panicked
cycle_back (predecessors ∷ rest) search_start node cycle = elim (predecessors node) [
  | none ↦ cycle_back rest search_start node cycle
  | some next ↦ elim (next == search_start) [
    | true ↦ Answer.found (search_start ∷ node ∷ cycle)
    | false ↦ cycle_back rest search_start next (node ∷ cycle)
  ]
]

module _ {W : Type 0} (m : Measure W) (g : Graph W) where
  abbrev pub storing : PredecessorStoring W (Bounded W)
  storing = record {
    distance = λ s j. s.current j;
    update_distance = λ s j d. record s { pending = update s.pending j d };
    update_predecessor = λ s j i. record s { last = update s.last j i };
    path_to = λ s source dest. path_back (steps s) source dest [];
    prepare_next_relaxation_step =
        λ s. record s { last = λ i. none; earlier = s.last ∷ s.earlier; current = s.pending };
    mark_cycle = λ s. (s, closing_node (steps s) g.node_identifiers);
    find_cycle = λ s search_start. cycle_back (steps s) search_start search_start [];
  }

  -- `shortest_path` with a bound on the hops.
  abbrev pub shortest_path : ℕ → ℕ → Searched (Bounded W)
  shortest_path source hops = bellman_ford m g storing (some hops) (record {
    last = λ i. none;
    earlier = [];
    current = start_distances m source;
    pending = start_distances m source;
  })
