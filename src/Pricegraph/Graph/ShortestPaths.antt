-- ===== src/Pricegraph/Graph/ShortestPaths.antt =====
-- pricegraph/src/graph/shortest_paths.rs: Bellman-Ford over a store of distances and predecessors;
-- the children are the two stores and the theorems on them.
pub mod Walks
pub mod Unbounded
pub mod Bounded
pub mod Passes
pub mod Predecessors
pub mod Optimal
pub mod Hops
pub mod Layers
pub mod Within
pub mod Overwritten
pub mod Tests
use dex_services.Prelude.{
  ℕ, zero, suc, ◌-◌, Bool, true, false, Option, none, some, List, [], ◌∷◌, length, ◌==◌,
  if◌then◌else◌,
}
use dex_services.Pricegraph.Graph.{Measure, Graph, Answer}

-- `PredecessorStoring`, as the functions of a store `S`; `graph` is that of the call.
pub record PredecessorStoring (W S : Type 0) : Type 0 where
  pub distance : S → ℕ → W
  pub update_distance : S → ℕ → W → S
  pub update_predecessor : S → ℕ → Option ℕ → S
  pub path_to : S → ℕ → ℕ → Answer (List ℕ)
  pub prepare_next_relaxation_step : S → S
  pub mark_cycle : S → S × Option ℕ
  pub find_cycle : S → ℕ → Answer (List ℕ)

-- `Result<P, NegativeCycle>`
pub data Searched (S : Type 0) : Type 0 where
  searched : S → Searched S
  negative_cycle : List ℕ → Searched S
  panicked out_of_fuel : Searched S

module _ {W S : Type 0} (m : Measure W) (g : Graph W) (p : PredecessorStoring W S) where
  -- The body of the loops over the edges: the store, and `did_update`.
  unfoldable pub relax : ℕ → S × Bool → ℕ × W → S × Bool
  relax i (s, did_update) (j, w) =
      let through = m.add (p.distance s i) w in
      if m.lt through (p.distance s j)
      then (p.update_predecessor (p.update_distance s j through) j (some i), true)
      else (s, did_update)

  abbrev pub relax_edges : ℕ → S × Bool → List (ℕ × W) → S × Bool
  relax_edges i s [] = s
  relax_edges i s (e ∷ es) = relax_edges i (relax i s e) es

  abbrev pub relax_nodes : S × Bool → List ℕ → S × Bool
  relax_nodes s [] = s
  relax_nodes s (i ∷ is) = relax_nodes (relax_edges i s (g.edges i)) is

  -- The scans, at most as often as the number says.
  unfoldable pub scan : ℕ → S → S
  scan zero s = s
  scan (suc n) s =
      let (s', did_update) = relax_nodes (s, false) g.node_identifiers in
      let prepared = p.prepare_next_relaxation_step s' in
      let rest = scan n prepared in if did_update then rest else prepared

  abbrev pub from_cycle : S → Answer (List ℕ) → Searched S
  from_cycle s (Answer.found cycle) = Searched.negative_cycle cycle
  from_cycle s Answer.nothing = Searched.searched s
  from_cycle s Answer.panicked = Searched.panicked
  from_cycle s Answer.out_of_fuel = Searched.out_of_fuel

  -- `ShortestPathGraphImpl::find_cycle`, and what `bellman_ford` makes of it.
  abbrev pub from_marked : S × Option ℕ → Searched S
  from_marked (s, none) = Searched.searched s
  from_marked (s, some search_start) = from_cycle s (p.find_cycle s search_start)

  abbrev scans : Option ℕ → ℕ
  scans none = length g.node_identifiers - 1
  scans (some hops) = hops

  abbrev pub bellman_ford : Option ℕ → S → Searched S
  bellman_ford hops s = from_marked (p.mark_cycle (scan (scans hops) s))

module _ {W : Type 0} (m : Measure W) where
  -- `infinite` everywhere but at the source.
  abbrev pub start_distances : ℕ → ℕ → W
  start_distances source j = if j == source then m.zero else m.infinite
