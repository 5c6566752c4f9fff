-- ===== src/Pricegraph/Graph.antt =====
-- pricegraph/src/graph: graph algorithms over a graph and a measure that are given. `petgraph` is
-- not modelled: a graph is what the algorithms read of it, and node indices are the nodes.
pub mod Path
pub mod ShortestPaths
use dex_services.Prelude.{ℕ, Bool, List, ◌==◌, if◌then◌else◌}

-- `petgraph::algo::FloatMeasure`, with the sum and the order of the weights.
pub record Measure (W : Type 0) : Type 0 where
  pub zero : W
  pub infinite : W
  pub add : W → W → W
  pub lt : W → W → Bool

-- What is read of a graph: `edges` are the targets and weights of the edges from a node.
pub record Graph (W : Type 0) : Type 0 where
  pub node_bound : ℕ
  pub node_identifiers : List ℕ
  pub edges : ℕ → List (ℕ × W)

-- An answer of a walk through the predecessors: `nothing` is `None`.
pub data Answer (A : Type 0) : Type 0 where
  found : A → Answer A
  nothing panicked out_of_fuel : Answer A

-- A vector that is indexed by nodes, as a function; `vec[i] = v`.
abbrev pub update {ℓ} : {A : Type ℓ} → (ℕ → A) → ℕ → A → ℕ → A
update vec i v j = if j == i then v else vec j
