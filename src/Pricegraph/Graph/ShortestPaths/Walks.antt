-- ===== src/Pricegraph/Graph/ShortestPaths/Walks.antt =====
-- pricegraph/src/graph/shortest_paths.rs: the walks of a graph and what is asked of its weights.
use mathlib.Core.List.{Memᴰ}
use dex_services.Prelude.{ℕ, zero, suc, ◌≡◌, true, false, Bool-cases, inl, inr}
use dex_services.Pricegraph.Graph.{Measure, Graph}

-- At most.
abbrev pub Le : {W : Type 0} → Measure W → W → W → Type 0
Le m x y = m.lt y x ≡ false

-- What holds of floating point numbers without NaN, rounding included: the order is total, adding
-- a weight keeps it, and nothing is reached through what is infinitely far.
pub record IsOrdered {W : Type 0} (m : Measure W) : Type 0 where
  pub asymmetric : (x y : W) → m.lt x y ≡ true → m.lt y x ≡ false
  pub transitive : (x y z : W) → Le m x y → Le m y z → Le m x z
  pub monotone : (x y w : W) → Le m x y → Le m (m.add x w) (m.add y w)
  pub unreached : (w x : W) → m.lt (m.add m.infinite w) x ≡ false

-- The edges run between the nodes.
pub record IsClosed {W : Type 0} (g : Graph W) : Type 0 where
  pub sources : (i j : ℕ) (w : W) → Memᴰ (j, w) (g.edges i) → Memᴰ i g.node_identifiers
  pub targets : (i j : ℕ) (w : W) → Memᴰ (j, w) (g.edges i) → Memᴰ j g.node_identifiers

-- The walks from a node, with the number of their edges and their weight, summed from the start.
pub data Walk {W : Type 0} (m : Measure W) (g : Graph W) (source : ℕ) : ℕ → ℕ → W → Type 0 where
  here : (j : ℕ) (x : W) → j ≡ source → x ≡ m.zero → Walk m g source j zero x
  step :
      (i j n : ℕ) (x y w : W)
      → Walk m g source i n x
      → Memᴰ (j, w) (g.edges i)
      → y ≡ m.add x w
      → Walk m g source j (suc n) y

module _ {W : Type 0} {m : Measure W} (o : IsOrdered m) where
  pub Le_refl : (x : W) → Le m x x
  Le_refl x = elim (Bool-cases (m.lt x x)) [ inl y ↦ o.asymmetric x x y | inr n ↦ n ]
