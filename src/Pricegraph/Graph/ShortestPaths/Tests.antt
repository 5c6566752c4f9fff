-- ===== src/Pricegraph/Graph/ShortestPaths/Tests.antt =====
-- pricegraph/src/graph/shortest_paths: searches in a graph with two routes to node 3.
use mathlib.Core.List.{Memᴰ}
use dex_services.Prelude.{ℕ, zero, suc, ◌≡◌, refl, true, false, Option, none, some, [], ◌∷◌, arith}
use dex_services.Pricegraph.Graph.{Graph, Answer}
use dex_services.Pricegraph.Graph.Path.{find_cycle}
use dex_services.Pricegraph.Graph.ShortestPaths.{Searched}
use dex_services.Pricegraph.Graph.ShortestPaths.Walks.{IsOrdered, IsClosed, Walk, Le}
use dex_services.Pricegraph.Graph.ShortestPaths.Unbounded
use dex_services.Pricegraph.Graph.ShortestPaths.Bounded
use dex_services.Pricegraph.Graph.ShortestPaths.Optimal.{IsAnswered, shortest_path-IsAnswered}
use dex_services.Pricegraph.Graph.ShortestPaths.Within.{IsWithin, shortest_path-IsWithin}
use dex_services.Pricegraph.Graph.ShortestPaths.Overwritten.{
  exact, exact_add, exact_lt, two_routes, two_edges, shortest_path_overwritten,
}

exact-asymmetric : (x y : Option ℕ) → exact_lt x y ≡ true → exact_lt y x ≡ false
exact-asymmetric none y h = cc
exact-asymmetric (some x) none h = refl
exact-asymmetric (some x) (some y) h = ground arith

exact-transitive : (x y z : Option ℕ) → Le exact x y → Le exact y z → Le exact x z
exact-transitive x y none h k = refl
exact-transitive x none (some z) h k = cc
exact-transitive none (some y) (some z) h k = cc
exact-transitive (some x) (some y) (some z) h k = ground arith

exact-monotone : (x y w : Option ℕ) → Le exact x y → Le exact (exact_add x w) (exact_add y w)
exact-monotone x none w h = refl
exact-monotone none (some y) w h = cc
exact-monotone (some x) (some y) none h = refl
exact-monotone (some x) (some y) (some w) h = ground arith

exact-IsOrdered : IsOrdered exact
exact-IsOrdered = record {
  asymmetric = exact-asymmetric;
  transitive = exact-transitive;
  monotone = exact-monotone;
  unreached = λ w x. refl;
}

abbrev example_graph : Graph (Option ℕ)
example_graph = two_routes 1 4 2 5

node_known :
    (i : ℕ) (j : ℕ) (w : Option ℕ) → Memᴰ (j, w) (two_edges 1 4 2 5 i) → Memᴰ i (0 ∷ 1 ∷ 2 ∷ 3 ∷ [])
node_known zero j w is = Memᴰ.head refl
node_known (suc zero) j w is = Memᴰ.tail (Memᴰ.head refl)
node_known (suc (suc zero)) j w is = Memᴰ.tail (Memᴰ.tail (Memᴰ.head refl))
node_known (suc (suc (suc n))) j w is = elim is [ ]

target_known :
    (i : ℕ) (j : ℕ) (w : Option ℕ) → Memᴰ (j, w) (two_edges 1 4 2 5 i) → Memᴰ j (0 ∷ 1 ∷ 2 ∷ 3 ∷ [])
target_known zero j w (Memᴰ.head e) = Memᴰ.tail (Memᴰ.head (cc))
target_known zero j w (Memᴰ.tail (Memᴰ.head e)) = Memᴰ.tail (Memᴰ.tail (Memᴰ.head (cc)))
target_known zero j w (Memᴰ.tail (Memᴰ.tail is)) = elim is [ ]
target_known (suc zero) j w (Memᴰ.head e) = Memᴰ.tail (Memᴰ.tail (Memᴰ.tail (Memᴰ.head (cc))))
target_known (suc zero) j w (Memᴰ.tail is) = elim is [ ]
target_known (suc (suc zero)) j w (Memᴰ.head e) = Memᴰ.tail (Memᴰ.tail (Memᴰ.tail (Memᴰ.head (cc))))
target_known (suc (suc zero)) j w (Memᴰ.tail is) = elim is [ ]
target_known (suc (suc (suc n))) j w is = elim is [ ]

example-IsClosed : IsClosed example_graph
example-IsClosed = record { sources = node_known; targets = target_known }

shortest_path-IsAnswered_example :
    IsAnswered exact-IsOrdered example_graph 0 (Unbounded.shortest_path exact example_graph 0)
shortest_path-IsAnswered_example =
    shortest_path-IsAnswered exact-IsOrdered example_graph 0 example-IsClosed (omega arith)

shortest_path-IsWithin_example :
    IsWithin exact-IsOrdered example_graph 0 3 (Bounded.shortest_path exact example_graph 0 3)
shortest_path-IsWithin_example = shortest_path-IsWithin exact-IsOrdered example_graph 0 3

shortest_path_overwritten_example :
    (s : Bounded.Bounded (Option ℕ)) × (Bounded.shortest_path exact (two_routes 1 4 2 5) 0 2
      ≡ Searched.searched s)
    × (s.current 3 ≡ some 9)
    × Walk exact (two_routes 1 4 2 5) 0 3 2 (some 3)
    × (exact.lt (some 3) (s.current 3) ≡ true)
shortest_path_overwritten_example = shortest_path_overwritten 1 4 2 5 (omega arith)

-- The predecessors 2 of 1 and 1 of 2.
abbrev in_a_ring : ℕ → Option ℕ
in_a_ring zero = none
in_a_ring (suc zero) = some 2
in_a_ring (suc (suc zero)) = some 1
in_a_ring (suc (suc (suc n))) = none

ring_known : (x y : ℕ) → in_a_ring x ≡ some y → Memᴰ y (0 ∷ 1 ∷ 2 ∷ [])
ring_known zero y e = cc
ring_known (suc zero) y e = Memᴰ.tail (Memᴰ.tail (Memᴰ.head (cc)))
ring_known (suc (suc zero)) y e = Memᴰ.tail (Memᴰ.head (cc))
ring_known (suc (suc (suc n))) y e = cc

-- The cycle is found: from 2 over 1 back to 2 is one step of each.
find_cycle_ring : find_cycle in_a_ring 3 1 none ≡ Answer.found (1 ∷ 2 ∷ 1 ∷ [])
unfolding find_cycle
find_cycle_ring = refl
