-- ===== src/Pricegraph/Graph/ShortestPaths/Overwritten.antt =====
-- pricegraph/src/graph/shortest_paths.rs with the store of bounded.rs: a scan that improves the same
-- distance twice keeps the last improvement and not the best one.
use mathlib.Core.List.{Memᴰ}
use dex_services.Prelude.{
  ℕ, zero, suc, ◌+◌, ◌<◌, ◌≡◌, refl, ap, ◌∙◌, if◌then◌else◌, Bool, true, false, Option, none, some,
  List, [], ◌∷◌, ltb, arith,
}
use dex_services.Pricegraph.Graph.{Measure, Graph, update}
use dex_services.Pricegraph.Graph.ShortestPaths.{
  Searched, relax, relax_nodes, scan, start_distances, from_marked,
}
use dex_services.Pricegraph.Graph.ShortestPaths.Walks.{Walk}
use dex_services.Pricegraph.Graph.ShortestPaths.Bounded.{
  Bounded, storing, shortest_path, closing_node, closes,
}

-- Natural numbers with infinity, which is `none`: exact, so no rounding is involved.
abbrev pub exact_add : Option ℕ → Option ℕ → Option ℕ
exact_add none y = none
exact_add (some x) none = none
exact_add (some x) (some y) = some (x + y)

abbrev pub exact_lt : Option ℕ → Option ℕ → Bool
exact_lt none y = false
exact_lt (some x) none = true
exact_lt (some x) (some y) = ltb x y

abbrev pub exact : Measure (Option ℕ)
exact = record { zero = some 0; infinite = none; add = exact_add; lt = exact_lt }

-- Two routes from node 0 to node 3, through node 1 and through node 2.
abbrev pub two_edges : ℕ → ℕ → ℕ → ℕ → ℕ → List (ℕ × Option ℕ)
two_edges a b c d zero = (1, some a) ∷ (2, some b) ∷ []
two_edges a b c d (suc zero) = (3, some c) ∷ []
two_edges a b c d (suc (suc zero)) = (3, some d) ∷ []
two_edges a b c d (suc (suc (suc n))) = []

abbrev pub two_routes : ℕ → ℕ → ℕ → ℕ → Graph (Option ℕ)
two_routes a b c d = record {
  node_bound = 4;
  node_identifiers = 0 ∷ 1 ∷ 2 ∷ 3 ∷ [];
  edges = two_edges a b c d;
}

ltb_irrefl : (n : ℕ) → ltb n n ≡ false
ltb_irrefl n = ground arith

module _ (a b c d : ℕ) where
  abbrev first_distances : ℕ → Option ℕ
  first_distances = update (update (start_distances exact 0) 1 (some (0 + a))) 2 (some (0 + b))

  abbrev first_predecessors : ℕ → Option ℕ
  first_predecessors = update (update (λ i. none) 1 (some 0)) 2 (some 0)

  -- After the first scan.
  abbrev after_first : Bounded (Option ℕ)
  after_first = record {
    last = λ i. none;
    earlier = first_predecessors ∷ [];
    current = first_distances;
    pending = first_distances;
  }

  abbrev relax_one : ℕ → Bounded (Option ℕ) × Bool → ℕ × Option ℕ → Bounded (Option ℕ) × Bool
  relax_one = relax exact (two_routes a b c d) (storing exact (two_routes a b c d))

  abbrev improved : Bounded (Option ℕ) → ℕ → ℕ → Bounded (Option ℕ)
  improved s i w = record s {
    last = update s.last 3 (some i);
    pending = update s.pending 3 (some w);
  }

  abbrev over_1 : Bounded (Option ℕ)
  over_1 = improved after_first 1 (0 + a + c)

  abbrev over_2 : Bounded (Option ℕ)
  over_2 = improved over_1 2 (0 + b + d)

  edge_1 : relax_one 0 (after_first, false) (1, some a) ≡ (after_first, false)
  unfolding relax
  edge_1 = rw (ltb_irrefl (0 + a)) refl

  edge_2 : relax_one 0 (after_first, false) (2, some b) ≡ (after_first, false)
  unfolding relax
  edge_2 = rw (ltb_irrefl (0 + b)) refl

  edge_3 : relax_one 1 (after_first, false) (3, some c) ≡ (over_1, true)
  unfolding relax
  edge_3 = refl

  -- The distance that is compared is still the infinite one.
  edge_4 : relax_one 2 (over_1, true) (3, some d) ≡ (over_2, true)
  unfolding relax
  edge_4 = refl

  second_pass :
      relax_nodes exact
        (two_routes a b c d)
        (storing exact (two_routes a b c d))
        (after_first, false)
        (0 ∷ 1 ∷ 2 ∷ 3 ∷ [])
      ≡ (over_2, true)
  second_pass = rw (edge_1, edge_2, edge_3, edge_4) refl

  abbrev started : Bounded (Option ℕ)
  started = record {
    last = λ i. none;
    earlier = [];
    current = start_distances exact 0;
    pending = start_distances exact 0;
  }

  abbrev scan_with : ℕ → Bounded (Option ℕ) → Bounded (Option ℕ)
  scan_with = scan exact (two_routes a b c d) (storing exact (two_routes a b c d))

  abbrev pass_with : Bounded (Option ℕ) → Bounded (Option ℕ) × Bool
  pass_with s =
      relax_nodes exact (two_routes a b c d) (storing exact (two_routes a b c d)) (s, false)
        (0 ∷ 1 ∷ 2 ∷ 3 ∷ [])

  abbrev prepare : Bounded (Option ℕ) → Bounded (Option ℕ)
  prepare = (storing exact (two_routes a b c d)).prepare_next_relaxation_step

  scan_step :
      (n : ℕ) (s s' : Bounded (Option ℕ))
      → pass_with s ≡ (s', true)
      → scan_with (suc n) s ≡ scan_with n (prepare s')
  unfolding scan
  scan_step n s s' h =
      ap (λ (r : Bounded (Option ℕ) × Bool). if r.1 then scan_with n (prepare r.0) else prepare r.0)
        h

  abbrev first_improved : Bounded (Option ℕ)
  first_improved = record started { last = first_predecessors; pending = first_distances }

  first_pass : pass_with started ≡ (first_improved, true)
  unfolding relax
  first_pass = refl

  both_scans : scan_with 2 started ≡ prepare over_2
  unfolding scan
  both_scans =
      scan_step 1 started first_improved first_pass ∙ scan_step 0 after_first over_2 second_pass

  result : shortest_path exact (two_routes a b c d) 0 2 ≡ Searched.searched (prepare over_2)
  unfolding closing_node closes
  result =
      ap
        (λ s.
          from_marked exact (two_routes a b c d) (storing exact (two_routes a b c d))
            ((storing exact (two_routes a b c d)).mark_cycle s))
        both_scans

-- With at most two hops, the distance of node 3 is the weight of the route through node 2, also
-- where the route through node 1 has two edges too and is lighter.
pub shortest_path_overwritten :
    (a b c d : ℕ)
    → a + c < b + d
    → (s : Bounded (Option ℕ)) × (shortest_path exact (two_routes a b c d) 0 2
        ≡ Searched.searched s)
      × (s.current 3 ≡ some (b + d))
      × Walk exact (two_routes a b c d) 0 3 2 (some (a + c))
      × (exact.lt (some (a + c)) (s.current 3) ≡ true)
shortest_path_overwritten a b c d h = (
  prepare a b c d (over_2 a b c d),
  result a b c d,
  ground arith,
  Walk.step 1 3 1 (some a) (some (a + c)) (some c)
      (Walk.step 0 1 0 (some 0) (some a) (some a) (Walk.here 0 (some 0) refl refl) (Memᴰ.head refl)
        (ground arith))
      (Memᴰ.head refl) refl,
  ground arith,
)
