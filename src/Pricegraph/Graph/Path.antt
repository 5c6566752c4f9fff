-- ===== src/Pricegraph/Graph/Path.antt =====
-- pricegraph/src/graph/path.rs: paths, cycles and the search for a cycle among predecessors. A path
-- that the code builds backwards and then reverses is built from its end here.
pub mod Cycle
use dex_services.Prelude.{
  ℕ, zero, suc, ◌+◌, Bool, true, false, Option, none, some, List, [], ◌∷◌, ◌++◌, ltb, ◌==◌,
  if◌then◌else◌,
}
use dex_services.Pricegraph.Graph.{Answer, update}

-- The first loop of `find_cycle`, on fuel: the marks, the node that was met again and the steps.
pub meet_again : (ℕ → Option ℕ) → ℕ → (ℕ → ℕ) → ℕ → ℕ → Answer ((ℕ → ℕ) × ℕ × ℕ)
meet_again predecessor zero visited cursor step = Answer.out_of_fuel
meet_again predecessor (suc fuel) visited cursor step = elim (predecessor cursor) [
  | none ↦ Answer.nothing
  | some next ↦ elim (ltb 0 (visited next)) [
    | true ↦ Answer.found (visited, next, step)
    | false ↦ meet_again predecessor fuel (update visited next (step + 1)) next (step + 1)
  ]
]

-- The second loop: back to the start, on fuel.
pub walk_back : (ℕ → Option ℕ) → ℕ → ℕ → ℕ → List ℕ → Answer (List ℕ)
walk_back predecessor zero start cursor path = Answer.out_of_fuel
walk_back predecessor (suc fuel) start cursor path = elim (predecessor cursor) [
  | none ↦ Answer.nothing
  | some next ↦ elim (next == start) [
    | true ↦ Answer.found (next ∷ path)
    | false ↦ walk_back predecessor fuel start next (next ∷ path)
  ]
]

-- The node of the cycle that it starts with.
pub cycle_start : Option ℕ → (ℕ → ℕ) → ℕ → ℕ
cycle_start none visited cursor = cursor
cycle_start (some origin) visited cursor =
    if ltb (visited cursor) (visited origin) then origin else cursor

pub from_met : (ℕ → Option ℕ) → ℕ → Option ℕ → Answer ((ℕ → ℕ) × ℕ × ℕ) → Answer (List ℕ)
from_met predecessor bound origin (Answer.found (visited, cursor, step)) =
    let start = cycle_start origin visited cursor in
    walk_back predecessor bound start start (start ∷ [])
from_met predecessor bound origin Answer.nothing = Answer.nothing
from_met predecessor bound origin Answer.panicked = Answer.panicked
from_met predecessor bound origin Answer.out_of_fuel = Answer.out_of_fuel

-- `find_cycle`; `bound` is the length of the predecessors, and the fuel of both loops.
unfoldable pub find_cycle : (ℕ → Option ℕ) → ℕ → ℕ → Option ℕ → Answer (List ℕ)
unfolding from_met meet_again walk_back cycle_start
find_cycle predecessor bound search origin =
    from_met predecessor bound origin
      (meet_again predecessor bound (update (λ i. 0) search 1) search 1)

-- `Iterator::position`
abbrev pub position : ℕ → List ℕ → Option ℕ
position node [] = none
position node (x ∷ xs) =
    if x == node then some 0 else elim (position node xs) [ none ↦ none | some i ↦ some (suc i) ]

-- `Vec::pop` without the value.
abbrev pub pop : List ℕ → List ℕ
pop [] = []
pop (x ∷ []) = []
pop (x ∷ y ∷ xs) = x ∷ pop (y ∷ xs)

abbrev pub take : ℕ → List ℕ → List ℕ
take zero xs = []
take (suc n) [] = []
take (suc n) (x ∷ xs) = x ∷ take n xs

abbrev pub drop : ℕ → List ℕ → List ℕ
drop zero xs = xs
drop (suc n) [] = []
drop (suc n) (x ∷ xs) = drop n xs

-- `slice::rotate_left`
abbrev pub rotate_left : ℕ → List ℕ → List ℕ
rotate_left n xs = drop n xs ++ take n xs

-- `NegativeCycle::with_starting_node`; the flag is whether it is `Ok`.
unfoldable pub with_starting_node : List ℕ → ℕ → List ℕ × Bool
with_starting_node cycle start = elim (position start cycle) [
  | none ↦ (cycle, false)
  | some zero ↦ (cycle, true)
  | some (suc pos) ↦ (rotate_left (suc pos) (pop cycle) ++ start ∷ [], true)
]

-- `NegativeCycle::split_at`; `none` is its `Err`.
unfoldable pub split_at : List ℕ → ℕ → Option (List ℕ × List ℕ)
split_at cycle node = elim (position node cycle) [
  | none ↦ none
  | some index ↦ some (take index cycle ++ node ∷ [], drop index cycle)
]
