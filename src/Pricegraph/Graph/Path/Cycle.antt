-- ===== src/Pricegraph/Graph/Path/Cycle.antt =====
-- pricegraph/src/graph/path.rs: the search for a cycle among predecessors.
use mathlib.Core.List.{Memᴰ}
use dex_services.Prelude.{
  ℕ, zero, suc, ◌+◌, ◌≤◌, ◌<◌, ◌≡◌, refl, ap, true, false, Option, none, some, List, [], ◌∷◌, ◌++◌,
  ltb, ◌==◌, ==-refl, if◌then◌else◌, length, arith, Bool-cases, Option-cases, inl, inr,
}
use dex_services.Pricegraph.Graph.{Answer, update}
use dex_services.Pricegraph.Graph.Path.{meet_again, walk_back, from_met, cycle_start, find_cycle}

-- The nodes without a mark.
abbrev unmarked : (ℕ → ℕ) → List ℕ → ℕ
unmarked visited [] = 0
unmarked visited (n ∷ ns) =
    if ltb 0 (visited n) then unmarked visited ns else suc (unmarked visited ns)

unmarked-update-le :
    (visited : ℕ → ℕ) (c v : ℕ) (ns : List ℕ)
    → 0 < v
    → unmarked (update visited c v) ns ≤ unmarked visited ns
unmarked-update-le visited c v [] h = omega arith
unmarked-update-le visited c v (n ∷ ns) h = ground (arith, unmarked-update-le visited c v ns)

unmarked-le : (visited : ℕ → ℕ) (ns : List ℕ) → unmarked visited ns ≤ length ns
unmarked-le visited [] = omega arith
unmarked-le visited (n ∷ ns) = ground (arith, unmarked-le visited ns)

unmarked-update :
    (visited : ℕ → ℕ) (c v : ℕ) (ns : List ℕ)
    → Memᴰ c ns
    → ltb 0 (visited c) ≡ false
    → 0 < v
    → suc (unmarked (update visited c v) ns) ≤ unmarked visited ns
unmarked-update visited c v [] is free h = elim is [ ]
unmarked-update visited c v (n ∷ ns) (Memᴰ.head e) free h =
    rw (← e, ==-refl c, free) (ground (arith, unmarked-update-le visited c v ns h))
unmarked-update visited c v (n ∷ ns) (Memᴰ.tail is) free h =
    ground (arith, unmarked-update visited c v ns is free h)

module _ (predecessor : ℕ → Option ℕ) where
  -- So many predecessors lead from a node to another.
  abbrev pub Follow : ℕ → ℕ → ℕ → Type 0
  Follow zero x c = x ≡ c
  Follow (suc p) x c = (y : ℕ) × (predecessor x ≡ some y) × Follow p y c

  Follow-then : (p x c d : ℕ) → Follow p x c → predecessor c ≡ some d → Follow (suc p) x d
  Follow-then zero x c d f e = (d, rw f e, refl)
  Follow-then (suc p) x c d (y, h, f) e = (y, h, Follow-then p y c d f e)

  -- What the first loop ends with: a node on a cycle, or the end of the predecessors.
  abbrev Met : List ℕ → ℕ → Answer ((ℕ → ℕ) × ℕ × ℕ) → Type 0
  Met nodes search (Answer.found (visited, next, step)) =
      (p : ℕ) × (p < length nodes) × Follow (suc p) next next
  Met nodes search Answer.nothing =
      (n : ℕ) × (c : ℕ) × (n < length nodes) × Follow n search c × (predecessor c ≡ none)
  Met nodes search Answer.panicked = ⊥
  Met nodes search Answer.out_of_fuel = ⊥

  meet_again-Met :
      (nodes : List ℕ) (search : ℕ)
      → ((x y : ℕ) → predecessor x ≡ some y → Memᴰ y nodes)
      → (fuel : ℕ) (visited : ℕ → ℕ) (cursor step count : ℕ) → unmarked visited nodes < fuel
      → suc count + unmarked visited nodes ≤ length nodes
      → Follow count search cursor
      → ((x : ℕ) → ltb 0 (visited x) ≡ true → (p : ℕ) × (p ≤ count) × Follow p x cursor)
      → Met nodes search (meet_again predecessor fuel visited cursor step)
  unfolding meet_again
  meet_again-Met nodes search known zero visited cursor step count f l trail marks =
      absurd (omega arith)
  meet_again-Met nodes search known (suc fuel) visited cursor step count f l trail marks =
      elim (Option-cases (predecessor cursor)) [
        | inl e ↦ rw (e, meet_again) (count, cursor, omega arith, trail, e)
        | inr (next, e) ↦ elim (Bool-cases (ltb 0 (visited next))) [
          | inl y ↦
              let (p, le, follow) = marks next y in
              rw (e, y, meet_again) (p, omega arith, Follow-then p next cursor next follow e)
          | inr n ↦
              let fewer =
                unmarked-update visited next (step + 1) nodes (known cursor next e) n
                  (omega arith) in
              rw (e, n, meet_again)
                (meet_again-Met nodes search known fuel (update visited next (step + 1)) next
                  (step + 1) (suc count) (omega arith) (omega arith)
                  (Follow-then count search cursor next trail e)
                  (λ x h. elim (Bool-cases (x == next)) [
                    | inl b ↦ (zero, omega arith, ground arith)
                    | inr b ↦
                        let (p, le, follow) = marks x (rw b at h) in
                        (suc p, omega arith, Follow-then p x cursor next follow e)
                  ]))
        ]
      ]

  -- Each node is the predecessor of the next one.
  abbrev pub Chain : List ℕ → Type 0
  Chain [] = Unit
  Chain (a ∷ []) = Unit
  Chain (a ∷ b ∷ r) = (predecessor b ≡ some a) × Chain (b ∷ r)

  -- A cycle from a node back to it.
  abbrev pub IsCycleFrom : ℕ → List ℕ → Type 0
  IsCycleFrom start cycle = (inner : List ℕ) × (cycle ≡ start ∷ inner ++ start ∷ []) × Chain cycle

  abbrev FindsCycle : ℕ → Answer (List ℕ) → Type 0
  FindsCycle start (Answer.found cycle) = IsCycleFrom start cycle
  FindsCycle start Answer.nothing = ⊥
  FindsCycle start Answer.panicked = ⊥
  FindsCycle start Answer.out_of_fuel = ⊥

  walk_back-FindsCycle :
      (fuel p start cursor : ℕ) (rest inner : List ℕ)
      → p < fuel
      → Follow (suc p) cursor start
      → cursor ∷ rest ≡ inner ++ start ∷ []
      → Chain (cursor ∷ rest)
      → FindsCycle start (walk_back predecessor fuel start cursor (cursor ∷ rest))
  unfolding walk_back
  walk_back-FindsCycle zero p start cursor rest inner f follow e chain = absurd (omega arith)
  walk_back-FindsCycle (suc fuel) zero start cursor rest inner f (y, h, follow) e chain =
      rw (h, follow, ==-refl start, walk_back) (inner, rw (follow, e) refl, (h, chain))
  walk_back-FindsCycle (suc fuel) (suc p) start cursor rest inner f (y, h, follow) e chain =
      elim (Bool-cases (y == start)) [
        | inl b ↦
            let same : y ≡ start = ground arith in
            rw (h, b, walk_back) (inner, rw (same, e) refl, (h, chain))
        | inr b ↦
            rw (h, b, walk_back)
              (walk_back-FindsCycle fuel p start y (cursor ∷ rest) (y ∷ inner) (omega arith) follow
                (ap (λ l. y ∷ l) e) (h, chain))
      ]

  -- A cycle of predecessors, or the end of the predecessors after fewer steps than there are nodes.
  abbrev pub FindsCycleOrEnd : List ℕ → ℕ → Answer (List ℕ) → Type 0
  FindsCycleOrEnd nodes search (Answer.found cycle) = (start : ℕ) × IsCycleFrom start cycle
  FindsCycleOrEnd nodes search Answer.nothing =
      (n : ℕ) × (c : ℕ) × (n < length nodes) × Follow n search c × (predecessor c ≡ none)
  FindsCycleOrEnd nodes search Answer.panicked = ⊥
  FindsCycleOrEnd nodes search Answer.out_of_fuel = ⊥

  FindsCycle-or_end :
      (nodes : List ℕ) (search start : ℕ) (a : Answer (List ℕ))
      → FindsCycle start a
      → FindsCycleOrEnd nodes search a
  FindsCycle-or_end nodes search start (Answer.found cycle) h = (start, h)
  FindsCycle-or_end nodes search start Answer.nothing h = elim h [ ]
  FindsCycle-or_end nodes search start Answer.panicked h = elim h [ ]
  FindsCycle-or_end nodes search start Answer.out_of_fuel h = elim h [ ]

  from_met-FindsCycleOrEnd :
      (nodes : List ℕ) (search bound : ℕ) (a : Answer ((ℕ → ℕ) × ℕ × ℕ))
      → length nodes ≤ bound
      → Met nodes search a
      → FindsCycleOrEnd nodes search (from_met predecessor bound none a)
  unfolding from_met cycle_start
  from_met-FindsCycleOrEnd nodes search bound (Answer.found (visited, next, step)) l
        (p, lt, follow) =
      FindsCycle-or_end nodes search next _
        (walk_back-FindsCycle bound p next next [] [] (omega arith) follow refl tt)
  from_met-FindsCycleOrEnd nodes search bound Answer.nothing l h = h
  from_met-FindsCycleOrEnd nodes search bound Answer.panicked l h = elim h [ ]
  from_met-FindsCycleOrEnd nodes search bound Answer.out_of_fuel l h = elim h [ ]

  -- The search for a cycle from a node ends, with a cycle of predecessors from a node back to it or
  -- at a node without a predecessor that fewer steps lead to than there are nodes.
  pub find_cycle_lem :
      (nodes : List ℕ) (bound search : ℕ)
      → ((x y : ℕ) → predecessor x ≡ some y → Memᴰ y nodes)
      → Memᴰ search nodes
      → length nodes ≤ bound
      → FindsCycleOrEnd nodes search (find_cycle predecessor bound search none)
  unfolding find_cycle
  find_cycle_lem nodes bound search known is l =
      let fewer = unmarked-update (λ i. 0) search 1 nodes is refl (omega arith) in
      let all = unmarked-le (λ i. 0) nodes in
      from_met-FindsCycleOrEnd nodes search bound _ l (
        meet_again-Met nodes search known bound (update (λ i. 0) search 1) search 1 0 (omega arith)
          (omega arith) refl
          (λ x h. elim (Bool-cases (x == search)) [
            | inl b ↦ (zero, omega arith, ground arith)
            | inr b ↦ cc (rw b at h)
          ]))
