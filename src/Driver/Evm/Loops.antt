-- ===== src/Driver/Evm/Loops.antt =====
-- services-core/src/driver/scheduler/evm.rs: the loops end once the exchange's batch is another one.
use dex_services.Prelude.{
  ℕ, zero, suc, ◌+◌, ◌*◌, ◌≤◌, ◌<◌, ◌≡◌, ◌≢◌, refl, true, Option, none, some, List, ◌∷◌, ltb, leb,
  leb→le, ◌==◌, length, arith, Bool-cases, Option-cases, inl, inr,
}
use dex_services.Models.BatchId.{batch_duration}
use dex_services.Models.Solution.{Solution}
use dex_services.Streamed.State.{previous_u32}
use dex_services.Driver.Stablex.{Solved}
use dex_services.Driver.Timing.{second, AuctionTimingConfiguration}
use dex_services.Driver.World.{
  Event, World, Ended, Run, continue, asked_remaining, slept, done, failed, panicked, out_of_fuel,
  return,
}
use dex_services.Driver.Evm.{
  poll_timeout, current_solving_batch, wait_for_batch_to_change, batch_time, left_of,
  solver_time_limit, after_solving, solve_within, solve, submit_at, submit,
}

-- The fuel did not run out; and where a result is returned it satisfies `P`.
abbrev pub Ends : {A : Type 0} → (A → List Event → Type 0) → Ended A × List Event → Type 0
Ends P (done a, es) = P a es
Ends P (failed, es) = Unit
Ends P (panicked, es) = Unit
Ends P (out_of_fuel, es) = ⊥

Ends-continue :
    {A B : Type 0} (P : A → List Event → Type 0) (Q : B → List Event → Type 0)
    (r : Ended A × List Event) (f : A → Run B) (w : World) (es : List Event)
    → Ends P r
    → ((a : A) (es : List Event) → P a es → Ends Q (f a w es))
    → Ends Q (continue r f w es)
Ends-continue P Q (done a, es) f w es' h k = k a es h
Ends-continue P Q (failed, es) f w es' h k = tt
Ends-continue P Q (panicked, es) f w es' h k = tt
Ends-continue P Q (out_of_fuel, es) f w es' h k = elim h [ ]

abbrev pub AnyResult : {A : Type 0} → A → List Event → Type 0
AnyResult a es = Unit

-- From the `n`-th recorded event on the batch being solved is not `batch`.
abbrev pub IsOver : World → ℕ → ℕ → Type 0
IsOver w n batch =
    (es : List Event) (i : ℕ) → n ≤ length es → w.index es ≡ some i → previous_u32 i ≢ batch

module _ (w : World) (n batch : ℕ) (over : IsOver w n batch) where
  not_yet :
      (es : List Event) (i : ℕ)
      → w.index es ≡ some i
      → (previous_u32 i == batch) ≡ true
      → length es < n
  not_yet es i e same = elim (Bool-cases (leb n (length es))) [
    | inl y ↦ absurd (over es i (leb→le n (length es) y) e (ground arith))
    | inr later ↦ ground arith
  ]

  current-Ends :
      (es : List Event)
      → Ends
          (λ b es'. (suc (length es) ≤ length es') × ((b == batch) ≡ true → length es < n))
          (current_solving_batch w es)
  unfolding current_solving_batch
  current-Ends es = elim (Option-cases (w.index es)) [
    | inl e ↦ rw e tt
    | inr (i, e) ↦ rw e (omega arith, λ same. not_yet es i e same)
  ]

  batch_time-Ends :
      (es : List Event)
      → Ends
          (λ t es'. (suc (length es) ≤ length es') × ((t ≢ none) → length es < n))
          (batch_time batch w es)
  unfolding batch_time
  batch_time-Ends es = elim (Option-cases (w.remaining es)) [
    | inl e ↦ rw e tt
    | inr (r, e) ↦ elim (Option-cases (w.index (asked_remaining (some r) ∷ es))) [
      | inl f ↦ rw (e, f) tt
      | inr (i, f) ↦ elim (Bool-cases (previous_u32 i == batch)) [
        | inl same ↦ elim (Bool-cases (leb r (batch_duration * second))) [
          | inl y ↦
              rw (e, f, same, y)
                (
                  omega arith,
                  λ known. omega (arith, not_yet (asked_remaining (some r) ∷ es) i f same),
                )
          | inr y ↦ rw (e, f, same, y) tt
        ]
        | inr other ↦ rw (e, f, other) (omega arith, λ known. absurd (known refl))
      ]
    ]
  ]

  -- An iteration of a loop from `es`: the loop goes on only before the `n`-th event.
  abbrev Next : {A : Type 0} → List Event → Run A → Type 0
  Next es again =
      (es' : List Event)
      → suc (length es) ≤ length es'
      → length es < n
      → Ends AnyResult (again w es')

  wait_step :
      (fuel : ℕ) (es : List Event)
      → Next es (wait_for_batch_to_change fuel batch)
      → Ends AnyResult (wait_for_batch_to_change (suc fuel) batch w es)
  unfolding wait_for_batch_to_change
  wait_step fuel es next =
      Ends-continue
        (λ b es'. (suc (length es) ≤ length es') × ((b == batch) ≡ true → length es < n)) AnyResult
        (current_solving_batch w es) _ w es (current-Ends es)
        (λ b es' h. elim (Bool-cases (b == batch)) [
          | inl y ↦ rw y (next (slept poll_timeout ∷ es') (omega (arith, h.0)) (h.1 y))
          | inr d ↦ rw d tt
        ])

  wait-Ends :
      (fuel : ℕ) (es : List Event)
      → n ≤ fuel + length es
      → Ends AnyResult (wait_for_batch_to_change (suc fuel) batch w es)
  wait-Ends zero es le = wait_step zero es (λ es' longer before. absurd (omega arith))
  wait-Ends (suc fuel) es le =
      wait_step (suc fuel) es (λ es' longer before. wait-Ends fuel es' (omega arith))

  module _ (config : AuctionTimingConfiguration) where
    limit-Ends :
        (es : List Event)
        → Ends
            (λ t es'. (suc (length es) ≤ length es') × ((t ≢ none) → length es < n))
            (solver_time_limit config batch w es)
    limit-Ends es =
        Ends-continue (λ t es'. (suc (length es) ≤ length es') × ((t ≢ none) → length es < n))
          (λ t es'. (suc (length es) ≤ length es') × ((t ≢ none) → length es < n))
          (batch_time batch w es) (λ time. return (left_of config.latest_solution_submit_time time))
          w es (batch_time-Ends es) limited
      where
        limited :
            (t : Option ℕ) (es' : List Event)
            → (suc (length es) ≤ length es') × ((t ≢ none) → length es < n)
            → (suc (length es) ≤ length es')
              × ((left_of config.latest_solution_submit_time t ≢ none) → length es < n)
        limited none es' h = h
        limited (some time) es' h = (h.0, λ known. h.1 (λ e. cc))

    after_solving-Ends :
        (again : Run (Option Solution)) (es es' : List Event) (answer : Solved)
        → Next es again
        → suc (length es) ≤ length es'
        → length es < n
        → Ends AnyResult (after_solving again answer w es')
    after_solving-Ends again es es' (Solved.solution s) next longer before = tt
    after_solving-Ends again es es' Solved.retry next longer before = next es' longer before
    after_solving-Ends again es es' Solved.skip next longer before = tt

    solve_within-Ends :
        (again : Run (Option Solution)) (es : List Event) (limit : Option ℕ) (es' : List Event)
        → Next es again
        → (suc (length es) ≤ length es') × ((limit ≢ none) → length es < n)
        → Ends AnyResult (solve_within batch again limit w es')
    solve_within-Ends again es none es' next h = tt
    solve_within-Ends again es (some limit) es' next h =
        after_solving-Ends again es _ _ next (omega (arith, h.0)) (h.1 (λ e. cc))

    solve_step :
        (fuel : ℕ) (es : List Event)
        → Next es (solve config fuel batch)
        → Ends AnyResult (solve config (suc fuel) batch w es)
    unfolding solve
    solve_step fuel es next =
        Ends-continue (λ t es'. (suc (length es) ≤ length es') × ((t ≢ none) → length es < n))
          AnyResult (solver_time_limit config batch w es)
          (solve_within batch (solve config fuel batch)) w es (limit-Ends es)
          (λ t es' h. solve_within-Ends (solve config fuel batch) es t es' next h)

    solve-Ends :
        (fuel : ℕ) (es : List Event)
        → n ≤ fuel + length es
        → Ends AnyResult (solve config (suc fuel) batch w es)
    solve-Ends zero es le = solve_step zero es (λ es' longer before. absurd (omega arith))
    solve-Ends (suc fuel) es le =
        solve_step (suc fuel) es (λ es' longer before. solve-Ends fuel es' (omega arith))

    submit_at-Ends :
        (s : Solution) (again : Run (Unit {0})) (es : List Event) (time : Option ℕ)
        (es' : List Event)
        → Next es again
        → (suc (length es) ≤ length es') × ((time ≢ none) → length es < n)
        → Ends AnyResult (submit_at config batch s again time w es')
    submit_at-Ends s again es none es' next h = tt
    submit_at-Ends s again es (some time) es' next h =
        elim (Bool-cases (ltb time config.earliest_solution_submit_time)) [
          | inl y ↦ rw y (next (slept poll_timeout ∷ es') (omega (arith, h.0)) (h.1 (λ e. cc)))
          | inr d ↦ rw d tt
        ]

    submit_step :
        (fuel : ℕ) (s : Solution) (es : List Event)
        → Next es (submit config fuel batch s)
        → Ends AnyResult (submit config (suc fuel) batch s w es)
    unfolding submit
    submit_step fuel s es next =
        Ends-continue (λ t es'. (suc (length es) ≤ length es') × ((t ≢ none) → length es < n))
          AnyResult (batch_time batch w es) (submit_at config batch s (submit config fuel batch s))
          w es (batch_time-Ends es)
          (λ t es' h. submit_at-Ends s (submit config fuel batch s) es t es' next h)

    submit-Ends :
        (fuel : ℕ) (s : Solution) (es : List Event)
        → n ≤ fuel + length es
        → Ends AnyResult (submit config (suc fuel) batch s w es)
    submit-Ends zero s es le = submit_step zero s es (λ es' longer before. absurd (omega arith))
    submit-Ends (suc fuel) s es le =
        submit_step (suc fuel) s es (λ es' longer before. submit-Ends fuel s es' (omega arith))

-- If from some recorded event on the batch being solved is not the given one, then with fuel for
-- the events until then the wait for another batch, the attempts to solve it and the wait to submit
-- its solution end.
pub loops_end :
    (config : AuctionTimingConfiguration) (w : World) (n batch fuel : ℕ) (s : Solution)
    (es : List Event)
    → IsOver w n batch
    → n ≤ fuel + length es
    → Ends AnyResult (wait_for_batch_to_change (suc fuel) batch w es)
      × Ends AnyResult (solve config (suc fuel) batch w es)
      × Ends AnyResult (submit config (suc fuel) batch s w es)
loops_end config w n batch fuel s es over le = (
  wait-Ends w n batch over fuel es le,
  solve-Ends w n batch over config fuel es le,
  submit-Ends w n batch over config fuel s es le,
)
