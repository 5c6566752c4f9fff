-- ===== src/Driver/Background/Loops.antt =====
-- services-core/src/driver/scheduler/system.rs: the background task for a batch ends.
use dex_services.Prelude.{
  ℕ, zero, suc, ◌+◌, ◌*◌, ◌≤◌, ◌<◌, ◌≡◌, some, List, ◌∷◌, leb, leb→le, length, arith, Bool-cases,
  Option-cases, inl, inr,
}
use dex_services.Models.BatchId.{into_u32}
use dex_services.Models.Solution.{Solution}
use dex_services.Driver.Stablex.{Solved}
use dex_services.Driver.Timing.{second}
use dex_services.Driver.World.{
  Event, World, Ended, Run, continue, asked_index, slept, solved, done, failed, panicked,
  out_of_fuel, caught,
}
use dex_services.Driver.Evm.Loops.{Ends, AnyResult}
use dex_services.Driver.Background.{
  retry_sleep_duration, contract_batch_id_poll_interval, wait_for_batch_id, opening, submit,
  after_solving, solve_and_submit,
}
use dex_services.Driver.Background.Safety.{Ticks}

-- From the `n`-th recorded event on the exchange's batch is past the given one.
abbrev pub IsPast : World → ℕ → ℕ → Type 0
IsPast w n batch =
    (es : List Event) (i : ℕ) → n ≤ length es → w.index es ≡ some i → into_u32 batch < i

module _ (w : World) (n batch : ℕ) (past : IsPast w n batch) where
  wait_step :
      (fuel : ℕ) (es : List Event)
      → ((es' : List Event)
          → suc (length es) ≤ length es'
          → length es < n
          → Ends AnyResult (wait_for_batch_id fuel batch w es'))
      → Ends AnyResult (wait_for_batch_id (suc fuel) batch w es)
  unfolding wait_for_batch_id
  wait_step fuel es next = elim (Option-cases (w.index es)) [
    | inl e ↦ rw e tt
    | inr (i, e) ↦ elim (Bool-cases (leb i (into_u32 batch))) [
      | inl y ↦ elim (Bool-cases (leb n (length es))) [
        | inl over ↦
            absurd
              (omega (arith, past es i (leb→le n (length es) over) e, leb→le i (into_u32 batch) y))
        | inr before ↦
            rw (e, y)
              (next (slept contract_batch_id_poll_interval ∷ asked_index (some i) ∷ es)
                (omega arith) (ground arith))
      ]
      | inr d ↦ rw (e, d) tt
    ]
  ]

  wait-Ends :
      (fuel : ℕ) (es : List Event)
      → n ≤ fuel + length es
      → Ends AnyResult (wait_for_batch_id (suc fuel) batch w es)
  wait-Ends zero es le = wait_step zero es (λ es' longer before. absurd (omega arith))
  wait-Ends (suc fuel) es le =
      wait_step (suc fuel) es (λ es' longer before. wait-Ends fuel es' (omega arith))

  submit-Ends :
      (earliest : ℕ) (s : Solution) (es : List Event)
      → Ends AnyResult (submit batch earliest s w es)
  unfolding submit
  submit-Ends earliest s es = elim (Bool-cases (leb (w.now es) (opening batch earliest))) [
    | inl y ↦ rw y tt
    | inr d ↦ rw d tt
  ]

  caught-Ends :
      (earliest : ℕ) (s : Solution) (r : Ended (Unit {0}) × List Event) (es : List Event)
      → Ends AnyResult r
      → Ends AnyResult (continue (caught r) (λ confirmed. submit batch earliest s) w es)
  caught-Ends earliest s (done u, es') es h = submit-Ends earliest s es'
  caught-Ends earliest s (failed, es') es h = submit-Ends earliest s es'
  caught-Ends earliest s (panicked, es') es h = tt
  caught-Ends earliest s (out_of_fuel, es') es h = elim h [ ]

  module _ (ticks : Ticks w.instant) (deadline earliest waits : ℕ) (enough : n ≤ waits) where
    after-Ends :
        (again : Run (Unit {0})) (limit : ℕ) (answer : Solved) (es : List Event)
        → ((es' : List Event)
            → w.instant es + second ≤ w.instant es'
            → Ends AnyResult (again w es'))
        → Ends AnyResult (
            after_solving
              (suc waits)
              batch
              earliest
              again
              answer
              w
              (solved batch limit answer ∷ es))
    after-Ends again limit (Solved.solution s) es next =
        caught-Ends earliest s _ _ (wait-Ends waits _ (omega arith))
    after-Ends again limit Solved.retry es next =
        next (slept retry_sleep_duration ∷ solved batch limit Solved.retry ∷ es) (
          omega (
            arith,
            ticks.forward (solved batch limit Solved.retry) es,
            ticks.slept_for retry_sleep_duration (solved batch limit Solved.retry ∷ es),
          ))
    after-Ends again limit Solved.skip es next = tt

    run_step :
        (fuel : ℕ) (es : List Event)
        → ((es' : List Event)
            → w.instant es ≤ deadline
            → w.instant es + second ≤ w.instant es'
            → Ends AnyResult (solve_and_submit (suc waits) fuel batch deadline earliest w es'))
        → Ends AnyResult (solve_and_submit (suc waits) (suc fuel) batch deadline earliest w es)
    unfolding solve_and_submit
    run_step fuel es next = elim (Bool-cases (leb (w.instant es) deadline)) [
      | inl y ↦ rw y (
          after-Ends (solve_and_submit (suc waits) fuel batch deadline earliest) _ _ es
            (λ es' later. next es' (leb→le (w.instant es) deadline y) later))
      | inr d ↦ rw d tt
    ]

    run-Ends :
        (fuel : ℕ) (es : List Event)
        → deadline < w.instant es + fuel * second
        → Ends AnyResult (solve_and_submit (suc waits) (suc fuel) batch deadline earliest w es)
    run-Ends zero es le = run_step zero es (λ es' before later. absurd (omega arith))
    run-Ends (suc fuel) es le =
        run_step (suc fuel) es (λ es' before later. run-Ends fuel es' (omega arith))

-- Where sleeping takes as long as it should and the exchange's batch is past this one from some
-- event on, the background task ends: with fuel for a wait of that many events, and for an attempt
-- each second until the deadline.
pub solve_and_submit-Ends :
    (w : World) (n batch deadline earliest waits fuel : ℕ) (es : List Event)
    → IsPast w n batch
    → Ticks w.instant
    → n ≤ waits
    → deadline < w.instant es + fuel * second
    → Ends AnyResult (solve_and_submit (suc waits) (suc fuel) batch deadline earliest w es)
solve_and_submit-Ends w n batch deadline earliest waits fuel es past ticks enough le =
    run-Ends w n batch past ticks deadline earliest waits enough fuel es le
