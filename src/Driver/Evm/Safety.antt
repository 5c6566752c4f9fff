-- ===== src/Driver/Evm/Safety.antt =====
-- services-core/src/driver/scheduler/evm.rs: what a step solves and submits, and when.
use mathlib.Core.List.{Memᴰ}
use dex_services.Prelude.{
  ℕ, zero, suc, ◌-◌, ◌*◌, ◌≤◌, ◌≡◌, refl, Option, none, some, List, ◌∷◌, ltb, leb, ◌==◌, arith,
  le→leb, leb→le, Bool-cases, Option-cases, inl, inr,
}
use dex_services.Models.BatchId.{batch_duration}
use dex_services.Models.Solution.{Solution}
use dex_services.Streamed.State.{previous_u32}
use dex_services.Driver.Stablex.{Solved}
use dex_services.Driver.Timing.{second, AuctionTimingConfiguration}
use dex_services.Driver.World.{
  Event, World, Run, asked_index, asked_remaining, slept, notified, solved, return, notify_ready,
  ◌>>=◌, ◌>>◌,
}
use dex_services.Driver.Evm.{
  poll_timeout, current_solving_batch, wait_for_batch_to_change, batch_time, left_of,
  solver_time_limit, after_solving, solve_within, solve, submit_at, submit, last_batch_or_current,
  submit_if_solved, step,
}
use dex_services.Driver.Evm.Timely.{
  Measured, HasSolved, IsTimely, submissions, Ensures, Ensures-continue, IsSane,
}

module _ (config : AuctionTimingConfiguration) (w : World) (sane : IsSane w) (k : ℕ) where
  -- Nothing has been submitted since, and what `K` says holds.
  abbrev Waiting : (List Event → Type 0) → List Event → Type 0
  Waiting K es = IsTimely config es × (submissions es ≡ k) × K es

  -- At most one submission since.
  abbrev Once : List Event → Type 0
  Once es = IsTimely config es × (submissions es ≤ suc k)

  Waiting-Once : (K : List Event → Type 0) (es : List Event) → Waiting K es → Once es
  Waiting-Once K es h = (h.0, omega (arith, h.1))

  abbrev MeasuredIf : ℕ → Option ℕ → List Event → Type 0
  MeasuredIf batch none es = Unit
  MeasuredIf batch (some time) es = Measured batch time es

  module _ (K : List Event → Type 0)
      (grows : (e : Event) (es : List Event) → K es → K (e ∷ es)) where
    batch_time-Ensures :
        (batch : ℕ) (es : List Event)
        → Waiting K es
        → Ensures (λ t es'. Waiting K es' × MeasuredIf batch t es') Once (batch_time batch w es)
    unfolding batch_time
    batch_time-Ensures batch es h = elim (Option-cases (w.remaining es)) [
      | inl e ↦ rw e (Waiting-Once K es h)
      | inr (r, e) ↦
          let grown = grows (asked_remaining (some r)) es h.2 in
          elim (Option-cases (w.index (asked_remaining (some r) ∷ es))) [
            | inl f ↦ rw (e, f) (Waiting-Once K es h)
            | inr (i, f) ↦
                let kept : Waiting K (asked_index (some i) ∷ asked_remaining (some r) ∷ es) =
                  (h.0, h.1, grows (asked_index (some i)) (asked_remaining (some r) ∷ es) grown) in
                elim (Bool-cases (previous_u32 i == batch)) [
                  | inl b ↦
                      rw (e, f, b, le→leb r (batch_duration * second) (sane es r e))
                        (
                          kept,
                          record {
                            index = i;
                            remaining = r;
                            before = es;
                            recorded = refl;
                            current = ground arith;
                            within = sane es r e;
                            passed = refl;
                          },
                        )
                  | inr b ↦ rw (e, f, b) (kept, tt)
                ]
          ]
    ]

    current-Ensures :
        (es : List Event)
        → Waiting K es
        → Ensures (λ b es'. Waiting K es') Once (current_solving_batch w es)
    unfolding current_solving_batch
    current-Ensures es h = elim (Option-cases (w.index es)) [
      | inl e ↦ rw e (Waiting-Once K es h)
      | inr (i, e) ↦ rw e (h.0, h.1, grows (asked_index (some i)) es h.2)
    ]

    wait-Ensures :
        (fuel batch : ℕ) (es : List Event)
        → Waiting K es
        → Ensures (λ b es'. Waiting K es') Once (wait_for_batch_to_change fuel batch w es)
    unfolding wait_for_batch_to_change
    wait-Ensures zero batch es h = Waiting-Once K es h
    wait-Ensures (suc fuel) batch es h =
        Ensures-continue (λ b es'. Waiting K es') (λ b es'. Waiting K es') Once
          (current_solving_batch w es) _ w es (current-Ensures es h)
          (λ b es' h'. elim (Bool-cases (b == batch)) [
            | inl y ↦
                rw y (
                  wait-Ensures fuel batch (slept poll_timeout ∷ es') (h'.0, h'.1, grows _ es' h'.2))
            | inr n ↦ rw n h'
          ])

  -- The solver.
  abbrev Solution-of : ℕ → Option Solution → List Event → Type 0
  Solution-of batch none es = Unit
  Solution-of batch (some s) es = HasSolved batch s es

  abbrev Always : List Event → Type 0
  Always es = Unit

  abbrev Answered : ℕ → Option Solution → List Event → Type 0
  Answered batch s es = Waiting Always es × Solution-of batch s es

  abbrev Limited : ℕ → Option ℕ → List Event → Type 0
  Limited batch none es = Unit
  Limited batch (some limit) es =
      (time : ℕ) × Measured batch time es
      × (time ≤ config.latest_solution_submit_time)
      × (limit ≡ config.latest_solution_submit_time - time)

  left_of-Limited :
      (batch : ℕ) (time : Option ℕ) (es : List Event)
      → MeasuredIf batch time es
      → Limited batch (left_of config.latest_solution_submit_time time) es
  left_of-Limited batch none es h = tt
  left_of-Limited batch (some time) es h =
      elim (Bool-cases (leb time config.latest_solution_submit_time)) [
        | inl y ↦ rw y (time, h, leb→le _ _ y, refl)
        | inr n ↦ rw n tt
      ]

  limit-Ensures :
      (batch : ℕ) (es : List Event)
      → Waiting Always es
      → Ensures
          (λ t es'. Waiting Always es' × Limited batch t es')
          Once
          (solver_time_limit config batch w es)
  limit-Ensures batch es h =
      Ensures-continue (λ t es'. Waiting Always es' × MeasuredIf batch t es')
        (λ t es'. Waiting Always es' × Limited batch t es') Once (batch_time batch w es)
        (λ time. return (left_of config.latest_solution_submit_time time)) w es
        (batch_time-Ensures Always (λ e es k. tt) batch es h)
        (λ time es' m. (m.0, left_of-Limited batch time es' m.1))

  -- What an iteration does, where the next ones do what they should.
  module _ (batch : ℕ) (again : Run (Option Solution))
      (next : (es : List Event)
        → Waiting Always es
        → Ensures (Answered batch) Once (again w es)) where
    after-Ensures :
        (limit : ℕ) (answer : Solved) (es : List Event)
        → Waiting Always es × Limited batch (some limit) es
        → Ensures
            (Answered batch)
            Once
            (after_solving again answer w (solved batch limit answer ∷ es))
    after-Ensures limit (Solved.solution s) es h =
        (((h.1, h.0.0), h.0.1, tt), (limit, Memᴰ.head refl))
    after-Ensures limit Solved.retry es h =
        next (solved batch limit Solved.retry ∷ es) ((h.1, h.0.0), h.0.1, tt)
    after-Ensures limit Solved.skip es h = (((h.1, h.0.0), h.0.1, tt), tt)

    within-Ensures :
        (limit : Option ℕ) (es : List Event)
        → Waiting Always es × Limited batch limit es
        → Ensures (Answered batch) Once (solve_within batch again limit w es)
    within-Ensures none es h = (h.0, tt)
    within-Ensures (some limit) es h = after-Ensures limit (w.solve_batch es batch limit) es h

  solve-Ensures :
      (fuel batch : ℕ) (es : List Event)
      → Waiting Always es
      → Ensures (Answered batch) Once (solve config fuel batch w es)
  unfolding solve
  solve-Ensures zero batch es h = Waiting-Once Always es h
  solve-Ensures (suc fuel) batch es h =
      Ensures-continue (λ t es'. Waiting Always es' × Limited batch t es') (Answered batch) Once
        (solver_time_limit config batch w es) (solve_within batch (solve config fuel batch)) w es
        (limit-Ensures batch es h)
        (within-Ensures batch (solve config fuel batch) (solve-Ensures fuel batch))

  submit_at-Ensures :
      (batch : ℕ) (s : Solution) (again : Run (Unit {0}))
      → ((es : List Event) → Waiting (HasSolved batch s) es → Ensures (λ u. Once) Once (again w es))
      → (time : Option ℕ) (es : List Event)
      → Waiting (HasSolved batch s) es × MeasuredIf batch time es
      → Ensures (λ u. Once) Once (submit_at config batch s again time w es)
  submit_at-Ensures batch s again next none es h = Waiting-Once (HasSolved batch s) es h.0
  submit_at-Ensures batch s again next (some time) es h =
      elim (Bool-cases (ltb time config.earliest_solution_submit_time)) [
        | inl y ↦ rw y (next (slept poll_timeout ∷ es) (h.0.0, h.0.1, (h.0.2.0, Memᴰ.tail h.0.2.1)))
        | inr n ↦ rw n (((time, h.1, ground arith), h.0.2, h.0.0), omega (arith, h.0.1))
      ]

  submit-Ensures :
      (fuel batch : ℕ) (s : Solution) (es : List Event)
      → Waiting (HasSolved batch s) es
      → Ensures (λ u. Once) Once (submit config fuel batch s w es)
  unfolding submit
  submit-Ensures zero batch s es h = Waiting-Once (HasSolved batch s) es h
  submit-Ensures (suc fuel) batch s es h =
      Ensures-continue (λ t es'. Waiting (HasSolved batch s) es' × MeasuredIf batch t es')
        (λ u. Once) Once (batch_time batch w es)
        (submit_at config batch s (submit config fuel batch s)) w es
        (batch_time-Ensures (HasSolved batch s) (λ e es k. (k.0, Memᴰ.tail k.1)) batch es h)
        (submit_at-Ensures batch s (submit config fuel batch s) (submit-Ensures fuel batch s))

  submit_if_solved-Ensures :
      (fuel batch : ℕ) (s : Option Solution) (es : List Event)
      → Answered batch s es
      → Ensures (λ u. Once) Once (submit_if_solved config fuel batch s w es)
  submit_if_solved-Ensures fuel batch none es h = Waiting-Once Always es h.0
  submit_if_solved-Ensures fuel batch (some s) es h =
      submit-Ensures fuel batch s es (h.0.0, h.0.1, h.1)

  last_batch-Ensures :
      (last_batch : Option ℕ) (es : List Event)
      → Waiting Always es
      → Ensures (λ b. Waiting Always) Once (last_batch_or_current last_batch w es)
  last_batch-Ensures none es h = current-Ensures Always (λ e es k. tt) es h
  last_batch-Ensures (some b) es h = h

  rest-Ensures :
      (fuel batch : ℕ) (es : List Event)
      → Waiting Always es
      → Ensures
          (λ b. Once)
          Once
          ((wait_for_batch_to_change fuel batch >>= λ new_batch.
              notify_ready
              >> (solve config fuel new_batch >>= λ solution.
                  submit_if_solved config fuel new_batch solution >> return new_batch))
            w es)
  rest-Ensures fuel batch es h =
      Ensures-continue (λ b. Waiting Always) (λ b. Once) Once
        (wait_for_batch_to_change fuel batch w es) _ w es
        (wait-Ensures Always (λ e es k. tt) fuel batch es h)
        (λ new_batch es' h'.
          Ensures-continue (Answered new_batch) (λ b. Once) Once
            (solve config fuel new_batch w (notified ∷ es')) _ w (notified ∷ es')
            (solve-Ensures fuel new_batch (notified ∷ es') h')
            (λ s es'' h''.
              Ensures-continue (λ u. Once) (λ b. Once) Once
                (submit_if_solved config fuel new_batch s w es'') _ w es''
                (submit_if_solved-Ensures fuel new_batch s es'' h'') (λ u es3 once. once)))

-- Whatever the exchange and the driver answer, as long as no more time than a batch has is reported
-- as remaining: a step of the scheduler does not panic; it calls the solver only right after it has
-- measured the time in the batch, with what is left until the latest submission time; it submits
-- at most one solution, which the driver has found for the batch, right after it has measured that
-- the earliest submission time has passed in that batch.
pub step-IsTimely :
    (config : AuctionTimingConfiguration) (w : World) (fuel : ℕ) (last_batch : Option ℕ)
    (es : List Event)
    → IsSane w
    → IsTimely config es
    → Ensures
        (λ b es'. IsTimely config es' × (submissions es' ≤ suc (submissions es)))
        (λ es'. IsTimely config es' × (submissions es' ≤ suc (submissions es)))
        (step config fuel last_batch w es)
unfolding step
step-IsTimely config w fuel last_batch es sane h =
    Ensures-continue
      (λ b. Waiting config w sane (submissions es) (Always config w sane (submissions es)))
      (λ b. Once config w sane (submissions es)) (Once config w sane (submissions es))
      (last_batch_or_current last_batch w es) _ w es
      (last_batch-Ensures config w sane (submissions es) last_batch es (h, refl, tt))
      (rest-Ensures config w sane (submissions es) fuel)
