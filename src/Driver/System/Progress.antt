-- ===== src/Driver/System/Progress.antt =====
-- services-core/src/driver/scheduler/system.rs: when the scheduler solves, and what follows a sleep.
use dex_services.Prelude.{
  ℕ, ◌+◌, ◌-◌, ◌*◌, ◌/◌, ◌^◌, ◌≤◌, ◌<◌, ◌≡◌, true, false, ◌||◌, Option, some, ltb, leb, arith,
  Bool-cases, inl, inr, ◌⊎◌,
}
use dex_services.Outcome.{ok}
use dex_services.Models.BatchId.{
  from_timestamp, currently_being_solved, prev, next, solve_start_time, order_collection_start_time,
  as_timestamp, solving_window,
}
use dex_services.Driver.Timing.{second, AuctionTimingConfiguration, new}
use dex_services.Driver.System.{solve, sleep, is_batch, action_at, action_for, determine_action}

-- The invariants that the configuration's constructor asserts.
pub record IsTiming (c : AuctionTimingConfiguration) : Type 0 where
  pub starts_before : c.target_start_solve_time < c.latest_solution_submit_time
  pub ends_within : c.latest_solution_submit_time < solving_window * second
  pub submits_within : c.earliest_solution_submit_time < solving_window * second

new-IsTiming :
    (target limit earliest : ℕ) {c : AuctionTimingConfiguration}
    → new target limit earliest ≡ ok c
    → IsTiming c
unfolding new
new-IsTiming target limit earliest h = ground arith

-- The start of the solving of a batch, in nanoseconds.
abbrev pub opening : ℕ → ℕ
opening b = (b + 1) * 300 * second

-- A time in the solving of batch `b`, whose timestamps fit 64 bits.
pub record IsDuring (b now : ℕ) : Type 0 where
  pub begun : opening b ≤ now
  pub not_over : now < opening (b + 1)
  pub early : (b + 1) * 300 < 2 ^ 64

being_solved :
    (b now : ℕ) → IsDuring b now → currently_being_solved (some (now / second)) ≡ ok (some b)
unfolding currently_being_solved prev from_timestamp
being_solved b now t = ground arith

start_lem : (b : ℕ) → b * 300 < 2 ^ 64 → solve_start_time b ≡ (b + 1) * 300
unfolding solve_start_time order_collection_start_time as_timestamp
start_lem b t = omega arith

next_lem : (b : ℕ) → b * 300 < 2 ^ 64 → next b ≡ ok (b + 1)
unfolding next
next_lem b h = ground arith

module _ (config : AuctionTimingConfiguration) (last : Option ℕ) (b now : ℕ)
    (t : IsDuring b now) where
  action_solve :
      is_batch last b ≡ false
      → opening b + config.target_start_solve_time ≤ now
      → now < opening b + config.latest_solution_submit_time
      → determine_action config last (some now)
        ≡ ok (some (solve b (opening b + config.latest_solution_submit_time - now)))
  unfolding determine_action action_for action_at
  action_solve unused begun before =
      rw (being_solved b now t, start_lem b (omega arith)) (ground arith)

  action_early :
      is_batch last b ≡ false
      → config.target_start_solve_time < config.latest_solution_submit_time
      → now < opening b + config.target_start_solve_time
      → determine_action config last (some now)
        ≡ ok (some (sleep (opening b + config.target_start_solve_time - now)))
  unfolding determine_action action_for action_at
  action_early unused c before = rw (being_solved b now t, start_lem b (omega arith)) (ground arith)

  action_late :
      (is_batch last b || leb config.latest_solution_submit_time (now - opening b)) ≡ true
      → determine_action config last (some now)
        ≡ ok (some (sleep (opening (b + 1) + config.target_start_solve_time - now)))
  unfolding determine_action action_for action_at
  action_late over =
      rw (being_solved b now t, start_lem b (omega arith))
        (ground (arith, next_lem b (omega arith), start_lem (b + 1) (omega arith)))

-- The scheduler solves batch `b` until the deadline of its window.
abbrev pub Solves : AuctionTimingConfiguration → Option ℕ → ℕ → ℕ → Type 0
Solves config last b now =
    (limit : ℕ) × (determine_action config last (some now) ≡ ok (some (solve b limit)))
    × (is_batch last b ≡ false)
    × (0 < limit)
    × (opening b + config.target_start_solve_time ≤ now)
    × (now + limit ≡ opening b + config.latest_solution_submit_time)

Solves-in_window :
    (config : AuctionTimingConfiguration) (last : Option ℕ) (b now : ℕ)
    → IsDuring b now
    → is_batch last b ≡ false
    → opening b + config.target_start_solve_time ≤ now
    → now < opening b + config.latest_solution_submit_time
    → Solves config last b now
Solves-in_window config last b now t unused begun before = (
  opening b + config.latest_solution_submit_time - now,
  action_solve config last b now t unused begun before,
  unused,
  omega arith,
  begun,
  omega arith,
)

-- With a valid configuration the scheduler never fails during the solving of a batch that follows
-- the last solved one or is it. It solves the batch, once and only in its window, with the time
-- that is left of the window as its limit; or it sleeps for a positive time, and when it wakes
-- it solves this batch or the next.
pub determine_action_lem :
    (config : AuctionTimingConfiguration) (last : Option ℕ) (b now : ℕ)
    → IsTiming config
    → IsDuring b now
    → (b + 2) * 300 < 2 ^ 64
    → is_batch last (b + 1) ≡ false
    → Solves config last b now
      ⊎ ((d : ℕ) × (determine_action config last (some now) ≡ ok (some (sleep d)))
          × (0 < d)
          × (Solves config last b (now + d) ⊎ Solves config last (b + 1) (now + d)))
determine_action_lem config last b now c t fits fresh =
    elim (Bool-cases
      (is_batch last b || leb config.latest_solution_submit_time (now - opening b))) [
        | inl over ↦
            let d = opening (b + 1) + config.target_start_solve_time - now in
            inr (
              d,
              action_late config last b now t over,
              omega arith,
              inr (
                  Solves-in_window config last (b + 1) (now + d)
                    (record { begun = omega arith; not_over = omega arith; early = omega arith })
                    fresh (omega arith) (omega arith)),
            )
        | inr in_time ↦
            let unused : is_batch last b ≡ false = ground arith in
            let before : now < opening b + config.latest_solution_submit_time = ground arith in
            elim (Bool-cases (ltb now (opening b + config.target_start_solve_time))) [
              | inl early ↦
                  let d = opening b + config.target_start_solve_time - now in
                  inr (
                    d,
                    action_early config last b now t unused c.starts_before (ground arith),
                    ground arith,
                    inl (
                        Solves-in_window config last b (now + d)
                          (record { begun = omega arith; not_over = omega arith; early = t.early })
                          unused (omega arith) (omega arith)),
                  )
              | inr begun ↦ inl (Solves-in_window config last b now t unused (ground arith) before)
            ]
      ]
