-- ===== src/Driver/Timing.antt =====
-- services-core/src/driver/scheduler.rs: the timing of an auction. A `Duration` is a number of
-- nanoseconds.
use dex_services.Prelude.{ℕ, ◌*◌, ltb, if◌then◌else◌}
use dex_services.Outcome.{Outcome, ok, panic}
use dex_services.Models.BatchId.{solving_window}

-- Nanoseconds in a second.
abbrev pub second : ℕ
second = 1000000000

pub record AuctionTimingConfiguration : Type 0 where
  pub target_start_solve_time : ℕ
  pub latest_solution_submit_time : ℕ
  pub earliest_solution_submit_time : ℕ

-- `AuctionTimingConfiguration::new` with its three assertions.
unfoldable pub new : ℕ → ℕ → ℕ → Outcome AuctionTimingConfiguration
new target_start_solve_time solver_time_limit min_solution_submit_time =
    if ltb solver_time_limit (solving_window * second)
    then (if ltb target_start_solve_time solver_time_limit
        then (if ltb min_solution_submit_time (solving_window * second)
            then ok (record {
              target_start_solve_time = target_start_solve_time;
              latest_solution_submit_time = solver_time_limit;
              earliest_solution_submit_time = min_solution_submit_time;
            })
            else panic)
        else panic)
    else panic

-- `AuctionTimingConfiguration::default`
abbrev pub default : Outcome AuctionTimingConfiguration
default = new (30 * second) (180 * second) 0
