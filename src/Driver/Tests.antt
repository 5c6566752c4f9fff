-- ===== src/Driver/Tests.antt =====
-- The theorems on services-core/src/driver ten seconds into the solving of batch 3.
use dex_services.Prelude.{ℕ, ◌+◌, ◌*◌, ◌<◌, ◌≡◌, ◌⊎◌, refl, some, arith}
use dex_services.Outcome.{ok}
use dex_services.Driver.Timing.{second, AuctionTimingConfiguration, new, default}
use dex_services.Driver.System.{sleep, determine_action}
use dex_services.Driver.System.Progress.{opening, Solves, determine_action_lem}

abbrev config : AuctionTimingConfiguration
config = record {
  target_start_solve_time = 30 * second;
  latest_solution_submit_time = 180 * second;
  earliest_solution_submit_time = 0;
}

default-config : default ≡ ok config
unfolding new
default-config = refl

determine_action_lem_example :
    Solves config (some 2) 3 (opening 3 + 10 * second)
    ⊎ ((d : ℕ) × (determine_action config (some 2) (some (opening 3 + 10 * second))
          ≡ ok (some (sleep d)))
        × (0 < d)
        × (Solves config (some 2) 3 (opening 3 + 10 * second + d)
            ⊎ Solves config (some 2) (3 + 1) (opening 3 + 10 * second + d)))
determine_action_lem_example =
    determine_action_lem config (some 2) 3 (opening 3 + 10 * second)
      (record {
        starts_before = omega arith;
        ends_within = omega arith;
        submits_within = omega arith;
      })
      (record { begun = omega arith; not_over = omega arith; early = omega arith }) (omega arith)
      refl
