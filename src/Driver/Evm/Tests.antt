-- ===== src/Driver/Evm/Tests.antt =====
-- services-core/src/driver/scheduler/evm.rs: the scheduler where the exchange's batch changes from
-- 42 to 43 after one answer, and the driver answers with the trivial solution.
use dex_services.Prelude.{
  ◌*◌, ◌≤◌, ◌≡◌, refl, true, none, some, [], ◌∷◌, ltb, if◌then◌else◌, length, arith,
}
use dex_services.Models.Solution.{trivial}
use dex_services.Driver.Stablex.{Solved}
use dex_services.Driver.Timing.{second, AuctionTimingConfiguration}
use dex_services.Driver.World.{
  World, done, asked_index, asked_remaining, notified, solved, submitted,
}
use dex_services.Driver.Evm.{
  current_solving_batch, wait_for_batch_to_change, batch_time, solve, submit, step,
}
use dex_services.Driver.Evm.Timely.{IsSane, IsTimely, Ensures, submissions}
use dex_services.Driver.Evm.Safety.{step-IsTimely}
use dex_services.Driver.Evm.Loops.{IsOver, Ends, AnyResult, loops_end}

abbrev config : AuctionTimingConfiguration
config = record {
  target_start_solve_time = 30 * second;
  latest_solution_submit_time = 180 * second;
  earliest_solution_submit_time = 0;
}

abbrev world : World
world = record {
  index = λ es. some (if ltb (length es) 1 then 43 else 44);
  remaining = λ es. some (270 * second);
  solve_batch = λ es b limit. Solved.solution trivial;
  submit_solution = λ es b s. true;
  now = λ es. 0;
  instant = λ es. 0;
}

world-IsSane : IsSane world
world-IsSane es r e = ground arith

-- The first step waits for the second batch and solves it.
first_step : step config 3 none world [] ≡ (
  done 43,
  submitted 43 trivial true
      ∷ asked_index (some 44)
      ∷ asked_remaining (some (270 * second))
      ∷ solved 43 (150 * second) (Solved.solution trivial)
      ∷ asked_index (some 44)
      ∷ asked_remaining (some (270 * second))
      ∷ notified
      ∷ asked_index (some 44)
      ∷ asked_index (some 43)
      ∷ [],
)
unfolding step wait_for_batch_to_change current_solving_batch solve batch_time submit
first_step = refl

step-IsTimely_example :
    Ensures
      (λ b es'. IsTimely config es' × (submissions es' ≤ 1))
      (λ es'. IsTimely config es' × (submissions es' ≤ 1))
      (step config 3 none world [])
step-IsTimely_example = step-IsTimely config world 3 none [] world-IsSane tt

world-IsOver : IsOver world 1 42
world-IsOver es i le e same = ground arith

loops_end_example :
    Ends AnyResult (wait_for_batch_to_change 2 42 world [])
    × Ends AnyResult (solve config 2 42 world [])
    × Ends AnyResult (submit config 2 42 trivial world [])
loops_end_example = loops_end config world 1 42 1 trivial [] world-IsOver (omega arith)
