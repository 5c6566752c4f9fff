-- ===== src/Driver/Background/Tests.antt =====
-- services-core/src/driver/scheduler/system.rs: a background task for batch 42 where a second passes
-- with each call and sleeping takes as long as it should.
use dex_services.Prelude.{
  ℕ, ◌+◌, ◌*◌, true, none, some, List, [], ◌∷◌, ltb, if◌then◌else◌, length, arith,
}
use dex_services.Models.BatchId.{into_u32}
use dex_services.Models.Solution.{trivial}
use dex_services.Driver.Stablex.{Solved}
use dex_services.Driver.Timing.{second}
use dex_services.Driver.World.{
  Event, World, asked_index, asked_remaining, slept, notified, solved, submitted,
}
use dex_services.Driver.Evm.Timely.{Ensures}
use dex_services.Driver.Evm.Loops.{Ends, AnyResult}
use dex_services.Driver.Background.{solve_and_submit}
use dex_services.Driver.Background.Safety.{Ticks, IsRight, solve_and_submit-IsRight}
use dex_services.Driver.Background.Loops.{IsPast, solve_and_submit-Ends}

-- The time that a call takes.
abbrev duration : Event → ℕ
duration (asked_index i) = second
duration (asked_remaining r) = second
duration (slept d) = d
duration notified = 0
duration (solved b limit s) = 2 * second
duration (submitted b s succeeded) = second

clock : List Event → ℕ
clock [] = 12900 * second
clock (e ∷ es) = clock es + duration e

clock-Ticks : Ticks clock
unfolding clock
clock-Ticks = record { forward = λ e es. omega arith; slept_for = λ d es. omega arith }

-- The driver fails once and then finds a solution; the exchange's batch is 43.
abbrev world : World
world = record {
  index = λ es. some 43;
  remaining = λ es. none;
  solve_batch = λ es b limit. if ltb (length es) 1 then Solved.retry else Solved.solution trivial;
  submit_solution = λ es b s. true;
  now = clock;
  instant = clock;
}

solve_and_submit-IsRight_example :
    Ensures
      (λ u. IsRight world 42 (13000 * second) (5 * second) 0)
      (IsRight world 42 (13000 * second) (5 * second) 0)
      (solve_and_submit 2 5 42 (13000 * second) (5 * second) world [])
solve_and_submit-IsRight_example =
    solve_and_submit-IsRight world 42 (13000 * second) (5 * second) 2 5 [] clock-Ticks tt

world-IsPast : IsPast world 0 42
unfolding into_u32
world-IsPast es i le e = ground arith

solve_and_submit-Ends_example :
    Ends AnyResult (solve_and_submit 1 102 42 (13000 * second) (5 * second) world [])
unfolding clock
solve_and_submit-Ends_example =
    solve_and_submit-Ends world 0 42 (13000 * second) (5 * second) 0 101 [] world-IsPast clock-Ticks
      (omega arith) (omega arith)
