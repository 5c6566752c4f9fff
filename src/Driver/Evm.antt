-- ===== src/Driver/Evm.antt =====
-- services-core/src/driver/scheduler/evm.rs: the scheduler that follows the exchange's batches. Its
-- loops are on fuel. Logging is left out.
pub mod Timely
pub mod Safety
pub mod Rounds
pub mod Loops
pub mod Tests
use dex_services.Prelude.{
  ℕ, zero, suc, ◌+◌, ◌-◌, ◌*◌, Bool, true, false, Option, none, some, List, ◌∷◌, ltb, leb, ◌==◌,
  if◌then◌else◌,
}
use dex_services.Models.BatchId.{batch_duration}
use dex_services.Models.Solution.{Solution}
use dex_services.Streamed.State.{previous_u32}
use dex_services.Driver.Stablex.{Solved}
use dex_services.Driver.Timing.{second, AuctionTimingConfiguration}
use dex_services.Driver.World.{
  World, Event, Ended, done, failed, panicked, out_of_fuel, slept, Run, ◌>>=◌, ◌>>◌, return, panic,
  starved, get_index, get_remaining, sleep, notify_ready, solve_batch, submit_solution,
}

abbrev pub poll_timeout : ℕ
poll_timeout = 5 * second

unfoldable pub current_solving_batch : Run ℕ
current_solving_batch = get_index >>= λ index. return (previous_u32 index)

unfoldable pub wait_for_batch_to_change : ℕ → ℕ → Run ℕ
wait_for_batch_to_change zero batch = starved
wait_for_batch_to_change (suc fuel) batch =
    let again = sleep poll_timeout >> wait_for_batch_to_change fuel batch in
    current_solving_batch >>= λ current. if current == batch then again else return current

-- `checked_sub` under `expect`.
abbrev pub since_start : ℕ → Run (Option ℕ)
since_start time_remaining =
    if leb time_remaining (batch_duration * second)
    then return (some (batch_duration * second - time_remaining))
    else panic

unfoldable pub batch_time : ℕ → Run (Option ℕ)
unfolding current_solving_batch
batch_time batch_id = get_remaining >>= λ time_remaining. current_solving_batch >>= λ current.
    if current == batch_id then since_start time_remaining else return none

-- `and_then` with `checked_sub`.
abbrev pub left_of : ℕ → Option ℕ → Option ℕ
left_of limit none = none
left_of limit (some time) = if leb time limit then some (limit - time) else none

abbrev pub solver_time_limit : AuctionTimingConfiguration → ℕ → Run (Option ℕ)
solver_time_limit config batch_id =
    batch_time batch_id >>= λ time. return (left_of config.latest_solution_submit_time time)

-- What is done with an answer of the driver.
abbrev pub after_solving : Run (Option Solution) → Solved → Run (Option Solution)
after_solving again (Solved.solution s) = return (some s)
after_solving again Solved.retry = again
after_solving again Solved.skip = return none

abbrev pub solve_within : ℕ → Run (Option Solution) → Option ℕ → Run (Option Solution)
solve_within batch_id again none = return none
solve_within batch_id again (some limit) = solve_batch batch_id limit >>= after_solving again

unfoldable pub solve : AuctionTimingConfiguration → ℕ → ℕ → Run (Option Solution)
solve config zero batch_id = starved
solve config (suc fuel) batch_id =
    solver_time_limit config batch_id >>= solve_within batch_id (solve config fuel batch_id)

abbrev pub submit_at :
    AuctionTimingConfiguration → ℕ → Solution → Run (Unit {0}) → Option ℕ → Run (Unit {0})
submit_at config batch_id s again none = return tt
submit_at config batch_id s again (some time) =
    if ltb time config.earliest_solution_submit_time
    then sleep poll_timeout >> again
    else submit_solution batch_id s >>= λ succeeded. return tt

unfoldable pub submit : AuctionTimingConfiguration → ℕ → ℕ → Solution → Run (Unit {0})
submit config zero batch_id s = starved
submit config (suc fuel) batch_id s =
    batch_time batch_id >>= submit_at config batch_id s (submit config fuel batch_id s)

abbrev pub last_batch_or_current : Option ℕ → Run ℕ
last_batch_or_current none = current_solving_batch
last_batch_or_current (some batch) = return batch

abbrev pub submit_if_solved : AuctionTimingConfiguration → ℕ → ℕ → Option Solution → Run (Unit {0})
submit_if_solved config fuel batch none = return tt
submit_if_solved config fuel batch (some s) = submit config fuel batch s

unfoldable pub step : AuctionTimingConfiguration → ℕ → Option ℕ → Run ℕ
step config fuel last_batch = last_batch_or_current last_batch >>= λ batch.
    wait_for_batch_to_change fuel batch >>= λ new_batch.
    notify_ready
    >> (solve config fuel new_batch >>= λ solution.
        submit_if_solved config fuel new_batch solution >> return new_batch)

abbrev pub retry_sleep_duration : ℕ
retry_sleep_duration = 5 * second

-- What follows a step in the loop of `start`: an error keeps the previous batch, a panic ends it.
abbrev pub round :
    (Option ℕ → World → List Event → List Event)
    → Option ℕ
    → Ended ℕ × List Event
    → World
    → List Event
round next previous (done batch, es) w = next (some batch) w (slept retry_sleep_duration ∷ es)
round next previous (failed, es) w = next previous w (slept retry_sleep_duration ∷ es)
round next previous (panicked, es) w = es
round next previous (out_of_fuel, es) w = es

-- So many rounds of the endless loop of `start`, and what is recorded in them.
unfoldable pub rounds :
    AuctionTimingConfiguration → ℕ → ℕ → Option ℕ → World → List Event → List Event
rounds config fuel zero previous w es = es
rounds config fuel (suc n) previous w es =
    round (rounds config fuel n) previous (step config fuel previous w es) w
