-- ===== src/Driver/System.antt =====
-- services-core/src/driver/scheduler/system.rs: what the scheduler does at a time of the system's
-- clock. Times are nanoseconds since the epoch; a time before it is none.
pub mod Progress
use dex_services.Prelude.{
  ℕ, ◌+◌, ◌-◌, ◌*◌, ◌/◌, ◌%◌, ◌^◌, ◌≤◌, ◌<◌, ◌≡◌, ◌≢◌, Bool, true, false, ◌||◌, Option, none, some,
  ltb, leb, ◌==◌, if◌then◌else◌, arith, Bool-cases, inl, inr, ◌⊎◌,
}
use dex_services.Outcome.{Outcome, ok, panic, ◌>>=◌}
use dex_services.Models.BatchId.{
  batch_duration, from_timestamp, currently_being_solved, prev, next, solve_start_time,
  order_collection_start_time, as_timestamp, solving_window,
}
use dex_services.Driver.Timing.{second, AuctionTimingConfiguration, new}

pub data Action : Type 0 where
  solve : ℕ → ℕ → Action
  sleep : ℕ → Action

abbrev in_seconds : Option ℕ → Option ℕ
in_seconds none = none
in_seconds (some now) = some (now / second)

-- `SystemTime::duration_since` under `unwrap`.
abbrev duration_since : ℕ → ℕ → Outcome ℕ
duration_since later earlier = if leb earlier later then ok (later - earlier) else panic

abbrev pub is_batch : Option ℕ → ℕ → Bool
is_batch none b = false
is_batch (some a) b = a == b

-- What is done in the batch being solved, `elapsed` after its start.
pub action_at : AuctionTimingConfiguration → Option ℕ → ℕ → ℕ → ℕ → Outcome Action
action_at config last_solved_batch solving_batch elapsed now =
    let intended = solve_start_time solving_batch * second + config.target_start_solve_time in
    if is_batch last_solved_batch solving_batch || leb config.latest_solution_submit_time elapsed
    then (next solving_batch >>= λ following.
        duration_since (solve_start_time following * second + config.target_start_solve_time) now
        >>= λ d. ok (sleep d))
    else if ltb now intended
    then (duration_since intended now >>= λ d. ok (sleep d))
    else ok (solve solving_batch (config.latest_solution_submit_time - elapsed))

-- `determine_action` once the batch being solved is known.
pub action_for : AuctionTimingConfiguration → Option ℕ → ℕ → ℕ → Outcome Action
action_for config last_solved_batch solving_batch now =
    duration_since now (solve_start_time solving_batch * second) >>= λ elapsed.
    action_at config last_solved_batch solving_batch elapsed now

abbrev action_or_error :
    AuctionTimingConfiguration → Option ℕ → Option ℕ → Option ℕ → Outcome (Option Action)
action_or_error config last_solved_batch (some now) (some batch) =
    action_for config last_solved_batch batch now >>= λ a. ok (some a)
action_or_error config last_solved_batch now batch = ok none

-- None is the error for a time before the epoch.
pub determine_action : AuctionTimingConfiguration → Option ℕ → Option ℕ → Outcome (Option Action)
determine_action config last_solved_batch now = currently_being_solved (in_seconds now) >>= λ batch.
    action_or_error config last_solved_batch now batch
