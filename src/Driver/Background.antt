-- ===== src/Driver/Background.antt =====
-- services-core/src/driver/scheduler/system.rs: what the system scheduler does in the background
-- with a batch. The loops are on fuel. Logging is left out.
pub mod Safety
pub mod Loops
pub mod Tests
use dex_services.Prelude.{ℕ, zero, suc, ◌+◌, ◌-◌, ◌*◌, Bool, Option, none, some, leb, if◌then◌else◌}
use dex_services.Models.BatchId.{solve_start_time, into_u32}
use dex_services.Models.Solution.{Solution}
use dex_services.Driver.Stablex.{Solved}
use dex_services.Driver.Timing.{second}
use dex_services.Driver.World.{
  Run, ◌>>=◌, ◌>>◌, return, starved, get_index, sleep, solve_batch, submit_solution, get_now,
  get_instant, attempt,
}

abbrev pub retry_sleep_duration : ℕ
retry_sleep_duration = 1 * second

abbrev pub contract_batch_id_poll_interval : ℕ
contract_batch_id_poll_interval = 10 * second

unfoldable pub wait_for_batch_id : ℕ → ℕ → Run (Unit {0})
wait_for_batch_id zero batch_id = starved
wait_for_batch_id (suc fuel) batch_id =
    let again = sleep contract_batch_id_poll_interval >> wait_for_batch_id fuel batch_id in
    get_index >>= λ index. if leb index (into_u32 batch_id) then again else return tt

-- The first moment for a submission.
abbrev pub opening : ℕ → ℕ → ℕ
opening batch_id earliest = solve_start_time batch_id * second + earliest

-- A time that has passed is the error of `duration_since`.
abbrev pub sleep_until : ℕ → ℕ → Run (Unit {0})
sleep_until time now = if leb now time then sleep (time - now) else return tt

unfoldable pub submit : ℕ → ℕ → Solution → Run (Unit {0})
submit batch_id earliest s =
    get_now
    >>= sleep_until (opening batch_id earliest)
    >> (submit_solution batch_id s >>= λ succeeded. return tt)

abbrev pub after_solving : ℕ → ℕ → ℕ → Run (Unit {0}) → Solved → Run (Unit {0})
after_solving fuel batch_id earliest again (Solved.solution s) =
    attempt (wait_for_batch_id fuel batch_id) >>= λ confirmed. submit batch_id earliest s
after_solving fuel batch_id earliest again Solved.retry = sleep retry_sleep_duration >> again
after_solving fuel batch_id earliest again Solved.skip = return tt

-- `checked_duration_since`
abbrev pub until : ℕ → ℕ → Option ℕ
until deadline instant = if leb instant deadline then some (deadline - instant) else none

abbrev pub attempt_within : ℕ → ℕ → ℕ → Run (Unit {0}) → Option ℕ → Run (Unit {0})
attempt_within fuel batch_id earliest again none = return tt
attempt_within fuel batch_id earliest again (some limit) =
    solve_batch batch_id limit >>= after_solving fuel batch_id earliest again

-- The fuel is that of the attempts; each wait for the batch has that of `waits`.
unfoldable pub solve_and_submit : ℕ → ℕ → ℕ → ℕ → ℕ → Run (Unit {0})
solve_and_submit waits zero batch_id deadline earliest = starved
solve_and_submit waits (suc fuel) batch_id deadline earliest = get_instant >>= λ instant.
    attempt_within waits batch_id earliest (solve_and_submit waits fuel batch_id deadline earliest)
      (until deadline instant)
