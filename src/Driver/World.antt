-- ===== src/Driver/World.antt =====
-- services-core/src/driver/scheduler: what the schedulers exchange with the world around them. A
-- call is recorded with its answer, and answers may depend on all that was recorded before. Times
-- are nanoseconds.
use dex_services.Prelude.{ℕ, Bool, true, false, Option, none, some, List, ◌∷◌}
use dex_services.Models.Solution.{Solution}
use dex_services.Driver.Stablex.{Solved}

pub data Event : Type 0 where
  -- `StableXContract::get_current_auction_index` and `get_current_auction_remaining_time`
  asked_index asked_remaining : Option ℕ → Event
  -- `AsyncSleeping::sleep`
  slept : ℕ → Event
  -- `HealthReporting::notify_ready`
  notified : Event
  -- `StableXDriver::solve_batch` of a batch with a time limit, and `submit_solution`
  solved : ℕ → ℕ → Solved → Event
  submitted : ℕ → Solution → Bool → Event

-- The answers, after the recorded events, of which the last stands first.
pub record World : Type 0 where
  pub index : List Event → Option ℕ
  pub remaining : List Event → Option ℕ
  pub solve_batch : List Event → ℕ → ℕ → Solved
  pub submit_solution : List Event → ℕ → Solution → Bool
  -- `Now::system_now`, since the epoch, and `Now::instant_now`
  pub now : List Event → ℕ
  pub instant : List Event → ℕ

pub data Ended {ℓ} (A : Type ℓ) : Type ℓ where
  done : A → Ended A
  failed panicked out_of_fuel : Ended A

abbrev pub Run : Type 0 → Type 0
Run A = World → List Event → Ended A × List Event

abbrev pub continue : {A B : Type 0} → Ended A × List Event → (A → Run B) → Run B
continue (done a, es) f w es' = f a w es
continue (failed, es) f w es' = (failed, es)
continue (panicked, es) f w es' = (panicked, es)
continue (out_of_fuel, es) f w es' = (out_of_fuel, es)

infixl 5 ◌>>=◌ ◌>>◌
abbrev pub ◌>>=◌ : {A B : Type 0} → Run A → (A → Run B) → Run B
◌>>=◌ m f w es = continue (m w es) f w es

abbrev pub ◌>>◌ : {B : Type 0} → Run (Unit {0}) → Run B → Run B
m >> k = m >>= λ _. k

abbrev pub return : {A : Type 0} → A → Run A
return a w es = (done a, es)

abbrev pub panic : {A : Type 0} → Run A
panic w es = (panicked, es)

abbrev pub starved : {A : Type 0} → Run A
starved w es = (out_of_fuel, es)

abbrev pub or_failed : {A : Type 0} → Option A → Ended A
or_failed none = failed
or_failed (some a) = done a

abbrev pub get_index : Run ℕ
get_index w es = (or_failed (w.index es), asked_index (w.index es) ∷ es)

abbrev pub get_remaining : Run ℕ
get_remaining w es = (or_failed (w.remaining es), asked_remaining (w.remaining es) ∷ es)

abbrev pub sleep : ℕ → Run (Unit {0})
sleep d w es = (done tt, slept d ∷ es)

abbrev pub notify_ready : Run (Unit {0})
notify_ready w es = (done tt, notified ∷ es)

abbrev pub solve_batch : ℕ → ℕ → Run Solved
solve_batch batch limit w es =
    (done (w.solve_batch es batch limit), solved batch limit (w.solve_batch es batch limit) ∷ es)

abbrev pub submit_solution : ℕ → Solution → Run Bool
submit_solution batch s w es =
    (done (w.submit_solution es batch s), submitted batch s (w.submit_solution es batch s) ∷ es)

abbrev pub get_now : Run ℕ
get_now w es = (done (w.now es), es)

abbrev pub get_instant : Run ℕ
get_instant w es = (done (w.instant es), es)

-- A call whose error is caught: whether it succeeded.
abbrev pub caught : {A : Type 0} → Ended A × List Event → Ended Bool × List Event
caught (done a, es) = (done true, es)
caught (failed, es) = (done false, es)
caught (panicked, es) = (panicked, es)
caught (out_of_fuel, es) = (out_of_fuel, es)

abbrev pub attempt : {A : Type 0} → Run A → Run Bool
attempt m w es = caught (m w es)
