-- ===== src/Driver/Evm/Timely.antt =====
-- services-core/src/driver/scheduler/evm.rs: what it means to solve and submit in time.
use mathlib.Core.List.{Memᴰ}
use dex_services.Prelude.{ℕ, suc, ◌-◌, ◌*◌, ◌≤◌, ◌≡◌, some, List, [], ◌∷◌}
use dex_services.Models.BatchId.{batch_duration}
use dex_services.Models.Solution.{Solution}
use dex_services.Streamed.State.{previous_u32}
use dex_services.Driver.Stablex.{Solved}
use dex_services.Driver.Timing.{second, AuctionTimingConfiguration}
use dex_services.Driver.World.{
  Event, World, Ended, Run, continue, asked_index, asked_remaining, slept, notified, solved,
  submitted, done, failed, panicked, out_of_fuel,
}

-- The last two answers of the exchange: so much time has passed in the batch being solved.
pub record Measured (batch time : ℕ) (es : List Event) : Type 0 where
  pub index : ℕ
  pub remaining : ℕ
  pub before : List Event
  pub recorded : es ≡ asked_index (some index) ∷ asked_remaining (some remaining) ∷ before
  pub current : previous_u32 index ≡ batch
  pub within : remaining ≤ batch_duration * second
  pub passed : time ≡ batch_duration * second - remaining

-- The driver has found the solution for the batch.
abbrev pub HasSolved : ℕ → Solution → List Event → Type 0
HasSolved batch s es = (limit : ℕ) × Memᴰ (solved batch limit (Solved.solution s)) es

-- The solver is called right after the time was measured, with what is left until the latest time;
-- and a solution is submitted right after it was measured that the earliest time has passed in its
-- batch.
abbrev pub IsTimely : AuctionTimingConfiguration → List Event → Type 0
IsTimely config [] = Unit
IsTimely config (asked_index i ∷ es) = IsTimely config es
IsTimely config (asked_remaining r ∷ es) = IsTimely config es
IsTimely config (slept d ∷ es) = IsTimely config es
IsTimely config (notified ∷ es) = IsTimely config es
IsTimely config (solved batch limit s ∷ es) =
    ((time : ℕ) × Measured batch time es
      × (time ≤ config.latest_solution_submit_time)
      × (limit ≡ config.latest_solution_submit_time - time))
    × IsTimely config es
IsTimely config (submitted batch s succeeded ∷ es) =
    ((time : ℕ) × Measured batch time es × (config.earliest_solution_submit_time ≤ time))
    × HasSolved batch s es
    × IsTimely config es

abbrev pub submissions : List Event → ℕ
submissions [] = 0
submissions (asked_index i ∷ es) = submissions es
submissions (asked_remaining r ∷ es) = submissions es
submissions (slept d ∷ es) = submissions es
submissions (notified ∷ es) = submissions es
submissions (solved batch limit s ∷ es) = submissions es
submissions (submitted batch s succeeded ∷ es) = suc (submissions es)

-- A call that does not panic and ends in `P`, or else in `R`.
abbrev pub Ensures :
    {A : Type 0} → (A → List Event → Type 0) → (List Event → Type 0) → Ended A × List Event → Type 0
Ensures P R (done a, es) = P a es
Ensures P R (failed, es) = R es
Ensures P R (panicked, es) = ⊥
Ensures P R (out_of_fuel, es) = R es

pub Ensures-continue :
    {A B : Type 0} (P : A → List Event → Type 0) (Q : B → List Event → Type 0)
    (R : List Event → Type 0) (r : Ended A × List Event) (f : A → Run B) (w : World)
    (es : List Event)
    → Ensures P R r
    → ((a : A) (es : List Event) → P a es → Ensures Q R (f a w es))
    → Ensures Q R (continue r f w es)
Ensures-continue P Q R (done a, es) f w es' h k = k a es h
Ensures-continue P Q R (failed, es) f w es' h k = h
Ensures-continue P Q R (panicked, es) f w es' h k = elim h [ ]
Ensures-continue P Q R (out_of_fuel, es) f w es' h k = h

-- The exchange never reports more time than a batch has.
abbrev pub IsSane : World → Type 0
IsSane w = (es : List Event) (r : ℕ) → w.remaining es ≡ some r → r ≤ batch_duration * second
