-- ===== src/Driver/Stablex.antt =====
-- services-core/src/driver/stablex_driver.rs: solving a batch and submitting its solution. The
-- order book, the price finder, the economic viability and the exchange are parameters; a request
-- that fails is none. Gas prices are numbers without an operation. A function that sends
-- transactions returns the list of them.
pub mod Submission
pub mod Tests
use dex_services.Prelude.{
  ℕ, ◌-◌, Bool, true, false, Option, none, some, List, [], ◌∷◌, ltb, leb, if◌then◌else◌,
}
use dex_services.Assoc.{Assoc}
use dex_services.Streamed.Order.{ModelOrder}
use dex_services.Models.Solution.{Solution, trivial, is_non_trivial}
use dex_services.Models.Viability.{EconomicViabilityInfo, economic_viability_info}
use dex_services.Driver.Timing.{second}

-- `Result<_, SolutionSubmissionError>`
pub data Answer {ℓ} (A : Type ℓ) : Type ℓ where
  accepted : A → Answer A
  benign unexpected : Answer A

-- A call of `submit_solution` of the exchange.
pub record Transaction : Type 0 where
  pub batch : ℕ
  pub solution : Solution
  pub objective_value : ℕ
  pub gas_price_cap : ℕ

pub record Services : Type 0 where
  pub get_auction_data_for_batch : ℕ → Option (Assoc ℕ × List ModelOrder)
  pub min_average_fee : Option ℕ
  pub find_prices : List ModelOrder → Assoc ℕ → ℕ → ℕ → Option Solution
  pub get_solution_objective_value : ℕ → Solution → Answer ℕ
  pub max_gas_price : EconomicViabilityInfo → Option ℕ
  pub submit_solution : Transaction → Answer (Unit {0})

-- `Result<Solution, DriverError>`
pub data Solved : Type 0 where
  solution : Solution → Solved
  retry skip : Solved

-- An error of the solver is skipped.
abbrev pub or_skip : Option Solution → Solved
or_skip none = Solved.skip
or_skip (some s) = Solved.solution s

abbrev pub find_with_fee : Services → Assoc ℕ → List ModelOrder → ℕ → Option ℕ → Option Solution
find_with_fee services accounts os deadline none = none
find_with_fee services accounts os deadline (some fee) =
    services.find_prices os accounts deadline fee

-- `StableXDriverImpl::solve`
unfoldable pub solve : Services → ℕ → Assoc ℕ → List ModelOrder → Option Solution
solve services deadline accounts [] = some trivial
solve services deadline accounts (o ∷ os) =
    find_with_fee services accounts (o ∷ os) deadline services.min_average_fee

-- The rest of `solve_batch`; `elapsed` is the time that the order book took, and a time limit that
-- is used up leaves none.
pub solve_in_time : Services → ℕ → ℕ → Option (Assoc ℕ × List ModelOrder) → Solved
solve_in_time services deadline elapsed none = Solved.retry
solve_in_time services deadline elapsed (some (accounts, os)) =
    if ltb second (deadline - elapsed)
    then or_skip (solve services (deadline - elapsed) accounts os)
    else Solved.solution trivial

abbrev pub solve_batch : Services → ℕ → ℕ → ℕ → Solved
solve_batch services batch deadline elapsed =
    solve_in_time services deadline elapsed (services.get_auction_data_for_batch batch)

-- What `submit` ends with: whether it is `Ok`, and what it has sent.
pub record Submitted : Type 0 where
  pub succeeded : Bool
  pub sent : List Transaction

abbrev pub is_expected {ℓ} : {A : Type ℓ} → Answer A → Bool
is_expected (accepted a) = true
is_expected benign = true
is_expected unexpected = false

-- The second half of `submit`, once the solution is verified and the gas price known.
abbrev send : Services → Transaction → Submitted
send services t = record { succeeded = is_expected (services.submit_solution t); sent = t ∷ [] }

abbrev pub send_with_cap : Services → ℕ → Solution → ℕ → Option ℕ → Submitted
send_with_cap services batch s value none = record { succeeded = false; sent = [] }
send_with_cap services batch s value (some cap) =
    send services
      (record { batch = batch; solution = s; objective_value = value; gas_price_cap = cap })

abbrev pub send_verified : Services → ℕ → Solution → Answer ℕ → Submitted
send_verified services batch s (accepted value) =
    send_with_cap services batch s value (services.max_gas_price (economic_viability_info s))
send_verified services batch s benign = record { succeeded = true; sent = [] }
send_verified services batch s unexpected = record { succeeded = false; sent = [] }

-- `StableXDriverImpl::submit`
unfoldable pub submit : Services → ℕ → Solution → Submitted
submit services batch s =
    if is_non_trivial s
    then send_verified services batch s (services.get_solution_objective_value batch s)
    else record { succeeded = true; sent = [] }
