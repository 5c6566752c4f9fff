-- ===== src/Driver/Stablex/Submission.antt =====
-- services-core/src/driver/stablex_driver.rs: which transactions the driver sends, and when it
-- solves nothing.
use dex_services.Prelude.{
  ℕ, ◌-◌, ◌<◌, ◌≡◌, refl, true, Option, none, some, List, [], ◌∷◌, ltb, ◌⊎◌, inl, inr, arith,
  Bool-cases,
}
use dex_services.Assoc.{Assoc}
use dex_services.Streamed.Order.{ModelOrder}
use dex_services.Models.Solution.{Solution, trivial, is_non_trivial}
use dex_services.Models.Viability.{economic_viability_info}
use dex_services.Driver.Timing.{second}
use dex_services.Driver.Stablex.{
  Answer, accepted, benign, unexpected, Transaction, Services, Solved, or_skip, find_with_fee,
  solve, solve_in_time, solve_batch, Submitted, is_expected, send_with_cap, send_verified, submit,
}

-- A transaction that may be sent: for a solution that sells something, with the objective value
-- that the exchange verified and the gas price that is viable for the solution.
pub record IsJustified (services : Services) (batch : ℕ) (s : Solution) (t : Transaction)
    : Type 0 where
  pub of_batch : t.batch ≡ batch
  pub of_solution : t.solution ≡ s
  pub sells : is_non_trivial s ≡ true
  pub verified : services.get_solution_objective_value batch s ≡ accepted t.objective_value
  pub viable : services.max_gas_price (economic_viability_info s) ≡ some t.gas_price_cap

-- The run sent nothing, or one justified transaction, and then it failed only if that failed
-- unexpectedly.
abbrev pub IsCareful : Services → ℕ → Solution → Submitted → Type 0
IsCareful services batch s r =
    (r.sent ≡ [])
    ⊎ ((t : Transaction) × (r.sent ≡ t ∷ [])
        × IsJustified services batch s t
        × (r.succeeded ≡ is_expected (services.submit_solution t)))

send_with_cap-IsCareful :
    (services : Services) (batch : ℕ) (s : Solution) (value : ℕ) (cap : Option ℕ)
    → is_non_trivial s ≡ true
    → services.get_solution_objective_value batch s ≡ accepted value
    → services.max_gas_price (economic_viability_info s) ≡ cap
    → IsCareful services batch s (send_with_cap services batch s value cap)
send_with_cap-IsCareful services batch s value none n v g = inl refl
send_with_cap-IsCareful services batch s value (some cap) n v g = inr (
  record { batch = batch; solution = s; objective_value = value; gas_price_cap = cap },
  refl,
  record { of_batch = refl; of_solution = refl; sells = n; verified = v; viable = g },
  refl,
)

send_verified-IsCareful :
    (services : Services) (batch : ℕ) (s : Solution) (answer : Answer ℕ)
    → is_non_trivial s ≡ true
    → services.get_solution_objective_value batch s ≡ answer
    → IsCareful services batch s (send_verified services batch s answer)
send_verified-IsCareful services batch s (accepted value) n v =
    send_with_cap-IsCareful services batch s value _ n v refl
send_verified-IsCareful services batch s benign n v = inl refl
send_verified-IsCareful services batch s unexpected n v = inl refl

-- Submitting sends at most one transaction, and only for a solution that sells something, with the
-- objective value that the exchange verified for it and the viable gas price; a run that sent
-- it succeeds unless the submission failed unexpectedly.
pub submit-IsCareful :
    (services : Services) (batch : ℕ) (s : Solution)
    → IsCareful services batch s (submit services batch s)
unfolding submit
submit-IsCareful services batch s = elim (Bool-cases (is_non_trivial s)) [
  | inl sells ↦ rw sells (send_verified-IsCareful services batch s _ sells refl)
  | inr empty ↦ rw empty (inl refl)
]

-- Where a solution comes from that is not the trivial one: the price finder, asked for the orders
-- of the batch, of which there is one at least, with what is left of the time, which is more than a
-- second, and the viable fee.
abbrev pub IsFound : Services → ℕ → ℕ → Option (Assoc ℕ × List ModelOrder) → Solution → Type 0
IsFound services deadline elapsed book s =
    (accounts : Assoc ℕ) × (o : ModelOrder) × (os : List ModelOrder) × (fee : ℕ) × (book
      ≡ some (accounts, o ∷ os))
    × (second < deadline - elapsed)
    × (services.min_average_fee ≡ some fee)
    × (services.find_prices (o ∷ os) accounts (deadline - elapsed) fee ≡ some s)

or_skip-eq-solution :
    (o : Option Solution) (s : Solution) → or_skip o ≡ Solved.solution s → o ≡ some s
or_skip-eq-solution none s h = cc
or_skip-eq-solution (some r) s h = cc

solution-injective : (r s : Solution) → Solved.solution r ≡ Solved.solution s → s ≡ r
solution-injective r s h = cc

find_with_fee-IsFound :
    (services : Services) (deadline elapsed : ℕ) (accounts : Assoc ℕ) (o : ModelOrder)
    (os : List ModelOrder) (fee : Option ℕ) (s : Solution)
    → second < deadline - elapsed
    → services.min_average_fee ≡ fee
    → or_skip (find_with_fee services accounts (o ∷ os) (deadline - elapsed) fee)
      ≡ Solved.solution s
    → IsFound services deadline elapsed (some (accounts, o ∷ os)) s
find_with_fee-IsFound services deadline elapsed accounts o os none s l f h = cc
find_with_fee-IsFound services deadline elapsed accounts o os (some fee) s l f h =
    (accounts, o, os, fee, refl, l, f, or_skip-eq-solution _ s h)

solve_in_time-IsFound :
    (services : Services) (deadline elapsed : ℕ) (book : Option (Assoc ℕ × List ModelOrder))
    (s : Solution)
    → solve_in_time services deadline elapsed book ≡ Solved.solution s
    → (s ≡ trivial) ⊎ IsFound services deadline elapsed book s
unfolding solve_in_time solve
solve_in_time-IsFound services deadline elapsed none s h = cc
solve_in_time-IsFound services deadline elapsed (some (accounts, [])) s h =
    elim (Bool-cases (ltb second (deadline - elapsed))) [
      | inl in_time ↦ inl (solution-injective trivial s (rw in_time at h))
      | inr late ↦ inl (solution-injective trivial s (rw late at h))
    ]
solve_in_time-IsFound services deadline elapsed (some (accounts, o ∷ os)) s h =
    elim (Bool-cases (ltb second (deadline - elapsed))) [
      | inl in_time ↦ inr (
          find_with_fee-IsFound services deadline elapsed accounts o os _ s (ground arith) refl
            (rw in_time at h))
      | inr late ↦ inl (solution-injective trivial s (rw late at h))
    ]

submit-trivial : (services : Services) (batch : ℕ) → (submit services batch trivial).sent ≡ []
unfolding submit is_non_trivial
submit-trivial services batch = refl

-- A transaction for a solution of `solve_batch` is sent only if the price finder found the solution
-- for the orders of the batch, with more than a second left and the viable fee: no
-- transaction follows from an empty order book or one that came too late.
pub solve_batch-submit :
    (services : Services) (batch deadline elapsed : ℕ) (s : Solution) (t : Transaction)
    → solve_batch services batch deadline elapsed ≡ Solved.solution s
    → (submit services batch s).sent ≡ t ∷ []
    → IsFound services deadline elapsed (services.get_auction_data_for_batch batch) s
solve_batch-submit services batch deadline elapsed s t h sent =
    elim (solve_in_time-IsFound services deadline elapsed
      (services.get_auction_data_for_batch batch) s h) [
        | inl nothing ↦
            let unsent : (submit services batch s).sent ≡ [] =
              rw nothing (submit-trivial services batch) in
            cc
        | inr found ↦ found
      ]
