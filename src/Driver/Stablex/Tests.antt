-- ===== src/Driver/Stablex/Tests.antt =====
-- The theorems on services-core/src/driver/stablex_driver.rs for one order and its solution.
use dex_services.Prelude.{◌*◌, ◌≡◌, refl, some, [], ◌∷◌}
use dex_services.Streamed.Order.{ModelOrder}
use dex_services.Models.Solution.{Solution, is_non_trivial}
use dex_services.Driver.Timing.{second}
use dex_services.Driver.Stablex.{
  accepted, Transaction, Services, Solved, solve, solve_in_time, solve_batch, submit,
}
use dex_services.Driver.Stablex.Submission.{
  IsCareful, IsFound, submit-IsCareful, solve_batch-submit,
}

abbrev pub order : ModelOrder
order = record {
  id = 0;
  account_id = 5;
  buy_token = 0;
  sell_token = 1;
  numerator = 5;
  denominator = 10;
  remaining_sell_amount = 10;
  valid_from = 0;
  valid_until = 10;
}

abbrev pub found : Solution
found = record {
  prices = [];
  executed_orders = record { account_id = 5; order_id = 0; sell_amount = 10; buy_amount = 8 } ∷ [];
}

abbrev pub services : Services
services = record {
  get_auction_data_for_batch = λ batch. some ([], order ∷ []);
  min_average_fee = some 3;
  find_prices = λ os accounts deadline fee. some found;
  get_solution_objective_value = λ batch s. accepted 42;
  max_gas_price = λ info. some 100;
  submit_solution = λ t. accepted tt;
}

abbrev pub sent : Transaction
sent = record { batch = 7; solution = found; objective_value = 42; gas_price_cap = 100 }

submit-IsCareful_example : IsCareful services 7 found (submit services 7 found)
submit-IsCareful_example = submit-IsCareful services 7 found

solved : solve_batch services 7 (60 * second) second ≡ Solved.solution found
unfolding solve_in_time solve
solved = refl

submitted : (submit services 7 found).sent ≡ sent ∷ []
unfolding submit is_non_trivial
submitted = refl

solve_batch-submit_example :
    IsFound services (60 * second) second (services.get_auction_data_for_batch 7) found
solve_batch-submit_example =
    solve_batch-submit services 7 (60 * second) second found sent solved submitted
