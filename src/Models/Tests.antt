-- ===== src/Models/Tests.antt =====
-- The theorems on services-core/src/models at concrete inputs.
use dex_services.Prelude.{[], ◌∷◌}
use dex_services.Models.Solution.{Solution}

-- Ten are sold for three: the fee is half of seven.
abbrev fee_solution : Solution
fee_solution = record {
  prices = [];
  executed_orders = record { account_id = 5; order_id = 0; sell_amount = 10; buy_amount = 3 } ∷ [];
}
