-- ===== src/PriceFinding/Tests.antt =====
-- The theorems on services-core/src/price_finding at two orders that match.
use dex_services.Prelude.{All, ℕ, ◌≡◌, ◌⊎◌, refl, none, some, [], ◌∷◌, arith}
use dex_services.Outcome.{ok}
use dex_services.Assoc.{Assoc}
use dex_services.Streamed.Order.{ModelOrder}
use dex_services.Models.Solution.{Solution, trivial, read_balance}
use dex_services.Models.Remaining.{compute_remaining_buy_sell_amounts}
use dex_services.Util.{ceiled_div, as_u128, as_u128_checked, mul_u256, div}
use dex_services.PriceFinding.Matching.{Fee, match_compare, match_with, find_first_match}
use dex_services.PriceFinding.NaiveSolver.{
  order_with_buffer_for_fee, execute, create_executed_orders, normalize_price, normalize_prices,
  executed_sell_amount, unchecked_buy_amount, executed_buy_amount, apply_fee, apply_fees,
  create_solution_with_fee, remaining_orders, solve, find_prices,
}
use dex_services.PriceFinding.NaiveSolver.Trade.{IsProper, IsTrade, find_prices-IsTrade}
use dex_services.PriceFinding.NaiveSolver.Fees.Trade.{IsPricedTrade, find_prices-IsPricedTrade}

-- Each sells 1000000 of a token for at least 500000 of the other's.
abbrev one : ModelOrder
one = record {
  id = 0;
  account_id = 5;
  buy_token = 0;
  sell_token = 1;
  numerator = 500000;
  denominator = 1000000;
  remaining_sell_amount = 1000000;
  valid_from = 0;
  valid_until = 10;
}

abbrev two : ModelOrder
two = record one { account_id = 6; buy_token = 1; sell_token = 0 }

abbrev funds : Assoc ℕ
funds = ((5, 1), 1000000) ∷ ((6, 0), 1000000) ∷ []

abbrev both_proper : All IsProper (one ∷ two ∷ [])
both_proper = (
  record { numerator_fits = omega arith; denominator_fits = omega arith; left = omega arith },
  (record { numerator_fits = omega arith; denominator_fits = omega arith; left = omega arith }, tt),
)

find_prices-IsTrade_example :
    (s : Solution) × (find_prices none (one ∷ two ∷ []) funds ≡ ok s)
    × ((s ≡ trivial) ⊎ IsTrade funds (one ∷ two ∷ []) s)
find_prices-IsTrade_example = find_prices-IsTrade (one ∷ two ∷ []) funds both_proper

-- The solution: both are filled.
abbrev filled : Solution
filled = record {
  prices = (1, 1000000) ∷ (0, 1000000) ∷ [];
  executed_orders =
      record { account_id = 5; order_id = 0; sell_amount = 1000000; buy_amount = 1000000 }
      ∷ record { account_id = 6; order_id = 0; sell_amount = 1000000; buy_amount = 1000000 }
      ∷ [];
}

both_filled : find_prices none (one ∷ two ∷ []) funds ≡ ok filled
unfolding find_prices remaining_orders compute_remaining_buy_sell_amounts ceiled_div as_u128
    find_first_match match_with match_compare read_balance solve create_executed_orders
    order_with_buffer_for_fee execute
both_filled = refl

-- A fee of a thousandth in token 0.
abbrev fee : Fee
fee = record { token = 0; fee_denominator = 1000 }

abbrev filled_with_fee : Solution
filled_with_fee = record {
  prices = (1, 999000000000000000) ∷ (0, 1000000000000000000) ∷ [];
  executed_orders =
      record { account_id = 5; order_id = 0; sell_amount = 1000000; buy_amount = 998001 }
      ∷ record { account_id = 6; order_id = 0; sell_amount = 1000000; buy_amount = 1000000 }
      ∷ [];
}

with_fee : find_prices (some fee) (one ∷ two ∷ []) funds ≡ ok filled_with_fee
unfolding find_prices remaining_orders compute_remaining_buy_sell_amounts ceiled_div as_u128
    as_u128_checked mul_u256 div find_first_match match_with match_compare read_balance solve
    create_executed_orders order_with_buffer_for_fee execute create_solution_with_fee
    normalize_prices normalize_price apply_fees apply_fee executed_buy_amount executed_sell_amount
    unchecked_buy_amount
with_fee = refl

find_prices-IsPricedTrade_example :
    (filled_with_fee ≡ trivial) ⊎ IsPricedTrade funds fee (one ∷ two ∷ []) filled_with_fee
find_prices-IsPricedTrade_example =
    find_prices-IsPricedTrade fee (one ∷ two ∷ []) funds filled_with_fee both_proper with_fee
