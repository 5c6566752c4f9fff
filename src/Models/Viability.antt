-- ===== src/Models/Viability.antt =====
-- services-core/src/models/solution.rs: the fee that a solution earns, with the saturating
-- conversion of services-core/src/bigint_u256.rs.
use dex_services.Prelude.{
  ℕ, ◌+◌, ◌-◌, ◌/◌, ◌≡◌, ◌∙◌, ap, List, [], ◌∷◌, leb, if◌then◌else◌, length, arith,
}
use dex_services.Prelude.Int.{ℤ, pos, negsuc, ◌+ℤ◌, ◌-ℤ◌, negate, int_laws}
use dex_services.Streamed.Auction.{u256_max}
use dex_services.Models.Solution.{ExecutedOrder, Solution}

pub record EconomicViabilityInfo : Type 0 where
  pub num_executed_orders : ℕ
  pub earned_fee : ℕ

-- The loop over the executed orders.
add_imbalance : ℤ → List ExecutedOrder → ℤ
add_imbalance imbalance [] = imbalance
add_imbalance imbalance (o ∷ os) =
    add_imbalance (imbalance +ℤ pos o.sell_amount -ℤ pos o.buy_amount) os

-- `/= 2` on `BigInt`, which rounds towards zero.
abbrev half : ℤ → ℤ
half (pos n) = pos (n / 2)
half (negsuc n) = negate (pos ((n + 1) / 2))

abbrev bigint_to_u256_saturating : ℤ → ℕ
bigint_to_u256_saturating (pos n) = if leb n u256_max then n else u256_max
bigint_to_u256_saturating (negsuc n) = 0

pub earned_fee : Solution → ℕ
earned_fee s = bigint_to_u256_saturating (half (add_imbalance (pos 0) s.executed_orders))

unfoldable pub economic_viability_info : Solution → EconomicViabilityInfo
economic_viability_info s = record {
  num_executed_orders = length s.executed_orders;
  earned_fee = earned_fee s;
}

-- All that is sold, and all that is bought.
abbrev total_sold : List ExecutedOrder → ℕ
total_sold [] = 0
total_sold (o ∷ os) = o.sell_amount + total_sold os

abbrev total_bought : List ExecutedOrder → ℕ
total_bought [] = 0
total_bought (o ∷ os) = o.buy_amount + total_bought os

add_imbalance_lem :
    (imbalance : ℤ) (os : List ExecutedOrder)
    → add_imbalance imbalance os ≡ imbalance +ℤ pos (total_sold os) -ℤ pos (total_bought os)
unfolding add_imbalance
add_imbalance_lem imbalance [] = grind int_laws
add_imbalance_lem imbalance (o ∷ os) =
    grind (int_laws, add_imbalance_lem (imbalance +ℤ pos o.sell_amount -ℤ pos o.buy_amount) os)

saturate_lem :
    (a b : ℕ)
    → bigint_to_u256_saturating (half (pos 0 +ℤ pos a -ℤ pos b))
      ≡ (if leb ((a - b) / 2) u256_max then (a - b) / 2 else u256_max)
unfolding ◌+ℤ◌ ◌-ℤ◌
saturate_lem a b = ground arith

-- The earned fee is half of what is sold beyond what is bought, rounded down and never below zero,
-- and at most the largest 256-bit number.
pub earned_fee_lem :
    (s : Solution)
    → let fee = (total_sold s.executed_orders - total_bought s.executed_orders) / 2 in
      earned_fee s ≡ (if leb fee u256_max then fee else u256_max)
unfolding earned_fee
earned_fee_lem s =
    ap (λ z. bigint_to_u256_saturating (half z)) (add_imbalance_lem (pos 0) s.executed_orders)
    ∙ saturate_lem (total_sold s.executed_orders) (total_bought s.executed_orders)
