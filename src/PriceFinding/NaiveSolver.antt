-- ===== src/PriceFinding/NaiveSolver.antt =====
-- services-core/src/price_finding/naive_solver.rs: the execution of one match of two orders, its
-- prices and its fee. Products of two `u128` fit a `U256` and are written as they are.
pub mod Pairing
pub mod Trade
pub mod Fees
use dex_services.Prelude.{
  ℕ, ◌-◌, ◌*◌, ◌%◌, ◌^◌, Bool, true, not, ◌&&◌, ◌||◌, Option, none, some, List, [], ◌∷◌, ltb, leb,
  ◌==◌, if◌then◌else◌,
}
use dex_services.Outcome.{Outcome, ok, ◌>>=◌, unwrap}
use dex_services.Assoc.{Assoc}
use dex_services.Util.{ceiled_div, as_u128, as_u128_checked, mul_u256, div, previous_u128}
use dex_services.Streamed.Order.{ModelOrder, u128_max}
use dex_services.PriceFinding.Matching.{Fee, OrderPairType, Match, find_first_match}
use dex_services.Models.Solution.{
  ExecutedOrder, PriceMap, get_price, insert_price, Solution, trivial, read_balance,
}
use dex_services.Models.Remaining.{compute_remaining_buy_sell_amounts}

abbrev pub base_price : ℕ
base_price = 1000000000000000000

unfoldable pub order_with_buffer_for_fee : ModelOrder → Option Fee → Outcome ModelOrder
order_with_buffer_for_fee order none = ok order
order_with_buffer_for_fee order (some fee) =
    if fee.token == order.buy_token
    then (ceiled_div u128_max ((order.numerator * fee.fee_denominator) % 2 ^ 128)
          (previous_u128 fee.fee_denominator)
        >>= λ n. ok (record order { numerator = n }))
    else if fee.token == order.sell_token
    then (div ((order.denominator * previous_u128 fee.fee_denominator) % 2 ^ 128)
          fee.fee_denominator
        >>= λ n. ok (record order { denominator = n }))
    else ok order

abbrev create_executed_order : ModelOrder → ℕ → ℕ → ExecutedOrder
create_executed_order order sell_amount buy_amount = record {
  account_id = order.account_id;
  order_id = order.id;
  sell_amount = sell_amount;
  buy_amount = buy_amount;
}

abbrev pub ExecutedOrderPair : Type 0
ExecutedOrderPair = ExecutedOrder × ExecutedOrder

-- The `match` of `create_executed_orders`, on the orders with their buffers.
unfoldable pub execute : OrderPairType → ModelOrder → ModelOrder → ExecutedOrderPair × PriceMap
execute OrderPairType.lhs_fully_filled x y = (
  (
    create_executed_order x x.denominator x.numerator,
    create_executed_order y x.numerator x.denominator,
  ),
  insert_price y.buy_token x.numerator (insert_price x.buy_token x.denominator []),
)
execute OrderPairType.rhs_fully_filled x y = (
  (
    create_executed_order x y.numerator y.denominator,
    create_executed_order y y.denominator y.numerator,
  ),
  insert_price y.sell_token y.numerator (insert_price x.sell_token y.denominator []),
)
execute OrderPairType.both_fully_filled x y = (
  (
    create_executed_order x x.denominator y.denominator,
    create_executed_order y y.denominator x.denominator,
  ),
  insert_price x.buy_token x.denominator (insert_price y.buy_token y.denominator []),
)

unfoldable pub create_executed_orders : Match → Option Fee → Outcome (ExecutedOrderPair × PriceMap)
create_executed_orders m fee = do
  x ← order_with_buffer_for_fee m.lhs fee
  y ← order_with_buffer_for_fee m.rhs fee
  ok (execute m.order_pair_type x y)

unfoldable pub normalize_price : ℕ → ℕ → Outcome (Option ℕ)
normalize_price price pre_normalized_fee_price = do
  p ← ceiled_div (2 ^ 256 - 1) (price * base_price) pre_normalized_fee_price
  ok (as_u128_checked p)

-- The loop over `prices.values_mut()`; none where the source returns the trivial solution.
abbrev put_price : ℕ → ℕ → Option PriceMap → Option PriceMap
put_price t n none = none
put_price t n (some ps) = some ((t, n) ∷ ps)

abbrev pub normalize_rest : ℕ → Option ℕ → Outcome (Option PriceMap) → Outcome (Option PriceMap)
normalize_rest t none rest = ok none
normalize_rest t (some n) rest = rest >>= λ ps. ok (put_price t n ps)

unfoldable pub normalize_prices : PriceMap → ℕ → Outcome (Option PriceMap)
normalize_prices [] fee_price = ok (some [])
normalize_prices (p ∷ ps) fee_price =
    normalize_price p.1 fee_price >>= λ n. normalize_rest p.0 n (normalize_prices ps fee_price)

unfoldable pub executed_sell_amount : Fee → ℕ → ℕ → ℕ → Outcome ℕ
executed_sell_amount fee exec_buy_amt buy_price sell_price = do
  q ← div (exec_buy_amt * buy_price) (previous_u128 fee.fee_denominator)
  m ← mul_u256 q fee.fee_denominator
  r ← div m sell_price
  as_u128 r

-- The amount that `executed_buy_amount` computes before it is checked.
unfoldable pub unchecked_buy_amount : Fee → ℕ → ℕ → ℕ → Outcome ℕ
unchecked_buy_amount fee exec_sell_amt buy_price sell_price = do
  q ← div (exec_sell_amt * sell_price) fee.fee_denominator
  m ← mul_u256 q (previous_u128 fee.fee_denominator)
  r ← ceiled_div (2 ^ 256 - 1) m buy_price
  as_u128 r

unfoldable pub executed_buy_amount : Fee → ℕ → ℕ → ℕ → Outcome (Option ℕ)
executed_buy_amount fee exec_sell_amt buy_price sell_price = do
  exec_buy_amt ← unchecked_buy_amount fee exec_sell_amt buy_price sell_price
  back ← executed_sell_amount fee exec_buy_amt buy_price sell_price
  ok (if exec_sell_amt == back then some exec_buy_amt else none)

abbrev pub set_bought : ExecutedOrder → Option ℕ → Option ExecutedOrder
set_bought e none = none
set_bought e (some amount) = some (record e { buy_amount = amount })

-- The body of the loop that applies the fee to an order.
unfoldable pub apply_fee :
    Fee → PriceMap → ModelOrder → ExecutedOrder → Outcome (Option ExecutedOrder)
apply_fee fee prices order e =
    if order.sell_token == fee.token
    then (do
      price_buy ← unwrap (get_price order.buy_token prices)
      amount ← executed_sell_amount fee e.buy_amount price_buy base_price
      ok (some (record e { sell_amount = amount })))
    else (do
      price_sell ← unwrap (get_price order.sell_token prices)
      bought ← executed_buy_amount fee e.sell_amount base_price price_sell
      ok (set_bought e bought))

-- The solution of the two orders, unless one of them could not be changed.
abbrev pub pair_solution :
    PriceMap → Option ExecutedOrder → Outcome (Option ExecutedOrder) → Outcome Solution
pair_solution prices none second = ok trivial
pair_solution prices (some e0) second = second >>= λ e. ok (finish e)
  where
    finish : Option ExecutedOrder → Solution
    finish none = trivial
    finish (some e1) = record { prices = prices; executed_orders = e0 ∷ e1 ∷ [] }

-- The rest of `create_solution_with_fee` once the prices are normalized.
unfoldable pub apply_fees : Match → Fee → ExecutedOrderPair → Option PriceMap → Outcome Solution
apply_fees m fee e none = ok trivial
apply_fees m fee e (some prices) = apply_fee fee prices m.lhs e.0 >>= λ first.
    pair_solution prices first (apply_fee fee prices m.rhs e.1)

abbrev get_or_zero : Option ℕ → ℕ
get_or_zero none = 0
get_or_zero (some p) = p

unfoldable pub create_solution_with_fee :
    Match → Fee → ExecutedOrderPair → PriceMap → Outcome Solution
create_solution_with_fee m fee e prices =
    if get_or_zero (get_price fee.token prices) == 0
    then ok trivial
    else (normalize_prices prices (get_or_zero (get_price fee.token prices)) >>= λ normalized.
        apply_fees m fee e normalized)

-- The closure of `find_prices`: the orders with what remains of them as their amounts.
unfoldable pub remaining_orders : List ModelOrder → Outcome (List ModelOrder)
remaining_orders [] = ok []
remaining_orders (o ∷ os) = do
  amounts ← compute_remaining_buy_sell_amounts o.numerator o.denominator o.remaining_sell_amount
  rest ← remaining_orders os
  ok (
      record o { numerator = amounts.0; denominator = amounts.1; remaining_sell_amount = amounts.1 }
      ∷ rest)

-- The solution of a match.
unfoldable pub solve : Match → Option Fee → Outcome Solution
solve m fee = create_executed_orders m fee >>= λ r. elim fee [
  | none ↦ ok (record { prices = r.1; executed_orders = r.0.0 ∷ r.0.1 ∷ [] })
  | some f ↦ create_solution_with_fee m f r.0 r.1
]

-- Without a match the solution is the trivial one.
abbrev solve_first : Option Match → Option Fee → Outcome Solution
solve_first none fee = ok trivial
solve_first (some m) fee = solve m fee

unfoldable pub find_prices : Option Fee → List ModelOrder → Assoc ℕ → Outcome Solution
find_prices fee os state =
    remaining_orders os >>= λ orders. solve_first (find_first_match orders state fee) fee
