-- ===== src/PriceFinding/NaiveSolver/Fees/Trade.antt =====
-- services-core/src/price_finding/naive_solver.rs: `find_prices` with a fee, from the orders as
-- they are stored to the solution.
use dex_services.Prelude.{
  ℕ, ◌≤◌, ◌≡◌, sym, ◌∙◌, true, false, some, List, [], ◌∷◌, map, arith, inl, inr, ◌⊎◌, Option-cases,
  ◌==◌, All,
}
use dex_services.Outcome.{ok, bind_elim, ok-injective}
use dex_services.Assoc.{Assoc}
use dex_services.Streamed.Order.{ModelOrder}
use dex_services.Models.Solution.{
  ExecutedOrder, PriceMap, get_price, Solution, trivial, read_balance,
}
use dex_services.PriceFinding.Matching.{
  Fee, OrderPairType, trades_fee_token, Match, find_first_match,
}
use dex_services.PriceFinding.NaiveSolver.{
  base_price, ExecutedOrderPair, execute, order_with_buffer_for_fee, create_executed_orders, solve,
  find_prices,
}
use dex_services.PriceFinding.NaiveSolver.Pairing.{IsIn, IsMatch, find_first_match-IsMatch}
use dex_services.PriceFinding.NaiveSolver.Trade.{IsProper, reduced, remaining_orders_lem, IsIn-map}
use dex_services.PriceFinding.NaiveSolver.Fees.{IsPriced, IsKept, IsPricedPair, solve-IsPricedPair}

-- The buffer changes the amount of the fee token only.
record IsBuffered (fee : Fee) (o o' : ModelOrder) : Type 0 where
  pub same_user : o'.account_id ≡ o.account_id
  pub same_order : o'.id ≡ o.id
  pub asks : (o.buy_token == fee.token) ≡ false → o'.numerator ≡ o.numerator
  pub sells : (o.sell_token == fee.token) ≡ false → o'.denominator ≡ o.denominator

order_with_buffer-IsBuffered :
    (o o' : ModelOrder) (fee : Fee)
    → order_with_buffer_for_fee o (some fee) ≡ ok o'
    → IsBuffered fee o o'
unfolding order_with_buffer_for_fee
order_with_buffer-IsBuffered o o' fee h = ground arith

-- What the executed order `e` of the stored order `o` is before the fee is applied.
record IsHalf (fee : Fee) (o : ModelOrder) (e : ExecutedOrder) : Type 0 where
  pub same_user : e.account_id ≡ o.account_id
  pub same_order : e.order_id ≡ o.id
  pub bounded : (o.sell_token == fee.token) ≡ false → e.sell_amount ≤ o.denominator

execute-IsHalf :
    (state : Assoc ℕ) (fee : Fee) (t : OrderPairType) (x y x' y' : ModelOrder)
    → IsMatch state (some fee) t x y
    → IsBuffered fee x x'
    → IsBuffered fee y y'
    → let e = (execute t x' y').0 in
      IsHalf fee x e.0
      × IsHalf fee y e.1
      × (e.0.sell_amount ≡ e.1.buy_amount)
      × (e.1.sell_amount ≡ e.0.buy_amount)
unfolding execute
execute-IsHalf state fee OrderPairType.lhs_fully_filled x y x' y' m l r = ground arith
execute-IsHalf state fee OrderPairType.rhs_fully_filled x y x' y' m l r = ground arith
execute-IsHalf state fee OrderPairType.both_fully_filled x y x' y' m l r = ground arith

create_executed_orders-IsHalf :
    (state : Assoc ℕ) (fee : Fee) (m : Match) (r : ExecutedOrderPair × PriceMap)
    → IsMatch state (some fee) m.order_pair_type m.lhs m.rhs
    → create_executed_orders m (some fee) ≡ ok r
    → IsHalf fee m.lhs r.0.0
      × IsHalf fee m.rhs r.0.1
      × (r.0.0.sell_amount ≡ r.0.1.buy_amount)
      × (r.0.1.sell_amount ≡ r.0.0.buy_amount)
unfolding create_executed_orders
create_executed_orders-IsHalf state fee m r good h =
    bind_elim (order_with_buffer_for_fee m.lhs (some fee)) _ h λ x first h1.
      bind_elim (order_with_buffer_for_fee m.rhs (some fee)) _ h1 λ y second h2.
        let halves =
          execute-IsHalf state fee m.order_pair_type m.lhs m.rhs x y good
            (order_with_buffer-IsBuffered m.lhs x fee first)
            (order_with_buffer-IsBuffered m.rhs y fee second) in
        rw (sym (ok-injective h2)) halves

-- The executed order is the user's order, which the balance covers. The sold amount is the one that
-- the exchange computes, and no more than is left of an order that sells another token than the fee
-- token.
abbrev pub IsCharged : Assoc ℕ → Fee → PriceMap → ModelOrder → ExecutedOrder → Type 0
IsCharged state fee prices o e =
    (e.account_id ≡ o.account_id)
    × (e.order_id ≡ o.id)
    × IsPriced fee prices o e
    × (o.remaining_sell_amount ≤ read_balance state o.sell_token o.account_id)
    × ((o.sell_token == fee.token) ≡ false → e.sell_amount ≤ o.remaining_sell_amount)

-- A solution that trades two of the orders against each other. The order that sells the fee token
-- gets what the other one sells.
pub record IsPricedTrade (state : Assoc ℕ) (fee : Fee) (os : List ModelOrder) (s : Solution)
    : Type 0 where
  pub lhs : ModelOrder
  pub rhs : ModelOrder
  pub lhs_executed : ExecutedOrder
  pub rhs_executed : ExecutedOrder
  pub lhs_listed : IsIn lhs os
  pub rhs_listed : IsIn rhs os
  pub executed : s.executed_orders ≡ lhs_executed ∷ rhs_executed ∷ []
  pub buys_sold : lhs.buy_token ≡ rhs.sell_token
  pub sells_bought : lhs.sell_token ≡ rhs.buy_token
  pub touches_fee : (lhs.buy_token ≡ fee.token) ⊎ (lhs.sell_token ≡ fee.token)
  pub fee_priced : get_price fee.token s.prices ≡ some base_price
  pub lhs_charged : IsCharged state fee s.prices lhs lhs_executed
  pub rhs_charged : IsCharged state fee s.prices rhs rhs_executed
  pub lhs_gets :
      lhs.sell_token ≡ fee.token
      → (lhs.buy_token == fee.token) ≡ false
      → lhs_executed.buy_amount ≡ rhs_executed.sell_amount
  pub rhs_gets :
      rhs.sell_token ≡ fee.token
      → (rhs.buy_token == fee.token) ≡ false
      → rhs_executed.buy_amount ≡ lhs_executed.sell_amount

-- The fee token is one of the two, so both orders touch it.
trades_fee_token-other :
    (fee : Fee) (x y : ModelOrder)
    → x.buy_token ≡ y.sell_token
    → x.sell_token ≡ y.buy_token
    → trades_fee_token x fee ≡ true
    → trades_fee_token y fee ≡ true
trades_fee_token-other fee x y h k t = ground arith

trades_fee_token-either :
    (fee : Fee) (x : ModelOrder)
    → trades_fee_token x fee ≡ true
    → (x.buy_token ≡ fee.token) ⊎ (x.sell_token ≡ fee.token)
trades_fee_token-either fee x t = ground arith

charged :
    (state : Assoc ℕ) (fee : Fee) (prices : PriceMap) (o : ModelOrder) (e e' : ExecutedOrder)
    → o.remaining_sell_amount ≤ read_balance state o.sell_token o.account_id
    → IsHalf fee (reduced o) e
    → IsKept fee (reduced o) e e'
    → IsPriced fee prices o e'
    → IsCharged state fee prices o e'
charged state fee prices o e e' funded half kept priced = (
  kept.same_user ∙ half.same_user,
  kept.same_order ∙ half.same_order,
  priced,
  funded,
  λ other. let limit = half.bounded other in let same = kept.sells other in omega arith,
)

-- The order `x`, matched first, gets what the order `y` sells.
gets :
    (fee : Fee) (x y : ModelOrder) (e f e' f' : ExecutedOrder)
    → x.buy_token ≡ y.sell_token
    → f.sell_amount ≡ e.buy_amount
    → IsKept fee x e e'
    → IsKept fee y f f'
    → x.sell_token ≡ fee.token
    → (x.buy_token == fee.token) ≡ false
    → e'.buy_amount ≡ f'.sell_amount
gets fee x y e f e' f' tokens amounts l r sells other =
    let kept = l.buys (ground arith) in let kept' = r.sells (ground arith) in omega arith

pair-IsPricedTrade :
    (state : Assoc ℕ) (fee : Fee) (os : List ModelOrder) (t : OrderPairType) (x y : ModelOrder)
    (r : ExecutedOrderPair × PriceMap) (s : Solution)
    → IsIn x os
    → IsIn y os
    → IsMatch state (some fee) t (reduced x) (reduced y)
    → let m : Match = record { order_pair_type = t; lhs = reduced x; rhs = reduced y } in
      create_executed_orders m (some fee) ≡ ok r
      → IsPricedPair fee m r.0 s
      → IsPricedTrade state fee os s
pair-IsPricedTrade state fee os t x y r s i j good made pair =
    let m : Match = record { order_pair_type = t; lhs = reduced x; rhs = reduced y } in
    let (half, half', sold, sold') = create_executed_orders-IsHalf state fee m r good made in
    record {
      lhs = x;
      rhs = y;
      lhs_executed = pair.lhs_executed;
      rhs_executed = pair.rhs_executed;
      lhs_listed = i;
      rhs_listed = j;
      executed = pair.executed;
      buys_sold = good.buys_sold;
      sells_bought = good.sells_bought;
      touches_fee = trades_fee_token-either fee x good.lhs_touches;
      fee_priced = pair.fee_priced;
      lhs_charged =
          charged state fee s.prices x r.0.0 pair.lhs_executed good.lhs_funded half pair.lhs_kept
            pair.lhs_priced;
      rhs_charged =
          charged state fee s.prices y r.0.1 pair.rhs_executed good.rhs_funded half' pair.rhs_kept
            pair.rhs_priced;
      lhs_gets =
          gets fee (reduced x) (reduced y) r.0.0 r.0.1 pair.lhs_executed pair.rhs_executed
            good.buys_sold sold' pair.lhs_kept pair.rhs_kept;
      rhs_gets =
          gets fee (reduced y) (reduced x) r.0.1 r.0.0 pair.rhs_executed pair.lhs_executed
            (sym good.sells_bought) sold pair.rhs_kept pair.lhs_kept;
    }

-- What a solution of the match of two orders leads to.
abbrev Charges :
    Assoc ℕ → Fee → List ModelOrder → Solution → OrderPairType → ModelOrder → ModelOrder → Type 0
Charges state fee os s t l r =
    IsMatch state (some fee) t l r
    → solve (record { order_pair_type = t; lhs = l; rhs = r }) (some fee) ≡ ok s
    → (s ≡ trivial) ⊎ IsPricedTrade state fee os s

solve-Charges :
    (state : Assoc ℕ) (fee : Fee) (os : List ModelOrder) (s : Solution) (t : OrderPairType)
    (x y : ModelOrder)
    → IsIn x os
    → IsIn y os
    → Charges state fee os s t (reduced x) (reduced y)
solve-Charges state fee os s t x y i j good h =
    let m : Match = record { order_pair_type = t; lhs = reduced x; rhs = reduced y } in
    let other =
      trades_fee_token-other fee (reduced x) (reduced y) good.buys_sold good.sells_bought
        good.lhs_touches in
    elim (solve-IsPricedPair fee m s good.lhs_touches other h) [
      | inl e ↦ inl e
      | inr (r, made, pair) ↦ inr (pair-IsPricedTrade state fee os t x y r s i j good made pair)
    ]

-- For orders with amounts in the range of `u128`, of which no more is left than was placed: with a
-- fee, a solution that the solver returns is the trivial one or trades two of the orders against
-- each other, one of whose tokens is the fee token. Then both executed orders name their user and
-- order, what is left of both is covered by the balances, an order that sells another token than
-- the fee token sells no more than is left of it, and one that sells the fee token for another
-- gets exactly what the other one sells. The fee token has the base price, and for both orders the
-- sold amount is the one that the exchange computes from the bought amount and the prices.
pub find_prices-IsPricedTrade :
    (fee : Fee) (os : List ModelOrder) (state : Assoc ℕ) (s : Solution)
    → All IsProper os
    → find_prices (some fee) os state ≡ ok s
    → (s ≡ trivial) ⊎ IsPricedTrade state fee os s
unfolding find_prices
find_prices-IsPricedTrade fee os state s p h =
    elim (Option-cases (find_first_match (map reduced os) state (some fee))) [
      | inl e ↦ inl (sym (ok-injective (rw (remaining_orders_lem os p, e) at h)))
      | inr (m, e) ↦
          let (first, second, good) =
            find_first_match-IsMatch (map reduced os) state (some fee) m e in
          let (x, i, xe) = IsIn-map m.lhs os first in
          let (y, j, ye) = IsIn-map m.rhs os second in
          let both : Charges state fee os s m.order_pair_type m.lhs m.rhs =
            rw (xe, ye) (solve-Charges state fee os s m.order_pair_type x y i j) in
          both good (rw (remaining_orders_lem os p, e) at h)
    ]
