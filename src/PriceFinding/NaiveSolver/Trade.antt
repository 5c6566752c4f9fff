-- ===== src/PriceFinding/NaiveSolver/Trade.antt =====
-- services-core/src/price_finding/naive_solver.rs: `find_prices` without a fee, from the orders as
-- they are stored to the solution.
use mathlib.Core.Path.{subst}
use native.Mathlib.Nat.{
  div-lt_iff_lt-mul, lt-div-mul-add, mul-le-mul_left, mul-le-mul_right, le_of_mul-le-mul_left,
}
use dex_services.Prelude.{
  ℕ, ◌+◌, ◌-◌, ◌*◌, ◌/◌, ◌≤◌, ◌<◌, ◌≡◌, refl, sym, false, none, List, [], ◌∷◌, map, arith, inl, inr,
  ◌⊎◌, Option-cases, Bool-cases, ◌==◌, ltb, All, if◌then◌else◌,
}
use dex_services.Outcome.{ok}
use dex_services.Assoc.{Assoc}
use dex_services.Util.{ceiled_div, as_u128}
use dex_services.Streamed.Order.{ModelOrder, u128_max}
use dex_services.Models.Solution.{ExecutedOrder, Solution, trivial}
use dex_services.Models.Remaining.{compute_remaining_buy_sell_amounts}
use dex_services.PriceFinding.Matching.{OrderPairType, find_first_match}
use dex_services.PriceFinding.NaiveSolver.{
  execute, order_with_buffer_for_fee, create_executed_orders, remaining_orders, solve, find_prices,
}
use dex_services.PriceFinding.NaiveSolver.Pairing.{
  IsIn, IsMatch, IsServed, IsUniform, find_first_match-IsMatch, execute-IsServed, execute-IsUniform,
}

-- Amounts are in the range of `u128`, and no more is left than was placed.
pub record IsProper (o : ModelOrder) : Type 0 where
  pub numerator_fits : o.numerator ≤ u128_max
  pub denominator_fits : o.denominator ≤ u128_max
  pub left : o.remaining_sell_amount ≤ o.denominator

-- What is asked for what is left: the price is kept, rounded up.
abbrev asked : ℕ → ℕ → ℕ → ℕ
asked numerator denominator remaining =
    if ltb 0 denominator then (remaining * numerator + denominator - 1) / denominator else 0

mul_le : (a b c d : ℕ) → a ≤ c → b ≤ d → a * b ≤ c * d
mul_le a b c d h k = grind arith

-- Rounding up what is asked does not pass the numerator.
asked-le : (n d r : ℕ) → r ≤ d → asked n d r ≤ n
asked-le n d r h = elim (Bool-cases (ltb 0 d)) [
  | inl e ↦
      let positive : 0 < d = ground arith in
      let product = mul_le r n d n h (omega arith) in
      let less : r * n + d - 1 < (n + 1) * d = grind arith in
      let bound = (div-lt_iff_lt-mul positive).1 less in rw e (omega arith)
  | inr e ↦ rw e (omega arith)
]

compute_remaining_lem :
    (o : ModelOrder)
    → IsProper o
    → compute_remaining_buy_sell_amounts o.numerator o.denominator o.remaining_sell_amount
      ≡ ok (asked o.numerator o.denominator o.remaining_sell_amount, o.remaining_sell_amount)
unfolding compute_remaining_buy_sell_amounts ceiled_div as_u128
compute_remaining_lem o p =
    let product =
      mul_le o.remaining_sell_amount o.numerator u128_max u128_max (omega arith) (omega arith) in
    ground (arith, asked-le o.numerator o.denominator o.remaining_sell_amount p.left)

asked-ge : (n d r : ℕ) → r ≤ d → r * n ≤ asked n d r * d
asked-ge n d r h = elim (Bool-cases (ltb 0 d)) [
  | inl e ↦
      let positive : 0 < d = ground arith in
      let bound = lt-div-mul-add {a = r * n + d - 1} positive in rw e (omega arith)
  | inr e ↦ let zero_left : r ≡ 0 = ground arith in rw (e, zero_left) (omega arith)
]

-- The order that is matched: what is left of the stored one.
abbrev pub reduced : ModelOrder → ModelOrder
reduced o = record o {
  numerator = asked o.numerator o.denominator o.remaining_sell_amount;
  denominator = o.remaining_sell_amount;
  remaining_sell_amount = o.remaining_sell_amount;
}

pub remaining_orders_lem :
    (os : List ModelOrder) → All IsProper os → remaining_orders os ≡ ok (map reduced os)
unfolding remaining_orders
remaining_orders_lem [] p = refl
remaining_orders_lem (o ∷ os) p = rw (compute_remaining_lem o p.0, remaining_orders_lem os p.1)

pub IsIn-map :
    (x : ModelOrder) (os : List ModelOrder)
    → IsIn x (map reduced os)
    → (o : ModelOrder) × IsIn o os × (x ≡ reduced o)
IsIn-map x [] h = elim h [ ]
IsIn-map x (o ∷ os) (inl e) = (o, inl refl, e)
IsIn-map x (o ∷ os) (inr h) = let (u, i, e) = IsIn-map x os h in (u, inr i, e)

IsIn-All : (o : ModelOrder) (os : List ModelOrder) → All IsProper os → IsIn o os → IsProper o
IsIn-All o [] p h = elim h [ ]
IsIn-All o (x ∷ os) p (inl e) = rw e p.0
IsIn-All o (x ∷ os) p (inr h) = IsIn-All o os p.1 h

-- The limit of what is left implies that of the stored order.
limit_kept :
    (sold bought n d r a : ℕ)
    → 0 < r
    → r * n ≤ a * d
    → sold * a ≤ bought * r
    → sold * n ≤ bought * d
limit_kept sold bought n d r a h k l =
    let first = mul-le-mul_left sold k in
    let second = mul-le-mul_right d l in le_of_mul-le-mul_left {k = r} (grind arith) h

IsServed-reduced :
    (state : Assoc ℕ) (o : ModelOrder) (e : ExecutedOrder)
    → IsProper o
    → 0 < o.remaining_sell_amount
    → IsServed state (reduced o) e
    → IsServed state o e
IsServed-reduced state o e p h s = record {
  same_user = s.same_user;
  same_order = s.same_order;
  limited =
      limit_kept e.sell_amount e.buy_amount o.numerator o.denominator o.remaining_sell_amount _ h
        (asked-ge o.numerator o.denominator o.remaining_sell_amount p.left) s.limited;
  bounded = s.bounded;
  funded = s.funded;
}

-- A solution that trades two of the orders against each other.
pub record IsTrade (state : Assoc ℕ) (os : List ModelOrder) (s : Solution) : Type 0 where
  pub lhs : ModelOrder
  pub rhs : ModelOrder
  pub lhs_executed : ExecutedOrder
  pub rhs_executed : ExecutedOrder
  pub lhs_listed : IsIn lhs os
  pub rhs_listed : IsIn rhs os
  pub executed : s.executed_orders ≡ lhs_executed ∷ rhs_executed ∷ []
  pub buys_sold : lhs.buy_token ≡ rhs.sell_token
  pub sells_bought : lhs.sell_token ≡ rhs.buy_token
  pub lhs_served : IsServed state lhs lhs_executed
  pub rhs_served : IsServed state rhs rhs_executed
  pub lhs_sold : lhs_executed.sell_amount ≡ rhs_executed.buy_amount
  pub rhs_sold : rhs_executed.sell_amount ≡ lhs_executed.buy_amount
  pub uniform :
      (lhs.sell_token == lhs.buy_token) ≡ false
      → IsUniform lhs (lhs_executed, rhs_executed) s.prices

solve-IsTrade :
    (os : List ModelOrder) (state : Assoc ℕ) (t : OrderPairType) (x y : ModelOrder)
    → All IsProper os
    → IsIn x os
    → IsIn y os
    → IsMatch state none t (reduced x) (reduced y)
    → (s : Solution) × (solve
          (record { order_pair_type = t; lhs = reduced x; rhs = reduced y })
          none
        ≡ ok s)
      × IsTrade state os s
unfolding solve create_executed_orders order_with_buffer_for_fee
solve-IsTrade os state t x y p i j h =
    let e = execute t (reduced x) (reduced y) in
    let (lhs, rhs, sold, bought) =
      execute-IsServed state none t (reduced x) (reduced y) refl refl h in
    (
      record { prices = e.1; executed_orders = e.0.0 ∷ e.0.1 ∷ [] },
      refl,
      record {
        lhs = x;
        rhs = y;
        lhs_executed = e.0.0;
        rhs_executed = e.0.1;
        lhs_listed = i;
        rhs_listed = j;
        executed = refl;
        buys_sold = h.buys_sold;
        sells_bought = h.sells_bought;
        lhs_served = IsServed-reduced state x e.0.0 (IsIn-All x os p i) h.lhs_sells lhs;
        rhs_served = IsServed-reduced state y e.0.1 (IsIn-All y os p j) h.rhs_sells rhs;
        lhs_sold = sold;
        rhs_sold = bought;
        uniform = execute-IsUniform state none t (reduced x) (reduced y) h;
      },
    )

-- The match of two orders leads to a trade.
abbrev Trades : List ModelOrder → Assoc ℕ → OrderPairType → ModelOrder → ModelOrder → Type 0
Trades os state t l r =
    IsMatch state none t l r
    → (s : Solution) × (solve (record { order_pair_type = t; lhs = l; rhs = r }) none ≡ ok s)
      × IsTrade state os s

solve-Trades :
    (os : List ModelOrder) (state : Assoc ℕ) (t : OrderPairType) (l r : ModelOrder)
    → All IsProper os
    → IsIn l (map reduced os)
    → IsIn r (map reduced os)
    → Trades os state t l r
solve-Trades os state t l r p i j =
    let (x, xi, xe) = IsIn-map l os i in
    let (y, yi, ye) = IsIn-map r os j in
    subst (λ (o : ModelOrder). Trades os state t o r) (sym xe)
      (subst (λ (o : ModelOrder). Trades os state t (reduced x) o) (sym ye)
        (solve-IsTrade os state t x y p xi yi))

-- For orders with amounts in the range of `u128`, of which no more is left than was placed: without
-- a fee the solver always returns a solution, the trivial one or a trade of two of the
-- orders against each other, in which each user gets at least the price of the order as it was
-- placed, sells no more than is left of the order and than the balance holds, each receives
-- exactly what the other sells, and at the returned prices of two distinct tokens both sides
-- are of equal value.
pub find_prices-IsTrade :
    (os : List ModelOrder) (state : Assoc ℕ)
    → All IsProper os
    → (s : Solution) × (find_prices none os state ≡ ok s) × ((s ≡ trivial) ⊎ IsTrade state os s)
unfolding find_prices
find_prices-IsTrade os state p =
    elim (Option-cases (find_first_match (map reduced os) state none)) [
      | inl e ↦ (trivial, rw (remaining_orders_lem os p, e), inl refl)
      | inr (m, e) ↦
          let (first, second, good) = find_first_match-IsMatch (map reduced os) state none m e in
          let (s, returned, fair) =
            solve-Trades os state m.order_pair_type m.lhs m.rhs p first second good in
          (s, rw (remaining_orders_lem os p, e) returned, inr fair)
    ]
