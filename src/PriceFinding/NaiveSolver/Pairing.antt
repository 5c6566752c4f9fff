-- ===== src/PriceFinding/NaiveSolver/Pairing.antt =====
-- services-core/src/price_finding/naive_solver.rs without a fee: what a match is, and what the
-- execution of its orders gives each of the two users.
use dex_services.Prelude.{
  ℕ, ◌*◌, ◌≤◌, ◌<◌, ◌≡◌, true, false, ◌&&◌, Option, some, List, [], ◌∷◌, arith, inl, inr, ◌⊎◌,
  Option-cases, Bool-cases, ◌==◌, leb,
}
use dex_services.Assoc.{Assoc}
use dex_services.Streamed.Order.{ModelOrder}
use dex_services.Models.Solution.{ExecutedOrder, PriceMap, get_price, read_balance}
use dex_services.PriceFinding.Matching.{
  OrderPairType, Match, Fee, touches, match_compare, match_with, find_first_match,
}
use dex_services.PriceFinding.NaiveSolver.{execute, ExecutedOrderPair}

-- Which of the two orders is filled: the other one offers at least as much as it asks.
abbrev IsFilled : OrderPairType → ModelOrder → ModelOrder → Type 0
IsFilled OrderPairType.lhs_fully_filled x y =
    (x.numerator ≤ y.denominator) × (x.denominator ≤ y.numerator)
IsFilled OrderPairType.rhs_fully_filled x y =
    (y.denominator ≤ x.numerator) × (y.numerator ≤ x.denominator)
IsFilled OrderPairType.both_fully_filled x y =
    (x.numerator ≤ y.denominator) × (y.numerator ≤ x.denominator)

-- What the solver may rely on when it executes two orders.
pub record IsMatch (state : Assoc ℕ) (fee : Option Fee) (t : OrderPairType) (x y : ModelOrder)
    : Type 0 where
  pub buys_sold : x.buy_token ≡ y.sell_token
  pub sells_bought : x.sell_token ≡ y.buy_token
  pub lhs_sells : 0 < x.denominator
  pub rhs_sells : 0 < y.denominator
  pub overlap : x.numerator * y.numerator ≤ y.denominator * x.denominator
  pub filled : IsFilled t x y
  pub lhs_touches : touches x fee ≡ true
  pub lhs_funded : x.remaining_sell_amount ≤ read_balance state x.sell_token x.account_id
  pub rhs_funded : y.remaining_sell_amount ≤ read_balance state y.sell_token y.account_id

mul_lt : (a b c d : ℕ) → a < c → b < d → a * b < c * d
mul_lt a b c d h k = grind arith

both_filled :
    (a b c d : ℕ)
    → a * b ≤ d * c
    → (leb a d && leb c b) ≡ false
    → (leb d a && leb b c) ≡ false
    → (a ≤ d) × (b ≤ c)
both_filled a b c d h first second = elim (Bool-cases (leb a d)) [
  | inl e ↦ (ground arith, ground arith)
  | inr e ↦
      let less : d < a = ground arith in
      let more : c < b = ground arith in
      let product = mul_lt d c a b less more in (omega arith, omega arith)
]

match_compare-IsMatch :
    (x y : ModelOrder) (state : Assoc ℕ) (fee : Option Fee) {t : OrderPairType}
    → match_compare x y state fee ≡ some t
    → IsMatch state fee t x y
unfolding match_compare
match_compare-IsMatch x y state fee {t} h =
    ground (arith, both_filled x.numerator y.numerator x.denominator y.denominator)

-- The element is one of the list.
abbrev pub IsIn : ModelOrder → List ModelOrder → Type 0
IsIn x [] = ⊥
IsIn x (y ∷ ys) = (x ≡ y) ⊎ IsIn x ys

match_with-IsMatch :
    (x : ModelOrder) (ys : List ModelOrder) (state : Assoc ℕ) (fee : Option Fee) (m : Match)
    → match_with x ys state fee ≡ some m
    → (m.lhs ≡ x) × IsIn (m.rhs) ys × IsMatch state fee m.order_pair_type m.lhs m.rhs
unfolding match_with
match_with-IsMatch x [] state fee m h = cc
match_with-IsMatch x (y ∷ ys) state fee m h = elim (Option-cases (match_compare x y state fee)) [
  | inl e ↦
      let (same, member, good) = match_with-IsMatch x ys state fee m (rw (match_with, e) at h) in
      (same, inr member, good)
  | inr (t, e) ↦ ground (arith, match_compare-IsMatch x y state fee e)
]

-- The first match is of two orders of the list.
pub find_first_match-IsMatch :
    (os : List ModelOrder) (state : Assoc ℕ) (fee : Option Fee) (m : Match)
    → find_first_match os state fee ≡ some m
    → IsIn m.lhs os × IsIn m.rhs os × IsMatch state fee m.order_pair_type m.lhs m.rhs
unfolding find_first_match
find_first_match-IsMatch [] state fee m h = cc
find_first_match-IsMatch (x ∷ xs) state fee m h = elim (Option-cases (match_with x xs state fee)) [
  | inl e ↦
      let (first, second, good) =
        find_first_match-IsMatch xs state fee m (rw (find_first_match, e) at h) in
      (inr first, inr second, good)
  | inr (n, e) ↦ ground (arith, match_with-IsMatch x xs state fee n e)
]

-- The user gets at least what the order asks for what is sold, and sells no more than is left of
-- the order and than the balance holds.
pub record IsServed (state : Assoc ℕ) (o : ModelOrder) (e : ExecutedOrder) : Type 0 where
  pub same_user : e.account_id ≡ o.account_id
  pub same_order : e.order_id ≡ o.id
  pub limited : e.sell_amount * o.numerator ≤ e.buy_amount * o.denominator
  pub bounded : e.sell_amount ≤ o.remaining_sell_amount
  pub funded : e.sell_amount ≤ read_balance state o.sell_token o.account_id

-- The prices of two distinct tokens at which both trades are of equal value.
abbrev pub IsUniform : ModelOrder → ExecutedOrderPair → PriceMap → Type 0
IsUniform x e prices =
    (p : ℕ) × (q : ℕ) × (get_price x.sell_token prices ≡ some p)
    × (get_price x.buy_token prices ≡ some q)
    × (e.0.sell_amount * p ≡ e.0.buy_amount * q)
    × (e.1.sell_amount * q ≡ e.1.buy_amount * p)

pub execute-IsServed :
    (state : Assoc ℕ) (fee : Option Fee) (t : OrderPairType) (x y : ModelOrder)
    → x.remaining_sell_amount ≡ x.denominator
    → y.remaining_sell_amount ≡ y.denominator
    → IsMatch state fee t x y
    → IsServed state x (execute t x y).0.0
      × IsServed state y (execute t x y).0.1
      × ((execute t x y).0.0.sell_amount ≡ (execute t x y).0.1.buy_amount)
      × ((execute t x y).0.1.sell_amount ≡ (execute t x y).0.0.buy_amount)
unfolding execute
execute-IsServed state fee OrderPairType.lhs_fully_filled x y hx hy m = grind arith
execute-IsServed state fee OrderPairType.rhs_fully_filled x y hx hy m = grind arith
execute-IsServed state fee OrderPairType.both_fully_filled x y hx hy m = grind arith

pub execute-IsUniform :
    (state : Assoc ℕ) (fee : Option Fee) (t : OrderPairType) (x y : ModelOrder)
    → IsMatch state fee t x y
    → (x.sell_token == x.buy_token) ≡ false
    → IsUniform x (execute t x y).0 (execute t x y).1
unfolding execute
execute-IsUniform state fee OrderPairType.lhs_fully_filled x y m d =
    (x.numerator, x.denominator, ground arith, ground arith, grind arith, grind arith)
execute-IsUniform state fee OrderPairType.rhs_fully_filled x y m d =
    (y.denominator, y.numerator, ground arith, ground arith, grind arith, grind arith)
execute-IsUniform state fee OrderPairType.both_fully_filled x y m d =
    (y.denominator, x.denominator, ground arith, ground arith, grind arith, grind arith)
