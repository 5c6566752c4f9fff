-- ===== src/PriceFinding/Matching.antt =====
-- services-core/src/price_finding/naive_solver.rs: when two orders match, and the first match. A
-- fee is its token and the number `(1.0 / ratio) as u128`, which the source computes in floating
-- point: it is a parameter. Products of two `u128` fit a `U256` and are written as they are.
use dex_services.Prelude.{
  ℕ, ◌*◌, Bool, true, not, ◌&&◌, ◌||◌, Option, none, some, List, [], ◌∷◌, ltb, leb, ◌==◌,
  if◌then◌else◌,
}
use dex_services.Assoc.{Assoc}
use dex_services.Streamed.Order.{ModelOrder}
use dex_services.Models.Solution.{read_balance}

pub record Fee : Type 0 where
  pub token : ℕ
  pub fee_denominator : ℕ

pub data OrderPairType : Type 0 where
  lhs_fully_filled rhs_fully_filled both_fully_filled : OrderPairType

abbrev opposite_tokens : ModelOrder → ModelOrder → Bool
opposite_tokens x y = x.buy_token == y.sell_token && x.sell_token == y.buy_token

abbrev have_price_overlap : ModelOrder → ModelOrder → Bool
have_price_overlap x y =
    ltb 0 x.denominator
    && ltb 0 y.denominator
    && leb (x.numerator * y.numerator) (y.denominator * x.denominator)

abbrev pub trades_fee_token : ModelOrder → Fee → Bool
trades_fee_token x fee = x.buy_token == fee.token || x.sell_token == fee.token

-- `fee.as_ref().map(|fee| self.trades_fee_token(fee)).unwrap_or(true)`
abbrev pub touches : ModelOrder → Option Fee → Bool
touches x none = true
touches x (some fee) = trades_fee_token x fee

abbrev attracts : ModelOrder → ModelOrder → Option Fee → Bool
attracts x y fee = touches x fee && opposite_tokens x y && have_price_overlap x y

abbrev sufficient_seller_funds : ModelOrder → Assoc ℕ → Bool
sufficient_seller_funds x state =
    leb x.remaining_sell_amount (read_balance state x.sell_token x.account_id)

unfoldable pub match_compare : ModelOrder → ModelOrder → Assoc ℕ → Option Fee → Option OrderPairType
match_compare x y state fee =
    if not (sufficient_seller_funds x state)
      || not (sufficient_seller_funds y state)
      || not (attracts x y fee)
      || not (touches x fee)
    then none
    else if leb x.numerator y.denominator && leb x.denominator y.numerator
    then some lhs_fully_filled
    else if leb y.denominator x.numerator && leb y.numerator x.denominator
    then some rhs_fully_filled
    else some both_fully_filled

pub record Match : Type 0 where
  pub order_pair_type : OrderPairType
  pub lhs : ModelOrder
  pub rhs : ModelOrder

-- The inner loop of `find_first_match`.
unfoldable pub match_with : ModelOrder → List ModelOrder → Assoc ℕ → Option Fee → Option Match
match_with x [] state fee = none
match_with x (y ∷ ys) state fee = elim (match_compare x y state fee) [
  | none ↦ match_with x ys state fee
  | some t ↦ some (record { order_pair_type = t; lhs = x; rhs = y })
]

unfoldable pub find_first_match : List ModelOrder → Assoc ℕ → Option Fee → Option Match
find_first_match [] state fee = none
find_first_match (x ∷ xs) state fee = elim (match_with x xs state fee) [
  | none ↦ find_first_match xs state fee
  | some m ↦ some m
]
