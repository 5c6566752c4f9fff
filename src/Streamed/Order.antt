-- ===== src/Streamed/Order.antt =====
-- services-core/src/orderbook/streamed/order.rs: a placed order and how much of it is used.
-- `u128` amounts and `u32` batch ids are ℕ; the checked operations test the bound.
pub mod Usage
use dex_services.Prelude.{
  ℕ, ◌+◌, ◌-◌, ◌^◌, Bool, Option, none, some, not, ◌&&◌, ltb, leb, ◌==◌, if◌then◌else◌,
}
use dex_services.Outcome.{
  Outcome, ok, ◌>>=◌, ◌>>◌, ensure, ok_or, unwrap, math_overflow, math_underflow, no_such_trade,
  over_order_limit,
}

-- `std::u128::MAX`
abbrev pub u128_max : ℕ
u128_max = 2 ^ 128 - 1

-- `u128::checked_add`
abbrev checked_add_u128 : ℕ → ℕ → Option ℕ
checked_add_u128 a b = if leb (a + b) u128_max then some (a + b) else none

-- `u128::checked_sub`
abbrev checked_sub : ℕ → ℕ → Option ℕ
checked_sub a b = if leb b a then some (a - b) else none

-- Change from a potential solution that might still get replaced in the same batch.
pub record PendingUsedAmount : Type 0 where
  pub batch_id : ℕ
  pub amount : ℕ

pub record Order : Type 0 where
  pub buy_token : ℕ
  pub sell_token : ℕ
  pub valid_until : ℕ
  pub valid_from : ℕ
  pub price_numerator : ℕ
  pub price_denominator : ℕ
  pub used_amount : ℕ
  pub pending_used_amount : PendingUsedAmount

-- `models::Order` (services-core/src/models/order.rs), as the order book hands it out.
pub record ModelOrder : Type 0 where
  pub id : ℕ
  pub account_id : ℕ
  pub buy_token : ℕ
  pub sell_token : ℕ
  pub numerator : ℕ
  pub denominator : ℕ
  pub remaining_sell_amount : ℕ
  pub valid_from : ℕ
  pub valid_until : ℕ

-- `Order::new`
abbrev pub new : ℕ → ℕ → ℕ → ℕ → ℕ → ℕ → Order
new buy_token sell_token valid_from valid_until price_numerator price_denominator = record {
  buy_token = buy_token;
  sell_token = sell_token;
  valid_until = valid_until;
  valid_from = valid_from;
  price_numerator = price_numerator;
  price_denominator = price_denominator;
  used_amount = 0;
  pending_used_amount = record { batch_id = 0; amount = 0 };
}

unfoldable pub has_limited_amount : Order → Bool
has_limited_amount o = not (o.price_numerator == u128_max) && not (o.price_denominator == u128_max)

unfoldable pub is_valid_in_batch : Order → ℕ → Bool
is_valid_in_batch o batch_id = leb o.valid_from batch_id && leb batch_id o.valid_until

unfoldable pub get_used_amount : Order → ℕ → Outcome ℕ
get_used_amount o batch_id =
    if ltb o.pending_used_amount.batch_id batch_id
    then unwrap (checked_add_u128 o.used_amount o.pending_used_amount.amount)
    else ok o.used_amount

pub get_remaining_amount_at_beginning_of_batch : Order → ℕ → Outcome ℕ
unfolding get_used_amount
get_remaining_amount_at_beginning_of_batch o batch_id =
    get_used_amount o batch_id >>= λ used. unwrap (checked_sub o.price_denominator used)

unfoldable pub apply_pending_used_amount : Order → ℕ → Outcome Order
unfolding get_used_amount
apply_pending_used_amount o batch_id = do
  used ← get_used_amount o batch_id
  ok (record o {
    used_amount = used;
    pending_used_amount = record (o.pending_used_amount) {
      amount =
          if ltb o.pending_used_amount.batch_id batch_id then 0 else o.pending_used_amount.amount;
    };
  })

unfoldable pub ensure_used_amount_invariant : Order → Outcome (Unit {0})
ensure_used_amount_invariant o = do
  total ← ok_or (checked_add_u128 o.used_amount o.pending_used_amount.amount) math_overflow
  ensure (leb total o.price_denominator) over_order_limit

unfoldable pub trade : Order → ℕ → ℕ → Outcome Order
unfolding has_limited_amount apply_pending_used_amount ensure_used_amount_invariant
trade o used_amount batch_id = if not (has_limited_amount o) then ok o else do
  o' ← apply_pending_used_amount o batch_id
  amount ← ok_or (checked_add_u128 o'.pending_used_amount.amount used_amount) math_overflow
  let traded = record o' { pending_used_amount = record { batch_id = batch_id; amount = amount } }
  ensure_used_amount_invariant traded
  ok traded

pub revert_trade : Order → ℕ → ℕ → Outcome Order
unfolding has_limited_amount
revert_trade o used_amount batch_id = if not (has_limited_amount o) then ok o else do
  ensure (o.pending_used_amount.batch_id == batch_id) no_such_trade
  amount ← ok_or (checked_sub o.pending_used_amount.amount used_amount) math_underflow
  ok (record o { pending_used_amount = record (o.pending_used_amount) { amount = amount } })

pub as_model_order : Order → ℕ → ℕ → ℕ → Outcome ModelOrder
as_model_order o batch_id user_id order_id = do
  remaining ← get_remaining_amount_at_beginning_of_batch o batch_id
  ok (record {
    id = order_id;
    account_id = user_id;
    buy_token = o.buy_token;
    sell_token = o.sell_token;
    numerator = o.price_numerator;
    denominator = o.price_denominator;
    remaining_sell_amount = remaining;
    valid_from = o.valid_from;
    valid_until = o.valid_until;
  })
