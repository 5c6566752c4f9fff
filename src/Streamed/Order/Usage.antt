-- ===== src/Streamed/Order/Usage.antt =====
-- services-core/src/orderbook/streamed/order.rs: the invariant on the used amount that the struct's
-- comment states, and the amount that remains of an order.
use dex_services.Prelude.{ℕ, ◌+◌, ◌-◌, ◌≤◌, ◌<◌, ◌≡◌, true, arith, ltb, not, ◌⊎◌, if◌then◌else◌}
use dex_services.Outcome.{ok, err, Ensures, math_overflow, over_order_limit}
use dex_services.Streamed.Order.{
  ModelOrder, as_model_order, Order, u128_max, new, has_limited_amount,
  get_remaining_amount_at_beginning_of_batch, trade, revert_trade,
}

-- The invariant that the struct's comment states, with the range of the sell amount.
pub record IsSound (o : Order) : Type 0 where
  pub within : o.used_amount + o.pending_used_amount.amount ≤ o.price_denominator
  pub bounded : o.price_denominator ≤ u128_max

-- No trade is dated after the current batch.
abbrev pub IsDated : ℕ → Order → Type 0
IsDated now o = o.pending_used_amount.batch_id ≤ now

-- The amount that is used up for a batch: pending trades count in later batches.
abbrev pub used_by : Order → ℕ → ℕ
used_by o c =
    o.used_amount
    + (if ltb o.pending_used_amount.batch_id c then o.pending_used_amount.amount else 0)

new-IsSound :
    (bt st from until num den : ℕ) → den ≤ u128_max → IsSound (new bt st from until num den)
new-IsSound bt st from until num den h = record { within = omega arith; bounded = h }

-- On a sound order no unwrap fails: what remains is the sell amount less what is used up.
pub remaining_lem :
    (o : Order) (c : ℕ)
    → IsSound o
    → get_remaining_amount_at_beginning_of_batch o c ≡ ok (o.price_denominator - used_by o c)
unfolding get_remaining_amount_at_beginning_of_batch
remaining_lem o c s = ground arith

-- The order after a trade that is booked.
abbrev book : Order → ℕ → ℕ → Order
book o a now = record o {
  used_amount = used_by o now;
  pending_used_amount = record {
    batch_id = now;
    amount =
        (if ltb o.pending_used_amount.batch_id now then 0 else o.pending_used_amount.amount) + a;
  };
}

-- The order after a reversion that is booked.
abbrev unbook : Order → ℕ → Order
unbook o a = if not (has_limited_amount o) then o else record o {
  pending_used_amount = record {
    batch_id = o.pending_used_amount.batch_id;
    amount = o.pending_used_amount.amount - a;
  };
}

-- A trade of a limited order that still fits is booked, and counts from the next batch on.
pub trade_fits :
    (o : Order) (a now : ℕ)
    → IsSound o
    → IsDated now o
    → has_limited_amount o ≡ true
    → o.used_amount + o.pending_used_amount.amount + a ≤ o.price_denominator
    → (o' : Order) × (trade o a now ≡ ok o')
      × IsSound o'
      × IsDated now o'
      × (o'.pending_used_amount.batch_id ≡ now)
      × (used_by o' now ≡ used_by o now)
      × ((c : ℕ) → now < c → used_by o' c ≡ used_by o c + a)
unfolding trade
trade_fits o a now s d l f = (
  book o a now,
  ground arith,
  ground arith,
  ground arith,
  ground arith,
  ground arith,
  λ c h. ground arith,
)

-- A trade of more than what is left of a limited order is refused.
pub trade_exceeds :
    (o : Order) (a now : ℕ)
    → IsSound o
    → has_limited_amount o ≡ true
    → o.price_denominator < o.used_amount + o.pending_used_amount.amount + a
    → (trade o a now ≡ err math_overflow) ⊎ (trade o a now ≡ err over_order_limit)
unfolding trade
trade_exceeds o a now s l f = ground arith

pub trade-IsSound :
    (o : Order) (a now : ℕ)
    → IsSound o
    → IsDated now o
    → Ensures (λ o'. IsSound o' × IsDated now o') (trade o a now)
unfolding trade
trade-IsSound o a now s d = ground arith

pub revert_trade-IsSound :
    (o : Order) (a now : ℕ)
    → IsSound o
    → IsDated now o
    → Ensures (λ o'. IsSound o' × IsDated now o') (revert_trade o a now)
unfolding revert_trade
revert_trade-IsSound o a now s d = ground arith

-- Reverting a trade in its batch succeeds, and every later batch sees what it saw before.
pub revert_trade-trade :
    (o : Order) (a now : ℕ) {o' : Order}
    → IsSound o
    → IsDated now o
    → trade o a now ≡ ok o'
    → (o'' : Order) × (revert_trade o' a now ≡ ok o'')
      × ((c : ℕ) → now ≤ c → used_by o'' c ≡ used_by o c)
unfolding trade revert_trade has_limited_amount
revert_trade-trade o a now {o'} s d e = (unbook o' a, ground arith, λ c h. ground arith)

-- The second order differs from the first in its used amounts only.
pub record IsSameOrder (o o' : Order) : Type 0 where
  pub same_buy_token : o'.buy_token ≡ o.buy_token
  pub same_sell_token : o'.sell_token ≡ o.sell_token
  pub same_valid_from : o'.valid_from ≡ o.valid_from
  pub same_valid_until : o'.valid_until ≡ o.valid_until
  pub same_numerator : o'.price_numerator ≡ o.price_numerator
  pub same_denominator : o'.price_denominator ≡ o.price_denominator

pub trade-IsSameOrder :
    (o : Order) (a now : ℕ) {o' : Order} → trade o a now ≡ ok o' → IsSameOrder o o'
unfolding trade
trade-IsSameOrder o a now e = ground arith

pub revert_trade-IsSameOrder :
    (o : Order) (a now : ℕ) {o' : Order} → revert_trade o a now ≡ ok o' → IsSameOrder o o'
unfolding revert_trade
revert_trade-IsSameOrder o a now e = ground arith

-- The model order with what remains.
abbrev pub offer : Order → ℕ → ℕ → ℕ → ModelOrder
offer o c user id = record {
  id = id;
  account_id = user;
  buy_token = o.buy_token;
  sell_token = o.sell_token;
  numerator = o.price_numerator;
  denominator = o.price_denominator;
  remaining_sell_amount = o.price_denominator - used_by o c;
  valid_from = o.valid_from;
  valid_until = o.valid_until;
}

-- A sound order is handed out with what remains of it.
pub as_model_order_lem :
    (o : Order) (c user id : ℕ) → IsSound o → as_model_order o c user id ≡ ok (offer o c user id)
unfolding as_model_order
as_model_order_lem o c user id s = rw (remaining_lem o c s)

-- Sound orders that differ in their used amounts alone are handed out alike where these agree.
pub as_model_order-IsSameOrder :
    (o o' : Order) (c user id : ℕ)
    → IsSound o
    → IsSound o'
    → IsSameOrder o o'
    → used_by o' c ≡ used_by o c
    → as_model_order o' c user id ≡ as_model_order o c user id
as_model_order-IsSameOrder o o' c user id s s' e u =
    cc (as_model_order_lem o c user id s, as_model_order_lem o' c user id s')

pub IsSameOrder-trans : (o p q : Order) → IsSameOrder o p → IsSameOrder p q → IsSameOrder o q
IsSameOrder-trans o p q h k = ground arith
