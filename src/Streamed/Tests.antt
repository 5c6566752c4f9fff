-- ===== src/Streamed/Tests.antt =====
-- The theorems on services-core/src/orderbook/streamed at concrete inputs: a user who deposits,
-- sells half of an order and asks for a withdrawal.
use dex_services.Assoc.{Key}
use dex_services.Prelude.{Selects, ℕ, ◌<◌, ◌≡◌, refl, true, List, [], ◌∷◌, arith, All}
use dex_services.Prelude.Int.{pos, negate, ◌+ℤ◌, ◌-ℤ◌}
use dex_services.Outcome.{ok, panic, Ensures, Ensures-ok}
use dex_services.Streamed.Balance.{
  Balance, default_balance, apply_existing_deposit_and_proceeds, get_balance_at_beginning_of_batch,
  sell_buy_internal, withdraw_request,
}
use dex_services.Streamed.Balance as BalanceOps
use dex_services.Streamed.Balance.Ledger.{
  History, deposit_op, sell_op, request_op, apply_op, run, available, run-refines-ledger,
}
use dex_services.Streamed.Order as OrderOps
use dex_services.Streamed.Order.{
  Order, new, trade, revert_trade, get_remaining_amount_at_beginning_of_batch, has_limited_amount,
}
use dex_services.Streamed.Order.Usage.{IsSound}
use dex_services.Streamed.Event.{Event, Trade}
use dex_services.Streamed.State.{
  State, default_state, clear, update_balance, deposit, token_listing, order_placement, handle,
  apply_event, apply_events, from_events, apply_trade, apply_trade_internal,
}
use dex_services.Streamed.State as StateOps
use dex_services.Streamed.State.Invariant.{IsValid}
use dex_services.Streamed.State.Safety.{from_events-IsValid}
use dex_services.Streamed.State.Clear.{apply_events-clear_panics}
use dex_services.Streamed.State.Reversal.{IsUndone, trade_reversion-trade}
use dex_services.Streamed.Auction.{
  account_state, orderbook_at_beginning_of_batch, canonicalize_auction_data,
}
use dex_services.Streamed.Auction.Canonical.{IsNeeded, canonicalize_auction_data_lem}
use dex_services.Streamed.Auction.Offer.{IsOffer, offers, orderbook_lem}

-- A deposit, a sale and a withdraw request.
abbrev calls : History
calls = (1, deposit_op 10) ∷ (2, sell_op 4) ∷ (2, request_op 3 2) ∷ []

abbrev after_calls : Balance
after_calls = record {
  balance = pos 10;
  deposit = record { batch_id = 1; amount = pos 0 };
  withdraw = record { batch_id = 2; amount = pos 3 };
  proceeds = record { batch_id = 2; amount = negate (pos 4) };
}

run-calls : run calls default_balance ≡ ok after_calls
unfolding run apply_op BalanceOps.deposit sell_buy_internal withdraw_request
    apply_existing_deposit_and_proceeds ◌+ℤ◌
run-calls = refl

run-refines-ledger_example : get_balance_at_beginning_of_batch after_calls 3 ≡ available calls 3
run-refines-ledger_example =
    run-refines-ledger calls 3 (omega arith, (omega arith, (omega arith, tt))) (omega arith)
      run-calls

three_left : get_balance_at_beginning_of_batch after_calls 3 ≡ pos 3
unfolding get_balance_at_beginning_of_batch BalanceOps.balance_with_deposit_and_proceeds ◌+ℤ◌ ◌-ℤ◌
three_left = refl

-- An order of 10 for 10, and the same with 6 of it sold in batch 4.
abbrev ten : Order
ten = new 0 1 0 100 10 10

abbrev ten_sold : Order
ten_sold = record ten { pending_used_amount = record { batch_id = 4; amount = 6 } }

ten-IsSound : IsSound ten
ten-IsSound = record { within = omega arith; bounded = omega arith }

trade-ten : trade ten 6 4 ≡ ok ten_sold
unfolding trade has_limited_amount OrderOps.apply_pending_used_amount OrderOps.get_used_amount
    OrderOps.ensure_used_amount_invariant
trade-ten = refl

ten_limited : has_limited_amount ten ≡ true
unfolding has_limited_amount
ten_limited = refl

-- Two tokens, a deposit of the second, an order that sells it for the first, and a request to
-- withdraw some of it.
abbrev listed : List (Event × ℕ)
listed =
    (Event.token_listing (record { token = 70; id = 0 }), 1)
    ∷ (Event.token_listing (record { token = 71; id = 1 }), 1)
    ∷ (Event.deposit (record { user = 5; token = 71; amount = 10; batch_id = 1 }), 1)
    ∷ (
      Event.order_placement (record {
        owner = 5;
        index = 0;
        buy_token = 0;
        sell_token = 1;
        valid_from = 1;
        valid_until = 100;
        price_numerator = 10;
        price_denominator = 10;
      }),
      1,
    )
    ∷ (Event.withdraw_request (record { user = 5; token = 71; amount = 3; batch_id = 2 }), 1)
    ∷ []

abbrev listed_state : State
listed_state = record default_state {
  tokens = (0, 70) ∷ (1, 71) ∷ [];
  balances =
      (
        (5, 71),
        record (BalanceOps.deposit default_balance 10 1) {
          withdraw = record { batch_id = 2; amount = pos 3 };
        },
      )
      ∷ [];
  orders = ((5, 0), new 0 1 1 100 10 10) ∷ [];
  last_batch_id = 1;
}

from_listed : from_events listed ≡ ok listed_state
unfolding from_events apply_events apply_event handle token_listing deposit order_placement
    StateOps.withdraw_request update_balance BalanceOps.withdraw_request BalanceOps.deposit
from_listed = refl

from_events-IsValid_example : Ensures IsValid (from_events listed)
from_events-IsValid_example = from_events-IsValid listed (
  (omega arith, tt),
  ((omega arith, tt), ((omega arith, tt), ((omega arith, omega arith), ((omega arith, tt), tt)))),
)

listed-IsValid : IsValid listed_state
listed-IsValid = Ensures-ok IsValid (from_events listed) from_events-IsValid_example from_listed

abbrev sale : Trade
sale = record { owner = 5; order_id = 0; executed_sell_amount = 6; executed_buy_amount = 6 }

abbrev sold_state : State
sold_state = record listed_state {
  orders =
      (
        (5, 0),
        record (new 0 1 1 100 10 10) { pending_used_amount = record { batch_id = 4; amount = 6 } },
      )
      ∷ [];
  balances =
      (
        (5, 71),
        record {
          balance = pos 10;
          deposit = record { batch_id = 1; amount = pos 0 };
          withdraw = record { batch_id = 2; amount = pos 3 };
          proceeds = record { batch_id = 4; amount = negate (pos 6) };
        },
      )
      ∷ (
        (5, 70),
        record {
          balance = pos 0;
          deposit = BalanceOps.default_flux;
          withdraw = BalanceOps.default_flux;
          proceeds = record { batch_id = 4; amount = pos 6 };
        },
      )
      ∷ [];
  solution_partially_received = true;
  last_batch_id = 4;
}

sell_listed : apply_event listed_state (Event.trade sale) 4 ≡ ok sold_state
unfolding apply_event handle apply_trade apply_trade_internal update_balance trade
    has_limited_amount OrderOps.apply_pending_used_amount OrderOps.get_used_amount
    OrderOps.ensure_used_amount_invariant sell_buy_internal apply_existing_deposit_and_proceeds
    BalanceOps.deposit ◌+ℤ◌
sell_listed = refl

trade_reversion-trade_example :
    (s2 : State) × (apply_event sold_state (Event.trade_reversion sale) 4 ≡ ok s2)
    × IsUndone 4 listed_state s2
trade_reversion-trade_example = trade_reversion-trade listed_state sale 4 listed-IsValid sell_listed

apply_events-clear_panics_example :
    apply_events (clear default_state) (
      (Event.token_listing (record { token = 70; id = 0 }), 0)
      ∷ (Event.solution_submission (record { submitter = 5; burnt_fees = 1 }), 0)
      ∷ [])
    ≡ panic
apply_events-clear_panics_example = apply_events-clear_panics default_state 70 _ refl

orderbook_lem_example :
    (orderbook_at_beginning_of_batch listed_state 2
      ≡ ok (account_state listed_state 2, offers 2 listed_state.orders))
    × All (IsOffer 2) (offers 2 listed_state.orders)
orderbook_lem_example = orderbook_lem listed_state 2 listed-IsValid

abbrev two_accounts : List (Key × ℕ)
two_accounts = ((5, 0), 7) ∷ ((5, 1), 10) ∷ []

canonicalize_auction_data_lem_example :
    let (balances, kept) = canonicalize_auction_data two_accounts (offers 2 listed_state.orders) in
    Selects (λ o. 0 < o.remaining_sell_amount) (offers 2 listed_state.orders) kept
    × IsNeeded two_accounts kept balances
canonicalize_auction_data_lem_example =
    canonicalize_auction_data_lem two_accounts (offers 2 listed_state.orders)
