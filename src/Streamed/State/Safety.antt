-- ===== src/Streamed/State/Safety.antt =====
-- services-core/src/orderbook/streamed/state.rs: the handlers, `apply_event` and `from_events` with
-- respect to the invariant and to panics.
pub mod Balances
pub mod Orders
pub mod Solution
use dex_services.Prelude.{
  ℕ, ◌≤◌, ◌<◌, ◌≡◌, refl, Bool, not, true, false, Option, none, some, List, [], ◌∷◌, arith, All,
  ◌⊎◌, inl, inr, Option-cases, Bool-cases, leb→le, All-imp, ◌==◌, leb,
}
use dex_services.Prelude.Int.{ℤ, pos, negate, ◌-ℤ◌}
use dex_services.Outcome.{
  Outcome, Error, deleting_valid_order, ok, err, panic, ◌>>=◌, ensure, ok_or, Ensures,
}
use dex_services.Assoc.{
  Key, Assoc, lookup, insert, AllValues, AllValues-lookup, AllValues-insert, AllValues-erase,
  lookup-insert, key_eq_self,
}
use dex_services.Streamed.Balance as BalanceOps
use dex_services.Streamed.Balance.{Balance}
use dex_services.Streamed.Balance.View.{IsCurrent}
use dex_services.Streamed.Order as OrderOps
use dex_services.Streamed.Order.{Order, u128_max}
use dex_services.Streamed.Order.Usage.{IsSound, IsDated, trade-IsSound, revert_trade-IsSound}
use dex_services.Streamed.Tokens.{Tokens, get_address_by_id, push}
use dex_services.Streamed.Event.{
  Deposit, WithdrawRequest, Withdraw, TokenListing, OrderPlacement, OrderCancellation,
  OrderDeletion, Trade, SolutionSubmission, Event,
}
use dex_services.Streamed.State.{
  State, LastSolution, or_default, update_balance, deposit, withdraw_request, withdraw,
  token_listing, order_placement, order_cancellation, order_deletion, apply_trade_internal,
  apply_trade, apply_trade_reversion, revert_last_solution, apply_solution_submission, handle,
  apply_event, apply_events, from_events, default_state, previous_u32,
}
use dex_services.Streamed.State.Invariant.{
  IsBooked, HasFee, IsValid, InRange, Advances, Keeps, insert-Keeps, update_balance_lem,
  sell_buy-Advances, revert_sell_buy-Advances, deposit-Advances, withdraw-Advances,
  withdraw_request-Advances,
}
use dex_services.Outcome.{Ensures-bind, Ensures-ensure, Ensures-ok_or, Ensures-both}
use dex_services.Streamed.State.Safety.Balances.{
  Keeps-HasFee, with_balances, update_balance-IsValid, deposit-IsValid, withdraw_request-IsValid,
  withdraw-IsValid, get_address_by_id-push, token_listing-IsValid,
}
use dex_services.Streamed.State.Safety.Orders.{
  with_orders, order_placement-IsValid, lookup-IsSound, order_cancellation-IsValid,
  order_deletion-IsValid, apply_trade_internal-IsValid, apply_trade-IsValid,
  apply_trade_reversion-IsValid,
}
use dex_services.Streamed.State.Safety.Solution.{
  some_of_booked, revert_booked, revert_last_solution-IsValid, update_balance-IsBooked,
  apply_solution_submission-IsValid,
}

-- Each handler of an event in a batch after the first keeps the invariant and does not panic.
handle-IsValid :
    (s : State) (e : Event)
    → 0 < s.last_batch_id
    → InRange e
    → IsValid s
    → Ensures IsValid (handle s e s.last_batch_id)
unfolding handle
handle-IsValid s (Event.deposit e) h r v = deposit-IsValid s e v
handle-IsValid s (Event.withdraw_request e) h r v = withdraw_request-IsValid s e v
handle-IsValid s (Event.withdraw e) h r v = withdraw-IsValid s e v
handle-IsValid s (Event.token_listing e) h r v = token_listing-IsValid s e v
handle-IsValid s (Event.order_placement e) h r v = order_placement-IsValid s e r v
handle-IsValid s (Event.order_cancellation e) h r v = order_cancellation-IsValid s e v
handle-IsValid s (Event.order_deletion e) h r v = order_deletion-IsValid s e v
handle-IsValid s (Event.trade e) h r v = apply_trade-IsValid s e v
handle-IsValid s (Event.trade_reversion e) h r v = apply_trade_reversion-IsValid s e v
handle-IsValid s (Event.solution_submission e) h r v = apply_solution_submission-IsValid s e h v

-- The clock of a valid state may advance.
pub advance-IsValid :
    (s : State) (batch : ℕ)
    → s.last_batch_id ≤ batch
    → IsValid s
    → IsValid (record s { last_batch_id = batch })
advance-IsValid s batch h v = record {
  orders_sound = All-imp (λ x p. (p.0, omega arith)) s.orders v.orders_sound;
  balances_current = All-imp (λ x p. omega arith) s.balances v.balances_current;
  solution_dated = omega arith;
  solution_booked = v.solution_booked;
}

-- From a valid state, an event in a batch after the first never panics, and where it succeeds
-- the state is valid again.
pub apply_event-IsValid :
    (s : State) (e : Event) (batch : ℕ)
    → 0 < batch
    → InRange e
    → IsValid s
    → Ensures IsValid (apply_event s e batch)
unfolding apply_event
apply_event-IsValid s e batch h r v = elim (Bool-cases (leb s.last_batch_id batch)) [
  | inl later ↦
      rw (later, Ensures)
        (handle-IsValid (record s { last_batch_id = batch }) e h r
          (advance-IsValid s batch (leb→le _ _ later) v))
  | inr past ↦ rw (past, Ensures) tt
]

-- Each event of the list is in a batch after the first and in range.
abbrev pub AllProper : List (Event × ℕ) → Type 0
AllProper = All (λ e. (0 < e.1) × InRange e.0)

apply_events-IsValid :
    (s : State) (es : List (Event × ℕ))
    → AllProper es
    → IsValid s
    → Ensures IsValid (apply_events s es)
unfolding apply_events
apply_events-IsValid s [] p v = v
apply_events-IsValid s ((e, batch) ∷ es) p v =
    Ensures-bind IsValid IsValid (apply_event s e batch) _
      (apply_event-IsValid s e batch p.0.0 p.0.1 v) (λ s' v'. apply_events-IsValid s' es p.1 v')

-- Building a state from any list of events in batches after the first and with amounts in range
-- never panics, and where it succeeds the state is valid.
pub from_events-IsValid : (es : List (Event × ℕ)) → AllProper es → Ensures IsValid (from_events es)
unfolding from_events
from_events-IsValid es p = apply_events-IsValid default_state es p (record {
  orders_sound = tt;
  balances_current = tt;
  solution_dated = omega arith;
  solution_booked = λ h. elim h [ ];
})
