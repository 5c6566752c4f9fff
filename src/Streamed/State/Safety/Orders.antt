-- ===== src/Streamed/State/Safety/Orders.antt =====
-- services-core/src/orderbook/streamed/state.rs: the handlers of orders and of trades, with respect
-- to the invariant and to panics.
use dex_services.Prelude.{ℕ, ◌≤◌, ◌≡◌, not, Option, none, some, arith, inl, inr, Option-cases}
use dex_services.Prelude.Int.{pos, negate}
use dex_services.Outcome.{Outcome, Error, deleting_valid_order, ensure, ok_or, Ensures}
use dex_services.Assoc.{
  Key, Assoc, lookup, AllValues, AllValues-lookup, AllValues-insert, AllValues-erase,
}
use dex_services.Streamed.Balance.{Balance}
use dex_services.Streamed.Balance.View.{IsCurrent}
use dex_services.Streamed.Order as OrderOps
use dex_services.Streamed.Order.{Order, u128_max}
use dex_services.Streamed.Order.Usage.{IsSound, IsDated, trade-IsSound, revert_trade-IsSound}
use dex_services.Streamed.Tokens.{get_address_by_id}
use dex_services.Streamed.Event.{OrderPlacement, OrderCancellation, OrderDeletion, Trade}
use dex_services.Streamed.State.{
  State, update_balance, order_placement, order_cancellation, order_deletion, apply_trade_internal,
  apply_trade, apply_trade_reversion, previous_u32,
}
use dex_services.Streamed.State.Invariant.{
  IsValid, Advances, Keeps, update_balance_lem, sell_buy-Advances, revert_sell_buy-Advances,
}
use dex_services.Outcome.{Ensures-bind, Ensures-ensure, Ensures-ok_or}
use dex_services.Streamed.State.Safety.Balances.{Keeps-HasFee}

pub with_orders :
    (s : State) (m : Assoc Order)
    → IsValid s
    → AllValues (λ o. IsSound o × IsDated s.last_batch_id o) m
    → IsValid (record s { orders = m })
with_orders s m v o = record {
  orders_sound = o;
  balances_current = v.balances_current;
  solution_dated = v.solution_dated;
  solution_booked = v.solution_booked;
}

pub order_placement-IsValid :
    (s : State) (e : OrderPlacement)
    → e.price_denominator ≤ u128_max
    → IsValid s
    → Ensures IsValid (order_placement s e)
unfolding order_placement
order_placement-IsValid s e r v = elim (Option-cases (lookup (e.owner, e.index) s.orders)) [
  | inl vacant ↦
      rw (vacant, Ensures)
        (with_orders s _ v (
          AllValues-insert (λ o. IsSound o × IsDated s.last_batch_id o) (e.owner, e.index) _
            s.orders v.orders_sound (omega arith)))
  | inr (o, occupied) ↦ rw (occupied, Ensures) tt
]

-- What a successful lookup says of an order of a valid state.
pub lookup-IsSound :
    (s : State) (k : Key) (o : Order)
    → IsValid s
    → lookup k s.orders ≡ some o
    → IsSound o × IsDated s.last_batch_id o
lookup-IsSound s k o v e =
    AllValues-lookup (λ o. IsSound o × IsDated s.last_batch_id o) k o s.orders v.orders_sound e

pub order_cancellation-IsValid :
    (s : State) (e : OrderCancellation)
    → IsValid s
    → Ensures IsValid (order_cancellation s e s.last_batch_id)
unfolding order_cancellation
order_cancellation-IsValid s e v =
    Ensures-bind (λ o. lookup (e.owner, e.id) s.orders ≡ some o) IsValid
      (ok_or (lookup (e.owner, e.id) s.orders) _) _ (Ensures-ok_or _ _)
      (λ o found.
        let known = lookup-IsSound s (e.owner, e.id) o v found in
        with_orders s _ v (
          AllValues-insert (λ o. IsSound o × IsDated s.last_batch_id o) (e.owner, e.id) _ s.orders
            v.orders_sound (omega arith)))

pub order_deletion-IsValid :
    (s : State) (e : OrderDeletion)
    → IsValid s
    → Ensures IsValid (order_deletion s e s.last_batch_id)
unfolding order_deletion
order_deletion-IsValid s e v = elim (Option-cases (lookup (e.owner, e.id) s.orders)) [
  | inl unknown ↦ rw (unknown, Ensures) v
  | inr (o, known) ↦
      rw (known, Ensures)
        (Ensures-bind (λ _. Unit {0}) IsValid
          (ensure (not (OrderOps.is_valid_in_batch o (previous_u32 s.last_batch_id)))
            deleting_valid_order)
          _ (Ensures-ensure _ _)
          (λ _ _. with_orders s _ v (
            AllValues-erase (λ o. IsSound o × IsDated s.last_batch_id o) (e.owner, e.id) s.orders
              v.orders_sound)))
]

-- The common part of a trade and of its reversion.
pub apply_trade_internal-IsValid :
    (s : State) (user id : ℕ) (order_fn : Order → Outcome Order)
    (sell_fn buy_fn : Balance → Outcome Balance)
    → IsValid s
    → ((o : Order)
        → IsSound o × IsDated s.last_batch_id o
        → Ensures (λ o'. IsSound o' × IsDated s.last_batch_id o') (order_fn o))
    → Advances s.last_batch_id sell_fn
    → Advances s.last_batch_id buy_fn
    → Ensures IsValid (apply_trade_internal s user id order_fn sell_fn buy_fn)
unfolding apply_trade_internal
apply_trade_internal-IsValid s user id order_fn sell_fn buy_fn v keeps sells buys =
    Ensures-bind (λ o. lookup (user, id) s.orders ≡ some o) IsValid
      (ok_or (lookup (user, id) s.orders) _) _ (Ensures-ok_or _ _)
      λ o found.
        Ensures-bind Sound IsValid (order_fn o) _ (keeps o (lookup-IsSound s (user, id) o v found))
          λ o' sound.
            Ensures-bind (λ _. Unit {0}) IsValid
              (ok_or (get_address_by_id s.tokens o'.sell_token) _) _ (anything _ _)
              λ sell_token _.
                Ensures-bind (Good s.balances) IsValid
                  (update_balance (user, sell_token) sell_fn s.balances) _
                  (update_balance_lem now (user, sell_token) sell_fn s.balances sells
                    v.balances_current)
                  λ sold q.
                    Ensures-bind (λ _. Unit {0}) IsValid
                      (ok_or (get_address_by_id s.tokens o'.buy_token) _) _ (anything _ _)
                      λ buy_token _.
                        Ensures-bind (Good sold) IsValid
                          (update_balance (user, buy_token) buy_fn sold) _
                          (update_balance_lem now (user, buy_token) buy_fn sold buys q.0)
                          λ bought r. record {
                            orders_sound =
                                AllValues-insert Sound (user, id) o' s.orders v.orders_sound sound;
                            balances_current = r.0;
                            solution_dated = v.solution_dated;
                            solution_booked = λ h. Keeps-HasFee s.last_solution sold bought _ r.1 (
                                Keeps-HasFee s.last_solution s.balances sold _ q.1
                                  (v.solution_booked h));
                          }
  where
    now : ℕ
    now = s.last_batch_id

    Sound : Order → Type 0
    Sound o = IsSound o × IsDated s.last_batch_id o

    Good : Assoc Balance → Assoc Balance → Type 0
    Good m m' = AllValues (IsCurrent s.last_batch_id) m' × Keeps m m'

    anything : (o : Option ℕ) (e : Error) → Ensures (λ _. Unit {0}) (ok_or o e)
    anything none e = tt
    anything (some a) e = tt

pub apply_trade-IsValid :
    (s : State) (e : Trade) → IsValid s → Ensures IsValid (apply_trade s e s.last_batch_id)
unfolding apply_trade
apply_trade-IsValid s e v =
    apply_trade_internal-IsValid s e.owner e.order_id _ _ _ v
      (λ o h. trade-IsSound o e.executed_sell_amount s.last_batch_id h.0 h.1)
      (sell_buy-Advances (negate (pos e.executed_sell_amount)) s.last_batch_id)
      (sell_buy-Advances (pos e.executed_buy_amount) s.last_batch_id)

pub apply_trade_reversion-IsValid :
    (s : State) (e : Trade)
    → IsValid s
    → Ensures IsValid (apply_trade_reversion s e s.last_batch_id)
unfolding apply_trade_reversion
apply_trade_reversion-IsValid s e v =
    apply_trade_internal-IsValid s e.owner e.order_id _ _ _ v
      (λ o h. revert_trade-IsSound o e.executed_sell_amount s.last_batch_id h.0 h.1)
      (revert_sell_buy-Advances (negate (pos e.executed_sell_amount)) s.last_batch_id)
      (revert_sell_buy-Advances (pos e.executed_buy_amount) s.last_batch_id)
