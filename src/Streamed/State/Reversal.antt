-- ===== src/Streamed/State/Reversal.antt =====
-- services-core/src/orderbook/streamed/state.rs: a trade and its reversion. Balances and orders are
-- compared by what they offer at the beginning of a batch.
use mathlib.Core.Path.{subst}
use dex_services.Prelude.{
  ap, ℕ, ◌≤◌, ◌≡◌, sym, true, Option, none, some, inl, inr, Bool-cases, leb, leb→le, leb_refl,
}
use dex_services.Prelude.Int.{ℤ, pos, negate}
use dex_services.Outcome.{
  Outcome, ok, bind_elim, Ensures-ok, ensure-eq-ok, ok-injective, ok_or-eq-ok, ensure, ok_or,
  event_in_past,
}
use dex_services.Assoc.{
  Key, Assoc, lookup, insert, lookup-insert, key_eq, key_eq_self, eq_of_key_eq, AllValues-lookup,
}
use dex_services.Streamed.Balance.{Balance, sell_buy_internal}
use dex_services.Streamed.Order.{Order, ModelOrder, trade, as_model_order}
use dex_services.Streamed.Order.Usage.{
  IsSound, IsDated, trade-IsSound, revert_trade-IsSound, trade-IsSameOrder,
  revert_trade-IsSameOrder, revert_trade-trade, IsSameOrder-trans, as_model_order-IsSameOrder,
}
use dex_services.Streamed.Tokens.{get_address_by_id}
use dex_services.Streamed.Event.{Trade, Event}
use dex_services.Streamed.State.{
  State, update_balance, apply_trade_internal, apply_trade, apply_trade_reversion, handle,
  apply_event,
}
use dex_services.Streamed.State.Invariant.{IsValid}
use dex_services.Streamed.State.Safety.{advance-IsValid}
use dex_services.Streamed.State.Shifts.{
  IsShift, request_at, offered_at, sell_buy-shifts, revert_sell_buy-IsShift, shifts_restore,
}

-- What the order's entry hands out at the beginning of batch `c`.
abbrev hand_out : Key → ℕ → Option Order → Option (Outcome ModelOrder)
hand_out j c none = none
hand_out j c (some o) = some (as_model_order o c j.0 j.1)

abbrev order_at : Assoc Order → Key → ℕ → Option (Outcome ModelOrder)
order_at m j c = hand_out j c (lookup j m)

module _ (now user id : ℕ) where
  -- What a trade has done to a state, and what makes it revertible.
  record IsTradeOf (a b : ℕ) (s s1 : State) : Type 0 where
    order : Order
    order1 : Order
    sell_token : ℕ
    buy_token : ℕ
    middle : Assoc Balance
    found : lookup (user, id) s.orders ≡ some order
    traded : trade order a now ≡ ok order1
    sells : get_address_by_id s.tokens order.sell_token ≡ some sell_token
    buys : get_address_by_id s.tokens order.buy_token ≡ some buy_token
    sold : IsShift now (user, sell_token) (negate (pos a)) s.balances middle
    bought : IsShift now (user, buy_token) (pos b) middle s1.balances
    orders_after : s1.orders ≡ insert (user, id) order1 s.orders
    tokens_after : s1.tokens ≡ s.tokens
    batch_after : s1.last_batch_id ≡ s.last_batch_id

apply_trade-IsTradeOf :
    (s : State) (e : Trade) {s1 : State}
    → IsValid s
    → apply_trade s e s.last_batch_id ≡ ok s1
    → IsTradeOf s.last_batch_id e.owner e.order_id e.executed_sell_amount e.executed_buy_amount s s1
unfolding apply_trade apply_trade_internal
apply_trade-IsTradeOf s e {s1} v h = bind_elim (ok_or (lookup key s.orders) _) _ h λ o found h1.
    bind_elim (trade o e.executed_sell_amount now) _ h1 λ o1 traded h2.
      bind_elim (ok_or (get_address_by_id s.tokens o1.sell_token) _) _ h2 λ sell_token sells h3.
        bind_elim (update_balance (e.owner, sell_token) (λ b. sell_buy_internal b x now) s.balances)
          _ h3
          λ m1 sold h4.
            bind_elim (ok_or (get_address_by_id s.tokens o1.buy_token) _) _ h4 λ buy_token buys h5.
              bind_elim (update_balance (e.owner, buy_token) (λ b. sell_buy_internal b y now) m1) _
                h5
                λ m2 bought h6.
                  let first =
                    sell_buy-shifts now (e.owner, sell_token) s.balances v.balances_current x
                      sold in
                  let second = sell_buy-shifts now (e.owner, buy_token) m1 first.current y bought in
                  let same = trade-IsSameOrder o e.executed_sell_amount now traded in
                  record {
                    order = o;
                    order1 = o1;
                    sell_token = sell_token;
                    buy_token = buy_token;
                    middle = m1;
                    found = ok_or-eq-ok _ _ found;
                    traded = traded;
                    sells = rw (← same.same_sell_token) (ok_or-eq-ok _ _ sells);
                    buys = rw (← same.same_buy_token) (ok_or-eq-ok _ _ buys);
                    sold = first;
                    bought =
                        subst (λ (t : State). IsShift now (e.owner, buy_token) y m1 t.balances)
                          (ok-injective h6) second;
                    orders_after = sym (ap (λ (t : State). t.orders) (ok-injective h6));
                    batch_after = sym (ap (λ (t : State). t.last_batch_id) (ok-injective h6));
                    tokens_after = sym (ap (λ (t : State). t.tokens) (ok-injective h6));
                  }
  where
    now : ℕ
    now = s.last_batch_id

    key : Key
    key = (e.owner, e.order_id)

    x : ℤ
    x = negate (pos e.executed_sell_amount)

    y : ℤ
    y = pos e.executed_buy_amount

-- The state after the reversion offers what the first one offered, from batch `now` on: of each
-- balance, less a withdraw request that is due, and of each order. The requests are the same.
abbrev pub IsUndone : ℕ → State → State → Type 0
IsUndone now s s2 =
    ((j : Key) (c : ℕ)
      → now ≤ c
      → (request_at s2.balances j ≡ request_at s.balances j)
        × (offered_at s2.balances j c ≡ offered_at s.balances j c))
    × ((j : Key) (c : ℕ) → now ≤ c → order_at s2.orders j c ≡ order_at s.orders j c)

-- An order that hands out the same may take the place of the first.
order_at-insert :
    (m m1 : Assoc Order) (k : Key) (o o1 o2 : Order) (c : ℕ)
    → m1 ≡ insert k o1 m
    → lookup k m ≡ some o
    → as_model_order o2 c k.0 k.1 ≡ as_model_order o c k.0 k.1
    → (j : Key) → order_at (insert k o2 m1) j c ≡ order_at m j c
order_at-insert m m1 k o o1 o2 c e found same j = elim (Bool-cases (key_eq j k)) [
  | inl h ↦ rw (eq_of_key_eq j k h) (rw (lookup-insert, key_eq_self, found, same))
  | inr h ↦ rw (lookup-insert, h, e, lookup-insert, h)
]

reversion_undoes :
    (s s1 : State) (e : Trade) (n : ℕ)
    → IsValid s
    → IsTradeOf s.last_batch_id e.owner e.order_id e.executed_sell_amount e.executed_buy_amount s s1
    → (s2 : State) × (apply_trade_reversion (record s1 { last_batch_id = n }) e s.last_batch_id
        ≡ ok s2)
      × IsUndone s.last_batch_id s s2
unfolding apply_trade_reversion apply_trade_internal
reversion_undoes s s1 e n v t =
    let now = s.last_batch_id in
    let key : Key = (e.owner, e.order_id) in
    let sound =
      AllValues-lookup (λ o. IsSound o × IsDated now o) key t.order s.orders v.orders_sound
        t.found in
    let found1 : lookup key s1.orders ≡ some t.order1 =
      rw (t.orders_after, lookup-insert, key_eq_self) in
    let (o2, reverted, used) =
      revert_trade-trade t.order e.executed_sell_amount now sound.0 sound.1 t.traded in
    let same1 = trade-IsSameOrder t.order e.executed_sell_amount now t.traded in
    let same2 = revert_trade-IsSameOrder t.order1 e.executed_sell_amount now reverted in
    let sells2 : get_address_by_id s1.tokens o2.sell_token ≡ some t.sell_token =
      rw (t.tokens_after, same2.same_sell_token, same1.same_sell_token) t.sells in
    let buys2 : get_address_by_id s1.tokens o2.buy_token ≡ some t.buy_token =
      rw (t.tokens_after, same2.same_buy_token, same1.same_buy_token) t.buys in
    let (m3, e3, shift3) =
      revert_sell_buy-IsShift now (e.owner, t.sell_token) s1.balances t.bought.current
        (negate (pos e.executed_sell_amount)) (t.bought.still_traded _ t.sold.traded) in
    let (m4, e4, shift4) =
      revert_sell_buy-IsShift now (e.owner, t.buy_token) m3 shift3.current
        (pos e.executed_buy_amount) (shift3.still_traded _ t.bought.traded) in
    let sound1 =
      Ensures-ok Sound _ (trade-IsSound t.order e.executed_sell_amount now sound.0 sound.1)
        t.traded in
    let sound2 =
      Ensures-ok Sound _
        (revert_trade-IsSound t.order1 e.executed_sell_amount now sound1.0 sound1.1) reverted in
    let same = IsSameOrder-trans t.order t.order1 o2 same1 same2 in
    (
      record s1 {
        orders = insert key o2 s1.orders;
        balances = m4;
        solution_partially_received = true;
        last_batch_id = n;
      },
      rw (found1, reverted, sells2, e3, buys2, e4),
      (
        λ j c l.
            shifts_restore now (negate (pos e.executed_sell_amount)) (pos e.executed_buy_amount)
              (e.owner, t.sell_token) (e.owner, t.buy_token) s.balances t.middle s1.balances m3 m4
              t.sold t.bought shift3 shift4 j c l,
        λ j c l.
            order_at-insert s.orders s1.orders key t.order t.order1 o2 c t.orders_after t.found
              (as_model_order-IsSameOrder t.order o2 c key.0 key.1 sound.0 sound2.0 same (used c l))
              j,
      ),
    )
  where
    Sound : Order → Type 0
    Sound o = IsSound o × IsDated s.last_batch_id o

-- In a valid state, a trade that went through can be reverted by an event of the same batch, and
-- then every balance has the withdraw request it had, and from that batch on every balance, less a
-- request that is due, and every order is offered as before the trade.
pub trade_reversion-trade :
    (s : State) (e : Trade) (batch : ℕ) {s1 : State}
    → IsValid s
    → apply_event s (Event.trade e) batch ≡ ok s1
    → (s2 : State) × (apply_event s1 (Event.trade_reversion e) batch ≡ ok s2) × IsUndone batch s s2
unfolding apply_event handle
trade_reversion-trade s e batch {s1} v h =
    bind_elim (ensure (leb s.last_batch_id batch) event_in_past) _ h λ _ later h1.
      let now : State = record s { last_batch_id = batch } in
      let valid : IsValid now = advance-IsValid s batch (leb→le _ _ (ensure-eq-ok _ _ later)) v in
      let traded = apply_trade-IsTradeOf now e valid h1 in
      let (s2, reverted, undone) = reversion_undoes now s1 e batch valid traded in
      let dated : s1.last_batch_id ≡ batch = traded.batch_after in
      (s2, rw (dated, leb_refl) reverted, undone)
