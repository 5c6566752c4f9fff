-- ===== src/Streamed/State.antt =====
-- services-core/src/orderbook/streamed/state.rs: the state that is built from events. A method
-- takes the state first and returns it changed; `apply_event` consumes the state, so an error
-- carries none. Batch ids are `u32`; `block_batch_id - 1` wraps as in a release build.
pub mod Invariant
pub mod Safety
pub mod Clear
pub mod Shifts
pub mod Reversal
use dex_services.Prelude.{
  ℕ, ◌+◌, ◌-◌, ◌%◌, ◌^◌, Bool, true, false, not, Option, none, some, List, [], ◌∷◌, leb, ◌==◌,
  if◌then◌else◌,
}
use dex_services.Outcome.{
  Outcome, ok, err, panic, ◌>>=◌, ◌>>◌, ensure, ok_or, unwrap, event_in_past,
  deposit_batch_mismatch, request_in_past, order_exists, unknown_order, deleting_valid_order,
  unknown_sell_token, unknown_buy_token, no_fee_token,
}
use dex_services.Assoc.{Key, Assoc, lookup, insert, erase}
use dex_services.Streamed.Balance as BalanceOps
use dex_services.Streamed.Balance.{Balance, default_balance}
use dex_services.Streamed.Order as OrderOps
use dex_services.Streamed.Order.{Order}
use dex_services.Streamed.Tokens.{Tokens, get_address_by_id, push}
use dex_services.Streamed.Event.{
  Deposit, WithdrawRequest, Withdraw, TokenListing, OrderPlacement, OrderCancellation,
  OrderDeletion, Trade, SolutionSubmission, Event,
}

pub record LastSolution : Type 0 where
  pub batch_id : ℕ
  pub user_id : ℕ
  pub burnt_fees : ℕ

pub record State : Type 0 where
  pub orders : Assoc Order
  pub balances : Assoc Balance
  pub tokens : Tokens
  pub last_solution : LastSolution
  pub solution_partially_received : Bool
  pub last_batch_id : ℕ

-- `State::default`
abbrev pub default_state : State
default_state = record {
  orders = [];
  balances = [];
  tokens = [];
  last_solution = record { batch_id = 0; user_id = 0; burnt_fees = 0 };
  solution_partially_received = false;
  last_batch_id = 0;
}

-- `batch_id - 1` on a `u32`.
abbrev pub previous_u32 : ℕ → ℕ
previous_u32 b = (b + 2 ^ 32 - 1) % 2 ^ 32

-- `self.balances.entry(key).or_default()`
abbrev pub or_default : Option Balance → Balance
or_default none = default_balance
or_default (some b) = b

-- A call of a balance's method through its entry.
unfoldable pub update_balance :
    Key → (Balance → Outcome Balance) → Assoc Balance → Outcome (Assoc Balance)
update_balance k f m = do b ← f (or_default (lookup k m)); ok (insert k b m)

unfoldable pub deposit : State → Deposit → ℕ → Outcome State
deposit s event block_batch_id = do
  ensure (event.batch_id == block_batch_id) deposit_batch_mismatch
  balances ←
      update_balance (event.user, event.token)
        (λ b. ok (BalanceOps.deposit b event.amount event.batch_id)) s.balances
  ok (record s { balances = balances })

unfoldable pub withdraw_request : State → WithdrawRequest → ℕ → Outcome State
withdraw_request s event block_batch_id = do
  ensure (leb block_batch_id event.batch_id) request_in_past
  balances ←
      update_balance (event.user, event.token)
        (λ b. BalanceOps.withdraw_request b event.amount event.batch_id block_batch_id) s.balances
  ok (record s { balances = balances })

unfoldable pub withdraw : State → Withdraw → ℕ → Outcome State
withdraw s event block_batch_id = do
  balances ←
      update_balance (event.user, event.token)
        (λ b. BalanceOps.withdraw b event.amount block_batch_id) s.balances
  ok (record s { balances = balances })

unfoldable pub token_listing : State → TokenListing → Outcome State
token_listing s event = ok (record s { tokens = push s.tokens (event.id, event.token) })

unfoldable pub order_placement : State → OrderPlacement → Outcome State
order_placement s event =
    let order =
      OrderOps.new event.buy_token event.sell_token event.valid_from event.valid_until
        event.price_numerator event.price_denominator in
    elim (lookup (event.owner, event.index) s.orders) [
      | none ↦ ok (record s { orders = insert (event.owner, event.index) order s.orders })
      | some _ ↦ err order_exists
    ]

pub order_cancellation : State → OrderCancellation → ℕ → Outcome State
order_cancellation s event block_batch_id = do
  order ← ok_or (lookup (event.owner, event.id) s.orders) unknown_order
  let cancelled = record order { valid_until = previous_u32 block_batch_id }
  ok (record s { orders = insert (event.owner, event.id) cancelled s.orders })

pub order_deletion : State → OrderDeletion → ℕ → Outcome State
order_deletion s event block_batch_id = elim (lookup (event.owner, event.id) s.orders) [
  | none ↦ ok s
  | some order ↦
      ensure (not (OrderOps.is_valid_in_batch order (previous_u32 block_batch_id)))
        deleting_valid_order
      >> ok (record s { orders = erase (event.owner, event.id) s.orders })
]

unfoldable pub apply_trade_internal :
    State
    → ℕ
    → ℕ
    → (Order → Outcome Order)
    → (Balance → Outcome Balance)
    → (Balance → Outcome Balance)
    → Outcome State
apply_trade_internal s user_id order_id order_fn sell_balance_fn buy_balance_fn = do
  order ← ok_or (lookup (user_id, order_id) s.orders) unknown_order
  order' ← order_fn order
  sell_token ← ok_or (get_address_by_id s.tokens order'.sell_token) unknown_sell_token
  sold ← update_balance (user_id, sell_token) sell_balance_fn s.balances
  buy_token ← ok_or (get_address_by_id s.tokens order'.buy_token) unknown_buy_token
  bought ← update_balance (user_id, buy_token) buy_balance_fn sold
  ok (record s {
    orders = insert (user_id, order_id) order' s.orders;
    balances = bought;
    solution_partially_received = true;
  })

unfoldable pub apply_trade : State → Trade → ℕ → Outcome State
apply_trade s event block_batch_id =
    apply_trade_internal s event.owner event.order_id
      (λ order. OrderOps.trade order event.executed_sell_amount block_batch_id)
      (λ b. BalanceOps.sell b event.executed_sell_amount block_batch_id)
      (λ b. BalanceOps.buy b event.executed_buy_amount block_batch_id)

pub apply_trade_reversion : State → Trade → ℕ → Outcome State
apply_trade_reversion s event block_batch_id =
    apply_trade_internal s event.owner event.order_id
      (λ order. OrderOps.revert_trade order event.executed_sell_amount block_batch_id)
      (λ b. BalanceOps.revert_sell b event.executed_sell_amount block_batch_id)
      (λ b. BalanceOps.revert_buy b event.executed_buy_amount block_batch_id)

-- `Result::unwrap`
abbrev unwrap_result {ℓ} : {A : Type ℓ} → Outcome A → Outcome A
unwrap_result (ok a) = ok a
unwrap_result (err e) = panic
unwrap_result panic = panic

pub revert_last_solution : State → ℕ → ℕ → Outcome State
revert_last_solution s fee_token block_batch_id =
    if s.last_solution.batch_id == block_batch_id
    then (do
      let key : Key = (s.last_solution.user_id, fee_token)
      balance ← unwrap (lookup key s.balances)
      reverted ←
          unwrap_result (
            BalanceOps.revert_solution_submission balance s.last_solution.burnt_fees block_batch_id)
      ok (record s {
        balances = insert key reverted s.balances;
        last_solution = record (s.last_solution) { burnt_fees = 0 };
      }))
    else ok s

pub apply_solution_submission : State → SolutionSubmission → ℕ → Outcome State
apply_solution_submission s event block_batch_id = do
  fee_token ← ok_or (get_address_by_id s.tokens 0) no_fee_token
  s' ← revert_last_solution s fee_token block_batch_id
  balances ←
      update_balance (event.submitter, fee_token)
        (λ b. BalanceOps.solution_submission b event.burnt_fees block_batch_id) s'.balances
  ok (record s' {
    balances = balances;
    last_solution = record {
      batch_id = block_batch_id;
      user_id = event.submitter;
      burnt_fees = event.burnt_fees;
    };
    solution_partially_received = false;
  })

-- The `match` of `apply_event`.
unfoldable pub handle : State → Event → ℕ → Outcome State
handle s (Event.deposit e) batch = deposit s e batch
handle s (Event.withdraw_request e) batch = withdraw_request s e batch
handle s (Event.withdraw e) batch = withdraw s e batch
handle s (Event.token_listing e) batch = token_listing s e
handle s (Event.order_placement e) batch = order_placement s e
handle s (Event.order_cancellation e) batch = order_cancellation s e batch
handle s (Event.order_deletion e) batch = order_deletion s e batch
handle s (Event.trade e) batch = apply_trade s e batch
handle s (Event.trade_reversion e) batch = apply_trade_reversion s e batch
handle s (Event.solution_submission e) batch = apply_solution_submission s e batch

unfoldable pub apply_event : State → Event → ℕ → Outcome State
apply_event s event block_batch_id = do
  ensure (leb s.last_batch_id block_batch_id) event_in_past
  handle (record s { last_batch_id = block_batch_id }) event block_batch_id

-- The `try_fold` of `from_events`, from any state.
unfoldable pub apply_events : State → List (Event × ℕ) → Outcome State
apply_events s [] = ok s
apply_events s ((event, batch_id) ∷ events) =
    apply_event s event batch_id >>= λ s'. apply_events s' events

unfoldable pub from_events : List (Event × ℕ) → Outcome State
from_events = apply_events default_state

-- `State::clear`
pub clear : State → State
clear s = record s { orders = []; balances = []; tokens = [] }
