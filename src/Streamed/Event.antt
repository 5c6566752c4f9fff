-- ===== src/Streamed/Event.antt =====
-- The events of the exchange contract that services-core/src/orderbook/streamed/state.rs handles.
-- The event types are generated from the contract's ABI; each record has the fields that the
-- handlers read. Addresses and amounts are ℕ.
use dex_services.Prelude.{ℕ}

pub record Deposit : Type 0 where
  pub user : ℕ
  pub token : ℕ
  pub amount : ℕ
  pub batch_id : ℕ

pub record WithdrawRequest : Type 0 where
  pub user : ℕ
  pub token : ℕ
  pub amount : ℕ
  pub batch_id : ℕ

pub record Withdraw : Type 0 where
  pub user : ℕ
  pub token : ℕ
  pub amount : ℕ

pub record TokenListing : Type 0 where
  pub token : ℕ
  pub id : ℕ

pub record OrderPlacement : Type 0 where
  pub owner : ℕ
  pub index : ℕ
  pub buy_token : ℕ
  pub sell_token : ℕ
  pub valid_from : ℕ
  pub valid_until : ℕ
  pub price_numerator : ℕ
  pub price_denominator : ℕ

pub record OrderCancellation : Type 0 where
  pub owner : ℕ
  pub id : ℕ

pub record OrderDeletion : Type 0 where
  pub owner : ℕ
  pub id : ℕ

-- The fields of a `Trade` and of a `TradeReversion`.
pub record Trade : Type 0 where
  pub owner : ℕ
  pub order_id : ℕ
  pub executed_sell_amount : ℕ
  pub executed_buy_amount : ℕ

pub record SolutionSubmission : Type 0 where
  pub submitter : ℕ
  pub burnt_fees : ℕ

pub data Event : Type 0 where
  deposit : Deposit → Event
  withdraw_request : WithdrawRequest → Event
  withdraw : Withdraw → Event
  token_listing : TokenListing → Event
  order_placement : OrderPlacement → Event
  order_cancellation : OrderCancellation → Event
  order_deletion : OrderDeletion → Event
  trade : Trade → Event
  trade_reversion : Trade → Event
  solution_submission : SolutionSubmission → Event
