-- ===== src/Streamed/Balance.antt =====
-- services-core/src/orderbook/streamed/balance.rs: a user's balance of one token. Amounts are
-- `BigInt`, so ℤ; a batch id is a `u32`, so ℕ. A method takes the balance first and returns it
-- changed; after an error the caller drops the whole state, so an error carries no balance.
pub mod View
pub mod Ledger
use dex_services.Prelude.{ℕ, Option, none, some, ◌||◌, ltb, leb, ◌==◌, if◌then◌else◌}
use dex_services.Prelude.Int.{ℤ, pos, ◌+ℤ◌, ◌-ℤ◌, negate, ltb_ℤ, leb_ℤ, is_zero_ℤ}
use dex_services.Outcome.{
  Outcome, ok, ◌>>◌, ensure, request_not_cleared, withdraw_mismatch, trade_in_past, no_such_trade,
}

-- A change in balance starting at some batch id.
pub record Flux : Type 0 where
  pub batch_id : ℕ
  pub amount : ℤ

pub record Balance : Type 0 where
  pub balance : ℤ
  pub deposit : Flux
  pub withdraw : Flux
  pub proceeds : Flux

abbrev pub default_flux : Flux
default_flux = record { batch_id = 0; amount = pos 0 }

abbrev pub default_balance : Balance
default_balance = record {
  balance = pos 0;
  deposit = default_flux;
  withdraw = default_flux;
  proceeds = default_flux;
}

-- `Flux::amount`
abbrev flux_amount : Flux → ℕ → Option ℤ
flux_amount f batch_id = if ltb f.batch_id batch_id then some f.amount else none

-- `Flux::amount_and_zero`: the returned amount and the changed flux.
abbrev pub amount_and_zero : Flux → ℕ → ℤ × Flux
amount_and_zero f batch_id =
    if ltb f.batch_id batch_id then (f.amount, record f { amount = pos 0 }) else (pos 0, f)

unfoldable pub balance_with_deposit_and_proceeds : Balance → ℕ → ℤ
balance_with_deposit_and_proceeds b current =
    let result : ℤ = elim (flux_amount b.deposit current) [
      | none ↦ b.balance
      | some d ↦ b.balance +ℤ d
    ] in
    elim (flux_amount b.proceeds current) [ none ↦ result | some p ↦ result +ℤ p ]

unfoldable pub apply_existing_deposit_and_proceeds : Balance → ℕ → Balance
apply_existing_deposit_and_proceeds b current =
    let (d, deposit') = amount_and_zero b.deposit current in
    let (p, proceeds') = amount_and_zero b.proceeds current in
    record b { balance = b.balance +ℤ d +ℤ p; deposit = deposit'; proceeds = proceeds' }

-- `Balance::deposit`
unfoldable pub deposit : Balance → ℕ → ℕ → Balance
unfolding apply_existing_deposit_and_proceeds
deposit b amount batch_id =
    let b' = apply_existing_deposit_and_proceeds b batch_id in
    record b' { deposit = record { batch_id = batch_id; amount = b'.deposit.amount +ℤ pos amount } }

-- `Balance::withdraw_request`
unfoldable pub withdraw_request : Balance → ℕ → ℕ → ℕ → Outcome Balance
withdraw_request b amount batch_id current_batch_id = do
  ensure (leb current_batch_id b.withdraw.batch_id || is_zero_ℤ b.withdraw.amount)
      request_not_cleared
  ok (record b { withdraw = record { batch_id = batch_id; amount = pos amount } })

-- `Balance::withdraw`
unfoldable pub withdraw : Balance → ℕ → ℕ → Outcome Balance
withdraw b amount batch_id = do
  let request = amount_and_zero b.withdraw batch_id
  ensure (leb_ℤ (pos amount) request.0) withdraw_mismatch
  let b' = apply_existing_deposit_and_proceeds (record b { withdraw = request.1 }) batch_id
  ok (record b' { balance = b'.balance -ℤ pos amount })

unfoldable pub get_balance_at_beginning_of_batch : Balance → ℕ → ℤ
unfolding balance_with_deposit_and_proceeds
get_balance_at_beginning_of_batch b batch_id =
    let balance = balance_with_deposit_and_proceeds b batch_id in
    elim (flux_amount b.withdraw batch_id) [
      | none ↦ balance
      | some amount ↦ if ltb_ℤ amount balance then balance -ℤ amount else pos 0
    ]

-- Adds the amount to the proceeds.
unfoldable pub sell_buy_internal : Balance → ℤ → ℕ → Outcome Balance
unfolding apply_existing_deposit_and_proceeds
sell_buy_internal b amount batch_id = do
  ensure (leb b.proceeds.batch_id batch_id) trade_in_past
  let b' = apply_existing_deposit_and_proceeds b batch_id
  ok (record b' {
    proceeds = record { batch_id = batch_id; amount = b'.proceeds.amount +ℤ amount };
  })

-- Subtracts the amount from the proceeds.
unfoldable pub revert_sell_buy_internal : Balance → ℤ → ℕ → Outcome Balance
revert_sell_buy_internal b amount batch_id = do
  ensure (b.proceeds.batch_id == batch_id) no_such_trade
  ok (record b { proceeds = record (b.proceeds) { amount = b.proceeds.amount -ℤ amount } })

abbrev pub sell : Balance → ℕ → ℕ → Outcome Balance
sell b amount batch_id = sell_buy_internal b (negate (pos amount)) batch_id

abbrev pub buy : Balance → ℕ → ℕ → Outcome Balance
buy b amount batch_id = sell_buy_internal b (pos amount) batch_id

abbrev pub revert_sell : Balance → ℕ → ℕ → Outcome Balance
revert_sell b amount batch_id = revert_sell_buy_internal b (negate (pos amount)) batch_id

abbrev pub revert_buy : Balance → ℕ → ℕ → Outcome Balance
revert_buy b amount batch_id = revert_sell_buy_internal b (pos amount) batch_id

-- Reuses the proceeds: the burnt fees of a solution are credited like a purchase.
abbrev pub solution_submission : Balance → ℕ → ℕ → Outcome Balance
solution_submission b fee batch_id = sell_buy_internal b (pos fee) batch_id

abbrev pub revert_solution_submission : Balance → ℕ → ℕ → Outcome Balance
revert_solution_submission b fee batch_id = revert_sell_buy_internal b (pos fee) batch_id
