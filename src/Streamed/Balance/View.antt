-- ===== src/Streamed/Balance/View.antt =====
-- services-core/src/orderbook/streamed/balance.rs: what each operation does to the balance that
-- is available at the beginning of a later batch.
use dex_services.Prelude.{ℕ, ◌≤◌, ◌<◌, ◌≡◌, refl, arith, ltb, if◌then◌else◌}
use dex_services.Prelude.Int.{ℤ, pos, ◌+ℤ◌, ◌-ℤ◌, int_laws}
use dex_services.Outcome.{ok}
use dex_services.Streamed.Balance.{
  Balance, Flux, amount_and_zero, balance_with_deposit_and_proceeds,
  apply_existing_deposit_and_proceeds, deposit, withdraw, sell_buy_internal,
  revert_sell_buy_internal,
}

-- No deposit and no proceeds are dated after the current batch.
pub record IsCurrent (now : ℕ) (b : Balance) : Type 0 where
  pub deposit_dated : b.deposit.batch_id ≤ now
  pub proceeds_dated : b.proceeds.batch_id ≤ now

view-apply_existing :
    (b : Balance) (now c : ℕ)
    → now ≤ c
    → balance_with_deposit_and_proceeds (apply_existing_deposit_and_proceeds b now) c
      ≡ balance_with_deposit_and_proceeds b c
unfolding balance_with_deposit_and_proceeds apply_existing_deposit_and_proceeds
view-apply_existing b now c h = grind int_laws

pub view-deposit :
    (b : Balance) (a now c : ℕ)
    → IsCurrent now b
    → now < c
    → balance_with_deposit_and_proceeds (deposit b a now) c
      ≡ balance_with_deposit_and_proceeds b c +ℤ pos a
unfolding balance_with_deposit_and_proceeds deposit
view-deposit b a now c v h = grind int_laws

apply_existing-IsCurrent :
    (b : Balance) (now : ℕ)
    → IsCurrent now b
    → IsCurrent now (apply_existing_deposit_and_proceeds b now)
unfolding apply_existing_deposit_and_proceeds
apply_existing-IsCurrent b now v = ground arith

pub deposit-IsCurrent :
    (b : Balance) (a now : ℕ) → IsCurrent now b → IsCurrent now (deposit b a now)
unfolding deposit
deposit-IsCurrent b a now v = ground arith

pub view-deposit_now :
    (b : Balance) (a now : ℕ)
    → balance_with_deposit_and_proceeds (deposit b a now) now
      ≡ balance_with_deposit_and_proceeds b now
unfolding balance_with_deposit_and_proceeds deposit
view-deposit_now b a now = grind int_laws

-- A trade, whichever its sign.
pub sell_buy_lem :
    (b : Balance) (x : ℤ) (now c : ℕ) {b' : Balance}
    → IsCurrent now b
    → now ≤ c
    → sell_buy_internal b x now ≡ ok b'
    → IsCurrent now b'
      × (b'.withdraw ≡ b.withdraw)
      × (b'.proceeds.batch_id ≡ now)
      × (balance_with_deposit_and_proceeds b' c ≡ (
          if ltb now c
          then balance_with_deposit_and_proceeds b c +ℤ x
          else balance_with_deposit_and_proceeds b c))
unfolding balance_with_deposit_and_proceeds sell_buy_internal
sell_buy_lem b x now c v h e = grind int_laws

pub revert_sell_buy_lem :
    (b : Balance) (x : ℤ) (now c : ℕ) {b' : Balance}
    → IsCurrent now b
    → now ≤ c
    → revert_sell_buy_internal b x now ≡ ok b'
    → IsCurrent now b'
      × (b'.withdraw ≡ b.withdraw)
      × (b'.proceeds.batch_id ≡ now)
      × (balance_with_deposit_and_proceeds b' c ≡ (
          if ltb now c
          then balance_with_deposit_and_proceeds b c -ℤ x
          else balance_with_deposit_and_proceeds b c))
unfolding balance_with_deposit_and_proceeds revert_sell_buy_internal
revert_sell_buy_lem b x now c v h e = grind int_laws

view_spend :
    (b : Balance) (w : Flux) (x : ℤ) (c : ℕ)
    → balance_with_deposit_and_proceeds (record b { balance = b.balance -ℤ x; withdraw = w }) c
      ≡ balance_with_deposit_and_proceeds b c -ℤ x
unfolding balance_with_deposit_and_proceeds
view_spend b w x c = grind int_laws

-- The request plays no part in what is available before it is subtracted.
apply_existing_request :
    (b : Balance) (w : Flux) (now : ℕ)
    → apply_existing_deposit_and_proceeds (record b { withdraw = w }) now
      ≡ record (apply_existing_deposit_and_proceeds b now) { withdraw = w }
unfolding apply_existing_deposit_and_proceeds
apply_existing_request b w now = refl

pub withdraw_lem :
    (b : Balance) (a now c : ℕ) {b' : Balance}
    → IsCurrent now b
    → now ≤ c
    → withdraw b a now ≡ ok b'
    → IsCurrent now b'
      × (b'.withdraw ≡ (
          if ltb b.withdraw.batch_id now
          then record (b.withdraw) { amount = pos 0 }
          else b.withdraw))
      × (balance_with_deposit_and_proceeds b' c ≡ balance_with_deposit_and_proceeds b c -ℤ pos a)
unfolding withdraw
withdraw_lem b a now c v h e =
    let w = (amount_and_zero b.withdraw now).1 in
    ground (
      arith,
      apply_existing_request b w now,
      apply_existing-IsCurrent b now v,
      view-apply_existing b now c h,
      view_spend (apply_existing_deposit_and_proceeds b now) w (pos a) c,
    )

-- A trade on a current balance is never refused.
pub sell_buy-succeeds :
    (b : Balance) (x : ℤ) (now : ℕ)
    → IsCurrent now b
    → (b' : Balance) × (sell_buy_internal b x now ≡ ok b')
unfolding sell_buy_internal
sell_buy-succeeds b x now v =
    let b' = apply_existing_deposit_and_proceeds b now in
    (
      record b' { proceeds = record { batch_id = now; amount = b'.proceeds.amount +ℤ x } },
      ground arith,
    )

-- A reversion is accepted in the batch of the latest trade.
pub revert_sell_buy-succeeds :
    (b : Balance) (x : ℤ) (now : ℕ)
    → b.proceeds.batch_id ≡ now
    → (b' : Balance) × (revert_sell_buy_internal b x now ≡ ok b')
unfolding revert_sell_buy_internal
revert_sell_buy-succeeds b x now h =
    (record b { proceeds = record (b.proceeds) { amount = b.proceeds.amount -ℤ x } }, ground arith)
