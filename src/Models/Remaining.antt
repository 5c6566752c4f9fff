-- ===== src/Models/Remaining.antt =====
-- services-core/src/models/order.rs: the amounts that are left of an order which is filled in part.
use dex_services.Prelude.{ℕ, ◌-◌, ◌*◌, ◌^◌, ltb, leb, if◌then◌else◌}
use dex_services.Outcome.{Outcome, ok, panic, ◌>>=◌}
use dex_services.Util.{ceiled_div, as_u128}

-- The product of two `u128` fits a `U256`.
unfoldable pub compute_remaining_buy_sell_amounts : ℕ → ℕ → ℕ → Outcome (ℕ × ℕ)
compute_remaining_buy_sell_amounts numerator denominator remaining =
    if leb remaining denominator
    then (if ltb 0 denominator
        then (ceiled_div (2 ^ 256 - 1) (remaining * numerator) denominator
            >>= as_u128
            >>= λ buy_amount. ok (buy_amount, remaining))
        else ok (0, remaining))
    else panic
