-- ===== src/Util.antt =====
-- services-core/src/util.rs, `CeiledDiv` and `CheckedConvertU128`, and the arithmetic of `U256`:
-- its operators and `as_u128` panic where the result does not fit.
use dex_services.Prelude.{
  ℕ, ◌+◌, ◌-◌, ◌*◌, ◌/◌, ◌%◌, ◌^◌, Option, none, some, leb, ◌==◌, if◌then◌else◌,
}
use dex_services.Outcome.{Outcome, ok, panic}
use dex_services.Streamed.Order.{u128_max}

-- `ceiled_div` of the integers up to `max`: the checked sum, difference and quotient are unwrapped.
unfoldable pub ceiled_div : ℕ → ℕ → ℕ → Outcome ℕ
ceiled_div max n divisor =
    if leb (n + divisor) max
    then (if n + divisor == 0
        then panic
        else if divisor == 0
        then panic
        else ok ((n + divisor - 1) / divisor))
    else panic

unfoldable pub as_u128_checked : ℕ → Option ℕ
as_u128_checked n = if leb n u128_max then some n else none

-- `U256::as_u128`
unfoldable pub as_u128 : ℕ → Outcome ℕ
as_u128 n = if leb n u128_max then ok n else panic

-- `*` on `U256`.
unfoldable pub mul_u256 : ℕ → ℕ → Outcome ℕ
mul_u256 a b = if leb (a * b) (2 ^ 256 - 1) then ok (a * b) else panic

-- `/`
unfoldable pub div : ℕ → ℕ → Outcome ℕ
div a b = if b == 0 then panic else ok (a / b)

-- `n - 1` on a `u128`, which wraps in a release build.
abbrev pub previous_u128 : ℕ → ℕ
previous_u128 n = (n + 2 ^ 128 - 1) % 2 ^ 128
