-- ===== src/PriceEstimation/Tests.antt =====
-- services-core/src/price_estimation: the theorems at concrete prices.
use dex_services.Prelude.{ℕ, ◌^◌, ◌<◌, ◌≡◌, refl, none, some, List, [], ◌∷◌, arith}
use dex_services.Assoc.{Key, Assoc, lookup}
use dex_services.Outcome.{ok, panic}
use dex_services.PriceEstimation.{flatten, sum, average_prices, average_price_sources}
use dex_services.PriceEstimation.Average.{values, mean, average_prices_lem, average_prices-wrapped}
use dex_services.TokenInfo.{key}
use dex_services.PriceEstimation.{PriceSource}
use dex_services.PriceEstimation.Priority.{get_prices}

-- Two sources; only the second has a price for token 2.
abbrev maps : List (Assoc ℕ)
maps = (((0, 1), 10) ∷ []) ∷ (((0, 1), 21) ∷ ((0, 2), 7) ∷ []) ∷ []

averaged : average_prices maps ≡ ok (((0, 1), 15) ∷ ((0, 2), 7) ∷ [])
unfolding average_prices
averaged = refl

-- A source that fails does not count.
one_failed :
    average_price_sources ((λ tokens. none) ∷ (λ tokens. some (((0, 1), 10) ∷ [])) ∷ []) (1 ∷ [])
    ≡ ok (some (((0, 1), 10) ∷ []))
unfolding average_prices
one_failed = refl

maps_fit : (k : Key) → sum (values k (flatten maps)) < 2 ^ 128
maps_fit k = ground arith

average_prices_lem_example :
    (r : Assoc ℕ) × (average_prices maps ≡ ok r)
    × ((k : Key) → lookup k r ≡ mean (values k (flatten maps)))
average_prices_lem_example =
    average_prices_lem maps (omega arith, (omega arith, (omega arith, tt))) maps_fit

average_prices-wrapped_example :
    average_prices ((((0, 1), 2 ^ 127) ∷ []) ∷ (((0, 1), 2 ^ 127) ∷ []) ∷ []) ≡ panic
average_prices-wrapped_example =
    average_prices-wrapped (0, 1) (2 ^ 127) (2 ^ 127) (omega arith) (omega arith)

-- A source that has a price for the first token it is asked for, and one that fails.
abbrev first_only : ℕ → PriceSource
first_only price [] = some []
first_only price (t ∷ ts) = some ((key t, price) ∷ [])

abbrev failing : PriceSource
failing tokens = none

abbrev in_order : List PriceSource
in_order = first_only 5 ∷ failing ∷ first_only 7 ∷ first_only 9 ∷ []

prices_in_order : get_prices in_order (1 ∷ 2 ∷ []) ≡ ((0, 1), 5) ∷ ((0, 2), 7) ∷ []
unfolding get_prices
prices_in_order = refl
