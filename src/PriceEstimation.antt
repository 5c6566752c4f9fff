-- ===== src/PriceEstimation.antt =====
-- services-core/src/price_estimation: combining the prices of several sources, in
-- average_price_source.rs. A source is what it answers for some tokens, or none where it fails.
pub mod Average
pub mod Priority
pub mod Tests
use dex_services.Prelude.{
  ℕ, ◌+◌, ◌/◌, ◌%◌, ◌^◌, Option, none, some, List, [], ◌∷◌, ◌++◌, filter_map, length, ◌==◌,
  if◌then◌else◌,
}
use dex_services.Assoc.{Key, Assoc, key_eq}
use dex_services.Outcome.{Outcome, ok, panic, ◌>>=◌}

abbrev pub PriceSource : Type 0
PriceSource = List ℕ → Option (Assoc ℕ)

-- `gathered_maps.entry(key).or_default().push(value)`
abbrev pub push : Key → ℕ → Assoc (List ℕ) → Assoc (List ℕ)
push k v [] = (k, v ∷ []) ∷ []
push k v (e ∷ m) = if key_eq k e.0 then (e.0, e.1 ++ (v ∷ [])) ∷ m else e ∷ push k v m

abbrev pub gather : List (Key × ℕ) → Assoc (List ℕ) → Assoc (List ℕ)
gather [] m = m
gather (e ∷ es) m = gather es (push e.0 e.1 m)

abbrev pub flatten : List (Assoc ℕ) → List (Key × ℕ)
flatten [] = []
flatten (m ∷ ms) = m ++ flatten ms

abbrev pub lossless_merge : List (Assoc ℕ) → Assoc (List ℕ)
lossless_merge maps = gather (flatten maps) []

abbrev pub sum : List ℕ → ℕ
sum [] = 0
sum (p ∷ ps) = p + sum ps

-- `NonZeroU128::new` with `expect`.
abbrev pub non_zero : ℕ → Outcome ℕ
non_zero p = if p == 0 then panic else ok p

-- The sum of 128-bit numbers wraps.
abbrev pub average : List ℕ → Outcome ℕ
average prices = non_zero ((sum prices % 2 ^ 128) / length prices)

abbrev pub average_each : Assoc (List ℕ) → Outcome (Assoc ℕ)
average_each [] = ok []
average_each (e ∷ m) = average e.1 >>= λ price. average_each m >>= λ rest. ok ((e.0, price) ∷ rest)

unfoldable pub average_prices : List (Assoc ℕ) → Outcome (Assoc ℕ)
average_prices price_maps = average_each (lossless_merge price_maps)

-- `none` is the error that all sources failed.
abbrev pub average_acquired : List (Assoc ℕ) → Outcome (Option (Assoc ℕ))
average_acquired [] = ok none
average_acquired (m ∷ ms) = average_prices (m ∷ ms) >>= λ prices. ok (some prices)

abbrev pub average_price_sources : List PriceSource → List ℕ → Outcome (Option (Assoc ℕ))
average_price_sources sources tokens =
    average_acquired (filter_map (λ source. source tokens) sources)
