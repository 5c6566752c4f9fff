-- ===== src/PriceEstimation/Priority.antt =====
-- services-core/src/price_estimation/priority_price_source.rs: the sources are asked in order,
-- each for the tokens that still have no price.
use mathlib.Core.List.{Memᴰ}
use dex_services.Prelude.{ℕ, ◌≡◌, true, false, Bool, not, Option, none, some, List, [], ◌∷◌, filter}
use dex_services.Assoc.{Assoc, lookup, insert}
use dex_services.TokenInfo.{key}
use dex_services.PriceEstimation.{PriceSource}

-- `HashMap::extend`, for keys that are distinct.
abbrev pub extend : Assoc ℕ → Assoc ℕ → Assoc ℕ
extend result [] = result
extend result (e ∷ partial) = insert e.0 e.1 (extend result partial)

abbrev pub is_some : Option ℕ → Bool
is_some none = false
is_some (some p) = true

abbrev pub retain_unpriced : Option (Assoc ℕ) → List ℕ → List ℕ
retain_unpriced none remaining = remaining
retain_unpriced (some partial) remaining =
    filter (λ t. not (is_some (lookup (key t) partial))) remaining

abbrev pub extend_if_priced : Option (Assoc ℕ) → Assoc ℕ → Assoc ℕ
extend_if_priced none result = result
extend_if_priced (some partial) result = extend result partial

abbrev pub unless_empty : List ℕ → Assoc ℕ → Assoc ℕ → Assoc ℕ
unless_empty [] result rest = result
unless_empty (t ∷ ts) result rest = rest

-- The loop over the sources, which ends early once no token remains.
abbrev pub ask_each : List PriceSource → List ℕ → Assoc ℕ → Assoc ℕ
ask_each [] remaining result = result
ask_each (source ∷ sources) remaining result =
    let answer = source remaining in
    let left = retain_unpriced answer remaining in
    let found = extend_if_priced answer result in
    unless_empty left found (ask_each sources left found)

unfoldable pub get_prices : List PriceSource → List ℕ → Assoc ℕ
get_prices sources tokens = ask_each sources tokens []

-- The first source that answers with a price for the token gives it; each is asked for the tokens
-- that the earlier ones left.
pub data IsFirst : List PriceSource → List ℕ → ℕ → ℕ → Type 0 where
  here :
      (source : PriceSource) (sources : List PriceSource) (remaining : List ℕ) (partial : Assoc ℕ)
      (t p : ℕ)
      → source remaining ≡ some partial
      → lookup (key t) partial ≡ some p
      → IsFirst (source ∷ sources) remaining t p
  later :
      (source : PriceSource) (sources : List PriceSource) (remaining : List ℕ) (t p : ℕ)
      → ((partial : Assoc ℕ) → source remaining ≡ some partial → lookup (key t) partial ≡ none)
      → IsFirst sources (retain_unpriced (source remaining) remaining) t p
      → IsFirst (source ∷ sources) remaining t p

-- A source answers with prices for tokens that it was asked for only.
abbrev pub AnswersAsked : PriceSource → Type 0
AnswersAsked source =
    (remaining : List ℕ) (partial : Assoc ℕ) (t p : ℕ)
    → source remaining ≡ some partial
    → lookup (key t) partial ≡ some p
    → Memᴰ t remaining

or_else : Option ℕ → Option ℕ → Option ℕ
or_else none o = o
or_else (some p) o = some p
