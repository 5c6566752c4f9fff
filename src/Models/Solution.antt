-- ===== src/Models/Solution.antt =====
-- services-core/src/models/solution.rs and services-core/src/models/account_state.rs. The prices
-- are a map from token ids, as a list without repeated tokens.
use dex_services.Prelude.{
  ℕ, ◌≡◌, refl, Bool, Option, none, some, List, [], ◌∷◌, ltb, ◌==◌, if◌then◌else◌, any, arith,
}
use dex_services.Assoc.{Assoc, lookup}

pub record ExecutedOrder : Type 0 where
  pub account_id : ℕ
  pub order_id : ℕ
  pub sell_amount : ℕ
  pub buy_amount : ℕ

abbrev pub PriceMap : Type 0
PriceMap = List (ℕ × ℕ)

abbrev pub get_price : ℕ → PriceMap → Option ℕ
get_price t [] = none
get_price t (p ∷ ps) = if t == p.0 then some p.1 else get_price t ps

abbrev pub insert_price : ℕ → ℕ → PriceMap → PriceMap
insert_price t v [] = (t, v) ∷ []
insert_price t v (p ∷ ps) = if t == p.0 then (t, v) ∷ ps else p ∷ insert_price t v ps

pub record Solution : Type 0 where
  pub prices : PriceMap
  pub executed_orders : List ExecutedOrder

abbrev pub trivial : Solution
trivial = record { prices = []; executed_orders = [] }

unfoldable pub is_non_trivial : Solution → Bool
is_non_trivial s = any (λ o. ltb 0 o.sell_amount) s.executed_orders

-- `AccountState::read_balance`; an entry is keyed by its user and its token.
unfoldable pub read_balance : Assoc ℕ → ℕ → ℕ → ℕ
read_balance state token_id account_id = elim (lookup (account_id, token_id) state) [
  | none ↦ 0
  | some n ↦ n
]

get_price-insert_price :
    (t u v : ℕ) (ps : PriceMap)
    → get_price t (insert_price u v ps) ≡ (if t == u then some v else get_price t ps)
get_price-insert_price t u v [] = refl
get_price-insert_price t u v (p ∷ ps) = ground (arith, get_price-insert_price t u v ps)
