-- ===== src/Filtered.antt =====
-- services-core/src/orderbook/filtered_orderbook.rs: the orders of unwanted tokens and users are
-- left out of an auction. Sets are lists.
pub mod Tests
use mathlib.Core.Path.{subst}
use mathlib.Core.List.{Memᴰ}
use dex_services.Prelude.{
  ℕ, ◌<◌, ◌≡◌, ◌↔◌, refl, sym, ◌∙◌, Bool, true, false, not, ◌&&◌, Option, none, some, List, [], ◌∷◌,
  ltb, ◌==◌, if◌then◌else◌, filter, any, arith, Bool-cases, inl, inr, All, Selects, filter-Selects,
  mem-any, not-decides, and-decides,
}
use dex_services.Assoc.{Assoc}
use dex_services.Streamed.Order.{ModelOrder}
use dex_services.Streamed.Auction.{canonicalize_auction_data}
use dex_services.Streamed.Auction.Canonical.{IsNeeded, canonicalize-IsNeeded}

pub data TokenFilter : Type 0 where
  whitelist blacklist : List ℕ → TokenFilter

pub data UserOrderFilter : Type 0 where
  all_orders : UserOrderFilter
  order_ids : List ℕ → UserOrderFilter

pub record OrderbookFilter : Type 0 where
  pub tokens : TokenFilter
  pub users : List (ℕ × UserOrderFilter)

abbrev contains : List ℕ → ℕ → Bool
contains ts t = any (λ u. t == u) ts

-- `HashMap::get`
abbrev get_user : List (ℕ × UserOrderFilter) → ℕ → Option UserOrderFilter
get_user [] u = none
get_user (e ∷ es) u = if u == e.0 then some e.1 else get_user es u

-- The first filter of `apply`.
abbrev filter_tokens : TokenFilter → List ModelOrder → List ModelOrder
filter_tokens (TokenFilter.whitelist ts) os =
    filter (λ o. contains ts o.buy_token && contains ts o.sell_token) os
filter_tokens (TokenFilter.blacklist ts) os =
    filter (λ o. not (contains ts o.buy_token) && not (contains ts o.sell_token)) os

-- The closure of the second.
abbrev passes_user : Option UserOrderFilter → ModelOrder → Bool
passes_user none o = true
passes_user (some UserOrderFilter.all_orders) o = false
passes_user (some (UserOrderFilter.order_ids ids)) o = not (contains ids o.id)

-- `OrderbookFilter::apply`
unfoldable pub apply : OrderbookFilter → Assoc ℕ → List ModelOrder → Assoc ℕ × List ModelOrder
apply f state os =
    canonicalize_auction_data state
      (filter (λ o. passes_user (get_user f.users o.account_id) o) (filter_tokens f.tokens os))

-- The token may be traded.
abbrev IsAllowed : TokenFilter → ℕ → Type 0
IsAllowed (TokenFilter.whitelist ts) t = Memᴰ t ts
IsAllowed (TokenFilter.blacklist ts) t = ¬ Memᴰ t ts

-- The filter of the order's user, if there is one, spares the order.
abbrev IsSpared : Option UserOrderFilter → ModelOrder → Type 0
IsSpared none o = Unit
IsSpared (some UserOrderFilter.all_orders) o = ⊥
IsSpared (some (UserOrderFilter.order_ids ids)) o = ¬ Memᴰ o.id ids

-- Both tokens may be traded, the user's filter spares the order, and it still sells something.
abbrev pub IsWanted : OrderbookFilter → ModelOrder → Type 0
IsWanted f o =
    IsAllowed f.tokens o.buy_token
    × IsAllowed f.tokens o.sell_token
    × IsSpared (get_user f.users o.account_id) o
    × (0 < o.remaining_sell_amount)

contains_lem : (ts : List ℕ) (t : ℕ) → (contains ts t ≡ true) ↔ Memᴰ t ts
contains_lem ts t =
    let found = mem-any (λ u. t == u) ts in
    (
      λ h. let (u, is, e) = found.0 h in let same : t ≡ u = ground arith in rw same is,
      λ is. found.1 (t, is, ground arith),
    )

-- Whether a token may be traded.
abbrev is_allowed : TokenFilter → ℕ → Bool
is_allowed (TokenFilter.whitelist ts) t = contains ts t
is_allowed (TokenFilter.blacklist ts) t = not (contains ts t)

-- Whether the filter lets an order through that still sells something.
abbrev is_wanted : OrderbookFilter → ModelOrder → Bool
is_wanted f o =
    is_allowed f.tokens o.buy_token
    && is_allowed f.tokens o.sell_token
    && passes_user (get_user f.users o.account_id) o
    && ltb 0 o.remaining_sell_amount

filter_tokens_lem :
    (f : TokenFilter) (os : List ModelOrder)
    → filter_tokens f os ≡ filter (λ o. is_allowed f o.buy_token && is_allowed f o.sell_token) os
filter_tokens_lem (TokenFilter.whitelist ts) os = refl
filter_tokens_lem (TokenFilter.blacklist ts) os = refl

filter-filter-filter :
    (p q r : ModelOrder → Bool) (os : List ModelOrder)
    → filter r (filter q (filter p os)) ≡ filter (λ o. p o && q o && r o) os
filter-filter-filter p q r [] = refl
filter-filter-filter p q r (o ∷ os) = ground (arith, filter-filter-filter p q r os)

canonicalize-kept :
    (state : Assoc ℕ) (os : List ModelOrder)
    → (canonicalize_auction_data state os).1 ≡ filter (λ o. ltb 0 o.remaining_sell_amount) os
unfolding canonicalize_auction_data
canonicalize-kept state os = refl

named_lem :
    (f : OrderbookFilter) (os : List ModelOrder)
    → filter
        (λ o. ltb 0 o.remaining_sell_amount)
        (filter (λ o. passes_user (get_user f.users o.account_id) o) (filter_tokens f.tokens os))
      ≡ filter (is_wanted f) os
named_lem f os = rw (filter_tokens_lem f.tokens os) (
    filter-filter-filter (λ o. is_allowed f.tokens o.buy_token && is_allowed f.tokens o.sell_token)
      (λ o. passes_user (get_user f.users o.account_id) o) (λ o. ltb 0 o.remaining_sell_amount) os)

contains-decides : (f : TokenFilter) (t : ℕ) → (is_allowed f t ≡ true) ↔ IsAllowed f t
contains-decides (TokenFilter.whitelist ts) t = contains_lem ts t
contains-decides (TokenFilter.blacklist ts) t = not-decides (contains ts t) _ (contains_lem ts t)

passes_user-decides :
    (u : Option UserOrderFilter) (o : ModelOrder) → (passes_user u o ≡ true) ↔ IsSpared u o
passes_user-decides none o = (λ e. tt, λ h. refl)
passes_user-decides (some UserOrderFilter.all_orders) o = (λ e. cc, λ h. elim h [ ])
passes_user-decides (some (UserOrderFilter.order_ids ids)) o =
    not-decides (contains ids o.id) _ (contains_lem ids o.id)

is_wanted-decides : (f : OrderbookFilter) (o : ModelOrder) → (is_wanted f o ≡ true) ↔ IsWanted f o
is_wanted-decides f o =
    let user = get_user f.users o.account_id in
    let positive : (ltb 0 o.remaining_sell_amount ≡ true) ↔ (0 < o.remaining_sell_amount) =
      (λ h. ground arith, λ h. ground arith) in
    let allowed =
      and-decides (is_allowed f.tokens o.buy_token) (is_allowed f.tokens o.sell_token) _ _
        (contains-decides f.tokens o.buy_token) (contains-decides f.tokens o.sell_token) in
    let spared = and-decides _ (passes_user user o) _ _ allowed (passes_user-decides user o) in
    let wanted = and-decides _ (ltb 0 o.remaining_sell_amount) _ _ spared positive in
    (
      λ e. let (((buy, sell), spares), left) = wanted.0 e in (buy, sell, spares, left),
      λ h. let (buy, sell, spares, left) = h in wanted.1 (((buy, sell), spares), left),
    )

-- The filter keeps exactly the orders of which both tokens may be traded, that their user's filter
-- spares and that still sell something, in their order; and of the balances exactly the last ones
-- of a token that the same user sells in one of the kept orders.
pub apply_lem :
    (f : OrderbookFilter) (state : Assoc ℕ) (os : List ModelOrder)
    → let (balances, kept) = apply f state os in
      Selects (IsWanted f) os kept × IsNeeded state kept balances
unfolding apply
apply_lem f state os =
    let named =
      filter (λ o. passes_user (get_user f.users o.account_id) o) (filter_tokens f.tokens os) in
    let kept : (canonicalize_auction_data state named).1 ≡ filter (is_wanted f) os =
      canonicalize-kept state named ∙ named_lem f os in
    (
      subst (Selects (IsWanted f) os) (sym kept)
          (filter-Selects (is_wanted f) (IsWanted f) (is_wanted-decides f) os),
      canonicalize-IsNeeded state named,
    )
