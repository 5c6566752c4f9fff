-- ===== src/Streamed/Auction/Canonical.antt =====
-- services-core/src/orderbook/util.rs: which orders and which balances the canonical auction keeps,
-- in both directions.
use mathlib.Core.List.{Memᴰ}
use dex_services.Prelude.{
  ℕ, ◌<◌, ◌≡◌, ◌↔◌, refl, true, false, some, none, List, arith, ltb, ◌==◌, ◌&&◌, Selects,
  filter-Selects, mem-any, Bool, if◌then◌else◌, Option,
}
use dex_services.Assoc.{Key, Assoc, lookup}
use dex_services.Streamed.Order.{ModelOrder}
use dex_services.Streamed.Auction.{sells, canonicalize_auction_data}
use dex_services.Streamed.Auction.Offer.{find_last, canonicalize_lem}

-- The user of the key sells its token in one of the orders.
abbrev pub IsSoldIn : List ModelOrder → Key → Type 0
IsSoldIn os j = (o : ModelOrder) × Memᴰ o os × (o.account_id ≡ j.0) × (o.sell_token ≡ j.1)

-- Of the accounts, the balances are the last ones of the keys that are sold in the orders.
abbrev pub IsNeeded : List (Key × ℕ) → List ModelOrder → Assoc ℕ → Type 0
IsNeeded accounts os balances =
    (j : Key) (v : ℕ)
    → (lookup j balances ≡ some v) ↔ ((find_last j accounts none ≡ some v) × IsSoldIn os j)

seller_lem :
    (o : ModelOrder) (j : Key)
    → ((o.account_id == j.0 && o.sell_token == j.1) ≡ true)
      ↔ ((o.account_id ≡ j.0) × (o.sell_token ≡ j.1))
seller_lem o j = (λ h. (ground arith, ground arith), λ h. ground arith)

sells-IsSoldIn : (os : List ModelOrder) (j : Key) → (sells os j ≡ true) ↔ IsSoldIn os j
sells-IsSoldIn os j =
    let found = mem-any (λ o. o.account_id == j.0 && o.sell_token == j.1) os in
    (
      λ h.
          let (o, is, e) = found.0 h in
          let (user, token) = (seller_lem o j).0 e in (o, is, user, token),
      λ h. let (o, is, user, token) = h in found.1 (o, is, (seller_lem o j).1 (user, token)),
    )

some_if :
    (b : Bool) (o p : Option ℕ) (v : ℕ)
    → p ≡ (if b then o else none)
    → (p ≡ some v) ↔ ((o ≡ some v) × (b ≡ true))
some_if true o p v e = (λ h. (cc, refl), λ h. let found = h.0 in cc)
some_if false o p v e = (λ h. cc, λ h. let absurd = h.1 in cc)

pub canonicalize-IsNeeded :
    (accounts : List (Key × ℕ)) (os : List ModelOrder)
    → let (balances, kept) = canonicalize_auction_data accounts os in
      IsNeeded accounts kept balances
canonicalize-IsNeeded accounts os j v =
    let (balances, kept) = canonicalize_auction_data accounts os in
    let test =
      some_if (sells kept j) (find_last j accounts none) (lookup j balances) v
        ((canonicalize_lem accounts os).1 j) in
    let sold = sells-IsSoldIn kept j in
    (λ h. let (o, e) = test.0 h in (o, sold.0 e), λ h. test.1 (h.0, sold.1 h.1))

-- The canonical auction keeps exactly the orders that still sell something, in their order, and of
-- the balances exactly the last ones of a token that the same user sells in one of these orders.
pub canonicalize_auction_data_lem :
    (accounts : List (Key × ℕ)) (os : List ModelOrder)
    → let (balances, kept) = canonicalize_auction_data accounts os in
      Selects (λ o. 0 < o.remaining_sell_amount) os kept × IsNeeded accounts kept balances
unfolding canonicalize_auction_data
canonicalize_auction_data_lem accounts os = (
  filter-Selects (λ o. ltb 0 o.remaining_sell_amount) (λ o. 0 < o.remaining_sell_amount)
      (λ o. (λ h. ground arith, λ h. ground arith)) os,
  canonicalize-IsNeeded accounts os,
)
