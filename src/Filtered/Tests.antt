-- ===== src/Filtered/Tests.antt =====
-- The theorem on services-core/src/orderbook/filtered_orderbook.rs for a whitelist of two tokens.
use dex_services.Prelude.{ℕ, ◌≡◌, List, [], ◌∷◌, refl, Selects}
use dex_services.Assoc.{Assoc}
use dex_services.Streamed.Order.{ModelOrder}
use dex_services.Streamed.Auction.{canonicalize_auction_data}
use dex_services.Streamed.Auction.Canonical.{IsNeeded}
use dex_services.Filtered.{
  TokenFilter, UserOrderFilter, OrderbookFilter, apply, IsWanted, apply_lem,
}

abbrev two_tokens : OrderbookFilter
two_tokens = record {
  tokens = TokenFilter.whitelist (0 ∷ 1 ∷ []);
  users = (7, UserOrderFilter.all_orders) ∷ (5, UserOrderFilter.order_ids (1 ∷ [])) ∷ [];
}

-- An order of user 5, one that is filtered by its id, the same of user 7, and one for another token.
abbrev wanted : ModelOrder
wanted = record {
  id = 0;
  account_id = 5;
  buy_token = 0;
  sell_token = 1;
  numerator = 5;
  denominator = 10;
  remaining_sell_amount = 10;
  valid_from = 0;
  valid_until = 10;
}

abbrev four_orders : List ModelOrder
four_orders =
    wanted
    ∷ record wanted { id = 1 }
    ∷ record wanted { account_id = 7 }
    ∷ record wanted { buy_token = 2 }
    ∷ []

abbrev balances : Assoc ℕ
balances = ((5, 1), 10) ∷ ((7, 1), 20) ∷ []

one_kept : apply two_tokens balances four_orders ≡ (((5, 1), 10) ∷ [], wanted ∷ [])
unfolding apply canonicalize_auction_data
one_kept = refl

apply_lem_example :
    let (left, kept) = apply two_tokens balances four_orders in
    Selects (IsWanted two_tokens) four_orders kept × IsNeeded balances kept left
apply_lem_example = apply_lem two_tokens balances four_orders
