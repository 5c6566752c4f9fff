-- ===== src/Streamed/Auction.antt =====
-- services-core/src/orderbook/streamed/state.rs, the queries, with
-- services-core/src/orderbook/util.rs and services-core/src/bigint_u256.rs: the auction that a
-- state offers for a batch. The iterators of the source are evaluated at once.
pub mod Offer
pub mod Canonical
use dex_services.Prelude.{
  ℕ, ◌-◌, ◌^◌, Bool, not, ◌&&◌, Option, none, some, List, [], ◌∷◌, ltb, leb, ◌==◌, if◌then◌else◌,
  filter, any, filter_map,
}
use dex_services.Prelude.Int.{ℤ, pos, negsuc}
use dex_services.Outcome.{Outcome, ok, ◌>>=◌, ◌>>◌, ensure, batch_in_past, partial_solution}
use dex_services.Assoc.{Key, Assoc, insert}
use dex_services.Streamed.Balance.{Balance, get_balance_at_beginning_of_batch}
use dex_services.Streamed.Order.{Order, ModelOrder, is_valid_in_batch, as_model_order}
use dex_services.Streamed.Tokens.{Tokens, get_id_by_address}
use dex_services.Streamed.State.{State, previous_u32}

-- `U256::MAX`
abbrev pub u256_max : ℕ
u256_max = 2 ^ 256 - 1

-- None if U256 cannot represent the number.
abbrev bigint_to_u256 : ℤ → Option ℕ
bigint_to_u256 (pos n) = if leb n u256_max then some n else none
bigint_to_u256 (negsuc n) = none

-- The closure of `account_state`: both `?` skip the entry.
account_entry : Tokens → ℕ → Key × Balance → Option (Key × ℕ)
account_entry tokens batch_id ((user, address), balance) = elim (get_id_by_address tokens address) [
  | none ↦ none
  | some token_id ↦ elim (bigint_to_u256 (get_balance_at_beginning_of_batch balance batch_id)) [
    | none ↦ none
    | some amount ↦ some ((user, token_id), amount)
  ]
]

pub account_state : State → ℕ → List (Key × ℕ)
unfolding account_entry
account_state s batch_id = filter_map (account_entry s.tokens batch_id) s.balances

-- The `map` of `orders`; a panic in one element is a panic of the whole.
pub model_orders : ℕ → Assoc Order → Outcome (List ModelOrder)
model_orders batch_id [] = ok []
model_orders batch_id (((user, id), order) ∷ os) = do
  o ← as_model_order order batch_id user id
  rest ← model_orders batch_id os
  ok (o ∷ rest)

-- The orders are valid in the batch before the requested one.
pub orders : State → ℕ → Outcome (List ModelOrder)
unfolding model_orders
orders s batch_id =
    model_orders batch_id (filter (λ e. is_valid_in_batch e.1 (previous_u32 batch_id)) s.orders)

pub orderbook_at_beginning_of_batch : State → ℕ → Outcome (List (Key × ℕ) × List ModelOrder)
unfolding account_state orders
orderbook_at_beginning_of_batch s batch_id = do
  ensure (leb s.last_batch_id batch_id) batch_in_past
  ensure (not s.solution_partially_received) partial_solution
  os ← orders s batch_id
  ok (account_state s batch_id, os)

-- `collect` into a HashMap: a later entry replaces an earlier one with its key.
pub collect : List (Key × ℕ) → Assoc ℕ → Assoc ℕ
collect [] m = m
collect ((k, v) ∷ es) m = collect es (insert k v m)

-- The account sells the token in one of the orders.
abbrev pub sells : List ModelOrder → Key → Bool
sells os (user, token) = any (λ o. o.account_id == user && o.sell_token == token) os

-- services-core/src/orderbook/util.rs
unfoldable pub canonicalize_auction_data :
    List (Key × ℕ) → List ModelOrder → Assoc ℕ × List ModelOrder
unfolding collect
canonicalize_auction_data account_states os =
    let kept = filter (λ o. ltb 0 o.remaining_sell_amount) os in
    (collect (filter (λ e. sells kept e.0) account_states) [], kept)

unfoldable pub canonicalized_auction_state_at_beginning_of_batch :
    State → ℕ → Outcome (Assoc ℕ × List ModelOrder)
unfolding orderbook_at_beginning_of_batch canonicalize_auction_data
canonicalized_auction_state_at_beginning_of_batch s batch_id = do
  book ← orderbook_at_beginning_of_batch s batch_id
  ok (canonicalize_auction_data book.0 book.1)
