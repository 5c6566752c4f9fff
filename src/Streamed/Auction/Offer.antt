-- ===== src/Streamed/Auction/Offer.antt =====
-- services-core/src/orderbook/streamed/state.rs, the queries, and
-- services-core/src/orderbook/util.rs: which orders and which balances an auction offers.
use dex_services.Prelude.{
  filter-All, ℕ, ◌≤◌, ◌<◌, ◌≡◌, refl, ap, ◌∙◌, Bool, true, Option, none, some, List, [], ◌∷◌, arith,
  All, All-imp, inl, inr, Bool-cases, leb, ltb, if◌then◌else◌, filter, map,
}
use dex_services.Outcome.{ok, err, batch_in_past, partial_solution}
use dex_services.Assoc.{Key, Assoc, lookup, insert, lookup-insert, key_eq, eq_of_key_eq, AllValues}
use dex_services.Streamed.Order.{Order, ModelOrder, is_valid_in_batch}
use dex_services.Streamed.Order.Usage.{IsSound, IsDated, as_model_order_lem, offer}
use dex_services.Streamed.State.{State, previous_u32}
use dex_services.Streamed.State.Invariant.{IsValid}
use dex_services.Streamed.Auction.{
  account_state, orders, model_orders, orderbook_at_beginning_of_batch, collect, sells,
  canonicalize_auction_data,
}

-- An order that may be offered to solvers of the batch before `batch`.
pub record IsOffer (batch : ℕ) (o : ModelOrder) : Type 0 where
  pub started : o.valid_from ≤ previous_u32 batch
  pub not_ended : previous_u32 batch ≤ o.valid_until
  pub fits : o.remaining_sell_amount ≤ o.denominator

offer-IsOffer :
    (o : Order) (batch user id : ℕ)
    → is_valid_in_batch o (previous_u32 batch) ≡ true
    → IsOffer batch (offer o batch user id)
unfolding is_valid_in_batch
offer-IsOffer o batch user id h = ground arith

-- The orders that are valid in the batch before, each with what remains of it.
abbrev pub offers : ℕ → Assoc Order → List ModelOrder
offers batch m =
    map (λ e. offer e.1 batch e.0.0 e.0.1)
      (filter (λ e. is_valid_in_batch e.1 (previous_u32 batch)) m)

offers-IsOffer : (batch : ℕ) (m : Assoc Order) → All (IsOffer batch) (offers batch m)
offers-IsOffer batch [] = tt
offers-IsOffer batch (((user, id), o) ∷ m) =
    elim (Bool-cases (is_valid_in_batch o (previous_u32 batch))) [
      | inl valid ↦ rw valid (offer-IsOffer o batch user id valid, offers-IsOffer batch m)
      | inr invalid ↦ rw invalid (offers-IsOffer batch m)
    ]

model_orders-offers :
    (batch now : ℕ) (m : Assoc Order)
    → AllValues (λ o. IsSound o × IsDated now o) m
    → model_orders batch (filter (λ e. is_valid_in_batch e.1 (previous_u32 batch)) m)
      ≡ ok (offers batch m)
unfolding model_orders
model_orders-offers batch now [] h = refl
model_orders-offers batch now (((user, id), o) ∷ m) h =
    elim (Bool-cases (is_valid_in_batch o (previous_u32 batch))) [
      | inl valid ↦ rw (
        valid,
        model_orders,
        as_model_order_lem o batch user id h.0.0,
        model_orders-offers batch now m h.1,
      )
      | inr invalid ↦ rw (invalid) (model_orders-offers batch now m h.1)
    ]

-- For a valid state the query succeeds exactly for a batch that is not in the past and with no
-- solution half received, and its two errors are those. It offers each order that is valid in the
-- batch before the requested one, with a remaining amount that is at most what the order sells.
pub orderbook_lem :
    (s : State) (batch : ℕ)
    → IsValid s
    → (orderbook_at_beginning_of_batch s batch ≡ (
        if leb s.last_batch_id batch
        then (if s.solution_partially_received
            then err partial_solution
            else ok (account_state s batch, offers batch s.orders))
        else err batch_in_past))
      × All (IsOffer batch) (offers batch s.orders)
unfolding orderbook_at_beginning_of_batch orders
orderbook_lem s batch v = (
  rw (model_orders-offers batch s.last_batch_id s.orders v.orders_sound) (ground arith),
  offers-IsOffer batch s.orders,
)

-- The last value that a list gives to a key.
abbrev pub find_last : Key → List (Key × ℕ) → Option ℕ → Option ℕ
find_last j [] found = found
find_last j ((k, v) ∷ es) found = find_last j es (if key_eq j k then some v else found)

lookup-collect :
    (j : Key) (es : List (Key × ℕ)) (m : Assoc ℕ)
    → lookup j (collect es m) ≡ find_last j es (lookup j m)
unfolding collect
lookup-collect j [] m = refl
lookup-collect j ((k, v) ∷ es) m = lookup-collect j es (insert k v m) ∙ rw (lookup-insert)

find_last-filter :
    (p : Key → Bool) (j : Key) (es : List (Key × ℕ)) (found : Option ℕ)
    → find_last j (filter (λ e. p e.0) es) found ≡ (if p j then find_last j es found else found)
find_last-filter p j [] found = ground arith
find_last-filter p j ((k, v) ∷ es) found = elim (Bool-cases (key_eq j k)) [
  | inl same ↦
      let e : p j ≡ p k = ap p (eq_of_key_eq j k same) in
      rw (same) (ground (arith, e, find_last-filter p j es found, find_last-filter p j es (some v)))
  | inr other ↦ rw other (ground (arith, find_last-filter p j es found))
]

-- The canonical auction keeps the orders that still sell something, and of the balances exactly
-- those of a token that one of these orders of the same user sells.
pub canonicalize_lem :
    (accounts : List (Key × ℕ)) (os : List ModelOrder)
    → let (state, kept) = canonicalize_auction_data accounts os in
      All (λ o. 0 < o.remaining_sell_amount) kept
      × ((j : Key) → lookup j state ≡ (if sells kept j then find_last j accounts none else none))
unfolding canonicalize_auction_data
canonicalize_lem accounts os =
    let kept = filter (λ o. ltb 0 o.remaining_sell_amount) os in
    (
      All-imp (λ o e. ground arith) kept (filter-All (λ o. ltb 0 o.remaining_sell_amount) os),
      λ j.
          lookup-collect j (filter (λ e. sells kept e.0) accounts) []
          ∙ find_last-filter (sells kept) j accounts none,
    )
