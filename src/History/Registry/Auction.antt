-- ===== src/History/Registry/Auction.antt =====
-- services-core/src/history/events.rs: the auction that is built from the registry, from the events
-- to the orders and balances that a solver receives.
use dex_services.Prelude.{
  All-filter, ℕ, ◌<◌, ◌≡◌, ◌∙◌, false, List, [], ◌∷◌, map, All, arith, lt→ltb, ◌+◌, none,
}
use dex_services.Outcome.{Ensures, Ensures-bind}
use dex_services.Assoc.{Key, Assoc, lookup}
use dex_services.Models.BatchId.{next, into_u32, u64_max}
use dex_services.Streamed.Event.{Event}
use dex_services.Streamed.Order.{ModelOrder}
use dex_services.Streamed.State.{State, from_events}
use dex_services.Streamed.State.Invariant.{IsValid, InRange}
use dex_services.Streamed.State.Safety.{AllProper, from_events-IsValid}
use dex_services.Streamed.Auction.{
  sells, orderbook_at_beginning_of_batch, canonicalized_auction_state_at_beginning_of_batch,
}
use dex_services.Streamed.Auction.Offer.{IsOffer, orderbook_lem, canonicalize_lem}
use dex_services.History.Registry.{auction_state_for_batch_from_events}

-- What a solver may rely on: each order still sells something, is valid in the batch before
-- `batch` and has no more left than it was placed for; each balance is of a token that one of the
-- orders of its user sells.
pub record IsAuction (batch : ℕ) (accounts : Assoc ℕ) (os : List ModelOrder) : Type 0 where
  pub all_sell : All (λ o. 0 < o.remaining_sell_amount) os
  pub all_offered : All (IsOffer batch) os
  pub all_needed : (j : Key) → sells os j ≡ false → lookup j accounts ≡ none

canonicalized-IsAuction :
    (s : State) (batch : ℕ)
    → IsValid s
    → Ensures
        (λ a. IsAuction batch a.0 a.1)
        (canonicalized_auction_state_at_beginning_of_batch s batch)
unfolding canonicalized_auction_state_at_beginning_of_batch
canonicalized-IsAuction s batch v =
    Ensures-bind (λ b. All (IsOffer batch) b.1) (λ a. IsAuction batch a.0 a.1)
      (orderbook_at_beginning_of_batch s batch) _
      (rw ((orderbook_lem s batch v).0) (ground (arith, (orderbook_lem s batch v).1)))
      λ b offered.
        let (sell, reads) = canonicalize_lem b.0 b.1 in
        record {
          all_sell = sell;
          all_offered = All-filter (IsOffer batch) _ b.1 offered;
          all_needed = λ j none_sells. reads j ∙ rw none_sells;
        }

-- The events of a block in a batch whose 32-bit number is not 0, with amounts in range.
abbrev AllIndexed : List (Event × ℕ) → Type 0
AllIndexed = All (λ e. (0 < into_u32 e.1) × InRange e.0)

AllIndexed-AllProper :
    (es : List (Event × ℕ)) → AllIndexed es → AllProper (map (λ e. (e.0, into_u32 e.1)) es)
AllIndexed-AllProper [] h = tt
AllIndexed-AllProper (e ∷ es) h = (h.0, AllIndexed-AllProper es h.1)

-- Building the auction of a batch from any events in batches whose 32-bit number is not 0 never
-- panics: it ends with an error, or with orders that still sell something, are valid in the batch
-- and have at most what they were placed for left, and with balances of no token that none of the
-- orders of its user sells.
pub auction_state_for_batch_from_events-IsAuction :
    (batch : ℕ) (es : List (Event × ℕ))
    → batch < u64_max
    → AllIndexed es
    → Ensures
        (λ a. IsAuction (into_u32 (batch + 1)) a.0 a.1)
        (auction_state_for_batch_from_events batch es)
unfolding auction_state_for_batch_from_events next
auction_state_for_batch_from_events-IsAuction batch es h p =
    Ensures-bind IsValid (λ a. IsAuction (into_u32 (batch + 1)) a.0 a.1)
      (from_events (map (λ e. (e.0, into_u32 e.1)) es)) _
      (from_events-IsValid _ (AllIndexed-AllProper es p))
      λ s v. rw (lt→ltb _ _ h) (canonicalized-IsAuction s (into_u32 (batch + 1)) v)
