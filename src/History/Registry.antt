-- ===== src/History/Registry.antt =====
-- services-core/src/history/events.rs: the events of the contract in the order of their blocks, a
-- `BTreeMap` as a list that is sorted by its keys. Block hashes are ℕ.
pub mod Keys
pub mod Reorg
pub mod Exact
pub mod Window
pub mod Auction
use dex_services.Prelude.{
  ℕ, ◌+◌, ◌%◌, ◌^◌, Bool, true, false, ◌&&◌, ◌||◌, Option, none, some, List, [], ◌∷◌, map, ltb, leb,
  ◌==◌, if◌then◌else◌, filter,
}
use dex_services.Outcome.{Outcome, ok, ◌>>=◌}
use dex_services.Assoc.{Assoc}
use dex_services.Models.BatchId.{from_timestamp, u64_max, next, into_u32}
use dex_services.Streamed.Event.{Event}
use dex_services.Streamed.Order.{ModelOrder}
use dex_services.Streamed.State.{from_events}
use dex_services.Streamed.Auction.{canonicalized_auction_state_at_beginning_of_batch}

pub record EventSortKey : Type 0 where
  pub block_number : ℕ
  pub block_hash : ℕ
  pub log_index : ℕ

pub record Value : Type 0 where
  pub event : Event
  pub batch_id : ℕ

-- The derived `Ord`: fields are compared in their order.
abbrev pub key_lt : EventSortKey → EventSortKey → Bool
key_lt a b =
    ltb a.block_number b.block_number
    || (a.block_number == b.block_number
        && (ltb a.block_hash b.block_hash
            || (a.block_hash == b.block_hash && ltb a.log_index b.log_index)))

abbrev pub Entry : Type 0
Entry = EventSortKey × Value

abbrev pub EventRegistry : Type 0
EventRegistry = List Entry

-- `BTreeMap::insert`
abbrev pub insert : EventSortKey → Value → EventRegistry → EventRegistry
insert k v [] = (k, v) ∷ []
insert k v (e ∷ m) =
    if key_lt k e.0 then (k, v) ∷ e ∷ m else if key_lt e.0 k then e ∷ insert k v m else (k, v) ∷ m

-- The keys below a bound: what `BTreeMap::split_off` leaves, and `range` with an excluded end.
abbrev pub below : EventSortKey → EventRegistry → EventRegistry
below bound m = filter (λ e. key_lt e.0 bound) m

pub handle_event_data : EventRegistry → Event → ℕ → ℕ → ℕ → ℕ → EventRegistry
unfolding from_timestamp
handle_event_data m event block_number log_index block_hash block_timestamp =
    insert (record { block_number = block_number; block_hash = block_hash; log_index = log_index })
      (record { event = event; batch_id = from_timestamp block_timestamp }) m

pub delete_events_starting_at_block : EventRegistry → ℕ → EventRegistry
delete_events_starting_at_block m block_number =
    below (record { block_number = block_number; block_hash = 0; log_index = 0 }) m

-- The key of the last entry.
unfoldable pub last_handled_block : EventRegistry → Option ℕ
last_handled_block [] = none
last_handled_block (e ∷ []) = some e.0.block_number
last_handled_block (e ∷ f ∷ m) = last_handled_block (f ∷ m)

abbrev pub events : EventRegistry → List (Event × ℕ)
events m = map (λ e. (e.1.event, e.1.batch_id)) m

-- `Iterator::take_while` and `Iterator::skip_while`
abbrev pub take_while {ℓ} : {A : Type ℓ} → (A → Bool) → List A → List A
take_while p [] = []
take_while p (x ∷ xs) = if p x then x ∷ take_while p xs else []

abbrev pub skip_while {ℓ} : {A : Type ℓ} → (A → Bool) → List A → List A
skip_while p [] = []
skip_while p (x ∷ xs) = if p x then skip_while p xs else x ∷ xs

pub events_until_batch : EventRegistry → ℕ → List (Event × ℕ)
events_until_batch m batch_id = take_while (λ e. leb e.1 batch_id) (events m)

unfoldable pub events_for_batch : EventRegistry → ℕ → List Event
events_for_batch m batch_id =
    map (λ e. e.0)
      (take_while (λ e. e.1 == batch_id) (skip_while (λ e. ltb e.1 batch_id) (events m)))

-- The auction of the batch after `batch_id`: the state needs `u32` batch ids.
pub auction_state_for_batch_from_events : ℕ → List (Event × ℕ) → Outcome (Assoc ℕ × List ModelOrder)
auction_state_for_batch_from_events batch_id es = do
  state ← from_events (map (λ e. (e.0, into_u32 e.1)) es)
  following ← next batch_id
  canonicalized_auction_state_at_beginning_of_batch state (into_u32 following)

unfoldable pub auction_state_for_batch : EventRegistry → ℕ → Outcome (Assoc ℕ × List ModelOrder)
auction_state_for_batch m batch_id =
    auction_state_for_batch_from_events batch_id (events_until_batch m batch_id)

-- `ethcontract::BlockNumber`
pub data BlockNumber : Type 0 where
  earliest latest pending : BlockNumber
  number : ℕ → BlockNumber

abbrev block_bound : BlockNumber → ℕ
block_bound BlockNumber.earliest = 0
block_bound BlockNumber.latest = u64_max
block_bound BlockNumber.pending = u64_max
block_bound (BlockNumber.number n) = n

-- `u64::saturating_add`
abbrev saturating_add : ℕ → ℕ → ℕ
saturating_add a b = if leb (a + b) u64_max then a + b else u64_max

-- The range up to the end of a block.
pub until_end_of_block : EventRegistry → ℕ → EventRegistry
until_end_of_block m block_number =
    below (record { block_number = saturating_add block_number 1; block_hash = 0; log_index = 0 }) m

unfoldable pub auction_state_for_batch_at_block :
    EventRegistry → ℕ → BlockNumber → Outcome (Assoc ℕ × List ModelOrder)
auction_state_for_batch_at_block m batch_id block =
    auction_state_for_batch_from_events batch_id (events (until_end_of_block m (block_bound block)))
