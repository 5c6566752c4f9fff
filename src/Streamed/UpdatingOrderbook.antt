-- ===== src/Streamed/UpdatingOrderbook.antt =====
-- services-core/src/orderbook/streamed/updating_orderbook.rs: the registry is kept up to date with
-- the node. The node, the reader of block timestamps and the file are parameters; a request that
-- fails is `none`. An update returns the changed context and whether it ended with `Ok`: after an
-- error the context keeps what was done.
pub mod Updates
pub mod Requests
pub mod Tests
use dex_services.Prelude.{
  ℕ, ◌+◌, ◌-◌, Bool, true, false, Option, none, some, List, [], ◌∷◌, map, leb, if◌then◌else◌,
}
use dex_services.Outcome.{Outcome}
use dex_services.Assoc.{Assoc}
use dex_services.Models.BatchId.{from_timestamp}
use dex_services.Streamed.Event.{Event}
use dex_services.Streamed.Order.{ModelOrder}
use dex_services.History.Registry.{
  EventRegistry, BlockNumber, handle_event_data, delete_events_starting_at_block,
  last_handled_block, auction_state_for_batch, auction_state_for_batch_at_block,
}

abbrev pub block_confirmation_count : ℕ
block_confirmation_count = 25

-- The metadata of an event.
pub record Meta : Type 0 where
  pub block_number : ℕ
  pub log_index : ℕ
  pub block_hash : ℕ

pub record RawEvent : Type 0 where
  pub payload : Event
  pub meta : Option Meta

pub record Context : Type 0 where
  pub orderbook : EventRegistry
  pub handled_block : ℕ

-- What the node answers during one update.
pub record Node : Type 0 where
  pub block_number : Option ℕ
  -- The pages of events between two blocks.
  pub past_events : ℕ → ℕ → Option (List (Option (List RawEvent)))
  pub prepare_cache : List ℕ → Bool
  -- The timestamp of the block with a hash.
  pub block_timestamp : ℕ → Option ℕ

-- `handle_event`
pub handle_event : Node → Context → RawEvent → Context × Bool
handle_event node context event = elim event.meta [
  | none ↦ (context, false)
  | some m ↦ elim (node.block_timestamp m.block_hash) [
    | none ↦ (context, false)
    | some t ↦ (
      record context {
        orderbook =
            handle_event_data context.orderbook event.payload m.block_number m.log_index
              m.block_hash t;
      },
      true,
    )
  ]
]

-- The `for` loop over a chunk, which the first error leaves.
pub handle_events : Node → Context → List RawEvent → Context × Bool
handle_events node context [] = (context, true)
handle_events node context (e ∷ es) =
    let step = handle_event node context e in
    let rest = handle_events node step.0 es in if step.1 then rest else step

-- The hashes of the blocks, unless an event has no metadata.
pub block_hashes : List RawEvent → Option (List ℕ)
block_hashes [] = some []
block_hashes (e ∷ es) = elim e.meta [
  | none ↦ none
  | some m ↦ elim (block_hashes es) [ none ↦ none | some hs ↦ some (m.block_hash ∷ hs) ]
]

pub prepare_timestamp_cache : Node → List RawEvent → Bool
prepare_timestamp_cache node es = elim (block_hashes es) [
  | none ↦ false
  | some hs ↦ node.prepare_cache hs
]

-- The `while let` loop over the chunks.
pub handle_chunks : Node → ℕ → Context → List (Option (List RawEvent)) → Context × Bool
handle_chunks node to_block context [] = (context, true)
handle_chunks node to_block context (none ∷ chunks) = (context, false)
handle_chunks node to_block context (some es ∷ chunks) =
    let step = handle_events node context es in
    let rest = handle_chunks node to_block (record (step.0) { handled_block = to_block }) chunks in
    if prepare_timestamp_cache node es then (if step.1 then rest else step) else (context, false)

-- `update_with_events_between_blocks` once the pages are requested. The write to the file at the
-- end changes nothing here: its errors are logged.
pub replace_events :
    Node → Context → ℕ → ℕ → Option (List (Option (List RawEvent))) → Context × Bool
replace_events node context from_block to_block none = (context, false)
replace_events node context from_block to_block (some chunks) =
    handle_chunks node to_block
      (record context { orderbook = delete_events_starting_at_block context.orderbook from_block })
      chunks

abbrev update_with_events_between_blocks : Node → Context → ℕ → ℕ → Context × Bool
update_with_events_between_blocks node context from_block to_block =
    replace_events node context from_block to_block (node.past_events from_block to_block)

-- `update` once the current block is known; `saturating_sub` is `-` on ℕ.
pub update_to : Node → Context → Option ℕ → Context × Bool
update_to node context none = (context, false)
update_to node context (some current_block) =
    let from_block = context.handled_block - block_confirmation_count in
    if leb from_block current_block
    then update_with_events_between_blocks node context from_block current_block
    else (context, false)

abbrev pub update : Node → Context → Context × Bool
update node context = update_to node context node.block_number

-- `load_orderbook_from_file`: the registry in the file, if it could be read.
abbrev load_orderbook_from_file : Option EventRegistry → Context → Context
load_orderbook_from_file none context = context
load_orderbook_from_file (some m) context = record {
  orderbook = m;
  handled_block = elim (last_handled_block m) [ none ↦ 0 | some n ↦ n ];
}

-- `do_with_context` up to the callback: the stored context, and the one that the callback gets.
unfoldable pub with_context :
    Node → Option EventRegistry → Option Context → Option Context × Option Context
with_context node file (some context) =
    let (context', done) = update node context in
    (some context', if done then some context' else none)
with_context node file none =
    let (context, done) =
      update node (load_orderbook_from_file file (record { orderbook = []; handled_block = 0 })) in
    if done then (some context, some context) else (none, none)

-- The callback of a request, where there is a context for it.
abbrev answer {ℓ} :
    {A : Type ℓ} → (Context → A) → Option Context × Option Context → Option Context × Option A
answer callback (stored, none) = (stored, none)
answer callback (stored, some context) = (stored, some (callback context))

-- What a request ends with: the stored context, and the callback's result unless the update failed.
unfoldable pub get_auction_data_for_batch :
    Node
    → Option EventRegistry
    → Option Context
    → ℕ
    → Option Context × Option (Outcome (Assoc ℕ × List ModelOrder))
get_auction_data_for_batch node file stored batch =
    answer (λ context. auction_state_for_batch context.orderbook batch)
      (with_context node file stored)

abbrev at_block : BlockNumber → Option ℕ → Context → Option (Outcome (Assoc ℕ × List ModelOrder))
at_block block none context = none
at_block block (some timestamp) context =
    some (auction_state_for_batch_at_block context.orderbook (from_timestamp timestamp) block)

-- `timestamp` is that of the block, if the node gives it; without it the request fails.
unfoldable get_auction_data_for_block :
    Node
    → Option EventRegistry
    → Option Context
    → BlockNumber
    → Option ℕ
    → Option Context × Option (Option (Outcome (Assoc ℕ × List ModelOrder)))
get_auction_data_for_block node file stored block timestamp =
    answer (at_block block timestamp) (with_context node file stored)

unfoldable initialize :
    Node → Option EventRegistry → Option Context → Option Context × Option (Unit {0})
initialize node file stored = answer (λ context. tt) (with_context node file stored)
