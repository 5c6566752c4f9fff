-- ===== src/Streamed/UpdatingOrderbook/Requests.antt =====
-- services-core/src/orderbook/streamed/updating_orderbook.rs: what a request for an auction is
-- answered with.
use dex_services.Prelude.{
  ℕ, ◌-◌, ◌≡◌, refl, true, false, Option, none, some, List, [], All, ap, if◌then◌else◌,
}
use dex_services.History.Registry.{EventRegistry, auction_state_for_batch}
use dex_services.History.Registry.Reorg.{Log, resync}
use dex_services.Streamed.UpdatingOrderbook.{
  block_confirmation_count, Context, Node, update, with_context, load_orderbook_from_file,
  get_auction_data_for_batch, answer,
}
use dex_services.Streamed.UpdatingOrderbook.Updates.{
  chunks_of, logs_of, handled_after, Answers, update_complete,
}

-- The context that a request starts from.
abbrev starting : Option EventRegistry → Option Context → Context
starting file none = load_orderbook_from_file file (record { orderbook = []; handled_block = 0 })
starting file (some context) = context

with_context_lem :
    (node : Node) (file : Option EventRegistry) (stored : Option Context) (context : Context)
    → update node (starting file stored) ≡ (context, true)
    → with_context node file stored ≡ (some context, some context)
unfolding with_context
with_context_lem node file none context h =
    ap (λ r. if r.1 then (some r.0, some r.0) else (none, none)) h
with_context_lem node file (some c) context h =
    ap (λ r. (some r.0, if r.1 then some r.0 else none)) h

pub get_auction_data_for_batch_lem :
    (node : Node) (file : Option EventRegistry) (stored : Option Context) (current batch : ℕ)
    (cs : List (List Log))
    → Answers node (starting file stored) current (chunks_of cs [])
    → All (λ ls. All (λ l. node.block_timestamp l.block_hash ≡ some l.block_timestamp) ls) cs
    → let first = (starting file stored).handled_block - block_confirmation_count in
      let registry = resync first (logs_of cs) (starting file stored).orderbook in
      get_auction_data_for_batch node file stored batch ≡ (
        some (record {
          orderbook = registry;
          handled_block = handled_after cs current (starting file stored).handled_block;
        }),
        some (auction_state_for_batch registry batch),
      )
unfolding get_auction_data_for_batch
get_auction_data_for_batch_lem node file stored current batch cs a t =
    simp
      (with_context_lem node file stored _ (
        update_complete node a.cached (starting file stored) current cs a.numbered a.not_behind
          a.paged t))
      refl

failed_first_request_lem :
    (node : Node) (file : Option EventRegistry) (batch : ℕ)
    → (update node (starting file none)).1 ≡ false
    → (get_auction_data_for_batch node file none batch).0 ≡ none
unfolding get_auction_data_for_batch with_context
failed_first_request_lem node file batch h =
    let context = (update node (starting file none)).0 in
    let request = answer (λ c. auction_state_for_batch c.orderbook batch) in
    ap (λ done. (request (if done then (some context, some context) else (none, none))).0) h

-- A first request whose update fails leaves nothing behind: the next request whose pages
-- all come through is answered as a first one.
pub get_auction_data_for_batch_again :
    (node node' : Node) (file : Option EventRegistry) (current batch batch' : ℕ)
    (cs : List (List Log))
    → (update node (starting file none)).1 ≡ false
    → Answers node' (starting file none) current (chunks_of cs [])
    → All (λ ls. All (λ l. node'.block_timestamp l.block_hash ≡ some l.block_timestamp) ls) cs
    → let first = (starting file none).handled_block - block_confirmation_count in
      let registry = resync first (logs_of cs) (starting file none).orderbook in
      get_auction_data_for_batch node' file
        (get_auction_data_for_batch node file none batch).0
        batch'
      ≡ (
        some (record {
          orderbook = registry;
          handled_block = handled_after cs current (starting file none).handled_block;
        }),
        some (auction_state_for_batch registry batch'),
      )
get_auction_data_for_batch_again node node' file current batch batch' cs failed a t =
    rw (failed_first_request_lem node file batch failed)
      (get_auction_data_for_batch_lem node' file none current batch' cs a t)
