-- ===== src/Streamed/UpdatingOrderbook/Tests.antt =====
-- The theorems on services-core/src/orderbook/streamed/updating_orderbook.rs for a node with one
-- event in block 3 and one in block 40.
use dex_services.Prelude.{
  ℕ, ◌≡◌, refl, ◌==◌, true, false, none, some, List, [], ◌∷◌, arith, Option, ap, if◌then◌else◌,
}
use dex_services.Streamed.Event.{Event}
use dex_services.History.Registry.{auction_state_for_batch, delete_events_starting_at_block}
use dex_services.History.Registry.Reorg.{Log, resync}
use dex_services.Streamed.UpdatingOrderbook.{
  RawEvent, Context, Node, update, get_auction_data_for_batch,
}
use dex_services.Streamed.UpdatingOrderbook.Requests.{get_auction_data_for_batch_again}
use dex_services.Streamed.UpdatingOrderbook.Updates.{
  logs_of, chunks_of, Answers, update_complete, update_interrupted, interrupted_pages_lost,
}

abbrev early : Log
early = record {
  event = Event.token_listing (record { token = 70; id = 0 });
  block_number = 3;
  log_index = 0;
  block_hash = 103;
  block_timestamp = 600;
}

abbrev late : Log
late = record {
  event = Event.token_listing (record { token = 71; id = 1 });
  block_number = 40;
  log_index = 0;
  block_hash = 140;
  block_timestamp = 900;
}

abbrev timestamps : ℕ → Option ℕ
timestamps hash = if hash == 103 then some 600 else if hash == 140 then some 900 else none

-- The node at block 50 with the given pages.
abbrev node_with : List (Option (List RawEvent)) → Node
node_with pages = record {
  block_number = some 50;
  past_events = λ from to. some pages;
  prepare_cache = λ hs. true;
  block_timestamp = timestamps;
}

abbrev empty : Context
empty = record { orderbook = []; handled_block = 0 }

abbrev both_pages : List (List Log)
both_pages = (early ∷ []) ∷ (late ∷ []) ∷ []

update_complete_example :
    update (node_with (chunks_of both_pages [])) empty
    ≡ (record { orderbook = resync 0 (logs_of both_pages) []; handled_block = 50 }, true)
update_complete_example =
    update_complete (node_with (chunks_of both_pages [])) (λ hs. refl) empty 50 both_pages refl
      (omega arith) refl ((refl, tt), ((refl, tt), tt))

-- The second page fails.
abbrev broken : Node
broken = node_with (chunks_of ((early ∷ []) ∷ []) (none ∷ []))

update_interrupted_example :
    update broken empty
    ≡ (record { orderbook = resync 0 (logs_of ((early ∷ []) ∷ [])) []; handled_block = 50 }, false)
update_interrupted_example =
    update_interrupted broken (λ hs. refl) empty 50 (early ∷ []) [] [] refl (omega arith) refl
      ((refl, tt), tt)

broken-Answers : Answers broken empty 50 (chunks_of ((early ∷ []) ∷ []) (none ∷ []))
broken-Answers = record {
  cached = λ hs. refl;
  numbered = refl;
  not_behind = omega arith;
  paged = refl;
}

recovered-Answers :
    Answers
      (node_with (chunks_of ((late ∷ []) ∷ []) []))
      (update broken empty).0
      50
      (chunks_of ((late ∷ []) ∷ []) [])
recovered-Answers = record {
  cached = λ hs. refl;
  numbered = refl;
  not_behind = rw update_interrupted_example (omega arith);
  paged = refl;
}

interrupted_pages_lost_example :
    delete_events_starting_at_block
      (update (node_with (chunks_of ((late ∷ []) ∷ []) [])) (update broken empty).0).0.orderbook
      25
    ≡ delete_events_starting_at_block (resync 0 (logs_of ((early ∷ []) ∷ [])) []) 25
interrupted_pages_lost_example =
    interrupted_pages_lost broken (node_with (chunks_of ((late ∷ []) ∷ []) [])) empty 50 50
      (early ∷ []) [] ((late ∷ []) ∷ []) [] broken-Answers ((refl, tt), tt) recovered-Answers
      ((refl, tt), tt) (omega arith, tt)

both_pages-Answers :
    Answers (node_with (chunks_of both_pages [])) empty 50 (chunks_of both_pages [])
both_pages-Answers = record {
  cached = λ hs. refl;
  numbered = refl;
  not_behind = omega arith;
  paged = refl;
}

get_auction_data_for_batch_again_example :
    get_auction_data_for_batch
      (node_with (chunks_of both_pages []))
      none
      (get_auction_data_for_batch broken none none 4).0
      5
    ≡ (
      some (record { orderbook = resync 0 (logs_of both_pages) []; handled_block = 50 }),
      some (auction_state_for_batch (resync 0 (logs_of both_pages) []) 5),
    )
get_auction_data_for_batch_again_example =
    get_auction_data_for_batch_again broken (node_with (chunks_of both_pages [])) none 50 4 5
      both_pages (ap (λ r. r.1) update_interrupted_example) both_pages-Answers
      ((refl, tt), ((refl, tt), tt))
