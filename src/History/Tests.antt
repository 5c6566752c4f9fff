-- ===== src/History/Tests.antt =====
-- The theorems on services-core/src/history at a registry of three events.
use mathlib.Core.List.{Memᴰ}
use dex_services.Prelude.{
  ◌↔◌, ◌⊎◌, if◌then◌else◌, ◌<◌, ◌≡◌, refl, ◌==◌, some, [], ◌∷◌, arith, leb, ltb, filter, map,
}
use dex_services.Outcome.{Ensures, ok}
use dex_services.Models.BatchId.{next, into_u32, u64_max}
use dex_services.Streamed.Event.{Event}
use dex_services.History.Batches.{from_batch, batch_count, run_out, up_from, run_out_lem}
use dex_services.Prelude.{ℕ, length, ◌+◌, List}
use dex_services.History.Registry.{
  EventRegistry, Entry, events, events_for_batch, until_end_of_block,
  auction_state_for_batch_from_events,
}
use dex_services.History.Registry.Keys.{IsSorted, until_end_of_block_lem}
use dex_services.History.Registry.Reorg.{Log, resync, resync-resync}
use dex_services.History.Registry.Exact.{IsReported, AreApart, resync-IsExact}
use dex_services.History.Registry.Window.{events_for_batch_lem}
use dex_services.History.Registry.Auction.{IsAuction, auction_state_for_batch_from_events-IsAuction}
use dex_services.History.Settlement.{
  settlement_for_batch, settlement_of, final_events, settlement_for_batch_lem,
}

-- A trade in batch 3, its reversion and a solution in batch 4.
abbrev indexed : EventRegistry
indexed =
    (
      record { block_number = 10; block_hash = 1; log_index = 0 },
      record {
        event =
            Event.trade (record {
              owner = 5;
              order_id = 0;
              executed_sell_amount = 1;
              executed_buy_amount = 2;
            });
        batch_id = 3;
      },
    )
    ∷ (
      record { block_number = 20; block_hash = 2; log_index = 0 },
      record {
        event =
            Event.trade_reversion (record {
              owner = 5;
              order_id = 0;
              executed_sell_amount = 1;
              executed_buy_amount = 2;
            });
        batch_id = 4;
      },
    )
    ∷ (
      record { block_number = 20; block_hash = 2; log_index = 1 },
      record {
        event = Event.solution_submission (record { submitter = 6; burnt_fees = 7 });
        batch_id = 4;
      },
    )
    ∷ []

abbrev listing : Log
listing = record {
  event = Event.token_listing (record { token = 70; id = 0 });
  block_number = 20;
  log_index = 0;
  block_hash = 3;
  block_timestamp = 1200;
}

resync-resync_example : resync 20 [] (resync 20 (listing ∷ []) indexed) ≡ resync 20 [] indexed
resync-resync_example = resync-resync 20 (listing ∷ []) [] indexed (omega arith, tt)

indexed-IsSorted : IsSorted indexed
indexed-IsSorted = ((refl, (refl, tt)), ((refl, tt), (tt, tt)))

-- Two events of one block.
abbrev both : List Log
both = listing ∷ record listing { log_index = 1 } ∷ []

both_apart : AreApart both
both_apart = (((λ h. cc), tt), (tt, tt))

resync-IsExact_example :
    ((e : Entry)
      → Memᴰ e (resync 20 both indexed)
        ↔ (IsReported e both ⊎ (Memᴰ e indexed × (e.0.block_number < 20))))
    × IsSorted (resync 20 both indexed)
resync-IsExact_example =
    resync-IsExact 20 both indexed (omega arith, (omega arith, tt)) both_apart indexed-IsSorted

until_end_of_block_lem_example :
    until_end_of_block indexed 10
    ≡ filter
        (λ e. if 10 == u64_max then ltb e.0.block_number 10 else leb e.0.block_number 10)
        indexed
until_end_of_block_lem_example = until_end_of_block_lem indexed 10 (omega arith)

events_for_batch_lem_example :
    events_for_batch indexed 4 ≡ map (λ e. e.0) (filter (λ e. e.1 == 4) (events indexed))
events_for_batch_lem_example =
    events_for_batch_lem indexed 4 ((omega arith, (omega arith, tt)), ((omega arith, tt), (tt, tt)))

next_of_three : next 3 ≡ ok 4
unfolding next
next_of_three = refl

settlement_for_batch_lem_example :
    settlement_for_batch indexed 3 ≡ ok (settlement_of (final_events (events_for_batch indexed 4)))
settlement_for_batch_lem_example = settlement_for_batch_lem indexed 3 4 next_of_three

-- What that settlement is.
settled :
    settlement_of (final_events (events_for_batch indexed 4))
    ≡ some (record { trades = []; solution = record { submitter = 6; burnt_fees = 7 } })
unfolding events_for_batch
settled = refl

into_u32_three : 0 < into_u32 3
unfolding into_u32
into_u32_three = omega arith

into_u32_four : 0 < into_u32 4
unfolding into_u32
into_u32_four = omega arith

auction_state_for_batch_from_events-IsAuction_example :
    Ensures
      (λ a. IsAuction (into_u32 5) a.0 a.1)
      (auction_state_for_batch_from_events 4 (events indexed))
auction_state_for_batch_from_events-IsAuction_example =
    auction_state_for_batch_from_events-IsAuction 4 (events indexed) (omega arith)
      ((into_u32_three, tt), ((into_u32_four, tt), ((into_u32_four, tt), tt)))

run_out_lem_example :
    (bs : List ℕ) × (run_out 9 (from_batch 3 7) ≡ some bs)
    × (bs ≡ up_from 3 5)
    × (length bs ≡ batch_count (from_batch 3 7) + 1)
run_out_lem_example = run_out_lem 3 7 9 (omega arith) (omega arith)

counted : batch_count (from_batch 3 7) ≡ 4
unfolding batch_count
counted = refl
