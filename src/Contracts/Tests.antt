-- ===== src/Contracts/Tests.antt =====
-- The theorems on services-core/src/contracts for the batches of eleven blocks.
use dex_services.Prelude.{ℕ, ◌/◌, ◌<◌, ◌≡◌, some, ltb, if◌then◌else◌, arith}
use dex_services.Contracts.SearchBatches.{
  IsLast, search_last_block_for_batch, search_last_block_for_batch_lem,
}

-- Three blocks to a batch.
abbrev batch_ids : ℕ → ℕ
batch_ids n = n / 3

search_last_block_for_batch_lem_example :
    (r : ℕ) × (search_last_block_for_batch batch_ids 1 20 (batch_ids 10) 10 ≡ some r)
    × (if ltb 1 (batch_ids 10) then (r < 10) × IsLast batch_ids 1 r else r ≡ 10)
search_last_block_for_batch_lem_example =
    search_last_block_for_batch_lem batch_ids 1 20 10 (omega arith) (omega arith)
