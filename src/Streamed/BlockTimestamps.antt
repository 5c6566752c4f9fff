-- ===== src/Streamed/BlockTimestamps.antt =====
-- services-core/src/orderbook/streamed/block_timestamp_reading.rs: the cache of block timestamps.
-- The node is an argument of each call, since its answers change; a request that fails is `none`.
-- Hashes are numbers, and the timestamps that blocks report fit 64 bits.
pub mod Final
pub mod Tests
use dex_services.Prelude.{
  ℕ, ◌-◌, Bool, true, false, Option, none, some, List, [], ◌∷◌, filter, leb, if◌then◌else◌,
}
use dex_services.Assoc.{Assoc, Key, lookup, insert}
use dex_services.History.Registry.{BlockNumber}

-- `ethcontract::web3::types::BlockId`
pub data BlockId : Type 0 where
  hash : ℕ → BlockId
  number : BlockNumber → BlockId

pub data BlockCacheId : Type 0 where
  hash number : ℕ → BlockCacheId

-- `TryFrom<BlockId> for BlockCacheId`
abbrev pub try_from : BlockId → Option BlockCacheId
try_from (BlockId.hash h) = some (BlockCacheId.hash h)
try_from (BlockId.number (BlockNumber.number n)) = some (BlockCacheId.number n)
try_from (BlockId.number BlockNumber.earliest) = none
try_from (BlockId.number BlockNumber.latest) = none
try_from (BlockId.number BlockNumber.pending) = none

-- `Into<BlockId> for BlockCacheId`
abbrev pub into : BlockCacheId → BlockId
into (BlockCacheId.hash h) = BlockId.hash h
into (BlockCacheId.number n) = BlockId.number (BlockNumber.number n)

-- The key of a map over `BlockCacheId`.
abbrev pub key : BlockCacheId → Key
key (BlockCacheId.hash h) = (0, h)
key (BlockCacheId.number n) = (1, n)

-- `CachedBlockTimestampReader`; the inner reader is not a field but an argument.
pub record CachedReader : Type 0 where
  pub latest_block : ℕ
  pub confirmation_count : ℕ
  pub cached : Assoc ℕ

abbrev pub new : ℕ → CachedReader
new confirmation_count = record {
  latest_block = 0;
  confirmation_count = confirmation_count;
  cached = [];
}

abbrev pub update_latest_block : CachedReader → ℕ → CachedReader
update_latest_block r latest_block_number = record r { latest_block = latest_block_number }

-- `saturating_sub` is `-` on ℕ.
abbrev pub is_cacheable : CachedReader → BlockCacheId → Bool
is_cacheable r (BlockCacheId.hash h) = true
is_cacheable r (BlockCacheId.number n) = leb n (r.latest_block - r.confirmation_count)

unfoldable pub cache : CachedReader → BlockCacheId → ℕ → CachedReader
cache r block timestamp =
    if is_cacheable r block then record r { cached = insert (key block) timestamp r.cached } else r

-- The parts of a block that are read, with the hash that it was found by.
pub record Block : Type 0 where
  pub hash : ℕ
  pub number : Option ℕ
  pub timestamp : ℕ

abbrev pub cache_number : CachedReader → Option ℕ → ℕ → CachedReader
cache_number r none timestamp = r
cache_number r (some n) timestamp = cache r (BlockCacheId.number n) timestamp

-- The `for` loop of `prepare_cache`.
abbrev pub cache_blocks : CachedReader → List Block → CachedReader
cache_blocks r [] = r
cache_blocks r (b ∷ bs) =
    cache_blocks
      (cache_number (cache r (BlockCacheId.hash b.hash) b.timestamp) b.number b.timestamp) bs

abbrev pub is_missing : CachedReader → ℕ → Bool
is_missing r h = elim (lookup (key (BlockCacheId.hash h)) r.cached) [ none ↦ true | some t ↦ false ]

abbrev cache_found : CachedReader → Option (List Block) → CachedReader × Bool
cache_found r none = (r, false)
cache_found r (some bs) = (cache_blocks r bs, true)

-- `prepare_cache`, and whether it ended with `Ok`; `blocks` is the inner reader.
abbrev pub prepare_cache :
    (List ℕ → ℕ → Option (List Block)) → CachedReader → List ℕ → ℕ → ℕ → CachedReader × Bool
prepare_cache blocks r block_hashes block_batch_size latest_block_number =
    cache_found (update_latest_block r latest_block_number)
      (blocks (filter (is_missing r) block_hashes) block_batch_size)

abbrev cache_answer : CachedReader → BlockCacheId → Option ℕ → CachedReader × Option ℕ
cache_answer r block none = (r, none)
cache_answer r block (some timestamp) = (cache r block timestamp, some timestamp)

abbrev block_timestamp_of :
    (BlockId → Option ℕ) → CachedReader → BlockCacheId → Option ℕ → CachedReader × Option ℕ
block_timestamp_of inner r block none = cache_answer r block (inner (into block))
block_timestamp_of inner r block (some timestamp) = (r, some timestamp)

-- `block_timestamp`; `inner` is the inner reader.
abbrev pub block_timestamp : (BlockId → Option ℕ) → CachedReader → BlockId → CachedReader × Option ℕ
block_timestamp inner r block_id = elim (try_from block_id) [
  | none ↦ (r, inner block_id)
  | some block ↦ block_timestamp_of inner r block (lookup (key block) r.cached)
]
