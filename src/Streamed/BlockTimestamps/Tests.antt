-- ===== src/Streamed/BlockTimestamps/Tests.antt =====
-- services-core/src/orderbook/streamed/block_timestamp_reading.rs: a reader at block 30 that counts
-- the last 25 blocks as unconfirmed.
use dex_services.Prelude.{
  ℕ, ◌≡◌, refl, ◌*◌, ◌%◌, leb, List, All, if◌then◌else◌, Option, none, some, [], ◌∷◌, arith,
}
use mathlib.Core.Path.{subst}
use dex_services.History.Registry.{BlockNumber}
use dex_services.Streamed.BlockTimestamps.{
  cache, Block, BlockId, BlockCacheId, CachedReader, new, update_latest_block, prepare_cache,
  block_timestamp,
}
use dex_services.Streamed.BlockTimestamps.Final.{
  FinalChain, IsFaithful, IsSettled, IsTrustedBlock, Run, block_timestamp-inner,
}

-- Block `n` has a hash that ends with `n`, and the timestamp `10 * n`.
abbrev timestamps : FinalChain
timestamps k = some (10 * (k.1 % 100))

-- Blocks from 6 on still change.
abbrev node : BlockId → Option ℕ
node (BlockId.hash h) = some (10 * (h % 100))
node (BlockId.number BlockNumber.earliest) = some 0
node (BlockId.number BlockNumber.latest) = some 300
node (BlockId.number BlockNumber.pending) = some 301
node (BlockId.number (BlockNumber.number n)) = if leb n 5 then some (10 * (n % 100)) else some 7

abbrev blocks : List ℕ → ℕ → Option (List Block)
blocks hashes size = some (record { hash = 103; number = some 3; timestamp = 30 } ∷ [])

abbrev prepared : CachedReader
prepared = (prepare_cache blocks (new 25) (103 ∷ []) 10 30).0

abbrev AllTrusted : Option (List Block) → Type 0
AllTrusted none = Unit
AllTrusted (some bs) = All (IsTrustedBlock timestamps (update_latest_block (new 25) 30)) bs

-- The number of the only block is 3.
number_3 : (n : ℕ) → some 3 ≡ some n → timestamps (1, n) ≡ some 30
number_3 n e = ground arith

prepared-Run : Run timestamps prepared
prepared-Run =
    Run.prepared (new 25) blocks (103 ∷ []) 10 30 (Run.started 25)
      (λ hs bs e. subst AllTrusted e ((refl, λ n found y. number_3 n found), tt))

node-IsFaithful : IsFaithful timestamps prepared node
unfolding cache
node-IsFaithful (BlockCacheId.hash h) t e y = e
node-IsFaithful (BlockCacheId.number n) t e y = ground arith

hash-IsSettled : IsSettled prepared (BlockId.hash 107)
hash-IsSettled (BlockCacheId.hash h) e = refl
hash-IsSettled (BlockCacheId.number n) e = cc

block_timestamp-inner_example : (block_timestamp node prepared (BlockId.hash 107)).1 ≡ some 70
block_timestamp-inner_example =
    block_timestamp-inner timestamps prepared node (BlockId.hash 107) 70 prepared-Run
      node-IsFaithful hash-IsSettled refl
