-- ===== src/Streamed/BlockTimestamps/Final.antt =====
-- services-core/src/orderbook/streamed/block_timestamp_reading.rs: the cache against a chain whose
-- last blocks change.
use dex_services.Prelude.{
  Bool-cases, inl, inr, sym, ◌∙◌, Bool, ap, if◌then◌else◌, ℕ, ◌≡◌, refl, true, false, Option, none,
  some, List, [], ◌∷◌, All,
}
use dex_services.Assoc.{
  Assoc, Key, lookup, insert, lookup-insert, key_eq, eq_of_key_eq, key_eq_self,
}
use dex_services.History.Registry.{BlockNumber}
use dex_services.Streamed.BlockTimestamps.{
  BlockId, BlockCacheId, try_from, into, key, CachedReader, new, update_latest_block, is_cacheable,
  cache, Block, cache_number, cache_blocks, prepare_cache, block_timestamp, block_timestamp_of,
  cache_answer, cache_found,
}

-- The timestamps of all blocks once no block changes any more.
abbrev pub FinalChain : Type 0
FinalChain = Key → Option ℕ

-- What the cache holds is final.
IsFinal : FinalChain → Assoc ℕ → Type 0
IsFinal final m = (j : Key) (t : ℕ) → lookup j m ≡ some t → final j ≡ some t

IsFinal-lookup :
    (final : FinalChain) (k : Key) (v : ℕ) (m : Assoc ℕ)
    → IsFinal final m
    → final k ≡ some v
    → (j : Key) (t : ℕ) (same : Bool) → key_eq j k ≡ same
    → (if same then some v else lookup j m) ≡ some t
    → final j ≡ some t
unfolding IsFinal
IsFinal-lookup final k v m h e j t true same found = let j≡k = eq_of_key_eq j k same in cc
IsFinal-lookup final k v m h e j t false same found = h j t found

IsFinal-insert :
    (final : FinalChain) (k : Key) (v : ℕ) (m : Assoc ℕ)
    → IsFinal final m
    → final k ≡ some v
    → IsFinal final (insert k v m)
unfolding IsFinal
IsFinal-insert final k v m h e j t found =
    IsFinal-lookup final k v m h e j t (key_eq j k) refl (sym (lookup-insert k j v m) ∙ found)

-- What is cached of an answer is final.
abbrev IsTrusted : FinalChain → CachedReader → BlockCacheId → ℕ → Type 0
IsTrusted final r block t = is_cacheable r block ≡ true → final (key block) ≡ some t

IsFinal-cache :
    (final : FinalChain) (r : CachedReader) (block : BlockCacheId) (t : ℕ)
    → IsFinal final r.cached
    → IsTrusted final r block t
    → IsFinal final (cache r block t).cached
unfolding cache
IsFinal-cache final r block t h e = elim (Bool-cases (is_cacheable r block)) [
  | inl y ↦ rw y (IsFinal-insert final (key block) t r.cached h (e y))
  | inr n ↦ rw n h
]

-- Two readers that count the same blocks as confirmed.
abbrev AreLevel : CachedReader → CachedReader → Type 0
AreLevel r r' = (block : BlockCacheId) → is_cacheable r' block ≡ is_cacheable r block

cache-AreLevel : (r : CachedReader) (block : BlockCacheId) (t : ℕ) → AreLevel r (cache r block t)
unfolding cache
cache-AreLevel r block t (BlockCacheId.hash h) = refl
cache-AreLevel r block t (BlockCacheId.number n) = elim (Bool-cases (is_cacheable r block)) [
  | inl y ↦ rw y refl
  | inr n ↦ rw n refl
]

-- What is cached of a block is final.
abbrev pub IsTrustedBlock : FinalChain → CachedReader → Block → Type 0
IsTrustedBlock final r b =
    (final (key (BlockCacheId.hash b.hash)) ≡ some b.timestamp)
    × ((n : ℕ) → b.number ≡ some n → IsTrusted final r (BlockCacheId.number n) b.timestamp)

IsFinal-cache_number :
    (final : FinalChain) (r : CachedReader) (number : Option ℕ) (t : ℕ)
    → IsFinal final r.cached
    → ((n : ℕ) → number ≡ some n → IsTrusted final r (BlockCacheId.number n) t)
    → IsFinal final (cache_number r number t).cached × AreLevel r (cache_number r number t)
IsFinal-cache_number final r none t h e = (h, λ block. refl)
IsFinal-cache_number final r (some n) t h e =
    (IsFinal-cache final r (BlockCacheId.number n) t h (e n refl), cache-AreLevel r _ t)

IsFinal-cache_blocks :
    (final : FinalChain) (r r' : CachedReader) (bs : List Block)
    → AreLevel r r'
    → IsFinal final r'.cached
    → All (IsTrustedBlock final r) bs
    → IsFinal final (cache_blocks r' bs).cached
IsFinal-cache_blocks final r r' [] level h e = h
IsFinal-cache_blocks final r r' (b ∷ bs) level h e =
    let first = cache r' (BlockCacheId.hash b.hash) b.timestamp in
    let level_first = cache-AreLevel r' (BlockCacheId.hash b.hash) b.timestamp in
    let second =
      IsFinal-cache_number final first b.number b.timestamp
        (IsFinal-cache final r' (BlockCacheId.hash b.hash) b.timestamp h (λ y. e.0.0))
        (λ n found y.
          e.0.1 n found (
            sym (level (BlockCacheId.number n)) ∙ sym (level_first (BlockCacheId.number n)) ∙ y)) in
    IsFinal-cache_blocks final r (cache_number first b.number b.timestamp) bs
      (λ block. second.1 block ∙ level_first block ∙ level block) second.0 e.1

-- A node whose answers for hashes and for confirmed blocks are final.
abbrev pub IsFaithful : FinalChain → CachedReader → (BlockId → Option ℕ) → Type 0
IsFaithful final r inner =
    (block : BlockCacheId) (t : ℕ) → inner (into block) ≡ some t → IsTrusted final r block t

-- A reader after calls to nodes whose answers are final where they are confirmed.
pub data Run (final : FinalChain) : CachedReader → Type 0 where
  started : (confirmation_count : ℕ) → Run final (new confirmation_count)
  updated : (r : CachedReader) (n : ℕ) → Run final r → Run final (update_latest_block r n)
  prepared :
      (r : CachedReader) (blocks : List ℕ → ℕ → Option (List Block)) (hashes : List ℕ) (size n : ℕ)
      → Run final r
      → ((hs : List ℕ) (bs : List Block)
          → blocks hs size ≡ some bs
          → All (IsTrustedBlock final (update_latest_block r n)) bs)
      → Run final (prepare_cache blocks r hashes size n).0
  asked :
      (r : CachedReader) (inner : BlockId → Option ℕ) (block_id : BlockId)
      → Run final r
      → IsFaithful final r inner
      → Run final (block_timestamp inner r block_id).0

IsFinal-block_timestamp_of :
    (final : FinalChain) (r : CachedReader) (inner : BlockId → Option ℕ) (block : BlockCacheId)
    (answer : Option ℕ)
    → IsFinal final r.cached
    → inner (into block) ≡ answer
    → IsFaithful final r inner
    → IsFinal final (cache_answer r block answer).0.cached
IsFinal-block_timestamp_of final r inner block none h known e = h
IsFinal-block_timestamp_of final r inner block (some t) h known e =
    IsFinal-cache final r block t h (e block t known)

IsFinal-looked_up :
    (final : FinalChain) (r : CachedReader) (inner : BlockId → Option ℕ) (block : BlockCacheId)
    (found : Option ℕ)
    → IsFinal final r.cached
    → IsFaithful final r inner
    → IsFinal final (block_timestamp_of inner r block found).0.cached
IsFinal-looked_up final r inner block none h e =
    IsFinal-block_timestamp_of final r inner block (inner (into block)) h refl e
IsFinal-looked_up final r inner block (some t) h e = h

IsFinal-block_timestamp :
    (final : FinalChain) (r : CachedReader) (inner : BlockId → Option ℕ) (block_id : BlockId)
    → IsFinal final r.cached
    → IsFaithful final r inner
    → IsFinal final (block_timestamp inner r block_id).0.cached
IsFinal-block_timestamp final r inner (BlockId.hash b) h e =
    IsFinal-looked_up final r inner (BlockCacheId.hash b) _ h e
IsFinal-block_timestamp final r inner (BlockId.number (BlockNumber.number n)) h e =
    IsFinal-looked_up final r inner (BlockCacheId.number n) _ h e
IsFinal-block_timestamp final r inner (BlockId.number BlockNumber.earliest) h e = h
IsFinal-block_timestamp final r inner (BlockId.number BlockNumber.latest) h e = h
IsFinal-block_timestamp final r inner (BlockId.number BlockNumber.pending) h e = h

IsFinal-cache_found :
    (final : FinalChain) (r : CachedReader) (found : Option (List Block))
    → IsFinal final r.cached
    → ((bs : List Block) → found ≡ some bs → All (IsTrustedBlock final r) bs)
    → IsFinal final (cache_found r found).0.cached
IsFinal-cache_found final r none h e = h
IsFinal-cache_found final r (some bs) h e =
    IsFinal-cache_blocks final r r bs (λ block. refl) h (e bs refl)

-- Whatever the reader has cached after calls is final.
run-IsFinal : (final : FinalChain) (r : CachedReader) → Run final r → IsFinal final r.cached
unfolding IsFinal
run-IsFinal final _ (started count) = λ j t found. cc
run-IsFinal final _ (updated r n run) = run-IsFinal final r run
run-IsFinal final _ (prepared r blocks hashes size n run e) =
    IsFinal-cache_found final (update_latest_block r n) _ (run-IsFinal final r run) (e _)
run-IsFinal final _ (asked r inner block_id run e) =
    IsFinal-block_timestamp final r inner block_id (run-IsFinal final r run) e

block_timestamp_of-inner :
    (final : FinalChain) (r : CachedReader) (inner : BlockId → Option ℕ) (block : BlockCacheId)
    (t : ℕ) (found : Option ℕ)
    → ((v : ℕ) → found ≡ some v → final (key block) ≡ some v)
    → final (key block) ≡ some t
    → inner (into block) ≡ some t
    → (block_timestamp_of inner r block found).1 ≡ some t
block_timestamp_of-inner final r inner block t none h e known = rw known refl
block_timestamp_of-inner final r inner block t (some v) h e known = sym (h v refl) ∙ e

-- The request is for a hash, a confirmed block or one of the special values.
abbrev pub IsSettled : CachedReader → BlockId → Type 0
IsSettled r block_id =
    (block : BlockCacheId) → try_from block_id ≡ some block → is_cacheable r block ≡ true

-- After calls to nodes whose answers for hashes and for the then confirmed blocks are final, the
-- reader answers as the node does wherever the node answers and the request is for a hash, a
-- confirmed block or one of the special values.
pub block_timestamp-inner :
    (final : FinalChain) (r : CachedReader) (inner : BlockId → Option ℕ) (block_id : BlockId)
    (t : ℕ)
    → Run final r
    → IsFaithful final r inner
    → IsSettled r block_id
    → inner block_id ≡ some t
    → (block_timestamp inner r block_id).1 ≡ some t
unfolding IsFinal
block_timestamp-inner final r inner (BlockId.hash h) t run e settled known =
    block_timestamp_of-inner final r inner (BlockCacheId.hash h) t _
      (run-IsFinal final r run (0, h)) (e (BlockCacheId.hash h) t known refl) known
block_timestamp-inner final r inner (BlockId.number (BlockNumber.number n)) t run e settled known =
    block_timestamp_of-inner final r inner (BlockCacheId.number n) t _
      (run-IsFinal final r run (1, n))
      (e (BlockCacheId.number n) t known (settled (BlockCacheId.number n) refl)) known
block_timestamp-inner final r inner (BlockId.number BlockNumber.earliest) t run e settled known =
    known
block_timestamp-inner final r inner (BlockId.number BlockNumber.latest) t run e settled known =
    known
block_timestamp-inner final r inner (BlockId.number BlockNumber.pending) t run e settled known =
    known

cache-lookup :
    (r : CachedReader) (block : BlockCacheId) (t : ℕ)
    → is_cacheable r block ≡ true
    → lookup (key block) (cache r block t).cached ≡ some t
unfolding cache
cache-lookup r block t h =
    rw h (lookup-insert (key block) (key block) t r.cached ∙ rw (key_eq_self (key block)) refl)

cache_answer-lookup :
    (r : CachedReader) (block : BlockCacheId) (t : ℕ) (answer : Option ℕ)
    → is_cacheable r block ≡ true
    → (cache_answer r block answer).1 ≡ some t
    → lookup (key block) (cache_answer r block answer).0.cached ≡ some t
cache_answer-lookup r block t none h got = cc
cache_answer-lookup r block t (some v) h got = cache-lookup r block v h ∙ got

block_timestamp_of-lookup :
    (inner : BlockId → Option ℕ) (r : CachedReader) (block : BlockCacheId) (t : ℕ)
    (found : Option ℕ)
    → lookup (key block) r.cached ≡ found
    → is_cacheable r block ≡ true
    → (block_timestamp_of inner r block found).1 ≡ some t
    → lookup (key block) (block_timestamp_of inner r block found).0.cached ≡ some t
block_timestamp_of-lookup inner r block t (some v) e h got = e ∙ got
block_timestamp_of-lookup inner r block t none e h got =
    cache_answer-lookup r block t (inner (into block)) h got

-- Once a request for a hash or a confirmed block is answered, the next request for it is answered
-- in the same way from the cache, whatever the node would then say, and changes nothing.
pub block_timestamp-again :
    (inner inner' : BlockId → Option ℕ) (r : CachedReader) (block : BlockCacheId) (t : ℕ)
    → is_cacheable r block ≡ true
    → (block_timestamp inner r (into block)).1 ≡ some t
    → let r' = (block_timestamp inner r (into block)).0 in
      block_timestamp inner' r' (into block) ≡ (r', some t)
block_timestamp-again inner inner' r (BlockCacheId.hash b) t h got =
    ap (block_timestamp_of inner' _ (BlockCacheId.hash b))
      (block_timestamp_of-lookup inner r (BlockCacheId.hash b) t _ refl h got)
block_timestamp-again inner inner' r (BlockCacheId.number n) t h got =
    ap (block_timestamp_of inner' _ (BlockCacheId.number n))
      (block_timestamp_of-lookup inner r (BlockCacheId.number n) t _ refl h got)
