-- ===== src/TokenInfo/Cached.antt =====
-- services-core/src/token_info/cached.rs: a cache over a layer that fetches token information.
-- `requests` are the tokens that the inner layer was asked for, the newest first.
pub mod Remembered
pub mod Complete
pub mod Lowest
pub mod Search
pub mod Tests
use Prim.Native.String.{String}
use dex_services.Prelude.{
  ℕ, zero, suc, not, Bool, true, false, Option, none, some, List, [], ◌∷◌, filter, filter_map, ◌==◌,
  if◌then◌else◌,
}
use dex_services.Assoc.{Assoc, Key, lookup, insert}
use dex_services.TokenInfo.{
  TokenBaseInfo, FetchError, Fetched, TokenInfoFetching, key, search_for_token_by_symbol,
}

pub data CacheEntry : Type 0 where
  token_base_info : TokenBaseInfo → CacheEntry
  unretryable_error : String → CacheEntry

pub record TokenInfoCache : Type 0 where
  pub cache : Assoc CacheEntry
  pub requests : List ℕ

abbrev pub new : TokenInfoCache
new = record { cache = []; requests = [] }

abbrev pub insert_all : List (ℕ × TokenBaseInfo) → Assoc CacheEntry → Assoc CacheEntry
insert_all [] m = m
insert_all (t ∷ ts) m = insert_all ts (insert (key t.0) (CacheEntry.token_base_info t.1) m)

abbrev pub with_cache : List (ℕ × TokenBaseInfo) → TokenInfoCache
with_cache cache = record { cache = insert_all cache []; requests = [] }

abbrev pub cache_entry_to_result : CacheEntry → Fetched TokenBaseInfo
cache_entry_to_result (CacheEntry.token_base_info info) = Fetched.ok info
cache_entry_to_result (CacheEntry.unretryable_error reason) =
    Fetched.err (FetchError.cached_error reason)

-- Whether an answer is kept, and as what: `is_revert` decides for an error.
abbrev pub entry_of : Fetched TokenBaseInfo → Option CacheEntry
entry_of (Fetched.ok info) = some (CacheEntry.token_base_info info)
entry_of (Fetched.err (FetchError.reverted message)) = some (CacheEntry.unretryable_error message)
entry_of (Fetched.err (FetchError.cached_error message)) = none
entry_of (Fetched.err (FetchError.failed message)) = none

abbrev pub store : ℕ → Option CacheEntry → Assoc CacheEntry → Assoc CacheEntry
store id none m = m
store id (some entry) m = insert (key id) entry m

abbrev pub is_some : Option CacheEntry → Bool
is_some none = false
is_some (some entry) = true

abbrev pub contains_key : TokenInfoCache → ℕ → Bool
contains_key c id = is_some (lookup (key id) c.cache)

abbrev pub uncached_tokens : TokenInfoCache → List ℕ → List ℕ
uncached_tokens c ids = filter (λ id. not (contains_key c id)) ids

abbrev pub cached_info : ℕ → CacheEntry → Option TokenBaseInfo
cached_info address (CacheEntry.token_base_info info) =
    if info.address == address then some info else none
cached_info address (CacheEntry.unretryable_error reason) = none

abbrev pub info_of : Key × CacheEntry → Option (ℕ × TokenBaseInfo)
info_of (k, CacheEntry.token_base_info info) = some (k.1, info)
info_of (k, CacheEntry.unretryable_error reason) = none

unfoldable pub find_cached_token_by_symbol : TokenInfoCache → String → Option (ℕ × TokenBaseInfo)
find_cached_token_by_symbol c s = search_for_token_by_symbol (filter_map info_of c.cache) s

abbrev pub found_or :
    ℕ → Option TokenBaseInfo → Option (ℕ × TokenBaseInfo) → Option (ℕ × TokenBaseInfo)
found_or id none rest = rest
found_or id (some info) rest = some (id, info)

abbrev pub find_entry : Assoc CacheEntry → ℕ → Option (ℕ × TokenBaseInfo)
find_entry [] address = none
find_entry (e ∷ m) address = found_or e.0.1 (cached_info address e.1) (find_entry m address)

unfoldable pub find_cached_token_by_address : TokenInfoCache → ℕ → Option (ℕ × TokenBaseInfo)
find_cached_token_by_address c address = find_entry c.cache address

-- The closure of `get_token_infos`: the token with its information, if that is cached.
abbrev pub token_at : ℕ → Option CacheEntry → Option (ℕ × TokenBaseInfo)
token_at id none = none
token_at id (some entry) = info_of (key id, entry)

abbrev pub cached_token : TokenInfoCache → ℕ → Option (ℕ × TokenBaseInfo)
cached_token c id = token_at id (lookup (key id) c.cache)

-- `collect` into a map over token ids.
abbrev pub collect : List (ℕ × TokenBaseInfo) → Assoc TokenBaseInfo → Assoc TokenBaseInfo
collect [] m = m
collect (t ∷ ts) m = collect ts (insert (key t.0) t.1 m)

-- The range `0..n`, from its last element on.
abbrev pub below : ℕ → List ℕ → List ℕ
below zero ids = ids
below (suc n) ids = below n (n ∷ ids)

module _ (inner : TokenInfoFetching) where
  abbrev pub answer :
      TokenInfoCache → ℕ → Fetched TokenBaseInfo → TokenInfoCache × Fetched TokenBaseInfo
  answer c id info =
      (record { cache = store id (entry_of info) c.cache; requests = id ∷ c.requests }, info)

  abbrev pub cached_or_asked :
      TokenInfoCache → ℕ → Option CacheEntry → TokenInfoCache × Fetched TokenBaseInfo
  cached_or_asked c id (some entry) = (c, cache_entry_to_result entry)
  cached_or_asked c id none = answer c id (inner.get_token_info c.requests id)

  unfoldable pub get_token_info : TokenInfoCache → ℕ → TokenInfoCache × Fetched TokenBaseInfo
  get_token_info c id = cached_or_asked c id (lookup (key id) c.cache)

  abbrev pub get_each : TokenInfoCache → List ℕ → TokenInfoCache
  get_each c [] = c
  get_each c (id ∷ ids) = get_each (get_token_info c id).0 ids

  unfoldable pub get_token_infos : TokenInfoCache → List ℕ → TokenInfoCache × Assoc TokenBaseInfo
  get_token_infos c ids =
      let filled = get_each c (uncached_tokens c ids) in
      (filled, collect (filter_map (cached_token filled) ids) [])

  abbrev cache_ids : TokenInfoCache → Fetched (List ℕ) → TokenInfoCache × Fetched (Unit {0})
  cache_ids c (Fetched.err e) = (c, Fetched.err e)
  cache_ids c (Fetched.ok ids) =
      (get_each c (inner.answered (uncached_tokens c ids)), Fetched.ok tt)

  -- `cache_all`, with any number of concurrent requests. Its errors are those of `all_ids`.
  unfoldable pub cache_all : TokenInfoCache → TokenInfoCache × Fetched (Unit {0})
  cache_all c = cache_ids c (inner.all_ids c.requests)

  abbrev after_caching :
      (TokenInfoCache → Option (ℕ × TokenBaseInfo))
      → TokenInfoCache × Fetched (Unit {0})
      → TokenInfoCache × Fetched (Option (ℕ × TokenBaseInfo))
  after_caching find (c, Fetched.err e) = (c, Fetched.err e)
  after_caching find (c, Fetched.ok _) = (c, Fetched.ok (find c))

  abbrev by_symbol :
      TokenInfoCache
      → String
      → Option (ℕ × TokenBaseInfo)
      → TokenInfoCache × Fetched (Option (ℕ × TokenBaseInfo))
  by_symbol c s none = after_caching (λ c'. find_cached_token_by_symbol c' s) (cache_all c)
  by_symbol c s (some (id, info)) =
      let filled = (get_token_infos c (below id [])).0 in
      (filled, Fetched.ok (find_cached_token_by_symbol filled s))

  unfoldable pub find_token_by_symbol :
      TokenInfoCache → String → TokenInfoCache × Fetched (Option (ℕ × TokenBaseInfo))
  find_token_by_symbol c s = by_symbol c s (find_cached_token_by_symbol c s)

  abbrev by_address :
      TokenInfoCache
      → ℕ
      → Option (ℕ × TokenBaseInfo)
      → TokenInfoCache × Fetched (Option (ℕ × TokenBaseInfo))
  by_address c address none =
      after_caching (λ c'. find_cached_token_by_address c' address) (cache_all c)
  by_address c address (some t) = (c, Fetched.ok (some t))

  unfoldable pub find_token_by_address :
      TokenInfoCache → ℕ → TokenInfoCache × Fetched (Option (ℕ × TokenBaseInfo))
  find_token_by_address c address = by_address c address (find_cached_token_by_address c address)
