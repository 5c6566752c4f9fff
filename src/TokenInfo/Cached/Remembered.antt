-- ===== src/TokenInfo/Cached/Remembered.antt =====
-- services-core/src/token_info/cached.rs: what the cache holds is kept by every call.
use Prim.Native.String.{String}
use dex_services.Prelude.{
  ℕ, ◌≡◌, refl, ◌∙◌, ap, Option, none, some, List, [], ◌∷◌, Bool-cases, Option-cases, inl, inr,
}
use dex_services.Assoc.{Key, Assoc, lookup, lookup-insert, key_eq, eq_of_key_eq, key_eq_self}
use dex_services.TokenInfo.{TokenBaseInfo, FetchError, Fetched, TokenInfoFetching, key}
use dex_services.TokenInfo.Cached.{
  CacheEntry, TokenInfoCache, cache_entry_to_result, entry_of, store, uncached_tokens, answer,
  cached_or_asked, get_token_info, get_each, get_token_infos, cache_all, cache_ids,
  find_cached_token_by_symbol, find_cached_token_by_address, after_caching, by_symbol,
  find_token_by_symbol, by_address, find_token_by_address, below,
}

-- All that is cached before is cached after.
abbrev pub Keeps : TokenInfoCache → TokenInfoCache → Type 0
Keeps c c' = (k : Key) (e : CacheEntry) → lookup k c.cache ≡ some e → lookup k c'.cache ≡ some e

lookup-store :
    (id : ℕ) (o : Option CacheEntry) (m : Assoc CacheEntry) (k : Key) (e : CacheEntry)
    → lookup (key id) m ≡ none
    → lookup k m ≡ some e
    → lookup k (store id o m) ≡ some e
lookup-store id none m k e free h = h
lookup-store id (some entry) m k e free h = elim (Bool-cases (key_eq k (key id))) [
  | inl y ↦ let same = eq_of_key_eq k (key id) y in cc
  | inr n ↦ lookup-insert (key id) k entry m ∙ rw n h
]

pub store-entry :
    (id : ℕ) (entry : CacheEntry) (m : Assoc CacheEntry)
    → lookup (key id) (store id (some entry) m) ≡ some entry
store-entry id entry m = lookup-insert (key id) (key id) entry m ∙ rw (key_eq_self (key id)) refl

module _ (inner : TokenInfoFetching) where
  pub get_token_info-cached :
      (c : TokenInfoCache) (id : ℕ) (entry : CacheEntry)
      → lookup (key id) c.cache ≡ some entry
      → get_token_info inner c id ≡ (c, cache_entry_to_result entry)
  unfolding get_token_info
  get_token_info-cached c id entry h = ap (cached_or_asked inner c id) h

  pub get_token_info-asked :
      (c : TokenInfoCache) (id : ℕ)
      → lookup (key id) c.cache ≡ none
      → get_token_info inner c id ≡ answer inner c id (inner.get_token_info c.requests id)
  unfolding get_token_info
  get_token_info-asked c id h = ap (cached_or_asked inner c id) h

  pub get_token_info-Keeps : (c : TokenInfoCache) (id : ℕ) → Keeps c (get_token_info inner c id).0
  get_token_info-Keeps c id k e h = elim (Option-cases (lookup (key id) c.cache)) [
    | inl free ↦
        rw (get_token_info-asked c id free)
          (lookup-store id (entry_of (inner.get_token_info c.requests id)) c.cache k e free h)
    | inr (entry, found) ↦ rw (get_token_info-cached c id entry found) h
  ]

  pub get_each-Keeps : (c : TokenInfoCache) (ids : List ℕ) → Keeps c (get_each inner c ids)
  get_each-Keeps c [] k e h = h
  get_each-Keeps c (id ∷ ids) k e h =
      get_each-Keeps (get_token_info inner c id).0 ids k e (get_token_info-Keeps c id k e h)

  pub get_token_infos-Keeps :
      (c : TokenInfoCache) (ids : List ℕ) → Keeps c (get_token_infos inner c ids).0
  unfolding get_token_infos
  get_token_infos-Keeps c ids = get_each-Keeps c (uncached_tokens c ids)

  cache_ids-Keeps :
      (c : TokenInfoCache) (ids : Fetched (List ℕ)) → Keeps c (cache_ids inner c ids).0
  cache_ids-Keeps c (Fetched.ok ids) k x h =
      get_each-Keeps c (inner.answered (uncached_tokens c ids)) k x h
  cache_ids-Keeps c (Fetched.err e) k x h = h

  pub cache_all-Keeps : (c : TokenInfoCache) → Keeps c (cache_all inner c).0
  unfolding cache_all
  cache_all-Keeps c = cache_ids-Keeps c (inner.all_ids c.requests)

  after_caching-cache :
      (find : TokenInfoCache → Option (ℕ × TokenBaseInfo)) (r : TokenInfoCache × Fetched (Unit {0}))
      → (after_caching inner find r).0 ≡ r.0
  after_caching-cache find (c, Fetched.ok t) = refl
  after_caching-cache find (c, Fetched.err e) = refl

  find_token_by_symbol-Keeps :
      (c : TokenInfoCache) (s : String) → Keeps c (find_token_by_symbol inner c s).0
  unfolding find_token_by_symbol
  find_token_by_symbol-Keeps c s = by_symbol-Keeps (find_cached_token_by_symbol c s)
    where
      by_symbol-Keeps : (o : Option (ℕ × TokenBaseInfo)) → Keeps c (by_symbol inner c s o).0
      by_symbol-Keeps none =
          rw (after_caching-cache (λ c'. find_cached_token_by_symbol c' s) (cache_all inner c))
            (cache_all-Keeps c)
      by_symbol-Keeps (some (id, info)) = get_token_infos-Keeps c (below id [])

  find_token_by_address-Keeps :
      (c : TokenInfoCache) (address : ℕ) → Keeps c (find_token_by_address inner c address).0
  unfolding find_token_by_address
  find_token_by_address-Keeps c address = by_address-Keeps (find_cached_token_by_address c address)
    where
      by_address-Keeps : (o : Option (ℕ × TokenBaseInfo)) → Keeps c (by_address inner c address o).0
      by_address-Keeps none k e h =
          rw
            (after_caching-cache (λ c'. find_cached_token_by_address c' address)
              (cache_all inner c))
            (cache_all-Keeps c k e h)
      by_address-Keeps (some t) k e h = h

-- The calls of a cache, each with the inner layer as it is then.
pub data Call : Type 0 where
  info : ℕ → Call
  infos : List ℕ → Call
  all : Call
  symbol : String → Call
  address : ℕ → Call

abbrev pub call : TokenInfoFetching → TokenInfoCache → Call → TokenInfoCache
call inner c (Call.info id) = (get_token_info inner c id).0
call inner c (Call.infos ids) = (get_token_infos inner c ids).0
call inner c Call.all = (cache_all inner c).0
call inner c (Call.symbol s) = (find_token_by_symbol inner c s).0
call inner c (Call.address a) = (find_token_by_address inner c a).0

abbrev pub calls : TokenInfoCache → List (TokenInfoFetching × Call) → TokenInfoCache
calls c [] = c
calls c (x ∷ xs) = calls (call x.0 c x.1) xs

call-Keeps : (inner : TokenInfoFetching) (c : TokenInfoCache) (x : Call) → Keeps c (call inner c x)
call-Keeps inner c (Call.info id) = get_token_info-Keeps inner c id
call-Keeps inner c (Call.infos ids) = get_token_infos-Keeps inner c ids
call-Keeps inner c Call.all = cache_all-Keeps inner c
call-Keeps inner c (Call.symbol s) = find_token_by_symbol-Keeps inner c s
call-Keeps inner c (Call.address a) = find_token_by_address-Keeps inner c a

calls-Keeps : (c : TokenInfoCache) (xs : List (TokenInfoFetching × Call)) → Keeps c (calls c xs)
calls-Keeps c [] k e h = h
calls-Keeps c (x ∷ xs) k e h = calls-Keeps (call x.0 c x.1) xs k e (call-Keeps x.0 c x.1 k e h)

entry_of-cached :
    (entry kept : CacheEntry)
    → entry_of (cache_entry_to_result entry) ≡ some kept
    → some entry ≡ some kept
entry_of-cached (CacheEntry.token_base_info t) kept h = h
entry_of-cached (CacheEntry.unretryable_error reason) kept h = cc

stored :
    (inner : TokenInfoFetching) (c : TokenInfoCache) (id : ℕ) (kept : CacheEntry)
    → entry_of (get_token_info inner c id).1 ≡ some kept
    → lookup (key id) (get_token_info inner c id).0.cache ≡ some kept
stored inner c id kept = elim (Option-cases (lookup (key id) c.cache)) [
  | inl free ↦ rw (get_token_info-asked inner c id free) (λ h. rw h (store-entry id kept c.cache))
  | inr (entry, found) ↦
      rw (get_token_info-cached inner c id entry found) (λ h. found ∙ entry_of-cached entry kept h)
]

-- What later requests are answered with, once a request was: the same information, or the message
-- of the reverted call as an error of the cache. Other errors say nothing of later answers.
pub IsLasting : Fetched TokenBaseInfo → Fetched TokenBaseInfo → Type 0
IsLasting (Fetched.ok t) later = later ≡ Fetched.ok t
IsLasting (Fetched.err (FetchError.reverted m)) later =
    later ≡ Fetched.err (FetchError.cached_error m)
IsLasting (Fetched.err (FetchError.cached_error m)) later = Unit
IsLasting (Fetched.err (FetchError.failed m)) later = Unit

-- The information or the reverted call, which a request may be answered with for good.
unfoldable pub IsFinal : Fetched TokenBaseInfo → Type 0
IsFinal (Fetched.ok t) = Unit
IsFinal (Fetched.err (FetchError.reverted m)) = Unit
IsFinal (Fetched.err (FetchError.cached_error m)) = ⊥
IsFinal (Fetched.err (FetchError.failed m)) = ⊥

kept_entry :
    (r : Fetched TokenBaseInfo)
    → IsFinal r
    → (kept : CacheEntry) × (entry_of r ≡ some kept) × IsLasting r (cache_entry_to_result kept)
unfolding IsLasting IsFinal
kept_entry (Fetched.ok t) h = (CacheEntry.token_base_info t, refl, refl)
kept_entry (Fetched.err (FetchError.reverted m)) h = (CacheEntry.unretryable_error m, refl, refl)
kept_entry (Fetched.err (FetchError.cached_error m)) h = absurd h
kept_entry (Fetched.err (FetchError.failed m)) h = absurd h

-- Once a request for a token is answered with its information or with a reverted call, then after
-- any further calls, whatever the inner layer has become, a request for the token asks nothing
-- and changes nothing, and is answered with that information, or with an error of the cache with
-- the same message.
pub get_token_info-again :
    (inner : TokenInfoFetching) (c : TokenInfoCache) (id : ℕ) (xs : List (TokenInfoFetching × Call))
    (inner' : TokenInfoFetching)
    → IsFinal (get_token_info inner c id).1
    → let later = calls (get_token_info inner c id).0 xs in
      ((get_token_info inner' later id).0 ≡ later)
      × IsLasting (get_token_info inner c id).1 (get_token_info inner' later id).1
get_token_info-again inner c id xs inner' h =
    let (kept, e, lasting) = kept_entry (get_token_info inner c id).1 h in
    let found =
      calls-Keeps (get_token_info inner c id).0 xs (key id) kept (stored inner c id kept e) in
    rw (get_token_info-cached inner' (calls (get_token_info inner c id).0 xs) id kept found)
      (refl, lasting)
