-- ===== src/TokenInfo/Cached/Search.antt =====
-- services-core/src/token_info/cached.rs: finding a token by its symbol or its address.
use Prim.Native.String.{String}
use mathlib.Core.List.{Memᴰ}
use mathlib.Core.Option.{some-injective}
use mathlib.Core.Path.{subst}
use dex_services.Prelude.{
  ℕ, ◌≡◌, ◌≢◌, ◌<◌, refl, ap, true, false, Bool, Option, none, some, List, [], ◌∷◌, Bool-cases, inl,
  inr, if◌then◌else◌, All, zero, suc, arith, ◌==◌,
}
use dex_services.Assoc.{Assoc, lookup, key_eq}
use dex_services.TokenInfo.{TokenBaseInfo, Fetched, TokenInfoFetching, key}
use dex_services.TokenInfo.Cached.{
  CacheEntry, TokenInfoCache, entry_of, uncached_tokens, cached_info, below, get_each,
  get_token_infos, cache_all, cache_ids, find_cached_token_by_symbol, find_cached_token_by_address,
  find_entry, found_or, by_symbol, by_address, find_token_by_symbol, find_token_by_address,
}
use dex_services.TokenInfo.Cached.Remembered.{get_each-Keeps, get_token_infos-Keeps}
use dex_services.TokenInfo.Cached.Complete.{
  IsEntry, IsTrue, Tried, Tried-uncached, get_each-Tried, get_each-IsTrue, get_token_infos-IsTrue,
  get_token_infos-Tried,
}
use dex_services.TokenInfo.Cached.Lowest.{
  entry_of-info, IsLowest, search-Known, found-IsLowest, Before-lt, kept-AtMost,
}

Mem-below : (j n : ℕ) (ids : List ℕ) → Memᴰ j ids → Memᴰ j (below n ids)
Mem-below j zero ids is = is
Mem-below j (suc n) ids is = Mem-below j n (n ∷ ids) (Memᴰ.tail is)

lt-below : (j n : ℕ) (ids : List ℕ) → j < n → Memᴰ j (below n ids)
lt-below j zero ids h = absurd (omega arith)
lt-below j (suc n) ids h = elim (Bool-cases (j == n)) [
  | inl y ↦ Mem-below j n (n ∷ ids) (Memᴰ.head (ground arith))
  | inr n≠ ↦ lt-below j n (n ∷ ids) (ground arith)
]

module _ (answers : ℕ → Fetched TokenBaseInfo) (address : ℕ) where
  -- The token has the address; or no token has it.
  pub IsAddressed : Option (ℕ × TokenBaseInfo) → Type 0
  IsAddressed none =
      (id : ℕ) (info : TokenBaseInfo)
      → answers id ≡ Fetched.ok info
      → (info.address == address) ≡ false
  IsAddressed (some t) = (answers t.0 ≡ Fetched.ok t.1) × ((t.1.address == address) ≡ true)

  entry-IsAddressed :
      (id : ℕ) (entry : CacheEntry) (rest : Option (ℕ × TokenBaseInfo)) (t : ℕ × TokenBaseInfo)
      → entry_of (answers id) ≡ some entry
      → (rest ≡ some t → IsAddressed (some t))
      → found_or id (cached_info address entry) rest ≡ some t
      → IsAddressed (some t)
  unfolding IsAddressed
  entry-IsAddressed id (CacheEntry.unretryable_error reason) rest t a h = h
  entry-IsAddressed id (CacheEntry.token_base_info info) rest t a h =
      elim (Bool-cases (info.address == address)) [
        | inl y ↦ rw y (λ e.
            subst (λ x. IsAddressed (some x)) (some-injective _ _ e)
              (entry_of-info (answers id) info a, y))
        | inr n ↦ rw n h
      ]

  find_entry-IsAddressed :
      (m : Assoc CacheEntry) (t : ℕ × TokenBaseInfo)
      → All (IsEntry answers) m
      → find_entry m address ≡ some t
      → IsAddressed (some t)
  find_entry-IsAddressed [] t h e = cc
  find_entry-IsAddressed (x ∷ m) t h e =
      entry-IsAddressed x.0.1 x.1 (find_entry m address) t h.0.1 (find_entry-IsAddressed m t h.1) e

  found_or-some :
      (id : ℕ) (o : Option TokenBaseInfo) (rest : Option (ℕ × TokenBaseInfo))
      → rest ≢ none
      → found_or id o rest ≢ none
  found_or-some id none rest h = h
  found_or-some id (some info) rest h = λ e. cc

  find_entry-found :
      (id : ℕ) (info : TokenBaseInfo) (m : Assoc CacheEntry)
      → (info.address == address) ≡ true
      → lookup (key id) m ≡ some (CacheEntry.token_base_info info)
      → find_entry m address ≢ none
  find_entry-found id info [] y h = cc
  find_entry-found id info (x ∷ m) y h = go (key_eq (key id) x.0) h (find_entry-found id info m y)
    where
      go :
          (b : Bool)
          → (if b then some x.1 else lookup (key id) m) ≡ some (CacheEntry.token_base_info info)
          → (lookup (key id) m ≡ some (CacheEntry.token_base_info info)
              → find_entry m address ≢ none)
          → find_entry (x ∷ m) address ≢ none
      go false found rest =
          found_or-some x.0.1 (cached_info address x.1) (find_entry m address) (rest found)
      go true found rest = rw (some-injective _ _ found, y) (λ e. cc)

  found-IsAddressed :
      (c : TokenInfoCache) (r : Option (ℕ × TokenBaseInfo))
      → IsTrue answers c
      → find_cached_token_by_address c address ≡ r
      → ((id : ℕ) → r ≡ none → Tried answers c id)
      → IsAddressed r
  unfolding IsAddressed find_cached_token_by_address
  found-IsAddressed c (some t) h e tried = find_entry-IsAddressed c.cache t h e
  found-IsAddressed c none h e tried = λ id info a. elim (Bool-cases (info.address == address)) [
    | inr n ↦ n
    | inl y ↦ absurd (find_entry-found id info c.cache y (tried id refl info a) e)
  ]

module _ (answers : ℕ → Fetched TokenBaseInfo) where
  module _ (inner : TokenInfoFetching)
      (same : (asked : List ℕ) (id : ℕ) → inner.get_token_info asked id ≡ answers id) (ids : List ℕ)
      (all_ids : (asked : List ℕ) → inner.all_ids asked ≡ Fetched.ok ids)
      (listed : (id : ℕ) (info : TokenBaseInfo) → answers id ≡ Fetched.ok info → Memᴰ id ids)
      (answered : (xs : List ℕ) (id : ℕ) → Memᴰ id xs → Memᴰ id (inner.answered xs)) where
    -- After `cache_all` every token was tried.
    cache_all-Tried :
        (c : TokenInfoCache)
        → IsTrue answers c
        → (filled : TokenInfoCache) × (cache_all inner c ≡ (filled, Fetched.ok tt))
          × IsTrue answers filled
          × ((id : ℕ) → Tried answers filled id)
    unfolding cache_all
    cache_all-Tried c h =
        let asked = inner.answered (uncached_tokens c ids) in
        let filled = get_each inner c asked in
        (
          filled,
          ap (cache_ids inner c) (all_ids c.requests),
          get_each-IsTrue answers inner same c asked h,
          λ id info a.
              Tried-uncached answers c filled ids h (get_each-Keeps inner c asked)
                (λ j is.
                  get_each-Tried answers inner same c asked h j
                    (answered (uncached_tokens c ids) j is))
                id (listed id info a) info a,
        )

    -- The search by symbol with a cache of true entries, over an inner layer whose answers do not
    -- change and that lists every token with information, ends with the token of the lowest id
    -- that has the symbol, or with none where no token has it; the entries stay true.
    pub find_token_by_symbol_lem :
        (c : TokenInfoCache) (s : String)
        → IsTrue answers c
        → (r : Option (ℕ × TokenBaseInfo)) × ((find_token_by_symbol inner c s).1 ≡ Fetched.ok r)
          × IsLowest answers s r
          × IsTrue answers (find_token_by_symbol inner c s).0
    unfolding find_token_by_symbol
    find_token_by_symbol_lem c s h = go (find_cached_token_by_symbol c s) refl
      where
        go :
            (o : Option (ℕ × TokenBaseInfo))
            → find_cached_token_by_symbol c s ≡ o
            → (r : Option (ℕ × TokenBaseInfo)) × ((by_symbol inner c s o).1 ≡ Fetched.ok r)
              × IsLowest answers s r
              × IsTrue answers (by_symbol inner c s o).0
        go none e =
            let (filled, eq, true_filled, tried) = cache_all-Tried c h in
            (
              find_cached_token_by_symbol filled s,
              rw eq refl,
              found-IsLowest answers s filled (find_cached_token_by_symbol filled s) true_filled
                  refl (λ j before. tried j),
              rw eq true_filled,
            )
        go (some t) e =
            let filled = (get_token_infos inner c (below t.0 [])).0 in
            let known = search-Known answers s c t h e in
            let most =
              kept-AtMost answers s c filled t known.0 known.1 h
                (get_token_infos-Keeps inner c (below t.0 [])) in
            (
              find_cached_token_by_symbol filled s,
              refl,
              found-IsLowest answers s filled (find_cached_token_by_symbol filled s)
                  (get_token_infos-IsTrue answers inner same c (below t.0 []) h) refl
                  (λ j before. get_token_infos-Tried answers inner same c (below t.0 []) h j (
                    lt-below j t.0 [] (
                      Before-lt answers s j t.0 (find_cached_token_by_symbol filled s) most
                        before))),
              get_token_infos-IsTrue answers inner same c (below t.0 []) h,
            )

    -- The search by address with such a cache and inner layer ends with a token that has the
    -- address, or with none where no token has it; the entries stay true.
    pub find_token_by_address_lem :
        (c : TokenInfoCache) (address : ℕ)
        → IsTrue answers c
        → (r : Option (ℕ × TokenBaseInfo)) × ((find_token_by_address inner c address).1
            ≡ Fetched.ok r)
          × IsAddressed answers address r
          × IsTrue answers (find_token_by_address inner c address).0
    unfolding find_token_by_address
    find_token_by_address_lem c address h = go (find_cached_token_by_address c address) refl
      where
        go :
            (o : Option (ℕ × TokenBaseInfo))
            → find_cached_token_by_address c address ≡ o
            → (r : Option (ℕ × TokenBaseInfo)) × ((by_address inner c address o).1 ≡ Fetched.ok r)
              × IsAddressed answers address r
              × IsTrue answers (by_address inner c address o).0
        go none e =
            let (filled, eq, true_filled, tried) = cache_all-Tried c h in
            (
              find_cached_token_by_address filled address,
              rw eq refl,
              found-IsAddressed answers address filled (find_cached_token_by_address filled address)
                  true_filled refl (λ id n. tried id),
              rw eq true_filled,
            )
        go (some t) e =
            (some t, refl, found-IsAddressed answers address c (some t) h e (λ id n. cc), h)
