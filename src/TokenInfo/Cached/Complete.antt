-- ===== src/TokenInfo/Cached/Complete.antt =====
-- services-core/src/token_info/cached.rs: the cache over an inner layer whose answer for a token
-- does not change, and which lists every token that has information.
use mathlib.Core.List.{Memᴰ}
use dex_services.Prelude.{
  mem-filter, ℕ, ◌≡◌, refl, sym, ◌∙◌, ap, false, not, Option, none, some, List, [], ◌∷◌, Bool-cases,
  Option-cases, inl, inr, All, filter_map,
}
use dex_services.Assoc.{Key, Assoc, lookup, insert, key_eq, eq_of_key_eq}
use dex_services.TokenInfo.{
  TokenBaseInfo, FetchError, Fetched, TokenInfoFetching, key, get_infos_from,
  default_get_token_infos, insert_fetched,
}
use dex_services.TokenInfo.Cached.{
  CacheEntry, TokenInfoCache, entry_of, store, contains_key, uncached_tokens, info_of, is_some,
  token_at, cached_token, collect, get_token_info, get_each, get_token_infos,
}
use dex_services.TokenInfo.Cached.Remembered.{
  Keeps, store-entry, get_token_info-cached, get_token_info-asked, get_each-Keeps,
}

module _ (answers : ℕ → Fetched TokenBaseInfo) where
  -- An entry holds what is answered for its token.
  abbrev pub IsEntry : Key × CacheEntry → Type 0
  IsEntry e = (e.0.0 ≡ 0) × (entry_of (answers e.0.1) ≡ some e.1)

  abbrev pub IsTrue : TokenInfoCache → Type 0
  IsTrue c = All IsEntry c.cache

  -- If the token has information, then it is cached.
  abbrev pub Tried : TokenInfoCache → ℕ → Type 0
  Tried c id =
      (info : TokenBaseInfo)
      → answers id ≡ Fetched.ok info
      → lookup (key id) c.cache ≡ some (CacheEntry.token_base_info info)

  IsEntry-insert :
      (k : Key) (v : CacheEntry) (m : Assoc CacheEntry)
      → All IsEntry m
      → IsEntry (k, v)
      → All IsEntry (insert k v m)
  IsEntry-insert k v [] h e = (e, tt)
  IsEntry-insert k v (x ∷ m) h e = elim (Bool-cases (key_eq k x.0)) [
    | inl y ↦ rw y (e, h.1)
    | inr n ↦ rw n (h.0, IsEntry-insert k v m h.1 e)
  ]

  pub IsEntry-lookup :
      (id : ℕ) (v : CacheEntry) (m : Assoc CacheEntry)
      → All IsEntry m
      → lookup (key id) m ≡ some v
      → entry_of (answers id) ≡ some v
  IsEntry-lookup id v [] h = λ e. cc
  IsEntry-lookup id v (((k, j), x) ∷ m) h = elim (Bool-cases (key_eq (key id) (k, j))) [
    | inl y ↦ rw y (λ e.
        let same = eq_of_key_eq (key id) (k, j) y in
        ap (λ p. entry_of (answers p.1)) same ∙ h.0.1 ∙ e)
    | inr n ↦ rw n (λ e. IsEntry-lookup id v m h.1 e)
  ]

  store-All :
      (id : ℕ) (m : Assoc CacheEntry) (o : Option CacheEntry)
      → entry_of (answers id) ≡ o
      → All IsEntry m
      → All IsEntry (store id o m)
  store-All id m none e h = h
  store-All id m (some entry) e h = IsEntry-insert (key id) entry m h (refl, e)

  entry_of-ok :
      (id : ℕ) (entry : CacheEntry) (info : TokenBaseInfo)
      → entry_of (answers id) ≡ some entry
      → answers id ≡ Fetched.ok info
      → some entry ≡ some (CacheEntry.token_base_info info)
  entry_of-ok id entry info e h = sym e ∙ ap entry_of h

  -- What is read of the cache for a token that was tried is what is answered for it.
  abbrev pub token_of : ℕ → Fetched TokenBaseInfo → Option (ℕ × TokenBaseInfo)
  token_of id (Fetched.ok info) = some (id, info)
  token_of id (Fetched.err e) = none

  token_of-entry :
      (id : ℕ) (r : Fetched TokenBaseInfo) (entry : CacheEntry)
      → entry_of r ≡ some entry
      → info_of (key id, entry) ≡ token_of id r
  token_of-entry id (Fetched.ok info) (CacheEntry.token_base_info t) h = cc
  token_of-entry id (Fetched.ok info) (CacheEntry.unretryable_error m) h = cc
  token_of-entry id (Fetched.err (FetchError.reverted m)) (CacheEntry.token_base_info t) h = cc
  token_of-entry id (Fetched.err (FetchError.reverted m)) (CacheEntry.unretryable_error n) h = refl
  token_of-entry id (Fetched.err (FetchError.cached_error m)) entry h = cc
  token_of-entry id (Fetched.err (FetchError.failed m)) entry h = cc

  token_of-free :
      (c : TokenInfoCache) (id : ℕ) (r : Fetched TokenBaseInfo)
      → Tried c id
      → lookup (key id) c.cache ≡ none
      → answers id ≡ r
      → none ≡ token_of id r
  token_of-free c id (Fetched.ok info) tried free a = let found = tried info a in cc
  token_of-free c id (Fetched.err e) tried free a = refl

  pub cached_token-Tried :
      (c : TokenInfoCache) (id : ℕ)
      → IsTrue c
      → Tried c id
      → cached_token c id ≡ token_of id (answers id)
  cached_token-Tried c id h tried = elim (Option-cases (lookup (key id) c.cache)) [
    | inl free ↦ ap (token_at id) free ∙ token_of-free c id (answers id) tried free refl
    | inr (entry, found) ↦
        ap (token_at id) found
        ∙ token_of-entry id (answers id) entry (IsEntry-lookup id entry c.cache h found)
  ]

  pub Tried-Keeps : (c c' : TokenInfoCache) (id : ℕ) → Keeps c c' → Tried c id → Tried c' id
  Tried-Keeps c c' id keeps tried info a =
      keeps (key id) (CacheEntry.token_base_info info) (tried info a)

  -- A token that is cached already was tried.
  Tried-cached :
      (c : TokenInfoCache) (id : ℕ) → IsTrue c → not (contains_key c id) ≡ false → Tried c id
  Tried-cached c id h has info a = elim (Option-cases (lookup (key id) c.cache)) [
    | inl free ↦ let missing = ap is_some free in cc
    | inr (entry, found) ↦
        found ∙ entry_of-ok id entry info (IsEntry-lookup id entry c.cache h found) a
  ]

  -- Where the uncached ones of some tokens were tried, all of them were.
  pub Tried-uncached :
      (c c' : TokenInfoCache) (ids : List ℕ)
      → IsTrue c
      → Keeps c c'
      → ((id : ℕ) → Memᴰ id (uncached_tokens c ids) → Tried c' id)
      → (id : ℕ) → Memᴰ id ids
      → Tried c' id
  Tried-uncached c c' ids h keeps tried id is = elim (Bool-cases (not (contains_key c id))) [
    | inl new ↦ tried id ((mem-filter (λ j. not (contains_key c j)) id ids).1 (is, new))
    | inr old ↦ Tried-Keeps c c' id keeps (Tried-cached c id h old)
  ]

  module _ (inner : TokenInfoFetching)
      (same : (asked : List ℕ) (id : ℕ) → inner.get_token_info asked id ≡ answers id) where
    pub get_token_info-IsTrue :
        (c : TokenInfoCache) (id : ℕ) → IsTrue c → IsTrue (get_token_info inner c id).0
    get_token_info-IsTrue c id h = elim (Option-cases (lookup (key id) c.cache)) [
      | inl free ↦
          rw (get_token_info-asked inner c id free, same c.requests id)
            (store-All id c.cache (entry_of (answers id)) refl h)
      | inr (entry, found) ↦ rw (get_token_info-cached inner c id entry found) h
    ]

    pub get_token_info-Tried :
        (c : TokenInfoCache) (id : ℕ) → IsTrue c → Tried (get_token_info inner c id).0 id
    get_token_info-Tried c id h info e = elim (Option-cases (lookup (key id) c.cache)) [
      | inl free ↦
          rw (get_token_info-asked inner c id free, same c.requests id, e)
            (store-entry id (CacheEntry.token_base_info info) c.cache)
      | inr (entry, found) ↦
          rw (get_token_info-cached inner c id entry found)
            (found ∙ entry_of-ok id entry info (IsEntry-lookup id entry c.cache h found) e)
    ]

    pub get_each-IsTrue :
        (c : TokenInfoCache) (ids : List ℕ) → IsTrue c → IsTrue (get_each inner c ids)
    get_each-IsTrue c [] h = h
    get_each-IsTrue c (id ∷ ids) h =
        get_each-IsTrue (get_token_info inner c id).0 ids (get_token_info-IsTrue c id h)

    pub get_each-Tried :
        (c : TokenInfoCache) (ids : List ℕ)
        → IsTrue c
        → (id : ℕ) → Memᴰ id ids
        → Tried (get_each inner c ids) id
    get_each-Tried c [] h id is info a = elim is [ ]
    get_each-Tried c (x ∷ ids) h id (Memᴰ.head e) info a = rw e (
        get_each-Keeps inner (get_token_info inner c x).0 ids (key x)
          (CacheEntry.token_base_info info)
          (get_token_info-Tried c x h info (ap answers (sym e) ∙ a)))
    get_each-Tried c (x ∷ ids) h id (Memᴰ.tail is) info a =
        get_each-Tried (get_token_info inner c x).0 ids (get_token_info-IsTrue c x h) id is info a

    pub get_token_infos-IsTrue :
        (c : TokenInfoCache) (ids : List ℕ) → IsTrue c → IsTrue (get_token_infos inner c ids).0
    unfolding get_token_infos
    get_token_infos-IsTrue c ids h = get_each-IsTrue c (uncached_tokens c ids) h

    pub get_token_infos-Tried :
        (c : TokenInfoCache) (ids : List ℕ)
        → IsTrue c
        → (id : ℕ) → Memᴰ id ids
        → Tried (get_token_infos inner c ids).0 id
    unfolding get_token_infos
    get_token_infos-Tried c ids h =
        Tried-uncached c (get_each inner c (uncached_tokens c ids)) ids h
          (get_each-Keeps inner c (uncached_tokens c ids))
          (get_each-Tried c (uncached_tokens c ids) h)

    collect-fetched :
        (c : TokenInfoCache) (asked ids : List ℕ) (m : Assoc TokenBaseInfo)
        → IsTrue c
        → ((id : ℕ) → Memᴰ id ids → Tried c id)
        → collect (filter_map (cached_token c) ids) m ≡ get_infos_from inner asked ids m
    unfolding get_infos_from
    collect-fetched c asked [] m h tried = refl
    collect-fetched c asked (id ∷ ids) m h tried = rw (same asked id) (
        step (answers id) (cached_token-Tried c id h (tried id (Memᴰ.head refl)))
          (λ m'. collect-fetched c (id ∷ asked) ids m' h (λ j is. tried j (Memᴰ.tail is))))
      where
        step :
            (r : Fetched TokenBaseInfo)
            → cached_token c id ≡ token_of id r
            → ((m' : Assoc TokenBaseInfo)
                → collect (filter_map (cached_token c) ids) m'
                  ≡ get_infos_from inner (id ∷ asked) ids m')
            → collect (filter_map (cached_token c) (id ∷ ids)) m
              ≡ get_infos_from inner (id ∷ asked) ids (insert_fetched id r m)
        step (Fetched.ok info) token rest = rw token (rest (insert (key id) info m))
        step (Fetched.err e) token rest = rw token (rest m)

    -- Where the inner layer's answer for a token does not change and the cache holds only such
    -- answers, the cache returns for tokens exactly the map that asking the inner layer for each
    -- of them, by the trait's default method, would return.
    pub get_token_infos-default :
        (c : TokenInfoCache) (asked ids : List ℕ)
        → IsTrue c
        → (get_token_infos inner c ids).1 ≡ default_get_token_infos inner asked ids
    unfolding get_token_infos
    get_token_infos-default c asked ids h =
        collect-fetched (get_each inner c (uncached_tokens c ids)) asked ids []
          (get_each-IsTrue c (uncached_tokens c ids) h)
          (Tried-uncached c (get_each inner c (uncached_tokens c ids)) ids h
            (get_each-Keeps inner c (uncached_tokens c ids))
            (get_each-Tried c (uncached_tokens c ids) h))
