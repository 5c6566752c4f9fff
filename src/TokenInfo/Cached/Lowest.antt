-- ===== src/TokenInfo/Cached/Lowest.antt =====
-- services-core/src/token_info/cached.rs: the token of the lowest id that has a symbol.
use Prim.Native.String.{String}
use mathlib.Core.Option.{some-injective}
use mathlib.Core.Path.{subst}
use dex_services.Prelude.{
  ℕ, ◌≡◌, ◌<◌, ◌≤◌, refl, sym, ◌∙◌, ap, true, false, Bool, Option, none, some, List, [], ◌∷◌,
  Bool-cases, inl, inr, if◌then◌else◌, All, All-imp, All-filter, filter-All, filter_map, filter,
  arith, leb,
}
use dex_services.Assoc.{Key, Assoc, lookup, key_eq, eq_of_key_eq, key_eq_self}
use dex_services.TokenInfo.{
  TokenBaseInfo, FetchError, Fetched, key, matches_symbol, lower, min_by_id,
  search_for_token_by_symbol,
}
use dex_services.TokenInfo.Cached.{
  CacheEntry, TokenInfoCache, entry_of, info_of, find_cached_token_by_symbol,
}
use dex_services.TokenInfo.Cached.Remembered.{Keeps}
use dex_services.TokenInfo.Cached.Complete.{IsEntry, IsTrue, Tried, IsEntry-lookup}

-- A token id that is not above a number.
pub AtMost : ℕ → Option (ℕ × TokenBaseInfo) → Type 0
AtMost j none = ⊥
AtMost j (some t) = t.0 ≤ j

lower-AtMost :
    (j : ℕ) (t : ℕ × TokenBaseInfo) (o : Option (ℕ × TokenBaseInfo))
    → AtMost j o
    → (lower t o).0 ≤ j
unfolding AtMost
lower-AtMost j t none h = absurd h
lower-AtMost j t (some y) h = elim (Bool-cases (leb t.0 y.0)) [
  | inl e ↦ rw e (ground arith)
  | inr e ↦ rw e h
]

lower_self : (t : ℕ × TokenBaseInfo) (o : Option (ℕ × TokenBaseInfo)) → (lower t o).0 ≤ t.0
lower_self t none = omega arith
lower_self t (some y) = elim (Bool-cases (leb t.0 y.0)) [
  | inl e ↦ rw e (omega arith)
  | inr e ↦ rw e (ground arith)
]

lower-All :
    (P : ℕ × TokenBaseInfo → Type 0) (t : ℕ × TokenBaseInfo) (o : Option (ℕ × TokenBaseInfo))
    → P t
    → ((y : ℕ × TokenBaseInfo) → o ≡ some y → P y)
    → P (lower t o)
lower-All P t none h rest = h
lower-All P t (some y) h rest = elim (Bool-cases (leb t.0 y.0)) [
  | inl e ↦ rw e h
  | inr e ↦ rw e (rest y refl)
]

min_by_id-All :
    (P : ℕ × TokenBaseInfo → Type 0) (xs : List (ℕ × TokenBaseInfo)) (t : ℕ × TokenBaseInfo)
    → All P xs
    → min_by_id xs ≡ some t
    → P t
min_by_id-All P [] t h e = cc
min_by_id-All P (x ∷ xs) t h e =
    subst P (some-injective _ _ e)
      (lower-All P x (min_by_id xs) h.0 (λ y same. min_by_id-All P xs y h.1 same))

-- An entry of a map is found in it, and so in a longer one.
pub IsFound : Assoc CacheEntry → Key → Type 0
IsFound m k = (e : CacheEntry) × (lookup k m ≡ some e)

IsFound-cons :
    (x : Key × CacheEntry) (m : Assoc CacheEntry) (k : Key) → IsFound m k → IsFound (x ∷ m) k
unfolding IsFound
IsFound-cons x m k h = elim (Bool-cases (key_eq k x.0)) [
  | inl e ↦ (x.1, rw e refl)
  | inr e ↦ (h.0, rw e h.1)
]

All-IsFound : (m : Assoc CacheEntry) → All (λ e. IsFound m e.0) m
unfolding IsFound
All-IsFound [] = tt
All-IsFound (x ∷ m) =
    ((x.1, rw (key_eq_self x.0) refl), All-imp (λ e h. IsFound-cons x m e.0 h) m (All-IsFound m))

pub entry_of-info :
    (r : Fetched TokenBaseInfo) (info : TokenBaseInfo)
    → entry_of r ≡ some (CacheEntry.token_base_info info)
    → r ≡ Fetched.ok info
entry_of-info (Fetched.ok t) info h = cc
entry_of-info (Fetched.err (FetchError.reverted m)) info h = cc
entry_of-info (Fetched.err (FetchError.cached_error m)) info h = cc
entry_of-info (Fetched.err (FetchError.failed m)) info h = cc

module _ (answers : ℕ → Fetched TokenBaseInfo) (s : String) where
  -- No token with the symbol has a lower id; or no token has the symbol.
  pub IsLowest : Option (ℕ × TokenBaseInfo) → Type 0
  IsLowest none =
      (id : ℕ) (info : TokenBaseInfo) → answers id ≡ Fetched.ok info → matches_symbol info s ≡ false
  IsLowest (some t) =
      (answers t.0 ≡ Fetched.ok t.1)
      × (matches_symbol t.1 s ≡ true)
      × ((id : ℕ) (info : TokenBaseInfo)
          → id < t.0
          → answers id ≡ Fetched.ok info
          → matches_symbol info s ≡ false)

  pub Known : Assoc CacheEntry → ℕ × TokenBaseInfo → Type 0
  Known m t = (answers t.0 ≡ Fetched.ok t.1) × IsFound m (key t.0)

  Known-infos :
      (M m : Assoc CacheEntry)
      → All (IsEntry answers) m
      → All (λ e. IsFound M e.0) m
      → All (Known M) (filter_map info_of m)
  unfolding Known
  Known-infos M [] h f = tt
  Known-infos M (((k, id), CacheEntry.unretryable_error x) ∷ m) h f = Known-infos M m h.1 f.1
  Known-infos M (((k, id), CacheEntry.token_base_info info) ∷ m) h f =
      ((entry_of-info (answers id) info h.0.1, rw⁻¹ h.0.0 f.0), Known-infos M m h.1 f.1)

  -- What the search finds is known, and has the symbol.
  pub search-Known :
      (c : TokenInfoCache) (t : ℕ × TokenBaseInfo)
      → IsTrue answers c
      → find_cached_token_by_symbol c s ≡ some t
      → Known c.cache t × (matches_symbol t.1 s ≡ true)
  unfolding find_cached_token_by_symbol search_for_token_by_symbol
  search-Known c t h e =
      let infos = filter_map info_of c.cache in
      (
        min_by_id-All (Known c.cache) (filter (λ x. matches_symbol x.1 s) infos) t
            (All-filter (Known c.cache) (λ x. matches_symbol x.1 s) infos
              (Known-infos c.cache c.cache h (All-IsFound c.cache)))
            e,
        min_by_id-All (λ x. matches_symbol x.1 s ≡ true) (filter (λ x. matches_symbol x.1 s) infos)
            t (filter-All (λ x. matches_symbol x.1 s) infos) e,
      )

  AtMost-cons :
      (j : ℕ) (t : ℕ × TokenBaseInfo) (xs : List (ℕ × TokenBaseInfo))
      → AtMost j (min_by_id (filter (λ x. matches_symbol x.1 s) xs))
      → AtMost j (min_by_id (filter (λ x. matches_symbol x.1 s) (t ∷ xs)))
  unfolding AtMost
  AtMost-cons j t xs h = elim (Bool-cases (matches_symbol t.1 s)) [
    | inl e ↦ rw e (lower-AtMost j t (min_by_id (filter (λ x. matches_symbol x.1 s) xs)) h)
    | inr e ↦ rw e h
  ]

  AtMost-entry :
      (j : ℕ) (e : Key × CacheEntry) (m : Assoc CacheEntry)
      → AtMost j (min_by_id (filter (λ x. matches_symbol x.1 s) (filter_map info_of m)))
      → AtMost j (min_by_id (filter (λ x. matches_symbol x.1 s) (filter_map info_of (e ∷ m))))
  AtMost-entry j (k, CacheEntry.unretryable_error x) m h = h
  AtMost-entry j (k, CacheEntry.token_base_info info) m h =
      AtMost-cons j (k.1, info) (filter_map info_of m) h

  AtMost-head :
      (j : ℕ) (info : TokenBaseInfo) (xs : List (ℕ × TokenBaseInfo))
      → matches_symbol info s ≡ true
      → AtMost j (min_by_id (filter (λ x. matches_symbol x.1 s) ((j, info) ∷ xs)))
  unfolding AtMost
  AtMost-head j info xs y =
      rw y (lower_self (j, info) (min_by_id (filter (λ x. matches_symbol x.1 s) xs)))

  abbrev lowest : Assoc CacheEntry → Option (ℕ × TokenBaseInfo)
  lowest m = min_by_id (filter (λ x. matches_symbol x.1 s) (filter_map info_of m))

  -- The search finds a token that is not above a cached one with the symbol.
  search-AtMost :
      (j : ℕ) (info : TokenBaseInfo) (m : Assoc CacheEntry)
      → matches_symbol info s ≡ true
      → lookup (key j) m ≡ some (CacheEntry.token_base_info info)
      → AtMost j (lowest m)
  search-AtMost j info [] y h = cc
  search-AtMost j info (((k, id), x) ∷ m) y h =
      go (key_eq (key j) (k, id)) refl h (search-AtMost j info m y)
    where
      go :
          (b : Bool)
          → key_eq (key j) (k, id) ≡ b
          → (if b then some x else lookup (key j) m) ≡ some (CacheEntry.token_base_info info)
          → (lookup (key j) m ≡ some (CacheEntry.token_base_info info) → AtMost j (lowest m))
          → AtMost j (lowest (((k, id), x) ∷ m))
      go false e found rest = AtMost-entry j ((k, id), x) m (rest found)
      go true e found rest =
          subst (λ i. AtMost j (lowest (((k, i), x) ∷ m)))
            (ap (λ p. p.1) (eq_of_key_eq (key j) (k, id) e))
            (subst (λ v. AtMost j (lowest (((k, j), v) ∷ m))) (sym (some-injective _ _ found))
              (AtMost-head j info (filter_map info_of m) y))

  cached-AtMost :
      (c : TokenInfoCache) (j : ℕ) (info : TokenBaseInfo)
      → lookup (key j) c.cache ≡ some (CacheEntry.token_base_info info)
      → matches_symbol info s ≡ true
      → AtMost j (find_cached_token_by_symbol c s)
  unfolding find_cached_token_by_symbol search_for_token_by_symbol
  cached-AtMost c j info h y = search-AtMost j info c.cache y h

  -- The ids that matter for a result: those before it, or all.
  pub Before : ℕ → Option (ℕ × TokenBaseInfo) → Type 0
  Before j none = Unit
  Before j (some t) = j < t.0

  pub found-IsLowest :
      (c : TokenInfoCache) (r : Option (ℕ × TokenBaseInfo))
      → IsTrue answers c
      → find_cached_token_by_symbol c s ≡ r
      → ((j : ℕ) → Before j r → Tried answers c j)
      → IsLowest r
  unfolding IsLowest Before AtMost Known
  found-IsLowest c none h e tried = λ id info a. elim (Bool-cases (matches_symbol info s)) [
    | inr n ↦ n
    | inl y ↦ absurd (subst (AtMost id) e (cached-AtMost c id info (tried id tt info a) y))
  ]
  found-IsLowest c (some t) h e tried =
      let known = search-Known c t h e in
      (
        known.0.0,
        known.1,
        λ id info lt a. elim (Bool-cases (matches_symbol info s)) [
          | inr n ↦ n
          | inl y ↦
              let most = subst (AtMost id) e (cached-AtMost c id info (tried id lt info a) y) in
              absurd (omega arith)
        ],
      )

  pub Before-lt : (j i : ℕ) (o : Option (ℕ × TokenBaseInfo)) → AtMost i o → Before j o → j < i
  unfolding AtMost Before
  Before-lt j i none most before = absurd most
  Before-lt j i (some t) most before = omega arith

  -- A token that was found stays a bound for what is found later.
  pub kept-AtMost :
      (c filled : TokenInfoCache) (t : ℕ × TokenBaseInfo)
      → Known c.cache t
      → matches_symbol t.1 s ≡ true
      → IsTrue answers c
      → Keeps c filled
      → AtMost t.0 (find_cached_token_by_symbol filled s)
  unfolding Known IsFound
  kept-AtMost c filled t (a, (entry, found)) y h keeps =
      cached-AtMost filled t.0 t.1
        (keeps (key t.0) (CacheEntry.token_base_info t.1)
          (found ∙ sym (IsEntry-lookup answers t.0 entry c.cache h found) ∙ ap entry_of a))
        y
