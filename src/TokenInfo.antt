-- ===== src/TokenInfo.antt =====
-- services-core/src/token_info.rs: tokens, what is fetched about them, and the default methods of
-- the trait TokenInfoFetching. A token id is a number. The layer that is asked gets the ids that
-- it was asked for before, the newest first, since its answers change.
pub mod Cached
use Prim.Native.String.{String}
use dex_services.Prelude.{
  equals, ℕ, ◌%◌, ◌^◌, Bool, true, false, ◌||◌, Option, none, some, List, [], ◌∷◌, filter, map,
  ◌==◌, leb, if◌then◌else◌,
}
use dex_services.Assoc.{Key, Assoc, insert}

pub record TokenBaseInfo : Type 0 where
  pub address : ℕ
  pub alias : String
  pub decimals : ℕ

-- An error with its text: a call that the contract reverted, one that the cache remembers, or
-- another.
pub data FetchError : Type 0 where
  reverted cached_error failed : String → FetchError

pub data Fetched {ℓ} (A : Type ℓ) : Type ℓ where
  ok : A → Fetched A
  err : FetchError → Fetched A

-- The inner layer. `answered` is the order in which requests that run at the same time end.
pub record TokenInfoFetching : Type 0 where
  pub get_token_info : List ℕ → ℕ → Fetched TokenBaseInfo
  pub all_ids : List ℕ → Fetched (List ℕ)
  pub answered : List ℕ → List ℕ

abbrev pub symbol : TokenBaseInfo → String
symbol t = if equals t.alias "WETH" then "ETH" else t.alias

abbrev pub matches_symbol : TokenBaseInfo → String → Bool
matches_symbol t s = equals t.alias s || equals (symbol t) s

-- The key of a token in a map over token ids.
abbrev pub key : ℕ → Key
key id = (0, id)

-- `Iterator::min_by_key` over pairs with a token id: the first of those with the lowest.
abbrev pub lower : {A : Type 0} → ℕ × A → Option (ℕ × A) → ℕ × A
lower x none = x
lower x (some y) = if leb x.0 y.0 then x else y

abbrev pub min_by_id : {A : Type 0} → List (ℕ × A) → Option (ℕ × A)
min_by_id [] = none
min_by_id (x ∷ xs) = some (lower x (min_by_id xs))

unfoldable pub search_for_token_by_symbol :
    List (ℕ × TokenBaseInfo) → String → Option (ℕ × TokenBaseInfo)
search_for_token_by_symbol tokens s = min_by_id (filter (λ t. matches_symbol t.1 s) tokens)

unfoldable pub find_token_by_address : List (ℕ × TokenBaseInfo) → ℕ → Option (ℕ × TokenBaseInfo)
find_token_by_address [] address = none
find_token_by_address (t ∷ ts) address =
    if t.1.address == address then some t else find_token_by_address ts address

-- The default `get_token_infos`, whose loop inserts what it gets and skips errors.
abbrev pub insert_fetched : ℕ → Fetched TokenBaseInfo → Assoc TokenBaseInfo → Assoc TokenBaseInfo
insert_fetched id (Fetched.ok info) result = insert (key id) info result
insert_fetched id (Fetched.err e) result = result

unfoldable pub get_infos_from :
    TokenInfoFetching → List ℕ → List ℕ → Assoc TokenBaseInfo → Assoc TokenBaseInfo
get_infos_from inner asked [] result = result
get_infos_from inner asked (id ∷ ids) result =
    get_infos_from inner (id ∷ asked) ids (insert_fetched id (inner.get_token_info asked id) result)

abbrev pub default_get_token_infos : TokenInfoFetching → List ℕ → List ℕ → Assoc TokenBaseInfo
default_get_token_infos inner asked ids = get_infos_from inner asked ids []

-- The pairs of a map over token ids.
abbrev pub pairs : Assoc TokenBaseInfo → List (ℕ × TokenBaseInfo)
pairs infos = map (λ e. (e.0.1, e.1)) infos

abbrev pub search_fetched :
    (Assoc TokenBaseInfo → Option (ℕ × TokenBaseInfo))
    → (List ℕ → Assoc TokenBaseInfo)
    → Fetched (List ℕ)
    → Fetched (Option (ℕ × TokenBaseInfo))
search_fetched find infos (Fetched.err e) = Fetched.err e
search_fetched find infos (Fetched.ok ids) = Fetched.ok (find (infos ids))

-- The default `find_token_by_symbol` and `find_token_by_address`.
abbrev pub default_find_token_by_symbol :
    TokenInfoFetching → List ℕ → String → Fetched (Option (ℕ × TokenBaseInfo))
default_find_token_by_symbol inner asked s =
    search_fetched (λ infos. search_for_token_by_symbol (pairs infos) s)
      (default_get_token_infos inner asked) (inner.all_ids asked)

abbrev pub default_find_token_by_address :
    TokenInfoFetching → List ℕ → ℕ → Fetched (Option (ℕ × TokenBaseInfo))
default_find_token_by_address inner asked address =
    search_fetched (λ infos. find_token_by_address (pairs infos) address)
      (default_get_token_infos inner asked) (inner.all_ids asked)
