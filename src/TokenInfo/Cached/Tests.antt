-- ===== src/TokenInfo/Cached/Tests.antt =====
-- services-core/src/token_info/cached.rs: the theorems at concrete tokens.
use mathlib.Core.List.{Memᴰ}
use dex_services.Prelude.{ℕ, zero, suc, ◌≡◌, refl, Option, some, List, [], ◌∷◌}
use dex_services.TokenInfo.{
  TokenBaseInfo, FetchError, Fetched, TokenInfoFetching, default_get_token_infos,
  search_for_token_by_symbol, symbol,
}
use dex_services.TokenInfo.Cached.{
  TokenInfoCache, new, with_cache, get_token_info, get_token_infos, find_token_by_symbol,
  uncached_tokens, find_cached_token_by_symbol,
}
use dex_services.TokenInfo.Cached.Remembered.{Call, calls, IsFinal, IsLasting, get_token_info-again}
use dex_services.TokenInfo.Cached.Complete.{IsTrue, get_token_infos-default}
use dex_services.TokenInfo.Cached.Search.{find_token_by_symbol_lem}
use dex_services.TokenInfo.Cached.Lowest.{IsLowest}

abbrev weth : TokenBaseInfo
weth = record { address = 10; alias = "WETH"; decimals = 18 }

abbrev eth : TokenBaseInfo
eth = record { address = 11; alias = "ETH"; decimals = 18 }

-- Token 0 is no ERC20 token, and there are four tokens.
abbrev answers : ℕ → Fetched TokenBaseInfo
answers zero = Fetched.err (FetchError.reverted "no symbol")
answers (suc zero) = Fetched.ok weth
answers (suc (suc zero)) = Fetched.ok eth
answers (suc (suc (suc n))) = Fetched.err (FetchError.failed "no such token")

abbrev ids : List ℕ
ids = 0 ∷ 1 ∷ 2 ∷ 3 ∷ []

abbrev inner : TokenInfoFetching
inner = record {
  get_token_info = λ asked id. answers id;
  all_ids = λ asked. Fetched.ok ids;
  answered = λ xs. xs;
}

-- A layer that has lost its connection.
abbrev broken : TokenInfoFetching
broken = record {
  get_token_info = λ asked id. Fetched.err (FetchError.failed "no connection");
  all_ids = λ asked. Fetched.err (FetchError.failed "no connection");
  answered = λ xs. xs;
}

listed : (id : ℕ) (info : TokenBaseInfo) → answers id ≡ Fetched.ok info → Memᴰ id ids
listed zero info h = Memᴰ.head refl
listed (suc zero) info h = Memᴰ.tail (Memᴰ.head refl)
listed (suc (suc zero)) info h = Memᴰ.tail (Memᴰ.tail (Memᴰ.head refl))
listed (suc (suc (suc n))) info h = cc

-- Token 2 is cached.
abbrev warm : TokenInfoCache
warm = with_cache ((2, eth) ∷ [])

weth-symbol : symbol weth ≡ "ETH"
weth-symbol = refl

uncached-warm : uncached_tokens warm ids ≡ 0 ∷ 1 ∷ 3 ∷ []
uncached-warm = refl

symbol-warm : (find_token_by_symbol inner warm "ETH").1 ≡ Fetched.ok (some (1, weth))
unfolding find_token_by_symbol get_token_infos get_token_info find_cached_token_by_symbol
    search_for_token_by_symbol
symbol-warm = refl

-- Where token 1 cannot be fetched the search returns the higher token 2.
symbol-broken : (find_token_by_symbol broken warm "ETH").1 ≡ Fetched.ok (some (2, eth))
unfolding find_token_by_symbol get_token_infos get_token_info find_cached_token_by_symbol
    search_for_token_by_symbol
symbol-broken = refl

is_final : IsFinal (get_token_info inner new 0).1
unfolding get_token_info IsFinal
is_final = tt

get_token_info-again_example :
    let later =
      calls (get_token_info inner new 0).0 ((inner, Call.all) ∷ (broken, Call.symbol "A") ∷ []) in
    ((get_token_info broken later 0).0 ≡ later)
    × IsLasting (get_token_info inner new 0).1 (get_token_info broken later 0).1
get_token_info-again_example =
    get_token_info-again inner new 0 ((inner, Call.all) ∷ (broken, Call.symbol "A") ∷ []) broken
      is_final

-- Token 1 has information, and is answered with it when the connection is lost.
info_kept : (get_token_info broken (get_token_info inner new 1).0 1).1 ≡ Fetched.ok weth
unfolding get_token_info
info_kept = refl

get_token_infos-default_example :
    (get_token_infos inner warm (0 ∷ 1 ∷ 2 ∷ 1 ∷ [])).1
    ≡ default_get_token_infos inner [] (0 ∷ 1 ∷ 2 ∷ 1 ∷ [])
get_token_infos-default_example =
    get_token_infos-default answers inner (λ asked id. refl) warm [] (0 ∷ 1 ∷ 2 ∷ 1 ∷ [])
      ((refl, refl), tt)

find_token_by_symbol_lem_example :
    (r : Option (ℕ × TokenBaseInfo)) × ((find_token_by_symbol inner warm "ETH").1 ≡ Fetched.ok r)
    × IsLowest answers "ETH" r
    × IsTrue answers (find_token_by_symbol inner warm "ETH").0
find_token_by_symbol_lem_example =
    find_token_by_symbol_lem answers inner (λ asked id. refl) ids (λ asked. refl) listed
      (λ xs id is. is) warm "ETH" ((refl, refl), tt)
