-- ===== src/Streamed/Tokens.antt =====
-- services-core/src/orderbook/streamed/state.rs, `struct Tokens`: the listed tokens in the order
-- of their events, searched from the front.
use dex_services.Prelude.{ℕ, Option, none, some, List, [], ◌∷◌, ◌==◌, if◌then◌else◌}

-- Pairs of a token id and a token address.
abbrev pub Tokens : Type 0
Tokens = List (ℕ × ℕ)

abbrev pub get_address_by_id : Tokens → ℕ → Option ℕ
get_address_by_id [] id = none
get_address_by_id ((id', address) ∷ ts) id =
    if id' == id then some address else get_address_by_id ts id

abbrev pub get_id_by_address : Tokens → ℕ → Option ℕ
get_id_by_address [] address = none
get_id_by_address ((id, address') ∷ ts) address =
    if address' == address then some id else get_id_by_address ts address

-- `Vec::push`
abbrev pub push : Tokens → ℕ × ℕ → Tokens
push [] t = t ∷ []
push (x ∷ ts) t = x ∷ push ts t
