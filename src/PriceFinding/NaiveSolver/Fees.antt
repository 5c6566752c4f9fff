-- ===== src/PriceFinding/NaiveSolver/Fees.antt =====
-- services-core/src/price_finding/naive_solver.rs with a fee: the amounts and the prices of a
-- solution, and the relation between them that the exchange contract checks.
pub mod Trade
use dex_services.Prelude.{
  ℕ, ◌+◌, ◌-◌, ◌*◌, ◌/◌, ◌<◌, ◌≡◌, refl, sym, true, false, Option, none, some, List, [], ◌∷◌, arith,
  inl, inr, ◌⊎◌, Option-cases, Bool-cases, ◌==◌,
}
use native.Mathlib.Nat.{mul-add-div_right, div-eq_of_lt}
use dex_services.Outcome.{Outcome, ok, err, panic, bind_elim, unwrap, ok-injective}
use dex_services.Assoc.{Assoc}
use dex_services.Util.{ceiled_div, as_u128_checked}
use dex_services.Streamed.Order.{ModelOrder}
use dex_services.Models.Solution.{ExecutedOrder, PriceMap, get_price, Solution, trivial}
use dex_services.PriceFinding.Matching.{Fee, trades_fee_token, Match, find_first_match}
use dex_services.PriceFinding.NaiveSolver.{
  base_price, ExecutedOrderPair, create_executed_orders, normalize_price, normalize_prices,
  unchecked_buy_amount, normalize_rest, set_bought, pair_solution, executed_sell_amount,
  executed_buy_amount, apply_fee, apply_fees, create_solution_with_fee, remaining_orders, solve,
  find_prices,
}
use dex_services.PriceFinding.NaiveSolver.Pairing.{IsMatch, find_first_match-IsMatch}

div_base : (b p : ℕ) → 0 < p → (p * b + p - 1) / p ≡ b
div_base b p h =
    let exact = mul-add-div_right h b (p - 1) in
    let small = div-eq_of_lt {n = p - 1} {m = p} (omega arith) in grind arith

normalize_own : (p n : ℕ) → 0 < p → normalize_price p p ≡ ok (some n) → n ≡ base_price
unfolding normalize_price ceiled_div as_u128_checked
normalize_own p n h e = ground (arith, div_base base_price p h)

unwrap-eq-ok : (o : Option ℕ) {n : ℕ} → unwrap o ≡ ok n → o ≡ some n
unwrap-eq-ok none h = cc
unwrap-eq-ok (some n) h = cc

normalize_rest_lem :
    (t : ℕ) (n : Option ℕ) (r : Outcome (Option PriceMap)) (qs : PriceMap)
    → normalize_rest t n r ≡ ok (some qs)
    → (k : ℕ) × (rs : PriceMap) × (n ≡ some k) × (r ≡ ok (some rs)) × (qs ≡ (t, k) ∷ rs)
normalize_rest_lem t none r qs h = cc
normalize_rest_lem t (some k) (ok none) qs h = cc
normalize_rest_lem t (some k) (ok (some rs)) qs h = (k, rs, refl, refl, cc)
normalize_rest_lem t (some k) (err e) qs h = cc
normalize_rest_lem t (some k) panic qs h = cc

normalize_prices-get :
    (ps : PriceMap) (fee_price : ℕ) (t p : ℕ) (qs : PriceMap)
    → normalize_prices ps fee_price ≡ ok (some qs)
    → get_price t ps ≡ some p
    → (n : ℕ) × (normalize_price p fee_price ≡ ok (some n)) × (get_price t qs ≡ some n)
unfolding normalize_prices
normalize_prices-get [] fee_price t p qs h g = cc
normalize_prices-get (x ∷ ps) fee_price t p qs h g =
    bind_elim (normalize_price x.1 fee_price) _ h λ o first h1.
      let (n, rs, some_n, rest, e) =
        normalize_rest_lem x.0 o (normalize_prices ps fee_price) qs h1 in
      let tail = normalize_prices-get ps fee_price t p rs rest in
      elim (Bool-cases (t == x.0)) [
        | inl here ↦ (n, ground arith, ground arith)
        | inr there ↦ ground (arith, tail)
      ]

-- The sold amount is the one that the contract computes from the bought amount and the prices.
abbrev pub IsPriced : Fee → PriceMap → ModelOrder → ExecutedOrder → Type 0
IsPriced fee prices o e =
    (p : ℕ) × (q : ℕ) × (get_price o.buy_token prices ≡ some p)
    × (get_price o.sell_token prices ≡ some q)
    × (executed_sell_amount fee e.buy_amount p q ≡ ok e.sell_amount)

executed_buy_amount_lem :
    (fee : Fee) (sold p q bought : ℕ)
    → executed_buy_amount fee sold p q ≡ ok (some bought)
    → executed_sell_amount fee bought p q ≡ ok sold
unfolding executed_buy_amount
executed_buy_amount_lem fee sold p q bought h =
    bind_elim (unchecked_buy_amount fee sold p q) _ h
      λ b first h1. bind_elim (executed_sell_amount fee b p q) _ h1 λ back second h2. ground arith

-- The fee changes what the order sells where it sells the fee token, and else what it buys.
pub record IsKept (fee : Fee) (o : ModelOrder) (e e' : ExecutedOrder) : Type 0 where
  pub same_user : e'.account_id ≡ e.account_id
  pub same_order : e'.order_id ≡ e.order_id
  pub buys : (o.sell_token == fee.token) ≡ true → e'.buy_amount ≡ e.buy_amount
  pub sells : (o.sell_token == fee.token) ≡ false → e'.sell_amount ≡ e.sell_amount

set_bought_lem :
    (e : ExecutedOrder) (bought : Option ℕ) (e' : ExecutedOrder)
    → ok (set_bought e bought) ≡ ok (some e')
    → (amount : ℕ) × (bought ≡ some amount) × (e' ≡ record e { buy_amount = amount })
set_bought_lem e none e' h = cc
set_bought_lem e (some amount) e' h = (amount, refl, cc)

apply_fee-IsPriced :
    (fee : Fee) (prices : PriceMap) (o : ModelOrder) (e e' : ExecutedOrder)
    → get_price fee.token prices ≡ some base_price
    → trades_fee_token o fee ≡ true
    → apply_fee fee prices o e ≡ ok (some e')
    → IsPriced fee prices o e'
unfolding apply_fee
apply_fee-IsPriced fee prices o e e' b t h = elim (Bool-cases (o.sell_token == fee.token)) [
  | inl sells ↦
      bind_elim (unwrap (get_price o.buy_token prices)) _ (rw sells at h) λ price found h1.
        bind_elim (executed_sell_amount fee e.buy_amount price base_price) _ h1 λ amount sold h2.
          let same : o.sell_token ≡ fee.token = ground arith in
          (price, base_price, unwrap-eq-ok _ found, rw same b, ground (arith, sold))
  | inr other ↦
      bind_elim (unwrap (get_price o.sell_token prices)) _ (rw other at h) λ price found h1.
        bind_elim (executed_buy_amount fee e.sell_amount base_price price) _ h1 λ bought priced h2.
          let same : o.buy_token ≡ fee.token = ground arith in
          let (amount, some_bought, changed) = set_bought_lem e bought e' h2 in
          let back =
            executed_buy_amount_lem fee e.sell_amount base_price price amount
              (rw some_bought at priced) in
          (base_price, price, rw same b, unwrap-eq-ok _ found, ground (arith, back))
]

apply_fee-IsKept :
    (fee : Fee) (prices : PriceMap) (o : ModelOrder) (e e' : ExecutedOrder)
    → apply_fee fee prices o e ≡ ok (some e')
    → IsKept fee o e e'
unfolding apply_fee
apply_fee-IsKept fee prices o e e' h = elim (Bool-cases (o.sell_token == fee.token)) [
  | inl sells ↦
      bind_elim (unwrap (get_price o.buy_token prices)) _ (rw sells at h) λ price found h1.
        bind_elim (executed_sell_amount fee e.buy_amount price base_price) _ h1
          λ amount sold h2. ground arith
  | inr other ↦
      bind_elim (unwrap (get_price o.sell_token prices)) _ (rw other at h) λ price found h1.
        bind_elim (executed_buy_amount fee e.sell_amount base_price price) _ h1 λ bought priced h2.
          let (amount, some_bought, changed) = set_bought_lem e bought e' h2 in ground arith
]

-- Both executed orders are those of the match after the fee, the contract's relation holds for
-- both and the fee token has its base price.
pub record IsPricedPair (fee : Fee) (m : Match) (e : ExecutedOrderPair) (s : Solution)
    : Type 0 where
  pub lhs_executed : ExecutedOrder
  pub rhs_executed : ExecutedOrder
  pub executed : s.executed_orders ≡ lhs_executed ∷ rhs_executed ∷ []
  pub fee_priced : get_price fee.token s.prices ≡ some base_price
  pub lhs_priced : IsPriced fee s.prices m.lhs lhs_executed
  pub rhs_priced : IsPriced fee s.prices m.rhs rhs_executed
  pub lhs_kept : IsKept fee m.lhs e.0 lhs_executed
  pub rhs_kept : IsKept fee m.rhs e.1 rhs_executed

pair_solution_lem :
    (prices : PriceMap) (first : Option ExecutedOrder) (second : Outcome (Option ExecutedOrder))
    (s : Solution)
    → pair_solution prices first second ≡ ok s
    → (s ≡ trivial)
      ⊎ ((e0 : ExecutedOrder) × (e1 : ExecutedOrder) × (first ≡ some e0)
          × (second ≡ ok (some e1))
          × (s ≡ record { prices = prices; executed_orders = e0 ∷ e1 ∷ [] }))
pair_solution_lem prices none second s h = inl cc
pair_solution_lem prices (some e0) (ok none) s h = inl cc
pair_solution_lem prices (some e0) (ok (some e1)) s h = inr (e0, e1, refl, refl, cc)
pair_solution_lem prices (some e0) (err x) s h = cc
pair_solution_lem prices (some e0) panic s h = cc

apply_fees-IsPricedPair :
    (m : Match) (fee : Fee) (e : ExecutedOrderPair) (prices : PriceMap) (s : Solution)
    → get_price fee.token prices ≡ some base_price
    → trades_fee_token m.lhs fee ≡ true
    → trades_fee_token m.rhs fee ≡ true
    → apply_fees m fee e (some prices) ≡ ok s
    → (s ≡ trivial) ⊎ IsPricedPair fee m e s
unfolding apply_fees
apply_fees-IsPricedPair m fee e prices s b l r h =
    bind_elim (apply_fee fee prices m.lhs e.0) _ h λ first applied h1.
      elim (pair_solution_lem prices first (apply_fee fee prices m.rhs e.1) s h1) [
        | inl t ↦ inl t
        | inr (e0, e1, some_first, some_second, same) ↦ inr (
            rw same (record {
              lhs_executed = e0;
              rhs_executed = e1;
              executed = refl;
              fee_priced = b;
              lhs_priced =
                  apply_fee-IsPriced fee prices m.lhs e.0 e0 b l (rw some_first at applied);
              rhs_priced = apply_fee-IsPriced fee prices m.rhs e.1 e1 b r some_second;
              lhs_kept = apply_fee-IsKept fee prices m.lhs e.0 e0 (rw some_first at applied);
              rhs_kept = apply_fee-IsKept fee prices m.rhs e.1 e1 some_second;
            }))
      ]

create_solution-IsPricedPair :
    (m : Match) (fee : Fee) (e : ExecutedOrderPair) (prices : PriceMap) (s : Solution)
    → trades_fee_token m.lhs fee ≡ true
    → trades_fee_token m.rhs fee ≡ true
    → create_solution_with_fee m fee e prices ≡ ok s
    → (s ≡ trivial) ⊎ IsPricedPair fee m e s
unfolding create_solution_with_fee apply_fees
create_solution-IsPricedPair m fee e prices s l r h =
    elim (Option-cases (get_price fee.token prices)) [
      | inl none_found ↦ inl (sym (ok-injective (rw none_found at h)))
      | inr (p, found) ↦ elim (Bool-cases (p == 0)) [
        | inl free ↦ inl (sym (ok-injective (rw (found, free) at h)))
        | inr priced ↦
            bind_elim (normalize_prices prices p) _ (rw (found, priced) at h) λ normalized q h1.
              elim (Option-cases normalized) [
                | inl absent ↦ inl (sym (ok-injective (rw absent at h1)))
                | inr (ps, present) ↦
                    let (n, own, got) =
                      normalize_prices-get prices p fee.token p ps (rw present at q) found in
                    let base : n ≡ base_price = normalize_own p n (ground arith) own in
                    apply_fees-IsPricedPair m fee e ps s (rw base at got) l r (rw present at h1)
              ]
      ]
    ]

pub solve-IsPricedPair :
    (fee : Fee) (m : Match) (s : Solution)
    → trades_fee_token m.lhs fee ≡ true
    → trades_fee_token m.rhs fee ≡ true
    → solve m (some fee) ≡ ok s
    → (s ≡ trivial)
      ⊎ ((r : ExecutedOrderPair × PriceMap) × (create_executed_orders m (some fee) ≡ ok r)
          × IsPricedPair fee m r.0 s)
unfolding solve
solve-IsPricedPair fee m s l r h =
    bind_elim (create_executed_orders m (some fee)) _ h λ made executed h1.
      elim (create_solution-IsPricedPair m fee made.0 made.1 s l r h1) [
        | inl t ↦ inl t
        | inr pair ↦ inr (made, executed, pair)
      ]
