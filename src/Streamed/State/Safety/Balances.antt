-- ===== src/Streamed/State/Safety/Balances.antt =====
-- services-core/src/orderbook/streamed/state.rs: the handlers that change one balance or list a
-- token, with respect to the invariant and to panics.
use dex_services.Prelude.{
  ℕ, ◌≡◌, refl, Option, none, some, [], ◌∷◌, arith, ◌⊎◌, inl, inr, Bool-cases, ◌==◌, leb,
}
use dex_services.Outcome.{Outcome, ok, ◌>>=◌, Ensures}
use dex_services.Assoc.{Key, Assoc, AllValues}
use dex_services.Streamed.Balance.{Balance}
use dex_services.Streamed.Balance.View.{IsCurrent}
use dex_services.Streamed.Tokens.{Tokens, get_address_by_id, push}
use dex_services.Streamed.Event.{Deposit, WithdrawRequest, Withdraw, TokenListing}
use dex_services.Streamed.State.{
  State, LastSolution, update_balance, deposit, withdraw_request, withdraw, token_listing,
}
use dex_services.Streamed.State.Invariant.{
  HasFee, IsValid, Advances, Keeps, update_balance_lem, deposit-Advances, withdraw-Advances,
  withdraw_request-Advances,
}
use dex_services.Outcome.{Ensures-bind}

pub Keeps-HasFee :
    (last : LastSolution) (m m' : Assoc Balance) (o : Option ℕ)
    → Keeps m m'
    → HasFee last m o
    → HasFee last m' o
Keeps-HasFee last m m' none k h = h
Keeps-HasFee last m m' (some fee) k h = k (last.user_id, fee) last.batch_id h

-- A state with its balances changed by a call that keeps them current and booked.
pub with_balances :
    (s : State) (m : Assoc Balance)
    → IsValid s
    → AllValues (IsCurrent s.last_batch_id) m
    → Keeps s.balances m
    → IsValid (record s { balances = m })
with_balances s m v c k = record {
  orders_sound = v.orders_sound;
  balances_current = c;
  solution_dated = v.solution_dated;
  solution_booked = λ h. Keeps-HasFee s.last_solution s.balances m _ k (v.solution_booked h);
}

pub update_balance-IsValid :
    (s : State) (k : Key) (f : Balance → Outcome Balance)
    → IsValid s
    → Advances s.last_batch_id f
    → Ensures IsValid (update_balance k f s.balances >>= λ m. ok (record s { balances = m }))
update_balance-IsValid s k f v adv =
    Ensures-bind (λ m. AllValues (IsCurrent s.last_batch_id) m × Keeps s.balances m) IsValid
      (update_balance k f s.balances) _
      (update_balance_lem s.last_batch_id k f s.balances adv v.balances_current)
      (λ m h. with_balances s m v h.0 h.1)

pub deposit-IsValid :
    (s : State) (e : Deposit) → IsValid s → Ensures IsValid (deposit s e s.last_batch_id)
unfolding deposit
deposit-IsValid s e v = elim (Bool-cases (e.batch_id == s.last_batch_id)) [
  | inl h ↦
      let same : e.batch_id ≡ s.last_batch_id = ground arith in
      rw (h, same)
        (update_balance-IsValid s (e.user, e.token) _ v (deposit-Advances e.amount s.last_batch_id))
  | inr h ↦ rw h tt
]

pub withdraw_request-IsValid :
    (s : State) (e : WithdrawRequest)
    → IsValid s
    → Ensures IsValid (withdraw_request s e s.last_batch_id)
unfolding withdraw_request
withdraw_request-IsValid s e v = elim (Bool-cases (leb s.last_batch_id e.batch_id)) [
  | inl h ↦ rw h (
      update_balance-IsValid s (e.user, e.token) _ v
        (withdraw_request-Advances e.amount e.batch_id s.last_batch_id))
  | inr h ↦ rw h tt
]

pub withdraw-IsValid :
    (s : State) (e : Withdraw) → IsValid s → Ensures IsValid (withdraw s e s.last_batch_id)
unfolding withdraw
withdraw-IsValid s e v =
    update_balance-IsValid s (e.user, e.token) _ v (withdraw-Advances e.amount s.last_batch_id)

pub get_address_by_id-push :
    (ts : Tokens) (t : ℕ × ℕ) (id : ℕ)
    → (get_address_by_id (push ts t) id ≡ get_address_by_id ts id)
      ⊎ (get_address_by_id ts id ≡ none)
get_address_by_id-push [] t id = inr refl
get_address_by_id-push (x ∷ ts) t id = ground (arith, get_address_by_id-push ts t id)

pub token_listing-IsValid :
    (s : State) (e : TokenListing) → IsValid s → Ensures IsValid (token_listing s e)
unfolding token_listing
token_listing-IsValid s e v = record {
  orders_sound = v.orders_sound;
  balances_current = v.balances_current;
  solution_dated = v.solution_dated;
  solution_booked = λ h. elim (get_address_by_id-push s.tokens (e.id, e.token) 0) [
    | inl same ↦ rw same (v.solution_booked h)
    | inr unknown ↦ absurd (rw unknown at (v.solution_booked h))
  ];
}
