-- ===== src/Streamed/State/Invariant.antt =====
-- services-core/src/orderbook/streamed/state.rs: the invariant behind the unwraps of
-- `revert_last_solution` and of the order's getters, and what it asks of one entry.
use dex_services.Prelude.{
  ℕ, ◌≤◌, ◌<◌, Option, none, some, arith, inl, inr, Option-cases, Bool-cases,
}
use dex_services.Prelude.Int.{ℤ}
use dex_services.Outcome.{Outcome, ok, err, panic, ◌>>=◌, Ensures}
use dex_services.Assoc.{
  Key, Assoc, lookup, insert, lookup-insert, key_eq, AllValues, AllValues-lookup, AllValues-insert,
  eq_of_key_eq,
}
use dex_services.Streamed.Balance as BalanceOps
use dex_services.Streamed.Balance.{Balance, default_balance, apply_existing_deposit_and_proceeds}
use dex_services.Streamed.Balance.View.{IsCurrent}
use dex_services.Streamed.Order.{u128_max}
use dex_services.Streamed.Order.Usage.{IsSound, IsDated}
use dex_services.Streamed.Tokens.{get_address_by_id}
use dex_services.Streamed.Event.{Event}
use dex_services.Streamed.State.{State, LastSolution, or_default, update_balance}

-- The entry exists, and its proceeds are at least as late as batch `n`.
abbrev pub IsBooked : ℕ → Option Balance → Type 0
IsBooked n none = ⊥
IsBooked n (some b) = n ≤ b.proceeds.batch_id

-- The submitter of the last solution has a balance of the fee token with its fee booked.
abbrev pub HasFee : LastSolution → Assoc Balance → Option ℕ → Type 0
HasFee last balances none = ⊥
HasFee last balances (some fee_token) =
    IsBooked last.batch_id (lookup (last.user_id, fee_token) balances)

pub record IsValid (s : State) : Type 0 where
  pub orders_sound : AllValues (λ o. IsSound o × IsDated s.last_batch_id o) s.orders
  pub balances_current : AllValues (IsCurrent s.last_batch_id) s.balances
  pub solution_dated : s.last_solution.batch_id ≤ s.last_batch_id
  pub solution_booked :
      0 < s.last_solution.batch_id
      → HasFee s.last_solution s.balances (get_address_by_id s.tokens 0)

-- A `u128` amount of the event is in range.
abbrev pub InRange : Event → Type 0
InRange (Event.order_placement e) = e.price_denominator ≤ u128_max
InRange _ = Unit

-- A call on a balance keeps it current, and its proceeds do not move back.
abbrev pub Advances : ℕ → (Balance → Outcome Balance) → Type 0
Advances now f =
    (b : Balance)
    → IsCurrent now b
    → Ensures (λ b'. IsCurrent now b' × (b.proceeds.batch_id ≤ b'.proceeds.batch_id)) (f b)

-- Every booking of the first map is one of the second.
abbrev pub Keeps : Assoc Balance → Assoc Balance → Type 0
Keeps m m' = (j : Key) (n : ℕ) → IsBooked n (lookup j m) → IsBooked n (lookup j m')

pub or_default-IsCurrent :
    (now : ℕ) (k : Key) (m : Assoc Balance)
    → AllValues (IsCurrent now) m
    → IsCurrent now (or_default (lookup k m))
or_default-IsCurrent now k m h = elim (Option-cases (lookup k m)) [
  | inl e ↦ rw e (omega arith)
  | inr (b, e) ↦ rw e (AllValues-lookup (IsCurrent now) k b m h e)
]

le_of_booked : (n : ℕ) (o : Option Balance) → IsBooked n o → n ≤ (or_default o).proceeds.batch_id
le_of_booked n none p = elim p [ ]
le_of_booked n (some b) p = p

pub insert-Keeps :
    (k : Key) (m : Assoc Balance) (b' : Balance)
    → (or_default (lookup k m)).proceeds.batch_id ≤ b'.proceeds.batch_id
    → Keeps m (insert k b' m)
insert-Keeps k m b' h j n p = elim (Bool-cases (key_eq j k)) [
  | inl e ↦
      let booked : IsBooked n (lookup k m) = rw (eq_of_key_eq j k e) at p in
      rw (lookup-insert, e) (omega (arith, le_of_booked n (lookup k m) booked))
  | inr e ↦ rw (lookup-insert, e) p
]

pub update_balance_lem :
    (now : ℕ) (k : Key) (f : Balance → Outcome Balance) (m : Assoc Balance)
    → Advances now f
    → AllValues (IsCurrent now) m
    → Ensures (λ m'. AllValues (IsCurrent now) m' × Keeps m m') (update_balance k f m)
unfolding update_balance
update_balance_lem now k f m adv h =
    go (f (or_default (lookup k m))) (adv _ (or_default-IsCurrent now k m h))
  where
    go :
        (r : Outcome Balance)
        → Ensures
            (λ b'.
              IsCurrent now b'
              × ((or_default (lookup k m)).proceeds.batch_id ≤ b'.proceeds.batch_id))
            r
        → Ensures (λ m'. AllValues (IsCurrent now) m' × Keeps m m') (r >>= λ b. ok (insert k b m))
    go (ok b) (c, p) = (AllValues-insert (IsCurrent now) k b m h c, insert-Keeps k m b p)
    go (err e) q = tt
    go panic q = elim q [ ]

pub sell_buy-Advances : (x : ℤ) (now : ℕ) → Advances now (λ b. BalanceOps.sell_buy_internal b x now)
unfolding BalanceOps.sell_buy_internal
sell_buy-Advances x now b v = ground arith

pub revert_sell_buy-Advances :
    (x : ℤ) (now : ℕ) → Advances now (λ b. BalanceOps.revert_sell_buy_internal b x now)
unfolding BalanceOps.revert_sell_buy_internal
revert_sell_buy-Advances x now b v = ground arith

pub deposit-Advances : (a now : ℕ) → Advances now (λ b. ok (BalanceOps.deposit b a now))
unfolding BalanceOps.deposit
deposit-Advances a now b v = ground arith

pub withdraw-Advances : (a now : ℕ) → Advances now (λ b. BalanceOps.withdraw b a now)
unfolding BalanceOps.withdraw apply_existing_deposit_and_proceeds
withdraw-Advances a now b v = ground arith

pub withdraw_request-Advances :
    (a from now : ℕ) → Advances now (λ b. BalanceOps.withdraw_request b a from now)
unfolding BalanceOps.withdraw_request
withdraw_request-Advances a from now b v = ground arith
