-- ===== src/Streamed/State/Safety/Solution.antt =====
-- services-core/src/orderbook/streamed/state.rs: a solution submission with its two unwraps, with
-- respect to the invariant and to panics.
use dex_services.Prelude.{
  ℕ, ◌≤◌, ◌<◌, ◌≡◌, refl, Option, none, some, arith, inl, inr, Bool-cases, ◌==◌,
}
use dex_services.Prelude.Int.{ℤ, pos, ◌-ℤ◌}
use dex_services.Outcome.{Outcome, ok, ok_or, Ensures}
use dex_services.Assoc.{
  Key, Assoc, lookup, insert, AllValues, AllValues-lookup, AllValues-insert, lookup-insert,
  key_eq_self,
}
use dex_services.Streamed.Balance as BalanceOps
use dex_services.Streamed.Balance.{Balance}
use dex_services.Streamed.Balance.View.{IsCurrent}
use dex_services.Streamed.Tokens.{get_address_by_id}
use dex_services.Streamed.Event.{SolutionSubmission}
use dex_services.Streamed.State.{
  State, or_default, update_balance, revert_last_solution, apply_solution_submission,
}
use dex_services.Streamed.State.Invariant.{
  IsBooked, IsValid, Keeps, insert-Keeps, update_balance_lem, sell_buy-Advances,
}
use dex_services.Outcome.{Ensures-bind, Ensures-ok_or, Ensures-both}
use dex_services.Streamed.State.Safety.Balances.{Keeps-HasFee}

pub some_of_booked :
    (n : ℕ) (o : Option Balance)
    → IsBooked n o
    → (b : Balance) × (o ≡ some b) × (n ≤ b.proceeds.batch_id)
some_of_booked n none h = elim h [ ]
some_of_booked n (some b) h = (b, refl, h)

pub revert_booked :
    (b : Balance) (x : ℤ) (now : ℕ)
    → IsCurrent now b
    → now ≤ b.proceeds.batch_id
    → (b' : Balance) × (BalanceOps.revert_sell_buy_internal b x now ≡ ok b')
      × IsCurrent now b'
      × (b'.proceeds.batch_id ≡ b.proceeds.batch_id)
unfolding BalanceOps.revert_sell_buy_internal
revert_booked b x now v h = (
  record b { proceeds = record (b.proceeds) { amount = b.proceeds.amount -ℤ x } },
  ground arith,
  omega arith,
  refl,
)

-- Reverting the fee of a solution of the current batch cannot fail: it is booked.
pub revert_last_solution-IsValid :
    (s : State) (fee : ℕ)
    → 0 < s.last_batch_id
    → get_address_by_id s.tokens 0 ≡ some fee
    → IsValid s
    → Ensures
        (λ s'. IsValid s' × (s'.last_batch_id ≡ s.last_batch_id) × (s'.tokens ≡ s.tokens))
        (revert_last_solution s fee s.last_batch_id)
unfolding revert_last_solution
revert_last_solution-IsValid s fee pos_batch known v =
    elim (Bool-cases (s.last_solution.batch_id == s.last_batch_id)) [
      | inl h ↦
          let same : s.last_solution.batch_id ≡ s.last_batch_id = ground arith in
          let key : Key = (s.last_solution.user_id, fee) in
          let booked : IsBooked s.last_solution.batch_id (lookup key s.balances) =
            rw known at (v.solution_booked (omega arith)) in
          let (b, found, late) =
            some_of_booked s.last_solution.batch_id (lookup key s.balances) booked in
          let current =
            AllValues-lookup (IsCurrent s.last_batch_id) key b s.balances v.balances_current
              found in
          let (b', reverted, current', dated) =
            revert_booked b (pos s.last_solution.burnt_fees) s.last_batch_id current
              (omega arith) in
          let kept : Keeps s.balances (insert key b' s.balances) =
            insert-Keeps key s.balances b' (rw found (omega arith)) in
          rw (h, found, reverted, Ensures)
            (
              record {
                orders_sound = v.orders_sound;
                balances_current =
                    AllValues-insert (IsCurrent s.last_batch_id) key b' s.balances
                      v.balances_current current';
                solution_dated = v.solution_dated;
                solution_booked =
                    λ p. Keeps-HasFee s.last_solution s.balances _ _ kept (v.solution_booked p);
              },
              refl,
              refl,
            )
      | inr h ↦ rw (h, Ensures) (v, refl, refl)
    ]

-- A credit books its entry.
pub update_balance-IsBooked :
    (k : Key) (x : ℤ) (now : ℕ) (m : Assoc Balance)
    → Ensures
        (λ m'. IsBooked now (lookup k m'))
        (update_balance k (λ b. BalanceOps.sell_buy_internal b x now) m)
unfolding update_balance BalanceOps.sell_buy_internal
update_balance-IsBooked k x now m =
    Ensures-bind (λ b. now ≤ b.proceeds.batch_id) (λ m'. IsBooked now (lookup k m'))
      (BalanceOps.sell_buy_internal (or_default (lookup k m)) x now) _ (ground arith)
      (λ b h. rw (lookup-insert, key_eq_self) h)

pub apply_solution_submission-IsValid :
    (s : State) (e : SolutionSubmission)
    → 0 < s.last_batch_id
    → IsValid s
    → Ensures IsValid (apply_solution_submission s e s.last_batch_id)
unfolding apply_solution_submission
apply_solution_submission-IsValid s e h v =
    Ensures-bind (λ fee. get_address_by_id s.tokens 0 ≡ some fee) IsValid
      (ok_or (get_address_by_id s.tokens 0) _) _ (Ensures-ok_or _ _)
      λ fee known.
        Ensures-bind (λ s'. IsValid s' × (s'.last_batch_id ≡ now) × (s'.tokens ≡ s.tokens)) IsValid
          (revert_last_solution s fee now) _ (revert_last_solution-IsValid s fee h known v)
          λ s' q.
            let current = rw q.1 at (q.0.balances_current) in
            Ensures-bind
              (λ m.
                (AllValues (IsCurrent now) m × Keeps s'.balances m)
                × IsBooked now (lookup (e.submitter, fee) m))
              IsValid (update_balance (e.submitter, fee) credit s'.balances) _
              (Ensures-both _ _ _
                (update_balance_lem now (e.submitter, fee) credit s'.balances
                  (sell_buy-Advances (pos e.burnt_fees) now) current)
                (update_balance-IsBooked (e.submitter, fee) (pos e.burnt_fees) now s'.balances))
              λ m r. record {
                orders_sound = q.0.orders_sound;
                balances_current = rw q.1 (r.0.0);
                solution_dated = omega arith;
                solution_booked = λ _. rw (q.2, known) r.1;
              }
  where
    now : ℕ
    now = s.last_batch_id

    credit : Balance → Outcome Balance
    credit b = BalanceOps.sell_buy_internal b (pos e.burnt_fees) s.last_batch_id
