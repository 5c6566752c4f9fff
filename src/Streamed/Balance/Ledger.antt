-- ===== src/Streamed/Balance/Ledger.antt =====
-- services-core/src/orderbook/streamed/balance.rs against an abstract ledger: a list of dated
-- movements, in which a balance is the sum of what has become available.
use dex_services.Prelude.{ℕ, ◌≤◌, ◌≡◌, refl, List, [], ◌∷◌, arith, ltb, if◌then◌else◌}
use dex_services.Prelude.Int.{ℤ, pos, pos_part, ◌+ℤ◌, ◌-ℤ◌, negate, int_laws}
use dex_services.Outcome.{Outcome, ok, ◌>>=◌, >>=-eq-ok}
use dex_services.Streamed.Balance.{
  Balance, Flux, default_balance, balance_with_deposit_and_proceeds, deposit, withdraw_request,
  withdraw, get_balance_at_beginning_of_batch, sell, buy, revert_sell, revert_buy,
}
use dex_services.Streamed.Balance.View.{
  IsCurrent, deposit-IsCurrent, view-deposit, view-deposit_now, sell_buy_lem, revert_sell_buy_lem,
  withdraw_lem,
}

-- The calls that a user's balance can receive. The fees of a solution are a `buy`, and their
-- reversion is a `revert_buy`.
pub data Op : Type 0 where
  deposit_op withdraw_op sell_op buy_op revert_sell_op revert_buy_op : ℕ → Op
  request_op : ℕ → ℕ → Op

-- One call, made in batch `now`.
unfoldable pub apply_op : Op → ℕ → Balance → Outcome Balance
apply_op (deposit_op a) now b = ok (deposit b a now)
apply_op (withdraw_op a) now b = withdraw b a now
apply_op (sell_op a) now b = sell b a now
apply_op (buy_op a) now b = buy b a now
apply_op (revert_sell_op a) now b = revert_sell b a now
apply_op (revert_buy_op a) now b = revert_buy b a now
apply_op (request_op a from) now b = withdraw_request b a from now

-- What the call moves, as seen at the beginning of batch `c`: a withdrawal counts at once, all
-- else from the next batch on.
abbrev moved : Op → ℕ → ℕ → ℤ
moved (deposit_op a) now c = if ltb now c then pos a else pos 0
moved (withdraw_op a) now c = negate (pos a)
moved (sell_op a) now c = if ltb now c then negate (pos a) else pos 0
moved (buy_op a) now c = if ltb now c then pos a else pos 0
moved (revert_sell_op a) now c = if ltb now c then pos a else pos 0
moved (revert_buy_op a) now c = if ltb now c then negate (pos a) else pos 0
moved (request_op a from) now c = pos 0

-- A withdraw request: the batch after which it may be used, and its amount.
abbrev Request : Type 0
Request = ℕ × ℕ

abbrev next_request : Op → ℕ → Request → Request
next_request (request_op a from) now r = (from, a)
next_request (withdraw_op a) now r = if ltb r.0 now then (r.0, 0) else r
next_request (deposit_op a) now r = r
next_request (sell_op a) now r = r
next_request (buy_op a) now r = r
next_request (revert_sell_op a) now r = r
next_request (revert_buy_op a) now r = r

-- The calls of a history, each with its batch.
abbrev pub History : Type 0
History = List (ℕ × Op)

unfoldable pub run : History → Balance → Outcome Balance
run [] b = ok b
run ((now, op) ∷ h) b = apply_op op now b >>= run h

-- The batches of a history do not go back, and start at `now` or later.
abbrev IsOrdered : ℕ → History → Type 0
IsOrdered now [] = Unit
IsOrdered now ((n, op) ∷ h) = (now ≤ n) × IsOrdered n h

abbrev last_batch : ℕ → History → ℕ
last_batch now [] = now
last_batch now ((n, op) ∷ h) = last_batch n h

pub settled : History → ℕ → ℤ
settled [] c = pos 0
settled ((now, op) ∷ h) c = moved op now c +ℤ settled h c

outstanding : History → Request → Request
outstanding [] r = r
outstanding ((now, op) ∷ h) r = outstanding h (next_request op now r)

-- The balance holds `r` as its withdraw request.
abbrev Holds : Request → Balance → Type 0
Holds r b = (b.withdraw.batch_id ≡ r.0) × (b.withdraw.amount ≡ pos r.1)

deposit-withdraw : (b : Balance) (a now : ℕ) → (deposit b a now).withdraw ≡ b.withdraw
unfolding deposit
deposit-withdraw b a now = refl

withdraw_request_lem :
    (b : Balance) (a from now : ℕ) {b' : Balance}
    → withdraw_request b a from now ≡ ok b'
    → b' ≡ record b { withdraw = record { batch_id = from; amount = pos a } }
unfolding withdraw_request
withdraw_request_lem b a from now e = ground arith

view_request :
    (b : Balance) (w : Flux) (c : ℕ)
    → balance_with_deposit_and_proceeds (record b { withdraw = w }) c
      ≡ balance_with_deposit_and_proceeds b c
unfolding balance_with_deposit_and_proceeds
view_request b w c = refl

apply_op_lem :
    (op : Op) (b : Balance) (r : Request) (now c : ℕ) {b' : Balance}
    → IsCurrent now b
    → Holds r b
    → now ≤ c
    → apply_op op now b ≡ ok b'
    → IsCurrent now b'
      × Holds (next_request op now r) b'
      × (balance_with_deposit_and_proceeds b' c
          ≡ balance_with_deposit_and_proceeds b c +ℤ moved op now c)
unfolding apply_op
apply_op_lem (deposit_op a) b r now c v q h e = grind (
  int_laws,
  view-deposit b a now c v,
  view-deposit_now b a now,
  deposit-IsCurrent b a now v,
  deposit-withdraw b a now,
)
apply_op_lem (withdraw_op a) b r now c v q h e = grind (int_laws, withdraw_lem b a now c v h e)
apply_op_lem (sell_op a) b r now c v q h e =
    grind (int_laws, sell_buy_lem b (negate (pos a)) now c v h e)
apply_op_lem (buy_op a) b r now c v q h e = grind (int_laws, sell_buy_lem b (pos a) now c v h e)
apply_op_lem (revert_sell_op a) b r now c v q h e =
    grind (int_laws, revert_sell_buy_lem b (negate (pos a)) now c v h e)
apply_op_lem (revert_buy_op a) b r now c v q h e =
    grind (int_laws, revert_sell_buy_lem b (pos a) now c v h e)
apply_op_lem (request_op a from) b r now c v q h e = grind (
  int_laws,
  withdraw_request_lem b a from now e,
  view_request b (record { batch_id = from; amount = pos a }) c,
)

IsCurrent-mono : {n m : ℕ} {b : Balance} → n ≤ m → IsCurrent n b → IsCurrent m b
IsCurrent-mono h v = omega arith

last_batch-le : (h : History) (n : ℕ) → IsOrdered n h → n ≤ last_batch n h
last_batch-le [] n o = omega arith
last_batch-le ((m, op) ∷ h) n o = omega (arith, last_batch-le h m o.1)

run_lem :
    (h : History) (b : Balance) (r : Request) (now c : ℕ) {b' : Balance}
    → IsCurrent now b
    → Holds r b
    → IsOrdered now h
    → last_batch now h ≤ c
    → run h b ≡ ok b'
    → Holds (outstanding h r) b'
      × (balance_with_deposit_and_proceeds b' c
          ≡ balance_with_deposit_and_proceeds b c +ℤ settled h c)
unfolding run settled outstanding
run_lem [] b r now c v q o l e = grind int_laws
run_lem ((n, op) ∷ h) b r now c v q o l e =
    let (b1, first, rest) = >>=-eq-ok (apply_op op n b) (run h) e in
    let step =
      apply_op_lem op b r n c (IsCurrent-mono o.0 v) q (omega (arith, last_batch-le h n o.1))
        first in
    let tail = run_lem h b1 (next_request op n r) n c step.0 step.1 o.1 l rest in
    (tail.0, grind (int_laws, step.2, tail.1))

-- What the ledger says that a user has at the beginning of batch `c`.
pub available : History → ℕ → ℤ
unfolding settled outstanding
available h c =
    let (from, amount) = outstanding h (0, 0) in
    if ltb from c then pos (pos_part (settled h c -ℤ pos amount)) else settled h c

view_default : (c : ℕ) → balance_with_deposit_and_proceeds default_balance c ≡ pos 0
unfolding balance_with_deposit_and_proceeds
view_default c = grind int_laws

-- From an empty balance, every history of successful calls leaves exactly the balance that the
-- ledger gives: at every later batch the sum of the movements that are available by then, less
-- the outstanding withdraw request but never below zero.
pub run-refines-ledger :
    (h : History) (c : ℕ) {b : Balance}
    → IsOrdered 0 h
    → last_batch 0 h ≤ c
    → run h default_balance ≡ ok b
    → get_balance_at_beginning_of_batch b c ≡ available h c
unfolding get_balance_at_beginning_of_batch available
run-refines-ledger h c o l e = grind (
  int_laws,
  view_default c,
  run_lem h default_balance (0, 0) 0 c (omega arith) (refl, refl) o l e,
)
