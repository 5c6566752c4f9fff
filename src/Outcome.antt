-- ===== src/Outcome.antt =====
-- What a call of the Rust code can end in: `Ok`, an `anyhow` error (its message kept as a
-- constructor), or a panic (`unwrap` on nothing, a checked operation that overflows).
use dex_services.Prelude.{Bool, true, false, Option, none, some, ◌≡◌, refl}

pub data Error : Type 0 where
  -- services-core/src/orderbook/streamed/state.rs
  batch_in_past partial_solution event_in_past deposit_batch_mismatch request_in_past : Error
  order_exists unknown_order deleting_valid_order unknown_sell_token unknown_buy_token : Error
  no_fee_token : Error
  -- services-core/src/orderbook/streamed/balance.rs
  request_not_cleared withdraw_mismatch trade_in_past no_such_trade : Error
  -- services-core/src/orderbook/streamed/order.rs
  math_overflow math_underflow over_order_limit : Error

pub data Outcome {ℓ} (A : Type ℓ) : Type ℓ where
  ok : A → Outcome A
  err : Error → Outcome A
  panic : Outcome A

infixl 5 ◌>>=◌ ◌>>◌
abbrev pub ◌>>=◌ {ℓ κ} : {A : Type ℓ} {B : Type κ} → Outcome A → (A → Outcome B) → Outcome B
ok a >>= f = f a
err e >>= f = err e
panic >>= f = panic

abbrev pub ◌>>◌ {ℓ} : {B : Type ℓ} → Outcome (Unit {0}) → Outcome B → Outcome B
m >> k = m >>= λ _. k

-- `ensure!`
abbrev pub ensure : Bool → Error → Outcome (Unit {0})
ensure true e = ok tt
ensure false e = err e

-- `ok_or_else`
abbrev pub ok_or {ℓ} : {A : Type ℓ} → Option A → Error → Outcome A
ok_or none e = err e
ok_or (some a) e = ok a

-- `Option::unwrap`
abbrev pub unwrap {ℓ} : {A : Type ℓ} → Option A → Outcome A
unwrap none = panic
unwrap (some a) = ok a

-- The call did not panic, and if it succeeded then with a result that satisfies `P`.
abbrev pub Ensures {ℓ} : {A : Type ℓ} → (A → Type 0) → Outcome A → Type 0
Ensures P (ok a) = P a
Ensures P (err e) = Unit
Ensures P panic = ⊥

pub >>=-eq-ok {ℓ κ} :
    {A : Type ℓ} {B : Type κ} (call : Outcome A) (next : A → Outcome B) {result : B}
    → (call >>= next) ≡ ok result
    → (x : A) × (call ≡ ok x) × (next x ≡ ok result)
>>=-eq-ok (ok x) next h = (x, refl, h)
>>=-eq-ok (err e) next h = cc
>>=-eq-ok panic next h = cc

-- The same as a rule: what follows from the parts of a bind follows from its success.
pub bind_elim {ℓ κ μ} :
    {A : Type ℓ} {B : Type κ} {C : Type μ} (m : Outcome A) (f : A → Outcome B) {b : B}
    → (m >>= f) ≡ ok b
    → ((a : A) → m ≡ ok a → f a ≡ ok b → C)
    → C
bind_elim (ok a) f h k = k a refl h
bind_elim (err e) f h k = cc
bind_elim panic f h k = cc

pub ok-injective : {A : Type 0} {a b : A} → ok a ≡ ok b → a ≡ b
ok-injective h = cc

pub ok_or-eq-ok : {A : Type 0} (o : Option A) (e : Error) {a : A} → ok_or o e ≡ ok a → o ≡ some a
ok_or-eq-ok none e h = cc
ok_or-eq-ok (some a) e h = cc

pub Ensures-ok {ℓ} :
    {A : Type ℓ} (P : A → Type 0) (m : Outcome A) {a : A} → Ensures P m → m ≡ ok a → P a
Ensures-ok P m h e = rw e at h

pub ensure-eq-ok : (b : Bool) (e : Error) {u : Unit {0}} → ensure b e ≡ ok u → b ≡ true
ensure-eq-ok true e h = refl
ensure-eq-ok false e h = cc

-- The rule for a bind.
pub Ensures-bind :
    {A B : Type 0} (P : A → Type 0) (Q : B → Type 0) (m : Outcome A) (f : A → Outcome B)
    → Ensures P m
    → ((a : A) → P a → Ensures Q (f a))
    → Ensures Q (m >>= f)
Ensures-bind P Q (ok a) f h k = k a h
Ensures-bind P Q (err e) f h k = tt
Ensures-bind P Q panic f h k = elim h [ ]

pub Ensures-ensure : (b : Bool) (e : Error) → Ensures (λ _. Unit {0}) (ensure b e)
Ensures-ensure true e = tt
Ensures-ensure false e = tt

pub Ensures-ok_or : {A : Type 0} (o : Option A) (e : Error) → Ensures (λ a. o ≡ some a) (ok_or o e)
Ensures-ok_or none e = tt
Ensures-ok_or (some a) e = refl

pub Ensures-both :
    {A : Type 0} (P Q : A → Type 0) (m : Outcome A)
    → Ensures P m
    → Ensures Q m
    → Ensures (λ a. P a × Q a) m
Ensures-both P Q (ok a) h k = (h, k)
Ensures-both P Q (err e) h k = tt
Ensures-both P Q panic h k = h
