-- ===== src/Streamed/State/Shifts.antt =====
-- services-core/src/orderbook/streamed/state.rs: a call on one balance of a state as a shift of what
-- its entry offers at the beginning of later batches.
use mathlib.Core.Path.{subst}
use dex_services.Prelude.{
  ap, refl, sym, ◌∙◌, ℕ, ◌≤◌, ◌≡◌, Bool, true, false, arith, inl, inr, Bool-cases, ltb,
  if◌then◌else◌,
}
use dex_services.Prelude.Int.{ℤ, pos, negate, ◌+ℤ◌, ◌-ℤ◌, int_laws}
use dex_services.Outcome.{ok-injective, ok}
use dex_services.Assoc.{
  Key, Assoc, lookup, insert, lookup-insert, key_eq, key_eq_self, eq_of_key_eq, AllValues,
  AllValues-insert,
}
use dex_services.Streamed.Balance.{
  Balance, Flux, get_balance_at_beginning_of_batch, sell_buy_internal, revert_sell_buy_internal,
  balance_with_deposit_and_proceeds,
}
use dex_services.Streamed.Balance.View.{
  IsCurrent, sell_buy_lem, revert_sell_buy_lem, sell_buy-succeeds, revert_sell_buy-succeeds,
}
use dex_services.Streamed.State.{or_default, update_balance}
use dex_services.Streamed.State.Invariant.{or_default-IsCurrent}

-- What the entry offers at the beginning of batch `c`, before withdraw requests.
abbrev pub view_at : Assoc Balance → Key → ℕ → ℤ
view_at m j c = balance_with_deposit_and_proceeds (or_default (lookup j m)) c

-- The entry's latest trade is of batch `now`.
abbrev IsTraded : ℕ → Assoc Balance → Key → Type 0
IsTraded now m j = (or_default (lookup j m)).proceeds.batch_id ≡ now

-- What the entry offers at the beginning of batch `c`, less the withdraw request that is due.
abbrev pub offered_at : Assoc Balance → Key → ℕ → ℤ
offered_at m j c = get_balance_at_beginning_of_batch (or_default (lookup j m)) c

-- The entry's withdraw request.
abbrev pub request_at : Assoc Balance → Key → Flux
request_at m j = (or_default (lookup j m)).withdraw

-- What a later batch sees of `x`.
abbrev pub later : ℕ → ℕ → ℤ → ℤ
later now c x = if ltb now c then x else pos 0

-- The second map differs from the first by a call of batch `now` on entry `k`, which adds `x`.
pub record IsShift (now : ℕ) (k : Key) (x : ℤ) (m m' : Assoc Balance) : Type 0 where
  pub current : AllValues (IsCurrent now) m'
  pub traded : IsTraded now m' k
  pub still_traded : (j : Key) → IsTraded now m j → IsTraded now m' j
  pub request_kept : (j : Key) → request_at m' j ≡ request_at m j
  pub shifted :
      (j : Key) (c : ℕ)
      → now ≤ c
      → view_at m' j c ≡ (if key_eq j k then view_at m j c +ℤ later now c x else view_at m j c)

later_add_lem : (now c : ℕ) (x y : ℤ) → (if ltb now c then y +ℤ x else y) ≡ y +ℤ later now c x
later_add_lem now c x y = grind int_laws

later_sub_lem :
    (now c : ℕ) (x y : ℤ) → (if ltb now c then y -ℤ x else y) ≡ y +ℤ later now c (negate x)
later_sub_lem now c x y = grind int_laws

module _ (now : ℕ) (k : Key) (m : Assoc Balance) (h : AllValues (IsCurrent now) m) where
  -- A call's new entry makes the shift.
  insert-IsShift :
      (x : ℤ) (b' : Balance)
      → IsCurrent now b'
      → b'.proceeds.batch_id ≡ now
      → b'.withdraw ≡ request_at m k
      → ((c : ℕ)
          → now ≤ c
          → balance_with_deposit_and_proceeds b' c ≡ view_at m k c +ℤ later now c x)
      → IsShift now k x m (insert k b' m)
  insert-IsShift x b' v d r s = record {
    current = AllValues-insert (IsCurrent now) k b' m h v;
    traded = rw (lookup-insert, key_eq_self) d;
    still_traded = λ j t. elim (Bool-cases (key_eq j k)) [
      | inl e ↦ rw (lookup-insert, e) d
      | inr e ↦ rw (lookup-insert, e) t
    ];
    request_kept = λ j.
        ap (λ o. (or_default o).withdraw) (lookup-insert k j b' m)
        ∙ elim (Bool-cases (key_eq j k)) [
          | inl e ↦ rw e (rw (eq_of_key_eq j k e) r)
          | inr e ↦ rw e refl
        ];
    shifted = λ j c l. elim (Bool-cases (key_eq j k)) [
      | inl e ↦ rw (lookup-insert, e) (rw (eq_of_key_eq j k e) (s c l))
      | inr e ↦ rw (lookup-insert, e)
    ];
  }

  -- A trade through the entry succeeds and makes the shift.
  sell_buy-IsShift :
      (x : ℤ)
      → (m' : Assoc Balance) × (update_balance k (λ b. sell_buy_internal b x now) m ≡ ok m')
        × IsShift now k x m m'
  unfolding update_balance
  sell_buy-IsShift x =
      let b = or_default (lookup k m) in
      let v = or_default-IsCurrent now k m h in
      let (b', e) = sell_buy-succeeds b x now v in
      let facts = λ (c : ℕ) (l : now ≤ c). sell_buy_lem b x now c v l e in
      let now_facts = facts now (omega arith) in
      (
        insert k b' m,
        rw e,
        insert-IsShift x b' now_facts.0 now_facts.2 now_facts.1
            (λ c l. rw ((facts c l).3) (later_add_lem now c x _)),
      )

  -- A reversion through an entry that is traded succeeds and makes the shift back.
  pub revert_sell_buy-IsShift :
      (x : ℤ)
      → IsTraded now m k
      → (m' : Assoc Balance) × (update_balance k (λ b. revert_sell_buy_internal b x now) m ≡ ok m')
        × IsShift now k (negate x) m m'
  unfolding update_balance
  revert_sell_buy-IsShift x t =
      let b = or_default (lookup k m) in
      let v = or_default-IsCurrent now k m h in
      let (b', e) = revert_sell_buy-succeeds b x now t in
      let facts = λ (c : ℕ) (l : now ≤ c). revert_sell_buy_lem b x now c v l e in
      let now_facts = facts now (omega arith) in
      (
        insert k b' m,
        rw e,
        insert-IsShift (negate x) b' now_facts.0 now_facts.2 now_facts.1
            (λ c l. rw ((facts c l).3) (later_sub_lem now c x _)),
      )

  pub sell_buy-shifts :
      (x : ℤ) {m' : Assoc Balance}
      → update_balance k (λ b. sell_buy_internal b x now) m ≡ ok m'
      → IsShift now k x m m'
  sell_buy-shifts x e =
      let (m1, e1, shift) = sell_buy-IsShift x in
      subst (IsShift now k x m) (ok-injective (sym e1 ∙ e)) shift

add_cancel : (v x x' : ℤ) → x +ℤ x' ≡ pos 0 → v +ℤ x +ℤ x' ≡ v
add_cancel v x x' h = grind int_laws

add_cancel_across : (v x y x' : ℤ) → x +ℤ x' ≡ pos 0 → v +ℤ x +ℤ y +ℤ x' ≡ v +ℤ y
add_cancel_across v x y x' h = grind int_laws

-- Two conditional additions and the two that cancel them, in the same order.
cancel :
    (p q : Bool) (v x y x' y' : ℤ) {v1 v2 v3 v4 : ℤ}
    → x +ℤ x' ≡ pos 0
    → y +ℤ y' ≡ pos 0
    → v1 ≡ (if p then v +ℤ x else v)
    → v2 ≡ (if q then v1 +ℤ y else v1)
    → v3 ≡ (if p then v2 +ℤ x' else v2)
    → v4 ≡ (if q then v3 +ℤ y' else v3)
    → v4 ≡ v
cancel true true v x y x' y' hx hy e1 e2 e3 e4 =
    cc (add_cancel_across v x y x' hx, add_cancel v y y' hy)
cancel true false v x y x' y' hx hy e1 e2 e3 e4 = cc (add_cancel v x x' hx)
cancel false true v x y x' y' hx hy e1 e2 e3 e4 = cc (add_cancel v y y' hy)
cancel false false v x y x' y' hx hy e1 e2 e3 e4 = cc

later_cancel : (now c : ℕ) (x : ℤ) → later now c x +ℤ later now c (negate x) ≡ pos 0
later_cancel now c x = grind int_laws

-- Four shifts that cancel: what is sold and bought is given back.
shifts_cancel :
    (now : ℕ) (x y : ℤ) (k l : Key) (m m1 m2 m3 m4 : Assoc Balance)
    → IsShift now k x m m1
    → IsShift now l y m1 m2
    → IsShift now k (negate x) m2 m3
    → IsShift now l (negate y) m3 m4
    → (j : Key) (c : ℕ) → now ≤ c
    → view_at m4 j c ≡ view_at m j c
shifts_cancel now x y k l m m1 m2 m3 m4 s1 s2 s3 s4 j c h =
    cancel (key_eq j k) (key_eq j l) (view_at m j c) (later now c x) (later now c y)
      (later now c (negate x)) (later now c (negate y)) (later_cancel now c x)
      (later_cancel now c y) (s1.shifted j c h) (s2.shifted j c h) (s3.shifted j c h)
      (s4.shifted j c h)

-- What is offered depends on what is available and on the request.
offered_same :
    (b b' : Balance) (c : ℕ)
    → b'.withdraw ≡ b.withdraw
    → balance_with_deposit_and_proceeds b' c ≡ balance_with_deposit_and_proceeds b c
    → get_balance_at_beginning_of_batch b' c ≡ get_balance_at_beginning_of_batch b c
unfolding get_balance_at_beginning_of_batch
offered_same b b' c request view = grind int_laws

-- After shifts that cancel each entry offers what it did, and has the request it had.
pub shifts_restore :
    (now : ℕ) (x y : ℤ) (k l : Key) (m m1 m2 m3 m4 : Assoc Balance)
    → IsShift now k x m m1
    → IsShift now l y m1 m2
    → IsShift now k (negate x) m2 m3
    → IsShift now l (negate y) m3 m4
    → (j : Key) (c : ℕ) → now ≤ c
    → (request_at m4 j ≡ request_at m j) × (offered_at m4 j c ≡ offered_at m j c)
shifts_restore now x y k l m m1 m2 m3 m4 s1 s2 s3 s4 j c h =
    let request = s4.request_kept j ∙ s3.request_kept j ∙ s2.request_kept j ∙ s1.request_kept j in
    (
      request,
      offered_same (or_default (lookup j m)) (or_default (lookup j m4)) c request
          (shifts_cancel now x y k l m m1 m2 m3 m4 s1 s2 s3 s4 j c h),
    )
