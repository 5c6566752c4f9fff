-- ===== src/PriceEstimation/Average.antt =====
-- services-core/src/price_estimation/average_price_source.rs: what the average is, and when it
-- panics.
use native.Mathlib.Nat.{le-div_iff_mul-le, mod-eq_of_lt}
use mathlib.Core.Path.{subst}
use dex_services.Prelude.{
  ℕ, suc, ◌+◌, ◌/◌, ◌%◌, ◌^◌, ◌≤◌, ◌<◌, ◌≡◌, ◌≢◌, refl, sym, ◌∙◌, ap, Option, none, some, List, [],
  ◌∷◌, ◌++◌, All, length, ◌==◌, Bool-cases, inl, inr, if◌then◌else◌, arith,
}
use dex_services.Assoc.{Key, Assoc, key_eq, lookup, eq_of_key_eq, key_eq_self}
use dex_services.Outcome.{ok, panic}
use dex_services.PriceEstimation.{
  push, gather, flatten, lossless_merge, sum, non_zero, average, average_each, average_prices,
}

-- The prices of a token among all entries.
abbrev pub values : Key → List (Key × ℕ) → List ℕ
values k [] = []
values k (e ∷ es) = if key_eq k e.0 then e.1 ∷ values k es else values k es

sum-append : (v : ℕ) (ps : List ℕ) → sum (ps ++ (v ∷ [])) ≡ sum ps + v
sum-append v [] = omega arith
sum-append v (p ∷ ps) = rw (sum-append v ps) (omega arith)

length-append : (v : ℕ) (ps : List ℕ) → length (ps ++ (v ∷ [])) ≡ suc (length ps)
length-append v [] = refl
length-append v (p ∷ ps) = ap suc (length-append v ps)

-- Prices that are not zero, and whose sum with what is still to come fits 128 bits.
record Fits (rest : ℕ) (ps : List ℕ) : Type 0 where
  some_price : 0 < length ps
  not_zero : length ps ≤ sum ps
  fits : sum ps + rest < 2 ^ 128

abbrev AllFit : List (Key × ℕ) → Assoc (List ℕ) → Type 0
AllFit es m = All (λ e. Fits (sum (values e.0 es)) e.1) m

quotient : (a b : ℕ) → 0 < b → b ≤ a → a / b ≢ 0
quotient a b h l e =
    let below = (le-div_iff_mul-le {k = b} {x = 1} {y = a} h).1 (omega arith) in omega arith

mod_small : (a : ℕ) → a < 2 ^ 128 → a % 2 ^ 128 ≡ a
mod_small a h = mod-eq_of_lt h

average-Fits : (rest : ℕ) (ps : List ℕ) → Fits rest ps → average ps ≡ ok (sum ps / length ps)
average-Fits rest ps h =
    rw (mod_small (sum ps) (let f = h.fits in omega arith))
      (not_panicking (sum ps / length ps) (quotient (sum ps) (length ps) h.some_price h.not_zero))
  where
    not_panicking : (q : ℕ) → q ≢ 0 → non_zero q ≡ ok q
    not_panicking q n = elim (Bool-cases (q == 0)) [
      | inl y ↦ absurd (n (ground arith))
      | inr e ↦ rw e refl
    ]

-- Fewer prices are still to come.
Fits-le : (a b : ℕ) (ps : List ℕ) → b ≤ a → Fits a ps → Fits b ps
Fits-le a b ps l h = record {
  some_price = h.some_price;
  not_zero = h.not_zero;
  fits = (let f = h.fits in omega arith);
}

values-le :
    (k j : Key) (v : ℕ) (es : List (Key × ℕ)) → sum (values j es) ≤ sum (values j ((k, v) ∷ es))
values-le k j v es = elim (Bool-cases (key_eq j k)) [
  | inl y ↦ rw y (omega arith)
  | inr n ↦ rw n (omega arith)
]

AllFit-tail :
    (k : Key) (v : ℕ) (es : List (Key × ℕ)) (m : Assoc (List ℕ))
    → AllFit ((k, v) ∷ es) m
    → AllFit es m
AllFit-tail k v es [] h = tt
AllFit-tail k v es (e ∷ m) h =
    (Fits-le _ _ e.1 (values-le k e.0 v es) h.0, AllFit-tail k v es m h.1)

Fits-grown :
    (k : Key) (v : ℕ) (es : List (Key × ℕ)) (ps : List ℕ)
    → 0 < v
    → Fits (sum (values k ((k, v) ∷ es))) ps
    → Fits (sum (values k es)) (ps ++ (v ∷ []))
Fits-grown k v es ps pos = rw (key_eq_self k) (λ h. record {
  some_price = rw (length-append v ps) (omega arith);
  not_zero = rw (length-append v ps, sum-append v ps) (let l = h.not_zero in omega arith);
  fits = rw (sum-append v ps) (let f = h.fits in omega arith);
})

push-AllFit :
    (k : Key) (v : ℕ) (es : List (Key × ℕ)) (m : Assoc (List ℕ))
    → 0 < v
    → v + sum (values k es) < 2 ^ 128
    → AllFit ((k, v) ∷ es) m
    → AllFit es (push k v m)
push-AllFit k v es [] pos h fit =
    (record { some_price = omega arith; not_zero = omega arith; fits = omega arith }, tt)
push-AllFit k v es ((j, ps) ∷ m) pos h fit = elim (Bool-cases (key_eq k j)) [
  | inl y ↦ rw y (
    subst (λ i. Fits (sum (values i ((k, v) ∷ es))) ps → Fits (sum (values i es)) (ps ++ (v ∷ [])))
        (eq_of_key_eq k j y) (Fits-grown k v es ps pos) fit.0,
    AllFit-tail k v es m fit.1,
  )
  | inr n ↦ rw n (Fits-le _ _ ps (values-le k j v es) fit.0, push-AllFit k v es m pos h fit.1)
]

gather-AllFit :
    (es : List (Key × ℕ)) (m : Assoc (List ℕ))
    → All (λ e. 0 < e.1) es
    → ((k : Key) → sum (values k es) < 2 ^ 128)
    → AllFit es m
    → AllFit [] (gather es m)
gather-AllFit [] m pos h fit = fit
gather-AllFit ((k, v) ∷ es) m pos h fit =
    gather-AllFit es (push k v m) pos.1
      (λ j. let l = values-le k j v es in let b = h j in omega arith)
      (push-AllFit k v es m pos.0 (head_fits (h k)) fit)
  where
    head_fits : sum (values k ((k, v) ∷ es)) < 2 ^ 128 → v + sum (values k es) < 2 ^ 128
    head_fits = rw (key_eq_self k) (λ b. b)

joined : Option (List ℕ) → List ℕ → Option (List ℕ)
joined none [] = none
joined none (v ∷ vs) = some (v ∷ vs)
joined (some xs) vs = some (xs ++ vs)

append-cons : (xs : List ℕ) (v : ℕ) (vs : List ℕ) → (xs ++ (v ∷ [])) ++ vs ≡ xs ++ (v ∷ vs)
append-cons [] v vs = refl
append-cons (x ∷ xs) v vs = ap (λ l. x ∷ l) (append-cons xs v vs)

append-nil : (xs : List ℕ) → xs ++ [] ≡ xs
append-nil [] = refl
append-nil (x ∷ xs) = ap (λ l. x ∷ l) (append-nil xs)

lookup-push :
    (k j : Key) (v : ℕ) (m : Assoc (List ℕ))
    → lookup k (push j v m) ≡ (if key_eq k j then joined (lookup k m) (v ∷ []) else lookup k m)
unfolding joined
lookup-push k j v [] = refl
lookup-push k j v ((i, ps) ∷ m) = ground (arith, lookup-push k j v m)

joined-cons :
    (o : Option (List ℕ)) (v : ℕ) (vs : List ℕ) → joined (joined o (v ∷ [])) vs ≡ joined o (v ∷ vs)
unfolding joined
joined-cons none v vs = refl
joined-cons (some xs) v vs = ap some (append-cons xs v vs)

joined_none : (o : Option (List ℕ)) → joined o [] ≡ o
unfolding joined
joined_none none = refl
joined_none (some xs) = ap some (append-nil xs)

lookup-gather :
    (k : Key) (es : List (Key × ℕ)) (m : Assoc (List ℕ))
    → lookup k (gather es m) ≡ joined (lookup k m) (values k es)
lookup-gather k [] m = sym (joined_none (lookup k m))
lookup-gather k ((j, v) ∷ es) m = lookup-gather k es (push j v m) ∙ elim (Bool-cases (key_eq k j)) [
  | inl y ↦ rw (lookup-push k j v m, y) (joined-cons (lookup k m) v (values k es))
  | inr n ↦ rw (lookup-push k j v m, n) refl
]

-- The mean of the prices of a token, if there is one.
pub mean : List ℕ → Option ℕ
mean [] = none
mean (p ∷ ps) = some (sum (p ∷ ps) / length (p ∷ ps))

-- `HashMap::get` on what is averaged of each list.
abbrev quotients : Assoc (List ℕ) → Assoc ℕ
quotients [] = []
quotients (e ∷ m) = (e.0, sum e.1 / length e.1) ∷ quotients m

average_each-AllFit : (m : Assoc (List ℕ)) → AllFit [] m → average_each m ≡ ok (quotients m)
average_each-AllFit [] h = refl
average_each-AllFit (e ∷ m) h = rw (average-Fits 0 e.1 h.0, average_each-AllFit m h.1) refl

abbrev mean_of : Option (List ℕ) → Option ℕ
mean_of none = none
mean_of (some ps) = some (sum ps / length ps)

lookup-quotients : (k : Key) (m : Assoc (List ℕ)) → lookup k (quotients m) ≡ mean_of (lookup k m)
lookup-quotients k [] = refl
lookup-quotients k (e ∷ m) = elim (Bool-cases (key_eq k e.0)) [
  | inl y ↦ rw y refl
  | inr n ↦ rw n (lookup-quotients k m)
]

mean_of-joined : (ps : List ℕ) → mean_of (joined none ps) ≡ mean ps
unfolding mean joined
mean_of-joined [] = refl
mean_of-joined (p ∷ ps) = refl

-- Where no price is 0 and the prices of each token add up to less than 2^128, averaging does not
-- panic, and each token has the mean of its prices in all maps, rounded down, or no price where
-- no map has one.
pub average_prices_lem :
    (maps : List (Assoc ℕ))
    → All (λ e. 0 < e.1) (flatten maps)
    → ((k : Key) → sum (values k (flatten maps)) < 2 ^ 128)
    → (r : Assoc ℕ) × (average_prices maps ≡ ok r)
      × ((k : Key) → lookup k r ≡ mean (values k (flatten maps)))
unfolding average_prices
average_prices_lem maps pos h = (
  quotients (lossless_merge maps),
  average_each-AllFit (lossless_merge maps) (gather-AllFit (flatten maps) [] pos h tt),
  λ k.
      lookup-quotients k (lossless_merge maps)
      ∙ ap mean_of (lookup-gather k (flatten maps) [])
      ∙ mean_of-joined (values k (flatten maps)),
)

wrapped_mean : (p q : ℕ) → 2 ^ 128 ≤ p + q → p + q ≤ 2 ^ 128 + 1 → (p + (q + 0)) % 2 ^ 128 / 2 ≡ 0
wrapped_mean p q l u = omega arith

-- Two sources whose prices for a token add up to 2^128 or one more make averaging panic.
pub average_prices-wrapped :
    (k : Key) (p q : ℕ)
    → 2 ^ 128 ≤ p + q
    → p + q ≤ 2 ^ 128 + 1
    → average_prices (((k, p) ∷ []) ∷ ((k, q) ∷ []) ∷ []) ≡ panic
unfolding average_prices
average_prices-wrapped k p q l u = rw (key_eq_self k, wrapped_mean p q l u) refl
