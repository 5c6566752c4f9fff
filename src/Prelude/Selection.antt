-- ===== src/Prelude/Selection.antt =====
-- What `Iterator::filter`, `Iterator::any` and a membership test of a set do, as relations on lists.
use mathlib.Core.Path.{◌≡◌, refl}
use mathlib.Core.Logic.{◌↔◌, inl, inr}
use mathlib.Core.Bool.{Bool, true, false, not, ◌&&◌}
use mathlib.Core.List.{List, [], ◌∷◌, Memᴰ}
use dex_services.Prelude.Tests.{Bool-cases}
use dex_services.Prelude.Lists.{filter, any}

-- The second list has exactly the elements of the first that satisfy `P`, in their order.
pub data Selects {ℓ κ} {A : Type ℓ} (P : A → Type κ) : List A → List A → Type (ℓ ⊔ κ) where
  stop : Selects P [] []
  keep : {x : A} {xs ys : List A} → P x → Selects P xs ys → Selects P (x ∷ xs) (x ∷ ys)
  skip : {x : A} {xs ys : List A} → ¬ P x → Selects P xs ys → Selects P (x ∷ xs) ys

module _ {ℓ κ} {A : Type ℓ} (p : A → Bool) (P : A → Type κ) where
  -- A test that decides `P` selects what satisfies it.
  pub filter-Selects : ((x : A) → (p x ≡ true) ↔ P x) → (xs : List A) → Selects P xs (filter p xs)
  filter-Selects h [] = Selects.stop
  filter-Selects h (x ∷ xs) = elim (Bool-cases (p x)) [
    | inl e ↦ rw e (Selects.keep ((h x).0 e) (filter-Selects h xs))
    | inr e ↦ rw e (Selects.skip (λ is. let e' = (h x).1 is in cc) (filter-Selects h xs))
  ]

module _ {ℓ} {A : Type ℓ} (p : A → Bool) where
  any_found : (xs : List A) → any p xs ≡ true → (x : A) × Memᴰ x xs × (p x ≡ true)
  any_found [] e = cc
  any_found (y ∷ xs) e = elim (Bool-cases (p y)) [
    | inl found ↦ (y, Memᴰ.head refl, found)
    | inr left ↦ let (x, is, found) = any_found xs (rw left at e) in (x, Memᴰ.tail is, found)
  ]

  any_of : (xs : List A) (x : A) → Memᴰ x xs → p x ≡ true → any p xs ≡ true
  any_of [] x is e = elim is [ ]
  any_of (y ∷ xs) x (Memᴰ.head same) e = rw (← same, e) refl
  any_of (y ∷ xs) x (Memᴰ.tail is) e = elim (Bool-cases (p y)) [
    | inl found ↦ rw found refl
    | inr left ↦ rw left (any_of xs x is e)
  ]

  -- A search finds something exactly if a member passes.
  pub mem-any : (xs : List A) → (any p xs ≡ true) ↔ ((x : A) × Memᴰ x xs × (p x ≡ true))
  mem-any xs = (any_found xs, λ h. any_of xs h.0 h.1 h.2)

-- The negation of a test decides the negation of what the test decides.
pub not-decides {ℓ} : (b : Bool) (P : Type ℓ) → ((b ≡ true) ↔ P) → (not b ≡ true) ↔ ¬ P
not-decides true P h = (λ e. cc, λ n. elim (n (h.0 refl)) [ ])
not-decides false P h = (λ e p. let e' = h.1 p in cc, λ n. refl)

-- Two tests together decide both.
pub and-decides {ℓ κ} :
    (b c : Bool) (P : Type ℓ) (Q : Type κ)
    → ((b ≡ true) ↔ P)
    → ((c ≡ true) ↔ Q)
    → ((b && c) ≡ true) ↔ (P × Q)
and-decides true c P Q h k = (λ e. (h.0 refl, k.0 e), λ pq. k.1 pq.1)
and-decides false c P Q h k = (λ e. cc, λ pq. h.1 pq.0)
