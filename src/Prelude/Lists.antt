-- ===== src/Prelude/Lists.antt =====
-- Lists measured by native numbers, and predicates on lists by recursion.
use Prim.Native.Nat.{ℕ, suc}
use mathlib.Core.Path.{◌≡◌, refl, ap, ◌∙◌}
use mathlib.Core.Logic.{◌↔◌, inl, inr}
use mathlib.Core.Bool.{Bool, true, false}
use mathlib.Core.List.{List, [], ◌∷◌, Memᴰ}
use mathlib.Core.Option.{Option, none, some}
use dex_services.Prelude.Tests.{Bool-cases, if◌then◌else◌}

module _ {ℓ} {A : Type ℓ} where
  abbrev pub length : List A → ℕ
  length [] = 0
  length (x ∷ xs) = suc (length xs)

  -- Every member of the list satisfies `P`.
  abbrev pub All {κ} : (A → Type κ) → List A → Type κ
  All P [] = Unit
  All P (x ∷ xs) = P x × All P xs

  -- `Iterator::filter`
  abbrev pub filter : (A → Bool) → List A → List A
  filter p [] = []
  filter p (x ∷ xs) = if p x then x ∷ filter p xs else filter p xs

  -- `Iterator::any`
  abbrev pub any : (A → Bool) → List A → Bool
  any p [] = false
  any p (x ∷ xs) = if p x then true else any p xs

abbrev pub cons_some {ℓ} : {B : Type ℓ} → Option B → List B → List B
cons_some none ys = ys
cons_some (some y) ys = y ∷ ys

module _ {ℓ κ} {A : Type ℓ} {B : Type κ} where
  -- `Iterator::filter_map`
  abbrev pub filter_map : (A → Option B) → List A → List B
  filter_map f [] = []
  filter_map f (x ∷ xs) = cons_some (f x) (filter_map f xs)

module _ {ℓ κ μ} {A : Type ℓ} where
  pub All-imp :
      {P : A → Type κ} {Q : A → Type μ}
      → ((x : A) → P x → Q x)
      → (xs : List A) → All P xs
      → All Q xs
  All-imp f [] h = tt
  All-imp f (x ∷ xs) h = (f x h.0, All-imp f xs h.1)

pub All-filter {ℓ κ} :
    {A : Type ℓ} (P : A → Type κ) (p : A → Bool) (xs : List A) → All P xs → All P (filter p xs)
All-filter P p [] h = tt
All-filter P p (x ∷ xs) h = elim (Bool-cases (p x)) [
  | inl e ↦ rw e (h.0, All-filter P p xs h.1)
  | inr e ↦ rw e (All-filter P p xs h.1)
]

pub filter-All {ℓ} : {A : Type ℓ} (p : A → Bool) (xs : List A) → All (λ x. p x ≡ true) (filter p xs)
filter-All p [] = tt
filter-All p (x ∷ xs) = elim (Bool-cases (p x)) [
  | inl e ↦ rw e (e, filter-All p xs)
  | inr e ↦ rw e (filter-All p xs)
]

module _ {ℓ} {A : Type ℓ} (p : A → Bool) (x : A) where
  filter-mem : (xs : List A) → Memᴰ x (filter p xs) → Memᴰ x xs × (p x ≡ true)
  filter-mem [] is = elim is [ ]
  filter-mem (y ∷ xs) is = go (p y) refl is (filter-mem xs)
    where
      go :
          (b : Bool)
          → p y ≡ b
          → Memᴰ x (if b then y ∷ filter p xs else filter p xs)
          → (Memᴰ x (filter p xs) → Memᴰ x xs × (p x ≡ true))
          → Memᴰ x (y ∷ xs) × (p x ≡ true)
      go false e rest next = (Memᴰ.tail (next rest).0, (next rest).1)
      go true e (Memᴰ.head same) next = (Memᴰ.head same, ap p same ∙ e)
      go true e (Memᴰ.tail rest) next = (Memᴰ.tail (next rest).0, (next rest).1)

  mem_kept : (xs : List A) → Memᴰ x xs → p x ≡ true → Memᴰ x (filter p xs)
  mem_kept [] is e = elim is [ ]
  mem_kept (y ∷ xs) (Memᴰ.head same) e = rw (← same, e) (Memᴰ.head refl)
  mem_kept (y ∷ xs) (Memᴰ.tail is) e = elim (Bool-cases (p y)) [
    | inl chosen ↦ rw chosen (Memᴰ.tail (mem_kept xs is e))
    | inr left ↦ rw left (mem_kept xs is e)
  ]

  -- The members that a filter keeps are those that pass.
  pub mem-filter : (xs : List A) → Memᴰ x (filter p xs) ↔ (Memᴰ x xs × (p x ≡ true))
  mem-filter xs = (filter-mem xs, λ h. mem_kept xs h.0 h.1)
