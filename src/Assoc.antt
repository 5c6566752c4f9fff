-- ===== src/Assoc.antt =====
-- `std::collections::HashMap` with pairs of numbers as keys: an association list without
-- repeated keys, in an order that the program does not rely on.
use dex_services.Prelude.{
  ℕ, ◌≡◌, refl, true, Bool, ◌&&◌, Option, none, some, List, [], ◌∷◌, arith, ◌==◌, if◌then◌else◌,
  All,
}

abbrev pub Key : Type 0
Key = ℕ × ℕ

abbrev pub key_eq : Key → Key → Bool
key_eq (a, b) (c, d) = a == c && b == d

abbrev pub Assoc {ℓ} : Type ℓ → Type ℓ
Assoc V = List (Key × V)

module _ {ℓ} {V : Type ℓ} where
  -- `HashMap::get`
  abbrev pub lookup : Key → Assoc V → Option V
  lookup k [] = none
  lookup k (e ∷ m) = if key_eq k e.0 then some e.1 else lookup k m

  -- `HashMap::insert`
  abbrev pub insert : Key → V → Assoc V → Assoc V
  insert k v [] = (k, v) ∷ []
  insert k v (e ∷ m) = if key_eq k e.0 then (k, v) ∷ m else e ∷ insert k v m

  -- `HashMap::remove`
  abbrev pub erase : Key → Assoc V → Assoc V
  erase k [] = []
  erase k (e ∷ m) = if key_eq k e.0 then m else e ∷ erase k m

  pub lookup-insert :
      (k j : Key) (v : V) (m : Assoc V)
      → lookup j (insert k v m) ≡ (if key_eq j k then some v else lookup j m)
  lookup-insert k j v [] = refl
  lookup-insert k j v (e ∷ m) = ground (arith, lookup-insert k j v m)

  -- Each value satisfies `P`.
  abbrev pub AllValues {κ} : (V → Type κ) → Assoc V → Type κ
  AllValues P m = All (λ e. P e.1) m

  pub AllValues-lookup {κ} :
      (P : V → Type κ) (k : Key) (v : V) (m : Assoc V) → AllValues P m → lookup k m ≡ some v → P v
  AllValues-lookup P k v [] h e = cc
  AllValues-lookup P k v (x ∷ m) h e = ground (arith, AllValues-lookup P k v m h.1)

  pub AllValues-insert {κ} :
      (P : V → Type κ) (k : Key) (v : V) (m : Assoc V)
      → AllValues P m
      → P v
      → AllValues P (insert k v m)
  AllValues-insert P k v [] h p = (p, tt)
  AllValues-insert P k v (x ∷ m) h p = ground (arith, AllValues-insert P k v m h.1 p)

  pub AllValues-erase {κ} :
      (P : V → Type κ) (k : Key) (m : Assoc V) → AllValues P m → AllValues P (erase k m)
  AllValues-erase P k [] h = tt
  AllValues-erase P k (x ∷ m) h = ground (arith, AllValues-erase P k m h.1)

pub eq_of_key_eq : (j k : Key) → key_eq j k ≡ true → j ≡ k
eq_of_key_eq j k h = ground arith

pub key_eq_self : (k : Key) → key_eq k k ≡ true
key_eq_self k = ground arith
