-- ===== src/History/Registry/Keys.antt =====
-- services-core/src/history/events.rs: the registry as a sorted map, and its ranges of blocks.
use dex_services.Prelude.{
  ℕ, ◌≤◌, ◌==◌, if◌then◌else◌, ◌≡◌, refl, true, false, [], ◌∷◌, ltb, leb, inl, inr, filter, All,
  All-imp, arith, Bool-cases,
}
use dex_services.Models.BatchId.{u64_max}
use dex_services.History.Registry.{
  EventSortKey, Value, key_lt, EventRegistry, insert, delete_events_starting_at_block,
  until_end_of_block,
}

key_lt_trans : (a b c : EventSortKey) → key_lt a b ≡ true → key_lt b c ≡ true → key_lt a c ≡ true
key_lt_trans a b c h k = ground arith

pub key_trichotomy : (a b : EventSortKey) → key_lt a b ≡ false → key_lt b a ≡ false → a ≡ b
key_trichotomy a b h k = ground arith

-- A key lies below the first key of a block if its block does.
key_lt-block :
    (k : EventSortKey) (n : ℕ)
    → key_lt k (record { block_number = n; block_hash = 0; log_index = 0 }) ≡ ltb k.block_number n
key_lt-block k n = ground arith

-- The keys of a registry rise strictly.
abbrev pub IsSorted : EventRegistry → Type 0
IsSorted [] = Unit
IsSorted (e ∷ m) = All (λ f. key_lt e.0 f.0 ≡ true) m × IsSorted m

All-insert :
    (P : EventSortKey → Type 0) (k : EventSortKey) (v : Value) (m : EventRegistry)
    → P k
    → All (λ e. P e.0) m
    → All (λ e. P e.0) (insert k v m)
All-insert P k v [] p h = (p, tt)
All-insert P k v (e ∷ m) p h = ground (arith, All-insert P k v m p h.1)

pub insert-IsSorted :
    (k : EventSortKey) (v : Value) (m : EventRegistry) → IsSorted m → IsSorted (insert k v m)
insert-IsSorted k v [] s = (tt, tt)
insert-IsSorted k v (e ∷ m) s = elim (Bool-cases (key_lt k e.0)) [
  | inl less ↦ rw less ((less, All-imp (λ f q. key_lt_trans k e.0 f.0 less q) m s.0), s)
  | inr h ↦ elim (Bool-cases (key_lt e.0 k)) [
    | inl more ↦
        rw (h, more)
          (All-insert (λ j. key_lt e.0 j ≡ true) k v m more s.0, insert-IsSorted k v m s.1)
    | inr h' ↦ rw (h, h') (rw (key_trichotomy k e.0 h h') s)
  ]
]

pub delete_events_starting_at_block_lem :
    (m : EventRegistry) (n : ℕ)
    → delete_events_starting_at_block m n ≡ filter (λ e. ltb e.0.block_number n) m
unfolding delete_events_starting_at_block
delete_events_starting_at_block_lem [] n = refl
delete_events_starting_at_block_lem (e ∷ m) n =
    rw (key_lt-block, delete_events_starting_at_block_lem m n)

-- Below the largest `u64` the range holds the blocks up to and including the given one; for the
-- largest it leaves out the events of that block.
pub until_end_of_block_lem :
    (m : EventRegistry) (n : ℕ)
    → n ≤ u64_max
    → until_end_of_block m n
      ≡ filter (λ e. if n == u64_max then ltb e.0.block_number n else leb e.0.block_number n) m
unfolding until_end_of_block
until_end_of_block_lem [] n h = refl
until_end_of_block_lem (e ∷ m) n h = rw (key_lt-block, until_end_of_block_lem m n h) (ground arith)
