-- ===== src/History/Registry/Reorg.antt =====
-- services-core/src/history/events.rs: removing the events of the latest blocks and receiving
-- them again, as after a reorganisation of the chain.
use dex_services.Prelude.{
  ℕ, ◌≤◌, ◌≡◌, refl, ap, ◌∙◌, Bool, List, [], ◌∷◌, ltb, inl, inr, filter, All, arith, Bool-cases,
}
use dex_services.Streamed.Event.{Event}
use dex_services.History.Registry.{
  EventSortKey, Value, key_lt, EventRegistry, insert, handle_event_data,
  delete_events_starting_at_block,
}
use dex_services.History.Registry.Keys.{delete_events_starting_at_block_lem, key_trichotomy}

-- An event as the node reports it.
pub record Log : Type 0 where
  pub event : Event
  pub block_number : ℕ
  pub log_index : ℕ
  pub block_hash : ℕ
  pub block_timestamp : ℕ

abbrev pub handle_log : EventRegistry → Log → EventRegistry
handle_log m l =
    handle_event_data m l.event l.block_number l.log_index l.block_hash l.block_timestamp

abbrev pub handle_logs : EventRegistry → List Log → EventRegistry
handle_logs m [] = m
handle_logs m (l ∷ ls) = handle_logs (handle_log m l) ls

-- Drop what is known of the blocks from `n` on, then take what the node reports.
abbrev pub resync : ℕ → List Log → EventRegistry → EventRegistry
resync n ls m = handle_logs (delete_events_starting_at_block m n) ls

filter-insert :
    (n : ℕ) (k : EventSortKey) (v : Value) (m : EventRegistry)
    → n ≤ k.block_number
    → filter (λ e. ltb e.0.block_number n) (insert k v m) ≡ filter (λ e. ltb e.0.block_number n) m
filter-insert n k v [] h = ground arith
filter-insert n k v (e ∷ m) h = elim (Bool-cases (key_lt k e.0)) [
  | inl less ↦ rw less (ground arith)
  | inr h1 ↦ elim (Bool-cases (key_lt e.0 k)) [
    | inl more ↦ rw (h1, more) (ground (arith, filter-insert n k v m h))
    | inr h2 ↦ rw (h1, h2) (ground (arith, key_trichotomy k e.0 h1 h2))
  ]
]

delete-handle_log :
    (n : ℕ) (l : Log) (m : EventRegistry)
    → n ≤ l.block_number
    → delete_events_starting_at_block (handle_log m l) n ≡ delete_events_starting_at_block m n
unfolding handle_event_data
delete-handle_log n l m h =
    rw (delete_events_starting_at_block_lem, delete_events_starting_at_block_lem)
      (filter-insert n _ _ m h)

pub delete-handle_logs :
    (n : ℕ) (ls : List Log) (m : EventRegistry)
    → All (λ l. n ≤ l.block_number) ls
    → delete_events_starting_at_block (handle_logs m ls) n ≡ delete_events_starting_at_block m n
delete-handle_logs n [] m h = refl
delete-handle_logs n (l ∷ ls) m h =
    delete-handle_logs n ls (handle_log m l) h.1 ∙ delete-handle_log n l m h.0

filter-filter {ℓ} : {A : Type ℓ} (p : A → Bool) (xs : List A) → filter p (filter p xs) ≡ filter p xs
filter-filter p [] = refl
filter-filter p (x ∷ xs) = elim (Bool-cases (p x)) [
  | inl e ↦ rw (e, filter, e, filter-filter p xs)
  | inr e ↦ rw (e, filter-filter p xs)
]

pub delete-delete :
    (n : ℕ) (m : EventRegistry)
    → delete_events_starting_at_block (delete_events_starting_at_block m n) n
      ≡ delete_events_starting_at_block m n
delete-delete n m =
    rw (delete_events_starting_at_block_lem, delete_events_starting_at_block_lem)
      (filter-filter _ m)

-- Events of blocks that a later update fetches again leave no trace: after it the registry is the
-- one that the later update alone would have built.
pub resync-resync :
    (n : ℕ) (ls ls' : List Log) (m : EventRegistry)
    → All (λ l. n ≤ l.block_number) ls
    → resync n ls' (resync n ls m) ≡ resync n ls' m
resync-resync n ls ls' m h =
    ap (λ (t : EventRegistry). handle_logs t ls')
      (delete-handle_logs n ls (delete_events_starting_at_block m n) h ∙ delete-delete n m)
