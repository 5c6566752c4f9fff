-- ===== src/History/Registry/Exact.antt =====
-- services-core/src/history/events.rs: which entries the registry has after an update.
use mathlib.Core.List.{Memᴰ}
use dex_services.Models.BatchId.{from_timestamp}
use dex_services.Prelude.{
  mem-filter, All-imp, ◌/◌, ◌≢◌, ◌⊎◌, ◌↔◌, ◌<◌, sym, ltb→lt, lt→ltb, All-filter, ℕ, ◌≤◌, ◌≡◌, refl,
  ap, ◌∙◌, Bool, true, List, [], ◌∷◌, ltb, inl, inr, filter, All, arith, Bool-cases,
}
use dex_services.History.Registry.{
  EventSortKey, Value, key_lt, Entry, EventRegistry, insert, handle_event_data,
  delete_events_starting_at_block,
}
use dex_services.History.Registry.Keys.{
  IsSorted, insert-IsSorted, delete_events_starting_at_block_lem, key_trichotomy,
}
use dex_services.History.Registry.Reorg.{Log, handle_log, handle_logs, resync}

filter-IsSorted : (p : Entry → Bool) (m : EventRegistry) → IsSorted m → IsSorted (filter p m)
filter-IsSorted p [] s = tt
filter-IsSorted p (e ∷ m) s = elim (Bool-cases (p e)) [
  | inl h ↦ rw h (All-filter (λ f. key_lt e.0 f.0 ≡ true) p m s.0, filter-IsSorted p m s.1)
  | inr h ↦ rw h (filter-IsSorted p m s.1)
]

handle_logs-IsSorted :
    (ls : List Log) (m : EventRegistry) → IsSorted m → IsSorted (handle_logs m ls)
unfolding handle_event_data
handle_logs-IsSorted [] m s = s
handle_logs-IsSorted (l ∷ ls) m s = handle_logs-IsSorted ls _ (insert-IsSorted _ _ m s)

resync-IsSorted :
    (n : ℕ) (ls : List Log) (m : EventRegistry) → IsSorted m → IsSorted (resync n ls m)
resync-IsSorted n ls m s =
    handle_logs-IsSorted ls (delete_events_starting_at_block m n)
      (rw (delete_events_starting_at_block_lem m n) (filter-IsSorted _ m s))

-- The entry that an event should have: its place in the chain, and the batch of its block, which
-- lasts 300 seconds.
abbrev pub place : Log → EventSortKey
place l = record {
  block_number = l.block_number;
  block_hash = l.block_hash;
  log_index = l.log_index;
}

abbrev pub entry : Log → Entry
entry l = (place l, record { event = l.event; batch_id = l.block_timestamp / 300 })

-- No two events have the same place.
abbrev pub AreApart : List Log → Type 0
AreApart [] = Unit
AreApart (l ∷ ls) = All (λ l'. place l ≢ place l') ls × AreApart ls

handle_log-insert : (m : EventRegistry) (l : Log) → handle_log m l ≡ insert (place l) (entry l).1 m
unfolding handle_event_data from_timestamp
handle_log-insert m l = refl

insert_self : (k : EventSortKey) (v : Value) (m : EventRegistry) → Memᴰ (k, v) (insert k v m)
insert_self k v [] = Memᴰ.head refl
insert_self k v (x ∷ m) = elim (Bool-cases (key_lt k x.0)) [
  | inl less ↦ rw less (Memᴰ.head refl)
  | inr h ↦ elim (Bool-cases (key_lt x.0 k)) [
    | inl more ↦ rw (h, more) (Memᴰ.tail (insert_self k v m))
    | inr h' ↦ rw (h, h') (Memᴰ.head refl)
  ]
]

insert_other :
    (e : Entry) (k : EventSortKey) (v : Value) (m : EventRegistry)
    → Memᴰ e m
    → e.0 ≢ k
    → Memᴰ e (insert k v m)
insert_other e k v [] is n = elim is [ ]
insert_other e k v (x ∷ m) is n = elim (Bool-cases (key_lt k x.0)) [
  | inl less ↦ rw less (Memᴰ.tail is)
  | inr h ↦ elim (Bool-cases (key_lt x.0 k)) [
    | inl more ↦ rw (h, more) (go is (λ rest. insert_other e k v m rest n))
    | inr h' ↦ rw (h, h') (replaced is (key_trichotomy k x.0 h h'))
  ]
]
  where
    go : Memᴰ e (x ∷ m) → (Memᴰ e m → Memᴰ e (insert k v m)) → Memᴰ e (x ∷ insert k v m)
    go (Memᴰ.head same) next = Memᴰ.head same
    go (Memᴰ.tail rest) next = Memᴰ.tail (next rest)

    replaced : Memᴰ e (x ∷ m) → k ≡ x.0 → Memᴰ e ((k, v) ∷ m)
    replaced (Memᴰ.head same) here = absurd (n (ap (λ (y : Entry). y.0) same ∙ sym here))
    replaced (Memᴰ.tail rest) here = Memᴰ.tail rest

new_or_old :
    (e x : Entry) (k : EventSortKey) (v : Value) (m ys : EventRegistry)
    → (Memᴰ e ys → (e ≡ (k, v)) ⊎ Memᴰ e m)
    → Memᴰ e (x ∷ ys)
    → (e ≡ (k, v)) ⊎ Memᴰ e (x ∷ m)
new_or_old e x k v m ys next (Memᴰ.head same) = inr (Memᴰ.head same)
new_or_old e x k v m ys next (Memᴰ.tail rest) = elim (next rest) [
  | inl new ↦ inl new
  | inr old ↦ inr (Memᴰ.tail old)
]

new_first :
    (e : Entry) (k : EventSortKey) (v : Value) (ys : EventRegistry)
    → Memᴰ e ((k, v) ∷ ys)
    → (e ≡ (k, v)) ⊎ Memᴰ e ys
new_first e k v ys (Memᴰ.head same) = inl same
new_first e k v ys (Memᴰ.tail rest) = inr rest

new_instead :
    (e x : Entry) (k : EventSortKey) (v : Value) (ys : EventRegistry)
    → Memᴰ e ((k, v) ∷ ys)
    → (e ≡ (k, v)) ⊎ Memᴰ e (x ∷ ys)
new_instead e x k v ys (Memᴰ.head same) = inl same
new_instead e x k v ys (Memᴰ.tail rest) = inr (Memᴰ.tail rest)

insert_from :
    (e : Entry) (k : EventSortKey) (v : Value) (m : EventRegistry)
    → Memᴰ e (insert k v m)
    → (e ≡ (k, v)) ⊎ Memᴰ e m
insert_from e k v [] = new_first e k v []
insert_from e k v (x ∷ m) = elim (Bool-cases (key_lt k x.0)) [
  | inl less ↦ rw less (new_first e k v (x ∷ m))
  | inr h ↦ elim (Bool-cases (key_lt x.0 k)) [
    | inl more ↦ rw (h, more) (new_or_old e x k v m (insert k v m) (insert_from e k v m))
    | inr h' ↦ rw (h, h') (new_instead e x k v m)
  ]
]

-- Where an entry comes from: it is that of a reported event, or it was there.
abbrev pub IsReported : Entry → List Log → Type 0
IsReported e ls = (l : Log) × Memᴰ l ls × (e ≡ entry l)

logs_from :
    (e : Entry) (ls : List Log) (m : EventRegistry)
    → Memᴰ e (handle_logs m ls)
    → IsReported e ls ⊎ Memᴰ e m
logs_from e [] m is = inr is
logs_from e (l ∷ ls) m is = elim (logs_from e ls (handle_log m l) is) [
  | inl (l', among, same) ↦ inl (l', Memᴰ.tail among, same)
  | inr before ↦
      elim (insert_from e (place l) (entry l).1 m (rw (handle_log-insert m l) at before)) [
        | inl same ↦ inl (l, Memᴰ.head refl, same)
        | inr old ↦ inr old
      ]
]

logs_keep :
    (e : Entry) (ls : List Log) (m : EventRegistry)
    → Memᴰ e m
    → All (λ l. e.0 ≢ place l) ls
    → Memᴰ e (handle_logs m ls)
logs_keep e [] m is apart = is
logs_keep e (l ∷ ls) m is apart =
    logs_keep e ls (handle_log m l)
      (rw (handle_log-insert m l) (insert_other e (place l) (entry l).1 m is apart.0)) apart.1

logs_add :
    (l : Log) (ls : List Log) (m : EventRegistry)
    → AreApart ls
    → Memᴰ l ls
    → Memᴰ (entry l) (handle_logs m ls)
logs_add l [] m apart is = elim is [ ]
logs_add l (x ∷ ls) m apart (Memᴰ.tail is) = logs_add l ls (handle_log m x) apart.1 is
logs_add l (x ∷ ls) m apart (Memᴰ.head same) = rw same (
    logs_keep (entry x) ls (handle_log m x)
      (rw (handle_log-insert m x) (insert_self (place x) (entry x).1 m)) apart.0)

elsewhere :
    (e : Entry) (l : Log) (n : ℕ) → e.0.block_number < n → n ≤ l.block_number → e.0 ≢ place l
elsewhere e l n before from same =
    let equal = ap (λ (k : EventSortKey). k.block_number) same in absurd (omega arith)

-- In a registry whose keys rise strictly, and where the node reports only blocks from the first
-- requested one on, and no place twice: after an update the registry has the entries of earlier
-- blocks and one for each event that was reported, of its place in the chain and the batch of its
-- block's time, and no others; and its keys still rise strictly.
pub resync-IsExact :
    (n : ℕ) (ls : List Log) (m : EventRegistry)
    → All (λ l. n ≤ l.block_number) ls
    → AreApart ls
    → IsSorted m
    → ((e : Entry)
        → Memᴰ e (resync n ls m) ↔ (IsReported e ls ⊎ (Memᴰ e m × (e.0.block_number < n))))
      × IsSorted (resync n ls m)
resync-IsExact n ls m later apart s = (
  λ e.
      let kept = mem-filter (λ (x : Entry). ltb x.0.block_number n) e m in
      (
        λ is. elim (logs_from e ls (delete_events_starting_at_block m n) is) [
          | inl reported ↦ inl reported
          | inr old ↦
              let (among, before) = kept.0 (rw (delete_events_starting_at_block_lem m n) at old) in
              inr (among, ltb→lt _ _ before)
        ],
        λ h. elim h [
          | inl (l, among, same) ↦
              rw same (logs_add l ls (delete_events_starting_at_block m n) apart among)
          | inr (among, before) ↦
              logs_keep e ls (delete_events_starting_at_block m n)
                (rw (delete_events_starting_at_block_lem m n) (kept.1 (among, lt→ltb _ _ before)))
                (All-imp (λ l from. elsewhere e l n before from) ls later)
        ],
      ),
  resync-IsSorted n ls m s,
)
