-- ===== src/Models/BatchId.antt =====
-- services-core/src/models/batch_id.rs: batches of five minutes, counted from the Unix epoch. Ids
-- and timestamps are `u64` seconds; a `SystemTime` is the number of seconds since the epoch, and
-- none if it is before the epoch.
use dex_services.Prelude.{
  ℕ, ◌+◌, ◌-◌, ◌*◌, ◌/◌, ◌%◌, ◌^◌, ◌≤◌, ◌<◌, ◌≡◌, Option, none, some, arith, ltb, ◌==◌,
  if◌then◌else◌, ◌⊎◌, ◌↔◌, inl, inr, Bool-cases,
}
use dex_services.Outcome.{Outcome, ok, panic, ◌>>=◌}

-- `BATCH_DURATION`
abbrev pub batch_duration : ℕ
batch_duration = 300

-- `SOLVING_WINDOW`
abbrev pub solving_window : ℕ
solving_window = 240

-- `u64::MAX`
abbrev pub u64_max : ℕ
u64_max = 2 ^ 64 - 1

unfoldable pub from_timestamp : ℕ → ℕ
from_timestamp timestamp = timestamp / batch_duration

-- `BatchId::current`; the error is a time before the epoch.
unfoldable pub current : Option ℕ → Option ℕ
current none = none
current (some now) = some (from_timestamp now)

-- `BatchId::next`
unfoldable pub next : ℕ → Outcome ℕ
next batch = if ltb batch u64_max then ok (batch + 1) else panic

-- `BatchId::prev`
unfoldable pub prev : ℕ → Outcome ℕ
prev batch = if batch == 0 then panic else ok (batch - 1)

unfoldable pub currently_being_solved : Option ℕ → Outcome (Option ℕ)
currently_being_solved none = ok none
currently_being_solved (some now) = prev (from_timestamp now) >>= λ b. ok (some b)

-- `self.0 * BATCH_DURATION.as_secs()`, which wraps in a release build.
unfoldable pub as_timestamp : ℕ → ℕ
as_timestamp batch = (batch * batch_duration) % 2 ^ 64

unfoldable pub order_collection_start_time : ℕ → ℕ
order_collection_start_time batch = as_timestamp batch

unfoldable pub solve_start_time : ℕ → ℕ
solve_start_time batch = order_collection_start_time batch + batch_duration

pub solve_end_time : ℕ → ℕ
solve_end_time batch = solve_start_time batch + solving_window

-- `Into<u32>`: the low 32 bits.
unfoldable pub into_u32 : ℕ → ℕ
into_u32 batch = batch % 2 ^ 32

-- A time lies between the start of a batch's order collection and the start of its solving if and
-- only if the batch is the one of the time.
pub timestamp_in_batch :
    (now batch : ℕ)
    → now < 2 ^ 64
    → batch * batch_duration < 2 ^ 64
    → (order_collection_start_time batch ≤ now) × (now < solve_start_time batch)
      ↔ (batch ≡ from_timestamp now)
unfolding order_collection_start_time solve_start_time as_timestamp from_timestamp
timestamp_in_batch now batch h k = (λ p. omega arith, λ e. (omega arith, omega arith))

-- While the start of a batch fits a `u64`, converting it to a timestamp and back is the identity.
pub from_timestamp-as_timestamp :
    (batch : ℕ) → batch * batch_duration < 2 ^ 64 → from_timestamp (as_timestamp batch) ≡ batch
unfolding from_timestamp as_timestamp
from_timestamp-as_timestamp batch h = omega arith

-- The batch being solved at a time from the second batch on is the one whose orders were
-- collected before: its solving starts where the current batch starts, and its window ends before
-- the current batch does. In the first batch the call panics.
pub being_solved_lem :
    (now : ℕ)
    → now < 2 ^ 64
    → (currently_being_solved (some now) ≡ panic) × (now < batch_duration)
      ⊎ ((b : ℕ) × (currently_being_solved (some now) ≡ ok (some b))
          × (solve_start_time b ≤ now)
          × (solve_start_time b ≡ order_collection_start_time (from_timestamp now))
          × (solve_end_time b < solve_start_time (from_timestamp now)))
unfolding currently_being_solved prev solve_start_time solve_end_time order_collection_start_time
    as_timestamp from_timestamp
being_solved_lem now h = elim (Bool-cases (now / 300 == 0)) [
  | inl first ↦ inl (ground arith, ground arith)
  | inr other ↦
      let positive : 0 < now / 300 = ground arith in
      inr (now / 300 - 1, ground arith, omega arith, omega arith, omega arith)
]
