-- ===== src/History/Batches.antt =====
-- services-core/src/history/batches.rs: the batches from a start until now, an inclusive range of
-- the standard library with its flag for an exhausted iterator.
use dex_services.Prelude.{
  ℕ, zero, suc, ◌+◌, ◌-◌, ◌≤◌, ◌<◌, ◌≡◌, refl, ap, ◌∙◌, Bool, true, false, ◌||◌, Option, none, some,
  List, [], ◌∷◌, ltb, if◌then◌else◌, length, arith,
}

pub record Batches : Type 0 where
  pub start : ℕ
  pub last : ℕ
  pub exhausted : Bool

-- `BatchId::now()` is a parameter.
abbrev pub from_batch : ℕ → ℕ → Batches
from_batch start now = record { start = start; last = now; exhausted = false }

abbrev pub empty : Batches
empty = record { start = 1; last = 0; exhausted = false }

-- `end.saturating_sub(start)`, which is `-` on ℕ.
unfoldable pub batch_count : Batches → ℕ
batch_count b = b.last - b.start

next_batch : Batches → Option (ℕ × Batches)
next_batch b =
    if b.exhausted || ltb b.last b.start
    then none
    else some (
      b.start,
      if ltb b.start b.last
          then record b { start = b.start + 1 }
          else record b { exhausted = true },
    )

abbrev put : ℕ → Option (List ℕ) → Option (List ℕ)
put batch none = none
put batch (some bs) = some (batch ∷ bs)

abbrev follow : Option (ℕ × Batches) → (Batches → Option (List ℕ)) → Option (List ℕ)
follow none rest = some []
follow (some (batch, b)) rest = put batch (rest b)

-- What a `for` loop sees, on fuel; none if the fuel runs out.
pub run_out : ℕ → Batches → Option (List ℕ)
run_out zero b = none
run_out (suc fuel) b = follow (next_batch b) (run_out fuel)

-- The given number of batches from a start.
abbrev pub up_from : ℕ → ℕ → List ℕ
up_from start zero = []
up_from start (suc n) = start ∷ up_from (start + 1) n

length-up_from : (start n : ℕ) → length (up_from start n) ≡ n
length-up_from start zero = refl
length-up_from start (suc n) = ap suc (length-up_from (start + 1) n)

run_out-up_from :
    (start n fuel : ℕ)
    → n + 1 < fuel
    → run_out fuel (from_batch start (start + n)) ≡ some (up_from start (suc n))
unfolding run_out next_batch
run_out-up_from start n zero f = ground arith
run_out-up_from start n (suc zero) f = ground arith
run_out-up_from start zero (suc (suc fuel)) f =
    let last : ltb (start + 0) start ≡ false = ground arith in
    let alone : ltb start (start + 0) ≡ false = ground arith in rw (last, alone) refl
run_out-up_from start (suc n) (suc (suc fuel)) f =
    let tail = run_out-up_from (start + 1) n (suc fuel) (omega arith) in
    let same : start + 1 + n ≡ start + suc n = omega arith in
    let last : ltb (start + suc n) start ≡ false = ground arith in
    let more : ltb start (start + suc n) ≡ true = ground arith in
    rw (last, more) (ap (put start) (rw same at tail))

-- The iterator ends after each batch from the start until now, in order, and these are one more
-- than `batch_count` says.
pub run_out_lem :
    (start now fuel : ℕ)
    → start ≤ now
    → now - start + 1 < fuel
    → (bs : List ℕ) × (run_out fuel (from_batch start now) ≡ some bs)
      × (bs ≡ up_from start (suc (now - start)))
      × (length bs ≡ batch_count (from_batch start now) + 1)
unfolding batch_count
run_out_lem start now fuel h f =
    let e : start + (now - start) ≡ now = omega arith in
    (
      up_from start (suc (now - start)),
      rw e at (run_out-up_from start (now - start) fuel f),
      refl,
      length-up_from start (suc (now - start)) ∙ omega arith,
    )
