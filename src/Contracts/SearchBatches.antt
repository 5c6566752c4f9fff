-- ===== src/Contracts/SearchBatches.antt =====
-- services-core/src/contracts/stablex_contract/search_batches.rs: the last block of a batch. The
-- node is a parameter, the batch id of each block number; its requests succeed.
use dex_services.Prelude.{
  ℕ, zero, suc, ◌+◌, ◌-◌, ◌*◌, ◌/◌, ◌%◌, ◌^◌, ◌≤◌, ◌<◌, ◌≡◌, refl, false, Option, none, some, ltb,
  leb, if◌then◌else◌, arith, Bool-cases, inl, inr,
}
use dex_services.Models.BatchId.{batch_duration}

-- `get_block_batch_id`, with the cast to `u32`.
abbrev get_block_batch_id : ℕ → ℕ
get_block_batch_id timestamp = (timestamp / batch_duration) % 2 ^ 32

record Bounds : Type 0 where
  pub lower : ℕ
  pub upper : ℕ

abbrev diff : Bounds → ℕ
diff b = b.upper - b.lower

abbrev mid : Bounds → ℕ
mid b = (b.upper + b.lower) / 2

module _ (batch_id_from_block : ℕ → ℕ) (batch_id : ℕ) where
  -- The loop that doubles its step until a block of the batch or before is below, on fuel.
  find_lower : ℕ → ℕ → ℕ → Bounds → Option Bounds
  find_lower zero step lower_batch_id bounds = none
  find_lower (suc fuel) step lower_batch_id bounds =
      let again =
        find_lower fuel (step * 2) (batch_id_from_block (bounds.lower - step))
          (record { lower = bounds.lower - step; upper = bounds.lower }) in
      if ltb batch_id lower_batch_id
      then (if leb bounds.lower step
          then some (record { lower = 0; upper = bounds.lower })
          else again)
      else some bounds

  -- The binary search, on fuel.
  narrow : ℕ → Bounds → Option ℕ
  narrow zero bounds = none
  narrow (suc fuel) bounds =
      let above = narrow fuel (record { lower = mid bounds; upper = bounds.upper }) in
      let below = narrow fuel (record { lower = bounds.lower; upper = mid bounds }) in
      if ltb 1 (diff bounds)
      then (if leb (batch_id_from_block (mid bounds)) batch_id then above else below)
      else some bounds.lower

  abbrev narrow_found : ℕ → Option Bounds → Option ℕ
  narrow_found fuel none = none
  narrow_found fuel (some bounds) = narrow fuel bounds

  pub search_last_block_for_batch : ℕ → ℕ → ℕ → Option ℕ
  search_last_block_for_batch fuel current_batch_id current_block_number = narrow_found fuel (
      find_lower fuel 1 current_batch_id
        (record { lower = current_block_number; upper = current_block_number }))

  -- The bounds enclose the end of the batch.
  abbrev Encloses : Bounds → Type 0
  Encloses b =
      (b.lower < b.upper)
      × (batch_id_from_block b.lower ≤ batch_id)
      × (batch_id < batch_id_from_block b.upper)

  -- The block is of the batch or before, and the next one is behind it.
  abbrev pub IsLast : ℕ → Type 0
  IsLast r = (batch_id_from_block r ≤ batch_id) × (batch_id < batch_id_from_block (r + 1))

  narrow-IsLast :
      (fuel : ℕ) (bounds : Bounds)
      → diff bounds ≤ fuel
      → Encloses bounds
      → (r : ℕ) × (narrow (suc fuel) bounds ≡ some r) × (r < bounds.upper) × IsLast r
  unfolding narrow
  narrow-IsLast zero bounds h e = ground arith
  narrow-IsLast (suc fuel) bounds h e = elim (Bool-cases (ltb 1 (diff bounds))) [
    | inl more ↦ elim (Bool-cases (leb (batch_id_from_block (mid bounds)) batch_id)) [
      | inl above ↦
          let (r, found, less, last) =
            narrow-IsLast fuel (record { lower = mid bounds; upper = bounds.upper }) (ground arith)
              (ground arith, ground arith, e.2) in
          (r, rw (more, above) found, less, last)
      | inr below ↦
          let (r, found, less, last) =
            narrow-IsLast fuel (record { lower = bounds.lower; upper = mid bounds }) (ground arith)
              (ground arith, e.1, ground arith) in
          (r, rw (more, below) found, ground arith, last)
    ]
    | inr done ↦
        let next : bounds.upper ≡ bounds.lower + 1 = ground arith in
        (bounds.lower, rw done refl, e.0, (e.1, rw next at e.2))
  ]

  lt_of_ids :
      (l u : ℕ)
      → l ≤ u
      → batch_id_from_block l ≤ batch_id
      → batch_id < batch_id_from_block u
      → l < u
  lt_of_ids l u h p q = elim (Bool-cases (ltb l u)) [
    | inl less ↦ ground arith
    | inr other ↦ let same : l ≡ u = ground arith in let p' = rw same at p in omega arith
  ]

  find_lower-Encloses :
      (fuel step : ℕ) (bounds : Bounds)
      → bounds.lower < fuel
      → 0 < step
      → batch_id_from_block 0 ≤ batch_id
      → bounds.lower ≤ bounds.upper
      → batch_id < batch_id_from_block bounds.upper
      → (b : Bounds) × (find_lower fuel step (batch_id_from_block bounds.lower) bounds ≡ some b)
        × (b.upper ≤ bounds.upper)
        × Encloses b
  unfolding find_lower
  find_lower-Encloses zero step bounds f st z l q = ground arith
  find_lower-Encloses (suc fuel) step bounds f st z l q =
      elim (Bool-cases (ltb batch_id (batch_id_from_block bounds.lower))) [
        | inl behind ↦
            let late : batch_id < batch_id_from_block bounds.lower = ground arith in
            elim (Bool-cases (leb bounds.lower step)) [
              | inl floor ↦ (
                record { lower = 0; upper = bounds.lower },
                rw (behind, floor) refl,
                l,
                (lt_of_ids 0 bounds.lower (omega arith) z late, z, late),
              )
              | inr above ↦
                  let (b, found, below, good) =
                    find_lower-Encloses fuel (step * 2)
                      (record { lower = bounds.lower - step; upper = bounds.lower }) (ground arith)
                      (omega arith) z (omega arith) late in
                  (b, rw (behind, above) found, omega arith, good)
            ]
        | inr done ↦ (
          bounds,
          rw done refl,
          omega arith,
          (lt_of_ids bounds.lower bounds.upper l (ground arith) q, ground arith, q),
        )
      ]

  -- For a batch that is not before the first block's, and with more fuel than blocks, the search
  -- ends; for a batch that has ended it ends with a block of the batch or before it whose next
  -- block is behind the batch, and otherwise with the current block.
  pub search_last_block_for_batch_lem :
      (fuel current : ℕ)
      → current + 1 < fuel
      → batch_id_from_block 0 ≤ batch_id
      → (r : ℕ) × (search_last_block_for_batch fuel (batch_id_from_block current) current ≡ some r)
        × (if ltb batch_id (batch_id_from_block current)
            then (r < current) × IsLast r
            else r ≡ current)
  unfolding search_last_block_for_batch find_lower narrow
  search_last_block_for_batch_lem zero current f z = ground arith
  search_last_block_for_batch_lem (suc fuel) current f z =
      elim (Bool-cases (ltb batch_id (batch_id_from_block current))) [
        | inl behind ↦
            let (b, found, below, good) =
              find_lower-Encloses (suc fuel) 1 (record { lower = current; upper = current })
                (omega arith) (omega arith) z (omega arith) (ground arith) in
            let (r, narrowed, less, last) = narrow-IsLast fuel b (omega arith) good in
            (r, rw found narrowed, rw behind (omega arith, last))
        | inr current_batch ↦
            let closed : ltb 1 (current - current) ≡ false = ground arith in
            (current, rw (current_batch, closed) refl, rw current_batch refl)
      ]
