-- ===== src/History/Registry/Window.antt =====
-- services-core/src/history/events.rs: the events up to a batch and of a batch, cut from a registry
-- in which later blocks have no earlier batch.
use dex_services.Prelude.{
  ℕ, ◌≤◌, ◌<◌, sym, All-imp, ◌≡◌, refl, ap, Bool, false, List, [], ◌∷◌, ltb, leb, ◌==◌, inl, inr,
  map, filter, All, arith, Bool-cases,
}
use dex_services.Streamed.Event.{Event}
use dex_services.History.Registry.{
  EventRegistry, events, take_while, skip_while, events_until_batch, events_for_batch,
}

-- The batches do not go back along the list.
abbrev IsChronological : List (Event × ℕ) → Type 0
IsChronological [] = Unit
IsChronological (e ∷ es) = All (λ f. e.1 ≤ f.1) es × IsChronological es

filter_none :
    (p : Event × ℕ → Bool) (es : List (Event × ℕ)) → All (λ e. p e ≡ false) es → filter p es ≡ []
filter_none p [] h = refl
filter_none p (e ∷ es) h = rw (h.0) (filter_none p es h.1)

-- In a chronological registry the events until a batch are all those of this batch and before.
pub events_until_batch_lem :
    (m : EventRegistry) (batch : ℕ)
    → IsChronological (events m)
    → events_until_batch m batch ≡ filter (λ e. leb e.1 batch) (events m)
unfolding events_until_batch
events_until_batch_lem m batch h = go (events m) h
  where
    go :
        (es : List (Event × ℕ))
        → IsChronological es
        → take_while (λ e. leb e.1 batch) es ≡ filter (λ e. leb e.1 batch) es
    go [] h = refl
    go (e ∷ es) h = elim (Bool-cases (leb e.1 batch)) [
      | inl early ↦ rw early (ap (λ (t : List (Event × ℕ)). e ∷ t) (go es h.1))
      | inr late ↦ rw late (sym (filter_none _ es (All-imp (λ f p. ground arith) es h.0)))
    ]

module _ (batch : ℕ) where
  take_batch :
      (es : List (Event × ℕ))
      → IsChronological es
      → All (λ f. batch ≤ f.1) es
      → take_while (λ e. e.1 == batch) es ≡ filter (λ e. e.1 == batch) es
  take_batch [] h b = refl
  take_batch (e ∷ es) h b = elim (Bool-cases (e.1 == batch)) [
    | inl now ↦ rw now (ap (λ (t : List (Event × ℕ)). e ∷ t) (take_batch es h.1 b.1))
    | inr late ↦
        let after : batch < e.1 = ground arith in
        rw late (sym (filter_none _ es (All-imp (λ f p. ground arith) es h.0)))
  ]

  skip_to_batch :
      (es : List (Event × ℕ))
      → IsChronological es
      → take_while (λ e. e.1 == batch) (skip_while (λ e. ltb e.1 batch) es)
        ≡ filter (λ e. e.1 == batch) es
  skip_to_batch [] h = refl
  skip_to_batch (e ∷ es) h = elim (Bool-cases (ltb e.1 batch)) [
    | inl early ↦
        let other : (e.1 == batch) ≡ false = ground arith in
        rw (early, other) (skip_to_batch es h.1)
    | inr late ↦
        let from : batch ≤ e.1 = ground arith in
        rw late (take_batch (e ∷ es) h (from, All-imp (λ f p. omega arith) es h.0))
  ]

-- In a chronological registry the events for a batch are exactly those of this batch.
pub events_for_batch_lem :
    (m : EventRegistry) (batch : ℕ)
    → IsChronological (events m)
    → events_for_batch m batch ≡ map (λ e. e.0) (filter (λ e. e.1 == batch) (events m))
unfolding events_for_batch
events_for_batch_lem m batch h =
    ap (map (λ (e : Event × ℕ). e.0)) (skip_to_batch batch (events m) h)
