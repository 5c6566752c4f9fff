-- ===== src/Driver/Background/Safety.antt =====
-- services-core/src/driver/scheduler/system.rs: what is solved and submitted in the background.
use mathlib.Core.List.{Memᴰ}
use dex_services.Prelude.{
  ℕ, zero, suc, ◌+◌, ◌-◌, ◌≤◌, ◌<◌, ◌≡◌, refl, Bool, none, some, List, [], ◌∷◌, leb, leb→le, arith,
  Bool-cases, Option-cases, inl, inr, ◌⊎◌,
}
use dex_services.Models.BatchId.{into_u32}
use dex_services.Models.Solution.{Solution}
use dex_services.Driver.Stablex.{Solved}
use dex_services.Driver.World.{
  Event, World, Ended, Run, asked_index, asked_remaining, slept, notified, solved, submitted, done,
  failed, panicked, out_of_fuel, caught,
}
use dex_services.Driver.Evm.Timely.{HasSolved, submissions, Ensures, Ensures-continue}
use dex_services.Driver.Background.{
  retry_sleep_duration, contract_batch_id_poll_interval, wait_for_batch_id, opening, submit,
  after_solving, until, attempt_within, solve_and_submit,
}

-- Sleeping takes as long as it should, and other calls do not turn the clock back.
pub record Ticks (clock : List Event → ℕ) : Type 0 where
  pub forward : (e : Event) (es : List Event) → clock es ≤ clock (e ∷ es)
  pub slept_for : (d : ℕ) (es : List Event) → clock es + d ≤ clock (slept d ∷ es)

-- The last that the exchange said of its batch is that it is past this one, or was an error.
abbrev pub IsConfirmed : ℕ → List Event → Type 0
IsConfirmed batch [] = ⊥
IsConfirmed batch (asked_index none ∷ es) = Unit
IsConfirmed batch (asked_index (some i) ∷ es) = into_u32 batch < i
IsConfirmed batch (asked_remaining r ∷ es) = ⊥
IsConfirmed batch (slept d ∷ es) = IsConfirmed batch es
IsConfirmed batch (notified ∷ es) = ⊥
IsConfirmed batch (solved b limit s ∷ es) = ⊥
IsConfirmed batch (submitted b s succeeded ∷ es) = ⊥

module _ (w : World) (batch deadline earliest : ℕ) where
  -- The solver is called with the time until the deadline.
  abbrev pub IsInTime : List Event → Type 0
  IsInTime [] = Unit
  IsInTime (asked_index i ∷ es) = IsInTime es
  IsInTime (asked_remaining r ∷ es) = IsInTime es
  IsInTime (slept d ∷ es) = IsInTime es
  IsInTime (notified ∷ es) = IsInTime es
  IsInTime (solved b limit s ∷ es) =
      ((w.instant es ≤ deadline) × (limit ≡ deadline - w.instant es)) × IsInTime es
  IsInTime (submitted b s succeeded ∷ es) = IsInTime es

  -- The last event is the submission of a solution that the driver found for the batch, after the
  -- exchange confirmed it and not before it opens.
  pub record IsSubmission (k : ℕ) (es : List Event) : Type 0 where
    pub solution : Solution
    pub succeeded : Bool
    pub before : List Event
    pub recorded : es ≡ submitted batch solution succeeded ∷ before
    pub first : submissions before ≡ k
    pub found : HasSolved batch solution before
    pub confirmed : IsConfirmed batch before
    pub open_since : opening batch earliest ≤ w.now before

  abbrev pub IsRight : ℕ → List Event → Type 0
  IsRight k es = IsInTime es × ((submissions es ≡ k) ⊎ IsSubmission k es)

  module _ (ticks : Ticks w.now) (k : ℕ) where
    abbrev Before : List Event → Type 0
    Before es = IsInTime es × (submissions es ≡ k)

    Before-IsRight : (es : List Event) → Before es → IsRight k es
    Before-IsRight es h = (h.0, inl h.1)

    abbrev Ready : Solution → List Event → Type 0
    Ready s es = Before es × HasSolved batch s es

    Ready-cons :
        (s : Solution) (e : Event) (es : List Event)
        → IsInTime (e ∷ es) × (submissions (e ∷ es) ≡ k)
        → Ready s es
        → Ready s (e ∷ es)
    Ready-cons s e es b h = (b, (h.1.0, Memᴰ.tail h.1.1))

    -- Waiting ends with the batch confirmed, also by an error.
    abbrev Waited : Solution → Ended (Unit {0}) × List Event → Type 0
    Waited s (done u, es) = Ready s es × IsConfirmed batch es
    Waited s (failed, es) = Ready s es × IsConfirmed batch es
    Waited s (panicked, es) = ⊥
    Waited s (out_of_fuel, es) = Ready s es

    wait-Waited :
        (fuel : ℕ) (s : Solution) (es : List Event)
        → Ready s es
        → Waited s (wait_for_batch_id fuel batch w es)
    unfolding wait_for_batch_id
    wait-Waited zero s es h = h
    wait-Waited (suc fuel) s es h = elim (Option-cases (w.index es)) [
      | inl e ↦ rw e (Ready-cons s (asked_index none) es h.0 h, tt)
      | inr (i, e) ↦
          let kept = Ready-cons s (asked_index (some i)) es h.0 h in
          elim (Bool-cases (leb i (into_u32 batch))) [
            | inl y ↦
                rw (e, y)
                  (wait-Waited fuel s
                    (slept contract_batch_id_poll_interval ∷ asked_index (some i) ∷ es)
                    (Ready-cons s (slept contract_batch_id_poll_interval)
                      (asked_index (some i) ∷ es) h.0 kept))
            | inr d ↦ rw (e, d) (kept, ground arith)
          ]
    ]

    caught-Ensures :
        (s : Solution) (r : Ended (Unit {0}) × List Event)
        → Waited s r
        → Ensures (λ b es. Ready s es × IsConfirmed batch es) (IsRight k) (caught r)
    caught-Ensures s (done u, es) h = h
    caught-Ensures s (failed, es) h = h
    caught-Ensures s (panicked, es) h = elim h [ ]
    caught-Ensures s (out_of_fuel, es) h = Before-IsRight es h.0

    submitted-IsRight :
        (s : Solution) (succeeded : Bool) (es : List Event)
        → Ready s es
        → IsConfirmed batch es
        → opening batch earliest ≤ w.now es
        → IsRight k (submitted batch s succeeded ∷ es)
    submitted-IsRight s succeeded es h c o = (
      h.0.0,
      inr (record {
        solution = s;
        succeeded = succeeded;
        before = es;
        recorded = refl;
        first = h.0.1;
        found = h.1;
        confirmed = c;
        open_since = o;
      }),
    )

    submit-Ensures :
        (s : Solution) (es : List Event)
        → Ready s es × IsConfirmed batch es
        → Ensures (λ u. IsRight k) (IsRight k) (submit batch earliest s w es)
    unfolding submit
    submit-Ensures s es h = elim (Bool-cases (leb (w.now es) (opening batch earliest))) [
      | inl y ↦
          let slept_so = slept (opening batch earliest - w.now es) in
          let enough = ticks.slept_for (opening batch earliest - w.now es) es in
          rw y (
            submitted-IsRight s _ (slept_so ∷ es) (Ready-cons s slept_so es h.0.0 h.0) h.1
              (omega (arith, leb→le (w.now es) (opening batch earliest) y)))
      | inr n ↦ rw n (submitted-IsRight s _ es h.0 h.1 (ground arith))
    ]

    -- What an attempt does, where the next ones do what they should.
    module _ (waits : ℕ) (again : Run (Unit {0}))
        (next : (es : List Event)
          → Before es
          → Ensures (λ u. IsRight k) (IsRight k) (again w es)) where
      after-Ensures :
          (limit : ℕ) (answer : Solved) (es : List Event)
          → Before es
          → (w.instant es ≤ deadline) × (limit ≡ deadline - w.instant es)
          → Ensures
              (λ u. IsRight k)
              (IsRight k)
              (after_solving waits batch earliest again answer w (solved batch limit answer ∷ es))
      after-Ensures limit (Solved.solution s) es h l =
          Ensures-continue (λ b es'. Ready s es' × IsConfirmed batch es') (λ u. IsRight k)
            (IsRight k)
            (caught (wait_for_batch_id waits batch w (solved batch limit (Solved.solution s) ∷ es)))
            (λ confirmed. submit batch earliest s) w (solved batch limit (Solved.solution s) ∷ es)
            (caught-Ensures s _ (
              wait-Waited waits s (solved batch limit (Solved.solution s) ∷ es)
                (((l, h.0), h.1), (limit, Memᴰ.head refl))))
            (λ confirmed es' h'. submit-Ensures s es' h')
      after-Ensures limit Solved.retry es h l =
          next (slept retry_sleep_duration ∷ solved batch limit Solved.retry ∷ es) ((l, h.0), h.1)
      after-Ensures limit Solved.skip es h l = ((l, h.0), inl h.1)

      within-Ensures :
          (es : List Event)
          → Before es
          → Ensures
              (λ u. IsRight k)
              (IsRight k)
              (attempt_within waits batch earliest again (until deadline (w.instant es)) w es)
      within-Ensures es h = elim (Bool-cases (leb (w.instant es) deadline)) [
        | inl y ↦ rw y (
            after-Ensures (deadline - w.instant es) _ es h (leb→le (w.instant es) deadline y, refl))
        | inr n ↦ rw n (Before-IsRight es h)
      ]

    run-Ensures :
        (waits fuel : ℕ) (es : List Event)
        → Before es
        → Ensures
            (λ u. IsRight k)
            (IsRight k)
            (solve_and_submit waits fuel batch deadline earliest w es)
    unfolding solve_and_submit
    run-Ensures waits zero es h = Before-IsRight es h
    run-Ensures waits (suc fuel) es h =
        within-Ensures waits (solve_and_submit waits fuel batch deadline earliest)
          (λ es'. run-Ensures waits fuel es') es h

-- The background task for a batch, where sleeping takes as long as it should: it does not panic; it
-- calls the solver only until the deadline, with the time that is left until then; and it submits
-- nothing, or as its last call one solution, which the driver found for the batch, after the
-- exchange said that its batch is past this one or failed to answer, and not before the earliest
-- time in the batch.
pub solve_and_submit-IsRight :
    (w : World) (batch deadline earliest waits fuel : ℕ) (es : List Event)
    → Ticks w.now
    → IsInTime w batch deadline earliest es
    → Ensures
        (λ u. IsRight w batch deadline earliest (submissions es))
        (IsRight w batch deadline earliest (submissions es))
        (solve_and_submit waits fuel batch deadline earliest w es)
solve_and_submit-IsRight w batch deadline earliest waits fuel es ticks h =
    run-Ensures w batch deadline earliest ticks (submissions es) waits fuel es (h, refl)
