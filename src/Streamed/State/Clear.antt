-- ===== src/Streamed/State/Clear.antt =====
-- services-core/src/orderbook/streamed/state.rs: what `clear` leaves behind.
use dex_services.Prelude.{ℕ, ◌<◌, ◌≡◌, [], ◌∷◌, arith, leb_refl, ==-refl}
use dex_services.Outcome.{err, panic, event_in_past}
use dex_services.Streamed.Event.{SolutionSubmission, Event}
use dex_services.Streamed.State.{
  State, clear, token_listing, revert_last_solution, apply_solution_submission, handle, apply_event,
  apply_events,
}

-- A cleared state still refuses the events of the batches before its last one, so the events
-- from which it was built cannot be applied to it again.
pub apply_event-clear_past :
    (s : State) (e : Event) (batch : ℕ)
    → batch < s.last_batch_id
    → apply_event (clear s) e batch ≡ err event_in_past
unfolding apply_event clear
apply_event-clear_past s e batch h = ground arith

-- A cleared state still remembers its last solution but not the balance that the fee of that
-- solution was booked to: where that solution is of the last batch, listing the fee token and
-- submitting a solution in this batch panics.
pub apply_events-clear_panics :
    (s : State) (token : ℕ) (e : SolutionSubmission)
    → s.last_solution.batch_id ≡ s.last_batch_id
    → apply_events (clear s) (
        (Event.token_listing (record { token = token; id = 0 }), s.last_batch_id)
        ∷ (Event.solution_submission e, s.last_batch_id)
        ∷ [])
      ≡ panic
unfolding apply_events apply_event handle token_listing apply_solution_submission
    revert_last_solution clear
apply_events-clear_panics s token e h = rw (leb_refl, h, ==-refl, leb_refl)
