-- ===== src/History/Settlement.antt =====
-- services-core/src/history.rs: the final solution of a batch, read off the events of the batch in
-- which it was submitted.
use dex_services.Prelude.{
  ℕ, ◌≡◌, refl, ◌∙◌, ap, Bool, true, false, Option, none, some, List, [], ◌∷◌, ◌++◌, filter_map,
  Bool-cases, if◌then◌else◌, sym, inl, inr,
}
use mathlib.Core.List.{append-nil, append_assoc}
use dex_services.Outcome.{Outcome, ok, ◌>>=◌}
use dex_services.Models.BatchId.{next}
use dex_services.Streamed.Event.{Event, Trade, SolutionSubmission}
use dex_services.History.Registry.{EventRegistry, events_for_batch}

pub record Settlement : Type 0 where
  pub trades : List Trade
  pub solution : SolutionSubmission

-- The two variables of the loop.
record Pending : Type 0 where
  pub trades : List Trade
  pub solution : Option SolutionSubmission

-- The `match` in the loop's body.
collect_event : Pending → Event → Pending
collect_event p (Event.trade t) = record p { trades = p.trades ++ t ∷ [] }
collect_event p (Event.trade_reversion t) = record { trades = []; solution = none }
collect_event p (Event.solution_submission s) = record p { solution = some s }
collect_event p (Event.deposit e) = p
collect_event p (Event.withdraw_request e) = p
collect_event p (Event.withdraw e) = p
collect_event p (Event.token_listing e) = p
collect_event p (Event.order_placement e) = p
collect_event p (Event.order_cancellation e) = p
collect_event p (Event.order_deletion e) = p

collect_events : Pending → List Event → Pending
unfolding collect_event
collect_events p [] = p
collect_events p (e ∷ es) = collect_events (collect_event p e) es

abbrev settle : Pending → Option Settlement
settle p = elim p.solution [
  | none ↦ none
  | some s ↦ some (record { trades = p.trades; solution = s })
]

-- A solution is submitted in the batch after the one that it solves.
pub settlement_for_batch : EventRegistry → ℕ → Outcome (Option Settlement)
settlement_for_batch m batch = next batch >>= λ following. ok (
    settle
      (collect_events (record { trades = []; solution = none }) (events_for_batch m following)))

-- `ExchangeHistory::first_batch`
abbrev first_batch : EventRegistry → Option ℕ
first_batch [] = none
first_batch (e ∷ m) = some e.1.batch_id

-- The events behind the last trade reversion.
abbrev is_reverted : List Event → Bool
is_reverted [] = false
is_reverted (Event.trade_reversion t ∷ es) = true
is_reverted (e ∷ es) = is_reverted es

abbrev pub final_events : List Event → List Event
final_events [] = []
final_events (Event.trade_reversion t ∷ es) = final_events es
final_events (e ∷ es) = if is_reverted es then final_events es else (e ∷ es)

abbrev as_trade : Event → Option Trade
as_trade (Event.trade t) = some t
as_trade _ = none

abbrev last_submission : List Event → Option SolutionSubmission → Option SolutionSubmission
last_submission [] s = s
last_submission (Event.solution_submission t ∷ es) s = last_submission es (some t)
last_submission (e ∷ es) s = last_submission es s

-- The trades of a list of events, and the last submission in it.
abbrev plain : Pending → List Event → Pending
plain p es = record {
  trades = p.trades ++ filter_map as_trade es;
  solution = last_submission es p.solution;
}

abbrev no_settlement : Pending
no_settlement = record { trades = []; solution = none }

final_events_plain : (es : List Event) → is_reverted es ≡ false → final_events es ≡ es
final_events_plain [] h = refl
final_events_plain (Event.trade_reversion t ∷ es) h = cc
final_events_plain (e ∷ es) h = simp h

final_events_reverted :
    (e : Event) (es : List Event) → is_reverted es ≡ true → final_events es ≡ final_events (e ∷ es)
final_events_reverted (Event.trade_reversion t) es h = refl
final_events_reverted e es h = simp h

-- Without a reversion the loop collects the trades in order and the last submission.
collect_events-plain :
    (es : List Event) (p : Pending) → is_reverted es ≡ false → collect_events p es ≡ plain p es
unfolding collect_events
collect_events-plain [] p h = simp append-nil
collect_events-plain (Event.trade t ∷ es) p h =
    collect_events-plain es _ h
    ∙ ap (λ ts. record { trades = ts; solution = last_submission es p.solution })
        (append_assoc p.trades (t ∷ []) (filter_map as_trade es))
collect_events-plain (Event.trade_reversion t ∷ es) p h = cc
collect_events-plain (e ∷ es) p h = collect_events-plain es _ h

-- With one it ends with those behind the last.
collect_events_reverted :
    (es : List Event) (p : Pending)
    → is_reverted es ≡ true
    → collect_events p es ≡ plain no_settlement (final_events es)
unfolding collect_events
collect_events_reverted [] p h = cc
collect_events_reverted (Event.trade_reversion t ∷ es) p h = elim (Bool-cases (is_reverted es)) [
  | inl r ↦ collect_events_reverted es _ r
  | inr r ↦ collect_events-plain es _ r ∙ ap (plain no_settlement) (sym (final_events_plain es r))
]
collect_events_reverted (e ∷ es) p h =
    collect_events_reverted es _ h ∙ ap (plain no_settlement) (final_events_reverted e es h)

abbrev with_trades : List Trade → Option SolutionSubmission → Option Settlement
with_trades ts none = none
with_trades ts (some s) = some (record { trades = ts; solution = s })

-- What a client reads: the settlement given by the events that no reversion follows.
abbrev pub settlement_of : List Event → Option Settlement
settlement_of es = with_trades (filter_map as_trade es) (last_submission es none)

with_trades_lem :
    (ts : List Trade) (s : Option SolutionSubmission)
    → settle (record { trades = ts; solution = s }) ≡ with_trades ts s
with_trades_lem ts none = refl
with_trades_lem ts (some s) = refl

settle-plain : (es : List Event) → settle (plain no_settlement es) ≡ settlement_of es
settle-plain es = with_trades_lem (filter_map as_trade es) (last_submission es none)

settle-collect_events :
    (es : List Event) → settle (collect_events no_settlement es) ≡ settlement_of (final_events es)
settle-collect_events es = elim (Bool-cases (is_reverted es)) [
  | inl r ↦ ap settle (collect_events_reverted es no_settlement r) ∙ settle-plain (final_events es)
  | inr r ↦
      ap settle (
        collect_events-plain es no_settlement r
        ∙ ap (plain no_settlement) (sym (final_events_plain es r)))
      ∙ settle-plain (final_events es)
]

-- The settlement of a batch that has a following one is read off those events of the following batch
-- that no trade reversion follows: it has their trades in order and the last of their solution
-- submissions, and is none without a submission.
pub settlement_for_batch_lem :
    (m : EventRegistry) (batch following : ℕ)
    → next batch ≡ ok following
    → settlement_for_batch m batch
      ≡ ok (settlement_of (final_events (events_for_batch m following)))
unfolding settlement_for_batch
settlement_for_batch_lem m batch following h =
    ap (λ o. o >>= λ b. ok (settle (collect_events no_settlement (events_for_batch m b)))) h
    ∙ ap ok (settle-collect_events (events_for_batch m following))
