-- ===== src/Driver/Evm/Rounds.antt =====
-- services-core/src/driver/scheduler/evm.rs: what the rounds of the loop solve and submit.
use dex_services.Prelude.{ℕ, zero, suc, ◌≤◌, Option, some, List, ◌∷◌}
use dex_services.Driver.Timing.{AuctionTimingConfiguration}
use dex_services.Driver.World.{Event, World, Ended, slept, done, failed, panicked, out_of_fuel}
use dex_services.Driver.Evm.{rounds, round, step}
use dex_services.Driver.Evm.Timely.{IsTimely, submissions, Ensures, IsSane}
use dex_services.Driver.Evm.Safety.{step-IsTimely}

round-IsTimely :
    (config : AuctionTimingConfiguration) (w : World)
    (next : Option ℕ → World → List Event → List Event) (previous : Option ℕ)
    (r : Ended ℕ × List Event) (k : ℕ)
    → Ensures
        (λ b es'. IsTimely config es' × (submissions es' ≤ suc k))
        (λ es'. IsTimely config es' × (submissions es' ≤ suc k))
        r
    → ((p : Option ℕ) (es : List Event) → IsTimely config es → IsTimely config (next p w es))
    → IsTimely config (round next previous r w)
round-IsTimely config w next previous (done b, es) k h go = go (some b) (slept _ ∷ es) h.0
round-IsTimely config w next previous (failed, es) k h go = go previous (slept _ ∷ es) h.0
round-IsTimely config w next previous (panicked, es) k h go = elim h [ ]
round-IsTimely config w next previous (out_of_fuel, es) k h go = h.0

-- The same holds of any number of rounds from the start.
pub rounds-IsTimely :
    (config : AuctionTimingConfiguration) (w : World) (fuel n : ℕ) (previous : Option ℕ)
    (es : List Event)
    → IsSane w
    → IsTimely config es
    → IsTimely config (rounds config fuel n previous w es)
unfolding rounds
rounds-IsTimely config w fuel zero previous es sane h = h
rounds-IsTimely config w fuel (suc n) previous es sane h =
    round-IsTimely config w (rounds config fuel n) previous (step config fuel previous w es)
      (submissions es) (step-IsTimely config w fuel previous es sane h)
      (λ p es' h'. rounds-IsTimely config w fuel n p es' sane h')
