-- ===== src/SolutionSubmission/Driven.antt =====
-- services-core/src/solution_submission.rs under services-core/src/driver/stablex_driver.rs: what
-- the driver's success says of the contract.
use dex_services.Prelude.{ℕ, ◌≡◌, ◌≢◌, sym, ◌∙◌, true, none, List, [], ◌∷◌, ◌⊎◌, inl, inr}
use mathlib.Core.Path.{subst}
use Prim.Native.String.{String}
use dex_services.Models.Solution.{Solution}
use dex_services.Driver.Stablex.{Answer, Transaction, Services, Submitted, is_expected, submit}
use dex_services.Driver.Stablex.Submission.{submit-IsCareful}
use dex_services.SolutionSubmission.{
  Error, Result, CustomBenignErrors, SolutionSubmissionError, Contract, Retry, Clocks,
  submit_solution, to_answer, with_submitter, map_err, classify,
}
use dex_services.SolutionSubmission.Reported.{SendsOnly, IsReported, submit_solution-IsReported}

nothing_sent : {t : Transaction} → ◌≢◌ {A = List Transaction} [] (t ∷ [])
nothing_sent h = cc

one_sent : {t u : Transaction} → ◌≡◌ {A = List Transaction} (t ∷ []) (u ∷ []) → t ≡ u
one_sent h = cc

module _ (services : Services) (contract : Contract) (custom : CustomBenignErrors) (retry : Retry)
    (clocks : Clocks) where
  abbrev Reported : Transaction → Result (Unit {0}) SolutionSubmissionError → Type 0
  Reported t =
      IsReported contract custom retry clocks t.batch t.solution t.objective_value t.gas_price_cap

  -- A transaction like this one was confirmed, or it failed and was refused for a benign reason.
  abbrev pub IsSettled : Transaction → Type 0
  IsSettled t =
      Reported t (Result.ok tt)
      ⊎ ((reason : String) × Reported t (Result.err (SolutionSubmissionError.benign reason)))

  settled :
      (t : Transaction) (r : Result (Unit {0}) SolutionSubmissionError)
      → Reported t r
      → is_expected (to_answer r) ≡ true
      → IsSettled t
  settled t (Result.ok _) h e = inl h
  settled t (Result.err (SolutionSubmissionError.benign reason)) h e = inr (reason, h)
  settled t (Result.err (SolutionSubmissionError.unexpected x)) h e = cc

  refused :
      (x : SolutionSubmissionError) (value : ℕ)
      → to_answer {A = ℕ} (Result.err x) ≢ Answer.accepted value
  refused (SolutionSubmissionError.benign reason) value h = cc
  refused (SolutionSubmissionError.unexpected e) value h = cc

  accepted_value :
      (r : Result ℕ Error) (value : ℕ)
      → to_answer (map_err custom r) ≡ Answer.accepted value
      → r ≡ Result.ok value
  accepted_value (Result.ok v) value h = cc
  accepted_value (Result.err e) value h = absurd (refused (classify custom e) value h)

  -- The driver's submission through this code.
  abbrev pub driven : ℕ → Solution → Submitted
  driven = submit (with_submitter services contract custom retry clocks)

  -- Where the driver, which submits through this code, reports success for a solution for which it
  -- has sent a transaction, and every result of the crate transaction_retry is that of a
  -- transaction it was given: the transaction is for that solution and batch, with the objective
  -- value that the contract computes for it, and a call of the contract with these was confirmed,
  -- or one failed in a block in which the contract refuses the solution for a benign reason.
  pub submit-IsSettled :
      SendsOnly retry
      → (batch : ℕ) (s : Solution) (t : Transaction) → (driven batch s).sent ≡ t ∷ []
      → (driven batch s).succeeded ≡ true
      → (t.batch ≡ batch)
        × (t.solution ≡ s)
        × (contract.get_solution_objective_value batch s none ≡ Result.ok t.objective_value)
        × IsSettled t
  submit-IsSettled sends_only batch s t sent good =
      elim (submit-IsCareful (with_submitter services contract custom retry clocks) batch s) [
        | inl nothing ↦ absurd (nothing_sent (sym nothing ∙ sent))
        | inr (t', sent', justified, outcome) ↦
            let same = one_sent (sym sent' ∙ sent) in
            subst
              (λ x.
                (x.batch ≡ batch)
                × (x.solution ≡ s)
                × (contract.get_solution_objective_value batch s none ≡ Result.ok x.objective_value)
                × IsSettled x)
              same
              (
                justified.of_batch,
                justified.of_solution,
                accepted_value (contract.get_solution_objective_value batch s none)
                    t'.objective_value justified.verified,
                settled t'
                    (submit_solution contract custom retry clocks t'.batch t'.solution
                      t'.objective_value t'.gas_price_cap)
                    (submit_solution-IsReported contract custom retry clocks t'.batch t'.solution
                      t'.objective_value t'.gas_price_cap sends_only)
                    (sym outcome ∙ good),
              )
      ]
