-- ===== src/SolutionSubmission/Tests.antt =====
-- services-core/src/solution_submission.rs: the theorems at a contract where another solution has
-- come first.
use dex_services.Prelude.{ℕ, ◌*◌, ◌≡◌, refl, true, Option, none, some, [], ◌∷◌}
use dex_services.Models.Solution.{is_non_trivial}
use dex_services.Driver.Stablex.{submit}
use dex_services.Driver.Stablex.Tests.{services, found, sent}
use dex_services.SolutionSubmission.{
  Error, ExecutionError, Result, SolutionSubmissionError, Contract, RetryResult, Retry, Clocks,
  submit_solution,
}
use dex_services.SolutionSubmission.Reported.{SendsOnly, IsReported, submit_solution-IsReported}
use dex_services.SolutionSubmission.Driven.{IsSettled, driven, submit-IsSettled}

abbrev reason : Error
reason = Error.method_error (ExecutionError.revert (some "SafeMath: subtraction overflow"))

abbrev at_block : Option ℕ → Result ℕ Error
at_block none = Result.ok 42
at_block (some block) = Result.err reason

abbrev contract : Contract
contract = record {
  get_transaction_count = Result.ok 5;
  get_solution_objective_value = λ batch s block. at_block block;
  submit_solution = λ batch s value gas_price nonce. Result.err (ExecutionError.failure (some 9));
  send_noop_transaction = λ gas_price nonce. Result.ok tt;
}

-- Sends the solution once, at the highest price.
abbrev once : Retry
once send cancel mined wait target cap = some (RetryResult.submitted (send cap))

once-SendsOnly : SendsOnly once
once-SendsOnly send cancel mined wait target cap (RetryResult.submitted r) h = (cap, cc)
once-SendsOnly send cancel mined wait target cap (RetryResult.cancelled r) h = cc

abbrev clocks : Clocks
clocks = record { system_time = 2300 * 1000000000; instant = 7000; later = 8000 }

outcome :
    submit_solution contract [] once clocks 7 found 42 100
    ≡ Result.err (SolutionSubmissionError.benign "SafeMath: subtraction overflow")
unfolding submit_solution
outcome = refl

submit_solution-IsReported_example :
    IsReported contract [] once clocks 7 found 42 100
      (submit_solution contract [] once clocks 7 found 42 100)
submit_solution-IsReported_example =
    submit_solution-IsReported contract [] once clocks 7 found 42 100 once-SendsOnly

sent_through : (driven services contract [] once clocks 7 found).sent ≡ sent ∷ []
unfolding submit is_non_trivial
sent_through = refl

driven_well : (driven services contract [] once clocks 7 found).succeeded ≡ true
unfolding submit is_non_trivial submit_solution
driven_well = refl

submit-IsSettled_example :
    (sent.batch ≡ 7)
    × (sent.solution ≡ found)
    × (contract.get_solution_objective_value 7 found none ≡ Result.ok sent.objective_value)
    × IsSettled services contract [] once clocks sent
submit-IsSettled_example =
    submit-IsSettled services contract [] once clocks once-SendsOnly 7 found sent sent_through
      driven_well
