-- ===== src/SolutionSubmission.antt =====
-- services-core/src/solution_submission.rs: verifying and submitting a solution. The contract, the
-- clocks and the crate transaction_retry are parameters. Times are in nanoseconds; gas prices are
-- values without an operation.
pub mod Reported
pub mod Driven
pub mod Tests
use Prim.Native.String.{String}
use dex_services.Prelude.{
  ℕ, ◌+◌, ◌-◌, ◌*◌, Bool, true, false, not, Option, none, some, List, [], ◌∷◌, ◌++◌, any, equals,
  ◌==◌, if◌then◌else◌,
}
use dex_services.Models.BatchId.{solve_end_time}
use dex_services.Models.Solution.{Solution}
use dex_services.Driver.Timing.{second}
use dex_services.Driver.Stablex.{Answer, Services}

-- `ethcontract::errors::ExecutionError`, as far as it is read. A failed transaction has a receipt
-- with the number of its block; an RPC error has a code, which may be negative.
pub data ExecutionError : Type 0 where
  revert : Option String → ExecutionError
  failure : Option ℕ → ExecutionError
  rpc : (is_negative : Bool) → (code : ℕ) → ExecutionError
  other : ExecutionError

-- `anyhow::Error`: a method error of the contract, the errors that this code makes, or another.
pub data Error : Type 0 where
  method_error : ExecutionError → Error
  failed_to_cancel : ExecutionError → Error
  not_confirmed_in_time never_sent unknown : Error

pub data Result {ℓ κ} (A : Type ℓ) (E : Type κ) : Type (ℓ ⊔ κ) where
  ok : A → Result A E
  err : E → Result A E

abbrev pub CustomBenignErrors : Type 0
CustomBenignErrors = List String

abbrev pub default_benign_errors : List String
default_benign_errors =
    "New objective doesn't sufficiently improve current solution"
    ∷ "Claimed objective doesn't sufficiently improve current solution"
    ∷ "SafeMath: subtraction overflow" ∷ []

abbrev pub all_benign_errors : CustomBenignErrors → List String
all_benign_errors custom = custom ++ default_benign_errors

abbrev pub is_benign : CustomBenignErrors → String → Bool
is_benign custom reason = any (λ benign. equals reason benign) (all_benign_errors custom)

pub data SolutionSubmissionError : Type 0 where
  benign : String → SolutionSubmissionError
  unexpected : Error → SolutionSubmissionError

-- `SolutionSubmissionError::new`
abbrev pub classify : CustomBenignErrors → Error → SolutionSubmissionError
classify custom (Error.method_error (ExecutionError.revert (some reason))) =
    if is_benign custom reason
    then SolutionSubmissionError.benign reason
    else SolutionSubmissionError.unexpected
        (Error.method_error (ExecutionError.revert (some reason)))
classify custom e = SolutionSubmissionError.unexpected e

-- The contract. The functions are the calls with their last arguments: the block to read at, or
-- gas price and nonce.
pub record Contract : Type 0 where
  pub get_transaction_count : Result ℕ Error
  pub get_solution_objective_value : ℕ → Solution → Option ℕ → Result ℕ Error
  pub submit_solution : ℕ → Solution → ℕ → (gas_price nonce : ℕ) → Result (Unit {0}) ExecutionError
  pub send_noop_transaction : (gas_price nonce : ℕ) → Result (Unit {0}) ExecutionError

abbrev pub map_err :
    {A : Type 0} → CustomBenignErrors → Result A Error → Result A SolutionSubmissionError
map_err custom (Result.ok a) = Result.ok a
map_err custom (Result.err e) = Result.err (classify custom e)

abbrev pub get_solution_objective_value :
    Contract → CustomBenignErrors → ℕ → Solution → Result ℕ SolutionSubmissionError
get_solution_objective_value contract custom batch_index s =
    map_err custom (contract.get_solution_objective_value batch_index s none)

abbrev pub is_transaction_error : ExecutionError → Bool
is_transaction_error (ExecutionError.rpc is_negative code) =
    if is_negative then code == 32010 else false
is_transaction_error (ExecutionError.revert reason) = false
is_transaction_error (ExecutionError.failure block) = false
is_transaction_error ExecutionError.other = false

-- `TransactionResult::was_mined`, of both results.
abbrev pub was_mined : Result (Unit {0}) ExecutionError → Bool
was_mined (Result.ok _) = true
was_mined (Result.err e) = not (is_transaction_error e)

-- `transaction_retry::RetryResult`
pub data RetryResult : Type 0 where
  submitted cancelled : Result (Unit {0}) ExecutionError → RetryResult

-- `transaction_retry::retry`, which gets both senders, what was mined, how long until the
-- cancellation, and the gas prices by the time to confirm until and their cap.
abbrev pub Retry : Type 0
Retry =
    (send cancel : ℕ → Result (Unit {0}) ExecutionError)
    → (Result (Unit {0}) ExecutionError → Bool)
    → (cancel_duration target_confirm_time gas_price_cap : ℕ) → Option RetryResult

-- The clocks: `SystemTime::now` and `Instant::now` at the start, and `Instant::now` once the
-- future of the cancellation runs.
pub record Clocks : Type 0 where
  pub system_time : ℕ
  pub instant : ℕ
  pub later : ℕ

-- A duration that is not after its start is 0, as on ℕ.
abbrev pub target_confirm_time : Clocks → ℕ → ℕ
target_confirm_time clocks batch_index =
    clocks.instant + (solve_end_time batch_index * second - clocks.system_time)

abbrev pub cancel_duration : Clocks → ℕ → ℕ
cancel_duration clocks batch_index =
    target_confirm_time clocks batch_index + 30 * second - clocks.later

module _ (contract : Contract) (custom : CustomBenignErrors) where
  -- The answer of the contract at the block of a failed transaction.
  abbrev pub from_replay : ExecutionError → Result ℕ Error → SolutionSubmissionError
  from_replay e (Result.err replayed) = classify custom replayed
  from_replay e (Result.ok value) = SolutionSubmissionError.unexpected (Error.method_error e)

  abbrev pub convert_submit_error : ℕ → Solution → ExecutionError → SolutionSubmissionError
  convert_submit_error batch_index s (ExecutionError.failure (some block_number)) =
      from_replay (ExecutionError.failure (some block_number))
        (contract.get_solution_objective_value batch_index s (some block_number))
  convert_submit_error batch_index s (ExecutionError.failure none) =
      SolutionSubmissionError.unexpected (Error.method_error (ExecutionError.failure none))
  convert_submit_error batch_index s (ExecutionError.revert reason) =
      SolutionSubmissionError.unexpected (Error.method_error (ExecutionError.revert reason))
  convert_submit_error batch_index s (ExecutionError.rpc is_negative code) =
      SolutionSubmissionError.unexpected (Error.method_error (ExecutionError.rpc is_negative code))
  convert_submit_error batch_index s ExecutionError.other =
      SolutionSubmissionError.unexpected (Error.method_error ExecutionError.other)

  abbrev pub convert_submit_result :
      ℕ → Solution → Result (Unit {0}) ExecutionError → Result (Unit {0}) SolutionSubmissionError
  convert_submit_result batch_index s (Result.ok _) = Result.ok tt
  convert_submit_result batch_index s (Result.err e) =
      Result.err (convert_submit_error batch_index s e)

  abbrev pub cancel_error : Result (Unit {0}) ExecutionError → Error
  cancel_error (Result.ok _) = Error.not_confirmed_in_time
  cancel_error (Result.err e) = Error.failed_to_cancel e

  abbrev pub convert_cancel_result :
      Result (Unit {0}) ExecutionError → Result (Unit {0}) SolutionSubmissionError
  convert_cancel_result r = Result.err (SolutionSubmissionError.unexpected (cancel_error r))

  abbrev pub convert : ℕ → Solution → Option RetryResult → Result (Unit {0}) SolutionSubmissionError
  convert batch_index s none = Result.err (SolutionSubmissionError.unexpected Error.never_sent)
  convert batch_index s (some (RetryResult.submitted r)) = convert_submit_result batch_index s r
  convert batch_index s (some (RetryResult.cancelled r)) = convert_cancel_result r

  module _ (retry : Retry) (clocks : Clocks) where
    -- What the crate ends with for the senders with a nonce.
    abbrev pub retried : ℕ → Solution → ℕ → ℕ → ℕ → Option RetryResult
    retried batch_index s claimed_objective_value gas_price_cap nonce =
        retry
          (λ gas_price.
            contract.submit_solution batch_index s claimed_objective_value gas_price nonce)
          (λ gas_price. contract.send_noop_transaction gas_price nonce) was_mined
          (cancel_duration clocks batch_index) (target_confirm_time clocks batch_index)
          gas_price_cap

    abbrev pub with_nonce :
        ℕ → Solution → ℕ → ℕ → Result ℕ Error → Result (Unit {0}) SolutionSubmissionError
    with_nonce batch_index s value cap (Result.err e) =
        Result.err (SolutionSubmissionError.unexpected e)
    with_nonce batch_index s value cap (Result.ok nonce) =
        convert batch_index s (retried batch_index s value cap nonce)

    unfoldable pub submit_solution :
        ℕ → Solution → ℕ → ℕ → Result (Unit {0}) SolutionSubmissionError
    submit_solution batch_index s claimed_objective_value gas_price_cap =
        with_nonce batch_index s claimed_objective_value gas_price_cap
          contract.get_transaction_count

-- The exchange that the driver sees through the submitter.
abbrev pub to_answer : {A : Type 0} → Result A SolutionSubmissionError → Answer A
to_answer (Result.ok a) = Answer.accepted a
to_answer (Result.err (SolutionSubmissionError.benign reason)) = Answer.benign
to_answer (Result.err (SolutionSubmissionError.unexpected e)) = Answer.unexpected

abbrev pub with_submitter : Services → Contract → CustomBenignErrors → Retry → Clocks → Services
with_submitter services contract custom retry clocks = record services {
  get_solution_objective_value =
      λ batch s. to_answer (get_solution_objective_value contract custom batch s);
  submit_solution = λ t. to_answer (
      submit_solution contract custom retry clocks t.batch t.solution t.objective_value
        t.gas_price_cap);
}
