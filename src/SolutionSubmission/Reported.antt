-- ===== src/SolutionSubmission/Reported.antt =====
-- services-core/src/solution_submission.rs: what the result of a submission says.
use Prim.Native.String.{String}
use mathlib.Core.Path.{subst}
use dex_services.Prelude.{
  sym, ◌∙◌, ◌≢◌, ℕ, ◌≡◌, refl, true, false, Bool, Bool-cases, inl, inr, Option, none, some,
}
use dex_services.Models.Solution.{Solution}
use dex_services.SolutionSubmission.{
  ExecutionError, Error, Result, CustomBenignErrors, is_benign, SolutionSubmissionError, classify,
  Contract, RetryResult, Retry, Clocks, from_replay, convert, retried, with_nonce, submit_solution,
}

-- What `retry` ends with comes from one of the senders, at some gas price.
abbrev pub IsSent : (send cancel : ℕ → Result (Unit {0}) ExecutionError) → RetryResult → Type 0
IsSent send cancel (RetryResult.submitted r) = (gas_price : ℕ) × (send gas_price ≡ r)
IsSent send cancel (RetryResult.cancelled r) = (gas_price : ℕ) × (cancel gas_price ≡ r)

abbrev pub SendsOnly : Retry → Type 0
SendsOnly retry =
    (send cancel : ℕ → Result (Unit {0}) ExecutionError)
    (mined : Result (Unit {0}) ExecutionError → Bool) (wait target cap : ℕ) (r : RetryResult)
    → retry send cancel mined wait target cap ≡ some r
    → IsSent send cancel r

ok-injective : {a b : ℕ} → ◌≡◌ {A = Result ℕ Error} (Result.ok a) (Result.ok b) → a ≡ b
ok-injective h = cc

same_block :
    {a b : ℕ}
    → some (RetryResult.submitted (Result.err (ExecutionError.failure (some a))))
      ≡ some (RetryResult.submitted (Result.err (ExecutionError.failure (some b))))
    → a ≡ b
same_block h = cc

same_reason :
    {a b : String}
    → ◌≡◌ {A = Result ℕ Error}
        (Result.err (Error.method_error (ExecutionError.revert (some a))))
        (Result.err (Error.method_error (ExecutionError.revert (some b))))
    → a ≡ b
same_reason h = cc

module _ (contract : Contract) (custom : CustomBenignErrors) (retry : Retry) (clocks : Clocks)
    (batch : ℕ) (s : Solution) (value cap : ℕ) where
  -- A call of the contract for the solution with the nonce of the account ended so.
  pub Called : Result (Unit {0}) ExecutionError → Type 0
  Called r =
      (nonce : ℕ) × (gas_price : ℕ) × (contract.get_transaction_count ≡ Result.ok nonce)
      × (contract.submit_solution batch s value gas_price nonce ≡ r)

  -- At a block the contract refuses the solution for a reason.
  abbrev pub Refuses : ℕ → String → Type 0
  Refuses block reason =
      contract.get_solution_objective_value batch s (some block)
      ≡ Result.err (Error.method_error (ExecutionError.revert (some reason)))

  -- The transaction for the solution that ended first failed in a block.
  abbrev FailedIn : ℕ → ℕ → Type 0
  FailedIn nonce block =
      retried contract custom retry clocks batch s value cap nonce
      ≡ some (RetryResult.submitted (Result.err (ExecutionError.failure (some block))))

  pub IsReported : Result (Unit {0}) SolutionSubmissionError → Type 0
  IsReported (Result.ok _) = Called (Result.ok tt)
  IsReported (Result.err (SolutionSubmissionError.benign reason)) =
      (is_benign custom reason ≡ true)
      × (block : ℕ) × Called (Result.err (ExecutionError.failure (some block)))
      × Refuses block reason
  IsReported (Result.err (SolutionSubmissionError.unexpected e)) =
      (nonce block : ℕ) (reason : String)
      → contract.get_transaction_count ≡ Result.ok nonce
      → FailedIn nonce block
      → Refuses block reason
      → is_benign custom reason ≡ false

  module _ (sends_only : SendsOnly retry) where
    module _ (nonce : ℕ) (count : contract.get_transaction_count ≡ Result.ok nonce) where
      same_end :
          (n block : ℕ) (o : Option RetryResult)
          → contract.get_transaction_count ≡ Result.ok n
          → retried contract custom retry clocks batch s value cap nonce ≡ o
          → FailedIn n block
          → o ≡ some (RetryResult.submitted (Result.err (ExecutionError.failure (some block))))
      same_end n block o count' h failed =
          let same = ok-injective (sym count' ∙ count) in
          sym h ∙ subst (λ m. FailedIn m block) same failed

      -- An end that is no failure in a block is reported as unexpected.
      unexpected :
          (o : Option RetryResult) (e : Error)
          → retried contract custom retry clocks batch s value cap nonce ≡ o
          → ((block : ℕ)
              → o ≢ some (RetryResult.submitted (Result.err (ExecutionError.failure (some block)))))
          → IsReported (Result.err (SolutionSubmissionError.unexpected e))
      unfolding IsReported
      unexpected o e h other n block reason count' failed refuses =
          absurd (other block (same_end n block o count' h failed))

      -- A failure in a block whose replay is not refused for a benign reason.
      replayed_otherwise :
          (block : ℕ) (v : Result ℕ Error) (e : Error)
          → retried contract custom retry clocks batch s value cap nonce
            ≡ some (RetryResult.submitted (Result.err (ExecutionError.failure (some block))))
          → contract.get_solution_objective_value batch s (some block) ≡ v
          → ((reason : String)
              → v ≡ Result.err (Error.method_error (ExecutionError.revert (some reason)))
              → is_benign custom reason ≡ false)
          → IsReported (Result.err (SolutionSubmissionError.unexpected e))
      unfolding IsReported
      replayed_otherwise block v e h replay other n b reason count' failed refuses =
          let same = same_block (same_end n b _ count' h failed) in
          other reason (sym replay ∙ subst (λ x. Refuses x reason) (sym same) refuses)

      reverted :
          (block : ℕ) (reason : String)
          → retried contract custom retry clocks batch s value cap nonce
            ≡ some (RetryResult.submitted (Result.err (ExecutionError.failure (some block))))
          → Refuses block reason
          → Called (Result.err (ExecutionError.failure (some block)))
          → IsReported (
              Result.err
                (classify custom (Error.method_error (ExecutionError.revert (some reason)))))
      unfolding IsReported
      reverted block reason failed h called = elim (Bool-cases (is_benign custom reason)) [
        | inl y ↦ rw y (y, block, called, h)
        | inr n ↦ rw n (
            replayed_otherwise block _ (Error.method_error (ExecutionError.revert (some reason)))
              failed h (λ r e. rw (← same_reason e) n))
      ]

      replayed :
          (block : ℕ) (v : Result ℕ Error)
          → retried contract custom retry clocks batch s value cap nonce
            ≡ some (RetryResult.submitted (Result.err (ExecutionError.failure (some block))))
          → contract.get_solution_objective_value batch s (some block) ≡ v
          → Called (Result.err (ExecutionError.failure (some block)))
          → IsReported
              (Result.err (from_replay contract custom (ExecutionError.failure (some block)) v))
      replayed block (Result.ok v) failed h called =
          replayed_otherwise block (Result.ok v) _ failed h (λ r e. cc)
      replayed block (Result.err (Error.method_error (ExecutionError.revert (some reason)))) failed
            h called =
          reverted block reason failed h called
      replayed block (Result.err (Error.method_error (ExecutionError.revert none))) failed h
            called =
          replayed_otherwise block _ _ failed h (λ r e. cc)
      replayed block (Result.err (Error.method_error (ExecutionError.failure b))) failed h called =
          replayed_otherwise block _ _ failed h (λ r e. cc)
      replayed block (Result.err (Error.method_error (ExecutionError.rpc n c))) failed h called =
          replayed_otherwise block _ _ failed h (λ r e. cc)
      replayed block (Result.err (Error.method_error ExecutionError.other)) failed h called =
          replayed_otherwise block _ _ failed h (λ r e. cc)
      replayed block (Result.err (Error.failed_to_cancel x)) failed h called =
          replayed_otherwise block _ _ failed h (λ r e. cc)
      replayed block (Result.err Error.not_confirmed_in_time) failed h called =
          replayed_otherwise block _ _ failed h (λ r e. cc)
      replayed block (Result.err Error.never_sent) failed h called =
          replayed_otherwise block _ _ failed h (λ r e. cc)
      replayed block (Result.err Error.unknown) failed h called =
          replayed_otherwise block _ _ failed h (λ r e. cc)

      submitted_by :
          (r : Result (Unit {0}) ExecutionError)
          → retried contract custom retry clocks batch s value cap nonce
            ≡ some (RetryResult.submitted r)
          → Called r
      unfolding Called
      submitted_by r h =
          let (gas_price, sent) = sends_only _ _ _ _ _ _ _ h in (nonce, gas_price, count, sent)

      succeeded :
          retried contract custom retry clocks batch s value cap nonce
            ≡ some (RetryResult.submitted (Result.ok tt))
          → IsReported (Result.ok tt)
      unfolding IsReported
      succeeded h = submitted_by (Result.ok tt) h

      converted :
          (o : Option RetryResult)
          → retried contract custom retry clocks batch s value cap nonce ≡ o
          → IsReported (convert contract custom batch s o)
      converted none h = unexpected none _ h (λ b e. cc)
      converted (some (RetryResult.cancelled r)) h = unexpected _ _ h (λ b e. cc)
      converted (some (RetryResult.submitted (Result.err (ExecutionError.revert r)))) h =
          unexpected _ _ h (λ b e. cc)
      converted (some (RetryResult.submitted (Result.err (ExecutionError.rpc n c)))) h =
          unexpected _ _ h (λ b e. cc)
      converted (some (RetryResult.submitted (Result.err ExecutionError.other))) h =
          unexpected _ _ h (λ b e. cc)
      converted (some (RetryResult.submitted (Result.err (ExecutionError.failure none)))) h =
          unexpected _ _ h (λ b e. cc)
      converted (some (RetryResult.submitted (Result.err (ExecutionError.failure (some b))))) h =
          replayed b _ h refl (submitted_by _ h)
      converted (some (RetryResult.submitted (Result.ok t))) h = succeeded h

    uncounted :
        (e : Error)
        → contract.get_transaction_count ≡ Result.err e
        → IsReported (Result.err (SolutionSubmissionError.unexpected e))
    unfolding IsReported
    uncounted e h n block reason count failed refuses = cc

    counted :
        (c : Result ℕ Error)
        → contract.get_transaction_count ≡ c
        → IsReported (with_nonce contract custom retry clocks batch s value cap c)
    counted (Result.ok nonce) h = converted nonce h _ refl
    counted (Result.err e) h = uncounted e h

    -- Where every result of the crate transaction_retry is that of one of the transactions it was
    -- given, for any contract and clocks: a submission succeeds only if a transaction with the
    -- solution, its claimed objective value and the nonce of the account did; it ends in a benign
    -- error only if such a transaction failed in a block in which the contract refuses the
    -- solution for that reason, and the reason is benign; and it does not end in an unexpected
    -- error where the transaction that ended first failed in such a block for a benign reason.
    pub submit_solution-IsReported :
        IsReported (submit_solution contract custom retry clocks batch s value cap)
    unfolding submit_solution
    submit_solution-IsReported = counted contract.get_transaction_count refl
