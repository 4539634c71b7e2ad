-- ===== src/Settlement/Depth.antt =====
-- `handleSubmission` and `reconcile` call each other, and stop.
use kailo_be.Prelude.{
  ℕ, zero, suc, ◌≡◌, refl, sym, ap, ◌∙◌, String, Bool, true, false, ◌≤◌, arith, if◌then◌else◌,
}
use kailo_be.Prelude.Errors.{Result, ok, err}
use kailo_be.Store.{commit}
use kailo_be.Settlement.{retry_later}
use kailo_be.Store.Calls.{Call}
use kailo_be.Settlement.Worker.{
  SubmissionResult, submission_unknown, submission_confirmed, submission_pending,
  submission_permanent, submission_retryable, other_result, Submission, Network, SettlementConfig,
  waits, retry_at, reconcile_result, handle_result, handle_submission, reconcile, depth,
}

module _ (network : Network) (config : SettlementConfig) where
  -- What the network answers for good is handled without another question.
  definite :
      (again other : Call) (r : SubmissionResult) (intent_id hash : String) (s : Submission)
      → waits network config r ≡ false
      → handle_result network config again r intent_id hash s
        ≡ handle_result network config other r intent_id hash s
  definite again other submission_confirmed intent_id hash s h = refl
  definite again other submission_permanent intent_id hash s h = refl
  definite again other other_result intent_id hash s h = refl
  definite again other submission_unknown intent_id hash s h = cc
  definite again other submission_pending intent_id hash s h = cc
  definite again other submission_retryable intent_id hash s h = cc

  reconciled_alike :
      (fuel : ℕ) (intent_id hash : String) (r : Result Submission)
      → reconcile_result network config
          (handle_submission network config (suc fuel) intent_id hash)
          intent_id
          r
        ≡ reconcile_result network config
            (handle_submission network config 1 intent_id hash)
            intent_id
            r
  unfolding handle_submission
  reconciled_alike fuel intent_id hash (err e) = refl
  reconciled_alike fuel intent_id hash (ok s) = chosen (waits network config s.result) refl
    where
      chosen :
          (b : Bool)
          → waits network config s.result ≡ b
          → (if b
              then commit (retry_later intent_id (retry_at network config) s.safe_error)
              else handle_submission network config (suc fuel) intent_id hash s)
            ≡ (if b
                then commit (retry_later intent_id (retry_at network config) s.safe_error)
                else handle_submission network config 1 intent_id hash s)
      chosen true e = refl
      chosen false e = definite _ _ s.result intent_id hash s e

  -- Two calls of `handleSubmission` are enough for any answers of the network: with more fuel
  -- neither it nor `reconcile` does anything else.
  pub depth_enough :
      (fuel : ℕ) (intent_id hash : String) (s : Submission)
      → depth ≤ fuel
      → (handle_submission network config fuel intent_id hash s
          ≡ handle_submission network config depth intent_id hash s)
        × (reconcile network config fuel intent_id hash
            ≡ reconcile network config depth intent_id hash)
  unfolding handle_submission reconcile
  depth_enough zero intent_id hash s h = absurd (omega arith)
  depth_enough (suc zero) intent_id hash s h = absurd (omega arith)
  depth_enough (suc (suc n)) intent_id hash s h = (
    ap (λ (again : Call). handle_result network config again s.result intent_id hash s)
        (reconciled_alike n intent_id hash (network.find_by_hash hash)),
    reconciled_alike (suc n) intent_id hash (network.find_by_hash hash)
        ∙ sym (reconciled_alike 1 intent_id hash (network.find_by_hash hash)),
  )
