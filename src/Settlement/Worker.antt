-- ===== src/Settlement/Worker.antt =====
-- internal/usecase/settlement_usecase.go: one turn of the settlement worker. The Stellar network is
-- a parameter: what its three calls answer during the turn.
use kailo_be.Prelude.{
  ℕ, zero, suc, String, Bool, true, false, ◌||◌, not, none, some, str_eq, if◌then◌else◌,
}
use kailo_be.Prelude.Int.{ℤ}
use kailo_be.Prelude.Errors.{Error, cause, no_job, text, wrapped, Result, ok, err}
use kailo_be.Prelude.Time.{Instant, add}
use kailo_be.Store.{Database, commit}
use kailo_be.Store.Calls.{Call, ignoring, checking, returning}
use kailo_be.Settlement.{
  Job, Transfer, Intent, lease, load_intent, mark_submitted, mark_unknown, reset_submitted,
  retry_later,
}
use kailo_be.Settlement.Outcomes.{confirm, fail_permanent}

-- `SubmissionResult`; any other text is `other_result`.
pub data SubmissionResult : Type 0 where
  submission_unknown : SubmissionResult
  submission_confirmed : SubmissionResult
  submission_pending : SubmissionResult
  submission_permanent : SubmissionResult
  submission_retryable : SubmissionResult
  other_result : SubmissionResult

pub record BuiltTransaction : Type 0 where
  pub hash : String
  pub envelope : String

pub record Submission : Type 0 where
  pub result : SubmissionResult
  pub ledger_at : Instant
  pub safe_error : String

pub record Network : Type 0 where
  pub build : Transfer → Result BuiltTransaction
  pub submit : BuiltTransaction → Result Submission
  pub find_by_hash : String → Result Submission

-- `SettlementConfig`, with the time that its clock shows during the turn, and the repository's
-- limit of attempts.
pub record SettlementConfig : Type 0 where
  pub lease_duration : ℤ
  pub retry_delay : ℤ
  pub now : Instant
  pub max_attempts : ℕ

abbrev pub out_of_fuel : Error
out_of_fuel = text "out of fuel"

-- The number of calls of `handleSubmission` that is enough.
abbrev pub depth : ℕ
depth = 2

module _ (network : Network) (config : SettlementConfig) where
  abbrev pub retry_at : Instant
  retry_at = add config.now config.retry_delay

  abbrev pub waits : SubmissionResult → Bool
  waits submission_unknown = true
  waits submission_pending = true
  waits submission_retryable = true
  waits _ = false

  abbrev pub is_retryable : SubmissionResult → Bool
  is_retryable submission_retryable = true
  is_retryable _ = false

  -- `reconcile`, for what `FindByHash` answers; `handle` is `handleSubmission`.
  abbrev pub reconcile_result : (Submission → Call) → String → Result Submission → Call
  reconcile_result handle intent_id (err e) =
      commit (retry_later intent_id retry_at "transaction reconciliation unavailable")
  reconcile_result handle intent_id (ok s) =
      if waits s.result then commit (retry_later intent_id retry_at s.safe_error) else handle s

  -- The switch of `handleSubmission`; `again` is `reconcile`.
  abbrev pub handle_result : Call → SubmissionResult → String → String → Submission → Call
  handle_result again submission_confirmed intent_id hash s =
      commit (confirm intent_id hash s.ledger_at config.now)
  handle_result again submission_permanent intent_id hash s =
      commit (fail_permanent intent_id s.safe_error config.now)
  handle_result again submission_unknown intent_id hash s =
      checking none (mark_unknown intent_id s.safe_error config.now) again
  handle_result again submission_pending intent_id hash s =
      commit (retry_later intent_id retry_at s.safe_error)
  handle_result again submission_retryable intent_id hash s =
      commit (retry_later intent_id retry_at s.safe_error)
  handle_result again other_result intent_id hash s =
      returning (err (text "invalid Stellar submission result"))

  -- `handleSubmission` and `reconcile` call each other: fuel bounds the calls of the first.
  unfoldable pub handle_submission : ℕ → String → String → Submission → Call
  handle_submission zero intent_id hash s = returning (err out_of_fuel)
  handle_submission (suc fuel) intent_id hash s =
      handle_result
        (reconcile_result (handle_submission fuel intent_id hash) intent_id
          (network.find_by_hash hash))
        s.result intent_id hash s

  unfoldable pub reconcile : ℕ → String → String → Call
  unfolding handle_submission
  reconcile fuel intent_id hash =
      reconcile_result (handle_submission fuel intent_id hash) intent_id (network.find_by_hash hash)

  -- The rest of `RunOnce`, after the answer of `Submit`.
  abbrev pub after_submit : String → String → Result Submission → Call
  after_submit intent_id hash (err e) =
      ignoring (mark_unknown intent_id "submission outcome unknown" config.now)
        (reconcile depth intent_id hash)
  after_submit intent_id hash (ok s) =
      if is_retryable s.result
      then checking (some "resetting rejected submission")
          (reset_submitted intent_id s.safe_error config.now)
          (commit (retry_later intent_id retry_at s.safe_error))
      else handle_submission depth intent_id hash s

  -- The rest of `RunOnce`, after the answer of `Build`.
  abbrev pub after_build : Intent → Result BuiltTransaction → Call
  after_build intent (err e) =
      ignoring (retry_later intent.intent_id retry_at "building transaction failed")
        (returning (err (wrapped "building Stellar transaction" e)))
  after_build intent (ok built) =
      if str_eq built.hash "" || str_eq built.envelope ""
      then returning (err (text "Stellar adapter returned incomplete transaction"))
      else checking (some "persisting Stellar transaction hash")
          (mark_submitted intent.intent_id built.hash config.now)
          (after_submit intent.intent_id built.hash (network.submit built))

  -- The rest of `RunOnce`, after the answer of `LoadIntent`.
  abbrev pub after_load : Result Intent → Call
  after_load (err e) = returning (err (wrapped "loading settlement intent" e))
  after_load (ok intent) =
      if not (str_eq intent.transaction_hash "")
      then reconcile depth intent.intent_id intent.transaction_hash
      else after_build intent (network.build intent.transfer)

  abbrev pub is_no_job : Error → Bool
  is_no_job no_job = true
  is_no_job _ = false

  -- A lease that fails; none to take is no error.
  abbrev pub no_turn : Bool → Error → Database → (Bool × Result (Unit {0})) × Database
  no_turn true e same = ((false, ok tt), same)
  no_turn false e same = ((false, err (wrapped "leasing settlement" e)), same)

  abbrev pub with_job : Result Job × Database → (Bool × Result (Unit {0})) × Database
  with_job (ok job, leased) =
      let (result, after) = after_load (load_intent job.intent_id leased) leased in
      ((true, result), after)
  with_job (err e, same) = no_turn (is_no_job (cause e)) e same

  -- `RunOnce`: whether there was a job, and what it came to.
  unfoldable pub run_once : String → Database → (Bool × Result (Unit {0})) × Database
  run_once worker db =
      with_job (commit (lease config.max_attempts worker config.now config.lease_duration) db)
