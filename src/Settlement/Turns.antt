-- ===== src/Settlement/Turns.antt =====
-- A turn of the settlement worker keeps what its transactions keep.
use kailo_be.Prelude.{
  ℕ, zero, suc, String, Bool, true, false, ◌||◌, not, none, some, List, str_eq, if◌then◌else◌,
}
use kailo_be.Prelude.Errors.{cause, text, wrapped, Result, ok, err}
use kailo_be.Prelude.Time.{Instant}
use kailo_be.Prelude.Int.{ℤ}
use kailo_be.Store.{Database, commit}
use kailo_be.Store.Rows.{StellarTransaction, OutboxMessage}
use kailo_be.Store.Triples.{
  Keeps, commit-Keeps, Keeps->>=, Keeps-gets, Keeps-found, Keeps-raise_if, triple-pure,
}
use kailo_be.Store.Frames.{update_stellar-Keeps, update_outbox-Keeps}
use kailo_be.Store.Calls.{Call, IsSafe, ignoring-IsSafe, checking-IsSafe, checking, returning}
use kailo_be.Settlement.{
  Job, Intent, lease, load_intent, mark_submitted, mark_unknown, reset_submitted, retry_later,
}
use kailo_be.Settlement.Outcomes.{confirm, fail_permanent}
use kailo_be.Settlement.Worker.{
  SubmissionResult, submission_unknown, submission_confirmed, submission_pending,
  submission_permanent, submission_retryable, other_result, BuiltTransaction, Submission, Network,
  SettlementConfig, waits, retry_at, reconcile_result, handle_result, handle_submission, reconcile,
  depth, after_submit, after_build, after_load, with_job, is_no_job, no_turn, is_retryable,
  run_once,
}

-- What the transactions of a turn keep.
pub record IsSettlementSafe (P : Database → Type 0) : Type 0 where
  pub intents :
      (db : Database) (rows : List StellarTransaction)
      → P db
      → P (record db { stellar_transactions = rows })
  pub jobs :
      (db : Database) (rows : List OutboxMessage) → P db → P (record db { outbox_messages = rows })
  pub confirms :
      (intent_id hash : String) (ledger_at now : Instant)
      → Keeps P (confirm intent_id hash ledger_at now)
  pub fails :
      (intent_id safe_error : String) (now : Instant)
      → Keeps P (fail_permanent intent_id safe_error now)

module _ {P : Database → Type 0} (safe : IsSettlementSafe P) where
  pub lease-Keeps :
      (max_attempts : ℕ) (worker : String) (now : Instant) (duration : ℤ)
      → Keeps P (lease max_attempts worker now duration)
  unfolding lease
  lease-Keeps max_attempts worker now duration = Keeps->>= (Keeps-gets _) λ row.
      Keeps->>= (Keeps-found _ row) λ m.
        Keeps->>= (update_outbox-Keeps safe.jobs _ _)
          λ _. Keeps->>= (Keeps-raise_if _ _) λ _. triple-pure _ (λ db h. h)

  pub mark_submitted-Keeps :
      (intent_id hash : String) (now : Instant) → Keeps P (mark_submitted intent_id hash now)
  unfolding mark_submitted
  mark_submitted-Keeps intent_id hash now = update_stellar-Keeps safe.intents _ _

  pub mark_unknown-Keeps :
      (intent_id safe_error : String) (now : Instant)
      → Keeps P (mark_unknown intent_id safe_error now)
  unfolding mark_unknown
  mark_unknown-Keeps intent_id safe_error now = update_stellar-Keeps safe.intents _ _

  pub reset_submitted-Keeps :
      (intent_id safe_error : String) (now : Instant)
      → Keeps P (reset_submitted intent_id safe_error now)
  unfolding reset_submitted
  reset_submitted-Keeps intent_id safe_error now = update_stellar-Keeps safe.intents _ _

  pub retry_later-Keeps :
      (intent_id : String) (at : Instant) (safe_error : String)
      → Keeps P (retry_later intent_id at safe_error)
  unfolding retry_later
  retry_later-Keeps intent_id at safe_error =
      Keeps->>= (Keeps-gets _)
        λ row. Keeps->>= (Keeps-found _ row) λ s. update_outbox-Keeps safe.jobs _ _

  module _ (network : Network) (config : SettlementConfig) where
    reconcile_result-IsSafe :
        (handle : Submission → Call) (intent_id : String) (r : Result Submission)
        → ((s : Submission) → IsSafe P (handle s))
        → IsSafe P (reconcile_result network config handle intent_id r)
    reconcile_result-IsSafe handle intent_id (err e) h db p =
        commit-Keeps (retry_later-Keeps _ _ _) db p
    reconcile_result-IsSafe handle intent_id (ok s) h db p = chosen (waits network config s.result)
      where
        chosen :
            (b : Bool)
            → P
                ((if b
                    then commit (retry_later intent_id (retry_at network config) s.safe_error)
                    else handle s)
                  db).1
        chosen true = commit-Keeps (retry_later-Keeps _ _ _) db p
        chosen false = h s db p

    handle_result-IsSafe :
        (again : Call) (r : SubmissionResult) (intent_id hash : String) (s : Submission)
        → IsSafe P again
        → IsSafe P (handle_result network config again r intent_id hash s)
    handle_result-IsSafe again submission_confirmed intent_id hash s h db p =
        commit-Keeps (safe.confirms _ _ _ _) db p
    handle_result-IsSafe again submission_permanent intent_id hash s h db p =
        commit-Keeps (safe.fails _ _ _) db p
    handle_result-IsSafe again submission_unknown intent_id hash s h db p =
        checking-IsSafe none _ again (mark_unknown-Keeps _ _ _) h db p
    handle_result-IsSafe again submission_pending intent_id hash s h db p =
        commit-Keeps (retry_later-Keeps _ _ _) db p
    handle_result-IsSafe again submission_retryable intent_id hash s h db p =
        commit-Keeps (retry_later-Keeps _ _ _) db p
    handle_result-IsSafe again other_result intent_id hash s h db p = p

    handle_submission-IsSafe :
        (fuel : ℕ) (intent_id hash : String) (s : Submission)
        → IsSafe P (handle_submission network config fuel intent_id hash s)
    unfolding handle_submission
    handle_submission-IsSafe zero intent_id hash s db p = p
    handle_submission-IsSafe (suc fuel) intent_id hash s db p =
        handle_result-IsSafe _ s.result intent_id hash s
          (reconcile_result-IsSafe _ intent_id (network.find_by_hash hash)
            (λ t. handle_submission-IsSafe fuel intent_id hash t))
          db p

    reconcile-IsSafe :
        (fuel : ℕ) (intent_id hash : String)
        → IsSafe P (reconcile network config fuel intent_id hash)
    unfolding reconcile
    reconcile-IsSafe fuel intent_id hash =
        reconcile_result-IsSafe _ intent_id (network.find_by_hash hash)
          (λ t. handle_submission-IsSafe fuel intent_id hash t)

    after_submit-IsSafe :
        (intent_id hash : String) (r : Result Submission)
        → IsSafe P (after_submit network config intent_id hash r)
    after_submit-IsSafe intent_id hash (err e) db p =
        ignoring-IsSafe _ (reconcile network config depth intent_id hash) (mark_unknown-Keeps _ _ _)
          (reconcile-IsSafe depth intent_id hash) db p
    after_submit-IsSafe intent_id hash (ok s) db p = chosen (is_retryable network config s.result)
      where
        chosen :
            (b : Bool)
            → P
                ((if b
                    then checking
                        (some "resetting rejected submission")
                        (reset_submitted intent_id s.safe_error config.now)
                        (commit (retry_later intent_id (retry_at network config) s.safe_error))
                    else handle_submission network config depth intent_id hash s)
                  db).1
        chosen true =
            checking-IsSafe (some "resetting rejected submission") _
              (commit (retry_later intent_id (retry_at network config) s.safe_error))
              (reset_submitted-Keeps _ _ _) (λ db p. commit-Keeps (retry_later-Keeps _ _ _) db p) db
              p
        chosen false = handle_submission-IsSafe depth intent_id hash s db p

    after_build-IsSafe :
        (intent : Intent) (r : Result BuiltTransaction)
        → IsSafe P (after_build network config intent r)
    after_build-IsSafe intent (err e) db p =
        ignoring-IsSafe _ (returning (err (wrapped "building Stellar transaction" e)))
          (retry_later-Keeps _ _ _) (λ db p. p) db p
    after_build-IsSafe intent (ok built) db p =
        chosen (str_eq built.hash "" || str_eq built.envelope "")
      where
        chosen :
            (b : Bool)
            → P
                ((if b
                    then returning (err (text "Stellar adapter returned incomplete transaction"))
                    else checking
                        (some "persisting Stellar transaction hash")
                        (mark_submitted intent.intent_id built.hash config.now)
                        (after_submit network config intent.intent_id built.hash
                          (network.submit built)))
                  db).1
        chosen true = p
        chosen false =
            checking-IsSafe (some "persisting Stellar transaction hash") _
              (after_submit network config intent.intent_id built.hash (network.submit built))
              (mark_submitted-Keeps _ _ _)
              (after_submit-IsSafe intent.intent_id built.hash (network.submit built)) db p

    after_load-IsSafe : (r : Result Intent) → IsSafe P (after_load network config r)
    after_load-IsSafe (err e) db p = p
    after_load-IsSafe (ok intent) db p = chosen (not (str_eq intent.transaction_hash ""))
      where
        chosen :
            (b : Bool)
            → P
                ((if b
                    then reconcile network config depth intent.intent_id intent.transaction_hash
                    else after_build network config intent (network.build intent.transfer))
                  db).1
        chosen true = reconcile-IsSafe depth intent.intent_id intent.transaction_hash db p
        chosen false = after_build-IsSafe intent (network.build intent.transfer) db p

    pub run_once-keeps :
        (worker : String) (db : Database) → P db → P (run_once network config worker db).1
    unfolding run_once
    run_once-keeps worker db p =
        turn (commit (lease config.max_attempts worker config.now config.lease_duration) db) (
          commit-Keeps (lease-Keeps config.max_attempts worker config.now config.lease_duration) db
            p)
      where
        turn : (r : Result Job × Database) → P r.1 → P (with_job network config r).1
        turn (ok job, leased) q = after_load-IsSafe (load_intent job.intent_id leased) leased q
        turn (err e, same) q = chosen (is_no_job network config (cause e)) same q
          where
            chosen : (b : Bool) (same : Database) → P same → P (no_turn network config b e same).1
            chosen true same q = q
            chosen false same q = q
