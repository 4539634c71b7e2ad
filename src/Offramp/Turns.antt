-- ===== src/Offramp/Turns.antt =====
-- A turn of the retirement worker, a scan of the deposits and a simulated payout keep what their
-- transactions keep.
use kailo_be.Prelude.{
  str_append, ℕ, ◌+◌, if◌then◌else◌, String, Bool, true, false, ◌||◌, not, Option, none, some, List,
  [], ◌∷◌, str_eq,
}
use kailo_be.Prelude.Errors.{Error, cause, text, Result, ok, err}
use kailo_be.Prelude.Time.{Instant}
use kailo_be.Store.{Database, commit}
use kailo_be.Store.Rows.{StellarTransaction}
use kailo_be.Store.Views.{OrderView}
use kailo_be.Store.Triples.{
  Keeps, Keeps->>=, Keeps-gets, Keeps-raise_if, triple-pure, triple-wrapping, commit-Keeps,
}
use kailo_be.Store.Frames.{update_stellar-Keeps}
use kailo_be.Store.Calls.{IsSafe, checking-IsSafe, following-keeps, returning}
use kailo_be.Settlement.{Job}
use kailo_be.Settlement.Worker.{
  SubmissionResult, submission_unknown, submission_confirmed, submission_pending,
  submission_permanent, submission_retryable, other_result, BuiltTransaction, Submission, Network,
}
use kailo_be.Offramp.Deposits.{ObservedPayment, record_asset_received, record_asset_invalid}
use kailo_be.Offramp.Retirement.{
  RetirementIntent, load_retirement, one_row, save_hash, save_retirement_hash, reset_hash,
  reset_retirement_hash,
}
use kailo_be.Offramp.Outcomes.{simulate_retirement, confirm_retirement, fail_retirement}
use kailo_be.Offramp.Payouts.{
  SandboxPayoutMode, disabled, simulate, complete_sandbox_payout, pay_job, run_payout,
}
use kailo_be.Offramp.Scanner.{
  Verdict, no_payment, mismatch, match, Scan, counted, settle, scan_orders, scan_candidates,
  scan_deposits, look_for,
}
use kailo_be.Offramp.RetireWorker.{
  RetireWorker, transfer_of, network_for, found_on_chain, after_find, find_on, reconcile_loaded,
  reconcile_retirement, submitted_as, after_submit, after_reload, not_saved, is_saved_before,
  after_save, save_built, after_build, submit_on, reconcile_saved, submit_unless, retire_intent,
  after_load, run_retirement, rejected_message,
}

-- What the transactions keep.
pub record IsOfframpSafe (P : Database → Type 0) : Type 0 where
  pub intents :
      (db : Database) (rows : List StellarTransaction)
      → P db
      → P (record db { stellar_transactions = rows })
  pub simulates : (intent_id : String) (now : Instant) → Keeps P (simulate_retirement intent_id now)
  pub confirms :
      (intent_id hash : String) (ledger_at now : Instant)
      → Keeps P (confirm_retirement intent_id hash ledger_at now)
  pub fails :
      (intent_id safe_error : String) (now : Instant)
      → Keeps P (fail_retirement intent_id safe_error now)
  pub receives :
      (order_id : String) (payment : ObservedPayment) (now : Instant)
      → Keeps P (record_asset_received order_id payment now)
  pub invalidates :
      (order_id : String) (now : Instant) → Keeps P (record_asset_invalid order_id now)
  pub pays :
      (order_id outbox_id reference : String) (now : Instant)
      → Keeps P (complete_sandbox_payout order_id outbox_id reference now)

module _ {P : Database → Type 0} (safe : IsOfframpSafe P) where
  save_hash-Keeps :
      (intent_id hash : String) (now : Instant) → Keeps P (save_hash intent_id hash now)
  unfolding save_hash
  save_hash-Keeps intent_id hash now = Keeps->>= (Keeps-gets _) λ _. Keeps->>= (Keeps-gets _) λ _.
      Keeps->>= (Keeps-raise_if _ _)
        λ _. Keeps->>= (update_stellar-Keeps safe.intents _ _) λ _. triple-pure _ (λ db h. h)

  reset_hash-Keeps :
      (intent_id hash safe_error : String) (now : Instant)
      → Keeps P (reset_hash intent_id hash safe_error now)
  unfolding reset_hash
  reset_hash-Keeps intent_id hash safe_error now =
      Keeps->>= (Keeps-gets _)
        λ _. Keeps->>= (update_stellar-Keeps safe.intents _ _) λ _. triple-pure _ (λ db h. h)

  one_row-keeps : (e : Error) (r : Result ℕ × Database) → P r.1 → P (one_row e r).1
  one_row-keeps e (err x, db) p = p
  one_row-keeps e (ok n, db) p = p

  save_retirement_hash-IsSafe :
      (intent_id hash : String) (now : Instant) → IsSafe P (save_retirement_hash intent_id hash now)
  unfolding save_retirement_hash
  save_retirement_hash-IsSafe intent_id hash now db p =
      one_row-keeps _ _ (commit-Keeps (triple-wrapping _ (save_hash-Keeps intent_id hash now)) db p)

  reset_retirement_hash-IsSafe :
      (intent_id hash safe_error : String) (now : Instant)
      → IsSafe P (reset_retirement_hash intent_id hash safe_error now)
  unfolding reset_retirement_hash
  reset_retirement_hash-IsSafe intent_id hash safe_error now db p =
      one_row-keeps _ _ (commit-Keeps (reset_hash-Keeps intent_id hash safe_error now) db p)

  module _ (w : RetireWorker) where
    find_on-IsSafe :
        (network : Option Network) (intent_id hash : String)
        → IsSafe P (find_on w network intent_id hash)
    find_on-IsSafe none intent_id hash = λ db p. p
    find_on-IsSafe (some n) intent_id hash = answered (n.find_by_hash hash)
      where
        switched :
            (r : SubmissionResult) (s : Submission) → IsSafe P (found_on_chain w intent_id hash r s)
        switched submission_confirmed s = commit-Keeps (safe.confirms _ _ _ _)
        switched submission_permanent s = commit-Keeps (safe.fails _ _ _)
        switched _ s = λ db p. p

        answered : (r : Result Submission) → IsSafe P (after_find w intent_id hash r)
        answered (err e) = λ db p. p
        answered (ok s) = switched s.result s

    reconcile_retirement-IsSafe :
        (intent_id hash : String) → IsSafe P (reconcile_retirement w intent_id hash)
    unfolding reconcile_retirement
    reconcile_retirement-IsSafe intent_id hash db p = loaded (load_retirement intent_id db)
      where
        loaded : (r : Result RetirementIntent) → P (reconcile_loaded w intent_id hash r db).1
        loaded (err e) = p
        loaded (ok intent) = find_on-IsSafe (network_for w intent) intent_id hash db p

    submitted_as-IsSafe :
        (intent_id hash : String) (r : SubmissionResult) (s : Submission)
        → IsSafe P (submitted_as w intent_id hash r s)
    submitted_as-IsSafe intent_id hash submission_confirmed s = commit-Keeps (safe.confirms _ _ _ _)
    submitted_as-IsSafe intent_id hash submission_permanent s = commit-Keeps (safe.fails _ _ _)
    submitted_as-IsSafe intent_id hash submission_unknown s =
        reconcile_retirement-IsSafe intent_id hash
    submitted_as-IsSafe intent_id hash submission_retryable s = λ db p.
        following-keeps {P = P} "resetting rejected retirement submission"
          (returning (err (text rejected_message)))
          (reset_retirement_hash intent_id hash s.safe_error w.now db)
          (reset_retirement_hash-IsSafe intent_id hash s.safe_error w.now db p) (λ after q. q)
    submitted_as-IsSafe intent_id hash submission_pending s = λ db p. p
    submitted_as-IsSafe intent_id hash other_result s = λ db p. p

    after_save-keeps :
        (n : Network) (intent_id : String) (built : BuiltTransaction)
        (r : Result (Unit {0}) × Database)
        → P r.1
        → P (after_save w n intent_id built r).1
    after_save-keeps n intent_id built (ok u, db) p = answered (n.submit built)
      where
        answered : (r : Result Submission) → P (after_submit w intent_id built.hash r db).1
        answered (err e) = reconcile_retirement-IsSafe intent_id built.hash db p
        answered (ok s) = submitted_as-IsSafe intent_id built.hash s.result s db p
    after_save-keeps n intent_id built (err e, db) p = refused (is_saved_before w (cause e))
      where
        chosen :
            (b : Bool) (current : RetirementIntent)
            → P
                ((if b
                    then returning
                        (err (text "retirement transaction hash changed before reconciliation"))
                    else reconcile_retirement w intent_id current.transaction_hash)
                  db).1
        chosen true current = p
        chosen false current = reconcile_retirement-IsSafe intent_id current.transaction_hash db p

        reloaded : (r : Result RetirementIntent) → P (after_reload w intent_id r db).1
        reloaded (err x) = p
        reloaded (ok current) = chosen (str_eq current.transaction_hash "") current

        refused : (b : Bool) → P (not_saved w b intent_id e db).1
        refused true = reloaded (load_retirement intent_id db)
        refused false = p

    submit_on-IsSafe :
        (network : Option Network) (intent : RetirementIntent)
        → IsSafe P (submit_on w network intent)
    submit_on-IsSafe none intent = λ db p. p
    submit_on-IsSafe (some n) intent = answered (n.build (transfer_of intent))
      where
        complete :
            (b : Bool) (built : BuiltTransaction)
            → IsSafe P (save_built w b n intent.intent_id built)
        complete true built = λ db p. p
        complete false built = λ db p.
            after_save-keeps n intent.intent_id built
              (save_retirement_hash intent.intent_id built.hash w.now db)
              (save_retirement_hash-IsSafe intent.intent_id built.hash w.now db p)

        answered : (r : Result BuiltTransaction) → IsSafe P (after_build w n intent.intent_id r)
        answered (err e) = λ db p. p
        answered (ok built) = complete (str_eq built.hash "" || str_eq built.envelope "") built

    pub run_retirement-IsSafe : (intent_id : String) → IsSafe P (run_retirement w intent_id)
    unfolding run_retirement
    run_retirement-IsSafe intent_id db p = loaded (load_retirement intent_id db)
      where
        reconciled :
            (network : Option Network) (intent : RetirementIntent)
            → P (reconcile_saved w network intent db).1
        reconciled none intent = p
        reconciled (some n) intent =
            reconcile_retirement-IsSafe intent.intent_id intent.transaction_hash db p

        acted : (b : Bool) (intent : RetirementIntent) → P (submit_unless w b intent db).1
        acted true intent = commit-Keeps (safe.simulates _ _) db p
        acted false intent = submit_on-IsSafe (network_for w intent) intent db p

        retired : (b : Bool) (intent : RetirementIntent) → P (retire_intent w b intent db).1
        retired true intent = reconciled (network_for w intent) intent
        retired false intent = acted w.simulate intent

        loaded : (r : Result RetirementIntent) → P (after_load w r db).1
        loaded (err e) = p
        loaded (ok intent) = retired (not (str_eq intent.transaction_hash "")) intent

  pub run_payout-IsSafe :
      (mode : SandboxPayoutMode) (job : Job) (now : Instant) → IsSafe P (run_payout mode job now)
  unfolding run_payout
  run_payout-IsSafe disabled job now = λ db p. p
  run_payout-IsSafe simulate job now = paid _ _
    where
      paid : (b : Bool) (order_id : String) → IsSafe P (pay_job b order_id job.outbox_id now)
      paid true order_id = λ db p. p
      paid false order_id =
          checking-IsSafe (some "completing sandbox payout") _ (returning (ok tt))
            (safe.pays _ _ _ _) (λ db p. p)

  module _ (deposit_memo : String → String) (now : Instant) where
    counted-keeps :
        (more : ℕ) (message : String) (matched : ℕ) (next : ℕ → Database → Scan)
        (r : Result (Unit {0}) × Database)
        → P r.1
        → ((n : ℕ) (db : Database) → P db → P (next n db).1)
        → P (counted deposit_memo now more message matched next r).1
    counted-keeps more message matched next (ok u, after) p h = h (matched + more) after p
    counted-keeps more message matched next (err e, after) p h = p

    scan_orders-keeps :
        (pending : List ObservedPayment) (orders : List OrderView) (matched : ℕ) (db : Database)
        → P db
        → P (scan_orders deposit_memo now pending orders matched db).1
    scan_orders-keeps pending [] matched db p = p
    scan_orders-keeps pending (order ∷ rest) matched db p =
        settled (look_for order _ pending no_payment) (scan_orders-keeps pending rest)
      where
        settled :
            (v : Verdict)
            → ((n : ℕ) (d : Database) → P d → P (scan_orders deposit_memo now pending rest n d).1)
            → P
                (settle deposit_memo now order v matched
                  (scan_orders deposit_memo now pending rest)
                  db).1
        settled no_payment h = h matched db p
        settled (match payment) h =
            counted-keeps 1 (str_append "recording deposit for " order.id) matched
              (scan_orders deposit_memo now pending rest)
              (commit (record_asset_received order.id payment now) db)
              (commit-Keeps (safe.receives _ _ _) db p) h
        settled (mismatch reason hash) h =
            counted-keeps 0 (str_append "invalidating " order.id) matched
              (scan_orders deposit_memo now pending rest)
              (commit (record_asset_invalid order.id now) db)
              (commit-Keeps (safe.invalidates _ _) db p) h

    pub scan_deposits-keeps :
        (deposit_account : String) (recent : Result (List ObservedPayment)) (db : Database)
        → P db
        → P (scan_deposits deposit_memo now deposit_account recent db).1
    unfolding scan_deposits
    scan_deposits-keeps deposit_account recent db p = any_candidates recent _
      where
        any_candidates :
            (recent : Result (List ObservedPayment)) (orders : List OrderView)
            → P (scan_candidates deposit_memo now deposit_account recent orders db).1
        any_candidates recent [] = p
        any_candidates (err e) (order ∷ rest) = p
        any_candidates (ok payments) (order ∷ rest) = scan_orders-keeps _ (order ∷ rest) 0 db p
