-- ===== src/Offramp/RetireWorker.antt =====
-- internal/usecase/offramp_worker_usecase.go: one turn of the retirement worker. The Stellar network
-- is a parameter, as is the one for retirements that are no clawback.
use kailo_be.Prelude.{
  String, Bool, true, false, ◌&&◌, ◌||◌, not, Option, none, some, str_eq, if◌then◌else◌,
}
use kailo_be.Prelude.Errors.{Error, hash_already_saved, cause, text, wrapped, Result, ok, err}
use kailo_be.Prelude.Time.{Instant}
use kailo_be.Store.{Database, commit}
use kailo_be.Store.Calls.{Call, returning, following}
use kailo_be.Settlement.{Transfer}
use kailo_be.Settlement.Worker.{
  SubmissionResult, submission_unknown, submission_confirmed, submission_pending,
  submission_permanent, submission_retryable, other_result, BuiltTransaction, Submission, Network,
}
use kailo_be.Offramp.Retirement.{
  RetirementIntent, load_retirement, save_retirement_hash, reset_retirement_hash,
}
use kailo_be.Offramp.Outcomes.{simulate_retirement, confirm_retirement, fail_retirement}

-- The worker: its networks, its mode, and the time of its clock during the turn.
pub record RetireWorker : Type 0 where
  pub network : Option Network
  pub legacy_network : Option Network
  pub simulate : Bool
  pub now : Instant

-- `RetirementSinkAddress`.
abbrev pub retirement_sink_address : String
retirement_sink_address = "GAAAAAAAAAAAAAAAAAAAAAAAAAAAAAAAAAAAAAAAAAAAAAAAAAAAAWHF"

abbrev pub or_legacy : Option Network → Option Network → Option Network
or_legacy network none = network
or_legacy network (some legacy) = some legacy

-- `networkFor`.
abbrev pub network_for : RetireWorker → RetirementIntent → Option Network
network_for w intent =
    if not (str_eq intent.clawback_from "") then w.network else or_legacy w.network w.legacy_network

abbrev pub transfer_of : RetirementIntent → Transfer
transfer_of intent = record {
  order_id = intent.order_id;
  source = intent.source;
  destination =
      if str_eq intent.destination "" && str_eq intent.clawback_from ""
      then retirement_sink_address
      else intent.destination;
  asset_code = intent.asset_code;
  asset_issuer = intent.asset_issuer;
  clawback_from = intent.clawback_from;
  amount = intent.amount;
  memo = intent.memo;
}

abbrev pub no_network : String → Call
no_network message = returning (err (text message))

abbrev pub rejected_message : String
rejected_message =
    "stellar retirement transaction was rejected before application and will be retried"

abbrev pub reconcile_message : String
reconcile_message = "stellar network is required to reconcile a retirement hash"

module _ (w : RetireWorker) where
  -- The switch of `reconcile`.
  abbrev pub found_on_chain : String → String → SubmissionResult → Submission → Call
  found_on_chain intent_id hash submission_confirmed s =
      commit (confirm_retirement intent_id hash s.ledger_at w.now)
  found_on_chain intent_id hash submission_permanent s =
      commit (fail_retirement intent_id "retirement transaction failed on chain" w.now)
  found_on_chain intent_id hash _ s = returning (ok tt)

  abbrev pub after_find : String → String → Result Submission → Call
  after_find intent_id hash (err e) = returning (ok tt)
  after_find intent_id hash (ok s) = found_on_chain intent_id hash s.result s

  abbrev pub find_on : Option Network → String → String → Call
  find_on none intent_id hash = no_network reconcile_message
  find_on (some n) intent_id hash = after_find intent_id hash (n.find_by_hash hash)

  abbrev pub reconcile_loaded : String → String → Result RetirementIntent → Call
  reconcile_loaded intent_id hash (err e) =
      returning (err (wrapped "loading retirement intent for reconciliation" e))
  reconcile_loaded intent_id hash (ok intent) = find_on (network_for w intent) intent_id hash

  -- `reconcile`.
  unfoldable pub reconcile_retirement : String → String → Call
  reconcile_retirement intent_id hash db =
      reconcile_loaded intent_id hash (load_retirement intent_id db) db

  -- The switch of `RunOnce` on what `Submit` answers.
  abbrev pub submitted_as : String → String → SubmissionResult → Submission → Call
  submitted_as intent_id hash submission_confirmed s =
      commit (confirm_retirement intent_id hash s.ledger_at w.now)
  submitted_as intent_id hash submission_permanent s =
      commit (fail_retirement intent_id "retirement transaction rejected" w.now)
  submitted_as intent_id hash submission_unknown s = reconcile_retirement intent_id hash
  submitted_as intent_id hash submission_retryable s = λ db.
      following "resetting rejected retirement submission" (returning (err (text rejected_message)))
        (reset_retirement_hash intent_id hash s.safe_error w.now db)
  submitted_as intent_id hash submission_pending s = returning (ok tt)
  submitted_as intent_id hash other_result s =
      returning (err (text "invalid retirement submission result"))

  abbrev pub after_submit : String → String → Result Submission → Call
  after_submit intent_id hash (err e) = reconcile_retirement intent_id hash
  after_submit intent_id hash (ok s) = submitted_as intent_id hash s.result s

  -- The rest of `RunOnce`, when another worker has saved a hash before.
  abbrev pub after_reload : String → Result RetirementIntent → Call
  after_reload intent_id (err e) =
      returning (err (wrapped "loading saved retirement transaction" e))
  after_reload intent_id (ok current) =
      if str_eq current.transaction_hash ""
      then returning (err (text "retirement transaction hash changed before reconciliation"))
      else reconcile_retirement intent_id current.transaction_hash

  abbrev pub not_saved : Bool → String → Error → Call
  not_saved true intent_id e = λ db. after_reload intent_id (load_retirement intent_id db) db
  not_saved false intent_id e = returning (err (wrapped "persisting retirement hash" e))

  abbrev pub is_saved_before : Error → Bool
  is_saved_before hash_already_saved = true
  is_saved_before _ = false

  -- The rest of `RunOnce`, after the answer of `SaveRetirementHash`.
  abbrev pub after_save :
      Network
      → String
      → BuiltTransaction
      → Result (Unit {0}) × Database
      → Result (Unit {0}) × Database
  after_save n intent_id built (err e, db) = not_saved (is_saved_before (cause e)) intent_id e db
  after_save n intent_id built (ok u, db) = after_submit intent_id built.hash (n.submit built) db

  abbrev pub save_built : Bool → Network → String → BuiltTransaction → Call
  save_built true n intent_id built =
      returning (err (text "Stellar adapter returned incomplete retirement transaction"))
  save_built false n intent_id built =
      λ db. after_save n intent_id built (save_retirement_hash intent_id built.hash w.now db)

  -- The rest of `RunOnce`, after the answer of `Build`.
  abbrev pub after_build : Network → String → Result BuiltTransaction → Call
  after_build n intent_id (err e) = returning (err (wrapped "building retirement transaction" e))
  after_build n intent_id (ok built) =
      save_built (str_eq built.hash "" || str_eq built.envelope "") n intent_id built

  abbrev pub submit_on : Option Network → RetirementIntent → Call
  submit_on none intent = no_network "stellar network is required to submit a retirement"
  submit_on (some n) intent = after_build n intent.intent_id (n.build (transfer_of intent))

  abbrev pub reconcile_saved : Option Network → RetirementIntent → Call
  reconcile_saved none intent = no_network reconcile_message
  reconcile_saved (some n) intent = reconcile_retirement intent.intent_id intent.transaction_hash

  abbrev pub submit_unless : Bool → RetirementIntent → Call
  submit_unless true intent = commit (simulate_retirement intent.intent_id w.now)
  submit_unless false intent = submit_on (network_for w intent) intent

  -- An intent that has a hash is reconciled before any other action.
  abbrev pub retire_intent : Bool → RetirementIntent → Call
  retire_intent true intent = reconcile_saved (network_for w intent) intent
  retire_intent false intent = submit_unless w.simulate intent

  abbrev pub after_load : Result RetirementIntent → Call
  after_load (err e) = returning (err (wrapped "loading retirement intent" e))
  after_load (ok intent) = retire_intent (not (str_eq intent.transaction_hash "")) intent

  -- `RunOnce`.
  unfoldable pub run_retirement : String → Call
  run_retirement intent_id db = after_load (load_retirement intent_id db) db
