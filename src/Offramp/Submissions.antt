-- ===== src/Offramp/Submissions.antt =====
-- When `RunOnce` of internal/usecase/offramp_worker_usecase.go asks the network to submit: a worker
-- is compared with one whose networks answer every submission with an error.
use kailo_be.Prelude.{
  ◌≡◌, refl, sym, ap, subst, ◌∙◌, ◌⊎◌, inl, inr, arith, eq_iff, String, Bool, true, false, ◌||◌,
  not, Option, none, some, str_eq, if◌then◌else◌,
}
use kailo_be.Prelude.Errors.{Error, text, cause, Result, ok, err}
use kailo_be.Store.{Database}
use kailo_be.Settlement.Worker.{
  SubmissionResult, submission_confirmed, submission_permanent, BuiltTransaction, Submission,
  Network,
}
use kailo_be.Offramp.Retirement.{RetirementIntent, load_retirement, save_retirement_hash}
use kailo_be.Offramp.RetireWorker.{
  RetireWorker, transfer_of, or_legacy, network_for, find_on, found_on_chain, after_find,
  reconcile_loaded, reconcile_retirement, after_reload, not_saved, is_saved_before, after_save,
  save_built, after_build, submit_on, reconcile_saved, submit_unless, retire_intent, after_load,
  run_retirement,
}

abbrev pub muted_network : Network → Network
muted_network n = record n { submit = λ built. err (text "") }

abbrev pub muted_option : Option Network → Option Network
muted_option none = none
muted_option (some n) = some (muted_network n)

abbrev pub muted : RetireWorker → RetireWorker
muted w = record w {
  network = muted_option w.network;
  legacy_network = muted_option w.legacy_network;
}

-- The hash of a transaction that the worker has built has been saved for its intent, which had none.
pub record IsSaved (w : RetireWorker) (intent_id : String) (db : Database) : Type 0 where
  pub intent : RetirementIntent
  pub network : Network
  pub built : BuiltTransaction
  pub loaded : load_retirement intent_id db ≡ ok intent
  pub fresh : intent.transaction_hash ≡ ""
  pub real : w.simulate ≡ false
  pub chosen : network_for w intent ≡ some network
  pub answered : network.build (transfer_of intent) ≡ ok built
  pub saved : (save_retirement_hash intent.intent_id built.hash w.now db).0 ≡ ok tt

module _ (w : RetireWorker) where
  network_for-muted :
      (intent : RetirementIntent)
      → network_for (muted w) intent ≡ muted_option (network_for w intent)
  network_for-muted intent = by (not (str_eq intent.clawback_from "")) w.legacy_network
    where
      by :
          (b : Bool) (legacy : Option Network)
          → (if b
              then muted_option w.network
              else or_legacy (muted_option w.network) (muted_option legacy))
            ≡ muted_option (if b then w.network else or_legacy w.network legacy)
      by true legacy = refl
      by false none = refl
      by false (some n) = refl

  find_on-muted :
      (network : Option Network) (intent_id hash : String) (db : Database)
      → find_on (muted w) (muted_option network) intent_id hash db
        ≡ find_on w network intent_id hash db
  find_on-muted none intent_id hash db = refl
  find_on-muted (some n) intent_id hash db = answered (n.find_by_hash hash)
    where
      switched :
          (r : SubmissionResult) (s : Submission)
          → found_on_chain (muted w) intent_id hash r s db ≡ found_on_chain w intent_id hash r s db
      switched submission_confirmed s = refl
      switched submission_permanent s = refl
      switched _ s = refl

      answered :
          (r : Result Submission)
          → after_find (muted w) intent_id hash r db ≡ after_find w intent_id hash r db
      answered (err e) = refl
      answered (ok s) = switched s.result s

  reconcile-muted :
      (intent_id hash : String) (db : Database)
      → reconcile_retirement (muted w) intent_id hash db ≡ reconcile_retirement w intent_id hash db
  unfolding reconcile_retirement
  reconcile-muted intent_id hash db = loaded (load_retirement intent_id db)
    where
      loaded :
          (r : Result RetirementIntent)
          → reconcile_loaded (muted w) intent_id hash r db ≡ reconcile_loaded w intent_id hash r db
      loaded (err e) = refl
      loaded (ok intent) =
          ap (λ (n : Option Network). find_on (muted w) n intent_id hash db)
            (network_for-muted intent)
          ∙ find_on-muted (network_for w intent) intent_id hash db

  reload-muted :
      (intent_id : String) (e : Error) (db : Database) (b : Bool)
      → not_saved (muted w) b intent_id e db ≡ not_saved w b intent_id e db
  reload-muted intent_id e db false = refl
  reload-muted intent_id e db true = loaded (load_retirement intent_id db)
    where
      loaded :
          (r : Result RetirementIntent)
          → after_reload (muted w) intent_id r db ≡ after_reload w intent_id r db
      loaded (err x) = refl
      loaded (ok current) = ground (arith, reconcile-muted intent_id current.transaction_hash db)

  after_save-muted :
      (intent : RetirementIntent) (n : Network) (built : BuiltTransaction) (db : Database)
      (r : Result (Unit {0}) × Database)
      → (after_save (muted w) (muted_network n) intent.intent_id built r
          ≡ after_save w n intent.intent_id built r)
        ⊎ (r.0 ≡ ok tt)
  after_save-muted intent n built db (ok u, after) = inr refl
  after_save-muted intent n built db (err e, after) =
      inl (reload-muted intent.intent_id e after (is_saved_before w (cause e)))

  module _ (intent_id : String) (db : Database) where
    submit_on-muted :
        (intent : RetirementIntent)
        → load_retirement intent_id db ≡ ok intent
        → intent.transaction_hash ≡ ""
        → w.simulate ≡ false
        → (network : Option Network) → network_for w intent ≡ network
        → (submit_on (muted w) (muted_option network) intent db ≡ submit_on w network intent db)
          ⊎ IsSaved w intent_id db
    submit_on-muted intent l h s none c = inl refl
    submit_on-muted intent l h s (some n) c = answered (n.build (transfer_of intent)) refl
      where
        complete :
            (built : BuiltTransaction)
            → n.build (transfer_of intent) ≡ ok built
            → (b : Bool)
            → (save_built (muted w) b (muted_network n) intent.intent_id built db
                ≡ save_built w b n intent.intent_id built db)
              ⊎ IsSaved w intent_id db
        complete built a true = inl refl
        complete built a false =
            elim (after_save-muted intent n built db
              (save_retirement_hash intent.intent_id built.hash w.now db)) [
                | inl same ↦ inl same
                | inr done ↦ inr (record {
                  intent = intent;
                  network = n;
                  built = built;
                  loaded = l;
                  fresh = h;
                  real = s;
                  chosen = c;
                  answered = a;
                  saved = done;
                })
              ]

        answered :
            (r : Result BuiltTransaction)
            → n.build (transfer_of intent) ≡ r
            → (after_build (muted w) (muted_network n) intent.intent_id r db
                ≡ after_build w n intent.intent_id r db)
              ⊎ IsSaved w intent_id db
        answered (err e) a = inl refl
        answered (ok built) a = complete built a (str_eq built.hash "" || str_eq built.envelope "")

    reconcile_saved-muted :
        (network : Option Network) (intent : RetirementIntent)
        → reconcile_saved (muted w) (muted_option network) intent db
          ≡ reconcile_saved w network intent db
    reconcile_saved-muted none intent = refl
    reconcile_saved-muted (some n) intent =
        reconcile-muted intent.intent_id intent.transaction_hash db

    submit_unless-muted :
        (intent : RetirementIntent)
        → load_retirement intent_id db ≡ ok intent
        → intent.transaction_hash ≡ ""
        → (b : Bool) → w.simulate ≡ b
        → (submit_unless (muted w) b intent db ≡ submit_unless w b intent db)
          ⊎ IsSaved w intent_id db
    submit_unless-muted intent l h true s = inl refl
    submit_unless-muted intent l h false s =
        subst
          (λ (n : Option Network).
            (submit_on (muted w) n intent db ≡ submit_on w (network_for w intent) intent db)
            ⊎ IsSaved w intent_id db)
          (sym (network_for-muted intent))
          (submit_on-muted intent l h s (network_for w intent) refl)

    retire-muted :
        (intent : RetirementIntent)
        → load_retirement intent_id db ≡ ok intent
        → (b : Bool) → not (str_eq intent.transaction_hash "") ≡ b
        → (retire_intent (muted w) b intent db ≡ retire_intent w b intent db)
          ⊎ IsSaved w intent_id db
    retire-muted intent l true h = inl (
        ap (λ (n : Option Network). reconcile_saved (muted w) n intent db)
          (network_for-muted intent)
        ∙ reconcile_saved-muted (network_for w intent) intent)
    retire-muted intent l false h =
        submit_unless-muted intent l (ground (arith, h, eq_iff intent.transaction_hash ""))
          w.simulate refl

-- A turn of the retirement worker goes the same way when its networks refuse every submission,
-- unless the intent had no hash before, the worker does not simulate, and the hash of the
-- transaction that the chosen network built for the intent has been saved for it.
pub submission_needs_hash :
    (w : RetireWorker) (intent_id : String) (db : Database)
    → (run_retirement (muted w) intent_id db ≡ run_retirement w intent_id db)
      ⊎ IsSaved w intent_id db
unfolding run_retirement
submission_needs_hash w intent_id db = loaded (load_retirement intent_id db) refl
  where
    loaded :
        (r : Result RetirementIntent)
        → load_retirement intent_id db ≡ r
        → (after_load (muted w) r db ≡ after_load w r db) ⊎ IsSaved w intent_id db
    loaded (err e) l = inl refl
    loaded (ok intent) l = retire-muted w intent_id db intent l _ refl
