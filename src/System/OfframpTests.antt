-- ===== src/System/OfframpTests.antt =====
-- A sale from its creation to its retirement, through internal/repository/offramp_repository.go and the
-- workers of internal/usecase/offramp_worker_usecase.go.
use kailo_be.Prelude.{
  ℕ, ◌≡◌, ◌≢◌, ◌≤◌, ◌<◌, refl, ◌⊎◌, arith, [], ◌∷◌, none, some, false, String, List, find, length,
  replicate, ltb, if◌then◌else◌,
}
use kailo_be.Prelude.Int.{pos}
use kailo_be.Prelude.Errors.{ok, pg, wrapped}
use kailo_be.Amount.{Bytes, codes}
use kailo_be.Quote.{Quote}
use kailo_be.Store.{Database, Tx, commit, modify}
use kailo_be.Store.Retry.{
  Attempts, IsConflict, tx_do, is_transient_lock_error, retry_atomic, retry_commits,
}
use kailo_be.Store.Views.{OrderView}
use kailo_be.Principal.{OrderPrincipal, api_client}
use kailo_be.Offramp.{OfframpRepository, OfframpCreateRecord, offramp_order}
use kailo_be.Offramp.Deposits.{ObservedPayment, record_asset_received, offramp_view}
use kailo_be.Offramp.Scanner.{no_payment, look_for, is_match}
use kailo_be.Offramp.Matching.{matched_or, complaint, carries, look_for_first}
use kailo_be.Offramp.Received.{IsExpected, received_exactly}
use kailo_be.Offramp.RetireWorker.{RetireWorker, run_retirement}
use kailo_be.Offramp.Submissions.{muted, IsSaved, submission_needs_hash}
use kailo_be.Offramp.Memo.{
  offramp_deposit_memo, stellar_text_memo_max_bytes, decode_hex, encode_base64,
}
use kailo_be.Offramp.Addressing.{memo_fits, memo_injective}
use kailo_be.Settlement.{finish_outbox}
use kailo_be.Store.Statements.{update_outbox}
use kailo_be.Settlement.Worker.{Network, submission_confirmed}
use kailo_be.System.{create_a_sale, scan_the_deposits, perform_all}
use kailo_be.System.Tests.{empty}

abbrev repository : OfframpRepository
repository = record { deposit_account = "GD"; network = "stellar_testnet" }

abbrev seller : OrderPrincipal
seller = record { kind = api_client; client_id = "c"; owner_user_id = "u"; session_id = "" }

abbrev sale_quote : Quote
sale_quote = record {
  fiat_amount = pos 40_000;
  asset_amount = pos 100_000_000;
  rate = codes "4000";
  adjusted_rate = codes "3960";
  spread_bps = pos 100;
  source_at = 90;
  expires_at = 500;
}

abbrev sale : OfframpCreateRecord
sale = record {
  order_id = "o1";
  principal = seller;
  wallet_account = "";
  quote_id = "";
  idempotency_key_hash = "k1";
  request_hash = "r";
  asset_amount = pos 100_000_000;
  asset_issuer = "GI";
  quote = sale_quote;
  destination_token = "bank";
  memo = "off1";
  expires_at = 500;
  created_at = 100;
}

abbrev payment_of : String → ℕ → ObservedPayment
payment_of hash stroops = record {
  transaction_hash = hash;
  from = "GX";
  to = "GD";
  asset_code = "KXLM";
  asset_issuer = "GI";
  amount = pos stroops;
  memo = "off1";
  ledger_at = 200;
}

abbrev payments : List ObservedPayment
payments = payment_of "h1" 5 ∷ payment_of "h2" 100_000_000 ∷ []

abbrev waiting : Database
waiting = perform_all (create_a_sale repository sale ∷ []) empty

abbrev deposited : Database
deposited = perform_all (scan_the_deposits (λ id. id) 210 "GD" (ok payments) ∷ []) waiting

-- A network that confirms what is submitted.
abbrev network : Network
network = record {
  build = λ t. ok (record { hash = "h3"; envelope = "e" });
  submit = λ b. ok (record { result = submission_confirmed; ledger_at = 220; safe_error = "" });
  find_by_hash =
      λ h. ok (record { result = submission_confirmed; ledger_at = 220; safe_error = "" });
}

abbrev worker : RetireWorker
worker = record { network = some network; legacy_network = none; simulate = false; now = 230 }

abbrev order : OrderView
order =
    offramp_view
      (offramp_order repository sale (record {
        client_id = some "c";
        created_by_user_id = some "u";
        retail_session_id = none;
        retail_user_id = none;
      }))
      waiting

look_for_first_example :
    look_for order "off1" payments no_payment
    ≡ matched_or
        (complaint order (find (carries "off1") payments))
        (find (is_match order "off1") payments)
look_for_first_example = look_for_first order "off1" payments

received_exactly_example :
    ((commit (record_asset_received "o1" (payment_of "h2" 100_000_000) 210) waiting).1 ≡ waiting)
    ⊎ IsExpected "o1" (payment_of "h2" 100_000_000) waiting
received_exactly_example = received_exactly "o1" (payment_of "h2" 100_000_000) 210 waiting

submission_needs_hash_example :
    (run_retirement (muted worker) "stellar-retire-o1" deposited
      ≡ run_retirement worker "stellar-retire-o1" deposited)
    ⊎ IsSaved worker "stellar-retire-o1" deposited
submission_needs_hash_example = submission_needs_hash worker "stellar-retire-o1" deposited

-- A digest that is long enough.
abbrev digest : Bytes → Bytes
digest id = replicate 32 7

abbrev lower : Bytes
lower = codes "550e8400-e29b-41d4-a716-446655440000"

abbrev upper : Bytes
upper = codes "550E8400E29B41D4A716446655440000"

abbrev id_payload : Bytes
id_payload = 85 ∷ 14 ∷ 132 ∷ 0 ∷ 226 ∷ 155 ∷ 65 ∷ 212 ∷ 167 ∷ 22 ∷ 68 ∷ 102 ∷ 85 ∷ 68 ∷ 0 ∷ 0 ∷ []

memo_fits_example : length (offramp_deposit_memo digest lower) ≤ stellar_text_memo_max_bytes
memo_fits_example = memo_fits digest lower

memo_injective_example : id_payload ≡ id_payload
unfolding offramp_deposit_memo decode_hex encode_base64
memo_injective_example =
    memo_injective digest lower upper id_payload id_payload (refl) (refl) refl refl refl

-- Two deadlocks before an attempt that is left alone.
abbrev conflicts : Attempts
conflicts = record {
  interrupted =
      λ attempt. if ltb attempt 2 then some (wrapped "locking order" (pg "40P01")) else none;
  is_done = λ attempt. false;
  is_done_waiting = λ attempt. false;
}

abbrev finishing : Tx (Unit {0})
finishing = finish_outbox "stellar.retire.v1" "stellar-retire-o1" 300

retry_atomic_example :
    (((tx_do conflicts finishing waiting).1 ≡ waiting)
      × ((tx_do conflicts finishing waiting).0 ≢ ok tt))
    ⊎ ((after : Database) × (finishing waiting ≡ ok (tt, after))
        × (tx_do conflicts finishing waiting ≡ (ok tt, after)))
retry_atomic_example = retry_atomic conflicts finishing waiting

conflict : (attempt : ℕ) → attempt < 2 → IsConflict conflicts attempt
unfolding is_transient_lock_error
conflict attempt h = record {
  by = wrapped "locking order" (pg "40P01");
  interrupts = ground arith;
  transient = refl;
  goes_on = refl;
  goes_on_waiting = refl;
}

retry_commits_example : tx_do conflicts finishing waiting ≡ (ok tt, (commit finishing waiting).1)
unfolding finish_outbox update_outbox modify is_transient_lock_error
retry_commits_example =
    retry_commits conflicts finishing waiting ((commit finishing waiting).1) 2 (omega arith)
      conflict refl refl
