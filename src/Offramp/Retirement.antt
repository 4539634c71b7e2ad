-- ===== src/Offramp/Retirement.antt =====
-- The intent to retire a deposit in internal/repository/offramp_repository.go: `LoadRetirement`,
-- `SaveRetirementHash`, `ResetRetirementHash` and `RequeueUnsubmittedRetirements`.
use kailo_be.Prelude.{
  ℕ, ◌+◌, String, Bool, true, false, ◌&&◌, not, Option, none, some, any, find, str_eq, leb, ◌==◌,
  if◌then◌else◌,
}
use kailo_be.Prelude.Int.{ℤ}
use kailo_be.Prelude.Errors.{
  Error, invalid_order_state, hash_already_saved, text, record_not_found, wrapped, Result, ok, err,
  ◌>>=◌ as ◌>=>◌,
}
use kailo_be.Prelude.Time.{Instant}
use kailo_be.Order.{retirement_processing, status_eq}
use kailo_be.Store.{Database, Tx, pure, raise_if, gets, wrapping, commit, ◌>>=◌, ◌>>◌}
use kailo_be.Store.Rows.{
  OrderRecord, StellarTransaction, StellarStatus, pending, submitted, simulated, OutboxMessage,
}
use kailo_be.Store.Table.{col_eq, is_null, affected}
use kailo_be.Store.Statements.{duplicate, update_stellar, update_outbox}
use kailo_be.Events.{deref_str}
use kailo_be.Settlement.{parse_stroops, is_intent}
use kailo_be.Offramp.Deposits.{retire_topic}

-- `RetirementIntent`.
pub record RetirementIntent : Type 0 where
  pub intent_id : String
  pub order_id : String
  pub source : String
  pub clawback_from : String
  pub asset_code : String
  pub asset_issuer : String
  pub destination : String
  pub amount : ℤ
  pub memo : String
  pub transaction_hash : String

abbrev pub retirement_of : StellarTransaction → ℤ → RetirementIntent
retirement_of row amount = record {
  intent_id = row.intent_id;
  order_id = row.order_id;
  source = deref_str row.source;
  clawback_from = if str_eq row.asset_issuer "" then "" else deref_str row.destination;
  asset_code = row.asset_code;
  asset_issuer = row.asset_issuer;
  destination = if str_eq row.asset_issuer "" then deref_str row.destination else "";
  amount = amount;
  memo = deref_str row.memo;
  transaction_hash = deref_str row.transaction_hash;
}

abbrev pub is_retirement : String → StellarTransaction → Bool
is_retirement intent_id s = is_intent intent_id s && str_eq s.purpose "retirement"

-- `LoadRetirement`.
unfoldable pub load_retirement : String → Database → Result RetirementIntent
load_retirement intent_id db = elim (find (is_retirement intent_id) db.stellar_transactions) [
  | none ↦ err (wrapped "finding retirement intent" record_not_found)
  | some row ↦ parse_stroops row.amount >=> λ amount. ok (retirement_of row amount)
]

abbrev pub is_pending : StellarStatus → Bool
is_pending pending = true
is_pending _ = false

abbrev pub is_submitted : StellarStatus → Bool
is_submitted submitted = true
is_submitted _ = false

abbrev pub is_simulated : StellarStatus → Bool
is_simulated simulated = true
is_simulated _ = false

-- A retirement that was not submitted: pending, with neither a hash nor a ledger time.
abbrev pub is_unsubmitted : StellarTransaction → Bool
is_unsubmitted s = is_pending s.status && is_null s.transaction_hash && is_null s.ledger_at

abbrev pub can_save : String → StellarTransaction → Bool
can_save intent_id s = is_retirement intent_id s && is_unsubmitted s

-- The result of an update that stands outside a transaction: the error e unless one row was changed.
abbrev pub one_row : Error → Result ℕ × Database → Result (Unit {0}) × Database
one_row e (err x, db) = (err x, db)
one_row e (ok n, db) = (if n == 1 then ok tt else err e, db)

-- The update of `SaveRetirementHash`, whose hash no other row may have.
unfoldable pub save_hash : String → String → Instant → Tx ℕ
save_hash intent_id hash now = do
  n ← gets (λ db. affected (can_save intent_id) db.stellar_transactions)
  taken ← gets (λ db.
      any (λ (s : StellarTransaction). col_eq s.transaction_hash hash) db.stellar_transactions)
  raise_if (not (n == 0) && taken) duplicate
  update_stellar (can_save intent_id) (λ s. record s {
    transaction_hash = some hash;
    status = submitted;
    attempt_count = s.attempt_count + 1;
    updated_at = now;
  })
  pure n

-- `SaveRetirementHash`.
unfoldable pub save_retirement_hash :
    String → String → Instant → Database → Result (Unit {0}) × Database
save_retirement_hash intent_id hash now db =
    one_row hash_already_saved
      (commit (wrapping "saving retirement transaction hash" (save_hash intent_id hash now)) db)

abbrev pub can_reset : String → String → StellarTransaction → Bool
can_reset intent_id hash s =
    is_retirement intent_id s
    && is_submitted s.status
    && col_eq s.transaction_hash hash
    && is_null s.ledger_at

unfoldable pub reset_hash : String → String → String → Instant → Tx ℕ
reset_hash intent_id hash safe_error now = do
  n ← gets (λ db. affected (can_reset intent_id hash) db.stellar_transactions)
  update_stellar (can_reset intent_id hash) (λ s. record s {
    transaction_hash = none;
    status = pending;
    last_error = some safe_error;
    updated_at = now;
  })
  pure n

-- `ResetRetirementHash`.
unfoldable pub reset_retirement_hash :
    String → String → String → Instant → Database → Result (Unit {0}) × Database
reset_retirement_hash intent_id hash safe_error now db =
    one_row invalid_order_state (commit (reset_hash intent_id hash safe_error now) db)

-- The condition of `RequeueUnsubmittedRetirements`.
abbrev pub has_unsubmitted : String → Database → Bool
has_unsubmitted order_id db =
    any
      (λ (s : StellarTransaction).
        str_eq s.order_id order_id && str_eq s.purpose "retirement" && is_unsubmitted s)
      db.stellar_transactions

abbrev pub is_retiring : String → Database → Bool
is_retiring order_id db =
    any
      (λ (o : OrderRecord).
        str_eq o.id order_id
        && str_eq o.direction "offramp"
        && status_eq o.status retirement_processing)
      db.orders

-- `lease_until IS NULL OR lease_until <= now`.
abbrev pub is_free : Option Instant → Instant → Bool
is_free none now = true
is_free (some until) now = leb until now

abbrev pub is_exhausted : Instant → ℕ → Database → OutboxMessage → Bool
is_exhausted now max_attempts db m =
    str_eq m.topic retire_topic
    && is_null m.processed_at
    && leb max_attempts m.attempts
    && is_free m.lease_until now
    && has_unsubmitted m.aggregate_id db
    && is_retiring m.aggregate_id db

-- `RequeueUnsubmittedRetirements`.
unfoldable pub requeue_unsubmitted_retirements : Instant → ℕ → Tx ℕ
requeue_unsubmitted_retirements now max_attempts = do
  raise_if (max_attempts == 0) (text "maximum outbox attempts must be positive")
  test ← gets (is_exhausted now max_attempts)
  n ← gets (λ db. affected test db.outbox_messages)
  update_outbox test (λ m. record m {
    attempts = 0;
    available_at = now;
    lease_owner = none;
    lease_until = none;
    last_error = none;
  })
  pure n
