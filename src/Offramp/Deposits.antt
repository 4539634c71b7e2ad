-- ===== src/Offramp/Deposits.antt =====
-- The deposits of internal/repository/offramp_repository.go: `FindDepositCandidates`,
-- `ExpirePendingDeposits`, `RecordAssetReceived` and `RecordAssetInvalid`.
use kailo_be.Prelude.{
  ℕ, ◌+◌, String, str_append, Bool, true, false, ◌&&◌, ◌||◌, not, Option, none, some, List, [], ◌∷◌,
  map, str_eq, ltb, leb, ◌==◌, find,
}
use kailo_be.Prelude.Int.{ℤ, eq_ℤ}
use kailo_be.Prelude.Errors.{Error, invalid_order_state, text, wrapped}
use kailo_be.Prelude.Text.{str_take}
use kailo_be.Prelude.Time.{Instant, is_zero}
use kailo_be.Order.{
  OrderStatus, asset_pending, asset_received, asset_invalid, retirement_processing,
  withdrawal_processing, completed, expired, status_eq,
}
use kailo_be.Store.{Database, Tx, pure, raise_if, gets, found, wrapping, new_id, ◌>>=◌, ◌>>◌}
use kailo_be.Store.Rows.{OrderRecord, StellarTransaction, pending, confirmed}
use kailo_be.Store.Views.{OrderView}
use kailo_be.Store.Table.{col_eq, affected}
use kailo_be.Store.Statements.{create_stellar_transaction, create_outbox_message, update_orders}
use kailo_be.Events.{base_order_view}
use kailo_be.Events.Append.{append_order_event, new_job}
use kailo_be.Store.Queries.{sorted, filter, take}
use kailo_be.Onramp.Views.{offramp_part}
use kailo_be.Onramp.Checkouts.{lock_order, same_version}

-- `ObservedPayment`.
pub record ObservedPayment : Type 0 where
  pub transaction_hash : String
  pub from : String
  pub to : String
  pub asset_code : String
  pub asset_issuer : String
  pub amount : ℤ
  pub memo : String
  pub ledger_at : Instant

-- `orderView` of the off-ramp repository.
abbrev pub offramp_view : OrderRecord → Database → OrderView
offramp_view order db = offramp_part order db (base_order_view order)

-- `expires_at IS NULL OR expires_at > now`, and its negation for a column that is there.
abbrev pub is_running : Option Instant → Instant → Bool
is_running none now = true
is_running (some t) now = ltb now t

abbrev pub has_expired : Option Instant → Instant → Bool
has_expired none now = false
has_expired (some t) now = leb t now

abbrev pub is_candidate : String → Instant → OrderRecord → Bool
is_candidate deposit_account now o =
    str_eq o.direction "offramp"
    && status_eq o.status asset_pending
    && col_eq o.stellar_source deposit_account
    && is_running o.expires_at now

abbrev pub older_order : OrderRecord → OrderRecord → Bool
older_order a b = ltb a.created_at b.created_at

-- `FindDepositCandidates`.
unfoldable pub find_deposit_candidates : String → Instant → ℕ → Database → List OrderView
find_deposit_candidates deposit_account now limit db =
    map (λ o. offramp_view o db)
      (take limit (sorted older_order (filter (is_candidate deposit_account now) db.orders)))

abbrev pub is_overdue : Instant → OrderRecord → Bool
is_overdue now o =
    str_eq o.direction "offramp" && status_eq o.status asset_pending && has_expired o.expires_at now

-- `ORDER BY expires_at`, which is there on every row that is overdue.
abbrev pub expiry : Option Instant → Instant
expiry none = 0
expiry (some t) = t

abbrev pub expires_before : OrderRecord → OrderRecord → Bool
expires_before a b = ltb (expiry a.expires_at) (expiry b.expires_at)

abbrev pub overdue_batch : Instant → ℕ → Database → List OrderRecord
overdue_batch now limit db = take limit (sorted expires_before (filter (is_overdue now) db.orders))

abbrev pub still_pending : OrderRecord → OrderRecord → Bool
still_pending order o = same_version order o && status_eq o.status asset_pending

-- The turn of one order.
unfoldable pub expire_deposit : OrderRecord → Instant → Tx (Unit {0})
expire_deposit order now = do
  n ← gets (λ db. affected (still_pending order) db.orders)
  update_orders (still_pending order)
      (λ o. record o { status = expired; version = order.version + 1; updated_at = now })
  raise_if (not (n == 1))
      (wrapped (str_append "expiring off-ramp order " order.id) invalid_order_state)
  append_order_event order.id (order.version + 1) "order.expired" (some order.status) (some expired)
      now

abbrev pub expire_deposits : List OrderRecord → Instant → Tx ℕ
expire_deposits [] now = pure 0
expire_deposits (order ∷ rest) now = do
  expire_deposit order now
  n ← expire_deposits rest now
  pure (1 + n)

-- `ExpirePendingDeposits`; a limit of 0 stands for those that are not positive.
unfoldable pub expire_pending_deposits : Instant → ℕ → Tx ℕ
expire_pending_deposits now limit = do
  batch ← gets (overdue_batch now limit)
  expire_deposits batch now

abbrev pub invalid_deposit_payment : Error
invalid_deposit_payment = text "invalid off-ramp deposit payment"

-- `validateObservedDeposit`, for an order that has a source and a memo.
abbrev pub differs : OrderRecord → ObservedPayment → String → String → Bool
differs order payment source memo =
    not (str_eq order.direction "offramp")
    || str_eq payment.transaction_hash ""
    || not (str_eq payment.to source)
    || not (str_eq payment.asset_code order.asset_code)
    || not (str_eq payment.asset_issuer order.asset_issuer)
    || not (eq_ℤ payment.amount order.asset_amount_stroops)
    || not (str_eq payment.memo memo)
    || is_zero payment.ledger_at

abbrev pub is_invalid_deposit : OrderRecord → ObservedPayment → Option String → Option String → Bool
is_invalid_deposit order payment (some source) (some memo) = differs order payment source memo
is_invalid_deposit order payment _ _ = true

abbrev pub validate_observed_deposit : OrderRecord → ObservedPayment → Tx (Unit {0})
validate_observed_deposit order payment =
    raise_if (is_invalid_deposit order payment order.stellar_source order.stellar_memo)
      invalid_deposit_payment

abbrev pub deposit_row : String → OrderRecord → ObservedPayment → Instant → StellarTransaction
deposit_row id order payment now = record {
  id = id;
  order_id = order.id;
  intent_id = str_append "stellar-offramp-deposit-" (str_take 24 payment.transaction_hash);
  purpose = "deposit";
  network = order.network;
  asset_code = order.asset_code;
  asset_issuer = order.asset_issuer;
  amount = order.asset_amount;
  source = some payment.from;
  destination = order.stellar_source;
  memo = order.stellar_memo;
  transaction_hash = some payment.transaction_hash;
  status = confirmed;
  attempt_count = 1;
  ledger_at = some payment.ledger_at;
  last_error = none;
  created_at = now;
  updated_at = now;
}

abbrev pub retirement_id_of : String → String
retirement_id_of order_id = str_append "stellar-retire-" order_id

abbrev pub retirement_row : String → OrderRecord → Instant → StellarTransaction
retirement_row id order now = record {
  id = id;
  order_id = order.id;
  intent_id = retirement_id_of order.id;
  purpose = "retirement";
  network = order.network;
  asset_code = order.asset_code;
  asset_issuer = order.asset_issuer;
  amount = order.asset_amount;
  source = some order.asset_issuer;
  destination = order.stellar_source;
  memo = order.stellar_memo;
  transaction_hash = none;
  status = pending;
  attempt_count = 0;
  ledger_at = none;
  last_error = none;
  created_at = now;
  updated_at = now;
}

abbrev pub retire_topic : String
retire_topic = "stellar.retire_offramp"

-- The deposit is recorded and its retirement queued.
unfoldable pub accept_deposit : OrderRecord → ObservedPayment → Instant → Tx (Unit {0})
accept_deposit order payment now = do
  deposit_id ← new_id
  wrapping "recording deposit transaction"
      (create_stellar_transaction (deposit_row deposit_id order payment now))
  update_orders (same_version order)
      (λ o. record o { status = asset_received; version = order.version + 1; updated_at = now })
  append_order_event order.id (order.version + 1) "asset.received" (some order.status)
      (some asset_received) now
  retirement_id ← new_id
  wrapping "creating retirement intent"
      (create_stellar_transaction (retirement_row retirement_id order now))
  outbox_id ← new_id
  wrapping "creating retirement outbox message" (
      create_outbox_message (
        new_job outbox_id retire_topic "order" order.id
          (record { order_id = ""; intent_id = retirement_id_of order.id; event_id = "" }) now))
  update_orders (λ o. str_eq o.id order.id && o.version == order.version + 1)
      (λ o. record o {
        status = retirement_processing;
        version = order.version + 2;
        updated_at = now;
      })
  append_order_event order.id (order.version + 2) "retirement.requested" (some asset_received)
      (some retirement_processing) now

-- An order whose deposit was recorded by a previous scan.
abbrev pub is_received : OrderStatus → Bool
is_received s =
    status_eq s asset_received
    || status_eq s retirement_processing
    || status_eq s withdrawal_processing
    || status_eq s completed

abbrev pub accept_unless : Bool → OrderRecord → ObservedPayment → Instant → Tx (Unit {0})
accept_unless true order payment now = pure tt
accept_unless false order payment now = do
  raise_if (not (status_eq order.status asset_pending)) invalid_order_state
  validate_observed_deposit order payment
  accept_deposit order payment now

-- `RecordAssetReceived`.
unfoldable pub record_asset_received : String → ObservedPayment → Instant → Tx (Unit {0})
record_asset_received order_id payment now = do
  order ← lock_order "locking off-ramp order" order_id
  accept_unless (is_received order.status) order payment now

abbrev pub find_pending : String → Database → Option OrderRecord
find_pending order_id db =
    find (λ (o : OrderRecord). str_eq o.id order_id && status_eq o.status asset_pending) db.orders

-- `RecordAssetInvalid`; neither the hash nor the reason is stored.
unfoldable pub record_asset_invalid : String → Instant → Tx (Unit {0})
record_asset_invalid order_id now = do
  order ← found invalid_order_state (← gets (find_pending order_id))
  update_orders (same_version order) (λ o. record o {
    status = asset_invalid;
    failure_code = some "deposit_mismatch";
    failure_stage = some "deposit";
    failure_retryable = some false;
    version = order.version + 1;
    updated_at = now;
  })
  append_order_event order.id (order.version + 1) "asset.invalid" (some order.status)
      (some asset_invalid) now
