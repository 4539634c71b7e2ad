-- ===== src/Onramp/Payments.antt =====
-- Payment callbacks: `RecordCallbackReceipt`, `ExpectedPayment`, `ConfirmPaymentAndEnqueue` and
-- `CompleteCallback` of internal/repository/onramp_repository.go.
use kailo_be.Prelude.{
  ◌+◌, String, Bool, true, false, ◌&&◌, ◌||◌, not, Option, none, some, [], ◌∷◌, ◌++◌, any, find,
  str_eq, str_append, if◌then◌else◌, is_some,
}
use kailo_be.Prelude.Int.{ℤ}
use kailo_be.Prelude.Errors.{
  invalid_order_state, payment_mismatch, order_not_found, record_not_found, wrapped, Result, ok,
  err,
}
use kailo_be.Prelude.Time.{Instant}
use kailo_be.Order.{
  OrderStatus, payment_pending, payment_confirmed, stellar_processing, completed, status_eq,
}
use kailo_be.Store.{
  Database, Tx, pure, raise_if, gets, found, wrapping, modify, new_id, ◌>>=◌, ◌>>◌,
}
use kailo_be.Store.Rows.{
  PaymentMethod, bri_va, xendit, OrderRecord, PaymentCheckout, GatewayEvent, StellarTransaction,
  pending,
}
use kailo_be.Store.Table.{col_eq}
use kailo_be.Store.Statements.{
  create_stellar_transaction, create_outbox_message, update_orders, update_gateway_events,
}
use kailo_be.Events.Append.{find_order, append_order_event, new_job}
use kailo_be.Store.Queries.{before, sorted, head, filter}
use kailo_be.Onramp.Checkouts.{lock_order, same_version}

pub record CallbackReceipt : Type 0 where
  pub event_id : String
  pub event_type : String
  pub checkout_id : String
  pub payload_hash : String

pub record ExpectedPayment : Type 0 where
  pub order_id : String
  pub provider_id : String
  pub amount : ℤ
  pub currency : String
  pub channel : String
  pub asset_amount : ℤ

abbrev pub is_receipt : String → GatewayEvent → Bool
is_receipt event_id g = str_eq g.provider "xendit" && str_eq g.provider_event_id event_id

abbrev pub find_receipt : String → Database → Option GatewayEvent
find_receipt event_id db = find (is_receipt event_id) db.gateway_events

-- A receipt that is there already: true is one that was processed.
abbrev pub seen_receipt : CallbackReceipt → GatewayEvent → Tx Bool
seen_receipt receipt existing =
    raise_if (not (str_eq existing.payload_hash receipt.payload_hash)) payment_mismatch >>= λ _.
    pure (is_some existing.processed_at)

abbrev pub receipt_row : String → CallbackReceipt → Instant → GatewayEvent
receipt_row id receipt now = record {
  id = id;
  provider = "xendit";
  provider_event_id = receipt.event_id;
  event_type = receipt.event_type;
  checkout_reference = some receipt.checkout_id;
  order_reference = none;
  payload_hash = receipt.payload_hash;
  signature_verified = true;
  matching_result = "pending";
  received_at = now;
  processed_at = none;
  processing_status = "received";
}

-- `INSERT ... ON CONFLICT DO NOTHING`, and the look at the row that was in its way.
abbrev pub insert_unless : Bool → CallbackReceipt → GatewayEvent → Tx Bool
insert_unless false receipt row =
    modify (λ db. record db { gateway_events = db.gateway_events ++ row ∷ [] }) >> pure false
insert_unless true receipt row = do
  existing ←
      wrapping "finding concurrent callback receipt"
        (found record_not_found (← gets (find_receipt receipt.event_id)))
  seen_receipt receipt existing

abbrev pub in_the_way : GatewayEvent → Database → Bool
in_the_way row db =
    any (λ g. str_eq g.id row.id || is_receipt row.provider_event_id g) db.gateway_events

abbrev pub insert_receipt : CallbackReceipt → GatewayEvent → Tx Bool
insert_receipt receipt row = gets (in_the_way row) >>= λ taken. insert_unless taken receipt row

abbrev pub record_new :
    CallbackReceipt → Instant → (Database → Database) → Option GatewayEvent → Tx Bool
record_new receipt now others (some existing) = seen_receipt receipt existing
record_new receipt now others none = do
  modify others
  id ← new_id
  insert_receipt receipt (receipt_row id receipt now)

-- `RecordCallbackReceipt`; `others` is what other connections do between its two statements.
unfoldable pub record_callback_receipt : CallbackReceipt → Instant → (Database → Database) → Tx Bool
record_callback_receipt receipt now others =
    gets (find_receipt receipt.event_id) >>= record_new receipt now others

abbrev pub channel_of : PaymentMethod → String
channel_of bri_va = "BRI_VIRTUAL_ACCOUNT"
channel_of xendit = ""
channel_of _ = "QRIS"

-- A checkout that answers to a provider's id.
abbrev pub has_provider_id : String → PaymentCheckout → Bool
has_provider_id id c =
    str_eq c.provider "xendit"
    && (str_eq c.provider_checkout_id id || col_eq c.provider_payment_request_id id)

abbrev pub find_expected : String → Database → Option PaymentCheckout
find_expected id db =
    head (sorted (λ a b. before a.id b.id) (filter (has_provider_id id) db.payment_checkouts))

abbrev pub expected_of : String → PaymentCheckout → Option OrderRecord → Result ExpectedPayment
expected_of id c none = err (wrapped "finding expected order" record_not_found)
expected_of id c (some order) = ok (record {
  order_id = order.id;
  provider_id = id;
  amount = c.amount_minor;
  currency = c.currency;
  channel = channel_of c.method;
  asset_amount = order.asset_amount_stroops;
})

-- `ExpectedPayment`.
unfoldable pub expected_payment : String → Database → Result ExpectedPayment
expected_payment id db = elim (find_expected id db) [
  | none ↦ err order_not_found
  | some c ↦ expected_of id c (find_order c.order_id db)
]

abbrev pub intent_id_of : String → String
intent_id_of order_id = str_append "stellar-onramp-" order_id

abbrev pub settlement_intent : String → OrderRecord → Instant → StellarTransaction
settlement_intent id order now = record {
  id = id;
  order_id = order.id;
  intent_id = intent_id_of order.id;
  purpose = "transfer";
  network = order.network;
  asset_code = order.asset_code;
  asset_issuer = order.asset_issuer;
  amount = order.asset_amount;
  source = order.stellar_source;
  destination = order.stellar_destination;
  memo = order.stellar_memo;
  transaction_hash = none;
  status = pending;
  attempt_count = 0;
  ledger_at = none;
  last_error = none;
  created_at = now;
  updated_at = now;
}

-- The part of the confirmation for an order that waits for its payment.
unfoldable pub enqueue_settlement : OrderRecord → String → Instant → Tx (Unit {0})
enqueue_settlement order event_id now = do
  update_orders (same_version order)
      (λ o. record o { status = stellar_processing; version = order.version + 2; updated_at = now })
  append_order_event order.id (order.version + 1) "payment.confirmed" (some order.status)
      (some payment_confirmed) now
  append_order_event order.id (order.version + 2) "stellar.transfer_requested"
      (some payment_confirmed) (some stellar_processing) now
  intent_row_id ← new_id
  wrapping "creating settlement intent"
      (create_stellar_transaction (settlement_intent intent_row_id order now))
  outbox_id ← new_id
  wrapping "creating settlement outbox message" (
      create_outbox_message (
        new_job outbox_id "stellar.settle_onramp" "order" order.id
          (record { order_id = order.id; intent_id = intent_id_of order.id; event_id = "" }) now))
  update_gateway_events (is_receipt event_id) (λ g. record g {
    order_reference = some order.id;
    matching_result = "matched";
    processing_status = "processing";
  })

-- An order whose settlement has begun is confirmed already.
abbrev pub is_settling : OrderStatus → Bool
is_settling s = status_eq s stellar_processing || status_eq s completed

abbrev pub confirm_order : Bool → OrderRecord → String → Instant → Tx (Unit {0})
confirm_order true order event_id now = pure tt
confirm_order false order event_id now = do
  raise_if (not (status_eq order.status payment_pending)) invalid_order_state
  enqueue_settlement order event_id now

-- `ConfirmPaymentAndEnqueue`, for the order and the event of the confirmation.
unfoldable pub confirm_payment_and_enqueue : String → String → Instant → Tx (Unit {0})
confirm_payment_and_enqueue order_id event_id now = do
  order ← lock_order "locking paid order" order_id
  confirm_order (is_settling order.status) order event_id now

-- `CompleteCallback`.
unfoldable pub complete_callback : String → String → Instant → Tx (Unit {0})
complete_callback event_id result now = update_gateway_events (is_receipt event_id) (λ g. record g {
  matching_result = result;
  processing_status = if str_eq result "processed" then "processed" else "rejected";
  processed_at = some now;
})
