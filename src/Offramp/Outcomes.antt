-- ===== src/Offramp/Outcomes.antt =====
-- The end of a retirement in internal/repository/offramp_repository.go: `SimulateRetirement`,
-- `ConfirmRetirement` and `FailRetirement`.
use kailo_be.Prelude.{
  ◌+◌, String, Bool, true, false, ◌&&◌, ◌||◌, not, Option, none, some, find, str_eq, ◌==◌,
}
use kailo_be.Prelude.Errors.{invalid_order_state, text, record_not_found}
use kailo_be.Prelude.Time.{Instant}
use kailo_be.Order.{
  OrderStatus, retirement_processing, withdrawal_processing, retirement_failed, completed,
  status_eq,
}
use kailo_be.Store.{Tx, pure, raise_if, gets, found, wrapping, new_id, ◌>>=◌, ◌>>◌}
use kailo_be.Store.Rows.{OrderRecord, StellarTransaction, simulated, confirmed, failed}
use kailo_be.Store.Table.{col_eq, is_null, affected}
use kailo_be.Store.Statements.{
  create_outbox_message, update_orders, update_stellar, update_sep24, update_outbox,
}
use kailo_be.Events.Append.{append_order_event_from_source, new_job}
use kailo_be.Onramp.Checkouts.{lock_order, same_version}
use kailo_be.Settlement.{find_intent, is_open}
use kailo_be.Settlement.Outcomes.{order_row, is_confirmed}
use kailo_be.Offramp.Deposits.{retire_topic}
use kailo_be.Offramp.Retirement.{is_retirement, is_simulated, is_unsubmitted}

-- `enqueueSandboxPayout`.
abbrev pub payout_topic : String
payout_topic = "payout.simulate_offramp"

unfoldable pub enqueue_sandbox_payout : String → Instant → Tx (Unit {0})
enqueue_sandbox_payout order_id now = do
  outbox_id ← wrapping "generating payout outbox id" new_id
  wrapping "creating payout outbox message" (
      create_outbox_message (
        new_job outbox_id payout_topic "order" order_id
          (record { order_id = order_id; intent_id = ""; event_id = "" }) now))

-- The end of a retirement's job, with the error that is kept on it.
abbrev pub finish_retirement : String → Option String → Instant → Tx (Unit {0})
finish_retirement order_id last_error now = update_outbox (is_open retire_topic order_id) (λ m.
    record m {
      processed_at = some now;
      lease_owner = none;
      lease_until = none;
      last_error = last_error;
    })

abbrev pub is_paying : OrderStatus → Bool
is_paying s = status_eq s withdrawal_processing || status_eq s completed

-- A retirement that was simulated before.
abbrev pub simulated_before : StellarTransaction → OrderRecord → Tx (Unit {0})
simulated_before stellar order =
    raise_if
      (not
        (is_null stellar.transaction_hash && is_null stellar.ledger_at && is_paying order.status))
      invalid_order_state

abbrev pub can_simulate : StellarTransaction → StellarTransaction → Bool
can_simulate stellar s = str_eq s.id stellar.id && is_unsubmitted s

abbrev pub still_retiring : OrderRecord → OrderRecord → Bool
still_retiring order o = same_version order o && status_eq o.status retirement_processing

unfoldable pub simulate_new : StellarTransaction → OrderRecord → Instant → Tx (Unit {0})
simulate_new stellar order now = do
  raise_if (not (is_unsubmitted stellar))
      (text "retirement intent cannot be simulated after submission")
  raise_if
      (not (str_eq order.direction "offramp") || not (status_eq order.status retirement_processing))
      invalid_order_state
  n ← gets (λ db. affected (can_simulate stellar) db.stellar_transactions)
  update_stellar (can_simulate stellar)
      (λ s. record s { status = simulated; last_error = none; updated_at = now })
  raise_if (not (n == 1)) invalid_order_state
  k ← gets (λ db. affected (still_retiring order) db.orders)
  update_orders (still_retiring order) (λ o. record o {
    status = withdrawal_processing;
    version = order.version + 1;
    updated_at = now;
  })
  raise_if (not (k == 1)) invalid_order_state
  append_order_event_from_source order.id (order.version + 1) "retirement.simulated"
      (some order.status) (some withdrawal_processing) "worker" now
  finish_retirement order.id none now
  enqueue_sandbox_payout order.id now

abbrev pub simulate_unless : Bool → StellarTransaction → OrderRecord → Instant → Tx (Unit {0})
simulate_unless true stellar order now = simulated_before stellar order
simulate_unless false stellar order now = simulate_new stellar order now

-- `SimulateRetirement`.
unfoldable pub simulate_retirement : String → Instant → Tx (Unit {0})
simulate_retirement intent_id now = do
  row ← gets (λ db. find (is_retirement intent_id) db.stellar_transactions)
  stellar ← wrapping "locking retirement intent" (found record_not_found row)
  order ← lock_order "locking retirement order" stellar.order_id
  simulate_unless (is_simulated stellar.status) stellar order now

-- The part of `ConfirmRetirement` for an intent that is not confirmed yet.
unfoldable pub confirm_new : StellarTransaction → String → Instant → Instant → Tx (Unit {0})
confirm_new stellar hash ledger_at now = do
  raise_if (not (col_eq stellar.transaction_hash hash)) (text "retirement hash mismatch")
  update_stellar (λ s. str_eq s.id stellar.id)
      (λ s. record s { status = confirmed; ledger_at = some ledger_at; updated_at = now })
  wrapping "recording SEP-24 retirement transaction" (
      update_sep24 (λ t. str_eq t.order_id stellar.order_id)
        (λ t. record t { stellar_transaction_id = some hash }))
  order ← order_row stellar.order_id
  raise_if (not (status_eq order.status retirement_processing)) invalid_order_state
  update_orders (same_version order) (λ o. record o {
    status = withdrawal_processing;
    version = order.version + 1;
    updated_at = now;
  })
  append_order_event_from_source order.id (order.version + 1) "retirement.confirmed"
      (some order.status) (some withdrawal_processing) "worker" now
  finish_retirement order.id none now
  enqueue_sandbox_payout order.id now

abbrev pub confirm_new_unless :
    Bool → StellarTransaction → String → Instant → Instant → Tx (Unit {0})
confirm_new_unless true stellar hash ledger_at now = pure tt
confirm_new_unless false stellar hash ledger_at now = confirm_new stellar hash ledger_at now

-- `ConfirmRetirement`.
unfoldable pub confirm_retirement : String → String → Instant → Instant → Tx (Unit {0})
confirm_retirement intent_id hash ledger_at now = do
  stellar ← found record_not_found (← gets (find_intent intent_id))
  confirm_new_unless (is_confirmed stellar.status) stellar hash ledger_at now

-- `FailRetirement`.
unfoldable pub fail_retirement : String → String → Instant → Tx (Unit {0})
fail_retirement intent_id safe_error now = do
  stellar ← found record_not_found (← gets (find_intent intent_id))
  order ← order_row stellar.order_id
  raise_if (not (status_eq order.status retirement_processing)) invalid_order_state
  update_stellar (λ s. str_eq s.id stellar.id)
      (λ s. record s { status = failed; last_error = some safe_error; updated_at = now })
  update_orders (same_version order) (λ o. record o {
    status = retirement_failed;
    failure_code = some "retirement_failed";
    failure_stage = some "stellar";
    failure_retryable = some false;
    version = order.version + 1;
    updated_at = now;
  })
  append_order_event_from_source order.id (order.version + 1) "retirement.failed"
      (some order.status) (some retirement_failed) "worker" now
  finish_retirement order.id (some safe_error) now
