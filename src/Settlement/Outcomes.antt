-- ===== src/Settlement/Outcomes.antt =====
-- The end of a settlement: `Confirm` and `FailPermanent` of
-- internal/repository/settlement_repository.go.
use kailo_be.Prelude.{◌+◌, String, Bool, true, false, not, Option, none, some, find, str_eq}
use kailo_be.Prelude.Errors.{invalid_order_state, record_not_found, text}
use kailo_be.Prelude.Time.{Instant}
use kailo_be.Order.{stellar_processing, completed, stellar_failed, status_eq}
use kailo_be.Store.{Database, Tx, pure, raise_if, gets, found, wrapping, ◌>>=◌, ◌>>◌}
use kailo_be.Store.Rows.{
  OrderRecord, TreasuryReservation, consumed, StellarTransaction, StellarStatus, confirmed, failed,
}
use kailo_be.Store.Table.{col_eq}
use kailo_be.Store.Statements.{
  update_stellar, update_reservations, unreserve, update_orders, update_sep24, update_outbox,
}
use kailo_be.Events.Append.{find_order, append_order_event, append_order_event_from_source}
use kailo_be.Onramp.Checkouts.{same_version, is_reserved}
use kailo_be.Settlement.{settle_topic, find_intent, is_open}

abbrev pub is_confirmed : StellarStatus → Bool
is_confirmed confirmed = true
is_confirmed _ = false

-- A reservation that is still held is consumed, and its amount leaves what is reserved.
unfoldable pub consume_reservation : TreasuryReservation → Instant → Tx (Unit {0})
consume_reservation r now = do
  update_reservations (λ x. str_eq x.id r.id)
      (λ x. record x { status = consumed; consumed_at = some now; updated_at = now })
  unreserve r.treasury_id r.amount_stroops

abbrev pub consume_if : Bool → TreasuryReservation → Instant → Tx (Unit {0})
consume_if true r now = consume_reservation r now
consume_if false r now = pure tt

-- The row of an order, with the plain error of a query that finds none.
abbrev pub order_row : String → Tx OrderRecord
order_row order_id = gets (find_order order_id) >>= λ row. found record_not_found row

abbrev pub find_reservation : String → Database → Option TreasuryReservation
find_reservation order_id db =
    find (λ (r : TreasuryReservation). str_eq r.order_id order_id) db.treasury_reservations

-- The part of `Confirm` for an intent that is not confirmed yet.
unfoldable pub confirm_intent : StellarTransaction → String → Instant → Instant → Tx (Unit {0})
confirm_intent stellar hash ledger_at now = do
  raise_if (not (col_eq stellar.transaction_hash hash)) (text "settlement hash mismatch")
  update_stellar (λ s. str_eq s.id stellar.id)
      (λ s. record s { status = confirmed; ledger_at = some ledger_at; updated_at = now })
  reservation ← found record_not_found (← gets (find_reservation stellar.order_id))
  consume_if (is_reserved reservation.status) reservation now
  order ← order_row stellar.order_id
  raise_if (not (status_eq order.status stellar_processing)) invalid_order_state
  update_orders (λ o. str_eq o.id order.id)
      (λ o. record o {
        status = completed;
        version = order.version + 1;
        completed_at = some now;
        updated_at = now;
      })
  wrapping "recording SEP-24 settlement transaction" (
      update_sep24 (λ t. str_eq t.order_id stellar.order_id)
        (λ t. record t { stellar_transaction_id = some hash }))
  append_order_event_from_source order.id (order.version + 1) "stellar.transfer_confirmed"
      (some order.status) (some completed) "worker" now
  update_outbox (is_open settle_topic order.id) (λ m. record m {
    processed_at = some now;
    lease_owner = none;
    lease_until = none;
    last_error = none;
  })

abbrev pub confirm_unless : Bool → StellarTransaction → String → Instant → Instant → Tx (Unit {0})
confirm_unless true stellar hash ledger_at now = pure tt
confirm_unless false stellar hash ledger_at now = confirm_intent stellar hash ledger_at now

-- `Confirm`.
unfoldable pub confirm : String → String → Instant → Instant → Tx (Unit {0})
confirm intent_id hash ledger_at now = do
  stellar ← found record_not_found (← gets (find_intent intent_id))
  confirm_unless (is_confirmed stellar.status) stellar hash ledger_at now

-- `FailPermanent`: the reservation stays, for an operator.
unfoldable pub fail_permanent : String → String → Instant → Tx (Unit {0})
fail_permanent intent_id safe_error now = do
  stellar ← found record_not_found (← gets (find_intent intent_id))
  order ← order_row stellar.order_id
  raise_if (not (status_eq order.status stellar_processing)) invalid_order_state
  update_stellar (λ s. str_eq s.id stellar.id)
      (λ s. record s { status = failed; last_error = some safe_error; updated_at = now })
  update_orders (same_version order) (λ o. record o {
    status = stellar_failed;
    failure_code = some "stellar_permanent_failure";
    failure_stage = some "stellar";
    failure_retryable = some false;
    version = order.version + 1;
    updated_at = now;
  })
  append_order_event order.id (order.version + 1) "stellar.failed" (some order.status)
      (some stellar_failed) now
  update_outbox (is_open settle_topic stellar.order_id) (λ m. record m {
    processed_at = some now;
    lease_owner = none;
    lease_until = none;
    last_error = some safe_error;
  })
