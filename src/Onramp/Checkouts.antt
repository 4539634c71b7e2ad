-- ===== src/Onramp/Checkouts.antt =====
-- The outcomes of asking the gateway for a checkout: `AttachCheckout`, `FailCheckout` (with
-- `releaseFailedOrder`) and `MarkCheckoutUnknown` of internal/repository/onramp_repository.go.
-- `now` is what `time.Now` gives.
use kailo_be.Prelude.{
  ◌+◌, String, Bool, true, false, ◌&&◌, not, Option, none, some, find, str_eq, ◌==◌, if◌then◌else◌,
}
use kailo_be.Prelude.Errors.{invalid_order_state, record_not_found, Result, ok, err}
use kailo_be.Prelude.Time.{Instant}
use kailo_be.Order.{OrderStatus, created, payment_pending, payment_failed, status_eq}
use kailo_be.Store.{Database, Tx, raise_if, gets, found, wrapping, commit, new_id, ◌>>=◌, ◌>>◌}
use kailo_be.Store.Rows.{
  OrderRecord, TreasuryReservation, ReservationStatus, reserved, released, PaymentCheckout,
}
use kailo_be.Store.Views.{Checkout, OrderView}
use kailo_be.Store.Table.{col_eq}
use kailo_be.Store.Statements.{
  create_checkout, update_orders, update_reservations, update_idempotency, unreserve,
}
use kailo_be.Events.Append.{find_order, append_order_event}
use kailo_be.Onramp.{onramp_create_operation}
use kailo_be.Onramp.Views.{order_view}

-- The row of an order, under its lock.
abbrev pub lock_order : String → String → Tx OrderRecord
lock_order message order_id =
    gets (find_order order_id) >>= λ row. wrapping message (found record_not_found row)

-- `WHERE id = ? AND version = ?`.
abbrev pub same_version : OrderRecord → OrderRecord → Bool
same_version order o = str_eq o.id order.id && o.version == order.version

abbrev pub checkout_row : String → OrderRecord → Checkout → Instant → PaymentCheckout
checkout_row id order checkout now = record {
  id = id;
  order_id = order.id;
  provider = "xendit";
  provider_checkout_id = checkout.provider_id;
  provider_payment_request_id =
      if str_eq checkout.payment_request_id "" then none else some checkout.payment_request_id;
  method = checkout.method;
  currency = "IDR";
  amount_minor = order.fiat_amount_minor;
  status = checkout.status;
  presentation_reference = some checkout.presentation_value;
  expires_at = checkout.expires_at;
  presentation_type = checkout.presentation_type;
  payment_link_url = checkout.payment_link_url;
  created_at = now;
  updated_at = now;
}

-- The transaction of `AttachCheckout`.
unfoldable pub attach : String → Checkout → Instant → Tx (Unit {0})
attach order_id checkout now = do
  order ← lock_order "locking order" order_id
  raise_if (not (status_eq order.status created)) invalid_order_state
  checkout_id ← new_id
  wrapping "creating payment checkout"
      (create_checkout (checkout_row checkout_id order checkout now))
  update_orders (same_version order)
      (λ o. record o { status = payment_pending; version = order.version + 1; updated_at = now })
  append_order_event order.id (order.version + 1) "checkout.created" (some order.status)
      (some payment_pending) now
  update_idempotency
      (λ row.
        col_eq row.created_resource_id order.id && str_eq row.operation onramp_create_operation)
      (λ row. record row { state = "completed"; response_status = some 201; updated_at = now })

-- The view of the order as it is read afterwards.
abbrev pub attached_view : Option OrderRecord → Database → Result OrderView × Database
attached_view none db = (err record_not_found, db)
attached_view (some order) db = (ok (order_view order db), db)

abbrev pub attached : String → Result (Unit {0}) × Database → Result OrderView × Database
attached order_id (err e, db) = (err e, db)
attached order_id (ok u, db) = attached_view (find_order order_id db) db

-- `AttachCheckout`.
unfoldable pub attach_checkout :
    String → Checkout → Instant → Database → Result OrderView × Database
attach_checkout order_id checkout now db =
    attached order_id (commit (attach order_id checkout now) db)

abbrev pub is_reserved : ReservationStatus → Bool
is_reserved reserved = true
is_reserved _ = false

-- The reservation of an order that is still held, under its lock.
abbrev pub find_reserved : String → Database → Option TreasuryReservation
find_reserved order_id db =
    find (λ (r : TreasuryReservation). str_eq r.order_id order_id && is_reserved r.status)
      db.treasury_reservations

-- A reservation that is released, and its amount that goes back to the account.
unfoldable pub release_reservation : TreasuryReservation → Instant → Tx (Unit {0})
release_reservation r now = do
  update_reservations (λ x. str_eq x.id r.id)
      (λ x. record x { status = released; released_at = some now; updated_at = now })
  unreserve r.treasury_id r.amount_stroops

-- `releaseFailedOrder`.
unfoldable pub release_failed_order : String → OrderStatus → String → Instant → Tx (Unit {0})
release_failed_order order_id status code now = do
  order ← lock_order "locking failed order" order_id
  raise_if (not (status_eq order.status created)) invalid_order_state
  reservation ←
      wrapping "locking treasury reservation"
        (found record_not_found (← gets (find_reserved order_id)))
  release_reservation reservation now
  update_orders (same_version order) (λ o. record o {
    status = status;
    failure_code = some code;
    failure_stage = some "payment";
    failure_retryable = some false;
    updated_at = now;
    version = order.version + 1;
  })
  append_order_event order.id (order.version + 1) "checkout.failed" (some order.status)
      (some status) now

-- `FailCheckout`; the reason is not stored.
unfoldable pub fail_checkout : String → Instant → Tx (Unit {0})
fail_checkout order_id now = release_failed_order order_id payment_failed "checkout_failed" now

-- `MarkCheckoutUnknown`.
unfoldable pub mark_checkout_unknown : String → Instant → Tx (Unit {0})
mark_checkout_unknown order_id now =
    update_orders (λ o. str_eq o.id order_id && status_eq o.status created)
      (λ o. record o {
        failure_code = some "checkout_unknown";
        failure_stage = some "payment";
        failure_retryable = some true;
        updated_at = now;
      })
