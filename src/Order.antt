-- ===== src/Order.antt =====
-- internal/entity/order.go: the order aggregate and its status transitions. Go's `int` version is
-- a number here, since no code lowers it.
pub mod Diagram
pub mod Lifecycle
mod Tests
use kailo_be.Prelude.{
  ℕ, ◌+◌, Bool, true, false, ◌||◌, Option, none, some, if◌then◌else◌, ◌==◌, ◌≡◌, arith,
}
use kailo_be.Prelude.Errors.{Error, invalid_order_state}

pub data OrderStatus : Type 0 where
  unknown : OrderStatus
  created : OrderStatus
  payment_pending : OrderStatus
  payment_confirmed : OrderStatus
  stellar_processing : OrderStatus
  completed : OrderStatus
  expired : OrderStatus
  payment_failed : OrderStatus
  stellar_failed : OrderStatus
  cancelled : OrderStatus
  asset_pending : OrderStatus
  asset_received : OrderStatus
  asset_invalid : OrderStatus
  retirement_processing : OrderStatus
  withdrawal_processing : OrderStatus
  retirement_failed : OrderStatus
  withdrawal_failed : OrderStatus

abbrev pub status_index : OrderStatus → ℕ
status_index unknown = 0
status_index created = 1
status_index payment_pending = 2
status_index payment_confirmed = 3
status_index stellar_processing = 4
status_index completed = 5
status_index expired = 6
status_index payment_failed = 7
status_index stellar_failed = 8
status_index cancelled = 9
status_index asset_pending = 10
status_index asset_received = 11
status_index asset_invalid = 12
status_index retirement_processing = 13
status_index withdrawal_processing = 14
status_index retirement_failed = 15
status_index withdrawal_failed = 16

-- `==` on two status strings.
abbrev pub status_eq : OrderStatus → OrderStatus → Bool
status_eq a b = status_index a == status_index b

pub record Order : Type 0 where
  pub status : OrderStatus
  pub version : ℕ

-- `allowedTransition`: the last clause is the switch's default.
pub allowed_transition : OrderStatus → OrderStatus → Bool
allowed_transition created next =
    status_eq next payment_pending
    || status_eq next asset_pending
    || status_eq next payment_failed
    || status_eq next cancelled
allowed_transition payment_pending next =
    status_eq next payment_confirmed
    || status_eq next expired
    || status_eq next payment_failed
    || status_eq next cancelled
allowed_transition payment_confirmed next = status_eq next stellar_processing
allowed_transition stellar_processing next =
    status_eq next completed || status_eq next stellar_failed
allowed_transition asset_pending next =
    status_eq next asset_received
    || status_eq next expired
    || status_eq next asset_invalid
    || status_eq next cancelled
allowed_transition asset_received next = status_eq next retirement_processing
allowed_transition retirement_processing next =
    status_eq next withdrawal_processing || status_eq next retirement_failed
allowed_transition withdrawal_processing next =
    status_eq next completed || status_eq next withdrawal_failed
allowed_transition _ next = false

-- `Order.Transition`: the order afterwards, and the error if there is one.
unfoldable pub transition : Order → OrderStatus → Order × Option Error
unfolding allowed_transition
transition order next =
    if allowed_transition order.status next
    then (record order { status = next; version = order.version + 1 }, none)
    else (order, some invalid_order_state)
