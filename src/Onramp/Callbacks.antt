-- ===== src/Onramp/Callbacks.antt =====
-- `Process` of internal/usecase/onramp_callback_usecase.go: a payment callback is recorded, checked
-- against what the gateway says of the payment, and confirmed. The gateway and the digest of the
-- callback's text are parameters.
use kailo_be.Prelude.{String, Bool, true, false, ◌&&◌, ◌||◌, not, some, str_eq}
use kailo_be.Prelude.Int.{ℤ, eq_ℤ}
use kailo_be.Prelude.Errors.{payment_mismatch, wrapped, Result, ok, err}
use kailo_be.Prelude.Time.{Instant}
use kailo_be.Store.{Database, commit}
use kailo_be.Store.Calls.{Call, ignoring, checking, returning}
use kailo_be.Onramp.Payments.{
  CallbackReceipt, ExpectedPayment, record_callback_receipt, expected_payment,
  confirm_payment_and_enqueue, complete_callback,
}

pub record Callback : Type 0 where
  pub event_id : String
  pub event_type : String
  pub checkout_id : String

pub record PaymentState : Type 0 where
  pub provider_id : String
  pub reference_id : String
  pub status : String
  pub currency : String
  pub amount : ℤ
  pub channel : String

pub record CallbackGateway : Type 0 where
  pub verify_callback : String → String → Result Callback
  pub get_payment_state : String → Result PaymentState

abbrev pub is_valid_event : Callback → PaymentState → Bool
is_valid_event callback actual =
    str_eq callback.event_type "payment.capture" && str_eq actual.status "SUCCEEDED"
    || str_eq callback.event_type "payment_session.completed" && str_eq actual.status "COMPLETED"

abbrev pub is_mismatch : Callback → ExpectedPayment → PaymentState → Bool
is_mismatch callback expected actual =
    not (is_valid_event callback actual)
    || not (str_eq actual.provider_id expected.provider_id)
    || not (str_eq actual.reference_id expected.order_id)
    || not (str_eq actual.currency expected.currency)
    || not (eq_ℤ actual.amount expected.amount)
    || not (str_eq expected.channel "") && not (str_eq actual.channel expected.channel)

abbrev pub receipt_of : Callback → String → CallbackReceipt
receipt_of callback payload_hash = record {
  event_id = callback.event_id;
  event_type = callback.event_type;
  checkout_id = callback.checkout_id;
  payload_hash = payload_hash;
}

module _ (gateway : CallbackGateway) (digest : String → String) (now : Instant) where
  abbrev pub decide_payment : Bool → Callback → ExpectedPayment → Call
  decide_payment true callback expected =
      ignoring (complete_callback callback.event_id "mismatched" now)
        (returning (err payment_mismatch))
  decide_payment false callback expected =
      checking (some "confirming payment")
        (confirm_payment_and_enqueue expected.order_id callback.event_id now)
        (commit (complete_callback callback.event_id "processed" now))

  -- The rest of `Process`, after the answer of `GetPaymentState`.
  abbrev pub after_state : Callback → ExpectedPayment → Result PaymentState → Call
  after_state callback expected (err e) = returning (err (wrapped "reconciling payment request" e))
  after_state callback expected (ok actual) =
      decide_payment (is_mismatch callback expected actual) callback expected

  -- The rest of `Process`, after the answer of `ExpectedPayment`.
  abbrev pub after_expected : Callback → Result ExpectedPayment → Call
  after_expected callback (err e) =
      ignoring (complete_callback callback.event_id "unmatched" now)
        (returning (err (wrapped "finding expected payment" e)))
  after_expected callback (ok expected) =
      after_state callback expected (gateway.get_payment_state callback.checkout_id)

  -- The rest of `Process`, after the answer of `RecordCallbackReceipt`.
  abbrev pub after_receipt : Callback → Result Bool × Database → Result (Unit {0}) × Database
  after_receipt callback (err e, same) = (err (wrapped "recording callback receipt" e), same)
  after_receipt callback (ok true, after) = (ok tt, after)
  after_receipt callback (ok false, after) =
      after_expected callback (expected_payment callback.checkout_id after) after

  -- The rest of `Process`, after the answer of `VerifyCallback`.
  abbrev pub after_verify : String → Result Callback → Call
  after_verify raw (err e) db = (err e, db)
  after_verify raw (ok callback) db =
      after_receipt callback (
        commit (record_callback_receipt (receipt_of callback (digest raw)) now (λ other. other)) db)

  -- `Process`.
  unfoldable pub process : String → String → Call
  process raw token = after_verify raw (gateway.verify_callback raw token)
