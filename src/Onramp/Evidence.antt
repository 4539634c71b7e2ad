-- ===== src/Onramp/Evidence.antt =====
-- What `Process` of internal/usecase/onramp_callback_usecase.go needs before it moves an order.
use kailo_be.Prelude.{
  ◌≡◌, refl, sym, ap, ◌⊎◌, inl, inr, arith, eq_iff, String, Bool, true, false, List,
}
use kailo_be.Prelude.Int.{eq_ℤ-≡}
use kailo_be.Prelude.Errors.{payment_mismatch, wrapped, Result, ok, err}
use kailo_be.Prelude.Time.{Instant}
use kailo_be.Store.{Database}
use kailo_be.Store.Calls.{ignoring, IsSafe, ignoring-IsSafe, returning}
use kailo_be.Store.Triples.{commit-Keeps}
use kailo_be.Store.Rows.{GatewayEvent}
use kailo_be.Onramp.Payments.{ExpectedPayment, expected_payment, complete_callback}
use kailo_be.Onramp.Receipts.{record_callback_receipt-Keeps, complete_callback-Keeps}
use kailo_be.Onramp.Callbacks.{
  Callback, PaymentState, CallbackGateway, is_mismatch, receipt_of, decide_payment, after_state,
  after_expected, after_receipt, after_verify, process,
}

-- The database is as before, but for the receipts and the supply of ids.
abbrev pub IsUntouched : Database → Database → Type 0
IsUntouched db after =
    after ≡ record db { gateway_events = after.gateway_events; supply = after.supply }

-- The gateway says that the payment that the checkout expects has been made.
abbrev pub IsPaid : Callback → ExpectedPayment → PaymentState → Type 0
IsPaid callback expected actual =
    (((callback.event_type ≡ "payment.capture") × (actual.status ≡ "SUCCEEDED"))
      ⊎ ((callback.event_type ≡ "payment_session.completed") × (actual.status ≡ "COMPLETED")))
    × (actual.provider_id ≡ expected.provider_id)
    × (actual.reference_id ≡ expected.order_id)
    × (actual.currency ≡ expected.currency)
    × (actual.amount ≡ expected.amount)
    × ((expected.channel ≡ "") ⊎ (actual.channel ≡ expected.channel))

-- The callback is genuine, and the payment of its checkout has been made.
abbrev pub IsEvidenced : CallbackGateway → String → String → Database → Type 0
IsEvidenced gateway raw token db =
    (callback : Callback) × (expected : ExpectedPayment) × (actual : PaymentState)
    × (gateway.verify_callback raw token ≡ ok callback)
    × (expected_payment callback.checkout_id db ≡ ok expected)
    × (gateway.get_payment_state callback.checkout_id ≡ ok actual)
    × IsPaid callback expected actual

no_mismatch :
    (callback : Callback) (expected : ExpectedPayment) (actual : PaymentState)
    → is_mismatch callback expected actual ≡ false
    → IsPaid callback expected actual
no_mismatch callback expected actual h = ground (
  arith,
  eq_iff callback.event_type "payment.capture",
  eq_iff callback.event_type "payment_session.completed",
  eq_iff actual.status "SUCCEEDED",
  eq_iff actual.status "COMPLETED",
  eq_iff actual.provider_id expected.provider_id,
  eq_iff actual.reference_id expected.order_id,
  eq_iff actual.currency expected.currency,
  eq_iff actual.channel expected.channel,
  eq_iff expected.channel "",
  eq_ℤ-≡ actual.amount expected.amount,
)

module _ (db : Database) where
  supply-IsUntouched :
      (after : Database) (ids : List String)
      → IsUntouched db after
      → IsUntouched db (record after { supply = ids })
  supply-IsUntouched after ids p =
      ap (λ (d : Database). record d { gateway_events = after.gateway_events; supply = ids }) p

  gateway-IsUntouched :
      (after : Database) (rows : List GatewayEvent)
      → IsUntouched db after
      → IsUntouched db (record after { gateway_events = rows })
  gateway-IsUntouched after rows p =
      ap (λ (d : Database). record d { gateway_events = rows; supply = after.supply }) p

  expected_payment-IsUntouched :
      (id : String) (after : Database)
      → IsUntouched db after
      → expected_payment id after ≡ expected_payment id db
  unfolding expected_payment
  expected_payment-IsUntouched id after p = ap (expected_payment id) p

  module _ (gateway : CallbackGateway) (digest : String → String) (now : Instant)
      (raw token : String) where
    -- The calls that mark the receipt.
    marked :
        (event_id result : String) (r : Result (Unit {0}))
        → IsSafe (IsUntouched db) (ignoring (complete_callback event_id result now) (returning r))
    marked event_id result r =
        ignoring-IsSafe (complete_callback event_id result now) (returning r)
          (complete_callback-Keeps supply-IsUntouched gateway-IsUntouched event_id result now)
          (λ after p. p)

    decided :
        (callback : Callback) (expected : ExpectedPayment) (actual : PaymentState)
        (after : Database)
        → IsUntouched db after
        → gateway.verify_callback raw token ≡ ok callback
        → expected_payment callback.checkout_id db ≡ ok expected
        → gateway.get_payment_state callback.checkout_id ≡ ok actual
        → (b : Bool) → is_mismatch callback expected actual ≡ b
        → IsUntouched db (decide_payment gateway digest now b callback expected after).1
          ⊎ IsEvidenced gateway raw token db
    decided callback expected actual after p v e g true h =
        inl (marked callback.event_id "mismatched" (err payment_mismatch) after p)
    decided callback expected actual after p v e g false h =
        inr (callback, expected, actual, v, e, g, no_mismatch callback expected actual h)

    stated :
        (callback : Callback) (expected : ExpectedPayment) (after : Database)
        → IsUntouched db after
        → gateway.verify_callback raw token ≡ ok callback
        → expected_payment callback.checkout_id db ≡ ok expected
        → (r : Result PaymentState) → gateway.get_payment_state callback.checkout_id ≡ r
        → IsUntouched db (after_state gateway digest now callback expected r after).1
          ⊎ IsEvidenced gateway raw token db
    stated callback expected after p v e (err x) g = inl p
    stated callback expected after p v e (ok actual) g =
        decided callback expected actual after p v e g _ refl

    found_payment :
        (callback : Callback) (after : Database)
        → IsUntouched db after
        → gateway.verify_callback raw token ≡ ok callback
        → (r : Result ExpectedPayment) → expected_payment callback.checkout_id db ≡ r
        → IsUntouched db (after_expected gateway digest now callback r after).1
          ⊎ IsEvidenced gateway raw token db
    found_payment callback after p v (err x) e =
        inl (
          marked callback.event_id "unmatched" (err (wrapped "finding expected payment" x)) after p)
    found_payment callback after p v (ok expected) e = stated callback expected after p v e _ refl

    recorded :
        (callback : Callback) (r : Result Bool × Database)
        → IsUntouched db r.1
        → gateway.verify_callback raw token ≡ ok callback
        → IsUntouched db (after_receipt gateway digest now callback r).1
          ⊎ IsEvidenced gateway raw token db
    recorded callback (err x, after) p v = inl p
    recorded callback (ok true, after) p v = inl p
    recorded callback (ok false, after) p v =
        found_payment callback after p v _
          (sym (expected_payment-IsUntouched callback.checkout_id after p))

    verified :
        (r : Result Callback)
        → gateway.verify_callback raw token ≡ r
        → IsUntouched db (after_verify gateway digest now raw r db).1
          ⊎ IsEvidenced gateway raw token db
    verified (err x) v = inl refl
    verified (ok callback) v =
        recorded callback _
          (commit-Keeps
            (record_callback_receipt-Keeps supply-IsUntouched gateway-IsUntouched
              (receipt_of callback (digest raw)) now _ (λ d p. p))
            db refl)
          v

-- A callback changes nothing but the receipts and the supply of ids, whatever it returns, unless it
-- is genuine and the gateway says that the payment that its checkout expects has been made: of that
-- provider's id, order, currency, amount and channel.
pub evidence_needed :
    (gateway : CallbackGateway) (digest : String → String) (now : Instant) (raw token : String)
    (db : Database)
    → IsUntouched db (process gateway digest now raw token db).1 ⊎ IsEvidenced gateway raw token db
unfolding process
evidence_needed gateway digest now raw token db = verified db gateway digest now raw token _ refl
