-- ===== src/System/Kept.antt =====
-- The operations that keep whatever their single transactions keep.
use kailo_be.Prelude.Int.{ℤ}
use kailo_be.Prelude.{ℕ, String, Bool, true, false, Option, none, some, List}
use kailo_be.Prelude.Time.{Instant}
use kailo_be.Store.{Database, commit}
use kailo_be.Prelude.Errors.{payment_mismatch, wrapped, Result, ok, err}
use kailo_be.Store.Rows.{GatewayEvent, OutboxPayload, OutboxMessage, OrderRecord}
use kailo_be.Store.Triples.{
  Keeps, commit-Keeps, Keeps->>=, Keeps-gets, Keeps-found, triple-pure, triple-raise,
}
use kailo_be.Store.Frames.{update_outbox-Keeps}
use kailo_be.Store.Views.{Checkout}
use kailo_be.Onramp.Checkouts.{attach, attached, attached_view, attach_checkout}
use kailo_be.Events.Append.{find_order}
use kailo_be.Onramp.Receipts.{record_callback_receipt-Keeps, complete_callback-Keeps}
use kailo_be.Onramp.Callbacks.{
  Callback, PaymentState, CallbackGateway, is_mismatch, receipt_of, decide_payment, after_state,
  after_expected, after_receipt, after_verify, process,
}
use kailo_be.Onramp.Payments.{ExpectedPayment, confirm_payment_and_enqueue, complete_callback}
use kailo_be.Store.Calls.{Call, IsSafe, ignoring, ignoring-IsSafe, checking-IsSafe, returning}
use kailo_be.Settlement.{Job, decoded, finish_outbox, lease_outbox}

pub finish_outbox-Keeps :
    {P : Database → Type 0}
    → ((db : Database) (rows : List OutboxMessage)
        → P db
        → P (record db { outbox_messages = rows }))
    → (topic aggregate_id : String) (now : Instant) → Keeps P (finish_outbox topic aggregate_id now)
unfolding finish_outbox
finish_outbox-Keeps h topic aggregate_id now = update_outbox-Keeps h _ _

decoded-Keeps : {P : Database → Type 0} (r : Result Job) → Keeps P (decoded r)
decoded-Keeps (ok job) = triple-pure _ (λ db p. p)
decoded-Keeps (err e) = triple-raise _

pub lease_outbox-Keeps :
    {P : Database → Type 0}
    → ((db : Database) (rows : List OutboxMessage)
        → P db
        → P (record db { outbox_messages = rows }))
    → (topic : String) (max_attempts : ℕ) (worker : String) (now : Instant) (duration : ℤ)
      (decode : OutboxPayload → Result Job)
    → Keeps P (lease_outbox topic max_attempts worker now duration decode)
unfolding lease_outbox
lease_outbox-Keeps h topic max_attempts worker now duration decode = Keeps->>= (Keeps-gets _) λ row.
    Keeps->>= (Keeps-found _ row) λ m.
      Keeps->>= (update_outbox-Keeps h _ _)
        λ _. Keeps->>= (decoded-Keeps _) λ job. triple-pure _ (λ db p. p)

pub attach_checkout-keeps :
    {P : Database → Type 0} (order_id : String) (checkout : Checkout) (now : Instant)
    → Keeps P (attach order_id checkout now)
    → (db : Database) → P db
    → P (attach_checkout order_id checkout now db).1
unfolding attach_checkout
attach_checkout-keeps {P} order_id checkout now h db p =
    shown (commit (attach order_id checkout now) db) (commit-Keeps h db p)
  where
    shown : (r : Result (Unit {0}) × Database) → P r.1 → P (attached order_id r).1
    shown (err e, after) q = q
    shown (ok u, after) q = seen (find_order order_id after)
      where
        seen : (o : Option OrderRecord) → P (attached_view o after).1
        seen none = q
        seen (some order) = q

-- A callback, whose calls of the repository all keep the property.
module _ {P : Database → Type 0}
    (supply : (db : Database) (ids : List String) → P db → P (record db { supply = ids }))
    (receipts : (db : Database) (rows : List GatewayEvent)
      → P db
      → P (record db { gateway_events = rows }))
    (confirms : (order_id event_id : String) (now : Instant)
      → Keeps P (confirm_payment_and_enqueue order_id event_id now))
    (gateway : CallbackGateway) (digest : String → String) (now : Instant) where
  marked-IsSafe :
      (event_id result : String) (k : Call)
      → IsSafe P k
      → IsSafe P (ignoring (complete_callback event_id result now) k)
  marked-IsSafe event_id result k =
      ignoring-IsSafe (complete_callback event_id result now) k
        (complete_callback-Keeps supply receipts event_id result now)

  decide_payment-IsSafe :
      (b : Bool) (callback : Callback) (expected : ExpectedPayment)
      → IsSafe P (decide_payment gateway digest now b callback expected)
  decide_payment-IsSafe true callback expected =
      marked-IsSafe callback.event_id "mismatched" (returning (err payment_mismatch)) (λ db p. p)
  decide_payment-IsSafe false callback expected =
      checking-IsSafe (some "confirming payment")
        (confirm_payment_and_enqueue expected.order_id callback.event_id now)
        (commit (complete_callback callback.event_id "processed" now))
        (confirms expected.order_id callback.event_id now)
        (commit-Keeps (complete_callback-Keeps supply receipts callback.event_id "processed" now))

  after_state-IsSafe :
      (callback : Callback) (expected : ExpectedPayment) (r : Result PaymentState)
      → IsSafe P (after_state gateway digest now callback expected r)
  after_state-IsSafe callback expected (err e) = λ db p. p
  after_state-IsSafe callback expected (ok actual) =
      decide_payment-IsSafe (is_mismatch callback expected actual) callback expected

  after_expected-IsSafe :
      (callback : Callback) (r : Result ExpectedPayment)
      → IsSafe P (after_expected gateway digest now callback r)
  after_expected-IsSafe callback (err e) =
      marked-IsSafe callback.event_id "unmatched"
        (returning (err (wrapped "finding expected payment" e))) (λ db p. p)
  after_expected-IsSafe callback (ok expected) = after_state-IsSafe callback expected _

  after_receipt-keeps :
      (callback : Callback) (r : Result Bool × Database)
      → P r.1
      → P (after_receipt gateway digest now callback r).1
  after_receipt-keeps callback (err e, same) p = p
  after_receipt-keeps callback (ok true, after) p = p
  after_receipt-keeps callback (ok false, after) p = after_expected-IsSafe callback _ after p

  after_verify-IsSafe :
      (raw : String) (r : Result Callback) → IsSafe P (after_verify gateway digest now raw r)
  after_verify-IsSafe raw (err e) db p = p
  after_verify-IsSafe raw (ok callback) db p = after_receipt-keeps callback _ (
      commit-Keeps
        (record_callback_receipt-Keeps supply receipts (receipt_of callback (digest raw)) now _
          (λ d q. q))
        db p)

  pub process-IsSafe : (raw token : String) → IsSafe P (process gateway digest now raw token)
  unfolding process
  process-IsSafe raw token = after_verify-IsSafe raw (gateway.verify_callback raw token)
