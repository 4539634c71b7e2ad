-- ===== src/Onramp/Redelivery.antt =====
-- What `Process` of internal/usecase/onramp_callback_usecase.go does with a callback that it has
-- handled before.
use kailo_be.Prelude.{◌≡◌, refl, ap, ◌∙◌, arith, eq_iff, String, Bool, true, false, some, subst}
use kailo_be.Prelude.Errors.{Result, ok, err}
use kailo_be.Prelude.Time.{Instant}
use kailo_be.Store.{Database, commit, committed, Tx, gets, raise_if, pure, ◌>>=◌}
use kailo_be.Store.Calls.{Call, checked}
use kailo_be.Store.Triples.{
  Triple, Holds, Keeps, Keeps->>=, triple-pure, triple-wrapping, triple-modify, triple-post,
  Keeps-new_id, Keeps-raise_if, Keeps-gets, Keeps-found,
}
use kailo_be.Store.Frames.{
  create_stellar_transaction-Keeps, create_outbox_message-Keeps, update_orders-Keeps,
}
use kailo_be.Store.Statements.{update_gateway_events}
use kailo_be.Store.Rows.{GatewayEvent, OrderRecord}
use kailo_be.Events.Frames.{IsUnwatched, append_order_event-Keeps}
use kailo_be.Onramp.Payments.{
  is_receipt, find_receipt, seen_receipt, ExpectedPayment, record_callback_receipt,
  enqueue_settlement, confirm_order, confirm_payment_and_enqueue, complete_callback,
}
use kailo_be.Onramp.Callbacks.{
  Callback, PaymentState, CallbackGateway, is_mismatch, receipt_of, decide_payment, after_state,
  after_expected, after_receipt, after_verify, process,
}
use kailo_be.Onramp.Marks.{IsSaved, IsMarked, find-update, record_callback_receipt-IsMarked}

module _ (event_id payload_hash : String) where
  -- An update of the event's receipt that keeps its keys and its digest.
  update-IsSaved :
      (f : GatewayEvent → GatewayEvent)
      → ((g : GatewayEvent) → is_receipt event_id (f g) ≡ is_receipt event_id g)
      → ((g : GatewayEvent) → (f g).payload_hash ≡ g.payload_hash)
      → Triple
          (IsSaved event_id payload_hash)
          (update_gateway_events (is_receipt event_id) f)
          (λ u db.
            (g : GatewayEvent) × (find_receipt event_id db ≡ some (f g))
            × ((f g).payload_hash ≡ payload_hash))
  unfolding update_gateway_events
  update-IsSaved f keys hash = triple-modify _ λ db h. (
    h.0,
    find-update (is_receipt event_id) f db.gateway_events (λ g e. keys g ∙ e) h.1,
    hash h.0 ∙ h.2,
  )

  enqueue_settlement-IsSaved :
      (order : OrderRecord) (now : Instant)
      → Keeps (IsSaved event_id payload_hash) (enqueue_settlement order event_id now)
  unfolding enqueue_settlement
  enqueue_settlement-IsSaved order now = Keeps->>= (update_orders-Keeps (λ db rows h. h) _ _) λ _.
      Keeps->>= (append_order_event-Keeps free (λ db rows h. h) _ _ _ _ _ _) λ _.
        Keeps->>= (append_order_event-Keeps free (λ db rows h. h) _ _ _ _ _ _) λ _.
          Keeps->>= (Keeps-new_id (λ db ids h. h)) λ _.
            Keeps->>= (triple-wrapping _ (create_stellar_transaction-Keeps (λ db rows h. h) _)) λ _.
              Keeps->>= (Keeps-new_id (λ db ids h. h)) λ _.
                Keeps->>= (triple-wrapping _ (create_outbox_message-Keeps (λ db rows h. h) _)) λ _.
                  triple-post (update-IsSaved _ (λ g. refl) (λ g. refl)) (λ u db h. (_, h.1, h.2))
    where
      free : IsUnwatched (IsSaved event_id payload_hash)
      free = record { supply = λ db ids h. h; webhooks = λ db rows h. h; jobs = λ db rows h. h }

  confirm_payment-IsSaved :
      (order_id : String) (now : Instant)
      → Keeps (IsSaved event_id payload_hash) (confirm_payment_and_enqueue order_id event_id now)
  unfolding confirm_payment_and_enqueue
  confirm_payment-IsSaved order_id now =
      Keeps->>= (Keeps->>= (Keeps-gets _) λ row. triple-wrapping _ (Keeps-found _ row))
        λ order. confirmed order _
    where
      confirmed :
          (order : OrderRecord) (b : Bool)
          → Keeps (IsSaved event_id payload_hash) (confirm_order b order event_id now)
      confirmed order true = triple-pure _ (λ db h. h)
      confirmed order false =
          Keeps->>= (Keeps-raise_if _ _) λ _. enqueue_settlement-IsSaved order now

  complete_callback-IsMarked :
      (result : String) (now : Instant)
      → Triple
          (IsSaved event_id payload_hash)
          (complete_callback event_id result now)
          (λ u db. IsMarked event_id payload_hash true db)
  unfolding complete_callback
  complete_callback-IsMarked result now =
      triple-post (update-IsSaved _ (λ g. refl) (λ g. refl)) (λ u db h. (_, h.1, h.2, refl))

  -- A call that succeeds only once the receipt is marked as processed.
  abbrev IsDone : Result (Unit {0}) × Database → Type 0
  IsDone r = r.0 ≡ ok tt → IsMarked event_id payload_hash true r.1

  commit-IsDone :
      {P : Database → Type 0} (m : Tx (Unit {0}))
      → Triple P m (λ u db. IsMarked event_id payload_hash true db)
      → (db : Database) → P db
      → IsDone (commit m db)
  commit-IsDone m h db p = last (m db) (h.holds db p)
    where
      last :
          (r : Result (Unit {0} × Database))
          → Holds (λ u d. IsMarked event_id payload_hash true d) r
          → IsDone (committed db r)
      last (ok r) q e = q
      last (err x) q e = cc

  checked-IsDone :
      (message : String) (k : Call) (db : Database) (r : Result (Unit {0} × Database))
      → ((d : Database) → IsSaved event_id payload_hash d → IsDone (k d))
      → Holds (λ u. IsSaved event_id payload_hash) r
      → IsDone (checked (some message) k db r)
  checked-IsDone message k db (ok r) next q = next r.1 q
  checked-IsDone message k db (err x) next q = λ e. cc

module _ (gateway : CallbackGateway) (digest : String → String) (raw token : String) where
  module _ (now : Instant) (callback : Callback) where
    after_state-IsDone :
        (expected : ExpectedPayment) (db : Database)
        → IsSaved callback.event_id (digest raw) db
        → (b : Bool)
        → IsDone callback.event_id
            (digest raw)
            (decide_payment gateway digest now b callback expected db)
    after_state-IsDone expected db h true = λ e. cc
    after_state-IsDone expected db h false =
        checked-IsDone callback.event_id (digest raw) "confirming payment" _ db _
          (commit-IsDone callback.event_id (digest raw) _
            (complete_callback-IsMarked callback.event_id (digest raw) "processed" now))
          ((confirm_payment-IsSaved callback.event_id (digest raw) expected.order_id now).holds db
            h)

    after_expected-IsDone :
        (r : Result ExpectedPayment) (db : Database)
        → IsSaved callback.event_id (digest raw) db
        → IsDone callback.event_id (digest raw) (after_expected gateway digest now callback r db)
    after_expected-IsDone (err x) db h = λ e. cc
    after_expected-IsDone (ok expected) db h =
        stated (gateway.get_payment_state callback.checkout_id)
      where
        stated :
            (r : Result PaymentState)
            → IsDone callback.event_id
                (digest raw)
                (after_state gateway digest now callback expected r db)
        stated (err x) = λ e. cc
        stated (ok actual) = after_state-IsDone expected db h (is_mismatch callback expected actual)

    after_receipt-IsDone :
        (db : Database) (r : Result (Bool × Database))
        → Holds (λ b d. IsMarked callback.event_id (digest raw) b d) r
        → IsDone callback.event_id
            (digest raw)
            (after_receipt gateway digest now callback (committed db r))
    after_receipt-IsDone db (err x) h = λ e. cc
    after_receipt-IsDone db (ok (true, after)) h = λ e. h
    after_receipt-IsDone db (ok (false, after)) h = after_expected-IsDone _ after (h.0, h.1, h.2)

    -- A processed receipt is enough.
    recorded_again :
        (db : Database)
        → IsMarked callback.event_id (digest raw) true db
        → after_verify gateway digest now raw (ok callback) db ≡ (ok tt, db)
    unfolding record_callback_receipt ◌>>=◌ gets raise_if pure
    recorded_again db (g, found_row, hash, processed) = rw (found_row) (
        ap
          (λ (r : Result (Bool × Database)).
            after_receipt gateway digest now callback (committed db r))
          seen)
      where
        seen : seen_receipt (receipt_of callback (digest raw)) g db ≡ ok (true, db)
        seen = ground (arith, eq_iff g.payload_hash (digest raw))

-- A callback that was handled without an error can be delivered again at any time: nothing is done,
-- and there is no error.
pub redelivered :
    (gateway : CallbackGateway) (digest : String → String) (now later : Instant)
    (raw token : String) (db after : Database)
    → process gateway digest now raw token db ≡ (ok tt, after)
    → process gateway digest later raw token after ≡ (ok tt, after)
unfolding process
redelivered gateway digest now later raw token db after h =
    again (gateway.verify_callback raw token) h
  where
    again :
        (r : Result Callback)
        → after_verify gateway digest now raw r db ≡ (ok tt, after)
        → after_verify gateway digest later raw r after ≡ (ok tt, after)
    again (err x) e = cc
    again (ok callback) e = recorded_again gateway digest raw token later callback after (
        subst (IsMarked callback.event_id (digest raw) true) (ap (λ r. r.1) e) (
          after_receipt-IsDone gateway digest raw token now callback db _
            ((record_callback_receipt-IsMarked (receipt_of callback (digest raw)) now).holds db tt)
            (ap (λ r. r.0) e)))
