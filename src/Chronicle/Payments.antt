-- ===== src/Chronicle/Payments.antt =====
-- A confirmed payment keeps the log and the rows together.
use kailo_be.Prelude.{ℕ, ◌+◌, ◌≡◌, refl, ap, subst, ◌∙◌, arith, String, Bool, true, false, some}
use kailo_be.Prelude.Time.{Instant}
use kailo_be.Order.{payment_pending, payment_confirmed, stellar_processing, Order}
use kailo_be.Order.Diagram.{payment_verified, issuance_persisted}
use kailo_be.Store.{Database}
use kailo_be.Store.Rows.{OrderRecord}
use kailo_be.Store.Triples.{
  Triple, Keeps, triple->>=, triple-post, triple-pre, triple-premise, triple-wrapping, triple-pure,
  triple-raise_if, Keeps->>=, Keeps-new_id,
}
use kailo_be.Store.Frames.{
  create_stellar_transaction-Keeps, create_outbox_message-Keeps, update_gateway_events-Keeps,
}
use kailo_be.Onramp.Payments.{confirm_order, enqueue_settlement, confirm_payment_and_enqueue}
use kailo_be.Chronicle.{History, so_far, advance, current, IsChronicled, IsMoving}
use kailo_be.Chronicle.Rows.{finish-Moving, advance-⟶}
use kailo_be.Chronicle.Orders.{guard-≡, from_status}
use kailo_be.Chronicle.Steps.{
  append_order_event-IsMoving, lock_order-IsIn, Locked, Locked-IsMoving, update_orders-IsMoving,
  logged_as,
}

-- The two events of a confirmed payment.
two_events :
    (order : OrderRecord) (db : Database)
    → order.status ≡ payment_pending
    → IsMoving order.id
        (advance
          (advance
            (so_far (current order))
            (order.version + 1)
            (some order.status)
            (some payment_confirmed))
          (order.version + 2)
          (some payment_confirmed)
          (some stellar_processing))
        (record { status = stellar_processing; version = order.version + 2 })
        db
    → IsChronicled db
two_events order db e m = finish-Moving (logged_as db (both ∙ last) m)
  where
    paid : Order
    paid = record { status = payment_confirmed; version = order.version + 1 }

    settling : Order
    settling = record { status = stellar_processing; version = order.version + 2 }

    both :
        advance
          (advance
            (so_far (current order))
            (order.version + 1)
            (some order.status)
            (some payment_confirmed))
          (order.version + 2)
          (some payment_confirmed)
          (some stellar_processing)
        ≡ advance
            (so_far paid)
            (order.version + 2)
            (some payment_confirmed)
            (some stellar_processing)
    both =
        ap
          (λ (h : History).
            advance h (order.version + 2) (some payment_confirmed) (some stellar_processing))
          (advance-⟶ (current order) (from_status e payment_verified))

    plus : order.version + 1 + 1 ≡ order.version + 2
    plus = omega arith

    last :
        advance (so_far paid) (order.version + 2) (some payment_confirmed) (some stellar_processing)
        ≡ so_far settling
    last =
        subst
          (λ (v : ℕ).
            advance (so_far paid) v (some payment_confirmed) (some stellar_processing)
            ≡ so_far (record { status = stellar_processing; version = v }))
          plus (advance-⟶ paid issuance_persisted)

pub enqueue_settlement-IsChronicled :
    (order : OrderRecord) (event_id : String) (now : Instant)
    → order.status ≡ payment_pending
    → Triple (Locked order) (enqueue_settlement order event_id now) (λ u. IsChronicled)
unfolding enqueue_settlement
enqueue_settlement-IsChronicled order event_id now e = triple-pre (Locked-IsMoving order) (
    triple->>= (update_orders-IsMoving order _ _ (λ o. refl) (λ o. refl)) λ _.
      triple->>= (append_order_event-IsMoving _ _ _ _ _ _) λ _.
        triple->>=
          (triple-post (append_order_event-IsMoving _ _ _ _ _ _)
            (λ u db m. two_events order db e m))
          λ _. Keeps->>= (Keeps-new_id (λ db ids h. h)) λ _.
            Keeps->>= (triple-wrapping _ (create_stellar_transaction-Keeps (λ db rows h. h) _)) λ _.
              Keeps->>= (Keeps-new_id (λ db ids h. h)) λ _.
                Keeps->>= (triple-wrapping _ (create_outbox_message-Keeps (λ db rows h. h) _))
                  λ _. update_gateway_events-Keeps (λ db rows h. h) _ _)

pub confirm_payment_and_enqueue-IsChronicled :
    (order_id event_id : String) (now : Instant)
    → Keeps IsChronicled (confirm_payment_and_enqueue order_id event_id now)
unfolding confirm_payment_and_enqueue
confirm_payment_and_enqueue-IsChronicled order_id event_id now =
    triple->>= (lock_order-IsIn _ _) λ order. confirmed order _
  where
    confirmed :
        (order : OrderRecord) (b : Bool)
        → Triple (Locked order) (confirm_order b order event_id now) (λ u. IsChronicled)
    confirmed order true = triple-pure _ (λ db h. h.0)
    confirmed order false = triple->>= (triple-raise_if _ _) λ _.
        triple-premise (λ db h. guard-≡ order.status payment_pending h.1)
          λ e. triple-pre (λ db h. h.0) (enqueue_settlement-IsChronicled order event_id now e)
