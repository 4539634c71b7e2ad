-- ===== src/Chronicle/Settlements.antt =====
-- The outcomes of a settlement and the expiry of orders keep the log and the rows together.
use kailo_be.Prelude.{ℕ, ◌≡◌, refl, sym, ◌∙◌, String, Bool, true, false, List, IsIn}
use kailo_be.Prelude.Time.{Instant}
use kailo_be.Order.{
  payment_pending, stellar_processing, completed, stellar_failed, expired, status_eq,
}
use kailo_be.Order.Diagram.{transfer_confirmed, transfer_failed, checkout_expired}
use kailo_be.Store.{Database}
use kailo_be.Prelude.{[], ◌∷◌, find-IsIn, str_eq}
use kailo_be.Store.Rows.{StellarTransaction, OrderRecord, TreasuryReservation}
use kailo_be.Store.Triples.{
  Triple, Keeps, triple->>=, triple-post, triple-pre, triple-premise, triple-wrapping, triple-pure,
  triple-gets, triple-found, triple-raise_if, Keeps->>=, Keeps-gets, Keeps-found, Keeps-raise_if,
}
use kailo_be.Store.Frames.{
  update_stellar-Keeps, update_outbox-Keeps, update_sep24-Keeps, update_reservations-Keeps,
  unreserve-Keeps,
}
use kailo_be.Chronicle.{IsChronicled}
use kailo_be.Chronicle.Log.{status_eq-≡}
use kailo_be.Chronicle.Orders.{
  guard-≡, from_status, release_reservation-Keeps, IsOffTreasury, chronicle_off, IsMoving-off,
}
use kailo_be.Chronicle.Steps.{
  update_order-IsMoving, last_event, lock_order-IsIn, Locked, Locked-IsMoving,
  update_orders-IsMoving, last_api_event,
}
use kailo_be.Settlement.Outcomes.{
  consume_reservation, consume_if, order_row, confirm_intent, confirm_unless, confirm,
  fail_permanent,
}
use kailo_be.Settlement.Expiry.{
  expire_order, expire_if, expire_one, expire_each, release_expired_reservations,
}

pub order_row-IsIn :
    {P : Database → Type 0} (order_id : String)
    → Triple P (order_row order_id) (λ order db. P db × IsIn order db.orders)
order_row-IsIn order_id = triple->>= (triple-gets _) λ row.
    triple-post (triple-found _ row) λ order db h.
      (h.0.0, (find-IsIn (λ (o : OrderRecord). str_eq o.id order_id) db.orders (sym h.0.1 ∙ h.1)).0)

consume_if-Keeps :
    {P : Database → Type 0}
    → IsOffTreasury P
    → (b : Bool) (r : TreasuryReservation) (now : Instant) → Keeps P (consume_if b r now)
unfolding consume_reservation
consume_if-Keeps off false r now = triple-pure _ (λ db h. h)
consume_if-Keeps off true r now =
    Keeps->>= (update_reservations-Keeps off.reservations _ _) λ _. unreserve-Keeps off.accounts _ _

confirm_intent-IsChronicled :
    (stellar : StellarTransaction) (hash : String) (ledger_at now : Instant)
    → Keeps IsChronicled (confirm_intent stellar hash ledger_at now)
unfolding confirm_intent
confirm_intent-IsChronicled stellar hash ledger_at now = Keeps->>= (Keeps-raise_if _ _) λ _.
    Keeps->>= (update_stellar-Keeps (λ db rows h. h) _ _) λ _. Keeps->>= (Keeps-gets _) λ row.
      Keeps->>= (Keeps-found _ row) λ r. Keeps->>= (consume_if-Keeps chronicle_off _ r now) λ _.
        triple->>= (order_row-IsIn _) λ order. triple->>= (triple-raise_if _ _) λ _.
          triple-premise (λ db h. guard-≡ order.status stellar_processing h.1)
            λ e.
              triple-pre (λ db h. Locked-IsMoving order db h.0)
                (triple->>= (update_order-IsMoving order _ _ (λ o. refl) (λ o. refl)) λ _.
                  triple->>= (triple-wrapping _ (update_sep24-Keeps (λ db rows h. h) _ _)) λ _.
                    triple->>=
                      (last_event order completed "stellar.transfer_confirmed" "worker" now
                        (from_status e transfer_confirmed))
                      λ _. update_outbox-Keeps (λ db rows h. h) _ _)

pub confirm-IsChronicled :
    (intent_id hash : String) (ledger_at now : Instant)
    → Keeps IsChronicled (confirm intent_id hash ledger_at now)
unfolding confirm
confirm-IsChronicled intent_id hash ledger_at now =
    Keeps->>= (Keeps-gets _) λ row. Keeps->>= (Keeps-found _ row) λ stellar. unless stellar _
  where
    unless :
        (stellar : StellarTransaction) (b : Bool)
        → Keeps IsChronicled (confirm_unless b stellar hash ledger_at now)
    unless stellar true = triple-pure _ (λ db h. h)
    unless stellar false = confirm_intent-IsChronicled stellar hash ledger_at now

pub fail_permanent-IsChronicled :
    (intent_id safe_error : String) (now : Instant)
    → Keeps IsChronicled (fail_permanent intent_id safe_error now)
unfolding fail_permanent
fail_permanent-IsChronicled intent_id safe_error now = Keeps->>= (Keeps-gets _) λ row.
    Keeps->>= (Keeps-found _ row) λ stellar. triple->>= (order_row-IsIn _) λ order.
      triple->>= (triple-raise_if _ _) λ _.
        triple-premise (λ db h. guard-≡ order.status stellar_processing h.1)
          λ e.
            triple-pre (λ db h. Locked-IsMoving order db h.0)
              (triple->>= (update_stellar-Keeps (λ db rows h. h) _ _) λ _.
                triple->>= (update_orders-IsMoving order _ _ (λ o. refl) (λ o. refl)) λ _.
                  triple->>=
                    (last_api_event order stellar_failed "stellar.failed" now
                      (from_status e transfer_failed))
                    λ _. update_outbox-Keeps (λ db rows h. h) _ _)

expire_order-IsChronicled :
    (order : OrderRecord) (r : TreasuryReservation) (now : Instant)
    → order.status ≡ payment_pending
    → Triple (Locked order) (expire_order order r now) (λ u. IsChronicled)
unfolding expire_order
expire_order-IsChronicled order r now e = triple-pre (Locked-IsMoving order) (
    triple->>= (release_reservation-Keeps (IsMoving-off _ _ _) r now) λ _.
      triple->>= (update_orders-IsMoving order _ _ (λ o. refl) (λ o. refl))
        λ _. last_api_event order expired "order.expired" now (from_status e checkout_expired))

expire_one-IsChronicled :
    (r : TreasuryReservation) (now : Instant) → Keeps IsChronicled (expire_one r now)
unfolding expire_one
expire_one-IsChronicled r now = triple->>= (lock_order-IsIn _ _) λ order. turn order _ refl
  where
    turn :
        (order : OrderRecord) (b : Bool)
        → status_eq order.status payment_pending ≡ b
        → Triple (Locked order) (expire_if b order r now) (λ n. IsChronicled)
    turn order true e =
        triple->>=
          (expire_order-IsChronicled order r now (status_eq-≡ order.status payment_pending e))
          λ _. triple-pure _ (λ db h. h)
    turn order false e = triple-pure _ (λ db h. h.0)

pub release_expired_reservations-IsChronicled :
    (now : Instant) (limit : ℕ) → Keeps IsChronicled (release_expired_reservations now limit)
unfolding release_expired_reservations
release_expired_reservations-IsChronicled now limit = Keeps->>= (Keeps-gets _) each
  where
    each : (batch : List TreasuryReservation) → Keeps IsChronicled (expire_each batch now)
    each [] = triple-pure _ (λ db h. h)
    each (r ∷ rest) =
        Keeps->>= (expire_one-IsChronicled r now)
          λ n. Keeps->>= (each rest) λ more. triple-pure _ (λ db h. h)
