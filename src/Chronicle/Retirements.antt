-- ===== src/Chronicle/Retirements.antt =====
-- The outcomes of a retirement and the payout, in internal/repository/offramp_repository.go, keep
-- the log and the rows together.
use kailo_be.Prelude.{
  ◌≡◌, refl, sym, ap, ◌∙◌, arith, String, Bool, true, false, Option, none, some, str_eq, eq_iff,
}
use kailo_be.Prelude.Time.{Instant}
use kailo_be.Order.{
  retirement_processing, withdrawal_processing, retirement_failed, completed, status_eq, Order,
}
use kailo_be.Order.Diagram.{retirement_confirmed, retirement_refused, payout_recorded}
use kailo_be.Store.Rows.{OrderRecord, StellarTransaction}
use kailo_be.Store.Views.{OfframpPayout}
use kailo_be.Store.Triples.{
  Triple, Keeps, triple->>=, triple-post, triple-pre, triple-premise, triple-wrapping, triple-pure,
  triple-gets, triple-raise_if, Keeps->>=, Keeps-raise_if, Keeps-new_id, Keeps-gets, Keeps-found,
}
use kailo_be.Store.Frames.{
  create_outbox_message-Keeps, create_payout-Keeps, update_stellar-Keeps, update_sep24-Keeps,
  update_outbox-Keeps,
}
use kailo_be.Chronicle.{current, IsChronicled}
use kailo_be.Chronicle.Log.{status_eq-≡}
use kailo_be.Chronicle.Orders.{guard-≡, from_status}
use kailo_be.Chronicle.Settlements.{order_row-IsIn}
use kailo_be.Chronicle.Deposits.{counted_update}
use kailo_be.Chronicle.Steps.{
  lock_order-IsIn, Locked, Locked-IsMoving, update_orders-IsMoving, last_event,
}
use kailo_be.Offramp.Outcomes.{
  enqueue_sandbox_payout, still_retiring, simulate_new, simulate_unless, simulate_retirement,
  confirm_new, confirm_new_unless, confirm_retirement, fail_retirement,
}
use kailo_be.Offramp.Payouts.{ensure_payout, complete_order, complete_sandbox_payout}

enqueue_sandbox_payout-IsChronicled :
    (order_id : String) (now : Instant) → Keeps IsChronicled (enqueue_sandbox_payout order_id now)
unfolding enqueue_sandbox_payout
enqueue_sandbox_payout-IsChronicled order_id now =
    Keeps->>= (triple-wrapping _ (Keeps-new_id (λ db ids h. h)))
      λ _. triple-wrapping _ (create_outbox_message-Keeps (λ db rows h. h) _)

still_retiring-tells :
    (order : OrderRecord)
    → order.status ≡ retirement_processing
    → (o : OrderRecord) → still_retiring order o ≡ true
    → (o.id ≡ order.id) × (current o ≡ current order)
still_retiring-tells order e o h = (
  ground (arith, eq_iff o.id order.id),
  same (status_eq-≡ o.status retirement_processing (ground arith) ∙ sym e) (ground arith),
)
  where
    same : o.status ≡ order.status → o.version ≡ order.version → current o ≡ current order
    same s v = ground (arith, s, v)

still_retiring-hits :
    (order : OrderRecord)
    → order.status ≡ retirement_processing
    → (o : OrderRecord) → str_eq o.id order.id ≡ true
    → current o ≡ current order
    → still_retiring order o ≡ true
still_retiring-hits order e o h k =
    ground (arith, h, ap (λ (c : Order). c.version) k, ap (λ (c : Order). c.status) k ∙ e)

simulate_new-IsChronicled :
    (stellar : StellarTransaction) (order : OrderRecord) (now : Instant)
    → Keeps IsChronicled (simulate_new stellar order now)
unfolding simulate_new
simulate_new-IsChronicled stellar order now = Keeps->>= (Keeps-raise_if _ _) λ _.
    triple->>= (triple-raise_if _ _) λ _.
      triple-premise (λ db h. status_eq-≡ order.status retirement_processing (ground (arith, h.1)))
        λ e.
          triple-pre (λ db h. h.0)
            (Keeps->>= (Keeps-gets _) λ _.
              Keeps->>= (update_stellar-Keeps (λ db rows h. h) _ _) λ _.
                Keeps->>= (Keeps-raise_if _ _) λ _. triple->>= (triple-gets _) λ k.
                  triple->>=
                    (counted_update order _ (still_retiring order) _ k (λ o. refl) (λ o. refl)
                      (still_retiring-tells order e) (still_retiring-hits order e))
                    λ _.
                      triple->>=
                        (triple-post (triple-raise_if _ _) (λ u db h. h.0 (ground (arith, h.1))))
                        λ _.
                          triple->>=
                            (last_event order withdrawal_processing "retirement.simulated" "worker"
                              now (from_status e retirement_confirmed))
                            λ _.
                              Keeps->>= (update_outbox-Keeps (λ db rows h. h) _ _)
                                λ _. enqueue_sandbox_payout-IsChronicled _ _)

pub simulate_retirement-IsChronicled :
    (intent_id : String) (now : Instant) → Keeps IsChronicled (simulate_retirement intent_id now)
unfolding simulate_retirement
simulate_retirement-IsChronicled intent_id now = Keeps->>= (Keeps-gets _) λ row.
    Keeps->>= (triple-wrapping _ (Keeps-found _ row)) λ stellar.
      triple->>= (lock_order-IsIn _ _) λ order. triple-pre (λ db h. h.0) (unless stellar order _)
  where
    unless :
        (stellar : StellarTransaction) (order : OrderRecord) (b : Bool)
        → Keeps IsChronicled (simulate_unless b stellar order now)
    unless stellar order true = Keeps-raise_if _ _
    unless stellar order false = simulate_new-IsChronicled stellar order now

pub confirm_retirement-IsChronicled :
    (intent_id hash : String) (ledger_at now : Instant)
    → Keeps IsChronicled (confirm_retirement intent_id hash ledger_at now)
unfolding confirm_retirement confirm_new
confirm_retirement-IsChronicled intent_id hash ledger_at now =
    Keeps->>= (Keeps-gets _) λ row. Keeps->>= (Keeps-found _ row) λ stellar. unless stellar _
  where
    unless :
        (stellar : StellarTransaction) (b : Bool)
        → Keeps IsChronicled (confirm_new_unless b stellar hash ledger_at now)
    unless stellar true = triple-pure _ (λ db h. h)
    unless stellar false = Keeps->>= (Keeps-raise_if _ _) λ _.
        Keeps->>= (update_stellar-Keeps (λ db rows h. h) _ _) λ _.
          Keeps->>= (triple-wrapping _ (update_sep24-Keeps (λ db rows h. h) _ _)) λ _.
            triple->>= (order_row-IsIn _) λ order. triple->>= (triple-raise_if _ _) λ _.
              triple-premise (λ db h. guard-≡ order.status retirement_processing h.1)
                λ e.
                  triple-pre (λ db h. Locked-IsMoving order db h.0)
                    (triple->>= (update_orders-IsMoving order _ _ (λ o. refl) (λ o. refl)) λ _.
                      triple->>=
                        (last_event order withdrawal_processing "retirement.confirmed" "worker" now
                          (from_status e retirement_confirmed))
                        λ _.
                          Keeps->>= (update_outbox-Keeps (λ db rows h. h) _ _)
                            λ _. enqueue_sandbox_payout-IsChronicled _ _)

pub fail_retirement-IsChronicled :
    (intent_id safe_error : String) (now : Instant)
    → Keeps IsChronicled (fail_retirement intent_id safe_error now)
unfolding fail_retirement
fail_retirement-IsChronicled intent_id safe_error now = Keeps->>= (Keeps-gets _) λ row.
    Keeps->>= (Keeps-found _ row) λ stellar. triple->>= (order_row-IsIn _) λ order.
      triple->>= (triple-raise_if _ _) λ _.
        triple-premise (λ db h. guard-≡ order.status retirement_processing h.1)
          λ e.
            triple-pre (λ db h. Locked-IsMoving order db h.0)
              (triple->>= (update_stellar-Keeps (λ db rows h. h) _ _) λ _.
                triple->>= (update_orders-IsMoving order _ _ (λ o. refl) (λ o. refl)) λ _.
                  triple->>=
                    (last_event order retirement_failed "retirement.failed" "worker" now
                      (from_status e retirement_refused))
                    λ _. update_outbox-Keeps (λ db rows h. h) _ _)

ensure_payout-Locked :
    (order : OrderRecord) (reference : String) (now : Instant) (row : Option OfframpPayout)
    → Keeps (Locked order) (ensure_payout order reference now row)
ensure_payout-Locked order reference now (some payout) = triple-pure _ (λ db h. h)
ensure_payout-Locked order reference now none =
    Keeps->>= (triple-wrapping _ (Keeps-new_id (λ db ids h. h))) λ _.
      Keeps->>= (triple-wrapping _ (create_payout-Keeps (λ db rows h. h) _))
        λ _. Keeps->>= (Keeps-gets _) λ row. triple-wrapping _ (Keeps-found _ row)

complete_order-IsChronicled :
    (order : OrderRecord) (now : Instant) (b : Bool)
    → status_eq order.status withdrawal_processing ≡ b
    → Triple (Locked order) (complete_order b order now) (λ u. IsChronicled)
complete_order-IsChronicled order now false e = triple-pure _ (λ db h. h.0)
complete_order-IsChronicled order now true e = triple-pre (Locked-IsMoving order) (
    triple->>= (update_orders-IsMoving order _ _ (λ o. refl) (λ o. refl)) λ _.
      last_event order completed "payout.simulated" "worker" now
        (from_status (status_eq-≡ order.status withdrawal_processing e) payout_recorded))

pub complete_sandbox_payout-IsChronicled :
    (order_id outbox_id reference : String) (now : Instant)
    → Keeps IsChronicled (complete_sandbox_payout order_id outbox_id reference now)
unfolding complete_sandbox_payout
complete_sandbox_payout-IsChronicled order_id outbox_id reference now =
    triple->>= (lock_order-IsIn _ _) λ order. triple->>= (Keeps-raise_if _ _) λ _.
      triple->>= (Keeps->>= (Keeps-gets _) (λ row. ensure_payout-Locked order reference now row))
        λ payout. triple->>= (complete_order-IsChronicled order now _ refl) λ _.
          Keeps->>= (triple-wrapping _ (update_sep24-Keeps (λ db rows h. h) _ _))
            λ _. update_outbox-Keeps (λ db rows h. h) _ _
