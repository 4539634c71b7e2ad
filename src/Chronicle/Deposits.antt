-- ===== src/Chronicle/Deposits.antt =====
-- The creation of an off-ramp order and the fate of its deposit, in
-- internal/repository/offramp_repository.go, keep the log and the rows together.
use kailo_be.Prelude.{
  ℕ, ◌+◌, ◌≡◌, refl, sym, ap, subst, ◌∙◌, arith, String, Bool, true, false, ◌&&◌, none, some, List,
  [], ◌∷◌, All, IsIn, find-IsIn, str_eq, eq_iff, ◌==◌,
}
use kailo_be.Prelude.Time.{Instant}
use kailo_be.Order.{
  created, asset_pending, asset_received, asset_invalid, retirement_processing, expired, status_eq,
  Order,
}
use kailo_be.Order.Diagram.{
  instructions_issued, asset_verified, window_expired, asset_mismatched, retirement_persisted,
}
use kailo_be.Store.{Database}
use kailo_be.Store.Rows.{OrderRecord}
use kailo_be.Store.Statements.{update_orders}
use kailo_be.Store.Table.{affected}
use kailo_be.Store.Queries.{All-sorted, All-take, All-filter, affected-IsIn}
use kailo_be.Store.Triples.{
  Triple, Keeps, triple->>=, triple-post, triple-pre, triple-premise, triple-wrapping, triple-pure,
  triple-modify, triple-gets, triple-found, triple-raise_if, Keeps->>=, Keeps-raise_if,
  Keeps-new_id,
}
use kailo_be.Store.Frames.{
  create_idempotency_record-Keeps, create_stellar_transaction-Keeps, create_outbox_message-Keeps,
}
use kailo_be.Treasury.Orders.{
  lift-Keeps, validate_retail_session_ownership-Keeps, create_sandbox_order_financial-Keeps,
}
use kailo_be.Chronicle.{History, nothing_yet, so_far, advance, current, IsChronicled, IsMoving}
use kailo_be.Chronicle.Log.{status_eq-≡, start-Moving}
use kailo_be.Chronicle.Rows.{finish-Moving, advance-created, advance-⟶, move_rows}
use kailo_be.Chronicle.Orders.{guard-≡, from_status}
use kailo_be.Chronicle.Steps.{
  IsMoving-free, create_order-IsMoving, append_order_event-IsMoving, lock_order-IsIn, Locked,
  Locked-IsMoving, update_row-IsMoving, update_orders-IsMoving, logged_as, last_api_event,
}
use kailo_be.Offramp.{OfframpRepository, OfframpCreateRecord, offramp_order, create_offramp}
use kailo_be.Offramp.Deposits.{
  ObservedPayment, is_overdue, expires_before, overdue_batch, still_pending, expire_deposit,
  expire_deposits, expire_pending_deposits, accept_deposit, accept_unless, record_asset_received,
  find_pending, record_asset_invalid,
}

-- The two events of a new order.
abbrev asked : Order
asked = record { status = created; version = 1 }

abbrev awaited : Order
awaited = record { status = asset_pending; version = 2 }

awaited_log :
    (id : String) (db : Database)
    → IsMoving id
        (advance (advance nothing_yet 1 none (some created)) 2 (some created) (some asset_pending))
        awaited
        db
    → IsChronicled db
awaited_log id db m = finish-Moving (
    logged_as db
      (ap (λ (h : History). advance h 2 (some created) (some asset_pending)) advance-created
        ∙ advance-⟶ asked instructions_issued)
      m)

pub create_offramp-IsChronicled :
    (r : OfframpRepository) (c : OfframpCreateRecord) → Keeps IsChronicled (create_offramp r c)
unfolding create_offramp
create_offramp-IsChronicled r c = Keeps->>= (lift-Keeps _) λ ownership.
    Keeps->>= (validate_retail_session_ownership-Keeps _) λ _.
      triple->>= (triple-wrapping _ (create_order-IsMoving (offramp_order r c ownership))) λ _.
        triple->>= (create_sandbox_order_financial-Keeps (IsMoving-free _ _ _) (λ db rows h. h) _)
          λ _. triple->>= (append_order_event-IsMoving _ _ _ _ _ _) λ _.
            triple->>=
              (triple-post (append_order_event-IsMoving _ _ _ _ _ _)
                (λ u db m. awaited_log c.order_id db m))
              λ _.
                Keeps->>= (Keeps-new_id (λ db ids h. h))
                  λ _. triple-wrapping _ (create_idempotency_record-Keeps (λ db rows h. h) _)

-- From here on the log of an order is followed that a counted condition has found.
counted-IsMoving :
    (order : OrderRecord) (p : OrderRecord → Bool) (db : Database)
    → ((o : OrderRecord) → p o ≡ true → (o.id ≡ order.id) × (current o ≡ current order))
    → (affected p db.orders == 0) ≡ false
    → IsChronicled db
    → IsMoving order.id (so_far (current order)) (current order) db
counted-IsMoving order p db tells n c =
    let (o, m, e) = affected-IsIn p db.orders n in
    subst (λ (id : String). IsMoving id (so_far (current order)) (current order) db) (tells o e).0
      (subst (λ (a : Order). IsMoving o.id (so_far a) a db) (tells o e).1
        (start-Moving db.orders db.order_events o c m))

-- An update of rows that a condition tells apart, if it changed one.
pub counted_update :
    (order : OrderRecord) (target : Order) (p : OrderRecord → Bool) (f : OrderRecord → OrderRecord)
    (n : ℕ)
    → ((o : OrderRecord) → (f o).id ≡ o.id)
    → ((o : OrderRecord) → current (f o) ≡ target)
    → ((o : OrderRecord) → p o ≡ true → (o.id ≡ order.id) × (current o ≡ current order))
    → ((o : OrderRecord) → str_eq o.id order.id ≡ true → current o ≡ current order → p o ≡ true)
    → Triple
        (λ db. IsChronicled db × (n ≡ affected p db.orders))
        (update_orders p f)
        (λ u db. (n == 1) ≡ true → IsMoving order.id (so_far (current order)) target db)
unfolding update_orders
counted_update order target p f n same gives tells hits = triple-modify _ λ db h one.
    move_rows target p f same gives (λ o e. ((eq_iff o.id order.id).1) (tells o e).0) hits
      (counted-IsMoving order p db tells (ground (arith, h.1, one)) h.0)

still_pending-tells :
    (order : OrderRecord)
    → order.status ≡ asset_pending
    → (o : OrderRecord) → still_pending order o ≡ true
    → (o.id ≡ order.id) × (current o ≡ current order)
still_pending-tells order e o h = (
  ground (arith, eq_iff o.id order.id),
  same (status_eq-≡ o.status asset_pending (ground arith) ∙ sym e) (ground arith),
)
  where
    same : o.status ≡ order.status → o.version ≡ order.version → current o ≡ current order
    same s v = ground (arith, s, v)

still_pending-hits :
    (order : OrderRecord)
    → order.status ≡ asset_pending
    → (o : OrderRecord) → str_eq o.id order.id ≡ true
    → current o ≡ current order
    → still_pending order o ≡ true
still_pending-hits order e o h k =
    ground (arith, h, ap (λ (c : Order). c.version) k, ap (λ (c : Order). c.status) k ∙ e)

expire_deposit-IsChronicled :
    (order : OrderRecord) (now : Instant)
    → order.status ≡ asset_pending
    → Keeps IsChronicled (expire_deposit order now)
unfolding expire_deposit
expire_deposit-IsChronicled order now e = triple->>= (triple-gets _) λ n.
    triple->>=
      (counted_update order _ (still_pending order) _ n (λ o. refl) (λ o. refl)
        (still_pending-tells order e) (still_pending-hits order e))
      λ _.
        triple->>= (triple-post (triple-raise_if _ _) (λ u db h. h.0 (ground (arith, h.1))))
          λ _. last_api_event order expired "order.expired" now (from_status e window_expired)

overdue_batch-pending :
    (now : Instant) (limit : ℕ) (db : Database)
    → All (λ (o : OrderRecord). o.status ≡ asset_pending) (overdue_batch now limit db)
overdue_batch-pending now limit db = All-take _ limit _ (
    All-sorted _ expires_before _ (
      All-filter _ (is_overdue now) db.orders
        (λ o m e. status_eq-≡ o.status asset_pending (ground arith))))

pub expire_pending_deposits-IsChronicled :
    (now : Instant) (limit : ℕ) → Keeps IsChronicled (expire_pending_deposits now limit)
unfolding expire_pending_deposits
expire_pending_deposits-IsChronicled now limit = triple->>= (triple-gets _) λ batch.
    triple-premise
      (λ db h.
        subst (All (λ (o : OrderRecord). o.status ≡ asset_pending)) (sym h.1)
          (overdue_batch-pending now limit db))
      λ all. triple-pre (λ db h. h.0) (each batch all)
  where
    each :
        (batch : List OrderRecord)
        → All (λ (o : OrderRecord). o.status ≡ asset_pending) batch
        → Keeps IsChronicled (expire_deposits batch now)
    each [] all = triple-pure _ (λ db h. h)
    each (order ∷ rest) (e, all) =
        Keeps->>= (expire_deposit-IsChronicled order now e)
          λ _. Keeps->>= (each rest all) λ _. triple-pure _ (λ db h. h)

-- The deposit is recorded: the row is updated twice, with an event after each update.
accept_deposit-IsChronicled :
    (order : OrderRecord) (payment : ObservedPayment) (now : Instant)
    → order.status ≡ asset_pending
    → Triple (Locked order) (accept_deposit order payment now) (λ u. IsChronicled)
unfolding accept_deposit
accept_deposit-IsChronicled order payment now e = triple-pre (Locked-IsMoving order) (
    triple->>= (Keeps-new_id (λ db ids h. h)) λ _.
      triple->>= (triple-wrapping _ (create_stellar_transaction-Keeps (λ db rows h. h) _)) λ _.
        triple->>= (update_orders-IsMoving order received _ (λ o. refl) (λ o. refl)) λ _.
          triple->>=
            (triple-post (append_order_event-IsMoving _ _ _ _ _ _)
              (λ u db m. logged_as db (advance-⟶ (current order) (from_status e asset_verified)) m))
            λ _. triple->>= (Keeps-new_id (λ db ids h. h)) λ _.
              triple->>= (triple-wrapping _ (create_stellar_transaction-Keeps (λ db rows h. h) _))
                λ _. triple->>= (Keeps-new_id (λ db ids h. h)) λ _.
                  triple->>= (triple-wrapping _ (create_outbox_message-Keeps (λ db rows h. h) _))
                    λ _.
                      triple->>=
                        (update_row-IsMoving {start = received} order.id retiring _ _ (λ o. refl)
                          (λ o. refl) (λ o k. ground arith)
                          (λ o h k. ground (arith, ap (λ (c : Order). c.version) k)))
                        λ _.
                          triple-post (append_order_event-IsMoving _ _ _ _ _ _)
                            (λ u db m. finish-Moving (logged_as db last m)))
  where
    received : Order
    received = record { status = asset_received; version = order.version + 1 }

    retiring : Order
    retiring = record { status = retirement_processing; version = order.version + 2 }

    plus : order.version + 1 + 1 ≡ order.version + 2
    plus = omega arith

    last :
        advance
          (so_far received)
          (order.version + 2)
          (some asset_received)
          (some retirement_processing)
        ≡ so_far retiring
    last =
        subst
          (λ (v : ℕ).
            advance (so_far received) v (some asset_received) (some retirement_processing)
            ≡ so_far (record { status = retirement_processing; version = v }))
          plus (advance-⟶ received retirement_persisted)

pub record_asset_received-IsChronicled :
    (order_id : String) (payment : ObservedPayment) (now : Instant)
    → Keeps IsChronicled (record_asset_received order_id payment now)
unfolding record_asset_received
record_asset_received-IsChronicled order_id payment now =
    triple->>= (lock_order-IsIn _ _) λ order. unless order _
  where
    unless :
        (order : OrderRecord) (b : Bool)
        → Triple (Locked order) (accept_unless b order payment now) (λ u. IsChronicled)
    unless order true = triple-pure _ (λ db h. h.0)
    unless order false = triple->>= (triple-raise_if _ _) λ _.
        triple-premise (λ db h. guard-≡ order.status asset_pending h.1)
          λ e.
            triple-pre (λ db h. h.0)
              (triple->>= (Keeps-raise_if _ _) λ _. accept_deposit-IsChronicled order payment now e)

pub record_asset_invalid-IsChronicled :
    (order_id : String) (now : Instant) → Keeps IsChronicled (record_asset_invalid order_id now)
unfolding record_asset_invalid
record_asset_invalid-IsChronicled order_id now = triple->>= (triple-gets _) λ row.
    triple->>= (triple-found _ row) λ order.
      triple-premise (λ db h. (pending_row db (sym h.0.1 ∙ h.1)).1)
        λ e.
          triple-pre
            (λ db h. Locked-IsMoving order db (h.0.0, (pending_row db (sym h.0.1 ∙ h.1)).0))
            (triple->>= (update_orders-IsMoving order _ _ (λ o. refl) (λ o. refl)) λ _.
              last_api_event order asset_invalid "asset.invalid" now
                (from_status e asset_mismatched))
  where
    pending_row :
        {order : OrderRecord} (db : Database)
        → find_pending order_id db ≡ some order
        → IsIn order db.orders × (order.status ≡ asset_pending)
    pending_row {order} db h =
        let (m, t) =
          find-IsIn (λ (o : OrderRecord). str_eq o.id order_id && status_eq o.status asset_pending)
            db.orders h in
        (m, status_eq-≡ order.status asset_pending (ground arith))
