-- ===== src/Treasury/Orders.antt =====
-- The operations of internal/repository/onramp_repository.go and settlement_repository.go keep the
-- treasury balanced.
use kailo_be.Prelude.{
  ◌≡◌, sym, ◌∙◌, String, Bool, true, false, ◌&&◌, Option, none, some, List, find-IsIn, str_eq,
  arith, IsIn,
}
use kailo_be.Prelude.Int.{ℤ}
use kailo_be.Prelude.Errors.{Result, ok, err}
use kailo_be.Prelude.Time.{Instant}
use kailo_be.Order.{OrderStatus}
use kailo_be.Store.{Database}
use kailo_be.Store.Rows.{OrderRecord, TreasuryReservation}
use kailo_be.Store.Views.{Checkout}
use kailo_be.Store.Triples.{
  Keeps, triple->>=, triple-pre, triple-wrapping, triple-pure, triple-raise, triple-gets,
  triple-found, Keeps->>=, Keeps-gets, Keeps-found, Keeps-raise_if, Keeps-new_id,
}
use kailo_be.Store.Frames.{
  create_order-Keeps, create_order_financial-Keeps, create_checkout-Keeps,
  create_stellar_transaction-Keeps, create_idempotency_record-Keeps, create_outbox_message-Keeps,
  update_orders-Keeps, update_idempotency-Keeps, update_gateway_events-Keeps,
}
use kailo_be.Financial.{lift, create_sandbox_order_financial}
use kailo_be.Principal.{
  OrderPrincipal, check_session, session_owner, validate_retail_session_ownership,
}
use kailo_be.Events.Frames.{IsUnwatched, append_order_event-Keeps}
use kailo_be.Onramp.{OnrampRepository, CreateRecord, reserve_and_create}
use kailo_be.Onramp.Checkouts.{lock_order, attach, find_reserved, is_reserved, release_failed_order}
use kailo_be.Onramp.Payments.{confirm_order, enqueue_settlement, confirm_payment_and_enqueue}
use kailo_be.Treasury.{IsBalanced}
use kailo_be.Treasury.Steps.{IsHeld, release_reservation-IsBalanced}
use kailo_be.Treasury.Locks.{IsLocked, lock_treasury-IsLocked, reserve_fee-IsBalanced}

pub lift-Keeps {ℓ} : {A : Type ℓ} {P : Database → Type 0} (r : Result A) → Keeps P (lift r)
lift-Keeps (ok a) = triple-pure _ (λ db h. h)
lift-Keeps (err e) = triple-raise _

pub validate_retail_session_ownership-Keeps :
    {P : Database → Type 0} (p : OrderPrincipal) → Keeps P (validate_retail_session_ownership p)
unfolding validate_retail_session_ownership
validate_retail_session_ownership-Keeps {P} p = checked _
  where
    owned : (row : Option (String × String)) → Keeps P (session_owner row p.owner_user_id)
    owned none = triple-raise _
    owned (some (session, user)) = Keeps-raise_if _ _

    checked : (b : Bool) → Keeps P (check_session b p)
    checked false = triple-pure _ (λ db h. h)
    checked true = Keeps->>= (Keeps-gets _) owned

pub create_sandbox_order_financial-Keeps :
    {P : Database → Type 0}
    → (h : IsUnwatched P)
    → ((db : Database) (rows : List _) → P db → P (record db { order_financials = rows }))
    → (order : OrderRecord) → Keeps P (create_sandbox_order_financial order)
unfolding create_sandbox_order_financial
create_sandbox_order_financial-Keeps free h order =
    Keeps->>= (triple-wrapping _ (Keeps-new_id free.supply)) λ _.
      Keeps->>= (triple-wrapping _ (lift-Keeps _))
        λ _. triple-wrapping _ (create_order_financial-Keeps h _)

pub lock_order-Keeps :
    {P : Database → Type 0} (message order_id : String) → Keeps P (lock_order message order_id)
lock_order-Keeps message order_id =
    Keeps->>= (Keeps-gets _) λ _. triple-wrapping _ (Keeps-found _ _)

-- The treasury's tables are not those of the orders' history.
pub balance_free : IsUnwatched IsBalanced
balance_free = record { supply = λ db ids h. h; webhooks = λ db rows h. h; jobs = λ db rows h. h }

lock_free : (id : String) → IsUnwatched (IsLocked id)
lock_free id = record { supply = λ db ids h. h; webhooks = λ db rows h. h; jobs = λ db rows h. h }

pub reserve_and_create-IsBalanced :
    (r : OnrampRepository) (c : CreateRecord) (observed : ℤ)
    → Keeps IsBalanced (reserve_and_create r c observed)
unfolding reserve_and_create
reserve_and_create-IsBalanced r c observed = Keeps->>= (lift-Keeps _) λ ownership.
    Keeps->>= (validate_retail_session_ownership-Keeps _) λ _.
      triple->>= (lock_treasury-IsLocked r observed c.created_at) λ t.
        triple->>= (Keeps-raise_if _ _) λ _.
          triple->>= (triple-wrapping _ (create_order-Keeps (λ db rows h. h) _)) λ _.
            triple->>= (create_sandbox_order_financial-Keeps (lock_free t.id) (λ db rows h. h) _)
              λ _.
                triple->>= (reserve_fee-IsBalanced t.id c.order_id c.quote.expires_at c.created_at)
                  λ _.
                    Keeps->>= (append_order_event-Keeps balance_free (λ db rows h. h) _ _ _ _ _ _)
                      λ _.
                        Keeps->>= (Keeps-new_id (λ db ids h. h)) λ _.
                          triple-wrapping _ (create_idempotency_record-Keeps (λ db rows h. h) _)

pub attach-IsBalanced :
    (order_id : String) (checkout : Checkout) (now : Instant)
    → Keeps IsBalanced (attach order_id checkout now)
unfolding attach
attach-IsBalanced order_id checkout now = Keeps->>= (lock_order-Keeps _ _) λ order.
    Keeps->>= (Keeps-raise_if _ _) λ _. Keeps->>= (Keeps-new_id (λ db ids h. h)) λ _.
      Keeps->>= (triple-wrapping _ (create_checkout-Keeps (λ db rows h. h) _)) λ _.
        Keeps->>= (update_orders-Keeps (λ db rows h. h) _ _) λ _.
          Keeps->>= (append_order_event-Keeps balance_free (λ db rows h. h) _ _ _ _ _ _)
            λ _. update_idempotency-Keeps (λ db rows h. h) _ _

-- A reservation that the query finds is held.
found_reserved :
    (order_id : String) (db : Database) (row : Option TreasuryReservation) (r : TreasuryReservation)
    → row ≡ find_reserved order_id db
    → row ≡ some r
    → IsHeld r db
found_reserved order_id db row r e f = held (
    find-IsIn (λ x. str_eq x.order_id order_id && is_reserved x.status) db.treasury_reservations
      (sym e ∙ f))
  where
    held :
        IsIn r db.treasury_reservations
          × (str_eq r.order_id order_id && is_reserved r.status ≡ true)
        → IsHeld r db
    held (m, t) = (m, ground arith)

pub release_failed_order-IsBalanced :
    (order_id : String) (status : OrderStatus) (code : String) (now : Instant)
    → Keeps IsBalanced (release_failed_order order_id status code now)
unfolding release_failed_order
release_failed_order-IsBalanced order_id status code now = Keeps->>= (lock_order-Keeps _ _) λ order.
    Keeps->>= (Keeps-raise_if _ _) λ _. triple->>= (triple-gets _) λ row.
      triple->>= (triple-wrapping _ (triple-found _ row)) λ r.
        triple->>=
          (triple-pre (λ db h. (h.0.0, found_reserved order_id db row r h.0.1 h.1))
            (release_reservation-IsBalanced r now))
          λ _.
            Keeps->>= (update_orders-Keeps (λ db rows h. h) _ _)
              λ _. append_order_event-Keeps balance_free (λ db rows h. h) _ _ _ _ _ _

pub enqueue_settlement-IsBalanced :
    (order : OrderRecord) (event_id : String) (now : Instant)
    → Keeps IsBalanced (enqueue_settlement order event_id now)
unfolding enqueue_settlement
enqueue_settlement-IsBalanced order event_id now =
    Keeps->>= (update_orders-Keeps (λ db rows h. h) _ _) λ _.
      Keeps->>= (append_order_event-Keeps balance_free (λ db rows h. h) _ _ _ _ _ _) λ _.
        Keeps->>= (append_order_event-Keeps balance_free (λ db rows h. h) _ _ _ _ _ _) λ _.
          Keeps->>= (Keeps-new_id (λ db ids h. h)) λ _.
            Keeps->>= (triple-wrapping _ (create_stellar_transaction-Keeps (λ db rows h. h) _)) λ _.
              Keeps->>= (Keeps-new_id (λ db ids h. h)) λ _.
                Keeps->>= (triple-wrapping _ (create_outbox_message-Keeps (λ db rows h. h) _))
                  λ _. update_gateway_events-Keeps (λ db rows h. h) _ _

pub confirm_payment_and_enqueue-IsBalanced :
    (order_id event_id : String) (now : Instant)
    → Keeps IsBalanced (confirm_payment_and_enqueue order_id event_id now)
unfolding confirm_payment_and_enqueue
confirm_payment_and_enqueue-IsBalanced order_id event_id now =
    Keeps->>= (lock_order-Keeps _ _) λ order. confirmed order _
  where
    confirmed :
        (order : OrderRecord) (b : Bool) → Keeps IsBalanced (confirm_order b order event_id now)
    confirmed order true = triple-pure _ (λ db h. h)
    confirmed order false =
        Keeps->>= (Keeps-raise_if _ _) λ _. enqueue_settlement-IsBalanced order event_id now
