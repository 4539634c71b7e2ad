-- ===== src/Chronicle/Orders.antt =====
-- The operations of internal/repository/onramp_repository.go keep the log and the rows together.
use kailo_be.Prelude.{◌≡◌, refl, sym, subst, arith, String, false, not, Option, none, some, List}
use kailo_be.Prelude.Int.{ℤ, pos, negsuc}
use kailo_be.Prelude.Time.{Instant}
use kailo_be.Order.{OrderStatus, created, payment_pending, payment_failed, status_eq, Order}
use kailo_be.Order.Diagram.{◌⟶◌, checkout_created, checkout_rejected}
use kailo_be.Store.{Database}
use kailo_be.Store.Rows.{TreasuryAccount, TreasuryReservation}
use kailo_be.Store.Views.{Checkout}
use kailo_be.Store.Statements.{update_orders}
use kailo_be.Store.Triples.{
  triple-modify, Keeps, triple->>=, triple-post, triple-pre, triple-premise, triple-wrapping,
  triple-pure, triple-raise, triple-raise_if, Keeps->>=, Keeps-gets, Keeps-found, Keeps-raise_if,
  Keeps-new_id,
}
use kailo_be.Store.Frames.{
  create_checkout-Keeps, create_idempotency_record-Keeps, update_reservations-Keeps,
  update_idempotency-Keeps, create_reservation-Keeps, create_treasury_account-Keeps,
  update_treasury_accounts-Keeps, reserve-Keeps, unreserve-Keeps,
}
use kailo_be.Events.Frames.{IsUnwatched}
use kailo_be.Onramp.{
  OnrampRepository, CreateRecord, balance, reconcile_treasury, lock_treasury, onramp_order,
  reserve_fee, reserve_and_create,
}
use kailo_be.Onramp.Checkouts.{
  mark_checkout_unknown, attach, release_reservation, release_failed_order,
}
use kailo_be.Treasury.Orders.{
  lift-Keeps, validate_retail_session_ownership-Keeps, create_sandbox_order_financial-Keeps,
}
use kailo_be.Chronicle.{History, nothing_yet, advance, IsChronicled, IsMoving}
use kailo_be.Chronicle.Log.{status_eq-≡}
use kailo_be.Chronicle.Rows.{finish-Moving, advance-created, leave_rows}
use kailo_be.Chronicle.Steps.{
  chronicle_free, IsMoving-free, create_order-IsMoving, append_order_event-IsMoving,
  lock_order-IsIn, Locked-IsMoving, update_orders-IsMoving, logged_as, last_api_event,
}

-- The treasury's statements keep what does not look at its tables.
pub record IsOffTreasury (P : Database → Type 0) : Type 0 where
  pub free : IsUnwatched P
  pub accounts :
      (db : Database) (rows : List TreasuryAccount)
      → P db
      → P (record db { treasury_accounts = rows })
  pub reservations :
      (db : Database) (rows : List TreasuryReservation)
      → P db
      → P (record db { treasury_reservations = rows })

module _ {P : Database → Type 0} (off : IsOffTreasury P) where
  lock_treasury-Keeps :
      (r : OnrampRepository) (observed : ℤ) (now : Instant) → Keeps P (lock_treasury r observed now)
  unfolding lock_treasury
  lock_treasury-Keeps r observed now = Keeps->>= (Keeps-gets _) rest
    where
      balanced : (b : ℤ) → Keeps P (balance b)
      balanced (pos n) = triple-pure _ (λ db h. h)
      balanced (negsuc n) = triple-raise _

      rest : (row : Option TreasuryAccount) → Keeps P (reconcile_treasury r observed now row)
      rest none = Keeps->>= (Keeps-new_id off.free.supply) λ id.
          Keeps->>= (triple-wrapping _ (balanced observed)) λ n.
            Keeps->>= (triple-wrapping _ (create_treasury_account-Keeps off.accounts _))
              λ _. triple-pure _ (λ db h. h)
      rest (some t) = Keeps->>= (triple-wrapping _ (balanced observed)) λ n.
          Keeps->>= (triple-wrapping _ (update_treasury_accounts-Keeps off.accounts _ _))
            λ _. triple-pure _ (λ db h. h)

  reserve_fee-Keeps :
      (treasury_id order_id : String) (expires_at now : Instant)
      → Keeps P (reserve_fee treasury_id order_id expires_at now)
  unfolding reserve_fee
  reserve_fee-Keeps treasury_id order_id expires_at now =
      Keeps->>= (Keeps-new_id off.free.supply) λ _.
        Keeps->>= (triple-wrapping _ (create_reservation-Keeps off.reservations _))
          λ _. triple-wrapping _ (reserve-Keeps off.accounts _ _)

  pub release_reservation-Keeps :
      (r : TreasuryReservation) (now : Instant) → Keeps P (release_reservation r now)
  unfolding release_reservation
  release_reservation-Keeps r now =
      Keeps->>= (update_reservations-Keeps off.reservations _ _)
        λ _. unreserve-Keeps off.accounts _ _

pub chronicle_off : IsOffTreasury IsChronicled
chronicle_off = record {
  free = chronicle_free;
  accounts = λ db rows h. h;
  reservations = λ db rows h. h;
}

pub IsMoving-off :
    (id : String) (past : History) (target : Order) → IsOffTreasury (IsMoving id past target)
IsMoving-off id past target = record {
  free = IsMoving-free id past target;
  accounts = λ db rows h. h;
  reservations = λ db rows h. h;
}

pub reserve_and_create-IsChronicled :
    (r : OnrampRepository) (c : CreateRecord) (observed : ℤ)
    → Keeps IsChronicled (reserve_and_create r c observed)
unfolding reserve_and_create
reserve_and_create-IsChronicled r c observed = Keeps->>= (lift-Keeps _) λ ownership.
    Keeps->>= (validate_retail_session_ownership-Keeps _) λ _.
      Keeps->>= (lock_treasury-Keeps chronicle_off r observed c.created_at) λ t.
        Keeps->>= (Keeps-raise_if _ _) λ _.
          triple->>= (triple-wrapping _ (create_order-IsMoving (onramp_order r c ownership))) λ _.
            triple->>=
              (create_sandbox_order_financial-Keeps (IsMoving-free _ _ _) (λ db rows h. h) _)
              λ _.
                triple->>=
                  (reserve_fee-Keeps (IsMoving-off _ _ _) t.id c.order_id c.quote.expires_at
                    c.created_at)
                  λ _.
                    triple->>=
                      (triple-post (append_order_event-IsMoving _ _ _ _ _ _)
                        (λ u db m. begun_log db m))
                      λ _.
                        Keeps->>= (Keeps-new_id (λ db ids h. h)) λ _.
                          triple-wrapping _ (create_idempotency_record-Keeps (λ db rows h. h) _)
  where
    begun_log :
        (db : Database)
        → IsMoving c.order_id
            (advance nothing_yet 1 none (some created))
            (record { status = created; version = 1 })
            db
        → IsChronicled db
    begun_log db m = finish-Moving (logged_as db advance-created m)

-- A status that a guard has let through.
pub guard-≡ : (s t : OrderStatus) → not (status_eq s t) ≡ false → s ≡ t
guard-≡ s t h = status_eq-≡ s t (ground arith)

-- The edge that a guarded order takes.
pub from_status : {s t u : OrderStatus} → s ≡ t → t ⟶ u → s ⟶ u
from_status {u = u} e edge = subst (λ (s : OrderStatus). s ⟶ u) (sym e) edge

pub attach-IsChronicled :
    (order_id : String) (checkout : Checkout) (now : Instant)
    → Keeps IsChronicled (attach order_id checkout now)
unfolding attach
attach-IsChronicled order_id checkout now = triple->>= (lock_order-IsIn _ _) λ order.
    triple->>= (triple-raise_if _ _) λ _.
      triple-premise (λ db h. guard-≡ order.status created h.1)
        λ e.
          triple-pre (λ db h. Locked-IsMoving order db h.0)
            (triple->>= (Keeps-new_id (λ db ids h. h)) λ _.
              triple->>= (triple-wrapping _ (create_checkout-Keeps (λ db rows h. h) _)) λ _.
                triple->>= (update_orders-IsMoving order _ _ (λ o. refl) (λ o. refl)) λ _.
                  triple->>=
                    (last_api_event order payment_pending "checkout.created" now
                      (from_status e checkout_created))
                    λ _. update_idempotency-Keeps (λ db rows h. h) _ _)

pub release_failed_order-IsChronicled :
    (order_id code : String) (now : Instant)
    → Keeps IsChronicled (release_failed_order order_id payment_failed code now)
unfolding release_failed_order
release_failed_order-IsChronicled order_id code now = triple->>= (lock_order-IsIn _ _) λ order.
    triple->>= (triple-raise_if _ _) λ _.
      triple-premise (λ db h. guard-≡ order.status created h.1)
        λ e.
          triple-pre (λ db h. Locked-IsMoving order db h.0)
            (triple->>= (Keeps-gets _) λ row.
              triple->>= (triple-wrapping _ (Keeps-found _ row)) λ r.
                triple->>= (release_reservation-Keeps (IsMoving-off _ _ _) r now) λ _.
                  triple->>= (update_orders-IsMoving order _ _ (λ o. refl) (λ o. refl)) λ _.
                    last_api_event order payment_failed "checkout.failed" now
                      (from_status e checkout_rejected))

pub mark_checkout_unknown-IsChronicled :
    (order_id : String) (now : Instant) → Keeps IsChronicled (mark_checkout_unknown order_id now)
unfolding mark_checkout_unknown update_orders
mark_checkout_unknown-IsChronicled order_id now =
    triple-modify _ λ db c. leave_rows _ _ (λ o. refl) (λ o. refl) c
