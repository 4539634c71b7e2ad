-- ===== src/Chronicle/Log.antt =====
-- Lemmas on the log and on the rows of the orders.
use kailo_be.Prelude.{
  ℕ, ◌≡◌, refl, sym, ap, ◌∙◌, arith, String, Bool, true, false, List, [], ◌∷◌, ◌++◌, All, inl, inr,
  Bool-cases, All-map, All-IsIn, any-IsIn, IsIn, str_eq, eq_iff, ◌==◌, if◌then◌else◌,
}
use kailo_be.Order.{
  OrderStatus, unknown, created, payment_pending, payment_confirmed, stellar_processing, completed,
  expired, payment_failed, stellar_failed, cancelled, asset_pending, asset_received, asset_invalid,
  retirement_processing, withdrawal_processing, retirement_failed, withdrawal_failed, status_index,
  status_eq,
}
use kailo_be.Store.Rows.{OrderRecord, OrderEvent}
use kailo_be.Chronicle.{
  History, nothing_yet, so_far, apply, replay, logged, current, has_order, Chronicled, RowOf,
  Moving,
}

-- The status of an index.
status_of : ℕ → OrderStatus
status_of n =
    if n == 1
    then created
    else if n == 2
    then payment_pending
    else if n == 3
    then payment_confirmed
    else if n == 4
    then stellar_processing
    else if n == 5
    then completed
    else if n == 6
    then expired
    else if n == 7
    then payment_failed
    else if n == 8
    then stellar_failed
    else if n == 9
    then cancelled
    else if n == 10
    then asset_pending
    else if n == 11
    then asset_received
    else if n == 12
    then asset_invalid
    else if n == 13
    then retirement_processing
    else if n == 14
    then withdrawal_processing
    else if n == 15
    then retirement_failed
    else if n == 16
    then withdrawal_failed
    else unknown

status_of-status_index : (s : OrderStatus) → status_of (status_index s) ≡ s
unfolding status_of
status_of-status_index unknown = refl
status_of-status_index created = refl
status_of-status_index _ = refl

pub status_eq-≡ : (s t : OrderStatus) → status_eq s t ≡ true → s ≡ t
status_eq-≡ s t h =
    sym (status_of-status_index s) ∙ ap status_of (ground arith) ∙ status_of-status_index t

pub replay-append :
    (id : String) (events : List OrderEvent) (e : OrderEvent) (past : History)
    → replay past id (events ++ e ∷ [])
      ≡ (if str_eq e.order_id id then apply (replay past id events) e else replay past id events)
unfolding replay
replay-append id [] e past = refl
replay-append id (x ∷ events) e past = replay-append id events e _

-- Nothing is logged of an order that is not there.
pub logged-none :
    (orders : List OrderRecord) (id : String) (events : List OrderEvent)
    → All (λ (e : OrderEvent). has_order orders e.order_id ≡ true) events
    → has_order orders id ≡ false
    → logged id events ≡ nothing_yet
unfolding replay
logged-none orders id [] h k = refl
logged-none orders id (e ∷ events) (h, hs) k =
    ap (λ (b : Bool). replay (if b then apply nothing_yet e else nothing_yet) id events) other
    ∙ logged-none orders id events hs k
  where
    other : str_eq e.order_id id ≡ false
    other = elim (Bool-cases (str_eq e.order_id id)) [
      | inl t ↦ absurd (cc (h, k, ap (has_order orders) (((eq_iff e.order_id id).0) t)))
      | inr t ↦ t
    ]

-- The rows of an order whose log came to its row: any row of its id is at the same point.
pub start-Moving :
    (orders : List OrderRecord) (events : List OrderEvent) (order : OrderRecord)
    → Chronicled orders events
    → IsIn order orders
    → Moving order.id (so_far (current order)) (current order) orders events
start-Moving orders events order c m = record {
  rows = All-map row orders c.rows;
  known = c.known;
  stands =
      any-IsIn (λ (o : OrderRecord). str_eq o.id order.id) m (((eq_iff order.id order.id).1) refl);
}
  where
    mine : logged order.id events ≡ so_far (current order)
    mine = All-IsIn (λ (o : OrderRecord). logged o.id events ≡ so_far (current o)) c.rows m

    row :
        (o : OrderRecord)
        → logged o.id events ≡ so_far (current o)
        → RowOf order.id (so_far (current order)) (current order) events o
    row o h = (
      λ e. (
        mine,
        same (sym h ∙ ap (λ (id : String). logged id events) (((eq_iff o.id order.id).0) e) ∙ mine),
      ),
      λ e. h,
    )
      where
        same : so_far (current o) ≡ so_far (current order) → current o ≡ current order
        same k = cc
