-- ===== src/Chronicle/Steps.antt =====
-- The statements on the orders and their log, as triples.
use kailo_be.Prelude.{
  ℕ, ◌+◌, ◌≡◌, refl, sym, ap, subst, ◌∙◌, arith, String, Bool, true, false, Option, some, List,
  find-IsIn, IsIn, str_eq,
}
use kailo_be.Prelude.Time.{Instant}
use kailo_be.Order.{OrderStatus, Order}
use kailo_be.Order.Diagram.{◌⟶◌}
use kailo_be.Store.{Database}
use kailo_be.Store.Rows.{OrderRecord, OrderEvent}
use kailo_be.Store.Statements.{create_order, create_order_event, update_orders}
use kailo_be.Store.Triples.{
  Triple, triple->>=, triple-post, triple-wrapping, triple-modify, triple-gets, triple-raise_if,
  triple-found, Keeps-gets, Keeps-raise_if, Keeps-new_id,
}
use kailo_be.Events.Append.{append_order_event_from_source, append_order_event, order_event}
use kailo_be.Events.Frames.{IsUnwatched, publish-Keeps}
use kailo_be.Onramp.Checkouts.{lock_order, same_version}
use kailo_be.Chronicle.{
  History, nothing_yet, so_far, advance, apply, current, has_order, IsChronicled, IsMoving,
}
use kailo_be.Chronicle.Log.{start-Moving}
use kailo_be.Chronicle.Rows.{move_rows, log_event, finish-Moving, add_order, advance-⟶}

pub chronicle_free : IsUnwatched IsChronicled
chronicle_free = record { supply = λ db ids h. h; webhooks = λ db rows h. h; jobs = λ db rows h. h }

pub IsMoving-free :
    (id : String) (past : History) (target : Order) → IsUnwatched (IsMoving id past target)
IsMoving-free id past target = record {
  supply = λ db ids h. h;
  webhooks = λ db rows h. h;
  jobs = λ db rows h. h;
}

pub create_order-IsMoving :
    (row : OrderRecord)
    → Triple IsChronicled (create_order row) (λ u. IsMoving row.id nothing_yet (current row))
unfolding create_order
create_order-IsMoving row = triple->>= (Keeps-gets _) λ _. triple->>= (Keeps-raise_if _ _) λ _.
    triple->>= (triple-gets _) λ rows. triple->>= (triple-raise_if _ _) λ _. triple-modify _ λ db h.
      add_order row (subst (λ (os : List OrderRecord). has_order os row.id ≡ false) h.0.1 h.1) h.0.0

create_order_event-IsMoving :
    {id : String} {past : History} {target : Order} (e : OrderEvent)
    → e.order_id ≡ id
    → Triple
        (IsMoving id past target)
        (create_order_event e)
        (λ u. IsMoving id (apply past e) target)
unfolding create_order_event
create_order_event-IsMoving e mine = triple->>= (Keeps-raise_if _ _) λ _.
    triple->>= (Keeps-gets _)
      λ _. triple->>= (Keeps-raise_if _ _) λ _. triple-modify _ (λ db h. log_event e mine h)

pub append_order_event_from_source-IsMoving :
    {past : History} {target : Order} (order_id : String) (version : ℕ) (event_type : String)
    (previous next : Option OrderStatus) (source : String) (now : Instant)
    → Triple
        (IsMoving order_id past target)
        (append_order_event_from_source order_id version event_type previous next source now)
        (λ u. IsMoving order_id (advance past version previous next) target)
unfolding append_order_event_from_source
append_order_event_from_source-IsMoving order_id version event_type previous next source now =
    triple->>= (Keeps-new_id (λ db ids h. h)) λ id.
      triple->>=
        (triple-wrapping _ (
          create_order_event-IsMoving
            (order_event id order_id version event_type previous next source now) refl))
        λ _. publish-Keeps (IsMoving-free _ _ _) _ _ _ _ _

pub append_order_event-IsMoving :
    {past : History} {target : Order} (order_id : String) (version : ℕ) (event_type : String)
    (previous next : Option OrderStatus) (now : Instant)
    → Triple
        (IsMoving order_id past target)
        (append_order_event order_id version event_type previous next now)
        (λ u. IsMoving order_id (advance past version previous next) target)
unfolding append_order_event
append_order_event-IsMoving order_id version event_type previous next now =
    append_order_event_from_source-IsMoving order_id version event_type previous next "api" now

-- A locked row is one of the table.
pub lock_order-IsIn :
    {P : Database → Type 0} (message order_id : String)
    → Triple P (lock_order message order_id) (λ order db. P db × IsIn order db.orders)
lock_order-IsIn message order_id = triple->>= (triple-gets _) λ row. triple-wrapping _ (
    triple-post (triple-found _ row) λ order db h. (
      h.0.0,
      (find-IsIn (λ (o : OrderRecord). str_eq o.id order_id) db.orders (sym h.0.1 ∙ h.1)).0,
    ))

-- From here on the log of a locked order is followed.
abbrev pub Locked : OrderRecord → Database → Type 0
Locked order db = IsChronicled db × IsIn order db.orders

pub Locked-IsMoving :
    (order : OrderRecord) (db : Database)
    → Locked order db
    → IsMoving order.id (so_far (current order)) (current order) db
Locked-IsMoving order db h = start-Moving db.orders db.order_events order h.0 h.1

-- An update of the rows of an order that its log is followed for.
pub update_row-IsMoving :
    {past : History} {start : Order} (id : String) (target : Order) (p : OrderRecord → Bool)
    (f : OrderRecord → OrderRecord)
    → ((o : OrderRecord) → (f o).id ≡ o.id)
    → ((o : OrderRecord) → current (f o) ≡ target)
    → ((o : OrderRecord) → p o ≡ true → str_eq o.id id ≡ true)
    → ((o : OrderRecord) → str_eq o.id id ≡ true → current o ≡ start → p o ≡ true)
    → Triple (IsMoving id past start) (update_orders p f) (λ u. IsMoving id past target)
unfolding update_orders
update_row-IsMoving id target p f same gives only hits =
    triple-modify _ λ db m. move_rows target p f same gives only hits m

-- The update of a locked order, with or without its version in the condition.
pub update_orders-IsMoving :
    {past : History} (order : OrderRecord) (target : Order) (f : OrderRecord → OrderRecord)
    → ((o : OrderRecord) → (f o).id ≡ o.id)
    → ((o : OrderRecord) → current (f o) ≡ target)
    → Triple
        (IsMoving order.id past (current order))
        (update_orders (same_version order) f)
        (λ u. IsMoving order.id past target)
update_orders-IsMoving order target f same gives =
    update_row-IsMoving order.id target (same_version order) f same gives (λ o e. ground arith)
      (λ o e k. ground (arith, ap (λ (c : Order). c.version) k))

pub update_order-IsMoving :
    {past : History} (order : OrderRecord) (target : Order) (f : OrderRecord → OrderRecord)
    → ((o : OrderRecord) → (f o).id ≡ o.id)
    → ((o : OrderRecord) → current (f o) ≡ target)
    → Triple
        (IsMoving order.id past (current order))
        (update_orders (λ o. str_eq o.id order.id) f)
        (λ u. IsMoving order.id past target)
update_order-IsMoving order target f same gives =
    update_row-IsMoving order.id target (λ o. str_eq o.id order.id) f same gives (λ o e. e)
      (λ o e k. e)

-- The log after an event, when it is known what that event makes of it.
pub logged_as :
    {id : String} {past past' : History} {target : Order} (db : Database)
    → past ≡ past'
    → IsMoving id past target db
    → IsMoving id past' target db
logged_as {id} {target = target} db e m = subst (λ (h : History). IsMoving id h target db) e m

-- An event that brings the log to the row.
pub last_event :
    (order : OrderRecord) (s : OrderStatus) (event_type source : String) (now : Instant)
    → order.status ⟶ s
    → Triple
        (IsMoving order.id
          (so_far (current order))
          (record { status = s; version = order.version + 1 }))
        (append_order_event_from_source order.id
          (order.version + 1)
          event_type
          (some order.status)
          (some s)
          source
          now)
        (λ u. IsChronicled)
last_event order s event_type source now edge =
    triple-post (append_order_event_from_source-IsMoving order.id _ event_type _ _ source now)
      λ u db m. finish-Moving (logged_as db (advance-⟶ (current order) edge) m)

pub last_api_event :
    (order : OrderRecord) (s : OrderStatus) (event_type : String) (now : Instant)
    → order.status ⟶ s
    → Triple
        (IsMoving order.id
          (so_far (current order))
          (record { status = s; version = order.version + 1 }))
        (append_order_event order.id
          (order.version + 1)
          event_type
          (some order.status)
          (some s)
          now)
        (λ u. IsChronicled)
unfolding append_order_event
last_api_event order s event_type now edge = last_event order s event_type "api" now edge
