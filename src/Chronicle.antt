-- ===== src/Chronicle.antt =====
-- The event log of the orders as their history: replaying an order's events through the transitions
-- of internal/entity/order.go gives the status and the version of its row. This file has the
-- specification; the modules below show that the repositories keep to it.
pub mod Log
pub mod Rows
pub mod Steps
pub mod Orders
pub mod Payments
pub mod Settlements
pub mod Deposits
pub mod Retirements
use kailo_be.Prelude.{
  ℕ, ◌+◌, ◌≡◌, String, Bool, true, false, ◌&&◌, Option, none, some, List, [], ◌∷◌, any, All, str_eq,
  ◌==◌, if◌then◌else◌,
}
use kailo_be.Prelude.Errors.{Error}
use kailo_be.Order.{OrderStatus, created, status_eq, Order, transition}
use kailo_be.Store.{Database}
use kailo_be.Store.Rows.{OrderRecord, OrderEvent}

-- What the events of an order come to: none yet, an order, or a step that no order can take.
pub data History : Type 0 where
  nothing_yet : History
  so_far : Order → History
  broken : History

abbrev pub is_status : Option OrderStatus → OrderStatus → Bool
is_status none s = false
is_status (some t) s = status_eq t s

-- The first event creates the order at version 1.
abbrev pub begun : ℕ → Option OrderStatus → Option OrderStatus → History
begun version none (some s) =
    if version == 1 && status_eq s created
    then so_far (record { status = created; version = 1 })
    else broken
begun version _ _ = broken

abbrev pub moved : Order × Option Error → History
moved (order, none) = so_far order
moved (order, some e) = broken

-- Each later event has the next version, the status so far, and a transition that `Transition`
-- accepts.
abbrev pub continued : Order → ℕ → Option OrderStatus → Option OrderStatus → History
continued order version previous none = broken
continued order version previous (some s) =
    if version == order.version + 1 && is_status previous order.status
    then moved (transition order s)
    else broken

unfoldable pub advance : History → ℕ → Option OrderStatus → Option OrderStatus → History
advance nothing_yet version previous next = begun version previous next
advance (so_far order) version previous next = continued order version previous next
advance broken version previous next = broken

abbrev pub apply : History → OrderEvent → History
apply past e = advance past e.aggregate_version e.previous_status e.new_status

-- The events of one order, in the order of the log.
unfoldable pub replay : History → String → List OrderEvent → History
replay past id [] = past
replay past id (e ∷ rest) = replay (if str_eq e.order_id id then apply past e else past) id rest

abbrev pub current : OrderRecord → Order
current o = record { status = o.status; version = o.version }

abbrev pub has_order : List OrderRecord → String → Bool
has_order orders id = any (λ (o : OrderRecord). str_eq o.id id) orders

abbrev pub logged : String → List OrderEvent → History
logged id events = replay nothing_yet id events

-- The log of every order comes to its row, and there are no events of other orders.
pub record Chronicled (orders : List OrderRecord) (events : List OrderEvent) : Type 0 where
  pub rows : All (λ (o : OrderRecord). logged o.id events ≡ so_far (current o)) orders
  pub known : All (λ (e : OrderEvent). has_order orders e.order_id ≡ true) events

abbrev pub IsChronicled : Database → Type 0
IsChronicled db = Chronicled db.orders db.order_events

-- In the middle of a transaction: the log of one order has come to past and its row to target.
abbrev pub RowOf : String → History → Order → List OrderEvent → OrderRecord → Type 0
RowOf id past target events o =
    (str_eq o.id id ≡ true → (logged id events ≡ past) × (current o ≡ target))
    × (str_eq o.id id ≡ false → logged o.id events ≡ so_far (current o))

pub record Moving (id : String) (past : History) (target : Order) (orders : List OrderRecord)
    (events : List OrderEvent) : Type 0 where
  pub rows : All (RowOf id past target events) orders
  pub known : All (λ (e : OrderEvent). has_order orders e.order_id ≡ true) events
  pub stands : has_order orders id ≡ true

abbrev pub IsMoving : String → History → Order → Database → Type 0
IsMoving id past target db = Moving id past target db.orders db.order_events
