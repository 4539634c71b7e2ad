-- ===== src/Chronicle/Rows.antt =====
-- The steps of the log and of the rows, on lists.
use kailo_be.Prelude.{
  ◌+◌, ◌≡◌, refl, sym, ap, ◌∙◌, arith, String, Bool, true, false, none, some, List, [], ◌∷◌, ◌++◌,
  All, All-map, All-append, str_eq, eq_iff, if◌then◌else◌, Bool-cases, inl, inr,
}
use kailo_be.Order.{OrderStatus, created, Order, transition}
use kailo_be.Order.Diagram.{◌⟶◌, ⟶-allowed_transition}
use kailo_be.Store.Rows.{OrderRecord, OrderEvent}
use kailo_be.Store.Table.{update}
use kailo_be.Treasury.Rows.{All-update}
use kailo_be.Chronicle.{
  History, nothing_yet, so_far, advance, apply, logged, current, has_order, Chronicled, RowOf,
  Moving,
}
use kailo_be.Chronicle.Log.{replay-append, logged-none}

has_order-update :
    (p : OrderRecord → Bool) (f : OrderRecord → OrderRecord) (id : String)
    → ((o : OrderRecord) → (f o).id ≡ o.id)
    → (orders : List OrderRecord) → has_order (update p f orders) id ≡ has_order orders id
has_order-update p f id same [] = refl
has_order-update p f id same (o ∷ orders) =
    ground (arith, has_order-update p f id same orders, same o)

-- The row of the order is changed.
pub move_rows :
    {id : String} {past : History} {start : Order} (target : Order) (p : OrderRecord → Bool)
    (f : OrderRecord → OrderRecord) {orders : List OrderRecord} {events : List OrderEvent}
    → ((o : OrderRecord) → (f o).id ≡ o.id)
    → ((o : OrderRecord) → current (f o) ≡ target)
    → ((o : OrderRecord) → p o ≡ true → str_eq o.id id ≡ true)
    → ((o : OrderRecord) → str_eq o.id id ≡ true → current o ≡ start → p o ≡ true)
    → Moving id past start orders events
    → Moving id past target (update p f orders) events
move_rows {id} {past} {start} target p f {orders} {events} same gives only hits m = record {
  rows =
      All-update (RowOf id past start events) (RowOf id past target events) p f changed left orders
        m.rows;
  known = All-map (λ e h. has_order-update p f e.order_id same orders ∙ h) events m.known;
  stands = has_order-update p f id same orders ∙ m.stands;
}
  where
    changed :
        (o : OrderRecord)
        → p o ≡ true
        → RowOf id past start events o
        → RowOf id past target events (f o)
    changed o e h = (
      λ k. ((h.0 (only o e)).0, gives o),
      λ k. absurd (cc (k, only o e, ap (λ (s : String). str_eq s id) (same o))),
    )

    left :
        (o : OrderRecord)
        → p o ≡ false
        → RowOf id past start events o
        → RowOf id past target events o
    left o e h = (λ k. absurd (cc (e, hits o k (h.0 k).1)), h.1)

-- An event of the order is logged.
pub log_event :
    {id : String} {past : History} {target : Order} {orders : List OrderRecord}
    {events : List OrderEvent} (e : OrderEvent)
    → e.order_id ≡ id
    → Moving id past target orders events
    → Moving id (apply past e) target orders (events ++ e ∷ [])
log_event {id} {past} {target} {orders} {events} e mine m = record {
  rows = All-map row orders m.rows;
  known =
      All-append (λ (e : OrderEvent). has_order orders e.order_id ≡ true) events m.known
        (ap (has_order orders) mine ∙ m.stands);
  stands = m.stands;
}
  where
    other : (o : OrderRecord) → str_eq o.id id ≡ false → str_eq e.order_id o.id ≡ false
    other o k = ground (arith, mine, k, eq_iff e.order_id o.id, eq_iff o.id id)

    row :
        (o : OrderRecord)
        → RowOf id past target events o
        → RowOf id (apply past e) target (events ++ e ∷ []) o
    row o h = (
      λ k. (
        replay-append id events e nothing_yet
            ∙ ap (λ (b : Bool). if b then apply (logged id events) e else logged id events)
                (((eq_iff e.order_id id).1) mine)
            ∙ ap (λ (past : History). apply past e) (h.0 k).0,
        (h.0 k).1,
      ),
      λ k.
          replay-append o.id events e nothing_yet
          ∙ ap (λ (b : Bool). if b then apply (logged o.id events) e else logged o.id events)
              (other o k)
          ∙ h.1 k,
    )

-- The log has caught up with the row.
pub finish-Moving :
    {id : String} {target : Order} {orders : List OrderRecord} {events : List OrderEvent}
    → Moving id (so_far target) target orders events
    → Chronicled orders events
finish-Moving {id} {target} {orders} {events} m = record {
  rows = All-map row orders m.rows;
  known = m.known;
}
  where
    row :
        (o : OrderRecord)
        → RowOf id (so_far target) target events o
        → logged o.id events ≡ so_far (current o)
    row o h = elim (Bool-cases (str_eq o.id id)) [
      | inl k ↦
          ap (λ (s : String). logged s events) (((eq_iff o.id id).0) k)
          ∙ (h.0 k).0
          ∙ ap so_far (sym (h.0 k).1)
      | inr k ↦ h.1 k
    ]

-- An order that is new has no events.
pub add_order :
    {orders : List OrderRecord} {events : List OrderEvent} (row : OrderRecord)
    → has_order orders row.id ≡ false
    → Chronicled orders events
    → Moving row.id nothing_yet (current row) (orders ++ row ∷ []) events
add_order {orders} {events} row new c = record {
  rows =
      All-append (RowOf row.id nothing_yet (current row) events) orders (others orders c.rows new)
        (λ k. (logged-none orders row.id events c.known new, refl), λ k. absurd (cc (k, itself)));
  known = All-map (λ e h. has_order-append orders e.order_id h) events c.known;
  stands = has_order-new orders;
}
  where
    itself : str_eq row.id row.id ≡ true
    itself = ((eq_iff row.id row.id).1) refl

    has_order-append :
        (orders : List OrderRecord) (id : String)
        → has_order orders id ≡ true
        → has_order (orders ++ row ∷ []) id ≡ true
    has_order-append [] id h = cc
    has_order-append (o ∷ orders) id h = ground (arith, has_order-append orders id)

    has_order-new : (orders : List OrderRecord) → has_order (orders ++ row ∷ []) row.id ≡ true
    has_order-new [] = ground (arith, itself)
    has_order-new (o ∷ orders) = ground (arith, has_order-new orders)

    others :
        (orders : List OrderRecord)
        → All (λ (o : OrderRecord). logged o.id events ≡ so_far (current o)) orders
        → has_order orders row.id ≡ false
        → All (RowOf row.id nothing_yet (current row) events) orders
    others [] h k = tt
    others (o ∷ orders) (h, hs) k =
        ((λ e. absurd (ground arith), λ e. h), others orders hs (ground arith))

-- What an event of the diagrams makes of the log.
pub advance-⟶ :
    (o : Order) {s : OrderStatus}
    → o.status ⟶ s
    → advance (so_far o) (o.version + 1) (some o.status) (some s)
      ≡ so_far (record { status = s; version = o.version + 1 })
unfolding advance transition
advance-⟶ o {s} edge = ground (arith, ⟶-allowed_transition edge)

pub advance-created :
    advance nothing_yet 1 none (some created) ≡ so_far (record { status = created; version = 1 })
unfolding advance
advance-created = refl

-- An update that leaves ids, statuses and versions.
pub leave_rows :
    (p : OrderRecord → Bool) (f : OrderRecord → OrderRecord) {orders : List OrderRecord}
    {events : List OrderEvent}
    → ((o : OrderRecord) → (f o).id ≡ o.id)
    → ((o : OrderRecord) → current (f o) ≡ current o)
    → Chronicled orders events
    → Chronicled (update p f orders) events
leave_rows p f {orders} {events} same kept c = record {
  rows =
      All-update (λ (o : OrderRecord). logged o.id events ≡ so_far (current o))
        (λ (o : OrderRecord). logged o.id events ≡ so_far (current o)) p f
        (λ o e h. ap (λ (id : String). logged id events) (same o) ∙ h ∙ ap so_far (sym (kept o)))
        (λ o e h. h) orders c.rows;
  known = All-map (λ e h. has_order-update p f e.order_id same orders ∙ h) events c.known;
}
