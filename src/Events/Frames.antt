-- ===== src/Events/Frames.antt =====
-- Appending an order event keeps what does not look at the tables that it writes.
use kailo_be.Prelude.{ℕ, String, Bool, true, false, Option, none, some, List}
use kailo_be.Prelude.Time.{Instant}
use kailo_be.Order.{OrderStatus}
use kailo_be.Store.{Database}
use kailo_be.Store.Rows.{OrderEvent, OutboxMessage}
use kailo_be.Store.Views.{OrderView, WebhookEvent}
use kailo_be.Store.Triples.{
  Keeps, Keeps->>=, Keeps-gets, Keeps-found, Keeps-new_id, triple-wrapping, triple-pure,
}
use kailo_be.Store.Frames.{
  create_order_event-Keeps, create_webhook_event-Keeps, create_outbox_message-Keeps,
}
use kailo_be.Events.Append.{
  completed_view, append_public_webhook_event, publish, append_order_event_from_source,
  append_order_event,
}

-- A property that does not change with new ids, webhook events and jobs.
pub record IsUnwatched (P : Database → Type 0) : Type 0 where
  pub supply : (db : Database) (ids : List String) → P db → P (record db { supply = ids })
  pub webhooks :
      (db : Database) (rows : List WebhookEvent) → P db → P (record db { webhook_events = rows })
  pub jobs :
      (db : Database) (rows : List OutboxMessage) → P db → P (record db { outbox_messages = rows })

module _ {P : Database → Type 0} (free : IsUnwatched P) where
  completed_view-Keeps :
      (b : Bool) (order_id : String) (view : OrderView) → Keeps P (completed_view b order_id view)
  unfolding completed_view
  completed_view-Keeps false order_id view = triple-pure _ (λ db h. h)
  completed_view-Keeps true order_id view = Keeps->>= (Keeps-gets _) λ _.
      Keeps->>= (triple-wrapping _ (Keeps-found _ _)) λ _.
        Keeps->>= (Keeps-gets _)
          λ _. Keeps->>= (triple-wrapping _ (Keeps-found _ _)) λ _. triple-pure _ (λ db h. h)

  pub append_public_webhook_event-Keeps :
      (source_id order_id event_type : String) (next : Option OrderStatus) (now : Instant)
      → Keeps P (append_public_webhook_event source_id order_id event_type next now)
  unfolding append_public_webhook_event
  append_public_webhook_event-Keeps source_id order_id event_type next now =
      Keeps->>= (Keeps-gets _) λ _. Keeps->>= (triple-wrapping _ (Keeps-found _ _)) λ order.
        Keeps->>= (completed_view-Keeps _ _ _) λ view. Keeps->>= (Keeps-new_id free.supply) λ _.
          Keeps->>= (triple-wrapping _ (create_webhook_event-Keeps free.webhooks _)) λ _.
            Keeps->>= (Keeps-new_id free.supply)
              λ _. triple-wrapping _ (create_outbox_message-Keeps free.jobs _)

  pub publish-Keeps :
      (public_type : Option String) (source_id order_id : String) (next : Option OrderStatus)
      (now : Instant)
      → Keeps P (publish public_type source_id order_id next now)
  publish-Keeps none source_id order_id next now = triple-pure _ (λ db h. h)
  publish-Keeps (some event_type) source_id order_id next now =
      append_public_webhook_event-Keeps source_id order_id event_type next now

  module _
      (log : (db : Database) (rows : List OrderEvent)
        → P db
        → P (record db { order_events = rows })) where
    pub append_order_event_from_source-Keeps :
        (order_id : String) (version : ℕ) (event_type : String) (previous next : Option OrderStatus)
        (source : String) (now : Instant)
        → Keeps P
            (append_order_event_from_source order_id version event_type previous next source now)
    unfolding append_order_event_from_source
    append_order_event_from_source-Keeps order_id version event_type previous next source now =
        Keeps->>= (Keeps-new_id free.supply) λ _.
          Keeps->>= (triple-wrapping _ (create_order_event-Keeps log _))
            λ _. publish-Keeps _ _ _ _ _

    pub append_order_event-Keeps :
        (order_id : String) (version : ℕ) (event_type : String) (previous next : Option OrderStatus)
        (now : Instant)
        → Keeps P (append_order_event order_id version event_type previous next now)
    unfolding append_order_event
    append_order_event-Keeps order_id version event_type previous next now =
        append_order_event_from_source-Keeps order_id version event_type previous next "api" now
