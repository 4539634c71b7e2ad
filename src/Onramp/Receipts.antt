-- ===== src/Onramp/Receipts.antt =====
-- The callback receipts of internal/repository/onramp_repository.go are written to one table only.
use kailo_be.Prelude.{String, Bool, true, false, Option, none, some, List}
use kailo_be.Prelude.Time.{Instant}
use kailo_be.Store.{Database}
use kailo_be.Store.Rows.{GatewayEvent}
use kailo_be.Store.Triples.{
  Keeps, Keeps->>=, Keeps-gets, Keeps-found, Keeps-raise_if, Keeps-new_id, triple-pure,
  triple-modify, triple-wrapping,
}
use kailo_be.Store.Frames.{update_gateway_events-Keeps}
use kailo_be.Onramp.Payments.{
  CallbackReceipt, record_new, insert_unless, seen_receipt, record_callback_receipt,
  complete_callback,
}

module _ {P : Database → Type 0}
    (supply : (db : Database) (ids : List String) → P db → P (record db { supply = ids }))
    (gateway : (db : Database) (rows : List GatewayEvent)
      → P db
      → P (record db { gateway_events = rows })) where
  seen_receipt-Keeps :
      (receipt : CallbackReceipt) (g : GatewayEvent) → Keeps P (seen_receipt receipt g)
  seen_receipt-Keeps receipt g = Keeps->>= (Keeps-raise_if _ _) λ _. triple-pure _ (λ db h. h)

  insert_unless-Keeps :
      (b : Bool) (receipt : CallbackReceipt) (row : GatewayEvent)
      → Keeps P (insert_unless b receipt row)
  insert_unless-Keeps false receipt row =
      Keeps->>= (triple-modify _ (λ db h. gateway db _ h)) λ _. triple-pure _ (λ db h. h)
  insert_unless-Keeps true receipt row = Keeps->>= (Keeps-gets _) λ found_row.
      Keeps->>= (triple-wrapping _ (Keeps-found _ found_row)) λ g. seen_receipt-Keeps receipt g

  pub record_callback_receipt-Keeps :
      (receipt : CallbackReceipt) (now : Instant) (others : Database → Database)
      → ((db : Database) → P db → P (others db))
      → Keeps P (record_callback_receipt receipt now others)
  unfolding record_callback_receipt
  record_callback_receipt-Keeps receipt now others kept = Keeps->>= (Keeps-gets _) rest
    where
      rest : (row : Option GatewayEvent) → Keeps P (record_new receipt now others row)
      rest (some g) = seen_receipt-Keeps receipt g
      rest none = Keeps->>= (triple-modify _ kept) λ _.
          Keeps->>= (Keeps-new_id supply)
            λ id. Keeps->>= (Keeps-gets _) λ taken. insert_unless-Keeps taken receipt _

  pub complete_callback-Keeps :
      (event_id result : String) (now : Instant) → Keeps P (complete_callback event_id result now)
  unfolding complete_callback
  complete_callback-Keeps event_id result now = update_gateway_events-Keeps gateway _ _
