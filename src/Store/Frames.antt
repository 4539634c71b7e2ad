-- ===== src/Store/Frames.antt =====
-- The statements that a property does not look at keep it: each lemma asks that the property does
-- not change with the rows of the statement's table.
use kailo_be.Prelude.{ℕ, String, List, Bool}
use kailo_be.Prelude.Errors.{Error}
use kailo_be.Store.{Database, gets, raise_if, modify, ◌>>=◌, ◌>>◌}
use kailo_be.Store.Rows.{
  OrderRecord, TreasuryAccount, TreasuryReservation, OrderEvent, PaymentCheckout, GatewayEvent,
  StellarTransaction, IdempotencyRecord, OutboxMessage,
}
use kailo_be.Store.Views.{OfframpPayout, OrderFinancial, WebhookEvent, Sep24Transaction}
use kailo_be.Store.Statements.{
  create_reservation, create_treasury_account, update_treasury_accounts, reserve, unreserve,
  create_order, create_order_financial, create_order_event, create_checkout,
  create_stellar_transaction, create_idempotency_record, create_outbox_message,
  create_webhook_event, create_payout, update_orders, update_stellar, update_idempotency,
  update_outbox, update_gateway_events, update_sep24, update_reservations,
}
use kailo_be.Store.Triples.{Keeps, Keeps->>=, Keeps-gets, Keeps-raise_if, triple-modify}

module _ {P : Database → Type 0} where
  -- The last steps of an insert: a look at the database, a test, and the row that is added.
  insert-Keeps :
      {A : Type 0} (f : Database → A) (b : A → Bool) (e : Error) (g : Database → Database)
      → ((db : Database) → P db → P (g db))
      → Keeps P (gets f >>= λ a. raise_if (b a) e >> modify g)
  insert-Keeps f b e g h =
      Keeps->>= (Keeps-gets f) λ a. Keeps->>= (Keeps-raise_if (b a) e) λ _. triple-modify g h

  pub create_order-Keeps :
      ((db : Database) (rows : List OrderRecord) → P db → P (record db { orders = rows }))
      → (row : OrderRecord) → Keeps P (create_order row)
  unfolding create_order
  create_order-Keeps h row =
      Keeps->>= (Keeps-gets _)
        λ _. Keeps->>= (Keeps-raise_if _ _) λ _. insert-Keeps _ _ _ _ (λ db p. h db _ p)

  pub create_order_financial-Keeps :
      ((db : Database) (rows : List OrderFinancial)
        → P db
        → P (record db { order_financials = rows }))
      → (row : OrderFinancial) → Keeps P (create_order_financial row)
  unfolding create_order_financial
  create_order_financial-Keeps h row = insert-Keeps _ _ _ _ (λ db p. h db _ p)

  pub create_order_event-Keeps :
      ((db : Database) (rows : List OrderEvent) → P db → P (record db { order_events = rows }))
      → (row : OrderEvent) → Keeps P (create_order_event row)
  unfolding create_order_event
  create_order_event-Keeps h row =
      Keeps->>= (Keeps-raise_if _ _) λ _. insert-Keeps _ _ _ _ (λ db p. h db _ p)

  pub create_checkout-Keeps :
      ((db : Database) (rows : List PaymentCheckout)
        → P db
        → P (record db { payment_checkouts = rows }))
      → (row : PaymentCheckout) → Keeps P (create_checkout row)
  unfolding create_checkout
  create_checkout-Keeps h row = insert-Keeps _ _ _ _ (λ db p. h db _ p)

  pub create_stellar_transaction-Keeps :
      ((db : Database) (rows : List StellarTransaction)
        → P db
        → P (record db { stellar_transactions = rows }))
      → (row : StellarTransaction) → Keeps P (create_stellar_transaction row)
  unfolding create_stellar_transaction
  create_stellar_transaction-Keeps h row =
      Keeps->>= (Keeps-gets _)
        λ _. Keeps->>= (Keeps-raise_if _ _) λ _. insert-Keeps _ _ _ _ (λ db p. h db _ p)

  pub create_idempotency_record-Keeps :
      ((db : Database) (rows : List IdempotencyRecord)
        → P db
        → P (record db { idempotency_records = rows }))
      → (row : IdempotencyRecord) → Keeps P (create_idempotency_record row)
  unfolding create_idempotency_record
  create_idempotency_record-Keeps h row = insert-Keeps _ _ _ _ (λ db p. h db _ p)

  pub create_outbox_message-Keeps :
      ((db : Database) (rows : List OutboxMessage)
        → P db
        → P (record db { outbox_messages = rows }))
      → (row : OutboxMessage) → Keeps P (create_outbox_message row)
  unfolding create_outbox_message
  create_outbox_message-Keeps h row = insert-Keeps _ _ _ _ (λ db p. h db _ p)

  pub create_webhook_event-Keeps :
      ((db : Database) (rows : List WebhookEvent) → P db → P (record db { webhook_events = rows }))
      → (row : WebhookEvent) → Keeps P (create_webhook_event row)
  unfolding create_webhook_event
  create_webhook_event-Keeps h row = insert-Keeps _ _ _ _ (λ db p. h db _ p)

  pub create_payout-Keeps :
      ((db : Database) (rows : List OfframpPayout)
        → P db
        → P (record db { offramp_payouts = rows }))
      → (row : OfframpPayout) → Keeps P (create_payout row)
  unfolding create_payout
  create_payout-Keeps h row =
      Keeps->>= (Keeps-raise_if _ _) λ _. insert-Keeps _ _ _ _ (λ db p. h db _ p)

  pub update_orders-Keeps :
      ((db : Database) (rows : List OrderRecord) → P db → P (record db { orders = rows }))
      → (p : OrderRecord → Bool) (f : OrderRecord → OrderRecord) → Keeps P (update_orders p f)
  unfolding update_orders
  update_orders-Keeps h p f = triple-modify _ (λ db k. h db _ k)

  pub update_stellar-Keeps :
      ((db : Database) (rows : List StellarTransaction)
        → P db
        → P (record db { stellar_transactions = rows }))
      → (p : StellarTransaction → Bool) (f : StellarTransaction → StellarTransaction)
      → Keeps P (update_stellar p f)
  unfolding update_stellar
  update_stellar-Keeps h p f = triple-modify _ (λ db k. h db _ k)

  pub update_idempotency-Keeps :
      ((db : Database) (rows : List IdempotencyRecord)
        → P db
        → P (record db { idempotency_records = rows }))
      → (p : IdempotencyRecord → Bool) (f : IdempotencyRecord → IdempotencyRecord)
      → Keeps P (update_idempotency p f)
  unfolding update_idempotency
  update_idempotency-Keeps h p f = triple-modify _ (λ db k. h db _ k)

  pub update_outbox-Keeps :
      ((db : Database) (rows : List OutboxMessage)
        → P db
        → P (record db { outbox_messages = rows }))
      → (p : OutboxMessage → Bool) (f : OutboxMessage → OutboxMessage) → Keeps P (update_outbox p f)
  unfolding update_outbox
  update_outbox-Keeps h p f = triple-modify _ (λ db k. h db _ k)

  pub update_gateway_events-Keeps :
      ((db : Database) (rows : List GatewayEvent) → P db → P (record db { gateway_events = rows }))
      → (p : GatewayEvent → Bool) (f : GatewayEvent → GatewayEvent)
      → Keeps P (update_gateway_events p f)
  unfolding update_gateway_events
  update_gateway_events-Keeps h p f = triple-modify _ (λ db k. h db _ k)

  pub update_sep24-Keeps :
      ((db : Database) (rows : List Sep24Transaction)
        → P db
        → P (record db { sep24_transactions = rows }))
      → (p : Sep24Transaction → Bool) (f : Sep24Transaction → Sep24Transaction)
      → Keeps P (update_sep24 p f)
  unfolding update_sep24
  update_sep24-Keeps h p f = triple-modify _ (λ db k. h db _ k)

  pub update_reservations-Keeps :
      ((db : Database) (rows : List TreasuryReservation)
        → P db
        → P (record db { treasury_reservations = rows }))
      → (p : TreasuryReservation → Bool) (f : TreasuryReservation → TreasuryReservation)
      → Keeps P (update_reservations p f)
  unfolding update_reservations
  update_reservations-Keeps h p f = triple-modify _ (λ db k. h db _ k)

  pub create_reservation-Keeps :
      ((db : Database) (rows : List TreasuryReservation)
        → P db
        → P (record db { treasury_reservations = rows }))
      → (row : TreasuryReservation) → Keeps P (create_reservation row)
  unfolding create_reservation
  create_reservation-Keeps h row =
      Keeps->>= (Keeps-raise_if _ _) λ _. insert-Keeps _ _ _ _ (λ db p. h db _ p)

  module _
      (h : (db : Database) (rows : List TreasuryAccount)
        → P db
        → P (record db { treasury_accounts = rows })) where
    pub create_treasury_account-Keeps :
        (row : TreasuryAccount) → Keeps P (create_treasury_account row)
    unfolding create_treasury_account
    create_treasury_account-Keeps row =
        Keeps->>= (Keeps-raise_if _ _) λ _. insert-Keeps _ _ _ _ (λ db p. h db _ p)

    pub update_treasury_accounts-Keeps :
        (p : TreasuryAccount → Bool) (f : TreasuryAccount → TreasuryAccount)
        → Keeps P (update_treasury_accounts p f)
    unfolding update_treasury_accounts
    update_treasury_accounts-Keeps p f = insert-Keeps _ _ _ _ (λ db p. h db _ p)

    pub reserve-Keeps : (id : String) (n : ℕ) → Keeps P (reserve id n)
    unfolding reserve update_treasury_accounts
    reserve-Keeps id n = insert-Keeps _ _ _ _ (λ db p. h db _ p)

    pub unreserve-Keeps : (id : String) (n : ℕ) → Keeps P (unreserve id n)
    unfolding unreserve update_treasury_accounts
    unreserve-Keeps id n =
        Keeps->>= (Keeps-gets _)
          λ _. Keeps->>= (Keeps-raise_if _ _) λ _. insert-Keeps _ _ _ _ (λ db p. h db _ p)
