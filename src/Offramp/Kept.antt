-- ===== src/Offramp/Kept.antt =====
-- The off-ramp operations keep what does not look at the tables that they write, as the treasury's
-- balance.
use kailo_be.Prelude.{ℕ, String, Bool, true, false, Option, none, some, List, [], ◌∷◌}
use kailo_be.Prelude.Time.{Instant}
use kailo_be.Store.{Database, new_id}
use kailo_be.Store.Rows.{
  OrderRecord, OrderEvent, StellarTransaction, IdempotencyRecord, OutboxMessage,
}
use kailo_be.Store.Views.{OrderFinancial, OfframpPayout, Sep24Transaction}
use kailo_be.Store.Triples.{
  Keeps, Keeps->>=, Keeps-gets, Keeps-found, Keeps-raise_if, Keeps-new_id, triple-pure,
  triple-wrapping,
}
use kailo_be.Store.Frames.{
  create_order-Keeps, create_idempotency_record-Keeps, create_stellar_transaction-Keeps,
  create_outbox_message-Keeps, create_payout-Keeps, update_orders-Keeps, update_stellar-Keeps,
  update_sep24-Keeps, update_outbox-Keeps,
}
use kailo_be.Store.Statements.{update_orders, update_stellar, update_outbox}
use kailo_be.Order.{OrderStatus}
use kailo_be.Events.Append.{append_order_event, append_order_event_from_source}
use kailo_be.Treasury.Settlements.{order_row-Keeps}
use kailo_be.Offramp.Retirement.{requeue_unsubmitted_retirements}
use kailo_be.Offramp.Outcomes.{
  enqueue_sandbox_payout, simulate_new, simulate_unless, simulate_retirement, confirm_new,
  confirm_new_unless, confirm_retirement, fail_retirement,
}
use kailo_be.Offramp.Payouts.{ensure_payout, complete_order, complete_sandbox_payout}
use kailo_be.Events.Frames.{
  IsUnwatched, append_order_event-Keeps, append_order_event_from_source-Keeps,
}
use kailo_be.Treasury.Orders.{
  lift-Keeps, validate_retail_session_ownership-Keeps, create_sandbox_order_financial-Keeps,
  lock_order-Keeps,
}
use kailo_be.Offramp.{OfframpRepository, OfframpCreateRecord, create_offramp}
use kailo_be.Offramp.Deposits.{
  ObservedPayment, expire_deposit, expire_deposits, expire_pending_deposits, accept_deposit,
  accept_unless, record_asset_received, record_asset_invalid,
}

-- A property that does not change with the orders, their log, and what hangs on them.
pub record IsOffOrders (P : Database → Type 0) : Type 0 where
  pub free : IsUnwatched P
  pub orders : (db : Database) (rows : List OrderRecord) → P db → P (record db { orders = rows })
  pub financials :
      (db : Database) (rows : List OrderFinancial)
      → P db
      → P (record db { order_financials = rows })
  pub log : (db : Database) (rows : List OrderEvent) → P db → P (record db { order_events = rows })
  pub intents :
      (db : Database) (rows : List StellarTransaction)
      → P db
      → P (record db { stellar_transactions = rows })
  pub keys :
      (db : Database) (rows : List IdempotencyRecord)
      → P db
      → P (record db { idempotency_records = rows })
  pub payouts :
      (db : Database) (rows : List OfframpPayout) → P db → P (record db { offramp_payouts = rows })
  pub sep24 :
      (db : Database) (rows : List Sep24Transaction)
      → P db
      → P (record db { sep24_transactions = rows })

module _ {P : Database → Type 0} (off : IsOffOrders P) where
  -- The statements of the operations.
  moves : (p : OrderRecord → Bool) (f : OrderRecord → OrderRecord) → Keeps P (update_orders p f)
  moves = update_orders-Keeps off.orders

  logs :
      (order_id : String) (version : ℕ) (event_type : String) (previous next : Option OrderStatus)
      (now : Instant)
      → Keeps P (append_order_event order_id version event_type previous next now)
  logs = append_order_event-Keeps off.free off.log

  worker_logs :
      (order_id : String) (version : ℕ) (event_type : String) (previous next : Option OrderStatus)
      (source : String) (now : Instant)
      → Keeps P
          (append_order_event_from_source order_id version event_type previous next source now)
  worker_logs = append_order_event_from_source-Keeps off.free off.log

  draws : Keeps P new_id
  draws = Keeps-new_id off.free.supply

  jobs :
      (p : OutboxMessage → Bool) (f : OutboxMessage → OutboxMessage) → Keeps P (update_outbox p f)
  jobs = update_outbox-Keeps off.free.jobs

  intents :
      (p : StellarTransaction → Bool) (f : StellarTransaction → StellarTransaction)
      → Keeps P (update_stellar p f)
  intents = update_stellar-Keeps off.intents

  pub create_offramp-Keeps :
      (r : OfframpRepository) (c : OfframpCreateRecord) → Keeps P (create_offramp r c)
  unfolding create_offramp
  create_offramp-Keeps r c = Keeps->>= (lift-Keeps _) λ ownership.
      Keeps->>= (validate_retail_session_ownership-Keeps _) λ _.
        Keeps->>= (triple-wrapping _ (create_order-Keeps off.orders _)) λ _.
          Keeps->>= (create_sandbox_order_financial-Keeps off.free off.financials _) λ _.
            Keeps->>= (logs _ _ _ _ _ _) λ _. Keeps->>= (logs _ _ _ _ _ _) λ _.
              Keeps->>= draws λ _. triple-wrapping _ (create_idempotency_record-Keeps off.keys _)

  expire_deposit-Keeps : (order : OrderRecord) (now : Instant) → Keeps P (expire_deposit order now)
  unfolding expire_deposit
  expire_deposit-Keeps order now =
      Keeps->>= (Keeps-gets _)
        λ _. Keeps->>= (moves _ _) λ _. Keeps->>= (Keeps-raise_if _ _) λ _. logs _ _ _ _ _ _

  pub expire_pending_deposits-Keeps :
      (now : Instant) (limit : ℕ) → Keeps P (expire_pending_deposits now limit)
  unfolding expire_pending_deposits
  expire_pending_deposits-Keeps now limit = Keeps->>= (Keeps-gets _) each
    where
      each : (batch : List OrderRecord) → Keeps P (expire_deposits batch now)
      each [] = triple-pure _ (λ db h. h)
      each (order ∷ rest) =
          Keeps->>= (expire_deposit-Keeps order now)
            λ _. Keeps->>= (each rest) λ _. triple-pure _ (λ db h. h)

  accept_deposit-Keeps :
      (order : OrderRecord) (payment : ObservedPayment) (now : Instant)
      → Keeps P (accept_deposit order payment now)
  unfolding accept_deposit
  accept_deposit-Keeps order payment now = Keeps->>= draws λ _.
      Keeps->>= (triple-wrapping _ (create_stellar_transaction-Keeps off.intents _)) λ _.
        Keeps->>= (moves _ _) λ _. Keeps->>= (logs _ _ _ _ _ _) λ _. Keeps->>= draws λ _.
          Keeps->>= (triple-wrapping _ (create_stellar_transaction-Keeps off.intents _)) λ _.
            Keeps->>= draws λ _.
              Keeps->>= (triple-wrapping _ (create_outbox_message-Keeps off.free.jobs _))
                λ _. Keeps->>= (moves _ _) λ _. logs _ _ _ _ _ _

  pub record_asset_received-Keeps :
      (order_id : String) (payment : ObservedPayment) (now : Instant)
      → Keeps P (record_asset_received order_id payment now)
  unfolding record_asset_received
  record_asset_received-Keeps order_id payment now =
      Keeps->>= (lock_order-Keeps _ _) λ order. unless order _
    where
      unless : (order : OrderRecord) (b : Bool) → Keeps P (accept_unless b order payment now)
      unless order true = triple-pure _ (λ db h. h)
      unless order false =
          Keeps->>= (Keeps-raise_if _ _)
            λ _. Keeps->>= (Keeps-raise_if _ _) λ _. accept_deposit-Keeps order payment now

  pub record_asset_invalid-Keeps :
      (order_id : String) (now : Instant) → Keeps P (record_asset_invalid order_id now)
  unfolding record_asset_invalid
  record_asset_invalid-Keeps order_id now =
      Keeps->>= (Keeps-gets _)
        λ row. Keeps->>= (Keeps-found _ row) λ order. Keeps->>= (moves _ _) λ _. logs _ _ _ _ _ _

  enqueue_sandbox_payout-Keeps :
      (order_id : String) (now : Instant) → Keeps P (enqueue_sandbox_payout order_id now)
  unfolding enqueue_sandbox_payout
  enqueue_sandbox_payout-Keeps order_id now =
      Keeps->>= (triple-wrapping _ draws)
        λ _. triple-wrapping _ (create_outbox_message-Keeps off.free.jobs _)

  pub simulate_retirement-Keeps :
      (intent_id : String) (now : Instant) → Keeps P (simulate_retirement intent_id now)
  unfolding simulate_retirement simulate_new
  simulate_retirement-Keeps intent_id now = Keeps->>= (Keeps-gets _) λ row.
      Keeps->>= (triple-wrapping _ (Keeps-found _ row))
        λ stellar. Keeps->>= (lock_order-Keeps _ _) λ order. unless stellar order _
    where
      unless :
          (stellar : StellarTransaction) (order : OrderRecord) (b : Bool)
          → Keeps P (simulate_unless b stellar order now)
      unless stellar order true = Keeps-raise_if _ _
      unless stellar order false = Keeps->>= (Keeps-raise_if _ _) λ _.
          Keeps->>= (Keeps-raise_if _ _) λ _. Keeps->>= (Keeps-gets _) λ _.
            Keeps->>= (intents _ _) λ _. Keeps->>= (Keeps-raise_if _ _) λ _.
              Keeps->>= (Keeps-gets _) λ _. Keeps->>= (moves _ _) λ _.
                Keeps->>= (Keeps-raise_if _ _) λ _.
                  Keeps->>= (worker_logs _ _ _ _ _ _ _)
                    λ _. Keeps->>= (jobs _ _) λ _. enqueue_sandbox_payout-Keeps _ _

  pub confirm_retirement-Keeps :
      (intent_id hash : String) (ledger_at now : Instant)
      → Keeps P (confirm_retirement intent_id hash ledger_at now)
  unfolding confirm_retirement confirm_new
  confirm_retirement-Keeps intent_id hash ledger_at now =
      Keeps->>= (Keeps-gets _) λ row. Keeps->>= (Keeps-found _ row) λ stellar. unless stellar _
    where
      unless :
          (stellar : StellarTransaction) (b : Bool)
          → Keeps P (confirm_new_unless b stellar hash ledger_at now)
      unless stellar true = triple-pure _ (λ db h. h)
      unless stellar false = Keeps->>= (Keeps-raise_if _ _) λ _. Keeps->>= (intents _ _) λ _.
          Keeps->>= (triple-wrapping _ (update_sep24-Keeps off.sep24 _ _)) λ _.
            Keeps->>= (order_row-Keeps _) λ order. Keeps->>= (Keeps-raise_if _ _) λ _.
              Keeps->>= (moves _ _) λ _.
                Keeps->>= (worker_logs _ _ _ _ _ _ _)
                  λ _. Keeps->>= (jobs _ _) λ _. enqueue_sandbox_payout-Keeps _ _

  pub fail_retirement-Keeps :
      (intent_id safe_error : String) (now : Instant)
      → Keeps P (fail_retirement intent_id safe_error now)
  unfolding fail_retirement
  fail_retirement-Keeps intent_id safe_error now = Keeps->>= (Keeps-gets _) λ row.
      Keeps->>= (Keeps-found _ row) λ stellar. Keeps->>= (order_row-Keeps _) λ order.
        Keeps->>= (Keeps-raise_if _ _) λ _.
          Keeps->>= (intents _ _)
            λ _. Keeps->>= (moves _ _) λ _. Keeps->>= (worker_logs _ _ _ _ _ _ _) λ _. jobs _ _

  pub complete_sandbox_payout-Keeps :
      (order_id outbox_id reference : String) (now : Instant)
      → Keeps P (complete_sandbox_payout order_id outbox_id reference now)
  unfolding complete_sandbox_payout
  complete_sandbox_payout-Keeps order_id outbox_id reference now =
      Keeps->>= (lock_order-Keeps _ _) λ order. Keeps->>= (Keeps-raise_if _ _) λ _.
        Keeps->>= (Keeps->>= (Keeps-gets _) (λ row. ensured order row)) λ payout.
          Keeps->>= (ended order _)
            λ _. Keeps->>= (triple-wrapping _ (update_sep24-Keeps off.sep24 _ _)) λ _. jobs _ _
    where
      ensured :
          (order : OrderRecord) (row : Option OfframpPayout)
          → Keeps P (ensure_payout order reference now row)
      ensured order (some payout) = triple-pure _ (λ db h. h)
      ensured order none = Keeps->>= (triple-wrapping _ draws) λ _.
          Keeps->>= (triple-wrapping _ (create_payout-Keeps off.payouts _))
            λ _. Keeps->>= (Keeps-gets _) λ row. triple-wrapping _ (Keeps-found _ row)

      ended : (order : OrderRecord) (b : Bool) → Keeps P (complete_order b order now)
      ended order false = triple-pure _ (λ db h. h)
      ended order true = Keeps->>= (moves _ _) λ _. worker_logs _ _ _ _ _ _ _

pub requeue_unsubmitted_retirements-Keeps :
    {P : Database → Type 0}
    → ((db : Database) (rows : List OutboxMessage)
        → P db
        → P (record db { outbox_messages = rows }))
    → (now : Instant) (max_attempts : ℕ)
    → Keeps P (requeue_unsubmitted_retirements now max_attempts)
unfolding requeue_unsubmitted_retirements
requeue_unsubmitted_retirements-Keeps h now max_attempts = Keeps->>= (Keeps-raise_if _ _) λ _.
    Keeps->>= (Keeps-gets _) λ test.
      Keeps->>= (Keeps-gets _)
        λ _. Keeps->>= (update_outbox-Keeps h _ _) λ _. triple-pure _ (λ db p. p)
