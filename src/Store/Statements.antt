-- ===== src/Store/Statements.antt =====
-- The inserts and updates of the repositories, with the constraints of migrations/*.up.sql that
-- they can meet: primary keys, unique columns and checks. What violates one is an error.
use kailo_be.Prelude.{
  ℕ, ◌+◌, ◌-◌, String, Bool, false, ◌&&◌, ◌||◌, not, Option, none, some, [], ◌∷◌, ◌++◌, any, str_eq,
  ◌==◌, ltb, leb,
}
use kailo_be.Prelude.Int.{pos, leb_ℤ}
use kailo_be.Prelude.Errors.{Error, text}
use kailo_be.Store.{Tx, raise_if, modify, ◌>>=◌, ◌>>◌, gets}
use kailo_be.Store.Rows.{
  OrderRecord, TreasuryAccount, TreasuryReservation, OrderEvent, PaymentCheckout, GatewayEvent,
  StellarTransaction, IdempotencyRecord, OutboxMessage,
}
use kailo_be.Store.Views.{OfframpPayout, OrderFinancial, WebhookEvent, Sep24Transaction}
use kailo_be.Store.Table.{update, col_eq}

abbrev pub duplicate : Error
duplicate = text "duplicate key value violates unique constraint"

abbrev pub violation : Error
violation = text "violates check constraint"

-- The id of a unique index entry is NULL, or two entries clash.
abbrev pub clash : Option String → Option String → Bool
clash none b = false
clash (some a) b = col_eq b a

unfoldable pub create_order : OrderRecord → Tx (Unit {0})
create_order row = do
  raise_if (not (← gets (λ db. db.asset_check row.asset_code))) violation
  raise_if (any (λ r. str_eq r.id row.id) (← gets (λ db. db.orders))) duplicate
  modify (λ db. record db { orders = db.orders ++ row ∷ [] })

unfoldable pub create_order_financial : OrderFinancial → Tx (Unit {0})
create_order_financial row = do
  raise_if
      (any (λ r. str_eq r.id row.id || str_eq r.order_id row.order_id)
        (← gets (λ db. db.order_financials)))
      duplicate
  modify (λ db. record db { order_financials = db.order_financials ++ row ∷ [] })

unfoldable pub create_reservation : TreasuryReservation → Tx (Unit {0})
create_reservation row = do
  raise_if (row.amount_stroops == 0) violation
  raise_if
      (any (λ r. str_eq r.id row.id || str_eq r.order_id row.order_id)
        (← gets (λ db. db.treasury_reservations)))
      duplicate
  modify (λ db. record db { treasury_reservations = db.treasury_reservations ++ row ∷ [] })

unfoldable pub create_order_event : OrderEvent → Tx (Unit {0})
create_order_event row = do
  raise_if (row.aggregate_version == 0) violation
  raise_if
      (any
        (λ r.
          str_eq r.id row.id
          || str_eq r.order_id row.order_id && r.aggregate_version == row.aggregate_version)
        (← gets (λ db. db.order_events)))
      duplicate
  modify (λ db. record db { order_events = db.order_events ++ row ∷ [] })

unfoldable pub create_checkout : PaymentCheckout → Tx (Unit {0})
create_checkout row = do
  raise_if
      (any
        (λ r.
          str_eq r.id row.id
          || str_eq r.provider row.provider
            && str_eq r.provider_checkout_id row.provider_checkout_id
          || clash row.provider_payment_request_id r.provider_payment_request_id)
        (← gets (λ db. db.payment_checkouts)))
      duplicate
  modify (λ db. record db { payment_checkouts = db.payment_checkouts ++ row ∷ [] })

unfoldable pub create_stellar_transaction : StellarTransaction → Tx (Unit {0})
create_stellar_transaction row = do
  raise_if (not (← gets (λ db. db.asset_check row.asset_code))) violation
  raise_if
      (any
        (λ r.
          str_eq r.id row.id
          || str_eq r.intent_id row.intent_id
          || str_eq r.order_id row.order_id && str_eq r.purpose row.purpose
          || clash row.transaction_hash r.transaction_hash)
        (← gets (λ db. db.stellar_transactions)))
      duplicate
  modify (λ db. record db { stellar_transactions = db.stellar_transactions ++ row ∷ [] })

unfoldable pub create_idempotency_record : IdempotencyRecord → Tx (Unit {0})
create_idempotency_record row = do
  raise_if
      (any
        (λ r.
          str_eq r.id row.id
          || str_eq r.operation row.operation
            && str_eq r.key_hash row.key_hash
            && (clash row.client_id r.client_id || clash row.retail_user_id r.retail_user_id))
        (← gets (λ db. db.idempotency_records)))
      duplicate
  modify (λ db. record db { idempotency_records = db.idempotency_records ++ row ∷ [] })

unfoldable pub create_outbox_message : OutboxMessage → Tx (Unit {0})
create_outbox_message row = do
  raise_if (any (λ r. str_eq r.id row.id) (← gets (λ db. db.outbox_messages))) duplicate
  modify (λ db. record db { outbox_messages = db.outbox_messages ++ row ∷ [] })

unfoldable pub create_webhook_event : WebhookEvent → Tx (Unit {0})
create_webhook_event row = do
  raise_if (any (λ r. str_eq r.id row.id) (← gets (λ db. db.webhook_events))) duplicate
  modify (λ db. record db { webhook_events = db.webhook_events ++ row ∷ [] })

unfoldable pub create_payout : OfframpPayout → Tx (Unit {0})
create_payout row = do
  raise_if (leb_ℤ row.amount_minor (pos 0)) violation
  raise_if
      (any
        (λ r.
          str_eq r.id row.id
          || str_eq r.order_id row.order_id
          || str_eq r.reference_id row.reference_id)
        (← gets (λ db. db.offramp_payouts)))
      duplicate
  modify (λ db. record db { offramp_payouts = db.offramp_payouts ++ row ∷ [] })

-- A treasury account: what is reserved is on the account.
abbrev pub covers : TreasuryAccount → Bool
covers t = leb t.reserved_stroops t.observed_balance_stroops

unfoldable pub create_treasury_account : TreasuryAccount → Tx (Unit {0})
create_treasury_account row = do
  raise_if (not (covers row)) violation
  raise_if
      (any
        (λ r.
          str_eq r.id row.id
          || str_eq r.network row.network && str_eq r.public_account row.public_account)
        (← gets (λ db. db.treasury_accounts)))
      duplicate
  modify (λ db. record db { treasury_accounts = db.treasury_accounts ++ row ∷ [] })

-- `UPDATE treasury_accounts SET f WHERE p`: the check is made on the rows that are changed.
unfoldable pub update_treasury_accounts :
    (TreasuryAccount → Bool) → (TreasuryAccount → TreasuryAccount) → Tx (Unit {0})
update_treasury_accounts p f = do
  raise_if (any (λ t. p t && not (covers (f t))) (← gets (λ db. db.treasury_accounts))) violation
  modify (λ db. record db { treasury_accounts = update p f db.treasury_accounts })

-- `reserved_stroops + n` and `reserved_stroops - n` of one account. The second cannot become
-- negative.
unfoldable pub reserve : String → ℕ → Tx (Unit {0})
unfolding update_treasury_accounts
reserve id n =
    update_treasury_accounts (λ t. str_eq t.id id)
      (λ t. record t { reserved_stroops = t.reserved_stroops + n })

unfoldable pub unreserve : String → ℕ → Tx (Unit {0})
unfolding update_treasury_accounts
unreserve id n = do
  raise_if
      (any (λ t. str_eq t.id id && ltb t.reserved_stroops n) (← gets (λ db. db.treasury_accounts)))
      violation
  update_treasury_accounts (λ t. str_eq t.id id)
      (λ t. record t { reserved_stroops = t.reserved_stroops - n })

unfoldable pub update_orders : (OrderRecord → Bool) → (OrderRecord → OrderRecord) → Tx (Unit {0})
update_orders p f = modify (λ db. record db { orders = update p f db.orders })

unfoldable pub update_reservations :
    (TreasuryReservation → Bool) → (TreasuryReservation → TreasuryReservation) → Tx (Unit {0})
update_reservations p f =
    modify (λ db. record db { treasury_reservations = update p f db.treasury_reservations })

unfoldable pub update_stellar :
    (StellarTransaction → Bool) → (StellarTransaction → StellarTransaction) → Tx (Unit {0})
update_stellar p f =
    modify (λ db. record db { stellar_transactions = update p f db.stellar_transactions })

unfoldable pub update_idempotency :
    (IdempotencyRecord → Bool) → (IdempotencyRecord → IdempotencyRecord) → Tx (Unit {0})
update_idempotency p f =
    modify (λ db. record db { idempotency_records = update p f db.idempotency_records })

unfoldable pub update_outbox :
    (OutboxMessage → Bool) → (OutboxMessage → OutboxMessage) → Tx (Unit {0})
update_outbox p f = modify (λ db. record db { outbox_messages = update p f db.outbox_messages })

unfoldable pub update_gateway_events :
    (GatewayEvent → Bool) → (GatewayEvent → GatewayEvent) → Tx (Unit {0})
update_gateway_events p f =
    modify (λ db. record db { gateway_events = update p f db.gateway_events })

unfoldable pub update_sep24 :
    (Sep24Transaction → Bool) → (Sep24Transaction → Sep24Transaction) → Tx (Unit {0})
update_sep24 p f =
    modify (λ db. record db { sep24_transactions = update p f db.sep24_transactions })
