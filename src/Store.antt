-- ===== src/Store.antt =====
-- The database: its tables, its transactions, and the statements that the repositories
-- (internal/repository) send it. Row locks make the transactions that touch a row run one after
-- the other, so a transaction is one step; one that fails is rolled back. Random ids come from a
-- supply, and `platform.NewID` fails when it is used up, as it does when the source of randomness
-- fails.
pub mod Rows
pub mod Views
pub mod Table
pub mod Queries
pub mod Statements
pub mod Triples
pub mod Frames
pub mod Calls
pub mod Retry
use kailo_be.Prelude.{
  ℕ, String, Bool, true, false, Option, none, some, List, [], ◌∷◌, ◌++◌, ◌≡◌, str_eq,
}
use kailo_be.Prelude.Errors.{Error, text, Result, ok, err, wrapped}
use Rows.{
  OrderRecord, TreasuryAccount, TreasuryReservation, OrderEvent, PaymentCheckout, GatewayEvent,
  StellarTransaction, IdempotencyRecord, OutboxMessage,
}
use Views.{OfframpPayout, OrderFinancial, WebhookEvent, Sep24Transaction}

pub record Database : Type 0 where
  pub orders : List OrderRecord
  pub order_financials : List OrderFinancial
  pub treasury_accounts : List TreasuryAccount
  pub treasury_reservations : List TreasuryReservation
  pub order_events : List OrderEvent
  pub payment_checkouts : List PaymentCheckout
  pub gateway_events : List GatewayEvent
  pub stellar_transactions : List StellarTransaction
  pub idempotency_records : List IdempotencyRecord
  pub outbox_messages : List OutboxMessage
  pub webhook_events : List WebhookEvent
  pub offramp_payouts : List OfframpPayout
  pub sep24_transactions : List Sep24Transaction
  pub retail_sessions : List (String × String)
  pub supply : List String
  -- The check on the column asset_code of orders and of stellar_transactions.
  pub asset_check : String → Bool

-- The body of a transaction. An error drops the state: that is the rollback.
abbrev pub Tx {ℓ} : Type ℓ → Type ℓ
Tx A = Database → Result (A × Database)

module _ {ℓ} {A : Type ℓ} where
  unfoldable pub pure : A → Tx A
  pure a db = ok (a, db)

  unfoldable pub raise : Error → Tx A
  raise e db = err e

  -- A read of the database.
  unfoldable pub gets : (Database → A) → Tx A
  gets f db = ok (f db, db)

  -- `if err != nil { return fmt.Errorf("text: %w", err) }`.
  unfoldable pub wrapping : String → Tx A → Tx A
  wrapping s m db = elim (m db) [ ok r ↦ ok r | err e ↦ err (wrapped s e) ]

  -- The row that a query found, or the error of a query that found none.
  unfoldable pub found : Error → Option A → Tx A
  found e none db = err e
  found e (some a) db = ok (a, db)

infixl 5 ◌>>=◌ ◌>>◌
unfoldable pub ◌>>=◌ {ℓ κ} : {A : Type ℓ} {B : Type κ} → Tx A → (A → Tx B) → Tx B
◌>>=◌ m f db = elim (m db) [ ok r ↦ f r.0 r.1 | err e ↦ err e ]

abbrev pub ◌>>◌ {κ} : {B : Type κ} → Tx (Unit {0}) → Tx B → Tx B
m >> k = m >>= λ _. k

unfoldable pub raise_if : Bool → Error → Tx (Unit {0})
raise_if true e db = err e
raise_if false e db = ok (tt, db)

unfoldable pub modify : (Database → Database) → Tx (Unit {0})
modify f db = ok (tt, f db)

-- `tx.do`: the result, and the database afterwards.
abbrev pub committed {ℓ} : {A : Type ℓ} → Database → Result (A × Database) → Result A × Database
committed db (ok r) = (ok r.0, r.1)
committed db (err e) = (err e, db)

abbrev pub commit {ℓ} : {A : Type ℓ} → Tx A → Database → Result A × Database
commit m db = committed db (m db)

-- `platform.NewID`.
unfoldable pub next_id : List String → Database → Result (String × Database)
next_id [] db = err (text "generating random id")
next_id (id ∷ rest) db = ok (id, record db { supply = rest })

unfoldable pub new_id : Tx String
unfolding next_id
new_id db = next_id db.supply db
