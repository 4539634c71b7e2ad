-- ===== src/Store/Rows.antt =====
-- The tables of internal/entity/*_model.go that the order workflows read and write, a record for
-- each. A pointer column is an Option; amounts that the schema keeps from being negative are
-- numbers. JSON columns hold the values that are encoded in them.
use kailo_be.Prelude.{ℕ, String, Bool, Option}
use kailo_be.Prelude.Int.{ℤ}
use kailo_be.Prelude.Time.{Instant}
use kailo_be.Amount.{Bytes}
use kailo_be.Order.{OrderStatus}

-- `entity.PaymentMethod`; "" is no method.
pub data PaymentMethod : Type 0 where
  unknown_method : PaymentMethod
  qris : PaymentMethod
  bri_va : PaymentMethod
  xendit : PaymentMethod

pub record OrderRecord : Type 0 where
  pub id : String
  pub client_id : Option String
  pub created_by_user_id : Option String
  pub retail_session_id : Option String
  pub wallet_account : Option String
  pub quote_id : Option String
  pub direction : String
  pub status : OrderStatus
  pub version : ℕ
  pub currency : String
  pub fiat_amount_minor : ℤ
  pub asset_code : String
  pub asset_issuer : String
  pub network : String
  pub asset_amount : Bytes
  pub asset_amount_stroops : ℤ
  pub quote_provider : String
  pub quote_source_at : Instant
  pub quote_rate : Bytes
  pub quote_adjusted_rate : Bytes
  pub quote_spread_bps : ℤ
  pub quote_expires_at : Instant
  pub payment_method : Option PaymentMethod
  pub gateway_provider : Option String
  pub stellar_source : Option String
  pub stellar_destination : Option String
  pub stellar_memo : Option String
  pub withdrawal_method : Option String
  pub withdrawal_destination : Option String
  pub expires_at : Option Instant
  pub failure_code : Option String
  pub failure_stage : Option String
  pub failure_retryable : Option Bool
  pub created_at : Instant
  pub updated_at : Instant
  pub completed_at : Option Instant

pub record TreasuryAccount : Type 0 where
  pub id : String
  pub network : String
  pub public_account : String
  pub observed_balance_stroops : ℕ
  pub reserved_stroops : ℕ
  pub operating_buffer_stroops : ℕ
  pub last_reconciled_at : Instant
  pub created_at : Instant
  pub updated_at : Instant

pub data ReservationStatus : Type 0 where
  reserved : ReservationStatus
  consumed : ReservationStatus
  released : ReservationStatus

pub record TreasuryReservation : Type 0 where
  pub id : String
  pub treasury_id : String
  pub order_id : String
  pub amount_stroops : ℕ
  pub status : ReservationStatus
  pub expires_at : Instant
  pub consumed_at : Option Instant
  pub released_at : Option Instant
  pub created_at : Instant
  pub updated_at : Instant

pub record OrderEvent : Type 0 where
  pub id : String
  pub order_id : String
  pub aggregate_version : ℕ
  pub event_type : String
  pub previous_status : Option OrderStatus
  pub new_status : Option OrderStatus
  pub source : String
  pub correlation_id : String
  pub created_at : Instant

pub record PaymentCheckout : Type 0 where
  pub id : String
  pub order_id : String
  pub provider : String
  pub provider_checkout_id : String
  pub provider_payment_request_id : Option String
  pub method : PaymentMethod
  pub currency : String
  pub amount_minor : ℤ
  pub status : String
  pub presentation_reference : Option String
  pub expires_at : Option Instant
  pub presentation_type : String
  pub payment_link_url : String
  pub created_at : Instant
  pub updated_at : Instant

pub record GatewayEvent : Type 0 where
  pub id : String
  pub provider : String
  pub provider_event_id : String
  pub event_type : String
  pub checkout_reference : Option String
  pub order_reference : Option String
  pub payload_hash : String
  pub signature_verified : Bool
  pub matching_result : String
  pub received_at : Instant
  pub processed_at : Option Instant
  pub processing_status : String

pub data StellarStatus : Type 0 where
  pending : StellarStatus
  submitted : StellarStatus
  confirmed : StellarStatus
  failed : StellarStatus
  unconfirmed : StellarStatus
  simulated : StellarStatus

pub record StellarTransaction : Type 0 where
  pub id : String
  pub order_id : String
  pub intent_id : String
  pub purpose : String
  pub network : String
  pub asset_code : String
  pub asset_issuer : String
  pub amount : Bytes
  pub source : Option String
  pub destination : Option String
  pub memo : Option String
  pub transaction_hash : Option String
  pub status : StellarStatus
  pub attempt_count : ℕ
  pub ledger_at : Option Instant
  pub last_error : Option String
  pub created_at : Instant
  pub updated_at : Instant

pub record IdempotencyRecord : Type 0 where
  pub id : String
  pub client_id : Option String
  pub retail_user_id : Option String
  pub operation : String
  pub key_hash : String
  pub request_hash : String
  pub response_status : Option ℕ
  pub created_resource_id : Option String
  pub state : String
  pub expires_at : Instant
  pub created_at : Instant
  pub updated_at : Instant

-- The keys that the workers' payloads use; "" is a key that is absent.
pub record OutboxPayload : Type 0 where
  pub order_id : String
  pub intent_id : String
  pub event_id : String

pub record OutboxMessage : Type 0 where
  pub id : String
  pub topic : String
  pub aggregate_type : String
  pub aggregate_id : String
  pub payload : OutboxPayload
  pub created_at : Instant
  pub available_at : Instant
  pub lease_owner : Option String
  pub lease_until : Option Instant
  pub attempts : ℕ
  pub processed_at : Option Instant
  pub last_error : Option String
