-- ===== src/Store/Views.antt =====
-- Order views, financial snapshots, payouts and webhook events: the rows and values that hold a
-- public view of an order (internal/usecase/onramp_usecase.go, offramp_usecase.go and
-- internal/entity).
use kailo_be.Prelude.{String, Bool, Option}
use kailo_be.Prelude.Int.{ℤ}
use kailo_be.Prelude.Time.{Instant}
use kailo_be.Amount.{Bytes}
use kailo_be.Order.{OrderStatus}
use kailo_be.Store.Rows.{PaymentMethod}

pub record Checkout : Type 0 where
  pub provider_id : String
  pub payment_request_id : String
  pub method : PaymentMethod
  pub status : String
  pub presentation_type : String
  pub presentation_value : String
  pub payment_link_url : String
  pub expires_at : Option Instant

pub record PayoutView : Type 0 where
  pub reference : String
  pub method : String
  pub amount_minor : ℤ
  pub state : String
  pub simulated : Option Bool
  pub disclosure : String

pub record OrderView : Type 0 where
  pub id : String
  pub status : OrderStatus
  pub asset_code : String
  pub asset_issuer : String
  pub fiat_amount_minor : ℤ
  pub asset_amount : ℤ
  pub quote_rate : Bytes
  pub quote_adjusted_rate : Bytes
  pub quote_spread_bps : ℤ
  pub quote_source_at : Instant
  pub quote_expires_at : Instant
  pub payment_method : PaymentMethod
  pub stellar_destination : String
  pub stellar_memo : String
  pub checkout : Option Checkout
  pub stellar_transaction_hash : String
  pub deposit_transaction_hash : String
  pub payout : Option PayoutView
  pub failure_code : String
  pub created_at : Instant
  pub updated_at : Instant

pub record OfframpPayout : Type 0 where
  pub id : String
  pub order_id : String
  pub method : String
  pub amount_minor : ℤ
  pub reference_id : String
  pub state : String
  pub completed_at : Option Instant
  pub created_at : Instant
  pub updated_at : Instant

pub record OrderFinancial : Type 0 where
  pub id : String
  pub order_id : String
  pub client_id : Option String
  pub direction : String
  pub environment : String
  pub network : String
  pub currency : String
  pub asset_code : String
  pub asset_issuer : String
  pub asset_amount : Bytes
  pub asset_amount_stroops : ℤ
  pub gross_amount_minor : ℤ
  pub fee_amount_minor : ℤ
  pub platform_revenue_minor : ℤ
  pub developer_revenue_minor : ℤ
  pub net_amount_minor : ℤ
  pub fee_currency : String
  pub fee_policy_version : String
  pub source : String
  pub quote_spread_bps : ℤ
  pub simulated : Bool
  pub created_at : Instant

-- What `BuildEventEnvelope` encodes, but for the constants "object" and "api_version".
pub record Envelope : Type 0 where
  pub id : String
  pub event_type : String
  pub environment : String
  pub created_at : Instant
  pub object : OrderView

pub record WebhookEvent : Type 0 where
  pub id : String
  pub order_id : Option String
  pub client_id : Option String
  pub event_type : String
  pub api_version : String
  pub canonical_payload : Envelope
  pub source_order_event_id : Option String
  pub is_test : Bool
  pub created_at : Instant

-- The columns of a SEP-24 transaction that settlement writes, and those that find it.
pub record Sep24Transaction : Type 0 where
  pub id : String
  pub transaction_id : String
  pub order_id : String
  pub stellar_transaction_id : Option String
  pub external_transaction_id : Option String
