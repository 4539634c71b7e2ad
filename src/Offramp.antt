-- ===== src/Offramp.antt =====
-- internal/repository/offramp_repository.go and internal/usecase/offramp_usecase.go: selling KXLM.
-- This file has the values, and the creation of an order with its deposit instructions; its child
-- modules have the use case Create, the deposits, the retirement of what was deposited, and the payout.
pub mod Create
pub mod Deposits
pub mod Retirement
pub mod Outcomes
pub mod Payouts
pub mod Memo
pub mod Addressing
pub mod Scanner
pub mod RetireWorker
pub mod Kept
pub mod Turns
pub mod Matching
pub mod Received
pub mod Submissions
pub mod Repeated
pub mod Allowed
use kailo_be.Prelude.{ℕ, ◌*◌, String, Bool, Option, none, some}
use kailo_be.Prelude.Int.{ℤ, pos}
use kailo_be.Prelude.Time.{Instant, add, hour}
use kailo_be.Amount.{Bytes, stroops_string}
use kailo_be.Order.{OrderStatus, created, asset_pending}
use kailo_be.Quote.{Quote}
use kailo_be.Financial.{create_sandbox_order_financial, lift}
use kailo_be.Store.{Tx, wrapping, new_id, ◌>>=◌, ◌>>◌}
use kailo_be.Store.Rows.{OrderRecord, IdempotencyRecord}
use kailo_be.Store.Statements.{create_order, create_idempotency_record}
use kailo_be.Principal.{
  OrderPrincipal, OrderOwnership, order_ownership_for, validate_retail_session_ownership,
}
use kailo_be.Events.{str_ptr_if_not_empty}
use kailo_be.Events.Append.{append_order_event}

-- The fields of `OfframpRepository` that are not the database.
pub record OfframpRepository : Type 0 where
  pub deposit_account : String
  pub network : String

-- `OfframpCreateRecord`; the withdrawal method is the only one there is.
pub record OfframpCreateRecord : Type 0 where
  pub order_id : String
  pub principal : OrderPrincipal
  pub wallet_account : String
  pub quote_id : String
  pub idempotency_key_hash : String
  pub request_hash : String
  pub asset_amount : ℤ
  pub asset_issuer : String
  pub quote : Quote
  pub destination_token : String
  pub memo : String
  pub expires_at : Instant
  pub created_at : Instant

abbrev pub offramp_create_operation : String
offramp_create_operation = "offramp.create"

abbrev pub offramp_order : OfframpRepository → OfframpCreateRecord → OrderOwnership → OrderRecord
offramp_order r c ownership = record {
  id = c.order_id;
  client_id = ownership.client_id;
  created_by_user_id = ownership.created_by_user_id;
  retail_session_id = ownership.retail_session_id;
  wallet_account = str_ptr_if_not_empty c.wallet_account;
  quote_id = str_ptr_if_not_empty c.quote_id;
  direction = "offramp";
  status = asset_pending;
  version = 2;
  currency = "IDR";
  fiat_amount_minor = c.quote.fiat_amount;
  asset_code = "KXLM";
  asset_issuer = c.asset_issuer;
  network = r.network;
  asset_amount = stroops_string c.asset_amount;
  asset_amount_stroops = c.asset_amount;
  quote_provider = "coinmarketcap";
  quote_source_at = c.quote.source_at;
  quote_rate = c.quote.rate;
  quote_adjusted_rate = c.quote.adjusted_rate;
  quote_spread_bps = c.quote.spread_bps;
  quote_expires_at = c.quote.expires_at;
  payment_method = none;
  gateway_provider = none;
  stellar_source = some r.deposit_account;
  stellar_destination = none;
  stellar_memo = some c.memo;
  withdrawal_method = some "sandbox_bank_transfer";
  withdrawal_destination = some c.destination_token;
  expires_at = some c.expires_at;
  failure_code = none;
  failure_stage = none;
  failure_retryable = none;
  created_at = c.created_at;
  updated_at = c.created_at;
  completed_at = none;
}

abbrev pub offramp_idempotency : String → OfframpCreateRecord → OrderOwnership → IdempotencyRecord
offramp_idempotency id c ownership = record {
  id = id;
  client_id = ownership.client_id;
  retail_user_id = ownership.retail_user_id;
  operation = offramp_create_operation;
  key_hash = c.idempotency_key_hash;
  request_hash = c.request_hash;
  response_status = some 201;
  created_resource_id = some c.order_id;
  state = "completed";
  expires_at = add c.created_at (pos (24 * hour));
  created_at = c.created_at;
  updated_at = c.created_at;
}

-- `CreateOfframp`.
unfoldable pub create_offramp : OfframpRepository → OfframpCreateRecord → Tx (Unit {0})
create_offramp r c = do
  ownership ← lift (order_ownership_for c.principal)
  validate_retail_session_ownership c.principal
  wrapping "creating order" (create_order (offramp_order r c ownership))
  create_sandbox_order_financial (offramp_order r c ownership)
  append_order_event c.order_id 1 "order.created" none (some created) c.created_at
  append_order_event c.order_id 2 "deposit.instructions_issued" (some created) (some asset_pending)
      c.created_at
  idempotency_id ← new_id
  wrapping "creating idempotency record"
      (create_idempotency_record (offramp_idempotency idempotency_id c ownership))
