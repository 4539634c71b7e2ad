-- ===== src/Onramp.antt =====
-- internal/repository/onramp_repository.go and internal/usecase/onramp_usecase.go: buying KXLM. This
-- file has the configuration, the values that pass between the two, and the creation of an order
-- with its reservation; its child modules have the other operations.
pub mod Views
pub mod Checkouts
pub mod Payments
pub mod Receipts
pub mod Callbacks
pub mod Evidence
mod Marks
pub mod Redelivery
pub mod Replays
pub mod Create
pub mod Reserved
pub mod Seen
pub mod Repeated
use kailo_be.Prelude.{
  ℕ, ◌+◌, ◌*◌, String, Bool, true, false, ◌&&◌, Option, none, some, find, str_eq, ltb,
  if◌then◌else◌,
}
use kailo_be.Prelude.Int.{ℤ, pos, negsuc, sub_ℕ, ltb_ℤ}
use kailo_be.Prelude.Errors.{insufficient_liquidity}
use kailo_be.Prelude.Text.{is_blank}
use kailo_be.Prelude.Time.{Instant, add, hour}
use kailo_be.Amount.{Bytes, stroops_string}
use kailo_be.Order.{OrderStatus, created}
use kailo_be.Quote.{Quote}
use kailo_be.Financial.{create_sandbox_order_financial, lift}
use kailo_be.Store.{Database, Tx, pure, raise, raise_if, gets, wrapping, new_id, ◌>>=◌, ◌>>◌}
use kailo_be.Store.Rows.{
  PaymentMethod, OrderRecord, TreasuryAccount, TreasuryReservation, reserved, IdempotencyRecord,
}
use kailo_be.Store.Statements.{
  violation, create_order, create_reservation, create_idempotency_record, create_treasury_account,
  update_treasury_accounts, reserve,
}
use kailo_be.Principal.{
  OrderPrincipal, OrderOwnership, order_ownership_for, validate_retail_session_ownership,
}
use kailo_be.Events.{str_ptr_if_not_empty}
use kailo_be.Events.Append.{append_order_event}

-- The fields of `OnrampRepository` that are not the database.
pub record OnrampRepository : Type 0 where
  pub treasury_account : String
  pub network : String
  pub operating_buffer : ℕ

pub record CreateRecord : Type 0 where
  pub order_id : String
  pub principal : OrderPrincipal
  pub wallet_account : String
  pub quote_id : String
  pub idempotency_key_hash : String
  pub request_hash : String
  pub payment_method : PaymentMethod
  pub destination : String
  pub memo : String
  pub quote : Quote
  pub created_at : Instant

-- `kxlmIssueFeeReserve` and `onrampCreateOperation`.
abbrev pub kxlm_issue_fee_reserve : ℕ
kxlm_issue_fee_reserve = 10_000

abbrev pub onramp_create_operation : String
onramp_create_operation = "onramp.create"

-- A balance as a column: the schema refuses a negative one.
abbrev pub balance : ℤ → Tx ℕ
balance (pos n) = pure n
balance (negsuc n) = raise violation

abbrev pub new_treasury : OnrampRepository → String → ℕ → Instant → TreasuryAccount
new_treasury r id observed now = record {
  id = id;
  network = r.network;
  public_account = r.treasury_account;
  observed_balance_stroops = observed;
  reserved_stroops = 0;
  operating_buffer_stroops = r.operating_buffer;
  last_reconciled_at = now;
  created_at = now;
  updated_at = now;
}

abbrev pub reconciled : TreasuryAccount → ℕ → Instant → TreasuryAccount
reconciled t observed now = record t {
  observed_balance_stroops = observed;
  last_reconciled_at = now;
  updated_at = now;
}

-- `lockTreasury`, on the account that the query found.
abbrev pub reconcile_treasury :
    OnrampRepository → ℤ → Instant → Option TreasuryAccount → Tx TreasuryAccount
reconcile_treasury r observed now none = do
  id ← new_id
  n ← wrapping "creating treasury account" (balance observed)
  wrapping "creating treasury account" (create_treasury_account (new_treasury r id n now))
  pure (new_treasury r id n now)
reconcile_treasury r observed now (some t) = do
  n ← wrapping "reconciling treasury account" (balance observed)
  wrapping "reconciling treasury account"
      (update_treasury_accounts (λ u. str_eq u.id t.id) (λ u. reconciled t n now))
  pure (reconciled t n now)

abbrev pub find_treasury : OnrampRepository → Database → Option TreasuryAccount
find_treasury r db =
    find
      (λ (t : TreasuryAccount).
        str_eq t.network r.network && str_eq t.public_account r.treasury_account)
      db.treasury_accounts

unfoldable pub lock_treasury : OnrampRepository → ℤ → Instant → Tx TreasuryAccount
lock_treasury r observed now =
    gets (find_treasury r) >>= λ row. reconcile_treasury r observed now row

-- `treasury.ObservedBalanceStroops - treasury.ReservedStroops - treasury.OperatingBufferStroops`.
abbrev pub available : TreasuryAccount → ℤ
available t = sub_ℕ t.observed_balance_stroops (t.reserved_stroops + t.operating_buffer_stroops)

abbrev pub onramp_order : OnrampRepository → CreateRecord → OrderOwnership → OrderRecord
onramp_order r c ownership = record {
  id = c.order_id;
  client_id = ownership.client_id;
  created_by_user_id = ownership.created_by_user_id;
  retail_session_id = ownership.retail_session_id;
  wallet_account = str_ptr_if_not_empty c.wallet_account;
  quote_id = str_ptr_if_not_empty c.quote_id;
  direction = "onramp";
  status = created;
  version = 1;
  currency = "IDR";
  fiat_amount_minor = c.quote.fiat_amount;
  asset_code = "KXLM";
  asset_issuer = r.treasury_account;
  network = r.network;
  asset_amount = stroops_string c.quote.asset_amount;
  asset_amount_stroops = c.quote.asset_amount;
  quote_provider = "coinmarketcap";
  quote_source_at = c.quote.source_at;
  quote_rate = c.quote.rate;
  quote_adjusted_rate = c.quote.adjusted_rate;
  quote_spread_bps = c.quote.spread_bps;
  quote_expires_at = c.quote.expires_at;
  payment_method = some c.payment_method;
  gateway_provider = some "xendit";
  stellar_source = some r.treasury_account;
  stellar_destination = some c.destination;
  stellar_memo = if is_blank c.memo then none else some c.memo;
  withdrawal_method = none;
  withdrawal_destination = none;
  expires_at = none;
  failure_code = none;
  failure_stage = none;
  failure_retryable = none;
  created_at = c.created_at;
  updated_at = c.created_at;
  completed_at = none;
}

abbrev pub fee_reservation : String → String → String → Instant → Instant → TreasuryReservation
fee_reservation id treasury_id order_id expires_at now = record {
  id = id;
  treasury_id = treasury_id;
  order_id = order_id;
  amount_stroops = kxlm_issue_fee_reserve;
  status = reserved;
  expires_at = expires_at;
  consumed_at = none;
  released_at = none;
  created_at = now;
  updated_at = now;
}

-- The reservation of the issuer's fee, and the account that it is made on.
unfoldable pub reserve_fee : String → String → Instant → Instant → Tx (Unit {0})
reserve_fee treasury_id order_id expires_at now = do
  reservation_id ← new_id
  wrapping "creating treasury reservation"
      (create_reservation (fee_reservation reservation_id treasury_id order_id expires_at now))
  wrapping "reserving issuer fee balance" (reserve treasury_id kxlm_issue_fee_reserve)

abbrev pub idempotency_record : String → CreateRecord → OrderOwnership → IdempotencyRecord
idempotency_record id c ownership = record {
  id = id;
  client_id = ownership.client_id;
  retail_user_id = ownership.retail_user_id;
  operation = onramp_create_operation;
  key_hash = c.idempotency_key_hash;
  request_hash = c.request_hash;
  response_status = none;
  created_resource_id = some c.order_id;
  state = "processing";
  expires_at = add c.created_at (pos (24 * hour));
  created_at = c.created_at;
  updated_at = c.created_at;
}

-- `ReserveAndCreate`.
unfoldable pub reserve_and_create : OnrampRepository → CreateRecord → ℤ → Tx (Unit {0})
reserve_and_create r c observed = do
  ownership ← lift (order_ownership_for c.principal)
  validate_retail_session_ownership c.principal
  treasury ← lock_treasury r observed c.created_at
  raise_if (ltb_ℤ (available treasury) (pos kxlm_issue_fee_reserve)) insufficient_liquidity
  wrapping "creating order" (create_order (onramp_order r c ownership))
  create_sandbox_order_financial (onramp_order r c ownership)
  reserve_fee treasury.id c.order_id c.quote.expires_at c.created_at
  append_order_event c.order_id 1 "order.created" none (some created) c.created_at
  idempotency_id ← new_id
  wrapping "creating idempotency record"
      (create_idempotency_record (idempotency_record idempotency_id c ownership))
