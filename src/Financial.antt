-- ===== src/Financial.antt =====
-- internal/usecase/financial_usecase.go and internal/repository/financial_repository.go: the
-- financial snapshot that an order is created with.
use kailo_be.Prelude.{String, Bool, true, ◌||◌, not, Option, str_eq, if◌then◌else◌}
use kailo_be.Prelude.Int.{ℤ, pos, ltb_ℤ, leb_ℤ}
use kailo_be.Prelude.Errors.{Error, text, Result, ok, err}
use kailo_be.Prelude.Text.{is_blank, trim_space}
use kailo_be.Prelude.Time.{Instant, is_zero}
use kailo_be.Amount.{Bytes, is_empty}
use kailo_be.Store.{Tx, ◌>>=◌, pure, raise, wrapping, new_id}
use kailo_be.Store.Rows.{OrderRecord}
use kailo_be.Store.Views.{OrderFinancial}
use kailo_be.Store.Statements.{create_order_financial}

pub record FinancialSnapshotInput : Type 0 where
  pub snapshot_id : String
  pub order_id : String
  pub client_id : Option String
  pub direction : String
  pub environment : String
  pub network : String
  pub currency : String
  pub asset_code : String
  pub asset_issuer : String
  pub asset_amount : Bytes
  pub asset_amount_stroops : ℤ
  pub gross_amount_minor : ℤ
  pub quote_spread_bps : ℤ
  pub created_at : Instant

abbrev pub invalid_financial_snapshot : Error
invalid_financial_snapshot = text "invalid financial snapshot"

-- An amount column is written by the code itself, without spaces: it is blank when it is empty.
unfoldable pub is_bad_snapshot : FinancialSnapshotInput → Bool
is_bad_snapshot input =
    is_blank (trim_space input.snapshot_id)
    || is_blank (trim_space input.order_id)
    || not (str_eq input.direction "onramp" || str_eq input.direction "offramp")
    || not (str_eq input.environment "test")
    || not (str_eq input.network "stellar_testnet")
    || not (str_eq input.currency "IDR")
    || not (str_eq input.asset_code "KXLM")
    || is_empty input.asset_amount
    || leb_ℤ input.asset_amount_stroops (pos 0)
    || leb_ℤ input.gross_amount_minor (pos 0)
    || ltb_ℤ input.quote_spread_bps (pos 0)
    || ltb_ℤ (pos 10_000) input.quote_spread_bps
    || is_zero input.created_at

-- The snapshot of valid input: no fee, and all of the gross amount is net.
abbrev pub snapshot_of : FinancialSnapshotInput → OrderFinancial
snapshot_of input = record {
  id = input.snapshot_id;
  order_id = input.order_id;
  client_id = input.client_id;
  direction = input.direction;
  environment = input.environment;
  network = input.network;
  currency = input.currency;
  asset_code = input.asset_code;
  asset_issuer = input.asset_issuer;
  asset_amount = input.asset_amount;
  asset_amount_stroops = input.asset_amount_stroops;
  gross_amount_minor = input.gross_amount_minor;
  fee_amount_minor = pos 0;
  platform_revenue_minor = pos 0;
  developer_revenue_minor = pos 0;
  net_amount_minor = input.gross_amount_minor;
  fee_currency = input.currency;
  fee_policy_version = "sandbox-zero-fee-v1";
  source = "sandbox";
  quote_spread_bps = input.quote_spread_bps;
  simulated = true;
  created_at = input.created_at;
}

unfoldable pub build_sandbox_financial_snapshot : FinancialSnapshotInput → Result OrderFinancial
build_sandbox_financial_snapshot input =
    if is_bad_snapshot input then err invalid_financial_snapshot else ok (snapshot_of input)

abbrev pub snapshot_input : String → OrderRecord → FinancialSnapshotInput
snapshot_input snapshot_id order = record {
  snapshot_id = snapshot_id;
  order_id = order.id;
  client_id = order.client_id;
  direction = order.direction;
  environment = "test";
  network = order.network;
  currency = order.currency;
  asset_code = order.asset_code;
  asset_issuer = order.asset_issuer;
  asset_amount = order.asset_amount;
  asset_amount_stroops = order.asset_amount_stroops;
  gross_amount_minor = order.fiat_amount_minor;
  quote_spread_bps = order.quote_spread_bps;
  created_at = order.created_at;
}

-- A result as a step of a transaction.
abbrev pub lift {ℓ} : {A : Type ℓ} → Result A → Tx A
lift (ok a) = pure a
lift (err e) = raise e

unfoldable pub create_sandbox_order_financial : OrderRecord → Tx (Unit {0})
create_sandbox_order_financial order = do
  snapshot_id ← wrapping "generating order financial id" new_id
  snapshot ←
      wrapping "building order financial snapshot"
        (lift (build_sandbox_financial_snapshot (snapshot_input snapshot_id order)))
  wrapping "creating order financial snapshot" (create_order_financial snapshot)
