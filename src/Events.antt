-- ===== src/Events.antt =====
-- The order events of internal/repository/onramp_repository.go: each transition of an order is
-- recorded with its new version, and those of the public catalog
-- (internal/usecase/webhook_usecase.go) also make a webhook event and a job that delivers it.
pub mod Append
pub mod Frames
use kailo_be.Prelude.{
  ℕ, String, Bool, true, false, ◌&&◌, ◌||◌, Option, none, some, List, ◌++◌, find, str_eq,
  if◌then◌else◌,
}
use kailo_be.Prelude.Errors.{Error, record_not_found, Result, ok, err}
use kailo_be.Prelude.Text.{is_blank, trim_space}
use kailo_be.Prelude.Time.{Instant}
use kailo_be.Order.{OrderStatus}
use kailo_be.Store.{Database, Tx, pure, gets, found, wrapping, new_id, ◌>>=◌, ◌>>◌}
use kailo_be.Store.Rows.{
  PaymentMethod, unknown_method, OrderRecord, OrderEvent, StellarTransaction, StellarStatus,
  simulated, confirmed, OutboxPayload, OutboxMessage,
}
use kailo_be.Store.Views.{PayoutView, OrderView, OfframpPayout, Envelope, WebhookEvent}
use kailo_be.Store.Statements.{create_order_event, create_webhook_event, create_outbox_message}

-- `strPtrIfNotEmpty` and `derefStr`.
unfoldable pub str_ptr_if_not_empty : String → Option String
str_ptr_if_not_empty value = if is_blank (trim_space value) then none else some (trim_space value)

abbrev pub deref_str : Option String → String
deref_str none = ""
deref_str (some s) = s

abbrev pub deref_method : Option PaymentMethod → PaymentMethod
deref_method none = unknown_method
deref_method (some m) = m

abbrev pub one_of : String → String → String → Bool
one_of s a b = str_eq s a || str_eq s b

-- `PublicWebhookEventType`.
unfoldable pub public_webhook_event_type : String → Option String
public_webhook_event_type s =
    if str_eq s "order.created"
    then some "order.created"
    else if str_eq s "checkout.created"
    then some "order.payment_pending"
    else if str_eq s "payment.confirmed"
    then some "order.payment_confirmed"
    else if str_eq s "asset.received"
    then some "order.asset_received"
    else if one_of s "stellar.transfer_requested" "retirement.requested"
        || str_eq s "retirement.simulated"
    then some "order.processing"
    else if one_of s "stellar.transfer_confirmed" "payout.simulated"
    then some "order.completed"
    else if one_of s "checkout.failed" "asset.invalid"
        || one_of s "retirement.failed" "stellar.failed"
        || str_eq s "withdrawal.failed"
    then some "order.failed"
    else if str_eq s "order.expired"
    then some "order.expired"
    else none

-- `SandboxPayoutDisclosureForRetirementStatus`; none is "".
abbrev pub sandbox_payout_disclosure : Option StellarStatus → String
sandbox_payout_disclosure (some simulated) =
    "Sandbox simulation: the asset deposit was received, but no on-chain burn or retirement was submitted; no real IDR moved."
sandbox_payout_disclosure (some confirmed) =
    "Sandbox simulation: the sell asset's on-chain burn or retirement was confirmed on Stellar testnet, but no real IDR moved."
sandbox_payout_disclosure _ =
    "Sandbox payout simulation: no real IDR moved; check the sell asset's on-chain transaction status separately."

-- `view.StellarDestination`: that of the order, or the source of an off-ramp order.
abbrev pub view_destination : Option String → String → Option String → String
view_destination (some d) direction source = d
view_destination none direction source = if str_eq direction "offramp" then deref_str source else ""

-- `baseOrderView`.
unfoldable pub base_order_view : OrderRecord → OrderView
base_order_view order = record {
  id = order.id;
  status = order.status;
  asset_code = order.asset_code;
  asset_issuer = order.asset_issuer;
  fiat_amount_minor = order.fiat_amount_minor;
  asset_amount = order.asset_amount_stroops;
  quote_rate = order.quote_rate;
  quote_adjusted_rate = order.quote_adjusted_rate;
  quote_spread_bps = order.quote_spread_bps;
  quote_source_at = order.quote_source_at;
  quote_expires_at = order.quote_expires_at;
  payment_method = deref_method order.payment_method;
  stellar_destination =
      view_destination order.stellar_destination order.direction order.stellar_source;
  stellar_memo = deref_str order.stellar_memo;
  checkout = none;
  stellar_transaction_hash = "";
  deposit_transaction_hash = "";
  payout = none;
  failure_code = deref_str order.failure_code;
  created_at = order.created_at;
  updated_at = order.updated_at;
}

-- `applyOfframpRetirementEvidence`: the status and the hash that a retirement is evidence for.
abbrev pub evidence :
    StellarStatus → Option String → Option Instant → Option (StellarStatus × String)
evidence simulated none none = some (simulated, "")
evidence confirmed (some hash) (some at) = some (confirmed, hash)
evidence _ _ _ = none

abbrev pub with_disclosure : Option StellarStatus → Option PayoutView → Option PayoutView
with_disclosure status none = none
with_disclosure status (some p) = some (record p { disclosure = sandbox_payout_disclosure status })

abbrev pub with_evidence : Option (StellarStatus × String) → OrderView → OrderView
with_evidence none view = record view { payout = with_disclosure none view.payout }
with_evidence (some (confirmed, hash)) view = record view {
  stellar_transaction_hash = hash;
  payout = with_disclosure (some confirmed) view.payout;
}
with_evidence (some (status, hash)) view = record view {
  payout = with_disclosure (some status) view.payout;
}

unfoldable pub apply_offramp_retirement_evidence : StellarTransaction → OrderView → OrderView
apply_offramp_retirement_evidence r view =
    with_evidence (evidence r.status r.transaction_hash r.ledger_at) view

abbrev pub payout_view : String → OfframpPayout → PayoutView
payout_view disclosure p = record {
  reference = p.reference_id;
  method = p.method;
  amount_minor = p.amount_minor;
  state = p.state;
  simulated = some true;
  disclosure = disclosure;
}
