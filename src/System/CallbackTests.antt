-- ===== src/System/CallbackTests.antt =====
-- Runs of the callback of internal/usecase/onramp_callback_usecase.go.
use kailo_be.Prelude.{ℕ, ◌≡◌, refl, ◌⊎◌, [], ◌∷◌, none, some, String}
use kailo_be.Prelude.Int.{pos}
use kailo_be.Prelude.Errors.{ok}
use kailo_be.Amount.{codes}
use kailo_be.Order.{stellar_processing}
use kailo_be.Store.{Database, gets, raise_if, pure, modify, ◌>>=◌, wrapping, found, new_id, next_id}
use kailo_be.Store.Statements.{update_gateway_events}
use kailo_be.Store.Rows.{OrderRecord, PaymentCheckout, xendit}
use kailo_be.Onramp.Payments.{
  record_callback_receipt, expected_payment, confirm_payment_and_enqueue, complete_callback,
}
use kailo_be.Onramp.Callbacks.{CallbackGateway, process}
use kailo_be.Onramp.Evidence.{IsUntouched, IsEvidenced, evidence_needed}
use kailo_be.Onramp.Redelivery.{redelivered}
use kailo_be.System.Tests.{empty}

-- An order whose settlement has begun.
abbrev settling_order : OrderRecord
settling_order = record {
  id = "o1";
  client_id = some "c";
  created_by_user_id = some "u";
  retail_session_id = none;
  wallet_account = none;
  quote_id = none;
  direction = "onramp";
  status = stellar_processing;
  version = 3;
  currency = "IDR";
  fiat_amount_minor = pos 100_000;
  asset_code = "KXLM";
  asset_issuer = "GI";
  network = "stellar_testnet";
  asset_amount = codes "24.7524752";
  asset_amount_stroops = pos 247_524_752;
  quote_provider = "coingecko";
  quote_source_at = 90;
  quote_rate = codes "4000";
  quote_adjusted_rate = codes "4040";
  quote_spread_bps = pos 100;
  quote_expires_at = 500;
  payment_method = some xendit;
  gateway_provider = some "xendit";
  stellar_source = some "GT";
  stellar_destination = some "GD";
  stellar_memo = none;
  withdrawal_method = none;
  withdrawal_destination = none;
  expires_at = some 500;
  failure_code = none;
  failure_stage = none;
  failure_retryable = none;
  created_at = 100;
  updated_at = 200;
  completed_at = none;
}

abbrev its_checkout : PaymentCheckout
its_checkout = record {
  id = "k1";
  order_id = "o1";
  provider = "xendit";
  provider_checkout_id = "p1";
  provider_payment_request_id = none;
  method = xendit;
  currency = "IDR";
  amount_minor = pos 100_000;
  status = "ACTIVE";
  presentation_reference = none;
  expires_at = some 500;
  presentation_type = "url";
  payment_link_url = "";
  created_at = 110;
  updated_at = 110;
}

abbrev settling : Database
settling = record empty { orders = settling_order ∷ []; payment_checkouts = its_checkout ∷ [] }

-- A gateway that knows one payment, of this many rupiah.
abbrev gateway_of : ℕ → CallbackGateway
gateway_of amount = record {
  verify_callback = λ raw token.
      ok
        (record { event_id = "ev1"; event_type = "payment_session.completed"; checkout_id = "p1" });
  get_payment_state = λ id. ok (record {
    provider_id = "p1";
    reference_id = "o1";
    status = "COMPLETED";
    currency = "IDR";
    amount = pos amount;
    channel = "";
  });
}

abbrev digest : String → String
digest raw = raw

evidence_needed_example :
    IsUntouched settling (process (gateway_of 99_999) digest 300 "raw" "token" settling).1
    ⊎ IsEvidenced (gateway_of 99_999) "raw" "token" settling
evidence_needed_example = evidence_needed (gateway_of 99_999) digest 300 "raw" "token" settling

abbrev handled : Database
handled = (process (gateway_of 100_000) digest 300 "raw" "token" settling).1

first_delivery : process (gateway_of 100_000) digest 300 "raw" "token" settling ≡ (ok tt, handled)
unfolding process record_callback_receipt expected_payment confirm_payment_and_enqueue
    complete_callback update_gateway_events gets raise_if pure modify ◌>>=◌ wrapping found new_id
    next_id
first_delivery = refl

redelivered_example :
    process (gateway_of 100_000) digest 400 "raw" "token" handled ≡ (ok tt, handled)
redelivered_example =
    redelivered (gateway_of 100_000) digest 300 400 "raw" "token" settling handled first_delivery
