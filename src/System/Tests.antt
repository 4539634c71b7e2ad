-- ===== src/System/Tests.antt =====
-- A purchase from its creation to its completion, and one that expires.
use kailo_be.Prelude.{◌≡◌, List, [], ◌∷◌, some, true, String}
use kailo_be.Prelude.Int.{pos}
use kailo_be.Prelude.Errors.{ok}
use kailo_be.Amount.{codes, stroops_string}
use kailo_be.Quote.{Quote}
use kailo_be.Store.{Database}
use kailo_be.Store.Rows.{xendit}
use kailo_be.Store.Views.{Checkout}
use kailo_be.Principal.{OrderPrincipal, api_client}
use kailo_be.Onramp.{OnrampRepository, CreateRecord}
use kailo_be.Settlement.Worker.{
  Network, SettlementConfig, submission_confirmed, submission_unknown, handle_submission, reconcile,
  depth,
}
use kailo_be.Settlement.Depth.{depth_enough}
use kailo_be.Settlement.Amounts.{parse_stroops-stroops_string}
use kailo_be.Settlement.{parse_stroops}
use kailo_be.Prelude.{arith, ◌++◌, replicate}
use kailo_be.Treasury.{IsBalanced}
use kailo_be.Chronicle.{IsChronicled}
use kailo_be.System.{
  Operation, create_an_order, attach_a_checkout, confirm_a_payment, run_the_worker,
  release_reservations, perform_all,
}
use kailo_be.System.Invariants.{treasury_conserved, log_replays}

abbrev pub empty : Database
empty = record {
  orders = [];
  order_financials = [];
  treasury_accounts = [];
  treasury_reservations = [];
  order_events = [];
  payment_checkouts = [];
  gateway_events = [];
  stellar_transactions = [];
  idempotency_records = [];
  outbox_messages = [];
  webhook_events = [];
  offramp_payouts = [];
  sep24_transactions = [];
  retail_sessions = [];
  supply =
      "1" ∷ "2" ∷ "3" ∷ "4" ∷ "5" ∷ "6" ∷ "7" ∷ "8" ∷ "9" ∷ "10" ∷ "11" ∷ "12" ∷ "13" ∷ "14" ∷ "15"
      ∷ "16" ∷ "17" ∷ "18" ∷ "19" ∷ "20" ∷ "21" ∷ "22" ∷ "23" ∷ "24" ∷ "25" ∷ "26" ∷ "27" ∷ "28"
      ∷ "29" ∷ "30" ∷ "31" ∷ "32" ∷ "33" ∷ "34" ∷ "35" ∷ "36" ∷ "37" ∷ "38" ∷ "39" ∷ "40" ∷ [];
  asset_check = λ code. true;
}

abbrev repository : OnrampRepository
repository = record { treasury_account = "GT"; network = "stellar_testnet"; operating_buffer = 5 }

abbrev buyer : OrderPrincipal
buyer = record { kind = api_client; client_id = "c"; owner_user_id = "u"; session_id = "" }

abbrev a_quote : Quote
a_quote = record {
  fiat_amount = pos 100_000;
  asset_amount = pos 247_524_752;
  rate = codes "4000";
  adjusted_rate = codes "4040";
  spread_bps = pos 100;
  source_at = 90;
  expires_at = 500;
}

abbrev purchase : String → String → CreateRecord
purchase id key = record {
  order_id = id;
  principal = buyer;
  wallet_account = "";
  quote_id = "";
  idempotency_key_hash = key;
  request_hash = "r";
  payment_method = xendit;
  destination = "GD";
  memo = "";
  quote = a_quote;
  created_at = 100;
}

abbrev a_checkout : String → Checkout
a_checkout id = record {
  provider_id = id;
  payment_request_id = "";
  method = xendit;
  status = "ACTIVE";
  presentation_type = "url";
  presentation_value = "";
  payment_link_url = "";
  expires_at = some 500;
}

-- A network that loses the answer to the submission and has the transaction when it is asked.
abbrev network : Network
network = record {
  build = λ t. ok (record { hash = "h"; envelope = "e" });
  submit = λ b. ok (record { result = submission_unknown; ledger_at = 0; safe_error = "lost" });
  find_by_hash =
      λ h. ok (record { result = submission_confirmed; ledger_at = 250; safe_error = "" });
}

abbrev config : SettlementConfig
config = record { lease_duration = pos 60; retry_delay = pos 30; now = 260; max_attempts = 20 }

abbrev day : List Operation
day =
    create_an_order repository (purchase "o1" "k1") (pos 1_000_000)
    ∷ attach_a_checkout "o1" (a_checkout "p1") 110
    ∷ create_an_order repository (purchase "o2" "k2") (pos 1_000_000)
    ∷ attach_a_checkout "o2" (a_checkout "p2") 120
    ∷ confirm_a_payment "o1" "ev1" 200
    ∷ run_the_worker network config "w"
    ∷ release_reservations 600 100
    ∷ []

treasury_conserved_example : IsBalanced (perform_all day empty)
treasury_conserved_example =
    treasury_conserved day empty (record { sums = tt; ids = tt; homes = tt })

log_replays_example : IsChronicled (perform_all day empty)
log_replays_example = log_replays day empty (record { rows = tt; known = tt })

depth_enough_example :
    (handle_submission network config 7 "i" "h"
        (record { result = submission_unknown; ledger_at = 0; safe_error = "" })
      ≡ handle_submission network config depth "i" "h"
          (record { result = submission_unknown; ledger_at = 0; safe_error = "" }))
    × (reconcile network config 7 "i" "h" ≡ reconcile network config depth "i" "h")
depth_enough_example =
    depth_enough network config 7 "i" "h"
      (record { result = submission_unknown; ledger_at = 0; safe_error = "" }) (omega arith)

parse_stroops-stroops_string_example :
    parse_stroops (stroops_string (pos 247_524_752) ++ replicate 11 b'0') ≡ ok (pos 247_524_752)
parse_stroops-stroops_string_example =
    parse_stroops-stroops_string 247_524_752 11 (omega arith) (omega arith)
