-- ===== src/Principal/Tests.antt =====
-- Runs of the ownership rules, after internal/usecase/order_principal_test.go.
use kailo_be.Prelude.{[], ◌≡◌, ◌↔◌, refl, true, false, none, some}
use kailo_be.Prelude.Errors.{ok, err, invalid_order_principal}
use kailo_be.Prelude.Int.{pos}
use kailo_be.Prelude.Text.{trim_space}
use kailo_be.Order.{created}
use kailo_be.Store.Rows.{OrderRecord, IdempotencyRecord}
use kailo_be.Principal.{
  OrderPrincipal, OrderOwnership, Principal, AuthenticatedUser, api_client, retail_session,
  validate, order_ownership_for, owns_order, owns_record, new_api_client_order_principal,
  new_retail_session_order_principal,
}
use kailo_be.Principal.Isolation.{
  SameOwner, IsApiPrincipal, IsRetailPrincipal, owns_order_iff, IsApiPrincipal-valid,
  IsRetailPrincipal-valid,
}

abbrev session_one : OrderPrincipal
session_one = record {
  kind = retail_session;
  client_id = "";
  owner_user_id = "u1";
  session_id = "s1";
}

-- A later session of the same user.
abbrev session_two : OrderPrincipal
session_two = record {
  kind = retail_session;
  client_id = "";
  owner_user_id = "u1";
  session_id = "s2";
}

abbrev columns : OrderOwnership
columns = record {
  client_id = none;
  created_by_user_id = some "u1";
  retail_session_id = some "s1";
  retail_user_id = some "u1";
}

abbrev an_order : OrderRecord
an_order = record {
  id = "o1";
  client_id = none;
  created_by_user_id = some "u1";
  retail_session_id = some "s1";
  wallet_account = none;
  quote_id = none;
  direction = "onramp";
  status = created;
  version = 1;
  currency = "IDR";
  fiat_amount_minor = pos 100_000;
  asset_code = "KXLM";
  asset_issuer = "G";
  network = "stellar-testnet";
  asset_amount = [];
  asset_amount_stroops = pos 1;
  quote_provider = "coinmarketcap";
  quote_source_at = 1;
  quote_rate = [];
  quote_adjusted_rate = [];
  quote_spread_bps = pos 0;
  quote_expires_at = 2;
  payment_method = none;
  gateway_provider = none;
  stellar_source = none;
  stellar_destination = none;
  stellar_memo = none;
  withdrawal_method = none;
  withdrawal_destination = none;
  expires_at = none;
  failure_code = none;
  failure_stage = none;
  failure_retryable = none;
  created_at = 1;
  updated_at = 1;
  completed_at = none;
}

abbrev a_record : IdempotencyRecord
a_record = record {
  id = "i1";
  client_id = none;
  retail_user_id = some "u1";
  operation = "onramp.create";
  key_hash = "k";
  request_hash = "r";
  response_status = none;
  created_resource_id = some "o1";
  state = "processing";
  expires_at = 1;
  created_at = 1;
  updated_at = 1;
}

owned_columns : order_ownership_for session_one ≡ ok columns
unfolding order_ownership_for
owned_columns = refl

session_two_valid : validate session_two ≡ none
unfolding validate
session_two_valid = refl

unverified :
    new_retail_session_order_principal
      (record { user_id = "u1"; email_verified = false; session_id = "s1" })
    ≡ err invalid_order_principal
unfolding new_retail_session_order_principal
unverified = refl

owns_order_iff_example :
    ((owns_order session_two an_order ≡ true) ↔ SameOwner session_one session_two)
    × ((owns_record session_two a_record ≡ true) ↔ SameOwner session_one session_two)
owns_order_iff_example =
    owns_order_iff session_one session_two columns an_order a_record owned_columns session_two_valid
      (refl, refl, refl) refl refl

abbrev client : Principal
client = record { client_id = " c "; owner_user_id = "u" }

abbrev client_principal : OrderPrincipal
client_principal = record {
  kind = api_client;
  client_id = "c";
  owner_user_id = "u";
  session_id = "";
}

abbrev user : AuthenticatedUser
user = record { user_id = "u1"; email_verified = true; session_id = "s1\n" }

client-principal : new_api_client_order_principal client ≡ ok client_principal
unfolding new_api_client_order_principal trim_space validate
client-principal = refl

user-principal : new_retail_session_order_principal user ≡ ok session_one
unfolding new_retail_session_order_principal trim_space validate
user-principal = refl

IsApiPrincipal-valid_example : IsApiPrincipal client client_principal
IsApiPrincipal-valid_example = IsApiPrincipal-valid client client_principal client-principal

IsRetailPrincipal-valid_example : IsRetailPrincipal user session_one
IsRetailPrincipal-valid_example = IsRetailPrincipal-valid user session_one user-principal
