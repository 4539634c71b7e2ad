-- ===== src/System/CreateTests.antt =====
-- Runs of Create of internal/usecase/onramp_usecase.go and offramp_usecase.go.
use kailo_be.Amount.{validate_idr}
use kailo_be.Onramp.Create.{purchase_quote}
use kailo_be.Quote.{create, stroops_for}
use kailo_be.Onramp.{lock_treasury, reserve_fee}
use kailo_be.Store.Statements.{
  create_reservation, create_treasury_account, reserve, update_treasury_accounts,
}
use kailo_be.Offramp.Create.{checked_sale, sale_quote}
use kailo_be.Principal.{
  validate, apply_idempotency_ownership, apply_order_ownership, order_ownership_for,
  validate_retail_session_ownership,
}
use kailo_be.Prelude.Text.{trim_space}
use kailo_be.Amount.{
  parse_decimal_stroops, cut_point, value_from, validate_stroops, digits, fixed_digits, parse_parts,
  stroops_string,
}
use kailo_be.Onramp.Views.{find_replay_as, get_as}
use kailo_be.Quote.{create_reverse, idr_for, adjust, decimal, float_string, trim_right}
use kailo_be.Store.{next_id, ◌>>=◌, found, gets, modify, new_id, pure, raise, raise_if, wrapping}
use kailo_be.Offramp.{create_offramp}
use kailo_be.Events.Append.{
  append_order_event, append_order_event_from_source, append_public_webhook_event, completed_view,
}
use kailo_be.Events.{
  apply_offramp_retirement_evidence, public_webhook_event_type, str_ptr_if_not_empty,
}
use kailo_be.Financial.{
  build_sandbox_financial_snapshot, create_sandbox_order_financial, is_bad_snapshot,
}
use kailo_be.Request.{order_request_hash, request_text}
use kailo_be.Store.Statements.{
  create_idempotency_record, create_order, create_order_event, create_order_financial,
  create_outbox_message, create_webhook_event,
}
use kailo_be.Prelude.{◌<◌, ◌≡◌, refl, arith, [], ◌∷◌, none, some, true, false, Bool, String, List}
use kailo_be.Prelude.Int.{pos}
use kailo_be.Prelude.Errors.{text, Result, ok, err}
use kailo_be.Amount.{Bytes, codes}
use kailo_be.Quote.{Rat, RatReader, Quote, QuotePolicy, MarketPrice}
use kailo_be.Principal.{OrderPrincipal, api_client}
use kailo_be.Store.{Database, commit}
use kailo_be.Store.Rows.{unknown_method, xendit}
use kailo_be.Store.Views.{Checkout, OrderView}
use kailo_be.Request.{utf8}
use kailo_be.Request.Distinct.{request_text_injective}
use kailo_be.Events.{base_order_view}
use kailo_be.Onramp.{reserve_and_create}
use kailo_be.Onramp.Create.{
  Command, CheckoutInput, CheckoutAnswer, made, outcome_unknown, OnrampServices, checked_purchase,
  purchase_record, buy,
}
use kailo_be.Onramp.Reserved.{with_gateway, IsReserved}
use kailo_be.Onramp.Repeated.{buy_repeated}
use kailo_be.Offramp.{offramp_order}
use kailo_be.Offramp.Create.{OfframpCommand, OfframpServices, Created, sale_record, sell}
use kailo_be.Offramp.Repeated.{sell_repeated}
use kailo_be.System.Tests.{empty}

-- A reader that knows one price.
abbrev price_rat : Rat
price_rat = record { num = pos 4000; den = 1 }

known_price-den : (r : Rat) → some price_rat ≡ some r → 0 < r.den
known_price-den r h = ground arith

abbrev reader : RatReader
reader = record { set_string = λ s. some price_rat; den_pos = λ s r h. known_price-den r h }

abbrev policy : QuotePolicy
policy = record { ttl = pos 900; max_age = pos 300; spread_bps = pos 100 }

abbrev price : MarketPrice
price = record { idr_per_xlm = "4000"; observed_at = 900 }

abbrev client : OrderPrincipal
client = record { kind = api_client; client_id = "c"; owner_user_id = "u"; session_id = "" }

-- A digest that tells short texts apart.
abbrev digest : Bytes → String
digest [] = ""
digest (c ∷ s) = "d"

abbrev sale : OfframpCommand
sale = record {
  principal = client;
  wallet_account = "";
  quote_id = "";
  idempotency_key = " key ";
  asset_network = "stellar_testnet";
  asset_code = "KXLM";
  fiat_currency = "IDR";
  asset_amount = "10.5";
  withdrawal_method = "sandbox_bank_transfer";
  destination_token = "bank";
}

abbrev sales : OfframpServices
sales = record {
  repository = record { deposit_account = "GD"; network = "stellar_testnet" };
  reader = reader;
  quote_policy = policy;
  min_idr = pos 10_000;
  max_idr = pos 1_000_000;
  asset_issuer = "GI";
  deposit_expiry = pos 600;
  now = 1000;
  latest_xlm_idr = ok price;
  is_approved = λ user. ok true;
  trustline = some (ok tt);
  digest = digest;
  deposit_memo = λ id. id;
}

abbrev sold : Created
sold = sell sales sale empty

-- The view of the order that was created.
abbrev any_quote : Quote
any_quote = record {
  fiat_amount = pos 0;
  asset_amount = pos 0;
  rate = [];
  adjusted_rate = [];
  spread_bps = pos 0;
  source_at = 0;
  expires_at = 0;
}

abbrev view_of : Result (OrderView × Bool) → OrderView
view_of (ok (view, replayed)) = view
view_of (err e) = base_order_view (
    offramp_order sales.repository (sale_record sales sale (pos 0) any_quote "") (record {
      client_id = none;
      created_by_user_id = none;
      retail_session_id = none;
      retail_user_id = none;
    }))

sold_fresh : sold ≡ (ok (view_of sold.0, false), sold.1)
unfolding sell checked_sale validate trim_space utf8 parse_decimal_stroops cut_point value_from
    find_replay_as apply_idempotency_ownership sale_quote create_reverse validate_stroops idr_for
    adjust next_id create_offramp ◌>>=◌ digits fixed_digits parse_parts stroops_string
    append_order_event append_order_event_from_source append_public_webhook_event completed_view
    apply_offramp_retirement_evidence base_order_view public_webhook_event_type str_ptr_if_not_empty
    build_sandbox_financial_snapshot create_sandbox_order_financial is_bad_snapshot get_as
    apply_order_ownership order_ownership_for validate_retail_session_ownership decimal float_string
    trim_right order_request_hash request_text create_idempotency_record create_order
    create_order_event create_order_financial create_outbox_message create_webhook_event found gets
    modify new_id pure raise raise_if wrapping
sold_fresh = refl

-- The price is not known any more.
sell_repeated_example :
    sell (record sales { latest_xlm_idr = err (text "down") }) sale sold.1
    ≡ (ok (view_of sold.0, true), sold.1)
sell_repeated_example =
    sell_repeated sales (record sales { latest_xlm_idr = err (text "down") }) sale empty sold.1
      (view_of sold.0) (λ bytes. refl) sold_fresh

abbrev purchase : Command
purchase = record {
  principal = client;
  wallet_account = "";
  quote_id = "";
  idempotency_key = "key";
  amount = pos 100_000;
  payment_method = unknown_method;
  destination = "GAAAAAAAAAAAAAAAAAAAAAAAAAAAAAAAAAAAAAAAAAAAAAAAAAAAAWHF";
  memo = "";
}

abbrev a_checkout : Checkout
a_checkout = record {
  provider_id = "p1";
  payment_request_id = "";
  method = xendit;
  status = "ACTIVE";
  presentation_type = "url";
  presentation_value = "";
  payment_link_url = "";
  expires_at = some 1900;
}

abbrev purchases : OnrampServices
purchases = record {
  repository = record {
    treasury_account = "GT";
    network = "stellar_testnet";
    operating_buffer = 5;
  };
  reader = reader;
  quote_policy = policy;
  min_idr = pos 10_000;
  max_idr = pos 1_000_000;
  now = 1000;
  now_after = 1010;
  validate_destination = λ account. ok tt;
  trustline = none;
  is_approved = λ user. ok true;
  latest_xlm_idr = ok price;
  spendable_balance = ok (pos 1_000_000);
  create_checkout = λ input. made a_checkout;
  digest = digest;
}

abbrev lost : CheckoutInput → CheckoutAnswer
lost input = outcome_unknown

-- The gateway loses the answer to the first call.
abbrev first : OnrampServices
first = with_gateway lost purchases

abbrev drawn : Database
drawn = record empty { supply = ids_after empty.supply }
  where
    ids_after : List String → List String
    ids_after [] = []
    ids_after (id ∷ rest) = rest

abbrev bought_quote : Quote
bought_quote = record {
  fiat_amount = pos 100_000;
  asset_amount = pos 247_524_752;
  rate = codes "4000";
  adjusted_rate = codes "4040";
  spread_bps = pos 100;
  source_at = 900;
  expires_at = 1900;
}

reserved : IsReserved first purchase empty
unfolding checked_purchase validate trim_space utf8 validate_idr find_replay_as
    apply_idempotency_ownership purchase_quote create stroops_for adjust decimal digits fixed_digits
    next_id reserve_and_create ◌>>=◌ order_ownership_for stroops_string append_order_event
    append_order_event_from_source append_public_webhook_event completed_view
    apply_offramp_retirement_evidence base_order_view public_webhook_event_type str_ptr_if_not_empty
    build_sandbox_financial_snapshot create_sandbox_order_financial is_bad_snapshot lock_treasury
    reserve_fee validate_retail_session_ownership float_string trim_right create_idempotency_record
    create_order create_order_event create_order_financial create_outbox_message create_reservation
    create_treasury_account create_webhook_event reserve update_treasury_accounts found gets modify
    new_id pure raise raise_if wrapping
reserved = record {
  quote = bought_quote;
  balance = pos 1_000_000;
  id = "1";
  drawn = drawn;
  after =
      (commit
        (reserve_and_create first.repository (purchase_record first purchase bought_quote "1")
          (pos 1_000_000))
        drawn).1;
  checks = refl;
  unseen = refl;
  priced = refl;
  draws = refl;
  reserved = refl;
}

buy_repeated_example :
    ((buy purchases purchase (buy first purchase empty).1).1 ≡ (buy first purchase empty).1)
    × (buy (with_gateway lost purchases) purchase (buy first purchase empty).1
        ≡ buy purchases purchase (buy first purchase empty).1)
buy_repeated_example = buy_repeated first purchases purchase empty lost (λ bytes. refl) reserved

request_text_injective_example : utf8 "a" ∷ utf8 "1:b" ∷ [] ≡ utf8 "a" ∷ utf8 "1:b" ∷ []
request_text_injective_example =
    request_text_injective (utf8 "a" ∷ utf8 "1:b" ∷ []) (utf8 "a" ∷ utf8 "1:b" ∷ []) refl
