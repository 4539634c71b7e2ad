-- ===== src/Offramp/Create.antt =====
-- `OfframpUsecase.Create` of internal/usecase/offramp_usecase.go. What the price reader, the KYC
-- reader and the trustline validator answer, the clock, and the digest are parameters; ids come from
-- the supply of the database.
use kailo_be.Prelude.{
  String, Bool, true, false, ◌||◌, not, Option, none, some, [], ◌∷◌, length, ltb, str_eq, is_some,
  if◌then◌else◌,
}
use kailo_be.Prelude.Int.{ℤ, ltb_ℤ}
use kailo_be.Prelude.Errors.{
  Error, invalid_withdrawal, kyc_required, amount_out_of_range, is_conflict, wrapped, cause, Result,
  ok, err, fail_if, wrap, ◌>>=◌, ◌>>◌,
}
use kailo_be.Prelude.Text.{is_blank, trim_space}
use kailo_be.Prelude.Time.{Instant, add}
use kailo_be.Amount.{Bytes, format_int, parse_decimal_stroops}
use kailo_be.Request.{utf8, order_request_hash}
use kailo_be.Quote.{RatReader, MarketPrice, Quote, QuotePolicy, create_reverse}
use kailo_be.Principal.{OrderPrincipal, validate}
use kailo_be.Store.{Database, commit, next_id}
use kailo_be.Store.Views.{OrderView}
use kailo_be.Onramp.Views.{get_offramp, find_offramp_replay}
use kailo_be.Offramp.{
  OfframpRepository, OfframpCreateRecord, offramp_create_operation, create_offramp,
}

-- `OfframpCommand`.
pub record OfframpCommand : Type 0 where
  pub principal : OrderPrincipal
  pub wallet_account : String
  pub quote_id : String
  pub idempotency_key : String
  pub asset_network : String
  pub asset_code : String
  pub fiat_currency : String
  pub asset_amount : String
  pub withdrawal_method : String
  pub destination_token : String

-- `OfframpServiceConfig` and what the dependencies answer; none is no trustline validator.
pub record OfframpServices : Type 0 where
  pub repository : OfframpRepository
  pub reader : RatReader
  pub quote_policy : QuotePolicy
  pub min_idr : ℤ
  pub max_idr : ℤ
  pub asset_issuer : String
  pub deposit_expiry : ℤ
  pub now : Instant
  pub latest_xlm_idr : Result MarketPrice
  pub is_approved : String → Result Bool
  pub trustline : Option (Result (Unit {0}))
  pub digest : Bytes → String
  pub deposit_memo : String → String

-- The fields that are trimmed before anything else.
abbrev pub trimmed : OfframpCommand → OfframpCommand
trimmed c = record c {
  idempotency_key = trim_space c.idempotency_key;
  asset_network = trim_space c.asset_network;
  asset_code = trim_space c.asset_code;
  fiat_currency = trim_space c.fiat_currency;
  asset_amount = trim_space c.asset_amount;
  destination_token = trim_space c.destination_token;
}

abbrev pub is_invalid_sale : OfframpCommand → Bool
is_invalid_sale c =
    is_blank c.idempotency_key
    || ltb 255 (length (utf8 c.idempotency_key))
    || not (str_eq c.asset_network "stellar_testnet")
    || not (str_eq c.asset_code "KXLM")
    || not (str_eq c.fiat_currency "IDR")
    || not (str_eq c.withdrawal_method "sandbox_bank_transfer")
    || is_blank c.destination_token
    || ltb 200 (length (utf8 c.destination_token))

abbrev pub amount_or_invalid : Result ℤ → Result ℤ
amount_or_invalid (err e) = err invalid_withdrawal
amount_or_invalid (ok stroops) = ok stroops

-- The checks of the command itself, and its stroops.
unfoldable pub checked_sale : OfframpCommand → Result ℤ
checked_sale c = do
  fail_if (is_some (validate c.principal)) invalid_withdrawal
  fail_if (is_invalid_sale (trimmed c)) invalid_withdrawal
  amount_or_invalid (parse_decimal_stroops (utf8 (trimmed c).asset_amount))

abbrev pub refuses : Option (Result (Unit {0})) → Bool
refuses none = false
refuses (some (ok u)) = false
refuses (some (err e)) = true

-- What `Create` returns: the view, and whether the order was there before.
abbrev pub Created : Type 0
Created = Result (OrderView × Bool) × Database

module _ (s : OfframpServices) where
  -- `idempotencyHash` and `requestHash`.
  abbrev pub sale_key : OfframpCommand → String
  sale_key c = s.digest (utf8 (trimmed c).idempotency_key)

  abbrev pub sale_request : OfframpCommand → ℤ → String
  sale_request c stroops = order_request_hash s.digest offramp_create_operation (
      utf8 (trimmed c).asset_network
      ∷ utf8 (trimmed c).asset_code
      ∷ format_int stroops
      ∷ utf8 (trimmed c).fiat_currency
      ∷ utf8 c.withdrawal_method
      ∷ utf8 (trimmed c).destination_token
      ∷ [])

  -- The conditions of a new order, and its quote.
  unfoldable pub sale_quote : OfframpCommand → ℤ → Result Quote
  sale_quote c stroops = do
    approved ← wrap "checking kyc status" (s.is_approved c.principal.owner_user_id)
    fail_if (not approved) kyc_required
    fail_if (is_blank (trim_space s.asset_issuer)) invalid_withdrawal
    fail_if (refuses s.trustline) invalid_withdrawal
    market ← wrap "reading XLM IDR price" s.latest_xlm_idr
    quote ← wrap "creating quote" (create_reverse s.reader s.quote_policy s.now stroops market)
    fail_if (ltb_ℤ quote.fiat_amount s.min_idr || ltb_ℤ s.max_idr quote.fiat_amount)
        amount_out_of_range
    ok quote

  abbrev pub sale_record : OfframpCommand → ℤ → Quote → String → OfframpCreateRecord
  sale_record c stroops quote id = record {
    order_id = id;
    principal = c.principal;
    wallet_account = trim_space c.wallet_account;
    quote_id = trim_space c.quote_id;
    idempotency_key_hash = sale_key c;
    request_hash = sale_request c stroops;
    asset_amount = stroops;
    asset_issuer = s.asset_issuer;
    quote = quote;
    destination_token = (trimmed c).destination_token;
    memo = s.deposit_memo id;
    expires_at = add s.now s.deposit_expiry;
    created_at = s.now;
  }

  abbrev pub find_sale : OfframpCommand → ℤ → Database → Result (Option OrderView)
  find_sale c stroops db = find_offramp_replay c.principal (sale_key c) (sale_request c stroops) db

  abbrev pub loaded_sale : Result OrderView → Database → Created
  loaded_sale (err e) db = (err (wrapped "loading created order" e), db)
  loaded_sale (ok view) db = (ok (view, false), db)

  -- An order that could not be created may have been by another call.
  abbrev pub recovered_sale : Error → Result (Option OrderView) → Database → Created
  recovered_sale e (ok (some view)) db = (ok (view, true), db)
  recovered_sale e (ok none) db = (err (wrapped "creating off-ramp order" e), db)
  recovered_sale e (err r) db =
      (err (if is_conflict (cause r) then r else wrapped "creating off-ramp order" e), db)

  abbrev pub after_sale : OfframpCommand → ℤ → String → Result (Unit {0}) × Database → Created
  after_sale c stroops id (err e, db) = recovered_sale e (find_sale c stroops db) db
  after_sale c stroops id (ok u, db) = loaded_sale (get_offramp c.principal id db) db

  abbrev pub persist_sale :
      OfframpCommand → ℤ → Quote → Database → Result (String × Database) → Created
  persist_sale c stroops quote db (err e) = (err (wrapped "generating order id" e), db)
  persist_sale c stroops quote db (ok (id, drawn)) =
      after_sale c stroops id
        (commit (create_offramp s.repository (sale_record c stroops quote id)) drawn)

  abbrev pub new_sale : OfframpCommand → ℤ → Result Quote → Database → Created
  new_sale c stroops (err e) db = (err e, db)
  new_sale c stroops (ok quote) db = persist_sale c stroops quote db (next_id db.supply db)

  abbrev pub replayed_sale : OfframpCommand → ℤ → Result (Option OrderView) → Database → Created
  replayed_sale c stroops (err e) db = (err (wrapped "checking idempotency" e), db)
  replayed_sale c stroops (ok (some view)) db = (ok (view, true), db)
  replayed_sale c stroops (ok none) db = new_sale c stroops (sale_quote c stroops) db

  abbrev pub sell_checked : OfframpCommand → Result ℤ → Database → Created
  sell_checked c (err e) db = (err e, db)
  sell_checked c (ok stroops) db = replayed_sale c stroops (find_sale c stroops db) db

  -- `OfframpUsecase.Create`.
  unfoldable pub sell : OfframpCommand → Database → Created
  sell c db = sell_checked c (checked_sale c) db
