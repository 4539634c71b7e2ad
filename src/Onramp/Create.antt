-- ===== src/Onramp/Create.antt =====
-- `OnrampUsecase.Create` of internal/usecase/onramp_usecase.go. What the validators, the KYC reader,
-- the price reader, the treasury reader and the payment gateway answer, the clocks and the digest
-- are parameters; ids come from the supply of the database.
use kailo_be.Prelude.{
  ℕ, String, Bool, true, false, ◌&&◌, ◌||◌, not, Option, none, some, [], ◌∷◌, length, ltb, leb,
  ◌==◌, all, str_eq, is_some, if◌then◌else◌,
}
use kailo_be.Prelude.Int.{ℤ, ltb_ℤ}
use kailo_be.Prelude.Errors.{
  Error, is_conflict, invalid_command, invalid_destination, kyc_required, amount_out_of_range,
  checkout_unknown, wrapped, cause, Result, ok, err, fail_if, wrap, ◌>>=◌, ◌>>◌,
}
use kailo_be.Prelude.Text.{is_blank, trim_space}
use kailo_be.Prelude.Time.{Instant}
use kailo_be.Amount.{Bytes, codes, format_int, validate_idr}
use kailo_be.Request.{utf8, order_request_hash}
use kailo_be.Quote.{RatReader, MarketPrice, Quote, QuotePolicy, create}
use kailo_be.Principal.{OrderPrincipal, validate}
use kailo_be.Store.{Database, commit, next_id}
use kailo_be.Store.Rows.{PaymentMethod, unknown_method, qris, bri_va, xendit}
use kailo_be.Store.Views.{Checkout, OrderView}
use kailo_be.Onramp.{OnrampRepository, CreateRecord, onramp_create_operation, reserve_and_create}
use kailo_be.Onramp.Views.{find_replay}
use kailo_be.Onramp.Checkouts.{attach_checkout, fail_checkout, mark_checkout_unknown}

-- `Command`.
pub record Command : Type 0 where
  pub principal : OrderPrincipal
  pub wallet_account : String
  pub quote_id : String
  pub idempotency_key : String
  pub amount : ℤ
  pub payment_method : PaymentMethod
  pub destination : String
  pub memo : String

-- `CheckoutInput`, and what `CreateCheckout` answers: a checkout, a `GatewayError` that is unknown,
-- or any other error.
pub record CheckoutInput : Type 0 where
  pub order_id : String
  pub method : PaymentMethod
  pub amount : ℤ
  pub expires_at : Instant

pub data CheckoutAnswer : Type 0 where
  made : Checkout → CheckoutAnswer
  outcome_unknown : CheckoutAnswer
  refused : Error → CheckoutAnswer

-- `ServiceConfig` and what the dependencies answer; none is no trustline validator.
pub record OnrampServices : Type 0 where
  pub repository : OnrampRepository
  pub reader : RatReader
  pub quote_policy : QuotePolicy
  pub min_idr : ℤ
  pub max_idr : ℤ
  pub now : Instant
  -- The clock of the repository behind the call of the gateway.
  pub now_after : Instant
  pub validate_destination : String → Result (Unit {0})
  pub trustline : Option (String → Result (Unit {0}))
  pub is_approved : String → Result Bool
  pub latest_xlm_idr : Result MarketPrice
  pub spendable_balance : Result ℤ
  pub create_checkout : CheckoutInput → CheckoutAnswer
  pub digest : Bytes → String

abbrev pub method_or_xendit : PaymentMethod → PaymentMethod
method_or_xendit unknown_method = xendit
method_or_xendit method = method

abbrev pub trimmed : Command → Command
trimmed c = record c {
  idempotency_key = trim_space c.idempotency_key;
  destination = trim_space c.destination;
  memo = trim_space c.memo;
  payment_method = method_or_xendit c.payment_method;
}

abbrev pub method_text : PaymentMethod → Bytes
method_text unknown_method = []
method_text qris = codes "qris"
method_text bri_va = codes "bri_va"
method_text xendit = codes "xendit"

-- The alphabet of a destination.
abbrev pub is_base32 : ℕ → Bool
is_base32 c = leb b'A' c && leb c b'Z' || leb b'2' c && leb c b'7'

abbrev pub starts_with_g : Bytes → Bool
starts_with_g [] = false
starts_with_g (c ∷ s) = c == b'G'

-- `validateCommand`: true is an error. Each of the three methods that a command can have by now is
-- one of those that are supported.
abbrev pub is_invalid_command : Command → Bool
is_invalid_command c =
    is_blank c.idempotency_key
    || ltb 255 (length (utf8 c.idempotency_key))
    || is_some (validate_idr c.amount)
    || not (length (utf8 c.destination) == 56)
    || not (starts_with_g (utf8 c.destination))
    || ltb 28 (length (utf8 c.memo))
    || not (all is_base32 (utf8 c.destination))

-- The checks of the command itself; true is that `validateCommand` and those before it pass.
abbrev pub or_invalid : Result (Unit {0}) → Result (Unit {0})
or_invalid (ok u) = ok tt
or_invalid (err e) = err invalid_destination

abbrev pub trusts : Option (String → Result (Unit {0})) → String → Result (Unit {0})
trusts none destination = ok tt
trusts (some validator) destination = or_invalid (validator destination)

-- What `Create` returns: the view, and whether the order was there before. The view that is returned
-- beside `replayError` is left out.
abbrev pub Created : Type 0
Created = Result (OrderView × Bool) × Database

-- A replay, with `replayError`.
abbrev pub replayed_view : OrderView → Database → Created
replayed_view view db = (
  if str_eq view.failure_code "checkout_unknown"
      then err (checkout_unknown view.id)
      else ok (view, true),
  db,
)

module _ (s : OnrampServices) where
  unfoldable pub checked_purchase : Command → Result (Unit {0})
  checked_purchase c = do
    fail_if (is_some (validate c.principal)) invalid_command
    fail_if (is_invalid_command (trimmed c)) invalid_command
    or_invalid (s.validate_destination (trimmed c).destination)
    trusts s.trustline (trimmed c).destination
    fail_if (ltb_ℤ c.amount s.min_idr || ltb_ℤ s.max_idr c.amount) amount_out_of_range

  -- `idempotencyHash` and `requestHash`.
  abbrev pub purchase_key : Command → String
  purchase_key c = s.digest (utf8 (trimmed c).idempotency_key)

  abbrev pub purchase_request : Command → String
  purchase_request c = order_request_hash s.digest onramp_create_operation (
      format_int c.amount
      ∷ method_text (trimmed c).payment_method
      ∷ utf8 (trimmed c).destination
      ∷ utf8 (trimmed c).memo
      ∷ [])

  -- The conditions of a new order: its quote, and the balance of the treasury.
  unfoldable pub purchase_quote : Command → Result (Quote × ℤ)
  purchase_quote c = do
    approved ← wrap "checking kyc status" (s.is_approved c.principal.owner_user_id)
    fail_if (not approved) kyc_required
    market ← wrap "reading XLM IDR price" s.latest_xlm_idr
    quote ← wrap "creating quote" (create s.reader s.quote_policy s.now c.amount market)
    balance ← wrap "reading treasury balance" s.spendable_balance
    ok (quote, balance)

  abbrev pub purchase_record : Command → Quote → String → CreateRecord
  purchase_record c quote id = record {
    order_id = id;
    principal = c.principal;
    wallet_account = trim_space c.wallet_account;
    quote_id = trim_space c.quote_id;
    idempotency_key_hash = purchase_key c;
    request_hash = purchase_request c;
    payment_method = (trimmed c).payment_method;
    destination = (trimmed c).destination;
    memo = (trimmed c).memo;
    quote = quote;
    created_at = s.now;
  }

  abbrev pub find_purchase : Command → Database → Result (Option OrderView)
  find_purchase c db = find_replay c.principal (purchase_key c) (purchase_request c) db

  -- An order that could not be created may have been by another call.
  abbrev pub recovered_purchase : Error → Result (Option OrderView) → Database → Created
  recovered_purchase e (ok (some view)) db = replayed_view view db
  recovered_purchase e (ok none) db = (err (wrapped "reserving treasury inventory" e), db)
  recovered_purchase e (err r) db =
      (err (if is_conflict (cause r) then r else wrapped "reserving treasury inventory" e), db)

  abbrev pub after_attach : Result OrderView × Database → Created
  after_attach (err e, db) = (err (wrapped "attaching payment checkout" e), db)
  after_attach (ok view, db) = (ok (view, false), db)

  abbrev pub after_gateway : String → CheckoutAnswer → Database → Created
  after_gateway id (made checkout) db = after_attach (attach_checkout id checkout s.now_after db)
  after_gateway id outcome_unknown db =
      (err (checkout_unknown id), (commit (mark_checkout_unknown id s.now_after) db).1)
  after_gateway id (refused e) db =
      (err (wrapped "creating payment checkout" e), (commit (fail_checkout id s.now_after) db).1)

  abbrev pub checkout_input : Command → Quote → String → CheckoutInput
  checkout_input c quote id = record {
    order_id = id;
    method = (trimmed c).payment_method;
    amount = c.amount;
    expires_at = quote.expires_at;
  }

  abbrev pub after_reserve : Command → Quote → String → Result (Unit {0}) × Database → Created
  after_reserve c quote id (err e, db) = recovered_purchase e (find_purchase c db) db
  after_reserve c quote id (ok u, db) =
      after_gateway id (s.create_checkout (checkout_input c quote id)) db

  abbrev pub reserve_purchase :
      Command → Quote → ℤ → Database → Result (String × Database) → Created
  reserve_purchase c quote balance db (err e) = (err (wrapped "generating order id" e), db)
  reserve_purchase c quote balance db (ok (id, drawn)) =
      after_reserve c quote id
        (commit (reserve_and_create s.repository (purchase_record c quote id) balance) drawn)

  abbrev pub new_purchase : Command → Result (Quote × ℤ) → Database → Created
  new_purchase c (err e) db = (err e, db)
  new_purchase c (ok (quote, balance)) db =
      reserve_purchase c quote balance db (next_id db.supply db)

  abbrev pub replayed_purchase : Command → Result (Option OrderView) → Database → Created
  replayed_purchase c (err e) db = (err (wrapped "checking idempotency" e), db)
  replayed_purchase c (ok (some view)) db = replayed_view view db
  replayed_purchase c (ok none) db = new_purchase c (purchase_quote c) db

  abbrev pub buy_checked : Command → Result (Unit {0}) → Database → Created
  buy_checked c (err e) db = (err e, db)
  buy_checked c (ok u) db = replayed_purchase c (find_purchase c db) db

  -- `OnrampUsecase.Create`.
  unfoldable pub buy : Command → Database → Created
  buy c db = buy_checked c (checked_purchase c) db
