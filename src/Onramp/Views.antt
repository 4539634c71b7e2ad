-- ===== src/Onramp/Views.antt =====
-- Reading orders: `orderView`, `Get`, `GetByWallet`, `List` and `FindReplay` of
-- internal/repository/onramp_repository.go, and those of offramp_repository.go. A query that orders its rows is read through `sorted`.
use kailo_be.Prelude.{
  ℕ, ◌+◌, String, Bool, true, false, ◌&&◌, ◌||◌, not, Option, none, some, List, [], ◌∷◌, find,
  str_eq, ltb, ◌==◌, if◌then◌else◌, length,
}
use kailo_be.Prelude.Errors.{
  Error, order_not_found, invalid_withdrawal, idempotency_conflict, wrapped, checkout_unknown,
  Result, ok, err, ◌>>=◌,
}
use kailo_be.Prelude.Text.{trim_space}
use kailo_be.Store.{Database}
use kailo_be.Onramp.{onramp_create_operation}
use kailo_be.Store.Rows.{OrderRecord, PaymentCheckout, StellarTransaction, IdempotencyRecord}
use kailo_be.Store.Views.{Checkout, OrderView, OfframpPayout}
use kailo_be.Store.Table.{col_eq}
use kailo_be.Store.Queries.{before, sorted, head, filter, take}
use kailo_be.Principal.{OrderPrincipal, apply_order_ownership, apply_idempotency_ownership}
use kailo_be.Events.{
  deref_str, base_order_view, payout_view, sandbox_payout_disclosure,
  apply_offramp_retirement_evidence,
}
use kailo_be.Events.Append.{find_purpose}

-- `created_at DESC, id DESC`, and `created_at DESC` with the key that `First` adds.
abbrev pub newest_order : OrderRecord → OrderRecord → Bool
newest_order a b = ltb b.created_at a.created_at || a.created_at == b.created_at && before b.id a.id

abbrev pub newest_checkout : PaymentCheckout → PaymentCheckout → Bool
newest_checkout a b =
    ltb b.created_at a.created_at || a.created_at == b.created_at && before a.id b.id

abbrev pub checkout_view : PaymentCheckout → Checkout
checkout_view c = record {
  provider_id = c.provider_checkout_id;
  payment_request_id = "";
  method = c.method;
  status = c.status;
  presentation_type = c.presentation_type;
  presentation_value = deref_str c.presentation_reference;
  payment_link_url = c.payment_link_url;
  expires_at = c.expires_at;
}

abbrev pub find_checkout : String → Database → Option PaymentCheckout
find_checkout order_id db = head (
    sorted newest_checkout
      (filter (λ (c : PaymentCheckout). str_eq c.order_id order_id) db.payment_checkouts))

abbrev pub map_option {ℓ κ} : {A : Type ℓ} {B : Type κ} → (A → B) → Option A → Option B
map_option f none = none
map_option f (some a) = some (f a)

-- The hash of the transaction that a query found, or "".
abbrev pub hash_of : Option StellarTransaction → String
hash_of none = ""
hash_of (some s) = deref_str s.transaction_hash

abbrev pub with_retirement : Option StellarTransaction → OrderView → OrderView
with_retirement none view = view
with_retirement (some r) view = apply_offramp_retirement_evidence r view

-- The part of `orderView` for an off-ramp order.
abbrev pub offramp_part : OrderRecord → Database → OrderView → OrderView
offramp_part order db view = with_retirement (find_purpose order.id "retirement" db) (record view {
  payout =
      map_option (payout_view (sandbox_payout_disclosure none))
        (find (λ (p : OfframpPayout). str_eq p.order_id order.id) db.offramp_payouts);
  deposit_transaction_hash = hash_of (find_purpose order.id "deposit" db);
})

-- `orderView`: like the base view, without the asset's code and issuer.
unfoldable pub order_view : OrderRecord → Database → OrderView
order_view order db =
    let view = record (base_order_view order) {
      asset_code = "";
      asset_issuer = "";
      checkout = map_option checkout_view (find_checkout order.id db);
      stellar_transaction_hash = hash_of (find_purpose order.id "transfer" db);
    } in
    if str_eq order.direction "offramp" then offramp_part order db view else view

-- A look-up by a repository whose `orderView` is the first argument.
abbrev pub found_view :
    (OrderRecord → Database → OrderView) → Option OrderRecord → Database → Result OrderView
found_view view none db = err order_not_found
found_view view (some order) db = ok (view order db)

unfoldable pub get_as :
    (OrderRecord → Database → OrderView) → OrderPrincipal → String → Database → Result OrderView
get_as view principal order_id db = apply_order_ownership principal >>= λ owns.
    found_view view (find (λ o. str_eq o.id order_id && owns o) db.orders) db

-- `Get`, here and of the off-ramp repository.
abbrev pub get : OrderPrincipal → String → Database → Result OrderView
get = get_as order_view

abbrev pub get_offramp : OrderPrincipal → String → Database → Result OrderView
get_offramp = get_as (λ order db. offramp_part order db (base_order_view order))

-- `GetByWallet`.
unfoldable pub get_by_wallet : String → String → Database → Result OrderView
get_by_wallet wallet_account order_id db =
    found_view order_view
      (find
        (λ (o : OrderRecord).
          str_eq o.id order_id && col_eq o.wallet_account (trim_space wallet_account))
        db.orders)
      db

-- `List`: the rows of a page, and the cursor of the next one, with limit at least 1.
abbrev pub last_id : List OrderRecord → String
last_id [] = ""
last_id (o ∷ []) = o.id
last_id (o ∷ p ∷ rest) = last_id (p ∷ rest)

abbrev pub page : ℕ → List OrderRecord → List OrderRecord × String
page limit rows =
    let kept = take limit rows in (kept, if ltb limit (length rows) then last_id kept else "")

abbrev pub rows_after : (OrderRecord → Bool) → String → Database → Result (List OrderRecord)
rows_after owns cursor db =
    let rows = sorted newest_order (filter owns db.orders) in
    if str_eq cursor ""
    then ok rows
    else elim (find (λ o. str_eq o.id cursor && owns o) db.orders) [
      | none ↦ err order_not_found
      | some c ↦ ok (filter (newest_order c) rows)
    ]

unfoldable pub list_orders :
    OrderPrincipal → ℕ → String → Database → Result (List OrderRecord × String)
list_orders principal limit cursor db = apply_order_ownership principal >>= λ owns.
    rows_after owns cursor db >>= λ rows. ok (page limit (take (limit + 1) rows))

-- `FindReplay` and `FindOfframpReplay`: none is no record of the key. They look for records of one
-- operation, get the order, and have an error for a record without one.
module _ (get_order : String → Database → Result OrderView) (missing : Error) where
  abbrev pub replay_row : Bool → Option String → Database → Result (Option OrderView)
  replay_row true resource db = err idempotency_conflict
  replay_row false none db = err (wrapped "idempotency record has no order" missing)
  replay_row false (some order_id) db = get_order order_id db >>= λ view. ok (some view)

  abbrev pub replay_of : String → Option IdempotencyRecord → Database → Result (Option OrderView)
  replay_of request_hash none db = ok none
  replay_of request_hash (some row) db =
      replay_row (not (str_eq row.request_hash request_hash)) row.created_resource_id db

abbrev pub has_key : String → String → (IdempotencyRecord → Bool) → IdempotencyRecord → Bool
has_key operation key_hash owns row =
    owns row && str_eq row.operation operation && str_eq row.key_hash key_hash

unfoldable pub find_replay_as :
    (OrderPrincipal → String → Database → Result OrderView)
    → String
    → Error
    → OrderPrincipal
    → String
    → String
    → Database
    → Result (Option OrderView)
find_replay_as get_order operation missing principal key_hash request_hash db =
    apply_idempotency_ownership principal >>= λ owns.
    replay_of (get_order principal) missing request_hash
      (find (has_key operation key_hash owns) db.idempotency_records) db

abbrev pub find_replay : OrderPrincipal → String → String → Database → Result (Option OrderView)
find_replay = find_replay_as get onramp_create_operation (checkout_unknown "")

abbrev pub find_offramp_replay :
    OrderPrincipal → String → String → Database → Result (Option OrderView)
find_offramp_replay = find_replay_as get_offramp "offramp.create" invalid_withdrawal
