-- ===== src/Principal.antt =====
-- internal/usecase/order_principal.go and internal/repository/order_ownership.go: who may create,
-- find and replay an order. A condition that a query adds is a test of the row.
pub mod Isolation
mod Tests
use kailo_be.Prelude.{
  String, Bool, true, false, ◌&&◌, ◌||◌, not, Option, none, some, str_eq, find, if◌then◌else◌, ◌≡◌,
}
use kailo_be.Prelude.Errors.{Error, invalid_order_principal, Result, ok, err}
use kailo_be.Prelude.Text.{is_blank, trim_space}
use kailo_be.Store.{Database, Tx, pure, raise, raise_if, gets, ◌>>=◌}
use kailo_be.Store.Rows.{OrderRecord, IdempotencyRecord}
use kailo_be.Store.Table.{col_eq, is_null}

-- `OrderPrincipalKind`; the zero value and any other text are `other_kind`.
pub data OrderPrincipalKind : Type 0 where
  api_client : OrderPrincipalKind
  retail_session : OrderPrincipalKind
  other_kind : OrderPrincipalKind

pub record OrderPrincipal : Type 0 where
  pub kind : OrderPrincipalKind
  pub client_id : String
  pub owner_user_id : String
  pub session_id : String

-- The fields of `Principal` and of `AuthenticatedUser` that are read here.
pub record Principal : Type 0 where
  pub client_id : String
  pub owner_user_id : String

pub record AuthenticatedUser : Type 0 where
  pub user_id : String
  pub email_verified : Bool
  pub session_id : String

-- The switch of `OrderPrincipal.Validate`: true is an error.
abbrev pub is_invalid : OrderPrincipalKind → OrderPrincipal → Bool
is_invalid api_client p =
    is_blank p.client_id || is_blank p.owner_user_id || not (is_blank p.session_id)
is_invalid retail_session p =
    is_blank p.owner_user_id || is_blank p.session_id || not (is_blank p.client_id)
is_invalid other_kind p = true

-- `OrderPrincipal.Validate`; none is nil.
unfoldable pub validate : OrderPrincipal → Option Error
validate p = if is_invalid p.kind p then some invalid_order_principal else none

-- A principal that passes its validation, or the error.
abbrev pub checked : Option Error → OrderPrincipal → Result OrderPrincipal
checked (some e) p = err e
checked none p = ok p

-- `NewAPIClientOrderPrincipal`.
unfoldable pub new_api_client_order_principal : Principal → Result OrderPrincipal
new_api_client_order_principal principal =
    let p : OrderPrincipal = record {
      kind = api_client;
      client_id = trim_space principal.client_id;
      owner_user_id = trim_space principal.owner_user_id;
      session_id = "";
    } in
    checked (validate p) p

-- `NewRetailSessionOrderPrincipal`.
unfoldable pub new_retail_session_order_principal : AuthenticatedUser → Result OrderPrincipal
new_retail_session_order_principal user =
    let p : OrderPrincipal = record {
      kind = retail_session;
      client_id = "";
      owner_user_id = trim_space user.user_id;
      session_id = trim_space user.session_id;
    } in
    if not user.email_verified then err invalid_order_principal else checked (validate p) p

abbrev pub is_api_client : OrderPrincipalKind → Bool
is_api_client api_client = true
is_api_client _ = false

abbrev pub is_retail_session : OrderPrincipalKind → Bool
is_retail_session retail_session = true
is_retail_session _ = false

-- `orderOwnership`: the columns of a new order and of its idempotency record.
pub record OrderOwnership : Type 0 where
  pub client_id : Option String
  pub created_by_user_id : Option String
  pub retail_session_id : Option String
  pub retail_user_id : Option String

-- `orderOwnershipFor`, behind its validation.
abbrev pub ownership_columns : OrderPrincipalKind → OrderPrincipal → Result OrderOwnership
ownership_columns api_client p = ok (record {
  client_id = some p.client_id;
  created_by_user_id = none;
  retail_session_id = none;
  retail_user_id = none;
})
ownership_columns retail_session p = ok (record {
  client_id = none;
  created_by_user_id = some p.owner_user_id;
  retail_session_id = some p.session_id;
  retail_user_id = some p.owner_user_id;
})
ownership_columns other_kind p = err invalid_order_principal

unfoldable pub order_ownership_for : OrderPrincipal → Result OrderOwnership
unfolding validate
order_ownership_for p = elim (validate p) [ some e ↦ err e | none ↦ ownership_columns p.kind p ]

-- `validateRetailSessionOwnership`: the session's row names its user.
abbrev pub session_owner : Option (String × String) → String → Tx (Unit {0})
session_owner none owner = raise invalid_order_principal
session_owner (some (session, user)) owner =
    raise_if (not (str_eq user owner)) invalid_order_principal

abbrev pub check_session : Bool → OrderPrincipal → Tx (Unit {0})
check_session false p = pure tt
check_session true p =
    gets (λ db. find (λ (s : String × String). str_eq s.0 p.session_id) db.retail_sessions)
    >>= λ row. session_owner row p.owner_user_id

unfoldable pub validate_retail_session_ownership : OrderPrincipal → Tx (Unit {0})
validate_retail_session_ownership p = check_session (is_retail_session p.kind) p

-- `applyOrderOwnership` and `applyIdempotencyOwnership`: the test that the query gets.
abbrev pub owns_order : OrderPrincipal → OrderRecord → Bool
owns_order p order =
    if is_api_client p.kind
    then col_eq order.client_id p.client_id && is_null order.retail_session_id
    else is_null order.client_id
      && not (is_null order.retail_session_id)
      && col_eq order.created_by_user_id p.owner_user_id

unfoldable pub apply_order_ownership : OrderPrincipal → Result (OrderRecord → Bool)
unfolding validate
apply_order_ownership p = elim (validate p) [ some e ↦ err e | none ↦ ok (owns_order p) ]

abbrev pub owns_record : OrderPrincipal → IdempotencyRecord → Bool
owns_record p row =
    if is_api_client p.kind
    then col_eq row.client_id p.client_id && is_null row.retail_user_id
    else is_null row.client_id && col_eq row.retail_user_id p.owner_user_id

unfoldable pub apply_idempotency_ownership : OrderPrincipal → Result (IdempotencyRecord → Bool)
unfolding validate
apply_idempotency_ownership p = elim (validate p) [ some e ↦ err e | none ↦ ok (owns_record p) ]
