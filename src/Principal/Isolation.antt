-- ===== src/Principal/Isolation.antt =====
-- An order is found by its owner's principals and by no others.
use kailo_be.Prelude.{
  true, false, none, ◌≡◌, ◌↔◌, refl, arith, eq_iff, Bool-cases, subst, ◌⊎◌, inl, inr,
}
use kailo_be.Prelude.Errors.{ok}
use kailo_be.Prelude.Text.{is_blank, trim_space}
use kailo_be.Store.Rows.{OrderRecord, IdempotencyRecord}
use kailo_be.Principal.{
  OrderPrincipalKind, api_client, retail_session, OrderPrincipal, Principal, AuthenticatedUser,
  OrderOwnership, is_invalid, checked, validate, order_ownership_for, owns_order, owns_record,
  new_api_client_order_principal, new_retail_session_order_principal,
}

-- The scope that the credentials stand for: the API client, or the user behind the session.
abbrev pub SameOwner : OrderPrincipal → OrderPrincipal → Type 0
SameOwner p q = scope p.kind q.kind
  where
    scope : OrderPrincipalKind → OrderPrincipalKind → Type 0
    scope api_client api_client = p.client_id ≡ q.client_id
    scope retail_session retail_session = p.owner_user_id ≡ q.owner_user_id
    scope _ _ = ⊥

-- An order that carries the ownership columns of p.
abbrev pub IsOwnedAs : OrderOwnership → OrderRecord → Type 0
IsOwnedAs o order =
    (order.client_id ≡ o.client_id)
    × (order.created_by_user_id ≡ o.created_by_user_id)
    × (order.retail_session_id ≡ o.retail_session_id)

-- A valid principal finds an order that was created for a valid principal exactly when both stand
-- for the same API client, or both for sessions of the same user; and it then replays that order's
-- idempotency record, and only then.
pub owns_order_iff :
    (p q : OrderPrincipal) (o : OrderOwnership) (order : OrderRecord) (row : IdempotencyRecord)
    → order_ownership_for p ≡ ok o
    → validate q ≡ none
    → IsOwnedAs o order
    → row.client_id ≡ o.client_id
    → row.retail_user_id ≡ o.retail_user_id
    → ((owns_order q order ≡ true) ↔ SameOwner p q) × ((owns_record q row ≡ true) ↔ SameOwner p q)
unfolding order_ownership_for
owns_order_iff p q o order row h v own c r = (
  ground (arith, eq_iff p.client_id q.client_id, eq_iff p.owner_user_id q.owner_user_id),
  ground (arith, eq_iff p.client_id q.client_id, eq_iff p.owner_user_id q.owner_user_id),
)

checked-ok :
    (p q : OrderPrincipal) → checked (validate p) p ≡ ok q → (p ≡ q) × (is_invalid p.kind p ≡ false)
unfolding validate
checked-ok p q h = (ground arith, ground arith)

-- The API client's principal that is made from p, and the session's.
abbrev pub IsApiPrincipal : Principal → OrderPrincipal → Type 0
IsApiPrincipal a p =
    (validate p ≡ none)
    × (p.kind ≡ api_client)
    × (p.client_id ≡ trim_space a.client_id)
    × (p.owner_user_id ≡ trim_space a.owner_user_id)
    × (is_blank p.client_id ≡ false)

abbrev pub IsRetailPrincipal : AuthenticatedUser → OrderPrincipal → Type 0
IsRetailPrincipal u p =
    (validate p ≡ none)
    × (p.kind ≡ retail_session)
    × (u.email_verified ≡ true)
    × (p.owner_user_id ≡ trim_space u.user_id)
    × (p.session_id ≡ trim_space u.session_id)
    × (is_blank p.owner_user_id ≡ false)
    × (is_blank p.session_id ≡ false)

-- What the API client's constructor returns is valid and of its kind, and its ids are the trimmed
-- ones; the client's is not blank.
pub IsApiPrincipal-valid :
    (a : Principal) (p : OrderPrincipal)
    → new_api_client_order_principal a ≡ ok p
    → IsApiPrincipal a p
unfolding new_api_client_order_principal validate
IsApiPrincipal-valid a p h = moved (checked-ok _ p h)
  where
    built : OrderPrincipal
    built = record {
      kind = api_client;
      client_id = trim_space a.client_id;
      owner_user_id = trim_space a.owner_user_id;
      session_id = "";
    }

    moved : (built ≡ p) × (is_invalid built.kind built ≡ false) → IsApiPrincipal a p
    moved (e, i) =
        subst (λ (q : OrderPrincipal). IsApiPrincipal a q) e
          (ground arith, refl, refl, refl, ground arith)

-- What the session's constructor returns is valid and of its kind, its ids are the trimmed ones and
-- not blank, and the user's email is verified.
pub IsRetailPrincipal-valid :
    (u : AuthenticatedUser) (p : OrderPrincipal)
    → new_retail_session_order_principal u ≡ ok p
    → IsRetailPrincipal u p
unfolding new_retail_session_order_principal validate
IsRetailPrincipal-valid u p = verified (Bool-cases u.email_verified)
  where
    built : OrderPrincipal
    built = record {
      kind = retail_session;
      client_id = "";
      owner_user_id = trim_space u.user_id;
      session_id = trim_space u.session_id;
    }

    moved :
        u.email_verified ≡ true
        → (built ≡ p) × (is_invalid built.kind built ≡ false)
        → IsRetailPrincipal u p
    moved v (e, i) =
        subst (λ (q : OrderPrincipal). IsRetailPrincipal u q) e
          (ground arith, refl, v, refl, refl, ground arith, ground arith)

    verified :
        (u.email_verified ≡ true) ⊎ (u.email_verified ≡ false)
        → new_retail_session_order_principal u ≡ ok p
        → IsRetailPrincipal u p
    verified (inl v) h = moved v (checked-ok built p (ground arith))
    verified (inr v) h = absurd (ground arith)
