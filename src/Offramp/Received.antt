-- ===== src/Offramp/Received.antt =====
-- What a deposit needs, for `RecordAssetReceived` of internal/repository/offramp_repository.go to
-- change anything.
use kailo_be.Prelude.{
  ◌<◌, ◌≡◌, ◌≢◌, refl, sym, ap, ◌∙◌, arith, eq_iff, ◌⊎◌, inl, inr, String, Bool, true, false,
  Option, none, some,
}
use kailo_be.Prelude.Int.{eq_ℤ-≡}
use kailo_be.Prelude.Errors.{Result, ok, err}
use kailo_be.Prelude.Time.{Instant}
use kailo_be.Order.{asset_pending}
use kailo_be.Store.{Database, Tx, commit, committed}
use kailo_be.Store.Rows.{OrderRecord}
use kailo_be.Store.Triples.{
  Triple, Holds, triple->>=, triple-post, triple-pre, triple-premise, triple-wrapping, triple-pure,
  triple-gets, triple-found, triple-raise_if,
}
use kailo_be.Onramp.Checkouts.{lock_order}
use kailo_be.Events.Append.{find_order}
use kailo_be.Chronicle.Orders.{guard-≡}
use kailo_be.Offramp.Deposits.{
  ObservedPayment, is_invalid_deposit, accept_unless, record_asset_received,
}

-- The payment is the one that the order asked for.
pub record IsDeposit (order : OrderRecord) (payment : ObservedPayment) : Type 0 where
  pub sells : order.direction ≡ "offramp"
  pub to : order.stellar_source ≡ some payment.to
  pub memo : order.stellar_memo ≡ some payment.memo
  pub code : payment.asset_code ≡ order.asset_code
  pub issuer : payment.asset_issuer ≡ order.asset_issuer
  pub amount : payment.amount ≡ order.asset_amount_stroops
  pub hash : payment.transaction_hash ≢ ""
  pub ledger : 0 < payment.ledger_at

abbrev pub IsExpected : String → ObservedPayment → Database → Type 0
IsExpected order_id payment db =
    (order : OrderRecord) × (find_order order_id db ≡ some order)
    × (order.status ≡ asset_pending)
    × IsDeposit order payment

differs-IsDeposit :
    (order : OrderRecord) (payment : ObservedPayment) (source memo : Option String)
    → order.stellar_source ≡ source
    → order.stellar_memo ≡ memo
    → is_invalid_deposit order payment source memo ≡ false
    → IsDeposit order payment
differs-IsDeposit order payment (some s) (some m) e f h = record {
  sells = ground (arith, h, eq_iff order.direction "offramp");
  to = e ∙ ground (arith, h, eq_iff payment.to s);
  memo = f ∙ ground (arith, h, eq_iff payment.memo m);
  code = ground (arith, h, eq_iff payment.asset_code order.asset_code);
  issuer = ground (arith, h, eq_iff payment.asset_issuer order.asset_issuer);
  amount = eq_ℤ-≡ payment.amount order.asset_amount_stroops (ground (arith, h));
  hash = ground (arith, h, eq_iff payment.transaction_hash "");
  ledger = ground (arith, h);
}
differs-IsDeposit order payment none m e f h = cc
differs-IsDeposit order payment (some s) none e f h = cc

-- A step whose outcome is not looked at, where something else is known.
known {ℓ} :
    {A : Type ℓ} {P : Database → Type 0} {m : Tx A} {Q : A → Database → Type 0}
    → ((a : A) (db : Database) → Q a db)
    → Triple P m Q
known {A = A} {m = m} {Q = Q} h = record { holds = λ db p. all (m db) }
  where
    all : (r : Result (A × Database)) → Holds Q r
    all (ok r) = h r.0 r.1
    all (err e) = tt

module _ (order_id : String) (payment : ObservedPayment) (now : Instant) (db : Database) where
  abbrev Same : Database → Type 0
  Same after = after ≡ db

  abbrev Accounted : Database → Type 0
  Accounted after = (after ≡ db) ⊎ IsExpected order_id payment db

  accept-Accounted :
      (order : OrderRecord) (b : Bool)
      → find_order order_id db ≡ some order
      → Triple Same (accept_unless b order payment now) (λ u. Accounted)
  accept-Accounted order true e = triple-pure _ (λ d h. inl h)
  accept-Accounted order false e = triple->>= (triple-raise_if _ _) λ _.
      triple-premise (λ d h. guard-≡ order.status asset_pending h.1)
        λ s. triple->>= (triple-raise_if _ _) λ _.
          triple-premise (λ d h. differs-IsDeposit order payment _ _ refl refl h.1)
            λ k. known (λ u d. inr (order, e, s, k))

  locked :
      (message : String)
      → Triple Same
          (lock_order message order_id)
          (λ order d. Same d × (find_order order_id db ≡ some order))
  locked message = triple->>= (triple-gets _) λ row. triple-wrapping _ (
      triple-post (triple-found _ row)
        λ order d h. (h.0.0, ap (find_order order_id) (sym h.0.0) ∙ sym h.0.1 ∙ h.1))

  record-Accounted : Triple Same (record_asset_received order_id payment now) (λ u. Accounted)
  unfolding record_asset_received
  record-Accounted =
      triple->>= (locked _) λ order.
        triple-premise (λ d h. h.1) λ e. triple-pre (λ d h. h.0) (accept-Accounted order _ e)

-- Recording a deposit changes nothing, whatever it returns, unless the order of that id waits for
-- its asset, and the payment is exactly the one that it asked for: to its account, of its asset and
-- its amount, with its memo, and with the hash and the time of a ledger.
pub received_exactly :
    (order_id : String) (payment : ObservedPayment) (now : Instant) (db : Database)
    → ((commit (record_asset_received order_id payment now) db).1 ≡ db)
      ⊎ IsExpected order_id payment db
received_exactly order_id payment now db =
    over _ ((record-Accounted order_id payment now db).holds db refl)
  where
    over :
        (r : Result (Unit {0} × Database))
        → Holds (λ u after. (after ≡ db) ⊎ IsExpected order_id payment db) r
        → ((committed db r).1 ≡ db) ⊎ IsExpected order_id payment db
    over (ok r) h = h
    over (err e) h = inl refl
