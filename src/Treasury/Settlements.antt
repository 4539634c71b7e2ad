-- ===== src/Treasury/Settlements.antt =====
-- The outcomes of a settlement and the expiry of reservations keep the treasury balanced.
use kailo_be.Prelude.{
  ℕ, ◌≡◌, refl, sym, subst, ◌∙◌, String, Bool, true, false, Option, some, List, [], ◌∷◌, any,
  find-IsIn, str_eq, All,
}
use kailo_be.Prelude.Time.{Instant}
use kailo_be.Store.{Database}
use kailo_be.Store.Rows.{OrderRecord, TreasuryReservation, StellarTransaction}
use kailo_be.Store.Statements.{unreserve, update_treasury_accounts, update_reservations}
use kailo_be.Store.Triples.{
  Triple, Keeps, triple->>=, triple-pre, triple-premise, triple-both, triple-wrapping, triple-pure,
  triple-modify, triple-gets, triple-found, Keeps->>=, Keeps-gets, Keeps-found, Keeps-raise_if,
}
use kailo_be.Store.Frames.{
  update_orders-Keeps, update_stellar-Keeps, update_outbox-Keeps, update_sep24-Keeps,
}
use kailo_be.Events.Frames.{
  IsUnwatched, append_order_event-Keeps, append_order_event_from_source-Keeps,
}
use kailo_be.Onramp.Checkouts.{is_reserved, release_reservation}
use kailo_be.Settlement.Outcomes.{
  find_reservation, consume_if, order_row, confirm_intent, confirm_unless, confirm, fail_permanent,
}
use kailo_be.Settlement.Expiry.{
  expire_order, expire_if, expire_one, expire_each, release_expired_reservations,
}
use kailo_be.Treasury.{has_id, IsDistinct, IsBalanced}
use kailo_be.Treasury.Steps.{IsHeld, release_reservation-IsBalanced, consume_reservation-IsBalanced}
use kailo_be.Treasury.Orders.{lock_order-Keeps, balance_free}
use kailo_be.Treasury.Batch.{expired_batch-IsDistinct, expired_batch-IsHeld, rest-IsHeld}

pub order_row-Keeps : {P : Database → Type 0} (order_id : String) → Keeps P (order_row order_id)
order_row-Keeps order_id = Keeps->>= (Keeps-gets _) λ _. Keeps-found _ _

consume_if-IsBalanced :
    (b : Bool) (order_id : String) (r : TreasuryReservation) (row : Option TreasuryReservation)
    (now : Instant)
    → is_reserved r.status ≡ b
    → Triple
        (λ db. (IsBalanced db × (row ≡ find_reservation order_id db)) × (row ≡ some r))
        (consume_if b r now)
        (λ u. IsBalanced)
consume_if-IsBalanced false order_id r row now e = triple-pure _ (λ db h. h.0.0)
consume_if-IsBalanced true order_id r row now e =
    triple-pre
      (λ db h. (
        h.0.0,
        (
          (find-IsIn (λ (x : TreasuryReservation). str_eq x.order_id order_id)
              db.treasury_reservations (sym h.0.1 ∙ h.1)).0,
          e,
        ),
      ))
      (consume_reservation-IsBalanced r now)

pub confirm_intent-IsBalanced :
    (stellar : StellarTransaction) (hash : String) (ledger_at now : Instant)
    → Keeps IsBalanced (confirm_intent stellar hash ledger_at now)
unfolding confirm_intent
confirm_intent-IsBalanced stellar hash ledger_at now = Keeps->>= (Keeps-raise_if _ _) λ _.
    Keeps->>= (update_stellar-Keeps (λ db rows h. h) _ _) λ _. triple->>= (triple-gets _) λ row.
      triple->>= (triple-found _ row) λ r.
        triple->>= (consume_if-IsBalanced _ stellar.order_id r row now refl) λ _.
          Keeps->>= (order_row-Keeps _) λ order. Keeps->>= (Keeps-raise_if _ _) λ _.
            Keeps->>= (update_orders-Keeps (λ db rows h. h) _ _) λ _.
              Keeps->>= (triple-wrapping _ (update_sep24-Keeps (λ db rows h. h) _ _)) λ _.
                Keeps->>=
                  (append_order_event_from_source-Keeps balance_free (λ db rows h. h) _ _ _ _ _ _ _)
                  λ _. update_outbox-Keeps (λ db rows h. h) _ _

pub confirm-IsBalanced :
    (intent_id hash : String) (ledger_at now : Instant)
    → Keeps IsBalanced (confirm intent_id hash ledger_at now)
unfolding confirm
confirm-IsBalanced intent_id hash ledger_at now =
    Keeps->>= (Keeps-gets _) λ row. Keeps->>= (Keeps-found _ row) λ stellar. unless stellar _
  where
    unless :
        (stellar : StellarTransaction) (b : Bool)
        → Keeps IsBalanced (confirm_unless b stellar hash ledger_at now)
    unless stellar true = triple-pure _ (λ db h. h)
    unless stellar false = confirm_intent-IsBalanced stellar hash ledger_at now

pub fail_permanent-IsBalanced :
    (intent_id safe_error : String) (now : Instant)
    → Keeps IsBalanced (fail_permanent intent_id safe_error now)
unfolding fail_permanent
fail_permanent-IsBalanced intent_id safe_error now = Keeps->>= (Keeps-gets _) λ row.
    Keeps->>= (Keeps-found _ row) λ stellar. Keeps->>= (order_row-Keeps _) λ order.
      Keeps->>= (Keeps-raise_if _ _) λ _. Keeps->>= (update_stellar-Keeps (λ db rows h. h) _ _) λ _.
        Keeps->>= (update_orders-Keeps (λ db rows h. h) _ _) λ _.
          Keeps->>= (append_order_event-Keeps balance_free (λ db rows h. h) _ _ _ _ _ _)
            λ _. update_outbox-Keeps (λ db rows h. h) _ _

-- What is left of a batch, in the middle of the loop.
abbrev AreHeld : List TreasuryReservation → Database → Type 0
AreHeld rest db = All (λ (r : TreasuryReservation). IsHeld r db) rest

abbrev Left : List TreasuryReservation → Database → Type 0
Left rest db = IsBalanced db × AreHeld rest db

Left-free : (rest : List TreasuryReservation) → IsUnwatched (Left rest)
Left-free rest = record { supply = λ db ids h. h; webhooks = λ db rows h. h; jobs = λ db rows h. h }

release_reservation-AreHeld :
    (r : TreasuryReservation) (rest : List TreasuryReservation) (now : Instant)
    → any (has_id r.id) rest ≡ false
    → Triple (AreHeld rest) (release_reservation r now) (λ u. AreHeld rest)
unfolding release_reservation update_reservations unreserve update_treasury_accounts
release_reservation-AreHeld r rest now d =
    triple->>= (triple-modify _ (λ db h. rest-IsHeld r.id _ db rest d h)) λ _.
      Keeps->>= (Keeps-gets _) λ _. Keeps->>= (Keeps-raise_if _ _) λ _.
        Keeps->>= (Keeps-gets _)
          λ _. Keeps->>= (Keeps-raise_if _ _) λ _. triple-modify _ (λ db h. h)

expire_order-Left :
    (order : OrderRecord) (r : TreasuryReservation) (rest : List TreasuryReservation)
    (now : Instant)
    → any (has_id r.id) rest ≡ false
    → Triple (Left (r ∷ rest)) (expire_order order r now) (λ u. Left rest)
unfolding expire_order
expire_order-Left order r rest now d =
    triple->>=
      (triple-pre (λ db h. ((h.0, h.1.0), h.1.1))
        (triple-both (release_reservation-IsBalanced r now)
          (release_reservation-AreHeld r rest now d)))
      λ _.
        Keeps->>= (update_orders-Keeps (λ db rows h. h) _ _)
          λ _. append_order_event-Keeps (Left-free rest) (λ db rows h. h) _ _ _ _ _ _

expire_one-Left :
    (r : TreasuryReservation) (rest : List TreasuryReservation) (now : Instant)
    → any (has_id r.id) rest ≡ false
    → Triple (Left (r ∷ rest)) (expire_one r now) (λ n. Left rest)
unfolding expire_one
expire_one-Left r rest now d = triple->>= (lock_order-Keeps _ _) λ order. turn order _
  where
    turn :
        (order : OrderRecord) (b : Bool)
        → Triple (Left (r ∷ rest)) (expire_if b order r now) (λ n. Left rest)
    turn order true =
        triple->>= (expire_order-Left order r rest now d) λ _. triple-pure _ (λ db h. h)
    turn order false = triple-pure _ (λ db h. (h.0, h.1.1))

expire_each-Left :
    (batch : List TreasuryReservation) (now : Instant)
    → IsDistinct batch
    → Triple (Left batch) (expire_each batch now) (λ n. IsBalanced)
expire_each-Left [] now d = triple-pure _ (λ db h. h.0)
expire_each-Left (r ∷ rest) now (a, d) =
    triple->>= (expire_one-Left r rest now a)
      λ n. triple->>= (expire_each-Left rest now d) λ more. triple-pure _ (λ db h. h)

pub release_expired_reservations-IsBalanced :
    (now : Instant) (limit : ℕ) → Keeps IsBalanced (release_expired_reservations now limit)
unfolding release_expired_reservations
release_expired_reservations-IsBalanced now limit = triple->>= (triple-gets _) λ batch.
    triple-premise
      (λ db h. subst IsDistinct (sym h.1) (expired_batch-IsDistinct now limit db h.0.ids))
      λ d.
        triple-pre
          (λ db h. (
            h.0,
            subst (λ (rs : List TreasuryReservation). AreHeld rs db) (sym h.1)
                (expired_batch-IsHeld now limit db),
          ))
          (expire_each-Left batch now d)
