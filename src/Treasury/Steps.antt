-- ===== src/Treasury/Steps.antt =====
-- The statements and the small transactions of the treasury, as triples.
use kailo_be.Prelude.{
  ◌+◌, ◌-◌, ◌≡◌, refl, subst, arith, Bool, true, false, ◌||◌, List, [], ◌∷◌, any, IsIn, str_eq,
  eq_iff,
}
use kailo_be.Prelude.Time.{Instant}
use kailo_be.Store.{Database}
use kailo_be.Store.Rows.{TreasuryReservation}
use kailo_be.Store.Statements.{
  create_reservation, update_treasury_accounts, reserve, unreserve, update_reservations,
}
use kailo_be.Store.Triples.{
  Triple, triple->>=, triple-premise, triple-modify, triple-gets, triple-raise_if, Keeps-gets,
  Keeps-raise_if,
}
use kailo_be.Onramp.Checkouts.{is_reserved, release_reservation}
use kailo_be.Settlement.Outcomes.{consume_reservation}
use kailo_be.Treasury.{part, has_id, has_account, nothing, Gap, IsBalanced}
use kailo_be.Treasury.Moves.{add_reservation, settle_accounts, free_reservation}

-- A test that holds of no row, of which another is a part.
pub any-weaken {ℓ} :
    {A : Type ℓ} (p q : A → Bool)
    → ((a : A) → q a ≡ true → p a ≡ true)
    → (xs : List A) → any p xs ≡ false
    → any q xs ≡ false
any-weaken p q k [] h = refl
any-weaken p q k (x ∷ xs) h = ground (arith, any-weaken p q k xs, k x)

pub create_reservation-Gap :
    (row : TreasuryReservation)
    → Triple
        (λ db. IsBalanced db × (has_account db.treasury_accounts row.treasury_id ≡ true))
        (create_reservation row)
        (λ u. Gap (λ t. part t row) nothing)
unfolding create_reservation
create_reservation-Gap row = triple->>= (Keeps-raise_if _ _) λ _. triple->>= (triple-gets _) λ rows.
    triple->>= (triple-raise_if _ _) λ _. triple-modify _ λ db h.
      add_reservation db.treasury_accounts db.treasury_reservations row h.0.0.0
        (subst (λ (rs : List TreasuryReservation). any (has_id row.id) rs ≡ false) h.0.1
          (any-weaken (λ r. str_eq r.id row.id || str_eq r.order_id row.order_id) (has_id row.id)
            (λ r e. ground arith) rows h.1))
        h.0.0.1

pub reserve-IsBalanced :
    (row : TreasuryReservation)
    → is_reserved row.status ≡ true
    → Triple
        (Gap (λ t. part t row) nothing)
        (reserve row.treasury_id row.amount_stroops)
        (λ u. IsBalanced)
unfolding reserve update_treasury_accounts
reserve-IsBalanced row held_now = triple->>= (Keeps-gets _) λ _.
    triple->>= (Keeps-raise_if _ _) λ _. triple-modify _ λ db b.
      settle_accounts db.treasury_accounts row.treasury_id
        (λ t. record t { reserved_stroops = t.reserved_stroops + row.amount_stroops }) (λ t e. refl)
        (λ t e h. ground (arith, h, eq_iff t.id row.treasury_id, eq_iff row.treasury_id t.id))
        (λ t e. (ground (arith, eq_iff t.id row.treasury_id, eq_iff row.treasury_id t.id), refl)) b

pub unreserve-IsBalanced :
    (row : TreasuryReservation)
    → is_reserved row.status ≡ true
    → Triple
        (Gap nothing (λ t. part t row))
        (unreserve row.treasury_id row.amount_stroops)
        (λ u. IsBalanced)
unfolding unreserve update_treasury_accounts
unreserve-IsBalanced row held_now = triple->>= (Keeps-gets _) λ _.
    triple->>= (Keeps-raise_if _ _) λ _. triple->>= (Keeps-gets _) λ _.
      triple->>= (Keeps-raise_if _ _) λ _. triple-modify _ λ db b.
        settle_accounts db.treasury_accounts row.treasury_id
          (λ t. record t { reserved_stroops = t.reserved_stroops - row.amount_stroops })
          (λ t e. refl)
          (λ t e h. ground (arith, h, eq_iff t.id row.treasury_id, eq_iff row.treasury_id t.id))
          (λ t e. (refl, ground (arith, eq_iff t.id row.treasury_id, eq_iff row.treasury_id t.id)))
          b

-- A reservation that stands in the database and is held.
abbrev pub IsHeld : TreasuryReservation → Database → Type 0
IsHeld r db = IsIn r db.treasury_reservations × (is_reserved r.status ≡ true)

pub release_reservation-IsBalanced :
    (r : TreasuryReservation) (now : Instant)
    → Triple (λ db. IsBalanced db × IsHeld r db) (release_reservation r now) (λ u. IsBalanced)
unfolding release_reservation update_reservations
release_reservation-IsBalanced r now =
    triple-premise (λ db h. h.1.1)
      λ held_now.
        triple->>=
          (triple-modify _ λ db h.
            free_reservation db.treasury_accounts db.treasury_reservations r _ (λ x. refl)
              (λ x. refl) (λ x. refl) h.1.0 h.0)
          λ _. unreserve-IsBalanced r held_now

pub consume_reservation-IsBalanced :
    (r : TreasuryReservation) (now : Instant)
    → Triple (λ db. IsBalanced db × IsHeld r db) (consume_reservation r now) (λ u. IsBalanced)
unfolding consume_reservation update_reservations
consume_reservation-IsBalanced r now =
    triple-premise (λ db h. h.1.1)
      λ held_now.
        triple->>=
          (triple-modify _ λ db h.
            free_reservation db.treasury_accounts db.treasury_reservations r _ (λ x. refl)
              (λ x. refl) (λ x. refl) h.1.0 h.0)
          λ _. unreserve-IsBalanced r held_now
