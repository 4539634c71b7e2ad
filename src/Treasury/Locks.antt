-- ===== src/Treasury/Locks.antt =====
-- The locked account of an order and its fee, as triples.
use kailo_be.Prelude.{
  ℕ, ◌+◌, ◌≡◌, refl, sym, subst, ◌∙◌, arith, String, Bool, true, false, Option, none, some, List,
  [], ◌∷◌, ◌++◌, any, All-map, All-append, All-IsIn, any-IsIn, find-IsIn, IsIn, str_eq, eq_iff,
}
use kailo_be.Prelude.Int.{ℤ, pos, negsuc}
use kailo_be.Prelude.Time.{Instant}
use kailo_be.Store.{Database}
use kailo_be.Store.Rows.{TreasuryAccount, TreasuryReservation}
use kailo_be.Store.Statements.{create_treasury_account, update_treasury_accounts}
use kailo_be.Store.Triples.{
  Triple, Keeps, triple->>=, triple-post, triple-pre, triple-modify, triple-gets, triple-raise_if,
  triple-raise_if, triple-wrapping, triple-pure, triple-raise, Keeps-gets, Keeps-raise_if,
  Keeps-new_id,
}
use kailo_be.Onramp.{
  OnrampRepository, fee_reservation, reserve_fee, lock_treasury, find_treasury, reconcile_treasury,
  new_treasury, reconciled, balance,
}
use kailo_be.Treasury.{held, has_account, nothing, Balanced, IsBalanced}
use kailo_be.Treasury.Rows.{held-none, has_account-update}
use kailo_be.Treasury.Moves.{settle_accounts}
use kailo_be.Treasury.Steps.{any-weaken, create_reservation-Gap, reserve-IsBalanced}

any-append_right {ℓ} :
    {A : Type ℓ} (p : A → Bool) (xs : List A) (a : A) → p a ≡ true → any p (xs ++ a ∷ []) ≡ true
any-append_right p [] a h = ground arith
any-append_right p (x ∷ xs) a h = ground (arith, any-append_right p xs a)

any-append_left {ℓ} :
    {A : Type ℓ} (p : A → Bool) (xs : List A) (a : A)
    → any p xs ≡ true
    → any p (xs ++ a ∷ []) ≡ true
any-append_left p [] a h = cc
any-append_left p (x ∷ xs) a h = ground (arith, any-append_left p xs a)

-- The balance with an account that is new.
add_account :
    (accounts : List TreasuryAccount) (rs : List TreasuryReservation) (t : TreasuryAccount)
    → Balanced nothing nothing accounts rs
    → has_account accounts t.id ≡ false
    → t.reserved_stroops ≡ 0
    → Balanced nothing nothing (accounts ++ t ∷ []) rs
add_account accounts rs t b new empty = record {
  sums =
      All-append (λ (t : TreasuryAccount). t.reserved_stroops + 0 ≡ held t.id rs + 0) accounts
        b.sums (omega (arith, empty, held-none accounts t.id rs b.homes new));
  ids = b.ids;
  homes = All-map (λ r h. any-append_left (λ t. str_eq t.id r.treasury_id) accounts t h) rs b.homes;
}

-- The account that an order stands on is in the database.
abbrev pub IsLocked : String → Database → Type 0
IsLocked id db = IsBalanced db × (has_account db.treasury_accounts id ≡ true)

balance-Keeps : {P : Database → Type 0} (observed : ℤ) → Keeps P (balance observed)
balance-Keeps (pos n) = triple-pure _ (λ db p. p)
balance-Keeps (negsuc n) = triple-raise _

create_treasury_account-IsLocked :
    (t : TreasuryAccount)
    → t.reserved_stroops ≡ 0
    → Triple IsBalanced (create_treasury_account t) (λ u. IsLocked t.id)
unfolding create_treasury_account
create_treasury_account-IsLocked t empty = triple->>= (Keeps-raise_if _ _) λ _.
    triple->>= (triple-gets _) λ rows. triple->>= (triple-raise_if _ _) λ _. triple-modify _ λ db h.
      (
        add_account db.treasury_accounts db.treasury_reservations t h.0.0
            (subst (λ (ts : List TreasuryAccount). has_account ts t.id ≡ false) h.0.1
              (any-weaken _ (λ u. str_eq u.id t.id) (λ u e. ground arith) rows h.1))
            empty,
        any-append_right (λ u. str_eq u.id t.id) db.treasury_accounts t
            (((eq_iff t.id t.id).1) refl),
      )

-- An account that is found keeps what it reserves when its balance is observed again.
reconcile-IsLocked :
    (t : TreasuryAccount) (n : ℕ) (now : Instant)
    → Triple
        (λ db. IsBalanced db × IsIn t db.treasury_accounts)
        (update_treasury_accounts (λ u. str_eq u.id t.id) (λ u. reconciled t n now))
        (λ u. IsLocked t.id)
unfolding update_treasury_accounts
reconcile-IsLocked t n now = triple->>= (Keeps-gets _) λ _. triple->>= (Keeps-raise_if _ _) λ _.
    triple-modify _ λ db h. (
      settle_accounts db.treasury_accounts t.id (λ u. reconciled t n now)
          (λ u e. ground (arith, eq_iff u.id t.id))
          (λ u e k. kept db u e (All-IsIn (sum_of db) h.0.sums h.1)) (λ u e. (refl, refl)) h.0,
      has_account-update (λ u. str_eq u.id t.id) (λ u. reconciled t n now) t.id
            (λ u e. ground (arith, eq_iff u.id t.id)) db.treasury_accounts
          ∙ any-IsIn (λ u. str_eq u.id t.id) h.1 (((eq_iff t.id t.id).1) refl),
    )
  where
    sum_of : Database → TreasuryAccount → Type 0
    sum_of db u = u.reserved_stroops + 0 ≡ held u.id db.treasury_reservations + 0

    kept :
        (db : Database) (u : TreasuryAccount)
        → str_eq u.id t.id ≡ true
        → sum_of db t
        → t.reserved_stroops ≡ held u.id db.treasury_reservations
    kept db u e k =
        subst (λ (s : String). t.reserved_stroops ≡ held s db.treasury_reservations)
          (sym (((eq_iff u.id t.id).0) e)) (omega (arith, k))

pub lock_treasury-IsLocked :
    (r : OnrampRepository) (observed : ℤ) (now : Instant)
    → Triple IsBalanced (lock_treasury r observed now) (λ t. IsLocked t.id)
unfolding lock_treasury
lock_treasury-IsLocked r observed now = triple->>= (triple-gets _) rest
  where
    rest :
        (row : Option TreasuryAccount)
        → Triple
            (λ db. IsBalanced db × (row ≡ find_treasury r db))
            (reconcile_treasury r observed now row)
            (λ t. IsLocked t.id)
    rest none = triple->>= (triple-post (Keeps-new_id (λ db ids h. h)) (λ id db h. h.0)) λ id.
        triple->>= (triple-wrapping _ (balance-Keeps observed)) λ n.
          triple->>=
            (triple-wrapping _ (create_treasury_account-IsLocked (new_treasury r id n now) refl))
            λ u. triple-pure _ (λ db h. h)
    rest (some t) = triple->>= (triple-wrapping _ (balance-Keeps observed)) λ n.
        triple->>=
          (triple-wrapping _ (
            triple-pre (λ db h. (h.0, (find-IsIn _ db.treasury_accounts (sym h.1)).0))
              (reconcile-IsLocked t n now)))
          λ u. triple-pure _ (λ db h. h)

pub reserve_fee-IsBalanced :
    (treasury_id order_id : String) (expires_at now : Instant)
    → Triple
        (IsLocked treasury_id)
        (reserve_fee treasury_id order_id expires_at now)
        (λ u. IsBalanced)
unfolding reserve_fee
reserve_fee-IsBalanced treasury_id order_id expires_at now =
    triple->>= (Keeps-new_id (λ db ids h. h)) λ id.
      triple->>=
        (triple-wrapping _
          (create_reservation-Gap (fee_reservation id treasury_id order_id expires_at now)))
        λ u.
          triple-wrapping _
            (reserve-IsBalanced (fee_reservation id treasury_id order_id expires_at now) refl)
