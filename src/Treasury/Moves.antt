-- ===== src/Treasury/Moves.antt =====
-- What the statements on the treasury make of the invariant.
use kailo_be.Prelude.{
  ℕ, ◌+◌, ◌≡◌, sym, subst, ◌∙◌, arith, String, true, false, List, [], ◌∷◌, ◌++◌, any, All-map,
  All-append, IsIn, str_eq,
}
use kailo_be.Store.Rows.{TreasuryAccount, TreasuryReservation}
use kailo_be.Store.Table.{update}
use kailo_be.Onramp.Checkouts.{is_reserved}
use kailo_be.Treasury.{part, held, has_id, has_account, nothing, Balanced}
use kailo_be.Treasury.Rows.{
  held-append, append-IsDistinct, update-IsDistinct, All-homes, held-update, All-update,
  has_account-update,
}

-- The balance with a reservation that is added.
pub add_reservation :
    (accounts : List TreasuryAccount) (rs : List TreasuryReservation) (r : TreasuryReservation)
    → Balanced nothing nothing accounts rs
    → any (has_id r.id) rs ≡ false
    → has_account accounts r.treasury_id ≡ true
    → Balanced (λ t. part t r) nothing accounts (rs ++ r ∷ [])
add_reservation accounts rs r b new home = record {
  sums = All-map (λ t h. omega (arith, h, held-append t.id rs r)) accounts b.sums;
  ids = append-IsDistinct rs r b.ids new;
  homes =
      All-append (λ (r : TreasuryReservation). has_account accounts r.treasury_id ≡ true) rs b.homes
        home;
}

-- The balance with an account that has caught up with what it lacks, or given up its excess.
pub settle_accounts :
    {lack excess : String → ℕ} {rs : List TreasuryReservation} (accounts : List TreasuryAccount)
    (id : String) (f : TreasuryAccount → TreasuryAccount)
    → ((t : TreasuryAccount) → str_eq t.id id ≡ true → (f t).id ≡ t.id)
    → ((t : TreasuryAccount)
        → str_eq t.id id ≡ true
        → t.reserved_stroops + lack t.id ≡ held t.id rs + excess t.id
        → (f t).reserved_stroops ≡ held t.id rs)
    → ((t : TreasuryAccount) → str_eq t.id id ≡ false → (lack t.id ≡ 0) × (excess t.id ≡ 0))
    → Balanced lack excess accounts rs
    → Balanced nothing nothing (update (λ t. str_eq t.id id) f accounts) rs
settle_accounts {lack} {excess} {rs} accounts id f same at off b = record {
  sums =
      All-update
        (λ (t : TreasuryAccount). t.reserved_stroops + lack t.id ≡ held t.id rs + excess t.id)
        (λ (t : TreasuryAccount). t.reserved_stroops + 0 ≡ held t.id rs + 0) (λ t. str_eq t.id id) f
        (λ t e h. changed t e (at t e h)) (λ t e h. omega (arith, h, (off t e).0, (off t e).1))
        accounts b.sums;
  ids = b.ids;
  homes =
      All-map (λ r h. has_account-update (λ t. str_eq t.id id) f r.treasury_id same accounts ∙ h) rs
        b.homes;
}
  where
    changed :
        (t : TreasuryAccount)
        → str_eq t.id id ≡ true
        → (f t).reserved_stroops ≡ held t.id rs
        → (f t).reserved_stroops + 0 ≡ held (f t).id rs + 0
    changed t e h =
        subst (λ (s : String). (f t).reserved_stroops + 0 ≡ held s rs + 0) (sym (same t e))
          (omega (arith, h))

-- The balance with a reservation that is freed.
pub free_reservation :
    (accounts : List TreasuryAccount) (rs : List TreasuryReservation) (r : TreasuryReservation)
    (f : TreasuryReservation → TreasuryReservation)
    → ((x : TreasuryReservation) → (f x).id ≡ x.id)
    → ((x : TreasuryReservation) → (f x).treasury_id ≡ x.treasury_id)
    → ((x : TreasuryReservation) → is_reserved (f x).status ≡ false)
    → IsIn r rs
    → Balanced nothing nothing accounts rs
    → Balanced nothing (λ t. part t r) accounts (update (has_id r.id) f rs)
free_reservation accounts rs r f same_id same_home freed m b = record {
  sums =
      All-map (λ t h. omega (arith, h, held-update t.id f same_id freed b.ids m)) accounts b.sums;
  ids = update-IsDistinct r.id f same_id rs b.ids;
  homes = All-homes r.id f same_id accounts rs same_home b.homes;
}
