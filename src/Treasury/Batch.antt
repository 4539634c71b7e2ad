-- ===== src/Treasury/Batch.antt =====
-- The batch of expired reservations: its rows are held, and differ.
use kailo_be.Prelude.{
  ℕ, zero, suc, ◌≡◌, refl, ap, ◌∙◌, arith, String, Bool, true, false, List, [], ◌∷◌, any, All, IsIn,
  at_head, in_tail, eq_iff, if◌then◌else◌,
}
use kailo_be.Prelude.Time.{Instant}
use kailo_be.Store.{Database}
use kailo_be.Store.Rows.{TreasuryReservation}
use kailo_be.Store.Table.{update}
use kailo_be.Store.Queries.{
  insert, sorted, filter, take, any-insert, any-sorted, any-filter, any-take, All-sorted, All-take,
  All-filter,
}
use kailo_be.Settlement.Expiry.{is_expired, expires_first, expired_batch}
use kailo_be.Treasury.{has_id, IsDistinct}
use kailo_be.Treasury.Steps.{IsHeld}

insert-IsDistinct :
    (first : TreasuryReservation → TreasuryReservation → Bool) (r : TreasuryReservation)
    (rs : List TreasuryReservation)
    → any (has_id r.id) rs ≡ false
    → IsDistinct rs
    → IsDistinct (insert first r rs)
insert-IsDistinct first r [] h d = (refl, tt)
insert-IsDistinct first r (x ∷ rs) h (a, d) =
    placed (first x r) (insert-IsDistinct first r rs (ground arith) d)
  where
    placed :
        (b : Bool)
        → IsDistinct (insert first r rs)
        → IsDistinct (if b then x ∷ insert first r rs else r ∷ x ∷ rs)
    placed true e = (
      any-insert (has_id x.id) first r rs ∙ ground (arith, eq_iff r.id x.id, eq_iff x.id r.id),
      e,
    )
    placed false e = (h, (a, d))

sorted-IsDistinct :
    (first : TreasuryReservation → TreasuryReservation → Bool) (rs : List TreasuryReservation)
    → IsDistinct rs
    → IsDistinct (sorted first rs)
sorted-IsDistinct first [] d = tt
sorted-IsDistinct first (r ∷ rs) (a, d) =
    insert-IsDistinct first r (sorted first rs) (any-sorted (has_id r.id) first rs ∙ a)
      (sorted-IsDistinct first rs d)

filter-IsDistinct :
    (q : TreasuryReservation → Bool) (rs : List TreasuryReservation)
    → IsDistinct rs
    → IsDistinct (filter q rs)
filter-IsDistinct q [] d = tt
filter-IsDistinct q (r ∷ rs) (a, d) = kept (q r) (filter-IsDistinct q rs d)
  where
    kept :
        (b : Bool)
        → IsDistinct (filter q rs)
        → IsDistinct (if b then r ∷ filter q rs else filter q rs)
    kept true e = (any-filter (has_id r.id) q rs a, e)
    kept false e = e

take-IsDistinct : (n : ℕ) (rs : List TreasuryReservation) → IsDistinct rs → IsDistinct (take n rs)
take-IsDistinct zero rs d = tt
take-IsDistinct (suc n) [] d = tt
take-IsDistinct (suc n) (r ∷ rs) (a, d) = (any-take (has_id r.id) n rs a, take-IsDistinct n rs d)

pub expired_batch-IsDistinct :
    (now : Instant) (limit : ℕ) (db : Database)
    → IsDistinct db.treasury_reservations
    → IsDistinct (expired_batch now limit db)
expired_batch-IsDistinct now limit db d =
    take-IsDistinct limit _
      (sorted-IsDistinct expires_first _ (filter-IsDistinct (is_expired now) _ d))

pub expired_batch-IsHeld :
    (now : Instant) (limit : ℕ) (db : Database)
    → All (λ (r : TreasuryReservation). IsHeld r db) (expired_batch now limit db)
expired_batch-IsHeld now limit db = All-take _ limit _ (
    All-sorted _ expires_first _
      (All-filter _ (is_expired now) db.treasury_reservations (λ r m e. (m, ground arith))))

-- A row of another id stays when the rows of an id are changed.
update-IsIn :
    (id : String) (f : TreasuryReservation → TreasuryReservation) {r : TreasuryReservation}
    {rs : List TreasuryReservation}
    → has_id id r ≡ false
    → IsIn r rs
    → IsIn r (update (has_id id) f rs)
update-IsIn id f {rs = []} h m = elim m [ ]
update-IsIn id f {r} {rs = x ∷ rs} h (at_head e) = at_head (same (has_id id x) refl)
  where
    same : (b : Bool) → has_id id x ≡ b → r ≡ (if b then f x else x)
    same true k = absurd (cc (h, k, ap (has_id id) e))
    same false k = e
update-IsIn id f {rs = x ∷ rs} h (in_tail m) = in_tail (update-IsIn id f h m)

-- The rest of a batch is still held when one of its reservations is changed.
pub rest-IsHeld :
    (id : String) (f : TreasuryReservation → TreasuryReservation) (db : Database)
    (rest : List TreasuryReservation)
    → any (has_id id) rest ≡ false
    → All (λ (r : TreasuryReservation). IsHeld r db) rest
    → All
        (λ (r : TreasuryReservation).
          IsHeld r
            (record db { treasury_reservations = update (has_id id) f db.treasury_reservations }))
        rest
rest-IsHeld id f db [] h all = tt
rest-IsHeld id f db (r ∷ rest) h ((m, e), all) =
    ((update-IsIn id f (ground arith) m, e), rest-IsHeld id f db rest (ground arith) all)
