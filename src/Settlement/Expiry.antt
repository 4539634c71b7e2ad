-- ===== src/Settlement/Expiry.antt =====
-- `ReleaseExpiredReservations` of internal/repository/settlement_repository.go.
use kailo_be.Prelude.{ℕ, ◌+◌, Bool, true, false, ◌&&◌, some, List, [], ◌∷◌, ltb}
use kailo_be.Prelude.Time.{Instant}
use kailo_be.Order.{payment_pending, expired, status_eq}
use kailo_be.Store.{Database, Tx, pure, gets, ◌>>=◌, ◌>>◌}
use kailo_be.Store.Rows.{OrderRecord, TreasuryReservation}
use kailo_be.Store.Statements.{update_orders}
use kailo_be.Events.Append.{append_order_event}
use kailo_be.Store.Queries.{sorted, filter, take}
use kailo_be.Onramp.Checkouts.{lock_order, same_version, is_reserved, release_reservation}

abbrev pub is_expired : Instant → TreasuryReservation → Bool
is_expired now r = is_reserved r.status && ltb r.expires_at now

abbrev pub expires_first : TreasuryReservation → TreasuryReservation → Bool
expires_first a b = ltb a.expires_at b.expires_at

-- The reservations that the query selects.
abbrev pub expired_batch : Instant → ℕ → Database → List TreasuryReservation
expired_batch now limit db =
    take limit (sorted expires_first (filter (is_expired now) db.treasury_reservations))

-- The order of a reservation expires, and what it reserved goes back.
unfoldable pub expire_order : OrderRecord → TreasuryReservation → Instant → Tx (Unit {0})
expire_order order r now = do
  release_reservation r now
  update_orders (same_version order)
      (λ o. record o { status = expired; version = order.version + 1; updated_at = now })
  append_order_event order.id (order.version + 1) "order.expired" (some order.status) (some expired)
      now

-- The turn of one reservation: whether it was released.
abbrev pub expire_if : Bool → OrderRecord → TreasuryReservation → Instant → Tx ℕ
expire_if true order r now = expire_order order r now >>= λ _. pure 1
expire_if false order r now = pure 0

unfoldable pub expire_one : TreasuryReservation → Instant → Tx ℕ
expire_one r now = do
  order ← lock_order "locking expired order" r.order_id
  expire_if (status_eq order.status payment_pending) order r now

-- The loop.
abbrev pub expire_each : List TreasuryReservation → Instant → Tx ℕ
expire_each [] now = pure 0
expire_each (r ∷ rest) now = do n ← expire_one r now; more ← expire_each rest now; pure (n + more)

unfoldable pub release_expired_reservations : Instant → ℕ → Tx ℕ
release_expired_reservations now limit = do
  batch ← gets (expired_batch now limit)
  expire_each batch now
