-- ===== src/Onramp/Repeated.antt =====
-- `OnrampUsecase.Create` of internal/usecase/onramp_usecase.go, called again with the same command.
use kailo_be.Prelude.{◌≡◌, ◌≢◌, refl, sym, ap, ◌∙◌, subst, Option, none, some}
use kailo_be.Prelude.Errors.{Result, ok, err}
use kailo_be.Amount.{Bytes}
use kailo_be.Request.{order_request_hash}
use kailo_be.Store.{Database, committed}
use kailo_be.Store.Views.{OrderView}
use kailo_be.Store.Triples.{Holds}
use kailo_be.Onramp.Views.{find_replay}
use kailo_be.Onramp.Create.{
  Command, CheckoutInput, CheckoutAnswer, OnrampServices, Created, checked_purchase, purchase_key,
  purchase_request, purchase_record, find_purchase, after_gateway, checkout_input, after_reserve,
  reserve_purchase, new_purchase, replayed_purchase, buy_checked, buy,
}
use kailo_be.Onramp.Reserved.{with_gateway, IsReserved}
use kailo_be.Onramp.Seen.{Seen, find_purchase-Seen, reserve_and_create-Seen, after_gateway-Seen}

module _ (s : OnrampServices) (c : Command) (db : Database) (r : IsReserved s c db) where
  -- What the call with that reservation comes to.
  reserved_buy :
      buy s c db
      ≡ after_gateway s r.id (s.create_checkout (checkout_input s c r.quote r.id)) r.after
  unfolding buy
  reserved_buy =
      ap (λ x. buy_checked s c x db) r.checks
      ∙ ap (λ x. replayed_purchase s c x db) r.unseen
      ∙ ap (λ x. new_purchase s c x db) r.priced
      ∙ ap (λ x. reserve_purchase s c r.quote r.balance db x) r.draws
      ∙ ap (λ x. after_reserve s c r.quote r.id (committed r.drawn x)) r.reserved

  reserved-Seen : Seen c.principal (purchase_key s c) (purchase_request s c) r.after
  reserved-Seen =
      subst (Holds (λ u. Seen c.principal (purchase_key s c) (purchase_request s c))) r.reserved (
        (reserve_and_create-Seen c.principal (purchase_key s c) (purchase_request s c) s.repository
            (purchase_record s c r.quote r.id) r.balance refl refl refl).holds
          r.drawn tt)

  bought-Seen : Seen c.principal (purchase_key s c) (purchase_request s c) (buy s c db).1
  bought-Seen =
      subst (λ x. Seen c.principal (purchase_key s c) (purchase_request s c) x.1) (sym reserved_buy)
        (after_gateway-Seen c.principal (purchase_key s c) (purchase_request s c) s r.id _ r.after
          reserved-Seen)

module _ (s : OnrampServices) (c : Command) (db : Database)
    (gateway : CheckoutInput → CheckoutAnswer) where
  abbrev IsStill : Created → Created → Type 0
  IsStill r r' = (r.1 ≡ db) × (r' ≡ r)

  replay-IsStill :
      (r : Result (Option OrderView))
      → r ≢ ok none
      → IsStill (replayed_purchase s c r db) (replayed_purchase (with_gateway gateway s) c r db)
  replay-IsStill (err e) h = (refl, refl)
  replay-IsStill (ok (some view)) h = (refl, refl)
  replay-IsStill (ok none) h = absurd (h refl)

  check-IsStill :
      (r : Result (Unit {0}))
      → find_purchase s c db ≢ ok none
      → IsStill (buy_checked s c r db) (buy_checked (with_gateway gateway s) c r db)
  check-IsStill (err e) h = (refl, refl)
  check-IsStill (ok u) h = replay-IsStill _ h

find_purchase-digest :
    (s later : OnrampServices) (c : Command) (db : Database)
    → ((bytes : Bytes) → later.digest bytes ≡ s.digest bytes)
    → find_purchase later c db ≡ find_purchase s c db
unfolding order_request_hash
find_purchase-digest s later c db h =
    ap (λ k. find_replay c.principal k (purchase_request later c) db) (h _)
    ∙ ap (λ r. find_replay c.principal (purchase_key s c) r db) (h _)

-- Once the order of a purchase and its reservation have been committed, and whatever the gateway
-- answered then, the same command does nothing any more: the database stays as it is, and the
-- gateway's answer makes no difference, whatever the price, the KYC status, the limits or the clocks
-- are by then, if the digest is the same function.
pub buy_repeated :
    (s later : OnrampServices) (c : Command) (db : Database)
    (gateway : CheckoutInput → CheckoutAnswer)
    → ((bytes : Bytes) → later.digest bytes ≡ s.digest bytes)
    → IsReserved s c db
    → ((buy later c (buy s c db).1).1 ≡ (buy s c db).1)
      × (buy (with_gateway gateway later) c (buy s c db).1 ≡ buy later c (buy s c db).1)
unfolding buy checked_purchase
buy_repeated s later c db gateway same r =
    check-IsStill later c (buy s c db).1 gateway (checked_purchase later c) (λ e.
      find_purchase-Seen c.principal (purchase_key s c) (purchase_request s c) (buy s c db).1
        (bought-Seen s c db r) (sym (find_purchase-digest s later c (buy s c db).1 same) ∙ e))
