-- ===== src/Onramp/Reserved.antt =====
-- When `OnrampUsecase.Create` of internal/usecase/onramp_usecase.go asks the gateway for a checkout: a
-- call is compared with one whose gateway answers something else.
use kailo_be.Prelude.{◌≡◌, ◌⊎◌, String, none}
use kailo_be.Prelude.Int.{ℤ}
use kailo_be.Prelude.Errors.{ok}
use kailo_be.Quote.{Quote}
use kailo_be.Store.{Database, next_id}
use kailo_be.Onramp.{reserve_and_create}
use kailo_be.Onramp.Create.{
  Command, CheckoutInput, CheckoutAnswer, OnrampServices, Created, checked_purchase, purchase_quote,
  purchase_record, find_purchase,
}

abbrev pub with_gateway : (CheckoutInput → CheckoutAnswer) → OnrampServices → OnrampServices
with_gateway gateway s = record s { create_checkout = gateway }

-- The command is valid and new, its owner is approved and its quote is made, and the order with the
-- reservation of its fee has been committed.
pub record IsReserved (s : OnrampServices) (c : Command) (db : Database) : Type 0 where
  pub quote : Quote
  pub balance : ℤ
  pub id : String
  pub drawn : Database
  pub after : Database
  pub checks : checked_purchase s c ≡ ok tt
  pub unseen : find_purchase s c db ≡ ok none
  pub priced : purchase_quote s c ≡ ok (quote, balance)
  pub draws : next_id db.supply db ≡ ok (id, drawn)
  pub reserved :
      reserve_and_create s.repository (purchase_record s c quote id) balance drawn ≡ ok (tt, after)

module _ (s : OnrampServices) (c : Command) (db : Database)
    (gateway : CheckoutInput → CheckoutAnswer) where
  abbrev Same : Created → Created → Type 0
  Same r r' = (r ≡ r') ⊎ IsReserved s c db
