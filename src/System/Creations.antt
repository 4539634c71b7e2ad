-- ===== src/System/Creations.antt =====
-- Create of internal/usecase/onramp_usecase.go and offramp_usecase.go keep whatever the transactions
-- that they call keep.
use kailo_be.Prelude.{◌≡◌, refl, subst, String, Option, none, some, List, [], ◌∷◌}
use kailo_be.Prelude.Int.{ℤ}
use kailo_be.Prelude.Errors.{Error, Result, ok, err}
use kailo_be.Prelude.Time.{Instant}
use kailo_be.Quote.{Quote}
use kailo_be.Store.{Database, next_id}
use kailo_be.Store.Triples.{Keeps, commit-Keeps}
use kailo_be.Store.Views.{Checkout, OrderView}
use kailo_be.Onramp.{OnrampRepository, CreateRecord, reserve_and_create}
use kailo_be.Onramp.Views.{get_offramp}
use kailo_be.Onramp.Checkouts.{attach, fail_checkout, mark_checkout_unknown}
use kailo_be.Onramp.Create.{
  Command, CheckoutAnswer, made, outcome_unknown, refused, OnrampServices, checked_purchase,
  purchase_record, recovered_purchase, after_attach, after_gateway, after_reserve, reserve_purchase,
  new_purchase, replayed_purchase, buy_checked, buy,
}
use kailo_be.Offramp.{OfframpRepository, OfframpCreateRecord, create_offramp}
use kailo_be.Offramp.Create.{
  OfframpCommand, OfframpServices, checked_sale, sale_record, find_sale, loaded_sale,
  recovered_sale, after_sale, persist_sale, new_sale, replayed_sale, sell_checked, sell,
}
use kailo_be.System.Kept.{attach_checkout-keeps}

drawn-keeps :
    {P : Database → Type 0}
    → ((db : Database) (ids : List String) → P db → P (record db { supply = ids }))
    → (ids : List String) (db drawn : Database) (id : String) → P db
    → next_id ids db ≡ ok (id, drawn)
    → P drawn
unfolding next_id
drawn-keeps h [] db drawn id p e = cc
drawn-keeps {P} h (x ∷ ids) db drawn id p e = subst P same (h db ids p)
  where
    same : (record db { supply = ids }) ≡ drawn
    same = cc

-- What a purchase calls.
pub record IsPurchaseSafe (P : Database → Type 0) : Type 0 where
  pub supply : (db : Database) (ids : List String) → P db → P (record db { supply = ids })
  pub reserves :
      (r : OnrampRepository) (c : CreateRecord) (observed : ℤ)
      → Keeps P (reserve_and_create r c observed)
  pub attaches :
      (order_id : String) (checkout : Checkout) (now : Instant)
      → Keeps P (attach order_id checkout now)
  pub fails : (order_id : String) (now : Instant) → Keeps P (fail_checkout order_id now)
  pub marks : (order_id : String) (now : Instant) → Keeps P (mark_checkout_unknown order_id now)

module _ {P : Database → Type 0} (safe : IsPurchaseSafe P) (s : OnrampServices) (c : Command) where
  attached-keeps : (r : Result OrderView × Database) → P r.1 → P (after_attach s r).1
  attached-keeps (err e, db) p = p
  attached-keeps (ok view, db) p = p

  gateway-keeps :
      (id : String) (a : CheckoutAnswer) (db : Database) → P db → P (after_gateway s id a db).1
  gateway-keeps id (made checkout) db p =
      attached-keeps _
        (attach_checkout-keeps id checkout s.now_after (safe.attaches id checkout s.now_after) db p)
  gateway-keeps id outcome_unknown db p = commit-Keeps (safe.marks id s.now_after) db p
  gateway-keeps id (refused e) db p = commit-Keeps (safe.fails id s.now_after) db p

  recovered-keeps :
      (e : Error) (r : Result (Option OrderView)) (db : Database)
      → P db
      → P (recovered_purchase s e r db).1
  recovered-keeps e (ok (some view)) db p = p
  recovered-keeps e (ok none) db p = p
  recovered-keeps e (err x) db p = p

  reserved-keeps :
      (quote : Quote) (id : String) (r : Result (Unit {0}) × Database)
      → P r.1
      → P (after_reserve s c quote id r).1
  reserved-keeps quote id (err e, db) p = recovered-keeps e _ db p
  reserved-keeps quote id (ok u, db) p = gateway-keeps id _ db p

  drawn-purchase :
      (quote : Quote) (balance : ℤ) (db : Database) (r : Result (String × Database))
      → next_id db.supply db ≡ r
      → P db
      → P (reserve_purchase s c quote balance db r).1
  drawn-purchase quote balance db (err e) h p = p
  drawn-purchase quote balance db (ok (id, drawn)) h p = reserved-keeps quote id _ (
      commit-Keeps (safe.reserves s.repository (purchase_record s c quote id) balance) drawn
        (drawn-keeps safe.supply db.supply db drawn id p h))

  quoted-keeps : (r : Result (Quote × ℤ)) (db : Database) → P db → P (new_purchase s c r db).1
  quoted-keeps (err e) db p = p
  quoted-keeps (ok (quote, balance)) db p = drawn-purchase quote balance db _ refl p

  replayed-keeps :
      (r : Result (Option OrderView)) (db : Database) → P db → P (replayed_purchase s c r db).1
  replayed-keeps (err e) db p = p
  replayed-keeps (ok (some view)) db p = p
  replayed-keeps (ok none) db p = quoted-keeps _ db p

  pub buy-keeps : (db : Database) → P db → P (buy s c db).1
  unfolding buy
  buy-keeps db p = by (checked_purchase s c)
    where
      by : (r : Result (Unit {0})) → P (buy_checked s c r db).1
      by (err e) = p
      by (ok u) = replayed-keeps _ db p

module _ {P : Database → Type 0}
    (supply : (db : Database) (ids : List String) → P db → P (record db { supply = ids }))
    (creates : (r : OfframpRepository) (c : OfframpCreateRecord) → Keeps P (create_offramp r c))
    (s : OfframpServices) (c : OfframpCommand) where
  sale-keeps :
      (stroops : ℤ) (id : String) (r : Result (Unit {0}) × Database)
      → P r.1
      → P (after_sale s c stroops id r).1
  sale-keeps stroops id (err e, db) p = by (find_sale s c stroops db)
    where
      by : (r : Result (Option OrderView)) → P (recovered_sale s e r db).1
      by (ok (some view)) = p
      by (ok none) = p
      by (err x) = p
  sale-keeps stroops id (ok u, db) p = by (get_offramp c.principal id db)
    where
      by : (r : Result OrderView) → P (loaded_sale s r db).1
      by (ok view) = p
      by (err x) = p

  drawn-sale :
      (stroops : ℤ) (quote : Quote) (db : Database) (r : Result (String × Database))
      → next_id db.supply db ≡ r
      → P db
      → P (persist_sale s c stroops quote db r).1
  drawn-sale stroops quote db (err e) h p = p
  drawn-sale stroops quote db (ok (id, drawn)) h p = sale-keeps stroops id _ (
      commit-Keeps (creates s.repository (sale_record s c stroops quote id)) drawn
        (drawn-keeps supply db.supply db drawn id p h))

  quoted-sale :
      (stroops : ℤ) (r : Result Quote) (db : Database) → P db → P (new_sale s c stroops r db).1
  quoted-sale stroops (err e) db p = p
  quoted-sale stroops (ok quote) db p = drawn-sale stroops quote db _ refl p

  replayed-sale :
      (stroops : ℤ) (r : Result (Option OrderView)) (db : Database)
      → P db
      → P (replayed_sale s c stroops r db).1
  replayed-sale stroops (err e) db p = p
  replayed-sale stroops (ok (some view)) db p = p
  replayed-sale stroops (ok none) db p = quoted-sale stroops _ db p

  pub sell-keeps : (db : Database) → P db → P (sell s c db).1
  unfolding sell
  sell-keeps db p = by (checked_sale c)
    where
      by : (r : Result ℤ) → P (sell_checked s c r db).1
      by (err e) = p
      by (ok stroops) = replayed-sale stroops _ db p
