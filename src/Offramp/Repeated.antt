-- ===== src/Offramp/Repeated.antt =====
-- `OfframpUsecase.Create` of internal/usecase/offramp_usecase.go, called again with the same command.
use kailo_be.Prelude.{
  ◌≡◌, refl, ap, ◌∙◌, subst, String, true, false, Option, none, some, List, [], ◌∷◌, ◌++◌,
}
use kailo_be.Prelude.Int.{ℤ}
use kailo_be.Prelude.Errors.{Error, invalid_withdrawal, Result, ok, err}
use kailo_be.Amount.{Bytes}
use kailo_be.Quote.{Quote}
use kailo_be.Request.{order_request_hash}
use kailo_be.Principal.{OrderOwnership, order_ownership_for}
use kailo_be.Store.{Database, committed, next_id}
use kailo_be.Store.Rows.{IdempotencyRecord}
use kailo_be.Store.Views.{OrderView}
use kailo_be.Store.Triples.{
  Triple, Holds, triple->>=, triple-post, triple-pre, triple-premise, triple-wrapping, Keeps-new_id,
}
use kailo_be.Store.Frames.{create_order-Keeps}
use kailo_be.Events.Frames.{IsUnwatched, append_order_event-Keeps}
use kailo_be.Treasury.Orders.{
  validate_retail_session_ownership-Keeps, create_sandbox_order_financial-Keeps,
}
use kailo_be.Onramp.Views.{get_offramp, find_offramp_replay}
use kailo_be.Onramp.Replays.{
  triple-lift, HasKeys, create_idempotency_record-HasKeys, next_id-HasKeys, find_replay_as-found,
}
use kailo_be.Offramp.{OfframpRepository, OfframpCreateRecord, offramp_idempotency, create_offramp}
use kailo_be.Offramp.Create.{
  OfframpCommand, OfframpServices, Created, checked_sale, sale_key, sale_request, sale_record,
  find_sale, loaded_sale, recovered_sale, after_sale, persist_sale, new_sale, replayed_sale,
  sell_checked, sell,
}

-- The record of the order is the last one, with the columns of its owner.
record IsKeyed (c : OfframpCreateRecord) (rows : List IdempotencyRecord) (db : Database)
    : Type 0 where
  pub id : String
  pub ownership : OrderOwnership
  pub owned : order_ownership_for c.principal ≡ ok ownership
  pub keys : HasKeys (rows ++ offramp_idempotency id c ownership ∷ []) db

create_offramp-IsKeyed :
    (r : OfframpRepository) (c : OfframpCreateRecord) (rows : List IdempotencyRecord)
    → Triple (HasKeys rows) (create_offramp r c) (λ u. IsKeyed c rows)
unfolding create_offramp
create_offramp-IsKeyed r c rows = triple->>= (triple-lift (order_ownership_for c.principal)) λ o.
    triple-premise (λ db h. h.1)
      λ own.
        triple-pre (λ db h. h.0)
          (triple->>= (validate_retail_session_ownership-Keeps _) λ _.
            triple->>= (triple-wrapping _ (create_order-Keeps (λ db rows h. h) _)) λ _.
              triple->>= (create_sandbox_order_financial-Keeps free (λ db rows h. h) _) λ _.
                triple->>= (append_order_event-Keeps free (λ db rows h. h) _ _ _ _ _ _) λ _.
                  triple->>= (append_order_event-Keeps free (λ db rows h. h) _ _ _ _ _ _) λ _.
                    triple->>= (Keeps-new_id (λ db ids h. h)) λ id.
                      triple-post
                        (triple-wrapping _
                          (create_idempotency_record-HasKeys rows (offramp_idempotency id c o)))
                        (λ u db h. record { id = id; ownership = o; owned = own; keys = h }))
  where
    free : IsUnwatched (HasKeys rows)
    free = record { supply = λ db ids h. h; webhooks = λ db rows h. h; jobs = λ db rows h. h }

module _ (s : OfframpServices) (c : OfframpCommand) (db after : Database) (view : OrderView) where
  abbrev Fresh : Created → Type 0
  Fresh r = r ≡ (ok (view, false), after)

  abbrev IsFound : ℤ → Type 0
  IsFound stroops = find_sale s c stroops after ≡ ok (some view)

  loaded-IsFound :
      (stroops : ℤ) (quote : Quote) (id : String) (d : Database)
      → find_sale s c stroops db ≡ ok none
      → IsKeyed (sale_record s c stroops quote id) db.idempotency_records d
      → (r : Result OrderView) → get_offramp c.principal id d ≡ r
      → Fresh (loaded_sale s r d)
      → IsFound stroops
  loaded-IsFound stroops quote id d unseen keyed (err e) g f = cc
  loaded-IsFound stroops quote id d unseen keyed (ok v) g f =
      subst (λ d. find_sale s c stroops d ≡ ok (some view)) (ap (λ p. p.1) f)
        (find_replay_as-found get_offramp "offramp.create" invalid_withdrawal c.principal
          (sale_key s c) (sale_request s c stroops) id keyed.ownership
          (offramp_idempotency keyed.id (sale_record s c stroops quote id) keyed.ownership) db d
          view keyed.owned
          (record {
            of = refl;
            key = refl;
            request = refl;
            resource = refl;
            client = refl;
            user = refl;
          })
          unseen keyed.keys (g ∙ shown))
    where
      shown : ok v ≡ ok view
      shown = cc

  recovered-Fresh :
      (e : Error) (r : Result (Option OrderView)) (d : Database)
      → Fresh (recovered_sale s e r d)
      → ⊥
  recovered-Fresh e (ok (some v)) d f = cc
  recovered-Fresh e (ok none) d f = cc
  recovered-Fresh e (err r) d f = cc

  created-IsFound :
      (stroops : ℤ) (quote : Quote) (id : String) (drawn : Database)
      → find_sale s c stroops db ≡ ok none
      → (r : Result (Unit {0} × Database))
      → Holds (λ u. IsKeyed (sale_record s c stroops quote id) db.idempotency_records) r
      → Fresh (after_sale s c stroops id (committed drawn r))
      → IsFound stroops
  created-IsFound stroops quote id drawn unseen (err e) h f = absurd (recovered-Fresh e _ drawn f)
  created-IsFound stroops quote id drawn unseen (ok (tt, d)) h f =
      loaded-IsFound stroops quote id d unseen h _ refl f

  persisted-IsFound :
      (stroops : ℤ) (quote : Quote)
      → find_sale s c stroops db ≡ ok none
      → (r : Result (String × Database)) → next_id db.supply db ≡ r
      → Fresh (persist_sale s c stroops quote db r)
      → IsFound stroops
  persisted-IsFound stroops quote unseen (err e) n f = cc
  persisted-IsFound stroops quote unseen (ok (id, drawn)) n f =
      created-IsFound stroops quote id drawn unseen _
        ((create_offramp-IsKeyed s.repository (sale_record s c stroops quote id)
            db.idempotency_records).holds
          drawn (next_id-HasKeys db.supply db drawn id n))
        f

  quoted-IsFound :
      (stroops : ℤ) (r : Result Quote)
      → find_sale s c stroops db ≡ ok none
      → Fresh (new_sale s c stroops r db)
      → IsFound stroops
  quoted-IsFound stroops (err e) unseen f = cc
  quoted-IsFound stroops (ok quote) unseen f = persisted-IsFound stroops quote unseen _ refl f

  replayed-IsFound :
      (stroops : ℤ) (r : Result (Option OrderView))
      → find_sale s c stroops db ≡ r
      → Fresh (replayed_sale s c stroops r db)
      → IsFound stroops
  replayed-IsFound stroops (err e) r f = cc
  replayed-IsFound stroops (ok (some v)) r f = cc
  replayed-IsFound stroops (ok none) r f = quoted-IsFound stroops _ r f

  checked-IsFound :
      (r : Result ℤ)
      → checked_sale c ≡ r
      → Fresh (sell_checked s c r db)
      → (stroops : ℤ) × (checked_sale c ≡ ok stroops) × IsFound stroops
  checked-IsFound (err e) r f = cc
  checked-IsFound (ok stroops) r f = (stroops, r, replayed-IsFound stroops _ refl f)

find_sale-digest :
    (s later : OfframpServices) (c : OfframpCommand) (stroops : ℤ) (db : Database)
    → ((bytes : Bytes) → later.digest bytes ≡ s.digest bytes)
    → find_sale later c stroops db ≡ find_sale s c stroops db
unfolding order_request_hash
find_sale-digest s later c stroops db h =
    ap (λ k. find_offramp_replay c.principal k (sale_request later c stroops) db) (h _)
    ∙ ap (λ r. find_offramp_replay c.principal (sale_key s c) r db) (h _)

-- When a sale has been created and shown, the same command creates nothing any more: it is shown the
-- same order, marked as replayed, and the database stays as it is, whatever the price, the KYC
-- status, the limits or the clock are by then, if the digest is the same function.
pub sell_repeated :
    (s later : OfframpServices) (c : OfframpCommand) (db after : Database) (view : OrderView)
    → ((bytes : Bytes) → later.digest bytes ≡ s.digest bytes)
    → sell s c db ≡ (ok (view, false), after)
    → sell later c after ≡ (ok (view, true), after)
unfolding sell
sell_repeated s later c db after view same h =
    let (stroops, e, found) = checked-IsFound s c db after view _ refl h in
    ap (λ r. sell_checked later c r after) e
    ∙ ap (λ r. replayed_sale later c stroops r after)
        (find_sale-digest s later c stroops after same ∙ found)
