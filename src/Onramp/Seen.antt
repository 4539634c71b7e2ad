-- ===== src/Onramp/Seen.antt =====
-- The idempotency record of a purchase stays, whatever becomes of its checkout.
use kailo_be.Prelude.{
  ◌≡◌, ◌≢◌, refl, ◌∙◌, subst, String, Bool, true, false, Option, none, some, List, [], ◌∷◌, find,
  if◌then◌else◌,
}
use kailo_be.Prelude.Int.{ℤ}
use kailo_be.Prelude.Errors.{checkout_unknown, Result, ok, err}
use kailo_be.Prelude.Time.{Instant}
use kailo_be.Principal.{OrderPrincipal, order_ownership_for}
use kailo_be.Store.{Database, commit}
use kailo_be.Store.Table.{update}
use kailo_be.Store.Rows.{IdempotencyRecord, OrderRecord}
use kailo_be.Store.Views.{Checkout}
use kailo_be.Store.Statements.{update_idempotency}
use kailo_be.Store.Triples.{
  Triple, Keeps, Keeps->>=, Keeps-gets, Keeps-found, Keeps-raise_if, Keeps-new_id, triple->>=,
  triple-premise, triple-pre, triple-wrapping, triple-modify, commit-Keeps,
}
use kailo_be.Store.Frames.{
  create_checkout-Keeps, update_orders-Keeps, update_reservations-Keeps, unreserve-Keeps,
}
use kailo_be.Events.Append.{find_order}
use kailo_be.Events.Frames.{IsUnwatched, append_order_event-Keeps}
use kailo_be.Onramp.{
  OnrampRepository, CreateRecord, onramp_create_operation, idempotency_record, reserve_and_create,
}
use kailo_be.Onramp.Views.{get, find_replay}
use kailo_be.Onramp.Checkouts.{
  lock_order, attach, attached, attached_view, attach_checkout, release_reservation,
  release_failed_order, fail_checkout, mark_checkout_unknown,
}
use kailo_be.Onramp.Replays.{
  triple-lift, is_replay, is_replay-own, IsSeen, find_replay_as-IsSeen,
  create_idempotency_record-IsSeen, anything,
}
use kailo_be.Onramp.Create.{
  CheckoutAnswer, made, outcome_unknown, refused, OnrampServices, after_attach, after_gateway,
}

-- An update that the query does not look at.
find-changed {ℓ} :
    {A : Type ℓ} (p q : A → Bool) (f : A → A) (xs : List A)
    → ((b : A) → p (f b) ≡ p b)
    → (a : A) × (find p xs ≡ some a)
    → (a : A) × (find p (update q f xs) ≡ some a)
find-changed p q f [] k (a, h) = cc
find-changed {A = A} p q f (x ∷ xs) k h = split (q x) (p x) refl h (find-changed p q f xs k)
  where
    split :
        (b t : Bool)
        → p x ≡ t
        → (a : A) × ((if t then some x else find p xs) ≡ some a)
        → ((a : A) × (find p xs ≡ some a) → (a : A) × (find p (update q f xs) ≡ some a))
        → (a : A) × (find p ((if b then f x else x) ∷ update q f xs) ≡ some a)
    split true true e i rest = (f x, rw (k x ∙ e) refl)
    split true false e i rest = ((rest i).0, rw (k x ∙ e) (rest i).1)
    split false true e i rest = (x, rw e refl)
    split false false e i rest = ((rest i).0, rw e (rest i).1)

module _ (principal : OrderPrincipal) (key_hash request_hash : String) where
  -- A record of the key is there.
  abbrev pub Seen : Database → Type 0
  Seen = IsSeen get onramp_create_operation (checkout_unknown "") principal key_hash request_hash

  free : IsUnwatched Seen
  free = record { supply = λ db ids h. h; webhooks = λ db rows h. h; jobs = λ db rows h. h }

  pub reserve_and_create-Seen :
      (r : OnrampRepository) (c : CreateRecord) (observed : ℤ)
      → c.principal ≡ principal
      → c.idempotency_key_hash ≡ key_hash
      → c.request_hash ≡ request_hash
      → Triple (λ db. Unit {0}) (reserve_and_create r c observed) (λ u. Seen)
  unfolding reserve_and_create
  reserve_and_create-Seen r c observed p k q =
      triple->>= (triple-lift (order_ownership_for c.principal)) λ o.
        triple-premise (λ db h. h.1)
          λ own.
            triple-pre (λ db h. tt)
              (triple->>= (anything _) λ _. triple->>= (anything _) λ t.
                triple->>= (anything _) λ _. triple->>= (anything _) λ _.
                  triple->>= (anything _) λ _. triple->>= (anything _) λ _.
                    triple->>= (anything _) λ _. triple->>= (anything _) λ id. triple-wrapping _ (
                      create_idempotency_record-IsSeen get onramp_create_operation
                        (checkout_unknown "") principal key_hash request_hash
                        (idempotency_record id c o)
                        (is_replay-own get onramp_create_operation (checkout_unknown "") principal
                          key_hash request_hash c.order_id o (idempotency_record id c o)
                          (subst (λ x. order_ownership_for x ≡ ok o) p own)
                          (record {
                            of = refl;
                            key = k;
                            request = q;
                            resource = refl;
                            client = refl;
                            user = refl;
                          }))))

  lock_order-Seen : (message order_id : String) → Keeps Seen (lock_order message order_id)
  lock_order-Seen message order_id =
      Keeps->>= (Keeps-gets _) λ _. triple-wrapping _ (Keeps-found _ _)

  -- The state of the records may change.
  update_idempotency-Seen :
      (p : IdempotencyRecord → Bool) (f : IdempotencyRecord → IdempotencyRecord)
      → ((row : IdempotencyRecord)
          → is_replay get onramp_create_operation
              (checkout_unknown "")
              principal
              key_hash
              request_hash
              (f row)
            ≡ is_replay get onramp_create_operation
                (checkout_unknown "")
                principal
                key_hash
                request_hash
                row)
      → Keeps Seen (update_idempotency p f)
  unfolding update_idempotency
  update_idempotency-Seen p f k =
      triple-modify _ (λ db h. find-changed _ p f db.idempotency_records k h)

  attach-Seen :
      (order_id : String) (checkout : Checkout) (now : Instant)
      → Keeps Seen (attach order_id checkout now)
  unfolding attach
  attach-Seen order_id checkout now = Keeps->>= (lock_order-Seen _ _) λ order.
      Keeps->>= (Keeps-raise_if _ _) λ _. Keeps->>= (Keeps-new_id (λ db ids h. h)) λ _.
        Keeps->>= (triple-wrapping _ (create_checkout-Keeps (λ db rows h. h) _)) λ _.
          Keeps->>= (update_orders-Keeps (λ db rows h. h) _ _) λ _.
            Keeps->>= (append_order_event-Keeps free (λ db rows h. h) _ _ _ _ _ _)
              λ _. update_idempotency-Seen _ _ (λ row. refl)

  fail_checkout-Seen : (order_id : String) (now : Instant) → Keeps Seen (fail_checkout order_id now)
  unfolding fail_checkout release_failed_order release_reservation
  fail_checkout-Seen order_id now = Keeps->>= (lock_order-Seen _ _) λ order.
      Keeps->>= (Keeps-raise_if _ _) λ _. Keeps->>= (Keeps-gets _) λ row.
        Keeps->>= (triple-wrapping _ (Keeps-found _ row)) λ r.
          Keeps->>=
            (Keeps->>= (update_reservations-Keeps (λ db rows h. h) _ _)
              λ _. unreserve-Keeps (λ db rows h. h) _ _)
            λ _.
              Keeps->>= (update_orders-Keeps (λ db rows h. h) _ _)
                λ _. append_order_event-Keeps free (λ db rows h. h) _ _ _ _ _ _

  mark_checkout_unknown-Seen :
      (order_id : String) (now : Instant) → Keeps Seen (mark_checkout_unknown order_id now)
  unfolding mark_checkout_unknown
  mark_checkout_unknown-Seen order_id now = update_orders-Keeps (λ db rows h. h) _ _

  attach_checkout-Seen :
      (s : OnrampServices) (order_id : String) (checkout : Checkout) (now : Instant) (db : Database)
      → Seen db
      → Seen (after_attach s (attach_checkout order_id checkout now db)).1
  unfolding attach_checkout
  attach_checkout-Seen s order_id checkout now db h =
      shown (commit (attach order_id checkout now) db)
        (commit-Keeps (attach-Seen order_id checkout now) db h)
    where
      viewed :
          (o : Option OrderRecord) (d : Database)
          → Seen d
          → Seen (after_attach s (attached_view o d)).1
      viewed none d q = q
      viewed (some order) d q = q

      shown :
          (r : Result (Unit {0}) × Database)
          → Seen r.1
          → Seen (after_attach s (attached order_id r)).1
      shown (err e, d) q = q
      shown (ok u, d) q = viewed (find_order order_id d) d q

  pub after_gateway-Seen :
      (s : OnrampServices) (id : String) (a : CheckoutAnswer) (db : Database)
      → Seen db
      → Seen (after_gateway s id a db).1
  after_gateway-Seen s id (made checkout) db h = attach_checkout-Seen s id checkout s.now_after db h
  after_gateway-Seen s id outcome_unknown db h =
      commit-Keeps (mark_checkout_unknown-Seen id s.now_after) db h
  after_gateway-Seen s id (refused e) db h = commit-Keeps (fail_checkout-Seen id s.now_after) db h

  pub find_purchase-Seen :
      (db : Database) → Seen db → find_replay principal key_hash request_hash db ≢ ok none
  find_purchase-Seen =
      find_replay_as-IsSeen get onramp_create_operation (checkout_unknown "") principal key_hash
        request_hash
