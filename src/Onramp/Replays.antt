-- ===== src/Onramp/Replays.antt =====
-- What the insert of an idempotency record, the last statement of a creation, leaves behind, and how
-- `FindReplay` and `FindOfframpReplay` find it again.
use kailo_be.Prelude.{
  ◌≡◌, ◌≢◌, refl, ap, subst, ◌∙◌, arith, eq_iff, String, Bool, true, false, not, Option, none, some,
  List, [], ◌∷◌, if◌then◌else◌, ◌++◌, find, str_eq,
}
use kailo_be.Prelude.Errors.{Error, Result, ok, err, ◌>>=◌}
use kailo_be.Store.{Database, Tx, next_id}
use kailo_be.Store.Rows.{IdempotencyRecord}
use kailo_be.Store.Views.{OrderView}
use kailo_be.Store.Statements.{create_idempotency_record}
use kailo_be.Store.Triples.{
  Triple, Holds, triple->>=, triple-pure, triple-raise, triple-modify, Keeps-gets, Keeps-raise_if,
}
use kailo_be.Financial.{lift}
use kailo_be.Principal.{
  OrderPrincipal, OrderOwnership, order_ownership_for, owns_record, apply_idempotency_ownership,
  validate,
}
use kailo_be.Onramp.Views.{replay_row, replay_of, has_key, find_replay_as}

pub triple-lift :
    {A : Type 0} {P : Database → Type 0} (r : Result A)
    → Triple P (lift r) (λ a db. P db × (r ≡ ok a))
triple-lift (ok a) = triple-pure a (λ db p. (p, refl))
triple-lift (err e) = triple-raise e

abbrev pub HasKeys : List IdempotencyRecord → Database → Type 0
HasKeys rows db = db.idempotency_records ≡ rows

pub create_idempotency_record-HasKeys :
    (rows : List IdempotencyRecord) (row : IdempotencyRecord)
    → Triple (HasKeys rows) (create_idempotency_record row) (λ u. HasKeys (rows ++ row ∷ []))
unfolding create_idempotency_record
create_idempotency_record-HasKeys rows row =
    triple->>= (Keeps-gets _)
      λ a. triple->>= (Keeps-raise_if _ _) λ _. triple-modify _ (λ db h. ap (λ r. r ++ row ∷ []) h)

pub next_id-HasKeys :
    (ids : List String) (db drawn : Database) (id : String)
    → next_id ids db ≡ ok (id, drawn)
    → drawn.idempotency_records ≡ db.idempotency_records
unfolding next_id
next_id-HasKeys [] db drawn id e = cc
next_id-HasKeys (x ∷ ids) db drawn id e = cc

find-append {ℓ} :
    {A : Type ℓ} (p : A → Bool) (xs : List A) (x : A)
    → find p xs ≡ none
    → p x ≡ true
    → find p (xs ++ x ∷ []) ≡ some x
find-append p [] x h k = ground arith
find-append p (y ∷ xs) x h k = ground (arith, find-append p xs x)

module _ (get_order : String → Database → Result OrderView) (missing : Error) (db : Database) where
  viewed : (r : Result OrderView) → (r >>= λ view. ok (some view)) ≢ ok none
  viewed (err e) h = cc
  viewed (ok view) h = cc

  replay_row-some :
      (b : Bool) (resource : Option String) → replay_row get_order missing b resource db ≢ ok none
  replay_row-some true resource h = cc
  replay_row-some false none h = cc
  replay_row-some false (some order_id) h = viewed (get_order order_id db) h

  -- Only without a record is nothing replayed.
  replay_of-none :
      (request_hash : String) (o : Option IdempotencyRecord)
      → replay_of get_order missing request_hash o db ≡ ok none
      → o ≡ none
  replay_of-none request_hash none h = refl
  replay_of-none request_hash (some row) h = absurd (replay_row-some _ _ h)

-- The record of a new order, whose operation and columns are these.
pub record IsRecordOf (operation key_hash request_hash order_id : String) (o : OrderOwnership)
    (row : IdempotencyRecord) : Type 0 where
  pub of : row.operation ≡ operation
  pub key : row.key_hash ≡ key_hash
  pub request : row.request_hash ≡ request_hash
  pub resource : row.created_resource_id ≡ some order_id
  pub client : row.client_id ≡ o.client_id
  pub user : row.retail_user_id ≡ o.retail_user_id

module _ (get_order : OrderPrincipal → String → Database → Result OrderView) (operation : String)
    (missing : Error) (principal : OrderPrincipal) (key_hash request_hash : String) where
  owned :
      (o : OrderOwnership)
      → order_ownership_for principal ≡ ok o
      → apply_idempotency_ownership principal ≡ ok (owns_record principal)
  unfolding order_ownership_for apply_idempotency_ownership
  owned o h = ground arith

  owns_own :
      (o : OrderOwnership) (row : IdempotencyRecord)
      → order_ownership_for principal ≡ ok o
      → row.client_id ≡ o.client_id
      → row.retail_user_id ≡ o.retail_user_id
      → owns_record principal row ≡ true
  unfolding order_ownership_for
  owns_own o row h c u = ground (
    arith,
    eq_iff principal.client_id principal.client_id,
    eq_iff principal.owner_user_id principal.owner_user_id,
  )

  abbrev pub is_replay : IdempotencyRecord → Bool
  is_replay = has_key operation key_hash (owns_record principal)

  abbrev replay_from : Result (IdempotencyRecord → Bool) → Database → Result (Option OrderView)
  replay_from r db = r >>= λ owns.
      replay_of (get_order principal) missing request_hash
        (find (has_key operation key_hash owns) db.idempotency_records) db

  pub is_replay-own :
      (order_id : String) (o : OrderOwnership) (row : IdempotencyRecord)
      → order_ownership_for principal ≡ ok o
      → IsRecordOf operation key_hash request_hash order_id o row
      → is_replay row ≡ true
  is_replay-own order_id o row own is = ground (
    arith,
    is.of,
    is.key,
    owns_own o row own is.client is.user,
    eq_iff row.operation operation,
    eq_iff row.key_hash key_hash,
  )

  replay_of-own :
      (order_id : String) (o : OrderOwnership) (row : IdempotencyRecord) (after : Database)
      (view : OrderView)
      → IsRecordOf operation key_hash request_hash order_id o row
      → get_order principal order_id after ≡ ok view
      → replay_of (get_order principal) missing request_hash (some row) after ≡ ok (some view)
  replay_of-own order_id o row after view is seen =
      let e : not (str_eq row.request_hash request_hash) ≡ false =
        ground (arith, is.request, eq_iff row.request_hash request_hash) in
      rw (e, is.resource, seen) refl

  -- A key that had no record is found once its record is the last one.
  pub find_replay_as-found :
      (order_id : String) (o : OrderOwnership) (row : IdempotencyRecord) (db after : Database)
      (view : OrderView)
      → order_ownership_for principal ≡ ok o
      → IsRecordOf operation key_hash request_hash order_id o row
      → find_replay_as get_order operation missing principal key_hash request_hash db ≡ ok none
      → HasKeys (db.idempotency_records ++ row ∷ []) after
      → get_order principal order_id after ≡ ok view
      → find_replay_as get_order operation missing principal key_hash request_hash after
        ≡ ok (some view)
  unfolding find_replay_as
  find_replay_as-found order_id o row db after view own is unseen keys seen =
      ap (λ r. replay_from r after) (owned o own)
      ∙ ap (λ f. replay_of (get_order principal) missing request_hash f after)
          (ap (find is_replay) keys
            ∙ find-append is_replay db.idempotency_records row absent
                (is_replay-own order_id o row own is))
      ∙ replay_of-own order_id o row after view is seen
    where
      absent : find is_replay db.idempotency_records ≡ none
      absent =
          replay_of-none (get_order principal) missing db request_hash _
            (subst (λ r. replay_from r db ≡ ok none) (owned o own) unseen)

  -- A record of the key is there.
  abbrev pub IsSeen : Database → Type 0
  IsSeen db = (row : IdempotencyRecord) × (find is_replay db.idempotency_records ≡ some row)

  -- Something is answered then: an order, or an error.
  pub find_replay_as-IsSeen :
      (db : Database)
      → IsSeen db
      → find_replay_as get_order operation missing principal key_hash request_hash db ≢ ok none
  unfolding find_replay_as apply_idempotency_ownership
  find_replay_as-IsSeen db (row, e) h = by (validate principal) h
    where
      by :
          (v : Option Error)
          → replay_from (elim v [ some x ↦ err x | none ↦ ok (owns_record principal) ]) db ≡ ok none
          → ⊥
      by (some x) h = cc
      by none h =
          let absent =
            replay_of-none (get_order principal) missing db request_hash
              (find is_replay db.idempotency_records) h in
          cc

  pub create_idempotency_record-IsSeen :
      (row : IdempotencyRecord)
      → is_replay row ≡ true
      → Triple (λ db. Unit {0}) (create_idempotency_record row) (λ u. IsSeen)
  unfolding create_idempotency_record
  create_idempotency_record-IsSeen row h = triple->>= (Keeps-gets _) λ a.
      triple->>= (Keeps-raise_if _ _) λ _. triple-modify _ (λ db p. last db.idempotency_records)
    where
      last :
          (rows : List IdempotencyRecord)
          → (r : IdempotencyRecord) × (find is_replay (rows ++ row ∷ []) ≡ some r)
      last [] = (row, ground arith)
      last (x ∷ rows) = at_first (is_replay x) (last rows)
        where
          at_first :
              (b : Bool)
              → (r : IdempotencyRecord) × (find is_replay (rows ++ row ∷ []) ≡ some r)
              → (r : IdempotencyRecord) × ((if b then some x else find is_replay (rows ++ row ∷ []))
                  ≡ some r)
          at_first true l = (x, refl)
          at_first false l = l

-- Any step keeps what says nothing.
pub anything {ℓ} : {A : Type ℓ} (m : Tx A) → Triple (λ db. Unit {0}) m (λ a db. Unit {0})
anything {A = A} m = record { holds = λ db p. nothing (m db) }
  where
    nothing : (r : Result (A × Database)) → Holds {A = A} (λ a db. Unit {0}) r
    nothing (ok r) = tt
    nothing (err e) = tt
