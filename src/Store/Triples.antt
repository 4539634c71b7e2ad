-- ===== src/Store/Triples.antt =====
-- Reasoning about transactions: what a step makes of a property of the database. A step that fails
-- is rolled back, so nothing is asked of it.
use kailo_be.Prelude.{String, Bool, true, false, Option, none, some, List, [], ◌∷◌, ◌≡◌, refl}
use kailo_be.Prelude.Errors.{Error, Result, ok, err}
use kailo_be.Store.{
  Database, Tx, pure, raise, gets, wrapping, found, raise_if, modify, committed, commit, new_id,
  next_id, ◌>>=◌,
}

abbrev pub Holds {ℓ} : {A : Type ℓ} → (A → Database → Type 0) → Result (A × Database) → Type 0
Holds Q (ok r) = Q r.0 r.1
Holds Q (err e) = Unit

-- From P, the step m leads to Q of its result and the database.
pub record Triple {ℓ} {A : Type ℓ} (P : Database → Type 0) (m : Tx A) (Q : A → Database → Type 0)
    : Type 0 where
  pub holds : (db : Database) → P db → Holds Q (m db)

-- A step that preserves a property.
abbrev pub Keeps {ℓ} : {A : Type ℓ} → (Database → Type 0) → Tx A → Type 0
Keeps P m = Triple P m (λ a. P)

-- A transaction that preserves a property, committed or rolled back.
pub commit-Keeps {ℓ} :
    {A : Type ℓ} {P : Database → Type 0} {m : Tx A}
    → Keeps P m
    → (db : Database) → P db
    → P (commit m db).1
commit-Keeps {A = A} {P = P} {m = m} h db p = same (m db) (h.holds db p)
  where
    same : (r : Result (A × Database)) → Holds {A = A} (λ a. P) r → P (committed db r).1
    same (ok r) q = q
    same (err e) q = p

module _ {P : Database → Type 0} where
  pub triple->>= {ℓ κ} :
      {A : Type ℓ} {B : Type κ} {m : Tx A} {f : A → Tx B} {Q : A → Database → Type 0}
      {R : B → Database → Type 0}
      → Triple P m Q
      → ((a : A) → Triple (Q a) (f a) R)
      → Triple P (m >>= f) R
  unfolding ◌>>=◌
  triple->>= {A = A} {m = m} {f = f} {Q = Q} {R = R} h k = record {
    holds = λ db p. next (m db) (h.holds db p);
  }
    where
      next :
          (r : Result (A × Database))
          → Holds Q r
          → Holds R (elim r [ ok r ↦ f r.0 r.1 | err e ↦ err e ])
      next (ok r) q = (k r.0).holds r.1 q
      next (err e) q = tt

  pub triple-wrapping {ℓ} :
      {A : Type ℓ} {m : Tx A} {Q : A → Database → Type 0} (s : String)
      → Triple P m Q
      → Triple P (wrapping s m) Q
  unfolding wrapping
  triple-wrapping {A = A} {m = m} {Q = Q} s h = record {
    holds = λ db p. same (m db) (h.holds db p);
  }
    where
      same :
          (r : Result (A × Database))
          → Holds Q r
          → Holds Q (elim r [ ok r ↦ ok r | err e ↦ err (Error.wrapped s e) ])
      same (ok r) q = q
      same (err e) q = tt

  -- A weaker result.
  pub triple-post {ℓ} :
      {A : Type ℓ} {m : Tx A} {Q R : A → Database → Type 0}
      → Triple P m Q
      → ((a : A) (db : Database) → Q a db → R a db)
      → Triple P m R
  triple-post {A = A} {m = m} {Q = Q} {R = R} h k = record {
    holds = λ db p. weaker (m db) (h.holds db p);
  }
    where
      weaker : (r : Result (A × Database)) → Holds Q r → Holds R r
      weaker (ok r) q = k r.0 r.1 q
      weaker (err e) q = tt

  -- A stronger premise.
  pub triple-pre {ℓ} :
      {A : Type ℓ} {m : Tx A} {O : Database → Type 0} {Q : A → Database → Type 0}
      → ((db : Database) → P db → O db)
      → Triple O m Q
      → Triple P m Q
  triple-pre k h = record { holds = λ db p. h.holds db (k db p) }

  -- What the premise says of no database may be used outside.
  pub triple-premise {ℓ} :
      {A : Type ℓ} {m : Tx A} {Q : A → Database → Type 0} {F : Type 0}
      → ((db : Database) → P db → F)
      → (F → Triple P m Q)
      → Triple P m Q
  triple-premise k h = record { holds = λ db p. (h (k db p)).holds db p }

  pub triple-pure {ℓ} :
      {A : Type ℓ} (a : A) {Q : A → Database → Type 0}
      → ((db : Database) → P db → Q a db)
      → Triple P (pure a) Q
  unfolding pure
  triple-pure a h = record { holds = h }

  pub triple-raise {ℓ} :
      {A : Type ℓ} (e : Error) {Q : A → Database → Type 0} → Triple P (raise {A = A} e) Q
  unfolding raise
  triple-raise e = record { holds = λ db p. tt }

  pub triple-raise_if :
      (b : Bool) (e : Error) → Triple P (raise_if b e) (λ u db. P db × (b ≡ false))
  unfolding raise_if
  triple-raise_if true e = record { holds = λ db p. tt }
  triple-raise_if false e = record { holds = λ db p. (p, refl) }

  pub triple-gets : {A : Type 0} (f : Database → A) → Triple P (gets f) (λ a db. P db × (a ≡ f db))
  unfolding gets
  triple-gets f = record { holds = λ db p. (p, refl) }

  pub triple-found :
      {A : Type 0} (e : Error) (o : Option A) → Triple P (found e o) (λ a db. P db × (o ≡ some a))
  unfolding found
  triple-found e none = record { holds = λ db p. tt }
  triple-found e (some a) = record { holds = λ db p. (p, refl) }

  pub triple-modify :
      (f : Database → Database) {Q : Unit {0} → Database → Type 0}
      → ((db : Database) → P db → Q tt (f db))
      → Triple P (modify f) Q
  unfolding modify
  triple-modify f h = record { holds = h }

  pub Keeps-new_id :
      ((db : Database) (ids : List String) → P db → P (record db { supply = ids })) → Keeps P new_id
  unfolding new_id next_id
  Keeps-new_id h = record { holds = λ db p. drawn db p db.supply }
    where
      drawn :
          (db : Database)
          → P db
          → (ids : List String) → Holds {A = String} (λ id. P) (next_id ids db)
      drawn db p [] = tt
      drawn db p (id ∷ rest) = h db rest p

  -- Forms of the rules that keep P and forget what is read.
  pub Keeps->>= {ℓ κ} :
      {A : Type ℓ} {B : Type κ} {m : Tx A} {f : A → Tx B}
      → Keeps P m
      → ((a : A) → Keeps P (f a))
      → Keeps P (m >>= f)
  Keeps->>= h k = triple->>= h k

  pub Keeps-gets : {A : Type 0} (f : Database → A) → Keeps P (gets f)
  unfolding gets
  Keeps-gets f = record { holds = λ db p. p }

  pub Keeps-raise_if : (b : Bool) (e : Error) → Keeps P (raise_if b e)
  Keeps-raise_if b e = triple-post (triple-raise_if b e) (λ u db h. h.0)

  pub Keeps-found : {A : Type 0} (e : Error) (o : Option A) → Keeps P (found e o)
  Keeps-found e o = triple-post (triple-found e o) (λ a db h. h.0)

-- Two results of one step.
pub triple-both {ℓ} :
    {A : Type ℓ} {m : Tx A} {P P' : Database → Type 0} {Q Q' : A → Database → Type 0}
    → Triple P m Q
    → Triple P' m Q'
    → Triple (λ db. P db × P' db) m (λ a db. Q a db × Q' a db)
triple-both {A = A} {m = m} {Q = Q} {Q' = Q'} h k = record {
  holds = λ db p. both (m db) (h.holds db p.0) (k.holds db p.1);
}
  where
    both : (r : Result (A × Database)) → Holds Q r → Holds Q' r → Holds (λ a db. Q a db × Q' a db) r
    both (ok r) q q' = (q, q')
    both (err e) q q' = tt
