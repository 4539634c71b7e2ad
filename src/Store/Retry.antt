-- ===== src/Store/Retry.antt =====
-- internal/repository/tx.go: a transaction is run again, at most twice, when the database interrupts it
-- for a lock conflict. What the database and the context do to each attempt is a parameter.
use kailo_be.Prelude.{
  subst, ℕ, zero, suc, ◌+◌, ◌<◌, ◌≡◌, ◌≢◌, refl, ap, ◌∙◌, arith, ◌⊎◌, inl, inr, Bool, true, false,
  ◌||◌, Option, none, some, str_eq,
}
use kailo_be.Prelude.Errors.{Error, pg, joined, cause, Result, ok, err}
use kailo_be.Store.{Database, Tx}

-- `maxTransactionAttempts`.
abbrev pub max_transaction_attempts : ℕ
max_transaction_attempts = 3

abbrev pub is_lock_code : Error → Bool
is_lock_code (pg code) = str_eq code "40001" || str_eq code "40P01" || str_eq code "55P03"
is_lock_code _ = false

-- `isTransientLockError`.
unfoldable pub is_transient_lock_error : Error → Bool
is_transient_lock_error e = is_lock_code (cause e)

-- What happens to each attempt: the error by which the database interrupts it, whether the context
-- is done after it, and whether it is done during the wait that follows.
pub record Attempts : Type 0 where
  pub interrupted : ℕ → Option Error
  pub is_done : ℕ → Bool
  pub is_done_waiting : ℕ → Bool

module _ (env : Attempts) (m : Tx (Unit {0})) (db : Database) where
  -- An attempt that is interrupted is rolled back.
  abbrev pub exec : Option Error → Result (Unit {0} × Database)
  exec none = m db
  exec (some e) = err e

  abbrev pub after_failure :
      Bool → Bool → Bool → Error → Result (Unit {0}) × Database → Result (Unit {0}) × Database
  after_failure true transient waiting e again = (err (joined e), db)
  after_failure false false waiting e again = (err e, db)
  after_failure false true true e again = (err (joined e), db)
  after_failure false true false e again = again

  abbrev pub after_exec :
      ℕ
      → Result (Unit {0} × Database)
      → (Error → Result (Unit {0}) × Database)
      → Result (Unit {0}) × Database
  after_exec attempt (ok r) again = (ok r.0, r.1)
  after_exec attempt (err e) again =
      after_failure (env.is_done attempt) (is_transient_lock_error e) (env.is_done_waiting attempt)
        e (again e)

  -- The loop of `do`, with the attempts that are left, the next one, and the error of the last.
  unfoldable pub attempt_from : ℕ → ℕ → Error → Result (Unit {0}) × Database
  attempt_from zero attempt last = (err last, db)
  attempt_from (suc left) attempt last =
      after_exec attempt (exec (env.interrupted attempt)) (attempt_from left (suc attempt))

  -- `do`.
  unfoldable pub tx_do : Result (Unit {0}) × Database
  tx_do = attempt_from max_transaction_attempts 0 (pg "")

module _ (env : Attempts) (m : Tx (Unit {0})) (db : Database) where
  -- The body has run to its end once, or nothing has changed.
  abbrev IsAtomic : Result (Unit {0}) × Database → Type 0
  IsAtomic r =
      ((r.1 ≡ db) × (r.0 ≢ ok tt))
      ⊎ ((after : Database) × (m db ≡ ok (tt, after)) × (r ≡ (ok tt, after)))

  failure-IsAtomic :
      (done transient waiting : Bool) (e : Error) (again : Result (Unit {0}) × Database)
      → IsAtomic again
      → IsAtomic (after_failure env m db done transient waiting e again)
  failure-IsAtomic true transient waiting e again h = inl (refl, λ p. cc)
  failure-IsAtomic false false waiting e again h = inl (refl, λ p. cc)
  failure-IsAtomic false true true e again h = inl (refl, λ p. cc)
  failure-IsAtomic false true false e again h = h

  after-IsAtomic :
      (attempt : ℕ) (r : Result (Unit {0} × Database))
      (again : Error → Result (Unit {0}) × Database)
      → (((after : Database) → r ≡ ok (tt, after) → m db ≡ ok (tt, after)))
      → ((e : Error) → IsAtomic (again e))
      → IsAtomic (after_exec env m db attempt r again)
  after-IsAtomic attempt (ok (tt, after)) again body h = inr (after, body after refl, refl)
  after-IsAtomic attempt (err e) again body h =
      failure-IsAtomic (env.is_done attempt) (is_transient_lock_error e)
        (env.is_done_waiting attempt) e (again e) (h e)

  exec_body :
      (i : Option Error) (after : Database)
      → exec env m db i ≡ ok (tt, after)
      → m db ≡ ok (tt, after)
  exec_body none after p = p
  exec_body (some e) after p = cc

  attempt-IsAtomic :
      (left attempt : ℕ) (last : Error) → IsAtomic (attempt_from env m db left attempt last)
  unfolding attempt_from
  attempt-IsAtomic zero attempt last = inl (refl, λ p. cc)
  attempt-IsAtomic (suc left) attempt last =
      after-IsAtomic attempt (exec env m db (env.interrupted attempt))
        (attempt_from env m db left (suc attempt)) (exec_body (env.interrupted attempt))
        (attempt-IsAtomic left (suc attempt))

-- Whatever interrupts its attempts, a transaction that is run by do either returns no error and
-- leaves what its body, run once, returns without an error, or returns an error and changes nothing.
pub retry_atomic :
    (env : Attempts) (m : Tx (Unit {0})) (db : Database)
    → (((tx_do env m db).1 ≡ db) × ((tx_do env m db).0 ≢ ok tt))
      ⊎ ((after : Database) × (m db ≡ ok (tt, after)) × (tx_do env m db ≡ (ok tt, after)))
unfolding tx_do
retry_atomic env m db = attempt-IsAtomic env m db max_transaction_attempts 0 (pg "")

-- The attempt is interrupted by a lock conflict, and the context goes on until the wait is over.
pub record IsConflict (env : Attempts) (attempt : ℕ) : Type 0 where
  pub by : Error
  pub interrupts : env.interrupted attempt ≡ some by
  pub transient : is_transient_lock_error by ≡ true
  pub goes_on : env.is_done attempt ≡ false
  pub goes_on_waiting : env.is_done_waiting attempt ≡ false

module _ (env : Attempts) (m : Tx (Unit {0})) (db : Database) where
  after_conflict :
      (attempt : ℕ) (again : Error → Result (Unit {0}) × Database) (c : IsConflict env attempt)
      → after_exec env m db attempt (exec env m db (env.interrupted attempt)) again ≡ again c.by
  after_conflict attempt again c = rw (c.interrupts, c.transient, c.goes_on, c.goes_on_waiting) refl

  attempt_after :
      (conflicts left attempt : ℕ) (last : Error) (after : Database)
      → conflicts < left
      → ((j : ℕ) → j < conflicts → IsConflict env (attempt + j))
      → env.interrupted (attempt + conflicts) ≡ none
      → m db ≡ ok (tt, after)
      → attempt_from env m db left attempt last ≡ (ok tt, after)
  unfolding attempt_from
  attempt_after conflicts zero attempt last after h before undisturbed body = ground arith
  attempt_after zero (suc left) attempt last after h before undisturbed body =
      ap (λ r. after_exec env m db attempt r (attempt_from env m db left (suc attempt)))
        (ap (exec env m db) (subst (λ k. env.interrupted k ≡ none) (omega arith) undisturbed)
          ∙ body)
  attempt_after (suc n) (suc left) attempt last after h before undisturbed body =
      after_conflict attempt (attempt_from env m db left (suc attempt))
        (subst (IsConflict env) (omega arith) (before 0 (omega arith)))
      ∙ attempt_after n left (suc attempt) _ after (omega arith)
          (λ j q. subst (IsConflict env) (omega arith) (before (suc j) (omega arith)))
          (subst (λ k. env.interrupted k ≡ none) (omega arith) undisturbed) body

-- A transaction whose body succeeds is committed in spite of at most two lock conflicts, if the
-- attempt behind them is not interrupted and the context goes on.
pub retry_commits :
    (env : Attempts) (m : Tx (Unit {0})) (db after : Database) (conflicts : ℕ)
    → conflicts < max_transaction_attempts
    → ((j : ℕ) → j < conflicts → IsConflict env j)
    → env.interrupted conflicts ≡ none
    → m db ≡ ok (tt, after)
    → tx_do env m db ≡ (ok tt, after)
unfolding tx_do
retry_commits env m db after conflicts h before undisturbed body =
    attempt_after env m db conflicts max_transaction_attempts 0 (pg "") after h
      (λ j q. subst (IsConflict env) (omega arith) (before j q))
      (subst (λ k. env.interrupted k ≡ none) (omega arith) undisturbed) body
