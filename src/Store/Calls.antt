-- ===== src/Store/Calls.antt =====
-- The calls that a use case makes of the repositories, one after the other: each is a transaction
-- of its own, and its error is returned or dropped.
use kailo_be.Prelude.{String, Option, none, some}
use kailo_be.Prelude.Errors.{wrapped, Result, ok, err}
use kailo_be.Store.{Database, Tx, commit}
use kailo_be.Store.Triples.{Holds, Keeps, commit-Keeps}

-- A call of the repository: the error that it returns, and the database after it.
abbrev pub Call : Type 0
Call = Database → Result (Unit {0}) × Database

-- A call whose error is dropped, and what follows it.
abbrev pub ignoring : Tx (Unit {0}) → Call → Call
ignoring m k db = k (commit m db).1

-- A call whose error is returned, under a message if there is one, and what follows it.
abbrev pub checked :
    Option String → Call → Database → Result (Unit {0} × Database) → Result (Unit {0}) × Database
checked message k db (ok r) = k r.1
checked none k db (err e) = (err e, db)
checked (some s) k db (err e) = (err (wrapped s e), db)

abbrev pub checking : Option String → Tx (Unit {0}) → Call → Call
checking message m k db = checked message k db (m db)

abbrev pub returning : Result (Unit {0}) → Call
returning r db = (r, db)

-- What follows a call that is made already, whose error is returned under a message.
abbrev pub following : String → Call → Result (Unit {0}) × Database → Result (Unit {0}) × Database
following message k (ok u, after) = k after
following message k (err e, after) = (err (wrapped message e), after)

-- A call that keeps a property of the database, whatever it returns.
abbrev pub IsSafe : (Database → Type 0) → Call → Type 0
IsSafe P k = (db : Database) → P db → P (k db).1

module _ {P : Database → Type 0} where
  pub ignoring-IsSafe :
      (m : Tx (Unit {0})) (k : Call) → Keeps P m → IsSafe P k → IsSafe P (ignoring m k)
  ignoring-IsSafe m k h s db p = s (commit m db).1 (commit-Keeps h db p)

  pub checking-IsSafe :
      (message : Option String) (m : Tx (Unit {0})) (k : Call)
      → Keeps P m
      → IsSafe P k
      → IsSafe P (checking message m k)
  checking-IsSafe message m k h s db p = after message (m db) (h.holds db p)
    where
      after :
          (message : Option String) (r : Result (Unit {0} × Database))
          → Holds (λ u. P) r
          → P (checked message k db r).1
      after message (ok r) q = s r.1 q
      after none (err e) q = p
      after (some t) (err e) q = p

  pub following-keeps :
      (message : String) (k : Call) (r : Result (Unit {0}) × Database)
      → P r.1
      → IsSafe P k
      → P (following message k r).1
  following-keeps message k (ok u, after) p s = s after p
  following-keeps message k (err e, after) p s = p
