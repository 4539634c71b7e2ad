-- ===== src/Treasury.antt =====
-- The treasury of internal/repository: what an account reserves is the sum of the reservations
-- that are held on it. This file has the invariant and its lemmas on rows.
pub mod Rows
pub mod Moves
pub mod Steps
pub mod Locks
pub mod Orders
pub mod Batch
pub mod Settlements
use kailo_be.Prelude.{
  ℕ, ◌+◌, ◌≡◌, String, Bool, true, false, ◌&&◌, List, [], ◌∷◌, any, All, str_eq, if◌then◌else◌,
}
use kailo_be.Store.{Database}
use kailo_be.Store.Rows.{TreasuryAccount, TreasuryReservation}
use kailo_be.Onramp.Checkouts.{is_reserved}

-- What one reservation holds on an account, and what all of them hold.
abbrev pub part : String → TreasuryReservation → ℕ
part id r = if str_eq r.treasury_id id && is_reserved r.status then r.amount_stroops else 0

abbrev pub held : String → List TreasuryReservation → ℕ
held id [] = 0
held id (r ∷ rs) = part id r + held id rs

abbrev pub has_id : String → TreasuryReservation → Bool
has_id id r = str_eq r.id id

abbrev pub IsDistinct : List TreasuryReservation → Type 0
IsDistinct [] = Unit
IsDistinct (r ∷ rs) = (any (has_id r.id) rs ≡ false) × IsDistinct rs

abbrev pub has_account : List TreasuryAccount → String → Bool
has_account accounts id = any (λ (t : TreasuryAccount). str_eq t.id id) accounts

abbrev pub nothing : String → ℕ
nothing t = 0

-- Every account reserves what is held on it, but for what it still lacks and what it has in excess
-- in the middle of a transaction; the ids of the reservations differ, and each stands on an account.
pub record Balanced (lack excess : String → ℕ) (accounts : List TreasuryAccount)
    (rs : List TreasuryReservation) : Type 0 where
  pub sums :
      All
        (λ (t : TreasuryAccount). t.reserved_stroops + lack t.id ≡ held t.id rs + excess t.id)
        accounts
  pub ids : IsDistinct rs
  pub homes : All (λ (r : TreasuryReservation). has_account accounts r.treasury_id ≡ true) rs

abbrev pub Gap : (String → ℕ) → (String → ℕ) → Database → Type 0
Gap lack excess db = Balanced lack excess db.treasury_accounts db.treasury_reservations

abbrev pub IsBalanced : Database → Type 0
IsBalanced db = Gap nothing nothing db
