-- ===== src/Offramp/Allowed.antt =====
-- When `OfframpUsecase.Create` of internal/usecase/offramp_usecase.go may create an order.
use kailo_be.Prelude.{◌≡◌, ◌⊎◌, true, false, none}
use kailo_be.Prelude.Int.{ℤ, ltb_ℤ}
use kailo_be.Prelude.Errors.{ok}
use kailo_be.Prelude.Text.{is_blank, trim_space}
use kailo_be.Quote.{Quote, MarketPrice, create_reverse}
use kailo_be.Store.{Database}
use kailo_be.Offramp.Create.{OfframpCommand, OfframpServices, refuses, checked_sale, find_sale}

-- The command is valid and new, its owner is approved, nothing refuses the asset, and the quote is
-- within the limits.
pub record IsAllowed (s : OfframpServices) (c : OfframpCommand) (db : Database) : Type 0 where
  pub stroops : ℤ
  pub market : MarketPrice
  pub quote : Quote
  pub checks : checked_sale c ≡ ok stroops
  pub unseen : find_sale s c stroops db ≡ ok none
  pub approved : s.is_approved c.principal.owner_user_id ≡ ok true
  pub issued : is_blank (trim_space s.asset_issuer) ≡ false
  pub trusted : refuses s.trustline ≡ false
  pub observed : s.latest_xlm_idr ≡ ok market
  pub priced : create_reverse s.reader s.quote_policy s.now stroops market ≡ ok quote
  pub at_least : ltb_ℤ quote.fiat_amount s.min_idr ≡ false
  pub at_most : ltb_ℤ s.max_idr quote.fiat_amount ≡ false

module _ (s : OfframpServices) (c : OfframpCommand) (db : Database) where
  abbrev Accounted : Database → Type 0
  Accounted after = (after ≡ db) ⊎ IsAllowed s c db
