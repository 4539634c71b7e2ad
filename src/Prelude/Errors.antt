-- ===== src/Prelude/Errors.antt =====
-- Go's `error` values: the sentinels of the packages entity and usecase, errors made with a text,
-- and `fmt.Errorf("text: %w", err)`, which `errors.Is` sees through.
use Prim.Native.String.{String}
use mathlib.Core.Path.{◌≡◌, refl}
use mathlib.Core.Bool.{Bool, true, false}

pub data Error : Type 0 where
  invalid_amount : Error
  invalid_order_state : Error
  invalid_order_principal : Error
  invalid_price : Error
  stale_price : Error
  invalid_quote : Error
  amount_out_of_range : Error
  invalid_command : Error
  invalid_destination : Error
  insufficient_liquidity : Error
  idempotency_conflict : Error
  order_not_found : Error
  checkout_unknown : String → Error
  kyc_required : Error
  payment_mismatch : Error
  no_job : Error
  record_not_found : Error
  hash_already_saved : Error
  invalid_withdrawal : Error
  text : String → Error
  -- An error of PostgreSQL, by its code, and an error joined with that of a context that is done.
  pg : String → Error
  joined : Error → Error
  wrapped : String → Error → Error

abbrev pub is_conflict : Error → Bool
is_conflict idempotency_conflict = true
is_conflict _ = false

-- The error that `errors.Is` and `errors.As` reach below the wrapping.
abbrev pub cause : Error → Error
cause (wrapped s e) = cause e
cause (joined e) = cause e
cause e = e

pub data Result {ℓ} (Value : Type ℓ) : Type ℓ where
  err : Error → Result Value
  ok : Value → Result Value

module _ {κ} {Next : Type κ} where
  infixl 5 ◌>>=◌ ◌>>◌
  -- `if err != nil { return ..., err }` behind a call, and the code below it.
  abbrev pub ◌>>=◌ {ℓ} : {Value : Type ℓ} → Result Value → (Value → Result Next) → Result Next
  err e >>= below = err e
  ok v >>= below = below v

  abbrev pub ◌>>◌ : Result (Unit {0}) → Result Next → Result Next
  err e >> below = err e
  ok u >> below = below

-- `if test { return ..., e }`.
abbrev pub fail_if : Bool → Error → Result (Unit {0})
fail_if true e = err e
fail_if false e = ok tt

-- `fmt.Errorf("text: %w", err)` on the error of a call.
abbrev pub wrap {ℓ} : {A : Type ℓ} → String → Result A → Result A
wrap s (ok a) = ok a
wrap s (err e) = err (wrapped s e)

module _ {ℓ κ} {Value : Type ℓ} {Next : Type κ} where
  -- Code that succeeds has got past the call.
  pub >>=-eq-ok :
      (call : Result Value) (below : Value → Result Next) {n : Next}
      → (call >>= below) ≡ ok n
      → (v : Value) × (call ≡ ok v) × (below v ≡ ok n)
  >>=-eq-ok (err e) below h = cc
  >>=-eq-ok (ok v) below h = (v, refl, h)

-- Inversion of a test that was passed.
pub fail_if-eq-ok {ℓ} :
    {B : Type ℓ} (b : Bool) (e : Error) {k : Result B} {v : B}
    → (fail_if b e >> k) ≡ ok v
    → (b ≡ false) × (k ≡ ok v)
fail_if-eq-ok true e h = cc
fail_if-eq-ok false e h = (refl, h)

pub wrap-eq-ok {ℓ} : {A : Type ℓ} (s : String) (r : Result A) {a : A} → wrap s r ≡ ok a → r ≡ ok a
wrap-eq-ok s (ok b) h = h
wrap-eq-ok s (err e) h = cc
