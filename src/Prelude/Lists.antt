-- ===== src/Prelude/Lists.antt =====
-- Lists over the native numbers, and predicates on them by recursion.
use Prim.Native.Nat.{ℕ, zero, suc, ◌+◌}
use mathlib.Core.Path.{◌≡◌, refl}
use mathlib.Core.Bool.{Bool, true, false}
use mathlib.Core.Option.{Option, none, some}
use mathlib.Core.List.{List, [], ◌∷◌, ◌++◌}
use mathlib.Core.Path.{sym, subst}
use native.Mathlib.Omega.{arith}
use kailo_be.Prelude.Tests.{if◌then◌else◌}

module _ {ℓ} {A : Type ℓ} where
  abbrev pub length : List A → ℕ
  length [] = 0
  length (x ∷ xs) = suc (length xs)

  abbrev pub replicate : ℕ → A → List A
  replicate zero a = []
  replicate (suc n) a = a ∷ replicate n a

  -- Every element passes the test.
  abbrev pub all : (A → Bool) → List A → Bool
  all p [] = true
  all p (x ∷ xs) = if p x then all p xs else false

  -- Some element passes the test.
  abbrev pub any : (A → Bool) → List A → Bool
  any p [] = false
  any p (x ∷ xs) = if p x then true else any p xs

  -- The first element that passes the test.
  abbrev pub find : (A → Bool) → List A → Option A
  find p [] = none
  find p (x ∷ xs) = if p x then some x else find p xs

  abbrev pub All {κ} : (A → Type κ) → List A → Type κ
  All P [] = Unit
  All P (x ∷ xs) = P x × All P xs

  pub length-append : (xs ys : List A) → length (xs ++ ys) ≡ length xs + length ys
  length-append [] ys = omega arith
  length-append (x ∷ xs) ys = omega (arith, length-append xs ys)

  pub all-append :
      (p : A → Bool) (xs ys : List A) → all p xs ≡ true → all p ys ≡ true → all p (xs ++ ys) ≡ true
  all-append p [] ys hx hy = hy
  all-append p (x ∷ xs) ys hx hy = ground (arith, all-append p xs ys)

module _ {ℓ} {A : Type ℓ} where
  pub data IsIn (a : A) : List A → Type ℓ where
    at_head : {x : A} {xs : List A} → a ≡ x → IsIn a (x ∷ xs)
    in_tail : {x : A} {xs : List A} → IsIn a xs → IsIn a (x ∷ xs)

  -- What find finds is in the list, and passes the test.
  pub find-IsIn :
      (p : A → Bool) (xs : List A) {a : A} → find p xs ≡ some a → IsIn a xs × (p a ≡ true)
  find-IsIn p [] h = cc
  find-IsIn p (x ∷ xs) {a} h = split (p x) refl h (find-IsIn p xs)
    where
      split :
          (b : Bool)
          → p x ≡ b
          → (if b then some x else find p xs) ≡ some a
          → (find p xs ≡ some a → IsIn a xs × (p a ≡ true))
          → IsIn a (x ∷ xs) × (p a ≡ true)
      split true e k rest = (at_head (ground (arith, k)), ground (arith, k, e))
      split false e k rest = let (m, t) = rest k in (in_tail m, t)

  pub any-IsIn : (p : A → Bool) {a : A} {xs : List A} → IsIn a xs → p a ≡ true → any p xs ≡ true
  any-IsIn p {xs = []} m h = elim m [ ]
  any-IsIn p {a} {xs = x ∷ xs} (at_head e) h = ground arith
  any-IsIn p {xs = x ∷ xs} (in_tail m) h = ground (arith, any-IsIn p m h)

  pub All-IsIn {κ} : (P : A → Type κ) {a : A} {xs : List A} → All P xs → IsIn a xs → P a
  All-IsIn P {xs = []} h m = elim m [ ]
  All-IsIn P {xs = x ∷ xs} (h, hs) (at_head e) = subst P (sym e) h
  All-IsIn P {xs = x ∷ xs} (h, hs) (in_tail m) = All-IsIn P hs m

  pub All-append {κ} :
      (P : A → Type κ) (xs : List A) {a : A} → All P xs → P a → All P (xs ++ a ∷ [])
  All-append P [] h k = (k, tt)
  All-append P (x ∷ xs) (h, hs) k = (h, All-append P xs hs k)

  pub All-map {κ ι} :
      {P : A → Type κ} {Q : A → Type ι}
      → ((a : A) → P a → Q a)
      → (xs : List A) → All P xs
      → All Q xs
  All-map f [] h = tt
  All-map f (x ∷ xs) (h, hs) = (f x h, All-map f xs hs)

pub length-replicate {ℓ} : {A : Type ℓ} (n : ℕ) (a : A) → length (replicate n a) ≡ n
length-replicate zero a = refl
length-replicate (suc n) a = omega (arith, length-replicate n a)
