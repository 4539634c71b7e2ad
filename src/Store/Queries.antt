-- ===== src/Store/Queries.antt =====
-- Queries: the rows that pass a condition, in an order, up to a limit.
use kailo_be.Prelude.{
  ℕ, ◌+◌, zero, suc, ◌≡◌, refl, arith, String, Bool, true, false, ◌&&◌, ◌||◌, Option, none, some,
  List, [], ◌∷◌, any, All, IsIn, at_head, in_tail, ltb, ◌==◌, if◌then◌else◌, code,
}
use kailo_be.Store.Table.{affected}

-- Texts in the order of their code points, as ids are in a column.
abbrev pub before : String → String → Bool
before s String.[] = false
before String.[] (String.◌∷◌ d t) = true
before (String.◌∷◌ c s) (String.◌∷◌ d t) = ltb (code c) (code d) || code c == code d && before s t

-- `ORDER BY`: `first a b` says that a stands before b.
module _ {ℓ} {A : Type ℓ} (first : A → A → Bool) where
  abbrev pub insert : A → List A → List A
  insert a [] = a ∷ []
  insert a (b ∷ rest) = if first b a then b ∷ insert a rest else a ∷ b ∷ rest

  abbrev pub sorted : List A → List A
  sorted [] = []
  sorted (a ∷ rest) = insert a (sorted rest)

abbrev pub head {ℓ} : {A : Type ℓ} → List A → Option A
head [] = none
head (a ∷ rest) = some a

abbrev pub filter {ℓ} : {A : Type ℓ} → (A → Bool) → List A → List A
filter p [] = []
filter p (a ∷ rest) = if p a then a ∷ filter p rest else filter p rest

-- `LIMIT`.
abbrev pub take {ℓ} : {A : Type ℓ} → ℕ → List A → List A
take zero xs = []
take (suc n) [] = []
take (suc n) (x ∷ xs) = x ∷ take n xs

module _ {ℓ} {A : Type ℓ} (p : A → Bool) where
  pub any-insert :
      (first : A → A → Bool) (a : A) (xs : List A) → any p (insert first a xs) ≡ (p a || any p xs)
  any-insert first a [] = ground arith
  any-insert first a (x ∷ xs) = ground (arith, any-insert first a xs)

  pub any-sorted : (first : A → A → Bool) (xs : List A) → any p (sorted first xs) ≡ any p xs
  any-sorted first [] = refl
  any-sorted first (x ∷ xs) =
      ground (arith, any-insert first x (sorted first xs), any-sorted first xs)

  pub any-filter : (q : A → Bool) (xs : List A) → any p xs ≡ false → any p (filter q xs) ≡ false
  any-filter q [] h = refl
  any-filter q (x ∷ xs) h = ground (arith, any-filter q xs)

  pub any-take : (n : ℕ) (xs : List A) → any p xs ≡ false → any p (take n xs) ≡ false
  any-take zero xs h = refl
  any-take (suc n) [] h = refl
  any-take (suc n) (x ∷ xs) h = ground (arith, any-take n xs)

module _ {ℓ κ} {A : Type ℓ} (P : A → Type κ) where
  pub All-insert :
      (first : A → A → Bool) (a : A) (xs : List A) → P a → All P xs → All P (insert first a xs)
  All-insert first a [] p h = (p, tt)
  All-insert first a (x ∷ xs) p (q, h) = placed (first x a) (All-insert first a xs p h)
    where
      placed :
          (b : Bool)
          → All P (insert first a xs)
          → All P (if b then x ∷ insert first a xs else a ∷ x ∷ xs)
      placed true r = (q, r)
      placed false r = (p, (q, h))

  pub All-sorted : (first : A → A → Bool) (xs : List A) → All P xs → All P (sorted first xs)
  All-sorted first [] h = tt
  All-sorted first (x ∷ xs) (p, h) = All-insert first x _ p (All-sorted first xs h)

  pub All-take : (n : ℕ) (xs : List A) → All P xs → All P (take n xs)
  All-take zero xs h = tt
  All-take (suc n) [] h = tt
  All-take (suc n) (x ∷ xs) (p, h) = (p, All-take n xs h)

  pub All-filter :
      (q : A → Bool) (xs : List A) → ((a : A) → IsIn a xs → q a ≡ true → P a) → All P (filter q xs)
  All-filter q [] f = tt
  All-filter q (x ∷ xs) f = kept (q x) refl (All-filter q xs (λ a m e. f a (in_tail m) e))
    where
      kept :
          (b : Bool)
          → q x ≡ b
          → All P (filter q xs)
          → All P (if b then x ∷ filter q xs else filter q xs)
      kept true e r = (f x (at_head refl) e, r)
      kept false e r = r

-- A condition that some row meets.
pub affected-IsIn {ℓ} :
    {A : Type ℓ} (p : A → Bool) (xs : List A)
    → (affected p xs == 0) ≡ false
    → (a : A) × IsIn a xs × (p a ≡ true)
affected-IsIn p [] h = cc
affected-IsIn {A = A} p (x ∷ xs) h = split (p x) refl h (affected-IsIn p xs)
  where
    split :
        (b : Bool)
        → p x ≡ b
        → ((if b then 1 else 0) + affected p xs == 0) ≡ false
        → ((affected p xs == 0) ≡ false → (a : A) × IsIn a xs × (p a ≡ true))
        → (a : A) × IsIn a (x ∷ xs) × (p a ≡ true)
    split true e k rest = (x, at_head refl, e)
    split false e k rest = let (a, m, t) = rest (ground arith) in (a, in_tail m, t)
