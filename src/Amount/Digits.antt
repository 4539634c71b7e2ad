-- ===== src/Amount/Digits.antt =====
-- Decimal digits: what is printed is read back, and holds digits alone.
use kailo_be.Prelude.{
  ℕ, zero, suc, ◌+◌, ◌-◌, ◌*◌, ◌/◌, ◌%◌, ◌^◌, ◌<◌, ◌≡◌, refl, ap, [], ◌∷◌, ◌++◌, true, false, arith,
  all, all-append, length, length-append, Bool-cases, inl, inr, ltb,
}
use native.Mathlib.Nat.{pow-suc, mul_comm}
use kailo_be.Amount.{Bytes, is_digit, digits, fixed_digits, value_from, leads_zero, cut_point}

pub value_from-append :
    (n : ℕ) (xs ys : Bytes) → value_from n (xs ++ ys) ≡ value_from (value_from n xs) ys
unfolding value_from
value_from-append n [] ys = refl
value_from-append n (c ∷ xs) ys = value_from-append (n * 10 + (c - b'0')) xs ys

value_from-snoc :
    (n : ℕ) (xs : Bytes) (d : ℕ) → value_from n (xs ++ (b'0' + d) ∷ []) ≡ value_from n xs * 10 + d
unfolding value_from
value_from-snoc n [] d = omega arith
value_from-snoc n (c ∷ xs) d = value_from-snoc (n * 10 + (c - b'0')) xs d

-- With more rounds than the number, its digits spell it.
pub value_from-digits : (f n : ℕ) → n < f → value_from 0 (digits f n) ≡ n
unfolding digits
value_from-digits zero n h = elim h [ ]
value_from-digits (suc f) n h = elim (Bool-cases (ltb n 10)) [
  | inl one ↦ rw one (unfold value_from in omega arith)
  | inr more ↦ rw (more, value_from-snoc, value_from-digits f (n / 10) (ground arith)) (omega arith)
]

pub all-digits : (f n : ℕ) → all is_digit (digits f n) ≡ true
unfolding digits
all-digits zero n = refl
all-digits (suc f) n =
    ground
      (arith, all-append is_digit (digits f (n / 10)) ((b'0' + n % 10) ∷ []), all-digits f (n / 10))

-- The digits of a positive number do not begin with a zero.
digits-head : (f n : ℕ) → n < f → 0 < n → (c : ℕ) × (s : Bytes) × (digits f n ≡ c ∷ s) × (b'0' < c)
unfolding digits
digits-head zero n h p = elim h [ ]
digits-head (suc f) n h p = elim (Bool-cases (ltb n 10)) [
  | inl one ↦ (b'0' + n, [], rw one, omega arith)
  | inr more ↦
      let (c, s, e, big) = digits-head f (n / 10) (ground arith) (ground arith) in
      (c, s ++ (b'0' + n % 10) ∷ [], rw (more, e), big)
]

leads_zero-big : (c : ℕ) (s : Bytes) → b'0' < c → leads_zero (c ∷ s) ≡ false
leads_zero-big c [] h = refl
leads_zero-big c (d ∷ s) h = ground arith

pub leads_zero-digits : (n : ℕ) → leads_zero (digits (suc n) n) ≡ false
leads_zero-digits zero = unfold digits in refl
leads_zero-digits (suc n) =
    let (c, s, e, big) = digits-head (suc (suc n)) (suc n) (omega arith) (omega arith) in
    rw e (leads_zero-big c s big)

pub value_from-fixed_digits :
    (w n acc : ℕ) → n < 10 ^ w → value_from acc (fixed_digits w n) ≡ acc * 10 ^ w + n
unfolding fixed_digits
value_from-fixed_digits zero n acc h = unfold value_from in omega arith
value_from-fixed_digits (suc w) n acc h =
    let e : 10 ^ suc w ≡ 10 * 10 ^ w = simp (pow-suc, mul_comm) in
    let lt : n / 10 < 10 ^ w = omega arith in
    rw (value_from-snoc, value_from-fixed_digits w (n / 10) acc lt)
      (omega (arith, ap (λ (t : ℕ). acc * t) e))

pub all-fixed_digits : (w n : ℕ) → all is_digit (fixed_digits w n) ≡ true
unfolding fixed_digits
all-fixed_digits zero n = refl
all-fixed_digits (suc w) n =
    all-append is_digit (fixed_digits w (n / 10)) ((b'0' + n % 10) ∷ [])
      (all-fixed_digits w (n / 10)) (ground arith)

pub length-fixed_digits : (w n : ℕ) → length (fixed_digits w n) ≡ w
unfolding fixed_digits
length-fixed_digits zero n = refl
length-fixed_digits (suc w) n = omega (
  arith,
  length-append (fixed_digits w (n / 10)) ((b'0' + n % 10) ∷ []),
  length-fixed_digits w (n / 10),
)

-- A text of digits is cut at the point behind it.
pub cut_point-digits :
    (xs ys : Bytes) → all is_digit xs ≡ true → cut_point (xs ++ b'.' ∷ ys) ≡ (xs, ys, true)
unfolding cut_point
cut_point-digits [] ys h = refl
cut_point-digits (c ∷ xs) ys h = ground (arith, cut_point-digits xs ys)
