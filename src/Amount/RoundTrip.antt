-- ===== src/Amount/RoundTrip.antt =====
-- Printing and parsing amounts: `Stroops.String` against `parseDecimalStroops`.
use native.Mathlib.Nat.{pow-suc, mul_comm}
use kailo_be.Prelude.{
  ℕ, zero, suc, ◌-◌, ◌*◌, ◌/◌, ◌%◌, ◌^◌, ◌<◌, ◌≤◌, ◌≡◌, refl, ap, ◌∙◌, [], ◌∷◌, ◌++◌, true, false,
  arith, all, all-append, length, replicate, append-nil, ltb, not, ◌&&◌, some, none, Option,
  if◌then◌else◌,
}
use kailo_be.Prelude.Int.{ℤ, pos, two_63}
use kailo_be.Prelude.Errors.{ok, fail_if-eq-ok}
use kailo_be.Amount.{
  Bytes, is_digit, is_empty, digits, fixed_digits, value_from, leads_zero, cut_point,
  stroops_string, parse_parts, parse_decimal_stroops, in_range, set_string,
}
use kailo_be.Amount.Digits.{
  value_from-append, value_from-digits, all-digits, leads_zero-digits, value_from-fixed_digits,
  all-fixed_digits, length-fixed_digits, cut_point-digits,
}

-- Digits with seven places behind the point pass every check but the range.
parse_parts-seven :
    (whole fraction : Bytes)
    → all is_digit (whole ++ fraction) ≡ true
    → leads_zero whole ≡ false
    → length fraction ≡ 7
    → parse_parts whole fraction ≡ in_range (some (value_from 0 (whole ++ fraction)))
unfolding parse_parts
parse_parts-seven whole [] d z l = absurd (omega arith)
parse_parts-seven [] (c ∷ s) d z l = rw (l, append-nil, d) refl
parse_parts-seven (w ∷ ws) (c ∷ s) d z l = rw (l, append-nil, d, z) refl

pub value_from-places :
    (n : ℕ)
    → value_from 0
        (digits (suc (n / 10_000_000)) (n / 10_000_000) ++ fixed_digits 7 (n % 10_000_000))
      ≡ n
value_from-places n =
    rw
      (
        value_from-append,
        value_from-digits (suc (n / 10_000_000)) (n / 10_000_000) (omega arith),
        value_from-fixed_digits 7 (n % 10_000_000) (n / 10_000_000) (omega arith),
      )
      (omega arith)

in_range-some : (n : ℕ) → 0 < n → n < two_63 → in_range (some n) ≡ ok (pos n)
in_range-some n p h = ground arith

-- A positive int64 amount that is printed with seven places is parsed back to itself.
pub parse_decimal_stroops-stroops_string :
    (n : ℕ) → 0 < n → n < two_63 → parse_decimal_stroops (stroops_string (pos n)) ≡ ok (pos n)
unfolding parse_decimal_stroops stroops_string
parse_decimal_stroops-stroops_string n p h =
    rw
      (cut_point-digits (digits (suc (n / 10_000_000)) (n / 10_000_000)) _
        (all-digits (suc (n / 10_000_000)) (n / 10_000_000)))
      (parse_parts-seven (digits (suc (n / 10_000_000)) (n / 10_000_000))
          (fixed_digits 7 (n % 10_000_000))
          (all-append is_digit (digits (suc (n / 10_000_000)) (n / 10_000_000))
            (fixed_digits 7 (n % 10_000_000)) (all-digits (suc (n / 10_000_000)) (n / 10_000_000))
            (all-fixed_digits 7 (n % 10_000_000)))
          (leads_zero-digits (n / 10_000_000)) (length-fixed_digits 7 (n % 10_000_000))
        ∙ ap (λ (m : ℕ). in_range (some m)) (value_from-places n)
        ∙ in_range-some n p h)

pub value_from-replicate : (k n : ℕ) → value_from n (replicate k b'0') ≡ n * 10 ^ k
unfolding value_from
value_from-replicate zero n = omega arith
value_from-replicate (suc k) n =
    let e : 10 ^ suc k ≡ 10 * 10 ^ k = simp (pow-suc, mul_comm) in
    rw (value_from-replicate k) (omega (arith, ap (λ (t : ℕ). n * t) e))

value_from-padded :
    (s : Bytes) (k : ℕ) → value_from 0 (s ++ replicate k b'0') ≡ value_from 0 s * 10 ^ k
value_from-padded s k = rw (value_from-append, value_from-replicate)

set_string-eq-some :
    (s : Bytes) {n : ℕ} → set_string s ≡ some n → (all is_digit s ≡ true) × (n ≡ value_from 0 s)
set_string-eq-some s h = ground arith

in_range-eq-ok :
    (o : Option ℕ) {v : ℤ}
    → in_range o ≡ ok v
    → (n : ℕ) × (o ≡ some n) × (v ≡ pos n) × (0 < n) × (n < two_63)
in_range-eq-ok none h = cc
in_range-eq-ok (some n) h = (n, refl, ground arith, ground arith, ground arith)

-- What the code accepts is digits with at most seven behind the point, and the amount is what they
-- spell, padded to seven places.
abbrev pub IsExact : Bytes → Bytes → ℤ → Type 0
IsExact whole fraction v =
    (length fraction ≤ 7)
    × (all is_digit (whole ++ fraction) ≡ true)
    × (leads_zero whole ≡ false)
    × (v ≡ pos (value_from 0 (whole ++ fraction) * 10 ^ (7 - length fraction)))

parse_parts-IsExact :
    (whole fraction : Bytes) {v : ℤ}
    → parse_parts whole fraction ≡ ok v
    → IsExact whole fraction v × (n : ℕ) × (v ≡ pos n) × (0 < n) × (n < two_63)
unfolding parse_parts
parse_parts-IsExact whole fraction h =
    let a = fail_if-eq-ok (is_empty whole && is_empty fraction) _ h in
    let b = fail_if-eq-ok (ltb 7 (length fraction)) _ a.1 in
    let c = fail_if-eq-ok (not (all is_digit (whole ++ fraction))) _ b.1 in
    let d = fail_if-eq-ok (leads_zero whole) _ c.1 in
    let (n, e, v_n, low, high) = in_range-eq-ok _ d.1 in
    let (digits_only, spelt) = set_string-eq-some _ e in
    (
      (
        ground arith,
        ground arith,
        d.0,
        v_n ∙ ap pos (spelt ∙ value_from-padded (whole ++ fraction) _),
      ),
      n,
      v_n,
      low,
      high,
    )

-- A text that is accepted gives a positive int64, and exactly the amount that its digits mean:
-- they hold at most seven places and no leading zero, and nothing is rounded.
pub parse_decimal_stroops-IsExact :
    (s : Bytes) {v : ℤ}
    → parse_decimal_stroops s ≡ ok v
    → let (whole, fraction, found) = cut_point s in
      IsExact whole (if found then fraction else []) v
      × (n : ℕ) × (v ≡ pos n)
      × (0 < n)
      × (n < two_63)
unfolding parse_decimal_stroops
parse_decimal_stroops-IsExact s h = parse_parts-IsExact _ _ h
