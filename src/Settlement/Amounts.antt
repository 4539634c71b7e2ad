-- ===== src/Settlement/Amounts.antt =====
-- The amount of an order is the amount that is settled: `parseStroops` reads what `Stroops.String`
-- wrote, with the zeros that a NUMERIC column adds.
use kailo_be.Prelude.{
  ℕ, zero, suc, ◌+◌, ◌*◌, ◌/◌, ◌%◌, ◌^◌, ◌<◌, ◌≡◌, refl, sym, ap, ◌∙◌, arith, Bool, true, not, ◌||◌,
  [], ◌∷◌, ◌++◌, all, replicate, length, length-append, length-replicate, all-append, append_assoc,
  if◌then◌else◌,
}
use native.Mathlib.Nat.{pow-suc, mul_comm, mul_assoc, mul-div_cancel, one-le-pow, mul-mod_left}
use kailo_be.Prelude.Int.{ℤ, pos, two_63}
use kailo_be.Prelude.Errors.{Result, ok, err, text}
use kailo_be.Amount.{
  Bytes, digits, fixed_digits, stroops_string, cut_point, value_from, is_digit, is_empty,
}
use kailo_be.Amount.Digits.{
  value_from-append, all-digits, all-fixed_digits, length-fixed_digits, cut_point-digits,
}
use kailo_be.Amount.RoundTrip.{value_from-places, value_from-replicate}
use kailo_be.Settlement.{stroops_of, parse_number, parse_stroops}

pow_seven : (k : ℕ) → 10 ^ (7 + k) ≡ 10_000_000 * 10 ^ k
pow_seven zero = omega arith
pow_seven (suc k) =
    let g : 7 + suc k ≡ suc (7 + k) = omega arith in
    let e : 10 ^ suc (7 + k) ≡ 10 * 10 ^ (7 + k) = simp (pow-suc, mul_comm) in
    let f : 10 ^ suc k ≡ 10 * 10 ^ k = simp (pow-suc, mul_comm) in
    ap (λ (m : ℕ). 10 ^ m) g ∙ omega (arith, e, f, pow_seven k)

all-replicate : (k : ℕ) → all is_digit (replicate k b'0') ≡ true
all-replicate zero = refl
all-replicate (suc k) = ground (arith, all-replicate k)

-- The value of the digits over the unit of their places.
stroops_of-scaled :
    (n d : ℕ) → 0 < n → 0 < d → n < two_63 → stroops_of (n * d) (10_000_000 * d) ≡ ok (pos n)
stroops_of-scaled n d p q h =
    let unit : 0 < 10_000_000 * d = omega arith in
    let scaled : n * d * 10_000_000 ≡ n * (10_000_000 * d) =
      mul_assoc n d 10_000_000 ∙ ap (λ (t : ℕ). n * t) (mul_comm d 10_000_000) in
    let some_value : 0 < n * d = grind arith in
    rw scaled (rw (mul-mod_left n (10_000_000 * d), mul-div_cancel n unit) (ground arith))

parse_number-digits :
    (whole fraction : Bytes)
    → all is_digit (whole ++ fraction) ≡ true
    → 0 < length (whole ++ fraction)
    → parse_number whole fraction
      ≡ stroops_of (value_from 0 (whole ++ fraction)) (10 ^ length fraction)
parse_number-digits whole fraction h l = rw h (some_digits (whole ++ fraction) l)
  where
    some_digits :
        (s : Bytes)
        → 0 < length s
        → (if is_empty s || not true
            then err (text "invalid settlement amount")
            else stroops_of (value_from 0 s) (10 ^ length fraction))
          ≡ stroops_of (value_from 0 s) (10 ^ length fraction)
    some_digits [] l = absurd (omega arith)
    some_digits (c ∷ s) l = refl

-- Seven places, and the zeros behind them.
parse_number-padded :
    (whole places : Bytes) (n k : ℕ)
    → all is_digit whole ≡ true
    → all is_digit places ≡ true
    → length places ≡ 7
    → value_from 0 (whole ++ places) ≡ n
    → 0 < n
    → n < two_63
    → parse_number whole (places ++ replicate k b'0') ≡ ok (pos n)
parse_number-padded whole places n k hw hp seven value p h =
    parse_number-digits whole (places ++ replicate k b'0')
      (all-append is_digit whole (places ++ replicate k b'0') hw
        (all-append is_digit places (replicate k b'0') hp (all-replicate k)))
      (omega (arith, length-append whole (places ++ replicate k b'0'), long))
    ∙ ap (λ (v : ℕ). stroops_of v (10 ^ length (places ++ replicate k b'0'))) padded
    ∙ ap (stroops_of (n * 10 ^ k)) (ap (λ (l : ℕ). 10 ^ l) long ∙ pow_seven k)
    ∙ stroops_of-scaled n (10 ^ k) p (one-le-pow k 10 (omega arith)) h
  where
    long : length (places ++ replicate k b'0') ≡ 7 + k
    long =
        omega
          (arith, length-append places (replicate k b'0'), length-replicate {A = ℕ} k b'0', seven)

    padded : value_from 0 (whole ++ (places ++ replicate k b'0')) ≡ n * 10 ^ k
    padded =
        ap (value_from 0) (sym (append_assoc whole places (replicate k b'0')))
        ∙ value_from-append 0 (whole ++ places) (replicate k b'0')
        ∙ value_from-replicate k (value_from 0 (whole ++ places))
        ∙ ap (λ (v : ℕ). v * 10 ^ k) value

-- The amount that the settlement pays is the one that the order stores, whatever number of zeros
-- the column adds behind it: a positive int64 amount that is printed with seven places, and padded,
-- is parsed back to itself.
pub parse_stroops-stroops_string :
    (n k : ℕ)
    → 0 < n
    → n < two_63
    → parse_stroops (stroops_string (pos n) ++ replicate k b'0') ≡ ok (pos n)
unfolding parse_stroops stroops_string
parse_stroops-stroops_string n k p h =
    ap read cut
    ∙ parse_number-padded whole places n k (all-digits _ _) (all-fixed_digits _ _)
        (length-fixed_digits _ _) (value_from-places n) p h
  where
    whole : Bytes
    whole = digits (suc (n / 10_000_000)) (n / 10_000_000)

    places : Bytes
    places = fixed_digits 7 (n % 10_000_000)

    read : Bytes × Bytes × Bool → Result ℤ
    read (w, f, point) = parse_number w f

    cut :
        cut_point ((whole ++ b'.' ∷ places) ++ replicate k b'0')
        ≡ (whole, places ++ replicate k b'0', true)
    cut =
        ap cut_point (append_assoc whole (b'.' ∷ places) (replicate k b'0'))
        ∙ cut_point-digits whole (places ++ replicate k b'0') (all-digits _ _)
