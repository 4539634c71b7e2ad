-- ===== src/Amount/Tests.antt =====
-- Runs of internal/entity/amount.go and of `parseDecimalStroops`, after their Go tests.
use kailo_be.Prelude.{ℕ, ◌<◌, ◌≡◌, refl, arith, some}
use kailo_be.Prelude.Int.{pos, negsuc, two_63}
use kailo_be.Prelude.Errors.{ok, err, text, invalid_amount}
use kailo_be.Amount.{
  codes, digits, fixed_digits, value_from, validate_idr, stroops_string, cut_point,
  parse_decimal_stroops,
}
use kailo_be.Amount.RoundTrip.{
  IsExact, parse_decimal_stroops-stroops_string, parse_decimal_stroops-IsExact,
}

printed : stroops_string (pos 12_345_678) ≡ codes "1.2345678"
unfolding stroops_string digits fixed_digits
printed = refl

printed_negative : stroops_string (negsuc 4) ≡ codes "0.-000005"
unfolding stroops_string digits fixed_digits
printed_negative = refl

parsed : parse_decimal_stroops (codes "1.5") ≡ ok (pos 15_000_000)
unfolding parse_decimal_stroops cut_point value_from
parsed = refl

leading_zero : parse_decimal_stroops (codes "01") ≡ err (text "leading zero in XLM amount")
unfolding parse_decimal_stroops cut_point value_from
leading_zero = refl

too_precise : parse_decimal_stroops (codes "0.00000001") ≡ err (text "more than stroop precision")
unfolding parse_decimal_stroops cut_point value_from
too_precise = refl

no_whole : parse_decimal_stroops (codes ".5") ≡ ok (pos 5_000_000)
unfolding parse_decimal_stroops cut_point value_from
no_whole = refl

refused : validate_idr (pos 0) ≡ some invalid_amount
unfolding validate_idr
refused = refl

parse_decimal_stroops-stroops_string_example :
    parse_decimal_stroops (stroops_string (pos 12_345_678)) ≡ ok (pos 12_345_678)
parse_decimal_stroops-stroops_string_example =
    parse_decimal_stroops-stroops_string 12_345_678 (omega arith) (omega arith)

parse_decimal_stroops-IsExact_example :
    IsExact (codes "1") (codes "5") (pos 15_000_000)
    × (n : ℕ) × (pos 15_000_000 ≡ pos n)
    × (0 < n)
    × (n < two_63)
unfolding cut_point value_from
parse_decimal_stroops-IsExact_example = parse_decimal_stroops-IsExact (codes "1.5") parsed
