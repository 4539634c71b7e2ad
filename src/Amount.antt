-- ===== src/Amount.antt =====
-- internal/entity/amount.go, and `parseDecimalStroops` of internal/usecase/offramp_usecase.go.
-- An amount is an int64: an integer whose range the theorems state. A Go string that is walked is
-- the list of its bytes.
pub mod Digits
pub mod RoundTrip
mod Tests
use kailo_be.Prelude.{
  ℕ, zero, suc, ◌+◌, ◌-◌, ◌*◌, ◌/◌, ◌%◌, String, code, List, [], ◌∷◌, ◌++◌, Bool, true, false, ◌&&◌,
  ◌||◌, Option, none, some, ltb, leb, ◌==◌, if◌then◌else◌, length, replicate, all, not,
}
use kailo_be.Prelude.Int.{ℤ, pos, negsuc, leb_ℤ, two_63}
use kailo_be.Prelude.Errors.{Error, invalid_amount, text, Result, ok, err, ◌>>=◌, ◌>>◌, fail_if}

abbrev pub Bytes : Type 0
Bytes = List ℕ

-- The code points of a text: its bytes, if it is ASCII.
abbrev pub codes : String → Bytes
codes String.[] = []
codes (String.◌∷◌ c s) = code c ∷ codes s

abbrev pub stroops_per_xlm : ℕ
stroops_per_xlm = 10_000_000

-- `IDR.Validate` and `Stroops.Validate`; none is nil.
unfoldable pub validate_idr : ℤ → Option Error
validate_idr amount = if leb_ℤ amount (pos 0) then some invalid_amount else none

unfoldable pub validate_stroops : ℤ → Option Error
validate_stroops amount = if leb_ℤ amount (pos 0) then some invalid_amount else none

abbrev pub is_digit : ℕ → Bool
is_digit c = leb b'0' c && leb c b'9'

-- The decimal digits of a number, by rounds of division by ten; `suc n` rounds are enough.
unfoldable pub digits : ℕ → ℕ → Bytes
digits zero n = []
digits (suc f) n =
    let front = digits f (n / 10) in
    if ltb n 10 then (b'0' + n) ∷ [] else front ++ (b'0' + n % 10) ∷ []

-- The last w decimal digits of a number.
unfoldable pub fixed_digits : ℕ → ℕ → Bytes
fixed_digits zero n = []
fixed_digits (suc w) n = fixed_digits w (n / 10) ++ (b'0' + n % 10) ∷ []

-- `%d` and `%07d`. The sign is one of the seven places; the callers' fractions have at most seven
-- digits, and at most six places are left for those of a negative one, so the width then grows.
abbrev pub format_int : ℤ → Bytes
format_int (pos n) = digits (suc n) n
format_int (negsuc n) = b'-' ∷ digits (suc (suc n)) (suc n)

abbrev pub format_int_07 : ℤ → Bytes
format_int_07 (pos n) = fixed_digits 7 n
format_int_07 (negsuc n) =
    b'-' ∷ (if ltb (suc n) 1_000_000 then fixed_digits 6 (suc n) else fixed_digits 7 (suc n))

-- Go's `/` and `%` on int64 by a positive divisor: they cut towards zero.
abbrev pub quotient : ℤ → ℕ → ℤ
quotient (pos n) d = pos (n / d)
quotient (negsuc n) d = if suc n / d == 0 then pos 0 else negsuc (suc n / d - 1)

abbrev pub remainder : ℤ → ℕ → ℤ
remainder (pos n) d = pos (n % d)
remainder (negsuc n) d = if suc n % d == 0 then pos 0 else negsuc (suc n % d - 1)

-- `Stroops.String`.
unfoldable pub stroops_string : ℤ → Bytes
stroops_string amount =
    format_int (quotient amount stroops_per_xlm)
    ++ b'.' ∷ format_int_07 (remainder amount stroops_per_xlm)

-- `strings.Cut(value, ".")`, with what it returns when there is no point.
unfoldable pub cut_point : Bytes → Bytes × Bytes × Bool
cut_point [] = ([], [], false)
cut_point (c ∷ s) =
    let (whole, fraction, found) = cut_point s in
    if c == b'.' then ([], s, true) else (c ∷ whole, fraction, found)

-- The number that decimal digits spell, and `big.Int.SetString(s, 10)` on a text without a sign.
unfoldable pub value_from : ℕ → Bytes → ℕ
value_from n [] = n
value_from n (c ∷ s) = value_from (n * 10 + (c - b'0')) s

abbrev pub is_empty : Bytes → Bool
is_empty [] = true
is_empty (c ∷ s) = false

abbrev pub set_string : Bytes → Option ℕ
set_string s = if is_empty s || not (all is_digit s) then none else some (value_from 0 s)

-- `len(whole) > 0 && whole[0] == '0' && len(whole) > 1`.
abbrev pub leads_zero : Bytes → Bool
leads_zero [] = false
leads_zero (c ∷ []) = false
leads_zero (c ∷ d ∷ s) = c == b'0'

-- The last lines of `parseDecimalStroops`: `!ok || !number.IsInt64() || number.Sign() <= 0`.
abbrev pub in_range : Option ℕ → Result ℤ
in_range none = err (text "XLM amount out of range")
in_range (some n) =
    if leb two_63 n || n == 0 then err (text "XLM amount out of range") else ok (pos n)

-- The checks of `parseDecimalStroops` behind `strings.Cut`, in its order. A character of the loop
-- that is no digit has a byte that is none, and the other way round.
unfoldable pub parse_parts : Bytes → Bytes → Result ℤ
parse_parts whole fraction = do
  fail_if (is_empty whole && is_empty fraction) (text "empty XLM amount")
  fail_if (ltb 7 (length fraction)) (text "more than stroop precision")
  fail_if (not (all is_digit (whole ++ fraction))) (text "non-numeric XLM amount")
  fail_if (leads_zero whole) (text "leading zero in XLM amount")
  in_range (set_string (whole ++ fraction ++ replicate (7 - length fraction) b'0'))

-- `parseDecimalStroops`.
unfoldable pub parse_decimal_stroops : Bytes → Result ℤ
unfolding parse_parts
parse_decimal_stroops value =
    let (whole, fraction, found) = cut_point value in
    parse_parts whole (if found then fraction else [])
