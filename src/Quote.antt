-- ===== src/Quote.antt =====
-- internal/usecase/onramp_quote_usecase.go: pricing an order in both directions with exact
-- rationals. `big.Rat.SetString`, whose grammar also has fractions, exponents and prefixes, is a
-- parameter; a rational is a fraction whose denominator it promises to be positive.
pub mod Rounding
pub mod Priced
pub mod Laws
mod Tests
use kailo_be.Prelude.{
  ℕ, zero, suc, ◌+◌, ◌-◌, ◌*◌, ◌/◌, ◌%◌, ◌^◌, ◌<◌, String, List, [], ◌∷◌, ◌++◌, Bool, true, false,
  ◌||◌, ◌&&◌, Option, none, some, ltb, leb, ◌==◌, if◌then◌else◌, is_some, ◌≡◌,
}
use kailo_be.Prelude.Int.{ℤ, pos, negsuc, pos_part, leb_ℤ, ltb_ℤ, two_63}
use kailo_be.Prelude.Errors.{
  Error, invalid_quote, stale_price, invalid_price, Result, ok, err, ◌>>=◌, ◌>>◌, fail_if,
}
use kailo_be.Prelude.Text.{trim_space}
use kailo_be.Prelude.Time.{Instant, add, sub, after, is_zero, minute}
use kailo_be.Amount.{Bytes, digits, fixed_digits, validate_idr, validate_stroops, stroops_per_xlm}

-- A `big.Rat`, perhaps not in lowest terms: the quotients below are the same for every fraction
-- that has its value.
pub record Rat : Type 0 where
  pub num : ℤ
  pub den : ℕ

-- `big.Rat.SetString`: none for a text that is no number.
pub record RatReader : Type 0 where
  pub set_string : String → Option Rat
  pub den_pos : (s : String) (r : Rat) → set_string s ≡ some r → 0 < r.den

pub record MarketPrice : Type 0 where
  pub idr_per_xlm : String
  pub observed_at : Instant

pub record Quote : Type 0 where
  pub fiat_amount : ℤ
  pub asset_amount : ℤ
  pub rate : Bytes
  pub adjusted_rate : Bytes
  pub spread_bps : ℤ
  pub source_at : Instant
  pub expires_at : Instant

pub record QuotePolicy : Type 0 where
  pub ttl : ℤ
  pub max_age : ℤ
  pub spread_bps : ℤ

-- A `big.Rat` that is known to be positive.
pub record Ratio : Type 0 where
  pub num : ℕ
  pub den : ℕ

-- `new(big.Rat).Mul(rate, spreadMultiplier)`, with the spread between 0 and 10000.
unfoldable pub adjust : Ratio → ℤ → Ratio
adjust r bps = record { num = r.num * (10_000 + pos_part bps); den = r.den * 10_000 }

-- `value.FloatString(18)`: the last place is rounded half up.
unfoldable pub float_string : Ratio → Bytes
float_string r =
    let scaled = r.num % r.den * 10 ^ 18 in
    let places = scaled / r.den + (if leb r.den (2 * (scaled % r.den)) then 1 else 0) in
    let whole = r.num / r.den + (if leb (10 ^ 18) places then 1 else 0) in
    let rest = if leb (10 ^ 18) places then places - 10 ^ 18 else places in
    digits (suc whole) whole ++ b'.' ∷ fixed_digits 18 rest

-- A byte in front of what `strings.TrimRight` leaves of the text behind it.
trim_before : ℕ → ℕ → Bytes → Bytes
trim_before b c [] = if c == b then [] else c ∷ []
trim_before b c (d ∷ s) = c ∷ d ∷ s

-- `strings.TrimRight(s, b)` for one byte b.
unfoldable pub trim_right : Bytes → ℕ → Bytes
unfolding trim_before
trim_right [] b = []
trim_right (c ∷ s) b = trim_before b c (trim_right s b)

-- `decimal`.
unfoldable pub decimal : Ratio → Bytes
unfolding float_string trim_right
decimal r = trim_right (trim_right (float_string r) b'0') b'.'

-- `!ok || rate.Sign() <= 0`.
abbrev pub positive_rate : Option Rat → Result Ratio
positive_rate none = err invalid_price
positive_rate (some r) =
    if leb_ℤ r.num (pos 0)
    then err invalid_price
    else ok (record { num = pos_part r.num; den = r.den })

-- `!n.IsInt64() || n.Sign() <= 0` on a quotient that is not negative.
abbrev pub positive_int64 : ℕ → Result ℕ
positive_int64 n = if leb two_63 n || n == 0 then err invalid_quote else ok n

-- The first test of both functions, but for the amount.
abbrev pub bad_policy : QuotePolicy → Bool
bad_policy p =
    leb_ℤ p.ttl (pos 0)
    || leb_ℤ p.max_age (pos 0)
    || ltb_ℤ p.spread_bps (pos 0)
    || ltb_ℤ (pos 10_000) p.spread_bps

-- The second test of both functions.
abbrev pub is_stale : QuotePolicy → Instant → Instant → Bool
is_stale p now observed =
    is_zero observed || ltb_ℤ p.max_age (sub now observed) || after observed (add now (pos minute))

-- The stroops that an amount of money buys, and the money that stroops are worth, rounded down.
unfoldable pub stroops_for : ℕ → Ratio → ℕ
stroops_for amount r = amount * stroops_per_xlm * r.den / r.num

unfoldable pub idr_for : ℕ → Ratio → ℕ
idr_for stroops r = stroops * r.num / (r.den * stroops_per_xlm)

-- The quote that `Create` returns, and the one that `CreateReverse` returns.
abbrev pub buy_quote : QuotePolicy → Instant → ℤ → MarketPrice → Ratio → ℕ → Quote
buy_quote p now amount market rate stroops = record {
  fiat_amount = amount;
  asset_amount = pos stroops;
  rate = decimal rate;
  adjusted_rate = decimal (adjust rate p.spread_bps);
  spread_bps = p.spread_bps;
  source_at = market.observed_at;
  expires_at = add now p.ttl;
}

abbrev pub sell_quote : QuotePolicy → Instant → ℤ → MarketPrice → Ratio → ℕ → Quote
sell_quote p now asset_amount market rate idr_minor = record {
  fiat_amount = pos idr_minor;
  asset_amount = asset_amount;
  rate = decimal rate;
  adjusted_rate = decimal (adjust rate p.spread_bps);
  spread_bps = p.spread_bps;
  source_at = market.observed_at;
  expires_at = add now p.ttl;
}

module _ (reader : RatReader) where
  -- `QuotePolicy.Create`.
  unfoldable pub create : QuotePolicy → Instant → ℤ → MarketPrice → Result Quote
  create p now amount market = do
    fail_if (bad_policy p || is_some (validate_idr amount)) invalid_quote
    fail_if (is_stale p now market.observed_at) stale_price
    rate ← positive_rate (reader.set_string (trim_space market.idr_per_xlm))
    stroops ← positive_int64 (stroops_for (pos_part amount) (adjust rate p.spread_bps))
    ok (buy_quote p now amount market rate stroops)

  -- `QuotePolicy.CreateReverse`.
  unfoldable pub create_reverse : QuotePolicy → Instant → ℤ → MarketPrice → Result Quote
  create_reverse p now asset_amount market = do
    fail_if (bad_policy p || is_some (validate_stroops asset_amount)) invalid_quote
    fail_if (is_stale p now market.observed_at) stale_price
    rate ← positive_rate (reader.set_string (trim_space market.idr_per_xlm))
    idr_minor ← positive_int64 (idr_for (pos_part asset_amount) (adjust rate p.spread_bps))
    ok (sell_quote p now asset_amount market rate idr_minor)
