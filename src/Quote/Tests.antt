-- ===== src/Quote/Tests.antt =====
-- Runs of the quote policy, with a reader of whole prices.
use kailo_be.Prelude.{
  ℕ, ◌+◌, ◌*◌, ◌<◌, ◌≤◌, ◌≡◌, ◌||◌, refl, arith, if◌then◌else◌, String, Option, some, none, all,
  not, inl,
}
use kailo_be.Prelude.Int.{pos, two_63, ◌≤ℤ◌}
use kailo_be.Prelude.Errors.{ok, err, stale_price}
use kailo_be.Prelude.Text.{trim_space}
use kailo_be.Prelude.Time.{minute}
use kailo_be.Amount.{
  codes, is_digit, is_empty, value_from, digits, fixed_digits, validate_idr, validate_stroops,
}
use kailo_be.Quote.{
  Rat, RatReader, MarketPrice, Quote, QuotePolicy, Ratio, adjust, decimal, stroops_for, idr_for,
  buy_quote, create, create_reverse,
}
use kailo_be.Quote.Priced.{rate_of}
use kailo_be.Quote.Laws.{
  create_rounds_down, create_reverse_rounds_down, create_reverse-create, create_fresh,
}

whole_number : String → Option Rat
whole_number s =
    if is_empty (codes s) || not (all is_digit (codes s))
    then none
    else some (record { num = pos (value_from 0 (codes s)); den = 1 })

whole_number-den : (s : String) (r : Rat) → whole_number s ≡ some r → 0 < r.den
unfolding whole_number
whole_number-den s r h = ground arith

abbrev whole_reader : RatReader
whole_reader = record { set_string = whole_number; den_pos = whole_number-den }

abbrev policy : QuotePolicy
policy = record { ttl = pos 900_000_000_000; max_age = pos 300_000_000_000; spread_bps = pos 100 }

abbrev market : MarketPrice
market = record { idr_per_xlm = " 4000 "; observed_at = 1_000_000_000_000 }

abbrev now : ℕ
now = 1_200_000_000_000

abbrev later : ℕ
later = 1_250_000_000_000

-- 100000 at 4000 and 1%: 100000 * 10^7 / 4040.
abbrev bought : Quote
bought = buy_quote policy now (pos 100_000) market (record { num = 4000; den = 1 }) 247_524_752

create-bought : create whole_reader policy now (pos 100_000) market ≡ ok bought
unfolding create whole_number trim_space value_from adjust stroops_for validate_idr
create-bought = refl

rates : (bought.rate ≡ codes "4000") × (bought.adjusted_rate ≡ codes "4040")
unfolding decimal adjust digits fixed_digits
rates = (refl, refl)

too_old : create whole_reader policy 2_000_000_000_000 (pos 100_000) market ≡ err stale_price
unfolding create whole_number trim_space value_from adjust stroops_for validate_idr
too_old = refl

create_rounds_down_example :
    (n s : ℕ) × (r : Ratio) × (pos 100_000 ≡ pos n)
    × (bought.fiat_amount ≡ pos n)
    × (bought.asset_amount ≡ pos s)
    × (rate_of whole_reader market ≡ ok r)
    × (0 < s)
    × (s < two_63)
    × (s * (adjust r policy.spread_bps).num ≤ n * 10_000_000 * (adjust r policy.spread_bps).den)
    × (n * 10_000_000 * (adjust r policy.spread_bps).den
        < (s + 1) * (adjust r policy.spread_bps).num)
create_rounds_down_example =
    create_rounds_down whole_reader policy now (pos 100_000) market create-bought

-- 247524752 stroops at 4040: a unit of money below what was paid.
abbrev sold : Quote
sold = record {
  fiat_amount = pos 99_999;
  asset_amount = pos 247_524_752;
  rate = bought.rate;
  adjusted_rate = bought.adjusted_rate;
  spread_bps = pos 100;
  source_at = market.observed_at;
  expires_at = 2_150_000_000_000;
}

create_reverse-sold : create_reverse whole_reader policy later (pos 247_524_752) market ≡ ok sold
unfolding create_reverse whole_number trim_space value_from adjust idr_for validate_stroops
create_reverse-sold = refl

create_reverse_rounds_down_example :
    (n i : ℕ) × (r : Ratio) × (pos 247_524_752 ≡ pos n)
    × (sold.asset_amount ≡ pos n)
    × (sold.fiat_amount ≡ pos i)
    × (rate_of whole_reader market ≡ ok r)
    × (0 < i)
    × (i < two_63)
    × (i * ((adjust r policy.spread_bps).den * 10_000_000) ≤ n * (adjust r policy.spread_bps).num)
    × (n * (adjust r policy.spread_bps).num
        < (i + 1) * ((adjust r policy.spread_bps).den * 10_000_000))
create_reverse_rounds_down_example =
    create_reverse_rounds_down whole_reader policy later (pos 247_524_752) market
      create_reverse-sold

create_reverse-create_example : pos 99_999 ≤ℤ pos 100_000
create_reverse-create_example =
    create_reverse-create whole_reader policy now later (pos 100_000) market create-bought
      create_reverse-sold

create_fresh_example :
    (0 < 1_000_000_000_000)
    × (1_000_000_000_000 ≤ now + minute)
    × (now ≤ 1_000_000_000_000 + 300_000_000_000)
    × (bought.source_at ≡ market.observed_at)
    × (bought.expires_at ≡ now + 900_000_000_000)
create_fresh_example =
    create_fresh whole_reader policy now (pos 100_000) market (omega arith) (inl create-bought)
