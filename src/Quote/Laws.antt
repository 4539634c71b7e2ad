-- ===== src/Quote/Laws.antt =====
-- What a quote of internal/usecase/onramp_quote_usecase.go promises, whatever the text of the price.
use kailo_be.Prelude.{ℕ, ◌+◌, ◌*◌, ◌≤◌, ◌<◌, ◌≡◌, arith, false, ◌-◌, ◌⊎◌, inl, inr}
use kailo_be.Prelude.Int.{ℤ, pos, pos_part, two_63, ◌≤ℤ◌}
use kailo_be.Prelude.Errors.{ok}
use kailo_be.Prelude.Time.{Instant, add, minute}
use kailo_be.Quote.{
  RatReader, MarketPrice, Quote, QuotePolicy, Ratio, adjust, bad_policy, is_stale, stroops_for,
  idr_for, create, create_reverse,
}
use kailo_be.Quote.Rounding.{stroops_for_bounds, idr_for_bounds, idr_for-stroops_for}
use kailo_be.Quote.Priced.{rate_of, rate_of-pos, adjust-pos, create-IsBuy, create_reverse-IsSell}

fresh_lem :
    (p : QuotePolicy) (now observed : Instant) {source expires : Instant}
    → pos_part p.max_age < two_63 - 1
    → bad_policy p ≡ false
    → is_stale p now observed ≡ false
    → source ≡ observed
    → expires ≡ add now p.ttl
    → (0 < observed)
      × (observed ≤ now + minute)
      × (now ≤ observed + pos_part p.max_age)
      × (source ≡ observed)
      × (expires ≡ now + pos_part p.ttl)
fresh_lem p now observed long policy fresh e f = ground arith

module _ (reader : RatReader) where
  -- A buy quote that is given is for the whole amount paid, priced at the adjusted rate and rounded
  -- down to a whole stroop: the stroops cost no more than the amount, one stroop more would cost
  -- more, and the number is a positive int64.
  pub create_rounds_down :
      (p : QuotePolicy) (now : Instant) (a : ℤ) (m : MarketPrice) {q : Quote}
      → create reader p now a m ≡ ok q
      → (n s : ℕ) × (r : Ratio) × (a ≡ pos n)
        × (q.fiat_amount ≡ pos n)
        × (q.asset_amount ≡ pos s)
        × (rate_of reader m ≡ ok r)
        × (0 < s)
        × (s < two_63)
        × (s * (adjust r p.spread_bps).num ≤ n * 10_000_000 * (adjust r p.spread_bps).den)
        × (n * 10_000_000 * (adjust r p.spread_bps).den < (s + 1) * (adjust r p.spread_bps).num)
  create_rounds_down p now a m h =
      let (n, r, b) = create-IsBuy reader p now a m h in
      let (num, den) = rate_of-pos reader m r b.read in
      let (fits, most) =
        stroops_for_bounds n (adjust r p.spread_bps) (adjust-pos reader r p.spread_bps num den).0 in
      (
        n,
        stroops_for n (adjust r p.spread_bps),
        r,
        b.amount,
        b.fiat,
        b.asset,
        b.read,
        b.low,
        b.high,
        fits,
        most,
      )

  -- The same of a sell quote, in whole minor units of money: the payout is never above the value of
  -- the stroops at the adjusted rate, and less than one unit below it.
  pub create_reverse_rounds_down :
      (p : QuotePolicy) (now : Instant) (a : ℤ) (m : MarketPrice) {q : Quote}
      → create_reverse reader p now a m ≡ ok q
      → (n i : ℕ) × (r : Ratio) × (a ≡ pos n)
        × (q.asset_amount ≡ pos n)
        × (q.fiat_amount ≡ pos i)
        × (rate_of reader m ≡ ok r)
        × (0 < i)
        × (i < two_63)
        × (i * ((adjust r p.spread_bps).den * 10_000_000) ≤ n * (adjust r p.spread_bps).num)
        × (n * (adjust r p.spread_bps).num < (i + 1) * ((adjust r p.spread_bps).den * 10_000_000))
  create_reverse_rounds_down p now a m h =
      let (n, r, b) = create_reverse-IsSell reader p now a m h in
      let (num, den) = rate_of-pos reader m r b.read in
      let (fits, most) =
        idr_for_bounds n (adjust r p.spread_bps) (adjust-pos reader r p.spread_bps num den).1 in
      (
        n,
        idr_for n (adjust r p.spread_bps),
        r,
        b.amount,
        b.asset,
        b.fiat,
        b.read,
        b.low,
        b.high,
        fits,
        most,
      )

  -- Selling at once what was bought, at the same price text and the same policy, pays back no more
  -- than was paid.
  pub create_reverse-create :
      (p : QuotePolicy) (now later : Instant) (a : ℤ) (m : MarketPrice) {bought sold : Quote}
      → create reader p now a m ≡ ok bought
      → create_reverse reader p later bought.asset_amount m ≡ ok sold
      → sold.fiat_amount ≤ℤ bought.fiat_amount
  create_reverse-create p now later a m {bought} hb hs =
      let (n, r, b) = create-IsBuy reader p now a m hb in
      let (k, r', s) = create_reverse-IsSell reader p later bought.asset_amount m hs in
      let (num, den) = rate_of-pos reader m r b.read in
      let (num', den') = adjust-pos reader r p.spread_bps num den in
      let same : r ≡ r' = cc (b.read, s.read) in
      let stroops : k ≡ stroops_for n (adjust r p.spread_bps) = cc (s.amount, b.asset) in
      let fits = idr_for-stroops_for n (adjust r p.spread_bps) num' den' in
      rw (s.fiat, b.fiat, stroops, ← same) (omega (arith, fits))

  -- A quote in either direction is priced from an observation that is not from the future, by more
  -- than a minute, nor older than the policy allows, if that is below the largest duration;
  -- it expires when the policy's time to live has passed.
  pub create_fresh :
      (p : QuotePolicy) (now : Instant) (a : ℤ) (m : MarketPrice) {q : Quote}
      → pos_part p.max_age < two_63 - 1
      → (create reader p now a m ≡ ok q) ⊎ (create_reverse reader p now a m ≡ ok q)
      → (0 < m.observed_at)
        × (m.observed_at ≤ now + minute)
        × (now ≤ m.observed_at + pos_part p.max_age)
        × (q.source_at ≡ m.observed_at)
        × (q.expires_at ≡ now + pos_part p.ttl)
  create_fresh p now a m long (inl h) =
      let (n, r, b) = create-IsBuy reader p now a m h in
      fresh_lem p now m.observed_at long b.policy b.fresh b.source b.expiry
  create_fresh p now a m long (inr h) =
      let (n, r, b) = create_reverse-IsSell reader p now a m h in
      fresh_lem p now m.observed_at long b.policy b.fresh b.source b.expiry
