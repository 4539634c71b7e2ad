-- ===== src/Quote/Priced.antt =====
-- What is known of a quote that `Create` or `CreateReverse` returned.
use kailo_be.Prelude.{
  ℕ, ◌<◌, ◌≡◌, refl, ap, ◌∙◌, arith, Bool, Option, none, some, is_some, false, ◌||◌,
}
use kailo_be.Prelude.Int.{ℤ, pos, negsuc, pos_part, two_63}
use kailo_be.Prelude.Errors.{Result, ok, fail_if-eq-ok, >>=-eq-ok}
use kailo_be.Prelude.Text.{trim_space}
use kailo_be.Prelude.Time.{Instant, add}
use kailo_be.Amount.{validate_idr, validate_stroops}
use kailo_be.Quote.{
  Rat, RatReader, MarketPrice, Quote, QuotePolicy, Ratio, adjust, positive_rate, positive_int64,
  bad_policy, buy_quote, sell_quote, is_stale, stroops_for, idr_for, create, create_reverse,
}

-- The rate that a market price stands for, once read.
abbrev pub rate_of : RatReader → MarketPrice → Result Ratio
rate_of reader market = positive_rate (reader.set_string (trim_space market.idr_per_xlm))

positive_rate-eq-ok :
    (o : Option Rat) (r : Ratio)
    → positive_rate o ≡ ok r
    → (x : Rat) × (o ≡ some x) × (r.den ≡ x.den) × (0 < r.num)
positive_rate-eq-ok none r h = cc
positive_rate-eq-ok (some x) r h = (x, refl, ground arith, ground arith)

positive_int64-eq-ok : (n : ℕ) {m : ℕ} → positive_int64 n ≡ ok m → (m ≡ n) × (0 < m) × (m < two_63)
positive_int64-eq-ok n h = (ground arith, ground arith, ground arith)

or-false_left : (a b : Bool) → a || b ≡ false → a ≡ false
or-false_left a b h = ground arith

or-false_right : (a b : Bool) → a || b ≡ false → b ≡ false
or-false_right a b h = ground arith

validate_idr-none : (a : ℤ) → is_some (validate_idr a) ≡ false → (n : ℕ) × (a ≡ pos n) × (0 < n)
unfolding validate_idr
validate_idr-none (pos n) h = (n, refl, ground arith)
validate_idr-none (negsuc n) h = absurd (ground arith)

validate_stroops-none :
    (a : ℤ) → is_some (validate_stroops a) ≡ false → (n : ℕ) × (a ≡ pos n) × (0 < n)
unfolding validate_stroops
validate_stroops-none (pos n) h = (n, refl, ground arith)
validate_stroops-none (negsuc n) h = absurd (ground arith)

module _ (reader : RatReader) where
  pub rate_of-pos :
      (m : MarketPrice) (r : Ratio) → rate_of reader m ≡ ok r → (0 < r.num) × (0 < r.den)
  rate_of-pos m r h =
      let (x, e, d, n) = positive_rate-eq-ok (reader.set_string (trim_space m.idr_per_xlm)) r h in
      (n, rw d (reader.den_pos _ x e))

  pub adjust-pos :
      (r : Ratio) (bps : ℤ)
      → 0 < r.num
      → 0 < r.den
      → (0 < (adjust r bps).num) × (0 < (adjust r bps).den)
  unfolding adjust
  adjust-pos r bps a b = (grind arith, omega arith)

  -- A buy quote for the amount n at the rate r: it is in range, fresh, and priced by `stroops_for`.
  pub record IsBuy (p : QuotePolicy) (now : Instant) (a : ℤ) (m : MarketPrice) (q : Quote) (n : ℕ)
      (r : Ratio) : Type 0 where
    pub amount : a ≡ pos n
    pub amount_pos : 0 < n
    pub policy : bad_policy p ≡ false
    pub fresh : is_stale p now m.observed_at ≡ false
    pub read : rate_of reader m ≡ ok r
    pub fiat : q.fiat_amount ≡ pos n
    pub asset : q.asset_amount ≡ pos (stroops_for n (adjust r p.spread_bps))
    pub low : 0 < stroops_for n (adjust r p.spread_bps)
    pub high : stroops_for n (adjust r p.spread_bps) < two_63
    pub source : q.source_at ≡ m.observed_at
    pub expiry : q.expires_at ≡ add now p.ttl

  pub create-IsBuy :
      (p : QuotePolicy) (now : Instant) (a : ℤ) (m : MarketPrice) {q : Quote}
      → create reader p now a m ≡ ok q
      → (n : ℕ) × (r : Ratio) × IsBuy p now a m q n r
  unfolding create
  create-IsBuy p now a m {q} h =
      let (guard, h1) = fail_if-eq-ok (bad_policy p || is_some (validate_idr a)) _ h in
      let (fresh, h2) = fail_if-eq-ok (is_stale p now m.observed_at) _ h1 in
      let (r, er, h3) = >>=-eq-ok (rate_of reader m) _ h2 in
      let value : ℕ = stroops_for (pos_part a) (adjust r p.spread_bps) in
      let (s, es, h4) = >>=-eq-ok (positive_int64 value) _ h3 in
      let (s_eq, low, high) = positive_int64-eq-ok value es in
      let (n, ea, n_pos) = validate_idr-none a (or-false_right (bad_policy p) _ guard) in
      let policy = or-false_left (bad_policy p) _ guard in
      finish n r s ea n_pos policy fresh er s_eq low high h4
    where
      finish :
          (n : ℕ) (r : Ratio) (s : ℕ)
          → a ≡ pos n
          → 0 < n
          → bad_policy p ≡ false
          → is_stale p now m.observed_at ≡ false
          → rate_of reader m ≡ ok r
          → s ≡ stroops_for (pos_part a) (adjust r p.spread_bps)
          → 0 < s
          → s < two_63
          → ok (buy_quote p now a m r s) ≡ ok q
          → (n : ℕ) × (r : Ratio) × IsBuy p now a m q n r
      finish n r s ea n_pos policy fresh er s_eq low high e =
          let s_n : s ≡ stroops_for n (adjust r p.spread_bps) =
            s_eq ∙ ap (λ (x : ℤ). stroops_for (pos_part x) (adjust r p.spread_bps)) ea in
          (
            n,
            r,
            record {
              amount = ea;
              amount_pos = n_pos;
              policy = policy;
              fresh = fresh;
              read = er;
              fiat = cc;
              asset = cc;
              low = omega arith;
              high = omega arith;
              source = cc;
              expiry = cc;
            },
          )

  -- A sell quote for n stroops at the rate r: it is in range, fresh, and priced by `idr_for`.
  pub record IsSell (p : QuotePolicy) (now : Instant) (a : ℤ) (m : MarketPrice) (q : Quote) (n : ℕ)
      (r : Ratio) : Type 0 where
    pub amount : a ≡ pos n
    pub amount_pos : 0 < n
    pub policy : bad_policy p ≡ false
    pub fresh : is_stale p now m.observed_at ≡ false
    pub read : rate_of reader m ≡ ok r
    pub asset : q.asset_amount ≡ pos n
    pub fiat : q.fiat_amount ≡ pos (idr_for n (adjust r p.spread_bps))
    pub low : 0 < idr_for n (adjust r p.spread_bps)
    pub high : idr_for n (adjust r p.spread_bps) < two_63
    pub source : q.source_at ≡ m.observed_at
    pub expiry : q.expires_at ≡ add now p.ttl

  pub create_reverse-IsSell :
      (p : QuotePolicy) (now : Instant) (a : ℤ) (m : MarketPrice) {q : Quote}
      → create_reverse reader p now a m ≡ ok q
      → (n : ℕ) × (r : Ratio) × IsSell p now a m q n r
  unfolding create_reverse
  create_reverse-IsSell p now a m {q} h =
      let (guard, h1) = fail_if-eq-ok (bad_policy p || is_some (validate_stroops a)) _ h in
      let (fresh, h2) = fail_if-eq-ok (is_stale p now m.observed_at) _ h1 in
      let (r, er, h3) = >>=-eq-ok (rate_of reader m) _ h2 in
      let value : ℕ = idr_for (pos_part a) (adjust r p.spread_bps) in
      let (s, es, h4) = >>=-eq-ok (positive_int64 value) _ h3 in
      let (s_eq, low, high) = positive_int64-eq-ok value es in
      let (n, ea, n_pos) = validate_stroops-none a (or-false_right (bad_policy p) _ guard) in
      let policy = or-false_left (bad_policy p) _ guard in
      finish n r s ea n_pos policy fresh er s_eq low high h4
    where
      finish :
          (n : ℕ) (r : Ratio) (s : ℕ)
          → a ≡ pos n
          → 0 < n
          → bad_policy p ≡ false
          → is_stale p now m.observed_at ≡ false
          → rate_of reader m ≡ ok r
          → s ≡ idr_for (pos_part a) (adjust r p.spread_bps)
          → 0 < s
          → s < two_63
          → ok (sell_quote p now a m r s) ≡ ok q
          → (n : ℕ) × (r : Ratio) × IsSell p now a m q n r
      finish n r s ea n_pos policy fresh er s_eq low high e =
          let s_n : s ≡ idr_for n (adjust r p.spread_bps) =
            s_eq ∙ ap (λ (x : ℤ). idr_for (pos_part x) (adjust r p.spread_bps)) ea in
          (
            n,
            r,
            record {
              amount = ea;
              amount_pos = n_pos;
              policy = policy;
              fresh = fresh;
              read = er;
              fiat = cc;
              asset = cc;
              low = omega arith;
              high = omega arith;
              source = cc;
              expiry = cc;
            },
          )
