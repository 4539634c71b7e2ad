-- ===== src/Delivery/Backoff.antt =====
-- When a delivery is tried again, and when it is given up.
use kailo_be.Prelude.{
  ℕ, ◌+◌, ◌-◌, ◌*◌, ◌^◌, ◌≤◌, ◌<◌, ◌≡◌, sym, ap, ◌∙◌, arith, Bool, some, ltb, if◌then◌else◌,
}
use native.Mathlib.Nat.{pow-le-pow_right, mul-le-mul_left, one-le-pow}
use kailo_be.Prelude.Int.{two_63, sub_ℕ, wrap64_pos, ℤ, pos, ◌≤ℤ◌, ◌-ℤ◌, ◌*ℤ◌, wrap64, leb_ℤ}
use kailo_be.Prelude.Time.{Instant, add, second, hour}
use kailo_be.Delivery.{clamp, at_most_an_hour, delay_after, classify_webhook_delivery}

-- A delay below 2 ^ 57 nanoseconds, which is over four years, does not overflow.
abbrev pub longest : ℕ
longest = 144115188075855872

-- The backoff in plain numbers: the delay doubles with each attempt, six times at most.
abbrev pub doublings : ℕ → ℕ
doublings attempt = if ltb 6 (attempt - 1) then 6 else attempt - 1

abbrev pub capped : ℕ → ℕ
capped d = if ltb hour d then hour else d

doublings-le : (attempt : ℕ) → doublings attempt ≤ 6
doublings-le attempt = ground arith

clamp-doublings :
    (attempt : ℕ) → attempt < longest → clamp (wrap64 (pos attempt -ℤ pos 1)) ≡ doublings attempt
unfolding wrap64 ◌-ℤ◌
clamp-doublings attempt h = ground arith

product_plain : (a b : ℕ) → a * b < two_63 → wrap64 (pos a *ℤ pos b) ≡ pos (a * b)
unfolding ◌*ℤ◌
product_plain a b h = rw (wrapped_product) (wrap64_pos (a * b) h)
  where
    wrapped_product : sub_ℕ (a * b + 0 * 0) (a * 0 + 0 * b) ≡ pos (a * b)
    wrapped_product = ground arith

power-le : (s : ℕ) → s ≤ 6 → 2 ^ s ≤ 64
power-le s h = pow-le-pow_right (omega arith) h

delay_plain :
    (attempt retry : ℕ)
    → 0 < retry
    → retry < longest
    → attempt < longest
    → delay_after (pos attempt) (pos retry) ≡ pos (capped (retry * 2 ^ doublings attempt))
unfolding delay_after
delay_plain attempt retry p h k = rw (clamp-doublings attempt k) (
    ap (λ (d : ℤ). at_most_an_hour (wrap64 (d *ℤ pos (2 ^ doublings attempt)))) base
    ∙ ap at_most_an_hour (product_plain retry (2 ^ doublings attempt) fits)
    ∙ last (retry * 2 ^ doublings attempt))
  where
    base : (if leb_ℤ (pos retry) (pos 0) then pos second else pos retry) ≡ pos retry
    base = ground arith

    fits : retry * 2 ^ doublings attempt < two_63
    fits =
        omega (arith, mul-le-mul_left retry (power-le (doublings attempt) (doublings-le attempt)))

    last : (d : ℕ) → at_most_an_hour (pos d) ≡ pos (capped d)
    last d = ground arith

one-le-power : (s : ℕ) → 1 ≤ 2 ^ s
one-le-power s = one-le-pow s 2 (omega arith)

scheduled_at :
    (status : ℤ) (network_error : Bool) (attempt max_attempts : ℤ) (now : Instant) (retry : ℤ)
    {t : Instant}
    → (classify_webhook_delivery status network_error attempt max_attempts now
        retry).next_attempt_at
      ≡ some t
    → add now (delay_after attempt retry) ≡ t
unfolding classify_webhook_delivery
scheduled_at status network_error attempt max_attempts now retry e = ground arith

-- A delivery that is tried again waits for the configured delay at least, or for an hour if that is
-- longer, and never for more than an hour, if the delay is positive and below 2 ^ 57 nanoseconds and
-- the attempts are below 2 ^ 57.
pub backoff_bounded :
    (status : ℤ) (network_error : Bool) (attempt : ℕ) (max_attempts : ℤ) (now : Instant) (retry : ℕ)
    {t : Instant}
    → 0 < retry
    → retry < longest
    → attempt < longest
    → (classify_webhook_delivery status network_error
        (pos attempt)
        max_attempts
        now
        (pos retry)).next_attempt_at
      ≡ some t
    → (now + capped retry ≤ t) × (t ≤ now + hour)
backoff_bounded status network_error attempt max_attempts now retry {t} p h k e =
    bounds (retry * 2 ^ doublings attempt)
      (omega (arith, mul-le-mul_left retry (one-le-power (doublings attempt))))
      (sym (ap (add now) (delay_plain attempt retry p h k))
        ∙ scheduled_at status network_error (pos attempt) max_attempts now (pos retry) e)
  where
    bounds : (d : ℕ) → retry ≤ d → now + capped d ≡ t → (now + capped retry ≤ t) × (t ≤ now + hour)
    bounds d l f = (ground arith, ground arith)

-- A later attempt never waits for less, with the same bounds on the delay and on the attempts.
pub backoff_monotone :
    (a b retry : ℕ)
    → 0 < retry
    → retry < longest
    → b < longest
    → a ≤ b
    → delay_after (pos a) (pos retry) ≤ℤ delay_after (pos b) (pos retry)
backoff_monotone a b retry p h k l =
    rw (delay_plain a retry p h (omega arith), delay_plain b retry p h k)
      (grow (mul-le-mul_left retry (pow-le-pow_right {n = 2} (omega arith) more)))
  where
    more : doublings a ≤ doublings b
    more = ground arith

    grow :
        retry * 2 ^ doublings a ≤ retry * 2 ^ doublings b
        → capped (retry * 2 ^ doublings a) + 0 ≤ capped (retry * 2 ^ doublings b) + 0
    grow m = ground arith
