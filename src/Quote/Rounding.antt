-- ===== src/Quote/Rounding.antt =====
-- The divisions behind a quote.
use kailo_be.Prelude.{ℕ, ◌+◌, ◌*◌, ◌≤◌, ◌<◌, arith}
use kailo_be.Quote.{Ratio, stroops_for, idr_for}
use native.Mathlib.Nat.{div-mul-le_self, lt-mul-div-succ, div-lt_iff_lt-mul}

-- Rounding down: the quotient is the largest number whose product fits.
pub stroops_for_bounds :
    (amount : ℕ) (r : Ratio)
    → 0 < r.num
    → (stroops_for amount r * r.num ≤ amount * 10_000_000 * r.den)
      × (amount * 10_000_000 * r.den < (stroops_for amount r + 1) * r.num)
unfolding stroops_for
stroops_for_bounds amount r h = (
  div-mul-le_self (amount * 10_000_000 * r.den) r.num,
  omega (arith, lt-mul-div-succ (amount * 10_000_000 * r.den) h),
)

pub idr_for_bounds :
    (stroops : ℕ) (r : Ratio)
    → 0 < r.den
    → (idr_for stroops r * (r.den * 10_000_000) ≤ stroops * r.num)
      × (stroops * r.num < (idr_for stroops r + 1) * (r.den * 10_000_000))
unfolding idr_for
idr_for_bounds stroops r h =
    let d : 0 < r.den * 10_000_000 = omega arith in
    (
      div-mul-le_self (stroops * r.num) (r.den * 10_000_000),
      omega (arith, lt-mul-div-succ (stroops * r.num) d),
    )

-- What an amount buys is worth no more than the amount.
pub idr_for-stroops_for :
    (amount : ℕ) (r : Ratio) → 0 < r.num → 0 < r.den → idr_for (stroops_for amount r) r ≤ amount
idr_for-stroops_for amount r hn hd =
    let (below, _) = stroops_for_bounds amount r hn in
    let d : 0 < r.den * 10_000_000 = omega arith in
    let below_next : idr_for (stroops_for amount r) r < amount + 1 =
      unfold idr_for in (div-lt_iff_lt-mul d).1 (omega arith) in
    omega arith
