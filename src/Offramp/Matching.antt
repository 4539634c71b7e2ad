-- ===== src/Offramp/Matching.antt =====
-- Which payment `ScanDeposits` of internal/usecase/offramp_worker_usecase.go takes for an order.
use kailo_be.Prelude.{
  ◌≡◌, refl, arith, String, Bool, Option, none, some, List, [], ◌∷◌, find, str_eq,
}
use kailo_be.Store.Views.{OrderView}
use kailo_be.Offramp.Deposits.{ObservedPayment}
use kailo_be.Offramp.Scanner.{
  Verdict, no_payment, mismatch, match, reason_of, noted, is_match, look_for,
}

-- The first payment that fits, or else what is wrong with the first one that carries the memo.
abbrev pub complaint : OrderView → Option ObservedPayment → Verdict
complaint order none = no_payment
complaint order (some payment) = mismatch (reason_of order payment) payment.transaction_hash

abbrev pub carries : String → ObservedPayment → Bool
carries memo payment = str_eq payment.memo memo

abbrev pub matched_or : Verdict → Option ObservedPayment → Verdict
matched_or verdict none = verdict
matched_or verdict (some payment) = match payment

-- With a mismatch that was noted before, the memo is not looked for any more.
abbrev noted_or : OrderView → String → List ObservedPayment → Verdict → Verdict
noted_or order memo payments no_payment = complaint order (find (carries memo) payments)
noted_or order memo payments verdict = verdict

look_for_lem :
    (order : OrderView) (memo : String) (payments : List ObservedPayment) (verdict : Verdict)
    → look_for order memo payments verdict
      ≡ matched_or (noted_or order memo payments verdict) (find (is_match order memo) payments)
unfolding look_for
look_for_lem order memo [] no_payment = refl
look_for_lem order memo [] (mismatch reason hash) = refl
look_for_lem order memo [] (match payment) = refl
look_for_lem order memo (payment ∷ rest) no_payment =
    ground (arith, look_for_lem order memo rest (noted order memo payment no_payment))
look_for_lem order memo (payment ∷ rest) (mismatch reason hash) =
    ground (arith, look_for_lem order memo rest (mismatch reason hash))
look_for_lem order memo (payment ∷ rest) (match other) =
    ground (arith, look_for_lem order memo rest (match other))

-- The loop over the payments takes the first one with the memo, the amount and the asset of the
-- order, wherever it stands; without one it reports the first payment with the memo, for its amount
-- if that is wrong, and else for its asset.
pub look_for_first :
    (order : OrderView) (memo : String) (payments : List ObservedPayment)
    → look_for order memo payments no_payment
      ≡ matched_or
          (complaint order (find (carries memo) payments))
          (find (is_match order memo) payments)
look_for_first order memo payments = look_for_lem order memo payments no_payment
