-- ===== src/Offramp/Scanner.antt =====
-- `DepositScanner` of internal/usecase/offramp_worker_usecase.go: the payments to the deposit account
-- are matched with the orders that wait for them. The payments that the watcher finds are a
-- parameter.
use kailo_be.Prelude.{
  ℕ, ◌+◌, String, str_append, Bool, ◌&&◌, not, List, [], ◌∷◌, str_eq, if◌then◌else◌,
}
use kailo_be.Prelude.Int.{pos, eq_ℤ, ltb_ℤ}
use kailo_be.Prelude.Errors.{wrapped, Result, ok, err}
use kailo_be.Prelude.Time.{Instant, is_zero}
use kailo_be.Store.{Database, commit}
use kailo_be.Store.Views.{OrderView}
use kailo_be.Store.Queries.{filter}
use kailo_be.Offramp.Deposits.{
  ObservedPayment, find_deposit_candidates, record_asset_received, record_asset_invalid,
}

-- What the payments say of one order.
pub data Verdict : Type 0 where
  no_payment : Verdict
  mismatch : String → String → Verdict
  match : ObservedPayment → Verdict

abbrev pub wrong_amount : String
wrong_amount = "deposit amount does not match the quoted amount"

abbrev pub wrong_asset : String
wrong_asset = "deposit asset does not match the configured KXLM issuer"

abbrev pub has_amount : OrderView → ObservedPayment → Bool
has_amount order payment = eq_ℤ payment.amount order.asset_amount

abbrev pub has_asset : OrderView → ObservedPayment → Bool
has_asset order payment =
    str_eq payment.asset_code order.asset_code && str_eq payment.asset_issuer order.asset_issuer

abbrev pub reason_of : OrderView → ObservedPayment → String
reason_of order payment = if has_amount order payment then wrong_asset else wrong_amount

-- The first mismatch is kept.
abbrev pub noted : OrderView → String → ObservedPayment → Verdict → Verdict
noted order memo payment no_payment =
    if str_eq payment.memo memo
    then mismatch (reason_of order payment) payment.transaction_hash
    else no_payment
noted order memo payment verdict = verdict

abbrev pub is_match : OrderView → String → ObservedPayment → Bool
is_match order memo payment =
    str_eq payment.memo memo && has_amount order payment && has_asset order payment

-- The inner loop of `ScanDeposits`.
unfoldable pub look_for : OrderView → String → List ObservedPayment → Verdict → Verdict
look_for order memo [] verdict = verdict
look_for order memo (payment ∷ rest) verdict =
    let later = look_for order memo rest (noted order memo payment verdict) in
    if is_match order memo payment then match payment else later

-- The payments that are looked at.
abbrev pub is_deposit : String → ObservedPayment → Bool
is_deposit deposit_account payment =
    str_eq payment.to deposit_account
    && not (str_eq payment.transaction_hash "")
    && not (is_zero payment.ledger_at)
    && ltb_ℤ (pos 0) payment.amount

-- What a scan returns: how many orders had their deposit recorded, and the error that ended it.
abbrev pub Scan : Type 0
Scan = (ℕ × Result (Unit {0})) × Database

module _ (deposit_memo : String → String) (now : Instant) where
  abbrev pub memo_of : OrderView → String
  memo_of order = if str_eq order.stellar_memo "" then deposit_memo order.id else order.stellar_memo

  -- The rest of the loop, after the answer of the repository.
  abbrev pub counted : ℕ → String → ℕ → (ℕ → Database → Scan) → Result (Unit {0}) × Database → Scan
  counted more message matched next (ok u, after) = next (matched + more) after
  counted more message matched next (err e, after) = ((matched, err (wrapped message e)), after)

  abbrev pub settle : OrderView → Verdict → ℕ → (ℕ → Database → Scan) → Database → Scan
  settle order no_payment matched next db = next matched db
  settle order (match payment) matched next db =
      counted 1 (str_append "recording deposit for " order.id) matched next
        (commit (record_asset_received order.id payment now) db)
  settle order (mismatch reason hash) matched next db =
      counted 0 (str_append "invalidating " order.id) matched next
        (commit (record_asset_invalid order.id now) db)

  -- The outer loop.
  abbrev pub scan_orders : List ObservedPayment → List OrderView → ℕ → Database → Scan
  scan_orders pending [] matched db = ((matched, ok tt), db)
  scan_orders pending (order ∷ rest) matched db =
      settle order (look_for order (memo_of order) pending no_payment) matched
        (scan_orders pending rest) db

  abbrev pub scan_candidates :
      String → Result (List ObservedPayment) → List OrderView → Database → Scan
  scan_candidates deposit_account recent [] db = ((0, ok tt), db)
  scan_candidates deposit_account (err e) (order ∷ rest) db =
      ((0, err (wrapped "reading recent payments" e)), db)
  scan_candidates deposit_account (ok payments) (order ∷ rest) db =
      scan_orders (filter (is_deposit deposit_account) payments) (order ∷ rest) 0 db

  -- `ScanDeposits`; recent is what the watcher answers.
  unfoldable pub scan_deposits : String → Result (List ObservedPayment) → Database → Scan
  scan_deposits deposit_account recent db =
      scan_candidates deposit_account recent (find_deposit_candidates deposit_account now 100 db) db
