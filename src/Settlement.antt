-- ===== src/Settlement.antt =====
-- internal/repository/settlement_repository.go and internal/usecase/settlement_usecase.go: issuing
-- the asset for paid orders. This file has the values and the statements on jobs and intents; the
-- child modules have the outcomes, the expiry of reservations and the worker.
pub mod Outcomes
pub mod Expiry
pub mod Worker
pub mod Turns
pub mod Depth
pub mod Amounts
use kailo_be.Prelude.{
  ℕ, ◌+◌, ◌*◌, ◌/◌, ◌%◌, ◌^◌, String, Bool, true, false, ◌&&◌, ◌||◌, not, Option, none, some, List,
  [], ◌∷◌, ◌++◌, all, find, str_eq, ltb, leb, ◌==◌, if◌then◌else◌, length,
}
use kailo_be.Prelude.Int.{ℤ, pos, two_63}
use kailo_be.Prelude.Errors.{
  Error, no_job, text, record_not_found, wrap, wrapped, Result, ok, err, ◌>>=◌ as ◌>=>◌,
}
use kailo_be.Prelude.Time.{Instant, add}
use kailo_be.Amount.{Bytes, is_digit, is_empty, cut_point, value_from}
use kailo_be.Store.{Database, Tx, pure, raise, raise_if, gets, found, wrapping, ◌>>=◌, ◌>>◌}
use kailo_be.Store.Rows.{
  StellarTransaction, pending, submitted, unconfirmed, OutboxPayload, OutboxMessage,
}
use kailo_be.Store.Table.{is_null}
use kailo_be.Store.Statements.{update_stellar, update_outbox}
use kailo_be.Events.{deref_str}
use kailo_be.Store.Queries.{before, sorted, head, filter}

pub record Job : Type 0 where
  pub outbox_id : String
  pub intent_id : String

pub record Transfer : Type 0 where
  pub order_id : String
  pub source : String
  pub destination : String
  pub asset_code : String
  pub asset_issuer : String
  pub clawback_from : String
  pub amount : ℤ
  pub memo : String

pub record Intent : Type 0 where
  pub intent_id : String
  pub transaction_hash : String
  pub transfer : Transfer

abbrev pub settle_topic : String
settle_topic = "stellar.settle_onramp"

-- A lease that has run out, or none.
abbrev pub lease_over : Option Instant → Instant → Bool
lease_over none now = true
lease_over (some until) now = ltb until now

-- The condition of the query of `Lease` and `LeaseOutbox`.
abbrev pub can_lease : String → ℕ → Instant → OutboxMessage → Bool
can_lease topic max_attempts now m =
    str_eq m.topic topic
    && is_null m.processed_at
    && leb m.available_at now
    && ltb m.attempts max_attempts
    && lease_over m.lease_until now

-- `ORDER BY available_at, created_at`, with the key that `First` adds.
abbrev pub older : OutboxMessage → OutboxMessage → Bool
older a b =
    ltb a.available_at b.available_at
    || a.available_at == b.available_at
      && (ltb a.created_at b.created_at || a.created_at == b.created_at && before a.id b.id)

abbrev pub next_message : String → ℕ → Instant → Database → Option OutboxMessage
next_message topic max_attempts now db =
    head (sorted older (filter (can_lease topic max_attempts now) db.outbox_messages))

-- The update of a leased message.
abbrev pub leased : String → Instant → OutboxMessage → OutboxMessage
leased worker until m = record m {
  lease_owner = some worker;
  lease_until = some until;
  attempts = m.attempts + 1;
}

abbrev pub decoded : Result Job → Tx Job
decoded (ok job) = pure job
decoded (err e) = raise (text "invalid outbox payload")

-- `LeaseOutbox`; decode is the reader of the topic's payload.
unfoldable pub lease_outbox :
    String → ℕ → String → Instant → ℤ → (OutboxPayload → Result Job) → Tx Job
lease_outbox topic max_attempts worker now duration decode = do
  row ← found no_job (← gets (next_message topic max_attempts now))
  update_outbox (λ m. str_eq m.id row.id) (leased worker (add now duration))
  job ← decoded (decode row.payload)
  pure (record job { outbox_id = if str_eq job.outbox_id "" then row.id else job.outbox_id })

-- `Lease`.
unfoldable pub lease : ℕ → String → Instant → ℤ → Tx Job
lease max_attempts worker now duration = do
  row ← found no_job (← gets (next_message settle_topic max_attempts now))
  update_outbox (λ m. str_eq m.id row.id) (leased worker (add now duration))
  raise_if (str_eq row.payload.intent_id "") (text "invalid settlement outbox payload")
  pure (record { outbox_id = row.id; intent_id = row.payload.intent_id })

-- `parseStroops`. The column is NUMERIC, so its text is a plain decimal: the whole digits, and the
-- places after a point. The value is the digits over ten to the number of the places.
abbrev pub stroops_of : ℕ → ℕ → Result ℤ
stroops_of value unit =
    if value == 0
    then err (text "invalid settlement amount")
    else if not (value * 10_000_000 % unit == 0) || not (ltb (value * 10_000_000 / unit) two_63)
    then err (text "settlement amount exceeds stroop precision")
    else ok (pos (value * 10_000_000 / unit))

abbrev pub parse_number : Bytes → Bytes → Result ℤ
parse_number whole fraction =
    if is_empty (whole ++ fraction) || not (all is_digit (whole ++ fraction))
    then err (text "invalid settlement amount")
    else stroops_of (value_from 0 (whole ++ fraction)) (10 ^ length fraction)

unfoldable pub parse_stroops : Bytes → Result ℤ
parse_stroops amount =
    let (whole, fraction, point) = cut_point amount in parse_number whole fraction

abbrev pub is_intent : String → StellarTransaction → Bool
is_intent intent_id s = str_eq s.intent_id intent_id

abbrev pub find_intent : String → Database → Option StellarTransaction
find_intent intent_id db = find (is_intent intent_id) db.stellar_transactions

abbrev pub intent_of : StellarTransaction → ℤ → Intent
intent_of row amount = record {
  intent_id = row.intent_id;
  transaction_hash = deref_str row.transaction_hash;
  transfer = record {
    order_id = row.order_id;
    source = deref_str row.source;
    destination = deref_str row.destination;
    asset_code = row.asset_code;
    asset_issuer = row.asset_issuer;
    clawback_from = "";
    amount = amount;
    memo = deref_str row.memo;
  };
}

-- `LoadIntent`.
unfoldable pub load_intent : String → Database → Result Intent
load_intent intent_id db =
    elim (find (λ s. is_intent intent_id s && str_eq s.purpose "transfer")
      db.stellar_transactions) [
        | none ↦ err (wrapped "finding settlement intent" record_not_found)
        | some row ↦ parse_stroops row.amount >=> λ amount. ok (intent_of row amount)
      ]

-- `MarkSubmitted`, `MarkUnknown` and `ResetSubmitted`.
unfoldable pub mark_submitted : String → String → Instant → Tx (Unit {0})
mark_submitted intent_id hash now = update_stellar (is_intent intent_id) (λ s. record s {
  transaction_hash = some hash;
  status = submitted;
  attempt_count = s.attempt_count + 1;
  updated_at = now;
})

unfoldable pub mark_unknown : String → String → Instant → Tx (Unit {0})
mark_unknown intent_id safe_error now =
    update_stellar (is_intent intent_id)
      (λ s. record s { status = unconfirmed; last_error = some safe_error; updated_at = now })

unfoldable pub reset_submitted : String → String → Instant → Tx (Unit {0})
reset_submitted intent_id safe_error now = update_stellar (is_intent intent_id) (λ s. record s {
  transaction_hash = none;
  status = pending;
  last_error = some safe_error;
  updated_at = now;
})

-- An unprocessed message of an order.
abbrev pub is_open : String → String → OutboxMessage → Bool
is_open topic aggregate_id m =
    str_eq m.topic topic && str_eq m.aggregate_id aggregate_id && is_null m.processed_at

-- `RetryLater`.
unfoldable pub retry_later : String → Instant → String → Tx (Unit {0})
retry_later intent_id available_at safe_error = do
  stellar ← found record_not_found (← gets (find_intent intent_id))
  update_outbox (is_open settle_topic stellar.order_id) (λ m. record m {
    available_at = available_at;
    lease_owner = none;
    lease_until = none;
    last_error = some safe_error;
  })

-- `FinishOutbox`.
unfoldable pub finish_outbox : String → String → Instant → Tx (Unit {0})
finish_outbox topic aggregate_id now =
    update_outbox (is_open topic aggregate_id)
      (λ m. record m { processed_at = some now; lease_owner = none; lease_until = none })
