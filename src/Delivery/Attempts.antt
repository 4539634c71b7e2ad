-- ===== src/Delivery/Attempts.antt =====
-- The attempts of webhook deliveries in internal/repository/webhook_delivery_repository.go:
-- `StartAttempt`, `CompleteAttempt` and `FinalizeEvent`. The id that `platform.NewID` gives is an
-- argument; an error leaves the rows as they were.
use kailo_be.Prelude.{
  ℕ, ◌+◌, String, Bool, true, false, ◌&&◌, ◌||◌, not, Option, none, some, List, [], ◌∷◌, ◌++◌, any,
  str_eq, ltb, leb, ◌==◌, if◌then◌else◌,
}
use kailo_be.Prelude.Int.{ℤ}
use kailo_be.Prelude.Errors.{Error, text, wrapped, Result, ok, err}
use kailo_be.Prelude.Time.{Instant, add}
use kailo_be.Store.Rows.{OutboxMessage}
use kailo_be.Store.Table.{update, affected, is_null}
use kailo_be.Store.Queries.{sorted, head, filter}
use kailo_be.Store.Statements.{duplicate}
use kailo_be.Delivery.{DeliveryStatus, exhausted, retry_scheduled, WebhookDeliveryResult}

-- The statuses of `WebhookAttempt`.
pub data AttemptStatus : Type 0 where
  done : DeliveryStatus → AttemptStatus
  in_flight : AttemptStatus
  superseded : AttemptStatus
  replay_pending : AttemptStatus

pub record WebhookAttempt : Type 0 where
  pub id : String
  pub event_id : String
  pub endpoint_id : String
  pub attempt_number : ℕ
  pub status : AttemptStatus
  pub scheduled_at : Instant
  pub started_at : Option Instant
  pub completed_at : Option Instant
  pub http_status : Option ℤ
  pub duration_millis : Option ℤ
  pub response_body_hash : Option String
  pub safe_error : Option String
  pub next_attempt_at : Option Instant
  pub lease_owner : Option String
  pub lease_until : Option Instant

abbrev pub is_in_flight : AttemptStatus → Bool
is_in_flight in_flight = true
is_in_flight _ = false

abbrev pub is_retry : AttemptStatus → Bool
is_retry (done retry_scheduled) = true
is_retry _ = false

-- `x != nil && x.After(now)`.
abbrev pub is_after : Option Instant → Instant → Bool
is_after none now = false
is_after (some t) now = ltb now t

abbrev pub is_delivery : String → String → WebhookAttempt → Bool
is_delivery event_id endpoint_id a = str_eq a.event_id event_id && str_eq a.endpoint_id endpoint_id

-- `ORDER BY attempt_number DESC`, the first row.
abbrev pub latest : String → String → List WebhookAttempt → Option WebhookAttempt
latest event_id endpoint_id rows = head (
    sorted (λ (a b : WebhookAttempt). ltb b.attempt_number a.attempt_number)
      (filter (is_delivery event_id endpoint_id) rows))

-- An attempt that is over, with an error or without one.
abbrev pub closed :
    AttemptStatus
    → Instant
    → Option String
    → WebhookAttempt
    → List WebhookAttempt
    → List WebhookAttempt
closed status now safe_error latest rows =
    update (λ (a : WebhookAttempt). str_eq a.id latest.id)
      (λ a. record a {
        status = status;
        completed_at = some now;
        safe_error = safe_error;
        lease_owner = none;
        lease_until = none;
      })
      rows

abbrev pub lease_expired : Option String
lease_expired = some "webhook delivery lease expired"

-- What `StartAttempt` returns: the attempt, if one was started, and the rows.
abbrev pub Started : Type 0
Started = Result (Option WebhookAttempt × List WebhookAttempt)

-- The arguments of `StartAttempt`, and the id that is drawn.
pub record AttemptStart : Type 0 where
  pub event_id : String
  pub endpoint_id : String
  pub worker_id : String
  pub now : Instant
  pub lease_duration : ℤ
  pub max_attempts : ℕ
  pub new_id : Result String

module _ (s : AttemptStart) where
  abbrev pub attempt_row : ℕ → String → WebhookAttempt
  attempt_row number id = record {
    id = id;
    event_id = s.event_id;
    endpoint_id = s.endpoint_id;
    attempt_number = number;
    status = in_flight;
    scheduled_at = s.now;
    started_at = some s.now;
    completed_at = none;
    http_status = none;
    duration_millis = none;
    response_body_hash = none;
    safe_error = none;
    next_attempt_at = none;
    lease_owner = some s.worker_id;
    lease_until = some (add s.now s.lease_duration);
  }

  -- The primary key, and the unique key of event, endpoint and number.
  abbrev pub is_taken : WebhookAttempt → WebhookAttempt → Bool
  is_taken row a =
      str_eq a.id row.id
      || is_delivery s.event_id s.endpoint_id a && a.attempt_number == row.attempt_number

  abbrev pub insert_unless : Bool → WebhookAttempt → List WebhookAttempt → Started
  insert_unless true row rows = err (wrapped "creating webhook attempt" duplicate)
  insert_unless false row rows = ok (some row, rows ++ row ∷ [])

  abbrev pub insert_attempt : ℕ → Result String → List WebhookAttempt → Started
  insert_attempt number (err e) rows = err (wrapped "generating webhook attempt id" e)
  insert_attempt number (ok id) rows =
      insert_unless (any (is_taken (attempt_row number id)) rows) (attempt_row number id) rows

  abbrev pub next_unless : Bool → ℕ → List WebhookAttempt → Started
  next_unless true number rows = ok (none, rows)
  next_unless false number rows = insert_attempt number s.new_id rows

  abbrev pub next_attempt : Bool → ℕ → List WebhookAttempt → Started
  next_attempt manual_replay number rows =
      next_unless (ltb s.max_attempts number && not manual_replay) number rows

  -- An attempt in flight: whether its lease runs, and whether it was the last that is allowed.
  abbrev pub after_flight : Bool → Bool → WebhookAttempt → List WebhookAttempt → Started
  after_flight true last a rows = ok (none, rows)
  after_flight false true a rows = ok (none, closed (done exhausted) s.now lease_expired a rows)
  after_flight false false a rows =
      next_attempt false (a.attempt_number + 1) (closed superseded s.now lease_expired a rows)

  abbrev pub after_retry : Bool → WebhookAttempt → List WebhookAttempt → Started
  after_retry true a rows = ok (none, rows)
  after_retry false a rows = next_attempt false (a.attempt_number + 1) (
      update (λ (b : WebhookAttempt). str_eq b.id a.id) (λ b. record b { status = superseded })
        rows)

  -- The switch on the status of the latest attempt.
  abbrev pub after_status : AttemptStatus → WebhookAttempt → List WebhookAttempt → Started
  after_status (done retry_scheduled) a rows = after_retry (is_after a.next_attempt_at s.now) a rows
  after_status (done status) a rows = ok (none, rows)
  after_status in_flight a rows =
      after_flight (is_after a.lease_until s.now) (leb s.max_attempts a.attempt_number) a rows
  after_status replay_pending a rows =
      next_attempt true (a.attempt_number + 1) (closed superseded s.now a.safe_error a rows)
  after_status superseded a rows = next_attempt false (a.attempt_number + 1) rows

  abbrev pub after_latest : Option WebhookAttempt → List WebhookAttempt → Started
  after_latest none rows = next_attempt false 1 rows
  after_latest (some a) rows = after_status a.status a rows

  -- `StartAttempt`.
  unfoldable pub start_attempt : List WebhookAttempt → Started
  start_attempt rows = after_latest (latest s.event_id s.endpoint_id rows) rows

abbrev pub is_open_attempt : String → WebhookAttempt → Bool
is_open_attempt attempt_id a = str_eq a.id attempt_id && is_in_flight a.status

abbrev pub not_leased : Error
not_leased = text "webhook attempt is no longer leased"

abbrev pub code_or : Option ℤ → Option ℤ → Option ℤ
code_or none before = before
code_or (some code) before = some code

-- `CompleteAttempt`, with the duration and the hash of the response.
unfoldable pub complete_attempt :
    String
    → WebhookDeliveryResult
    → ℤ
    → Option String
    → Instant
    → List WebhookAttempt
    → Result (Unit {0}) × List WebhookAttempt
complete_attempt attempt_id result duration hash now rows =
    if affected (is_open_attempt attempt_id) rows == 0 then (err not_leased, rows) else (
      ok tt,
      update (is_open_attempt attempt_id)
          (λ a. record a {
            status = done result.status;
            completed_at = some now;
            duration_millis = some duration;
            lease_owner = none;
            lease_until = none;
            next_attempt_at = result.next_attempt_at;
            safe_error = result.safe_error;
            response_body_hash = hash;
            http_status = code_or result.http_status a.http_status;
          })
          rows,
    )

-- The first retry that is due, and the first attempt that is in flight.
abbrev pub before_time : Option Instant → Option Instant → Bool
before_time none b = false
before_time (some a) none = true
before_time (some a) (some b) = ltb a b

abbrev pub find_retry : String → List WebhookAttempt → Option WebhookAttempt
find_retry event_id rows = head (
    sorted (λ (a b : WebhookAttempt). before_time a.next_attempt_at b.next_attempt_at)
      (filter
        (λ (a : WebhookAttempt).
          str_eq a.event_id event_id && is_retry a.status && not (is_null a.next_attempt_at))
        rows))

abbrev pub find_active : String → List WebhookAttempt → Option WebhookAttempt
find_active event_id rows = head (
    sorted (λ (a b : WebhookAttempt). before_time a.lease_until b.lease_until)
      (filter (λ (a : WebhookAttempt). str_eq a.event_id event_id && is_in_flight a.status) rows))

abbrev pub time_or : Option Instant → Instant → Instant
time_or none now = now
time_or (some t) now = t

-- The job of the event, on what is still to be done.
abbrev pub after_event :
    Option WebhookAttempt → Option WebhookAttempt → Instant → OutboxMessage → OutboxMessage
after_event (some retry) active now m = record m {
  available_at = time_or retry.next_attempt_at now;
  lease_owner = none;
  lease_until = none;
  last_error = retry.safe_error;
}
after_event none (some active) now m = record m {
  available_at = if is_after active.lease_until now then time_or active.lease_until now else now;
  lease_owner = none;
  lease_until = none;
}
after_event none none now m = record m {
  processed_at = some now;
  lease_owner = none;
  lease_until = none;
  last_error = none;
}

-- `FinalizeEvent`.
unfoldable pub finalize_event :
    String → String → Instant → List WebhookAttempt → List OutboxMessage → List OutboxMessage
finalize_event outbox_id event_id now rows messages =
    update (λ (m : OutboxMessage). str_eq m.id outbox_id && is_null m.processed_at)
      (after_event (find_retry event_id rows) (find_active event_id rows) now) messages
