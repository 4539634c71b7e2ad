-- ===== src/Delivery/AttemptTests.antt =====
-- A delivery whose first worker disappears, in internal/repository/webhook_delivery_repository.go.
use kailo_be.Prelude.{◌≡◌, ◌+◌, ◌≤◌, ◌⊎◌, refl, [], ◌∷◌, ◌++◌, none, some, List}
use kailo_be.Prelude.Int.{pos}
use kailo_be.Prelude.Errors.{ok, err}
use kailo_be.Delivery.{WebhookDeliveryResult, delivered}
use kailo_be.Delivery.Attempts.{
  WebhookAttempt, AttemptStart, in_flight, superseded, attempt_row, closed, lease_expired, latest,
  not_leased, start_attempt, complete_attempt,
}
use kailo_be.Delivery.Numbers.{number_of, IsReplay, attempt_numbers}
use kailo_be.Delivery.Leases.{late_response_refused}

abbrev first : AttemptStart
first = record {
  event_id = "ev";
  endpoint_id = "en";
  worker_id = "w1";
  now = 100;
  lease_duration = pos 60;
  max_attempts = 8;
  new_id = ok "a1";
}

abbrev second : AttemptStart
second = record first { worker_id = "w2"; now = 200; new_id = ok "a2" }

abbrev old : WebhookAttempt
old = attempt_row first 1 "a1"

abbrev new : WebhookAttempt
new = attempt_row second 2 "a2"

abbrev rows : List WebhookAttempt
rows = old ∷ []

abbrev rows_after : List WebhookAttempt
rows_after = closed superseded 200 lease_expired old rows ++ new ∷ []

second_started : start_attempt second rows ≡ ok (some new, rows_after)
unfolding start_attempt
second_started = refl

abbrev response : WebhookDeliveryResult
response = record {
  status = delivered;
  http_status = some (pos 200);
  safe_error = none;
  next_attempt_at = none;
}

attempt_numbers_example :
    (new.attempt_number ≡ number_of (latest "ev" "en" rows) + 1)
    × (new.status ≡ in_flight)
    × ((new.attempt_number ≤ 8) ⊎ IsReplay (latest "ev" "en" rows))
attempt_numbers_example = attempt_numbers second rows rows_after new second_started

late_response_refused_example :
    complete_attempt "a1" response (pos 5) none 210 rows_after ≡ (err not_leased, rows_after)
late_response_refused_example =
    late_response_refused second rows rows_after old new response (pos 5) none 210 refl refl
      second_started
