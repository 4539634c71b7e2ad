-- ===== src/Delivery/Tests.antt =====
-- Runs of the classification, after webhook_delivery_usecase_test.go.
use kailo_be.Prelude.{◌+◌, ◌≤◌, ◌≡◌, refl, arith, false, some}
use kailo_be.Prelude.Int.{pos, wrap64, ◌-ℤ◌, ◌*ℤ◌, ◌≤ℤ◌}
use kailo_be.Prelude.Time.{minute, hour}
use kailo_be.Delivery.{exhausted, failed, delay_after, classify_webhook_delivery}
use kailo_be.Delivery.Backoff.{capped, backoff_bounded, backoff_monotone}

-- The second attempt is answered with 503: the next one is two minutes later.
second_retry :
    (classify_webhook_delivery (pos 503) false (pos 2) (pos 8) 1_000 (pos minute)).next_attempt_at
    ≡ some (1_000 + 120_000_000_000)
unfolding classify_webhook_delivery delay_after wrap64 ◌-ℤ◌ ◌*ℤ◌
second_retry = refl

last_attempt :
    (classify_webhook_delivery (pos 503) false (pos 8) (pos 8) 1_000 (pos minute)).status
    ≡ exhausted
unfolding classify_webhook_delivery
last_attempt = refl

gone :
    (classify_webhook_delivery (pos 410) false (pos 1) (pos 8) 1_000 (pos minute)).status ≡ failed
unfolding classify_webhook_delivery
gone = refl

backoff_bounded_example :
    (1_000 + capped minute ≤ 120_000_001_000) × (120_000_001_000 ≤ 1_000 + hour)
backoff_bounded_example =
    backoff_bounded (pos 503) false 2 (pos 8) 1_000 minute (omega arith) (omega arith) (omega arith)
      second_retry

backoff_monotone_example : delay_after (pos 2) (pos minute) ≤ℤ delay_after (pos 5) (pos minute)
backoff_monotone_example =
    backoff_monotone 2 5 minute (omega arith) (omega arith) (omega arith) (omega arith)
