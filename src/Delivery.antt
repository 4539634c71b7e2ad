-- ===== src/Delivery.antt =====
-- `ClassifyWebhookDelivery` of internal/usecase/webhook_delivery_usecase.go: what a response or a
-- network failure makes of a webhook delivery, and when it is tried again.
pub mod Backoff
pub mod Attempts
pub mod Numbers
pub mod Leases
mod Tests
mod AttemptTests
use kailo_be.Prelude.{
  ℕ, ◌+◌, ◌-◌, ◌*◌, ◌^◌, String, Bool, true, false, ◌&&◌, ◌||◌, not, Option, none, some, ltb, ◌==◌,
  if◌then◌else◌,
}
use kailo_be.Prelude.Int.{ℤ, pos, negsuc, pos_part, leb_ℤ, ltb_ℤ, ◌-ℤ◌, ◌*ℤ◌, wrap64}
use kailo_be.Prelude.Time.{Instant, add, second, hour}

-- The statuses that the classification gives.
pub data DeliveryStatus : Type 0 where
  delivered : DeliveryStatus
  failed : DeliveryStatus
  exhausted : DeliveryStatus
  retry_scheduled : DeliveryStatus

-- `WebhookDeliveryResult`, without the duration and the hash, which the caller fills in.
pub record WebhookDeliveryResult : Type 0 where
  pub status : DeliveryStatus
  pub http_status : Option ℤ
  pub safe_error : Option String
  pub next_attempt_at : Option Instant

abbrev pub is_code : ℤ → ℕ → Bool
is_code (pos n) code = n == code
is_code (negsuc n) code = false

abbrev pub is_success : ℤ → Bool
is_success status = leb_ℤ (pos 200) status && ltb_ℤ status (pos 300)

abbrev pub is_retryable_code : ℤ → Bool
is_retryable_code status =
    is_code status 408
    || is_code status 409
    || is_code status 425
    || is_code status 429
    || leb_ℤ (pos 500) status

-- `attempt - 1`, between 0 and 6.
abbrev pub clamp : ℤ → ℕ
clamp shift = if ltb_ℤ (pos 6) shift then 6 else pos_part shift

abbrev pub at_most_an_hour : ℤ → ℤ
at_most_an_hour delay = if ltb_ℤ (pos hour) delay then pos hour else delay

-- The delay of the retry after an attempt: a product of int64 values.
unfoldable pub delay_after : ℤ → ℤ → ℤ
delay_after attempt retry_delay = at_most_an_hour (
    wrap64 (
      (if leb_ℤ retry_delay (pos 0) then pos second else retry_delay)
      *ℤ pos (2 ^ clamp (wrap64 (attempt -ℤ pos 1)))))

abbrev pub outcome : DeliveryStatus → ℤ → Option String → Option Instant → WebhookDeliveryResult
outcome delivery status safe_error next = record {
  status = delivery;
  http_status = if ltb_ℤ (pos 0) status then some status else none;
  safe_error = safe_error;
  next_attempt_at = next;
}

-- `ClassifyWebhookDelivery`; network_error says whether there was one.
unfoldable pub classify_webhook_delivery : ℤ → Bool → ℤ → ℤ → Instant → ℤ → WebhookDeliveryResult
classify_webhook_delivery status network_error attempt max_attempts now retry_delay =
    if not network_error && is_success status
    then outcome delivered status none none
    else if not (network_error || is_retryable_code status)
    then outcome failed status (some "webhook endpoint returned a terminal HTTP response") none
    else if leb_ℤ max_attempts attempt
    then outcome exhausted status (some "webhook delivery retry limit reached") none
    else outcome retry_scheduled status (some "webhook delivery will be retried")
        (some (add now (delay_after attempt retry_delay)))
