-- ===== src/Events/Append.antt =====
-- `appendOrderEvent`, `appendOrderEventFromSource` and `appendPublicWebhookEvent` of
-- internal/repository/onramp_repository.go.
use kailo_be.Prelude.{
  ℕ, String, Bool, true, false, ◌&&◌, Option, none, some, str_append, find, str_eq,
}
use kailo_be.Prelude.Errors.{record_not_found}
use kailo_be.Prelude.Time.{Instant}
use kailo_be.Order.{OrderStatus}
use kailo_be.Store.{Database, Tx, pure, gets, found, wrapping, new_id, ◌>>=◌, ◌>>◌}
use kailo_be.Store.Rows.{OrderRecord, OrderEvent, StellarTransaction, OutboxPayload, OutboxMessage}
use kailo_be.Store.Views.{OrderView, Envelope}
use kailo_be.Store.Statements.{create_order_event, create_webhook_event, create_outbox_message}
use kailo_be.Events.{
  public_webhook_event_type, base_order_view, apply_offramp_retirement_evidence, payout_view,
}

-- `BuildEventEnvelope`.
abbrev pub build_event_envelope : String → String → String → Instant → OrderView → Envelope
build_event_envelope event_id event_type environment created_at order = record {
  id = str_append "evt_" event_id;
  event_type = event_type;
  environment = environment;
  created_at = created_at;
  object = order;
}

-- A job for the outbox, which a worker may lease at once.
abbrev pub new_job : String → String → String → String → OutboxPayload → Instant → OutboxMessage
new_job id topic aggregate_type aggregate_id payload now = record {
  id = id;
  topic = topic;
  aggregate_type = aggregate_type;
  aggregate_id = aggregate_id;
  payload = payload;
  created_at = now;
  available_at = now;
  lease_owner = none;
  lease_until = none;
  attempts = 0;
  processed_at = none;
  last_error = none;
}

abbrev pub with_status : Option OrderStatus → OrderView → OrderView
with_status none view = view
with_status (some s) view = record view { status = s }

-- The order of an id, by its primary key.
abbrev pub find_order : String → Database → Option OrderRecord
find_order id db = find (λ (o : OrderRecord). str_eq o.id id) db.orders

abbrev pub find_purpose : String → String → Database → Option StellarTransaction
find_purpose order_id purpose db =
    find (λ (s : StellarTransaction). str_eq s.order_id order_id && str_eq s.purpose purpose)
      db.stellar_transactions

-- A completed off-ramp order shows its payout and the evidence of its retirement.
unfoldable pub completed_view : Bool → String → OrderView → Tx OrderView
completed_view false order_id view = pure view
completed_view true order_id view = do
  payout ← wrapping "finding completed off-ramp payout for webhook" (
      found record_not_found
        (← gets (λ db. find (λ p. str_eq p.order_id order_id) db.offramp_payouts)))
  retirement ←
      wrapping "finding completed off-ramp retirement for webhook"
        (found record_not_found (← gets (find_purpose order_id "retirement")))
  pure (
      apply_offramp_retirement_evidence retirement
        (record view { payout = some (payout_view "" payout) }))

unfoldable pub append_public_webhook_event :
    String → String → String → Option OrderStatus → Instant → Tx (Unit {0})
append_public_webhook_event source_id order_id event_type next now = do
  order ←
      wrapping "finding order for webhook event"
        (found record_not_found (← gets (find_order order_id)))
  view ←
      completed_view (str_eq order.direction "offramp" && str_eq event_type "order.completed")
        order_id (with_status next (base_order_view order))
  public_id ← new_id
  wrapping "creating webhook event" (
      create_webhook_event (record {
        id = public_id;
        order_id = some order_id;
        client_id = order.client_id;
        event_type = event_type;
        api_version = "2026-08-01";
        canonical_payload = build_event_envelope public_id event_type "sandbox" now view;
        source_order_event_id = some source_id;
        is_test = false;
        created_at = now;
      }))
  outbox_id ← new_id
  wrapping "creating webhook outbox message" (
      create_outbox_message (
        new_job outbox_id "webhook.deliver" "webhook_event" public_id
          (record { order_id = ""; intent_id = ""; event_id = public_id }) now))

abbrev pub publish : Option String → String → String → Option OrderStatus → Instant → Tx (Unit {0})
publish none source_id order_id next now = pure tt
publish (some event_type) source_id order_id next now =
    append_public_webhook_event source_id order_id event_type next now

-- The event that records one transition of an order.
abbrev pub order_event :
    String
    → String
    → ℕ
    → String
    → Option OrderStatus
    → Option OrderStatus
    → String
    → Instant
    → OrderEvent
order_event id order_id version event_type previous next source now = record {
  id = id;
  order_id = order_id;
  aggregate_version = version;
  event_type = event_type;
  previous_status = previous;
  new_status = next;
  source = source;
  correlation_id = order_id;
  created_at = now;
}

unfoldable pub append_order_event_from_source :
    String → ℕ → String → Option OrderStatus → Option OrderStatus → String → Instant → Tx (Unit {0})
append_order_event_from_source order_id version event_type previous next source now = do
  id ← new_id
  wrapping "appending order event"
      (create_order_event (order_event id order_id version event_type previous next source now))
  publish (public_webhook_event_type event_type) id order_id next now

unfoldable pub append_order_event :
    String → ℕ → String → Option OrderStatus → Option OrderStatus → Instant → Tx (Unit {0})
append_order_event order_id version event_type previous next now =
    append_order_event_from_source order_id version event_type previous next "api" now
