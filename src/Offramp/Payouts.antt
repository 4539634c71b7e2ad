-- ===== src/Offramp/Payouts.antt =====
-- The simulated payout: `CompleteSandboxPayout` of internal/repository/offramp_repository.go, and
-- internal/usecase/sandbox_payout_usecase.go.
use kailo_be.Prelude.{
  ◌+◌, String, str_append, Bool, true, false, ◌&&◌, ◌||◌, not, Option, none, some, find, str_eq,
}
use kailo_be.Prelude.Errors.{invalid_order_state, record_not_found, text, ok, err}
use kailo_be.Prelude.Text.{is_blank, trim_space}
use kailo_be.Prelude.Time.{Instant}
use kailo_be.Order.{withdrawal_processing, completed, status_eq}
use kailo_be.Store.{Database, Tx, pure, raise_if, gets, found, wrapping, new_id, ◌>>=◌, ◌>>◌}
use kailo_be.Store.Rows.{OrderRecord}
use kailo_be.Store.Views.{OfframpPayout}
use kailo_be.Store.Table.{is_null}
use kailo_be.Store.Statements.{create_payout, update_orders, update_sep24, update_outbox}
use kailo_be.Store.Calls.{Call, returning, checking}
use kailo_be.Events.Append.{append_order_event_from_source}
use kailo_be.Onramp.Checkouts.{lock_order, same_version}
use kailo_be.Settlement.{Job}
use kailo_be.Offramp.Outcomes.{is_paying, payout_topic}

abbrev pub payout_row : String → OrderRecord → String → Instant → OfframpPayout
payout_row id order reference now = record {
  id = id;
  order_id = order.id;
  method = "sandbox_bank_transfer";
  amount_minor = order.fiat_amount_minor;
  reference_id = reference;
  state = "completed";
  completed_at = some now;
  created_at = now;
  updated_at = now;
}

abbrev pub find_payout : String → Database → Option OfframpPayout
find_payout order_id db =
    find (λ (p : OfframpPayout). str_eq p.order_id order_id) db.offramp_payouts

-- The payout of an order, recorded if it is not there. A unique violation of the insert, after
-- which the code reads the payout again, aborts the transaction on PostgreSQL: the read fails.
abbrev pub ensure_payout : OrderRecord → String → Instant → Option OfframpPayout → Tx OfframpPayout
ensure_payout order reference now (some payout) = pure payout
ensure_payout order reference now none = do
  payout_id ← wrapping "generating payout id" new_id
  wrapping "creating sandbox payout" (create_payout (payout_row payout_id order reference now))
  wrapping "loading sandbox payout" (found record_not_found (← gets (find_payout order.id)))

abbrev pub complete_order : Bool → OrderRecord → Instant → Tx (Unit {0})
complete_order false order now = pure tt
complete_order true order now = do
  update_orders (same_version order) (λ o. record o {
    status = completed;
    version = order.version + 1;
    completed_at = some now;
    updated_at = now;
  })
  append_order_event_from_source order.id (order.version + 1) "payout.simulated" (some order.status)
      (some completed) "worker" now

-- `CompleteSandboxPayout`.
unfoldable pub complete_sandbox_payout : String → String → String → Instant → Tx (Unit {0})
complete_sandbox_payout order_id outbox_id reference now = do
  order ← lock_order "locking payout order" order_id
  raise_if (not (is_paying order.status)) invalid_order_state
  payout ← gets (find_payout order.id) >>= ensure_payout order reference now
  complete_order (status_eq order.status withdrawal_processing) order now
  wrapping "recording SEP-24 payout reference" (
      update_sep24 (λ t. str_eq t.order_id order.id)
        (λ t. record t { external_transaction_id = some payout.reference_id }))
  update_outbox
      (λ m. str_eq m.id outbox_id && str_eq m.topic payout_topic && is_null m.processed_at)
      (λ m. record m {
        processed_at = some now;
        lease_owner = none;
        lease_until = none;
        last_error = none;
      })

pub data SandboxPayoutMode : Type 0 where
  disabled : SandboxPayoutMode
  simulate : SandboxPayoutMode

-- `SandboxPayoutReference`.
abbrev pub sandbox_payout_reference : String → String
sandbox_payout_reference order_id = str_append "sandbox-payout-" (trim_space order_id)

abbrev pub pay_job : Bool → String → String → Instant → Call
pay_job true order_id outbox_id now = returning (err (text "invalid sandbox payout job"))
pay_job false order_id outbox_id now =
    checking (some "completing sandbox payout")
      (complete_sandbox_payout order_id outbox_id (sandbox_payout_reference order_id) now)
      (returning (ok tt))

-- `SandboxPayoutWorker.RunOnce`; the job's intent is the id of the order.
unfoldable pub run_payout : SandboxPayoutMode → Job → Instant → Call
run_payout disabled job now = returning (err (text "sandbox payout simulator is disabled"))
run_payout simulate job now =
    let order_id = trim_space job.intent_id in
    pay_job (is_blank order_id || is_blank (trim_space job.outbox_id)) order_id job.outbox_id now
