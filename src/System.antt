-- ===== src/System.antt =====
-- The order workflows in any order: what the API, the payment callbacks, the scanner of deposits and
-- the workers of internal/usecase and internal/repository do to one database, call by call.
mod Kept
mod Creations
pub mod Invariants
mod Tests
mod CallbackTests
mod OfframpTests
mod CreateTests
use kailo_be.Prelude.{String, Bool, List, [], ◌∷◌, ℕ}
use kailo_be.Prelude.Int.{ℤ}
use kailo_be.Prelude.Time.{Instant}
use kailo_be.Store.{Database, commit}
use kailo_be.Store.Views.{Checkout}
use kailo_be.Onramp.{OnrampRepository, CreateRecord, reserve_and_create}
use kailo_be.Onramp.Checkouts.{attach_checkout, fail_checkout, mark_checkout_unknown}
use kailo_be.Onramp.Payments.{
  CallbackReceipt, record_callback_receipt, confirm_payment_and_enqueue, complete_callback,
}
use kailo_be.Onramp.Callbacks.{CallbackGateway, process}
use kailo_be.Prelude.Errors.{Result}
use kailo_be.Onramp.Create.{OnrampServices, Command, buy}
use kailo_be.Offramp.Create.{OfframpServices, OfframpCommand, sell}
use kailo_be.Store.Rows.{OutboxPayload}
use kailo_be.Offramp.{OfframpRepository, OfframpCreateRecord, create_offramp}
use kailo_be.Offramp.Deposits.{ObservedPayment, expire_pending_deposits}
use kailo_be.Offramp.Retirement.{requeue_unsubmitted_retirements}
use kailo_be.Offramp.Payouts.{SandboxPayoutMode, run_payout}
use kailo_be.Offramp.Scanner.{scan_deposits}
use kailo_be.Offramp.RetireWorker.{RetireWorker, run_retirement}
use kailo_be.Settlement.{Job, finish_outbox, lease_outbox}
use kailo_be.Settlement.Expiry.{release_expired_reservations}
use kailo_be.Settlement.Worker.{Network, SettlementConfig, run_once}

-- One call, with its arguments and the time of its clock.
pub data Operation : Type 0 where
  buy_asset : OnrampServices → Command → Operation
  sell_asset : OfframpServices → OfframpCommand → Operation
  create_an_order : OnrampRepository → CreateRecord → ℤ → Operation
  attach_a_checkout : String → Checkout → Instant → Operation
  fail_a_checkout : String → Instant → Operation
  leave_a_checkout : String → Instant → Operation
  receive_a_callback : CallbackReceipt → Instant → Operation
  confirm_a_payment : String → String → Instant → Operation
  complete_a_callback : String → String → Instant → Operation
  process_a_callback : CallbackGateway → (String → String) → Instant → String → String → Operation
  create_a_sale : OfframpRepository → OfframpCreateRecord → Operation
  expire_the_deposits : Instant → ℕ → Operation
  scan_the_deposits :
      (String → String) → Instant → String → Result (List ObservedPayment) → Operation
  run_the_retirement : RetireWorker → String → Operation
  requeue_retirements : Instant → ℕ → Operation
  run_the_payout : SandboxPayoutMode → Job → Instant → Operation
  lease_a_job : String → ℕ → String → Instant → ℤ → (OutboxPayload → Result Job) → Operation
  run_the_worker : Network → SettlementConfig → String → Operation
  finish_a_job : String → String → Instant → Operation
  release_reservations : Instant → ℕ → Operation

abbrev pub perform : Operation → Database → Database
perform (buy_asset s c) db = (buy s c db).1
perform (sell_asset s c) db = (sell s c db).1
perform (create_an_order r c observed) db = (commit (reserve_and_create r c observed) db).1
perform (attach_a_checkout order_id checkout now) db = (attach_checkout order_id checkout now db).1
perform (fail_a_checkout order_id now) db = (commit (fail_checkout order_id now) db).1
perform (leave_a_checkout order_id now) db = (commit (mark_checkout_unknown order_id now) db).1
perform (receive_a_callback receipt now) db =
    (commit (record_callback_receipt receipt now (λ db. db)) db).1
perform (confirm_a_payment order_id event_id now) db =
    (commit (confirm_payment_and_enqueue order_id event_id now) db).1
perform (complete_a_callback event_id result now) db =
    (commit (complete_callback event_id result now) db).1
perform (process_a_callback gateway digest now raw token) db =
    (process gateway digest now raw token db).1
perform (create_a_sale r c) db = (commit (create_offramp r c) db).1
perform (expire_the_deposits now limit) db = (commit (expire_pending_deposits now limit) db).1
perform (scan_the_deposits deposit_memo now deposit_account recent) db =
    (scan_deposits deposit_memo now deposit_account recent db).1
perform (run_the_retirement w intent_id) db = (run_retirement w intent_id db).1
perform (requeue_retirements now max_attempts) db =
    (commit (requeue_unsubmitted_retirements now max_attempts) db).1
perform (run_the_payout mode job now) db = (run_payout mode job now db).1
perform (lease_a_job topic max_attempts worker now duration decode) db =
    (commit (lease_outbox topic max_attempts worker now duration decode) db).1
perform (run_the_worker network config worker) db = (run_once network config worker db).1
perform (finish_a_job topic aggregate_id now) db =
    (commit (finish_outbox topic aggregate_id now) db).1
perform (release_reservations now limit) db = (commit (release_expired_reservations now limit) db).1

abbrev pub perform_all : List Operation → Database → Database
perform_all [] db = db
perform_all (op ∷ rest) db = perform_all rest (perform op db)
