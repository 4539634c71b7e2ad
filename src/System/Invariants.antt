-- ===== src/System/Invariants.antt =====
-- What no order of operations breaks.
use kailo_be.Prelude.{List, [], ◌∷◌}
use kailo_be.Store.{Database}
use kailo_be.Store.Triples.{commit-Keeps}
use kailo_be.Store.Frames.{update_orders-Keeps}
use kailo_be.Onramp.Checkouts.{fail_checkout, mark_checkout_unknown}
use kailo_be.Settlement.Turns.{IsSettlementSafe, run_once-keeps}
use kailo_be.Treasury.{IsBalanced}
use kailo_be.Treasury.Orders.{
  reserve_and_create-IsBalanced, attach-IsBalanced, release_failed_order-IsBalanced,
  confirm_payment_and_enqueue-IsBalanced,
}
use kailo_be.Treasury.Settlements.{
  confirm-IsBalanced, fail_permanent-IsBalanced, release_expired_reservations-IsBalanced,
}
use kailo_be.Chronicle.{IsChronicled}
use kailo_be.Chronicle.Orders.{
  reserve_and_create-IsChronicled, attach-IsChronicled, release_failed_order-IsChronicled,
  mark_checkout_unknown-IsChronicled,
}
use kailo_be.Chronicle.Payments.{confirm_payment_and_enqueue-IsChronicled}
use kailo_be.Chronicle.Settlements.{
  confirm-IsChronicled, fail_permanent-IsChronicled, release_expired_reservations-IsChronicled,
}
use kailo_be.Treasury.Orders.{balance_free}
use kailo_be.Chronicle.Deposits.{
  create_offramp-IsChronicled, expire_pending_deposits-IsChronicled,
  record_asset_received-IsChronicled, record_asset_invalid-IsChronicled,
}
use kailo_be.Chronicle.Retirements.{
  simulate_retirement-IsChronicled, confirm_retirement-IsChronicled, fail_retirement-IsChronicled,
  complete_sandbox_payout-IsChronicled,
}
use kailo_be.Offramp.Kept.{
  IsOffOrders, create_offramp-Keeps, expire_pending_deposits-Keeps, record_asset_received-Keeps,
  record_asset_invalid-Keeps, requeue_unsubmitted_retirements-Keeps, simulate_retirement-Keeps,
  confirm_retirement-Keeps, fail_retirement-Keeps, complete_sandbox_payout-Keeps,
}
use kailo_be.Offramp.Turns.{
  IsOfframpSafe, run_retirement-IsSafe, scan_deposits-keeps, run_payout-IsSafe,
}
use kailo_be.System.{
  create_a_sale, expire_the_deposits, scan_the_deposits, run_the_retirement, requeue_retirements,
  run_the_payout, lease_a_job, Operation, buy_asset, sell_asset, create_an_order, attach_a_checkout,
  fail_a_checkout, leave_a_checkout, receive_a_callback, confirm_a_payment, complete_a_callback,
  process_a_callback, run_the_worker, finish_a_job, release_reservations, perform, perform_all,
}
use kailo_be.Onramp.Receipts.{record_callback_receipt-Keeps, complete_callback-Keeps}
use kailo_be.System.Creations.{IsPurchaseSafe, buy-keeps, sell-keeps}
use kailo_be.System.Kept.{
  finish_outbox-Keeps, attach_checkout-keeps, process-IsSafe, lease_outbox-Keeps,
}

balance_safe : IsSettlementSafe IsBalanced
balance_safe = record {
  intents = λ db rows h. h;
  jobs = λ db rows h. h;
  confirms = confirm-IsBalanced;
  fails = fail_permanent-IsBalanced;
}

chronicle_safe : IsSettlementSafe IsChronicled
chronicle_safe = record {
  intents = λ db rows h. h;
  jobs = λ db rows h. h;
  confirms = confirm-IsChronicled;
  fails = fail_permanent-IsChronicled;
}

balance_off : IsOffOrders IsBalanced
balance_off = record {
  free = balance_free;
  orders = λ db rows h. h;
  financials = λ db rows h. h;
  log = λ db rows h. h;
  intents = λ db rows h. h;
  keys = λ db rows h. h;
  payouts = λ db rows h. h;
  sep24 = λ db rows h. h;
}

balance_offramp : IsOfframpSafe IsBalanced
balance_offramp = record {
  intents = λ db rows h. h;
  simulates = simulate_retirement-Keeps balance_off;
  confirms = confirm_retirement-Keeps balance_off;
  fails = fail_retirement-Keeps balance_off;
  receives = record_asset_received-Keeps balance_off;
  invalidates = record_asset_invalid-Keeps balance_off;
  pays = complete_sandbox_payout-Keeps balance_off;
}

chronicle_offramp : IsOfframpSafe IsChronicled
chronicle_offramp = record {
  intents = λ db rows h. h;
  simulates = simulate_retirement-IsChronicled;
  confirms = confirm_retirement-IsChronicled;
  fails = fail_retirement-IsChronicled;
  receives = record_asset_received-IsChronicled;
  invalidates = record_asset_invalid-IsChronicled;
  pays = complete_sandbox_payout-IsChronicled;
}

balance_purchases : IsPurchaseSafe IsBalanced
unfolding fail_checkout mark_checkout_unknown
balance_purchases = record {
  supply = λ db ids h. h;
  reserves = reserve_and_create-IsBalanced;
  attaches = attach-IsBalanced;
  fails = λ order_id now. release_failed_order-IsBalanced order_id _ _ now;
  marks = λ order_id now. update_orders-Keeps (λ db rows h. h) _ _;
}

chronicle_purchases : IsPurchaseSafe IsChronicled
unfolding fail_checkout
chronicle_purchases = record {
  supply = λ db ids h. h;
  reserves = reserve_and_create-IsChronicled;
  attaches = attach-IsChronicled;
  fails = λ order_id now. release_failed_order-IsChronicled order_id _ now;
  marks = mark_checkout_unknown-IsChronicled;
}

perform-IsBalanced : (op : Operation) (db : Database) → IsBalanced db → IsBalanced (perform op db)
unfolding fail_checkout mark_checkout_unknown
perform-IsBalanced (buy_asset s c) = buy-keeps balance_purchases s c
perform-IsBalanced (sell_asset s c) =
    sell-keeps (λ db ids h. h) (create_offramp-Keeps balance_off) s c
perform-IsBalanced (create_an_order r c observed) =
    commit-Keeps (reserve_and_create-IsBalanced r c observed)
perform-IsBalanced (attach_a_checkout order_id checkout now) =
    attach_checkout-keeps order_id checkout now (attach-IsBalanced order_id checkout now)
perform-IsBalanced (fail_a_checkout order_id now) =
    commit-Keeps (release_failed_order-IsBalanced order_id _ _ now)
perform-IsBalanced (leave_a_checkout order_id now) =
    commit-Keeps (update_orders-Keeps (λ db rows h. h) _ _)
perform-IsBalanced (receive_a_callback receipt now) =
    commit-Keeps
      (record_callback_receipt-Keeps (λ db ids h. h) (λ db rows h. h) receipt now _ (λ db h. h))
perform-IsBalanced (confirm_a_payment order_id event_id now) =
    commit-Keeps (confirm_payment_and_enqueue-IsBalanced order_id event_id now)
perform-IsBalanced (complete_a_callback event_id result now) =
    commit-Keeps (complete_callback-Keeps (λ db ids h. h) (λ db rows h. h) event_id result now)
perform-IsBalanced (process_a_callback gateway digest now raw token) =
    process-IsSafe (λ db ids h. h) (λ db rows h. h) confirm_payment_and_enqueue-IsBalanced gateway
      digest now raw token
perform-IsBalanced (create_a_sale r c) = commit-Keeps (create_offramp-Keeps balance_off r c)
perform-IsBalanced (expire_the_deposits now limit) =
    commit-Keeps (expire_pending_deposits-Keeps balance_off now limit)
perform-IsBalanced (scan_the_deposits deposit_memo now deposit_account recent) =
    scan_deposits-keeps balance_offramp deposit_memo now deposit_account recent
perform-IsBalanced (run_the_retirement w intent_id) =
    run_retirement-IsSafe balance_offramp w intent_id
perform-IsBalanced (requeue_retirements now max_attempts) =
    commit-Keeps (requeue_unsubmitted_retirements-Keeps (λ db rows h. h) now max_attempts)
perform-IsBalanced (run_the_payout mode job now) = run_payout-IsSafe balance_offramp mode job now
perform-IsBalanced (lease_a_job topic max_attempts worker now duration decode) =
    commit-Keeps (lease_outbox-Keeps (λ db rows h. h) topic max_attempts worker now duration decode)
perform-IsBalanced (run_the_worker network config worker) =
    run_once-keeps balance_safe network config worker
perform-IsBalanced (finish_a_job topic aggregate_id now) =
    commit-Keeps (finish_outbox-Keeps (λ db rows h. h) topic aggregate_id now)
perform-IsBalanced (release_reservations now limit) =
    commit-Keeps (release_expired_reservations-IsBalanced now limit)

perform-IsChronicled :
    (op : Operation) (db : Database) → IsChronicled db → IsChronicled (perform op db)
unfolding fail_checkout
perform-IsChronicled (buy_asset s c) = buy-keeps chronicle_purchases s c
perform-IsChronicled (sell_asset s c) = sell-keeps (λ db ids h. h) (create_offramp-IsChronicled) s c
perform-IsChronicled (create_an_order r c observed) =
    commit-Keeps (reserve_and_create-IsChronicled r c observed)
perform-IsChronicled (attach_a_checkout order_id checkout now) =
    attach_checkout-keeps order_id checkout now (attach-IsChronicled order_id checkout now)
perform-IsChronicled (fail_a_checkout order_id now) =
    commit-Keeps (release_failed_order-IsChronicled order_id _ now)
perform-IsChronicled (leave_a_checkout order_id now) =
    commit-Keeps (mark_checkout_unknown-IsChronicled order_id now)
perform-IsChronicled (receive_a_callback receipt now) =
    commit-Keeps
      (record_callback_receipt-Keeps (λ db ids h. h) (λ db rows h. h) receipt now _ (λ db h. h))
perform-IsChronicled (confirm_a_payment order_id event_id now) =
    commit-Keeps (confirm_payment_and_enqueue-IsChronicled order_id event_id now)
perform-IsChronicled (complete_a_callback event_id result now) =
    commit-Keeps (complete_callback-Keeps (λ db ids h. h) (λ db rows h. h) event_id result now)
perform-IsChronicled (process_a_callback gateway digest now raw token) =
    process-IsSafe (λ db ids h. h) (λ db rows h. h) confirm_payment_and_enqueue-IsChronicled gateway
      digest now raw token
perform-IsChronicled (create_a_sale r c) = commit-Keeps (create_offramp-IsChronicled r c)
perform-IsChronicled (expire_the_deposits now limit) =
    commit-Keeps (expire_pending_deposits-IsChronicled now limit)
perform-IsChronicled (scan_the_deposits deposit_memo now deposit_account recent) =
    scan_deposits-keeps chronicle_offramp deposit_memo now deposit_account recent
perform-IsChronicled (run_the_retirement w intent_id) =
    run_retirement-IsSafe chronicle_offramp w intent_id
perform-IsChronicled (requeue_retirements now max_attempts) =
    commit-Keeps (requeue_unsubmitted_retirements-Keeps (λ db rows h. h) now max_attempts)
perform-IsChronicled (run_the_payout mode job now) =
    run_payout-IsSafe chronicle_offramp mode job now
perform-IsChronicled (lease_a_job topic max_attempts worker now duration decode) =
    commit-Keeps (lease_outbox-Keeps (λ db rows h. h) topic max_attempts worker now duration decode)
perform-IsChronicled (run_the_worker network config worker) =
    run_once-keeps chronicle_safe network config worker
perform-IsChronicled (finish_a_job topic aggregate_id now) =
    commit-Keeps (finish_outbox-Keeps (λ db rows h. h) topic aggregate_id now)
perform-IsChronicled (release_reservations now limit) =
    commit-Keeps (release_expired_reservations-IsChronicled now limit)

-- Whatever operations run, in whatever order and with whatever outcome: if the treasury's accounts
-- reserve exactly what is held on them, they still do afterwards.
pub treasury_conserved :
    (ops : List Operation) (db : Database) → IsBalanced db → IsBalanced (perform_all ops db)
treasury_conserved [] db h = h
treasury_conserved (op ∷ rest) db h =
    treasury_conserved rest (perform op db) (perform-IsBalanced op db h)

-- Whatever operations run, in whatever order and with whatever outcome: if replaying the event log
-- of every order through `Transition` gives the status and the version of its row, it still does
-- afterwards.
pub log_replays :
    (ops : List Operation) (db : Database) → IsChronicled db → IsChronicled (perform_all ops db)
log_replays [] db h = h
log_replays (op ∷ rest) db h = log_replays rest (perform op db) (perform-IsChronicled op db h)
