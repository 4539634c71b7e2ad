-- ===== src/Order/Diagram.antt =====
-- The lifecycle diagrams of documentations/backend/ORDER-STATE-MACHINES.md (sections 2 and 3),
-- against the switch of internal/entity/order.go.
use kailo_be.Prelude.{◌+◌, ◌≡◌, refl, true, none, some, arith, Bool-cases, inl, inr, ◌⊎◌}
use kailo_be.Prelude.Errors.{invalid_order_state}
use kailo_be.Order.{
  OrderStatus, created, payment_pending, payment_confirmed, stellar_processing, completed, expired,
  payment_failed, stellar_failed, cancelled, asset_pending, asset_received, asset_invalid,
  retirement_processing, withdrawal_processing, retirement_failed, withdrawal_failed, Order,
  allowed_transition, transition,
}

infix 40 ◌⟶◌ ◌⟶*◌
pub data ◌⟶◌ : OrderStatus → OrderStatus → Type 0 where
  checkout_created : created ⟶ payment_pending
  checkout_rejected : created ⟶ payment_failed
  order_cancelled : created ⟶ cancelled
  instructions_issued : created ⟶ asset_pending
  payment_verified : payment_pending ⟶ payment_confirmed
  checkout_expired : payment_pending ⟶ expired
  payment_refused : payment_pending ⟶ payment_failed
  payment_cancelled : payment_pending ⟶ cancelled
  issuance_persisted : payment_confirmed ⟶ stellar_processing
  transfer_confirmed : stellar_processing ⟶ completed
  transfer_failed : stellar_processing ⟶ stellar_failed
  asset_verified : asset_pending ⟶ asset_received
  window_expired : asset_pending ⟶ expired
  asset_mismatched : asset_pending ⟶ asset_invalid
  deposit_cancelled : asset_pending ⟶ cancelled
  retirement_persisted : asset_received ⟶ retirement_processing
  retirement_confirmed : retirement_processing ⟶ withdrawal_processing
  retirement_refused : retirement_processing ⟶ retirement_failed
  payout_recorded : withdrawal_processing ⟶ completed
  payout_failed : withdrawal_processing ⟶ withdrawal_failed

pub data ◌⟶*◌ (s : OrderStatus) : OrderStatus → Type 0 where
  here : s ⟶* s
  next : {t u : OrderStatus} → s ⟶* t → t ⟶ u → s ⟶* u

pub ruleset edges = (
  checkout_created, checkout_rejected, order_cancelled, instructions_issued, payment_verified,
  checkout_expired, payment_refused, payment_cancelled, issuance_persisted, transfer_confirmed,
  transfer_failed, asset_verified, window_expired, asset_mismatched, deposit_cancelled,
  retirement_persisted, retirement_confirmed, retirement_refused, payout_recorded, payout_failed,
)

-- An edge of the diagrams is allowed by the switch.
pub ⟶-allowed_transition : {s t : OrderStatus} → s ⟶ t → allowed_transition s t ≡ true
unfolding allowed_transition
⟶-allowed_transition checkout_created = refl
⟶-allowed_transition _ = refl

-- What the switch allows is an edge of the diagrams.
pub allowed_transition-⟶ : (s t : OrderStatus) → allowed_transition s t ≡ true → s ⟶ t
unfolding allowed_transition
allowed_transition-⟶ created t h = grind (arith, edges)
allowed_transition-⟶ payment_pending t h = grind (arith, edges)
allowed_transition-⟶ payment_confirmed t h = grind (arith, edges)
allowed_transition-⟶ stellar_processing t h = grind (arith, edges)
allowed_transition-⟶ asset_pending t h = grind (arith, edges)
allowed_transition-⟶ asset_received t h = grind (arith, edges)
allowed_transition-⟶ retirement_processing t h = grind (arith, edges)
allowed_transition-⟶ withdrawal_processing t h = grind (arith, edges)
allowed_transition-⟶ _ t h = cc

-- `Transition` accepts a status exactly when the diagrams have that edge; it then stores the status
-- and raises the version by one, and otherwise it reports an invalid state and changes nothing.
pub transition_follows_diagram :
    (order : Order) (target : OrderStatus)
    → ((order.status ⟶ target)
        × (transition order target
            ≡ (record { status = target; version = order.version + 1 }, none)))
      ⊎ ((¬ (order.status ⟶ target))
          × (transition order target ≡ (order, some invalid_order_state)))
transition_follows_diagram order target =
    elim (Bool-cases (allowed_transition order.status target)) [
      | inl accepted ↦
          inl (allowed_transition-⟶ order.status target accepted, unfold transition in ground arith)
      | inr refused ↦
          inr (λ edge. cc (⟶-allowed_transition edge), unfold transition in ground arith)
    ]
