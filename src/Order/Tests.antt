-- ===== src/Order/Tests.antt =====
-- Runs of internal/entity/order.go, after its tests in order_test.go.
use kailo_be.Prelude.{◌+◌, ◌≤◌, ◌≡◌, ◌⊎◌, refl, List, [], ◌∷◌, none, some, false}
use kailo_be.Prelude.Errors.{invalid_order_state}
use kailo_be.Order.{
  OrderStatus, created, payment_pending, payment_confirmed, stellar_processing, completed, expired,
  asset_pending, asset_received, Order, transition,
}
use kailo_be.Order.Diagram.{◌⟶◌, transition_follows_diagram}
use kailo_be.Order.Lifecycle.{
  transition_all, crosses, version_bounded, terminal_immutable, sides_separate,
}

abbrev new_order : Order
new_order = record { status = created; version = 1 }

abbrev happy : List OrderStatus
happy = payment_pending ∷ payment_confirmed ∷ asset_received ∷ stellar_processing ∷ completed ∷ []

happy_run : transition_all new_order happy ≡ record { status = completed; version = 5 }
unfolding transition
happy_run = refl

skipped_payment : transition new_order completed ≡ (new_order, some invalid_order_state)
unfolding transition
skipped_payment = refl

transition_follows_diagram_example :
    ((created ⟶ payment_pending)
      × (transition new_order payment_pending
          ≡ (record { status = payment_pending; version = 1 + 1 }, none)))
    ⊎ ((¬ (created ⟶ payment_pending))
        × (transition new_order payment_pending ≡ (new_order, some invalid_order_state)))
transition_follows_diagram_example = transition_follows_diagram new_order payment_pending

version_bounded_example : (transition_all new_order happy).version ≤ 1 + 5
version_bounded_example = version_bounded new_order happy

terminal_immutable_example :
    transition_all (record { status = expired; version = 3 }) happy
    ≡ record { status = expired; version = 3 }
terminal_immutable_example =
    terminal_immutable (record { status = expired; version = 3 }) happy refl

abbrev sell_order : Order
sell_order = record { status = asset_pending; version = 2 }

sides_separate_example : crosses asset_pending (transition_all sell_order happy).status ≡ false
sides_separate_example = sides_separate sell_order happy
