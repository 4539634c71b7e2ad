-- ===== src/Order/Lifecycle.antt =====
-- What the transitions of internal/entity/order.go make of an order's whole life.
use kailo_be.Prelude.{
  ℕ, ◌+◌, ◌≤◌, ◌≡◌, ◌≢◌, refl, sym, ◌⊎◌, inl, inr, arith, List, [], ◌∷◌, Bool, true, false, ◌&&◌,
  ◌||◌,
}
use mathlib.Core.Path.{subst}
use kailo_be.Order.{
  OrderStatus, unknown, created, payment_pending, payment_confirmed, stellar_processing,
  payment_failed, stellar_failed, asset_pending, asset_received, asset_invalid,
  retirement_processing, withdrawal_processing, retirement_failed, withdrawal_failed, Order,
  transition,
}
use kailo_be.Order.Diagram.{
  ◌⟶◌, ◌⟶*◌, here, next, checkout_created, checkout_rejected, instructions_issued,
  transition_follows_diagram,
}

-- Calls of `Transition` one after the other; what a refused one returns is dropped.
abbrev pub transition_all : Order → List OrderStatus → Order
transition_all order [] = order
transition_all order (s ∷ rest) = transition_all (transition order s).0 rest

-- How far along its life an order is; 5 is the end.
abbrev pub stage : OrderStatus → ℕ
stage unknown = 5
stage created = 0
stage payment_pending = 1
stage payment_confirmed = 2
stage stellar_processing = 3
stage asset_pending = 1
stage asset_received = 2
stage retirement_processing = 3
stage withdrawal_processing = 4
stage _ = 5

stage-le : (s : OrderStatus) → stage s ≤ 5
stage-le unknown = omega arith
stage-le _ = omega arith

⟶-stage : {s t : OrderStatus} → s ⟶ t → stage s + 1 ≤ stage t
⟶-stage checkout_created = omega arith
⟶-stage _ = omega arith

-- One call either follows an edge and raises the version, or changes nothing.
transition-cases :
    (order : Order) (s : OrderStatus)
    → ((order.status ⟶ (transition order s).0.status)
        × ((transition order s).0.version ≡ order.version + 1))
      ⊎ ((transition order s).0 ≡ order)
transition-cases order s = elim (transition_follows_diagram order s) [
  | inl (edge, e) ↦ inl (rw e edge, rw e)
  | inr (none_such, e) ↦ inr (rw e)
]

pub transition_all-⟶* :
    (order : Order) (ss : List OrderStatus) → order.status ⟶* (transition_all order ss).status
transition_all-⟶* order [] = here
transition_all-⟶* order (s ∷ rest) = elim (transition-cases order s) [
  | inl (edge, e) ↦ prepend edge (transition_all-⟶* (transition order s).0 rest)
  | inr e ↦
      subst (λ (o : Order). order.status ⟶* (transition_all o rest).status) (sym e)
        (transition_all-⟶* order rest)
]
  where
    prepend : {a b c : OrderStatus} → a ⟶ b → b ⟶* c → a ⟶* c
    prepend edge here = next here edge
    prepend edge (next path last) = next (prepend edge path) last

version_by_stage :
    (order : Order) (ss : List OrderStatus)
    → (transition_all order ss).version + stage order.status
      ≤ order.version + stage (transition_all order ss).status
version_by_stage order [] = omega arith
version_by_stage order (s ∷ rest) = elim (transition-cases order s) [
  | inl (edge, e) ↦ omega (arith, ⟶-stage edge, version_by_stage (transition order s).0 rest)
  | inr e ↦
      subst
        (λ (o : Order).
          (transition_all o rest).version + stage order.status
          ≤ order.version + stage (transition_all o rest).status)
        (sym e) (version_by_stage order rest)
]

-- No call can move an order on more than five times: over its whole life the version rises by five
-- at most.
pub version_bounded :
    (order : Order) (ss : List OrderStatus) → (transition_all order ss).version ≤ order.version + 5
version_bounded order ss =
    omega (arith, version_by_stage order ss, stage-le (transition_all order ss).status)

abbrev pub is_terminal : OrderStatus → Bool
is_terminal created = false
is_terminal payment_pending = false
is_terminal payment_confirmed = false
is_terminal stellar_processing = false
is_terminal asset_pending = false
is_terminal asset_received = false
is_terminal retirement_processing = false
is_terminal withdrawal_processing = false
is_terminal _ = true

terminal-⟶ : {s t : OrderStatus} → s ⟶ t → is_terminal s ≡ false
terminal-⟶ checkout_created = refl
terminal-⟶ _ = refl

-- An order in a terminal status keeps its status and its version, whatever statuses it is asked to
-- take.
pub terminal_immutable :
    (order : Order) (ss : List OrderStatus)
    → is_terminal order.status ≡ true
    → transition_all order ss ≡ order
terminal_immutable order [] t = refl
terminal_immutable order (s ∷ rest) t = elim (transition-cases order s) [
  | inl (edge, e) ↦ absurd (cc (terminal-⟶ edge))
  | inr e ↦
      subst (λ (o : Order). transition_all o rest ≡ order) (sym e) (terminal_immutable order rest t)
]

-- The statuses of the buy side alone, and of the sell side alone.
abbrev pub is_onramp : OrderStatus → Bool
is_onramp payment_pending = true
is_onramp payment_confirmed = true
is_onramp stellar_processing = true
is_onramp payment_failed = true
is_onramp stellar_failed = true
is_onramp _ = false

abbrev pub is_offramp : OrderStatus → Bool
is_offramp asset_pending = true
is_offramp asset_received = true
is_offramp asset_invalid = true
is_offramp retirement_processing = true
is_offramp withdrawal_processing = true
is_offramp retirement_failed = true
is_offramp withdrawal_failed = true
is_offramp _ = false

-- A status that is neither new nor of the other side.
abbrev OffSide : (OrderStatus → Bool) → OrderStatus → Type 0
OffSide side s = (side s ≡ false) × (s ≢ created)

path_OffSide :
    (side : OrderStatus → Bool)
    → ((s t : OrderStatus) → s ⟶ t → OffSide side s → OffSide side t)
    → {s t : OrderStatus} → s ⟶* t
    → OffSide side s
    → OffSide side t
path_OffSide side edge here h = h
path_OffSide side edge (next {t = m} {u = u} path last) h =
    edge m u last (path_OffSide side edge path h)

onramp_edge : (s t : OrderStatus) → s ⟶ t → OffSide is_offramp s → OffSide is_offramp t
onramp_edge s t instructions_issued (a, b) = absurd (b refl)
onramp_edge s t e h = grind arith

offramp_edge : (s t : OrderStatus) → s ⟶ t → OffSide is_onramp s → OffSide is_onramp t
offramp_edge s t checkout_created (a, b) = absurd (b refl)
offramp_edge s t checkout_rejected (a, b) = absurd (b refl)
offramp_edge s t e h = grind arith

-- One status is of the buy side alone and the other of the sell side alone.
abbrev pub crosses : OrderStatus → OrderStatus → Bool
crosses s t = is_onramp s && is_offramp t || is_offramp s && is_onramp t

-- Whatever statuses it is asked to take, an order in a status of the buy side alone never ends in
-- one of the sell side alone, and the other way round.
pub sides_separate :
    (order : Order) (ss : List OrderStatus)
    → crosses order.status (transition_all order ss).status ≡ false
sides_separate order ss = grind (arith, onramp_stays, offramp_stays, is_onramp, is_offramp)
  where
    onramp_start : (s : OrderStatus) → is_onramp s ≡ true → OffSide is_offramp s
    onramp_start s h = ground arith

    offramp_start : (s : OrderStatus) → is_offramp s ≡ true → OffSide is_onramp s
    offramp_start s h = ground arith

    onramp_stays :
        is_onramp order.status ≡ true → is_offramp (transition_all order ss).status ≡ false
    onramp_stays h =
        (path_OffSide is_offramp onramp_edge (transition_all-⟶* order ss)
          (onramp_start order.status h)).0

    offramp_stays :
        is_offramp order.status ≡ true → is_onramp (transition_all order ss).status ≡ false
    offramp_stays h =
        (path_OffSide is_onramp offramp_edge (transition_all-⟶* order ss)
          (offramp_start order.status h)).0
