-- ===== src/Order/Transitions.antt =====
-- The transitions of internal/order/service/service.go make the steps of an order alone.
use event_driven_ecommerce.Base.{ℕ, String, ◌≡◌, refl, true, Option, none, some, arith}
use event_driven_ecommerce.Order.Enums.{
  OrderStatus, status_unspecified, pending, awaiting_payment, confirmed, cancelled, shipped,
  completed, unknown_status,
}
use event_driven_ecommerce.Order.Domain.{Order}
use event_driven_ecommerce.Order.Service.{
  can_cancel_order, cancel_order_with_reason, inventory_reserved_transition,
  payment_captured_transition, failed_transition,
}
use event_driven_ecommerce.Order.Lifecycle.{
  Step, reserve, capture_pending, capture, cancel_pending, cancel_awaiting, cancel_confirmed,
}

-- A change keeps the id and makes one step.
abbrev pub LawfulAt : OrderStatus → Option (ℕ → Order → Order) → Type 0
LawfulAt s none = Unit
LawfulAt s (some change) =
    (at : ℕ) (o : Order) → o.status ≡ s → Step s (change at o).status × ((change at o).id ≡ o.id)

pub inventory_reserved_lawful : (s : OrderStatus) → LawfulAt s (inventory_reserved_transition s)
unfolding inventory_reserved_transition
inventory_reserved_lawful pending = λ at o h. (reserve, refl)
inventory_reserved_lawful status_unspecified = tt
inventory_reserved_lawful awaiting_payment = tt
inventory_reserved_lawful confirmed = tt
inventory_reserved_lawful cancelled = tt
inventory_reserved_lawful shipped = tt
inventory_reserved_lawful completed = tt
inventory_reserved_lawful (unknown_status n) = tt

pub payment_captured_lawful : (s : OrderStatus) → LawfulAt s (payment_captured_transition s)
unfolding payment_captured_transition
payment_captured_lawful pending = λ at o h. (capture_pending, refl)
payment_captured_lawful awaiting_payment = λ at o h. (capture, refl)
payment_captured_lawful status_unspecified = tt
payment_captured_lawful confirmed = tt
payment_captured_lawful cancelled = tt
payment_captured_lawful shipped = tt
payment_captured_lawful completed = tt
payment_captured_lawful (unknown_status n) = tt

pub failed_lawful : (reason : String) (s : OrderStatus) → LawfulAt s (failed_transition reason s)
unfolding failed_transition cancel_order_with_reason
failed_lawful reason pending = λ at o h. (cancel_pending, refl)
failed_lawful reason awaiting_payment = λ at o h. (cancel_awaiting, refl)
failed_lawful reason status_unspecified = tt
failed_lawful reason confirmed = tt
failed_lawful reason cancelled = tt
failed_lawful reason shipped = tt
failed_lawful reason completed = tt
failed_lawful reason (unknown_status n) = tt

pub cancel_lawful : (s : OrderStatus) → can_cancel_order s ≡ true → Step s cancelled
unfolding can_cancel_order
cancel_lawful pending h = cancel_pending
cancel_lawful awaiting_payment h = cancel_awaiting
cancel_lawful confirmed h = cancel_confirmed
cancel_lawful status_unspecified h = absurd (ground (arith, h))
cancel_lawful cancelled h = absurd (ground (arith, h))
cancel_lawful shipped h = absurd (ground (arith, h))
cancel_lawful completed h = absurd (ground (arith, h))
cancel_lawful (unknown_status n) h = absurd (ground (arith, h))
