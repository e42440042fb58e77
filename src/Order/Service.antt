-- ===== src/Order/Service.antt =====
-- internal/order/service/service.go.
mod Requests
unfoldable pub use Requests.*
use event_driven_ecommerce.Base.{
  ℕ, String, str_eq, Bool, true, false, not, ◌&&◌, ◌||◌, ℤ, pos, leb_ℤ, ◌+ℤ◌, ◌*ℤ◌, wrap_i64,
  Option, none, some, List, [], ◌∷◌, map, if◌then◌else◌, on_some, is_blank, is_empty, trim_space,
  format_int, ◌<>◌, Result, ok, err, ◌>>=◌, ◌>>◌, pure, fail, fail_if, try, Failure, domain, now,
}
use event_driven_ecommerce.Events.{Codec}
use event_driven_ecommerce.Order.Enums.{
  Currency, currency_unspecified, OrderStatus, pending, awaiting_payment, confirmed, cancelled,
  is_currency_unspecified, is_method_unspecified, same_currency, same_method, same_ℤ, is_cancelled,
}
use event_driven_ecommerce.Order.Domain.{
  Money, OrderItem, Address, PaymentDetails, Order, OrderError, Call, invalid_order,
  idempotency_key_conflict, idempotency_key_already_exists, order_not_found, invalid_order_id,
  order_cannot_be_cancelled,
}
use event_driven_ecommerce.Order.Repository
use event_driven_ecommerce.Order.Repository.{get_order_by_id, get_order_by_idempotency_key}

unfoldable pub cancel_order_with_reason : ℕ → String → Order → Order
cancel_order_with_reason at reason order = record order {
  status = cancelled;
  cancel_reason = trim_space reason;
  updated_at = some at;
}

unfoldable pub can_cancel_order : OrderStatus → Bool
can_cancel_order pending = true
can_cancel_order awaiting_payment = true
can_cancel_order confirmed = true
can_cancel_order s = false

abbrev pub moved_to : OrderStatus → ℕ → Order → Order
moved_to s at order = record order { status = s; cancel_reason = ""; updated_at = some at }

-- What an event does to an order of some status: nothing, or a new order, given the clock.
abbrev pub Transition : Type 0
Transition = OrderStatus → Option (ℕ → Order → Order)

unfoldable pub inventory_reserved_transition : Transition
inventory_reserved_transition pending = some (moved_to awaiting_payment)
inventory_reserved_transition s = none

unfoldable pub payment_captured_transition : Transition
payment_captured_transition pending = some (moved_to confirmed)
payment_captured_transition awaiting_payment = some (moved_to confirmed)
payment_captured_transition s = none

-- The transition of `MarkInventoryReservationFailed`, `MarkPaymentFailed` and
-- `MarkPaymentCreationFailed`.
unfoldable pub failed_transition : String → Transition
unfolding cancel_order_with_reason
failed_transition reason pending = some (λ at order. cancel_order_with_reason at reason order)
failed_transition reason awaiting_payment =
    some (λ at order. cancel_order_with_reason at reason order)
failed_transition reason s = none

abbrev pub or_default : String → String → String
or_default text reason = if is_blank reason then text else reason

-- `errors.Is(err, ErrOrderNotFound)`, and the same of ErrIdempotencyKeyAlreadyExists.
abbrev pub is_not_found : Failure OrderError → Bool
is_not_found (domain order_not_found) = true
is_not_found e = false

abbrev pub is_key_taken : Failure OrderError → Bool
is_key_taken (domain idempotency_key_already_exists) = true
is_key_taken e = false

-- The order that a key belongs to, if it is the same order.
unfoldable pub same_or_conflict : Order → Order → Call Order
same_or_conflict existing order =
    if orders_match_for_idempotency existing order
    then pure existing
    else fail (domain idempotency_key_conflict)

module _ (codec : Codec) (order_created_topic order_cancelled_topic : String) where
  unfoldable pub update_order : Order → Call Order
  update_order = Repository.update_order codec order_created_topic order_cancelled_topic

  unfoldable pub id_or_new : String → Call String
  id_or_new id = if is_blank id then (now >>= λ at. pure ("ord-" <> format_int at)) else pure id

  unfoldable pub after_create : Order → Result (Failure OrderError) Order → Call Order
  after_create order (ok created) = pure created
  after_create order (err e) =
      if not (is_empty order.idempotency_key) && is_key_taken e
      then (get_order_by_idempotency_key order.idempotency_key >>= λ existing.
          same_or_conflict existing order)
      else fail e

  abbrev pub new_order : Order → String → Priced → ℕ → Order
  new_order order id priced at = record order {
    id = id;
    items = priced.items;
    total_amount = priced.total;
    status = pending;
    cancel_reason = "";
    created_at = some at;
    updated_at = some at;
  }

  -- `CreateOrder` from the choice of the id on, for an order that is normalized.
  unfoldable pub create_new : Order → Call Order
  create_new order = do
    id ← id_or_new order.id
    on_some (price_items currency_unspecified (pos 0) order.items) (fail (domain invalid_order))
        λ priced. do
          at ← now
          let created : Order = new_order order id priced at
          outcome ←
              try (Repository.create_order codec order_created_topic order_cancelled_topic created)
          after_create created outcome

  unfoldable pub after_lookup : Order → Result (Failure OrderError) Order → Call Order
  after_lookup order (ok existing) = same_or_conflict existing order
  after_lookup order (err e) = if is_not_found e then create_new order else fail e

  unfoldable pub create_normalized : Order → Call Order
  create_normalized order = do
    fail_if (validate_create_order order) (domain invalid_order)
    if is_empty order.idempotency_key
        then create_new order
        else (try (get_order_by_idempotency_key order.idempotency_key) >>= after_lookup order)

  unfoldable pub create_order : Order → Call Order
  create_order raw = create_normalized (normalize_order_input raw)

  unfoldable pub cancel_found : String → Order → Call Order
  cancel_found reason order =
      if is_cancelled order.status
      then pure order
      else (fail_if (not (can_cancel_order order.status)) (domain order_cannot_be_cancelled)
          >> (now >>= λ at. update_order (cancel_order_with_reason at reason order)))

  unfoldable pub cancel_order : String → String → Call Order
  cancel_order id reason = do
    fail_if (is_blank id) (domain invalid_order_id)
    fail_if (is_blank reason) (domain invalid_order)
    order ← get_order_by_id id
    cancel_found (trim_space reason) order

  unfoldable pub apply_transition : Transition → Order → Call Order
  apply_transition f order =
      on_some (f order.status) (pure order) λ change. now >>= λ at. update_order (change at order)

  unfoldable pub transition_order : String → Transition → Call Order
  transition_order id f = get_order_by_id id >>= apply_transition f

  unfoldable pub mark_inventory_reserved : String → Call Order
  mark_inventory_reserved id = transition_order id inventory_reserved_transition

  unfoldable pub mark_inventory_reservation_failed : String → String → Call Order
  mark_inventory_reservation_failed id reason =
      transition_order id (failed_transition (or_default "inventory reservation failed" reason))

  unfoldable pub mark_payment_captured : String → Call Order
  mark_payment_captured id = transition_order id payment_captured_transition

  unfoldable pub mark_payment_failed : String → String → Call Order
  mark_payment_failed id reason =
      transition_order id (failed_transition (or_default "payment failed" reason))

  unfoldable pub mark_payment_creation_failed : String → String → Call Order
  mark_payment_creation_failed id reason =
      transition_order id (failed_transition (or_default "payment creation failed" reason))

unfoldable pub get_order : String → Call Order
get_order id = fail_if (is_blank id) (domain invalid_order_id) >> get_order_by_id id
