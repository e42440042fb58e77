-- ===== src/Order/Enums.antt =====
-- The statuses of an order in gen/order/v1, with the names that `String()` prints and the map
-- `OrderStatus_value`.
use event_driven_ecommerce.Base.{
  String, ◌≡◌, refl, Bool, true, false, Option, some, none, str_eq, ℤ, if◌then◌else◌,
}
use event_driven_ecommerce.Protobuf.{format_ℤ}
pub use event_driven_ecommerce.Protobuf.{
  Currency, currency_unspecified, usd, eur, unknown_currency, PaymentMethodType, method_unspecified,
  card, cash, unknown_method, is_method_unspecified, is_currency_unspecified,
}
unfoldable pub use event_driven_ecommerce.Protobuf.{
  currency_name, method_name, currency_value, method_value, same_ℤ, same_currency, same_method,
}

pub data OrderStatus : Type 0 where
  status_unspecified pending awaiting_payment confirmed cancelled shipped completed : OrderStatus
  unknown_status : ℤ → OrderStatus

unfoldable pub status_name : OrderStatus → String
status_name status_unspecified = "ORDER_STATUS_UNSPECIFIED"
status_name pending = "ORDER_STATUS_PENDING"
status_name awaiting_payment = "ORDER_STATUS_AWAITING_PAYMENT"
status_name confirmed = "ORDER_STATUS_CONFIRMED"
status_name cancelled = "ORDER_STATUS_CANCELLED"
status_name shipped = "ORDER_STATUS_SHIPPED"
status_name completed = "ORDER_STATUS_COMPLETED"
status_name (unknown_status n) = format_ℤ n

unfoldable pub status_value : String → Option OrderStatus
status_value s =
    if str_eq s "ORDER_STATUS_UNSPECIFIED"
    then some status_unspecified
    else if str_eq s "ORDER_STATUS_PENDING"
    then some pending
    else if str_eq s "ORDER_STATUS_AWAITING_PAYMENT"
    then some awaiting_payment
    else if str_eq s "ORDER_STATUS_CONFIRMED"
    then some confirmed
    else if str_eq s "ORDER_STATUS_CANCELLED"
    then some cancelled
    else if str_eq s "ORDER_STATUS_SHIPPED"
    then some shipped
    else if str_eq s "ORDER_STATUS_COMPLETED"
    then some completed
    else none

abbrev pub is_cancelled : OrderStatus → Bool
is_cancelled cancelled = true
is_cancelled s = false

-- The statuses of an order that this service sets are read back as they were written.
abbrev pub IsKnownStatus : OrderStatus → Type 0
IsKnownStatus (unknown_status n) = ⊥
IsKnownStatus s = Unit

pub status_value-status_name :
    (s : OrderStatus) → IsKnownStatus s → status_value (status_name s) ≡ some s
unfolding status_value status_name
status_value-status_name status_unspecified h = refl
status_value-status_name pending h = refl
status_value-status_name awaiting_payment h = refl
status_value-status_name confirmed h = refl
status_value-status_name cancelled h = refl
status_value-status_name shipped h = refl
status_value-status_name completed h = refl
status_value-status_name (unknown_status n) h = absurd h
