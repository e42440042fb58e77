-- ===== src/Payment/Enums.antt =====
-- The statuses of a payment in gen/payment/v1, with the names that `String()` prints and the map
-- `PaymentStatus_value`.
use event_driven_ecommerce.Base.{String, Option, some, none, str_eq, ℤ, if◌then◌else◌}
use event_driven_ecommerce.Protobuf.{format_ℤ}

pub data PaymentStatus : Type 0 where
  status_unspecified pending captured failed cancelled : PaymentStatus
  unknown_status : ℤ → PaymentStatus

unfoldable pub status_name : PaymentStatus → String
status_name status_unspecified = "PAYMENT_STATUS_UNSPECIFIED"
status_name pending = "PAYMENT_STATUS_PENDING"
status_name captured = "PAYMENT_STATUS_CAPTURED"
status_name failed = "PAYMENT_STATUS_FAILED"
status_name cancelled = "PAYMENT_STATUS_CANCELLED"
status_name (unknown_status n) = format_ℤ n

unfoldable pub status_value : String → Option PaymentStatus
status_value s =
    if str_eq s "PAYMENT_STATUS_UNSPECIFIED"
    then some status_unspecified
    else if str_eq s "PAYMENT_STATUS_PENDING"
    then some pending
    else if str_eq s "PAYMENT_STATUS_CAPTURED"
    then some captured
    else if str_eq s "PAYMENT_STATUS_FAILED"
    then some failed
    else if str_eq s "PAYMENT_STATUS_CANCELLED"
    then some cancelled
    else none
