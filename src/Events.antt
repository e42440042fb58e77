-- ===== src/Events.antt =====
-- internal/shared/events/types.go: the events that the services exchange. What encoding/json and
-- package time print and read is a parameter, `Codec`.
use event_driven_ecommerce.Base.{ℕ, String, ℤ, Option, List}

abbrev pub order_created_event_type : String
order_created_event_type = "order.created"

abbrev pub order_cancelled_event_type : String
order_cancelled_event_type = "order.cancelled"

abbrev pub inventory_reserved_event_type : String
inventory_reserved_event_type = "inventory.reserved"

abbrev pub inventory_reservation_failed_event_type : String
inventory_reservation_failed_event_type = "inventory.reservation_failed"

abbrev pub payment_created_event_type : String
payment_created_event_type = "payment.created"

abbrev pub payment_creation_failed_event_type : String
payment_creation_failed_event_type = "payment.creation_failed"

abbrev pub payment_captured_event_type : String
payment_captured_event_type = "payment.captured"

abbrev pub payment_failed_event_type : String
payment_failed_event_type = "payment.failed"

pub record Envelope : Type 0 where
  pub event_id : String
  pub event_type : String
  pub occurred_at : String
  pub payload : String

pub record Money : Type 0 where
  pub currency : String
  pub amount_cents : ℤ

pub record Address : Type 0 where
  pub country : String
  pub city : String
  pub street : String
  pub postal_code : String
  pub house : String
  pub apartment : String

pub record PaymentDetails : Type 0 where
  pub method : String
  pub method_details : String

pub record OrderCreatedItem : Type 0 where
  pub product_id : String
  pub sku : String
  pub product_name : String
  pub quantity : ℤ
  pub unit_price : Money
  pub total_price : Money

pub record OrderCreated : Type 0 where
  pub order_id : String
  pub customer_id : String
  pub status : String
  pub total_amount : Money
  pub shipping_address : Address
  pub payment : PaymentDetails
  pub items : List OrderCreatedItem

pub record OrderCancelled : Type 0 where
  pub order_id : String
  pub customer_id : String
  pub cancel_reason : String

pub record InventoryReservationItem : Type 0 where
  pub product_id : String
  pub quantity : ℤ

pub record InventoryReserved : Type 0 where
  pub order_id : String
  pub customer_id : String
  pub amount : Money
  pub payment : PaymentDetails
  pub items : List InventoryReservationItem

pub record InventoryReservationFailed : Type 0 where
  pub order_id : String
  pub customer_id : String
  pub failed_item : Option InventoryReservationItem
  pub reason : String

pub record PaymentCreated : Type 0 where
  pub order_id : String
  pub customer_id : String
  pub payment_id : String
  pub status : String

pub record PaymentCreationFailed : Type 0 where
  pub order_id : String
  pub customer_id : String
  pub failure_reason : String

pub record PaymentCaptured : Type 0 where
  pub order_id : String
  pub customer_id : String
  pub payment_id : String
  pub status : String

pub record PaymentFailed : Type 0 where
  pub order_id : String
  pub customer_id : String
  pub payment_id : String
  pub status : String
  pub failure_reason : String

-- `json.Marshal` of these structs does not fail; `json.Unmarshal` is `none` where it does.
pub record Codec : Type 0 where
  pub format_rfc3339 : ℕ → String
  pub marshal_envelope : Envelope → String
  pub unmarshal_envelope : String → Option Envelope
  pub marshal_order_created : OrderCreated → String
  pub unmarshal_order_created : String → Option OrderCreated
  pub marshal_order_cancelled : OrderCancelled → String
  pub unmarshal_order_cancelled : String → Option OrderCancelled
  pub marshal_inventory_reserved : InventoryReserved → String
  pub unmarshal_inventory_reserved : String → Option InventoryReserved
  pub marshal_inventory_reservation_failed : InventoryReservationFailed → String
  pub unmarshal_inventory_reservation_failed : String → Option InventoryReservationFailed
  pub marshal_payment_created : PaymentCreated → String
  pub marshal_payment_creation_failed : PaymentCreationFailed → String
  pub unmarshal_payment_creation_failed : String → Option PaymentCreationFailed
  pub marshal_payment_captured : PaymentCaptured → String
  pub unmarshal_payment_captured : String → Option PaymentCaptured
  pub marshal_payment_failed : PaymentFailed → String
  pub unmarshal_payment_failed : String → Option PaymentFailed
