-- ===== src/Order/Domain.antt =====
-- internal/order/domain/order.go, and the tables of db/schema/order.sql as
-- internal/order/repository/sqlc/models.go reads them. A time is a count of nanoseconds, `none`
-- where it is the zero time or a NULL.
use event_driven_ecommerce.Base.{ℕ, String, ℤ, List, Option, Failure, Action, World}
use event_driven_ecommerce.Order.Enums.{Currency, OrderStatus, PaymentMethodType}

pub record Money : Type 0 where
  pub currency : Currency
  pub amount_cents : ℤ

pub record OrderItem : Type 0 where
  pub product_id : String
  pub sku : String
  pub product_name : String
  pub quantity : ℤ
  pub unit_price : Money
  pub total_price : Money

pub record Address : Type 0 where
  pub country : String
  pub city : String
  pub street : String
  pub postal_code : String
  pub house : String
  pub apartment : String

pub record PaymentDetails : Type 0 where
  pub method : PaymentMethodType
  pub method_details : String

pub record Order : Type 0 where
  pub id : String
  pub customer_id : String
  pub idempotency_key : String
  pub items : List OrderItem
  pub total_amount : Money
  pub status : OrderStatus
  pub shipping_address : Address
  pub payment : PaymentDetails
  pub cancel_reason : String
  pub created_at : Option ℕ
  pub updated_at : Option ℕ

pub data OrderError : Type 0 where
  order_not_found invalid_order order_already_exists idempotency_key_already_exists : OrderError
  idempotency_key_conflict invalid_order_id invalid_customer_id : OrderError
  order_cannot_be_cancelled : OrderError

pub record OrderRow : Type 0 where
  pub id : String
  pub customer_id : String
  pub idempotency_key : Option String
  pub total_amount_currency : String
  pub total_amount_cents : ℤ
  pub status : String
  pub shipping_country : String
  pub shipping_city : String
  pub shipping_street : String
  pub shipping_postal_code : String
  pub shipping_house : String
  pub shipping_apartment : String
  pub payment_method : String
  pub payment_method_details : String
  pub cancel_reason : String
  pub created_at : Option ℕ
  pub updated_at : Option ℕ

pub record OrderItemRow : Type 0 where
  pub order_id : String
  pub item_position : ℕ
  pub product_id : String
  pub sku : String
  pub product_name : String
  pub quantity : ℤ
  pub unit_price_currency : String
  pub unit_price_amount_cents : ℤ
  pub total_price_currency : String
  pub total_price_amount_cents : ℤ

pub record OrderOutboxEvent : Type 0 where
  pub id : String
  pub aggregate_type : String
  pub aggregate_id : String
  pub event_type : String
  pub topic : String
  pub event_key : String
  pub payload : String
  pub attempt_count : ℕ
  pub last_error : String
  pub locked_at : Option ℕ
  pub created_at : Option ℕ
  pub published_at : Option ℕ

pub record OrderDb : Type 0 where
  pub orders : List OrderRow
  pub items : List OrderItemRow
  pub outbox : List OrderOutboxEvent

abbrev pub Call : Type 0 → Type 0
Call A = Action (World OrderDb) (Failure OrderError) A
