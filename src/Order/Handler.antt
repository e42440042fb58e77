-- ===== src/Order/Handler.antt =====
-- internal/order/handler/grpc.go. Log lines are left out; a request is its fields, as their getters
-- read them.
use event_driven_ecommerce.Base.{
  ℕ, String, ℤ, pos, Bool, Option, some, none, List, map, ◌>>=◌, pure, Failure, domain, other,
}
use event_driven_ecommerce.Grpc.{
  Status, status_error, invalid_argument, not_found, already_exists, failed_precondition, internal,
  Rpc, served, answered_page, answered_page_size,
}
use event_driven_ecommerce.Events.{Codec}
use event_driven_ecommerce.Order.Enums.{
  Currency, currency_unspecified, PaymentMethodType, method_unspecified, OrderStatus,
  status_unspecified,
}
use event_driven_ecommerce.Order.Domain.{
  Money, OrderItem, Address, PaymentDetails, Order, OrderDb, OrderError, order_not_found,
  invalid_order, order_already_exists, idempotency_key_already_exists, idempotency_key_conflict,
  invalid_order_id, invalid_customer_id, order_cannot_be_cancelled,
}
use event_driven_ecommerce.Order.Repository.{error_text}
use event_driven_ecommerce.Order.Service
use event_driven_ecommerce.Order.Listing.{list_orders}

-- The messages of gen/order/v1, where they are not nil.
pub record ProtoMoney : Type 0 where
  pub currency : Currency
  pub amount_cents : ℤ

pub record ProtoAddress : Type 0 where
  pub country : String
  pub city : String
  pub street : String
  pub postal_code : String
  pub house : String
  pub apartment : String

pub record ProtoPaymentDetails : Type 0 where
  pub method : PaymentMethodType
  pub method_details : String

pub record CreateOrderItem : Type 0 where
  pub product_id : String
  pub sku : String
  pub product_name : String
  pub quantity : ℤ
  pub unit_price : Option ProtoMoney

pub record CreateOrderRequest : Type 0 where
  pub customer_id : String
  pub idempotency_key : String
  pub items : List CreateOrderItem
  pub shipping_address : Option ProtoAddress
  pub payment : Option ProtoPaymentDetails

pub record ProtoOrderItem : Type 0 where
  pub product_id : String
  pub sku : String
  pub product_name : String
  pub quantity : ℤ
  pub unit_price : ProtoMoney
  pub total_price : ProtoMoney

pub record ProtoOrder : Type 0 where
  pub order_id : String
  pub customer_id : String
  pub items : List ProtoOrderItem
  pub total_amount : ProtoMoney
  pub status : OrderStatus
  pub shipping_address : ProtoAddress
  pub payment : ProtoPaymentDetails
  pub cancel_reason : String
  pub created_at : String
  pub updated_at : String

pub record ListOrdersByCustomerResponse : Type 0 where
  pub orders : List ProtoOrder
  pub page : ℤ
  pub page_size : ℤ
  pub total : ℕ

abbrev pub no_money : Money
no_money = record { currency = currency_unspecified; amount_cents = pos 0 }

unfoldable pub convert_money : Option ProtoMoney → Money
convert_money none = no_money
convert_money (some money) = record { currency = money.currency; amount_cents = money.amount_cents }

unfoldable pub convert_money_to_proto : Money → ProtoMoney
convert_money_to_proto money = record {
  currency = money.currency;
  amount_cents = money.amount_cents;
}

unfoldable pub convert_create_order_item : CreateOrderItem → OrderItem
unfolding convert_money
convert_create_order_item item = record {
  product_id = item.product_id;
  sku = item.sku;
  product_name = item.product_name;
  quantity = item.quantity;
  unit_price = convert_money item.unit_price;
  total_price = no_money;
}

unfoldable pub convert_order_item_to_proto : OrderItem → ProtoOrderItem
unfolding convert_money_to_proto
convert_order_item_to_proto item = record {
  product_id = item.product_id;
  sku = item.sku;
  product_name = item.product_name;
  quantity = item.quantity;
  unit_price = convert_money_to_proto item.unit_price;
  total_price = convert_money_to_proto item.total_price;
}

unfoldable pub convert_address : Option ProtoAddress → Address
convert_address none = record {
  country = "";
  city = "";
  street = "";
  postal_code = "";
  house = "";
  apartment = "";
}
convert_address (some address) = record {
  country = address.country;
  city = address.city;
  street = address.street;
  postal_code = address.postal_code;
  house = address.house;
  apartment = address.apartment;
}

unfoldable pub convert_address_to_proto : Address → ProtoAddress
convert_address_to_proto address = record {
  country = address.country;
  city = address.city;
  street = address.street;
  postal_code = address.postal_code;
  house = address.house;
  apartment = address.apartment;
}

unfoldable pub convert_payment_details : Option ProtoPaymentDetails → PaymentDetails
convert_payment_details none = record { method = method_unspecified; method_details = "" }
convert_payment_details (some details) = record {
  method = details.method;
  method_details = details.method_details;
}

unfoldable pub convert_payment_details_to_proto : PaymentDetails → ProtoPaymentDetails
convert_payment_details_to_proto details = record {
  method = details.method;
  method_details = details.method_details;
}

unfoldable pub map_order_error : Failure OrderError → Status
map_order_error (other text) = status_error internal "internal server error"
map_order_error (domain invalid_order) =
    status_error invalid_argument (error_text (domain invalid_order))
map_order_error (domain invalid_order_id) =
    status_error invalid_argument (error_text (domain invalid_order_id))
map_order_error (domain invalid_customer_id) =
    status_error invalid_argument (error_text (domain invalid_customer_id))
map_order_error (domain order_not_found) =
    status_error not_found (error_text (domain order_not_found))
map_order_error (domain order_already_exists) =
    status_error already_exists (error_text (domain order_already_exists))
map_order_error (domain idempotency_key_conflict) =
    status_error already_exists (error_text (domain idempotency_key_conflict))
map_order_error (domain order_cannot_be_cancelled) =
    status_error failed_precondition (error_text (domain order_cannot_be_cancelled))
map_order_error (domain idempotency_key_already_exists) =
    status_error internal "internal server error"

abbrev pub order_of_request : CreateOrderRequest → Order
order_of_request req = record {
  id = "";
  customer_id = req.customer_id;
  idempotency_key = req.idempotency_key;
  items = map convert_create_order_item req.items;
  total_amount = no_money;
  status = status_unspecified;
  shipping_address = convert_address req.shipping_address;
  payment = convert_payment_details req.payment;
  cancel_reason = "";
  created_at = none;
  updated_at = none;
}

-- `format_time` is `Format(time.RFC3339)`, of the zero time too.
module _ (codec : Codec) (created_topic cancelled_topic : String) (format_time : Option ℕ → String)
    (collates : String → String → Bool) where
  unfoldable pub convert_order_to_proto : Order → ProtoOrder
  unfolding convert_order_item_to_proto convert_money_to_proto convert_address_to_proto
      convert_payment_details_to_proto
  convert_order_to_proto order = record {
    order_id = order.id;
    customer_id = order.customer_id;
    items = map convert_order_item_to_proto order.items;
    total_amount = convert_money_to_proto order.total_amount;
    status = order.status;
    shipping_address = convert_address_to_proto order.shipping_address;
    payment = convert_payment_details_to_proto order.payment;
    cancel_reason = order.cancel_reason;
    created_at = format_time order.created_at;
    updated_at = format_time order.updated_at;
  }

  unfoldable pub create_order : CreateOrderRequest → Rpc OrderDb ProtoOrder
  create_order req = do
    order ←
        served map_order_error
          (Service.create_order codec created_topic cancelled_topic (order_of_request req))
    pure (convert_order_to_proto order)

  unfoldable pub get_order_by_id : String → Rpc OrderDb ProtoOrder
  get_order_by_id id = do
    order ← served map_order_error (Service.get_order id)
    pure (convert_order_to_proto order)

  unfoldable pub cancel_order : String → String → Rpc OrderDb ProtoOrder
  cancel_order id reason = do
    order ←
        served map_order_error (Service.cancel_order codec created_topic cancelled_topic id reason)
    pure (convert_order_to_proto order)

  unfoldable pub list_orders_by_customer : String → ℤ → ℤ → Rpc OrderDb ListOrdersByCustomerResponse
  list_orders_by_customer customer page page_size = do
    listed ← served map_order_error (list_orders collates customer page page_size)
    pure (record {
      orders = map convert_order_to_proto listed.0;
      page = answered_page page;
      page_size = answered_page_size page_size listed.1;
      total = listed.1;
    })
