-- ===== src/Order/Rows.antt =====
-- The maps between an order and its rows, in internal/order/repository/postgres.go.
use event_driven_ecommerce.Base.{
  ◌then◌, text_or_empty, ℕ, String, Option, none, some, List, [], ◌∷◌, Result, ok, err,
  if◌then◌else◌, is_empty, trim_space, Failure, other, ◌<>◌,
}
use event_driven_ecommerce.Order.Enums.{
  Currency, OrderStatus, PaymentMethodType, currency_name, status_name, method_name, currency_value,
  status_value, method_value,
}
use event_driven_ecommerce.Order.Domain.{Order, OrderItem, OrderError, OrderRow, OrderItemRow}

-- `%q` of the value is a parameter of the messages, which no caller reads.
unfoldable pub known : {A : Type 0} → String → String → Option A → Result (Failure OrderError) A
known what value none = err (other ("unknown order " <> what <> " in db: \"" <> value <> "\""))
known what value (some a) = ok a

unfoldable pub parse_currency : String → Result (Failure OrderError) Currency
unfolding known
parse_currency value = known "currency" value (currency_value value)

unfoldable pub parse_order_status : String → Result (Failure OrderError) OrderStatus
unfolding known
parse_order_status value = known "status" value (status_value value)

unfoldable pub parse_payment_method : String → Result (Failure OrderError) PaymentMethodType
unfolding known
parse_payment_method value = known "payment method" value (method_value value)

-- `toOrderDBParams`; `toCreateOrderParams` and `toUpdateOrderParams` copy its fields.
unfoldable pub to_order_db_params : Order → OrderRow
to_order_db_params order = record {
  id = order.id;
  customer_id = order.customer_id;
  idempotency_key =
      let key = trim_space order.idempotency_key in if is_empty key then none else some key;
  total_amount_currency = currency_name order.total_amount.currency;
  total_amount_cents = order.total_amount.amount_cents;
  status = status_name order.status;
  shipping_country = order.shipping_address.country;
  shipping_city = order.shipping_address.city;
  shipping_street = order.shipping_address.street;
  shipping_postal_code = order.shipping_address.postal_code;
  shipping_house = order.shipping_address.house;
  shipping_apartment = order.shipping_address.apartment;
  payment_method = method_name order.payment.method;
  payment_method_details = order.payment.method_details;
  cancel_reason = trim_space order.cancel_reason;
  created_at = order.created_at;
  updated_at = order.updated_at;
}

-- The parameters of the item at a position.
unfoldable pub to_item_params : String → ℕ → OrderItem → OrderItemRow
to_item_params o i item = record {
  order_id = o;
  item_position = i;
  product_id = item.product_id;
  sku = item.sku;
  product_name = item.product_name;
  quantity = item.quantity;
  unit_price_currency = currency_name item.unit_price.currency;
  unit_price_amount_cents = item.unit_price.amount_cents;
  total_price_currency = currency_name item.total_price.currency;
  total_price_amount_cents = item.total_price.amount_cents;
}

unfoldable pub map_db_order_item : OrderItemRow → Result (Failure OrderError) OrderItem
unfolding parse_currency parse_order_status parse_payment_method
map_db_order_item row = parse_currency row.unit_price_currency then λ unit_currency.
    parse_currency row.total_price_currency then λ total_currency. ok (record {
      product_id = row.product_id;
      sku = row.sku;
      product_name = row.product_name;
      quantity = row.quantity;
      unit_price = record { currency = unit_currency; amount_cents = row.unit_price_amount_cents };
      total_price = record {
        currency = total_currency;
        amount_cents = row.total_price_amount_cents;
      };
    })

unfoldable pub map_db_order_items : List OrderItemRow → Result (Failure OrderError) (List OrderItem)
unfolding map_db_order_item
map_db_order_items [] = ok []
map_db_order_items (row ∷ rows) =
    let rest = map_db_order_items rows in
    map_db_order_item row then λ item. rest then λ items. ok (item ∷ items)

unfoldable pub order_of_row :
    OrderRow → Currency → OrderStatus → PaymentMethodType → List OrderItem → Order
order_of_row row total_currency status method items = record {
  id = row.id;
  customer_id = row.customer_id;
  idempotency_key = text_or_empty row.idempotency_key;
  items = items;
  total_amount = record { currency = total_currency; amount_cents = row.total_amount_cents };
  status = status;
  shipping_address = record {
    country = row.shipping_country;
    city = row.shipping_city;
    street = row.shipping_street;
    postal_code = row.shipping_postal_code;
    house = row.shipping_house;
    apartment = row.shipping_apartment;
  };
  payment = record { method = method; method_details = row.payment_method_details };
  cancel_reason = row.cancel_reason;
  created_at = row.created_at;
  updated_at = row.updated_at;
}

unfoldable pub map_db_order : OrderRow → List OrderItemRow → Result (Failure OrderError) Order
unfolding parse_currency parse_order_status parse_payment_method
map_db_order row item_rows = parse_currency row.total_amount_currency then λ total_currency.
    parse_order_status row.status then λ status.
    parse_payment_method row.payment_method then λ method.
    map_db_order_items item_rows then λ items.
    ok (order_of_row row total_currency status method items)
