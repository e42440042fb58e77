-- ===== src/Order/OutboxMessage.antt =====
-- internal/order/events/outbox_message.go.
use event_driven_ecommerce.Base.{ℕ, String, some, none, format_int, ◌<>◌, map}
use event_driven_ecommerce.Events
use event_driven_ecommerce.Events.{
  OrderCreatedItem, OrderCreated, OrderCancelled, Codec, order_created_event_type,
  order_cancelled_event_type,
}
use event_driven_ecommerce.Order.Enums.{currency_name, status_name, method_name}
use event_driven_ecommerce.Order.Domain.{Money, OrderItem, Order, OrderOutboxEvent}

unfoldable pub event_money : Money → Events.Money
event_money m = record { currency = currency_name m.currency; amount_cents = m.amount_cents }

unfoldable pub created_item : OrderItem → OrderCreatedItem
unfolding event_money
created_item item = record {
  product_id = item.product_id;
  sku = item.sku;
  product_name = item.product_name;
  quantity = item.quantity;
  unit_price = event_money item.unit_price;
  total_price = event_money item.total_price;
}

unfoldable pub created_event : Order → OrderCreated
unfolding event_money created_item
created_event order = record {
  order_id = order.id;
  customer_id = order.customer_id;
  status = status_name order.status;
  total_amount = event_money order.total_amount;
  shipping_address = record {
    country = order.shipping_address.country;
    city = order.shipping_address.city;
    street = order.shipping_address.street;
    postal_code = order.shipping_address.postal_code;
    house = order.shipping_address.house;
    apartment = order.shipping_address.apartment;
  };
  payment = record {
    method = method_name order.payment.method;
    method_details = order.payment.method_details;
  };
  items = map created_item order.items;
}

unfoldable pub cancelled_event : Order → OrderCancelled
cancelled_event order = record {
  order_id = order.id;
  customer_id = order.customer_id;
  cancel_reason = order.cancel_reason;
}

-- An OutboxMessage with what `CreateOrderOutboxEvent` is given besides it. `created_at` is the
-- clock that the Go function reads first.
module _ (codec : Codec) (topic : String) (created_at : ℕ) where
  unfoldable pub new_order_created_outbox_message : Order → OrderOutboxEvent
  unfolding created_event
  new_order_created_outbox_message order = record {
    id = "outbox-" <> order.id;
    aggregate_type = "order";
    aggregate_id = order.id;
    event_type = order_created_event_type;
    topic = topic;
    event_key = order.id;
    payload = codec.marshal_envelope (record {
      event_id = "evt-" <> format_int created_at;
      event_type = order_created_event_type;
      occurred_at = codec.format_rfc3339 created_at;
      payload = codec.marshal_order_created (created_event order);
    });
    attempt_count = 0;
    last_error = "";
    locked_at = none;
    created_at = some created_at;
    published_at = none;
  }

  unfoldable pub new_order_cancelled_outbox_message : Order → OrderOutboxEvent
  unfolding cancelled_event
  new_order_cancelled_outbox_message order = record {
    id = "outbox-cancelled-" <> order.id;
    aggregate_type = "order";
    aggregate_id = order.id;
    event_type = order_cancelled_event_type;
    topic = topic;
    event_key = order.id;
    payload = codec.marshal_envelope (record {
      event_id = "evt-" <> format_int created_at;
      event_type = order_cancelled_event_type;
      occurred_at = codec.format_rfc3339 created_at;
      payload = codec.marshal_order_cancelled (cancelled_event order);
    });
    attempt_count = 0;
    last_error = "";
    locked_at = none;
    created_at = some created_at;
    published_at = none;
  }
