-- ===== src/Order/Samples.antt =====
-- An order, the tables that hold it and a codec, for the tests.
use event_driven_ecommerce.Base.{micros, ℕ, none, some, [], ◌∷◌, pos, World, trim_space}
use event_driven_ecommerce.Events.{Codec, inventory_reserved_event_type}
use event_driven_ecommerce.Order.Enums.{usd, card, pending, status_name, currency_name, method_name}
use event_driven_ecommerce.Order.Domain.{
  Money, OrderItem, Address, Order, OrderRow, OrderItemRow, OrderOutboxEvent, OrderDb,
}
use event_driven_ecommerce.Order.Rows.{to_order_db_params}
use event_driven_ecommerce.Order.Queries.{stored}

abbrev pub dollars : ℕ → Money
dollars n = record { currency = usd; amount_cents = pos n }

abbrev pub two_teas : OrderItem
two_teas = record {
  product_id = "tea";
  sku = "T";
  product_name = "Tea";
  quantity = pos 2;
  unit_price = dollars 5;
  total_price = dollars 10;
}

abbrev pub home : Address
home = record {
  country = "NL";
  city = "Delft";
  street = "Markt";
  postal_code = "2611";
  house = "1";
  apartment = "";
}

abbrev pub request : Order
request = record {
  id = "o1";
  customer_id = "c";
  idempotency_key = "k";
  items = two_teas ∷ [];
  total_amount = dollars 10;
  status = pending;
  shipping_address = home;
  payment = record { method = card; method_details = "" };
  cancel_reason = "";
  created_at = some 0;
  updated_at = some 0;
}

unfoldable pub first_row : OrderRow
unfolding to_order_db_params stored micros status_name currency_name method_name trim_space
first_row = stored (to_order_db_params request)

abbrev pub first_event : OrderOutboxEvent
first_event = record {
  id = "outbox-o1";
  aggregate_type = "order";
  aggregate_id = "o1";
  event_type = "order.created";
  topic = "orders";
  event_key = "o1";
  payload = "";
  attempt_count = 0;
  last_error = "";
  locked_at = none;
  created_at = some 0;
  published_at = none;
}

abbrev pub first_item : OrderItemRow
first_item = record {
  order_id = "o1";
  item_position = 0;
  product_id = "tea";
  sku = "T";
  product_name = "Tea";
  quantity = pos 2;
  unit_price_currency = "CURRENCY_USD";
  unit_price_amount_cents = pos 5;
  total_price_currency = "CURRENCY_USD";
  total_price_amount_cents = pos 10;
}

abbrev pub world_of : OrderDb → World OrderDb
world_of d = record {
  db = d;
  processed = [];
  sent = [];
  committed = [];
  fault = λ n. none;
  clock = λ n. n;
  tick = 0;
}

abbrev pub tables : OrderDb
tables = record { orders = first_row ∷ []; items = first_item ∷ []; outbox = first_event ∷ [] }

abbrev pub codec : Codec
codec = record {
  format_rfc3339 = λ n. "";
  marshal_envelope = λ e. "";
  unmarshal_envelope = λ v. some (record {
    event_id = v;
    event_type = inventory_reserved_event_type;
    occurred_at = "";
    payload = "";
  });
  marshal_order_created = λ e. "";
  unmarshal_order_created = λ v. none;
  marshal_order_cancelled = λ e. "";
  unmarshal_order_cancelled = λ v. none;
  marshal_inventory_reserved = λ e. "";
  unmarshal_inventory_reserved = λ v. some (record {
    order_id = "o1";
    customer_id = "c";
    amount = record { currency = ""; amount_cents = pos 10 };
    payment = record { method = ""; method_details = "" };
    items = [];
  });
  marshal_inventory_reservation_failed = λ e. "";
  unmarshal_inventory_reservation_failed = λ v. none;
  marshal_payment_created = λ e. "";
  marshal_payment_creation_failed = λ e. "";
  unmarshal_payment_creation_failed = λ v. none;
  marshal_payment_captured = λ e. "";
  unmarshal_payment_captured = λ v. none;
  marshal_payment_failed = λ e. "";
  unmarshal_payment_failed = λ v. none;
}
