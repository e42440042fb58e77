-- ===== src/Inventory/Tests.antt =====
-- Two products, one with a reservation, and runs of the service on them.
use event_driven_ecommerce.Base.{
  ℕ, ◌==◌, if◌then◌else◌, String, ◌≡◌, refl, true, false, none, some, List, [], ◌∷◌, pos, arith,
  eq_iff, ok, err, is_ok, World, Outcome, running, outside, on_some, trim_space, is_blank, has,
  other, format_int,
}
use event_driven_ecommerce.Events.{
  Envelope, OrderCreated, OrderCreatedItem, Codec, order_created_event_type,
}
use event_driven_ecommerce.Inventory.Domain.{
  StockReservation, InventoryStock, InventoryReservation, InventoryDb,
}
use event_driven_ecommerce.Inventory.Queries
use event_driven_ecommerce.Inventory.Queries.{
  find_stock, find_reservation, reserve_inventory_stock, reserved_row, upsert_inventory_reservation,
  is_for, replace_stock, replace_reservation,
}
use event_driven_ecommerce.Inventory.Repository
use event_driven_ecommerce.Inventory.Repository.{
  validate_stock_reservation, reserve_body, map_db_stock,
}
use event_driven_ecommerce.Inventory.Quantities.{committed}
use event_driven_ecommerce.Inventory.Service
use event_driven_ecommerce.Inventory.Service.{validate_reservation_request}
use event_driven_ecommerce.Inventory.Reserving.{Consistent}
use event_driven_ecommerce.Inventory.Outcomes.{ReserveDone, ReleaseDone}
use event_driven_ecommerce.Inventory.Releasing.{OrderReleased}
use event_driven_ecommerce.Inventory.Consumers.{
  reserve_all, reserve_from, is_processed, mark_processed, write_event, publish_inventory_reserved,
  publish_inventory_reservation_failed, processed_event_key, handle_message_order_created,
  handle_order_created, handle_reserve_all, run_order_created, run_order_cancelled,
}
use event_driven_ecommerce.Inventory.Handling.{run-Consistent}
use event_driven_ecommerce.Inventory.Delivery.{handle_message_order_created_marked}
use event_driven_ecommerce.Inventory.Promises.{
  reserve_stock-Outcome, release_stock-Outcome, release_order-Outcome, reserve_stock_granted,
}

abbrev tea : InventoryStock
tea = record {
  product_id = "tea";
  available_quantity = 7;
  reserved_quantity = 3;
  total_quantity = 10;
  created_at = 0;
  updated_at = 0;
}

abbrev pot : InventoryStock
pot = record {
  product_id = "pot";
  available_quantity = 1;
  reserved_quantity = 0;
  total_quantity = 1;
  created_at = 0;
  updated_at = 0;
}

abbrev kept : InventoryReservation
kept = record { product_id = "tea"; order_id = "o1"; quantity = 3; created_at = 0; updated_at = 0 }

abbrev shop : InventoryDb
shop = record { stocks = tea ∷ pot ∷ []; reservations = kept ∷ []; collates = λ a b. true }

abbrev world : World InventoryDb
world = record {
  db = shop;
  processed = [];
  sent = [];
  committed = [];
  fault = λ n. none;
  clock = λ n. n;
  tick = 0;
}

shop-Consistent : Consistent shop
unfolding find_stock committed find_reservation
shop-Consistent = record {
  balanced = λ q. ground (arith, eq_iff "tea" q, eq_iff "pot" q);
  backed = λ q. ground (arith, eq_iff "tea" q, eq_iff "pot" q);
  unique = (refl, tt);
}

abbrev ask : String → ℕ → StockReservation
ask p n = record { product_id = p; order_id = "o2"; quantity = pos n }

abbrev item : String → ℕ → OrderCreatedItem
item p n = record {
  product_id = p;
  sku = "";
  product_name = "";
  quantity = pos n;
  unit_price = record { currency = "USD"; amount_cents = pos 5 };
  total_price = record { currency = "USD"; amount_cents = pos 5 };
}

abbrev order : List OrderCreatedItem → OrderCreated
order items = record {
  order_id = "o2";
  customer_id = "c";
  status = "";
  total_amount = record { currency = "USD"; amount_cents = pos 5 };
  shipping_address = record {
    country = "";
    city = "";
    street = "";
    postal_code = "";
    house = "";
    apartment = "";
  };
  payment = record { method = ""; method_details = "" };
  items = items;
}

abbrev envelope : Envelope
envelope = record {
  event_id = "e1";
  event_type = order_created_event_type;
  occurred_at = "";
  payload = "";
}

-- A codec for which every message is the same order of two of "tea".
abbrev codec : Codec
codec = record {
  format_rfc3339 = λ n. "";
  marshal_envelope = λ e. "";
  unmarshal_envelope = λ v. some envelope;
  marshal_order_created = λ e. "";
  unmarshal_order_created = λ v. some (order (item "tea" 2 ∷ []));
  marshal_order_cancelled = λ e. "";
  unmarshal_order_cancelled =
      λ v. some (record { order_id = "o1"; customer_id = "c"; cancel_reason = "" });
  marshal_inventory_reserved = λ e. "";
  unmarshal_inventory_reserved = λ v. none;
  marshal_inventory_reservation_failed = λ e. "";
  unmarshal_inventory_reservation_failed = λ v. none;
  marshal_payment_created = λ e. "";
  marshal_payment_creation_failed = λ e. "";
  unmarshal_payment_creation_failed = λ v. none;
  marshal_payment_captured = λ e. "";
  unmarshal_payment_captured = λ v. none;
  marshal_payment_failed = λ e. "";
  unmarshal_payment_failed = λ v. none;
}

reserve_stock-Outcome_example :
    Outcome shop (ReserveDone (ask "tea" 2) shop) (Service.reserve_stock (ask "tea" 2) world)
reserve_stock-Outcome_example = reserve_stock-Outcome (ask "tea" 2) world shop-Consistent

abbrev give_back : StockReservation
give_back = record { product_id = "tea"; order_id = "o1"; quantity = pos 3 }

release_stock-Outcome_example :
    Outcome shop (ReleaseDone give_back shop) (Service.release_stock give_back world)
release_stock-Outcome_example = release_stock-Outcome give_back world shop-Consistent

release_order-Outcome_example :
    Outcome shop
      (λ _ d'. OrderReleased (trim_space "o1") shop d')
      (Service.release_reservations_by_order_id "o1" world)
release_order-Outcome_example = release_order-Outcome "o1" world shop-Consistent

ask_is_valid : validate_reservation_request (ask "tea" 2) ≡ false
unfolding validate_reservation_request trim_space is_blank
ask_is_valid = refl

tea_is_found : find_stock "tea" shop.stocks ≡ some tea
unfolding find_stock
tea_is_found = refl

reserve_stock_granted_example : is_ok (Service.reserve_stock (ask "tea" 2) world).0 ≡ true
reserve_stock_granted_example =
    reserve_stock_granted (ask "tea" 2) world tea shop-Consistent (λ n. refl) ask_is_valid
      tea_is_found (ground arith) (ground arith)

run-Consistent_example :
    Consistent (run_order_created codec "reserved" "failed" ("m" ∷ "m" ∷ []) world).1.db
    × Consistent (run_order_cancelled codec "reserved" "failed" ("m" ∷ "m" ∷ []) world).1.db
run-Consistent_example =
    run-Consistent codec "reserved" "failed" ("m" ∷ "m" ∷ []) world shop-Consistent

unfoldable code_runs : Unit {0}
unfolding running outside trim_space Service.reserve_stock validate_reservation_request
    Repository.reserve_stock validate_stock_reservation reserve_body map_db_stock
    Queries.get_stock_by_product_id reserve_inventory_stock reserved_row
    upsert_inventory_reservation find_stock find_reservation is_for replace_stock
    replace_reservation reserve_all reserve_from handle_reserve_all handle_order_created
    handle_message_order_created is_processed mark_processed processed_event_key write_event
    publish_inventory_reserved publish_inventory_reservation_failed on_some format_int
code_runs = tt

handled_in_world : (handle_message_order_created codec "reserved" "failed" "m" world).0 ≡ ok true
unfolding code_runs
handled_in_world = refl

handle_message_order_created_marked_example :
    has
      (processed_event_key "e1")
      (handle_message_order_created codec "reserved" "failed" "m" world).1.processed
    ≡ true
handle_message_order_created_marked_example =
    handle_message_order_created_marked codec "reserved" "failed" "m" envelope
      (order (item "tea" 2 ∷ [])) world refl refl refl handled_in_world

-- Kafka fails at the tenth call.
abbrev kafka_down : World InventoryDb
kafka_down = record world { fault = λ n. if n == 9 then some "timeout" else none }

-- Kafka answers again when the message is delivered again.
abbrev kafka_up : World InventoryDb
kafka_up = record (handle_message_order_created codec "reserved" "failed" "m" kafka_down).1 {
  fault = λ n. none;
}

first_delivery_fails :
    (handle_message_order_created codec "reserved" "failed" "m" kafka_down).0
    ≡ err (other "write inventory.reserved event to kafka: timeout")
unfolding code_runs
first_delivery_fails = refl

reserved_units : List InventoryReservation → List ℕ
reserved_units [] = []
reserved_units (r ∷ rs) = r.quantity ∷ reserved_units rs

-- The order is for two units, and the shop keeps three for another order.
redelivery_reserves_again :
    ((handle_message_order_created codec "reserved" "failed" "m" kafka_up).0 ≡ ok true)
    × (reserved_units
          (handle_message_order_created codec "reserved" "failed" "m" kafka_up).1.db.reservations
        ≡ 4 ∷ 3 ∷ [])
unfolding code_runs reserved_units
redelivery_reserves_again = (refl, refl)
