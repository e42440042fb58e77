-- ===== src/Inventory/Consumers.antt =====
-- internal/inventory/events: the consumers of order.created and order.cancelled, with the
-- publisher and the deduplicator that they use. Log lines are left out, and the time that
-- kafka.Message carries, which no consumer reads.
use event_driven_ecommerce.Base.{
  String, str_eq, Bool, true, not, some, List, [], ◌∷◌, reverse, ◌<>◌, format_int, if◌then◌else◌,
  on_some, ok, err, ◌>>=◌, ◌>>◌, pure, fail, try, Failure, other, now, redis_exists, redis_set,
  write_message, run_consumer,
}
use event_driven_ecommerce.Events.{
  Envelope, OrderCreated, OrderCreatedItem, InventoryReservationItem, InventoryReserved,
  InventoryReservationFailed, Codec, order_created_event_type, order_cancelled_event_type,
  inventory_reserved_event_type, inventory_reservation_failed_event_type,
}
use event_driven_ecommerce.Inventory.Domain.{StockReservation, StockError, error_text}
use event_driven_ecommerce.Inventory.Service
use event_driven_ecommerce.Inventory.Repository.{Call}

abbrev pub failed_as : String → String → Failure StockError
failed_as context text = other (context <> ": " <> text)

unfoldable pub processed_event_key : String → String
processed_event_key event_id = "inventory:event:processed:" <> event_id

unfoldable pub is_processed : String → Call Bool
is_processed event_id =
    redis_exists (failed_as "check processed event in redis") (processed_event_key event_id)

unfoldable pub mark_processed : String → Call (Unit {0})
mark_processed event_id =
    redis_set (failed_as "mark processed event in redis") (processed_event_key event_id)

-- How `reserveAll` ends where no rollback failed: `refused` carries the item and its error.
pub data ReserveAll : Type 0 where
  reserved : List InventoryReservationItem → ReserveAll
  refused : InventoryReservationItem → Failure StockError → ReserveAll

abbrev pub reservation_item : OrderCreatedItem → InventoryReservationItem
reservation_item item = record { product_id = item.product_id; quantity = item.quantity }

abbrev pub reservation_of : String → InventoryReservationItem → StockReservation
reservation_of o item = record {
  product_id = item.product_id;
  order_id = o;
  quantity = item.quantity;
}

unfoldable pub release_one : String → InventoryReservationItem → Call (Unit {0})
release_one o item = do
  released ← try (Service.release_stock (reservation_of o item))
  elim released [
    | ok _ ↦ pure tt
    | err e ↦
        fail
          (other ("rollback reservation for product " <> item.product_id <> ": " <> error_text e))
  ]

-- `releaseReserved` walks its slice from the end; here the latest item comes first.
unfoldable pub release_reserved : String → List InventoryReservationItem → Call (Unit {0})
release_reserved o [] = pure tt
release_reserved o (item ∷ items) = release_one o item >> release_reserved o items

-- `done` holds the items reserved so far, the latest first.
unfoldable pub reserve_from :
    String → List OrderCreatedItem → List InventoryReservationItem → Call ReserveAll
reserve_from o [] done = pure (reserved (reverse done))
reserve_from o (item ∷ items) done =
    try (Service.reserve_stock (reservation_of o (reservation_item item))) >>= λ outcome.
    elim outcome [
      | ok _ ↦ reserve_from o items (reservation_item item ∷ done)
      | err e ↦ release_reserved o done >> pure (refused (reservation_item item) e)
    ]

unfoldable pub reserve_all : OrderCreated → Call ReserveAll
reserve_all event = reserve_from event.order_id event.items []

module _ (codec : Codec) (reserved_topic failed_topic : String) where
  unfoldable pub write_event : String → String → String → String → String → Call (Unit {0})
  write_event topic event_type source_event_id key payload = do
    at ← now
    occurred ← now
    write_message (failed_as ("write " <> event_type <> " event to kafka")) (record {
      topic = topic;
      key = key;
      value = codec.marshal_envelope (record {
        event_id = source_event_id <> ":" <> format_int at;
        event_type = event_type;
        occurred_at = codec.format_rfc3339 occurred;
        payload = payload;
      });
    })

  unfoldable pub publish_inventory_reserved : String → InventoryReserved → Call (Unit {0})
  publish_inventory_reserved source event =
      write_event reserved_topic inventory_reserved_event_type source event.order_id
        (codec.marshal_inventory_reserved event)

  unfoldable pub publish_inventory_reservation_failed :
      String → InventoryReservationFailed → Call (Unit {0})
  publish_inventory_reservation_failed source event =
      write_event failed_topic inventory_reservation_failed_event_type source event.order_id
        (codec.marshal_inventory_reservation_failed event)

  unfoldable pub handle_reserve_all : Envelope → OrderCreated → ReserveAll → Call Bool
  handle_reserve_all envelope event (refused item e) = do
    publish_inventory_reservation_failed envelope.event_id (record {
      order_id = event.order_id;
      customer_id = event.customer_id;
      failed_item = some item;
      reason = error_text e;
    })
    mark_processed envelope.event_id
    pure true
  handle_reserve_all envelope event (reserved items) = do
    publish_inventory_reserved envelope.event_id (record {
      order_id = event.order_id;
      customer_id = event.customer_id;
      amount = event.total_amount;
      payment = event.payment;
      items = items;
    })
    mark_processed envelope.event_id
    pure true

  -- Once the event is known to be new.
  unfoldable pub handle_order_created : Envelope → Call Bool
  handle_order_created envelope =
      on_some (codec.unmarshal_order_created envelope.payload) (pure true)
        λ event. reserve_all event >>= handle_reserve_all envelope event

  -- `OrderCreatedConsumer.handleMessage`: whether the message is to be committed.
  unfoldable pub handle_message_order_created : String → Call Bool
  handle_message_order_created value =
      on_some (codec.unmarshal_envelope value) (pure true) λ envelope.
        if not (str_eq envelope.event_type order_created_event_type)
        then pure true
        else is_processed envelope.event_id >>= λ processed.
            if processed then pure true else handle_order_created envelope

  unfoldable pub handle_order_cancelled : Envelope → Call Bool
  handle_order_cancelled envelope =
      on_some (codec.unmarshal_order_cancelled envelope.payload) (pure true) λ event.
        Service.release_reservations_by_order_id event.order_id
        >> (mark_processed envelope.event_id >> pure true)

  -- `OrderCancelledConsumer.handleMessage`
  unfoldable pub handle_message_order_cancelled : String → Call Bool
  handle_message_order_cancelled value =
      on_some (codec.unmarshal_envelope value) (pure true) λ envelope.
        if not (str_eq envelope.event_type order_cancelled_event_type)
        then pure true
        else is_processed envelope.event_id >>= λ processed.
            if processed then pure true else handle_order_cancelled envelope

  unfoldable pub run_order_created : List String → Call (Unit {0})
  run_order_created =
      run_consumer (failed_as "fetch kafka message") (failed_as "commit kafka message")
        handle_message_order_created

  unfoldable pub run_order_cancelled : List String → Call (Unit {0})
  run_order_cancelled =
      run_consumer (failed_as "fetch kafka message") (failed_as "commit kafka message")
        handle_message_order_cancelled
