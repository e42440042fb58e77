-- ===== src/Inventory/Handling.antt =====
-- The consumers of the inventory service over every message and every fault.
use event_driven_ecommerce.Base.{
  String, refl, true, List, trim_space, World, Keeps, Settles-Keeps, Ends-Keeps, pure-Keeps,
  if-Keeps, on_some-Keeps, bind-Keeps, now-Keeps, redis_exists-Keeps, redis_set-Keeps,
  write_message-Keeps, run_consumer-Keeps,
}
use event_driven_ecommerce.Events.{Envelope, OrderCreated, Codec}
use event_driven_ecommerce.Inventory.Domain.{InventoryDb}
use event_driven_ecommerce.Inventory.Service
use event_driven_ecommerce.Inventory.Reserving.{Consistent}
use event_driven_ecommerce.Inventory.Releasing.{OrderReleased, release_order-Settles}
use event_driven_ecommerce.Inventory.Compensation.{Reserves, Stuck, reserve_all-Ends}
use event_driven_ecommerce.Inventory.Consumers.{
  ReserveAll, reserved, refused, is_processed, mark_processed, reserve_all, write_event,
  publish_inventory_reserved, publish_inventory_reservation_failed, handle_reserve_all,
  handle_order_created, handle_message_order_created, handle_order_cancelled,
  handle_message_order_cancelled, run_order_created, run_order_cancelled,
}

reserve_all-Consistent :
    (event : OrderCreated) (d : InventoryDb) (r : ReserveAll) (d' : InventoryDb)
    → Reserves event d r d'
    → Consistent d'
reserve_all-Consistent event d (reserved items) d' h = h.2
reserve_all-Consistent event d (refused item e) d' h = h.4

reserve_all-Keeps : (event : OrderCreated) → Keeps Consistent (reserve_all event)
reserve_all-Keeps event =
    Ends-Keeps Consistent _ (Reserves event) (Stuck event) (λ d c. reserve_all-Ends event d c)
      (λ d r d' h. reserve_all-Consistent event d r d' h) (λ d e d' h. h.consistent)

is_processed-Keeps : (id : String) → Keeps Consistent (is_processed id)
unfolding is_processed
is_processed-Keeps id = redis_exists-Keeps Consistent _ _

mark_processed-Keeps : (id : String) → Keeps Consistent (mark_processed id)
unfolding mark_processed
mark_processed-Keeps id = redis_set-Keeps Consistent _ _

release_order-Keeps : (o : String) → Keeps Consistent (Service.release_reservations_by_order_id o)
release_order-Keeps o =
    Settles-Keeps Consistent _ (λ d _ d'. OrderReleased (trim_space o) d d')
      (λ d c. release_order-Settles (trim_space o) d c o refl) (λ d a d' c done. done.consistent)

module _ (codec : Codec) (reserved_topic failed_topic : String) where
  write_event-Keeps :
      (topic event_type source key payload : String)
      → Keeps Consistent
          (write_event codec reserved_topic failed_topic topic event_type source key payload)
  unfolding write_event
  write_event-Keeps topic event_type source key payload =
      bind-Keeps _ _ _ (now-Keeps Consistent)
        λ at. bind-Keeps _ _ _ (now-Keeps Consistent) λ occurred. write_message-Keeps Consistent _ _

  handle_reserve_all-Keeps :
      (envelope : Envelope) (event : OrderCreated) (r : ReserveAll)
      → Keeps Consistent (handle_reserve_all codec reserved_topic failed_topic envelope event r)
  unfolding handle_reserve_all publish_inventory_reserved publish_inventory_reservation_failed
  handle_reserve_all-Keeps envelope event (refused item e) =
      bind-Keeps _ _ _ (write_event-Keeps _ _ _ _ _)
        λ _. bind-Keeps _ _ _ (mark_processed-Keeps _) λ _. pure-Keeps Consistent true
  handle_reserve_all-Keeps envelope event (reserved items) =
      bind-Keeps _ _ _ (write_event-Keeps _ _ _ _ _)
        λ _. bind-Keeps _ _ _ (mark_processed-Keeps _) λ _. pure-Keeps Consistent true

  handle_message_order_created-Keeps :
      (value : String)
      → Keeps Consistent (handle_message_order_created codec reserved_topic failed_topic value)
  unfolding handle_message_order_created handle_order_created
  handle_message_order_created-Keeps value =
      on_some-Keeps Consistent _ _ _ (pure-Keeps Consistent true) λ envelope.
        if-Keeps Consistent _ _ _ (pure-Keeps Consistent true) (
          bind-Keeps _ _ _ (is_processed-Keeps _) λ processed.
            if-Keeps Consistent processed _ _ (pure-Keeps Consistent true) (
              on_some-Keeps Consistent _ _ _ (pure-Keeps Consistent true) λ event.
                bind-Keeps _ _ _ (reserve_all-Keeps event)
                  λ r. handle_reserve_all-Keeps envelope event r))

  handle_message_order_cancelled-Keeps :
      (value : String)
      → Keeps Consistent (handle_message_order_cancelled codec reserved_topic failed_topic value)
  unfolding handle_message_order_cancelled handle_order_cancelled
  handle_message_order_cancelled-Keeps value =
      on_some-Keeps Consistent _ _ _ (pure-Keeps Consistent true) λ envelope.
        if-Keeps Consistent _ _ _ (pure-Keeps Consistent true) (
          bind-Keeps _ _ _ (is_processed-Keeps _) λ processed.
            if-Keeps Consistent processed _ _ (pure-Keeps Consistent true) (
              on_some-Keeps Consistent _ _ _ (pure-Keeps Consistent true) λ event.
                bind-Keeps _ _ _ (release_order-Keeps event.order_id)
                  λ _. bind-Keeps _ _ _ (mark_processed-Keeps _) λ _. pure-Keeps Consistent true))

  -- Whatever messages either consumer of the inventory service is given, and whichever calls fail,
  -- the inventory stays consistent: in every product the available and reserved units make the
  -- total, and the reserved units are those of the reservations.
  pub run-Consistent :
      (ms : List String) (w : World InventoryDb)
      → Consistent w.db
      → Consistent (run_order_created codec reserved_topic failed_topic ms w).1.db
        × Consistent (run_order_cancelled codec reserved_topic failed_topic ms w).1.db
  unfolding run_order_created run_order_cancelled
  run-Consistent ms w c = (
    (run_consumer-Keeps Consistent _ _ _ handle_message_order_created-Keeps ms).apply w c,
    (run_consumer-Keeps Consistent _ _ _ handle_message_order_cancelled-Keeps ms).apply w c,
  )
