-- ===== src/Inventory/Delivery.antt =====
-- When the order.created consumer commits a message.
use event_driven_ecommerce.Base.{
  suc, String, eq_iff, ◌≡◌, true, some, arith, Result, ok, err, World, has, Failure, running,
  outside, pure, ◌>>=◌, ◌>>◌, on_some,
}
use event_driven_ecommerce.Events.{Envelope, OrderCreated, Codec, order_created_event_type}
use event_driven_ecommerce.Inventory.Domain.{StockError, InventoryDb}
use event_driven_ecommerce.Inventory.Repository.{Call}
use event_driven_ecommerce.Inventory.Consumers.{
  ReserveAll, reserved, refused, is_processed, mark_processed, processed_event_key, reserve_all,
  handle_reserve_all, handle_order_created, handle_message_order_created,
}

module _ (codec : Codec) (reserved_topic failed_topic : String) where
  marked_last :
      {A : Type 0} (m : Call A) (id : String) (w : World InventoryDb)
      → ((m >> (mark_processed id >> pure true)) w).0 ≡ ok true
      → has (processed_event_key id) ((m >> (mark_processed id >> pure true)) w).1.processed ≡ true
  unfolding mark_processed running outside
  marked_last m id w h = ground (arith, eq_iff (processed_event_key id) (processed_event_key id))

  handle_reserve_all_marked :
      (envelope : Envelope) (event : OrderCreated) (r : ReserveAll) (w : World InventoryDb)
      → (handle_reserve_all codec reserved_topic failed_topic envelope event r w).0 ≡ ok true
      → has
          (processed_event_key envelope.event_id)
          (handle_reserve_all codec reserved_topic failed_topic envelope event r w).1.processed
        ≡ true
  unfolding handle_reserve_all
  handle_reserve_all_marked envelope event (reserved items) w = marked_last _ envelope.event_id w
  handle_reserve_all_marked envelope event (refused item e) w = marked_last _ envelope.event_id w

  reserve_all_marked :
      (envelope : Envelope) (event : OrderCreated)
      (x : Result (Failure StockError) ReserveAll × World InventoryDb)
      → (◌>>=◌
          (λ (w : World InventoryDb). x)
          (handle_reserve_all codec reserved_topic failed_topic envelope event)
          x.1).0
        ≡ ok true
      → has
          (processed_event_key envelope.event_id)
          (◌>>=◌
            (λ (w : World InventoryDb). x)
            (handle_reserve_all codec reserved_topic failed_topic envelope event)
            x.1).1.processed
        ≡ true
  unfolding ◌>>=◌
  reserve_all_marked envelope event (ok r, w) h = handle_reserve_all_marked envelope event r w h
  reserve_all_marked envelope event (err e, w) h = cc

  handle_order_created_marked :
      (envelope : Envelope) (event : OrderCreated) (w : World InventoryDb)
      → codec.unmarshal_order_created envelope.payload ≡ some event
      → (handle_order_created codec reserved_topic failed_topic envelope w).0 ≡ ok true
      → has
          (processed_event_key envelope.event_id)
          (handle_order_created codec reserved_topic failed_topic envelope w).1.processed
        ≡ true
  unfolding handle_order_created on_some ◌>>=◌
  handle_order_created_marked envelope event w e =
      rw (e, on_some) (reserve_all_marked envelope event (reserve_all event w))

  -- An order.created message that can be decoded is committed only where its event has been
  -- recorded as handled.
  pub handle_message_order_created_marked :
      (value : String) (envelope : Envelope) (event : OrderCreated) (w : World InventoryDb)
      → codec.unmarshal_envelope value ≡ some envelope
      → envelope.event_type ≡ order_created_event_type
      → codec.unmarshal_order_created envelope.payload ≡ some event
      → (handle_message_order_created codec reserved_topic failed_topic value w).0 ≡ ok true
      → has
          (processed_event_key envelope.event_id)
          (handle_message_order_created codec reserved_topic failed_topic value w).1.processed
        ≡ true
  unfolding handle_message_order_created is_processed on_some running outside
  handle_message_order_created_marked value envelope event w e type p h = ground (
    arith,
    eq_iff envelope.event_type order_created_event_type,
    handle_order_created_marked envelope event (record w { tick = suc w.tick }) p,
  )
