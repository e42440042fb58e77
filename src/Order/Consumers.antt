-- ===== src/Order/Consumers.antt =====
-- internal/order/consumers: `TopicConsumer` and its five instances, with the deduplicator. Log lines
-- are left out.
use event_driven_ecommerce.Base.{
  String, str_eq, Bool, true, not, Option, List, if◌then◌else◌, on_some, ◌<>◌, ◌>>=◌, ◌>>◌, pure,
  fail, Failure, other, redis_exists, redis_set, run_consumer,
}
use event_driven_ecommerce.Events.{
  Envelope, Codec, inventory_reserved_event_type, inventory_reservation_failed_event_type,
  payment_captured_event_type, payment_failed_event_type, payment_creation_failed_event_type,
}
use event_driven_ecommerce.Order.Domain.{Order, OrderError, Call}
use event_driven_ecommerce.Order.Service.{
  mark_inventory_reserved, mark_inventory_reservation_failed, mark_payment_captured,
  mark_payment_failed, mark_payment_creation_failed,
}

abbrev pub failed_as : String → String → Failure OrderError
failed_as context text = other (context <> ": " <> text)

unfoldable pub processed_event_key : String → String
processed_event_key event_id = "order:event:processed:" <> event_id

unfoldable pub is_processed : String → Call Bool
is_processed event_id =
    redis_exists (failed_as "check processed event in redis") (processed_event_key event_id)

unfoldable pub mark_processed : String → Call (Unit {0})
mark_processed event_id =
    redis_set (failed_as "mark processed event in redis") (processed_event_key event_id)

-- The error of `json.Unmarshal` is not a parameter: only that there is one.
unfoldable pub decoded : {A : Type 0} → String → Option A → (A → Call Order) → Call (Unit {0})
decoded event_type payload handle =
    on_some payload (fail (other ("decode " <> event_type <> " payload")))
      λ event. handle event >>= λ order. pure tt

module _ (codec : Codec) where
  -- `TopicConsumer.handleMessage`
  unfoldable pub handle_message : String → (Envelope → Call (Unit {0})) → String → Call Bool
  handle_message expected_event_type handle_event value =
      on_some (codec.unmarshal_envelope value) (pure true) λ envelope.
        if not (str_eq envelope.event_type expected_event_type)
        then pure true
        else is_processed envelope.event_id >>= λ processed.
            if processed
            then pure true
            else handle_event envelope >> (mark_processed envelope.event_id >> pure true)

  -- `TopicConsumer.Run`
  unfoldable pub run : String → (Envelope → Call (Unit {0})) → List String → Call (Unit {0})
  run expected_event_type handle_event =
      run_consumer (failed_as "fetch kafka message") (failed_as "commit kafka message")
        (handle_message expected_event_type handle_event)

  module _ (order_created_topic order_cancelled_topic : String) where
    unfoldable pub on_inventory_reserved : Envelope → Call (Unit {0})
    on_inventory_reserved envelope =
        decoded inventory_reserved_event_type (codec.unmarshal_inventory_reserved envelope.payload)
          λ event.
            mark_inventory_reserved codec order_created_topic order_cancelled_topic event.order_id

    unfoldable pub on_inventory_reservation_failed : Envelope → Call (Unit {0})
    on_inventory_reservation_failed envelope =
        decoded inventory_reservation_failed_event_type
          (codec.unmarshal_inventory_reservation_failed envelope.payload)
          λ event.
            mark_inventory_reservation_failed codec order_created_topic order_cancelled_topic
              event.order_id event.reason

    unfoldable pub on_payment_captured : Envelope → Call (Unit {0})
    on_payment_captured envelope =
        decoded payment_captured_event_type (codec.unmarshal_payment_captured envelope.payload)
          λ event.
            mark_payment_captured codec order_created_topic order_cancelled_topic event.order_id

    unfoldable pub on_payment_failed : Envelope → Call (Unit {0})
    on_payment_failed envelope =
        decoded payment_failed_event_type (codec.unmarshal_payment_failed envelope.payload) λ event.
          mark_payment_failed codec order_created_topic order_cancelled_topic event.order_id
            event.failure_reason

    unfoldable pub on_payment_creation_failed : Envelope → Call (Unit {0})
    on_payment_creation_failed envelope =
        decoded payment_creation_failed_event_type
          (codec.unmarshal_payment_creation_failed envelope.payload)
          λ event.
            mark_payment_creation_failed codec order_created_topic order_cancelled_topic
              event.order_id event.failure_reason
