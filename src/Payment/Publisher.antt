-- ===== src/Payment/Publisher.antt =====
-- internal/payment/events/kafka_publisher.go and redis_deduplicator.go. The time that kafka.Message
-- carries is left out, with the reading of the clock for it.
use event_driven_ecommerce.Base.{
  String, Bool, ◌<>◌, format_int, ◌>>=◌, Failure, other, now, redis_exists, redis_set,
  write_message,
}
use event_driven_ecommerce.Events.{
  Codec, PaymentCreated, PaymentCreationFailed, PaymentCaptured, PaymentFailed,
  payment_created_event_type, payment_creation_failed_event_type, payment_captured_event_type,
  payment_failed_event_type,
}
use event_driven_ecommerce.Payment.Domain.{PaymentError, Call}

abbrev pub failed_as : String → String → Failure PaymentError
failed_as context text = other (context <> ": " <> text)

unfoldable pub processed_event_key : String → String
processed_event_key event_id = "payment:event:processed:" <> event_id

unfoldable pub is_processed : String → Call Bool
is_processed event_id =
    redis_exists (failed_as "check processed event in redis") (processed_event_key event_id)

unfoldable pub mark_processed : String → Call (Unit {0})
mark_processed event_id =
    redis_set (failed_as "mark processed event in redis") (processed_event_key event_id)

pub record Topics : Type 0 where
  pub created : String
  pub creation_failed : String
  pub captured : String
  pub failed : String

module _ (codec : Codec) where
  unfoldable pub write_event : String → String → String → String → String → Call (Unit {0})
  write_event topic event_type source_event_id key payload = do
    at ← now
    occurred ← now
    write_message (failed_as ("write " <> event_type <> " event to kafka")) (record {
      topic = topic;
      key = key;
      value = codec.marshal_envelope (record {
        event_id = source_event_id <> ":" <> format_int at;
        event_type = event_type;
        occurred_at = codec.format_rfc3339 occurred;
        payload = payload;
      });
    })

  module _ (topics : Topics) where
    unfoldable pub publish_payment_created : String → PaymentCreated → Call (Unit {0})
    publish_payment_created source event =
        write_event topics.created payment_created_event_type source event.order_id
          (codec.marshal_payment_created event)

    unfoldable pub publish_payment_creation_failed :
        String → PaymentCreationFailed → Call (Unit {0})
    publish_payment_creation_failed source event =
        write_event topics.creation_failed payment_creation_failed_event_type source event.order_id
          (codec.marshal_payment_creation_failed event)

    unfoldable pub publish_payment_captured : String → PaymentCaptured → Call (Unit {0})
    publish_payment_captured source event =
        write_event topics.captured payment_captured_event_type source event.order_id
          (codec.marshal_payment_captured event)

    unfoldable pub publish_payment_failed : String → PaymentFailed → Call (Unit {0})
    publish_payment_failed source event =
        write_event topics.failed payment_failed_event_type source event.order_id
          (codec.marshal_payment_failed event)
