-- ===== src/Payment/Handling.antt =====
-- The consumer and the publisher of the payment service keep whatever its operations keep.
use event_driven_ecommerce.Base.{
  String, true, List, Result, ok, err, Failure, Keeps, pure-Keeps, lift-Keeps, map_error-Keeps,
  try-Keeps, if-Keeps, on_some-Keeps, bind-Keeps, now-Keeps, redis_exists-Keeps, redis_set-Keeps,
  write_message-Keeps, run_consumer-Keeps, Bool, false,
}
use event_driven_ecommerce.Events.{Codec, Envelope, InventoryReserved}
use event_driven_ecommerce.Payment.Domain.{Payment, PaymentDb, PaymentError}
use event_driven_ecommerce.Payment.Service
use event_driven_ecommerce.Payment.Service.{
  moves, cancel_verdict, capture_verdict, fail_verdict, cancelled_for, captured_at, failed_for,
  create_new, after_create, after_lookup, id_or_new,
}
use event_driven_ecommerce.Payment.Publisher.{
  Topics, is_processed, mark_processed, write_event, publish_payment_created,
  publish_payment_creation_failed, publish_payment_captured, publish_payment_failed,
}
use event_driven_ecommerce.Payment.Consumer
use event_driven_ecommerce.Payment.Consumer.{answer, handle_inventory_reserved, handle_message, run}
use event_driven_ecommerce.Payment.Handler.{announce_captured, announce_failed}

module _ (codec : Codec) (topics : Topics) (I : PaymentDb → Type 0) where
  pub write_event-Keeps :
      (topic event_type source key payload : String)
      → Keeps I (write_event codec topic event_type source key payload)
  unfolding write_event
  write_event-Keeps topic event_type source key payload =
      bind-Keeps _ _ _ (now-Keeps I)
        λ at. bind-Keeps _ _ _ (now-Keeps I) λ occurred. write_message-Keeps I _ _

  pub announce_captured-Keeps :
      (p : Payment) (moved : Bool) → Keeps I (announce_captured codec topics p moved)
  unfolding announce_captured publish_payment_captured
  announce_captured-Keeps p true = map_error-Keeps _ _ _ (write_event-Keeps _ _ _ _ _)
  announce_captured-Keeps p false = pure-Keeps I tt

  pub announce_failed-Keeps :
      (p : Payment) (moved : Bool) → Keeps I (announce_failed codec topics p moved)
  unfolding announce_failed publish_payment_failed
  announce_failed-Keeps p true = map_error-Keeps _ _ _ (write_event-Keeps _ _ _ _ _)
  announce_failed-Keeps p false = pure-Keeps I tt

  answer-Keeps :
      (envelope : Envelope) (event : InventoryReserved) (r : Result (Failure PaymentError) Payment)
      → Keeps I (answer codec topics envelope event r)
  unfolding answer publish_payment_created publish_payment_creation_failed
  answer-Keeps envelope event (ok p) = write_event-Keeps _ _ _ _ _
  answer-Keeps envelope event (err e) = write_event-Keeps _ _ _ _ _

  module _ (creates : (p : Payment) → Keeps I (Service.create_payment p)) where
    handle_message-Keeps : (value : String) → Keeps I (handle_message codec topics value)
    unfolding handle_message handle_inventory_reserved Consumer.create_payment is_processed
        mark_processed
    handle_message-Keeps value = on_some-Keeps I _ _ _ (pure-Keeps I true) λ envelope.
        if-Keeps I _ _ _ (pure-Keeps I true) (
          bind-Keeps _ _ _ (redis_exists-Keeps I _ _) λ processed.
            if-Keeps I processed _ _ (pure-Keeps I true) (
              on_some-Keeps I _ _ _ (pure-Keeps I true) λ event.
                bind-Keeps _ _ _
                  (try-Keeps I _ (
                    bind-Keeps _ _ _ (lift-Keeps I _)
                      λ c. bind-Keeps _ _ _ (lift-Keeps I _) λ m. creates _))
                  λ outcome.
                    bind-Keeps _ _ _ (answer-Keeps envelope event outcome)
                      λ _. bind-Keeps _ _ _ (redis_set-Keeps I _ _) λ _. pure-Keeps I true))

    pub run-Keeps : (ms : List String) → Keeps I (run codec topics ms)
    unfolding run
    run-Keeps ms = run_consumer-Keeps I _ _ _ handle_message-Keeps ms
