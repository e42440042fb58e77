-- ===== src/Order/Handling.antt =====
-- The consumers of the order service keep whatever its operations keep.
use event_driven_ecommerce.Base.{
  String, true, Option, List, Keeps, pure-Keeps, fail-Keeps, if-Keeps, on_some-Keeps, bind-Keeps,
  redis_exists-Keeps, redis_set-Keeps, run_consumer-Keeps,
}
use event_driven_ecommerce.Events.{Envelope, Codec}
use event_driven_ecommerce.Order.Domain.{Order, OrderDb, Call}
use event_driven_ecommerce.Order.Service.{
  transition_order, inventory_reserved_transition, payment_captured_transition, failed_transition,
  mark_inventory_reserved, mark_inventory_reservation_failed, mark_payment_captured,
  mark_payment_failed, mark_payment_creation_failed,
}
use event_driven_ecommerce.Order.Consumers.{
  is_processed, mark_processed, decoded, handle_message, run, on_inventory_reserved,
  on_inventory_reservation_failed, on_payment_captured, on_payment_failed,
  on_payment_creation_failed,
}

module _ (I : OrderDb → Type 0) where
  decoded-Keeps :
      {A : Type 0} (event_type : String) (payload : Option A) (handle : A → Call Order)
      → ((a : A) → Keeps I (handle a))
      → Keeps I (decoded event_type payload handle)
  unfolding decoded
  decoded-Keeps event_type payload handle h =
      on_some-Keeps I _ _ _ (fail-Keeps I _)
        λ event. bind-Keeps _ _ _ (h event) λ order. pure-Keeps I tt

  handle_message-Keeps :
      (codec : Codec) (expected : String) (handle : Envelope → Call (Unit {0}))
      → ((e : Envelope) → Keeps I (handle e))
      → (value : String) → Keeps I (handle_message codec expected handle value)
  unfolding handle_message is_processed mark_processed
  handle_message-Keeps codec expected handle h value =
      on_some-Keeps I _ _ _ (pure-Keeps I true) λ envelope. if-Keeps I _ _ _ (pure-Keeps I true) (
        bind-Keeps _ _ _ (redis_exists-Keeps I _ _) λ processed.
          if-Keeps I processed _ _ (pure-Keeps I true) (
            bind-Keeps _ _ _ (h envelope)
              λ _. bind-Keeps _ _ _ (redis_set-Keeps I _ _) λ _. pure-Keeps I true))

  run-Keeps :
      (codec : Codec) (expected : String) (handle : Envelope → Call (Unit {0}))
      → ((e : Envelope) → Keeps I (handle e))
      → (ms : List String) → Keeps I (run codec expected handle ms)
  unfolding run
  run-Keeps codec expected handle h ms =
      run_consumer-Keeps I _ _ _ (handle_message-Keeps codec expected handle h) ms

-- The five event handlers that a consumer can be made with.
pub data Topic : Type 0 where
  inventory_reserved inventory_reservation_failed payment_captured : Topic
  payment_failed payment_creation_failed : Topic

module _ (codec : Codec) (created_topic cancelled_topic : String) where
  unfoldable pub handler : Topic → Envelope → Call (Unit {0})
  handler inventory_reserved = on_inventory_reserved codec created_topic cancelled_topic
  handler inventory_reservation_failed =
      on_inventory_reservation_failed codec created_topic cancelled_topic
  handler payment_captured = on_payment_captured codec created_topic cancelled_topic
  handler payment_failed = on_payment_failed codec created_topic cancelled_topic
  handler payment_creation_failed = on_payment_creation_failed codec created_topic cancelled_topic

  module _ (I : OrderDb → Type 0)
      (reserves : (id : String)
        → Keeps I
            (transition_order codec created_topic cancelled_topic id inventory_reserved_transition))
      (captures : (id : String)
        → Keeps I
            (transition_order codec created_topic cancelled_topic id payment_captured_transition))
      (fails : (reason id : String)
        → Keeps I (
            transition_order codec created_topic cancelled_topic id
              (failed_transition reason))) where
    handler-Keeps : (t : Topic) (e : Envelope) → Keeps I (handler t e)
    unfolding handler on_inventory_reserved on_inventory_reservation_failed on_payment_captured
        on_payment_failed on_payment_creation_failed mark_inventory_reserved
        mark_inventory_reservation_failed mark_payment_captured mark_payment_failed
        mark_payment_creation_failed
    handler-Keeps inventory_reserved e = decoded-Keeps I _ _ _ λ a. reserves _
    handler-Keeps inventory_reservation_failed e = decoded-Keeps I _ _ _ λ a. fails _ _
    handler-Keeps payment_captured e = decoded-Keeps I _ _ _ λ a. captures _
    handler-Keeps payment_failed e = decoded-Keeps I _ _ _ λ a. fails _ _
    handler-Keeps payment_creation_failed e = decoded-Keeps I _ _ _ λ a. fails _ _

    -- A consumer of any of the events.
    pub consumer-Keeps :
        (t : Topic) (expected : String) (ms : List String)
        → Keeps I (run codec expected (handler t) ms)
    consumer-Keeps t expected ms = run-Keeps I codec expected (handler t) (handler-Keeps t) ms
