-- ===== src/Payment/Consumer.antt =====
-- internal/payment/events/inventory_reserved_consumer.go. Log lines are left out, and what `%q` adds
-- to a value is taken as the quotes alone.
use event_driven_ecommerce.Base.{
  String, str_eq, Bool, true, not, ◌||◌, none, List, Result, ok, err, ◌<>◌, if◌then◌else◌, on_some,
  ◌>>=◌, ◌>>◌, pure, lift, try, Failure, other, run_consumer,
}
use event_driven_ecommerce.Protobuf.{Currency, usd, eur, PaymentMethodType, card, cash}
use event_driven_ecommerce.Events.{
  Envelope, InventoryReserved, Codec, inventory_reserved_event_type,
}
use event_driven_ecommerce.Payment.Enums.{status_unspecified, status_name}
use event_driven_ecommerce.Payment.Domain.{Payment, PaymentError, Call, error_text}
use event_driven_ecommerce.Payment.Service
use event_driven_ecommerce.Payment.Publisher.{
  failed_as, is_processed, mark_processed, Topics, publish_payment_created,
  publish_payment_creation_failed,
}

unfoldable pub parse_currency : String → Result (Failure PaymentError) Currency
parse_currency value =
    if str_eq value "CURRENCY_USD" || str_eq value "USD"
    then ok usd
    else if str_eq value "CURRENCY_EUR" || str_eq value "EUR"
    then ok eur
    else err (other ("unsupported payment currency: \"" <> value <> "\""))

unfoldable pub parse_payment_method : String → Result (Failure PaymentError) PaymentMethodType
parse_payment_method value =
    if str_eq value "PAYMENT_METHOD_TYPE_CARD" || str_eq value "CARD"
    then ok card
    else if str_eq value "PAYMENT_METHOD_TYPE_CASH" || str_eq value "CASH"
    then ok cash
    else err (other ("unsupported payment method: \"" <> value <> "\""))

-- The fields that the request leaves out have their zero values; `CreatePayment` sets them.
abbrev pub payment_of_event : InventoryReserved → Currency → PaymentMethodType → Payment
payment_of_event event currency method = record {
  id = "";
  order_id = event.order_id;
  customer_id = event.customer_id;
  amount = record { currency = currency; amount_cents = event.amount.amount_cents };
  payment_method = method;
  payment_method_details = event.payment.method_details;
  idempotency_key = "payment:create:" <> event.order_id;
  status = status_unspecified;
  cancel_reason = "";
  created_at = none;
  updated_at = none;
}

unfoldable pub create_payment : InventoryReserved → Call Payment
create_payment event = do
  currency ← lift (parse_currency event.amount.currency)
  method ← lift (parse_payment_method event.payment.method)
  Service.create_payment (payment_of_event event currency method)

module _ (codec : Codec) (topics : Topics) where
  -- What follows `createPayment`, on its result.
  unfoldable pub answer :
      Envelope → InventoryReserved → Result (Failure PaymentError) Payment → Call (Unit {0})
  answer envelope event (err e) =
      publish_payment_creation_failed codec topics envelope.event_id (record {
        order_id = event.order_id;
        customer_id = event.customer_id;
        failure_reason = error_text e;
      })
  answer envelope event (ok payment) =
      publish_payment_created codec topics envelope.event_id (record {
        order_id = payment.order_id;
        customer_id = payment.customer_id;
        payment_id = payment.id;
        status = status_name payment.status;
      })

  -- Once the event is known to be new.
  unfoldable pub handle_inventory_reserved : Envelope → Call Bool
  handle_inventory_reserved envelope =
      on_some (codec.unmarshal_inventory_reserved envelope.payload) (pure true) λ event.
        try (create_payment event) >>= λ outcome.
        answer envelope event outcome >> (mark_processed envelope.event_id >> pure true)

  -- `InventoryReservedConsumer.handleMessage`: whether the message is to be committed.
  unfoldable pub handle_message : String → Call Bool
  handle_message value = on_some (codec.unmarshal_envelope value) (pure true) λ envelope.
      if not (str_eq envelope.event_type inventory_reserved_event_type)
      then pure true
      else is_processed envelope.event_id >>= λ processed.
          if processed then pure true else handle_inventory_reserved envelope

  unfoldable pub run : List String → Call (Unit {0})
  run =
      run_consumer (failed_as "fetch kafka message") (failed_as "commit kafka message")
        handle_message
