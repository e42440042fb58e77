-- ===== src/Payment/Handler.antt =====
-- internal/payment/handler/grpc.go. Log lines are left out; a request is its fields, as their getters
-- read them.
use event_driven_ecommerce.Base.{
  ℕ, String, ℤ, pos, Bool, true, false, Option, some, none, List, map, ◌>>=◌, ◌>>◌, pure, map_error,
  Failure, domain, other,
}
use event_driven_ecommerce.Grpc.{
  Status, status_error, invalid_argument, not_found, already_exists, failed_precondition, internal,
  Rpc, served, answered_page, answered_page_size,
}
use event_driven_ecommerce.Protobuf.{Currency, currency_unspecified, PaymentMethodType}
use event_driven_ecommerce.Events.{Codec}
use event_driven_ecommerce.Payment.Enums.{PaymentStatus, status_unspecified, status_name}
use event_driven_ecommerce.Payment.Domain.{
  Money, Payment, PaymentDb, PaymentError, error_text, payment_not_found, invalid_payment,
  payment_already_exists, invalid_payment_id, invalid_idempotency_key,
  idempotency_key_already_exists, payment_cannot_be_cancelled, payment_cannot_be_captured,
  payment_cannot_be_failed,
}
use event_driven_ecommerce.Payment.Publisher.{
  Topics, publish_payment_captured, publish_payment_failed,
}
use event_driven_ecommerce.Payment.Service

-- `*paymentv1.Money` and `*paymentv1.Payment`, where they are not nil.
pub record ProtoMoney : Type 0 where
  pub currency : Currency
  pub amount_cents : ℤ

pub record ProtoPayment : Type 0 where
  pub payment_id : String
  pub order_id : String
  pub customer_id : String
  pub amount : ProtoMoney
  pub payment_method : PaymentMethodType
  pub status : PaymentStatus

pub record CreatePaymentRequest : Type 0 where
  pub order_id : String
  pub customer_id : String
  pub amount : Option ProtoMoney
  pub payment_method : PaymentMethodType
  pub payment_method_details : String
  pub idempotency_key : String

pub record ListPaymentsByCustomerResponse : Type 0 where
  pub payments : List ProtoPayment
  pub page : ℤ
  pub page_size : ℤ
  pub total : ℕ

unfoldable pub convert_money : Option ProtoMoney → Money
convert_money none = record { currency = currency_unspecified; amount_cents = pos 0 }
convert_money (some money) = record { currency = money.currency; amount_cents = money.amount_cents }

unfoldable pub convert_money_to_proto : Money → ProtoMoney
convert_money_to_proto money = record {
  currency = money.currency;
  amount_cents = money.amount_cents;
}

unfoldable pub convert_payment_to_proto : Payment → ProtoPayment
unfolding convert_money_to_proto
convert_payment_to_proto payment = record {
  payment_id = payment.id;
  order_id = payment.order_id;
  customer_id = payment.customer_id;
  amount = convert_money_to_proto payment.amount;
  payment_method = payment.payment_method;
  status = payment.status;
}

unfoldable pub map_payment_error : Failure PaymentError → Status
map_payment_error (other text) = status_error internal "internal server error"
map_payment_error (domain payment_not_found) =
    status_error not_found (error_text (domain payment_not_found))
map_payment_error (domain invalid_payment) =
    status_error invalid_argument (error_text (domain invalid_payment))
map_payment_error (domain invalid_payment_id) =
    status_error invalid_argument (error_text (domain invalid_payment_id))
map_payment_error (domain invalid_idempotency_key) =
    status_error invalid_argument (error_text (domain invalid_idempotency_key))
map_payment_error (domain payment_already_exists) =
    status_error already_exists (error_text (domain payment_already_exists))
map_payment_error (domain idempotency_key_already_exists) =
    status_error already_exists (error_text (domain idempotency_key_already_exists))
map_payment_error (domain payment_cannot_be_cancelled) =
    status_error failed_precondition (error_text (domain payment_cannot_be_cancelled))
map_payment_error (domain payment_cannot_be_captured) =
    status_error failed_precondition (error_text (domain payment_cannot_be_captured))
map_payment_error (domain payment_cannot_be_failed) =
    status_error failed_precondition (error_text (domain payment_cannot_be_failed))

abbrev pub payment_of_request : CreatePaymentRequest → Payment
payment_of_request req = record {
  id = "";
  order_id = req.order_id;
  customer_id = req.customer_id;
  amount = convert_money req.amount;
  payment_method = req.payment_method;
  payment_method_details = req.payment_method_details;
  idempotency_key = req.idempotency_key;
  status = status_unspecified;
  cancel_reason = "";
  created_at = none;
  updated_at = none;
}

unfoldable pub create_payment : CreatePaymentRequest → Rpc PaymentDb ProtoPayment
create_payment req = do
  payment ← served map_payment_error (Service.create_payment (payment_of_request req))
  pure (convert_payment_to_proto payment)

unfoldable pub get_payment_by_id : String → Rpc PaymentDb ProtoPayment
get_payment_by_id id = do
  payment ← served map_payment_error (Service.get_payment_by_id id)
  pure (convert_payment_to_proto payment)

unfoldable pub get_payment_by_order_id : String → Rpc PaymentDb ProtoPayment
get_payment_by_order_id o = do
  payment ← served map_payment_error (Service.get_payment_by_order_id o)
  pure (convert_payment_to_proto payment)

unfoldable pub list_payments_by_customer :
    String → ℤ → ℤ → Rpc PaymentDb ListPaymentsByCustomerResponse
list_payments_by_customer customer page page_size = do
  listed ← served map_payment_error (Service.list_payments_by_customer customer page page_size)
  pure (record {
    payments = map convert_payment_to_proto listed.0;
    page = answered_page page;
    page_size = answered_page_size page_size listed.1;
    total = listed.1;
  })

unfoldable pub cancel_payment : String → String → Rpc PaymentDb ProtoPayment
cancel_payment id reason = do
  payment ← served map_payment_error (Service.cancel_payment id reason)
  pure (convert_payment_to_proto payment)

module _ (codec : Codec) (topics : Topics) where
  -- The event of a capture, where the payment moved.
  unfoldable pub announce_captured : Payment → Bool → Rpc PaymentDb (Unit {0})
  announce_captured payment false = pure tt
  announce_captured payment true =
      map_error (λ _. status_error internal "failed to publish payment.captured event")
        (publish_payment_captured codec topics payment.id (record {
          order_id = payment.order_id;
          customer_id = payment.customer_id;
          payment_id = payment.id;
          status = status_name payment.status;
        }))

  unfoldable pub capture_payment : String → Rpc PaymentDb ProtoPayment
  capture_payment id = do
    result ← served map_payment_error (Service.capture_payment id)
    announce_captured result.0 result.1
    pure (convert_payment_to_proto result.0)

  unfoldable pub announce_failed : Payment → Bool → Rpc PaymentDb (Unit {0})
  announce_failed payment false = pure tt
  announce_failed payment true =
      map_error (λ _. status_error internal "failed to publish payment.failed event")
        (publish_payment_failed codec topics payment.id (record {
          order_id = payment.order_id;
          customer_id = payment.customer_id;
          payment_id = payment.id;
          status = status_name payment.status;
          failure_reason = payment.cancel_reason;
        }))

  unfoldable pub fail_payment : String → String → Rpc PaymentDb ProtoPayment
  fail_payment id reason = do
    result ← served map_payment_error (Service.fail_payment id reason)
    announce_failed result.0 result.1
    pure (convert_payment_to_proto result.0)
