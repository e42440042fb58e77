-- ===== src/Payment/Rows.antt =====
-- The maps between a payment and its row, in internal/payment/repository/postgres.go. What `%q` adds
-- to a value is taken as the quotes alone.
use event_driven_ecommerce.Base.{
  String, Option, none, some, List, [], ◌∷◌, Result, ok, err, ◌then◌, text_or_empty, is_empty,
  trim_space, if◌then◌else◌, Failure, other, ◌<>◌,
}
use event_driven_ecommerce.Protobuf.{
  Currency, PaymentMethodType, currency_name, method_name, currency_value, method_value,
}
use event_driven_ecommerce.Payment.Enums.{PaymentStatus, status_name, status_value}
use event_driven_ecommerce.Payment.Domain.{Payment, PaymentError, PaymentRow}

unfoldable pub known : {A : Type 0} → String → String → Option A → Result (Failure PaymentError) A
known what value none = err (other ("unknown payment " <> what <> " in db: \"" <> value <> "\""))
known what value (some a) = ok a

unfoldable pub parse_currency : String → Result (Failure PaymentError) Currency
unfolding known
parse_currency value = known "currency" value (currency_value value)

unfoldable pub parse_payment_method : String → Result (Failure PaymentError) PaymentMethodType
unfolding known
parse_payment_method value = known "method" value (method_value value)

unfoldable pub parse_payment_status : String → Result (Failure PaymentError) PaymentStatus
unfolding known
parse_payment_status value = known "status" value (status_value value)

-- `toPaymentDBParams`; `toCreatePaymentParams` and `toUpdatePaymentParams` copy its fields.
unfoldable pub to_payment_db_params : Payment → PaymentRow
to_payment_db_params payment = record {
  id = payment.id;
  order_id = payment.order_id;
  customer_id = payment.customer_id;
  amount_currency = currency_name payment.amount.currency;
  amount_cents = payment.amount.amount_cents;
  payment_method = method_name payment.payment_method;
  payment_method_details = payment.payment_method_details;
  idempotency_key =
      let key = trim_space payment.idempotency_key in if is_empty key then none else some key;
  status = status_name payment.status;
  cancel_reason = payment.cancel_reason;
  created_at = payment.created_at;
  updated_at = payment.updated_at;
}

unfoldable pub payment_of_row : PaymentRow → Currency → PaymentMethodType → PaymentStatus → Payment
payment_of_row row currency method status = record {
  id = row.id;
  order_id = row.order_id;
  customer_id = row.customer_id;
  amount = record { currency = currency; amount_cents = row.amount_cents };
  payment_method = method;
  payment_method_details = row.payment_method_details;
  idempotency_key = text_or_empty row.idempotency_key;
  status = status;
  cancel_reason = row.cancel_reason;
  created_at = row.created_at;
  updated_at = row.updated_at;
}

unfoldable pub map_db_payment : PaymentRow → Result (Failure PaymentError) Payment
unfolding parse_currency parse_payment_method parse_payment_status
map_db_payment row = parse_currency row.amount_currency then λ currency.
    parse_payment_method row.payment_method then λ method.
    parse_payment_status row.status then λ status. ok (payment_of_row row currency method status)

unfoldable pub map_db_payments : List PaymentRow → Result (Failure PaymentError) (List Payment)
unfolding map_db_payment
map_db_payments [] = ok []
map_db_payments (row ∷ rows) =
    let rest = map_db_payments rows in
    map_db_payment row then λ payment. rest then λ payments. ok (payment ∷ payments)
