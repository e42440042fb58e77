-- ===== src/Payment/Repository.antt =====
-- internal/payment/repository/postgres.go. Each operation is one or two statements, with no
-- transaction around them.
use event_driven_ecommerce.Base.{
  ℕ, String, str_eq, not, ◌||◌, ℤ, List, [], ◌==◌, if◌then◌else◌, on_some, is_blank, is_empty,
  trim_space, ◌>>=◌, ◌>>◌, pure, fail_if, lift, map_error, DbError, no_rows, pg_error, broken,
  Failure, domain, other, wrap, query, page_bounds, ◌<>◌,
}
use event_driven_ecommerce.Payment.Domain.{
  Payment, PaymentError, Call, error_text, payment_not_found, invalid_payment,
  payment_already_exists, invalid_payment_id, invalid_idempotency_key,
  idempotency_key_already_exists,
}
use event_driven_ecommerce.Payment.Queries
use event_driven_ecommerce.Payment.Queries.{count_payments_by_customer}
use event_driven_ecommerce.Payment.Rows.{to_payment_db_params, map_db_payment, map_db_payments}

abbrev pub or_missing : String → DbError → Failure PaymentError
or_missing context no_rows = domain payment_not_found
or_missing context e = wrap context e

-- The error of a map, wrapped.
abbrev pub wrapped : String → Failure PaymentError → Failure PaymentError
wrapped context e = other (context <> ": " <> error_text e)

unfoldable pub map_create_payment_error : DbError → Failure PaymentError
map_create_payment_error no_rows = wrap "create payment in postgres" no_rows
map_create_payment_error (broken text) = wrap "create payment in postgres" (broken text)
map_create_payment_error (pg_error code constraint text) =
    if not (str_eq code "23505")
    then wrap "create payment in postgres" (pg_error code constraint text)
    else if str_eq constraint "payments_pkey" || str_eq constraint "payments_order_id_key"
    then domain payment_already_exists
    else if str_eq constraint "payments_idempotency_key_key"
    then domain idempotency_key_already_exists
    else wrap "create payment in postgres" (pg_error code constraint text)

unfoldable pub map_update_payment_error : DbError → Failure PaymentError
map_update_payment_error no_rows = domain payment_not_found
map_update_payment_error (broken text) = wrap "update payment in postgres" (broken text)
map_update_payment_error (pg_error code constraint text) =
    if not (str_eq code "23505")
    then wrap "update payment in postgres" (pg_error code constraint text)
    else if str_eq constraint "payments_order_id_key"
    then domain payment_already_exists
    else if str_eq constraint "payments_idempotency_key_key"
    then domain idempotency_key_already_exists
    else wrap "update payment in postgres" (pg_error code constraint text)

unfoldable pub validate_payment : Payment → Call (Unit {0})
validate_payment payment = do
  fail_if (is_blank payment.id) (domain invalid_payment_id)
  fail_if (is_blank payment.order_id || is_blank payment.customer_id) (domain invalid_payment)

unfoldable pub create_payment : Payment → Call Payment
create_payment payment = do
  validate_payment payment
  row ←
      map_error map_create_payment_error
        (query (Queries.create_payment (to_payment_db_params payment)))
  map_error (wrapped "map created payment from postgres") (lift (map_db_payment row))

unfoldable pub get_payment_by_id : String → Call Payment
get_payment_by_id id = do
  fail_if (is_blank id) (domain invalid_payment_id)
  row ←
      map_error (or_missing "get payment by id from postgres")
        (query (Queries.get_payment_by_id id))
  lift (map_db_payment row)

unfoldable pub get_payment_by_idempotency_key : String → Call Payment
get_payment_by_idempotency_key raw = do
  fail_if (is_empty (trim_space raw)) (domain invalid_idempotency_key)
  row ←
      map_error (or_missing "get payment by idempotency key from postgres")
        (query (Queries.get_payment_by_idempotency_key (trim_space raw)))
  lift (map_db_payment row)

unfoldable pub get_payment_by_order_id : String → Call Payment
get_payment_by_order_id raw = do
  fail_if (is_empty (trim_space raw)) (domain invalid_payment)
  row ←
      map_error (or_missing "get payment by order id from postgres")
        (query (Queries.get_payment_by_order_id (trim_space raw)))
  lift (map_db_payment row)

unfoldable pub update_payment : Payment → Call Payment
update_payment payment = do
  validate_payment payment
  row ←
      map_error map_update_payment_error
        (query (Queries.update_payment (to_payment_db_params payment)))
  map_error (wrapped "map updated payment from postgres") (lift (map_db_payment row))

-- `ListPaymentsByCustomer` once the rows are counted.
unfoldable pub list_page : String → ℤ → ℤ → ℕ → Call (List Payment × ℕ)
list_page customer page page_size total =
    if total == 0
    then pure ([], 0)
    else on_some (page_bounds page page_size total) (pure ([], total)) λ bounds.
      map_error (wrap "list payments by customer from postgres")
        (query (Queries.list_payments_by_customer customer bounds.0 bounds.1))
      >>= λ rows.
          map_error (wrapped "map listed payments from postgres") (lift (map_db_payments rows))
          >>= λ payments. pure (payments, total)

unfoldable pub list_payments_by_customer : String → ℤ → ℤ → Call (List Payment × ℕ)
list_payments_by_customer raw page page_size = do
  fail_if (is_empty (trim_space raw)) (domain invalid_payment)
  total ←
      map_error (wrap "count payments by customer from postgres")
        (query (count_payments_by_customer (trim_space raw)))
  list_page (trim_space raw) page page_size total
