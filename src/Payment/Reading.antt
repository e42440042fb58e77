-- ===== src/Payment/Reading.antt =====
-- What reading a payment gives, and what reading keeps.
use event_driven_ecommerce.Base.{
  ℕ, String, ℤ, eq_iff, ◌≡◌, arith, some, ok, Keeps, pure-Keeps, fail_if-Keeps, lift-Keeps,
  map_error-Keeps, read-Keeps, if-Keeps, on_some-Keeps, bind-Keeps, Ensures, read-Ensures,
  lift-Ensures, guard-Ensures, Ends, reading-Ends, ◌==◌, page_bounds,
}
use event_driven_ecommerce.Protobuf.{
  Currency, PaymentMethodType, currency_name, method_name, currency_value, method_value,
}
use event_driven_ecommerce.Payment.Enums.{PaymentStatus, status_name, status_value}
use event_driven_ecommerce.Payment.Domain.{Payment, PaymentRow, PaymentDb}
use event_driven_ecommerce.Payment.Queries
use event_driven_ecommerce.Payment.Queries.{find_row, has_id, has_key, count_payments_by_customer}
use event_driven_ecommerce.Payment.Rows.{
  known, parse_currency, parse_payment_method, parse_payment_status, payment_of_row, map_db_payment,
}
use event_driven_ecommerce.Payment.Repository.{
  get_payment_by_id, get_payment_by_idempotency_key, get_payment_by_order_id, list_page,
  list_payments_by_customer,
}

currency_name-parse : (t : String) (c : Currency) → currency_value t ≡ some c → t ≡ currency_name c
unfolding currency_value currency_name
currency_name-parse t c e =
    ground
      (arith, eq_iff t "CURRENCY_UNSPECIFIED", eq_iff t "CURRENCY_USD", eq_iff t "CURRENCY_EUR")

method_name-parse :
    (t : String) (m : PaymentMethodType) → method_value t ≡ some m → t ≡ method_name m
unfolding method_value method_name
method_name-parse t m e = ground (
  arith,
  eq_iff t "PAYMENT_METHOD_TYPE_UNSPECIFIED",
  eq_iff t "PAYMENT_METHOD_TYPE_CARD",
  eq_iff t "PAYMENT_METHOD_TYPE_CASH",
)

status_name-parse : (t : String) (s : PaymentStatus) → status_value t ≡ some s → t ≡ status_name s
unfolding status_value status_name
status_name-parse t s e = ground (
  arith,
  eq_iff t "PAYMENT_STATUS_UNSPECIFIED",
  eq_iff t "PAYMENT_STATUS_PENDING",
  eq_iff t "PAYMENT_STATUS_CAPTURED",
  eq_iff t "PAYMENT_STATUS_FAILED",
  eq_iff t "PAYMENT_STATUS_CANCELLED",
)

record Parsed (row : PaymentRow) (p : Payment) : Type 0 where
  currency : currency_value row.amount_currency ≡ some p.amount.currency
  method : method_value row.payment_method ≡ some p.payment_method
  status : status_value row.status ≡ some p.status
  payment : p ≡ payment_of_row row p.amount.currency p.payment_method p.status

map_db_payment-Parsed : (row : PaymentRow) (p : Payment) → map_db_payment row ≡ ok p → Parsed row p
unfolding map_db_payment known parse_currency parse_payment_method parse_payment_status
    payment_of_row
map_db_payment-Parsed row p e = record {
  currency = ground arith;
  method = ground arith;
  status = ground arith;
  payment = ground arith;
}

-- What is read of a payment is what its row says.
pub record Read (id : String) (p : Payment) (d : PaymentDb) : Type 0 where
  pub row : PaymentRow
  pub found : find_row (has_id id) d.payments ≡ some row
  pub currency : row.amount_currency ≡ currency_name p.amount.currency
  pub status : row.status ≡ status_name p.status
  pub parsed_status : status_value row.status ≡ some p.status
  pub payment : p ≡ payment_of_row row p.amount.currency p.payment_method p.status

found_row :
    (id : String) (d : PaymentDb) (row : PaymentRow)
    → Queries.get_payment_by_id id d ≡ ok (row, d)
    → find_row (has_id id) d.payments ≡ some row
unfolding Queries.get_payment_by_id
found_row id d row e = ground arith

pub get_payment_by_id-Ensures :
    (id : String) (d : PaymentDb) → Ensures d (get_payment_by_id id) (Read id)
unfolding get_payment_by_id Queries.get_payment_by_id
get_payment_by_id-Ensures id d = guard-Ensures d _ _ _ _ λ _.
    read-Ensures d _ _ _ _ (λ x d₁ e. ground arith)
      λ row e. lift-Ensures _ d _ λ p h.
        let parsed = map_db_payment-Parsed row p h in
        record {
          row = row;
          found = found_row id d row e;
          currency = currency_name-parse _ _ parsed.currency;
          status = status_name-parse _ _ parsed.status;
          parsed_status = parsed.status;
          payment = parsed.payment;
        }

module _ (I : PaymentDb → Type 0) where
  pub get_payment_by_id-Keeps : (id : String) → Keeps I (get_payment_by_id id)
  unfolding get_payment_by_id Queries.get_payment_by_id
  get_payment_by_id-Keeps id = bind-Keeps _ _ _ (fail_if-Keeps I _ _) λ _.
      bind-Keeps _ _ _ (map_error-Keeps _ _ _ (read-Keeps I _ (λ d d' a e. ground arith)))
        λ row. lift-Keeps I _

  pub get_payment_by_idempotency_key-Keeps :
      (key : String) → Keeps I (get_payment_by_idempotency_key key)
  unfolding get_payment_by_idempotency_key Queries.get_payment_by_idempotency_key
  get_payment_by_idempotency_key-Keeps key = bind-Keeps _ _ _ (fail_if-Keeps I _ _) λ _.
      bind-Keeps _ _ _ (map_error-Keeps _ _ _ (read-Keeps I _ (λ d d' a e. ground arith)))
        λ row. lift-Keeps I _

  pub get_payment_by_order_id-Keeps : (o : String) → Keeps I (get_payment_by_order_id o)
  unfolding get_payment_by_order_id Queries.get_payment_by_order_id
  get_payment_by_order_id-Keeps o = bind-Keeps _ _ _ (fail_if-Keeps I _ _) λ _.
      bind-Keeps _ _ _ (map_error-Keeps _ _ _ (read-Keeps I _ (λ d d' a e. ground arith)))
        λ row. lift-Keeps I _

  list_page-Keeps :
      (customer : String) (page page_size : ℤ) (total : ℕ)
      → Keeps I (list_page customer page page_size total)
  unfolding list_page Queries.list_payments_by_customer
  list_page-Keeps customer page page_size total = if-Keeps I (total == 0) _ _ (pure-Keeps I _) (
      on_some-Keeps I (page_bounds page page_size total) _ _ (pure-Keeps I _) λ bounds.
        bind-Keeps _ _ _ (map_error-Keeps _ _ _ (read-Keeps I _ (λ d d' a e. ground arith))) λ rows.
          bind-Keeps _ _ _ (map_error-Keeps _ _ _ (lift-Keeps I _)) λ payments. pure-Keeps I _)

  pub list_payments_by_customer-Keeps :
      (customer : String) (page page_size : ℤ)
      → Keeps I (list_payments_by_customer customer page page_size)
  unfolding list_payments_by_customer count_payments_by_customer
  list_payments_by_customer-Keeps customer page page_size =
      bind-Keeps _ _ _ (fail_if-Keeps I _ _) λ _.
        bind-Keeps _ _ _ (map_error-Keeps _ _ _ (read-Keeps I _ (λ d d' a e. ground arith)))
          λ total. list_page-Keeps _ page page_size total

pub get_payment_by_id-Ends :
    (id : String) (d : PaymentDb)
    → Ends d (get_payment_by_id id) (λ p d'. (d' ≡ d) × Read id p d') (λ _ d'. d' ≡ d)
get_payment_by_id-Ends id d =
    reading-Ends d _ (Read id) (get_payment_by_id-Ensures id d)
      (λ w at. (get_payment_by_id-Keeps (λ x. x ≡ d) id).apply w at)
