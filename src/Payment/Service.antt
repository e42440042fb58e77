-- ===== src/Payment/Service.antt =====
-- internal/payment/service/service.go.
use event_driven_ecommerce.Base.{
  ℕ, String, Bool, true, false, not, ◌&&◌, ◌||◌, ℤ, pos, leb_ℤ, some, List, if◌then◌else◌, is_blank,
  trim_space, format_int, ◌<>◌, Result, ok, err, ◌>>=◌, ◌>>◌, pure, fail, fail_if, try, Failure,
  domain, now,
}
use event_driven_ecommerce.Protobuf.{is_currency_unspecified, is_method_unspecified}
use event_driven_ecommerce.Payment.Enums.{PaymentStatus, pending, captured, failed, cancelled}
use event_driven_ecommerce.Payment.Domain.{
  Payment, PaymentError, Call, payment_not_found, invalid_payment, invalid_payment_id,
  idempotency_key_already_exists, payment_cannot_be_cancelled, payment_cannot_be_captured,
  payment_cannot_be_failed,
}
use event_driven_ecommerce.Payment.Repository

unfoldable pub validate_create_payment : Payment → Bool
validate_create_payment payment =
    is_blank payment.order_id
    || is_blank payment.customer_id
    || leb_ℤ payment.amount.amount_cents (pos 0)
    || is_currency_unspecified payment.amount.currency
    || is_method_unspecified payment.payment_method

unfoldable pub id_or_new : String → Call String
id_or_new id = if is_blank id then (now >>= λ at. pure ("pay-" <> format_int at)) else pure id

abbrev pub new_payment : Payment → String → ℕ → Payment
new_payment payment id at = record payment {
  id = id;
  status = pending;
  created_at = some at;
  updated_at = some at;
  cancel_reason = "";
}

-- `errors.Is(err, ErrPaymentNotFound)`, and the same of ErrIdempotencyKeyAlreadyExists.
abbrev pub is_not_found : Failure PaymentError → Bool
is_not_found (domain payment_not_found) = true
is_not_found e = false

abbrev pub is_key_taken : Failure PaymentError → Bool
is_key_taken (domain idempotency_key_already_exists) = true
is_key_taken e = false

unfoldable pub after_create : Payment → Result (Failure PaymentError) Payment → Call Payment
after_create payment (ok created) = pure created
after_create payment (err e) =
    if not (is_blank payment.idempotency_key) && is_key_taken e
    then Repository.get_payment_by_idempotency_key payment.idempotency_key
    else fail e

-- `CreatePayment` from the choice of the id on.
unfoldable pub create_new : Payment → Call Payment
create_new payment = do
  id ← id_or_new payment.id
  at ← now
  outcome ← try (Repository.create_payment (new_payment payment id at))
  after_create (new_payment payment id at) outcome

unfoldable pub after_lookup : Payment → Result (Failure PaymentError) Payment → Call Payment
after_lookup payment (ok existing) = pure existing
after_lookup payment (err e) = if is_not_found e then create_new payment else fail e

unfoldable pub create_payment : Payment → Call Payment
create_payment payment = do
  fail_if (validate_create_payment payment) (domain invalid_payment)
  if is_blank payment.idempotency_key
      then create_new payment
      else (try (Repository.get_payment_by_idempotency_key (trim_space payment.idempotency_key))
          >>= after_lookup payment)

unfoldable pub get_payment_by_id : String → Call Payment
get_payment_by_id id =
    fail_if (is_blank id) (domain invalid_payment_id) >> Repository.get_payment_by_id id

unfoldable pub get_payment_by_order_id : String → Call Payment
get_payment_by_order_id o =
    fail_if (is_blank o) (domain invalid_payment) >> Repository.get_payment_by_order_id o

unfoldable pub list_payments_by_customer : String → ℤ → ℤ → Call (List Payment × ℕ)
list_payments_by_customer customer page page_size =
    fail_if (is_blank customer) (domain invalid_payment)
    >> Repository.list_payments_by_customer customer page page_size

-- The switches on the status: the payment is done already, or moves, or is refused.
pub data Verdict : Type 0 where
  done moves : Verdict
  refused : PaymentError → Verdict

unfoldable pub cancel_verdict : PaymentStatus → Verdict
cancel_verdict cancelled = done
cancel_verdict pending = moves
cancel_verdict s = refused payment_cannot_be_cancelled

unfoldable pub capture_verdict : PaymentStatus → Verdict
capture_verdict captured = done
capture_verdict pending = moves
capture_verdict s = refused payment_cannot_be_captured

unfoldable pub fail_verdict : PaymentStatus → Verdict
fail_verdict failed = done
fail_verdict pending = moves
fail_verdict s = refused payment_cannot_be_failed

-- A payment that moves is written with its change; the result says whether it was.
unfoldable pub settle : Verdict → (ℕ → Payment → Payment) → Payment → Call (Payment × Bool)
settle done change payment = pure (payment, false)
settle (refused e) change payment = fail (domain e)
settle moves change payment = do
  at ← now
  updated ← Repository.update_payment (change at payment)
  pure (updated, true)

abbrev pub cancelled_for : String → ℕ → Payment → Payment
cancelled_for reason at payment = record payment {
  status = cancelled;
  cancel_reason = trim_space reason;
  updated_at = some at;
}

abbrev pub captured_at : ℕ → Payment → Payment
captured_at at payment = record payment { status = captured; updated_at = some at }

abbrev pub failed_for : String → ℕ → Payment → Payment
failed_for reason at payment = record payment {
  status = failed;
  cancel_reason = trim_space reason;
  updated_at = some at;
}

unfoldable pub cancel_payment : String → String → Call Payment
cancel_payment id reason = do
  fail_if (is_blank id) (domain invalid_payment_id)
  payment ← Repository.get_payment_by_id id
  result ← settle (cancel_verdict payment.status) (cancelled_for reason) payment
  pure (result.0)

unfoldable pub capture_payment : String → Call (Payment × Bool)
capture_payment id = do
  fail_if (is_blank id) (domain invalid_payment_id)
  payment ← Repository.get_payment_by_id id
  settle (capture_verdict payment.status) captured_at payment

unfoldable pub fail_payment : String → String → Call (Payment × Bool)
fail_payment id reason = do
  fail_if (is_blank id) (domain invalid_payment_id)
  fail_if (is_blank reason) (domain invalid_payment)
  payment ← Repository.get_payment_by_id id
  settle (fail_verdict payment.status) (failed_for reason) payment
