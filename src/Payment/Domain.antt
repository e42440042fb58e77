-- ===== src/Payment/Domain.antt =====
-- internal/payment/domain/payment.go, and the table of db/schema/payment.sql as
-- internal/payment/repository/sqlc/models.go reads it. A time is a count of nanoseconds, `none` where
-- it is the zero time or a NULL.
use event_driven_ecommerce.Base.{
  ℕ, String, ℤ, Bool, List, Option, Failure, domain, other, Action, World,
}
use event_driven_ecommerce.Protobuf.{Currency, PaymentMethodType}
use event_driven_ecommerce.Payment.Enums.{PaymentStatus}

pub record Money : Type 0 where
  pub currency : Currency
  pub amount_cents : ℤ

pub record Payment : Type 0 where
  pub id : String
  pub order_id : String
  pub customer_id : String
  pub amount : Money
  pub payment_method : PaymentMethodType
  pub payment_method_details : String
  pub idempotency_key : String
  pub status : PaymentStatus
  pub cancel_reason : String
  pub created_at : Option ℕ
  pub updated_at : Option ℕ

pub data PaymentError : Type 0 where
  payment_not_found invalid_payment payment_already_exists invalid_payment_id : PaymentError
  invalid_idempotency_key idempotency_key_already_exists : PaymentError
  payment_cannot_be_cancelled payment_cannot_be_captured payment_cannot_be_failed : PaymentError

-- `err.Error()`
abbrev pub error_text : Failure PaymentError → String
error_text (domain payment_not_found) = "payment not found"
error_text (domain invalid_payment) = "invalid payment"
error_text (domain payment_already_exists) = "payment already exists"
error_text (domain invalid_payment_id) = "invalid payment id"
error_text (domain invalid_idempotency_key) = "invalid idempotency key"
error_text (domain idempotency_key_already_exists) = "payment already exists for idempotency key"
error_text (domain payment_cannot_be_cancelled) = "payment cannot be cancelled in current status"
error_text (domain payment_cannot_be_captured) = "payment cannot be captured in current status"
error_text (domain payment_cannot_be_failed) =
    "payment cannot be marked as failed in current status"
error_text (other text) = text

pub record PaymentRow : Type 0 where
  pub id : String
  pub order_id : String
  pub customer_id : String
  pub amount_currency : String
  pub amount_cents : ℤ
  pub payment_method : String
  pub payment_method_details : String
  pub idempotency_key : Option String
  pub status : String
  pub cancel_reason : String
  pub created_at : Option ℕ
  pub updated_at : Option ℕ

-- `collates a b`: the database sorts `a` before `b` or puts them together.
pub record PaymentDb : Type 0 where
  pub payments : List PaymentRow
  pub collates : String → String → Bool

abbrev pub Call : Type 0 → Type 0
Call A = Action (World PaymentDb) (Failure PaymentError) A
