-- ===== src/Payment/Accounts.antt =====
-- What the payment service is to its clients, without tables: a ledger from ids to accounts, which are
-- opened pending, one for each order, and settled once.
use event_driven_ecommerce.Base.{
  String, str_eq, ℤ, pos, ltb_ℤ, true, ◌≡◌, ◌≢◌, Option, none, some, if◌then◌else◌,
}
use event_driven_ecommerce.Payment.Enums.{
  PaymentStatus, pending, captured, failed, cancelled, status_name,
}
use event_driven_ecommerce.Payment.Domain.{PaymentRow, PaymentDb}
use event_driven_ecommerce.Payment.Queries.{find_row, has_id}

pub record Account : Type 0 where
  pub order_id : String
  pub customer_id : String
  pub currency : String
  pub amount_cents : ℤ
  pub status : String

abbrev pub Ledger : Type 0
Ledger = String → Option Account

abbrev pub account : PaymentRow → Account
account row = record {
  order_id = row.order_id;
  customer_id = row.customer_id;
  currency = row.amount_currency;
  amount_cents = row.amount_cents;
  status = row.status;
}

abbrev pub account_of : Option PaymentRow → Option Account
account_of none = none
account_of (some row) = some (account row)

-- The ledger that the table stands for.
unfoldable pub view : PaymentDb → Ledger
view d id = account_of (find_row (has_id id) d.payments)

unfoldable pub put : String → Account → Ledger → Ledger
put id a l q = if str_eq id q then some a else l q

-- The statuses that a payment ends in.
pub data Settled : PaymentStatus → Type 0 where
  captured_is : Settled captured
  failed_is : Settled failed
  cancelled_is : Settled cancelled

abbrev pub with_status : PaymentStatus → Account → Account
with_status s a = record a { status = status_name s }

pub data Step (l : Ledger) : Ledger → Type 0 where
  opens :
      (id : String) (a : Account)
      → l id ≡ none
      → ((q : String) (b : Account) → l q ≡ some b → b.order_id ≢ a.order_id)
      → ltb_ℤ (pos 0) a.amount_cents ≡ true
      → a.status ≡ status_name pending
      → Step l (put id a l)
  settles :
      (id : String) (a : Account) (s : PaymentStatus)
      → l id ≡ some a
      → a.status ≡ status_name pending
      → Settled s
      → Step l (put id (with_status s a) l)

pub data Steps (l : Ledger) : Ledger → Type 0 where
  stays : Steps l l
  goes : {m n : Ledger} → Steps l m → Step m n → Steps l n
