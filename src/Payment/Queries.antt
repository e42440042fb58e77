-- ===== src/Payment/Queries.antt =====
-- The statements of internal/payment/repository/sqlc/payment.sql.go, with the constraints of
-- db/schema/payment.sql: a NULL, then the check, then the unique indexes in the order of their
-- declaration.
use event_driven_ecommerce.Base.{
  ℕ, String, str_eq, Bool, false, ◌&&◌, ◌||◌, not, pos, leb_ℤ, ltb, ◌==◌, Option, none, some, List,
  [], ◌∷◌, if◌then◌else◌, Result, ok, err, DbError, no_rows, unique_violation, not_null_violation,
  check_violation, is_none, micros, length, take, drop,
}
use event_driven_ecommerce.Payment.Domain.{PaymentRow, PaymentDb}

unfoldable pub stored : PaymentRow → PaymentRow
unfolding micros
stored row = record row { created_at = micros row.created_at; updated_at = micros row.updated_at }

-- The first row that passes a test.
unfoldable pub find_row : (PaymentRow → Bool) → List PaymentRow → Option PaymentRow
find_row p [] = none
find_row p (r ∷ rs) = if p r then some r else find_row p rs

abbrev pub has_id : String → PaymentRow → Bool
has_id id r = str_eq r.id id

abbrev pub has_order : String → PaymentRow → Bool
has_order o r = str_eq r.order_id o

abbrev pub has_key : String → PaymentRow → Bool
has_key key r = elim r.idempotency_key [ none ↦ false | some k ↦ str_eq k key ]

-- NULL keys are distinct from each other.
abbrev pub same_key : Option String → PaymentRow → Bool
same_key none r = false
same_key (some key) r = has_key key r

unfoldable pub replace_row : PaymentRow → List PaymentRow → List PaymentRow
replace_row t [] = []
replace_row t (r ∷ rs) = if str_eq r.id t.id then t ∷ rs else r ∷ replace_row t rs

abbrev pub taken : (PaymentRow → Bool) → List PaymentRow → Bool
taken p rs = not (is_none (find_row p rs))

-- By a row other than that with the id.
abbrev pub other_than : String → (PaymentRow → Bool) → PaymentRow → Bool
other_than id p r = p r && not (str_eq r.id id)

unfoldable pub row_error : PaymentRow → Option DbError
row_error row =
    if is_none row.created_at
    then some (not_null_violation "payments" "created_at")
    else if is_none row.updated_at
    then some (not_null_violation "payments" "updated_at")
    else if leb_ℤ row.amount_cents (pos 0)
    then some (check_violation "payments" "payments_amount_cents_check")
    else none

unfoldable pub create_payment : PaymentRow → PaymentDb → Result DbError (PaymentRow × PaymentDb)
create_payment row d = elim (row_error row) [
  | some e ↦ err e
  | none ↦
      if taken (has_id row.id) d.payments
      then err (unique_violation "payments_pkey")
      else if taken (has_order row.order_id) d.payments
      then err (unique_violation "payments_order_id_key")
      else if taken (same_key row.idempotency_key) d.payments
      then err (unique_violation "payments_idempotency_key_key")
      else ok (stored row, record d { payments = stored row ∷ d.payments })
]

abbrev select_one : (PaymentRow → Bool) → PaymentDb → Result DbError (PaymentRow × PaymentDb)
select_one p d = elim (find_row p d.payments) [ none ↦ err no_rows | some r ↦ ok (r, d) ]

unfoldable pub get_payment_by_id : String → PaymentDb → Result DbError (PaymentRow × PaymentDb)
get_payment_by_id id = select_one (has_id id)

unfoldable pub get_payment_by_idempotency_key :
    String → PaymentDb → Result DbError (PaymentRow × PaymentDb)
get_payment_by_idempotency_key key = select_one (has_key key)

unfoldable pub get_payment_by_order_id :
    String → PaymentDb → Result DbError (PaymentRow × PaymentDb)
get_payment_by_order_id o = select_one (has_order o)

unfoldable pub update_payment : PaymentRow → PaymentDb → Result DbError (PaymentRow × PaymentDb)
update_payment row d = elim (find_row (has_id row.id) d.payments) [
  | none ↦ err no_rows
  | some old ↦ elim (row_error row) [
    | some e ↦ err e
    | none ↦
        if taken (other_than row.id (has_order row.order_id)) d.payments
        then err (unique_violation "payments_order_id_key")
        else if taken (other_than row.id (same_key row.idempotency_key)) d.payments
        then err (unique_violation "payments_idempotency_key_key")
        else ok (stored row, record d { payments = replace_row (stored row) d.payments })
  ]
]

unfoldable pub payments_of : String → List PaymentRow → List PaymentRow
payments_of c [] = []
payments_of c (r ∷ rs) =
    let rest = payments_of c rs in if str_eq r.customer_id c then r ∷ rest else rest

unfoldable pub count_payments_by_customer : String → PaymentDb → Result DbError (ℕ × PaymentDb)
count_payments_by_customer c d = ok (length (payments_of c d.payments), d)

abbrev pub time_or_zero : Option ℕ → ℕ
time_or_zero none = 0
time_or_zero (some t) = t

-- `ORDER BY created_at ASC, id ASC`
abbrev pub listed_before : (String → String → Bool) → PaymentRow → PaymentRow → Bool
listed_before collates r t =
    let a = time_or_zero r.created_at in
    let b = time_or_zero t.created_at in ltb a b || (a == b && collates r.id t.id)

unfoldable pub insert_listed :
    (PaymentRow → PaymentRow → Bool) → PaymentRow → List PaymentRow → List PaymentRow
insert_listed before r [] = r ∷ []
insert_listed before r (t ∷ ts) = if before r t then r ∷ t ∷ ts else t ∷ insert_listed before r ts

unfoldable pub sort_listed : (PaymentRow → PaymentRow → Bool) → List PaymentRow → List PaymentRow
unfolding insert_listed
sort_listed before [] = []
sort_listed before (r ∷ rs) = insert_listed before r (sort_listed before rs)

unfoldable pub listed : String → PaymentDb → List PaymentRow
listed c d = sort_listed (listed_before d.collates) (payments_of c d.payments)

unfoldable pub list_payments_by_customer :
    String → ℕ → ℕ → PaymentDb → Result DbError (List PaymentRow × PaymentDb)
list_payments_by_customer c limit offset d = ok (take limit (drop offset (listed c d)), d)
