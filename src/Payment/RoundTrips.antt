-- ===== src/Payment/RoundTrips.antt =====
-- A payment that is written to the table and read back.
use event_driven_ecommerce.Base.{
  ◌≡◌, refl, arith, Bool, true, false, none, some, ok, trim_space, is_empty, text_or_empty,
  if◌then◌else◌, Bool-cases, inl, inr, ◌then◌, String, sym, ap, ◌∙◌, subst, eq_iff, is_blank,
  micros, World, Ensures, >>=-Ensures, step-Ensures, lift-Ensures, map_error-Ensures, ok_inj,
  running, outside,
}
use event_driven_ecommerce.Protobuf.{
  Currency, currency_unspecified, usd, eur, unknown_currency, PaymentMethodType, method_unspecified,
  card, cash, unknown_method, currency_name, method_name, currency_value, method_value,
}
use event_driven_ecommerce.Payment.Enums.{
  PaymentStatus, status_unspecified, pending, captured, failed, cancelled, unknown_status,
  status_name, status_value,
}
use event_driven_ecommerce.Payment.Domain.{Payment, PaymentRow, PaymentDb}
use event_driven_ecommerce.Payment.Queries
use event_driven_ecommerce.Payment.Queries.{find_row, has_id, stored}
use event_driven_ecommerce.Payment.Repository
use event_driven_ecommerce.Payment.Repository.{validate_payment}
use event_driven_ecommerce.Payment.Rows.{
  known, parse_currency, parse_payment_method, parse_payment_status, payment_of_row,
  to_payment_db_params, map_db_payment,
}

-- The values that the enums declare.
abbrev pub declared_currency : Currency → Bool
declared_currency (unknown_currency n) = false
declared_currency c = true

abbrev pub declared_method : PaymentMethodType → Bool
declared_method (unknown_method n) = false
declared_method m = true

abbrev pub declared_status : PaymentStatus → Bool
declared_status (unknown_status n) = false
declared_status s = true

currency_value-name :
    (c : Currency) → declared_currency c ≡ true → currency_value (currency_name c) ≡ some c
unfolding currency_value currency_name
currency_value-name currency_unspecified h = refl
currency_value-name usd h = refl
currency_value-name eur h = refl
currency_value-name (unknown_currency n) h = absurd (ground (arith, h))

method_value-name :
    (m : PaymentMethodType) → declared_method m ≡ true → method_value (method_name m) ≡ some m
unfolding method_value method_name
method_value-name method_unspecified h = refl
method_value-name card h = refl
method_value-name cash h = refl
method_value-name (unknown_method n) h = absurd (ground (arith, h))

status_value-name :
    (s : PaymentStatus) → declared_status s ≡ true → status_value (status_name s) ≡ some s
unfolding status_value status_name
status_value-name status_unspecified h = refl
status_value-name pending h = refl
status_value-name captured h = refl
status_value-name failed h = refl
status_value-name cancelled h = refl
status_value-name (unknown_status n) h = absurd (ground (arith, h))

empty_text : (s : String) → is_empty s ≡ true → s ≡ ""
empty_text String.[] h = refl
empty_text (String.◌∷◌ c s) h = absurd (ground (arith, h))

key-kept :
    (key : String)
    → trim_space key ≡ key
    → text_or_empty (let k = trim_space key in if is_empty k then none else some k) ≡ key
key-kept key h = elim (Bool-cases (is_empty (trim_space key))) [
  | inl e ↦ ground (arith, e, h, empty_text (trim_space key) e)
  | inr e ↦ ground (arith, e, h)
]

-- A payment as the table keeps it: with times in microseconds.
abbrev pub in_micros : Payment → Payment
in_micros p = record p { created_at = micros p.created_at; updated_at = micros p.updated_at }

-- What has an exact row: enums with declared values, and a key with no spaces around it.
pub record Writable (p : Payment) : Type 0 where
  pub currency : declared_currency p.amount.currency ≡ true
  pub method : declared_method p.payment_method ≡ true
  pub status : declared_status p.status ≡ true
  pub key : trim_space p.idempotency_key ≡ p.idempotency_key

map_db_payment-stored :
    (p : Payment) → Writable p → map_db_payment (stored (to_payment_db_params p)) ≡ ok (in_micros p)
unfolding map_db_payment known parse_currency parse_payment_method parse_payment_status
    payment_of_row to_payment_db_params stored
map_db_payment-stored p x = ground (
  arith,
  currency_value-name p.amount.currency x.currency,
  method_value-name p.payment_method x.method,
  status_value-name p.status x.status,
  key-kept p.idempotency_key x.key,
)

validated :
    (p : Payment) (w : World PaymentDb) (u : Unit {0})
    → (validate_payment p w).0 ≡ ok u
    → (is_blank p.id ≡ false) × ((validate_payment p w).1.db ≡ w.db)
unfolding validate_payment running
validated p w u e = ground arith

found_first :
    (row t : PaymentRow) (d d' : PaymentDb)
    → Queries.create_payment row d ≡ ok (t, d')
    → (t ≡ stored row) × (find_row (has_id row.id) d'.payments ≡ some (stored row))
unfolding Queries.create_payment find_row stored
found_first row t d d' e = ground (arith, eq_iff row.id row.id)

written_id : (p : Payment) → (to_payment_db_params p).id ≡ p.id
unfolding to_payment_db_params
written_id p = refl

-- What `CreatePayment` of the repository returns and leaves in the table.
record Written (p q : Payment) (d' : PaymentDb) : Type 0 where
  named : is_blank p.id ≡ false
  read : map_db_payment (stored (to_payment_db_params p)) ≡ ok q
  there : find_row (has_id p.id) d'.payments ≡ some (stored (to_payment_db_params p))

create_payment-Ensures :
    (p : Payment) (d : PaymentDb) → Ensures d (Repository.create_payment p) (Written p)
unfolding Repository.create_payment
create_payment-Ensures p d =
    >>=-Ensures _ _ d (λ _ d'. (is_blank p.id ≡ false) × (d' ≡ d)) _
      (record { apply = λ w at u e. let (named, same) = validated p w u e in (named, same ∙ at) })
      λ _ d₁ v. step-Ensures d₁ _ _ _ _ λ t d₂ e. map_error-Ensures _ _ d₂ _ (
        lift-Ensures _ d₂ _ λ q h.
          let (is, there) = found_first (to_payment_db_params p) t d₁ d₂ e in
          record {
            named = v.0;
            read = sym (ap map_db_payment is) ∙ h;
            there =
                subst
                  (λ x. find_row (has_id x) d₂.payments ≡ some (stored (to_payment_db_params p)))
                  (written_id p) there;
          })

read_by_id :
    (id : String) (row : PaymentRow) (q : Payment) (v : World PaymentDb)
    → is_blank id ≡ false
    → find_row (has_id id) v.db.payments ≡ some row
    → map_db_payment row ≡ ok q
    → v.fault v.tick ≡ none
    → (Repository.get_payment_by_id id v).0 ≡ ok q
unfolding Repository.get_payment_by_id Queries.get_payment_by_id running outside
read_by_id id row q v named there h up = ground (arith, up, there, h, named)

-- A payment whose enums have declared values and whose key has no spaces around it is, where the
-- repository's `CreatePayment` succeeds, returned as it was given but for its times, which the table
-- keeps in microseconds; and the same is read by its id from the tables that the call left, where
-- the database answers.
pub get-create_payment :
    (p q : Payment) (w v : World PaymentDb)
    → Writable p
    → (Repository.create_payment p w).0 ≡ ok q
    → v.db ≡ (Repository.create_payment p w).1.db
    → v.fault v.tick ≡ none
    → (q ≡ in_micros p) × ((Repository.get_payment_by_id p.id v).0 ≡ ok (in_micros p))
get-create_payment p q w v x made same up =
    let h = (create_payment-Ensures p w.db).apply w refl q made in
    let exact = map_db_payment-stored p x in
    (
      ok_inj (sym h.read ∙ exact),
      read_by_id p.id _ (in_micros p) v h.named
          (ap (λ d. find_row (has_id p.id) d.payments) same ∙ h.there) exact up,
    )
