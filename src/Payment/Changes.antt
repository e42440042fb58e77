-- ===== src/Payment/Changes.antt =====
-- A pending payment that is read and written back, and what the service keeps of its tables.
use event_driven_ecommerce.Base.{
  ℕ, String, ◌≡◌, refl, sym, ap, ◌∙◌, some, ok, Keeps, pure-Keeps, fail-Keeps, fail_if-Keeps,
  lift-Keeps, map_error-Keeps, bind-Keeps, Leaves, quiet-Leaves, Keeps-Leaves, query-Leaves,
  map_error-Leaves, bind-Leaves, clock-Leaves,
}
use event_driven_ecommerce.Payment.Enums.{pending, PaymentStatus, status_name}
use event_driven_ecommerce.Payment.Domain.{Payment, PaymentRow, PaymentDb}
use event_driven_ecommerce.Payment.Queries
use event_driven_ecommerce.Payment.Queries.{find_row, has_id}
use event_driven_ecommerce.Payment.Rows.{to_payment_db_params, payment_of_row}
use event_driven_ecommerce.Payment.Repository
use event_driven_ecommerce.Payment.Repository.{validate_payment}
use event_driven_ecommerce.Payment.Service.{
  Verdict, done, moves, refused, settle, cancelled_for, captured_at, failed_for,
}
use event_driven_ecommerce.Payment.Accounts.{
  Settled, captured_is, failed_is, cancelled_is, account, with_status,
}
use event_driven_ecommerce.Payment.Reading.{Read}
use event_driven_ecommerce.Payment.Statements.{id-find_row}

-- A change that settles the payment and leaves the rest of its account as it is.
pub record Settling (change : ℕ → Payment → Payment) : Type 0 where
  status : PaymentStatus
  settled : Settled status
  accounts :
      (at : ℕ) (p : Payment)
      → account (to_payment_db_params (change at p))
        ≡ with_status status (account (to_payment_db_params p))
  same_id : (at : ℕ) (p : Payment) → (change at p).id ≡ p.id

pub cancelled_for-Settling : (reason : String) → Settling (cancelled_for reason)
unfolding to_payment_db_params
cancelled_for-Settling reason = record {
  status = _;
  settled = cancelled_is;
  accounts = λ at p. refl;
  same_id = λ at p. refl;
}

pub captured_at-Settling : Settling captured_at
unfolding to_payment_db_params
captured_at-Settling = record {
  status = _;
  settled = captured_is;
  accounts = λ at p. refl;
  same_id = λ at p. refl;
}

pub failed_for-Settling : (reason : String) → Settling (failed_for reason)
unfolding to_payment_db_params
failed_for-Settling reason = record {
  status = _;
  settled = failed_is;
  accounts = λ at p. refl;
  same_id = λ at p. refl;
}

-- The account of what is read of a payment is that of its row.
account-Read :
    (id : String) (p : Payment) (d : PaymentDb) (r : Read id p d)
    → account (to_payment_db_params p) ≡ account r.row
unfolding to_payment_db_params payment_of_row
account-Read id p d r =
    ap (λ x. account (to_payment_db_params x)) r.payment
    ∙ ap (λ c. record (account r.row) { currency = c; status = status_name p.status })
        (sym r.currency)
    ∙ ap (λ s. record (account r.row) { status = s }) (sym r.status)

pub id-Read : (id : String) (p : Payment) (d : PaymentDb) → Read id p d → p.id ≡ id
unfolding payment_of_row
id-Read id p d r = ap (λ (q : Payment). q.id) r.payment ∙ id-find_row id d.payments r.row r.found

found_again :
    (id : String) (p : Payment) (d : PaymentDb) (r : Read id p d) (x : String)
    → x ≡ p.id
    → find_row (has_id x) d.payments ≡ some r.row
found_again id p d r x e = ap (λ y. find_row (has_id y) d.payments) (e ∙ id-Read id p d r) ∙ r.found

changed_account :
    (change : ℕ → Payment → Payment) (s : Settling change) (at : ℕ) (id : String) (p : Payment)
    (d : PaymentDb) (r : Read id p d)
    → account (to_payment_db_params (change at p)) ≡ with_status s.status (account r.row)
changed_account change s at id p d r =
    s.accounts at p ∙ ap (with_status s.status) (account-Read id p d r)

written_id : (p : Payment) → (to_payment_db_params p).id ≡ p.id
unfolding to_payment_db_params
written_id p = refl

pub validate_payment-Keeps : (I : PaymentDb → Type 0) (p : Payment) → Keeps I (validate_payment p)
unfolding validate_payment
validate_payment-Keeps I p = bind-Keeps _ _ _ (fail_if-Keeps I _ _) λ _. fail_if-Keeps I _ _

-- A property of the tables that the two writing statements keep, as the service uses them: a pending
-- row is put in, or a row that is there and pending is written with its status settled and nothing
-- else of its account changed.
pub record Preserved (I : PaymentDb → Type 0) : Type 0 where
  pub creates :
      (row t : PaymentRow) (d d' : PaymentDb)
      → Queries.create_payment row d ≡ ok (t, d')
      → row.status ≡ status_name pending
      → I d
      → I d'
  pub settles :
      (old row t : PaymentRow) (s : PaymentStatus) (d d' : PaymentDb)
      → find_row (has_id row.id) d.payments ≡ some old
      → old.status ≡ status_name pending
      → account row ≡ with_status s (account old)
      → Settled s
      → Queries.update_payment row d ≡ ok (t, d')
      → I d
      → I d'

module _ (I : PaymentDb → Type 0) (laws : Preserved I) where
  -- A pending payment that has been read is written with its change.
  update_payment-Leaves :
      (id : String) (d : PaymentDb) (p : Payment) (change : ℕ → Payment → Payment) (at : ℕ)
      → Settling change
      → Read id p d
      → p.status ≡ pending
      → I d
      → Leaves I d (Repository.update_payment (change at p))
  unfolding Repository.update_payment
  update_payment-Leaves id d p change at s r is from =
      quiet-Leaves I d _ _ (validate_payment-Keeps _ _) from λ _.
        bind-Leaves I d _ _
          (map_error-Leaves I d _ _ (
            query-Leaves I d _
              (λ row d' e.
                laws.settles r.row _ row s.status d d'
                  (found_again id p d r _ (written_id (change at p) ∙ s.same_id at p))
                  (r.status ∙ ap status_name is) (changed_account change s at id p d r) s.settled e
                  from)
              from))
          λ row. map_error-Keeps _ _ _ (lift-Keeps I _)

  -- Once the payment has been read.
  pub settle-Leaves :
      (id : String) (d : PaymentDb) (p : Payment) (verdict : PaymentStatus → Verdict)
      (change : ℕ → Payment → Payment)
      → ((s : PaymentStatus) → verdict s ≡ moves → s ≡ pending)
      → Settling change
      → Read id p d
      → I d
      → Leaves I d (settle (verdict p.status) change p)
  unfolding settle
  settle-Leaves id d p verdict change only s r from = by_verdict (verdict p.status) refl
    where
      by_verdict : (v : Verdict) → verdict p.status ≡ v → Leaves I d (settle v change p)
      by_verdict done e = Keeps-Leaves I d _ (pure-Keeps I _) from
      by_verdict (refused x) e = Keeps-Leaves I d _ (fail-Keeps I _) from
      by_verdict moves e = clock-Leaves I d _ λ at.
          bind-Leaves I d _ _ (update_payment-Leaves id d p change at s r (only p.status e) from)
            λ updated. pure-Keeps I _
