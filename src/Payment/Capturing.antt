-- ===== src/Payment/Capturing.antt =====
-- `CapturePayment` of the service: what it leaves in the table, and that it sends nothing.
use event_driven_ecommerce.Base.{
  some_inj, ℕ, String, ◌≡◌, refl, sym, ap, ◌∙◌, subst, Bool, true, false, some, ok, arith, World,
  Action, Keeps, Ensures, >>=-Ensures, guard-Ensures, clock-Ensures, step-Ensures, lift-Ensures,
  map_error-Ensures, pure-Ensures, fail-Ensures, Ends-Ensures, Quiet, query-Quiet, now-Quiet,
  fail_if-Quiet, pure-Quiet, fail-Quiet, lift-Quiet, map_error-Quiet, bind-Quiet, eq_iff,
}
use event_driven_ecommerce.Payment.Enums.{captured, status_name, status_value}
use event_driven_ecommerce.Payment.Domain.{Payment, PaymentRow, PaymentDb}
use event_driven_ecommerce.Payment.Queries
use event_driven_ecommerce.Payment.Queries.{find_row, has_id, replace_row, stored}
use event_driven_ecommerce.Payment.Rows.{
  to_payment_db_params, payment_of_row, map_db_payment, parse_currency, parse_payment_method,
  parse_payment_status, known,
}
use event_driven_ecommerce.Payment.Repository
use event_driven_ecommerce.Payment.Repository.{validate_payment}
use event_driven_ecommerce.Payment.Service
use event_driven_ecommerce.Payment.Service.{
  Verdict, done, moves, refused, capture_verdict, captured_at, settle,
}
use event_driven_ecommerce.Payment.Accounts.{Account, account, view}
use event_driven_ecommerce.Payment.Reading.{Read, get_payment_by_id-Ensures, get_payment_by_id-Ends}
use event_driven_ecommerce.Payment.Statements.{find_row-replace}
use event_driven_ecommerce.Payment.Changes.{validate_payment-Keeps, id-Read}

get_payment_by_id-Quiet : (id : String) → Quiet (Repository.get_payment_by_id id)
unfolding Repository.get_payment_by_id
get_payment_by_id-Quiet id =
    bind-Quiet _ _ (fail_if-Quiet _ _)
      λ _. bind-Quiet _ _ (map_error-Quiet _ _ (query-Quiet _)) λ row. lift-Quiet _

update_payment-Quiet : (p : Payment) → Quiet (Repository.update_payment p)
unfolding Repository.update_payment validate_payment
update_payment-Quiet p =
    bind-Quiet _ _ (bind-Quiet _ _ (fail_if-Quiet _ _) λ _. fail_if-Quiet _ _) λ _.
      bind-Quiet _ _ (map_error-Quiet _ _ (query-Quiet _)) λ row. map_error-Quiet _ _ (lift-Quiet _)

settle-Quiet :
    (v : Verdict) (change : ℕ → Payment → Payment) (p : Payment) → Quiet (settle v change p)
unfolding settle
settle-Quiet done change p = pure-Quiet _
settle-Quiet (refused e) change p = fail-Quiet _
settle-Quiet moves change p =
    bind-Quiet _ _ now-Quiet λ at. bind-Quiet _ _ (update_payment-Quiet _) λ updated. pure-Quiet _

pub capture_payment-Quiet : (id : String) → Quiet (Service.capture_payment id)
unfolding Service.capture_payment
capture_payment-Quiet id =
    bind-Quiet _ _ (fail_if-Quiet _ _)
      λ _. bind-Quiet _ _ (get_payment_by_id-Quiet id) λ p. settle-Quiet _ _ p

-- The payment is captured in the table, for this order.
pub record CapturedAt (id o : String) (d : PaymentDb) : Type 0 where
  pub account_at : Account
  pub there : view d id ≡ some account_at
  pub status : account_at.status ≡ status_name captured
  pub order : account_at.order_id ≡ o

quiet-Ensures :
    {E A : Type 0} (d : PaymentDb) (m : Action (World PaymentDb) E A)
    → Keeps (λ x. x ≡ d) m
    → Ensures d m (λ _ d'. d' ≡ d)
quiet-Ensures d m k = record { apply = λ w at a e. k.apply w at }

captured_row_there :
    (id : String) (d d' : PaymentDb) (old row t : PaymentRow)
    → find_row (has_id id) d.payments ≡ some old
    → row.id ≡ id
    → row.status ≡ status_name captured
    → Queries.update_payment row d ≡ ok (t, d')
    → (view d' id ≡ some (account row)) × (t ≡ stored row)
unfolding Queries.update_payment view stored
captured_row_there id d d' old row t was same is e =
    let found : find_row (has_id row.id) d.payments ≡ some old =
      ap (λ x. find_row (has_id x) d.payments) same ∙ was in
    let rows : d'.payments ≡ replace_row (stored row) d.payments = ground arith in
    (
      ground (
        arith,
        eq_iff row.id id,
        same,
        rows,
        find_row-replace id (stored row) old d.payments found,
      ),
      ground arith,
    )

order-map_db_payment :
    (row : PaymentRow) (q : Payment) → map_db_payment row ≡ ok q → q.order_id ≡ row.order_id
unfolding map_db_payment payment_of_row parse_currency parse_payment_method parse_payment_status
    known
order-map_db_payment row q h = ground arith

captured_params :
    (at : ℕ) (p : Payment)
    → ((to_payment_db_params (captured_at at p)).id ≡ p.id)
      × ((to_payment_db_params (captured_at at p)).status ≡ status_name captured)
unfolding to_payment_db_params
captured_params at p = (refl, refl)

-- The payment that is written is captured in the table.
update_payment-Ensures :
    (id : String) (d : PaymentDb) (p : Payment) (at : ℕ)
    → Read id p d
    → Ensures d (Repository.update_payment (captured_at at p)) (λ q d'. CapturedAt id q.order_id d')
unfolding Repository.update_payment stored
update_payment-Ensures id d p at r =
    >>=-Ensures _ _ d (λ _ d'. d' ≡ d) _ (quiet-Ensures d _ (validate_payment-Keeps _ _))
      λ _ d₁ same. step-Ensures d₁ _ _ _ _ λ t d₂ e. map_error-Ensures _ _ d₂ _ (
        lift-Ensures _ d₂ _ λ q h.
          let (same_id, captured_now) = captured_params at p in
          let (there, is) =
            captured_row_there id d₁ d₂ r.row _ t
              (ap (λ x. find_row (has_id id) x.payments) same ∙ r.found)
              (same_id ∙ id-Read id p d r) captured_now e in
          record {
            account_at = _;
            there = there;
            status = captured_now;
            order = sym (order-map_db_payment t q h ∙ ap (λ (x : PaymentRow). x.order_id) is);
          })

-- A capture that moves the payment leaves it captured.
abbrev pub Moves : String → Payment × Bool → PaymentDb → Type 0
Moves id x d = x.1 ≡ true → CapturedAt id x.0.order_id d

settle-Ensures :
    (id : String) (d : PaymentDb) (p : Payment) (v : Verdict)
    → Read id p d
    → Ensures d (settle v captured_at p) (Moves id)
unfolding settle Moves
settle-Ensures id d p done r = pure-Ensures _ d _ λ e. absurd (ground (arith, e))
settle-Ensures id d p (refused x) r = fail-Ensures d _ _
settle-Ensures id d p moves r = clock-Ensures d _ _ λ at.
    >>=-Ensures _ _ d (λ q d'. CapturedAt id q.order_id d') _ (update_payment-Ensures id d p at r)
      λ q d' c. pure-Ensures _ d' _ λ _. c

pub capture_payment-Ensures :
    (id : String) (d : PaymentDb) → Ensures d (Service.capture_payment id) (Moves id)
unfolding Service.capture_payment
capture_payment-Ensures id d = guard-Ensures d _ _ _ _ λ _.
    >>=-Ensures _ _ d (Read id) _ (get_payment_by_id-Ensures id d)
      λ p d' r. settle-Ensures id d' p (capture_verdict p.status) r

captured_value : status_value (status_name captured) ≡ some captured
unfolding status_value status_name
captured_value = refl

seen_as_captured :
    (id : String) (d : PaymentDb) (p : Payment) (a : Account)
    → Read id p d
    → view d id ≡ some a
    → a.status ≡ status_name captured
    → p.status ≡ captured
unfolding view
seen_as_captured id d p a r there is =
    let at : account r.row ≡ a = ground (arith, r.found, there) in
    let row_is : r.row.status ≡ status_name captured = ap (λ (x : Account). x.status) at ∙ is in
    some_inj p.status captured (sym r.parsed_status ∙ ap status_value row_is ∙ captured_value)

stays-Ensures :
    (id : String) (d : PaymentDb) (p : Payment) (a : Account)
    → Read id p d
    → view d id ≡ some a
    → a.status ≡ status_name captured
    → Ensures d (settle (capture_verdict p.status) captured_at p) (λ x _. x.1 ≡ false)
unfolding settle capture_verdict
stays-Ensures id d p a r there is =
    subst (λ s. Ensures d (settle (capture_verdict s) captured_at p) (λ x _. x.1 ≡ false))
      (sym (seen_as_captured id d p a r there is)) (pure-Ensures _ d _ refl)

-- A payment that is captured already does not move.
pub captured_already-Ensures :
    (id : String) (d : PaymentDb) (a : Account)
    → view d id ≡ some a
    → a.status ≡ status_name captured
    → Ensures d (Service.capture_payment id) (λ x _. x.1 ≡ false)
unfolding Service.capture_payment
captured_already-Ensures id d a there is = guard-Ensures d _ _ _ _ λ _.
    >>=-Ensures _ _ d (λ p d'. (d' ≡ d) × Read id p d') _
      (Ends-Ensures d _ _ _ (get_payment_by_id-Ends id d))
      λ p d' r. stays-Ensures id d' p a r.1 (ap (λ x. view x id) r.0 ∙ there) is
