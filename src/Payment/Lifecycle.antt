-- ===== src/Payment/Lifecycle.antt =====
-- What becomes of one payment over the requests and messages of the service.
use event_driven_ecommerce.Base.{
  ok, Bool-cases, List, String, World, ap, arith, eq_iff, false, inl, inr, some, some_inj, str_eq,
  sym, true, ◌∙◌, ◌≡◌,
}
use event_driven_ecommerce.Events.{Codec}
use event_driven_ecommerce.Payment.Enums.{PaymentStatus, pending, status_name}
use event_driven_ecommerce.Payment.Domain.{PaymentRow, PaymentDb}
use event_driven_ecommerce.Payment.Queries.{
  find_row, has_id, stored, create_payment, update_payment,
}
use event_driven_ecommerce.Payment.Statements.{find_row-replace}
use event_driven_ecommerce.Payment.Changes.{Preserved}
use event_driven_ecommerce.Payment.Publisher.{Topics}
use event_driven_ecommerce.Payment.Requests.{Request, serve_all}
use event_driven_ecommerce.Payment.Accounts.{
  Account, Ledger, view, put, Settled, captured_is, failed_is, cancelled_is, with_status, Step,
  opens, settles, Steps, stays, goes,
}
use event_driven_ecommerce.Payment.Refinement.{serve_all_keeps, serve_all-Steps}

put_same : (id q : String) (a : Account) (l : Ledger) → str_eq id q ≡ true → put id a l q ≡ some a
unfolding put
put_same id q a l e = ground (arith, e)

put_other : (id q : String) (a : Account) (l : Ledger) → str_eq id q ≡ false → put id a l q ≡ l q
unfolding put
put_other id q a l e = ground (arith, e)

pending_is_open : (s : PaymentStatus) → Settled s → status_name s ≡ status_name pending → ⊥
unfolding status_name
pending_is_open s captured_is h =
    absurd (ground (arith, h, eq_iff "PAYMENT_STATUS_CAPTURED" "PAYMENT_STATUS_PENDING"))
pending_is_open s failed_is h =
    absurd (ground (arith, h, eq_iff "PAYMENT_STATUS_FAILED" "PAYMENT_STATUS_PENDING"))
pending_is_open s cancelled_is h =
    absurd (ground (arith, h, eq_iff "PAYMENT_STATUS_CANCELLED" "PAYMENT_STATUS_PENDING"))

-- An account of which nothing changes but a pending status, once.
pub data Course (a : Account) : Account → Type 0 where
  unchanged : Course a a
  settled :
      {s : PaymentStatus} → a.status ≡ status_name pending → Settled s → Course a (with_status s a)

Course-then :
    (a b : Account) (s : PaymentStatus)
    → Course a b
    → b.status ≡ status_name pending
    → Settled s
    → Course a (with_status s b)
Course-then a b s unchanged is t = settled is t
Course-then a b s (settled {s = r} was u) is t = absurd (pending_is_open r u is)

Step-Course :
    (l m : Ledger) (q : String) (a b : Account)
    → Step l m
    → Course a b
    → l q ≡ some b
    → (c : Account) × (m q ≡ some c) × Course a c
Step-Course l m q a b (opens id x fresh other positive is) c e = elim (Bool-cases (str_eq id q)) [
  | inl same ↦ absurd (ground (arith, eq_iff id q, same, e, fresh))
  | inr differs ↦ (b, put_other id q x l differs ∙ e, c)
]
Step-Course l m q a b (settles id x s was is t) c e = elim (Bool-cases (str_eq id q)) [
  | inl same ↦
      let here : id ≡ q = ground (arith, eq_iff id q, same) in
      let at : x ≡ b = some_inj x b (sym was ∙ ap l here ∙ e) in
      (
        with_status s b,
        put_same id q (with_status s x) l same ∙ ap (λ y. some (with_status s y)) at,
        Course-then a b s c (ap (λ (y : Account). y.status) (sym at) ∙ is) t,
      )
  | inr differs ↦ (b, put_other id q (with_status s x) l differs ∙ e, c)
]

Steps-Course :
    (l m : Ledger) (q : String) (a : Account)
    → Steps l m
    → l q ≡ some a
    → (b : Account) × (m q ≡ some b) × Course a b
Steps-Course l m q a stays e = (a, e, unchanged)
Steps-Course l n q a (goes {m} steps step) e =
    let (b, f, c) = Steps-Course l m q a steps e in Step-Course m n q a b step c f

-- The row with the id `q` is `row`.
abbrev pub Holding : String → PaymentRow → PaymentDb → Type 0
Holding q row d = find_row (has_id q) d.payments ≡ some row

held_behind :
    (q : String) (row t u : PaymentRow) (d d' : PaymentDb)
    → create_payment t d ≡ ok (u, d')
    → Holding q row d
    → Holding q row d'
unfolding create_payment find_row stored
held_behind q row t u d d' e h = ground (arith, eq_iff t.id q)

-- A row that was pending is not the settled one.
held_beside :
    (q : String) (row old t u : PaymentRow) (d d' : PaymentDb)
    → find_row (has_id t.id) d.payments ≡ some old
    → (t.id ≡ q → ⊥)
    → update_payment t d ≡ ok (u, d')
    → Holding q row d
    → Holding q row d'
unfolding update_payment stored
held_beside q row old t u d d' was apart e h =
    ground (arith, eq_iff t.id q, find_row-replace q (stored t) old d.payments was)

rows_apart :
    (q : String) (row old : PaymentRow) (s : PaymentStatus) (id : String) (d : PaymentDb)
    → row.status ≡ status_name s
    → Settled s
    → find_row (has_id id) d.payments ≡ some old
    → old.status ≡ status_name pending
    → Holding q row d
    → id ≡ q
    → ⊥
rows_apart q row old s id d is t was begun h same =
    let there : find_row (has_id id) d.payments ≡ some row =
      ap (λ x. find_row (has_id x) d.payments) same ∙ h in
    let here : row ≡ old = ground (arith, there, was) in
    pending_is_open s t (sym is ∙ ap (λ (x : PaymentRow). x.status) here ∙ begun)

Holding-Preserved :
    (q : String) (row : PaymentRow) (s : PaymentStatus)
    → row.status ≡ status_name s
    → Settled s
    → Preserved (Holding q row)
Holding-Preserved q row s is t = record {
  creates = λ new u d d' e begun h. held_behind q row new u d d' e h;
  settles = λ old new u s' d d' was begun becomes settled e h.
      held_beside q row old new u d d' was (rows_apart q row old s new.id d is t was begun h) e h;
}

module _ (codec : Codec) (topics : Topics) (rs : List Request) (w : World PaymentDb) where
  -- Whatever requests and messages the payment service is given, and whichever calls fail, a payment
  -- that is there stays under its id, for the same order, customer, currency and amount; its status
  -- stays, or was pending and has become captured, failed or cancelled.
  pub serve_all-Course :
      (q : String) (a : Account)
      → view w.db q ≡ some a
      → (b : Account) × (view (serve_all codec topics rs w).db q ≡ some b) × Course a b
  serve_all-Course q a e = Steps-Course _ _ q a (serve_all-Steps codec topics rs w) e

  -- The row of a payment that is captured, failed or cancelled is under its id in the table, the
  -- same in every column, after any requests and messages, whichever calls fail.
  pub serve_all-Settled :
      (q : String) (row : PaymentRow) (s : PaymentStatus)
      → find_row (has_id q) w.db.payments ≡ some row
      → row.status ≡ status_name s
      → Settled s
      → find_row (has_id q) (serve_all codec topics rs w).db.payments ≡ some row
  serve_all-Settled q row s h is t =
      serve_all_keeps codec topics (Holding q row) (Holding-Preserved q row s is t) rs w h
