-- ===== src/Payment/Statements.antt =====
-- What the statements that write a payment do to the ledger.
use event_driven_ecommerce.Base.{
  String, str_eq, eq_iff, ltb_ℤ, pos, true, ◌≡◌, ◌≢◌, ap, ◌∙◌, fun_ext, subst, none, some, List, [],
  ◌∷◌, arith, ok, if◌then◌else◌, false, Option-cases, inl, inr, ℤ, negsuc, leb_ℤ,
}
use event_driven_ecommerce.Payment.Enums.{PaymentStatus, pending, status_name}
use event_driven_ecommerce.Payment.Domain.{PaymentRow, PaymentDb}
use event_driven_ecommerce.Payment.Queries.{
  stored, find_row, has_id, has_order, replace_row, row_error, create_payment, update_payment,
}
use event_driven_ecommerce.Payment.Accounts.{
  Account, account, account_of, view, put, Settled, with_status, Step, opens, settles,
}

pub id-find_row :
    (id : String) (rs : List PaymentRow) (row : PaymentRow)
    → find_row (has_id id) rs ≡ some row
    → row.id ≡ id
unfolding find_row
id-find_row id [] row e = absurd (ground arith)
id-find_row id (r ∷ rs) row e = ground (arith, eq_iff r.id id, id-find_row id rs row)

pub find_row-replace :
    (q : String) (t old : PaymentRow) (rs : List PaymentRow)
    → find_row (has_id t.id) rs ≡ some old
    → find_row (has_id q) (replace_row t rs)
      ≡ (if str_eq t.id q then some t else find_row (has_id q) rs)
unfolding find_row replace_row
find_row-replace q t old [] e = absurd (ground arith)
find_row-replace q t old (r ∷ rs) e =
    ground (arith, eq_iff r.id t.id, eq_iff r.id q, eq_iff t.id q, find_row-replace q t old rs)

-- An order id that no row has.
unused-order :
    (o id : String) (rs : List PaymentRow) (row : PaymentRow)
    → find_row (has_order o) rs ≡ none
    → find_row (has_id id) rs ≡ some row
    → row.order_id ≢ o
unfolding find_row
unused-order o id [] row h e = absurd (ground arith)
unused-order o id (r ∷ rs) row h e =
    λ same. ground (arith, eq_iff r.id id, eq_iff r.order_id o, same, unused-order o id rs row)

unused-account :
    (o id : String) (d : PaymentDb) (b : Account)
    → find_row (has_order o) d.payments ≡ none
    → view d id ≡ some b
    → b.order_id ≢ o
unfolding view
unused-account o id d b h e = elim (Option-cases (find_row (has_id id) d.payments)) [
  | inl missing ↦ absurd (ground (arith, missing, e))
  | inr (row, found) ↦ λ same.
      let at : account row ≡ b = ground (arith, found, e) in
      unused-order o id d.payments row h found (ap (λ (x : Account). x.order_id) at ∙ same)
]

record CreatedRow (row : PaymentRow) (d d' : PaymentDb) : Type 0 where
  fresh : find_row (has_id row.id) d.payments ≡ none
  unused : find_row (has_order row.order_id) d.payments ≡ none
  positive : ltb_ℤ (pos 0) row.amount_cents ≡ true
  rows : d'.payments ≡ stored row ∷ d.payments

positive_amount : (x : ℤ) → leb_ℤ x (pos 0) ≡ false → ltb_ℤ (pos 0) x ≡ true
positive_amount (pos n) h = ground arith
positive_amount (negsuc n) h = ground arith

row_ok : (row : PaymentRow) → row_error row ≡ none → ltb_ℤ (pos 0) row.amount_cents ≡ true
unfolding row_error
row_ok row e = positive_amount row.amount_cents (ground arith)

create_payment-CreatedRow :
    (row t : PaymentRow) (d d' : PaymentDb)
    → create_payment row d ≡ ok (t, d')
    → CreatedRow row d d'
unfolding create_payment
create_payment-CreatedRow row t d d' e = record {
  fresh = ground arith;
  unused = ground arith;
  positive = row_ok row (ground arith);
  rows = ground arith;
}

-- A row that is put in opens an account.
pub create_payment-Step :
    (row t : PaymentRow) (d d' : PaymentDb)
    → create_payment row d ≡ ok (t, d')
    → row.status ≡ status_name pending
    → Step (view d) (view d')
unfolding view put find_row stored
create_payment-Step row t d d' e is =
    let c = create_payment-CreatedRow row t d d' e in
    let same : put row.id (account row) (view d) ≡ view d' = fun_ext λ q. ground (arith, c.rows) in
    subst (Step (view d)) same (
      opens row.id (account row) (ap account_of c.fresh)
        (λ q b. unused-account row.order_id q d b c.unused) c.positive is)

-- A row that is read as pending and written back settled settles its account.
pub update_payment-Step :
    (old row t : PaymentRow) (s : PaymentStatus) (d d' : PaymentDb)
    → find_row (has_id row.id) d.payments ≡ some old
    → old.status ≡ status_name pending
    → account row ≡ with_status s (account old)
    → Settled s
    → update_payment row d ≡ ok (t, d')
    → Step (view d) (view d')
unfolding view put update_payment stored
update_payment-Step old row t s d d' was is becomes settled e =
    let rows : d'.payments ≡ replace_row (stored row) d.payments = ground arith in
    let same : put row.id (with_status s (account old)) (view d) ≡ view d' =
      fun_ext
        λ q. ground (arith, rows, becomes, find_row-replace q (stored row) old d.payments was) in
    subst (Step (view d)) same (settles row.id (account old) s (ap account_of was) is settled)
