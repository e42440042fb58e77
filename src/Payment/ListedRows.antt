-- ===== src/Payment/ListedRows.antt =====
-- The rows of the list of a customer as payments: all of them, the first few and the rest.
use event_driven_ecommerce.Base.{
  ℕ, zero, suc, ◌≡◌, refl, ap, ◌∙◌, sym, arith, Bool, List, [], ◌∷◌, length, ok, err, ok_inj,
  Result, Failure, take, drop, ◌then◌,
}
use event_driven_ecommerce.Payment.Domain.{Payment, PaymentError, PaymentRow}
use event_driven_ecommerce.Payment.Queries.{insert_listed, sort_listed}
use event_driven_ecommerce.Payment.Rows.{map_db_payment, map_db_payments}

length-insert :
    (before : PaymentRow → PaymentRow → Bool) (r : PaymentRow) (rs : List PaymentRow)
    → length (insert_listed before r rs) ≡ suc (length rs)
unfolding insert_listed
length-insert before r [] = refl
length-insert before r (t ∷ ts) = ground (arith, length-insert before r ts)

pub length-sort :
    (before : PaymentRow → PaymentRow → Bool) (rs : List PaymentRow)
    → length (sort_listed before rs) ≡ length rs
unfolding sort_listed
length-sort before [] = refl
length-sort before (r ∷ rs) =
    length-insert before r (sort_listed before rs) ∙ ap suc (length-sort before rs)

both_read :
    (x : Result (Failure PaymentError) Payment) (y : Result (Failure PaymentError) (List Payment))
    (ps : List Payment)
    → (x then λ p. y then λ rest. ok (p ∷ rest)) ≡ ok ps
    → (p : Payment) × (rest : List Payment) × (x ≡ ok p) × (y ≡ ok rest) × (ps ≡ p ∷ rest)
both_read (ok p) (ok rest) ps e = (p, rest, refl, refl, sym (ok_inj e))
both_read (ok p) (err x) ps e = cc
both_read (err x) y ps e = cc

-- The first row and the others, where all are read.
rows_read :
    (row : PaymentRow) (rows : List PaymentRow) (ps : List Payment)
    → map_db_payments (row ∷ rows) ≡ ok ps
    → (p : Payment) × (rest : List Payment) × (map_db_payment row ≡ ok p)
      × (map_db_payments rows ≡ ok rest)
      × (ps ≡ p ∷ rest)
unfolding map_db_payments
rows_read row rows ps e = both_read (map_db_payment row) (map_db_payments rows) ps e

pub length-read :
    (rows : List PaymentRow) (ps : List Payment)
    → map_db_payments rows ≡ ok ps
    → length ps ≡ length rows
unfolding map_db_payments
length-read [] ps e = ap length (sym (ok_inj e))
length-read (row ∷ rows) ps e =
    let (p, rest, one, others, is) = rows_read row rows ps e in
    ap length is ∙ ap suc (length-read rows rest others)

pub take-read :
    (a : ℕ) (rows : List PaymentRow) (ps : List Payment)
    → map_db_payments rows ≡ ok ps
    → map_db_payments (take a rows) ≡ ok (take a ps)
unfolding take map_db_payments
take-read zero rows ps e = refl
take-read (suc a) [] ps e = ground (arith, e)
take-read (suc a) (row ∷ rows) ps e =
    let (p, rest, one, others, is) = rows_read row rows ps e in
    let later = take-read a rows rest others in ground (arith, one, later, is)

pub drop-read :
    (a : ℕ) (rows : List PaymentRow) (ps : List Payment)
    → map_db_payments rows ≡ ok ps
    → map_db_payments (drop a rows) ≡ ok (drop a ps)
unfolding drop map_db_payments
drop-read zero rows ps e = e
drop-read (suc a) [] ps e = ap (λ x. ok (drop (suc a) x)) (ok_inj e)
drop-read (suc a) (row ∷ rows) ps e =
    let (p, rest, one, others, is) = rows_read row rows ps e in
    drop-read a rows rest others ∙ ap (λ x. ok (drop (suc a) x)) (sym is)
