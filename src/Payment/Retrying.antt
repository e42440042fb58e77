-- ===== src/Payment/Retrying.antt =====
-- `CreatePayment` with the key of a payment that is there.
use event_driven_ecommerce.Base.{
  String, eq_refl, ◌≡◌, refl, sym, ap, ◌∙◌, subst, ◌⊎◌, inl, inr, Bool, true, false, some,
  Option-cases, ok, err, suc, arith, is_blank, is_empty, trim_space, trim_space_idem, Result,
  Failure, DbError, Action, map_error, lift, fail_if, ◌>>=◌, other, domain, ◌<>◌, running, query,
  query-broken, query-ok, World, Outcome, Ensures, >>=-Ensures, guard-Ensures, clock-Ensures,
  step-Ensures, read-Ensures, lift-Ensures, map_error-Ensures, pure-Ensures, fail-Ensures,
  try-Ensures, if-Ensures, Bool-cases,
}
use event_driven_ecommerce.Payment.Domain.{
  Payment, PaymentRow, PaymentDb, PaymentError, Call, invalid_payment,
}
use event_driven_ecommerce.Payment.Queries
use event_driven_ecommerce.Payment.Queries.{find_row, has_key, stored}
use event_driven_ecommerce.Payment.Rows.{map_db_payment, to_payment_db_params}
use event_driven_ecommerce.Payment.Repository
use event_driven_ecommerce.Payment.Repository.{
  or_missing, validate_payment, get_payment_by_idempotency_key,
}
use event_driven_ecommerce.Payment.Service.{
  create_new, after_create, after_lookup, create_payment, validate_create_payment,
}

-- The first row with the key is that of the payment.
pub record HasKey (key : String) (q : Payment) (d : PaymentDb) : Type 0 where
  pub row : PaymentRow
  pub found : find_row (has_key key) d.payments ≡ some row
  pub maps : map_db_payment row ≡ ok q

get_by_key-Ensures :
    (raw : String) (d : PaymentDb)
    → Ensures d (get_payment_by_idempotency_key raw) (HasKey (trim_space raw))
unfolding get_payment_by_idempotency_key Queries.get_payment_by_idempotency_key
get_by_key-Ensures raw d = guard-Ensures d _ _ _ _ λ _.
    read-Ensures d _ _ _ _ (λ x d₁ e. ground arith)
      λ row e. lift-Ensures _ d _ λ q h. record { row = row; found = ground arith; maps = h }

created_row :
    (p : Payment) (d d' : PaymentDb) (t : PaymentRow)
    → is_blank p.idempotency_key ≡ false
    → Queries.create_payment (to_payment_db_params p) d ≡ ok (t, d')
    → find_row (has_key (trim_space p.idempotency_key)) d'.payments ≡ some t
unfolding Queries.create_payment find_row stored to_payment_db_params
created_row p d d' t k e = ground (arith, eq_refl (trim_space p.idempotency_key))

create_row-Ensures :
    (p : Payment) (d : PaymentDb)
    → is_blank p.idempotency_key ≡ false
    → Ensures d (Repository.create_payment p) (HasKey (trim_space p.idempotency_key))
unfolding Repository.create_payment validate_payment
create_row-Ensures p d k =
    >>=-Ensures _ _ d (λ _ d'. Unit {0}) _ (record { apply = λ w at a e. tt })
      λ _ d₁ same. step-Ensures d₁ _ _ _ _ λ t d₂ e.
        map_error-Ensures _ _ d₂ _ (
          lift-Ensures _ d₂ _
            λ q h. record { row = t; found = created_row p d₁ d₂ t k e; maps = h })

after_create-Ensures :
    (p : Payment) (d : PaymentDb) (r : Result (Failure PaymentError) Payment)
    → ((q : Payment) → r ≡ ok q → HasKey (trim_space p.idempotency_key) q d)
    → Ensures d (after_create p r) (HasKey (trim_space p.idempotency_key))
unfolding after_create
after_create-Ensures p d (ok created) h = pure-Ensures created d _ (h created refl)
after_create-Ensures p d (err e) h =
    if-Ensures d _ _ _ _ (λ _. get_by_key-Ensures p.idempotency_key d) (λ _. fail-Ensures d e _)

create_new-Ensures :
    (p : Payment) (d : PaymentDb)
    → is_blank p.idempotency_key ≡ false
    → Ensures d (create_new p) (HasKey (trim_space p.idempotency_key))
unfolding create_new
create_new-Ensures p d k =
    >>=-Ensures _ _ d (λ _ d'. Unit {0}) _ (record { apply = λ w at a e. tt })
      λ id d₁ _. clock-Ensures d₁ _ _ λ at.
        >>=-Ensures _ _ d₁ _ _ (try-Ensures _ d₁ _ (create_row-Ensures _ d₁ k))
          λ r d₂ h. after_create-Ensures _ d₂ r h

after_lookup-Ensures :
    (p : Payment) (d : PaymentDb) (r : Result (Failure PaymentError) Payment)
    → is_blank p.idempotency_key ≡ false
    → ((q : Payment) → r ≡ ok q → HasKey (trim_space p.idempotency_key) q d)
    → Ensures d (after_lookup p r) (HasKey (trim_space p.idempotency_key))
unfolding after_lookup
after_lookup-Ensures p d (ok existing) k h = pure-Ensures existing d _ (h existing refl)
after_lookup-Ensures p d (err e) k h =
    if-Ensures d _ _ _ _ (λ _. create_new-Ensures p d k) (λ _. fail-Ensures d e _)

create_payment-Ensures :
    (p : Payment) (d : PaymentDb)
    → is_blank p.idempotency_key ≡ false
    → Ensures d (create_payment p) (HasKey (trim_space p.idempotency_key))
unfolding create_payment
create_payment-Ensures p d k = guard-Ensures d _ _ _ _ λ _.
    if-Ensures d (is_blank p.idempotency_key) _ _ _ (λ b. absurd (ground (arith, b, k)))
      λ _. >>=-Ensures _ _ d _ _ (try-Ensures _ d _ (get_by_key-Ensures _ d)) λ r d₁ h.
        after_lookup-Ensures p d₁ r k
          λ q e. subst (λ x. HasKey x q d₁) (trim_space_idem p.idempotency_key) (h q e)

-- The lookup after its guard.
abbrev lookup : String → Call Payment
lookup key =
    map_error (or_missing "get payment by idempotency key from postgres")
      (query (Queries.get_payment_by_idempotency_key key))
    >>= λ row. lift (map_db_payment row)

abbrev after_query :
    World PaymentDb
    → Result DbError PaymentRow × World PaymentDb
    → Result (Failure PaymentError) Payment × World PaymentDb
after_query w x =
    ◌>>=◌
      (map_error (or_missing "get payment by idempotency key from postgres")
        (λ (w : World PaymentDb). x))
      (λ row. lift (map_db_payment row)) w

row_of :
    (key : String) (d : PaymentDb) (row : PaymentRow)
    → find_row (has_key key) d.payments ≡ some row
    → Queries.get_payment_by_idempotency_key key d ≡ ok (row, d)
unfolding Queries.get_payment_by_idempotency_key
row_of key d row e = ground (arith, e)

passes :
    {S E A : Type 0} (bad : Bool) (e : E) (m : Action S E A) (w : S)
    → bad ≡ false
    → (fail_if bad e >>= λ _. m) w ≡ m w
unfolding running
passes true e m w h = absurd (ground (arith, h))
passes false e m w h = refl

-- A lookup of a key that is there finds the payment, or does not come through.
looked_up :
    (key : String) (q : Payment) (w : World PaymentDb)
    → HasKey (trim_space key) q w.db
    → is_blank key ≡ false
    → (get_payment_by_idempotency_key (trim_space key) w ≡ (ok q, record w { tick = suc w.tick }))
      ⊎ ((text : String) × (get_payment_by_idempotency_key (trim_space key) w
            ≡ (err (other text), record w { tick = suc w.tick })))
unfolding get_payment_by_idempotency_key Queries.get_payment_by_idempotency_key running query
looked_up key q w h k =
    let twice : is_empty (trim_space (trim_space key)) ≡ false =
      ap is_empty (trim_space_idem key) ∙ k in
    let found : find_row (has_key (trim_space (trim_space key))) w.db.payments ≡ some h.row =
      ap (λ x. find_row (has_key x) w.db.payments) (trim_space_idem key) ∙ h.found in
    let key' = trim_space (trim_space key) in
    elim (Option-cases (w.fault w.tick)) [
      | inr (text, e) ↦ inr (
        "get payment by idempotency key from postgres" <> ": " <> text,
        passes _ _ (lookup key') w twice
            ∙ ap (after_query w)
                (query-broken (Queries.get_payment_by_idempotency_key key') w text e),
      )
      | inl e ↦ inl (
          passes _ _ (lookup key') w twice
          ∙ ap (after_query w) (
              query-ok (Queries.get_payment_by_idempotency_key key') w h.row w.db e
                (row_of key' w.db h.row found))
          ∙ ap (λ r. (r, record w { tick = suc w.tick })) h.maps)
    ]

created_again :
    (p q : Payment) (w : World PaymentDb)
    → HasKey (trim_space p.idempotency_key) q w.db
    → is_blank p.idempotency_key ≡ false
    → (create_payment p w ≡ (ok q, record w { tick = suc w.tick }))
      ⊎ ((e : Failure PaymentError) × (v : World PaymentDb) × (create_payment p w ≡ (err e, v))
          × (v.db ≡ w.db))
unfolding create_payment after_lookup running
created_again p q w h k = elim (Bool-cases (validate_create_payment p)) [
  | inl bad ↦ inr (domain invalid_payment, w, ground (arith, bad), refl)
  | inr good ↦ elim (looked_up p.idempotency_key q w h k) [
    | inl found ↦ inl (ground (arith, good, k, found))
    | inr (text, lost) ↦
        inr (other text, record w { tick = suc w.tick }, ground (arith, good, k, lost), refl)
  ]
]

-- After a `CreatePayment` with a key that has returned a payment, any `CreatePayment` with that key,
-- spaces around it left aside, returns the same payment or fails, and changes nothing in the table.
pub create_payment_retry :
    (p again q : Payment) (w w' : World PaymentDb)
    → is_blank p.idempotency_key ≡ false
    → trim_space again.idempotency_key ≡ trim_space p.idempotency_key
    → (create_payment p w).0 ≡ ok q
    → w'.db ≡ (create_payment p w).1.db
    → Outcome w'.db (λ r d. (d ≡ w'.db) × (r ≡ q)) (create_payment again w')
create_payment_retry p again q w w' k same done next =
    let first = (create_payment-Ensures p w.db k).apply w refl q done in
    let there =
      subst (λ x. HasKey x q w'.db) (sym same)
        (subst (HasKey (trim_space p.idempotency_key) q) (sym next) first) in
    let k' : is_blank again.idempotency_key ≡ false = ap is_empty same ∙ k in
    elim (created_again again q w' there k') [
      | inl found ↦ subst (Outcome w'.db (λ r d. (d ≡ w'.db) × (r ≡ q))) (sym found) (refl, refl)
      | inr (e, v, lost, kept) ↦
          subst (Outcome w'.db (λ r d. (d ≡ w'.db) × (r ≡ q))) (sym lost) kept
    ]
