-- ===== src/Payment/Refinement.antt =====
-- The requests of the payment service, as steps of the ledger.
use event_driven_ecommerce.Base.{
  String, ◌≡◌, refl, ap, List, [], ◌∷◌, Result, ok, err, arith, is_blank, World, Failure, Keeps,
  pure-Keeps, fail-Keeps, fail_if-Keeps, lift-Keeps, map_error-Keeps, try-Keeps, if-Keeps,
  bind-Keeps, now-Keeps, quiet-Leaves, Leaves-Keeps, query-Leaves, map_error-Leaves, bind-Leaves,
  read-Leaves, guard-Leaves,
}
use event_driven_ecommerce.Events.{Codec}
use event_driven_ecommerce.Payment.Enums.{PaymentStatus, pending, status_name}
use event_driven_ecommerce.Payment.Domain.{Payment, PaymentDb, PaymentError}
use event_driven_ecommerce.Payment.Rows.{to_payment_db_params}
use event_driven_ecommerce.Payment.Repository
use event_driven_ecommerce.Payment.Service
use event_driven_ecommerce.Payment.Service.{
  moves, cancel_verdict, capture_verdict, fail_verdict, cancelled_for, captured_at, failed_for,
  create_new, after_create, after_lookup, id_or_new,
}
use event_driven_ecommerce.Payment.Publisher.{Topics}
use event_driven_ecommerce.Payment.Handler
use event_driven_ecommerce.Payment.Handler.{announce_captured, announce_failed}
use event_driven_ecommerce.Payment.Requests.{
  Request, create, get_by_id, get_by_order_id, list_by_customer, cancel, capture, fail, consume,
  serve, serve_all,
}
use event_driven_ecommerce.Payment.Accounts.{Ledger, view, Steps, stays, goes}
use event_driven_ecommerce.Payment.Reading.{
  Read, get_payment_by_id-Ends, get_payment_by_id-Keeps, get_payment_by_idempotency_key-Keeps,
  get_payment_by_order_id-Keeps, list_payments_by_customer-Keeps,
}
use event_driven_ecommerce.Payment.Statements.{create_payment-Step, update_payment-Step}
use event_driven_ecommerce.Payment.Handling.{
  announce_captured-Keeps, announce_failed-Keeps, run-Keeps,
}
use event_driven_ecommerce.Payment.Changes.{
  Preserved, validate_payment-Keeps, cancelled_for-Settling, captured_at-Settling,
  failed_for-Settling, settle-Leaves,
}

cancel_moves : (s : PaymentStatus) → cancel_verdict s ≡ moves → s ≡ pending
unfolding cancel_verdict
cancel_moves s e = ground arith

capture_moves : (s : PaymentStatus) → capture_verdict s ≡ moves → s ≡ pending
unfolding capture_verdict
capture_moves s e = ground arith

fail_moves : (s : PaymentStatus) → fail_verdict s ≡ moves → s ≡ pending
unfolding fail_verdict
fail_moves s e = ground arith

module _ (I : PaymentDb → Type 0) (laws : Preserved I) where
  cancel_payment-Keeps : (id reason : String) → Keeps I (Service.cancel_payment id reason)
  unfolding Service.cancel_payment
  cancel_payment-Keeps id reason = Leaves-Keeps I _ λ d from.
      guard-Leaves I d (is_blank id) _ _ from λ _.
        read-Leaves I d _ _ (Read id) (get_payment_by_id-Ends id d) from λ p r.
          bind-Leaves I d _ _
            (settle-Leaves I laws id d p cancel_verdict (cancelled_for reason) cancel_moves
              (cancelled_for-Settling reason) r from)
            λ result. pure-Keeps I _

  capture_payment-Keeps : (id : String) → Keeps I (Service.capture_payment id)
  unfolding Service.capture_payment
  capture_payment-Keeps id = Leaves-Keeps I _ λ d from. guard-Leaves I d (is_blank id) _ _ from λ _.
      read-Leaves I d _ _ (Read id) (get_payment_by_id-Ends id d) from λ p r.
        settle-Leaves I laws id d p capture_verdict captured_at capture_moves captured_at-Settling r
          from

  fail_payment-Keeps : (id reason : String) → Keeps I (Service.fail_payment id reason)
  unfolding Service.fail_payment
  fail_payment-Keeps id reason = Leaves-Keeps I _ λ d from.
      guard-Leaves I d (is_blank id) _ _ from λ _. guard-Leaves I d (is_blank reason) _ _ from λ _.
        read-Leaves I d _ _ (Read id) (get_payment_by_id-Ends id d) from λ p r.
          settle-Leaves I laws id d p fail_verdict (failed_for reason) fail_moves
            (failed_for-Settling reason) r from

  -- The repository's `CreatePayment` of a pending payment.
  create_row-Keeps : (p : Payment) → p.status ≡ pending → Keeps I (Repository.create_payment p)
  unfolding Repository.create_payment to_payment_db_params
  create_row-Keeps p is = Leaves-Keeps I _ λ d from.
      quiet-Leaves I d _ _ (validate_payment-Keeps _ _) from λ _.
        bind-Leaves I d _ _
          (map_error-Leaves I d _ _ (
            query-Leaves I d _ (λ row d' e. laws.creates _ row d d' e (ap status_name is) from)
              from))
          λ row. map_error-Keeps _ _ _ (lift-Keeps I _)

  after_create-Keeps :
      (p : Payment) (r : Result (Failure PaymentError) Payment) → Keeps I (after_create p r)
  unfolding after_create
  after_create-Keeps p (ok created) = pure-Keeps I created
  after_create-Keeps p (err e) =
      if-Keeps I _ _ _ (get_payment_by_idempotency_key-Keeps I _) (fail-Keeps I e)

  create_new-Keeps : (p : Payment) → Keeps I (create_new p)
  unfolding create_new id_or_new
  create_new-Keeps p =
      bind-Keeps _ _ _
        (if-Keeps I _ _ _ (bind-Keeps _ _ _ (now-Keeps I) λ at. pure-Keeps I _) (pure-Keeps I _))
        λ id. bind-Keeps _ _ _ (now-Keeps I) λ at.
          bind-Keeps _ _ _ (try-Keeps I _ (create_row-Keeps _ refl))
            λ outcome. after_create-Keeps _ outcome

  after_lookup-Keeps :
      (p : Payment) (r : Result (Failure PaymentError) Payment) → Keeps I (after_lookup p r)
  unfolding after_lookup
  after_lookup-Keeps p (ok existing) = pure-Keeps I existing
  after_lookup-Keeps p (err e) = if-Keeps I _ _ _ (create_new-Keeps p) (fail-Keeps I e)

  create_payment-Keeps : (p : Payment) → Keeps I (Service.create_payment p)
  unfolding Service.create_payment
  create_payment-Keeps p = bind-Keeps _ _ _ (fail_if-Keeps I _ _) λ _.
      if-Keeps I _ _ _ (create_new-Keeps p) (
        bind-Keeps _ _ _ (try-Keeps I _ (get_payment_by_idempotency_key-Keeps I _))
          λ r. after_lookup-Keeps p r)

-- The ledger `l` has become that of the tables.
abbrev From : Ledger → PaymentDb → Type 0
From l d = Steps l (view d)

From-Preserved : (l : Ledger) → Preserved (From l)
From-Preserved l = record {
  creates = λ row t d d' e is from. goes from (create_payment-Step row t d d' e is);
  settles = λ old row t s d d' was is becomes settled e from.
      goes from (update_payment-Step old row t s d d' was is becomes settled e);
}

module _ (codec : Codec) (topics : Topics) where
  serve_keeps :
      (I : PaymentDb → Type 0) (laws : Preserved I) (r : Request) (w : World PaymentDb)
      → I w.db
      → I (serve codec topics r w).db
  unfolding serve Handler.create_payment Handler.get_payment_by_id Handler.get_payment_by_order_id
      Handler.list_payments_by_customer Handler.cancel_payment Handler.capture_payment
      Handler.fail_payment Service.get_payment_by_id Service.get_payment_by_order_id
      Service.list_payments_by_customer
  serve_keeps I laws (create req) w from =
      (bind-Keeps I _ _ (map_error-Keeps _ _ _ (create_payment-Keeps I laws _))
          λ p. pure-Keeps I _).apply
        w from
  serve_keeps I laws (get_by_id id) w from =
      (bind-Keeps I _ _
          (map_error-Keeps _ _ _
            (bind-Keeps _ _ _ (fail_if-Keeps I _ _) λ _. get_payment_by_id-Keeps I id))
          λ p. pure-Keeps I _).apply
        w from
  serve_keeps I laws (get_by_order_id o) w from =
      (bind-Keeps I _ _
          (map_error-Keeps _ _ _
            (bind-Keeps _ _ _ (fail_if-Keeps I _ _) λ _. get_payment_by_order_id-Keeps I o))
          λ p. pure-Keeps I _).apply
        w from
  serve_keeps I laws (list_by_customer c page page_size) w from =
      (bind-Keeps I _ _
          (map_error-Keeps _ _ _ (
            bind-Keeps _ _ _ (fail_if-Keeps I _ _)
              λ _. list_payments_by_customer-Keeps I c page page_size))
          λ listed. pure-Keeps I _).apply
        w from
  serve_keeps I laws (cancel id reason) w from =
      (bind-Keeps I _ _ (map_error-Keeps _ _ _ (cancel_payment-Keeps I laws id reason))
          λ p. pure-Keeps I _).apply
        w from
  serve_keeps I laws (capture id) w from =
      (bind-Keeps I _ _ (map_error-Keeps _ _ _ (capture_payment-Keeps I laws id)) λ result.
          bind-Keeps _ _ _ (announce_captured-Keeps codec topics I _ _) λ _. pure-Keeps I _).apply
        w from
  serve_keeps I laws (fail id reason) w from =
      (bind-Keeps I _ _ (map_error-Keeps _ _ _ (fail_payment-Keeps I laws id reason)) λ result.
          bind-Keeps _ _ _ (announce_failed-Keeps codec topics I _ _) λ _. pure-Keeps I _).apply
        w from
  serve_keeps I laws (consume ms) w from =
      (run-Keeps codec topics I (create_payment-Keeps I laws) ms).apply w from

  -- What the statements preserve, any requests and messages keep, whichever calls fail.
  pub serve_all_keeps :
      (I : PaymentDb → Type 0) (laws : Preserved I) (rs : List Request) (w : World PaymentDb)
      → I w.db
      → I (serve_all codec topics rs w).db
  unfolding serve_all
  serve_all_keeps I laws [] w from = from
  serve_all_keeps I laws (r ∷ rs) w from =
      serve_all_keeps I laws rs (serve codec topics r w) (serve_keeps I laws r w from)

  -- Whatever requests and messages the payment service is given, and whichever calls fail, the
  -- ledger that its table stands for changes by the steps of the specification alone: an account is
  -- opened pending, under a new id, with a positive amount, for an order that has none, and a
  -- pending account is settled as captured, failed or cancelled, with nothing else of it changed.
  pub serve_all-Steps :
      (rs : List Request) (w : World PaymentDb)
      → Steps (view w.db) (view (serve_all codec topics rs w).db)
  serve_all-Steps rs w = serve_all_keeps (From (view w.db)) (From-Preserved (view w.db)) rs w stays
