-- ===== src/Order/Retrying.antt =====
-- A second `CreateOrder` with a key that an order has.
use event_driven_ecommerce.Base.{
  String, ◌≡◌, sym, subst, Bool-cases, inl, inr, Result, Failure, ap, ◌∙◌, refl, false, ok, err,
  World, domain, if◌then◌else◌, is_empty, arith, running,
}
use event_driven_ecommerce.Events.{Codec}
use event_driven_ecommerce.Order.Domain.{Order, OrderError, OrderDb, idempotency_key_conflict}
use event_driven_ecommerce.Order.Matching.{
  SamePayload, orders_match-SamePayload, SamePayload-orders_match,
}
use event_driven_ecommerce.Order.Repository.{get_order_by_idempotency_key}
use event_driven_ecommerce.Order.Reading.{get_order_by_idempotency_key-Keeps}
use event_driven_ecommerce.Order.Service.{
  normalize_order_input, validate_create_order, orders_match_for_idempotency, same_or_conflict,
  after_lookup, create_normalized, create_order,
}

-- The answer to a request whose key an order has: that order where the request repeats it, and a
-- conflict where it does not.
pub data Retried (existing request : Order) (r : Result (Failure OrderError) Order) : Type 0 where
  returned : SamePayload existing request → r ≡ ok existing → Retried existing request r
  conflicting :
      ¬ SamePayload existing request
      → r ≡ err (domain idempotency_key_conflict)
      → Retried existing request r

decided :
    (existing request : Order)
    → Retried existing request (
        if orders_match_for_idempotency existing request
        then ok existing
        else err (domain idempotency_key_conflict))
decided existing request = elim (Bool-cases (orders_match_for_idempotency existing request)) [
  | inl same ↦ returned (orders_match-SamePayload existing request same) (ground (arith, same))
  | inr other ↦
      conflicting (λ s. ground (arith, other, SamePayload-orders_match existing request s))
        (ground (arith, other))
]

module _ (codec : Codec) (created_topic cancelled_topic : String) where
  looked_up :
      (order existing : Order) (w : World OrderDb)
      → validate_create_order order ≡ false
      → is_empty order.idempotency_key ≡ false
      → (get_order_by_idempotency_key order.idempotency_key w).0 ≡ ok existing
      → create_normalized codec created_topic cancelled_topic order w ≡ (
        (if orders_match_for_idempotency existing order
            then ok existing
            else err (domain idempotency_key_conflict)),
        (get_order_by_idempotency_key order.idempotency_key w).1,
      )
  unfolding create_normalized after_lookup same_or_conflict running
  looked_up order existing w v k found = ground (arith, found)

  -- If the key of a valid request belongs to an order, `CreateOrder` creates nothing and leaves the
  -- tables as they were. It returns that order where the request, its texts trimmed, has the same
  -- customer, address and payment and, one by one, the same items: product, sku, name, quantity and
  -- unit price. Otherwise it reports a conflict.
  pub create_order_retry :
      (raw existing : Order) (w : World OrderDb)
      → validate_create_order (normalize_order_input raw) ≡ false
      → is_empty (normalize_order_input raw).idempotency_key ≡ false
      → (get_order_by_idempotency_key (normalize_order_input raw).idempotency_key w).0 ≡ ok existing
      → Retried existing
          (normalize_order_input raw)
          (create_order codec created_topic cancelled_topic raw w).0
        × ((create_order codec created_topic cancelled_topic raw w).1.db ≡ w.db)
  unfolding create_order
  create_order_retry raw existing w v k found =
      let e = looked_up (normalize_order_input raw) existing w v k found in
      (
        subst (Retried existing (normalize_order_input raw)) (sym (ap (λ x. x.0) e))
            (decided existing (normalize_order_input raw)),
        ap (λ x. x.1.db) e
            ∙ (get_order_by_idempotency_key-Keeps (λ x. x ≡ w.db)
                  (normalize_order_input raw).idempotency_key).apply
                w refl,
      )
