-- ===== src/Order/Reading.antt =====
-- What reading an order, and creating one, keep of the tables.
use event_driven_ecommerce.Base.{
  String, ◌≡◌, refl, arith, Failure, Keeps, pure-Keeps, fail-Keeps, fail_if-Keeps, lift-Keeps,
  map_error-Keeps, try-Keeps, read-Keeps, if-Keeps, on_some-Keeps, bind-Keeps, now-Keeps, Result,
  ok, err,
}
use event_driven_ecommerce.Events.{Codec}
use event_driven_ecommerce.Order.Enums.{pending}
use event_driven_ecommerce.Order.Domain.{Order, OrderDb, OrderError}
use event_driven_ecommerce.Order.Queries
use event_driven_ecommerce.Order.Queries.{
  list_order_items_by_order_id, find_order, replace_order, stored,
}
use event_driven_ecommerce.Order.Repository
use event_driven_ecommerce.Order.Repository.{
  newly_cancelled, get_order_by_id, get_order_by_idempotency_key,
}
use event_driven_ecommerce.Order.Service.{
  same_or_conflict, id_or_new, after_create, create_new, after_lookup, create_normalized,
  create_order,
}

module _ (I : OrderDb → Type 0) where
  pub get_order_by_id-Keeps : (id : String) → Keeps I (get_order_by_id id)
  unfolding get_order_by_id Queries.get_order_by_id list_order_items_by_order_id
  get_order_by_id-Keeps id =
      bind-Keeps _ _ _ (map_error-Keeps _ _ _ (read-Keeps I _ (λ d d' a e. ground arith))) λ row.
        bind-Keeps _ _ _ (map_error-Keeps _ _ _ (read-Keeps I _ (λ d d' a e. ground arith)))
          λ items. lift-Keeps I _

  pub get_order_by_idempotency_key-Keeps :
      (key : String) → Keeps I (get_order_by_idempotency_key key)
  unfolding get_order_by_idempotency_key Queries.get_order_by_idempotency_key
      list_order_items_by_order_id
  get_order_by_idempotency_key-Keeps key = bind-Keeps _ _ _ (fail_if-Keeps I _ _) λ _.
      bind-Keeps _ _ _ (map_error-Keeps _ _ _ (read-Keeps I _ (λ d d' a e. ground arith))) λ row.
        bind-Keeps _ _ _ (map_error-Keeps _ _ _ (read-Keeps I _ (λ d d' a e. ground arith)))
          λ items. lift-Keeps I _

  pub same_or_conflict-Keeps : (a b : Order) → Keeps I (same_or_conflict a b)
  unfolding same_or_conflict
  same_or_conflict-Keeps a b = if-Keeps I _ _ _ (pure-Keeps I _) (fail-Keeps I _)

-- `CreateOrder` keeps what the transaction that creates a pending order keeps.
module _ (codec : Codec) (created_topic cancelled_topic : String) (I : OrderDb → Type 0)
    (creates : (order : Order)
      → order.status ≡ pending
      → Keeps I (Repository.create_order codec created_topic cancelled_topic order)) where
  after_create-Keeps :
      (order : Order) (r : Result (Failure OrderError) Order)
      → Keeps I (after_create codec created_topic cancelled_topic order r)
  unfolding after_create
  after_create-Keeps order (ok created) = pure-Keeps I created
  after_create-Keeps order (err e) =
      if-Keeps I _ _ _
        (bind-Keeps _ _ _ (get_order_by_idempotency_key-Keeps I _)
          λ existing. same_or_conflict-Keeps I existing order)
        (fail-Keeps I e)

  create_new-Keeps :
      (order : Order) → Keeps I (create_new codec created_topic cancelled_topic order)
  unfolding create_new id_or_new
  create_new-Keeps order =
      bind-Keeps _ _ _
        (if-Keeps I _ _ _ (bind-Keeps _ _ _ (now-Keeps I) λ at. pure-Keeps I _) (pure-Keeps I _))
        λ id. on_some-Keeps I _ _ _ (fail-Keeps I _) λ priced. bind-Keeps _ _ _ (now-Keeps I) λ at.
          bind-Keeps _ _ _ (try-Keeps I _ (creates _ refl)) λ outcome. after_create-Keeps _ outcome

  after_lookup-Keeps :
      (order : Order) (r : Result (Failure OrderError) Order)
      → Keeps I (after_lookup codec created_topic cancelled_topic order r)
  unfolding after_lookup
  after_lookup-Keeps order (ok existing) = same_or_conflict-Keeps I existing order
  after_lookup-Keeps order (err e) = if-Keeps I _ _ _ (create_new-Keeps order) (fail-Keeps I e)

  pub create_order-Keeps :
      (order : Order) → Keeps I (create_order codec created_topic cancelled_topic order)
  unfolding create_order create_normalized
  create_order-Keeps order = bind-Keeps _ _ _ (fail_if-Keeps I _ _) λ _.
      if-Keeps I _ _ _ (create_new-Keeps _) (
        bind-Keeps _ _ _ (try-Keeps I _ (get_order_by_idempotency_key-Keeps I _))
          λ r. after_lookup-Keeps _ r)
