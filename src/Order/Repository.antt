-- ===== src/Order/Repository.antt =====
-- internal/order/repository/postgres.go. The topics are those of `NewPostgresRepository`, trimmed.
use event_driven_ecommerce.Base.{
  ℕ, suc, String, str_eq, Bool, true, false, not, ◌&&◌, ◌||◌, List, [], ◌∷◌, if◌then◌else◌,
  is_blank, is_empty, trim_space, ◌>>=◌, ◌>>◌, pure, fail_if, lift, map_error, DbError, no_rows,
  pg_error, broken, Failure, domain, other, wrap, now, query, transaction, ◌<>◌,
}
use event_driven_ecommerce.Events.{Codec}
use event_driven_ecommerce.Order.Enums.{cancelled, status_name, is_method_unspecified}
use event_driven_ecommerce.Order.Domain.{
  Order, OrderItem, OrderRow, OrderItemRow, OrderOutboxEvent, OrderError, Call, order_not_found,
  invalid_order, order_already_exists, idempotency_key_already_exists,
}
use event_driven_ecommerce.Order.Queries
use event_driven_ecommerce.Order.Queries.{
  create_order_item, list_order_items_by_order_id, delete_order_items_by_order_id,
  create_order_outbox_event,
}
use event_driven_ecommerce.Order.Rows.{to_order_db_params, to_item_params, map_db_order}
use event_driven_ecommerce.Order.OutboxMessage.{
  new_order_created_outbox_message, new_order_cancelled_outbox_message,
}

abbrev pub fails_with : String → String → Failure OrderError
fails_with context text = wrap context (broken text)

abbrev pub or_missing : String → DbError → Failure OrderError
or_missing context no_rows = domain order_not_found
or_missing context e = wrap context e

-- `error.Error()` of an order error, as a wrapping prints it.
abbrev pub error_text : Failure OrderError → String
error_text (domain order_not_found) = "order not found"
error_text (domain invalid_order) = "invalid order"
error_text (domain order_already_exists) = "order already exists"
error_text (domain idempotency_key_already_exists) = "order already exists for idempotency key"
error_text (domain OrderError.idempotency_key_conflict) =
    "idempotency key already used for a different order payload"
error_text (domain OrderError.invalid_order_id) = "invalid order id"
error_text (domain OrderError.invalid_customer_id) = "invalid customer id"
error_text (domain OrderError.order_cannot_be_cancelled) =
    "order cannot be cancelled in current status"
error_text (other text) = text

unfoldable pub map_create_order_error : DbError → Failure OrderError
map_create_order_error no_rows = wrap "create order in postgres" no_rows
map_create_order_error (broken text) = wrap "create order in postgres" (broken text)
map_create_order_error (pg_error code constraint text) =
    if not (str_eq code "23505")
    then wrap "create order in postgres" (pg_error code constraint text)
    else if str_eq constraint "orders_pkey"
    then domain order_already_exists
    else if str_eq constraint "orders_idempotency_key_key"
    then domain idempotency_key_already_exists
    else wrap "create order in postgres" (pg_error code constraint text)

unfoldable pub map_update_order_error : DbError → Failure OrderError
map_update_order_error = or_missing "update order in postgres"

unfoldable pub validate_order : Order → Bool
validate_order order =
    is_blank order.id
    || is_blank order.customer_id
    || is_blank order.shipping_address.country
    || is_blank order.shipping_address.city
    || is_blank order.shipping_address.street
    || is_blank order.shipping_address.postal_code
    || is_blank order.shipping_address.house
    || is_method_unspecified order.payment.method

-- The loop of `insertOrderItems`, from a position on.
unfoldable pub insert_items_from : String → ℕ → List OrderItem → Call (Unit {0})
insert_items_from o i [] = pure tt
insert_items_from o i (item ∷ items) =
    map_error (wrap "create order item in postgres")
      (query (create_order_item (to_item_params o i item)))
    >> insert_items_from o (suc i) items

unfoldable pub insert_order_items : Order → Call (Unit {0})
insert_order_items order = insert_items_from order.id 0 order.items

-- `mapDBOrder` of rows just written, its error wrapped.
unfoldable pub mapped : String → OrderRow → List OrderItemRow → Call Order
mapped context row items =
    map_error (λ e. other (context <> ": " <> error_text e)) (lift (map_db_order row items))

unfoldable pub insert_outbox_event : String → String → (ℕ → OrderOutboxEvent) → Call (Unit {0})
insert_outbox_event context topic message = do
  fail_if (is_blank topic) (other (context <> ": topic is required"))
  at ← now
  map_error (wrap context) (query (create_order_outbox_event (message at)))

unfoldable pub get_order_by_id : String → Call Order
get_order_by_id id = do
  row ← map_error (or_missing "get order by id from postgres") (query (Queries.get_order_by_id id))
  items ←
      map_error (wrap "list order items by order id from postgres")
        (query (list_order_items_by_order_id id))
  lift (map_db_order row items)

unfoldable pub get_order_by_idempotency_key : String → Call Order
get_order_by_idempotency_key raw = do
  fail_if (is_empty (trim_space raw)) (domain invalid_order)
  row ←
      map_error (or_missing "get order by idempotency key from postgres")
        (query (Queries.get_order_by_idempotency_key (trim_space raw)))
  items ←
      map_error (wrap "list order items by idempotency key from postgres")
        (query (list_order_items_by_order_id row.id))
  lift (map_db_order row items)

-- Did this update cancel the order?
unfoldable pub newly_cancelled : OrderRow → OrderRow → Bool
newly_cancelled existing row =
    not (str_eq existing.status row.status) && str_eq row.status (status_name cancelled)

module _ (codec : Codec) (order_created_topic order_cancelled_topic : String) where
  unfoldable pub insert_order_created_outbox_event : Order → Call (Unit {0})
  insert_order_created_outbox_event order =
      insert_outbox_event "create order outbox event in postgres" order_created_topic
        λ at. new_order_created_outbox_message codec order_created_topic at order

  unfoldable pub insert_order_cancelled_outbox_event : Order → Call (Unit {0})
  insert_order_cancelled_outbox_event order =
      insert_outbox_event "create order cancelled outbox event in postgres" order_cancelled_topic
        λ at. new_order_cancelled_outbox_message codec order_cancelled_topic at order

  -- What `CreateOrder` does between `Begin` and `Commit`.
  unfoldable pub create_body : Order → Call Order
  create_body order = do
    row ← map_error map_create_order_error (query (Queries.create_order (to_order_db_params order)))
    insert_order_items order
    insert_order_created_outbox_event order
    items ←
        map_error (wrap "load created order items from postgres")
          (query (list_order_items_by_order_id order.id))
    mapped "map created order from postgres" row items

  unfoldable pub create_order : Order → Call Order
  create_order order = do
    fail_if (validate_order order) (domain invalid_order)
    transaction (fails_with "begin create order transaction")
        (λ _. fails_with "commit create order transaction") (create_body order)

  unfoldable pub cancelled_event_if : Bool → Order → Call (Unit {0})
  cancelled_event_if true order = insert_order_cancelled_outbox_event order
  cancelled_event_if false order = pure tt

  -- What `UpdateOrder` does between `Begin` and `Commit`.
  unfoldable pub update_body : Order → Call Order
  update_body order = do
    existing ←
        map_error (or_missing "get current order by id from postgres")
          (query (Queries.get_order_by_id order.id))
    row ← map_error map_update_order_error (query (Queries.update_order (to_order_db_params order)))
    map_error (wrap "delete order items by order id in postgres")
        (query (delete_order_items_by_order_id order.id))
    insert_order_items order
    items ←
        map_error (wrap "load updated order items from postgres")
          (query (list_order_items_by_order_id order.id))
    updated ← mapped "map updated order from postgres" row items
    cancelled_event_if (newly_cancelled existing row) updated
    pure updated

  unfoldable pub update_order : Order → Call Order
  update_order order = do
    fail_if (validate_order order) (domain invalid_order)
    transaction (fails_with "begin update order transaction")
        (λ _. fails_with "commit update order transaction") (update_body order)
